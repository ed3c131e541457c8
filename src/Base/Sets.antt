-- ===== src/Base/Sets.antt =====
-- `BTreeSet`: a list of distinct elements in the order of insertion. No operation of the program
-- depends on the order in which a set is walked.
use mathlib.Core.Path.{◌≡◌, subst}
use mathlib.Core.Logic.{inl, inr}
use mathlib.Core.Bool.{Bool, true, false, ◌||◌}
use mathlib.Core.List.{List, [], ◌∷◌}
use native.Mathlib.Omega.{arith}
use credman.Base.Tests.{if◌then◌else◌, Bool-cases}
use credman.Base.Lists.{all, Member, here, there}
use credman.Base.Equality.{Eq, ◌==◌, ==_refl, ==→≡}

module _ {ℓ} {A : Type ℓ} ⦃e : Eq A⦄ where
  abbrev pub contains : List A → A → Bool
  contains [] a = false
  contains (x ∷ xs) a = x == a || contains xs a

  -- `xs.is_subset(ys)`.
  abbrev pub is_subset : List A → List A → Bool
  is_subset xs ys = all (contains ys) xs

  abbrev pub insert_set : A → List A → List A
  insert_set a xs = if contains xs a then xs else a ∷ xs

  pub Member-contains : {a : A} {xs : List A} → Member a xs → contains xs a ≡ true
  Member-contains {a = a} (here {xs = xs}) = ground (arith, ==_refl a)
  Member-contains (there m) = ground (arith, Member-contains m)

  pub contains-Member : {a : A} {xs : List A} → contains xs a ≡ true → Member a xs
  contains-Member {a = a} {xs = []} h = cc
  contains-Member {a = a} {xs = x ∷ xs} h = elim (Bool-cases (x == a)) [
    | inl hit ↦ subst (λ y. Member y (x ∷ xs)) (==→≡ x a hit) here
    | inr miss ↦ there (contains-Member {a = a} {xs = xs} (ground arith))
  ]

  pub is_subset-contains :
      (xs ys : List A) (a : A)
      → is_subset xs ys ≡ true
      → contains xs a ≡ true
      → contains ys a ≡ true
  is_subset-contains [] ys a h c = ground arith
  is_subset-contains (x ∷ xs) ys a h c = ground (arith, e.beq_iff x a, is_subset-contains xs ys a)

  pub is_subset_trans :
      (xs ys zs : List A) → is_subset xs ys ≡ true → is_subset ys zs ≡ true → is_subset xs zs ≡ true
  is_subset_trans [] ys zs h k = ground arith
  is_subset_trans (x ∷ xs) ys zs h k =
      ground (arith, is_subset-contains ys zs x, is_subset_trans xs ys zs)

  pub contains-insert_set :
      (a b : A) (xs : List A)
      → contains (insert_set a xs) b ≡ (if a == b then true else contains xs b)
  contains-insert_set a b xs = ground (arith, e.beq_iff a b)
