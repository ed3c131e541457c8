-- ===== src/Base/Dict.antt =====
-- `BTreeMap`: an association list with one entry for each key, in the order of insertion. The
-- program walks its maps by `any`, `all`, counts and searches of which at most one entry is the
-- answer, so the key order of a real map is not modelled.
use Prim.Native.Nat.{◌+◌, ◌≤◌}
use mathlib.Core.Path.{◌≡◌, refl, subst}
use mathlib.Core.Logic.{inl, inr}
use mathlib.Core.Bool.{Bool}
use mathlib.Core.Option.{Option, none, some}
use mathlib.Core.List.{List, [], ◌∷◌}
use native.Mathlib.Omega.{arith}
use credman.Base.Tests.{if◌then◌else◌, is_some, Bool-cases}
use credman.Base.Lists.{length, filter, Member, here, there}
use credman.Base.Equality.{Eq, ◌==◌, ==_refl}

abbrev pub Dict {ℓ κ} : Type ℓ → Type κ → Type (ℓ ⊔ κ)
Dict K V = List (K × V)

-- `Option::map`.
abbrev pub option_map {ℓ κ} : {A : Type ℓ} {B : Type κ} → (A → B) → Option A → Option B
option_map f none = none
option_map f (some v) = some (f v)

module _ {ℓ κ} {K : Type ℓ} {V : Type κ} where
  unfoldable pub keys : Dict K V → List K
  keys [] = []
  keys ((k, v) ∷ d) = k ∷ keys d

  unfoldable pub values : Dict K V → List V
  values [] = []
  values ((k, v) ∷ d) = v ∷ values d

  -- `values_mut` with an assignment.
  unfoldable pub map_values : (V → V) → Dict K V → Dict K V
  map_values f [] = []
  map_values f ((k, v) ∷ d) = (k, f v) ∷ map_values f d

module _ {ℓ κ} {K : Type ℓ} {V : Type κ} ⦃e : Eq K⦄ where
  unfoldable pub lookup : K → Dict K V → Option V
  lookup k [] = none
  lookup k ((j, v) ∷ d) = if j == k then some v else lookup k d

  abbrev pub contains_key : K → Dict K V → Bool
  contains_key k d = is_some (lookup k d)

  unfoldable pub insert : K → V → Dict K V → Dict K V
  insert k v [] = (k, v) ∷ []
  insert k v ((j, w) ∷ d) = if j == k then (j, v) ∷ d else (j, w) ∷ insert k v d

  unfoldable pub erase : K → Dict K V → Dict K V
  erase k [] = []
  erase k ((j, w) ∷ d) = let rest = erase k d in if j == k then rest else (j, w) ∷ rest

  pub lookup-nil : (k : K) → lookup k [] ≡ none
  unfolding lookup
  lookup-nil k = refl

  pub lookup-insert :
      (k j : K) (v : V) (d : Dict K V)
      → lookup j (insert k v d) ≡ (if k == j then some v else lookup j d)
  unfolding lookup insert
  lookup-insert k j v [] = refl
  lookup-insert k j v ((i, w) ∷ d) =
      ground (arith, e.beq_iff k j, e.beq_iff i k, e.beq_iff i j, lookup-insert k j v d)

  pub lookup-insert_self : (k : K) (v : V) (d : Dict K V) → lookup k (insert k v d) ≡ some v
  lookup-insert_self k v d = ground (arith, lookup-insert k k v d, ==_refl k)

  pub lookup-erase :
      (k j : K) (d : Dict K V) → lookup j (erase k d) ≡ (if k == j then none else lookup j d)
  unfolding lookup erase
  lookup-erase k j [] = ground arith
  lookup-erase k j ((i, w) ∷ d) =
      ground (arith, e.beq_iff i k, e.beq_iff i j, e.beq_iff k j, lookup-erase k j d)

  pub lookup-map_values :
      (f : V → V) (j : K) (d : Dict K V) → lookup j (map_values f d) ≡ option_map f (lookup j d)
  unfolding lookup map_values
  lookup-map_values f j [] = refl
  lookup-map_values f j ((i, w) ∷ d) = ground (arith, lookup-map_values f j d)

  pub Member-values : (k : K) (v : V) (d : Dict K V) → lookup k d ≡ some v → Member v (values d)
  unfolding lookup values
  Member-values k v [] h = cc
  Member-values k v ((j, w) ∷ d) h = elim (Bool-cases (j == k)) [
    | inl hit ↦ subst (λ x. Member v (x ∷ values d)) (ground arith) here
    | inr miss ↦ there (Member-values k v d (ground arith))
  ]

  -- A real map has one entry for each key.
  abbrev pub NodupKeys : Dict K V → Type κ
  NodupKeys [] = Unit
  NodupKeys ((k, v) ∷ d) = (lookup k d ≡ none) × NodupKeys d

  pub insert-NodupKeys : (k : K) (v : V) (d : Dict K V) → NodupKeys d → NodupKeys (insert k v d)
  unfolding insert lookup
  insert-NodupKeys k v [] u = (refl, tt)
  insert-NodupKeys k v ((j, w) ∷ d) u =
      ground (arith, insert-NodupKeys k v d, lookup-insert k j v d, e.beq_iff j k, e.beq_iff k j)

  -- The values of a map with distinct keys are those that a lookup finds.
  pub Member-lookup :
      (v : V) (d : Dict K V) → NodupKeys d → Member v (values d) → (k : K) × (lookup k d ≡ some v)
  unfolding lookup values
  Member-lookup v [] u m = elim m [ ]
  Member-lookup v ((j, w) ∷ d) u here = (j, ground (arith, ==_refl j))
  Member-lookup v ((j, w) ∷ d) u (there m) =
      let (k, found) = Member-lookup v d u.1 m in (k, ground (arith, e.beq_iff j k))

  pub length-insert_le : (k : K) (v : V) (d : Dict K V) → length (insert k v d) ≤ length d + 1
  unfolding insert
  length-insert_le k v [] = omega arith
  length-insert_le k v (_ ∷ d) = ground (arith, length-insert_le k v d)

  pub length-insert_over :
      (k : K) (v w : V) (d : Dict K V) → lookup k d ≡ some w → length (insert k v d) ≡ length d
  unfolding insert lookup
  length-insert_over k v w [] h = absurd (ground arith)
  length-insert_over k v w ((j, u) ∷ d) h = ground (arith, length-insert_over k v w d)

  pub length-erase_le : (k : K) (d : Dict K V) → length (erase k d) ≤ length d
  unfolding erase
  length-erase_le k [] = omega arith
  length-erase_le k ((j, u) ∷ d) = ground (arith, length-erase_le k d)

  pub erase-NodupKeys : (k : K) (d : Dict K V) → NodupKeys d → NodupKeys (erase k d)
  unfolding erase lookup
  erase-NodupKeys k [] u = tt
  erase-NodupKeys k ((j, w) ∷ d) u = elim (Bool-cases (j == k)) [
    | inl hit ↦ rw hit (erase-NodupKeys k d u.1)
    | inr miss ↦ rw miss (ground (arith, lookup-erase k j d), erase-NodupKeys k d u.1)
  ]

  -- `retain`.
  module _ (p : K × V → Bool) where
    pub length-filter_le : (d : Dict K V) → length (filter p d) ≤ length d
    length-filter_le [] = omega arith
    length-filter_le (x ∷ d) = ground (arith, length-filter_le d)

    pub lookup-filter-none :
        (k : K) (d : Dict K V) → lookup k d ≡ none → lookup k (filter p d) ≡ none
    unfolding lookup
    lookup-filter-none k [] h = refl
    lookup-filter-none k ((j, w) ∷ d) h = ground (arith, lookup-filter-none k d)

    pub lookup-filter :
        (k : K) (v : V) (d : Dict K V)
        → NodupKeys d
        → lookup k (filter p d) ≡ some v
        → lookup k d ≡ some v
    unfolding lookup
    lookup-filter k v [] u h = h
    lookup-filter k v ((j, w) ∷ d) u h =
        ground (arith, e.beq_iff j k, lookup-filter k v d u.1, lookup-filter-none j d u.0)

    pub filter-NodupKeys : (d : Dict K V) → NodupKeys d → NodupKeys (filter p d)
    filter-NodupKeys [] u = tt
    filter-NodupKeys ((j, w) ∷ d) u = elim (Bool-cases (p (j, w))) [
      | inl kept ↦ rw kept (lookup-filter-none j d u.0, filter-NodupKeys d u.1)
      | inr dropped ↦ rw dropped (filter-NodupKeys d u.1)
    ]
