-- ===== src/Base/Lists.antt =====
-- Lists measured by native numbers, and the tests `any` and `all` of Rust's iterators.
use Prim.Native.Nat.{ℕ, suc, ◌+◌}
use mathlib.Core.Path.{◌≡◌, refl}
use mathlib.Core.Logic.{inl, inr}
use mathlib.Core.Bool.{Bool, true, false, ◌&&◌, ◌||◌}
use mathlib.Core.List.{List, [], ◌∷◌, ◌++◌}
use native.Mathlib.Omega.{arith}
use credman.Base.Tests.{if◌then◌else◌, Bool-cases, &&-eq-true}

module _ {ℓ} {A : Type ℓ} where
  abbrev pub length : List A → ℕ
  length [] = 0
  length (x ∷ xs) = suc (length xs)

  abbrev pub is_empty : List A → Bool
  is_empty [] = true
  is_empty (x ∷ xs) = false

  abbrev pub any : (A → Bool) → List A → Bool
  any p [] = false
  any p (x ∷ xs) = p x || any p xs

  abbrev pub all : (A → Bool) → List A → Bool
  all p [] = true
  all p (x ∷ xs) = p x && all p xs

  -- `Iterator::filter` and `retain`.
  abbrev pub filter : (A → Bool) → List A → List A
  filter p [] = []
  filter p (x ∷ xs) = let rest = filter p xs in if p x then x ∷ rest else rest

  pub length-append : (xs ys : List A) → length (xs ++ ys) ≡ length xs + length ys
  length-append [] ys = omega arith
  length-append (x ∷ xs) ys = omega (arith, length-append xs ys)

  -- Where an element stands in a list.
  pub data Member (a : A) : List A → Type ℓ where
    here : {xs : List A} → Member a (a ∷ xs)
    there : {x : A} {xs : List A} → Member a xs → Member a (x ∷ xs)

  pub any-elim :
      (p : A → Bool) (xs : List A) → any p xs ≡ true → (a : A) × Member a xs × (p a ≡ true)
  any-elim p [] h = cc
  any-elim p (x ∷ xs) h = elim (Bool-cases (p x)) [
    | inl hit ↦ (x, here, hit)
    | inr miss ↦
        let later : (a : A) × Member a xs × (p a ≡ true) = any-elim p xs (ground arith) in
        (later.0, there later.1, later.2)
  ]

  pub any-intro : (p : A → Bool) {a : A} {xs : List A} → Member a xs → p a ≡ true → any p xs ≡ true
  any-intro p here h = ground arith
  any-intro p (there m) h = ground (arith, any-intro p m h)

  pub all-elim : (p : A → Bool) {a : A} {xs : List A} → Member a xs → all p xs ≡ true → p a ≡ true
  all-elim p (here {xs = xs}) h = ground arith
  all-elim p (there {x = x} {xs = xs} m) h = all-elim p m (&&-eq-true (p x) (all p xs) h).1

  pub all-intro :
      (p : A → Bool) (xs : List A) → ((a : A) → Member a xs → p a ≡ true) → all p xs ≡ true
  all-intro p [] h = refl
  all-intro p (x ∷ xs) h = ground (arith, h x here, all-intro p xs (λ a m. h a (there m)))
