-- ===== src/Base/Order.antt =====
-- `Vec::sort` and `dedup` on numbers, and the loops of the program over a list of keys.
use Prim.Native.Nat.{ℕ}
use mathlib.Core.Bool.{Bool, true, ◌&&◌}
use mathlib.Core.List.{List, [], ◌∷◌}
use credman.Base.Tests.{leb, ltb, eqb, if◌then◌else◌}

-- Insertion keeps the elements with an equal key in their order.
module _ {ℓ} {A : Type ℓ} (key : A → ℕ) where
  unfoldable pub insert_by_key : A → List A → List A
  insert_by_key a [] = a ∷ []
  insert_by_key a (x ∷ xs) = if leb (key a) (key x) then a ∷ x ∷ xs else x ∷ insert_by_key a xs

  -- `sort_by_key`.
  unfoldable pub sort_by_key : List A → List A
  unfolding insert_by_key
  sort_by_key [] = []
  sort_by_key (x ∷ xs) = insert_by_key x (sort_by_key xs)

unfoldable pub sort : List ℕ → List ℕ
unfolding sort_by_key
sort xs = sort_by_key (λ x. x) xs

-- `dedup`, which drops an element equal to the one before it.
unfoldable pub dedup : List ℕ → List ℕ
dedup [] = []
dedup (x ∷ []) = x ∷ []
dedup (x ∷ y ∷ xs) = let rest = dedup (y ∷ xs) in if eqb x y then rest else x ∷ rest

-- `windows(2).all(|pair| pair[0] < pair[1])`.
unfoldable pub increasing : List ℕ → Bool
increasing [] = true
increasing (x ∷ []) = true
increasing (x ∷ y ∷ xs) = ltb x y && increasing (y ∷ xs)

-- `for x in xs { step(x) }` on a state.
module _ {ℓ κ} {A : Type ℓ} {S : Type κ} (step : A → S → S) where
  unfoldable pub each : List A → S → S
  each [] s = s
  each (x ∷ xs) s = each xs (step x s)

  pub each_inv {μ} :
      (P : S → Type μ)
      → ((x : A) (s : S) → P s → P (step x s))
      → (xs : List A) (s : S) → P s
      → P (each xs s)
  unfolding each
  each_inv P keep [] s h = h
  each_inv P keep (x ∷ xs) s h = each_inv P keep xs (step x s) (keep x s h)
