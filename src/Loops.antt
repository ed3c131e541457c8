-- ===== src/Loops.antt =====
-- `for x in xs { step(x)?; }`, with and without a state that the loop carries.
use credman.Base.{◌≡◌, subst, arith, List, [], ◌∷◌, Member, here, there}
use credman.Result.{Result, ok, ◌>>=◌, ◌>>◌, bind_ok, then_ok}

module _ {ℓ} {A : Type ℓ} (step : A → Result (Unit {0})) where
  unfoldable pub try_each : List A → Result (Unit {0})
  try_each [] = ok tt
  try_each (x ∷ xs) = step x >> try_each xs

  -- A loop that ends has passed every element.
  pub try_each_ok : {a : A} {xs : List A} → Member a xs → try_each xs ≡ ok tt → step a ≡ ok tt
  unfolding try_each
  try_each_ok {a = a} (here {xs = xs}) h = (then_ok (step a) (try_each xs) tt h).0
  try_each_ok (there {x = x} {xs = xs} m) h = try_each_ok m (then_ok (step x) (try_each xs) tt h).1

module _ {ℓ κ} {A : Type ℓ} {S : Type κ} (step : A → S → Result S) where
  unfoldable pub fold_each : List A → S → Result S
  fold_each [] s = ok s
  fold_each (x ∷ xs) s = do s' ← step x s; fold_each xs s'

  -- The state before the step of an element of a loop that ends.
  pub record StepAt (a : A) : Type κ where
    pub before : S
    pub after : S
    pub stepped : step a before ≡ ok after

  pub fold_each_ok :
      {a : A} {xs : List A} → Member a xs → (s s' : S) → fold_each xs s ≡ ok s' → StepAt a
  unfolding fold_each
  fold_each_ok {a = a} (here {xs = xs}) s s' h =
      let (after, stepped, _) = bind_ok (step a s) (fold_each xs) s' h in
      record { before = s; after = after; stepped = stepped }
  fold_each_ok (there {x = x} {xs = xs} m) s s' h =
      let (after, _, rest) = bind_ok (step x s) (fold_each xs) s' h in fold_each_ok m after s' rest

  -- What every step keeps, a loop that ends keeps.
  pub fold_each_inv {μ} :
      (P : S → Type μ)
      → ((x : A) (s s' : S) → step x s ≡ ok s' → P s → P s')
      → (xs : List A) (s s' : S) → fold_each xs s ≡ ok s'
      → P s
      → P s'
  unfolding fold_each
  fold_each_inv P keep [] s s' h p = subst P (ground arith) p
  fold_each_inv P keep (x ∷ xs) s s' h p =
      let (next, step_ok, rest) = bind_ok (step x s) (fold_each xs) s' h in
      fold_each_inv P keep xs next s' rest (keep x s next step_ok p)
