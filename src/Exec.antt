-- ===== src/Exec.antt =====
-- Methods on `&mut self` that may return an error. What was written before the error stays written,
-- so the state comes back beside the error too.
use credman.Base.{◌≡◌, ap, ◌∙◌, inl, inr, arith, Bool, true, false}
use credman.Result.{Error, Result, ok, err, Result-cases}

abbrev pub Exec {ℓ κ} : Type ℓ → Type κ → Type (ℓ ⊔ κ)
Exec S A = S → Result A × S

-- What stands after a step, from its result.
abbrev pub proceed {ℓ κ μ} :
    {S : Type ℓ} {A : Type κ} {B : Type μ} → Result A → (A → Exec S B) → Exec S B
proceed (ok a) f s = f a s
proceed (err e) f s = (err e, s)

infixl 10 ◌>>=◌ ◌>>◌
abbrev pub ◌>>=◌ {ℓ κ μ} :
    {S : Type ℓ} {A : Type κ} {B : Type μ} → Exec S A → (A → Exec S B) → Exec S B
◌>>=◌ m f s = let (r, s') = m s in proceed r f s'

abbrev pub ◌>>◌ {ℓ κ} : {S : Type ℓ} {B : Type κ} → Exec S (Unit {0}) → Exec S B → Exec S B
m >> k = m >>= λ _. k

module _ {ℓ κ} {S : Type ℓ} {A : Type κ} where
  abbrev pub pure : A → Exec S A
  pure a s = (ok a, s)

  abbrev pub raise : Error → Exec S A
  raise e s = (err e, s)

  -- A check or a read of the state that cannot change it, as a method on `&self`.
  abbrev pub reads : (S → Result A) → Exec S A
  reads f s = (f s, s)

module _ {ℓ} {S : Type ℓ} where
  abbrev pub refuse : Bool → Error → Exec S (Unit {0})
  refuse true e s = (err e, s)
  refuse false e s = (ok tt, s)

  abbrev pub modify : (S → S) → Exec S (Unit {0})
  modify f s = (ok tt, f s)

-- What a chain that succeeds has gone through.
pub exec_ok {ℓ κ μ} :
    {S : Type ℓ} {A : Type κ} {B : Type μ} (m : Exec S A) (f : A → Exec S B) (s s' : S) (b : B)
    → (m >>= f) s ≡ (ok b, s')
    → (a : A) × (mid : S) × (m s ≡ (ok a, mid)) × (f a mid ≡ (ok b, s'))
exec_ok m f s s' b h = elim (Result-cases (m s).0) [
  | inl (a, found) ↦
      let at : m s ≡ (ok a, (m s).1) = λ i. (found i, (m s).1) in
      (a, (m s).1, at, rw (found, at) at h)
  | inr (e, failed) ↦ absurd (ground arith)
]

-- What a chain goes on to.
pub exec_on {ℓ κ μ} :
    {S : Type ℓ} {A : Type κ} {B : Type μ} (m : Exec S A) (f : A → Exec S B) {s mid : S} {a : A}
    {q : Result B × S}
    → m s ≡ (ok a, mid)
    → f a mid ≡ q
    → (m >>= f) s ≡ q
exec_on {S = S} {A = A} m f h k = ap (λ (r : Result A × S). proceed r.0 f r.1) h ∙ k
