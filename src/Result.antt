-- ===== src/Result.antt =====
-- src/agent/mod.rs: the error kinds that every component of the vault returns, and `Result`.
use credman.Base.{◌≡◌, refl, ap, ◌∙◌, Bool, true, false, arith, ◌⊎◌, inl, inr, Option, none, some}

-- `Error`.
pub data Error : Type 0 where
  denied invalid conflict replay_conflict clock_recovery_required capacity : Error
  interaction_required generation_unavailable not_published recovery_required : Error
  invalid_storage in_use : Error

pub data Result {ℓ} (A : Type ℓ) : Type ℓ where
  ok : A → Result A
  err : Error → Result A

-- `if bad { return Err(e); }`.
abbrev pub reject : Bool → Error → Result (Unit {0})
reject true e = err e
reject false e = ok tt

-- `option.ok_or(e)?`.
abbrev pub ok_or {ℓ} : {A : Type ℓ} → Option A → Error → Result A
ok_or none e = err e
ok_or (some a) e = ok a

-- `result.map_err(|_| e)`.
abbrev pub map_err {ℓ} : {A : Type ℓ} → Result A → Error → Result A
map_err (ok a) e = ok a
map_err (err _) e = err e

-- The `?` operator, and `?;`.
module _ {ℓ κ} {A : Type ℓ} {B : Type κ} where
  infixl 10 ◌>>=◌
  abbrev pub ◌>>=◌ : Result A → (A → Result B) → Result B
  err fault >>= next = err fault
  ok value >>= next = next value

module _ {ℓ} {B : Type ℓ} where
  infixl 10 ◌>>◌
  abbrev pub ◌>>◌ : Result (Unit {0}) → Result B → Result B
  err fault >> next = err fault
  ok done >> next = next

pub Result-cases {ℓ} :
    {A : Type ℓ} (r : Result A) → ((a : A) × (r ≡ ok a)) ⊎ ((e : Error) × (r ≡ err e))
Result-cases (ok a) = inl (a, refl)
Result-cases (err e) = inr (e, refl)

-- What a chain that succeeds has gone through.
pub bind_ok {ℓ κ} :
    {A : Type ℓ} {B : Type κ} (r : Result A) (next : A → Result B) (b : B)
    → (r >>= next) ≡ ok b
    → (a : A) × (r ≡ ok a) × (next a ≡ ok b)
bind_ok (ok a) next b k = (a, refl, k)
bind_ok (err e) next b k = absurd (ground arith)

pub then_ok {ℓ} :
    {B : Type ℓ} (r : Result (Unit {0})) (next : Result B) (b : B)
    → (r >> next) ≡ ok b
    → (r ≡ ok tt) × (next ≡ ok b)
then_ok (ok tt) next b k = (refl, k)
then_ok (err e) next b k = absurd (ground arith)

-- What a chain goes on to.
pub on_ok {ℓ κ} :
    {A : Type ℓ} {B : Type κ} {r : Result A} (next : A → Result B) {a : A} {q : Result B}
    → r ≡ ok a
    → next a ≡ q
    → (r >>= next) ≡ q
on_ok next h k = ap (λ r. r >>= next) h ∙ k

pub on_done {ℓ} :
    {B : Type ℓ} {r : Result (Unit {0})} (next : Result B) {q : Result B}
    → r ≡ ok tt
    → next ≡ q
    → (r >> next) ≡ q
on_done next h k = ap (λ r. r >> next) h ∙ k
