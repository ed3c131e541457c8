-- ===== src/Clock/Progress.antt =====
-- src/agent/mod.rs, `clock`: when the clock is accepted, and what it leaves.
use credman.Base.{
  ◌≡◌, refl, ◌+◌, ◌<◌, true, false, Option, none, some, ◌⊎◌, inl, inr, ⊎_elim, arith, if◌then◌else◌,
  Option-cases, Bool-cases,
}
use credman.Base.Int.{
  pos, ltb_ℤ, leb_ℤ, saturating_sub, saturating_sub-le, le-saturating_sub, eq_of_parts, pos_part,
  neg_part,
}
use credman.Result.{Result, ok, err, clock_recovery_required}
use credman.Types.{Time, Application}
use credman.Clock.{raise_mark, clock, effective_time}

-- A clock value is behind the mark by more than five seconds.
abbrev pub IsBehind : Option Time → Time → Type 0
IsBehind none now = ⊥
IsBehind (some last) now = pos_part now + neg_part last + 5 < pos_part last + neg_part now

-- The later of the mark and the clock value.
abbrev pub later : Option Time → Time → Time
later none now = now
later (some last) now = if ltb_ℤ now last then last else now

abbrev pub Refuses : Application → Time → Type 0
Refuses app now = (app.clock_frozen ≡ true) ⊎ IsBehind app.last_time now

abbrev pub Frozen : Application → Result Time × Application
Frozen app = (err clock_recovery_required, record app { clock_frozen = true })

abbrev pub Advanced : Application → Time → Result Time × Application
Advanced app now =
    (ok (later app.last_time now), record app { last_time = some (later app.last_time now) })

tolerated :
    (last now : Time) → leb_ℤ (saturating_sub last now) (pos 5) ≡ true → ¬ IsBehind (some last) now
unfolding pos_part neg_part
tolerated last now h behind =
    omega (arith, saturating_sub-le last now 5 (omega arith) (ground arith))

out_of_tolerance :
    (last now : Time) → leb_ℤ (saturating_sub last now) (pos 5) ≡ false → IsBehind (some last) now
unfolding pos_part neg_part
out_of_tolerance last now h = ground (arith, le-saturating_sub last now 5)

raise_mark-later : (last : Option Time) (now : Time) → raise_mark last now ≡ some (later last now)
raise_mark-later none now = refl
raise_mark-later (some last) now = ground (arith, eq_of_parts last now)

-- The error or the time, by whether the clock refuses.
abbrev Answer : Application → Time → Result Time → Type 0
Answer app now r =
    (Refuses app now × (r ≡ err clock_recovery_required))
    ⊎ ((¬ Refuses app now) × (r ≡ ok (later app.last_time now)))

marked-Answer :
    (app : Application) (now last : Time)
    → app.clock_frozen ≡ false
    → app.last_time ≡ some last
    → Answer app now (effective_time app now)
unfolding effective_time
marked-Answer app now last running marked = elim (Bool-cases (ltb_ℤ now last)) [
  | inl back ↦ elim (Bool-cases (leb_ℤ (saturating_sub last now) (pos 5))) [
    | inl near ↦ inr (⊎_elim (λ f. cc) (rw marked (tolerated last now near)), ground arith)
    | inr far ↦ inl (inr (rw marked (out_of_tolerance last now far)), ground arith)
  ]
  | inr ahead ↦ inr (⊎_elim (λ f. cc) (rw marked (λ behind. ground arith)), ground arith)
]

effective_time-Answer : (app : Application) (now : Time) → Answer app now (effective_time app now)
unfolding effective_time
effective_time-Answer app now = elim (Bool-cases app.clock_frozen) [
  | inl frozen ↦ inl (inl frozen, ground arith)
  | inr running ↦ elim (Option-cases app.last_time) [
    | inl unmarked ↦ inr (⊎_elim (λ f. cc) (rw unmarked (λ x. x)), ground arith)
    | inr (last, marked) ↦ marked-Answer app now last running marked
  ]
]

-- `clock` refuses, and freezes the vault, exactly if the vault is frozen or the clock value is more
-- than five seconds behind the mark. Otherwise it returns the later of the two and keeps it as the
-- mark. It changes nothing else.
pub clock_outcome :
    (app : Application) (now : Time)
    → (Refuses app now × (clock now app ≡ Frozen app))
      ⊎ ((¬ Refuses app now) × (clock now app ≡ Advanced app now))
unfolding clock
clock_outcome app now = elim (effective_time-Answer app now) [
  | inl (refuses, e) ↦ inl (refuses, rw (e, clock))
  | inr (accepts, e) ↦ inr (accepts, rw (e, clock) (rw (raise_mark-later app.last_time now)))
]
