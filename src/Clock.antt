-- ===== src/Clock.antt =====
-- src/agent/mod.rs, `effective_time` and `clock`: the trusted clock of the vault and its high-water
-- mark. What is proved of them is in Clock/Progress.
pub mod Progress
pub mod Frame
use credman.Base.{Bool, true, Option, none, some, if◌then◌else◌, is_none_or}
use credman.Base.Int.{ltb_ℤ, leb_ℤ, saturating_sub}
use credman.Result.{Result, ok, err, clock_recovery_required}
use credman.Exec.{Exec}
use credman.Types.{Time, clock_skew_tolerance, Application}

-- `Application::effective_time`.
unfoldable pub effective_time : Application → Time → Result Time
effective_time app now =
    if app.clock_frozen then err clock_recovery_required else elim app.last_time [
      | none ↦ ok now
      | some last ↦
          if ltb_ℤ now last
          then if leb_ℤ (saturating_sub last now) clock_skew_tolerance
            then ok last
            else err clock_recovery_required
          else ok now
    ]

-- The assignment of `clock` to `last_time`.
abbrev raise_mark : Option Time → Time → Option Time
raise_mark last now = if is_none_or last (λ high. ltb_ℤ high now) then some now else last

-- `Application::clock`.
unfoldable pub clock : Time → Exec Application Time
unfolding effective_time
clock now app = elim (effective_time app now) [
  | err e ↦ (err e, record app { clock_frozen = true })
  | ok effective ↦ (ok effective, record app { last_time = raise_mark app.last_time now })
]
