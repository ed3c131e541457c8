-- ===== src/Clock/Frame.antt =====
-- src/agent/mod.rs, `clock`: what it leaves alone.
use credman.Base.{◌≡◌, arith}
use credman.Types.{Time, Application}
use credman.Clock.{clock}

-- Two states that may differ in the clock only.
pub record SameButClock (a b : Application) : Type 0 where
  pub tasks : b.tasks ≡ a.tasks
  pub records : b.records ≡ a.records
  pub grants : b.grants ≡ a.grants
  pub requests : b.requests ≡ a.requests
  pub audit_log : b.audit_log ≡ a.audit_log
  pub generation : b.generation ≡ a.generation
  pub revoked_tasks : b.revoked_tasks ≡ a.revoked_tasks
  pub deliveries : b.deliveries ≡ a.deliveries
  pub baselines : b.baselines ≡ a.baselines
  pub predecessor : b.predecessor ≡ a.predecessor

pub clock_frame : (now : Time) (app : Application) → SameButClock app (clock now app).1
unfolding clock
clock_frame now app = ground arith
