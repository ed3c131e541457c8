-- ===== src/Storage/Recovery.antt =====
-- src/agent/storage/recovery.rs and the restoring half of src/agent/storage/backup.rs: what a vault
-- becomes when the human reconciles it or restores a copy of it.
pub mod Finished
pub mod Powerless
pub mod Transition
pub mod Follows
pub mod Pending
pub mod Run
pub mod Planned
pub mod Settled
pub mod Outcome
pub mod Within
pub mod Again
use credman.Base.{
  ℕ, Bool, true, false, ◌&&◌, ◌||◌, not, Option, none, some, List, [], ◌∷◌, eqb, ◌==◌, ◌!=◌, nat_eq,
  string_eq, if◌then◌else◌, is_empty, any, all, contains, insert_set, is_some, is_none,
}
use credman.Base.Int.{ltb_ℤ}
use credman.Base.Dict.{lookup, insert, keys, values, map_values}
use credman.Base.Order.{each}
use credman.Result.{
  Error, Result, ok, ◌>>=◌, ◌>>◌, reject, ok_or, map_err, recovery_required, invalid_storage,
  denied,
}
use credman.Loops.{fold_each}
use credman.Types.{
  Uuid, Time, Application, AuthenticatedContext, Record, DeliveryAttempt, DeliveryStatus,
  SignupState, use_action, action_eq,
}
use credman.Application.{revoke_grant}
use credman.Storage.{Images}
use credman.Storage.Vault.{next_generation}
use credman.Storage.Reopen.{admin_scope}

-- `revoked_tasks.extend(tasks.keys())`, and every grant revoked.
unfoldable pub revoke_all : Application → Application
unfolding keys map_values each
revoke_all app = record app {
  revoked_tasks = each insert_set (keys app.tasks) app.revoked_tasks;
  grants = map_values revoke_grant app.grants;
}

-- One round of the loop over the deliveries without a status.
unfoldable pub finish_delivery : Error → Uuid → Application → Result Application
unfolding lookup insert
finish_delivery e id app = elim (lookup id app.deliveries) [
  | none ↦ ok app
  | some d ↦
      let marked = record app {
        deliveries = insert id (record d { status = some DeliveryStatus.unknown }) app.deliveries;
      } in
      if is_some d.status then ok app else if d.action == use_action then ok marked else (do
        r ← ok_or (lookup d.record_id app.records) e
        ok (record marked {
          records = insert d.record_id (record r { signup = SignupState.unknown }) app.records;
        }))
]

unfoldable pub finish_deliveries : Error → Application → Result Application
unfolding finish_delivery keys fold_each
finish_deliveries e app = fold_each (finish_delivery e) (keys app.deliveries) app

-- `last_time.map_or(now, |previous| previous.max(now))`.
abbrev pub restored_mark : Option Time → Time → Time
restored_mark none now = now
restored_mark (some previous) now = if ltb_ℤ now previous then previous else now

module _ (images : Images) where
  -- `sanitize`.
  unfoldable pub sanitize : Application → Time → Result Application
  unfolding revoke_all finish_deliveries next_generation
  sanitize app now = do
    generation ← map_err (next_generation app) recovery_required
    finished ←
        finish_deliveries recovery_required (record (revoke_all app) { generation = generation })
    let clean = record finished { clock_frozen = false; last_time = some now; predecessor = none }
    map_err (images.validate clean) recovery_required
    ok clean

  -- `backup::prepare_restored`.
  unfoldable pub prepare_restored : Application → AuthenticatedContext → Time → Result Application
  unfolding revoke_all finish_deliveries next_generation admin_scope map_values
  prepare_restored app admin now = do
    admin_scope app admin
    generation ← next_generation app
    let revoked = record (revoke_all app) {
      generation = generation;
      records = map_values (λ (r : Record). record r { restored = true }) app.records;
    }
    finished ← finish_deliveries invalid_storage revoked
    let copy = record finished {
      last_time = some (restored_mark finished.last_time now);
      predecessor = none;
    }
    images.validate copy
    ok copy

-- `scope`, which is `admin_scope`.
abbrev pub scope : Application → AuthenticatedContext → Result (Unit {0})
scope = admin_scope

-- `empty_initial`.
unfoldable pub empty_initial : Application → Bool
empty_initial app =
    eqb app.generation 1
    && is_empty app.tasks
    && is_empty app.records
    && is_empty app.grants
    && is_empty app.requests
    && is_empty app.revoked_tasks
    && is_empty app.deliveries
    && is_empty app.audit_log
    && is_none app.last_time
    && not app.clock_frozen

-- `safe_initial_publication`.
unfoldable pub safe_initial_publication : Application → Bool
unfolding empty_initial values keys
safe_initial_publication app =
    empty_initial app
    || all (λ r. r.restored) (values app.records)
      && all (contains app.revoked_tasks) (keys app.tasks)
      && all (λ grant. grant.revoked) (values app.grants)
      && all (λ attempt. is_some attempt.status) (values app.deliveries)
