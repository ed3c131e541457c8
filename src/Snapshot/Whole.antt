-- ===== src/Snapshot/Whole.antt =====
-- src/agent/snapshot.rs: `validate` from its loops, `encode`, `decode` and `clock_only_difference`.
use credman.Base.{
  ◌+◌, ◌&&◌, ◌||◌, not, some, List, [], ltb, leb, ◌==◌, ◌!=◌, nat_eq, string_eq, option_eq, list_eq,
  if◌then◌else◌, length, is_empty, any, all, contains, is_subset, insert_set, is_some_and,
  is_none_or,
}
use credman.Base.Int.{pos, leb_ℤ}
use credman.Base.Dict.{values, lookup, contains_key}
use credman.Result.{Result, ok, invalid_storage, ◌>>=◌, ◌>>◌, ok_or}
use credman.Loops.{try_each, fold_each}
use credman.Types.{
  Uuid, time_eq, is_nil, is_blank, Application, empty_application, Record, TaskApproval, RequestKey,
  DeliveryAttempt, DeliveryStatus, AuditEvent, PrivateUse, login_kind, username, password,
  verified_login, accepted, register, login, use_action, Permission, field_eq, permission_eq,
  kind_eq, signup_eq, status_eq, action_eq, key_eq,
}
use credman.Application.{Codec}
use credman.Snapshot.Validate.{
  ensure, same_scope, check_clock, check_counts, check_task, check_revoked, check_record,
  check_grant, no_accounts, check_request, check_baseline, check_account, Accounts,
}

-- What the loop over the deliveries collects.
pub record Attempts : Type 0 where
  pub delivery_keys : List RequestKey
  pub registrations : List Uuid

-- `SHARES` and the grants that the baselines account for make up the grants.
unfoldable pub check_shares : Application → Accounts → List Uuid → Result (Unit {0})
check_shares app acc accounted = ensure (
    length acc.shares + length accounted == length app.grants
    && all (λ id. not (contains accounted id)) acc.shares)

abbrev use_of : DeliveryAttempt → PrivateUse
use_of d = record {
  request = d.key.id;
  record_id = d.record_id;
  fields = d.fields;
  destination = d.destination;
  action = d.action;
}

-- The key of the request that an audit event names.
abbrev event_key : TaskApproval → Uuid → RequestKey
event_key t request = record { owner = t.owner; principal = t.principal; task = t.id; id = request }

module _ (codec : Codec) where
  unfoldable pub check_delivery : Application → Uuid × DeliveryAttempt → Attempts → Result Attempts
  unfolding lookup same_scope
  check_delivery app (id, d) seen = do
    t ← ok_or (lookup d.task app.tasks) invalid_storage
    r ← ok_or (lookup d.record_id app.records) invalid_storage
    ensure (
        not (is_nil id)
        && same_scope t r
        && ltb 0 d.version
        && leb d.version r.secret_version
        && not (is_empty d.fields)
        && is_subset d.fields t.fields
        && contains t.permissions Permission.secret_use
        && contains t.destinations d.destination
        && d.key.task == d.task
        && d.key.owner == t.owner
        && d.key.principal == t.principal
        && not (is_nil d.key.id)
        && not (contains_key d.key app.requests)
        && not (contains seen.delivery_keys d.key)
        && (d.dispatched || d.status == some DeliveryStatus.rejected))
    bytes ← ok_or (codec.use_bytes (use_of d)) invalid_storage
    ensure (d.fingerprint == codec.sha256 bytes)
    ensure (
        d.action == use_action
        || r.kind == login_kind && contains d.fields username && contains d.fields password)
    let registers = d.action == register && d.dispatched
    ensure (not registers || not (contains seen.registrations d.record_id))
    ok (record {
      delivery_keys = insert_set d.key seen.delivery_keys;
      registrations =
          if registers then insert_set d.record_id seen.registrations else seen.registrations;
    })

  -- A record that is marked as verified has a login that was accepted, or a seal.
  unfoldable pub check_verified : Application → Record → Result (Unit {0})
  unfolding lookup values
  check_verified app r = ensure (
      r.signup != verified_login
      || is_some_and (lookup r.id app.baselines) (λ base. base.verified_login)
      || any
          (λ d.
            d.record_id == r.id
            && d.version == r.secret_version
            && d.action == login
            && d.dispatched
            && d.status == some accepted)
          (values app.deliveries))

  unfoldable pub check_event : Application → AuditEvent → Result (Unit {0})
  unfolding lookup same_scope
  check_event app event = do
    t ← ok_or (lookup event.task app.tasks) invalid_storage
    r ← ok_or (lookup event.record_id app.records) invalid_storage
    ensure (same_scope t r)
    let legacy = event.at == pos 0 && is_blank event.principal
    ensure (legacy || event.principal == t.principal)
    ensure (
        legacy || is_some_and app.last_time (λ last. leb_ℤ (pos 0) event.at && leb_ℤ event.at last))
    ensure (
        is_none_or event.request (λ request.
          is_some_and (lookup (event_key t request) app.requests)
            (λ entry. entry.result.record_id == event.record_id)))

  -- `validate`.
  unfoldable pub validate : Application → Result (Unit {0})
  unfolding try_each fold_each values check_clock check_counts check_task check_revoked check_record
      check_grant check_request check_baseline check_account check_shares check_delivery
      check_verified check_event
  validate app = do
    check_clock app
    check_counts app
    _ ← fold_each check_task app.tasks empty_application
    try_each (check_revoked app) app.revoked_tasks
    try_each (check_record app) app.records
    try_each (check_grant app) app.grants
    accounts ← fold_each (check_request app) app.requests no_accounts
    accounted ← fold_each (check_baseline app) app.baselines []
    try_each (check_account app accounts) app.records
    check_shares app accounts accounted
    _ ←
        fold_each (check_delivery app) app.deliveries
          (record { delivery_keys = []; registrations = [] })
    try_each (check_verified app) (values app.records)
    try_each (check_event app) app.audit_log
