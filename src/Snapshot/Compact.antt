-- ===== src/Snapshot/Compact.antt =====
-- src/agent/snapshot.rs: `stale`, `should_compact` and `compact`.
use credman.Base.{
  ℕ, ◌+◌, ◌%◌, Bool, true, false, ◌&&◌, ◌||◌, not, Option, none, some, List, [], ◌∷◌, ◌++◌, ltb,
  leb, eqb, ◌==◌, ◌!=◌, nat_eq, string_eq, option_eq, if◌then◌else◌, length, is_empty, any, all,
  filter, contains, is_some_and, is_some, is_none, map,
}
use credman.Base.Int.{pos, leb_ℤ, ltb_ℤ, saturating_sub}
use credman.Base.Dict.{Dict, keys, values, lookup, contains_key, insert, erase}
use credman.Base.Order.{sort_by_key, sort, dedup, each}
use credman.Types.{
  Uuid, Time, Application, Record, TaskApproval, RequestKey, Remembered, RecordBaseline,
  DeliveryAttempt, accepted, AuditEvent, register, login, verified_login, status_eq, key_eq,
  action_eq, signup_eq, CachedKind, u64_max,
}
use credman.Application.{next_u64}

-- `RETRY_WINDOW`, `COMPACT_AT`.
abbrev pub retry_window : Time
retry_window = pos 86400

abbrev pub compact_at : ℕ
compact_at = 8000

unfoldable pub stale : Option Time → Option Time → Bool
unfolding saturating_sub
stale none now = false
stale (some stored) now = is_some_and now (λ now. leb_ℤ retry_window (saturating_sub now stored))

unfoldable pub should_compact : Application → Bool
unfolding stale values
should_compact app =
    any (leb compact_at) (
      length app.tasks
      ∷ length app.records
      ∷ length app.grants
      ∷ length app.requests
      ∷ length app.revoked_tasks
      ∷ length app.deliveries
      ∷ [])
    || leb 32 app.generation && eqb (app.generation % 32) 0
    || any (λ cached. stale cached.at app.last_time) (values app.requests)
    || any (λ delivery. is_some delivery.status && stale delivery.at app.last_time)
        (values app.deliveries)

-- `RecordBaseline::default`.
abbrev pub empty_baseline : RecordBaseline
empty_baseline = record {
  through = 0;
  secret_version = 0;
  delete_pruned = false;
  pruned_grants = [];
  registration_dispatched = false;
  verified_login = false;
}

-- `app.baselines.entry(id).or_default()`.
unfoldable pub baseline : Uuid → Application → RecordBaseline
unfolding lookup
baseline id app = elim (lookup id app.baselines) [ none ↦ empty_baseline | some base ↦ base ]

abbrev pub set_baseline : Uuid → RecordBaseline → Application → Application
set_baseline id base app = record app { baselines = insert id base app.baselines }

-- `app.baselines.get(&id).map(|base| base.through).unwrap_or(0)`.
unfoldable pub through_of : Uuid → Application → ℕ
unfolding baseline
through_of id app = (baseline id app).through

-- The revisions of a record that are remembered, with their keys.
unfoldable pub revisions_of : Uuid → Dict RequestKey Remembered → List (ℕ × RequestKey)
revisions_of id [] = []
revisions_of id ((key, cached) ∷ rest) =
    let later = revisions_of id rest in
    if cached.result.record_id == id then (cached.result.revision, key) ∷ later else later

-- The receipts that are folded: the stale ones that continue the account without a gap. A key comes
-- from the map itself, so the lookup finds it.
unfoldable pub foldable :
    Application → ℕ → ℕ → List (ℕ × RequestKey) → List (RequestKey × Remembered)
unfolding lookup stale
foldable app through next [] = []
foldable app through next ((revision, key) ∷ rest) = elim (leb revision through) [
  | true ↦ foldable app through next rest
  | false ↦ elim (lookup key app.requests) [
    | none ↦ []
    | some cached ↦ elim (not (stale cached.at app.last_time) || revision != next) [
      | true ↦ []
      | false ↦ (key, cached) ∷ foldable app through (next_u64 next) rest
    ]
  ]
]

-- `u64::saturating_add(1)`.
abbrev saturating_next : ℕ → ℕ
saturating_next n = if ltb n u64_max then n + 1 else u64_max

-- What a folded receipt adds to the account of its record.
unfoldable pub account : RequestKey × Remembered → RecordBaseline → RecordBaseline
account (key, cached) base =
    let base' = record base { through = cached.result.revision } in
    elim cached.kind [
      | CachedKind.create ↦ record base' { secret_version = 1 }
      | CachedKind.patch ↦ record base' { secret_version = saturating_next base.secret_version }
      | CachedKind.delete ↦ record base' { delete_pruned = true }
      | CachedKind.share ↦ elim cached.result.grant [
        | none ↦ base'
        | some grant ↦
            if contains base.pruned_grants grant
            then base'
            else record base' { pruned_grants = base.pruned_grants ++ grant ∷ [] }
      ]
      | _ ↦ base'
    ]

-- One round of the first loop of `compact`.
unfoldable pub fold_record : Uuid → Application → Application
unfolding revisions_of foldable account through_of baseline erase insert sort sort_by_key each
fold_record id app =
    let revisions =
      sort_by_key (λ (entry : ℕ × RequestKey). entry.0) (revisions_of id app.requests) in
    let through = through_of id app in
    let folded = foldable app through (next_u64 through) revisions in
    let base = each account folded (baseline id app) in
    if is_empty folded
    then app
    else set_baseline id (record base { pruned_grants = sort base.pruned_grants })
        (record app { requests = each (λ entry. erase entry.0) folded app.requests })

-- One round of the second loop.
unfoldable pub prune_grant : Uuid → Application → Application
unfolding lookup values erase insert
prune_grant gid app = elim (lookup gid app.grants) [
  | none ↦ app
  | some grant ↦
      if not grant.revoked
          && not (is_some_and app.last_time (λ now. leb_ℤ grant.spec.expires_at now))
        || any (λ cached. cached.result.grant == some gid) (values app.requests)
      then app
      else let pruned = record app { grants = erase gid app.grants } in
        elim (lookup grant.record_id app.baselines) [
          | none ↦ pruned
          | some base ↦
              set_baseline grant.record_id
                (record base { pruned_grants = filter (λ id. id != gid) base.pruned_grants }) pruned
        ]
]

-- Whether a delivery that is dropped leaves the seal of a registration, or of a verified login.
unfoldable pub seals_register : Application → DeliveryAttempt → Bool
unfolding lookup
seals_register app delivery =
    delivery.action == register
    && delivery.dispatched
    && contains_key delivery.record_id app.records

unfoldable pub seals_login : Application → DeliveryAttempt → Bool
unfolding lookup
seals_login app delivery = is_some_and (lookup delivery.record_id app.records) (λ r.
    delivery.action == login
    && delivery.dispatched
    && delivery.status == some accepted
    && r.signup == verified_login
    && delivery.version == r.secret_version)

-- One round of the third loop.
unfoldable pub prune_delivery : Uuid → Application → Application
unfolding lookup seals_register seals_login baseline erase insert stale
prune_delivery id app = elim (lookup id app.deliveries) [
  | none ↦ app
  | some delivery ↦
      let register = seals_register app delivery in
      let login = seals_login app delivery in
      let base = baseline delivery.record_id app in
      let marked = record base {
        registration_dispatched = register || base.registration_dispatched;
        verified_login = login || base.verified_login;
      } in
      let sealed = if register || login then set_baseline delivery.record_id marked app else app in
      if is_none delivery.status || not (stale delivery.at app.last_time)
      then app
      else record sealed { deliveries = erase id app.deliveries }
]

-- The records that nothing refers to any more.
unfoldable pub dropped : Application → Uuid × Record → Bool
unfolding values
dropped app (id, r) =
    r.deleted
    && all (λ grant. grant.record_id != id) (values app.grants)
    && all (λ delivery. delivery.record_id != id) (values app.deliveries)
    && all (λ cached. cached.result.record_id != id) (values app.requests)

abbrev pub drop_record : Uuid → Application → Application
drop_record id app = record app {
  records = erase id app.records;
  baselines = erase id app.baselines;
}

unfoldable pub drop_records : Application → Application
unfolding dropped keys erase each
drop_records app = each drop_record (keys (filter (dropped app) app.records)) app

-- Whether anything in the vault still names a task.
unfoldable pub referenced : Application → Uuid → Bool
unfolding values keys
referenced app id =
    any (λ r. r.task == id) (values app.records)
    || any (λ grant. grant.issuer_task == id) (values app.grants)
    || any (λ delivery. delivery.task == id || delivery.key.task == id) (values app.deliveries)
    || any (λ key. key.task == id) (keys app.requests)

unfoldable pub removable : Application → Uuid × TaskApproval → Bool
unfolding referenced
removable app (id, t) =
    not (referenced app id)
    && (contains app.revoked_tasks id || is_some_and app.last_time (λ now. leb_ℤ t.expires_at now))

-- `max_by_key(|task| (task.expires_at, task.id))`.
abbrev later_task : TaskApproval → TaskApproval → TaskApproval
later_task a b =
    if ltb_ℤ b.expires_at a.expires_at || leb_ℤ b.expires_at a.expires_at && ltb b.id a.id
    then a
    else b

unfoldable pub latest_task : List TaskApproval → Option TaskApproval
latest_task [] = none
latest_task (t ∷ rest) = elim (latest_task rest) [ none ↦ some t | some u ↦ some (later_task t u) ]

-- The tasks that go: one is kept if all of them would.
unfoldable pub removed_tasks : Application → List Uuid
unfolding removable keys values latest_task
removed_tasks app =
    let remove = keys (filter (removable app) app.tasks) in
    if not (is_empty app.tasks) && eqb (length remove) (length app.tasks)
    then elim (latest_task (values app.tasks)) [
      | none ↦ remove
      | some keep ↦ filter (λ id. id != keep.id) remove
    ]
    else remove

abbrev pub drop_task : Uuid → Application → Application
drop_task id app = record app {
  tasks = erase id app.tasks;
  revoked_tasks = filter (λ kept. kept != id) app.revoked_tasks;
}

unfoldable pub drop_tasks : Application → Application
unfolding removed_tasks lookup erase each
drop_tasks app =
    let app' = each drop_task (removed_tasks app) app in
    record app' { revoked_tasks = filter (λ id. contains_key id app'.tasks) app'.revoked_tasks }

-- The test under which an audit event is retained.
unfoldable pub retained : Application → AuditEvent → Bool
unfolding lookup
retained app event = is_some_and (lookup event.task app.tasks) (λ t.
    contains_key event.record_id app.records && (elim event.request [
      | none ↦ true
      | some request ↦
          is_some_and
            (lookup (record { owner = t.owner; principal = t.principal; task = t.id; id = request })
              app.requests)
            (λ entry. entry.result.record_id == event.record_id)
    ]))

-- The last loop, over one baseline.
unfoldable pub settle_baseline : Application → Uuid × RecordBaseline → Uuid × RecordBaseline
unfolding lookup sort dedup
settle_baseline app (id, base) =
    let unverified = is_some_and (lookup id app.records) (λ r. r.signup != verified_login) in
    (
      id,
      record base {
        verified_login = not unverified && base.verified_login;
        pruned_grants = dedup (sort base.pruned_grants);
      },
    )

unfoldable pub keeps_baseline : Application → Uuid × RecordBaseline → Bool
unfolding lookup
keeps_baseline app (id, base) =
    contains_key id app.records
    && (ltb 0 base.through
        || base.delete_pruned
        || base.registration_dispatched
        || base.verified_login
        || not (is_empty base.pruned_grants))

unfoldable pub settle_history : Application → Application
unfolding retained settle_baseline keeps_baseline
settle_history app = record app {
  audit_log = filter (retained app) app.audit_log;
  baselines = filter (keeps_baseline app) (map (settle_baseline app) app.baselines);
}

-- The three loops of `compact` over the keys that stand at their start.
unfoldable pub fold_records : Application → Application
unfolding fold_record keys each
fold_records app = each fold_record (keys app.records) app

unfoldable pub prune_grants : Application → Application
unfolding prune_grant keys each
prune_grants app = each prune_grant (keys app.grants) app

unfoldable pub prune_deliveries : Application → Application
unfolding prune_delivery keys each
prune_deliveries app = each prune_delivery (keys app.deliveries) app

unfoldable pub compact : Application → Application
unfolding fold_records prune_grants prune_deliveries drop_records drop_tasks settle_history
compact app =
    settle_history (drop_tasks (drop_records (prune_deliveries (prune_grants (fold_records app)))))
