-- ===== src/Snapshot/Validate.antt =====
-- src/agent/snapshot.rs: `validate`, one definition for each of its loops.
use credman.Base.{
  ℕ, zero, suc, ◌+◌, ◌-◌, bool_eq, Bool, true, false, ◌&&◌, ◌||◌, not, Option, none, some, List, [],
  ◌∷◌, ltb, leb, len, ◌==◌, ◌!=◌, nat_eq, string_eq, option_eq, list_eq, if◌then◌else◌, length,
  is_empty, any, all, contains, is_subset, insert_set, is_some_and, is_some, is_none,
}
use credman.Base.Int.{leb_ℤ, ltb_ℤ, i64_min}
use credman.Base.Dict.{Dict, keys, values, lookup, contains_key, insert}
use credman.Base.Order.{sort, increasing}
use credman.Result.{Result, ok, err, invalid_storage, ◌>>=◌, ◌>>◌, ok_or, map_err}
use credman.Loops.{fold_each}
use credman.Types.{
  Uuid, is_nil, is_blank, Application, from_authenticated_admin, Record, Grant, TaskApproval,
  ShareBounds, RequestKey, Remembered, RecordBaseline, login_kind, api_key_kind, password, api_key,
  secret_write, access_grant, verified_login, CachedKind, Permission, valid_input, field_eq,
  permission_eq, kind_eq, signup_eq, status_eq, action_eq, cached_eq, key_eq,
}
use credman.Application.{approve_task}

-- `LIMIT`.
abbrev pub limit : ℕ
limit = 10000

abbrev pub ensure : Bool → Result (Unit {0})
ensure true = ok tt
ensure false = err invalid_storage

unfoldable pub same_scope : TaskApproval → Record → Bool
same_scope t r =
    t.owner == r.owner
    && t.workspace == r.workspace
    && t.origin == r.origin
    && t.service == r.service

-- The two checks of the whole.
unfoldable pub check_clock : Application → Result (Unit {0})
check_clock app = ensure (ltb 0 app.generation && (not app.clock_frozen || is_some app.last_time))

unfoldable pub check_counts : Application → Result (Unit {0})
check_counts app = ensure (
    all (λ n. leb n limit)
      (length app.tasks
        ∷ length app.records
        ∷ length app.grants
        ∷ length app.requests
        ∷ length app.revoked_tasks
        ∷ length app.deliveries
        ∷ length app.audit_log
        ∷ length app.baselines
        ∷ []))

-- A task, approved in an application that starts empty: the state is that application.
unfoldable pub check_task : Uuid × TaskApproval → Application → Result Application
unfolding approve_task from_authenticated_admin
check_task (id, t) checker = do
  ensure (not (is_nil id) && id == t.id && not (is_blank t.workspace))
  let admin = from_authenticated_admin t.owner "snapshot-validation" t.workspace
  let approved = approve_task admin t i64_min checker
  map_err approved.0 invalid_storage
  ok approved.1

unfoldable pub check_revoked : Application → Uuid → Result (Unit {0})
unfolding lookup
check_revoked app id = ensure (contains_key id app.tasks)

-- The values of a record that is not deleted.
unfoldable pub fits_kind : Record → Bool
unfolding lookup
fits_kind r =
    r.kind == login_kind && contains_key password r.values && not (contains_key api_key r.values)
    || r.kind == api_key_kind
      && contains_key api_key r.values
      && not (contains_key password r.values)

unfoldable pub check_record : Application → Uuid × Record → Result (Unit {0})
unfolding lookup same_scope fits_kind valid_input keys
check_record app (id, r) = do
  t ← ok_or (lookup r.task app.tasks) invalid_storage
  ensure (
      not (is_nil id)
      && id == r.id
      && same_scope t r
      && t.principal == r.created_by
      && ltb 0 r.revision
      && ltb 0 r.secret_version
      && leb r.secret_version r.revision
      && contains t.permissions secret_write)
  if r.deleted then ensure (is_empty r.values) else (do
    ensure (valid_input r.values && is_subset (keys r.values) t.fields)
    ensure (fits_kind r))

-- The bounds on a grant that an agent issued.
unfoldable pub within_bounds : TaskApproval → Record → Grant → ShareBounds → Bool
within_bounds t r g bounds =
    t.principal == r.created_by
    && t.id == r.task
    && contains t.permissions access_grant
    && (not g.spec.follow_active || bounds.allow_follow_active)
    && contains bounds.recipients g.spec.recipient
    && is_subset g.spec.fields bounds.fields
    && is_subset g.spec.permissions bounds.permissions
    && is_subset g.spec.destinations bounds.destinations
    && leb_ℤ g.spec.expires_at bounds.expires_at

-- The test of a grant against its record and its task.
unfoldable pub grant_fits : Uuid → TaskApproval → Record → Grant → Bool
unfolding same_scope keys
grant_fits id t r g =
    not (is_nil id)
    && same_scope t r
    && ltb 0 g.version
    && leb g.version r.secret_version
    && (not r.deleted || g.revoked)
    && not (is_empty g.spec.fields)
    && not (is_empty g.spec.permissions)
    && not (contains g.spec.permissions access_grant)
    && not (is_blank g.spec.recipient)
    && leb (len g.spec.recipient) 2048
    && is_subset g.spec.fields t.fields
    && is_subset g.spec.permissions t.permissions
    && is_subset g.spec.destinations t.destinations
    && ltb_ℤ i64_min g.spec.expires_at
    && leb_ℤ g.spec.expires_at t.expires_at
    && (not (contains g.spec.permissions Permission.secret_use)
        || not (is_empty g.spec.destinations))
    && (r.deleted || is_subset g.spec.fields (keys r.values))

unfoldable pub check_grant : Application → Uuid × Grant → Result (Unit {0})
unfolding lookup grant_fits within_bounds
check_grant app (id, g) = do
  r ← ok_or (lookup g.record_id app.records) invalid_storage
  t ← ok_or (lookup g.issuer_task app.tasks) invalid_storage
  ensure (grant_fits id t r g)
  if g.admin_issued
      then ok tt
      else (do bounds ← ok_or t.share invalid_storage; ensure (within_bounds t r g bounds))

-- What the loop over the receipts collects: for each record its revisions and those that changed
-- its secret, the records made and deleted, the grants shared.
pub record Accounts : Type 0 where
  pub revisions : Dict Uuid (List ℕ)
  pub creates : List Uuid
  pub shares : List Uuid
  pub deletes : List Uuid
  pub patches : Dict Uuid (List ℕ)

abbrev pub no_accounts : Accounts
no_accounts = record { revisions = []; creates = []; shares = []; deletes = []; patches = [] }

-- `entry(id).or_default()` of a map of sets.
unfoldable pub set_at : Uuid → Dict Uuid (List ℕ) → List ℕ
unfolding lookup
set_at id d = elim (lookup id d) [ none ↦ [] | some set ↦ set ]

abbrev pub add_at : Uuid → ℕ → Dict Uuid (List ℕ) → Dict Uuid (List ℕ)
add_at id n d = insert id (insert_set n (set_at id d)) d

abbrev base_through : Uuid → Application → ℕ
base_through id app = elim (lookup id app.baselines) [ none ↦ 0 | some base ↦ base.through ]

-- The match on the kind of a receipt.
unfoldable pub check_kind :
    Application → RequestKey → Remembered → Record → Accounts → Result Accounts
unfolding lookup insert set_at
check_kind app key cached r acc = elim cached.kind [
  | CachedKind.create ↦ do
    ensure (
        r.task == key.task
        && r.created_by == key.principal
        && cached.result.revision == 1
        && is_none cached.result.grant
        && not (contains acc.creates r.id))
    ok (record acc { creates = insert_set r.id acc.creates })
  | CachedKind.share ↦ do
    id ← ok_or cached.result.grant invalid_storage
    g ← ok_or (lookup id app.grants) invalid_storage
    ensure (g.record_id == r.id)
    ensure (g.issuer_task == key.task && not (contains acc.shares id))
    ok (record acc { shares = insert_set id acc.shares })
  | CachedKind.revoke ↦ do
    id ← ok_or cached.result.grant invalid_storage
    g ← ok_or (lookup id app.grants) invalid_storage
    ensure (g.record_id == r.id)
    ensure g.revoked
    ok acc
  | CachedKind.delete ↦ do
    ensure (r.deleted && is_none cached.result.grant)
    ok (record acc { deletes = insert_set r.id acc.deletes })
  | CachedKind.patch ↦ do
    ensure (is_none cached.result.grant)
    ok (record acc { patches = add_at r.id cached.result.revision acc.patches })
  | CachedKind.metadata_patch ↦ do ensure (is_none cached.result.grant); ok acc
  | CachedKind.report_outcome ↦ do ensure (is_none cached.result.grant); ok acc
]

unfoldable pub check_request : Application → RequestKey × Remembered → Accounts → Result Accounts
unfolding lookup same_scope check_kind insert set_at
check_request app (key, cached) acc = do
  t ← ok_or (lookup key.task app.tasks) invalid_storage
  r ← ok_or (lookup cached.result.record_id app.records) invalid_storage
  ensure (
      not (is_nil key.id)
      && key.owner == t.owner
      && key.principal == t.principal
      && same_scope t r
      && ltb (base_through r.id app) cached.result.revision
      && leb cached.result.revision r.revision)
  ensure (not (contains (set_at r.id acc.revisions) cached.result.revision))
  check_kind app key cached r
      (record acc { revisions = add_at r.id cached.result.revision acc.revisions })

-- A grant whose receipt was compacted; the state is the set of those that are accounted for.
unfoldable pub check_pruned : Application → Uuid → Uuid → List Uuid → Result (List Uuid)
unfolding lookup values
check_pruned app id gid accounted = do
  g ← ok_or (lookup gid app.grants) invalid_storage
  ensure (g.record_id == id && not (contains accounted gid))
  ensure (
      not (
        any (λ cached. cached.kind == CachedKind.share && cached.result.grant == some gid)
          (values app.requests)))
  ok (insert_set gid accounted)

unfoldable pub check_baseline : Application → Uuid × RecordBaseline → List Uuid → Result (List Uuid)
unfolding lookup check_pruned increasing fold_each
check_baseline app (id, base) accounted = do
  r ← ok_or (lookup id app.records) invalid_storage
  ensure (leb base.through r.revision)
  ensure (
      ltb 0 base.through
      || base.secret_version == 0 && not base.delete_pruned && is_empty base.pruned_grants)
  ensure (base.through == 0 || leb 1 base.secret_version)
  ensure (increasing base.pruned_grants)
  ensure (not base.verified_login || r.signup == verified_login)
  fold_each (check_pruned app id) base.pruned_grants accounted

-- `start..=start + count - 1`.
unfoldable pub range_from : ℕ → ℕ → List ℕ
range_from start zero = []
range_from start (suc count) = start ∷ range_from (start + 1) count

unfoldable pub last? : List ℕ → Option ℕ
last? [] = none
last? (x ∷ []) = some x
last? (x ∷ y ∷ xs) = last? (y ∷ xs)

abbrev pub first? : List ℕ → Option ℕ
first? [] = none
first? (x ∷ xs) = some x

-- Whether the receipts of a record are those of all revisions behind `through`.
unfoldable pub unbroken : List ℕ → ℕ → ℕ → Bool
unfolding sort range_from last?
unbroken versions through revision =
    let sorted = sort versions in
    length versions == revision - through
    && first? sorted == some (through + 1)
    && last? sorted == some revision
    && sorted == range_from (through + 1) (revision - through)

-- The account of a record, from its receipts and its baseline.
unfoldable pub check_account : Application → Accounts → Uuid × Record → Result (Unit {0})
unfolding lookup set_at unbroken
check_account app acc (id, r) =
    let base = lookup id app.baselines in
    let through = base_through id app in
    let patch_count = length (set_at id acc.patches) in
    let pruned = is_some_and base (λ item. item.delete_pruned) in
    do
      if r.deleted
          then (if through == 0
              then ensure (contains acc.deletes id)
              else ensure (pruned != contains acc.deletes id))
          else ensure (not (contains acc.deletes id) && not pruned)
      if through == r.revision
          then ensure (
              ltb 0 through
              && is_none (lookup id acc.revisions)
              && not (contains acc.creates id)
              && is_some_and base (λ item. item.secret_version == r.secret_version))
          else (do
            versions ← ok_or (lookup id acc.revisions) invalid_storage
            ensure (unbroken versions through r.revision)
            if through == 0
                then ensure (contains acc.creates id && r.secret_version == 1 + patch_count)
                else ensure (
                    not (contains acc.creates id)
                    && is_some_and base
                        (λ item. r.secret_version == item.secret_version + patch_count)))
