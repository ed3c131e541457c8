-- ===== src/Snapshot/Valid.antt =====
-- src/agent/snapshot.rs, `validate`: the invariants of a snapshot that it accepts.
use credman.Base.{
  ◌≡◌, ap, true, false, some, [], arith, inl, inr, Option-cases, contains, is_subset, ◌≤◌, ◌<◌,
  nat_eq, string_eq,
}
use credman.Base.Int.{◌≤ℤ◌}
use credman.Base.Dict.{lookup}
use credman.Result.{ok}
use credman.Loops.{try_each_ok}
use credman.Types.{
  Uuid, Application, TaskApproval, Record, Grant, ShareBounds, DeliveryAttempt, RequestKey,
  Remembered, register, action_eq, key_eq, permission_eq, field_eq, access_grant,
}
use credman.Application.{Codec}
use credman.Snapshot.Validate.{
  same_scope, check_record, check_grant, grant_fits, no_accounts, within_bounds,
}
use credman.Snapshot.Whole.{validate}
use credman.Snapshot.Passed.{Passed, validate-Passed, no_attempts}
use credman.Snapshot.Sound.{Member-entry, registered_unique, revision_unique}

-- A record or a grant belongs to a task.
pub record Scoped (t : TaskApproval) (r : Record) : Type 0 where
  pub owner : t.owner ≡ r.owner
  pub workspace : t.workspace ≡ r.workspace
  pub origin : t.origin ≡ r.origin
  pub service : t.service ≡ r.service

pub record RecordValid (app : Application) (id : Uuid) (r : Record) : Type 0 where
  pub task : TaskApproval
  pub found : lookup r.task app.tasks ≡ some task
  pub named : id ≡ r.id
  pub scoped : Scoped task r
  pub maker : task.principal ≡ r.created_by
  pub counted : (0 < r.secret_version) × (r.secret_version ≤ r.revision)
  pub erased : r.deleted ≡ true → r.values ≡ []

pub record GrantValid (app : Application) (g : Grant) : Type 0 where
  pub r : Record
  pub record_found : lookup g.record_id app.records ≡ some r
  pub task : TaskApproval
  pub task_found : lookup g.issuer_task app.tasks ≡ some task
  pub scoped : Scoped task r
  pub version : g.version ≤ r.secret_version
  pub dead : r.deleted ≡ true → g.revoked ≡ true
  pub no_regrant : contains g.spec.permissions access_grant ≡ false
  pub fields : is_subset g.spec.fields task.fields ≡ true
  pub permissions : is_subset g.spec.permissions task.permissions ≡ true
  pub destinations : is_subset g.spec.destinations task.destinations ≡ true
  pub expiry : g.spec.expires_at ≤ℤ task.expires_at
  pub delegated :
      g.admin_issued ≡ false
      → (bounds : ShareBounds) × (task.share ≡ some bounds)
        × (task.principal ≡ r.created_by)
        × (task.id ≡ r.task)
        × (contains task.permissions access_grant ≡ true)
        × (g.spec.follow_active ≡ true → bounds.allow_follow_active ≡ true)
        × (contains bounds.recipients g.spec.recipient ≡ true)
        × (is_subset g.spec.fields bounds.fields ≡ true)
        × (is_subset g.spec.permissions bounds.permissions ≡ true)
        × (is_subset g.spec.destinations bounds.destinations ≡ true)
        × (g.spec.expires_at ≤ℤ bounds.expires_at)

pub record IsValid (app : Application) : Type 0 where
  pub records : (id : Uuid) (r : Record) → lookup id app.records ≡ some r → RecordValid app id r
  pub grants : (id : Uuid) (g : Grant) → lookup id app.grants ≡ some g → GrantValid app g
  pub receipts :
      (k k' : RequestKey) (c c' : Remembered)
      → lookup k app.requests ≡ some c
      → lookup k' app.requests ≡ some c'
      → c.result.record_id ≡ c'.result.record_id
      → c.result.revision ≡ c'.result.revision
      → k ≡ k'
  pub registrations :
      (i j : Uuid) (d d' : DeliveryAttempt)
      → lookup i app.deliveries ≡ some d
      → lookup j app.deliveries ≡ some d'
      → (d.action ≡ register) × (d.dispatched ≡ true)
      → (d'.action ≡ register) × (d'.dispatched ≡ true)
      → d.record_id ≡ d'.record_id
      → i ≡ j

same_scope-Scoped : (t : TaskApproval) (r : Record) → same_scope t r ≡ true → Scoped t r
unfolding same_scope
same_scope-Scoped t r h = record {
  owner = ground (arith, string_eq.beq_iff t.owner r.owner);
  workspace = ground (arith, string_eq.beq_iff t.workspace r.workspace);
  origin = ground (arith, string_eq.beq_iff t.origin r.origin);
  service = ground (arith, string_eq.beq_iff t.service r.service);
}

module _ (codec : Codec) (app : Application) (p : Passed codec app) where
  record_valid : (id : Uuid) (r : Record) → lookup id app.records ≡ some r → RecordValid app id r
  unfolding check_record
  record_valid id r found =
      let h = try_each_ok (check_record app) (Member-entry id r app.records found) p.records in
      elim (Option-cases (lookup r.task app.tasks)) [
        | inl missing ↦ absurd (ground arith)
        | inr (t, there) ↦ record {
          task = t;
          found = there;
          named = ground (arith, nat_eq.beq_iff id r.id);
          scoped = same_scope-Scoped t r (ground arith);
          maker = ground (arith, string_eq.beq_iff t.principal r.created_by);
          counted = ground arith;
          erased = λ gone. ground arith;
        }
      ]

  within_bounds-delegated :
      (t : TaskApproval) (r : Record) (g : Grant) (bounds : ShareBounds)
      → t.share ≡ some bounds
      → within_bounds t r g bounds ≡ true
      → (bounds : ShareBounds) × (t.share ≡ some bounds)
        × (t.principal ≡ r.created_by)
        × (t.id ≡ r.task)
        × (contains t.permissions access_grant ≡ true)
        × (g.spec.follow_active ≡ true → bounds.allow_follow_active ≡ true)
        × (contains bounds.recipients g.spec.recipient ≡ true)
        × (is_subset g.spec.fields bounds.fields ≡ true)
        × (is_subset g.spec.permissions bounds.permissions ≡ true)
        × (is_subset g.spec.destinations bounds.destinations ≡ true)
        × (g.spec.expires_at ≤ℤ bounds.expires_at)
  unfolding within_bounds
  within_bounds-delegated t r g bounds shared h = (
    bounds,
    shared,
    ground (arith, string_eq.beq_iff t.principal r.created_by),
    ground (arith, nat_eq.beq_iff t.id r.task),
    ground arith,
    λ follows. ground arith,
    ground arith,
    ground arith,
    ground arith,
    ground arith,
    ground arith,
  )

  grant_fits-Scoped :
      (id : Uuid) (t : TaskApproval) (r : Record) (g : Grant)
      → grant_fits id t r g ≡ true
      → Scoped t r
  unfolding grant_fits
  grant_fits-Scoped id t r g h = same_scope-Scoped t r (ground arith)

  grant_fits_task :
      (id : Uuid) (t : TaskApproval) (r : Record) (g : Grant)
      → grant_fits id t r g ≡ true
      → (g.version ≤ r.secret_version)
        × (r.deleted ≡ true → g.revoked ≡ true)
        × (contains g.spec.permissions access_grant ≡ false)
        × (is_subset g.spec.fields t.fields ≡ true)
        × (is_subset g.spec.permissions t.permissions ≡ true)
        × (is_subset g.spec.destinations t.destinations ≡ true)
        × (g.spec.expires_at ≤ℤ t.expires_at)
  unfolding grant_fits
  grant_fits_task id t r g h = (
    ground arith,
    λ gone. ground arith,
    ground arith,
    ground arith,
    ground arith,
    ground arith,
    ground arith,
  )

  grant_checked :
      (id : Uuid) (g : Grant) (r : Record) (t : TaskApproval)
      → check_grant app (id, g) ≡ ok tt
      → lookup g.record_id app.records ≡ some r
      → lookup g.issuer_task app.tasks ≡ some t
      → (grant_fits id t r g ≡ true)
        × (g.admin_issued ≡ false
            → (bounds : ShareBounds) × (t.share ≡ some bounds)
              × (within_bounds t r g bounds ≡ true))
  unfolding check_grant
  grant_checked id g r t h record_there there = (
    ground arith,
    λ by_agent. elim (Option-cases t.share) [
      | inl unbounded ↦ absurd (ground arith)
      | inr (bounds, shared) ↦ (bounds, shared, ground arith)
    ],
  )

  grant_found :
      (id : Uuid) (g : Grant)
      → check_grant app (id, g) ≡ ok tt
      → (r : Record) × (t : TaskApproval) × (lookup g.record_id app.records ≡ some r)
        × (lookup g.issuer_task app.tasks ≡ some t)
  unfolding check_grant
  grant_found id g h = elim (Option-cases (lookup g.record_id app.records)) [
    | inl missing ↦ absurd (ground arith)
    | inr (r, record_there) ↦ elim (Option-cases (lookup g.issuer_task app.tasks)) [
      | inl missing ↦ absurd (ground arith)
      | inr (t, there) ↦ (r, t, record_there, there)
    ]
  ]

  grant_valid : (id : Uuid) (g : Grant) → lookup id app.grants ≡ some g → GrantValid app g
  grant_valid id g found =
      let h = try_each_ok (check_grant app) (Member-entry id g app.grants found) p.grants in
      let (r, t, record_there, there) = grant_found id g h in
      let (fits, bounded) = grant_checked id g r t h record_there there in
      let (version, dead, no_regrant, fields, permissions, destinations, expiry) =
        grant_fits_task id t r g fits in
      record {
        r = r;
        record_found = record_there;
        task = t;
        task_found = there;
        scoped = grant_fits-Scoped id t r g fits;
        version = version;
        dead = dead;
        no_regrant = no_regrant;
        fields = fields;
        permissions = permissions;
        destinations = destinations;
        expiry = expiry;
        delegated = λ by_agent.
            let (bounds, shared, within) = bounded by_agent in
            within_bounds-delegated t r g bounds shared within;
      }

-- In a snapshot that `validate` accepts, every record belongs to a task of its scope, and a deleted one
-- has no values; every grant belongs to a record and to a task that it does not exceed, is revoked
-- if the record is deleted, and, if an agent issued it, comes from the maker of the record under the
-- record's task and stays within the share bounds of that task: recipient, fields, permissions,
-- destinations, expiry and the following of new versions; no two
-- receipts are for the same revision of a record, and no record has two deliveries that were
-- dispatched for its registration.
pub validate-IsValid :
    (codec : Codec) (app : Application) → validate codec app ≡ ok tt → IsValid app
validate-IsValid codec app h =
    let p = validate-Passed codec app h in
    record {
      records = record_valid codec app p;
      grants = grant_valid codec app p;
      receipts = λ k k' c c' found found' same equal.
          ap (λ x. x.0)
            (revision_unique codec app p {x = (k, c)} {y = (k', c')} app.requests no_accounts
              p.accounts (Member-entry k c app.requests found)
              (Member-entry k' c' app.requests found') p.requests same equal);
      registrations = λ i j d d' found found' r r' same.
          ap (λ x. x.0)
            (registered_unique codec app {x = (i, d)} {y = (j, d')} app.deliveries no_attempts
              p.attempts (Member-entry i d app.deliveries found)
              (Member-entry j d' app.deliveries found') p.deliveries
              (ground (arith, action_eq.beq_iff d.action register))
              (ground (arith, action_eq.beq_iff d'.action register)) same);
    }
