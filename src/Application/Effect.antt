-- ===== src/Application/Effect.antt =====
-- src/agent/mod.rs, the match of `mutate` that makes the receipt: what a mutation does to the records.
use credman.Base.{ℕ, ◌≡◌, ◌≢◌, ◌+◌, ◌≤◌, Bool, true, false, some, [], arith, nat_eq, if◌then◌else◌}
use credman.Base.Dict.{lookup, insert, lookup-insert, lookup-insert_self}
use credman.Result.{ok}
use credman.Types.{
  Uuid, AuthenticatedContext, TaskApproval, Receipt, Record, GrantSpec, Application, Mutation,
  create, generate, patch, delete, share, revoke, report_outcome, changes_credential, u64_max,
  SecretInput, SignupState,
}
use credman.Policy.Admission.{target}
use credman.Application.Records.{
  patched, bumped, get_record, put_record, patch_record, share_record, revoke_record, delete_record,
  report_record, carry_out,
}

-- The record behind a mutation, from the record before it.
abbrev pub written : Mutation → Record → Record
written (create _ _) r = r
written (generate _ _ _) r = r
written (patch _ _ values) r = patched r values
written (delete _ _) r = record (bumped r) { deleted = true; values = [] }
written (share _ _ _) r = bumped r
written (revoke _ _ _) r = bumped r
written (report_outcome _ _ state) r = record (bumped r) { signup = state }

-- A patch of the username or of a secret makes a new secret version.
abbrev pub rotates : Mutation → Bool
rotates (patch _ _ values) = changes_credential values
rotates _ = false

-- What no mutation changes in a record.
pub record SameIdentity (r r' : Record) : Type 0 where
  pub id : r'.id ≡ r.id
  pub owner : r'.owner ≡ r.owner
  pub workspace : r'.workspace ≡ r.workspace
  pub created_by : r'.created_by ≡ r.created_by
  pub task : r'.task ≡ r.task
  pub service : r'.service ≡ r.service
  pub origin : r'.origin ≡ r.origin
  pub kind : r'.kind ≡ r.kind
  pub restored : r'.restored ≡ r.restored

module _ (fresh : Uuid) (ctx : AuthenticatedContext) (t : TaskApproval) (task : Uuid)
    (app : Application) (id : Uuid) (r : Record) (found : lookup id app.records ≡ some r)
    (receipt : Receipt) where
  -- The records and the receipt that a mutation of the record `id` leaves.
  abbrev Writes : Mutation → Type 0
  Writes op =
      ((carry_out fresh ctx t task op app).1.records ≡ insert id (written op r) app.records)
      × (receipt.record_id ≡ id)
      × (receipt.revision ≡ (written op r).revision)

  patch-Writes :
      (n : ℕ) (values : SecretInput)
      → (carry_out fresh ctx t task (patch id n values) app).0 ≡ ok receipt
      → Writes (patch id n values)
        × (rotates (patch id n values) ≡ true → r.secret_version ≢ u64_max)
  unfolding carry_out patch_record get_record put_record
  patch-Writes n values h = ground arith

  share-Writes :
      (n : ℕ) (spec : GrantSpec)
      → (carry_out fresh ctx t task (share id n spec) app).0 ≡ ok receipt
      → Writes (share id n spec)
  unfolding carry_out share_record get_record put_record
  share-Writes n spec h = ground arith

  revoke-Writes :
      (n : ℕ) (grant : Uuid)
      → (carry_out fresh ctx t task (revoke id n grant) app).0 ≡ ok receipt
      → Writes (revoke id n grant)
  unfolding carry_out revoke_record get_record put_record
  revoke-Writes n grant h = ground arith

  delete-Writes :
      (n : ℕ) → (carry_out fresh ctx t task (delete id n) app).0 ≡ ok receipt → Writes (delete id n)
  unfolding carry_out delete_record get_record put_record
  delete-Writes n h = ground arith

  report-Writes :
      (n : ℕ) (state : SignupState)
      → (carry_out fresh ctx t task (report_outcome id n state) app).0 ≡ ok receipt
      → Writes (report_outcome id n state)
  unfolding carry_out report_record get_record put_record
  report-Writes n state h = ground arith

  abbrev Outcome : Mutation → Type 0
  Outcome op = Writes op × (rotates op ≡ true → r.secret_version ≢ u64_max)

  carry_out_writes :
      (op : Mutation)
      → target op ≡ some id
      → (carry_out fresh ctx t task op app).0 ≡ ok receipt
      → Outcome op
  carry_out_writes (create kind values) e h = absurd (ground arith)
  carry_out_writes (generate kind name policy) e h = absurd (ground arith)
  carry_out_writes (patch i n values) e h =
      let q : i ≡ id = ground arith in rw q (patch-Writes n values (rw q at h))
  carry_out_writes (share i n spec) e h =
      let q : i ≡ id = ground arith in rw q (share-Writes n spec (rw q at h), λ b. cc)
  carry_out_writes (revoke i n grant) e h =
      let q : i ≡ id = ground arith in rw q (revoke-Writes n grant (rw q at h), λ b. cc)
  carry_out_writes (delete i n) e h =
      let q : i ≡ id = ground arith in rw q (delete-Writes n (rw q at h), λ b. cc)
  carry_out_writes (report_outcome i n state) e h =
      let q : i ≡ id = ground arith in rw q (report-Writes n state (rw q at h), λ b. cc)

-- The counters of a record are `u64` values.
abbrev pub IsU64 : Record → Type 0
IsU64 r = (r.revision ≤ u64_max) × (r.secret_version ≤ u64_max)

written_identity : (op : Mutation) (r : Record) → SameIdentity r (written op r)
unfolding patched
written_identity (patch _ _ values) r = ground arith
written_identity _ r = ground arith

written_revision :
    (op : Mutation) (r : Record) (id : Uuid)
    → target op ≡ some id
    → r.revision ≤ u64_max
    → r.revision ≢ u64_max
    → (written op r).revision ≡ r.revision + 1
unfolding patched
written_revision (create _ _) r id e h n = absurd (ground arith)
written_revision (generate _ _ _) r id e h n = absurd (ground arith)
written_revision (patch _ _ values) r id e h n = ground arith
written_revision _ r id e h n = omega arith

written_version :
    (op : Mutation) (r : Record)
    → r.secret_version ≤ u64_max
    → (rotates op ≡ true → r.secret_version ≢ u64_max)
    → (written op r).secret_version ≡ r.secret_version + (if rotates op then 1 else 0)
unfolding patched
written_version (patch _ _ values) r h n = ground arith
written_version _ r h n = omega arith

-- What a successful mutation of the record `id` does to the records.
pub record Updates (op : Mutation) (id : Uuid) (r : Record) (before after : Application)
    (receipt : Receipt) : Type 0 where
  pub r' : Record
  pub stored : lookup id after.records ≡ some r'
  pub identity : SameIdentity r r'
  pub revision : r'.revision ≡ r.revision + 1
  pub version : r'.secret_version ≡ r.secret_version + (if rotates op then 1 else 0)
  pub of_record : receipt.record_id ≡ id
  pub at_revision : receipt.revision ≡ r'.revision
  pub others : (j : Uuid) → j ≢ id → lookup j after.records ≡ lookup j before.records

pub carry_out-Updates :
    (fresh : Uuid) (ctx : AuthenticatedContext) (t : TaskApproval) (task : Uuid) (app : Application)
    (op : Mutation) (id : Uuid) (r : Record) (receipt : Receipt)
    → target op ≡ some id
    → lookup id app.records ≡ some r
    → IsU64 r
    → r.revision ≢ u64_max
    → (carry_out fresh ctx t task op app).0 ≡ ok receipt
    → Updates op id r app (carry_out fresh ctx t task op app).1 receipt
carry_out-Updates fresh ctx t task app op id r receipt aimed found small room h =
    let ((records, of_record, at), fits) =
      carry_out_writes fresh ctx t task app id r found receipt op aimed h in
    record {
      r' = written op r;
      stored = rw records (lookup-insert_self id (written op r) app.records);
      identity = written_identity op r;
      revision = written_revision op r id aimed small.0 room;
      version = written_version op r small.1 fits;
      of_record = of_record;
      at_revision = at;
      others =
          λ j other. rw records (ground (arith, lookup-insert id j (written op r) app.records));
    }
