-- ===== src/Application/Records.antt =====
-- src/agent/mod.rs: the state changes that `mutate` makes, `audit`, and the operations on tasks.
use credman.Base.{
  ℕ, ◌+◌, ◌%◌, true, false, Option, none, some, List, [], ◌∷◌, ◌++◌, leb, eqb, ◌==◌, nat_eq,
  if◌then◌else◌, length, insert_set,
}
use credman.Base.Dict.{lookup, insert, map_values}
use credman.Result.{Result, ok, err, denied, capacity, ok_or}
use credman.Exec.{Exec, ◌>>=◌, ◌>>◌, pure, raise, reads, refuse, modify}
use credman.Types.{
  Uuid, Time, AuthenticatedContext, TaskApproval, Record, Grant, Receipt, AuditEvent, Application,
  GrantSpec, Mutation, create, generate, patch, delete, share, revoke, report_outcome,
  CredentialKind, SignupState, pending, SecretInput, changes_credential, u64_max, field_eq,
}
use credman.Clock.{clock}
use credman.Policy.{check_approval, check_revocation}

-- `x += 1` on a `u64`.
abbrev pub next_u64 : ℕ → ℕ
next_u64 n = (n + 1) % 18446744073709551616

-- `BTreeMap::extend`.
unfoldable pub extend : SecretInput → SecretInput → SecretInput
unfolding insert
extend values [] = values
extend values ((f, v) ∷ rest) = extend (insert f v values) rest

-- A full audit queue gives up its oldest event.
unfoldable pub drop_oldest : List AuditEvent → List AuditEvent
drop_oldest [] = []
drop_oldest (oldest ∷ rest) = if eqb (length (oldest ∷ rest)) 10000 then rest else oldest ∷ rest

-- `Application::audit`.
unfoldable pub audit : AuditEvent → Application → Application
unfolding drop_oldest
audit event app = record app { audit_log = drop_oldest app.audit_log ++ event ∷ [] }

-- `self.records.get(&id).ok_or(Denied)?`.
unfoldable pub get_record : Uuid → Application → Result Record
unfolding lookup
get_record id app = ok_or (lookup id app.records) denied

-- A write through `get_mut`.
unfoldable pub put_record : Uuid → Record → Application → Application
unfolding insert
put_record id r app = record app { records = insert id r app.records }

-- The record that `Mutation::Create` inserts.
unfoldable pub new_record :
    Uuid → AuthenticatedContext → TaskApproval → Uuid → CredentialKind → SecretInput → Record
new_record id ctx t task kind values = record {
  id = id;
  owner = ctx.owner;
  workspace = ctx.workspace;
  created_by = ctx.principal;
  task = task;
  service = t.service;
  origin = t.origin;
  kind = kind;
  revision = 1;
  secret_version = 1;
  values = values;
  signup = pending;
  deleted = false;
  restored = false;
}

-- The record behind `Mutation::Patch`.
unfoldable pub patched : Record → SecretInput → Record
unfolding extend changes_credential
patched r values =
    if changes_credential values
    then record r {
      secret_version = next_u64 r.secret_version;
      signup = pending;
      values = extend r.values values;
      revision = next_u64 r.revision;
    }
    else record r { values = extend r.values values; revision = next_u64 r.revision }

abbrev pub bumped : Record → Record
bumped r = record r { revision = next_u64 r.revision }

abbrev pub receipt_of : Uuid → Record → Option Uuid → Receipt
receipt_of id r grant = record { record_id = id; revision = r.revision; grant = grant }

-- The grant that `Mutation::Share` inserts.
abbrev pub new_grant : AuthenticatedContext → Uuid → Uuid → GrantSpec → ℕ → Grant
new_grant ctx task id spec version = record {
  record_id = id;
  spec = spec;
  revoked = false;
  version = version;
  issuer_task = task;
  admin_issued = ctx.admin;
}

abbrev pub revoke_grant : Grant → Grant
revoke_grant g = record g { revoked = true }

-- `for g in self.grants.values_mut().filter(|g| g.record == record) { g.revoked = true; }`.
abbrev pub revoke_of : Uuid → Grant → Grant
revoke_of id g = if g.record_id == id then revoke_grant g else g

unfoldable pub create_record :
    Uuid
    → AuthenticatedContext
    → TaskApproval
    → Uuid
    → CredentialKind
    → SecretInput
    → Exec Application Receipt
unfolding put_record new_record
create_record fresh ctx t task kind values = do
  reads (λ app. if leb 10000 (length app.records) then err capacity else ok tt)
  let r = new_record fresh ctx t task kind values
  modify (put_record fresh r)
  pure (receipt_of fresh r none)

unfoldable pub patch_record : Uuid → SecretInput → Exec Application Receipt
unfolding get_record put_record patched
patch_record id values = do
  r ← reads (get_record id)
  refuse (if changes_credential values then eqb r.secret_version u64_max else false) capacity
  modify (put_record id (patched r values))
  pure (receipt_of id (patched r values) none)

unfoldable pub share_record :
    Uuid → AuthenticatedContext → Uuid → Uuid → GrantSpec → Exec Application Receipt
unfolding get_record put_record insert
share_record fresh ctx task id spec = do
  reads (λ app. if leb 10000 (length app.grants) then err capacity else ok tt)
  seen ← reads (get_record id)
  let grant = new_grant ctx task id spec seen.secret_version
  modify (λ app. record app { grants = insert fresh grant app.grants })
  r ← reads (get_record id)
  modify (put_record id (bumped r))
  pure (receipt_of id (bumped r) (some fresh))

unfoldable pub revoke_record : Uuid → Uuid → Exec Application Receipt
unfolding get_record put_record insert lookup
revoke_record id grant = do
  g ← reads (λ app. ok_or (lookup grant app.grants) denied)
  modify (λ app. record app { grants = insert grant (revoke_grant g) app.grants })
  r ← reads (get_record id)
  modify (put_record id (bumped r))
  pure (receipt_of id (bumped r) (some grant))

unfoldable pub delete_record : Uuid → Exec Application Receipt
unfolding get_record put_record map_values
delete_record id = do
  r ← reads (get_record id)
  let r' = record (bumped r) { deleted = true; values = [] }
  modify (put_record id r')
  modify (λ app. record app { grants = map_values (revoke_of id) app.grants })
  pure (receipt_of id r' none)

unfoldable pub report_record : Uuid → SignupState → Exec Application Receipt
unfolding get_record put_record
report_record id state = do
  r ← reads (get_record id)
  let r' = record (bumped r) { signup = state }
  modify (put_record id r')
  pure (receipt_of id r' none)

-- The match of `mutate` that makes the receipt. `generate` is unreachable there: it has been
-- replaced by the creation of the generated values.
unfoldable pub carry_out :
    Uuid → AuthenticatedContext → TaskApproval → Uuid → Mutation → Exec Application Receipt
carry_out fresh ctx t task (create kind values) = create_record fresh ctx t task kind values
carry_out fresh ctx t task (generate _ _ _) = raise denied
carry_out fresh ctx t task (patch id _ values) = patch_record id values
carry_out fresh ctx t task (share id _ spec) = share_record fresh ctx task id spec
carry_out fresh ctx t task (revoke id _ grant) = revoke_record id grant
carry_out fresh ctx t task (delete id _) = delete_record id
carry_out fresh ctx t task (report_outcome id _ state) = report_record id state

-- `Application::approve_task`.
unfoldable pub approve_task :
    AuthenticatedContext → TaskApproval → Time → Exec Application (Unit {0})
approve_task admin task now = do
  now' ← clock now
  reads (check_approval admin task now')
  modify (λ app. record app { tasks = insert task.id task app.tasks })

-- `Application::revoke_task`.
unfoldable pub revoke_task : AuthenticatedContext → Uuid → Time → Exec Application (Unit {0})
revoke_task admin id now = do
  _ ← clock now
  reads (check_revocation admin id)
  modify (λ app. record app { revoked_tasks = insert_set id app.revoked_tasks })
