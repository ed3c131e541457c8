-- ===== src/Application/History.antt =====
-- src/agent/mod.rs: what a later state keeps of the tasks, revocations, records and grants.
use credman.Base.{◌≡◌, refl, sym, ◌∙◌, true, arith, subst, contains, nat_eq}
use credman.Base.Growth.{Grows, Grows-refl, Grows-trans}
use credman.Types.{Uuid, Time, TaskApproval, Record, Grant, Application}
use credman.Clock.Frame.{clock_frame}
use credman.Clock.{clock}
use credman.Application.Effect.{SameIdentity}

-- A grant keeps all but its revocation, which is never undone.
pub record GrantKept (g g' : Grant) : Type 0 where
  pub record_id : g'.record_id ≡ g.record_id
  pub spec : g'.spec ≡ g.spec
  pub version : g'.version ≡ g.version
  pub issuer_task : g'.issuer_task ≡ g.issuer_task
  pub admin_issued : g'.admin_issued ≡ g.admin_issued
  pub revoked : g.revoked ≡ true → g'.revoked ≡ true

-- A record keeps its identity, and its deletion.
pub record RecordKept (r r' : Record) : Type 0 where
  pub identity : SameIdentity r r'
  pub deleted : r.deleted ≡ true → r'.deleted ≡ true

pub record Later (a b : Application) : Type 0 where
  pub tasks : Grows (λ (t t' : TaskApproval). t' ≡ t) a.tasks b.tasks
  pub revoked_tasks :
      (id : Uuid) → contains a.revoked_tasks id ≡ true → contains b.revoked_tasks id ≡ true
  pub records : Grows RecordKept a.records b.records
  pub grants : Grows GrantKept a.grants b.grants

pub GrantKept-refl : (g : Grant) → GrantKept g g
GrantKept-refl g = ground arith

GrantKept-trans : (a b c : Grant) → GrantKept a b → GrantKept b c → GrantKept a c
GrantKept-trans a b c h k = record {
  record_id = k.record_id ∙ h.record_id;
  spec = k.spec ∙ h.spec;
  version = k.version ∙ h.version;
  issuer_task = k.issuer_task ∙ h.issuer_task;
  admin_issued = k.admin_issued ∙ h.admin_issued;
  revoked = λ r. k.revoked (h.revoked r);
}

pub RecordKept-refl : (r : Record) → RecordKept r r
RecordKept-refl r = ground arith

RecordKept-trans : (a b c : Record) → RecordKept a b → RecordKept b c → RecordKept a c
RecordKept-trans a b c h k = record {
  identity = record {
    id = k.identity.id ∙ h.identity.id;
    owner = k.identity.owner ∙ h.identity.owner;
    workspace = k.identity.workspace ∙ h.identity.workspace;
    created_by = k.identity.created_by ∙ h.identity.created_by;
    task = k.identity.task ∙ h.identity.task;
    service = k.identity.service ∙ h.identity.service;
    origin = k.identity.origin ∙ h.identity.origin;
    kind = k.identity.kind ∙ h.identity.kind;
    restored = k.identity.restored ∙ h.identity.restored;
  };
  deleted = λ d. k.deleted (h.deleted d);
}

pub Later-trans : (a b c : Application) → Later a b → Later b c → Later a c
Later-trans a b c h k = record {
  tasks = Grows-trans _ (λ u v w p q. q ∙ p) a.tasks b.tasks c.tasks h.tasks k.tasks;
  revoked_tasks = λ id r. k.revoked_tasks id (h.revoked_tasks id r);
  records =
      Grows-trans RecordKept RecordKept-trans a.records b.records c.records h.records k.records;
  grants = Grows-trans GrantKept GrantKept-trans a.grants b.grants c.grants h.grants k.grants;
}

-- States that agree on tasks, revocations, records and grants.
pub Later-same :
    (a b : Application)
    → b.tasks ≡ a.tasks
    → b.revoked_tasks ≡ a.revoked_tasks
    → b.records ≡ a.records
    → b.grants ≡ a.grants
    → Later a b
Later-same a b tasks revoked records grants = record {
  tasks = subst (Grows _ a.tasks) (sym tasks) (Grows-refl _ (λ t. refl) a.tasks);
  revoked_tasks = λ id r. rw revoked r;
  records =
      subst (Grows RecordKept a.records) (sym records)
        (Grows-refl RecordKept RecordKept-refl a.records);
  grants =
      subst (Grows GrantKept a.grants) (sym grants) (Grows-refl GrantKept GrantKept-refl a.grants);
}

pub Later-refl : (a : Application) → Later a a
Later-refl a = Later-same a a refl refl refl refl

pub clock-Later : (now : Time) (app : Application) → Later app (clock now app).1
clock-Later now app =
    let f = clock_frame now app in
    Later-same app (clock now app).1 f.tasks f.revoked_tasks f.records f.grants
