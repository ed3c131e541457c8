-- ===== src/Policy/Admission.antt =====
-- src/agent/mod.rs, `authorize`: what an authorized mutation of an existing record has passed.
use credman.Base.{
  ℕ, ◌≡◌, ◌≢◌, false, Option, none, some, arith, inl, inr, string_eq, nat_eq, Option-cases,
}
use credman.Base.Dict.{lookup}
use credman.Result.{ok}
use credman.Types.{
  Uuid, Time, AuthenticatedContext, TaskApproval, Record, Application, u64_max, Mutation, create,
  generate, patch, delete, share, revoke, report_outcome,
}
use credman.Policy.Authorize.{authorize_record, authorize_existing, authorize}

-- The record that a mutation names.
abbrev pub target : Mutation → Option Uuid
target (create _ _) = none
target (generate _ _ _) = none
target (patch id _ _) = some id
target (delete id _) = some id
target (share id _ _) = some id
target (revoke id _ _) = some id
target (report_outcome id _ _) = some id

abbrev pub expected : Mutation → ℕ
expected (create _ _) = 0
expected (generate _ _ _) = 0
expected (patch _ n _) = n
expected (delete _ n) = n
expected (share _ n _) = n
expected (revoke _ n _) = n
expected (report_outcome _ n _) = n

-- What a first call, which is no retry, of an existing record's mutation has passed.
pub record Admission (app : Application) (ctx : AuthenticatedContext) (t : TaskApproval) (id : Uuid)
    (op : Mutation) (now : Time) : Type 0 where
  pub found : Record
  pub at_id : lookup id app.records ≡ some found
  pub owner : found.owner ≡ ctx.owner
  pub workspace : found.workspace ≡ ctx.workspace
  pub kept : found.deleted ≡ false
  pub allowed : authorize_record app ctx t found id op now ≡ ok tt
  pub current : found.revision ≡ expected op
  pub room : found.revision ≢ u64_max

abbrev pub Admitted : Application → AuthenticatedContext → TaskApproval → Mutation → Time → Type 0
Admitted app ctx t op now = elim (target op) [
  | none ↦ Unit
  | some id ↦ Admission app ctx t id op now
]

module _ (app : Application) (ctx : AuthenticatedContext) (t : TaskApproval) (now : Time) where
  admitted_by :
      (id : Uuid) (op : Mutation) (r : Record)
      → lookup id app.records ≡ some r
      → authorize_existing app ctx t id (expected op) op now false ≡ ok tt
      → Admission app ctx t id op now
  unfolding authorize_existing
  admitted_by id op r found h = record {
    found = r;
    at_id = found;
    owner = ground (arith, string_eq.beq_iff r.owner ctx.owner);
    workspace = ground (arith, string_eq.beq_iff r.workspace ctx.workspace);
    kept = ground arith;
    allowed = ground arith;
    current = ground arith;
    room = ground arith;
  }

  authorize_existing_ok :
      (id : Uuid) (op : Mutation)
      → authorize_existing app ctx t id (expected op) op now false ≡ ok tt
      → Admission app ctx t id op now
  unfolding authorize_existing
  authorize_existing_ok id op h = elim (Option-cases (lookup id app.records)) [
    | inl missing ↦ absurd (ground arith)
    | inr (r, found) ↦ admitted_by id op r found h
  ]

  -- A mutation that is authorized as a first call and names a record has met the record, in the
  -- scope of the caller, kept, at the expected revision, and with room for another one.
  pub authorize_ok :
      (op : Mutation) → authorize app ctx t op now false ≡ ok tt → Admitted app ctx t op now
  unfolding authorize
  authorize_ok (create _ _) h = tt
  authorize_ok (generate _ _ _) h = tt
  authorize_ok (patch id n values) h = authorize_existing_ok id (patch id n values) h
  authorize_ok (delete id n) h = authorize_existing_ok id (delete id n) h
  authorize_ok (share id n spec) h = authorize_existing_ok id (share id n spec) h
  authorize_ok (revoke id n grant) h = authorize_existing_ok id (revoke id n grant) h
  authorize_ok (report_outcome id n state) h =
      authorize_existing_ok id (report_outcome id n state) h
