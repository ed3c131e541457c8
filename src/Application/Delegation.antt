-- ===== src/Application/Delegation.antt =====
-- src/agent/mod.rs: the terms of a grant beside those of its issuing task.
use credman.Base.{
  ℕ, ◌≡◌, sym, ◌∙◌, Bool, true, false, some, List, arith, inl, inr, subst, nat_eq, string_eq,
  Option-cases, Bool-cases, contains, is_subset,
}
use credman.Base.Int.{◌≤ℤ◌}
use credman.Base.Dict.{lookup}
use credman.Result.{Result, ok}
use credman.Types.{
  Uuid, Time, Digest, AuthenticatedContext, TaskApproval, ShareBounds, Receipt, Record, Grant,
  GrantSpec, Application, empty_application, Mutation, share, access_grant, field_eq, permission_eq,
  Field,
}
use credman.Generation.{Answers}
use credman.Clock.{clock}
use credman.Clock.Frame.{clock_frame}
use credman.Policy.{
  task, malformed_grant, exceeds_bounds, exceeds_task, authorize_share, authorize_record,
}
use credman.Policy.Admission.{Admission, authorize_ok}
use credman.Application.Records.{carry_out, audit, new_grant, approve_task, revoke_task}
use credman.Application.Plan.{Codec, Plan, replay, perform, plan}
use credman.Application.Planned.{plan_ok, Performs}
use credman.Application.Outcome.{mutate_cases}
use credman.Application.Atomic.{resolve_ok}
use credman.Application.History.{GrantKept, Later, clock-Later}
use credman.Application.Growth.{Unused}
use credman.Application.Origin.{carry_out-Origin}
use credman.Application.Reach.{
  Step, approves, revokes, mutates, reads_secret, reads_metadata, Reach, start, next, Step-Later,
  execute-Later, Unused-clock,
}
use credman.Application.Mutate.{remember, execute, mutate, read_secret, metadata}

-- The terms of a human's grant are within the issuing task.
pub record WithinTask (t : TaskApproval) (spec : GrantSpec) : Type 0 where
  pub fields : is_subset spec.fields t.fields ≡ true
  pub permissions : is_subset spec.permissions t.permissions ≡ true
  pub destinations : is_subset spec.destinations t.destinations ≡ true
  pub expiry : spec.expires_at ≤ℤ t.expires_at

-- The terms of an agent's grant are within the share bounds of the issuing task.
pub record WithinBounds (bounds : ShareBounds) (spec : GrantSpec) : Type 0 where
  pub recipient : contains bounds.recipients spec.recipient ≡ true
  pub fields : is_subset spec.fields bounds.fields ≡ true
  pub permissions : is_subset spec.permissions bounds.permissions ≡ true
  pub destinations : is_subset spec.destinations bounds.destinations ≡ true
  pub expiry : spec.expires_at ≤ℤ bounds.expires_at
  pub following : spec.follow_active ≡ true → bounds.allow_follow_active ≡ true

abbrev pub Allowed : TaskApproval → GrantSpec → Bool → Type 0
Allowed t spec true = WithinTask t spec
Allowed t spec false = (bounds : ShareBounds) × (t.share ≡ some bounds) × WithinBounds bounds spec

-- A grant that its issuing task, an approved one, may delegate. It never lets its holder grant.
pub record Delegated (app : Application) (g : Grant) : Type 0 where
  pub issuer : TaskApproval
  pub found : lookup g.issuer_task app.tasks ≡ some issuer
  pub no_regrant : contains g.spec.permissions access_grant ≡ false
  pub within : Allowed issuer g.spec g.admin_issued

pub record IsDelegated (app : Application) : Type 0 where
  pub at : (id : Uuid) (g : Grant) → lookup id app.grants ≡ some g → Delegated app g

module _ (app : Application) (ctx : AuthenticatedContext) (t : TaskApproval) (r : Record)
    (spec : GrantSpec) (now : Time) where
  bounds_within :
      (bounds : ShareBounds) → exceeds_bounds bounds spec ≡ false → WithinBounds bounds spec
  unfolding exceeds_bounds
  bounds_within bounds h = ground arith

  task_within : exceeds_task t r spec ≡ false → WithinTask t spec
  unfolding exceeds_task
  task_within h = ground arith

  share_no_regrant :
      authorize_share app ctx t r spec now ≡ ok tt → contains spec.permissions access_grant ≡ false
  unfolding authorize_share malformed_grant
  share_no_regrant h = ground arith

  share-Allowed : authorize_share app ctx t r spec now ≡ ok tt → Allowed t spec ctx.admin
  unfolding authorize_share
  share-Allowed h = elim (Bool-cases ctx.admin) [
    | inl human ↦ rw human (task_within (ground arith))
    | inr agent ↦ elim (Option-cases t.share) [
      | inl closed ↦ absurd (ground arith)
      | inr (bounds, shares) ↦ rw agent (bounds, shares, bounds_within bounds (ground arith))
    ]
  ]

task_found :
    (app : Application) (ctx : AuthenticatedContext) (id : Uuid) (now : Time) (t : TaskApproval)
    → task app ctx id now ≡ ok t
    → lookup id app.tasks ≡ some t
unfolding task
task_found app ctx id now t h = ground arith

Delegated-Later :
    (a b : Application) (g g' : Grant) → Later a b → GrantKept g g' → Delegated a g → Delegated b g'
Delegated-Later a b g g' later kept d =
    let (t, found, same) = later.tasks.at g.issuer_task d.issuer d.found in
    record {
      issuer = d.issuer;
      found = ground (arith, kept.issuer_task, found, same);
      no_regrant = rw (kept.spec) d.no_regrant;
      within = rw (kept.spec, kept.admin_issued) d.within;
    }

IsDelegated-same :
    (a b : Application) → b.grants ≡ a.grants → Later a b → IsDelegated a → IsDelegated b
IsDelegated-same a b same later d = record {
  at = λ id g found.
      Delegated-Later a b g g later (let k : GrantKept g g = ground arith in k)
        (d.at id g (rw (sym same) found));
}

-- The grant that an authorized share makes.
shared-Delegated :
    (app after : Application) (ctx : AuthenticatedContext) (t : TaskApproval) (task id n : Uuid)
    (spec : GrantSpec) (version : ℕ) (now : Time)
    → Later app after
    → lookup task app.tasks ≡ some t
    → Admission app ctx t id (share id n spec) now
    → Delegated after (new_grant ctx task id spec version)
unfolding authorize_record
shared-Delegated app after ctx t task id n spec version now later found a =
    let (t', found', same) = later.tasks.at task t found in
    record {
      issuer = t;
      found = ground (arith, found', same);
      no_regrant = share_no_regrant app ctx t a.found spec now a.allowed;
      within = share-Allowed app ctx t a.found spec now a.allowed;
    }

module _ (codec : Codec) (fresh : Uuid) (answers : Answers) (ctx : AuthenticatedContext)
    (id request : Uuid) (op : Mutation) (now : Time) (app : Application) (d : IsDelegated app) where
  share-Admission :
      (t : TaskApproval) (op' : Mutation) (rid n : Uuid) (spec : GrantSpec) (fingerprint : Digest)
      → Performs codec answers ctx id request op now app t fingerprint op'
      → op' ≡ share rid n spec
      → Admission app ctx t rid (share rid n spec) now
  share-Admission t op' rid n spec fingerprint facts shares =
      elim (resolve_ok app answers op op' facts.resolved) [
        | inl same ↦
            let q : op ≡ share rid n spec = same ∙ shares in
            let allowed = facts.allowed in
            authorize_ok app ctx t now (share rid n spec) (rw q at allowed)
        | inr (k, values, made, _) ↦ absurd (ground (arith, made, shares))
      ]

  execute_grants :
      (t : TaskApproval) (fingerprint : Digest) (op' : Mutation)
      → (execute fresh ctx id request op now (perform t fingerprint op') app).1.grants
        ≡ (carry_out fresh ctx t id op' app).1.grants
  unfolding execute remember audit
  execute_grants t fingerprint op' = ground arith

  execute-IsDelegated :
      (p : Plan)
      → Unused fresh app
      → plan codec answers ctx id request op now app ≡ ok p
      → IsDelegated (execute fresh ctx id request op now p app).1
  execute-IsDelegated (replay receipt) unused planned = unfold execute in d
  execute-IsDelegated (perform t fingerprint op') unused planned =
      let facts = plan_ok codec answers ctx id request op now app _ planned in
      let later = execute-Later codec fresh answers ctx id request op now app _ unused planned in
      record {
        at = λ gid g' found.
            elim (carry_out-Origin fresh ctx t id app gid g' op'
              (rw (execute_grants t fingerprint op') at found)) [
                | inl (g, held, kept) ↦ Delegated-Later app _ g g' later kept (d.at gid g held)
                | inr (rid, n, spec, version, shares, made) ↦ subst (Delegated _) (sym made) (
                    shared-Delegated app _ ctx t id rid n spec version now later
                      (task_found app ctx id now t facts.passed.live)
                      (share-Admission t op' rid n spec fingerprint facts shares))
              ];
      }

clock-IsDelegated :
    (now : Time) (app : Application) → IsDelegated app → IsDelegated (clock now app).1
clock-IsDelegated now app d =
    IsDelegated-same app (clock now app).1 (clock_frame now app).grants (clock-Later now app) d

mutate-IsDelegated :
    (codec : Codec) (fresh : Uuid) (answers : Answers) (ctx : AuthenticatedContext)
    (id request : Uuid) (op : Mutation) (now : Time) (app : Application)
    → Unused fresh app
    → IsDelegated app
    → IsDelegated (mutate codec fresh answers ctx id request op now app).1
mutate-IsDelegated codec fresh answers ctx id request op now app unused d =
    elim (mutate_cases fresh ctx id request op codec answers now app) [
      | inl (e, failed) ↦
          subst (λ (o : Result Receipt × Application). IsDelegated o.1) (sym failed)
            (clock-IsDelegated now app d)
      | inr run ↦
          subst (λ (o : Result Receipt × Application). IsDelegated o.1) (sym run.executed)
            (execute-IsDelegated codec fresh answers ctx id request op run.at (clock now app).1
              (clock-IsDelegated now app d) run.decided (Unused-clock fresh now app unused)
              run.planned)
    ]

approve_grants :
    (admin : AuthenticatedContext) (task : TaskApproval) (now : Time) (app : Application)
    → (approve_task admin task now app).1.grants ≡ app.grants
unfolding approve_task
approve_grants admin task now app = ground (arith, (clock_frame now app).grants)

revoke_grants :
    (admin : AuthenticatedContext) (id : Uuid) (now : Time) (app : Application)
    → (revoke_task admin id now app).1.grants ≡ app.grants
unfolding revoke_task
revoke_grants admin id now app = ground (arith, (clock_frame now app).grants)

read_grants :
    (ctx : AuthenticatedContext) (id record_id : Uuid) (fields : List Field) (now : Time)
    (app : Application)
    → (read_secret ctx id record_id fields now app).1.grants ≡ app.grants
unfolding read_secret audit
read_grants ctx id record_id fields now app = ground (arith, (clock_frame now app).grants)

metadata_grants :
    (ctx : AuthenticatedContext) (id record_id : Uuid) (fields : List Field) (now : Time)
    (app : Application)
    → (metadata ctx id record_id fields now app).1.grants ≡ app.grants
unfolding metadata audit
metadata_grants ctx id record_id fields now app = ground (arith, (clock_frame now app).grants)

Step-IsDelegated : {a b : Application} → Step a b → IsDelegated a → IsDelegated b
Step-IsDelegated {a = a} (approves admin task now) d =
    IsDelegated-same a _ (approve_grants admin task now a) (Step-Later (approves admin task now)) d
Step-IsDelegated {a = a} (revokes admin id now) d =
    IsDelegated-same a _ (revoke_grants admin id now a) (Step-Later (revokes admin id now)) d
Step-IsDelegated {a = a} (mutates codec fresh answers ctx id request op now unused) d =
    mutate-IsDelegated codec fresh answers ctx id request op now a unused d
Step-IsDelegated {a = a} (reads_secret ctx id record_id fields now) d =
    IsDelegated-same a _ (read_grants ctx id record_id fields now a)
      (Step-Later (reads_secret ctx id record_id fields now)) d
Step-IsDelegated {a = a} (reads_metadata ctx id record_id fields now) d =
    IsDelegated-same a _ (metadata_grants ctx id record_id fields now a)
      (Step-Later (reads_metadata ctx id record_id fields now)) d

Reach-IsDelegated : {a b : Application} → IsDelegated a → Reach a b → IsDelegated b
Reach-IsDelegated d start = d
Reach-IsDelegated d (next r st) = Step-IsDelegated st (Reach-IsDelegated d r)

empty-IsDelegated : IsDelegated empty_application
unfolding lookup
empty-IsDelegated = record { at = λ id g found. cc }

-- From an empty vault, whatever the operations: every grant was issued under an approved task that
-- still stands in the vault, and conveys no right to grant. A human's grant is within the fields,
-- permissions, destinations and expiry of that task; an agent's is within its share bounds, names a
-- listed recipient, and follows later versions only if the bounds allow it.
pub grants-IsDelegated : (app : Application) → Reach empty_application app → IsDelegated app
grants-IsDelegated app = Reach-IsDelegated empty-IsDelegated
