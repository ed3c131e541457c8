-- ===== src/Application/Reach.antt =====
-- src/agent/mod.rs: the states that the operations lead to, in any order and with any answers.
use credman.Base.{◌≡◌, refl, sym, none, arith, inl, inr, subst, contains-insert_set, nat_eq}
use credman.Base.Dict.{lookup}
use credman.Base.Growth.{Grows, Grows-refl, Grows-insert_new}
use credman.Result.{Result, ok, Result-cases}
use credman.Types.{
  Uuid, Time, Digest, AuthenticatedContext, TaskApproval, Receipt, Application, Mutation, Fields,
}
use credman.Generation.{Answers}
use credman.Clock.{clock}
use credman.Clock.Frame.{clock_frame}
use credman.Policy.{check_approval}
use credman.Policy.Admission.{authorize_ok}
use credman.Application.Records.{audit, carry_out, approve_task, revoke_task}
use credman.Application.Plan.{Codec, Plan, replay, perform, plan}
use credman.Application.Planned.{plan_ok}
use credman.Application.Outcome.{mutate_cases}
use credman.Application.History.{
  Later, Later-refl, Later-same, Later-trans, clock-Later, RecordKept, GrantKept, RecordKept-refl,
  GrantKept-refl,
}
use credman.Application.Growth.{Unused, resolved_Later}
use credman.Application.Mutate.{remember, execute, mutate, read_secret, metadata}

-- One operation of the vault, by whomever.
pub data Step (app : Application) : Application → Type 0 where
  approves :
      (admin : AuthenticatedContext) (task : TaskApproval) (now : Time)
      → Step app (approve_task admin task now app).1
  revokes :
      (admin : AuthenticatedContext) (id : Uuid) (now : Time)
      → Step app (revoke_task admin id now app).1
  mutates :
      (codec : Codec) (fresh : Uuid) (answers : Answers) (ctx : AuthenticatedContext)
      (id request : Uuid) (op : Mutation) (now : Time)
      → Unused fresh app
      → Step app (mutate codec fresh answers ctx id request op now app).1
  reads_secret :
      (ctx : AuthenticatedContext) (id record_id : Uuid) (fields : Fields) (now : Time)
      → Step app (read_secret ctx id record_id fields now app).1
  reads_metadata :
      (ctx : AuthenticatedContext) (id record_id : Uuid) (fields : Fields) (now : Time)
      → Step app (metadata ctx id record_id fields now app).1

pub data Reach (app : Application) : Application → Type 0 where
  start : Reach app app
  next : {b c : Application} → Reach app b → Step b c → Reach app c

approval_new :
    (admin : AuthenticatedContext) (task : TaskApproval) (now : Time) (app : Application)
    → check_approval admin task now app ≡ ok tt
    → lookup task.id app.tasks ≡ none
unfolding check_approval
approval_new admin task now app h = ground arith

approve-Later :
    (admin : AuthenticatedContext) (task : TaskApproval) (now : Time) (app : Application)
    → Later app (approve_task admin task now app).1
unfolding approve_task
approve-Later admin task now app = elim (Result-cases (clock now app).0) [
  | inr (e, stopped) ↦ subst (Later app) (ground arith) (clock-Later now app)
  | inl (now', ticked) ↦ elim (Result-cases (check_approval admin task now' (clock now app).1)) [
    | inr (e, refused) ↦ subst (Later app) (ground arith) (clock-Later now app)
    | inl (u, checked) ↦
        let s = (clock now app).1 in
        Later-trans app s _ (clock-Later now app) (record {
          tasks = subst (Grows (λ (t t' : TaskApproval). t' ≡ t) s.tasks) (ground arith) (
              Grows-insert_new (λ (t t' : TaskApproval). t' ≡ t) (λ t. refl) task.id task s.tasks
                (approval_new admin task now' s checked));
          revoked_tasks = λ id h. ground arith;
          records =
              subst (Grows RecordKept s.records) (ground arith)
                (Grows-refl RecordKept RecordKept-refl s.records);
          grants =
              subst (Grows GrantKept s.grants) (ground arith)
                (Grows-refl GrantKept GrantKept-refl s.grants);
        })
  ]
]

revoke-Later :
    (admin : AuthenticatedContext) (id : Uuid) (now : Time) (app : Application)
    → Later app (revoke_task admin id now app).1
unfolding revoke_task
revoke-Later admin id now app =
    let s = (clock now app).1 in
    Later-trans app s _ (clock-Later now app) (record {
      tasks =
          subst (Grows (λ (t t' : TaskApproval). t' ≡ t) s.tasks) (ground arith)
            (Grows-refl (λ (t t' : TaskApproval). t' ≡ t) (λ t. refl) s.tasks);
      revoked_tasks = λ i h. ground (arith, contains-insert_set id i s.revoked_tasks);
      records =
          subst (Grows RecordKept s.records) (ground arith)
            (Grows-refl RecordKept RecordKept-refl s.records);
      grants =
          subst (Grows GrantKept s.grants) (ground arith)
            (Grows-refl GrantKept GrantKept-refl s.grants);
    })

execute_rest :
    (fresh : Uuid) (ctx : AuthenticatedContext) (id request : Uuid) (op : Mutation) (now : Time)
    (t : TaskApproval) (fingerprint : Digest) (op' : Mutation) (app : Application)
    → Later
        (carry_out fresh ctx t id op' app).1
        (execute fresh ctx id request op now (perform t fingerprint op') app).1
unfolding execute remember audit
execute_rest fresh ctx id request op now t fingerprint op' app =
    Later-same (carry_out fresh ctx t id op' app).1 _ (ground arith) (ground arith) (ground arith)
      (ground arith)

pub execute-Later :
    (codec : Codec) (fresh : Uuid) (answers : Answers) (ctx : AuthenticatedContext)
    (id request : Uuid) (op : Mutation) (now : Time) (app : Application) (p : Plan)
    → Unused fresh app
    → plan codec answers ctx id request op now app ≡ ok p
    → Later app (execute fresh ctx id request op now p app).1
execute-Later codec fresh answers ctx id request op now app (replay receipt) unused planned =
    unfold execute in Later-refl app
execute-Later codec fresh answers ctx id request op now app (perform t fingerprint op') unused
      planned =
    let facts = plan_ok codec answers ctx id request op now app _ planned in
    let grown =
      resolved_Later fresh ctx t id now app unused answers op op' facts.resolved
        (authorize_ok app ctx t now op facts.allowed) in
    Later-trans app (carry_out fresh ctx t id op' app).1 _ grown
      (execute_rest fresh ctx id request op now t fingerprint op' app)

pub Unused-clock :
    (fresh : Uuid) (now : Time) (app : Application)
    → Unused fresh app
    → Unused fresh (clock now app).1
Unused-clock fresh now app u =
    let f = clock_frame now app in
    record { as_record = rw (f.records) u.as_record; as_grant = rw (f.grants) u.as_grant }

mutate-Later :
    (codec : Codec) (fresh : Uuid) (answers : Answers) (ctx : AuthenticatedContext)
    (id request : Uuid) (op : Mutation) (now : Time) (app : Application)
    → Unused fresh app
    → Later app (mutate codec fresh answers ctx id request op now app).1
mutate-Later codec fresh answers ctx id request op now app unused =
    elim (mutate_cases fresh ctx id request op codec answers now app) [
      | inl (e, failed) ↦
          subst (λ (o : Result Receipt × Application). Later app o.1) (sym failed)
            (clock-Later now app)
      | inr run ↦
          subst (λ (o : Result Receipt × Application). Later app o.1) (sym run.executed)
            (Later-trans app (clock now app).1 _ (clock-Later now app) (
              execute-Later codec fresh answers ctx id request op run.at (clock now app).1
                run.decided (Unused-clock fresh now app unused) run.planned))
    ]

read-Later :
    (ctx : AuthenticatedContext) (id record_id : Uuid) (fields : Fields) (now : Time)
    (app : Application)
    → Later app (read_secret ctx id record_id fields now app).1
unfolding read_secret audit
read-Later ctx id record_id fields now app =
    Later-trans app (clock now app).1 _ (clock-Later now app)
      (Later-same (clock now app).1 _ (ground arith) (ground arith) (ground arith) (ground arith))

metadata-Later :
    (ctx : AuthenticatedContext) (id record_id : Uuid) (fields : Fields) (now : Time)
    (app : Application)
    → Later app (metadata ctx id record_id fields now app).1
unfolding metadata audit
metadata-Later ctx id record_id fields now app =
    Later-trans app (clock now app).1 _ (clock-Later now app)
      (Later-same (clock now app).1 _ (ground arith) (ground arith) (ground arith) (ground arith))

pub Step-Later : {a b : Application} → Step a b → Later a b
Step-Later {a = a} (approves admin task now) = approve-Later admin task now a
Step-Later {a = a} (revokes admin id now) = revoke-Later admin id now a
Step-Later {a = a} (mutates codec fresh answers ctx id request op now unused) =
    mutate-Later codec fresh answers ctx id request op now a unused
Step-Later {a = a} (reads_secret ctx id record_id fields now) =
    read-Later ctx id record_id fields now a
Step-Later {a = a} (reads_metadata ctx id record_id fields now) =
    metadata-Later ctx id record_id fields now a

-- Whatever the operations, in whatever order: a task stays as it was approved, a revocation of a task
-- or of a grant and the deletion of a record are never undone, and a record's identity and a grant's
-- terms never change.
pub Reach-Later : {a b : Application} → Reach a b → Later a b
Reach-Later {a = a} start = Later-refl a
Reach-Later {a = a} (next {b = b} {c = c} r st) = Later-trans a b c (Reach-Later r) (Step-Later st)
