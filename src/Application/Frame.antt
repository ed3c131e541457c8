-- ===== src/Application/Frame.antt =====
-- src/agent/mod.rs: what the operations of `Application` leave alone of receipts and deliveries.
use credman.Base.{◌≡◌, refl, sym, ◌∙◌, none, some, arith, inl, inr, subst}
use credman.Base.Dict.{Dict, lookup, insert, lookup-insert}
use credman.Result.{Result, ok, Result-cases}
use credman.Types.{
  Uuid, Receipt, Time, Digest, AuthenticatedContext, TaskApproval, Application, Mutation, create,
  generate, patch, delete, share, revoke, report_outcome, Fields, RequestKey, Remembered, key_eq,
}
use credman.Generation.{Answers}
use credman.Clock.{clock}
use credman.Clock.Frame.{clock_frame}
use credman.Application.Records.{
  audit, carry_out, approve_task, revoke_task, create_record, patch_record, delete_record,
  share_record, revoke_record, report_record, get_record, put_record,
}
use credman.Application.Plan.{Codec, Plan, replay, perform, plan, request_key}
use credman.Application.Planned.{plan_ok}
use credman.Application.Outcome.{execute_ok, mutate_cases}
use credman.Application.Reach.{Step, approves, revokes, mutates, reads_secret, reads_metadata}
use credman.Application.Mutate.{remember, execute, mutate, read_secret, metadata}

-- Deliveries and baselines are left alone, and receipts stay.
pub record Recorded (a b : Application) : Type 0 where
  pub deliveries : b.deliveries ≡ a.deliveries
  pub baselines : b.baselines ≡ a.baselines
  pub requests :
      (key : RequestKey) (c : Remembered)
      → lookup key a.requests ≡ some c
      → lookup key b.requests ≡ some c

-- The three maps are left alone.
record Apart (a b : Application) : Type 0 where
  pub deliveries : b.deliveries ≡ a.deliveries
  pub baselines : b.baselines ≡ a.baselines
  pub requests : b.requests ≡ a.requests

Apart-Recorded : (a b : Application) → Apart a b → Recorded a b
Apart-Recorded a b h = record {
  deliveries = h.deliveries;
  baselines = h.baselines;
  requests = λ key c found. rw (h.requests) found;
}

pub clock-Recorded : (now : Time) (app : Application) → Recorded app (clock now app).1
clock-Recorded now app =
    let f = clock_frame now app in
    Apart-Recorded app (clock now app).1
      (record { deliveries = f.deliveries; baselines = f.baselines; requests = f.requests })

carry_out-Apart :
    (fresh : Uuid) (ctx : AuthenticatedContext) (t : TaskApproval) (id : Uuid) (op : Mutation)
    (app : Application)
    → Apart app (carry_out fresh ctx t id op app).1
unfolding carry_out create_record patch_record delete_record share_record revoke_record
    report_record get_record put_record
carry_out-Apart fresh ctx t id (create kind values) app = ground arith
carry_out-Apart fresh ctx t id (generate a b c) app = ground arith
carry_out-Apart fresh ctx t id (patch rid n values) app = ground arith
carry_out-Apart fresh ctx t id (delete rid n) app = ground arith
carry_out-Apart fresh ctx t id (share rid n spec) app = ground arith
carry_out-Apart fresh ctx t id (revoke rid n grant) app = ground arith
carry_out-Apart fresh ctx t id (report_outcome rid n state) app = ground arith

Recorded-trans : (a b c : Application) → Recorded a b → Recorded b c → Recorded a c
Recorded-trans a b c h k = record {
  deliveries = k.deliveries ∙ h.deliveries;
  baselines = k.baselines ∙ h.baselines;
  requests = λ key r found. k.requests key r (h.requests key r found);
}

insert_unused :
    (k key : RequestKey) (x c : Remembered) (d : Dict RequestKey Remembered)
    → lookup k d ≡ none
    → lookup key d ≡ some c
    → lookup key (insert k x d) ≡ some c
insert_unused k key x c d unused found =
    ground (arith, key_eq.beq_iff k key, lookup-insert k key x d)

remember_keeps :
    (ctx : AuthenticatedContext) (id request : Uuid) (op : Mutation) (fingerprint : Digest)
    (now : Time) (receipt : Receipt) (a b : Application)
    → lookup (request_key ctx id request) a.requests ≡ none
    → Apart a b
    → Recorded a (remember ctx id request op fingerprint now receipt b)
unfolding remember audit
remember_keeps ctx id request op fingerprint now receipt a b unused apart = record {
  deliveries = apart.deliveries;
  baselines = apart.baselines;
  requests = λ key c found.
      insert_unused (request_key ctx id request) key _ c b.requests (rw (apart.requests) unused)
        (rw (apart.requests) found);
}

remember-Recorded :
    (codec : Codec) (answers : Answers) (fresh : Uuid) (ctx : AuthenticatedContext)
    (id request : Uuid) (op op' : Mutation) (now : Time) (t : TaskApproval) (fingerprint : Digest)
    (app : Application)
    → plan codec answers ctx id request op now app ≡ ok (perform t fingerprint op')
    → Recorded app (execute fresh ctx id request op now (perform t fingerprint op') app).1
unfolding execute remember audit
remember-Recorded codec answers fresh ctx id request op op' now t fingerprint app planned =
    let facts = plan_ok codec answers ctx id request op now app _ planned in
    let apart = carry_out-Apart fresh ctx t id op' app in
    elim (Result-cases (carry_out fresh ctx t id op' app).0) [
      | inr (e, failed) ↦ record {
        deliveries = ground (arith, apart.deliveries);
        baselines = ground (arith, apart.baselines);
        requests = λ key c found. ground (arith, apart.requests);
      }
      | inl (receipt, done) ↦
          subst (λ b. Recorded app b)
            (sym
              (execute_ok fresh ctx id request op now t fingerprint op' app receipt
                (ground arith)).1)
            (remember_keeps ctx id request op fingerprint now receipt app
              (carry_out fresh ctx t id op' app).1 facts.unused apart)
    ]

execute-Recorded :
    (codec : Codec) (answers : Answers) (fresh : Uuid) (ctx : AuthenticatedContext)
    (id request : Uuid) (op : Mutation) (now : Time) (app : Application) (p : Plan)
    → plan codec answers ctx id request op now app ≡ ok p
    → Recorded app (execute fresh ctx id request op now p app).1
unfolding execute
execute-Recorded codec answers fresh ctx id request op now app (replay receipt) planned = record {
  deliveries = refl;
  baselines = refl;
  requests = λ key c found. found;
}
execute-Recorded codec answers fresh ctx id request op now app (perform t fingerprint op') planned =
    remember-Recorded codec answers fresh ctx id request op op' now t fingerprint app planned

mutate-Recorded :
    (codec : Codec) (fresh : Uuid) (answers : Answers) (ctx : AuthenticatedContext)
    (id request : Uuid) (op : Mutation) (now : Time) (app : Application)
    → Recorded app (mutate codec fresh answers ctx id request op now app).1
mutate-Recorded codec fresh answers ctx id request op now app =
    elim (mutate_cases fresh ctx id request op codec answers now app) [
      | inl (e, failed) ↦
          subst (λ (o : Result _ × Application). Recorded app o.1) (sym failed)
            (clock-Recorded now app)
      | inr run ↦
          subst (λ (o : Result _ × Application). Recorded app o.1) (sym run.executed)
            (Recorded-trans app (clock now app).1 _ (clock-Recorded now app) (
              execute-Recorded codec answers fresh ctx id request op run.at (clock now app).1
                run.decided run.planned))
    ]

approve-Apart :
    (admin : AuthenticatedContext) (task : TaskApproval) (now : Time) (app : Application)
    → Apart app (approve_task admin task now app).1
unfolding approve_task clock
approve-Apart admin task now app = ground arith

revoke-Apart :
    (admin : AuthenticatedContext) (id : Uuid) (now : Time) (app : Application)
    → Apart app (revoke_task admin id now app).1
unfolding revoke_task clock
revoke-Apart admin id now app = ground arith

read-Apart :
    (ctx : AuthenticatedContext) (id rid : Uuid) (fields : Fields) (now : Time) (app : Application)
    → Apart app (read_secret ctx id rid fields now app).1
unfolding read_secret audit clock
read-Apart ctx id rid fields now app = ground arith

metadata-Apart :
    (ctx : AuthenticatedContext) (id rid : Uuid) (fields : Fields) (now : Time) (app : Application)
    → Apart app (metadata ctx id rid fields now app).1
unfolding metadata audit clock
metadata-Apart ctx id rid fields now app = ground arith

-- One operation.
pub Step-Recorded : {a b : Application} → Step a b → Recorded a b
Step-Recorded {a = a} (approves admin task now) =
    Apart-Recorded a _ (approve-Apart admin task now a)
Step-Recorded {a = a} (revokes admin id now) = Apart-Recorded a _ (revoke-Apart admin id now a)
Step-Recorded {a = a} (mutates codec fresh answers ctx id request op now unused) =
    mutate-Recorded codec fresh answers ctx id request op now a
Step-Recorded {a = a} (reads_secret ctx id rid fields now) =
    Apart-Recorded a _ (read-Apart ctx id rid fields now a)
Step-Recorded {a = a} (reads_metadata ctx id rid fields now) =
    Apart-Recorded a _ (metadata-Apart ctx id rid fields now a)
