-- ===== src/Application/Revocation.antt =====
-- src/agent/mod.rs: what a revocation or a deletion withdraws, in every later state.
use credman.Base.{◌≡◌, true, some, arith, inl, inr, contains, contains-insert_set, nat_eq, ==_refl}
use credman.Base.Dict.{lookup}
use credman.Result.{Result, ok, err, denied, Result-cases}
use credman.Types.{Uuid, Time, AuthenticatedContext, Record, Application, Mutation, Fields}
use credman.Generation.{Answers}
use credman.Clock.{clock}
use credman.Clock.Frame.{clock_frame}
use credman.Policy.{task, find_record}
use credman.Application.Records.{revoke_task}
use credman.Application.Plan.{Codec, plan}
use credman.Application.Select.{select}
use credman.Application.Reach.{Reach, Reach-Later}
use credman.Application.Mutate.{mutate, read_secret, metadata}

abbrev pub Refused {ℓ} : {A : Type ℓ} → Result A → Type 0
Refused (ok a) = ⊥
Refused (err e) = Unit

task_revoked :
    (app : Application) (ctx : AuthenticatedContext) (id : Uuid) (now : Time)
    → contains app.revoked_tasks id ≡ true
    → task app ctx id now ≡ err denied
unfolding task
task_revoked app ctx id now h = ground arith

-- No operation of a task that is revoked succeeds.
pub record Powerless (app : Application) (id : Uuid) : Type 0 where
  pub no_mutation :
      (codec : Codec) (fresh : Uuid) (answers : Answers) (ctx : AuthenticatedContext)
      (request : Uuid) (op : Mutation) (now : Time)
      → Refused (mutate codec fresh answers ctx id request op now app).0
  pub no_secret :
      (ctx : AuthenticatedContext) (record_id : Uuid) (fields : Fields) (now : Time)
      → Refused (read_secret ctx id record_id fields now app).0
  pub no_metadata :
      (ctx : AuthenticatedContext) (record_id : Uuid) (fields : Fields) (now : Time)
      → Refused (metadata ctx id record_id fields now app).0

module _ (app : Application) (id : Uuid) (revoked : contains app.revoked_tasks id ≡ true) where
  still_revoked : (now : Time) → contains (clock now app).1.revoked_tasks id ≡ true
  still_revoked now = rw ((clock_frame now app).revoked_tasks) revoked

  mutate-Refused :
      (codec : Codec) (fresh : Uuid) (answers : Answers) (ctx : AuthenticatedContext)
      (request : Uuid) (op : Mutation) (now : Time)
      → Refused (mutate codec fresh answers ctx id request op now app).0
  unfolding mutate plan
  mutate-Refused codec fresh answers ctx request op now = elim (Result-cases (clock now app).0) [
    | inr (e, stopped) ↦ ground arith
    | inl (now', ticked) ↦
        ground (arith, task_revoked (clock now app).1 ctx id now' (still_revoked now))
  ]

  read-Refused :
      (ctx : AuthenticatedContext) (record_id : Uuid) (fields : Fields) (now : Time)
      → Refused (read_secret ctx id record_id fields now app).0
  unfolding read_secret select
  read-Refused ctx record_id fields now = elim (Result-cases (clock now app).0) [
    | inr (e, stopped) ↦ ground arith
    | inl (now', ticked) ↦
        ground (arith, task_revoked (clock now app).1 ctx id now' (still_revoked now))
  ]

  metadata-Refused :
      (ctx : AuthenticatedContext) (record_id : Uuid) (fields : Fields) (now : Time)
      → Refused (metadata ctx id record_id fields now app).0
  unfolding metadata select
  metadata-Refused ctx record_id fields now = elim (Result-cases (clock now app).0) [
    | inr (e, stopped) ↦ ground arith
    | inl (now', ticked) ↦
        ground (arith, task_revoked (clock now app).1 ctx id now' (still_revoked now))
  ]

  revoked-Powerless : Powerless app id
  revoked-Powerless = record {
    no_mutation = mutate-Refused;
    no_secret = read-Refused;
    no_metadata = metadata-Refused;
  }

revoke_task_ok :
    (admin : AuthenticatedContext) (id : Uuid) (now : Time) (app : Application)
    → (revoke_task admin id now app).0 ≡ ok tt
    → contains (revoke_task admin id now app).1.revoked_tasks id ≡ true
unfolding revoke_task
revoke_task_ok admin id now app h =
    ground (arith, contains-insert_set id id (clock now app).1.revoked_tasks, ==_refl id)

-- Once a task has been revoked, no mutation, secret read or metadata read under it succeeds in any
-- state that any operations lead to, whoever calls, whatever the clock says, retries included.
pub revoked_task-Powerless :
    (admin : AuthenticatedContext) (id : Uuid) (now : Time) (app later : Application)
    → (revoke_task admin id now app).0 ≡ ok tt
    → Reach (revoke_task admin id now app).1 later
    → Powerless later id
revoked_task-Powerless admin id now app later h reach =
    revoked-Powerless later id
      ((Reach-Later reach).revoked_tasks id (revoke_task_ok admin id now app h))

module _ (app : Application) (ctx : AuthenticatedContext) (id record_id : Uuid) (fields : Fields)
    (now : Time) (r : Record) (found : lookup record_id app.records ≡ some r)
    (deleted : r.deleted ≡ true) where
  deleted_unfound : find_record (clock now app).1 ctx record_id ≡ err denied
  unfolding find_record
  deleted_unfound = ground (arith, (clock_frame now app).records)

  deleted_unread :
      Refused (read_secret ctx id record_id fields now app).0
      × Refused (metadata ctx id record_id fields now app).0
  unfolding read_secret metadata select
  deleted_unread = (ground (arith, deleted_unfound), ground (arith, deleted_unfound))

-- A deleted record is never read again.
pub deleted_record_unreadable :
    (app later : Application) (record_id : Uuid) (r : Record)
    → lookup record_id app.records ≡ some r
    → r.deleted ≡ true
    → Reach app later
    → (ctx : AuthenticatedContext) (id : Uuid) (fields : Fields) (now : Time)
    → Refused (read_secret ctx id record_id fields now later).0
      × Refused (metadata ctx id record_id fields now later).0
deleted_record_unreadable app later record_id r found deleted reach ctx id fields now =
    let (r', found', kept) = (Reach-Later reach).records.at record_id r found in
    deleted_unread later ctx id record_id fields now r' found' (kept.deleted deleted)
