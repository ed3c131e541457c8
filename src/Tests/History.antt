-- ===== src/Tests/History.antt =====
-- src/agent/mod.rs: the properties of every later state, on a vault that shares a record and then
-- withdraws the share or deletes the record.
use credman.Base.{nat_eq, refl, [], ◌∷◌, true, false}
use credman.Base.Int.{pos}
use credman.Types.{
  password, share, revoke, delete, Record, Grant, Application, empty_application, login_kind,
  pending,
}
use credman.Application.{mutate, revoke_task, read_secret, metadata}
use credman.Application.History.{Later}
use credman.Application.Reach.{Reach, start, next, approves, mutates, reads_secret, Reach-Later}
use credman.Application.Revocation.{
  revoked_task-Powerless, Powerless, deleted_record_unreadable, Refused,
}
use credman.Application.Delegation.{grants-IsDelegated, IsDelegated}
use credman.Tests.Fixture.{runs, admin, agent, task_a, task_b, codec, shared, login_values, grant_b}

abbrev grant_of_b : Grant
grant_of_b = record {
  record_id = 10;
  spec = grant_b;
  revoked = true;
  version = 1;
  issuer_task = 1;
  admin_issued = false;
}

abbrev withdrawn : Application
withdrawn = (mutate codec 21 [] (agent "a") 1 103 (revoke 10 2 20) (pos 4) shared).1

abbrev deleted_a : Application
deleted_a = (mutate codec 21 [] (agent "a") 1 104 (delete 10 2) (pos 4) shared).1

abbrev gone : Record
gone = record {
  id = 10;
  owner = "owner";
  workspace = "work";
  created_by = "a";
  task = 1;
  service = "mail";
  origin = "https://mail.example";
  kind = login_kind;
  revision = 3;
  secret_version = 1;
  values = [];
  signup = pending;
  deleted = true;
  restored = false;
}

history : Reach empty_application shared
unfolding runs
history =
    next
      (next (next (next start (approves admin task_a (pos 1))) (approves admin task_b (pos 1))) (
        mutates codec 10 [] (agent "a") 1 100 login_values (pos 2)
          (record { as_record = refl; as_grant = refl })))
      (mutates codec 20 [] (agent "a") 1 101 (share 10 1 grant_b) (pos 3)
        (record { as_record = refl; as_grant = refl }))

reading :
    (app : Application) → Reach app (read_secret (agent "b") 2 10 (password ∷ []) (pos 5) app).1
reading app = next start (reads_secret (agent "b") 2 10 (password ∷ []) (pos 5))

grants-IsDelegated_example : IsDelegated shared
grants-IsDelegated_example = grants-IsDelegated shared history

Reach-Later_example : Later empty_application shared
Reach-Later_example = Reach-Later history

abbrev without_task : Application
without_task = (revoke_task admin 1 (pos 4) shared).1

revoked_task-Powerless_example :
    Powerless (read_secret (agent "b") 2 10 (password ∷ []) (pos 5) without_task).1 1
unfolding runs
revoked_task-Powerless_example =
    revoked_task-Powerless admin 1 (pos 4) shared
      (read_secret (agent "b") 2 10 (password ∷ []) (pos 5) without_task).1 refl
      (reading without_task)

deleted_record_unreadable_example :
    Refused
      (read_secret
        (agent "a")
        1
        10
        (password ∷ [])
        (pos 6)
        (read_secret (agent "b") 2 10 (password ∷ []) (pos 5) deleted_a).1).0
    × Refused
        (metadata
          (agent "a")
          1
          10
          (password ∷ [])
          (pos 6)
          (read_secret (agent "b") 2 10 (password ∷ []) (pos 5) deleted_a).1).0
unfolding runs
deleted_record_unreadable_example =
    deleted_record_unreadable deleted_a
      (read_secret (agent "b") 2 10 (password ∷ []) (pos 5) deleted_a).1 10 gone refl refl
      (reading deleted_a) (agent "a") 1 (password ∷ []) (pos 6)
