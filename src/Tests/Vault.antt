-- ===== src/Tests/Vault.antt =====
-- src/agent/mod.rs: the properties of the vault on the approvals and the record of the fixture.
use credman.Base.{nat_eq, ◌≡◌, ◌⊎◌, ◌↔◌, refl, true, false, some, [], ◌∷◌, arith}
use credman.Base.Int.{pos}
use credman.Base.Dict.{lookup}
use credman.Result.{conflict}
use credman.Types.{
  Permission, password, username, share, pending, Record, login_kind, Application, key_eq,
}
use credman.Clock.{clock}
use credman.Clock.Progress.{clock_outcome, Refuses, Frozen, Advanced}
use credman.Policy.{can}
use credman.Policy.Authority.{can_iff_authority, Covers, Source}
use credman.Application.{request_key, mutate, metadata}
use credman.Application.Reach.{reads_metadata}
use credman.Snapshot.Compact.{compact, stale}
use credman.Storage.Onward.{unmoved, operates, compacts}
use credman.Storage.Retry.{InWindow, mutate_once}
use credman.Application.Replay.{Answered}
use credman.Application.Atomic.{mutate_error}
use credman.Application.Update.{mutate_updates, Mutated}
use credman.Application.Effect.{IsU64}
use credman.Application.Disclosure.{select-Discloses, Discloses}
use credman.Tests.Fixture.{runs, agent, task_b, codec, stored, shared, grant_b}

abbrev record_a : Record
record_a = record {
  id = 10;
  owner = "owner";
  workspace = "work";
  created_by = "a";
  task = 1;
  service = "mail";
  origin = "https://mail.example";
  kind = login_kind;
  revision = 1;
  secret_version = 1;
  values = (username, "alice") ∷ (password, "secret") ∷ [];
  signup = pending;
  deleted = false;
  restored = false;
}

clock_outcome_example :
    (Refuses shared (pos 1) × (clock (pos 1) shared ≡ Frozen shared))
    ⊎ ((¬ Refuses shared (pos 1)) × (clock (pos 1) shared ≡ Advanced shared (pos 1)))
clock_outcome_example = clock_outcome shared (pos 1)

can_iff_authority_example :
    (can shared
        (agent "b")
        task_b
        record_a
        Permission.secret_use
        (password ∷ [])
        (some "mail")
        (pos 4)
      ≡ true)
    ↔ (Covers task_b record_a Permission.secret_use (password ∷ []) (some "mail")
        × Source shared
            (agent "b")
            task_b
            record_a
            Permission.secret_use
            (password ∷ [])
            (some "mail")
            (pos 4))
can_iff_authority_example =
    can_iff_authority shared (agent "b") task_b record_a Permission.secret_use (password ∷ [])
      (some "mail") (pos 4)

-- Agent `b` looks the record up, and then the owner compacts.
abbrev looked_up : Application
looked_up = (metadata (agent "b") 2 10 (password ∷ []) (pos 4) shared).1

abbrev compacted : Application
compacted = compact looked_up

shared-InWindow : InWindow (request_key (agent "a") 1 101) looked_up
unfolding runs stale
shared-InWindow c found = ground arith

mutate_once_example :
    Answered codec
      (agent "a")
      1
      101
      (share 10 1 grant_b)
      (record { record_id = 10; revision = 2; grant = some 20 })
      (clock (pos 9) compacted).1
      (mutate codec 30 [] (agent "a") 1 101 (share 10 1 grant_b) (pos 9) compacted)
unfolding runs
mutate_once_example =
    mutate_once codec (agent "a") 1 101 (share 10 1 grant_b) 20 30 [] [] (pos 3) (pos 9) stored
      compacted (record { record_id = 10; revision = 2; grant = some 20 }) refl
      (compacts (operates unmoved (reads_metadata (agent "b") 2 10 (password ∷ []) (pos 4)))
        shared-InWindow)

mutate_error_example :
    (mutate codec 21 [] (agent "a") 1 102 (share 10 1 grant_b) (pos 3) shared).1
    ≡ (clock (pos 3) shared).1
unfolding runs
mutate_error_example =
    mutate_error codec 21 [] (agent "a") 1 102 (share 10 1 grant_b) conflict (pos 3) shared refl

select-Discloses_example :
    Discloses shared
      (agent "b")
      2
      10
      (password ∷ [])
      Permission.secret_use
      (some "mail")
      (pos 4)
      ((password, "secret") ∷ [])
unfolding runs
select-Discloses_example =
    select-Discloses shared (agent "b") 2 10 (password ∷ []) Permission.secret_use (some "mail")
      (pos 4) ((password, "secret") ∷ []) refl

small_records : (r : Record) → lookup 10 stored.records ≡ some r → IsU64 r
unfolding runs
small_records r found = ground arith

mutate_updates_example :
    Mutated
      (agent "a")
      (share 10 1 grant_b)
      10
      stored
      shared
      (record { record_id = 10; revision = 2; grant = some 20 })
unfolding runs
mutate_updates_example =
    mutate_updates codec 20 [] (agent "a") 1 101 (share 10 1 grant_b) 10 refl (pos 3) stored
      (record { record_id = 10; revision = 2; grant = some 20 }) small_records refl refl
