-- ===== src/Tests/Use.antt =====
-- src/agent/storage/workflow_tests.rs: an agent registers with a shared credential.
use credman.Base.{nat_eq, ℕ, List, ◌≡◌, refl, true, false, none, some, [], ◌∷◌, arith}
use credman.Base.Int.{pos}
use credman.Types.{DeliveryStatus, DeliveryReceipt, accepted}
use credman.Types.{
  Application, PrivateUse, username, password, register, SecretInput, Record, DeliveryAttempt,
  empty_application, login_kind, pending, submitted,
}
use credman.Storage.{DurableVault}
use credman.Storage.Publish.{
  publish_with, publish, publish_image, replace_visible, rename_to, clean_up, adopt, intent_left,
}
use credman.Storage.Vault.{
  apply, commit, commit_image, clock_only, staged, next_generation, ready, settle, answer_with,
}
use credman.Storage.Use.{
  use_secret, finish, after_delivery, answer_after, conclude, change_delivery, signup_after,
  Handoff, handed, until_handoff, after_intent, hand_over, check_handoff, prepare, check_use,
  begin_attempt, set_signup, find_delivery,
}
use credman.Storage.Handoff.{ClockOnly}
use credman.Storage.Untried.{FirstHandover, until_handoff-FirstHandover}
use credman.Storage.Once.{Spares, registered_once}
use credman.Storage.Onward.{unmoved, operates, concludes, compacts}
use credman.Application.{metadata}
use credman.Application.Reach.{reads_metadata}
use credman.Snapshot.Compact.{
  compact, fold_records, prune_grants, prune_deliveries, drop_records, drop_tasks, settle_history,
}
use credman.Storage.Answer.{Sourced, use_secret-Sourced}
use credman.Result.{Result, ok}
use credman.Tests.Fixture.{runs, agent, task_b, codec}
use credman.Tests.Disk.{images, fair, vault}

abbrev pub record_of_b : Record
record_of_b = record {
  id = 10;
  owner = "owner";
  workspace = "work";
  created_by = "b";
  task = 2;
  service = "mail";
  origin = "https://mail.example";
  kind = login_kind;
  revision = 1;
  secret_version = 1;
  values = (username, "alice") ∷ (password, "secret") ∷ [];
  signup = pending;
  deleted = false;
  restored = false;
}

abbrev pub app_of_b : Application
app_of_b = record empty_application {
  tasks = (2, task_b) ∷ [];
  records = (10, record_of_b) ∷ [];
  last_time = some (pos 3);
  generation = 2;
}

abbrev usable_vault : DurableVault
usable_vault = record vault { app = app_of_b }

abbrev registration : PrivateUse
registration = record {
  request = 200;
  record_id = 10;
  fields = username ∷ password ∷ [];
  destination = "mail";
  action = register;
}

abbrev registering : Handoff
registering =
    until_handoff images (1 ∷ []) 50 (agent "b") 2 registration fair fair (pos 4) (pos 5)
      usable_vault

abbrev pub submitted_attempt : DeliveryAttempt
submitted_attempt = record {
  task = 2;
  record_id = 10;
  version = 1;
  destination = "mail";
  fields = username ∷ password ∷ [];
  status = none;
  key = record { owner = "owner"; principal = "b"; task = 2; id = 200 };
  fingerprint = 1 ∷ [];
  action = register;
  dispatched = true;
  at = some (pos 4);
}

abbrev pub handing : DurableVault
handing = record {
  app = record app_of_b {
    records = (10, record record_of_b { signup = submitted }) ∷ [];
    deliveries = (50, submitted_attempt) ∷ [];
    last_time = some (pos 5);
    generation = 3;
  };
  store = record vault.store {
    dir = record { visible = some (3 ∷ 7 ∷ []); pending = none; recovery = none };
    current_image = some (3 ∷ 7 ∷ []);
    persisted_last_time = some (pos 4);
  };
  frozen = false;
}

abbrev given : SecretInput
given = (username, "alice") ∷ (password, "secret") ∷ []

registers : registering ≡ handed given (pos 5) handing
unfolding until_handoff after_intent hand_over check_handoff prepare check_use begin_attempt
    set_signup find_delivery apply commit commit_image clock_only staged next_generation ready
    settle answer_with publish publish_with publish_image replace_visible rename_to clean_up adopt
    intent_left runs
registers = refl

clock_law : ClockOnly images
clock_law a b h = absurd (ground arith)

until_handoff-FirstHandover_example :
    FirstHandover images (1 ∷ []) 50 (agent "b") 2 registration usable_vault handing given (pos 5)
until_handoff-FirstHandover_example =
    until_handoff-FirstHandover images (λ app id d keep found. found) clock_law (1 ∷ []) 50
      (agent "b") 2 registration fair fair (pos 4) (pos 5) usable_vault given (pos 5) handing
      registers

-- The registration is concluded, a day passes, and the owner drops the attempt.
abbrev concluded : Application
concluded = (conclude 50 (agent "b") 2 registration (pos 5) accepted handing.app).1

abbrev day_later : Application
day_later = (metadata (agent "b") 2 10 (password ∷ []) (pos 90000) concluded).1

abbrev pruned_vault : DurableVault
pruned_vault = record handing { app = compact day_later }

attempt_pruned : pruned_vault.app.deliveries ≡ []
unfolding runs conclude change_delivery signup_after compact fold_records prune_grants
    prune_deliveries drop_records drop_tasks settle_history
attempt_pruned = refl

day_later-Spares : Spares 10 day_later
unfolding runs conclude change_delivery signup_after compact fold_records prune_grants
    prune_deliveries drop_records drop_tasks settle_history
day_later-Spares = ((refl, tt), _, refl)

registered_once_example : ¬ (
    until_handoff images
      (1 ∷ [])
      51
      (agent "b")
      2
      (record registration { request = 201 })
      fair
      fair
      (pos 90001)
      (pos 90002)
      pruned_vault
    ≡ handed given (pos 90002) pruned_vault)
registered_once_example =
    registered_once images clock_law (1 ∷ []) (1 ∷ []) 50 51 (agent "b") (agent "b") 2 2
      registration (record registration { request = 201 }) fair fair fair fair (pos 4) (pos 5)
      (pos 90001) (pos 90002) usable_vault handing pruned_vault pruned_vault given given (pos 5)
      (pos 90002) registers refl
      (compacts
        (operates (concludes 50 (agent "b") 2 registration (pos 5) accepted unmoved)
          (reads_metadata (agent "b") 2 10 (password ∷ []) (pos 90000)))
        day_later-Spares)
      refl refl

abbrev accepting : SecretInput → Result DeliveryStatus
accepting values = ok accepted

abbrev used : Result DeliveryReceipt × DurableVault
used =
    use_secret images codec 50 fair fair fair (pos 4) (pos 5) accepting (agent "b") 2 registration
      usable_vault

abbrev accepted_receipt : DeliveryReceipt
accepted_receipt = record { attempt = 50; status = accepted }

uses : used.0 ≡ ok accepted_receipt
unfolding use_secret finish after_delivery answer_after conclude change_delivery signup_after
    until_handoff after_intent hand_over check_handoff prepare check_use begin_attempt set_signup
    find_delivery apply commit commit_image clock_only staged next_generation ready settle
    answer_with publish publish_with publish_image replace_visible rename_to clean_up adopt
    intent_left runs
uses = refl

use_secret-Sourced_example :
    (bytes : List ℕ) × (codec.use_bytes registration ≡ some bytes)
    × Sourced
        (codec.sha256 bytes)
        50
        (agent "b")
        2
        registration
        images
        accepting
        app_of_b
        (until_handoff images
          (codec.sha256 bytes)
          50
          (agent "b")
          2
          registration
          fair
          fair
          (pos 4)
          (pos 5)
          usable_vault)
        used
        accepted_receipt
use_secret-Sourced_example =
    use_secret-Sourced images codec 50 fair fair fair (pos 4) (pos 5) accepting (agent "b") 2
      registration usable_vault accepted_receipt clock_law uses
