-- ===== src/Tests/Disk.antt =====
-- src/agent/storage/tests.rs: a vault that is created, and a publication whose rename fails after
-- it has replaced the image.
use credman.Base.{◌≡◌, ◌⊎◌, refl, true, false, ◌||◌, none, some, [], ◌∷◌}
use credman.Base.Dict.{values}
use credman.Base.Int.{pos}
use credman.Result.{Error, ok, err, recovery_required}
use credman.Types.{Application, AuthenticatedContext, empty_application}
use credman.Application.{approve_task}
use credman.Storage.{
  Image, Sealing, Images, intent, Directory, Weather, synced, renamed, renamed_with_error,
  not_published, unknown, DurableVault, gated, block,
}
use credman.Storage.Publish.{
  publish_with, publish, publish_image, replace_visible, rename_to, clean_up, adopt, intent_left,
}
use credman.Storage.Vault.{
  create_from_app, created, apply, commit, commit_image, clock_only, staged, next_generation, ready,
  settle, answer_with,
}
use credman.Storage.Crash.{Settled, publish_outcome}
use credman.Storage.Owner.{Applied, apply_outcome}
use credman.Storage.Durable.{Saved, Synced, apply-Synced, due_now}
use credman.Storage.Create.{create_Synced}
use credman.Storage.Reopen.{
  open_vault, restarted, open_vault-restarted, rekey, rekeyed, admin_scope,
}
use credman.Storage.Rekey.{Kept, Moved, rekey_outcome}
use credman.Tests.Fixture.{runs, admin, task_a}

abbrev pub images : Images
images = record {
  validate = λ app. ok tt;
  clock_only_difference = λ old new. ok false;
  should_compact = λ app. false;
  compact = λ app. app;
  encode = λ app. ok (app.generation ∷ []);
  seal = λ app sealing nonce. ok (app.generation ∷ nonce);
}

abbrev pub fair : Weather
fair = record {
  gate_unreadable = false;
  candidate_fails = false;
  intent_write = synced;
  rename = renamed;
  directory_sync_fails = false;
  unlink_fails = false;
  cleanup_sync_fails = false;
  nonce = 7 ∷ [];
}

abbrev stormy : Weather
stormy = record fair { rename = renamed_with_error; nonce = 8 ∷ [] }

abbrev pub sealing : Sealing
sealing = record { key = 1 ∷ []; salt = 2 ∷ []; m_kib = 65536; t_cost = 3; p_cost = 1 }

abbrev pub empty_directory : Directory
empty_directory = record { visible = none; pending = none; recovery = none }

abbrev pub first_app : Application
first_app = record empty_application { generation = 1 }

abbrev pub vault : DurableVault
vault = record {
  app = first_app;
  store = record {
    dir = record { visible = some (1 ∷ 7 ∷ []); pending = none; recovery = none };
    sealing = sealing;
    current_image = some (1 ∷ 7 ∷ []);
    blocked = false;
    persisted_last_time = none;
    persisted_frozen = false;
  };
  frozen = false;
}

vault_created :
    create_from_app images fair (ok tt) (ok sealing) first_app empty_directory ≡ ok vault
unfolding create_from_app created publish publish_with publish_image replace_visible rename_to
    clean_up adopt intent_left
vault_created = refl

vault-Synced : Synced images vault
vault-Synced =
    create_Synced images fair (ok tt) (ok sealing) first_app empty_directory vault vault_created

-- The new image is visible, behind the gate, and the owner asks for recovery.
storm :
    ((apply images stormy (approve_task admin task_a (pos 1)) vault).0 ≡ err recovery_required)
    × ((apply images stormy (approve_task admin task_a (pos 1)) vault).1.store.dir ≡ record {
      visible = some (2 ∷ 8 ∷ []);
      pending = some (intent (some (1 ∷ 7 ∷ [])) (2 ∷ 8 ∷ []));
      recovery = none;
    })
unfolding apply commit commit_image clock_only staged next_generation ready settle answer_with
    publish publish_with publish_image replace_visible rename_to clean_up adopt intent_left runs
storm = (refl, refl)

apply-Synced_example :
    Synced images (apply images stormy (approve_task admin task_a (pos 1)) vault).1
apply-Synced_example =
    apply-Synced images stormy (approve_task admin task_a (pos 1)) vault vault-Synced

apply_outcome_example :
    Applied images
      (approve_task admin task_a (pos 1) first_app)
      vault
      (apply images fair (approve_task admin task_a (pos 1)) vault)
apply_outcome_example = apply_outcome images fair (approve_task admin task_a (pos 1)) vault

publish_outcome_example :
    ((publish_with images stormy first_app sealing vault.store ≡ (unknown, block vault.store))
      × ((vault.store.blocked || stormy.gate_unreadable || gated vault.store.dir) ≡ true))
    ⊎ ((publish_with images stormy first_app sealing vault.store ≡ (not_published, vault.store))
        × ((e : Error) × (images.seal first_app sealing stormy.nonce ≡ err e)))
    ⊎ ((image : Image) × (images.seal first_app sealing stormy.nonce ≡ ok image)
        × (gated vault.store.dir ≡ false)
        × Settled first_app sealing image vault.store
            (publish_with images stormy first_app sealing vault.store))
publish_outcome_example = publish_outcome images stormy first_app sealing vault.store

abbrev new_sealing : Sealing
new_sealing = record sealing { key = 9 ∷ []; salt = 4 ∷ [] }

abbrev pub manager : AuthenticatedContext
manager = record {
  owner = "owner";
  principal = "human";
  workspace = "work";
  session_deadline = none;
  admin = true;
}

-- The words are valid, and the publication succeeds.
rekey_example :
    (rekey images (λ image. image) fair manager true (ok new_sealing) vault).1.store.sealing
    ≡ new_sealing
unfolding rekey rekeyed admin_scope ready next_generation publish_with publish_image replace_visible
    rename_to intent_left clean_up adopt settle values
rekey_example = refl

rekey_outcome_example :
    Kept vault (rekey images (λ image. image) fair manager true (ok new_sealing) vault)
    ⊎ Moved images
        (λ image. image)
        fair
        manager
        (ok new_sealing)
        vault
        (rekey images (λ image. image) fair manager true (ok new_sealing) vault)
rekey_outcome_example =
    rekey_outcome images (λ image. image) fair manager true (ok new_sealing) vault

abbrev vault-Saved : Saved images vault
vault-Saved = record {
  saved = first_app;
  image = 1 ∷ 7 ∷ [];
  nonce = 7 ∷ [];
  sealed = refl;
  visible = refl;
  held = refl;
  ungated = refl;
  mark = refl;
  freeze = refl;
  same = refl;
  recent = due_now none;
}

open_vault-restarted_example :
    open_vault (λ image. ok (first_app, sealing)) (ok tt) false vault.store.dir
    ≡ ok (restarted vault)
unfolding values
open_vault-restarted_example =
    open_vault-restarted images (λ image. ok (first_app, sealing)) vault vault-Saved refl refl refl
      refl
