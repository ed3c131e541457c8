-- ===== src/Tests/Sealed.antt =====
-- src/agent/storage/tests.rs: the owner over the snapshot codec, when its clock alone moves on.
use credman.Base.{ℕ, ◌≡◌, refl, false, none, some, List, [], ◌∷◌, ◌++◌}
use credman.Base.Int.{pos}
use credman.Result.{Result, ok, err, denied}
use credman.Application.{revoke_task}
use credman.Snapshot.Whole.{validate}
use credman.Snapshot.Valid.{IsValid}
use credman.Storage.{Image, Images, Sealing, DurableVault}
use credman.Storage.Publish.{
  publish_with, publish, publish_image, replace_visible, rename_to, clean_up, adopt, intent_left,
}
use credman.Storage.Vault.{
  apply, commit, commit_image, clock_only, staged, next_generation, ready, settle, answer_with, due,
}
use credman.Storage.Durable.{Saved, Synced, due_now}
use credman.Storage.Sealed.{seal, snapshot_images, apply-IsValid}
use credman.Tests.Fixture.{runs, codec, admin}
use credman.Tests.Disk.{fair, sealing}
use credman.Tests.Snapshot.{checks, json, clock_alone, clock_app}

abbrev pub encrypt : List ℕ → Sealing → List ℕ → Result Image
encrypt plain _ nonce = ok (nonce ++ plain)

abbrev pub owner_images : Images
owner_images = snapshot_images json codec encrypt

abbrev clock_vault : DurableVault
clock_vault = record {
  app = clock_app;
  store = record {
    dir = record { visible = some (6 ∷ 7 ∷ 0 ∷ 40 ∷ []); pending = none; recovery = none };
    sealing = sealing;
    current_image = some (6 ∷ 7 ∷ 0 ∷ 40 ∷ []);
    blocked = false;
    persisted_last_time = some (pos 40);
    persisted_frozen = false;
  };
  frozen = false;
}

clock_sealed : owner_images.seal clock_app sealing (6 ∷ []) ≡ ok (6 ∷ 7 ∷ 0 ∷ 40 ∷ [])
unfolding runs checks clock_alone seal
clock_sealed = refl

clock_vault-Synced : Synced owner_images clock_vault
unfolding Synced
clock_vault-Synced usable = record {
  saved = clock_app;
  image = 6 ∷ 7 ∷ 0 ∷ 40 ∷ [];
  nonce = 6 ∷ [];
  sealed = clock_sealed;
  visible = refl;
  held = refl;
  ungated = refl;
  mark = refl;
  freeze = refl;
  same = refl;
  recent = due_now (some (pos 40));
}

-- The task is not there, but the clock is a minute later and has to be saved.
minute_later : (apply owner_images fair (revoke_task admin 5 (pos 100)) clock_vault).0 ≡ err denied
unfolding runs checks clock_alone seal apply commit commit_image clock_only staged next_generation
    ready settle answer_with due publish_with publish publish_image replace_visible rename_to
    clean_up adopt intent_left
minute_later = refl

minute_later_usable :
    ready (apply owner_images fair (revoke_task admin 5 (pos 100)) clock_vault).1 ≡ ok tt
unfolding runs checks clock_alone seal apply commit commit_image clock_only staged next_generation
    ready settle answer_with due publish_with publish publish_image replace_visible rename_to
    clean_up adopt intent_left
minute_later_usable = refl

minute_later_image :
    (apply owner_images fair (revoke_task admin 5 (pos 100)) clock_vault).1.store.dir.visible
    ≡ some (7 ∷ 8 ∷ 0 ∷ 100 ∷ [])
unfolding runs checks clock_alone seal apply commit commit_image clock_only staged next_generation
    ready settle answer_with due publish_with publish publish_image replace_visible rename_to
    clean_up adopt intent_left
minute_later_image = refl

apply-IsValid_example :
    (s : Saved owner_images (apply owner_images fair (revoke_task admin 5 (pos 100)) clock_vault).1)
    × (validate codec s.saved ≡ ok tt)
    × IsValid s.saved
apply-IsValid_example =
    apply-IsValid json codec encrypt fair (revoke_task admin 5 (pos 100)) clock_vault
      clock_vault-Synced minute_later_usable
