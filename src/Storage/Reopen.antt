-- ===== src/Storage/Reopen.antt =====
-- src/agent/storage.rs, `open` and `rekey`, and the `admin_scope` of src/agent/storage/backup.rs.
use credman.Base.{
  ◌≡◌, ap, ◌∙◌, Bool, false, ◌||◌, not, Option, some, arith, any, is_none, ◌!=◌, string_eq,
}
use credman.Base.Dict.{values}
use credman.Result.{
  Result, ok, err, ◌>>=◌, ◌>>◌, reject, ok_or, map_err, recovery_required, invalid_storage, denied,
  invalid,
}
use credman.Exec.{Exec}
use credman.Types.{Application, AuthenticatedContext, Digest, Time}
use credman.Storage.{Image, Sealing, Images, Weather, Directory, DurableVault, gated}
use credman.Storage.Publish.{publish_with}
use credman.Storage.Vault.{ready, settle, next_generation}
use credman.Storage.Durable.{Saved}

-- `DurableVault::open`: `acquired` is what `acquire` answers before it examines the gates,
-- `unreadable` tells whether a gate cannot be examined, `unseal` has the seed's words.
unfoldable pub open_vault :
    (Image → Result (Application × Sealing))
    → Result (Unit {0})
    → Bool
    → Directory
    → Result DurableVault
open_vault unseal acquired unreadable dir = do
  acquired
  reject (unreadable || gated dir) recovery_required
  image ← ok_or dir.visible invalid_storage
  (app, sealing) ← unseal image
  reject (any (λ attempt. is_none attempt.status) (values app.deliveries)) recovery_required
  ok (record {
    app = app;
    store = record {
      dir = dir;
      sealing = sealing;
      current_image = some image;
      blocked = false;
      persisted_last_time = app.last_time;
      persisted_frozen = app.clock_frozen;
    };
    frozen = false;
  })

-- `backup::admin_scope`.
unfoldable pub admin_scope : Application → AuthenticatedContext → Result (Unit {0})
admin_scope app admin =
    reject
      (not admin.admin
        || any (λ t. t.owner != admin.owner || t.workspace != admin.workspace) (values app.tasks)
        || any (λ r. r.owner != admin.owner || r.workspace != admin.workspace) (values app.records))
      denied

-- The part of `rekey` before the publication: the application with its predecessor, and the new
-- sealing. `valid_words` is what `validate_mnemonic` answers, `derived` the key with its fresh salt.
unfoldable pub rekeyed :
    Images
    → (Image → Digest)
    → AuthenticatedContext
    → Bool
    → Result Sealing
    → DurableVault
    → Result (Application × Sealing)
rekeyed images image_hash admin valid_words derived vault = do
  ready vault
  admin_scope vault.app admin
  reject (not valid_words) invalid
  previous ← ok_or vault.store.current_image invalid_storage
  generation ← next_generation vault.app
  let next = record vault.app { generation = generation; predecessor = some (image_hash previous) }
  images.validate next
  sealing ← map_err derived invalid_storage
  ok (next, sealing)

-- `DurableVault::rekey`.
unfoldable pub rekey :
    Images
    → (Image → Digest)
    → Weather
    → AuthenticatedContext
    → Bool
    → Result Sealing
    → Exec DurableVault (Unit {0})
rekey images image_hash weather admin valid_words derived vault =
    elim (rekeyed images image_hash admin valid_words derived vault) [
      | err e ↦ (err e, vault)
      | ok (next, sealing) ↦
          settle next vault (publish_with images weather next sealing vault.store)
    ]

-- The vault that `open` makes of the directory of another.
abbrev pub restarted : DurableVault → DurableVault
restarted vault = record vault {
  app = record vault.app { last_time = vault.store.persisted_last_time };
}

open_image :
    (unseal : Image → Result (Application × Sealing)) (dir : Directory) (image : Image)
    (app : Application) (sealing : Sealing)
    → gated dir ≡ false
    → dir.visible ≡ some image
    → unseal image ≡ ok (app, sealing)
    → any (λ attempt. is_none attempt.status) (values app.deliveries) ≡ false
    → open_vault unseal (ok tt) false dir
      ≡ ok (record {
        app = app;
        store = record {
          dir = dir;
          sealing = sealing;
          current_image = some image;
          blocked = false;
          persisted_last_time = app.last_time;
          persisted_frozen = app.clock_frozen;
        };
        frozen = false;
      })
unfolding open_vault
open_image unseal dir image app sealing g v k f = ground arith

-- A vault in step with its directory, without an unfinished delivery, is opened again from its
-- directory as it was, but with the clock's high-water mark that was saved. It is assumed that the
-- visible image is decrypted and decoded to what was sealed in it.
pub open_vault-restarted :
    (images : Images) (unseal : Image → Result (Application × Sealing)) (vault : DurableVault)
    (s : Saved images vault)
    → unseal s.image ≡ ok (s.saved, vault.store.sealing)
    → any (λ attempt. is_none attempt.status) (values vault.app.deliveries) ≡ false
    → vault.frozen ≡ false
    → vault.store.blocked ≡ false
    → open_vault unseal (ok tt) false vault.store.dir ≡ ok (restarted vault)
open_vault-restarted images unseal vault s law finished thawed unblocked =
    let kept : vault.app.deliveries ≡ s.saved.deliveries =
      ap (λ (a : Application). a.deliveries) s.same in
    let app_same : record vault.app { last_time = vault.store.persisted_last_time } ≡ s.saved =
      ap (λ (a : Application). record a { last_time = vault.store.persisted_last_time }) s.same
      ∙ ap {A = Option Time} (λ t. record s.saved { last_time = t }) s.mark in
    let opened =
      open_image unseal vault.store.dir s.image s.saved vault.store.sealing s.ungated s.visible law
        (rw (← kept) finished) in
    opened ∙ ap ok (ground (arith, app_same, s.held, s.mark, s.freeze, thawed, unblocked))
