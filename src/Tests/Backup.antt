-- ===== src/Tests/Backup.antt =====
-- src/agent/storage/backup/tests.rs: a backup that is made, and a vault that is restored from it.
use credman.Base.{ℕ, nat_eq, ◌≡◌, refl, true, false, some, none, List, [], ◌∷◌, ◌++◌}
use credman.Base.Dict.{lookup}
use credman.Base.Order.{each}
use credman.Base.Int.{pos}
use credman.Result.{ok}
use credman.Bytes.{to_be_bytes, array, word, from_be_after}
use credman.Loops.{fold_each}
use credman.Crypto.{validated}
use credman.Types.{Uuid, Record}
use credman.Snapshot.Encoding.{decode}
use credman.Storage.{DurableVault}
use credman.Storage.Publish.{
  publish_with, publish, publish_image, replace_visible, rename_to, clean_up, adopt, intent_left,
}
use credman.Storage.Vault.{create_from_app, created, next_generation}
use credman.Storage.Reopen.{admin_scope}
use credman.Storage.Recovery.{revoke_all, finish_delivery, finish_deliveries, prepare_restored}
use credman.Storage.Recovery.Powerless.{Powerless}
use credman.Storage.Header.{kdf_bytes, read_kdf}
use credman.Storage.Backup.{
  seed, kind, Derivation, derive, prefix, encrypt_snapshot_version, read_backup, decrypt_backup,
  restore_backup,
}
use credman.Storage.Restored.{decrypt_backup-encrypt_snapshot_version, restore_backup-Powerless}
use credman.Tests.Fixture.{runs, codec}
use credman.Tests.Disk.{images, fair, sealing, manager, empty_directory}
use credman.Tests.Snapshot.{json, clock_app}
use credman.Tests.Recovery.{stopped, copied}
use credman.Tests.Images.{sixteen, twelve, cipher, cipher-Decrypts, accepts, accepted, decodes}

abbrev derivation : Derivation
derivation = record {
  from_seed = λ words salt kdf. some (1 ∷ []);
  from_secret = λ words salt kdf. some (2 ∷ []);
}

-- `CMABAK02`, version 3, kind 1, the parameters, the salt, the nonce and 63 bytes.
abbrev backup : List ℕ
backup =
    67
    ∷ 77
    ∷ 65
    ∷ 66
    ∷ 65
    ∷ 75
    ∷ 48
    ∷ 50
    ∷ 0
    ∷ 0
    ∷ 0
    ∷ 3
    ∷ 0
    ∷ 0
    ∷ 0
    ∷ 1
    ∷ 0
    ∷ 1
    ∷ 0
    ∷ 0
    ∷ 0
    ∷ 0
    ∷ 0
    ∷ 3
    ∷ 0
    ∷ 0
    ∷ 0
    ∷ 1
    ∷ (sixteen
        ++ (twelve
            ++ (0
                ∷ 0
                ∷ 0
                ∷ 0
                ∷ 0
                ∷ 0
                ∷ 0
                ∷ 63
                ∷ 67
                ∷ 77
                ∷ 65
                ∷ 66
                ∷ 65
                ∷ 75
                ∷ 48
                ∷ 50
                ∷ 0
                ∷ 0
                ∷ 0
                ∷ 3
                ∷ 0
                ∷ 0
                ∷ 0
                ∷ 1
                ∷ 0
                ∷ 1
                ∷ 0
                ∷ 0
                ∷ 0
                ∷ 0
                ∷ 0
                ∷ 3
                ∷ 0
                ∷ 0
                ∷ 0
                ∷ 1
                ∷ (sixteen ++ (7 ∷ 0 ∷ 40 ∷ sixteen)))))

encrypts :
    encrypt_snapshot_version cipher derivation sixteen twelve (7 ∷ 0 ∷ 40 ∷ []) (seed "words") 3
    ≡ ok backup
unfolding encrypt_snapshot_version derive prefix kdf_bytes kind to_be_bytes
encrypts = refl

decrypt_backup-encrypt_snapshot_version_example :
    decrypt_backup cipher derivation accepts (decode json codec) backup (seed "words")
    ≡ ok clock_app
decrypt_backup-encrypt_snapshot_version_example =
    decrypt_backup-encrypt_snapshot_version cipher derivation accepts (decode json codec) 3
      (seed "words") (record { m_kib = 65536; t_cost = 3; p_cost = 1 }) sixteen twelve
      (7 ∷ 0 ∷ 40 ∷ []) backup clock_app cipher-Decrypts accepted refl refl refl decodes encrypts

abbrev restored_vault : DurableVault
restored_vault = record {
  app = copied;
  store = record {
    dir = record { visible = some (4 ∷ 7 ∷ []); pending = none; recovery = none };
    sealing = sealing;
    current_image = some (4 ∷ 7 ∷ []);
    blocked = false;
    persisted_last_time = some (pos 5);
    persisted_frozen = true;
  };
  frozen = false;
}

-- The backup holds a vault whose clock is frozen and whose registration has no end.
restores :
    restore_backup cipher derivation accepts images
      (λ bytes. ok stopped)
      fair
      (ok tt)
      (ok sealing)
      manager
      backup
      (seed "words")
      (pos 4)
      empty_directory
    ≡ ok restored_vault
unfolding runs restore_backup decrypt_backup read_backup array word from_be_after read_kdf validated
    derive kind prepare_restored admin_scope revoke_all finish_deliveries finish_delivery fold_each
    each next_generation create_from_app created publish publish_with publish_image replace_visible
    rename_to clean_up adopt intent_left
restores = refl

restore_backup-Powerless_example :
    Powerless copied
    × ((id : Uuid) (r : Record) → lookup id copied.records ≡ some r → r.restored ≡ true)
    × (images.validate copied ≡ ok tt)
    × (manager.admin ≡ true)
restore_backup-Powerless_example =
    restore_backup-Powerless cipher derivation accepts images (λ bytes. ok stopped) fair (ok tt)
      (ok sealing) manager backup (seed "words") (pos 4) empty_directory restored_vault restores
