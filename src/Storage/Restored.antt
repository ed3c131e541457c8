-- ===== src/Storage/Restored.antt =====
-- src/agent/storage/backup.rs: a backup is read back, and what a vault restored from one may do.
use credman.Base.{
  ℕ, ◌+◌, ◌<◌, ◌≤◌, ◌≡◌, refl, ap, sym, subst, ◌∙◌, Bool, true, false, ◌&&◌, ◌||◌, not, some, List,
  [], ◌++◌, arith, ltb, leb, ◌==◌, ◌!=◌, nat_eq, list_eq, length, length-append, if◌then◌else◌,
  ==_refl, is_some,
}
use credman.Base.Dict.{lookup}
use credman.Result.{
  Result, ok, reject, ok_or, map_err, invalid_storage, capacity, denied, conflict,
  recovery_required, on_ok, on_done, bind_ok, then_ok,
}
use credman.Bytes.{
  to_be_bytes, array, array_of, word-to_be_bytes, length-to_be_bytes, take, append_assoc,
  take_length, drop_length,
}
use credman.Crypto.{KdfParams, current, validated, Cipher, Decrypts}
use credman.Types.{Uuid, Time, Record, Application, AuthenticatedContext}
use credman.Snapshot.Encoding.{max_plaintext}
use credman.Snapshot.Passed.{ok_or_ok}
use credman.Storage.{
  Images, Sealing, Weather, Directory, DurableVault, Publication, not_published, durable, unknown,
  gated, Store,
}
use credman.Storage.Vault.{create_from_app, created, first_store}
use credman.Storage.Publish.{publish}
use credman.Storage.Recovery.{prepare_restored}
use credman.Storage.Recovery.Powerless.{Powerless, prepare_restored-Powerless}
use credman.Storage.Header.{header_v2, header_v3, max_image, kdf_bytes}
use credman.Storage.Unsealed.{
  take-passed_by, read_kdf-kdf_bytes, length-kdf_bytes, versions_agree, same_image,
}
use credman.Storage.Backup.{
  backup_magic, BackupSecret, seed, passphrase, kind, Derivation, derive, prefix,
  encrypt_snapshot_version, read_backup, decrypt_backup, restore_backup,
}

kind_small : (secret : BackupSecret) → kind secret < 4294967296
unfolding kind
kind_small (seed words) = omega arith
kind_small (passphrase words) = omega arith

prefix-append :
    (version : ℕ) (secret : BackupSecret) (kdf : KdfParams) (salt rest : List ℕ)
    → prefix version secret kdf salt ++ rest
      ≡ backup_magic
        ++ (to_be_bytes 4 version
            ++ (to_be_bytes 4 (kind secret) ++ (kdf_bytes kdf ++ (salt ++ rest))))
unfolding prefix
prefix-append version secret kdf salt rest =
    ap (λ l. backup_magic ++ (to_be_bytes 4 version ++ (to_be_bytes 4 (kind secret) ++ l)))
      (append_assoc (kdf_bytes kdf) salt rest)

length-prefix :
    (accepts : ℕ → ℕ → ℕ → Bool) (version : ℕ) (secret : BackupSecret) (kdf : KdfParams)
    (salt : List ℕ)
    → length (prefix version secret kdf salt) ≡ 28 + length salt
unfolding prefix
length-prefix accepts version secret kdf salt = omega (
  arith,
  length-append (to_be_bytes 4 version) (to_be_bytes 4 (kind secret) ++ (kdf_bytes kdf ++ salt)),
  length-append (to_be_bytes 4 (kind secret)) (kdf_bytes kdf ++ salt),
  length-append (kdf_bytes kdf) salt,
  length-to_be_bytes 4 version,
  length-to_be_bytes 4 (kind secret),
  length-kdf_bytes accepts kdf,
)

starts_with :
    (bound rest : List ℕ)
    → reject
        (ltb (length (bound ++ rest)) (length bound)
          || take (length bound) (bound ++ rest) != bound)
        invalid_storage
      ≡ ok tt
starts_with bound rest =
    ground (arith, length-append bound rest, take_length bound rest, ==_refl bound)

created_lem :
    (app : Application) (p : Publication × Store) (vault : DurableVault)
    → created app p ≡ ok vault
    → app ≡ vault.app
unfolding created
created_lem app (durable, store) vault h = ground arith
created_lem app (not_published, store) vault h = absurd (ground arith)
created_lem app (unknown, store) vault h = absurd (ground arith)

created_app :
    (images : Images) (weather : Weather) (acquired : Result (Unit {0})) (derived : Result Sealing)
    (app : Application) (dir : Directory) (vault : DurableVault)
    → create_from_app images weather acquired derived app dir ≡ ok vault
    → app ≡ vault.app
unfolding create_from_app
created_app images weather acquired derived app dir vault h =
    let (_, _, h1) = bind_ok (images.encode app) _ _ h in
    let (_, h2) = then_ok acquired _ _ h1 in
    let (_, h3) =
      then_ok (reject (weather.gate_unreadable || gated dir) recovery_required) _ _ h2 in
    let (_, h4) = then_ok (reject (is_some dir.visible) conflict) _ _ h3 in
    let (sealing, _, h5) = bind_ok (map_err derived invalid_storage) _ _ h4 in
    created_lem app (publish images weather app (first_store sealing dir)) vault h5

module _ (cipher : Cipher) (derivation : Derivation) (accepts : ℕ → ℕ → ℕ → Bool) where
  read_backup-prefix :
      (version : ℕ) (secret : BackupSecret) (kdf : KdfParams) (salt nonce text : List ℕ)
      → validated accepts current.m_kib current.t_cost current.p_cost ≡ ok kdf
      → length salt ≡ 16
      → length nonce ≡ 12
      → length text ≤ 33554432
      → (version == header_v2 || version == header_v3) ≡ true
      → ltb max_image (
          length (
            prefix version secret current salt ++ (nonce ++ (to_be_bytes 8 (length text) ++ text))))
        ≡ false
      → read_backup cipher derivation accepts
          (prefix version secret current salt ++ (nonce ++ (to_be_bytes 8 (length text) ++ text)))
          secret
        ≡ ok (record {
          kdf = current;
          salt = salt;
          nonce = nonce;
          bound = prefix version secret current salt;
          aad = if version == header_v3 then prefix version secret current salt else [];
          ciphertext = text;
        })
  unfolding read_backup
  read_backup-prefix version secret kdf salt nonce text valid salt_size nonce_size small known
        fits =
      let bound = prefix version secret current salt in
      let after_salt = nonce ++ (to_be_bytes 8 (length text) ++ text) in
      let bytes = bound ++ after_salt in
      let after_kind = kdf_bytes current ++ (salt ++ after_salt) in
      let after_version = to_be_bytes 4 (kind secret) ++ after_kind in
      let within : reject (ltb max_image (length bytes)) invalid_storage ≡ ok tt =
        ap (λ b. reject b invalid_storage) fits in
      let magic : array 8 bytes ≡ ok (backup_magic, to_be_bytes 4 version ++ after_version) =
        ap (array 8) (prefix-append version secret current salt after_salt)
        ∙ array_of 8 backup_magic (to_be_bytes 4 version ++ after_version) refl in
      let is_version : version < 4294967296 =
        ground (arith, nat_eq.beq_iff version header_v2, nat_eq.beq_iff version header_v3) in
      let accepted : reject (version != header_v2 && version != header_v3) invalid_storage ≡ ok tt =
        ground arith in
      let same_kind : reject (kind secret != kind secret) invalid_storage ≡ ok tt =
        ground (arith, ==_refl (kind secret)) in
      let whole : reject (length text != length text) invalid_storage ≡ ok tt =
        ground (arith, ==_refl (length text)) in
      on_done _ within (
        on_ok _ magic (
          on_done _ refl (
            on_ok _ (word-to_be_bytes 4 version after_version is_version) (
              on_done _ accepted (
                on_ok _ (word-to_be_bytes 4 (kind secret) after_kind (kind_small secret)) (
                  on_done _ same_kind (
                    on_ok _ (read_kdf-kdf_bytes accepts current kdf (salt ++ after_salt) valid) (
                      on_done _ refl (
                        on_ok _ (array_of 16 salt after_salt salt_size) (
                          on_ok _
                            (array_of 12 nonce (to_be_bytes 8 (length text) ++ text) nonce_size)
                            (on_ok _ (word-to_be_bytes 8 (length text) text (omega arith)) (
                              on_done _ whole (
                                ap
                                  (λ (l : List ℕ). ok (record {
                                    kdf = current;
                                    salt = salt;
                                    nonce = nonce;
                                    bound = l;
                                    aad = if version == header_v3 then l else [];
                                    ciphertext = text;
                                  }))
                                  (take-passed_by bound after_salt))))))))))))))

  pub decrypt_backup-encrypt_snapshot_version :
      (decode : List ℕ → Result Application) (version : ℕ) (secret : BackupSecret) (kdf : KdfParams)
      (salt nonce snapshot bytes : List ℕ) (app : Application)
      → Decrypts cipher
      → validated accepts current.m_kib current.t_cost current.p_cost ≡ ok kdf
      → length salt ≡ 16
      → length nonce ≡ 12
      → (version == header_v2 || version == header_v3) ≡ true
      → decode snapshot ≡ ok app
      → encrypt_snapshot_version cipher derivation salt nonce snapshot secret version ≡ ok bytes
      → decrypt_backup cipher derivation accepts decode bytes secret ≡ ok app
  unfolding encrypt_snapshot_version decrypt_backup
  decrypt_backup-encrypt_snapshot_version decode version secret kdf salt nonce snapshot bytes app
        law valid salt_size nonce_size known decoded h =
      let bound = prefix version secret current salt in
      let aad = if leb header_v3 version then bound else [] in
      let (fits, h1) = then_ok (reject (ltb max_plaintext (length snapshot)) capacity) _ _ h in
      let (key, derived, h2) = bind_ok (derive derivation secret salt current) _ _ h1 in
      let (text, made, h3) =
        bind_ok (ok_or (cipher.encrypt key nonce (bound ++ snapshot) aad) invalid_storage) _ _ h2 in
      let whole = bound ++ (nonce ++ (to_be_bytes 8 (length text) ++ text)) in
      let (small, h4) = then_ok (reject (ltb max_image (length whole)) capacity) _ _ h3 in
      let encrypted = ok_or_ok (cipher.encrypt key nonce (bound ++ snapshot) aad) text made in
      let text_size : length text ≤ 33554432 =
        (let longer = law.longer key nonce (bound ++ snapshot) aad text encrypted in
          let size = length-append bound snapshot in
          let head = length-prefix accepts version secret current salt in ground arith) in
      let unlimited : ltb max_image (length whole) ≡ false = ground arith in
      let read =
        ap (λ l. read_backup cipher derivation accepts l secret) (sym (same_image whole bytes h4))
        ∙ read_backup-prefix version secret kdf salt nonce text valid salt_size nonce_size text_size
            known unlimited in
      let same_aad : (if version == header_v3 then bound else []) ≡ aad =
        ap (λ b. if b then bound else []) (versions_agree version known) in
      let decrypted : ok_or
            (cipher.decrypt key nonce text (if version == header_v3 then bound else []))
            invalid_storage
          ≡ ok (bound ++ snapshot) =
        ap (λ a. ok_or (cipher.decrypt key nonce text a) invalid_storage) same_aad
        ∙ ap (λ o. ok_or o invalid_storage)
            (law.back key nonce (bound ++ snapshot) aad text encrypted) in
      on_ok _ read (
        on_ok _ derived (
          on_ok _ decrypted (
            on_done _ (starts_with bound snapshot)
              (ap decode (drop_length bound snapshot) ∙ decoded))))

  -- What a restored vault starts from is valid and nobody has any authority in it: its tasks and grants are
  -- revoked, no operation under any task is accepted, no delivery is without an end and every record
  -- carries the mark of a copy. Only an administrator restores one.
  pub restore_backup-Powerless :
      (images : Images) (decode : List ℕ → Result Application) (weather : Weather)
      (acquired : Result (Unit {0})) (derived : Result Sealing) (admin : AuthenticatedContext)
      (bytes : List ℕ) (secret : BackupSecret) (now : Time) (dir : Directory) (vault : DurableVault)
      → restore_backup cipher derivation accepts images decode weather acquired derived admin bytes
          secret now dir
        ≡ ok vault
      → Powerless vault.app
        × ((id : Uuid) (r : Record) → lookup id vault.app.records ≡ some r → r.restored ≡ true)
        × (images.validate vault.app ≡ ok tt)
        × (admin.admin ≡ true)
  unfolding restore_backup
  restore_backup-Powerless images decode weather acquired derived admin bytes secret now dir vault
        h =
      let (human, h1) = then_ok (reject (not admin.admin) denied) _ _ h in
      let (app, _, h2) =
        bind_ok (decrypt_backup cipher derivation accepts decode bytes secret) _ _ h1 in
      let (restored, prepared, h3) = bind_ok (prepare_restored images app admin now) _ _ h2 in
      let (powerless, marked, _, valid, _, _) =
        prepare_restored-Powerless images app restored now admin prepared in
      let same = created_app images weather acquired derived restored dir vault h3 in
      subst
        (λ (a : Application).
          Powerless a
          × ((id : Uuid) (r : Record) → lookup id a.records ≡ some r → r.restored ≡ true)
          × (images.validate a ≡ ok tt)
          × (admin.admin ≡ true))
        same (powerless, marked, valid, ground arith)
