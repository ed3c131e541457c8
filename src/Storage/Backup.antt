-- ===== src/Storage/Backup.antt =====
-- src/agent/storage/backup.rs: the bytes of a backup, its export and its restoring.
use credman.Base.{
  ℕ, Bool, ◌&&◌, ◌||◌, not, Option, List, [], ◌∷◌, ◌++◌, ltb, leb, ◌==◌, ◌!=◌, nat_eq, list_eq,
  length, String, len, if◌then◌else◌,
}
use Prim.Native.String.{count}
use credman.Result.{
  Result, ok, ◌>>=◌, ◌>>◌, reject, ok_or, invalid_storage, capacity, denied,
  clock_recovery_required,
}
use credman.Bytes.{to_be_bytes, array, word, take, drop}
use credman.Crypto.{KdfParams, current, Cipher}
use credman.Types.{Time, is_blank, Application, AuthenticatedContext}
use credman.Snapshot.Encoding.{max_plaintext}
use credman.Storage.{Images, Sealing, Weather, Directory, DurableVault}
use credman.Storage.Vault.{ready, create_from_app}
use credman.Storage.Reopen.{admin_scope}
use credman.Storage.Recovery.{prepare_restored}
use credman.Storage.Header.{header_v2, header_v3, max_image, kdf_bytes, passed_by, read_kdf}

-- `BACKUP_MAGIC`.
abbrev pub backup_magic : List ℕ
backup_magic = 67 ∷ 77 ∷ 65 ∷ 66 ∷ 65 ∷ 75 ∷ 48 ∷ 50 ∷ []

-- `BackupSecret`.
pub data BackupSecret : Type 0 where
  seed : String → BackupSecret
  passphrase : String → BackupSecret

-- `BackupSecret::kind`.
unfoldable pub kind : BackupSecret → ℕ
kind (seed words) = 1
kind (passphrase words) = 2

-- `derive_key` and `derive_key_from_secret`.
pub record Derivation : Type 0 where
  pub from_seed : String → List ℕ → KdfParams → Option (List ℕ)
  pub from_secret : String → List ℕ → KdfParams → Option (List ℕ)

-- `BackupSecret::derive`.
unfoldable pub derive : Derivation → BackupSecret → List ℕ → KdfParams → Result (List ℕ)
derive d (seed words) salt kdf = ok_or (d.from_seed words salt kdf) invalid_storage
derive d (passphrase words) salt kdf =
    reject (ltb (count words) 16 || ltb 4096 (len words) || is_blank words) invalid_storage
    >> ok_or (d.from_secret words salt kdf) invalid_storage

-- The part of a backup that is bound to its ciphertext.
unfoldable pub prefix : ℕ → BackupSecret → KdfParams → List ℕ → List ℕ
unfolding to_be_bytes kind kdf_bytes
prefix version secret kdf salt =
    backup_magic
    ++ (to_be_bytes 4 version ++ (to_be_bytes 4 (kind secret) ++ (kdf_bytes kdf ++ salt)))

-- What `decrypt_backup` reads before it derives the key.
pub record Backup : Type 0 where
  pub kdf : KdfParams
  pub salt : List ℕ
  pub nonce : List ℕ
  pub bound : List ℕ
  pub aad : List ℕ
  pub ciphertext : List ℕ

module _ (cipher : Cipher) (derivation : Derivation) where
  -- `encrypt_snapshot_version`, with its salt and nonce.
  unfoldable pub encrypt_snapshot_version :
      List ℕ → List ℕ → List ℕ → BackupSecret → ℕ → Result (List ℕ)
  unfolding derive prefix
  encrypt_snapshot_version salt nonce snapshot secret version = do
    reject (ltb max_plaintext (length snapshot)) capacity
    key ← derive derivation secret salt current
    let bytes = prefix version secret current salt
    let aad = if leb header_v3 version then bytes else []
    ciphertext ← ok_or (cipher.encrypt key nonce (bytes ++ snapshot) aad) invalid_storage
    let backup = bytes ++ (nonce ++ (to_be_bytes 8 (length ciphertext) ++ ciphertext))
    reject (ltb max_image (length backup)) capacity
    ok backup

  -- `encrypt_backup` and `encrypt_snapshot`.
  unfoldable pub encrypt_backup :
      (Application → Result (List ℕ))
      → List ℕ
      → List ℕ
      → Application
      → BackupSecret
      → Result (List ℕ)
  unfolding encrypt_snapshot_version
  encrypt_backup encode salt nonce app secret = do
    snapshot ← encode app
    encrypt_snapshot_version salt nonce snapshot secret header_v3

  module _ (accepts : ℕ → ℕ → ℕ → Bool) where
    unfoldable pub read_backup : List ℕ → BackupSecret → Result Backup
    unfolding array word read_kdf kind
    read_backup bytes secret = do
      reject (ltb max_image (length bytes)) invalid_storage
      (magic, r1) ← array 8 bytes
      reject (magic != backup_magic) invalid_storage
      (version, r2) ← word 4 r1
      reject (version != header_v2 && version != header_v3) invalid_storage
      (for_kind, r3) ← word 4 r2
      reject (for_kind != kind secret) invalid_storage
      (kdf, r4) ← read_kdf accepts r3
      reject
          (ltb current.m_kib kdf.m_kib
            || ltb current.t_cost kdf.t_cost
            || ltb current.p_cost kdf.p_cost)
          invalid_storage
      (salt, r5) ← array 16 r4
      let bound = take (passed_by bytes r5) bytes
      (nonce, r6) ← array 12 r5
      (size, r7) ← word 8 r6
      reject (size != length r7) invalid_storage
      ok (record {
        kdf = kdf;
        salt = salt;
        nonce = nonce;
        bound = bound;
        aad = if version == header_v3 then bound else [];
        ciphertext = r7;
      })

    -- `decrypt_backup`.
    unfoldable pub decrypt_backup :
        (List ℕ → Result Application) → List ℕ → BackupSecret → Result Application
    unfolding read_backup derive
    decrypt_backup decode bytes secret = do
      b ← read_backup bytes secret
      key ← derive derivation secret b.salt b.kdf
      plaintext ← ok_or (cipher.decrypt key b.nonce b.ciphertext b.aad) invalid_storage
      reject (ltb (length plaintext) (length b.bound) || take (length b.bound) plaintext != b.bound)
          invalid_storage
      decode (drop (length b.bound) plaintext)

    -- `DurableVault::restore_backup`.
    unfoldable pub restore_backup :
        Images
        → (List ℕ → Result Application)
        → Weather
        → Result (Unit {0})
        → Result Sealing
        → AuthenticatedContext
        → List ℕ
        → BackupSecret
        → Time
        → Directory
        → Result DurableVault
    unfolding decrypt_backup prepare_restored create_from_app
    restore_backup images decode weather acquired derived admin bytes secret now dir = do
      reject (not admin.admin) denied
      app ← decrypt_backup decode bytes secret
      restored ← prepare_restored images app admin now
      create_from_app images weather acquired derived restored dir

  -- `DurableVault::export_backup`.
  unfoldable pub export_backup :
      (Application → Result (List ℕ))
      → List ℕ
      → List ℕ
      → AuthenticatedContext
      → BackupSecret
      → DurableVault
      → Result (List ℕ)
  unfolding ready admin_scope encrypt_backup
  export_backup encode salt nonce admin secret vault = do
    ready vault
    admin_scope vault.app admin
    reject vault.app.clock_frozen clock_recovery_required
    encrypt_backup encode salt nonce vault.app secret
