-- ===== src/Storage.antt =====
-- src/agent/storage.rs: the durable owner of the vault. Its directory is the visible image and the two
-- gates; each failure of a system call is an argument. The snapshot codec and the encryption of an
-- image are the interface `Images`.
pub mod Publish
pub mod Vault
pub mod Use
pub mod Handoff
pub mod Onward
pub mod Retry
pub mod Once
pub mod Receipts
pub mod Answer
pub mod Crash
pub mod Owner
pub mod Durable
pub mod Create
pub mod Reopen
pub mod Rekey
pub mod Sealed
pub mod Untried
pub mod Recovery
pub mod Header
pub mod Gate
pub mod Unsealed
pub mod Backup
pub mod Restored
use credman.Base.{
  ℕ, ◌+◌, ◌≤◌, ◌≡◌, Bool, true, false, ◌&&◌, ◌||◌, not, Option, none, some, List, [], ◌∷◌, eqb,
  if◌then◌else◌, is_some,
}
use credman.Result.{Result, ok, err}
use credman.Types.{Time, Digest, Application}

-- The bytes of a sealed image.
abbrev pub Image : Type 0
Image = List ℕ

-- `VaultKey`, the salt and `KdfParams`.
pub record Sealing : Type 0 where
  pub key : List ℕ
  pub salt : List ℕ
  pub m_kib : ℕ
  pub t_cost : ℕ
  pub p_cost : ℕ

-- `snapshot::validate`, `encode`, `clock_only_difference`, `should_compact` and `compact`, and `seal`
-- with the nonce that it draws.
pub record Images : Type 0 where
  pub validate : Application → Result (Unit {0})
  pub clock_only_difference : Application → Application → Result Bool
  pub should_compact : Application → Bool
  pub compact : Application → Application
  pub encode : Application → Result (List ℕ)
  pub seal : Application → Sealing → List ℕ → Result Image

-- A gate file: the two images of a publication, or bytes that were not written whole.
pub data Intent : Type 0 where
  torn : Intent
  intent : Option Image → Image → Intent

-- The files of the vault's directory.
pub record Directory : Type 0 where
  pub visible : Option Image
  pub pending : Option Intent
  pub recovery : Option Intent

-- How the writing of the intent ends.
pub data IntentWrite : Type 0 where
  not_created : IntentWrite
  cut_short : IntentWrite
  not_synced : IntentWrite
  synced : IntentWrite

-- How `rename` ends: an error may still have replaced the file.
pub data Rename : Type 0 where
  renamed : Rename
  not_renamed : Rename
  renamed_with_error : Rename

-- What the system answers in one publication.
pub record Weather : Type 0 where
  pub gate_unreadable : Bool
  pub candidate_fails : Bool
  pub intent_write : IntentWrite
  pub rename : Rename
  pub directory_sync_fails : Bool
  pub unlink_fails : Bool
  pub cleanup_sync_fails : Bool
  pub nonce : List ℕ

-- `Publication`.
pub data Publication : Type 0 where
  not_published : Publication
  durable : Publication
  unknown : Publication

-- `Store`.
pub record Store : Type 0 where
  pub dir : Directory
  pub sealing : Sealing
  pub current_image : Option Image
  pub blocked : Bool
  pub persisted_last_time : Option Time
  pub persisted_frozen : Bool

-- `DurableVault`.
pub record DurableVault : Type 0 where
  pub app : Application
  pub store : Store
  pub frozen : Bool

-- `pending_exists`, where a gate that cannot be examined is no `Ok(false)`.
abbrev pub gated : Directory → Bool
gated dir = is_some dir.pending || is_some dir.recovery

abbrev pub block : Store → Store
block store = record store { blocked = true }
