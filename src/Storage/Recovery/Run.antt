-- ===== src/Storage/Recovery/Run.antt =====
-- src/agent/storage/recovery.rs: `recover_at` and what it calls. The system's answers are an argument.
use credman.Base.{
  ℕ, Bool, true, false, not, Option, none, some, List, ◌==◌, nat_eq, list_eq, option_eq,
  if◌then◌else◌, is_none, is_some,
}
use credman.Result.{Result, ok, err, map_err, recovery_required, invalid_storage, denied}
use credman.Exec.{Exec, ◌>>=◌, ◌>>◌, pure, reads, refuse, modify}
use credman.Types.{Application, AuthenticatedContext, Digest, Time}
use credman.Storage.{Image, Sealing, Images, intent, Directory, Rename, DurableVault}
use credman.Storage.Publish.{rename_to}
use credman.Storage.Recovery.{scope}
use credman.Storage.Recovery.Transition.{Forms}
use credman.Storage.Recovery.Pending.{Unseal, absent_initial_image, adoptable, resume, begin}

-- What the system answers in one recovery.
pub record RecoveryWeather : Type 0 where
  pub acquired : Result (Unit {0})
  pub image_unreadable : Bool
  pub adopt_gate_unreadable : Bool
  pub adopt_write_fails : Bool
  pub adopt_rename : Rename
  pub adopt_sync_fails : Bool
  pub reread_fails : Bool
  pub gate_unreadable : Bool
  pub now : Time
  pub nonce : List ℕ
  pub plan_write_fails : Bool
  pub plan_rename : Rename
  pub plan_sync_fails : Bool
  pub write_fails : Bool
  pub rename : Rename
  pub sync_fails : Bool
  pub unlink_pending_fails : Bool
  pub pending_sync_fails : Bool
  pub unlink_recovery_fails : Bool
  pub recovery_sync_fails : Bool

-- The vault of a recovery that ends well.
abbrev pub recovered : Application × Image → Sealing → Directory → DurableVault
recovered planned sealing dir = record {
  app = planned.0;
  store = record {
    dir = dir;
    sealing = sealing;
    current_image = some planned.1;
    blocked = false;
    persisted_last_time = planned.0.last_time;
    persisted_frozen = planned.0.clock_frozen;
  };
  frozen = false;
}

-- A step that the system may refuse.
abbrev pub fallible : Bool → Exec Directory (Unit {0})
fallible fails = refuse fails recovery_required

-- A failed rename may have replaced the file.
abbrev pub rename_state : Rename → Bool → Image → Exec Directory (Unit {0})
rename_state answer create_only image dir =
    let (clean, visible) = rename_to answer create_only image dir.visible in
    let moved = record dir { visible = visible } in
    if clean then (ok tt, moved) else (err recovery_required, moved)

-- `write_pair` to the recovery gate.
unfoldable pub write_pair : RecoveryWeather → Image → Image → Exec Directory (Unit {0})
unfolding rename_to
write_pair w old next = do
  fallible w.plan_write_fails
  λ dir.
      (let (clean, recovery) = rename_to w.plan_rename true (intent (some old) next) dir.recovery in
        let moved = record dir { recovery = recovery } in
        if clean then (ok tt, moved) else (err recovery_required, moved))
  fallible w.plan_sync_fails

-- The end of `recover_at`: the image is installed and the gates are removed, the plan last.
unfoldable pub install : RecoveryWeather → Bool → Bool → Image → Exec Directory (Unit {0})
unfolding rename_to
install w missing_state has_pending image = do
  fallible w.write_fails
  rename_state w.rename missing_state image
  fallible w.sync_fails
  if has_pending
      then (do
        fallible w.unlink_pending_fails
        modify (λ dir. record dir { pending = none })
        fallible w.pending_sync_fails)
      else pure tt
  fallible w.unlink_recovery_fails
  modify (λ dir. record dir { recovery = none })
  fallible w.recovery_sync_fails

module _ (unseal : Unseal) (image_hash : Image → Digest) where
  -- `adopt_rekeyed`.
  unfoldable pub adopt_rekeyed :
      RecoveryWeather → AuthenticatedContext → Image → Exec Directory (Unit {0})
  unfolding rename_to adoptable
  adopt_rekeyed w admin visible = do
    fallible w.adopt_gate_unreadable
    next ← reads (adoptable unseal image_hash admin visible)
    if visible == next then pure tt else (do
      fallible w.adopt_write_fails
      rename_state w.adopt_rename false next
      fallible w.adopt_sync_fails)

  -- The image to recover from: the visible one, if need be after the re-keyed one is adopted.
  unfoldable pub settle_visible :
      RecoveryWeather → AuthenticatedContext → Exec Directory (Option Image)
  unfolding adopt_rekeyed
  settle_visible w admin = do
    refuse w.image_unreadable invalid_storage
    seen ← reads (λ dir. ok dir.visible)
    elim seen [
      | none ↦ pure none
      | some image ↦ elim (unseal image) [
        | ok _ ↦ pure (some image)
        | err _ ↦ do
          adopt_rekeyed w admin image
          refuse w.reread_fails invalid_storage
          reads (λ dir. ok dir.visible)
      ]
    ]

module _ (images : Images) (unseal : Unseal) (image_hash : Image → Digest) (forms : Forms) where
  -- The application and the image to install, and the plan that stands for them in the directory.
  unfoldable pub plan_recovery :
      RecoveryWeather
      → AuthenticatedContext
      → Image
      → Application
      → Sealing
      → Exec Directory (Application × Image)
  unfolding resume begin write_pair
  plan_recovery w admin visible app sealing = do
    fallible w.gate_unreadable
    plan_exists ← reads (λ dir. ok (is_some dir.recovery))
    if plan_exists then reads (resume images unseal image_hash forms admin visible sealing) else (do
      planned ← reads (begin images unseal image_hash forms visible app sealing w.now w.nonce)
      write_pair w visible planned.1
      pure planned)

  -- The plan is made and carried out.
  unfoldable pub carry_through :
      RecoveryWeather
      → AuthenticatedContext
      → Bool
      → Image
      → Application × Sealing
      → Exec Directory DurableVault
  unfolding plan_recovery install
  carry_through w admin missing_state visible found = do
    has_pending ← reads (λ dir. ok (is_some dir.pending))
    planned ← plan_recovery w admin visible found.0 found.1
    install w missing_state has_pending planned.1
    reads (λ dir. ok (recovered planned found.1 dir))

  -- `recover_at` from the image to recover from.
  unfoldable pub recover_from :
      RecoveryWeather → AuthenticatedContext → Bool → Image → Exec Directory DurableVault
  unfolding carry_through
  recover_from w admin missing_state visible = do
    found ← reads (λ _. map_err (unseal visible) recovery_required)
    reads (λ _. scope found.0 admin)
    carry_through w admin missing_state visible found

  -- `recover_at`.
  unfoldable pub recover_at : RecoveryWeather → AuthenticatedContext → Exec Directory DurableVault
  unfolding settle_visible absent_initial_image recover_from
  recover_at w admin = do
    refuse (not admin.admin) denied
    reads (λ _. w.acquired)
    on_disk ← settle_visible unseal image_hash w admin
    visible ←
        reads
          (λ dir. elim on_disk [ some image ↦ ok image | none ↦ absent_initial_image unseal dir ])
    recover_from w admin (is_none on_disk) visible
