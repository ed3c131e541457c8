-- ===== src/Storage/Recovery/Again.antt =====
-- src/agent/storage/recovery.rs, `recover_at`: a recovery that was interrupted after its plan was written.
use credman.Base.{
  ℕ, ◌≡◌, ◌⊎◌, inl, inr, refl, ap, ◌∙◌, true, false, ◌&&◌, ◌||◌, not, Option, none, some, List,
  arith, ◌!=◌, nat_eq, string_eq, list_eq, is_empty, any, is_some, is_none, ==_refl,
}
use credman.Base.Dict.{values}
use credman.Result.{
  ok, ◌>>=◌, bind_ok, then_ok, map_err, recovery_required, denied, reject, invalid, ◌>>◌, ok_or,
  on_ok, on_done,
}
use credman.Exec.{exec_on, refuse, reads}
use credman.Types.{Application, AuthenticatedContext, Digest, Time}
use credman.Storage.{Image, Sealing, Images, Intent, intent, Directory, renamed}
use credman.Storage.Reopen.{admin_scope}
use credman.Storage.Recovery.{sanitize, scope}
use credman.Storage.Recovery.Transition.{Forms, refuse_if}
use credman.Storage.Recovery.Pending.{
  read_gate, Unseal, unsealed, pending_valid, other_seed, resume, begin, validate_pending,
}
use credman.Storage.Recovery.Planned.{chosen}
use credman.Storage.Recovery.Run.{
  RecoveryWeather, install, plan_recovery, recover_at, settle_visible, recovered, carry_through,
  recover_from,
}
use credman.Storage.Recovery.Within.{sanitize-scope, sanitize_time}

same_seed : (s : Sealing) → other_seed s s ≡ false
same_seed s = ground (arith, ==_refl s.salt)

-- Every call of the system succeeds.
abbrev pub calm : Time → List ℕ → RecoveryWeather
calm now nonce = record {
  acquired = ok tt;
  image_unreadable = false;
  adopt_gate_unreadable = false;
  adopt_write_fails = false;
  adopt_rename = renamed;
  adopt_sync_fails = false;
  reread_fails = false;
  gate_unreadable = false;
  now = now;
  nonce = nonce;
  plan_write_fails = false;
  plan_rename = renamed;
  plan_sync_fails = false;
  write_fails = false;
  rename = renamed;
  sync_fails = false;
  unlink_pending_fails = false;
  pending_sync_fails = false;
  unlink_recovery_fails = false;
  recovery_sync_fails = false;
}

-- The directory of a recovery that has ended.
abbrev pub settled_on : Image → Directory
settled_on image = record { visible = some image; pending = none; recovery = none }

install-calm :
    (now : Time) (nonce : List ℕ) (image : Image) (visible : Option Image)
    (pending recovery : Option Intent)
    → install
        (calm now nonce)
        false
        (is_some pending)
        image
        (record { visible = visible; pending = pending; recovery = recovery })
      ≡ (ok tt, settled_on image)
unfolding install
install-calm now nonce image visible none recovery = refl
install-calm now nonce image visible (some gate) recovery = refl

module _ (images : Images) (unseal : Unseal) (image_hash : Image → Digest) (forms : Forms) where
  -- A directory in which a recovery of `visible` stopped between the writing of its plan and its end.
  pub record Interrupted (admin : AuthenticatedContext) (visible : Image) (now : Time)
      (nonce : List ℕ) (start : Directory) (app clean : Application) (sealing : Sealing)
      (image : Image) (d : Directory) : Type 0 where
    pub opened : unseal visible ≡ ok (app, sealing)
    pub scoped : scope app admin ≡ ok tt
    pub begun :
        begin images unseal image_hash forms visible app sealing now nonce start ≡ ok (clean, image)
    pub encoded : (bytes : List ℕ) × (images.encode clean ≡ ok bytes)
    pub reads_back : (unseal image ≡ ok (clean, sealing)) × (is_empty image ≡ false)
    pub plan : d.recovery ≡ some (intent (some visible) image)
    pub gate : (d.pending ≡ start.pending) ⊎ (d.pending ≡ none)
    pub on_disk : (d.visible ≡ some visible) ⊎ (d.visible ≡ some image)

  module _ (admin : AuthenticatedContext) (visible : Image) (now : Time) (nonce : List ℕ)
      (start : Directory) (app clean : Application) (sealing : Sealing) (image : Image)
      (d : Directory)
      (i : Interrupted admin visible now nonce start app clean sealing image d) where
    begun_with :
        (pending_valid unseal image_hash forms start visible ≡ ok tt)
        × (sanitize images app now ≡ ok clean)
    unfolding begin
    begun_with =
        let (_, h1) =
          then_ok
            (reject
              (is_none start.pending
                && not app.clock_frozen
                && not (any (λ a. is_none a.status) (values app.deliveries)))
              invalid)
            (pending_valid unseal image_hash forms start visible >> (do
              clean ← sanitize images app now
              image ← images.seal clean sealing nonce
              ok (clean, image)))
            (clean, image) i.begun in
        let (valid, h2) = then_ok (pending_valid unseal image_hash forms start visible) _ _ h1 in
        let (made_app, made, h3) = bind_ok (sanitize images app now) _ _ h2 in
        let (made_image, _, h4) = bind_ok (images.seal made_app sealing nonce) _ _ h3 in
        (valid, made ∙ ap ok (chosen made_app clean made_image image h4))

    pending_still_valid : pending_valid unseal image_hash forms d visible ≡ ok tt
    unfolding validate_pending
    pending_still_valid = elim i.gate [
      | inl same ↦ rw same (ground (arith, begun_with.0))
      | inr gone ↦ rw gone refl
    ]

    seed_and_image :
        (v : Image)
        → (v ≡ visible) ⊎ (v ≡ image)
        → refuse_if
            (other_seed sealing sealing || other_seed sealing sealing || v != visible && v != image)
          ≡ ok tt
    seed_and_image v (inl same) = ground (arith, same_seed sealing, ==_refl visible, same)
    seed_and_image v (inr same) = ground (arith, same_seed sealing, ==_refl image, same)

    equal_bytes : (bytes : List ℕ) → refuse_if (bytes != bytes) ≡ ok tt
    equal_bytes bytes = ground (arith, ==_refl bytes)

    resumed :
        (v : Image)
        → (v ≡ visible) ⊎ (v ≡ image)
        → resume images unseal image_hash forms admin v sealing d ≡ ok (clean, image)
    unfolding resume read_gate
    resumed v c =
        let plan_read : read_gate d.recovery ≡ ok (visible, image) =
          rw i.plan (rw i.reads_back.1 refl) in
        let base_opened : unsealed unseal visible ≡ ok (app, sealing) = rw i.opened refl in
        let planned_opened : unsealed unseal image ≡ ok (clean, sealing) = rw i.reads_back.0 refl in
        let time : ok_or clean.last_time recovery_required ≡ ok now =
          rw (sanitize_time images app clean now begun_with.1) refl in
        let still = sanitize-scope images admin app clean now begun_with.1 i.scoped in
        on_ok _ plan_read (
          on_ok _ base_opened (
            on_ok _ planned_opened (
              on_done _ i.scoped (
                on_done _ still (
                  on_done _ (seed_and_image v c) (
                    on_ok _ time (
                      on_ok _ begun_with.1 (
                        on_ok _ i.encoded.1 (
                          on_ok _ i.encoded.1 (
                            on_done _ (equal_bytes i.encoded.0)
                              (on_done _ pending_still_valid refl)))))))))))

    planned_again :
        (now' : Time) (nonce' : List ℕ) (v : Image) (a : Application)
        → (v ≡ visible) ⊎ (v ≡ image)
        → plan_recovery images unseal image_hash forms (calm now' nonce') admin v a sealing d
          ≡ (ok (clean, image), d)
    unfolding plan_recovery
    planned_again now' nonce' v a c =
        let has_plan : is_some d.recovery ≡ true = rw i.plan refl in
        rw has_plan (λ j. (resumed v c j, d))

    settled :
        (now' : Time) (nonce' : List ℕ) (v : Image) (a : Application)
        → d.visible ≡ some v
        → unseal v ≡ ok (a, sealing)
        → settle_visible unseal image_hash (calm now' nonce') admin d ≡ (ok (some v), d)
    unfolding settle_visible
    settled now' nonce' v a there opened = rw there (rw opened refl)

    carried :
        (now' : Time) (nonce' : List ℕ) (v : Image) (a : Application)
        → (v ≡ visible) ⊎ (v ≡ image)
        → carry_through images unseal image_hash forms
            (calm now' nonce')
            admin
            false
            v
            (a, sealing)
            d
          ≡ (ok (recovered (clean, image) sealing (settled_on image)), settled_on image)
    unfolding carry_through
    carried now' nonce' v a c =
        exec_on (plan_recovery images unseal image_hash forms (calm now' nonce') admin v a sealing)
          _ (planned_again now' nonce' v a c)
          (exec_on (install (calm now' nonce') false (is_some d.pending) image) _ {s = d}
            (install-calm now' nonce' image d.visible d.pending d.recovery) refl)

    from_image :
        (now' : Time) (nonce' : List ℕ) (v : Image) (a : Application)
        → (v ≡ visible) ⊎ (v ≡ image)
        → unseal v ≡ ok (a, sealing)
        → scope a admin ≡ ok tt
        → recover_from images unseal image_hash forms (calm now' nonce') admin false v d
          ≡ (ok (recovered (clean, image) sealing (settled_on image)), settled_on image)
    unfolding recover_from
    from_image now' nonce' v a c opened within =
        exec_on (reads (λ _. map_err (unseal v) recovery_required)) _ {a = (a, sealing)}
          (rw opened refl)
          (exec_on (reads (λ _. scope a admin)) _ (λ j. (within j, d)) (carried now' nonce' v a c))

    administers :
        (a : Application) → scope a admin ≡ ok tt → refuse (not admin.admin) denied d ≡ (ok tt, d)
    unfolding admin_scope
    administers a within = let human : admin.admin ≡ true = ground arith in rw human refl

    recover_again :
        (now' : Time) (nonce' : List ℕ) (v : Image) (a : Application)
        → (v ≡ visible) ⊎ (v ≡ image)
        → d.visible ≡ some v
        → unseal v ≡ ok (a, sealing)
        → scope a admin ≡ ok tt
        → recover_at images unseal image_hash forms (calm now' nonce') admin d
          ≡ (ok (recovered (clean, image) sealing (settled_on image)), settled_on image)
    unfolding recover_at
    recover_again now' nonce' v a c there opened within =
        exec_on (refuse (not admin.admin) denied) _ (administers a within) (
          exec_on (settle_visible unseal image_hash (calm now' nonce') admin) _
            (settled now' nonce' v a there opened) (from_image now' nonce' v a c opened within))

    -- A recovery that stopped while its plan stands in the directory is finished by the next call of
    -- `recover` whose system calls succeed, at whatever time it comes: the vault is the one that was
    -- planned, its image is visible and no gate is left. The conditions are that the recovery began from
    -- a visible image, that this image or the planned one is visible, that the pending gate is the one at
    -- the start or gone, and that the planned image is not empty and opens to what was sealed in it.
    -- Directories without a visible image, as a stopped first publication leaves them, and
    -- those in which the plan's gate is gone, are not covered.
    pub recover_at_again :
        (now' : Time) (nonce' : List ℕ)
        → recover_at images unseal image_hash forms (calm now' nonce') admin d
          ≡ (ok (recovered (clean, image) sealing (settled_on image)), settled_on image)
    recover_at_again now' nonce' = elim i.on_disk [
      | inl old ↦ recover_again now' nonce' visible app (inl refl) old i.opened i.scoped
      | inr new ↦
          recover_again now' nonce' image clean (inr refl) new i.reads_back.0
            (sanitize-scope images admin app clean now begun_with.1 i.scoped)
    ]
