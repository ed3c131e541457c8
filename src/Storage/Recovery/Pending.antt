-- ===== src/Storage/Recovery/Pending.antt =====
-- src/agent/storage/recovery.rs: what a recovery reads in the gates, and what it decides from them.
use credman.Base.{
  ℕ, Bool, ◌&&◌, ◌||◌, not, Option, none, some, List, [], ◌!=◌, nat_eq, list_eq, option_eq,
  if◌then◌else◌, is_empty, any, is_none, is_some,
}
use credman.Base.Dict.{values}
use credman.Result.{
  Result, ok, err, ◌>>=◌, ◌>>◌, reject, ok_or, map_err, recovery_required, invalid,
}
use credman.Types.{Application, AuthenticatedContext, Digest, Time}
use credman.Storage.{Image, Sealing, Images, Intent, torn, intent, Directory}
use credman.Storage.Recovery.{sanitize, scope, safe_initial_publication}
use credman.Storage.Recovery.Transition.{Forms, transition, refuse_if}

-- `unseal` with the words of the seed.
abbrev pub Unseal : Type 0
Unseal = Image → Result (Application × Sealing)

-- `read_gate` on a gate whose bytes are read: the image before, which may be empty, and the next.
unfoldable pub read_gate : Option Intent → Result (Image × Image)
read_gate none = err recovery_required
read_gate (some torn) = err recovery_required
read_gate (some (intent none next)) = if is_empty next then err recovery_required else ok ([], next)
read_gate (some (intent (some old) next)) =
    if is_empty next then err recovery_required else ok (old, next)

abbrev pub other_seed : Sealing → Sealing → Bool
other_seed a b =
    a.salt != b.salt || a.m_kib != b.m_kib || a.t_cost != b.t_cost || a.p_cost != b.p_cost

module _ (unseal : Unseal) where
  -- An unreadable image is a reason for recovery.
  abbrev pub unsealed : Image → Result (Application × Sealing)
  unsealed image = map_err (unseal image) recovery_required

  -- `absent_initial_image`.
  unfoldable pub absent_initial_image : Directory → Result Image
  unfolding read_gate safe_initial_publication
  absent_initial_image dir = do
    (previous, candidate) ← read_gate dir.pending
    refuse_if (not (is_empty previous))
    (app, _) ← unsealed candidate
    refuse_if (not (safe_initial_publication app))
    ok candidate

  module _ (image_hash : Image → Digest) where
    -- The checks of `adopt_rekeyed`: the re-keyed image, bound to the one before by its digest.
    unfoldable pub adoptable : AuthenticatedContext → Image → Directory → Result Image
    unfolding read_gate
    adoptable admin visible dir = do
      refuse_if (is_none dir.pending)
      (old, next) ← read_gate dir.pending
      refuse_if (visible != old && visible != next)
      (app, _) ← unsealed next
      scope app admin
      refuse_if (app.predecessor != some (image_hash old))
      ok next

    module _ (forms : Forms) where
      -- The candidate of a pending publication against the image before it.
      unfoldable pub check_candidate : Image → Application → Sealing → Result (Unit {0})
      unfolding safe_initial_publication transition
      check_candidate old candidate sealing =
          if is_empty old
          then refuse_if (not (safe_initial_publication candidate))
          else elim (unseal old) [
            | ok (previous, old_sealing) ↦ do
              refuse_if
                  (other_seed sealing old_sealing && candidate.predecessor != some (image_hash old))
              transition forms previous candidate
            | err _ ↦ refuse_if (candidate.predecessor != some (image_hash old))
          ]

      -- `validate_pending`.
      unfoldable pub validate_pending : Directory → Image → Result (Unit {0})
      unfolding read_gate check_candidate
      validate_pending dir visible = do
        (old, next) ← read_gate dir.pending
        (candidate, sealing) ← unsealed next
        check_candidate old candidate sealing
        refuse_if (visible != next && visible != old)

-- `if has_pending { validate_pending(...)?; }`.
abbrev pub pending_valid : Unseal → (Image → Digest) → Forms → Directory → Image → Result (Unit {0})
pending_valid unseal image_hash forms dir visible =
    if is_some dir.pending then validate_pending unseal image_hash forms dir visible else ok tt

module _ (images : Images) (unseal : Unseal) (image_hash : Image → Digest) (forms : Forms) where
  -- A plan is there: it has to be what `sanitize` makes of the image before it.
  unfoldable pub resume :
      AuthenticatedContext → Image → Sealing → Directory → Result (Application × Image)
  unfolding read_gate sanitize validate_pending
  resume admin visible sealing dir = do
    (base, planned) ← read_gate dir.recovery
    (previous, base_sealing) ← unsealed unseal base
    (target, target_sealing) ← unsealed unseal planned
    scope previous admin
    scope target admin
    refuse_if (
        other_seed sealing base_sealing
        || other_seed sealing target_sealing
        || visible != base && visible != planned)
    now ← ok_or target.last_time recovery_required
    expected ← sanitize images previous now
    left ← images.encode expected
    right ← images.encode target
    refuse_if (left != right)
    pending_valid unseal image_hash forms dir base
    ok (target, planned)

  -- None is there: the vault is sanitized at the time of the human's clock, and sealed.
  unfoldable pub begin :
      Image → Application → Sealing → Time → List ℕ → Directory → Result (Application × Image)
  unfolding sanitize validate_pending values
  begin visible app sealing now nonce dir = do
    reject
        (is_none dir.pending
          && not app.clock_frozen
          && not (any (λ d. is_none d.status) (values app.deliveries)))
        invalid
    pending_valid unseal image_hash forms dir visible
    clean ← sanitize images app now
    image ← images.seal clean sealing nonce
    ok (clean, image)
