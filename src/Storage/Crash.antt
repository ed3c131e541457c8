-- ===== src/Storage/Crash.antt =====
-- src/agent/storage.rs, `publish_with`: what the directory holds after a publication, however it ends.
use credman.Base.{◌≡◌, ◌⊎◌, refl, true, false, ◌||◌, none, some, arith, inl, inr, Bool-cases}
use credman.Result.{ok, err, Result-cases}
use credman.Types.{Application}
use credman.Storage.{
  Image, Sealing, Images, torn, intent, Weather, Publication, not_published, durable, unknown,
  Store, gated, block,
}
use credman.Storage.Publish.{
  intent_left, rename_to, clean_up, adopt, replace_visible, publish_image, publish_with,
}

-- What a publication of `image` has done to a directory that had no gate.
unfoldable pub Settled : Application → Sealing → Image → Store → Publication × Store → Type 0
Settled app sealing image before (not_published, after) = after ≡ before
Settled app sealing image before (durable, after) =
    (after.dir.visible ≡ some image)
    × (after.current_image ≡ some image)
    × (after.sealing ≡ sealing)
    × (after.persisted_last_time ≡ app.last_time)
    × (after.persisted_frozen ≡ app.clock_frozen)
    × (after.dir.recovery ≡ before.dir.recovery)
    × ((after.dir.pending ≡ none) ⊎ (after.blocked ≡ true))
Settled app sealing image before (unknown, after) =
    (after.blocked ≡ true)
    × (after.current_image ≡ before.current_image)
    × (after.sealing ≡ before.sealing)
    × (((after.dir.visible ≡ before.dir.visible) × (after.dir.pending ≡ none))
        ⊎ ((after.dir.visible ≡ before.dir.visible) × (after.dir.pending ≡ some torn))
        ⊎ (((after.dir.visible ≡ before.dir.visible) ⊎ (after.dir.visible ≡ some image))
            × (after.dir.pending ≡ some (intent before.current_image image))))

image_Settled :
    (weather : Weather) (app : Application) (sealing : Sealing) (image : Image) (store : Store)
    → store.blocked ≡ false
    → store.dir.pending ≡ none
    → Settled app sealing image store (publish_image weather app sealing image store)
unfolding Settled publish_image replace_visible rename_to intent_left clean_up adopt
image_Settled weather app sealing image store free clear = ground arith

module _ (images : Images) (weather : Weather) (app : Application) (sealing : Sealing)
    (store : Store) where
  -- Every outcome of a publication. A blocked store, or a gate that is there or cannot be examined,
  -- leaves the directory alone and blocks the store; an application that cannot be sealed changes
  -- nothing. Otherwise the visible image is the old one or the new one: an unpublished image changes
  -- nothing, a durable one is visible and held, and its gate is gone or the store is blocked, and an
  -- unknown outcome blocks the store, where the new image can be visible only behind a gate that
  -- holds both images.
  pub publish_outcome :
      ((publish_with images weather app sealing store ≡ (unknown, block store))
        × ((store.blocked || weather.gate_unreadable || gated store.dir) ≡ true))
      ⊎ ((publish_with images weather app sealing store ≡ (not_published, store))
          × ((e : _) × (images.seal app sealing weather.nonce ≡ err e)))
      ⊎ ((image : Image) × (images.seal app sealing weather.nonce ≡ ok image)
          × (gated store.dir ≡ false)
          × Settled app sealing image store (publish_with images weather app sealing store))
  unfolding publish_with
  publish_outcome =
      elim (Bool-cases (store.blocked || weather.gate_unreadable || gated store.dir)) [
        | inl shut ↦ inl (rw shut refl, shut)
        | inr clear ↦ elim (Result-cases (images.seal app sealing weather.nonce)) [
          | inr (e, f) ↦ inr (inl (rw clear (rw f refl), (e, f)))
          | inl (image, f) ↦ inr (
              inr (
                image,
                f,
                ground arith,
                rw clear (
                    rw f (
                      image_Settled weather app sealing image store (ground arith) (ground arith))),
              ))
        ]
      ]
