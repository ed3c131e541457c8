-- ===== src/Storage/Publish.antt =====
-- src/agent/storage.rs, `Store::publish_with`.
use credman.Base.{
  Bool, true, false, ◌&&◌, ◌||◌, not, Option, none, some, if◌then◌else◌, is_some, is_none,
}
use credman.Result.{ok, err}
use credman.Types.{Application}
use credman.Storage.{
  Image, Sealing, Images, Intent, torn, intent, IntentWrite, not_created, cut_short, not_synced,
  synced, Rename, renamed, not_renamed, renamed_with_error, Weather, Publication, not_published,
  durable, unknown, Store, gated, block,
}

-- The pending gate after the attempt to write it. It is created exclusively, and no gate was there.
unfoldable pub intent_left : IntentWrite → Option Image → Image → Option Intent
intent_left not_created previous image = none
intent_left cut_short previous image = some torn
intent_left not_synced previous image = some (intent previous image)
intent_left synced previous image = some (intent previous image)

abbrev pub intent_stands : IntentWrite → Bool
intent_stands synced = true
intent_stands _ = false

-- `rename` of a file to another name, with RENAME_NOREPLACE if `create_only`: whether it answers
-- without an error, and what is under the name after it.
unfoldable pub rename_to {ℓ} : {A : Type ℓ} → Rename → Bool → A → Option A → Bool × Option A
rename_to answer create_only image visible =
    if create_only && is_some visible then (false, visible) else elim answer [
      | renamed ↦ (true, some image)
      | not_renamed ↦ (false, visible)
      | renamed_with_error ↦ (false, some image)
    ]

-- The end of a publication, whose image is durable: the gate is removed.
unfoldable pub clean_up : Weather → Store → Store
clean_up weather store = record store {
  dir = record store.dir { pending = if weather.unlink_fails then store.dir.pending else none };
  blocked = store.blocked || weather.unlink_fails || weather.cleanup_sync_fails;
}

-- The fields that a durable publication assigns.
unfoldable pub adopt : Application → Sealing → Image → Store → Store
adopt app sealing image store = record store {
  current_image = some image;
  sealing = sealing;
  persisted_last_time = app.last_time;
  persisted_frozen = app.clock_frozen;
}

-- The publication from the written intent on.
unfoldable pub replace_visible :
    Weather → Application → Sealing → Image → Store → Publication × Store
replace_visible weather app sealing image store =
    let (clean, visible) =
      rename_to weather.rename (is_none store.current_image) image store.dir.visible in
    let moved = record store { dir = record store.dir { visible = visible } } in
    if not clean || weather.directory_sync_fails
    then (unknown, block moved)
    else (durable, clean_up weather (adopt app sealing image moved))

-- The publication of a sealed image.
unfoldable pub publish_image : Weather → Application → Sealing → Image → Store → Publication × Store
publish_image weather app sealing image store =
    if weather.candidate_fails
    then (not_published, store)
    else (let left = record store {
      dir = record store.dir {
        pending = intent_left weather.intent_write store.current_image image;
      };
    } in
        if intent_stands weather.intent_write
        then replace_visible weather app sealing image left
        else (unknown, block left))

module _ (images : Images) where
  -- `Store::publish_with`.
  unfoldable pub publish_with : Weather → Application → Sealing → Store → Publication × Store
  publish_with weather app sealing store =
      if store.blocked || weather.gate_unreadable || gated store.dir
      then (unknown, block store)
      else elim (images.seal app sealing weather.nonce) [
        | err e ↦ (not_published, store)
        | ok image ↦ publish_image weather app sealing image store
      ]

  -- `Store::publish`.
  unfoldable pub publish : Weather → Application → Store → Publication × Store
  publish weather app store = publish_with weather app store.sealing store
