-- ===== src/Storage/Sealed.antt =====
-- src/agent/storage.rs over src/agent/snapshot.rs: the owner with the snapshot codec of the program, and
-- the encryption of an encoded snapshot as an argument.
use credman.Base.{ℕ, ◌≡◌, ap, List}
use credman.Result.{Result, ok, ◌>>=◌, bind_ok}
use credman.Exec.{Exec}
use credman.Types.{Application}
use credman.Application.{Codec}
use credman.Snapshot.Compact.{should_compact, compact}
use credman.Snapshot.Whole.{validate}
use credman.Snapshot.Encoding.{Json, ReadsBack, encode, clock_only_difference}
use credman.Snapshot.Difference.{encode-Encoded, clock_only_difference_sound}
use credman.Snapshot.Valid.{IsValid, validate-IsValid}
use credman.Storage.{Image, Images, Sealing, Weather, DurableVault}
use credman.Storage.Vault.{ready, apply}
use credman.Storage.Durable.{Saved, Synced, apply-Synced}
use credman.Storage.Handoff.{ClockOnly}

module _ (json : Json) (codec : Codec) (encrypt : List ℕ → Sealing → List ℕ → Result Image) where
  -- `seal`: the snapshot is encoded, then encrypted.
  unfoldable pub seal : Application → Sealing → List ℕ → Result Image
  seal app sealing nonce = do plain ← encode json codec app; encrypt plain sealing nonce

  -- What the owner calls of src/agent/snapshot.rs.
  abbrev pub snapshot_images : Images
  snapshot_images = record {
    validate = validate codec;
    clock_only_difference = clock_only_difference json codec;
    should_compact = should_compact;
    compact = compact;
    encode = encode json codec;
    seal = seal;
  }

  -- What the theorems on the use of a secret assume.
  pub snapshot_images-ClockOnly : ReadsBack json → ClockOnly snapshot_images
  snapshot_images-ClockOnly law a b h =
      ap (λ (x : Application). x.deliveries) (clock_only_difference_sound json codec a b law h)

  sealed_valid :
      (app : Application) (sealing : Sealing) (nonce : List ℕ) (image : Image)
      → seal app sealing nonce ≡ ok image
      → validate codec app ≡ ok tt
  unfolding seal
  sealed_valid app sealing nonce image h =
      let (plain, made, _) = bind_ok (encode json codec app) _ _ h in
      (encode-Encoded json codec app plain made).valid

  -- Whatever operation the owner carries out and however the publication ends, an owner that is still
  -- usable has an image in its directory that was sealed from a valid application: the owner's own but
  -- for the clock's high-water mark.
  pub apply-IsValid {ℓ} :
      {R : Type ℓ} (weather : Weather) (operation : Exec Application R) (vault : DurableVault)
      → Synced snapshot_images vault
      → let after = (apply snapshot_images weather operation vault).1 in
        ready after ≡ ok tt
        → (s : Saved snapshot_images after) × (validate codec s.saved ≡ ok tt) × IsValid s.saved
  unfolding Synced
  apply-IsValid weather operation vault synced usable =
      let s = apply-Synced snapshot_images weather operation vault synced usable in
      let after = (apply snapshot_images weather operation vault).1 in
      let valid = sealed_valid s.saved after.store.sealing s.nonce s.image s.sealed in
      (s, valid, validate-IsValid codec s.saved valid)
