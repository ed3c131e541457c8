-- ===== src/Storage/Untried.antt =====
-- src/agent/storage/workflow.rs, `use_secret`: one attempt for a request, as long as it is remembered.
use credman.Base.{
  ℕ, List, ◌≡◌, true, false, none, some, [], ◌∷◌, arith, inl, inr, nat_eq, ◌==◌, Bool-cases,
}
use credman.Base.Dict.{Dict, lookup}
use credman.Types.{
  Uuid, Time, Digest, AuthenticatedContext, Application, DeliveryAttempt, PrivateUse, RequestKey,
  SecretInput, key_eq,
}
use credman.Application.{Codec, request_key}
use credman.Snapshot.Kept.{needed}
use credman.Snapshot.Compaction.{compact_needed}
use credman.Storage.{Images, Weather, DurableVault}
use credman.Storage.Vault.{working_copy}
use credman.Storage.Use.{find_delivery, handed, until_handoff}
use credman.Storage.Handoff.{ClockOnly, HandedOver, until_handoff-HandedOver}
use credman.Storage.Sealed.{snapshot_images}
use credman.Snapshot.Encoding.{Json}
use credman.Result.{Result}
use credman.Storage.{Image, Sealing}

-- A compaction keeps the attempts that are unfinished or in the retry window.
abbrev pub Sparing : Images → Type 0
Sparing images =
    (app : Application) (id : Uuid) (d : DeliveryAttempt)
    → needed d app.last_time ≡ true
    → lookup id app.deliveries ≡ some d
    → lookup id (images.compact app).deliveries ≡ some d

snapshot_images-Sparing :
    (json : Json) (codec : Codec) (encrypt : List ℕ → Sealing → List ℕ → Result Image)
    → Sparing (snapshot_images json codec encrypt)
snapshot_images-Sparing json codec encrypt app id d keep found = compact_needed id d app keep found

find-none :
    (key : RequestKey) (id : Uuid) (d : DeliveryAttempt) (ds : Dict Uuid DeliveryAttempt)
    → find_delivery key ds ≡ none
    → lookup id ds ≡ some d
    → (d.key == key) ≡ false
unfolding find_delivery lookup
find-none key id d [] h found = absurd (ground arith)
find-none key id d ((j, w) ∷ ds) h found = elim (Bool-cases (w.key == key)) [
  | inl hit ↦ absurd (ground arith)
  | inr miss ↦ elim (Bool-cases (j == id)) [
    | inl here ↦ let first : w ≡ d = ground arith in rw (← first) miss
    | inr later ↦ find-none key id d ds (ground arith) (ground arith)
  ]
]

-- The hand-over of the values, and no attempt of the vault that compaction may not prune has the key.
pub record FirstHandover (images : Images) (fingerprint : Digest) (attempt : Uuid)
    (ctx : AuthenticatedContext) (task : Uuid) (request : PrivateUse) (vault after : DurableVault)
    (values : SecretInput) (at : Time) : Type 0 where
  pub handover :
      HandedOver fingerprint attempt ctx task request
        (working_copy images vault.app)
        after.app
        values
        at
  pub first :
      (id : Uuid) (d : DeliveryAttempt)
      → needed d vault.app.last_time ≡ true
      → lookup id vault.app.deliveries ≡ some d
      → (d.key == request_key ctx task request.request) ≡ false

module _ (images : Images) (spares : Sparing images) where
  working_copy-needed :
      (app : Application) (id : Uuid) (d : DeliveryAttempt)
      → needed d app.last_time ≡ true
      → lookup id app.deliveries ≡ some d
      → lookup id (working_copy images app).deliveries ≡ some d
  working_copy-needed app id d keep found = elim (Bool-cases (images.should_compact app)) [
    | inl due ↦ rw due (spares app id d keep found)
    | inr early ↦ rw early found
  ]

  -- When the adapter gets secret values, the attempt stands in the vault as dispatched and without an
  -- outcome, the vault authorizes these values at the hand-over, and no attempt in the vault before
  -- the call that is unfinished, or in the retry window, has the key of the request. In the vault as the
  -- compaction before the first operation leaves it, no attempt at all has this key, and if the
  -- request is a registration, its record is not sealed by an earlier one. Of an attempt that is finished
  -- and older than the window, which a compaction prunes, nothing is said. It is assumed that snapshots
  -- that differ in the clock alone have the same deliveries, and that a compaction keeps the attempts
  -- that are unfinished or in the window.
  pub until_handoff-FirstHandover :
      ClockOnly images
      → (fingerprint : Digest) (attempt : Uuid) (ctx : AuthenticatedContext) (task : Uuid)
        (request : PrivateUse) (first second : Weather) (prepared_at handoff_at : Time)
        (vault : DurableVault) (values : SecretInput) (at : Time) (after : DurableVault)
      → until_handoff images fingerprint attempt ctx task request first second prepared_at
          handoff_at vault
        ≡ handed values at after
      → FirstHandover images fingerprint attempt ctx task request vault after values at
  until_handoff-FirstHandover law fingerprint attempt ctx task request first second prepared_at
        handoff_at vault values at after h =
      let given =
        until_handoff-HandedOver fingerprint attempt ctx task request images law first second
          prepared_at handoff_at vault values at after h in
      record {
        handover = given;
        first = λ id d keep found.
            find-none (request_key ctx task request.request) id d
              (working_copy images vault.app).deliveries given.begun.untried
              (working_copy-needed vault.app id d keep found);
      }
