-- ===== src/Storage/Answer.antt =====
-- src/agent/storage/workflow.rs, `use_secret`: whom a receipt comes from.
use credman.Base.{
  ℕ, ◌≡◌, ◌⊎◌, refl, sym, ap, ◌∙◌, true, Option, none, some, arith, inl, inr, nat_eq, list_eq,
  Option-cases, List, subst,
}
use credman.Result.{Error, Result, ok, err, invalid, Result-cases}
use credman.Types.{
  Uuid, Time, Digest, AuthenticatedContext, Application, DeliveryAttempt, DeliveryReceipt,
  DeliveryStatus, PrivateUse, SecretInput, key_eq, action_eq,
}
use credman.Clock.{clock}
use credman.Clock.Frame.{clock_frame}
use credman.Application.{Codec}
use credman.Storage.{Images, Weather, DurableVault}
use credman.Storage.Vault.{ready, apply, working_copy}
use credman.Storage.Owner.{Applied, apply_outcome}
use credman.Storage.Use.{
  find_delivery, earlier_answer, set_signup, use_key, begin_attempt, check_use, prepare,
  check_handoff, withdraw, Handoff, answered, handed, answer_after, hand_over, after_intent,
  until_handoff, finish, use_secret,
}
use credman.Storage.Handoff.{ClockOnly}
use credman.Storage.Onward.{check_use_frame}
use credman.Storage.Receipts.{Concluded, after_delivery-Concluded}

-- The receipt is of an earlier attempt under the key of the request, with the same input, that was
-- handed over and has this outcome.
pub record Earlier (fingerprint : Digest) (ctx : AuthenticatedContext) (task : Uuid)
    (request : PrivateUse) (app : Application) (receipt : DeliveryReceipt) : Type 0 where
  pub previous : DeliveryAttempt
  pub found :
      find_delivery
        (record { owner = ctx.owner; principal = ctx.principal; task = task; id = request.request })
        app.deliveries
      ≡ some (receipt.attempt, previous)
  pub same : previous.fingerprint ≡ fingerprint
  pub dispatched : previous.dispatched ≡ true
  pub outcome : previous.status ≡ some receipt.status

module _ (fingerprint : Digest) (attempt : Uuid) (ctx : AuthenticatedContext) (task : Uuid)
    (request : PrivateUse) where
  earlier_ok :
      (version : ℕ) (id : Uuid) (d : DeliveryAttempt) (receipt : DeliveryReceipt)
      → earlier_answer fingerprint version (id, d) ≡ ok (some receipt)
      → (receipt.attempt ≡ id)
        × (d.fingerprint ≡ fingerprint)
        × (d.dispatched ≡ true)
        × (d.status ≡ some receipt.status)
  unfolding earlier_answer
  earlier_ok version id d receipt h =
      ground (arith, (list_eq {A = ℕ} ⦃e = nat_eq⦄).beq_iff d.fingerprint fingerprint)

  begin_none :
      (version : ℕ) (at : Time) (app : Application) (receipt : DeliveryReceipt)
      → ¬ (
          (begin_attempt fingerprint attempt ctx task request version at app).0 ≡ ok (some receipt))
  unfolding begin_attempt set_signup
  begin_none version at app receipt h = ground arith

  prepare-Earlier :
      (at : Time) (app : Application) (receipt : DeliveryReceipt)
      → (prepare fingerprint attempt ctx task request at app).0 ≡ ok (some receipt)
      → Earlier fingerprint ctx task request app receipt
  unfolding prepare
  prepare-Earlier at app receipt h = elim (Result-cases (clock at app).0) [
    | inr (e, stopped) ↦ absurd (ground arith)
    | inl (now, ticked) ↦
        let s = (clock at app).1 in
        let frame = clock_frame at app in
        let still = check_use_frame fingerprint attempt ctx task request now s in
        elim (Result-cases (check_use fingerprint attempt ctx task request now s).0) [
          | inr (e, refused) ↦ absurd (ground arith)
          | inl (version, passed) ↦
              elim (Option-cases
                (find_delivery (use_key fingerprint attempt ctx task request) s.deliveries)) [
                  | inl untried ↦ absurd (begin_none version now s receipt (ground arith))
                  | inr ((id, d), tried) ↦
                      let (named, same, dispatched, outcome) =
                        earlier_ok version id d receipt (ground arith) in
                      record {
                        previous = d;
                        found = rw (← frame.deliveries) (rw named tried);
                        same = same;
                        dispatched = dispatched;
                        outcome = outcome;
                      }
                ]
        ]
  ]

  module _ (images : Images) where
    withdrawn_refuses :
        (e : Error) (r : Result (Unit {0}) × DurableVault) (receipt : DeliveryReceipt)
        → ¬ ((answer_after (err e) r).0 ≡ ok receipt)
    unfolding answer_after
    withdrawn_refuses e (ok u, v) receipt h = ground arith
    withdrawn_refuses e (err f, v) receipt h = ground arith

    hand_over_answers :
        (weather : Weather) (m : Result (SecretInput × Time) × Application)
        (vault after : DurableVault) (receipt : DeliveryReceipt)
        → ¬ (
            hand_over images fingerprint attempt ctx task request weather m vault
            ≡ answered (ok receipt) after)
    unfolding hand_over
    hand_over_answers weather (ok (vs, t), app) vault after receipt h = ground arith
    hand_over_answers weather (err e, app) vault after receipt h =
        withdrawn_refuses e
          (apply images weather (withdraw fingerprint attempt ctx task request)
            (record vault { app = app }))
          receipt (ground arith)

    intent-Earlier :
        (weather : Weather) (handoff_at : Time) (vault : DurableVault)
        (made : Result (Option DeliveryReceipt) × Application)
        (r : Result (Option DeliveryReceipt) × DurableVault) (receipt : DeliveryReceipt)
        (after : DurableVault)
        → Applied images made vault r
        → after_intent images fingerprint attempt ctx task request weather handoff_at r
          ≡ answered (ok receipt) after
        → made.0 ≡ ok (some receipt)
    unfolding after_intent Applied
    intent-Earlier weather handoff_at vault made (err e, v) receipt after applied h =
        absurd (ground arith)
    intent-Earlier weather handoff_at vault made (ok (some given), v) receipt after applied h =
        elim applied [ inl (e, q, _) ↦ absurd (ground arith) | inr (q, _) ↦ ground arith ]
    intent-Earlier weather handoff_at vault made (ok none, v) receipt after applied h =
        elim (Result-cases (ready v)) [
          | inr (e, blocked) ↦ absurd (ground arith)
          | inl (u, usable) ↦ absurd (
              hand_over_answers weather
                (check_handoff fingerprint attempt ctx task request handoff_at v.app) v after
                receipt (ground arith))
        ]

    until_handoff-Earlier :
        (first second : Weather) (prepared_at handoff_at : Time) (vault after : DurableVault)
        (receipt : DeliveryReceipt)
        → until_handoff images fingerprint attempt ctx task request first second prepared_at
            handoff_at vault
          ≡ answered (ok receipt) after
        → Earlier fingerprint ctx task request (working_copy images vault.app) receipt
    unfolding until_handoff
    until_handoff-Earlier first second prepared_at handoff_at vault after receipt h =
        prepare-Earlier prepared_at (working_copy images vault.app) receipt (
          intent-Earlier second handoff_at vault
            (prepare fingerprint attempt ctx task request prepared_at
              (working_copy images vault.app))
            (apply images first (prepare fingerprint attempt ctx task request prepared_at) vault)
            receipt after
            (apply_outcome images first (prepare fingerprint attempt ctx task request prepared_at)
              vault)
            h)

    -- How `use_secret` gets to its receipt.
    abbrev pub Sourced :
        (SecretInput → Result DeliveryStatus)
        → Application
        → Handoff
        → Result DeliveryReceipt × DurableVault
        → DeliveryReceipt
        → Type 0
    Sourced deliver app u after receipt =
        Earlier fingerprint ctx task request app receipt
        ⊎ ((values : SecretInput) × (at : Time) × (vault : DurableVault) × (u
              ≡ handed values at vault)
            × (deliver values ≡ ok receipt.status)
            × (receipt.attempt ≡ attempt)
            × Concluded after.1.app attempt receipt.status)

    finish-Sourced :
        (law : ClockOnly images) (third : Weather) (deliver : SecretInput → Result DeliveryStatus)
        (app : Application) (u : Handoff) (receipt : DeliveryReceipt)
        → ((after : DurableVault)
            → u ≡ answered (ok receipt) after
            → Earlier fingerprint ctx task request app receipt)
        → (finish images fingerprint attempt ctx task request third deliver u).0 ≡ ok receipt
        → Sourced deliver app u
            (finish images fingerprint attempt ctx task request third deliver u)
            receipt
    unfolding finish
    finish-Sourced law third deliver app (answered answer vault) receipt known h =
        inl (known vault (ap (λ a. answered a vault) h))
    finish-Sourced law third deliver app (handed values at vault) receipt known h =
        let (given, named, concluded) =
          after_delivery-Concluded attempt ctx task request at images law fingerprint third
            (deliver values) vault receipt h in
        inr (values, at, vault, refl, given, named, concluded)

use_secret_written :
    (images : Images) (codec : Codec) (attempt : Uuid) (first second third : Weather)
    (prepared_at handoff_at : Time) (deliver : SecretInput → Result DeliveryStatus)
    (ctx : AuthenticatedContext) (task : Uuid) (request : PrivateUse) (vault : DurableVault)
    (bytes : List ℕ)
    → codec.use_bytes request ≡ some bytes
    → use_secret images codec attempt first second third prepared_at handoff_at deliver ctx task
        request vault
      ≡ finish images (codec.sha256 bytes) attempt ctx task request third deliver (
          until_handoff images
            (codec.sha256 bytes)
            attempt
            ctx
            task
            request
            first
            second
            prepared_at
            handoff_at
            vault)
unfolding use_secret
use_secret_written images codec attempt first second third prepared_at handoff_at deliver ctx task
      request vault bytes written =
    rw (written, use_secret) refl

use_secret_unwritten :
    (images : Images) (codec : Codec) (attempt : Uuid) (first second third : Weather)
    (prepared_at handoff_at : Time) (deliver : SecretInput → Result DeliveryStatus)
    (ctx : AuthenticatedContext) (task : Uuid) (request : PrivateUse) (vault : DurableVault)
    → codec.use_bytes request ≡ none
    → (use_secret images codec attempt first second third prepared_at handoff_at deliver ctx task
        request vault).0
      ≡ err invalid
unfolding use_secret
use_secret_unwritten images codec attempt first second third prepared_at handoff_at deliver ctx task
      request vault unwritten =
    rw (unwritten, use_secret) refl

-- A receipt of `use_secret` is of an earlier attempt under the key of the request, with the same
-- input, that stands in the vault as dispatched and with this outcome; or the values were handed
-- over in this call, the adapter answered with the status of the receipt, which is of this
-- attempt, and the vault now holds the attempt with this outcome. The earlier attempt is looked for in the
-- vault as the compaction before the operation leaves it. It is assumed that snapshots that differ in
-- the clock alone have the same deliveries.
pub use_secret-Sourced :
    (images : Images) (codec : Codec) (attempt : Uuid) (first second third : Weather)
    (prepared_at handoff_at : Time) (deliver : SecretInput → Result DeliveryStatus)
    (ctx : AuthenticatedContext) (task : Uuid) (request : PrivateUse) (vault : DurableVault)
    (receipt : DeliveryReceipt)
    → ClockOnly images
    → (use_secret images codec attempt first second third prepared_at handoff_at deliver ctx task
        request vault).0
      ≡ ok receipt
    → (bytes : List ℕ) × (codec.use_bytes request ≡ some bytes)
      × Sourced
          (codec.sha256 bytes)
          attempt
          ctx
          task
          request
          images
          deliver
          (working_copy images vault.app)
          (until_handoff images
            (codec.sha256 bytes)
            attempt
            ctx
            task
            request
            first
            second
            prepared_at
            handoff_at
            vault)
          (use_secret images codec attempt first second third prepared_at handoff_at deliver ctx
            task request vault)
          receipt
use_secret-Sourced images codec attempt first second third prepared_at handoff_at deliver ctx task
      request vault receipt law h =
    elim (Option-cases (codec.use_bytes request)) [
      | inl unwritten ↦
          let refused =
            use_secret_unwritten images codec attempt first second third prepared_at handoff_at
              deliver ctx task request vault unwritten in
          absurd (ground (arith, h, refused))
      | inr (bytes, written) ↦
          let fingerprint = codec.sha256 bytes in
          let u =
            until_handoff images fingerprint attempt ctx task request first second prepared_at
              handoff_at vault in
          let q =
            use_secret_written images codec attempt first second third prepared_at handoff_at
              deliver ctx task request vault bytes written in
          (
            bytes,
            written,
            subst
                (λ o.
                  Sourced fingerprint attempt ctx task request images deliver
                    (working_copy images vault.app) u o receipt)
                (sym q)
                (finish-Sourced fingerprint attempt ctx task request images law third deliver
                  (working_copy images vault.app) u receipt
                  (λ after e.
                    until_handoff-Earlier fingerprint attempt ctx task request images first second
                      prepared_at handoff_at vault after receipt e)
                  (ap (λ (o : Result DeliveryReceipt × DurableVault). o.0) (sym q) ∙ h)),
          )
    ]
