-- ===== src/Storage/Receipts.antt =====
-- src/agent/storage/workflow.rs, `use_secret`: what the vault holds when a receipt is returned.
use credman.Base.{
  ◌≡◌, refl, sym, ap, ◌∙◌, subst, some, arith, inl, inr, ⊎_elim, nat_eq, Option-cases,
}
use credman.Base.Dict.{lookup, insert, lookup-insert_self}
use credman.Result.{Result, ok, err, interaction_required}
use credman.Types.{
  Uuid, Time, Digest, AuthenticatedContext, Application, DeliveryAttempt, DeliveryReceipt,
  DeliveryStatus, PrivateUse,
}
use credman.Application.{audit, put_record}
use credman.Storage.{Images, Weather, DurableVault}
use credman.Storage.Vault.{apply, working_copy}
use credman.Storage.Owner.{Applied, apply_outcome}
use credman.Storage.Use.{change_delivery, conclude, answer_after, after_delivery}
use credman.Storage.Handoff.{ClockOnly}

-- The attempt stands in the application with its outcome.
abbrev pub Concluded : Application → Uuid → DeliveryStatus → Type 0
Concluded app attempt status =
    (d : DeliveryAttempt) × (lookup attempt app.deliveries ≡ some d) × (d.status ≡ some status)

module _ (attempt : Uuid) (ctx : AuthenticatedContext) (task : Uuid) (request : PrivateUse)
    (at : Time) where
  conclude_deliveries :
      (status : DeliveryStatus) (app : Application)
      → (conclude attempt ctx task request at status app).0 ≡ ok tt
      → (d : DeliveryAttempt) × ((conclude attempt ctx task request at status app).1.deliveries
          ≡ insert attempt (record d { status = some status }) app.deliveries)
  unfolding conclude change_delivery put_record audit
  conclude_deliveries status app h = elim (Option-cases (lookup attempt app.deliveries)) [
    | inl absent ↦ absurd (ground arith)
    | inr (d, found) ↦ (d, ground arith)
  ]

  conclude-Concluded :
      (status : DeliveryStatus) (app : Application)
      → (conclude attempt ctx task request at status app).0 ≡ ok tt
      → Concluded (conclude attempt ctx task request at status app).1 attempt status
  conclude-Concluded status app h =
      let (d, e) = conclude_deliveries status app h in
      (
        record d { status = some status },
        rw e (lookup-insert_self attempt (record d { status = some status }) app.deliveries),
        refl,
      )

  module _ (images : Images) (law : ClockOnly images) where
    answer-Concluded :
        (status : DeliveryStatus) (answer : Result DeliveryReceipt) (receipt : DeliveryReceipt)
        (vault : DurableVault) (r : Result (Unit {0}) × DurableVault)
        → Applied images
            (conclude attempt ctx task request at status (working_copy images vault.app))
            vault
            r
        → (answer_after answer r).0 ≡ ok receipt
        → (answer ≡ ok receipt) × Concluded (answer_after answer r).1.app attempt status
    unfolding answer_after Applied
    answer-Concluded status answer receipt vault (err e, v) applied h = absurd (ground arith)
    answer-Concluded status answer receipt vault (ok u, v) (inl (e, q, _)) h = absurd (ground arith)
    answer-Concluded status answer receipt vault (ok u, v) (inr (q, kept)) h =
        let made = conclude attempt ctx task request at status (working_copy images vault.app) in
        let (d, found, s) = conclude-Concluded status (working_copy images vault.app) (sym q) in
        let same : v.app.deliveries ≡ made.1.deliveries =
          ⊎_elim (λ p. ap (λ (a : Application). a.deliveries) p)
            (λ p. ap (λ (a : Application). a.deliveries) p.0 ∙ sym (law vault.app made.1 p.1))
            kept in
        (h, (d, rw same found, s))

    -- After the call of the adapter: a receipt names this attempt and the adapter's answer, and the
    -- vault holds the attempt with this status as its outcome.
    pub after_delivery-Concluded :
        (fingerprint : Digest) (weather : Weather) (delivered : Result DeliveryStatus)
        (vault : DurableVault) (receipt : DeliveryReceipt)
        → (after_delivery images fingerprint attempt ctx task request weather delivered at vault).0
          ≡ ok receipt
        → (delivered ≡ ok receipt.status)
          × (receipt.attempt ≡ attempt)
          × Concluded
              (after_delivery images fingerprint attempt ctx task request weather delivered at
                vault).1.app
              attempt
              receipt.status
    unfolding after_delivery
    after_delivery-Concluded fingerprint weather (ok status) vault receipt h =
        let (answer, concluded) =
          answer-Concluded status (ok (record { attempt = attempt; status = status })) receipt vault
            (apply images weather (conclude attempt ctx task request at status) vault)
            (apply_outcome images weather (conclude attempt ctx task request at status) vault) h in
        let q : record { attempt = attempt; status = status } ≡ receipt = ground arith in
        let s : status ≡ receipt.status = ap (λ (x : DeliveryReceipt). x.status) q in
        (
          ap ok s,
          sym (ap (λ (x : DeliveryReceipt). x.attempt) q),
          subst
              (λ x.
                Concluded
                  (after_delivery images fingerprint attempt ctx task request weather (ok status) at
                    vault).1.app
                  attempt x)
              s concluded,
        )
    after_delivery-Concluded fingerprint weather (err e) vault receipt h =
        let (answer, concluded) =
          answer-Concluded DeliveryStatus.unknown (err interaction_required) receipt vault
            (apply images weather (conclude attempt ctx task request at DeliveryStatus.unknown)
              vault)
            (apply_outcome images weather
              (conclude attempt ctx task request at DeliveryStatus.unknown) vault)
            h in
        absurd (ground arith)
