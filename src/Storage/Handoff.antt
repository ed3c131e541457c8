-- ===== src/Storage/Handoff.antt =====
-- src/agent/storage/workflow.rs, `use_secret`: what stands in the vault when the adapter is called.
use credman.Base.{
  ℕ, ◌≡◌, refl, sym, ap, ◌∙◌, true, false, ◌&&◌, Option, none, some, arith, inl, inr, ⊎_elim,
  nat_eq, Option-cases, ◌==◌,
}
use credman.Base.Dict.{lookup, insert, lookup-insert_self}
use credman.Result.{Error, Result, ok, err, denied, Result-cases}
use credman.Types.{
  Uuid, Time, Digest, AuthenticatedContext, Application, DeliveryAttempt, DeliveryReceipt,
  PrivateUse, register, SecretInput, SignupState, key_eq, action_eq, Permission,
}
use credman.Clock.{clock}
use credman.Clock.Frame.{SameButClock, clock_frame}
use credman.Application.{select, registration_sealed, put_record}
use credman.Storage.{Images, Weather, DurableVault}
use credman.Storage.Vault.{ready, apply, working_copy}
use credman.Storage.Owner.{Applied, apply_outcome}
use credman.Storage.Use.{
  find_delivery, earlier_answer, set_signup, use_key, new_attempt, begin_attempt, check_use,
  prepare, check_handoff, handed, hand_over, after_intent, until_handoff,
}

-- Snapshots that differ in the clock alone have the same deliveries.
abbrev pub ClockOnly : Images → Type 0
ClockOnly images =
    (a b : Application) → images.clock_only_difference a b ≡ ok true → b.deliveries ≡ a.deliveries

set_signup_deliveries :
    (id : Uuid) (e : Error) (state : SignupState) (app : Application)
    → (set_signup id e state app).1.deliveries ≡ app.deliveries
unfolding set_signup put_record
set_signup_deliveries id e state app = ground arith

module _ (fingerprint : Digest) (attempt : Uuid) (ctx : AuthenticatedContext) (task : Uuid)
    (request : PrivateUse) where
  begin_sealed :
      (version : ℕ) (at : Time) (app : Application)
      → (begin_attempt fingerprint attempt ctx task request version at app).0 ≡ ok none
      → (request.action == register && registration_sealed app request.record_id) ≡ false
  unfolding begin_attempt
  begin_sealed version at app h = ground arith

  begin_inserts :
      (version : ℕ) (at : Time) (app : Application)
      → (begin_attempt fingerprint attempt ctx task request version at app).0 ≡ ok none
      → lookup attempt
          (begin_attempt fingerprint attempt ctx task request version at app).1.deliveries
        ≡ some (new_attempt fingerprint attempt ctx task request version at)
  unfolding begin_attempt
  begin_inserts version at app h =
      let begun = record app {
        deliveries =
            insert attempt (new_attempt fingerprint attempt ctx task request version at)
              app.deliveries;
      } in
      ground (
        arith,
        lookup-insert_self attempt (new_attempt fingerprint attempt ctx task request version at)
            app.deliveries,
        set_signup_deliveries request.record_id denied SignupState.submitted begun,
      )

  earlier_some :
      (version : ℕ) (found : Uuid × DeliveryAttempt)
      → earlier_answer fingerprint version found ≡ ok none
      → ⊥
  unfolding earlier_answer
  earlier_some version (id, d) h = ground arith

  check_use_reads :
      (at : Time) (app : Application)
      → (check_use fingerprint attempt ctx task request at app).1 ≡ app
  unfolding check_use
  check_use_reads at app = ground arith

  -- The first operation lets the request go on: what it met, and the attempt that it left.
  pub record Begun (app after : Application) : Type 0 where
    pub version : ℕ
    pub at : Time
    pub recorded :
        lookup attempt after.deliveries
        ≡ some (new_attempt fingerprint attempt ctx task request version at)
    pub untried : find_delivery (use_key fingerprint attempt ctx task request) app.deliveries ≡ none
    pub unsealed : (request.action == register && registration_sealed app request.record_id) ≡ false

  sealed_frame :
      (a b : Application)
      → SameButClock a b
      → registration_sealed b request.record_id ≡ registration_sealed a request.record_id
  unfolding registration_sealed
  sealed_frame a b frame = rw (frame.baselines) (rw (frame.deliveries) refl)

  prepare-Begun :
      (prepared_at : Time) (app : Application)
      → (prepare fingerprint attempt ctx task request prepared_at app).0 ≡ ok none
      → Begun app (prepare fingerprint attempt ctx task request prepared_at app).1
  unfolding prepare
  prepare-Begun prepared_at app h = elim (Result-cases (clock prepared_at app).0) [
    | inr (e, stopped) ↦ absurd (ground arith)
    | inl (at, ticked) ↦
        let s = (clock prepared_at app).1 in
        let frame = clock_frame prepared_at app in
        elim (Result-cases (check_use fingerprint attempt ctx task request at s).0) [
          | inr (e, refused) ↦ absurd (ground arith)
          | inl (version, passed) ↦
              let same = check_use_reads at s in
              elim (Option-cases
                (find_delivery (use_key fingerprint attempt ctx task request) s.deliveries)) [
                  | inr (found, tried) ↦ absurd (ground (arith, earlier_some version found))
                  | inl untried ↦
                      let begun : (begin_attempt fingerprint attempt ctx task request version at
                            s).0
                          ≡ ok none =
                        ground arith in
                      let e : (prepare fingerprint attempt ctx task request prepared_at app).1
                          ≡ (begin_attempt fingerprint attempt ctx task request version at s).1 =
                        ground arith in
                      record {
                        version = version;
                        at = at;
                        recorded = rw e (begin_inserts version at s begun);
                        untried = rw (← frame.deliveries) untried;
                        unsealed =
                            rw (← sealed_frame app s frame) (begin_sealed version at s begun);
                      }
                ]
        ]
  ]

  -- The vault in which the values are handed over.
  pub record HandedOver (before after : Application) (values : SecretInput) (at : Time)
      : Type 0 where
    pub begun : Begun before after
    pub authorized :
        select after ctx task request.record_id request.fields Permission.secret_use
          (some request.destination)
          at
        ≡ ok values

  check_handoff_ok :
      (handoff_at : Time) (app : Application) (values : SecretInput) (at : Time)
      → (check_handoff fingerprint attempt ctx task request handoff_at app).0 ≡ ok (values, at)
      → (select
            (check_handoff fingerprint attempt ctx task request handoff_at app).1
            ctx
            task
            request.record_id
            request.fields
            Permission.secret_use
            (some request.destination)
            at
          ≡ ok values)
        × ((check_handoff fingerprint attempt ctx task request handoff_at app).1.deliveries
            ≡ app.deliveries)
  unfolding check_handoff
  check_handoff_ok handoff_at app values at h = elim (Result-cases (clock handoff_at app).0) [
    | inr (e, stopped) ↦ absurd (ground arith)
    | inl (now, ticked) ↦ ground (arith, (clock_frame handoff_at app).deliveries)
  ]

  module _ (images : Images) where
    hand_over_handed :
        (weather : Weather) (m : Result (SecretInput × Time) × Application) (vault : DurableVault)
        (values : SecretInput) (at : Time) (after : DurableVault)
        → hand_over images fingerprint attempt ctx task request weather m vault
          ≡ handed values at after
        → (m.0 ≡ ok (values, at)) × (after.app ≡ m.1)
    unfolding hand_over
    hand_over_handed weather (ok (vs, t), app) vault values at after h = ground arith
    hand_over_handed weather (err e, app) vault values at after h = absurd (ground arith)

    intent_handed :
        (law : ClockOnly images) (weather : Weather) (handoff_at : Time) (vault : DurableVault)
        (made : Result (Option DeliveryReceipt) × Application)
        (r : Result (Option DeliveryReceipt) × DurableVault) (values : SecretInput) (at : Time)
        (after : DurableVault)
        → Applied images made vault r
        → (made.0 ≡ ok none → Begun (working_copy images vault.app) made.1)
        → after_intent images fingerprint attempt ctx task request weather handoff_at r
          ≡ handed values at after
        → HandedOver (working_copy images vault.app) after.app values at
    unfolding after_intent Applied
    intent_handed law weather handoff_at vault made (err e, v) values at after applied begun h =
        absurd (ground arith)
    intent_handed law weather handoff_at vault made (ok (some receipt), v) values at after applied
          begun h =
        absurd (ground arith)
    intent_handed law weather handoff_at vault made (ok none, v) values at after (inl (e, q, _))
          begun h =
        absurd (ground arith)
    intent_handed law weather handoff_at vault made (ok none, v) values at after (inr (q, kept))
          begun h =
        elim (Result-cases (ready v)) [
          | inr (e, blocked) ↦ absurd (ground arith)
          | inl (u, usable) ↦
              let m = check_handoff fingerprint attempt ctx task request handoff_at v.app in
              let h' : hand_over images fingerprint attempt ctx task request weather m v
                  ≡ handed values at after =
                ground arith in
              let (passed, stands) = hand_over_handed weather m v values at after h' in
              let (chosen, same) = check_handoff_ok handoff_at v.app values at passed in
              let b = begun (sym q) in
              let d : v.app.deliveries ≡ made.1.deliveries =
                ⊎_elim (λ p. ap (λ (a : Application). a.deliveries) p)
                  (λ p. ap (λ (a : Application). a.deliveries) p.0 ∙ sym (law vault.app made.1 p.1))
                  kept in
              record {
                begun = record {
                  version = b.version;
                  at = b.at;
                  recorded = rw stands (rw same (rw d b.recorded));
                  untried = b.untried;
                  unsealed = b.unsealed;
                };
                authorized = rw stands chosen;
              }
        ]

    -- What the call of the adapter rests on.
    pub until_handoff-HandedOver :
        ClockOnly images
        → (first second : Weather) (prepared_at handoff_at : Time) (vault : DurableVault)
          (values : SecretInput) (at : Time) (after : DurableVault)
        → until_handoff images fingerprint attempt ctx task request first second prepared_at
            handoff_at vault
          ≡ handed values at after
        → HandedOver (working_copy images vault.app) after.app values at
    unfolding until_handoff
    until_handoff-HandedOver law first second prepared_at handoff_at vault values at after h =
        intent_handed law second handoff_at vault
          (prepare fingerprint attempt ctx task request prepared_at (working_copy images vault.app))
          (apply images first (prepare fingerprint attempt ctx task request prepared_at) vault)
          values at after
          (apply_outcome images first (prepare fingerprint attempt ctx task request prepared_at)
            vault)
          (prepare-Begun prepared_at (working_copy images vault.app)) h
