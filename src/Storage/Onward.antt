-- ===== src/Storage/Onward.antt =====
-- src/agent/storage.rs and src/agent/storage/workflow.rs: whatever the owner does to its application.
use credman.Base.{ℕ, ◌≡◌, ◌⊎◌, ⊎_elim, inl, inr, false, none, some, arith, nat_eq, Option-cases}
use credman.Base.Dict.{lookup, insert}
use credman.Result.{Error, Result-cases}
use credman.Types.{
  Uuid, Time, Digest, AuthenticatedContext, Application, PrivateUse, DeliveryAttempt,
  DeliveryStatus, SignupState, action_eq,
}
use credman.Clock.{clock}
use credman.Clock.Frame.{SameButClock, clock_frame}
use credman.Application.{audit, put_record}
use credman.Application.Reach.{Step}
use credman.Snapshot.Compact.{compact}
use credman.Storage.Use.{
  change_delivery, set_signup, begin_attempt, check_use, find_delivery, prepare, check_handoff,
  withdraw, conclude, use_key, new_attempt,
}

-- What becomes of an application by operations, private uses, new generations and compactions, as long
-- as the compactions and the withdrawals of a refused hand-over are in states that are allowed.
pub data Onward (compactable : Application → Type 0) (withdrawable : Uuid → Application → Type 0)
    (a : Application) : Application → Type 0 where
  unmoved : Onward compactable withdrawable a a
  operates :
      {b c : Application}
      → Onward compactable withdrawable a b
      → Step b c
      → Onward compactable withdrawable a c
  prepares :
      {b : Application} (fingerprint : Digest) (attempt : Uuid) (ctx : AuthenticatedContext)
      (task : Uuid) (request : PrivateUse) (at : Time)
      → Onward compactable withdrawable a b
      → lookup attempt b.deliveries ≡ none
      → Onward compactable withdrawable a (prepare fingerprint attempt ctx task request at b).1
  checks :
      {b : Application} (fingerprint : Digest) (attempt : Uuid) (ctx : AuthenticatedContext)
      (task : Uuid) (request : PrivateUse) (at : Time)
      → Onward compactable withdrawable a b
      → Onward compactable withdrawable a
          (check_handoff fingerprint attempt ctx task request at b).1
  withdraws :
      {b : Application} (fingerprint : Digest) (attempt : Uuid) (ctx : AuthenticatedContext)
      (task : Uuid) (request : PrivateUse)
      → Onward compactable withdrawable a b
      → withdrawable attempt b
      → Onward compactable withdrawable a (withdraw fingerprint attempt ctx task request b).1
  concludes :
      {b : Application} (attempt : Uuid) (ctx : AuthenticatedContext) (task : Uuid)
      (request : PrivateUse) (at : Time) (status : DeliveryStatus)
      → Onward compactable withdrawable a b
      → Onward compactable withdrawable a (conclude attempt ctx task request at status b).1
  numbers :
      {b : Application} (generation : ℕ)
      → Onward compactable withdrawable a b
      → Onward compactable withdrawable a (record b { generation = generation })
  compacts :
      {b : Application}
      → Onward compactable withdrawable a b
      → compactable b
      → Onward compactable withdrawable a (compact b)

-- Receipts and baselines are left alone.
pub record Aside (b c : Application) : Type 0 where
  pub requests : c.requests ≡ b.requests
  pub baselines : c.baselines ≡ b.baselines

set_signup_frame :
    (id : Uuid) (e : Error) (state : SignupState) (app : Application)
    → Aside app (set_signup id e state app).1
      × ((set_signup id e state app).1.deliveries ≡ app.deliveries)
unfolding set_signup put_record
set_signup_frame id e state app =
    (record { requests = ground arith; baselines = ground arith }, ground arith)

change_Aside :
    (attempt : Uuid) (change : DeliveryAttempt → DeliveryAttempt) (app : Application)
    → Aside app (change_delivery attempt change app).1
unfolding change_delivery
change_Aside attempt change app = record { requests = ground arith; baselines = ground arith }

module _ (fingerprint : Digest) (attempt : Uuid) (ctx : AuthenticatedContext) (task : Uuid)
    (request : PrivateUse) where
  begin_Aside :
      (version : ℕ) (at : Time) (b : Application)
      → Aside b (begin_attempt fingerprint attempt ctx task request version at b).1
  unfolding begin_attempt set_signup put_record
  begin_Aside version at b = record { requests = ground arith; baselines = ground arith }

  begin_delivers :
      (version : ℕ) (at : Time) (b : Application)
      → let c = (begin_attempt fingerprint attempt ctx task request version at b).1 in
        (c.deliveries ≡ b.deliveries)
        ⊎ (c.deliveries
            ≡ insert attempt
                (new_attempt fingerprint attempt ctx task request version at)
                b.deliveries)
  unfolding begin_attempt set_signup put_record
  begin_delivers version at b = ground arith

  pub check_use_frame :
      (at : Time) (app : Application)
      → (check_use fingerprint attempt ctx task request at app).1 ≡ app
  unfolding check_use
  check_use_frame at app = ground arith

  pub check_handoff_frame :
      (at : Time) (b : Application)
      → let c = (check_handoff fingerprint attempt ctx task request at b).1 in
        Aside b c × (c.deliveries ≡ b.deliveries)
  unfolding check_handoff
  check_handoff_frame at b =
      let f = clock_frame at b in
      (
        record { requests = ground (arith, f.requests); baselines = ground (arith, f.baselines) },
        ground (arith, f.deliveries),
      )

  abbrev pub Prepared : Application → Application → Type 0
  Prepared b c =
      Aside b c
      × ((c.deliveries ≡ b.deliveries)
          ⊎ ((version : ℕ) × (now : Time) × (c.deliveries
                ≡ insert attempt (new_attempt fingerprint attempt ctx task request version now)
                    b.deliveries)))

  begin-Prepared :
      (version : ℕ) (now : Time) (b s c : Application)
      → SameButClock b s
      → c ≡ (begin_attempt fingerprint attempt ctx task request version now s).1
      → Prepared b c
  begin-Prepared version now b s c f made =
      let a = begin_Aside version now s in
      (
        record {
          requests = ground (arith, f.requests, a.requests, made);
          baselines = ground (arith, f.baselines, a.baselines, made);
        },
        ⊎_elim (λ same. inl (ground (arith, f.deliveries, same, made)))
            (λ put. inr (version, now, rw (made, ← f.deliveries) put))
            (begin_delivers version now s),
      )

  still-Prepared : (b s c : Application) → SameButClock b s → c ≡ s → Prepared b c
  still-Prepared b s c f made = (
    record { requests = rw made (f.requests); baselines = rw made (f.baselines) },
    inl (rw made (f.deliveries)),
  )

  pub prepare-Prepared :
      (at : Time) (b : Application)
      → Prepared b (prepare fingerprint attempt ctx task request at b).1
  unfolding prepare
  prepare-Prepared at b =
      let s = (clock at b).1 in
      let f = clock_frame at b in
      elim (Result-cases (clock at b).0) [
        | inr (e, stopped) ↦ still-Prepared b s _ f (ground arith)
        | inl (now, ticked) ↦
            let same = check_use_frame now s in
            elim (Result-cases (check_use fingerprint attempt ctx task request now s).0) [
              | inr (e, refused) ↦ still-Prepared b s _ f (ground arith)
              | inl (version, passed) ↦
                  elim (Option-cases
                    (find_delivery (use_key fingerprint attempt ctx task request) s.deliveries)) [
                      | inr (found, tried) ↦ still-Prepared b s _ f (ground arith)
                      | inl untried ↦ begin-Prepared version now b s _ f (ground arith)
                    ]
            ]
      ]

  pub withdraw-Aside :
      (b : Application) → Aside b (withdraw fingerprint attempt ctx task request b).1
  unfolding withdraw change_delivery set_signup put_record
  withdraw-Aside b = record { requests = ground arith; baselines = ground arith }

  pub withdraw_delivers :
      (b : Application)
      → let c = (withdraw fingerprint attempt ctx task request b).1 in
        (c.deliveries ≡ b.deliveries)
        ⊎ ((d : DeliveryAttempt) × (lookup attempt b.deliveries ≡ some d)
            × (c.deliveries
                ≡ insert attempt
                    (record d { dispatched = false; status = some DeliveryStatus.rejected })
                    b.deliveries))
  unfolding withdraw change_delivery set_signup put_record
  withdraw_delivers b = elim (Option-cases (lookup attempt b.deliveries)) [
    | inl missing ↦ inl (ground arith)
    | inr (d, found) ↦ inr (d, found, ground arith)
  ]

module _ (attempt : Uuid) (ctx : AuthenticatedContext) (task : Uuid) (request : PrivateUse)
    (at : Time) (status : DeliveryStatus) (b : Application) where
  abbrev pub after : Application
  after = (conclude attempt ctx task request at status b).1

  pub conclude_Aside : Aside b after
  unfolding conclude change_delivery put_record audit
  conclude_Aside = record { requests = ground arith; baselines = ground arith }

  pub conclude_delivers :
      (after.deliveries ≡ b.deliveries)
      ⊎ ((d : DeliveryAttempt) × (lookup attempt b.deliveries ≡ some d)
          × (after.deliveries ≡ insert attempt (record d { status = some status }) b.deliveries))
  unfolding conclude change_delivery put_record audit
  conclude_delivers = elim (Option-cases (lookup attempt b.deliveries)) [
    | inl missing ↦ inl (ground arith)
    | inr (d, found) ↦ inr (d, found, ground arith)
  ]
