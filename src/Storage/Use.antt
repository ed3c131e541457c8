-- ===== src/Storage/Use.antt =====
-- src/agent/storage/workflow.rs, `use_secret`: the hand-over of secret values to an adapter. The
-- clock's readings, the adapter's answer and the weather of each publication are arguments.
use credman.Base.{
  ℕ, true, false, ◌&&◌, ◌||◌, not, Option, none, some, [], ◌∷◌, leb, ◌==◌, ◌!=◌, nat_eq, list_eq,
  if◌then◌else◌, length, contains,
}
use credman.Base.Dict.{Dict, lookup, insert, contains_key}
use credman.Result.{
  Error, Result, ok, err, denied, invalid, conflict, replay_conflict, capacity, recovery_required,
  interaction_required, ok_or,
}
use credman.Exec.{Exec, ◌>>=◌, ◌>>◌, pure, reads, refuse, modify}
use credman.Types.{
  Uuid, Time, Digest, is_nil, AuthenticatedContext, Application, RequestKey, DeliveryAttempt,
  DeliveryStatus, DeliveryReceipt, PrivateUse, PrivateAction, use_action, register, login,
  SignupState, accepted, verified_login, kind_eq, action_eq, SecretInput, username, password,
  login_kind, key_eq, Permission, AuditAction, field_eq,
}
use credman.Clock.{clock}
use credman.Policy.{find_record}
use credman.Application.{
  Codec, request_key, select, registration_sealed, audit, put_record, read_event,
}
use credman.Storage.{Images, Weather, DurableVault}
use credman.Storage.Vault.{ready, apply}

-- `deliveries.iter().find(|(_, d)| d.key == key)`.
unfoldable pub find_delivery :
    RequestKey → Dict Uuid DeliveryAttempt → Option (Uuid × DeliveryAttempt)
find_delivery key [] = none
find_delivery key ((id, d) ∷ rest) = if d.key == key then some (id, d) else find_delivery key rest

-- The answer from an earlier attempt under the same key.
unfoldable pub earlier_answer :
    Digest → ℕ → Uuid × DeliveryAttempt → Result (Option DeliveryReceipt)
earlier_answer fingerprint version (id, previous) =
    if previous.version != version
    then err denied
    else if previous.fingerprint != fingerprint
    then err replay_conflict
    else if not previous.dispatched
    then err denied
    else elim previous.status [
      | none ↦ err recovery_required
      | some status ↦ ok (some (record { attempt = id; status = status }))
    ]

-- `records.get_mut(&id).ok_or(e)?.signup = state`.
unfoldable pub set_signup : Uuid → Error → SignupState → Exec Application (Unit {0})
set_signup id e state = do
  r ← reads (λ app. ok_or (lookup id app.records) e)
  modify (put_record id (record r { signup = state }))

-- `deliveries.get_mut(&attempt).ok_or(Error::RecoveryRequired)?` with assignments to the attempt.
unfoldable pub change_delivery :
    Uuid → (DeliveryAttempt → DeliveryAttempt) → Exec Application (Unit {0})
change_delivery attempt change = do
  d ← reads (λ app. ok_or (lookup attempt app.deliveries) recovery_required)
  modify (λ app. record app { deliveries = insert attempt (change d) app.deliveries })

-- A read of the state that cannot fail.
abbrev asks {ℓ} : {A : Type ℓ} → (Application → A) → Exec Application A
asks f = reads (λ app. ok (f app))

module _ (fingerprint : Digest) (attempt : Uuid) (ctx : AuthenticatedContext) (task : Uuid)
    (request : PrivateUse) where
  abbrev pub use_key : RequestKey
  use_key = request_key ctx task request.request

  -- The attempt that `use_secret` inserts.
  abbrev pub new_attempt : ℕ → Time → DeliveryAttempt
  new_attempt version at = record {
    task = task;
    record_id = request.record_id;
    version = version;
    destination = request.destination;
    fields = request.fields;
    status = none;
    key = use_key;
    fingerprint = fingerprint;
    action = request.action;
    dispatched = true;
    at = some at;
  }

  -- The end of the first operation, for a request that is not known.
  unfoldable pub begin_attempt : ℕ → Time → Exec Application (Option DeliveryReceipt)
  begin_attempt version at = do
    sealed ← asks (λ app. request.action == register && registration_sealed app request.record_id)
    refuse sealed conflict
    full ← asks (λ app. leb 10000 (length app.deliveries))
    refuse full capacity
    modify
        (λ app. record app { deliveries = insert attempt (new_attempt version at) app.deliveries })
    if request.action == register
        then set_signup request.record_id denied SignupState.submitted
        else pure tt
    pure none

  -- The checks of the first operation: the version of the secret to use.
  unfoldable pub check_use : Time → Exec Application ℕ
  check_use at = do
    refuse (is_nil request.request) invalid
    values ← reads (λ app.
        select app ctx task request.record_id request.fields Permission.secret_use
          (some request.destination) at)
    r ← reads (λ app. find_record app ctx request.record_id)
    refuse
        (request.action != use_action
          && (r.kind != login_kind
              || not (contains request.fields username)
              || not (contains request.fields password)))
        invalid
    refuse (request.action == register && r.restored) conflict
    known ← asks (λ app. contains_key use_key app.requests)
    refuse known replay_conflict
    pure r.secret_version

  -- The first operation of `use_secret`: the intent, or the answer from an earlier attempt.
  unfoldable pub prepare : Time → Exec Application (Option DeliveryReceipt)
  prepare prepared_at = do
    at ← clock prepared_at
    version ← check_use at
    earlier ← asks (λ app. find_delivery use_key app.deliveries)
    elim earlier [
      | some found ↦ reads (λ app. earlier_answer fingerprint version found)
      | none ↦ begin_attempt version at
    ]

  -- The check immediately before the hand-over.
  unfoldable pub check_handoff : Time → Exec Application (SecretInput × Time)
  check_handoff handoff_at = do
    at ← clock handoff_at
    values ← reads (λ app.
        select app ctx task request.record_id request.fields Permission.secret_use
          (some request.destination) at)
    pure (values, at)

  -- The operation after a refused hand-over.
  unfoldable pub withdraw : Exec Application (Unit {0})
  withdraw = do
    change_delivery attempt
        (λ d. record d { dispatched = false; status = some DeliveryStatus.rejected })
    if request.action == register
        then set_signup request.record_id recovery_required SignupState.pending
        else pure tt

-- The record's signup state after the adapter's answer.
unfoldable pub signup_after : PrivateAction → DeliveryStatus → SignupState → SignupState
signup_after register accepted old = SignupState.reported_success
signup_after register DeliveryStatus.rejected old = SignupState.rejected
signup_after register DeliveryStatus.human_required old = SignupState.human_required
signup_after register DeliveryStatus.unknown old = SignupState.unknown
signup_after login accepted old = verified_login
signup_after _ _ old = old

-- The operation after the adapter's answer.
unfoldable pub conclude :
    Uuid
    → AuthenticatedContext
    → Uuid
    → PrivateUse
    → Time
    → DeliveryStatus
    → Exec Application (Unit {0})
conclude attempt ctx task request at status = do
  change_delivery attempt (λ d. record d { status = some status })
  r ← reads (λ app. ok_or (lookup request.record_id app.records) recovery_required)
  modify (
      put_record request.record_id
        (record r { signup = signup_after request.action status r.signup }))
  modify (audit (read_event ctx task request.record_id AuditAction.secret_use at))

-- What `use_secret` has done when it would call the adapter: it has its answer, or the values are
-- handed over.
pub data Handoff : Type 0 where
  answered : Result DeliveryReceipt → DurableVault → Handoff
  handed : SecretInput → Time → DurableVault → Handoff

-- `.map_err(|_| { self.frozen = true; Error::RecoveryRequired })?` before an answer.
unfoldable pub answer_after :
    Result DeliveryReceipt
    → Result (Unit {0}) × DurableVault
    → Result DeliveryReceipt × DurableVault
answer_after answer (ok _, vault) = (answer, vault)
answer_after answer (err _, vault) = (err recovery_required, record vault { frozen = true })

module _ (images : Images) (fingerprint : Digest) (attempt : Uuid) (ctx : AuthenticatedContext)
    (task : Uuid) (request : PrivateUse) where
  -- The check before the adapter is called; `weather` is that of the publication if it fails. The
  -- owner is frozen during the clock's reading only.
  unfoldable pub hand_over :
      Weather → Result (SecretInput × Time) × Application → DurableVault → Handoff
  hand_over weather (ok (values, at), app) vault = handed values at (record vault { app = app })
  hand_over weather (err e, app) vault =
      let (answer, after) = answer_after (err e) (
        apply images weather (withdraw fingerprint attempt ctx task request)
          (record vault { app = app })) in
      answered answer after

  -- What follows the first operation.
  unfoldable pub after_intent :
      Weather → Time → Result (Option DeliveryReceipt) × DurableVault → Handoff
  after_intent weather handoff_at (err e, vault) = answered (err e) vault
  after_intent weather handoff_at (ok (some receipt), vault) = answered (ok receipt) vault
  after_intent weather handoff_at (ok none, vault) = elim (ready vault) [
    | err e ↦ answered (err e) vault
    | ok _ ↦
        hand_over weather (check_handoff fingerprint attempt ctx task request handoff_at vault.app)
          vault
  ]

  -- `use_secret` up to the call of the adapter.
  unfoldable pub until_handoff : Weather → Weather → Time → Time → DurableVault → Handoff
  until_handoff first second prepared_at handoff_at vault =
      after_intent second handoff_at
        (apply images first (prepare fingerprint attempt ctx task request prepared_at) vault)

  -- `use_secret` from the adapter's answer on.
  unfoldable pub after_delivery :
      Weather → Result DeliveryStatus → Time → DurableVault → Result DeliveryReceipt × DurableVault
  after_delivery weather (ok status) at vault =
      answer_after (ok (record { attempt = attempt; status = status }))
        (apply images weather (conclude attempt ctx task request at status) vault)
  after_delivery weather (err _) at vault =
      answer_after (err interaction_required)
        (apply images weather (conclude attempt ctx task request at DeliveryStatus.unknown) vault)

  unfoldable pub finish :
      Weather
      → (SecretInput → Result DeliveryStatus)
      → Handoff
      → Result DeliveryReceipt × DurableVault
  finish weather deliver (answered answer vault) = (answer, vault)
  finish weather deliver (handed values at vault) = after_delivery weather (deliver values) at vault

-- `DurableVault::use_secret`.
unfoldable pub use_secret :
    Images
    → Codec
    → Uuid
    → Weather
    → Weather
    → Weather
    → Time
    → Time
    → (SecretInput → Result DeliveryStatus)
    → AuthenticatedContext
    → Uuid
    → PrivateUse
    → Exec DurableVault DeliveryReceipt
use_secret images codec attempt first second third prepared_at handoff_at deliver ctx task request
      vault =
    elim (codec.use_bytes request) [
      | none ↦ (err invalid, vault)
      | some bytes ↦ finish images (codec.sha256 bytes) attempt ctx task request third deliver (
          until_handoff images (codec.sha256 bytes) attempt ctx task request first second
            prepared_at handoff_at vault)
    ]
