-- ===== src/Storage/Recovery/Transition.antt =====
-- src/agent/storage/recovery.rs, `transition`: whether one application may follow another, loop by loop.
use credman.Base.{
  ℕ, ◌+◌, Bool, ◌&&◌, ◌||◌, not, Option, none, some, List, eqb, ltb, leb, ◌==◌, ◌!=◌, nat_eq,
  string_eq, bool_eq, option_eq, list_eq, if◌then◌else◌, is_empty, any, contains, is_none,
  is_some_and,
}
use credman.Base.Int.{leb_ℤ}
use credman.Base.Dict.{lookup, values, contains_key}
use credman.Result.{Result, ok, ◌>>=◌, ◌>>◌, reject, ok_or, recovery_required}
use credman.Loops.{try_each}
use credman.Types.{
  Uuid, Time, Application, TaskApproval, Record, Grant, GrantSpec, SecretInput, RequestKey,
  Remembered, DeliveryAttempt, accepted, register, login, verified_login, kind_eq, signup_eq,
  status_eq, action_eq, key_eq, u64_max,
}
use credman.Snapshot.Compact.{referenced}

-- `serde_json::to_vec` on the types that are compared.
pub record Forms : Type 0 where
  pub task : TaskApproval → Option (List ℕ)
  pub values : SecretInput → Option (List ℕ)
  pub spec : GrantSpec → Option (List ℕ)
  pub receipt : Remembered → Option (List ℕ)
  pub attempt : DeliveryAttempt → Option (List ℕ)

-- `equal`.
unfoldable pub equal {ℓ} : {T : Type ℓ} → (T → Option (List ℕ)) → T → T → Result Bool
equal form a b = do
  left ← ok_or (form a) recovery_required
  right ← ok_or (form b) recovery_required
  ok (left == right)

abbrev pub refuse_if : Bool → Result (Unit {0})
refuse_if bad = reject bad recovery_required

-- `next.last_time.or(old.last_time).is_some_and(|now| expires_at <= now)`.
abbrev pub expired : Application → Application → Time → Bool
expired old next expires_at = elim next.last_time [
  | some now ↦ leb_ℤ expires_at now
  | none ↦ is_some_and old.last_time (λ now. leb_ℤ expires_at now)
]

-- An unfinished delivery may be finished or withdrawn.
unfoldable pub expected_delivery : DeliveryAttempt → DeliveryAttempt → DeliveryAttempt
expected_delivery d n =
    if is_none d.status then record d { status = n.status; dispatched = n.dispatched } else d

-- `referenced_task`, the test that `compact` makes too.
abbrev pub referenced_task : Application → Uuid → Bool
referenced_task = referenced

module _ (forms : Forms) (old next : Application) where
  -- The checks of the generation and of the empty vault.
  unfoldable pub follows : Result (Unit {0})
  follows = refuse_if (
      eqb old.generation u64_max
      || old.generation + 1 != next.generation
      || is_empty old.tasks != is_empty next.tasks && is_empty next.tasks)

  unfoldable pub keeps_revoked : Uuid → Result (Unit {0})
  unfolding lookup
  keeps_revoked id = refuse_if (contains_key id next.tasks && not (contains next.revoked_tasks id))

  unfoldable pub keeps_task : Uuid × TaskApproval → Result (Unit {0})
  unfolding lookup equal referenced
  keeps_task (id, t) = elim (lookup id next.tasks) [
    | some kept ↦ do same ← equal forms.task t kept; refuse_if (not same)
    | none ↦ refuse_if (
        not (expired old next t.expires_at) && not (contains old.revoked_tasks id)
        || referenced_task next id)
  ]

  -- What a record may not change.
  unfoldable pub record_altered : Record → Record → Bool
  record_altered r n =
      r.owner != n.owner
      || r.workspace != n.workspace
      || r.created_by != n.created_by
      || r.task != n.task
      || r.service != n.service
      || r.origin != n.origin
      || r.kind != n.kind
      || ltb n.revision r.revision
      || ltb n.secret_version r.secret_version
      || r.deleted && not n.deleted
      || r.restored != n.restored

  unfoldable pub keeps_record : Uuid × Record → Result (Unit {0})
  unfolding lookup equal values record_altered
  keeps_record (id, r) = elim (lookup id next.records) [
    | some n ↦ do
      refuse_if (record_altered r n)
      if r.revision == n.revision
          then (do
            refuse_if (r.secret_version != n.secret_version || r.deleted != n.deleted)
            same ← equal forms.values r.values n.values
            refuse_if (not same))
          else ok tt
    | none ↦ refuse_if (
        not r.deleted
        || any (λ grant. grant.record_id == id) (values next.grants)
        || any (λ delivery. delivery.record_id == id) (values next.deliveries)
        || any (λ cached. cached.result.record_id == id) (values next.requests))
  ]

  unfoldable pub keeps_grant : Uuid × Grant → Result (Unit {0})
  unfolding lookup equal values
  keeps_grant (id, g) = elim (lookup id next.grants) [
    | some n ↦ do
      refuse_if (
          g.record_id != n.record_id
          || g.version != n.version
          || g.issuer_task != n.issuer_task
          || g.admin_issued != n.admin_issued
          || g.revoked && not n.revoked)
      same ← equal forms.spec g.spec n.spec
      refuse_if (not same)
    | none ↦ refuse_if (
        not g.revoked && not (expired old next g.spec.expires_at)
        || any (λ cached. cached.result.grant == some id) (values next.requests))
  ]

  abbrev through_at : Uuid → ℕ
  through_at id = elim (lookup id next.baselines) [ none ↦ 0 | some base ↦ base.through ]

  abbrev old_revision : Uuid → ℕ
  old_revision id = elim (lookup id old.records) [ none ↦ 0 | some r ↦ r.revision ]

  unfoldable pub keeps_request : RequestKey × Remembered → Result (Unit {0})
  unfolding lookup equal
  keeps_request (key, cached) = elim (lookup key next.requests) [
    | some kept ↦ do same ← equal forms.receipt cached kept; refuse_if (not same)
    | none ↦
        let id = cached.result.record_id in
        let covered =
          leb cached.result.revision (through_at id) && leb (through_at id) (old_revision id) in
        let record_removed =
          not (contains_key id next.records)
          && is_some_and (lookup id old.records) (λ r. r.deleted) in
        refuse_if (not covered && not record_removed)
  ]

  -- A dropped delivery may not open the registration of its record again.
  unfoldable pub unsealed_register : DeliveryAttempt → Bool
  unfolding lookup
  unsealed_register d =
      d.action == register
      && d.dispatched
      && contains_key d.record_id next.records
      && not
          (is_some_and (lookup d.record_id next.baselines) (λ base. base.registration_dispatched))

  -- Nor may the proof of a verified login be lost.
  unfoldable pub unsealed_login : DeliveryAttempt → Bool
  unfolding lookup values
  unsealed_login d =
      d.action == login
      && d.dispatched
      && d.status == some accepted
      && is_some_and (lookup d.record_id next.records) (λ r.
        r.signup == verified_login
        && r.secret_version == d.version
        && not (is_some_and (lookup d.record_id next.baselines) (λ base. base.verified_login))
        && not (
            any
              (λ delivery.
                delivery.record_id == d.record_id
                && delivery.action == login
                && delivery.dispatched
                && delivery.status == some accepted
                && delivery.version == r.secret_version)
              (values next.deliveries)))

  unfoldable pub keeps_delivery : Uuid × DeliveryAttempt → Result (Unit {0})
  unfolding lookup equal expected_delivery unsealed_register unsealed_login
  keeps_delivery (id, d) = elim (lookup id next.deliveries) [
    | some n ↦ do same ← equal forms.attempt (expected_delivery d n) n; refuse_if (not same)
    | none ↦ refuse_if (is_none d.status || unsealed_register d || unsealed_login d)
  ]

  -- `transition`.
  unfoldable pub transition : Result (Unit {0})
  unfolding try_each follows keeps_revoked keeps_task keeps_record keeps_grant keeps_request
      keeps_delivery
  transition = do
    follows
    try_each keeps_revoked old.revoked_tasks
    try_each keeps_task old.tasks
    try_each keeps_record old.records
    try_each keeps_grant old.grants
    try_each keeps_request old.requests
    try_each keeps_delivery old.deliveries
