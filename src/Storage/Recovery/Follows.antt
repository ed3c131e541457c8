-- ===== src/Storage/Recovery/Follows.antt =====
-- src/agent/storage/recovery.rs, `transition`: what cannot be undone from one application to the next.
use credman.Base.{
  ℕ, ◌+◌, ◌≤◌, ◌≡◌, ◌⊎◌, inl, inr, ap, subst, ◌∙◌, true, false, ◌&&◌, ◌||◌, Option, none, some,
  List, arith, ◌==◌, nat_eq, string_eq, bool_eq, list_eq, contains, contains-Member, is_some,
  any-intro, Option-cases, ==→≡,
}
use credman.Base.Dict.{lookup, contains_key, Member-values}
use credman.Result.{ok, bind_ok, then_ok}
use credman.Loops.{try_each, try_each_ok}
use credman.Types.{Uuid, Application, Record, Grant, DeliveryAttempt, register, action_eq}
use credman.Application.{registration_sealed}
use credman.Snapshot.Sound.{Member-entry}
use credman.Storage.Recovery.Transition.{
  Forms, equal, expired, follows, keeps_revoked, keeps_task, record_altered, keeps_record,
  keeps_grant, keeps_delivery, unsealed_register, transition, keeps_request, expected_delivery,
}

-- Equal encodings of two deliveries are of one record, one action and one mark of dispatch.
abbrev pub TellsApart : Forms → Type 0
TellsApart forms =
    (a b : DeliveryAttempt) (bytes : List ℕ)
    → forms.attempt a ≡ some bytes
    → forms.attempt b ≡ some bytes
    → (a.record_id ≡ b.record_id) × (a.action ≡ b.action) × (a.dispatched ≡ b.dispatched)

equal_bytes {ℓ} :
    {T : Type ℓ} (form : T → Option (List ℕ)) (a b : T)
    → equal form a b ≡ ok true
    → (bytes : List ℕ) × (form a ≡ some bytes) × (form b ≡ some bytes)
unfolding equal
equal_bytes form a b h = elim (Option-cases (form a)) [
  | inl missing ↦ absurd (ground arith)
  | inr (left, fa) ↦ elim (Option-cases (form b)) [
    | inl missing ↦ absurd (ground arith)
    | inr (right, fb) ↦
        let same : left ≡ right = ==→≡ left right (ground arith) in (left, fa, ground arith)
  ]
]

-- A record in the next application, or its removal.
pub record Succeeds (r n : Record) : Type 0 where
  pub task : r.task ≡ n.task
  pub maker : r.created_by ≡ n.created_by
  pub revision : r.revision ≤ n.revision
  pub version : r.secret_version ≤ n.secret_version
  pub deleted : r.deleted ≡ true → n.deleted ≡ true
  pub restored : r.restored ≡ n.restored

record_altered-Succeeds :
    (forms : Forms) (old next : Application) (r n : Record)
    → record_altered forms old next r n ≡ false
    → Succeeds r n
unfolding record_altered
record_altered-Succeeds forms old next r n h = record {
  task = ground (arith, nat_eq.beq_iff r.task n.task);
  maker = ground (arith, string_eq.beq_iff r.created_by n.created_by);
  revision = ground arith;
  version = ground arith;
  deleted = λ gone. ground arith;
  restored = ground (arith, bool_eq.beq_iff r.restored n.restored);
}

module _ (forms : Forms) (old next : Application) where
  revoked_kept :
      (id : Uuid)
      → keeps_revoked forms old next id ≡ ok tt
      → contains_key id next.tasks ≡ true
      → contains next.revoked_tasks id ≡ true
  unfolding keeps_revoked
  revoked_kept id h there = ground arith

  record_kept :
      (id : Uuid) (r : Record)
      → keeps_record forms old next (id, r) ≡ ok tt
      → ((n : Record) × (lookup id next.records ≡ some n) × Succeeds r n)
        ⊎ ((lookup id next.records ≡ none) × (r.deleted ≡ true))
  unfolding keeps_record
  record_kept id r h = elim (Option-cases (lookup id next.records)) [
    | inl missing ↦ inr (missing, ground arith)
    | inr (n, found) ↦ inl (n, found, record_altered-Succeeds forms old next r n (ground arith))
  ]

  grant_kept :
      (id : Uuid) (g n : Grant)
      → keeps_grant forms old next (id, g) ≡ ok tt
      → lookup id next.grants ≡ some n
      → g.revoked ≡ true
      → n.revoked ≡ true
  unfolding keeps_grant
  grant_kept id g n h found revoked = ground arith

  grant_gone :
      (id : Uuid) (g : Grant)
      → keeps_grant forms old next (id, g) ≡ ok tt
      → lookup id next.grants ≡ none
      → (g.revoked || expired old next g.spec.expires_at) ≡ true
  unfolding keeps_grant
  grant_gone id g h missing = ground arith

  delivery_kept :
      (id : Uuid) (d : DeliveryAttempt)
      → keeps_delivery forms old next (id, d) ≡ ok tt
      → d.status ≡ none
      → is_some (lookup id next.deliveries) ≡ true
  unfolding keeps_delivery
  delivery_kept id d h pending = ground arith

  finished_expected : (d n : DeliveryAttempt) → is_some d.status ≡ true → expected_delivery d n ≡ d
  unfolding expected_delivery
  finished_expected d n ended = ground arith

  delivery_same :
      (id : Uuid) (d n : DeliveryAttempt)
      → keeps_delivery forms old next (id, d) ≡ ok tt
      → lookup id next.deliveries ≡ some n
      → is_some d.status ≡ true
      → equal forms.attempt d n ≡ ok true
  unfolding keeps_delivery
  delivery_same id d n h found ended =
      let (same, compared, passed) =
        bind_ok (equal forms.attempt (expected_delivery d n) n) _ _
          (rw (found, keeps_delivery) at h) in
      subst (λ e. equal forms.attempt e n ≡ ok true) (finished_expected d n ended)
        (compared ∙ ap ok (ground arith))

  -- A registration that was handed over and has its end still seals its record.
  register_kept :
      (id : Uuid) (d : DeliveryAttempt)
      → TellsApart forms
      → keeps_delivery forms old next (id, d) ≡ ok tt
      → is_some d.status ≡ true
      → d.action ≡ register
      → d.dispatched ≡ true
      → contains_key d.record_id next.records ≡ true
      → registration_sealed next d.record_id ≡ true
  unfolding keeps_delivery unsealed_register registration_sealed
  register_kept id d law h ended action sent there =
      elim (Option-cases (lookup id next.deliveries)) [
        | inl missing ↦ ground (arith, action_eq.beq_iff d.action register)
        | inr (n, found) ↦
            let same = delivery_same id d n h found ended in
            let (bytes, left, right) = equal_bytes forms.attempt d n same in
            let (at, act, mark) = law d n bytes left right in
            ground (
              arith,
              any-intro
                  (λ (x : DeliveryAttempt).
                    x.record_id == d.record_id && x.action == register && x.dispatched)
                  (Member-values id n next.deliveries found)
                  (ground (
                    arith,
                    nat_eq.beq_iff n.record_id d.record_id,
                    action_eq.beq_iff n.action register,
                    at,
                    act,
                    mark,
                  )),
            )
      ]

-- The next application undoes nothing.
pub record Follows (old next : Application) : Type 0 where
  pub generation : next.generation ≡ old.generation + 1
  pub revoked_tasks :
      (id : Uuid)
      → contains old.revoked_tasks id ≡ true
      → contains_key id next.tasks ≡ true
      → contains next.revoked_tasks id ≡ true
  pub records :
      (id : Uuid) (r : Record)
      → lookup id old.records ≡ some r
      → ((n : Record) × (lookup id next.records ≡ some n) × Succeeds r n)
        ⊎ ((lookup id next.records ≡ none) × (r.deleted ≡ true))
  pub revoked_grants :
      (id : Uuid) (g n : Grant)
      → lookup id old.grants ≡ some g
      → lookup id next.grants ≡ some n
      → g.revoked ≡ true
      → n.revoked ≡ true
  pub dropped_grants :
      (id : Uuid) (g : Grant)
      → lookup id old.grants ≡ some g
      → lookup id next.grants ≡ none
      → (g.revoked || expired old next g.spec.expires_at) ≡ true
  pub unfinished :
      (id : Uuid) (d : DeliveryAttempt)
      → lookup id old.deliveries ≡ some d
      → d.status ≡ none
      → is_some (lookup id next.deliveries) ≡ true
  pub registered :
      (id : Uuid) (d : DeliveryAttempt)
      → lookup id old.deliveries ≡ some d
      → is_some d.status ≡ true
      → d.action ≡ register
      → d.dispatched ≡ true
      → contains_key d.record_id next.records ≡ true
      → registration_sealed next d.record_id ≡ true

-- An application that `transition` lets follow another is its next generation and undoes nothing of it: a
-- revoked task or grant is not live again, a record is not set back, brought back or lost unless it
-- was deleted, a grant is dropped only if it was revoked or has expired, an unfinished delivery is
-- still there, and a record whose registration was handed over and ended stays sealed. It is assumed
-- that the encodings of deliveries differ if their records, actions or marks of dispatch do.
pub transition-Follows :
    (forms : Forms) (old next : Application)
    → TellsApart forms
    → transition forms old next ≡ ok tt
    → Follows old next
unfolding transition follows
transition-Follows forms old next law h =
    let (counted, h1) = then_ok (follows forms old next) _ _ h in
    let (revoked, h2) =
      then_ok (try_each (keeps_revoked forms old next) old.revoked_tasks) _ _ h1 in
    let (tasks, h3) = then_ok (try_each (keeps_task forms old next) old.tasks) _ _ h2 in
    let (records, h4) = then_ok (try_each (keeps_record forms old next) old.records) _ _ h3 in
    let (grants, h5) = then_ok (try_each (keeps_grant forms old next) old.grants) _ _ h4 in
    let (requests, deliveries) =
      then_ok (try_each (keeps_request forms old next) old.requests) _ _ h5 in
    let delivery : (id : Uuid) (d : DeliveryAttempt)
        → lookup id old.deliveries ≡ some d
        → keeps_delivery forms old next (id, d) ≡ ok tt =
      λ id d found.
        try_each_ok (keeps_delivery forms old next) (Member-entry id d old.deliveries found)
          deliveries in
    record {
      generation = ground (arith, nat_eq.beq_iff (old.generation + 1) next.generation);
      revoked_tasks = λ id was there.
          revoked_kept forms old next id
            (try_each_ok (keeps_revoked forms old next) (contains-Member was) revoked) there;
      records = λ id r found.
          record_kept forms old next id r (
            try_each_ok (keeps_record forms old next) (Member-entry id r old.records found)
              records);
      revoked_grants = λ id g n found found'.
          grant_kept forms old next id g n
            (try_each_ok (keeps_grant forms old next) (Member-entry id g old.grants found) grants)
            found';
      dropped_grants = λ id g found.
          grant_gone forms old next id g
            (try_each_ok (keeps_grant forms old next) (Member-entry id g old.grants found) grants);
      unfinished = λ id d found. delivery_kept forms old next id d (delivery id d found);
      registered = λ id d found. register_kept forms old next id d law (delivery id d found);
    }
