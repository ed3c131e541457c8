-- ===== src/Storage/Once.antt =====
-- src/agent/storage/workflow.rs, `use_secret`: two registrations of one record.
use credman.Base.{
  ◌≡◌, refl, Bool, true, false, ◌&&◌, some, [], ◌∷◌, arith, nat_eq, ◌==◌, any, any-intro, inl, inr,
  Bool-cases,
}
use credman.Base.Dict.{Dict, NodupKeys, lookup, insert, values, Member-values}
use credman.Types.{
  Uuid, Time, Digest, AuthenticatedContext, Application, DeliveryAttempt, PrivateUse, Record,
  register, SecretInput, action_eq,
}
use credman.Application.{registration_sealed}
use credman.Application.Frame.{Step-Recorded}
use credman.Snapshot.Compact.{compact}
use credman.Snapshot.Seals.{registers, compact-registration_sealed}
use credman.Storage.{Images, Weather, DurableVault}
use credman.Storage.Vault.{working_copy}
use credman.Storage.Use.{handed, until_handoff, prepare, check_handoff, withdraw, conclude}
use credman.Storage.Handoff.{ClockOnly, until_handoff-HandedOver}
use credman.Storage.Onward.{
  Onward, unmoved, operates, prepares, checks, withdraws, concludes, numbers, compacts,
  prepare-Prepared, check_handoff_frame, withdraw-Aside, withdraw_delivers, conclude_Aside,
  conclude_delivers,
}

attempt_seals :
    (app : Application) (attempt : Uuid) (d : DeliveryAttempt)
    → lookup attempt app.deliveries ≡ some d
    → d.action ≡ register
    → d.dispatched ≡ true
    → registration_sealed app d.record_id ≡ true
unfolding registration_sealed
attempt_seals app attempt d found action dispatched = ground (
  arith,
  any-intro
      (λ (x : DeliveryAttempt). x.record_id == d.record_id && x.action == register && x.dispatched)
      (Member-values attempt d app.deliveries found)
      (ground (arith, nat_eq.beq_iff d.record_id d.record_id, action_eq.beq_iff d.action register)),
)

any-insert :
    (p : DeliveryAttempt → Bool) (k : Uuid) (v : DeliveryAttempt) (d : Dict Uuid DeliveryAttempt)
    → ((w : DeliveryAttempt) → lookup k d ≡ some w → p w ≡ true → p v ≡ true)
    → any p (values d) ≡ true
    → any p (values (insert k v d)) ≡ true
unfolding values insert lookup
any-insert p k v [] over h = ground arith
any-insert p k v ((j, w) ∷ d) over h = elim (Bool-cases (j == k)) [
  | inl same ↦ let first : p w ≡ true → p v ≡ true = over w (ground arith) in ground (arith, first)
  | inr other ↦
      let rest : any p (values d) ≡ true → any p (values (insert k v d)) ≡ true =
        any-insert p k v d (λ x found. over x (ground (arith, found))) in
      ground (arith, rest)
]

-- A compaction that has one entry for each delivery to work on, and leaves the record.
abbrev pub Spares : Uuid → Application → Type 0
Spares id app = NodupKeys app.deliveries × (r : Record) × (lookup id (compact app).records ≡ some r)

-- The attempt is no dispatched registration of the record.
abbrev pub Elsewhere : Uuid → Uuid → Application → Type 0
Elsewhere id attempt app =
    (d : DeliveryAttempt) → lookup attempt app.deliveries ≡ some d → registers id d ≡ false

module _ (id : Uuid) where
  sealed_still :
      (b c : Application)
      → c.baselines ≡ b.baselines
      → c.deliveries ≡ b.deliveries
      → registration_sealed b id ≡ true
      → registration_sealed c id ≡ true
  unfolding registration_sealed
  sealed_still b c bases same h = rw (bases, same) h

  sealed_insert :
      (attempt : Uuid) (v : DeliveryAttempt) (b c : Application)
      → c.baselines ≡ b.baselines
      → c.deliveries ≡ insert attempt v b.deliveries
      → ((w : DeliveryAttempt)
          → lookup attempt b.deliveries ≡ some w
          → registers id w ≡ true
          → registers id v ≡ true)
      → registration_sealed b id ≡ true
      → registration_sealed c id ≡ true
  unfolding registration_sealed
  sealed_insert attempt v b c bases put over h =
      let kept = any-insert (registers id) attempt v b.deliveries over in
      rw (bases, put) (ground (arith, kept))

  -- A sealed record stays sealed.
  Onward-sealed :
      {a b : Application}
      → Onward (Spares id) (Elsewhere id) a b
      → registration_sealed a id ≡ true
      → registration_sealed b id ≡ true
  Onward-sealed unmoved h = h
  Onward-sealed (operates {b = b} {c = c} way step) h =
      let r = Step-Recorded step in
      sealed_still b c (r.baselines) (r.deliveries) (Onward-sealed way h)
  Onward-sealed (prepares {b = b} fingerprint attempt ctx task request at way new) h =
      let (aside, change) = prepare-Prepared fingerprint attempt ctx task request at b in
      let c = (prepare fingerprint attempt ctx task request at b).1 in
      let before = Onward-sealed way h in
      elim change [
        | inl same ↦ sealed_still b c (aside.baselines) same before
        | inr (version, now, put) ↦
            sealed_insert attempt _ b c (aside.baselines) put
              (λ w found hit. absurd (ground (arith, found, new))) before
      ]
  Onward-sealed (checks {b = b} fingerprint attempt ctx task request at way) h =
      let (aside, same) = check_handoff_frame fingerprint attempt ctx task request at b in
      sealed_still b (check_handoff fingerprint attempt ctx task request at b).1 (aside.baselines)
        same (Onward-sealed way h)
  Onward-sealed (withdraws {b = b} fingerprint attempt ctx task request way allowed) h =
      let aside = withdraw-Aside fingerprint attempt ctx task request b in
      let c = (withdraw fingerprint attempt ctx task request b).1 in
      let before = Onward-sealed way h in
      elim (withdraw_delivers fingerprint attempt ctx task request b) [
        | inl same ↦ sealed_still b c (aside.baselines) same before
        | inr (d, found, put) ↦
            sealed_insert attempt _ b c (aside.baselines) put
              (λ w there hit. absurd (ground (arith, hit, allowed w there))) before
      ]
  Onward-sealed (concludes {b = b} attempt ctx task request at status way) h =
      let aside = conclude_Aside attempt ctx task request at status b in
      let c = (conclude attempt ctx task request at status b).1 in
      let before = Onward-sealed way h in
      elim (conclude_delivers attempt ctx task request at status b) [
        | inl same ↦ sealed_still b c (aside.baselines) same before
        | inr (d, found, put) ↦
            sealed_insert attempt _ b c (aside.baselines) put
              (λ w there hit. ground (arith, hit, found, there)) before
      ]
  Onward-sealed (numbers {b = b} generation way) h =
      sealed_still b (record b { generation = generation }) refl refl (Onward-sealed way h)
  Onward-sealed (compacts {b = b} way (distinct, r, kept)) h =
      compact-registration_sealed id r b distinct kept (Onward-sealed way h)

module _ (images : Images) (law : ClockOnly images) where
  -- Once the values of a record have been handed over for its registration, no request of whatever
  -- agent hands the values of the record over for a registration again: whatever operations, private
  -- uses with their outcomes, and compactions come in between, also when the registration has been
  -- concluded and its attempt has been pruned. The conditions are that each compaction, the one before
  -- the second request included, leaves the record and meets one delivery for each key, that a new
  -- attempt has a new identifier, and that no withdrawal of a refused hand-over is of a dispatched
  -- registration of the record. Recoveries, restores and key changes in between are not covered. It is
  -- assumed that snapshots that differ in the clock alone have the same deliveries.
  pub registered_once :
      (fingerprint fingerprint' : Digest) (attempt attempt' : Uuid)
      (ctx ctx' : AuthenticatedContext) (task task' : Uuid) (request request' : PrivateUse)
      (first second third fourth : Weather) (t1 t2 t3 t4 : Time)
      (vault after later after' : DurableVault) (given given' : SecretInput) (at at' : Time)
      → until_handoff images fingerprint attempt ctx task request first second t1 t2 vault
        ≡ handed given at after
      → request.action ≡ register
      → Onward
          (Spares request.record_id)
          (Elsewhere request.record_id)
          after.app
          (working_copy images later.app)
      → request'.action ≡ register
      → request'.record_id ≡ request.record_id
      → ¬ (
          until_handoff images fingerprint' attempt' ctx' task' request' third fourth t3 t4 later
          ≡ handed given' at' after')
  registered_once fingerprint fingerprint' attempt attempt' ctx ctx' task task' request request'
        first second third fourth t1 t2 t3 t4 vault after later after' given given' at at' h reg way
        reg' same h' =
      let one =
        until_handoff-HandedOver fingerprint attempt ctx task request images law first second t1 t2
          vault given at after h in
      let two =
        until_handoff-HandedOver fingerprint' attempt' ctx' task' request' images law third fourth
          t3 t4 later given' at' after' h' in
      let sealed =
        Onward-sealed request.record_id way
          (attempt_seals after.app attempt _ one.begun.recorded reg refl) in
      ground (arith, two.begun.unsealed, sealed, action_eq.beq_iff request'.action register)
