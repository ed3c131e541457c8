-- ===== src/Snapshot/Seals.antt =====
-- src/agent/snapshot.rs, `compact`: a record that was handed over for its registration stays sealed
-- against a second one, although the delivery itself may be dropped.
use credman.Base.{
  ℕ, ◌≡◌, refl, ap, subst, ◌∙◌, Bool, true, false, ◌||◌, ◌&&◌, not, Option, some, List, [], ◌∷◌,
  arith, inl, inr, Bool-cases, Option-cases, ◌==◌, ◌!=◌, nat_eq, is_some_and, is_none, is_empty,
  any, filter, if◌then◌else◌, map,
}
use credman.Base.Dict.{
  Dict, lookup, insert, erase, keys, values, contains_key, NodupKeys, lookup-insert, lookup-erase,
  erase-NodupKeys,
}
use credman.Base.Order.{each, each_inv, sort, sort_by_key}
use credman.Base.Retain.{lookup-erase_back, any-erase}
use credman.Types.{
  Uuid, Application, Record, RequestKey, Remembered, RecordBaseline, DeliveryAttempt, register,
  action_eq, key_eq,
}
use credman.Application.{registration_sealed, next_u64}
use credman.Snapshot.Compact.{
  account, baseline, fold_record, fold_records, prune_grant, prune_grants, prune_delivery,
  prune_deliveries, drop_record, drop_records, drop_tasks, settle_baseline, keeps_baseline,
  settle_history, compact, seals_register, seals_login, stale, dropped, foldable, set_baseline,
  through_of, revisions_of,
}
use credman.Snapshot.Drops.{drop_records_back}
use credman.Snapshot.Stages.{
  folded, pruned, delivered, remaining, stages_Untouched, compact_records, compact_deliveries,
}
use credman.Snapshot.Rounds.{fold_record-FoldsOnly, prune_grant-PrunesGrants, drop_tasks-DropsTasks}

-- The seal in the baseline of a record.
abbrev flag : Uuid → Dict Uuid RecordBaseline → Bool
flag id d = is_some_and (lookup id d) (λ base. base.registration_dispatched)

-- A dispatched registration of the record.
abbrev pub registers : Uuid → DeliveryAttempt → Bool
registers id d = d.record_id == id && d.action == register && d.dispatched

flag-insert :
    (id x : Uuid) (base : RecordBaseline) (d : Dict Uuid RecordBaseline)
    → flag id (insert x base d) ≡ (if x == id then base.registration_dispatched else flag id d)
flag-insert id x base d = ground (arith, lookup-insert x id base d)

baseline-flag :
    (id : Uuid) (app : Application)
    → (baseline id app).registration_dispatched ≡ flag id app.baselines
unfolding baseline
baseline-flag id app = ground arith

account_flag :
    (x : RequestKey × Remembered) (base : RecordBaseline)
    → (account x base).registration_dispatched ≡ base.registration_dispatched
unfolding account
account_flag (key, cached) base = ground arith

accounts_flag :
    (xs : List (RequestKey × Remembered)) (base : RecordBaseline)
    → (each account xs base).registration_dispatched ≡ base.registration_dispatched
unfolding each
accounts_flag [] base = refl
accounts_flag (x ∷ xs) base = accounts_flag xs (account x base) ∙ account_flag x base

flag-insert_same :
    (id x : Uuid) (base : RecordBaseline) (d : Dict Uuid RecordBaseline)
    → base.registration_dispatched ≡ flag x d
    → flag id (insert x base d) ≡ flag id d
flag-insert_same id x base d same = ground (arith, lookup-insert x id base d, nat_eq.beq_iff x id)

module _ (id : Uuid) where
  flag-fold_record :
      (x : Uuid) (app : Application) → flag id (fold_record x app).baselines ≡ flag id app.baselines
  unfolding fold_record
  flag-fold_record x app =
      let revisions = sort_by_key (λ (r : ℕ × RequestKey). r.0) (revisions_of x app.requests) in
      let through = through_of x app in
      let folded = foldable app through (next_u64 through) revisions in
      let base = each account folded (baseline x app) in
      elim (Bool-cases (is_empty folded)) [
        | inl idle ↦ rw (idle, fold_record) refl
        | inr busy ↦
            rw (busy, fold_record)
              (flag-insert_same id x (record base { pruned_grants = sort base.pruned_grants })
                app.baselines (accounts_flag folded (baseline x app) ∙ baseline-flag x app))
      ]

  flag-prune_grant :
      (x : Uuid) (app : Application) → flag id (prune_grant x app).baselines ≡ flag id app.baselines
  unfolding prune_grant
  flag-prune_grant x app = elim (Option-cases (lookup x app.grants)) [
    | inl missing ↦ rw (missing, prune_grant) refl
    | inr (g, there) ↦ elim (Option-cases (lookup g.record_id app.baselines)) [
      | inl no_base ↦ ground arith
      | inr (base, based) ↦ ground (
        arith,
        flag-insert_same id g.record_id
            (record base { pruned_grants = filter (λ y. y != x) base.pruned_grants }) app.baselines,
      )
    ]
  ]

  -- The record is there and sealed.
  record Sealed (app : Application) : Type 0 where
    pub seal : (flag id app.baselines || any (registers id) (values app.deliveries)) ≡ true
    pub there : contains_key id app.records ≡ true
    pub distinct : NodupKeys app.deliveries

  -- What dropping a delivery does to the seals.
  abbrev marked : Application → DeliveryAttempt → RecordBaseline
  marked app d =
      let base = baseline d.record_id app in
      record base {
        registration_dispatched = seals_register app d || base.registration_dispatched;
        verified_login = seals_login app d || base.verified_login;
      }

  marked-flag :
      (app : Application) (d : DeliveryAttempt)
      → flag id app.baselines ≡ true
      → flag id (insert d.record_id (marked app d) app.baselines) ≡ true
  marked-flag app d set = ground (
    arith,
    flag-insert id d.record_id (marked app d) app.baselines,
    nat_eq.beq_iff d.record_id id,
    baseline-flag d.record_id app,
  )

  registers-flag :
      (app : Application) (d : DeliveryAttempt)
      → contains_key id app.records ≡ true
      → registers id d ≡ true
      → (seals_register app d ≡ true)
        × (flag id (insert d.record_id (marked app d) app.baselines) ≡ true)
  unfolding seals_register
  registers-flag app d there hit =
      let at_id : d.record_id ≡ id = ground (arith, nat_eq.beq_iff d.record_id id) in
      let seals : seals_register app d ≡ true = rw at_id (ground arith) in
      (seals, ground (arith, flag-insert id d.record_id (marked app d) app.baselines))

  -- Dropping the delivery at a key, with its mark and without.
  module _ (x : Uuid) (app : Application) (d : DeliveryAttempt) (s : Sealed app)
      (found : lookup x app.deliveries ≡ some d) where
    dropped_marked :
        (flag id (insert d.record_id (marked app d) app.baselines)
          || any (registers id) (values (erase x app.deliveries)))
        ≡ true
    dropped_marked = elim (Bool-cases (flag id app.baselines)) [
      | inl set ↦ rw (marked-flag app d set) refl
      | inr unset ↦
          elim (any-erase (registers id) x d app.deliveries s.distinct found (ground arith)) [
            | inl hit ↦ rw (registers-flag app d s.there hit).1 refl
            | inr rest ↦ ground arith
          ]
    ]

    dropped_unmarked :
        seals_register app d ≡ false
        → (flag id app.baselines || any (registers id) (values (erase x app.deliveries))) ≡ true
    dropped_unmarked plain = elim (Bool-cases (flag id app.baselines)) [
      | inl set ↦ rw set refl
      | inr unset ↦
          elim (any-erase (registers id) x d app.deliveries s.distinct found (ground arith)) [
            | inl hit ↦ absurd (let q = (registers-flag app d s.there hit).0 in ground arith)
            | inr rest ↦ ground arith
          ]
    ]

    dropped_Sealed :
        Sealed
          (record (if seals_register app d || seals_login app d
            then set_baseline d.record_id (marked app d) app
            else app) { deliveries = erase x app.deliveries })
    dropped_Sealed = elim (Bool-cases (seals_register app d || seals_login app d)) [
      | inl marks ↦ rw marks (record {
        seal = dropped_marked;
        there = s.there;
        distinct = erase-NodupKeys x app.deliveries s.distinct;
      })
      | inr plain ↦ rw plain (record {
        seal = dropped_unmarked (ground arith);
        there = s.there;
        distinct = erase-NodupKeys x app.deliveries s.distinct;
      })
    ]

  prune_delivery-Sealed :
      (x : Uuid) (app : Application) → Sealed app → Sealed (prune_delivery x app)
  unfolding prune_delivery
  prune_delivery-Sealed x app s = elim (Option-cases (lookup x app.deliveries)) [
    | inl missing ↦ rw (missing, prune_delivery) s
    | inr (d, found) ↦ elim (Bool-cases (is_none d.status || not (stale d.at app.last_time))) [
      | inl keep ↦ rw (found, prune_delivery) (rw keep s)
      | inr drop ↦ rw (found, prune_delivery) (rw drop (dropped_Sealed x app d s found))
    ]
  ]

  -- A record that is still there has kept its baseline.
  drop_record_baseline :
      (r : Record) (ids : List Uuid) (app : Application)
      → lookup id (each drop_record ids app).records ≡ some r
      → lookup id (each drop_record ids app).baselines ≡ lookup id app.baselines
  unfolding each
  drop_record_baseline r [] app found = refl
  drop_record_baseline r (x ∷ ids) app found =
      let later = drop_record_baseline r ids (drop_record x app) found in
      let stands : lookup id (erase x app.records) ≡ some r =
        each_inv drop_record
          (λ s. lookup id s.records ≡ some r → lookup id (erase x app.records) ≡ some r)
          (λ y s h after. h (lookup-erase_back y id r s.records after)) ids (drop_record x app)
          (λ h. h) found in
      ground (arith, later, lookup-erase x id app.records, lookup-erase x id app.baselines)

  settled_flag :
      (app : Application) (d : Dict Uuid RecordBaseline)
      → contains_key id app.records ≡ true
      → flag id d ≡ true
      → flag id (filter (keeps_baseline app) (map (settle_baseline app) d)) ≡ true
  unfolding lookup settle_baseline keeps_baseline
  settled_flag app [] there set = set
  settled_flag app ((x, base) ∷ d) there set =
      ground (arith, settled_flag app d, nat_eq.beq_iff x id)

  fold_record-Sealed : (x : Uuid) (app : Application) → Sealed app → Sealed (fold_record x app)
  fold_record-Sealed x app s =
      let shape = fold_record-FoldsOnly x app in
      let d = ap (λ (a : Application). a.deliveries) shape in
      record {
        seal = rw (flag-fold_record x app) (rw d s.seal);
        there = rw (ap (λ (a : Application). a.records) shape) s.there;
        distinct = rw d s.distinct;
      }

  prune_grant-Sealed : (x : Uuid) (app : Application) → Sealed app → Sealed (prune_grant x app)
  prune_grant-Sealed x app s =
      let shape = prune_grant-PrunesGrants x app in
      let d = ap (λ (a : Application). a.deliveries) shape in
      record {
        seal = rw (flag-prune_grant x app) (rw d s.seal);
        there = rw (ap (λ (a : Application). a.records) shape) s.there;
        distinct = rw d s.distinct;
      }

  delivered-Sealed : (app : Application) → Sealed app → Sealed (delivered app)
  unfolding fold_records prune_grants prune_deliveries
  delivered-Sealed app s =
      each_inv prune_delivery Sealed prune_delivery-Sealed (keys (pruned app).deliveries)
        (pruned app)
        (each_inv prune_grant Sealed prune_grant-Sealed (keys (folded app).grants) (folded app)
          (each_inv fold_record Sealed fold_record-Sealed (keys app.records) app s))

  flag-remaining :
      (r : Record) (app : Application)
      → lookup id (remaining app).records ≡ some r
      → flag id (remaining app).baselines ≡ flag id (delivered app).baselines
  unfolding drop_records
  flag-remaining r app found =
      let start = delivered app in
      ap (λ (o : Option RecordBaseline). is_some_and o (λ base. base.registration_dispatched))
        (drop_record_baseline r (keys (filter (dropped start) start.records)) start found)

  compact_flag :
      (app : Application)
      → contains_key id (compact app).records ≡ true
      → flag id (remaining app).baselines ≡ true
      → flag id (compact app).baselines ≡ true
  unfolding compact settle_history
  compact_flag app there set =
      settled_flag (drop_tasks (remaining app)) (drop_tasks (remaining app)).baselines there
        (rw (ap (λ (a : Application). a.baselines) (drop_tasks-DropsTasks (remaining app))) set)

-- A record that `compact` keeps is as sealed against a second registration as it was, although the
-- delivery that sealed it may be gone. It is assumed that the map of deliveries has one entry for a
-- key.
pub compact-registration_sealed :
    (id : Uuid) (r : Record) (app : Application)
    → NodupKeys app.deliveries
    → lookup id (compact app).records ≡ some r
    → registration_sealed app id ≡ true
    → registration_sealed (compact app) id ≡ true
unfolding registration_sealed
compact-registration_sealed id r app distinct found sealed =
    let last = subst (λ d. lookup id d ≡ some r) (compact_records app) found in
    let first : lookup id app.records ≡ some r =
      subst (λ d. lookup id d ≡ some r) (stages_Untouched app).records
        (drop_records_back id r (delivered app) last) in
    let s =
      delivered-Sealed id app
        (record { seal = sealed; there = ground arith; distinct = distinct }) in
    elim (Bool-cases (flag id (delivered app).baselines)) [
      | inl set ↦ rw (compact_flag id app (ground arith) (flag-remaining id r app last ∙ set)) refl
      | inr unset ↦
          let search : any (registers id) (values (delivered app).deliveries) ≡ true =
            ground (arith, s.seal) in
          rw (compact_deliveries app) (ground (arith, search))
    ]
