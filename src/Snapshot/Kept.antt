-- ===== src/Snapshot/Kept.antt =====
-- src/agent/snapshot.rs, `compact`: what is kept, loop by loop.
use credman.Base.{
  ℕ, ◌≡◌, refl, sym, subst, Bool, true, false, ◌||◌, not, Option, some, List, [], ◌∷◌, arith, ◌==◌,
  Eq, nat_eq, is_some_and, is_none, any,
}
use credman.Base.Int.{leb_ℤ}
use credman.Base.Dict.{Dict, lookup, erase, keys, lookup-erase}
use credman.Base.Order.{each, each_inv, sort_by_key}
use credman.Base.Retain.{lookup-erase_other, lookup-erase_back}
use credman.Types.{Uuid, Time, Application, Grant, RequestKey, Remembered, DeliveryAttempt, key_eq}
use credman.Application.{next_u64}
use credman.Snapshot.Compact.{
  stale, foldable, fold_record, fold_records, prune_grant, prune_grants, prune_delivery,
  prune_deliveries, through_of, revisions_of,
}
use credman.Snapshot.Rounds.{
  fold_record-FoldsOnly, prune_grant-PrunesGrants, prune_delivery-PrunesDeliveries,
}

abbrev pub past : Option Time → Time → Bool
past now expires_at = is_some_and now (λ now. leb_ℤ expires_at now)

module _ {K V : Type 0} ⦃e : Eq K⦄ where
  erase_entries_other :
      (k : K) (xs : List (K × V)) (d : Dict K V)
      → any (λ x. x.0 == k) xs ≡ false
      → lookup k (each (λ (x : K × V). erase x.0) xs d) ≡ lookup k d
  unfolding each
  erase_entries_other k [] d h = refl
  erase_entries_other k (x ∷ xs) d h =
      ground (arith, erase_entries_other k xs (erase x.0 d), lookup-erase x.0 k d)

  erase_entries_back :
      (k : K) (v : V) (xs : List (K × V)) (d : Dict K V)
      → lookup k (each (λ (x : K × V). erase x.0) xs d) ≡ some v
      → lookup k d ≡ some v
  unfolding each
  erase_entries_back k v [] d h = h
  erase_entries_back k v (x ∷ xs) d h =
      lookup-erase_back x.0 k v d (erase_entries_back k v xs (erase x.0 d) h)

module _ (app : Application) (key : RequestKey) (c : Remembered)
    (found : lookup key app.requests ≡ some c) (fresh : stale c.at app.last_time ≡ false) where
  -- A receipt that is not stale is not folded.
  foldable_fresh :
      (through next : ℕ) (rs : List (ℕ × RequestKey))
      → any (λ x. x.0 == key) (foldable app through next rs) ≡ false
  unfolding foldable
  foldable_fresh through next [] = refl
  foldable_fresh through next ((revision, k) ∷ rs) = ground (
    arith,
    key_eq.beq_iff k key,
    foldable_fresh through next rs,
    foldable_fresh through (next_u64 next) rs,
  )

module _ (key : RequestKey) (c : Remembered) where
  fold_record_fresh :
      (id : Uuid) (app : Application)
      → stale c.at app.last_time ≡ false
      → lookup key app.requests ≡ some c
      → lookup key (fold_record id app).requests ≡ some c
  unfolding fold_record
  fold_record_fresh id app fresh found =
      let through = through_of id app in
      let folded =
        foldable app through (next_u64 through)
          (sort_by_key (λ (x : ℕ × RequestKey). x.0) (revisions_of id app.requests)) in
      ground (
        arith,
        erase_entries_other key folded app.requests,
        foldable_fresh app key c found fresh through (next_u64 through)
            (sort_by_key (λ (x : ℕ × RequestKey). x.0) (revisions_of id app.requests)),
      )

  fold_record_back :
      (id : Uuid) (app : Application)
      → lookup key (fold_record id app).requests ≡ some c
      → lookup key app.requests ≡ some c
  unfolding fold_record
  fold_record_back id app found =
      let through = through_of id app in
      let folded =
        foldable app through (next_u64 through)
          (sort_by_key (λ (x : ℕ × RequestKey). x.0) (revisions_of id app.requests)) in
      ground (arith, erase_entries_back key c folded app.requests)

  pub fold_records_fresh :
      (app : Application)
      → stale c.at app.last_time ≡ false
      → lookup key app.requests ≡ some c
      → lookup key (fold_records app).requests ≡ some c
  unfolding fold_records
  fold_records_fresh app fresh found =
      (each_inv fold_record
        (λ s. (lookup key s.requests ≡ some c) × (stale c.at s.last_time ≡ false))
        (λ id s h. (
          fold_record_fresh id s h.1 h.0,
          subst (λ (t : Application). stale c.at t.last_time ≡ false)
              (sym (fold_record-FoldsOnly id s)) h.1,
        ))
        (keys app.records) app (found, fresh)).0

  pub fold_records_back :
      (app : Application)
      → lookup key (fold_records app).requests ≡ some c
      → lookup key app.requests ≡ some c
  unfolding fold_records
  fold_records_back app =
      each_inv fold_record (λ s. lookup key s.requests ≡ some c → lookup key app.requests ≡ some c)
        (λ id s h later. h (fold_record_back id s later)) (keys app.records) app (λ h. h)

module _ (gid : Uuid) (g : Grant) where
  prune_grant_live :
      (id : Uuid) (app : Application)
      → g.revoked ≡ false
      → past app.last_time g.spec.expires_at ≡ false
      → lookup gid app.grants ≡ some g
      → lookup gid (prune_grant id app).grants ≡ some g
  unfolding prune_grant
  prune_grant_live id app live valid found =
      ground (arith, lookup-erase_other id gid g app.grants, nat_eq.beq_iff id gid)

  prune_grant_back :
      (id : Uuid) (app : Application)
      → lookup gid (prune_grant id app).grants ≡ some g
      → lookup gid app.grants ≡ some g
  unfolding prune_grant
  prune_grant_back id app found = ground (arith, lookup-erase_back id gid g app.grants)

  pub prune_grants_live :
      (app : Application)
      → g.revoked ≡ false
      → past app.last_time g.spec.expires_at ≡ false
      → lookup gid app.grants ≡ some g
      → lookup gid (prune_grants app).grants ≡ some g
  unfolding prune_grants
  prune_grants_live app live valid found =
      (each_inv prune_grant
        (λ s. (lookup gid s.grants ≡ some g) × (past s.last_time g.spec.expires_at ≡ false))
        (λ id s h. (
          prune_grant_live id s live h.1 h.0,
          subst (λ (t : Application). past t.last_time g.spec.expires_at ≡ false)
              (sym (prune_grant-PrunesGrants id s)) h.1,
        ))
        (keys app.grants) app (found, valid)).0

  pub prune_grants_back :
      (app : Application)
      → lookup gid (prune_grants app).grants ≡ some g
      → lookup gid app.grants ≡ some g
  unfolding prune_grants
  prune_grants_back app =
      each_inv prune_grant (λ s. lookup gid s.grants ≡ some g → lookup gid app.grants ≡ some g)
        (λ id s h later. h (prune_grant_back id s later)) (keys app.grants) app (λ h. h)

-- A delivery that a compaction has to keep: it is unfinished, or within the retry window.
abbrev pub needed : DeliveryAttempt → Option Time → Bool
needed d now = is_none d.status || not (stale d.at now)

module _ (id : Uuid) (d : DeliveryAttempt) where
  prune_delivery-needed :
      (other : Uuid) (app : Application)
      → needed d app.last_time ≡ true
      → lookup id app.deliveries ≡ some d
      → lookup id (prune_delivery other app).deliveries ≡ some d
  unfolding prune_delivery
  prune_delivery-needed other app keep found =
      ground (arith, lookup-erase_other other id d app.deliveries, nat_eq.beq_iff other id)

  prune_delivery_back :
      (other : Uuid) (app : Application)
      → lookup id (prune_delivery other app).deliveries ≡ some d
      → lookup id app.deliveries ≡ some d
  unfolding prune_delivery
  prune_delivery_back other app found = ground (arith, lookup-erase_back other id d app.deliveries)

  pub prune_deliveries-needed :
      (app : Application)
      → needed d app.last_time ≡ true
      → lookup id app.deliveries ≡ some d
      → lookup id (prune_deliveries app).deliveries ≡ some d
  unfolding prune_deliveries
  prune_deliveries-needed app keep found =
      (each_inv prune_delivery
        (λ s. (lookup id s.deliveries ≡ some d) × (needed d s.last_time ≡ true))
        (λ other s h. (
          prune_delivery-needed other s h.1 h.0,
          subst (λ (t : Application). needed d t.last_time ≡ true)
              (sym (prune_delivery-PrunesDeliveries other s)) h.1,
        ))
        (keys app.deliveries) app (found, keep)).0

  pub prune_deliveries_back :
      (app : Application)
      → lookup id (prune_deliveries app).deliveries ≡ some d
      → lookup id app.deliveries ≡ some d
  unfolding prune_deliveries
  prune_deliveries_back app =
      each_inv prune_delivery
        (λ s. lookup id s.deliveries ≡ some d → lookup id app.deliveries ≡ some d)
        (λ other s h later. h (prune_delivery_back other s later)) (keys app.deliveries) app
        (λ h. h)
