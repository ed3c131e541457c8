-- ===== src/Snapshot/Stages.antt =====
-- src/agent/snapshot.rs, `compact`: the states between its loops, and where each field of the result comes from.
use credman.Base.{◌≡◌, refl, ap, ◌∙◌, nat_eq}
use credman.Types.{Application, key_eq}
use credman.Snapshot.Compact.{
  fold_records, prune_grants, prune_deliveries, drop_records, drop_tasks, settle_history, compact,
}
use credman.Snapshot.Rounds.{
  fold_records-FoldsOnly, prune_grants-PrunesGrants, prune_deliveries-PrunesDeliveries,
  drop_records-DropsRecords, drop_tasks-DropsTasks,
}

-- The fields that reach a stage of `compact` as they were.
pub record Untouched (app a3 a4 : Application) : Type 0 where
  pub records : a3.records ≡ app.records
  pub tasks : a4.tasks ≡ app.tasks
  pub revoked : a4.revoked_tasks ≡ app.revoked_tasks
  pub time : a4.last_time ≡ app.last_time

module _ (app : Application) where
  abbrev pub folded : Application
  folded = fold_records app

  abbrev pub pruned : Application
  pruned = prune_grants folded

  abbrev pub delivered : Application
  delivered = prune_deliveries pruned

  abbrev pub remaining : Application
  remaining = drop_records delivered

  pub stages_Untouched : Untouched app delivered remaining
  stages_Untouched =
      let f = fold_records-FoldsOnly app in
      let g = prune_grants-PrunesGrants folded in
      let d = prune_deliveries-PrunesDeliveries pruned in
      let r = drop_records-DropsRecords delivered in
      record {
        records =
            ap (λ (x : Application). x.records) d
            ∙ ap (λ (x : Application). x.records) g
            ∙ ap (λ (x : Application). x.records) f;
        tasks =
            ap (λ (x : Application). x.tasks) r
            ∙ ap (λ (x : Application). x.tasks) d
            ∙ ap (λ (x : Application). x.tasks) g
            ∙ ap (λ (x : Application). x.tasks) f;
        revoked =
            ap (λ (x : Application). x.revoked_tasks) r
            ∙ ap (λ (x : Application). x.revoked_tasks) d
            ∙ ap (λ (x : Application). x.revoked_tasks) g
            ∙ ap (λ (x : Application). x.revoked_tasks) f;
        time =
            ap (λ (x : Application). x.last_time) r
            ∙ ap (λ (x : Application). x.last_time) d
            ∙ ap (λ (x : Application). x.last_time) g
            ∙ ap (λ (x : Application). x.last_time) f;
      }

  -- Where each map of the result comes from.
  pub compact_records : (compact app).records ≡ remaining.records
  unfolding compact settle_history
  compact_records = ap (λ (x : Application). x.records) (drop_tasks-DropsTasks remaining)

  pub compact_tasks : (compact app).tasks ≡ (drop_tasks remaining).tasks
  unfolding compact settle_history
  compact_tasks = refl

  pub compact_deliveries : (compact app).deliveries ≡ delivered.deliveries
  unfolding compact settle_history
  compact_deliveries =
      ap (λ (x : Application). x.deliveries) (drop_tasks-DropsTasks remaining)
      ∙ ap (λ (x : Application). x.deliveries) (drop_records-DropsRecords delivered)

  pub compact_grants : (compact app).grants ≡ pruned.grants
  unfolding compact settle_history
  compact_grants =
      ap (λ (x : Application). x.grants) (drop_tasks-DropsTasks remaining)
      ∙ ap (λ (x : Application). x.grants) (drop_records-DropsRecords delivered)
      ∙ ap (λ (x : Application). x.grants) (prune_deliveries-PrunesDeliveries pruned)

  pub compact_requests : (compact app).requests ≡ folded.requests
  unfolding compact settle_history
  compact_requests =
      ap (λ (x : Application). x.requests) (drop_tasks-DropsTasks remaining)
      ∙ ap (λ (x : Application). x.requests) (drop_records-DropsRecords delivered)
      ∙ ap (λ (x : Application). x.requests) (prune_deliveries-PrunesDeliveries pruned)
      ∙ ap (λ (x : Application). x.requests) (prune_grants-PrunesGrants folded)

  pub compact_time : (compact app).last_time ≡ app.last_time
  unfolding compact settle_history
  compact_time =
      ap (λ (x : Application). x.last_time) (drop_tasks-DropsTasks remaining)
      ∙ ap (λ (x : Application). x.last_time) (drop_records-DropsRecords delivered)
      ∙ ap (λ (x : Application). x.last_time) (prune_deliveries-PrunesDeliveries pruned)
      ∙ ap (λ (x : Application). x.last_time) (prune_grants-PrunesGrants folded)
      ∙ ap (λ (x : Application). x.last_time) (fold_records-FoldsOnly app)

  pub compact_frozen : (compact app).clock_frozen ≡ app.clock_frozen
  unfolding compact settle_history
  compact_frozen =
      ap (λ (x : Application). x.clock_frozen) (drop_tasks-DropsTasks remaining)
      ∙ ap (λ (x : Application). x.clock_frozen) (drop_records-DropsRecords delivered)
      ∙ ap (λ (x : Application). x.clock_frozen) (prune_deliveries-PrunesDeliveries pruned)
      ∙ ap (λ (x : Application). x.clock_frozen) (prune_grants-PrunesGrants folded)
      ∙ ap (λ (x : Application). x.clock_frozen) (fold_records-FoldsOnly app)

  pub compact_generation : (compact app).generation ≡ app.generation
  unfolding compact settle_history
  compact_generation =
      ap (λ (x : Application). x.generation) (drop_tasks-DropsTasks remaining)
      ∙ ap (λ (x : Application). x.generation) (drop_records-DropsRecords delivered)
      ∙ ap (λ (x : Application). x.generation) (prune_deliveries-PrunesDeliveries pruned)
      ∙ ap (λ (x : Application). x.generation) (prune_grants-PrunesGrants folded)
      ∙ ap (λ (x : Application). x.generation) (fold_records-FoldsOnly app)

  pub compact_predecessor : (compact app).predecessor ≡ app.predecessor
  unfolding compact settle_history
  compact_predecessor =
      ap (λ (x : Application). x.predecessor) (drop_tasks-DropsTasks remaining)
      ∙ ap (λ (x : Application). x.predecessor) (drop_records-DropsRecords delivered)
      ∙ ap (λ (x : Application). x.predecessor) (prune_deliveries-PrunesDeliveries pruned)
      ∙ ap (λ (x : Application). x.predecessor) (prune_grants-PrunesGrants folded)
      ∙ ap (λ (x : Application). x.predecessor) (fold_records-FoldsOnly app)
