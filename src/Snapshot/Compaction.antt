-- ===== src/Snapshot/Compaction.antt =====
-- src/agent/snapshot.rs, `compact` as a whole: what it keeps, and that it makes nothing up.
use credman.Base.{◌≡◌, ap, subst, ◌∙◌, true, false, some, contains, nat_eq}
use credman.Base.Dict.{lookup, NodupKeys}
use credman.Types.{
  Uuid, Application, Record, Grant, TaskApproval, RequestKey, Remembered, DeliveryAttempt, key_eq,
}
use credman.Snapshot.Compact.{stale, compact}
use credman.Snapshot.Rounds.{fold_records-FoldsOnly, prune_grants-PrunesGrants}
use credman.Snapshot.Kept.{
  past, needed, fold_records_fresh, fold_records_back, prune_grants_live, prune_grants_back,
  prune_deliveries-needed, prune_deliveries_back,
}
use credman.Snapshot.Drops.{drop_records_live, drop_records_back, drop_tasks_live, drop_tasks_back}
use credman.Snapshot.Stages.{
  folded, pruned, delivered, remaining, stages_Untouched, compact_records, compact_tasks,
  compact_deliveries, compact_grants, compact_requests, compact_time, compact_frozen,
  compact_generation, compact_predecessor,
}

-- A delivery that is unfinished or in the retry window is kept.
pub compact_needed :
    (id : Uuid) (d : DeliveryAttempt) (app : Application)
    → needed d app.last_time ≡ true
    → lookup id app.deliveries ≡ some d
    → lookup id (compact app).deliveries ≡ some d
compact_needed id d app keep found =
    let f = fold_records-FoldsOnly app in
    let g = prune_grants-PrunesGrants (folded app) in
    rw (compact_deliveries app) (
      prune_deliveries-needed id d (pruned app)
        (rw (ap (λ (x : Application). x.last_time) g)
          (rw (ap (λ (x : Application). x.last_time) f) keep))
        (rw (ap (λ (x : Application). x.deliveries) g)
          (rw (ap (λ (x : Application). x.deliveries) f) found)))

-- A compaction of `app` that loses nothing in use, and has nothing that was not there.
pub record Compacted (app app' : Application) : Type 0 where
  pub live_record :
      (id : Uuid) (r : Record)
      → r.deleted ≡ false
      → lookup id app.records ≡ some r
      → lookup id app'.records ≡ some r
  pub live_task :
      (id : Uuid) (t : TaskApproval)
      → contains app.revoked_tasks id ≡ false
      → past app.last_time t.expires_at ≡ false
      → lookup id app.tasks ≡ some t
      → lookup id app'.tasks ≡ some t
  pub live_grant :
      (id : Uuid) (g : Grant)
      → g.revoked ≡ false
      → past app.last_time g.spec.expires_at ≡ false
      → lookup id app.grants ≡ some g
      → lookup id app'.grants ≡ some g
  pub fresh_request :
      (key : RequestKey) (c : Remembered)
      → stale c.at app.last_time ≡ false
      → lookup key app.requests ≡ some c
      → lookup key app'.requests ≡ some c
  pub needed_delivery :
      (id : Uuid) (d : DeliveryAttempt)
      → needed d app.last_time ≡ true
      → lookup id app.deliveries ≡ some d
      → lookup id app'.deliveries ≡ some d
  pub old_record :
      (id : Uuid) (r : Record) → lookup id app'.records ≡ some r → lookup id app.records ≡ some r
  pub old_task :
      (id : Uuid) (t : TaskApproval) → lookup id app'.tasks ≡ some t → lookup id app.tasks ≡ some t
  pub old_grant :
      (id : Uuid) (g : Grant) → lookup id app'.grants ≡ some g → lookup id app.grants ≡ some g
  pub old_request :
      (key : RequestKey) (c : Remembered)
      → lookup key app'.requests ≡ some c
      → lookup key app.requests ≡ some c
  pub old_delivery :
      (id : Uuid) (d : DeliveryAttempt)
      → lookup id app'.deliveries ≡ some d
      → lookup id app.deliveries ≡ some d
  pub time : app'.last_time ≡ app.last_time
  pub frozen : app'.clock_frozen ≡ app.clock_frozen
  pub generation : app'.generation ≡ app.generation
  pub predecessor : app'.predecessor ≡ app.predecessor

module _ (app : Application) (records : NodupKeys app.records) (tasks : NodupKeys app.tasks) where
  kept_records :
      (id : Uuid) (r : Record)
      → r.deleted ≡ false
      → lookup id app.records ≡ some r
      → lookup id (compact app).records ≡ some r
  kept_records id r live found =
      let u = stages_Untouched app in
      rw (compact_records app)
        (drop_records_live id r (delivered app) (rw u.records records) live (rw u.records found))

  kept_tasks :
      (id : Uuid) (t : TaskApproval)
      → contains app.revoked_tasks id ≡ false
      → past app.last_time t.expires_at ≡ false
      → lookup id app.tasks ≡ some t
      → lookup id (compact app).tasks ≡ some t
  kept_tasks id t approved valid found =
      let u = stages_Untouched app in
      rw (compact_tasks app) (
        drop_tasks_live id t (remaining app) (rw u.tasks tasks) (rw u.revoked approved)
          (rw u.time valid) (rw u.tasks found))

  -- `compact` keeps every record that is not deleted, every task that is neither revoked nor expired,
  -- every grant that is neither revoked nor expired, every receipt within the retry window and every
  -- delivery that is unfinished or within it, all as they are. Each record, task, grant, receipt and
  -- delivery that stands afterwards was there before, unchanged, and so were the clock, the
  -- generation and the predecessor. It is assumed that the maps of records and of tasks have one
  -- entry for a key.
  pub compact-Compacted : Compacted app (compact app)
  compact-Compacted =
      let u = stages_Untouched app in
      let f = fold_records-FoldsOnly app in
      let g = prune_grants-PrunesGrants (folded app) in
      record {
        live_record = kept_records;
        live_task = kept_tasks;
        live_grant = λ id g live valid found. rw (compact_grants app) (
            prune_grants_live id g (folded app) live
              (rw (ap (λ (x : Application). x.last_time) f) valid)
              (rw (ap (λ (x : Application). x.grants) f) found));
        fresh_request = λ key c fresh found.
            rw (compact_requests app) (fold_records_fresh key c app fresh found);
        needed_delivery = λ id d keep found. compact_needed id d app keep found;
        old_record = λ id r h.
            subst (λ d. lookup id d ≡ some r) u.records
              (drop_records_back id r (delivered app)
                (subst (λ d. lookup id d ≡ some r) (compact_records app) h));
        old_task = λ id t h.
            subst (λ d. lookup id d ≡ some t) u.tasks
              (drop_tasks_back id t (remaining app)
                (subst (λ d. lookup id d ≡ some t) (compact_tasks app) h));
        old_grant = λ id x h.
            subst (λ d. lookup id d ≡ some x) (ap (λ (x : Application). x.grants) f)
              (prune_grants_back id x (folded app)
                (subst (λ d. lookup id d ≡ some x) (compact_grants app) h));
        old_request = λ key c h.
            fold_records_back key c app
              (subst (λ d. lookup key d ≡ some c) (compact_requests app) h);
        old_delivery = λ id d h.
            subst (λ m. lookup id m ≡ some d)
              (ap (λ (x : Application). x.deliveries) g ∙ ap (λ (x : Application). x.deliveries) f)
              (prune_deliveries_back id d (pruned app)
                (subst (λ m. lookup id m ≡ some d) (compact_deliveries app) h));
        time = compact_time app;
        frozen = compact_frozen app;
        generation = compact_generation app;
        predecessor = compact_predecessor app;
      }
