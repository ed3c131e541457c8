-- ===== src/Snapshot/Drops.antt =====
-- src/agent/snapshot.rs, `compact`: the records and the tasks that it drops, and those that it spares.
use credman.Base.{
  ◌≡◌, false, ◌&&◌, not, some, List, [], ◌∷◌, arith, inl, inr, Bool-cases, Option-cases, contains,
  ◌!=◌, nat_eq, is_empty, filter, eqb, length,
}
use credman.Base.Dict.{lookup, keys, values, NodupKeys}
use credman.Base.Order.{each, each_inv}
use credman.Base.Retain.{
  lookup-erase_other, lookup-erase_back, keys-filter_refused, contains-filter_absent,
}
use credman.Types.{Uuid, Application, Record, TaskApproval, key_eq}
use credman.Snapshot.Compact.{
  drop_record, drop_records, drop_task, drop_tasks, removed_tasks, removable, dropped, latest_task,
}
use credman.Snapshot.Kept.{past}

module _ (id : Uuid) where
  drop_record_others :
      (r : Record) (ids : List Uuid) (app : Application)
      → contains ids id ≡ false
      → lookup id app.records ≡ some r
      → lookup id (each drop_record ids app).records ≡ some r
  unfolding each
  drop_record_others r [] app absent found = found
  drop_record_others r (x ∷ ids) app absent found =
      drop_record_others r ids (drop_record x app) (ground arith)
        (lookup-erase_other x id r app.records (ground arith) found)

  pub drop_records_live :
      (r : Record) (app : Application)
      → NodupKeys app.records
      → r.deleted ≡ false
      → lookup id app.records ≡ some r
      → lookup id (drop_records app).records ≡ some r
  unfolding drop_records
  drop_records_live r app u live found =
      drop_record_others r (keys (filter (dropped app) app.records)) app
        (keys-filter_refused (dropped app) id r app.records u found
          (unfold dropped in ground arith))
        found

  pub drop_records_back :
      (r : Record) (app : Application)
      → lookup id (drop_records app).records ≡ some r
      → lookup id app.records ≡ some r
  unfolding drop_records
  drop_records_back r app =
      each_inv drop_record (λ s. lookup id s.records ≡ some r → lookup id app.records ≡ some r)
        (λ x s h later. h (lookup-erase_back x id r s.records later))
        (keys (filter (dropped app) app.records)) app (λ h. h)

  drop_task_others :
      (t : TaskApproval) (ids : List Uuid) (app : Application)
      → contains ids id ≡ false
      → lookup id app.tasks ≡ some t
      → lookup id (each drop_task ids app).tasks ≡ some t
  unfolding each
  drop_task_others t [] app absent found = found
  drop_task_others t (x ∷ ids) app absent found =
      drop_task_others t ids (drop_task x app) (ground arith)
        (lookup-erase_other x id t app.tasks (ground arith) found)

  removed_tasks_spare :
      (app : Application)
      → contains (keys (filter (removable app) app.tasks)) id ≡ false
      → contains (removed_tasks app) id ≡ false
  unfolding removed_tasks
  removed_tasks_spare app absent =
      let remove = keys (filter (removable app) app.tasks) in
      elim (Bool-cases (not (is_empty app.tasks) && eqb (length remove) (length app.tasks))) [
        | inr some_stay ↦ rw some_stay absent
        | inl all_go ↦ rw all_go (elim (Option-cases (latest_task (values app.tasks))) [
          | inl nobody ↦ rw nobody absent
          | inr (keep, latest) ↦
              rw latest (contains-filter_absent (λ (x : Uuid). x != keep.id) remove id absent)
        ])
      ]

  pub drop_tasks_live :
      (t : TaskApproval) (app : Application)
      → NodupKeys app.tasks
      → contains app.revoked_tasks id ≡ false
      → past app.last_time t.expires_at ≡ false
      → lookup id app.tasks ≡ some t
      → lookup id (drop_tasks app).tasks ≡ some t
  unfolding drop_tasks
  drop_tasks_live t app u approved valid found =
      drop_task_others t (removed_tasks app) app
        (removed_tasks_spare app (
          keys-filter_refused (removable app) id t app.tasks u found
            (unfold removable in ground arith)))
        found

  pub drop_tasks_back :
      (t : TaskApproval) (app : Application)
      → lookup id (drop_tasks app).tasks ≡ some t
      → lookup id app.tasks ≡ some t
  unfolding drop_tasks
  drop_tasks_back t app =
      each_inv drop_task (λ s. lookup id s.tasks ≡ some t → lookup id app.tasks ≡ some t)
        (λ x s h later. h (lookup-erase_back x id t s.tasks later)) (removed_tasks app) app (λ h. h)
