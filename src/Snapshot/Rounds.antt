-- ===== src/Snapshot/Rounds.antt =====
-- src/agent/snapshot.rs, `compact`: what each of its loops leaves alone, and what it drops.
use credman.Base.{◌≡◌, refl, arith, nat_eq, filter}
use credman.Base.Dict.{keys}
use credman.Base.Order.{each_inv}
use credman.Types.{Uuid, Application, key_eq}
use credman.Snapshot.Compact.{
  fold_record, fold_records, prune_grant, prune_grants, prune_delivery, prune_deliveries,
  drop_record, drop_records, drop_task, drop_tasks, removed_tasks, dropped,
}

-- The fields that a loop may write.
abbrev pub FoldsOnly : Application → Application → Type 0
FoldsOnly a b = b ≡ record a { requests = b.requests; baselines = b.baselines }

abbrev pub PrunesGrants : Application → Application → Type 0
PrunesGrants a b = b ≡ record a { grants = b.grants; baselines = b.baselines }

abbrev pub PrunesDeliveries : Application → Application → Type 0
PrunesDeliveries a b = b ≡ record a { deliveries = b.deliveries; baselines = b.baselines }

abbrev pub DropsRecords : Application → Application → Type 0
DropsRecords a b = b ≡ record a { records = b.records; baselines = b.baselines }

abbrev pub DropsTasks : Application → Application → Type 0
DropsTasks a b = b ≡ record a { tasks = b.tasks; revoked_tasks = b.revoked_tasks }

pub fold_record-FoldsOnly : (id : Uuid) (app : Application) → FoldsOnly app (fold_record id app)
unfolding fold_record
fold_record-FoldsOnly id app = ground arith

pub fold_records-FoldsOnly : (app : Application) → FoldsOnly app (fold_records app)
unfolding fold_records
fold_records-FoldsOnly app =
    each_inv fold_record (FoldsOnly app) (λ id b h. ground (arith, fold_record-FoldsOnly id b))
      (keys app.records) app refl

pub prune_grant-PrunesGrants :
    (id : Uuid) (app : Application) → PrunesGrants app (prune_grant id app)
unfolding prune_grant
prune_grant-PrunesGrants id app = ground arith

pub prune_grants-PrunesGrants : (app : Application) → PrunesGrants app (prune_grants app)
unfolding prune_grants
prune_grants-PrunesGrants app =
    each_inv prune_grant (PrunesGrants app)
      (λ id b h. ground (arith, prune_grant-PrunesGrants id b)) (keys app.grants) app refl

pub prune_delivery-PrunesDeliveries :
    (id : Uuid) (app : Application) → PrunesDeliveries app (prune_delivery id app)
unfolding prune_delivery
prune_delivery-PrunesDeliveries id app = ground arith

pub prune_deliveries-PrunesDeliveries :
    (app : Application) → PrunesDeliveries app (prune_deliveries app)
unfolding prune_deliveries
prune_deliveries-PrunesDeliveries app =
    each_inv prune_delivery (PrunesDeliveries app)
      (λ id b h. ground (arith, prune_delivery-PrunesDeliveries id b)) (keys app.deliveries) app
      refl

pub drop_records-DropsRecords : (app : Application) → DropsRecords app (drop_records app)
unfolding drop_records
drop_records-DropsRecords app =
    each_inv drop_record (DropsRecords app) (λ id b h. ground arith)
      (keys (filter (dropped app) app.records)) app refl

pub drop_tasks-DropsTasks : (app : Application) → DropsTasks app (drop_tasks app)
unfolding drop_tasks
drop_tasks-DropsTasks app =
    let h =
      each_inv drop_task (DropsTasks app) (λ id b h. ground arith) (removed_tasks app) app refl in
    ground arith
