-- ===== src/Storage/Vault.antt =====
-- src/agent/storage.rs, the methods of `DurableVault` that change it.
use credman.Base.{
  ℕ, ◌+◌, Bool, true, false, ◌&&◌, ◌||◌, not, Option, none, some, eqb, if◌then◌else◌, is_some, ◌!=◌,
  bool_eq,
}
use credman.Base.Int.{pos, leb_ℤ, saturating_sub}
use credman.Result.{
  Result, ok, err, ◌>>=◌, ◌>>◌, reject, map_err, recovery_required,
  not_published as not_published_error, capacity, conflict, invalid_storage,
}
use credman.Exec.{Exec}
use credman.Types.{Time, Application, u64_max}
use credman.Storage.{
  Images, Sealing, Weather, Publication, not_published, durable, unknown, Store, Directory,
  DurableVault, gated,
}
use credman.Storage.Publish.{publish}

-- `CLOCK_PERSIST_INTERVAL`.
abbrev pub clock_persist_interval : Time
clock_persist_interval = pos 60

-- `DurableVault::ready`.
unfoldable pub ready : DurableVault → Result (Unit {0})
ready vault = if vault.frozen || vault.store.blocked then err recovery_required else ok tt

-- `checked_add(1)` of a generation.
unfoldable pub next_generation : Application → Result ℕ
next_generation app = if eqb app.generation u64_max then err capacity else ok (app.generation + 1)

-- Whether the clock's high-water mark has to be persisted.
unfoldable pub due : Option Time → Option Time → Bool
due (some base) (some now) = leb_ℤ clock_persist_interval (saturating_sub now base)
due none none = false
due _ _ = true

-- The `match` on a publication in `commit` and `rekey`.
unfoldable pub settle :
    Application → DurableVault → Publication × Store → Result (Unit {0}) × DurableVault
settle candidate vault (not_published, store) =
    (err not_published_error, record vault { store = store })
settle candidate vault (unknown, store) =
    (err recovery_required, record vault { store = store; frozen = true })
settle candidate vault (durable, store) =
    (ok tt, record vault { app = candidate; store = store; frozen = store.blocked })

-- The end of `apply`: the result of the operation, once its application is committed.
unfoldable pub answer_with {ℓ} :
    {R : Type ℓ} → Result R → Result (Unit {0}) × DurableVault → Result R × DurableVault
answer_with result (err e, after) = (err e, after)
answer_with result (ok _, after) = (result, after)

-- The store that `create_from_app` publishes to first.
abbrev pub first_store : Sealing → Directory → Store
first_store sealing dir = record {
  dir = dir;
  sealing = sealing;
  current_image = none;
  blocked = false;
  persisted_last_time = none;
  persisted_frozen = false;
}

-- The end of `create_from_app`.
unfoldable pub created : Application → Publication × Store → Result DurableVault
created app (durable, store) = ok (record { app = app; store = store; frozen = store.blocked })
created app (not_published, store) = err not_published_error
created app (unknown, store) = err recovery_required

module _ (images : Images) where
  -- `DurableVault::create_from_app`: `acquired` is what `acquire` answers before it examines the
  -- gates, `derived` the derived key with its fresh salt.
  unfoldable pub create_from_app :
      Weather → Result (Unit {0}) → Result Sealing → Application → Directory → Result DurableVault
  create_from_app weather acquired derived app dir = do
    plain ← images.encode app
    acquired
    reject (weather.gate_unreadable || gated dir) recovery_required
    reject (is_some dir.visible) conflict
    sealing ← map_err derived invalid_storage
    created app (publish images weather app (first_store sealing dir))

  -- The checks of `commit` before the publication: the application with its new generation.
  unfoldable pub staged : Application → Application → Result Application
  staged app candidate = do
    generation ← next_generation app
    let next = record candidate { generation = generation }
    images.validate next
    ok next

  -- The publication of `commit`.
  unfoldable pub commit_image : Weather → Application → Exec DurableVault (Unit {0})
  commit_image weather candidate vault = elim (staged vault.app candidate) [
    | err e ↦ (err e, vault)
    | ok next ↦ settle next vault (publish images weather next vault.store)
  ]

  -- Whether `commit` keeps a change of the clock in memory.
  unfoldable pub clock_only : Application → DurableVault → Result Bool
  clock_only candidate vault = do
    same ← images.clock_only_difference vault.app candidate
    ok (
        same
        && not (due vault.store.persisted_last_time candidate.last_time)
        && not (candidate.clock_frozen != vault.store.persisted_frozen))

  -- `DurableVault::commit`.
  unfoldable pub commit : Weather → Application → Exec DurableVault (Unit {0})
  commit weather candidate vault = elim (ready vault >> clock_only candidate vault) [
    | err e ↦ (err e, vault)
    | ok true ↦ (ok tt, record vault { app = record vault.app { last_time = candidate.last_time } })
    | ok false ↦ commit_image weather candidate vault
  ]

  -- The copy that `apply` hands to the operation.
  abbrev pub working_copy : Application → Application
  working_copy app = if images.should_compact app then images.compact app else app

  -- `DurableVault::apply`.
  unfoldable pub apply {ℓ} : {R : Type ℓ} → Weather → Exec Application R → Exec DurableVault R
  apply weather operation vault = elim (ready vault) [
    | err e ↦ (err e, vault)
    | ok _ ↦
        let (result, candidate) = operation (working_copy vault.app) in
        answer_with result (commit weather candidate vault)
  ]
