-- ===== src/Snapshot/Encoding.antt =====
-- src/agent/snapshot.rs: `Snapshot`, `encode`, `decode` and `clock_only_difference`. serde_json is an
-- argument: `to_vec` and `from_slice` on a `Snapshot`.
use credman.Base.{
  ℕ, ◌≡◌, Bool, ◌&&◌, ◌||◌, not, Option, none, some, List, [], ◌∷◌, ◌++◌, ltb, ◌==◌, ◌!=◌, Eq,
  nat_eq, list_eq, if◌then◌else◌, length, any, contains,
}
use credman.Base.Int.{ltb_ℤ}
use credman.Base.Dict.{Dict, values, lookup, contains_key, insert}
use credman.Result.{Result, ok, invalid_storage, capacity, ◌>>=◌, ◌>>◌, reject, ok_or}
use credman.Loops.{fold_each}
use credman.Types.{
  Uuid, Time, Digest, Application, Record, Grant, TaskApproval, RequestKey, Remembered,
  RecordBaseline, DeliveryAttempt, AuditEvent, key_eq,
}
use credman.Application.{Codec}
use credman.Snapshot.Validate.{limit}
use credman.Snapshot.Whole.{validate}

-- `MAX_PLAINTEXT`.
abbrev pub max_plaintext : ℕ
max_plaintext = 16777216

-- `Snapshot`.
pub record Snapshot : Type 0 where
  pub schema : ℕ
  pub generation : ℕ
  pub tasks : List TaskApproval
  pub records : List Record
  pub grants : List (Uuid × Grant)
  pub requests : List (RequestKey × Remembered)
  pub revoked_tasks : List Uuid
  pub deliveries : List (Uuid × DeliveryAttempt)
  pub audit_log : List AuditEvent
  pub last_time : Option Time
  pub clock_frozen : Bool
  pub baselines : List (Uuid × RecordBaseline)
  pub predecessor : Option Digest

pub record Json : Type 0 where
  pub to_vec : Snapshot → Option (List ℕ)
  pub from_slice : List ℕ → Option Snapshot

-- serde_json reads back what it wrote.
abbrev pub ReadsBack : Json → Type 0
ReadsBack json =
    (s : Snapshot) (bytes : List ℕ) → json.to_vec s ≡ some bytes → json.from_slice bytes ≡ some s

unfoldable pub snapshot_of : Application → Snapshot
unfolding values
snapshot_of app = record {
  schema = 3;
  generation = app.generation;
  tasks = values app.tasks;
  records = values app.records;
  grants = app.grants;
  requests = app.requests;
  revoked_tasks = app.revoked_tasks;
  deliveries = app.deliveries;
  audit_log = app.audit_log;
  last_time = app.last_time;
  clock_frozen = app.clock_frozen;
  baselines = app.baselines;
  predecessor = app.predecessor;
}

-- `if map.insert(k, v).is_some() { return Err(InvalidStorage); }`.
unfoldable pub insert_new {ℓ κ} :
    {K : Type ℓ} {V : Type κ} ⦃e : Eq K⦄ → K × V → Dict K V → Result (Dict K V)
unfolding lookup insert
insert_new (k, v) d = do reject (contains_key k d) invalid_storage; ok (insert k v d)

-- The same of a set, which is listed in the order of the snapshot.
unfoldable pub insert_new_member : Uuid → List Uuid → Result (List Uuid)
insert_new_member id set = do reject (contains set id) invalid_storage; ok (set ++ id ∷ [])

-- `if r.at.is_none() { r.at = app.last_time; }`.
abbrev pub dated : Option Time → Option Time → Option Time
dated last none = last
dated last (some at) = some at

abbrev pub date_request : Option Time → Remembered → Remembered
date_request last r = record r { at = dated last r.at }

abbrev pub date_delivery : Option Time → DeliveryAttempt → DeliveryAttempt
date_delivery last d = record d { at = dated last d.at }

-- The checks of `decode` on the snapshot itself.
unfoldable pub acceptable : Snapshot → Bool
acceptable s = not (
    (s.schema != 2 && s.schema != 3)
    || s.generation == 0
    || any (ltb limit) (
        length s.tasks
        ∷ length s.records
        ∷ length s.grants
        ∷ length s.requests
        ∷ length s.revoked_tasks
        ∷ length s.deliveries
        ∷ length s.audit_log
        ∷ length s.baselines
        ∷ []))

-- The later of two high-water marks, where none is below every other.
abbrev pub later_mark : Option Time → Option Time → Option Time
later_mark none b = b
later_mark (some a) none = some a
later_mark (some a) (some b) = if ltb_ℤ b a then some a else some b

module _ (json : Json) (codec : Codec) where
  -- `encode`.
  unfoldable pub encode : Application → Result (List ℕ)
  unfolding validate snapshot_of
  encode app = do
    validate codec app
    bytes ← ok_or (json.to_vec (snapshot_of app)) invalid_storage
    reject (ltb max_plaintext (length bytes)) capacity
    ok bytes

  -- The loops of `decode`, which fill an application.
  unfoldable pub restore : Snapshot → Result Application
  unfolding fold_each insert_new insert_new_member
  restore s = do
    tasks ← fold_each (λ t. insert_new (t.id, t)) s.tasks []
    records ← fold_each (λ r. insert_new (r.id, r)) s.records []
    grants ← fold_each insert_new s.grants []
    requests ←
        fold_each
          (λ (entry : RequestKey × Remembered).
            insert_new (entry.0, date_request s.last_time entry.1))
          s.requests []
    revoked_tasks ← fold_each insert_new_member s.revoked_tasks []
    deliveries ←
        fold_each
          (λ (entry : Uuid × DeliveryAttempt).
            insert_new (entry.0, date_delivery s.last_time entry.1))
          s.deliveries []
    baselines ← fold_each insert_new s.baselines []
    ok (record {
      tasks = tasks;
      records = records;
      grants = grants;
      requests = requests;
      audit_log = s.audit_log;
      last_time = s.last_time;
      clock_frozen = s.clock_frozen;
      generation = s.generation;
      revoked_tasks = revoked_tasks;
      deliveries = deliveries;
      baselines = baselines;
      predecessor = s.predecessor;
    })

  -- `decode`.
  unfoldable pub decode : List ℕ → Result Application
  unfolding validate acceptable restore
  decode bytes = do
    reject (ltb max_plaintext (length bytes)) invalid_storage
    s ← ok_or (json.from_slice bytes) invalid_storage
    reject (not (acceptable s)) invalid_storage
    app ← restore s
    validate codec app
    ok app

  -- `clock_only_difference`.
  unfoldable pub clock_only_difference : Application → Application → Result Bool
  unfolding encode
  clock_only_difference current candidate = do
    let high = later_mark current.last_time candidate.last_time
    left ← encode (record current { last_time = high; generation = 1 })
    right ← encode (record candidate { last_time = high; generation = 1 })
    ok (left == right)
