-- ===== src/Types/State.antt =====
-- src/agent/mod.rs: what the vault keeps.
use credman.Base.{
  ℕ, ◌≡◌, ◌↔◌, String, Bool, true, false, ◌&&◌, Option, none, List, [], arith, Eq, ◌==◌, nat_eq,
  string_eq,
}
use credman.Base.Dict.{Dict}
use credman.Types.Names.{Uuid, Time, Digest}
use credman.Types.Enums.{
  Fields, CredentialKind, SignupState, DeliveryStatus, PrivateAction, CachedKind, AuditAction,
}
use credman.Types.Requests.{TaskApproval, SecretInput, GrantSpec}

-- `u64::MAX`.
abbrev pub u64_max : ℕ
u64_max = 18446744073709551615

-- `Record`.
pub record Record : Type 0 where
  pub id : Uuid
  pub owner : String
  pub workspace : String
  pub created_by : String
  pub task : Uuid
  pub service : String
  pub origin : String
  pub kind : CredentialKind
  pub revision : ℕ
  pub secret_version : ℕ
  pub values : SecretInput
  pub signup : SignupState
  pub deleted : Bool
  pub restored : Bool

-- `Grant`.
pub record Grant : Type 0 where
  pub record_id : Uuid
  pub spec : GrantSpec
  pub revoked : Bool
  pub version : ℕ
  pub issuer_task : Uuid
  pub admin_issued : Bool

-- `Receipt`.
pub record Receipt : Type 0 where
  pub record_id : Uuid
  pub revision : ℕ
  pub grant : Option Uuid

-- `MetadataView`.
pub record MetadataView : Type 0 where
  pub revision : ℕ
  pub signup : SignupState
  pub fields : SecretInput

-- `DeliveryReceipt`.
pub record DeliveryReceipt : Type 0 where
  pub attempt : Uuid
  pub status : DeliveryStatus

-- `RequestKey`.
pub record RequestKey : Type 0 where
  pub owner : String
  pub principal : String
  pub task : Uuid
  pub id : Uuid

abbrev key_beq : RequestKey → RequestKey → Bool
key_beq a b = a.owner == b.owner && a.principal == b.principal && a.task == b.task && a.id == b.id

pub key_beq_iff : (a b : RequestKey) → (key_beq a b ≡ true) ↔ (a ≡ b)
key_beq_iff a b = ground (
  arith,
  string_eq.beq_iff a.owner b.owner,
  string_eq.beq_iff a.principal b.principal,
  nat_eq.beq_iff a.task b.task,
  nat_eq.beq_iff a.id b.id,
)

instance abbrev pub key_eq : Eq RequestKey
key_eq = record { beq = key_beq; beq_iff = key_beq_iff }

-- `Remembered`.
pub record Remembered : Type 0 where
  pub fingerprint : Digest
  pub result : Receipt
  pub kind : CachedKind
  pub at : Option Time

-- `RecordBaseline`.
pub record RecordBaseline : Type 0 where
  pub through : ℕ
  pub secret_version : ℕ
  pub delete_pruned : Bool
  pub pruned_grants : List Uuid
  pub registration_dispatched : Bool
  pub verified_login : Bool

-- `DeliveryAttempt`.
pub record DeliveryAttempt : Type 0 where
  pub task : Uuid
  pub record_id : Uuid
  pub version : ℕ
  pub destination : String
  pub fields : Fields
  pub status : Option DeliveryStatus
  pub key : RequestKey
  pub fingerprint : Digest
  pub action : PrivateAction
  pub dispatched : Bool
  pub at : Option Time

-- `AuditEvent`.
pub record AuditEvent : Type 0 where
  pub task : Uuid
  pub record_id : Uuid
  pub request : Option Uuid
  pub action : AuditAction
  pub at : Time
  pub principal : String

-- `Application`.
pub record Application : Type 0 where
  pub tasks : Dict Uuid TaskApproval
  pub records : Dict Uuid Record
  pub grants : Dict Uuid Grant
  pub requests : Dict RequestKey Remembered
  pub audit_log : List AuditEvent
  pub last_time : Option Time
  pub clock_frozen : Bool
  pub generation : ℕ
  pub revoked_tasks : List Uuid
  pub deliveries : Dict Uuid DeliveryAttempt
  pub baselines : Dict Uuid RecordBaseline
  pub predecessor : Option Digest

-- `Application::default`.
abbrev pub empty_application : Application
empty_application = record {
  tasks = [];
  records = [];
  grants = [];
  requests = [];
  audit_log = [];
  last_time = none;
  clock_frozen = false;
  generation = 0;
  revoked_tasks = [];
  deliveries = [];
  baselines = [];
  predecessor = none;
}
