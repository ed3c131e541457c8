-- ===== src/Types/Enums.antt =====
-- src/agent/mod.rs: the enumerations, compared by the position of their constructors.
use credman.Base.{ℕ, ◌≡◌, Bool, true, false, List, arith, Eq, eqb, code_iff}

pub data Field : Type 0 where
  label username password api_key notes : Field

pub data Permission : Type 0 where
  metadata_read secret_use secret_read secret_write access_grant entry_delete : Permission

pub data CredentialKind : Type 0 where
  login_kind api_key_kind : CredentialKind

pub data SignupState : Type 0 where
  pending submitted reported_success verified_login rejected human_required unknown : SignupState

pub data DeliveryStatus : Type 0 where
  accepted rejected human_required unknown : DeliveryStatus

pub data PrivateAction : Type 0 where
  use_action register login : PrivateAction

pub data CachedKind : Type 0 where
  create patch metadata_patch delete share revoke report_outcome : CachedKind

pub data AuditAction : Type 0 where
  mutation metadata_read secret_read secret_use : AuditAction

abbrev pub Fields : Type 0
Fields = List Field

abbrev pub Permissions : Type 0
Permissions = List Permission

-- `Field::secret`.
abbrev pub secret : Field → Bool
secret password = true
secret api_key = true
secret _ = false

abbrev field_code : Field → ℕ
field_code label = 0
field_code username = 1
field_code password = 2
field_code api_key = 3
field_code notes = 4

pub field_code_inj : (a b : Field) → field_code a ≡ field_code b → a ≡ b
field_code_inj a b h = ground arith

instance abbrev pub field_eq : Eq Field
field_eq = record {
  beq = λ a b. eqb (field_code a) (field_code b);
  beq_iff = code_iff field_code field_code_inj;
}

abbrev permission_code : Permission → ℕ
permission_code Permission.metadata_read = 0
permission_code Permission.secret_use = 1
permission_code Permission.secret_read = 2
permission_code secret_write = 3
permission_code access_grant = 4
permission_code entry_delete = 5

pub permission_code_inj : (a b : Permission) → permission_code a ≡ permission_code b → a ≡ b
permission_code_inj a b h = ground arith

instance abbrev pub permission_eq : Eq Permission
permission_eq = record {
  beq = λ a b. eqb (permission_code a) (permission_code b);
  beq_iff = code_iff permission_code permission_code_inj;
}

abbrev kind_code : CredentialKind → ℕ
kind_code login_kind = 0
kind_code api_key_kind = 1

pub kind_code_inj : (a b : CredentialKind) → kind_code a ≡ kind_code b → a ≡ b
kind_code_inj a b h = ground arith

instance abbrev pub kind_eq : Eq CredentialKind
kind_eq = record {
  beq = λ a b. eqb (kind_code a) (kind_code b);
  beq_iff = code_iff kind_code kind_code_inj;
}

abbrev signup_code : SignupState → ℕ
signup_code pending = 0
signup_code submitted = 1
signup_code reported_success = 2
signup_code verified_login = 3
signup_code SignupState.rejected = 4
signup_code SignupState.human_required = 5
signup_code SignupState.unknown = 6

pub signup_code_inj : (a b : SignupState) → signup_code a ≡ signup_code b → a ≡ b
signup_code_inj a b h = ground arith

instance abbrev pub signup_eq : Eq SignupState
signup_eq = record {
  beq = λ a b. eqb (signup_code a) (signup_code b);
  beq_iff = code_iff signup_code signup_code_inj;
}

abbrev status_code : DeliveryStatus → ℕ
status_code accepted = 0
status_code DeliveryStatus.rejected = 1
status_code DeliveryStatus.human_required = 2
status_code DeliveryStatus.unknown = 3

pub status_code_inj : (a b : DeliveryStatus) → status_code a ≡ status_code b → a ≡ b
status_code_inj a b h = ground arith

instance abbrev pub status_eq : Eq DeliveryStatus
status_eq = record {
  beq = λ a b. eqb (status_code a) (status_code b);
  beq_iff = code_iff status_code status_code_inj;
}

abbrev action_code : PrivateAction → ℕ
action_code use_action = 0
action_code register = 1
action_code login = 2

pub action_code_inj : (a b : PrivateAction) → action_code a ≡ action_code b → a ≡ b
action_code_inj a b h = ground arith

instance abbrev pub action_eq : Eq PrivateAction
action_eq = record {
  beq = λ a b. eqb (action_code a) (action_code b);
  beq_iff = code_iff action_code action_code_inj;
}

abbrev cached_code : CachedKind → ℕ
cached_code create = 0
cached_code patch = 1
cached_code metadata_patch = 2
cached_code delete = 3
cached_code share = 4
cached_code revoke = 5
cached_code report_outcome = 6

pub cached_code_inj : (a b : CachedKind) → cached_code a ≡ cached_code b → a ≡ b
cached_code_inj a b h = ground arith

instance abbrev pub cached_eq : Eq CachedKind
cached_eq = record {
  beq = λ a b. eqb (cached_code a) (cached_code b);
  beq_iff = code_iff cached_code cached_code_inj;
}
