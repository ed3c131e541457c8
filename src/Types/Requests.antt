-- ===== src/Types/Requests.antt =====
-- src/agent/mod.rs: what a caller asks for.
use credman.Base.{
  ℕ, String, len, Bool, ◌&&◌, ◌||◌, not, Option, List, leb, length, is_empty, any, all, ◌==◌,
  string_eq,
}
use credman.Base.Dict.{Dict, keys}
use credman.Types.Names.{Uuid, Time}
use credman.Types.Enums.{
  Field, username, Fields, Permissions, CredentialKind, SignupState, PrivateAction, secret,
  field_eq,
}

-- `ShareBounds`.
pub record ShareBounds : Type 0 where
  pub recipients : List String
  pub fields : Fields
  pub permissions : Permissions
  pub destinations : List String
  pub expires_at : Time
  pub allow_follow_active : Bool

-- `TaskApproval`.
pub record TaskApproval : Type 0 where
  pub id : Uuid
  pub owner : String
  pub principal : String
  pub workspace : String
  pub service : String
  pub origin : String
  pub fields : Fields
  pub permissions : Permissions
  pub destinations : List String
  pub expires_at : Time
  pub share : Option ShareBounds

-- `SecretInput`: the values of a credential by field.
abbrev pub SecretInput : Type 0
SecretInput = Dict Field String

-- `str::is_empty`.
abbrev pub is_blank : String → Bool
is_blank s = s == ""

-- `SecretInput::metadata_only`.
unfoldable pub metadata_only : SecretInput → Bool
unfolding keys
metadata_only values = all (λ f. not (secret f)) (keys values)

-- `SecretInput::changes_credential`.
unfoldable pub changes_credential : SecretInput → Bool
unfolding keys
changes_credential values = any (λ f. secret f || f == username) (keys values)

-- One entry of `SecretInput::valid`.
abbrev pub valid_entry : Field × String → Bool
valid_entry (f, v) = leb (len v) 8192 && (not (secret f) || not (is_blank v))

-- `SecretInput::valid`.
unfoldable pub valid_input : SecretInput → Bool
valid_input values = not (is_empty values) && leb (length values) 5 && all valid_entry values

-- `GrantSpec`.
pub record GrantSpec : Type 0 where
  pub recipient : String
  pub fields : Fields
  pub permissions : Permissions
  pub destinations : List String
  pub expires_at : Time
  pub follow_active : Bool

-- `GenerationPolicy`, with the length a `u8`.
pub record GenerationPolicy : Type 0 where
  pub length : ℕ
  pub symbols : Bool
  pub require_classes : Bool

-- `GenerationPolicy::valid`.
unfoldable pub valid_policy : GenerationPolicy → Bool
valid_policy p = leb 16 p.length && leb p.length 128

-- `Mutation`.
pub data Mutation : Type 0 where
  create : CredentialKind → SecretInput → Mutation
  generate : CredentialKind → Option String → Option GenerationPolicy → Mutation
  patch : Uuid → ℕ → SecretInput → Mutation
  delete : Uuid → ℕ → Mutation
  share : Uuid → ℕ → GrantSpec → Mutation
  revoke : Uuid → ℕ → Uuid → Mutation
  report_outcome : Uuid → ℕ → SignupState → Mutation

-- `PrivateUse`.
pub record PrivateUse : Type 0 where
  pub request : Uuid
  pub record_id : Uuid
  pub fields : Fields
  pub destination : String
  pub action : PrivateAction
