-- ===== src/Types/Names.antt =====
-- src/agent/mod.rs: identifiers, clock values and authenticated contexts.
use credman.Base.{
  ℕ, ◌≡◌, ◌↔◌, String, Bool, true, false, ◌&&◌, Option, none, some, List, eqb, arith, Eq,
}
use credman.Base.Int.{ℤ, pos, leb_ℤ, eq_of_parts}

-- `Uuid`: a 128-bit number, with `Uuid::nil()` = 0.
abbrev pub Uuid : Type 0
Uuid = ℕ

abbrev pub nil : Uuid
nil = 0

-- `Uuid::is_nil`.
abbrev pub is_nil : Uuid → Bool
is_nil id = eqb id nil

-- `[u8; 32]`, a SHA-256 value.
abbrev pub Digest : Type 0
Digest = List ℕ

-- `Time`, an `i64` of seconds.
abbrev pub Time : Type 0
Time = ℤ

abbrev time_beq : Time → Time → Bool
time_beq a b = leb_ℤ a b && leb_ℤ b a

pub time_beq_iff : (a b : Time) → (time_beq a b ≡ true) ↔ (a ≡ b)
time_beq_iff a b = (λ h. eq_of_parts a b (ground arith), λ h. ground arith)

instance abbrev pub time_eq : Eq Time
time_eq = record { beq = time_beq; beq_iff = time_beq_iff }

abbrev pub clock_skew_tolerance : Time
clock_skew_tolerance = pos 5

-- `AuthenticatedContext`.
pub record AuthenticatedContext : Type 0 where
  pub owner : String
  pub principal : String
  pub workspace : String
  pub admin : Bool
  pub session_deadline : Option Time

unfoldable pub from_authenticated_peer : String → String → String → AuthenticatedContext
from_authenticated_peer owner principal workspace = record {
  owner = owner;
  principal = principal;
  workspace = workspace;
  admin = false;
  session_deadline = none;
}

unfoldable pub from_authenticated_session : String → String → String → Time → AuthenticatedContext
from_authenticated_session owner principal workspace deadline = record {
  owner = owner;
  principal = principal;
  workspace = workspace;
  admin = false;
  session_deadline = some deadline;
}

unfoldable pub from_authenticated_admin : String → String → String → AuthenticatedContext
from_authenticated_admin owner principal workspace = record {
  owner = owner;
  principal = principal;
  workspace = workspace;
  admin = true;
  session_deadline = none;
}
