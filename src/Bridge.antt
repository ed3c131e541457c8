-- ===== src/Bridge.antt =====
-- src/agent_bridge.rs, `Sessions`: the sessions that a human issues to agents, each attached once by
-- its token. SHA-256, the random source, `Uuid::new_v4`, the vault's check of the tasks and the
-- messages on the channel are arguments.
pub mod Attach
pub mod Digests
pub mod Outcome
pub mod Reach
pub mod Bounds
use Prim.Native.Nat.{bit_or, bit_xor}
use Prim.Native.Char.{Char, code}
use credman.Base.{
  ℕ, suc, ◌+◌, ◌*◌, ◌/◌, ◌%◌, String, len, Bool, true, false, ◌&&◌, ◌||◌, not, Option, none, some,
  List, [], ◌∷◌, ◌++◌, map, ltb, leb, eqb, ◌==◌, ◌!=◌, string_eq, nat_eq, if◌then◌else◌, length,
  is_empty, is_none, all, filter, is_some_and, contains, insert_set,
}
use credman.Base.Int.{ℤ, pos, ltb_ℤ, leb_ℤ, ◌-ℤ◌, i64_max, i64_min}
use credman.Base.Dict.{Dict, lookup, insert, erase, values}
use credman.Result.{Result, ok, err, denied, invalid, capacity, interaction_required}
use credman.Exec.{Exec, ◌>>=◌, ◌>>◌, pure, raise, reads, refuse, modify}
use credman.Types.{Uuid, Time, Digest, nil, AuthenticatedContext, from_authenticated_session}
use credman.Generation.{chars, text, get_elem?}

-- `Session`: `digest` is there until the session is attached.
pub record Session : Type 0 where
  pub digest : Option Digest
  pub principal : String
  pub tasks : List Uuid
  pub expires_at : Time

-- `Sessions`.
pub record Sessions : Type 0 where
  pub entries : Dict Uuid Session
  pub owner : String
  pub workspace : String
  pub admin : String
  pub socket : Option String
  pub deadline : Time

-- What `issue` answers.
pub record Issued : Type 0 where
  pub id : Uuid
  pub socket : String
  pub token : String
  pub expires_at : Time

-- `Sessions::new`.
abbrev pub new_sessions : String → String → String → Option String → Time → Sessions
new_sessions owner workspace admin socket deadline = record {
  entries = [];
  owner = owner;
  workspace = workspace;
  admin = admin;
  socket = socket;
  deadline = deadline;
}

abbrev pub max_sessions : ℕ
max_sessions = 32

abbrev pub max_tasks : ℕ
max_tasks = 64

-- `char::is_whitespace`.
abbrev pub is_whitespace : Char → Bool
is_whitespace c =
    (leb 9 (code c) && leb (code c) 13)
    || (leb 0x2000 (code c) && leb (code c) 0x200A)
    || contains (0x20 ∷ 0x85 ∷ 0xA0 ∷ 0x1680 ∷ 0x2028 ∷ 0x2029 ∷ 0x202F ∷ 0x205F ∷ 0x3000 ∷ [])
        (code c)

-- `tasks.iter().copied().collect::<BTreeSet<_>>()`.
abbrev pub set_of : List Uuid → List Uuid
set_of [] = []
set_of (task ∷ tasks) = insert_set task (set_of tasks)

abbrev pub later : Time → Uuid × Session → Bool
later now (id, s) = ltb_ℤ now s.expires_at

-- `self.entries.retain(|_, s| s.expires_at > now)`.
unfoldable pub drop_expired : Time → Sessions → Sessions
drop_expired now s = record s { entries = filter (later now) s.entries }

-- The condition under which `issue` answers `Error::Invalid`.
unfoldable pub malformed_issue : String → List Uuid → Time → Time → Sessions → Bool
malformed_issue principal tasks expires_at now s =
    let allowed = set_of tasks in
    all is_whitespace (chars principal)
    || ltb 2048 (len principal)
    || principal == s.admin
    || is_empty tasks
    || ltb max_tasks (length tasks)
    || length allowed != length tasks
    || contains allowed nil
    || leb_ℤ expires_at now
    || ltb_ℤ s.deadline expires_at

-- `format!("{b:02x}")` for every byte.
abbrev pub hex_digits : List Char
hex_digits = chars "0123456789abcdef"

abbrev pub hex_digit : ℕ → List Char
hex_digit n = elim (get_elem? hex_digits n) [ none ↦ [] | some c ↦ c ∷ [] ]

unfoldable pub hex : List ℕ → List Char
hex [] = []
hex (byte ∷ bytes) = hex_digit (byte / 16) ++ hex_digit (byte % 16) ++ hex bytes

-- A random source that answers, or fails.
abbrev fill : Option (List ℕ) → Exec Sessions (List ℕ)
fill none = raise interaction_required
fill (some bytes) = pure bytes

abbrev socket_of : Sessions → Result String
socket_of s = elim s.socket [ none ↦ err interaction_required | some path ↦ ok path ]

unfoldable pub add_session : Uuid → Session → Sessions → Sessions
unfolding insert
add_session id entry s = record s { entries = insert id entry s.entries }

module _ (sha256 : List Char → Digest) where
  -- `Sessions::issue`.
  unfoldable pub issue :
      Option (List ℕ)
      → Uuid
      → (List Uuid → String → Result (Unit {0}))
      → String
      → List Uuid
      → Time
      → Time
      → Exec Sessions Issued
  unfolding insert add_session
  issue random fresh tasks_valid principal tasks expires_at now = do
    modify (drop_expired now)
    malformed ← reads (λ s. ok (malformed_issue principal tasks expires_at now s))
    refuse malformed invalid
    reads (λ s. tasks_valid tasks principal)
    socket ← reads socket_of
    full ← reads (λ s. ok (leb max_sessions (length s.entries)))
    refuse full capacity
    bytes ← fill random
    modify (
        add_session fresh (record {
          digest = some (sha256 (hex bytes));
          principal = principal;
          tasks = set_of tasks;
          expires_at = expires_at;
        }))
    pure (record { id = fresh; socket = socket; token = text (hex bytes); expires_at = expires_at })

-- `Sessions::revoke`.
unfoldable pub revoke_session : Uuid → Sessions → Sessions
unfolding erase
revoke_session id s = record s { entries = erase id s.entries }

-- One step of the fold of `census`.
abbrev pub count_session : Time → Session → ℕ × ℕ → ℕ × ℕ
count_session now s (live, pending) =
    if leb_ℤ s.expires_at now
    then (live, pending)
    else if is_none s.digest
    then (live + 1, pending)
    else (live, pending + 1)

-- The fold of `census`, with its accumulator.
unfoldable pub census_from : Time → List Session → ℕ × ℕ → ℕ × ℕ
census_from now [] counts = counts
census_from now (s ∷ rest) counts = census_from now rest (count_session now s counts)

-- `Sessions::census`.
unfoldable pub census : Sessions → Time → ℕ × ℕ
unfolding values
census s now = census_from now (values s.entries) (0, 0)

-- `Sessions::live`.
unfoldable pub live : Sessions → Uuid → Time → Bool
unfolding lookup
live s id now = is_some_and (lookup id s.entries) (λ e. ltb_ℤ now e.expires_at && is_none e.digest)

-- `Sessions::permits`.
unfoldable pub permits : Sessions → Uuid → Uuid → Time → Bool
unfolding lookup
permits s id task now =
    live s id now && is_some_and (lookup id s.entries) (λ e. contains e.tasks task)
