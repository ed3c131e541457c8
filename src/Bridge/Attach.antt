-- ===== src/Bridge/Attach.antt =====
-- src/agent_bridge.rs: `Sessions::attach` and `admit`, which admit an agent by its token, and
-- `frontend_deadline`.
use Prim.Native.Nat.{bit_or, bit_xor}
use Prim.Native.Char.{Char, code}
use credman.Base.{
  ℕ, String, len, Bool, true, false, ◌&&◌, ◌||◌, not, Option, none, some, List, [], ◌∷◌, leb, eqb,
  ◌!=◌, string_eq, nat_eq, if◌then◌else◌, all, is_some_and,
}
use credman.Base.Int.{ℤ, pos, ltb_ℤ, leb_ℤ, ◌-ℤ◌, pos_part, i64_max, i64_min}
use credman.Base.Dict.{Dict, insert}
use credman.Result.{Result, ok, err, denied, invalid}
use credman.Exec.{Exec}
use credman.Types.{Uuid, Time, Digest, AuthenticatedContext, from_authenticated_session}
use credman.Generation.{chars}
use credman.Bridge.{Session, Sessions, revoke_session}

-- The comparison of two digests that takes the same time for all of one length.
unfoldable pub difference : Digest → Digest → ℕ → ℕ
difference (a ∷ left) (b ∷ right) seen = difference left right (bit_or seen (bit_xor a b))
difference _ _ seen = seen

abbrev pub same_digest : Digest → Digest → Bool
same_digest expected digest = eqb (difference expected digest 0) 0

-- `b.is_ascii_hexdigit() && !b.is_ascii_uppercase()`.
abbrev pub is_token_char : Char → Bool
is_token_char c = (leb 48 (code c) && leb (code c) 57) || (leb 97 (code c) && leb (code c) 102)

-- The test of the search of `attach` for a session.
abbrev pub awaits : Digest → Time → Session → Bool
awaits digest now s = ltb_ℤ now s.expires_at && is_some_and s.digest (λ e. same_digest e digest)

unfoldable pub find_session : Digest → Time → Dict Uuid Session → Option (Uuid × Session)
find_session digest now [] = none
find_session digest now ((id, s) ∷ rest) =
    if awaits digest now s then some (id, s) else find_session digest now rest

-- The end of `admit`: an agent that does not get the answer loses its session.
unfoldable pub answer_attach :
    Bool
    → Result (Uuid × AuthenticatedContext) × Sessions
    → Result (Uuid × AuthenticatedContext) × Sessions
unfolding revoke_session
answer_attach sent (err e, after) = (err e, after)
answer_attach true (ok (id, ctx), after) = (ok (id, ctx), after)
answer_attach false (ok (id, ctx), after) = (err denied, revoke_session id after)

module _ (sha256 : List Char → Digest) where
  -- `Sessions::attach`. A token with a character outside ASCII is longer than its characters are
  -- many, and is refused by the test of each character.
  unfoldable pub attach : String → Time → Exec Sessions (Uuid × AuthenticatedContext)
  unfolding insert from_authenticated_session
  attach token now s =
      if len token != 64 || not (all is_token_char (chars token))
      then (err denied, s)
      else elim (find_session (sha256 (chars token)) now s.entries) [
        | none ↦ (err denied, s)
        | some (id, found) ↦ (
          ok (id, from_authenticated_session s.owner found.principal s.workspace found.expires_at),
          record s { entries = insert id (record found { digest = none }) s.entries },
        )
      ]

  -- `Sessions::admit`: `peer` tells whether `check_uid` passes and the channel opens, `message` is
  -- the `attach` message that it receives, with its `op` and its token, `sent` whether the answer
  -- is sent, `utc` the system's time.
  unfoldable pub admit :
      Bool
      → Option (String × String)
      → Bool
      → Time
      → Time
      → Exec Sessions (Uuid × AuthenticatedContext)
  unfolding answer_attach
  admit false message sent utc now s = (err denied, s)
  admit true none sent utc now s = (err denied, s)
  admit true (some (op, token)) sent utc now s =
      if op != "attach"
      then (err denied, s)
      else answer_attach sent (attach token (if ltb_ℤ now utc then utc else now) s)

abbrev pub max_lifetime_secs : ℤ
max_lifetime_secs = pos 86400

-- `frontend_deadline`, in seconds.
unfoldable pub frontend_deadline : Time → Time → Result ℕ
unfolding ◌-ℤ◌ pos_part
frontend_deadline expires_at now =
    let remaining = expires_at -ℤ now in
    if ltb_ℤ remaining i64_min || ltb_ℤ i64_max remaining
    then err invalid
    else if leb_ℤ remaining (pos 0)
    then err denied
    else if ltb_ℤ max_lifetime_secs remaining
    then err invalid
    else ok (pos_part remaining)
