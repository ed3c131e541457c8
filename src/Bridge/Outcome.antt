-- ===== src/Bridge/Outcome.antt =====
-- src/agent_bridge.rs: the outcomes of `Sessions::issue` and `Sessions::attach`, and what a token is
-- good for.
use Prim.Native.Char.{Char}
use credman.Base.{
  ◌≡◌, ◌⊎◌, inl, inr, refl, subst, String, len, Bool, true, false, ◌&&◌, ◌||◌, not, none, some,
  List, [], ◌∷◌, ◌==◌, ◌!=◌, string_eq, nat_eq, all, contains, arith, Option-cases, Bool-cases,
  ==_refl,
}
use credman.Base.Int.{ltb_ℤ, ◌≤ℤ◌}
use credman.Base.Dict.{
  Dict, NodupKeys, lookup, insert, lookup-insert, lookup-insert_self, insert-NodupKeys,
}
use credman.Result.{ok, err, denied}
use credman.Types.{Uuid, Time, Digest, from_authenticated_session}
use credman.Generation.{chars}
use credman.Bridge.{Session, Sessions, live, permits}
use credman.Bridge.Attach.{attach, awaits, find_session, is_token_char}

find_session-none :
    (digest : Digest) (now : Time) (d : Dict Uuid Session) (id : Uuid) (e : Session)
    → find_session digest now d ≡ none
    → lookup id d ≡ some e
    → awaits digest now e ≡ false
unfolding find_session lookup
find_session-none digest now [] id e f h = absurd (ground arith)
find_session-none digest now ((j, w) ∷ d) id e f h = elim (Bool-cases (awaits digest now w)) [
  | inl hit ↦ absurd (ground arith)
  | inr miss ↦ elim (Bool-cases (j == id)) [
    | inl same ↦ let q : w ≡ e = ground arith in subst (λ x. awaits digest now x ≡ false) q miss
    | inr other ↦ find_session-none digest now d id e (ground arith) (ground arith)
  ]
]

find_session-some :
    (digest : Digest) (now : Time) (d : Dict Uuid Session) (id : Uuid) (e : Session)
    → NodupKeys d
    → find_session digest now d ≡ some (id, e)
    → (lookup id d ≡ some e) × (awaits digest now e ≡ true)
unfolding find_session lookup
find_session-some digest now [] id e u f = absurd (ground arith)
find_session-some digest now ((j, w) ∷ d) id e u f = elim (Bool-cases (awaits digest now w)) [
  | inl hit ↦
      let q : w ≡ e = ground arith in
      let k : j ≡ id = ground arith in
      (ground (arith, ==_refl id), subst (λ x. awaits digest now x ≡ true) q hit)
  | inr miss ↦
      let (l, a) = find_session-some digest now d id e u.1 (ground arith) in
      (ground (arith, (nat_eq).beq_iff j id, u.0), a)
]

abbrev pub well_formed_token : String → Bool
well_formed_token token = len token == 64 && all is_token_char (chars token)

-- The state with the session `id` attached.
unfoldable pub attached_to : Uuid → Session → Sessions → Sessions
unfolding insert
attached_to id e s = record s { entries = insert id (record e { digest = none }) s.entries }

module _ (sha256 : List Char → Digest) (token : String) (now : Time) (s : Sessions) where
  -- The session `id` waits for the token.
  abbrev pub Waits : Uuid → Session → Type 0
  Waits id e = (lookup id s.entries ≡ some e) × (awaits (sha256 (chars token)) now e ≡ true)

  abbrev pub Nobody : Type 0
  Nobody =
      (id : Uuid) (e : Session)
      → lookup id s.entries ≡ some e
      → awaits (sha256 (chars token)) now e ≡ false

  abbrev pub Attached : Uuid → Session → Type 0
  Attached id e = attach sha256 token now s ≡ (
    ok (
      id,
      record {
        owner = s.owner;
        principal = e.principal;
        workspace = s.workspace;
        admin = false;
        session_deadline = some e.expires_at;
      },
    ),
    attached_to id e s,
  )

  -- Either the token is refused, the state stays as it is, and no session waits for a well-formed
  -- token; or an unexpired session whose digest is the token's becomes attached, nothing else
  -- changes, and the agent gets the session's owner, principal, workspace and expiry, never
  -- administration.
  pub attach_outcome :
      NodupKeys s.entries
      → ((attach sha256 token now s ≡ (err denied, s)) × (well_formed_token token ≡ true → Nobody))
        ⊎ ((well_formed_token token ≡ true)
            × ((id : Uuid) × (e : Session) × Waits id e × Attached id e))
  unfolding attach insert from_authenticated_session attached_to
  attach_outcome u = elim (Bool-cases (len token != 64 || not (all is_token_char (chars token)))) [
    | inl bad ↦ inl (rw bad refl, λ w. absurd (ground arith))
    | inr good ↦ elim (Option-cases (find_session (sha256 (chars token)) now s.entries)) [
      | inl absent ↦ inl (
        rw good (rw absent refl),
        λ w id e l. find_session-none (sha256 (chars token)) now s.entries id e absent l,
      )
      | inr ((id, e), found) ↦
          let (l, a) = find_session-some (sha256 (chars token)) now s.entries id e u found in
          inr (ground arith, (id, e, (l, a), rw good (rw found refl)))
    ]
  ]

  -- The session that a token attached may use exactly its own tasks, until it expires.
  pub Attached-permits :
      (id : Uuid) (e : Session)
      → Attached id e
      → (task : Uuid) (at : Time)
      → permits (attach sha256 token now s).1 id task at
        ≡ (ltb_ℤ at e.expires_at && contains e.tasks task)
  unfolding permits live attached_to
  Attached-permits id e a task at =
      rw a (rw (lookup-insert_self id (record e { digest = none }) s.entries) (ground arith))

module _ (sha256 : List Char → Digest) (token : String) (now : Time) (s : Sessions) where
  awaits_earlier :
      (at : Time) (f : Session)
      → now ≤ℤ at
      → awaits (sha256 (chars token)) at f ≡ true
      → awaits (sha256 (chars token)) now f ≡ true
  awaits_earlier at f after w = ground arith

  nobody_left :
      (id : Uuid) (e : Session)
      → ((j : Uuid) (f : Session) → Waits sha256 token now s j f → j ≡ id)
      → (at : Time) → now ≤ℤ at
      → (j : Uuid) (f : Session) → lookup j (attached_to id e s).entries ≡ some f
      → awaits (sha256 (chars token)) at f ≡ true
      → ⊥
  unfolding attached_to
  nobody_left id e alone at after j f l w =
      let l' = rw (lookup-insert id j (record e { digest = none }) s.entries) at l in
      elim (Bool-cases (id == j)) [
        | inl same ↦
            let q : record e { digest = none } ≡ f = ground arith in
            let w' = rw (← q) at w in absurd (ground arith)
        | inr other ↦
            let k = alone j f (ground arith, awaits_earlier at f after w) in
            absurd (ground (arith, ==_refl id))
      ]

  -- A token that one session waits for attaches it once: every later attempt with it is refused.
  pub attach_once :
      (id : Uuid) (e : Session)
      → NodupKeys s.entries
      → ((j : Uuid) (f : Session) → Waits sha256 token now s j f → j ≡ id)
      → Attached sha256 token now s id e
      → (at : Time) → now ≤ℤ at
      → attach sha256 token at (attach sha256 token now s).1
        ≡ (err denied, (attach sha256 token now s).1)
  unfolding attached_to
  attach_once id e u alone a at after =
      rw a
        (elim (attach_outcome sha256 token at (attached_to id e s)
          (insert-NodupKeys id (record e { digest = none }) s.entries u)) [
            | inl (refused, _) ↦ refused
            | inr (_, (j, f, (l, w), _)) ↦ absurd (nobody_left id e alone at after j f l w)
          ])
