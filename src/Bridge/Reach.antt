-- ===== src/Bridge/Reach.antt =====
-- src/agent_bridge.rs: the calls that change the sessions, and the forms that the state takes after
-- one of them.
use Prim.Native.Char.{Char}
use credman.Base.{
  ℕ, ◌<◌, ◌≤◌, ◌≡◌, ◌≢◌, inl, inr, refl, String, Bool, true, false, Option, none, some, List, [],
  ◌∷◌, leb, ◌!=◌, string_eq, nat_eq, if◌then◌else◌, length, all, is_none, contains, arith,
  Option-cases, Bool-cases, ==_refl, is_empty,
}
use credman.Base.Int.{ltb_ℤ, leb_ℤ}
use credman.Base.Dict.{NodupKeys, lookup}
use credman.Result.{Result, Result-cases}
use credman.Types.{Uuid, Time, Digest, nil}
use credman.Generation.{chars}
use credman.Bridge.{
  Session, Sessions, issue, hex, set_of, malformed_issue, max_sessions, drop_expired,
  revoke_session, is_whitespace, add_session,
}
use credman.Bridge.Attach.{admit, answer_attach}
use credman.Bridge.Outcome.{attach_outcome, attached_to}

-- What `issue` asks of a session.
unfoldable pub Scoped : String → Time → Session → Type 0
Scoped admin deadline e =
    (e.principal ≢ admin)
    × (all is_whitespace (chars e.principal) ≡ false)
    × (is_empty e.tasks ≡ false)
    × (length e.tasks ≤ 64)
    × (contains e.tasks nil ≡ false)
    × (leb_ℤ e.expires_at deadline ≡ true)

pub record WellFormed (s : Sessions) : Type 0 where
  pub distinct : NodupKeys s.entries
  pub bounded : length s.entries ≤ 32
  pub scoped :
      (id : Uuid) (e : Session) → lookup id s.entries ≡ some e → Scoped s.admin s.deadline e

not_empty :
    (tasks : List Uuid)
    → is_empty tasks ≡ false
    → length (set_of tasks) ≡ length tasks
    → is_empty (set_of tasks) ≡ false
not_empty [] h l = absurd (ground arith)
not_empty (t ∷ ts) h l = ground arith

malformed-Scoped :
    (principal : String) (tasks : List Uuid) (digest : Option Digest) (expires_at now : Time)
    (s : Sessions)
    → malformed_issue principal tasks expires_at now s ≡ false
    → Scoped s.admin s.deadline (record {
      digest = digest;
      principal = principal;
      tasks = set_of tasks;
      expires_at = expires_at;
    })
unfolding malformed_issue Scoped
malformed-Scoped principal tasks digest expires_at now s h = (
  ground (arith, ==_refl s.admin),
  ground arith,
  not_empty tasks (ground arith) (ground arith),
  ground arith,
  ground arith,
  ground arith,
)

module _ (sha256 : List Char → Digest) where
  -- One call that changes the sessions, with the identifier that it may introduce.
  pub data Change : Option Uuid → Sessions → Sessions → Type 0 where
    issues :
        {s : Sessions} (random : Option (List ℕ)) (fresh : Uuid)
        (tasks_valid : List Uuid → String → Result (Unit {0})) (principal : String)
        (tasks : List Uuid) (expires_at now : Time)
        → Change
            (some fresh)
            s
            (issue sha256 random fresh tasks_valid principal tasks expires_at now s).1
    admits :
        {s : Sessions} (peer : Bool) (message : Option (String × String)) (sent : Bool)
        (utc now : Time)
        → Change none s (admit sha256 peer message sent utc now s).1
    revoked : {s : Sessions} (id : Uuid) → Change none s (revoke_session id s)

  -- The state after a call is of one of these forms.
  pub data Moved : Option Uuid → Sessions → Sessions → Type 0 where
    stays : {o : Option Uuid} {s : Sessions} → Moved o s s
    expires : {o : Option Uuid} {s : Sessions} (now : Time) → Moved o s (drop_expired now s)
    adds :
        {s : Sessions} (id : Uuid) (e : Session) (now : Time)
        → length (drop_expired now s).entries < 32
        → Scoped s.admin s.deadline e
        → is_none e.digest ≡ false
        → Moved (some id) s (add_session id e (drop_expired now s))
    attaches :
        {s : Sessions} (id : Uuid) (e : Session)
        → lookup id s.entries ≡ some e
        → Moved none s (attached_to id e s)
    removes : {o : Option Uuid} {s : Sessions} (id : Uuid) → Moved o s (revoke_session id s)
    attaches_not :
        {s : Sessions} (id : Uuid) (e : Session)
        → lookup id s.entries ≡ some e
        → Moved none s (revoke_session id (attached_to id e s))

  issue_moves :
      (random : Option (List ℕ)) (fresh : Uuid)
      (tasks_valid : List Uuid → String → Result (Unit {0})) (principal : String)
      (tasks : List Uuid) (expires_at now : Time) (s : Sessions)
      → Moved
          (some fresh)
          s
          (issue sha256 random fresh tasks_valid principal tasks expires_at now s).1
  unfolding issue drop_expired
  issue_moves random fresh tasks_valid principal tasks expires_at now s =
      let kept = drop_expired now s in
      elim (Bool-cases (malformed_issue principal tasks expires_at now kept)) [
        | inl bad ↦ rw bad (expires now)
        | inr good ↦ rw good (elim (Result-cases (tasks_valid tasks principal)) [
          | inr (e, f) ↦ rw f (expires now)
          | inl (_, f) ↦ rw f (elim (Option-cases kept.socket) [
            | inl absent ↦ rw absent (expires now)
            | inr (path, has) ↦ rw has (elim (Bool-cases (leb max_sessions (length kept.entries))) [
              | inl full ↦ rw full (expires now)
              | inr room ↦ rw room (elim (Option-cases random) [
                | inl fault ↦ rw fault (expires now)
                | inr (bytes, filled) ↦ rw filled (
                    adds fresh
                      (record {
                        digest = some (sha256 (hex bytes));
                        principal = principal;
                        tasks = set_of tasks;
                        expires_at = expires_at;
                      })
                      now (ground arith)
                      (malformed-Scoped principal tasks (some (sha256 (hex bytes))) expires_at now
                        kept good)
                      refl)
              ])
            ])
          ])
        ])
      ]

  admit_moves :
      (peer : Bool) (message : Option (String × String)) (sent : Bool) (utc now : Time)
      (s : Sessions)
      → NodupKeys s.entries
      → Moved none s (admit sha256 peer message sent utc now s).1
  unfolding admit answer_attach
  admit_moves false message sent utc now s u = stays
  admit_moves true none sent utc now s u = stays
  admit_moves true (some (op, token)) sent utc now s u = elim (Bool-cases (op != "attach")) [
    | inl other ↦ rw other stays
    | inr attaching ↦
        let at = if ltb_ℤ now utc then utc else now in
        rw attaching (elim (attach_outcome sha256 token at s u) [
          | inl (refused, _) ↦ rw refused stays
          | inr (_, (id, e, (l, _), done)) ↦ rw done (elim (Bool-cases sent) [
            | inl told ↦ rw told (attaches id e l)
            | inr untold ↦ rw untold (attaches_not id e l)
          ])
        ])
  ]

  pub Change-moves :
      {o : Option Uuid} {s s' : Sessions} → NodupKeys s.entries → Change o s s' → Moved o s s'
  Change-moves u (issues {s = s} random fresh valid principal tasks expires_at now) =
      issue_moves random fresh valid principal tasks expires_at now s
  Change-moves u (admits {s = s} peer message sent utc now) =
      admit_moves peer message sent utc now s u
  Change-moves u (revoked id) = removes id
