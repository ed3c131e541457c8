-- ===== src/Bridge/Bounds.antt =====
-- src/agent_bridge.rs: what holds of the sessions after any calls of `issue`, `admit` and `revoke`.
use Prim.Native.Char.{Char}
use credman.Base.{
  ◌<◌, ◌≡◌, ◌≢◌, refl, ap, subst, String, false, Option, none, some, List, inl, inr, ◌==◌, nat_eq,
  length, arith, Bool-cases, ==_refl,
}
use credman.Base.Dict.{
  lookup, lookup-insert, insert-NodupKeys, length-insert_over, length-insert_le, lookup-erase,
  length-erase_le, erase-NodupKeys, length-filter_le, lookup-filter-none, lookup-filter,
  filter-NodupKeys,
}
use credman.Types.{Uuid, Time, Digest}
use credman.Bridge.{
  Session, Sessions, new_sessions, drop_expired, live, permits, revoke_session, later, add_session,
}
use credman.Bridge.Outcome.{attached_to}
use credman.Bridge.Reach.{
  stays, expires, adds, attaches, removes, attaches_not, Scoped, WellFormed, Change, Moved,
  Change-moves,
}

drop_WellFormed : (now : Time) (s : Sessions) → WellFormed s → WellFormed (drop_expired now s)
unfolding drop_expired
drop_WellFormed now s w = record {
  distinct = filter-NodupKeys (later now) s.entries w.distinct;
  bounded = omega (arith, length-filter_le (later now) s.entries, w.bounded);
  scoped = λ id e l. w.scoped id e (lookup-filter (later now) id e s.entries w.distinct l);
}

revoke_WellFormed : (id : Uuid) (s : Sessions) → WellFormed s → WellFormed (revoke_session id s)
unfolding revoke_session
revoke_WellFormed id s w = record {
  distinct = erase-NodupKeys id s.entries w.distinct;
  bounded = omega (arith, length-erase_le id s.entries, w.bounded);
  scoped = λ j e l. w.scoped j e (ground (arith, lookup-erase id j s.entries));
}

attach_WellFormed :
    (id : Uuid) (e : Session) (s : Sessions)
    → lookup id s.entries ≡ some e
    → WellFormed s
    → WellFormed (attached_to id e s)
unfolding attached_to Scoped
attach_WellFormed id e s l w =
    let shut : Session = record e { digest = none } in
    record {
      distinct = insert-NodupKeys id shut s.entries w.distinct;
      bounded = omega (arith, length-insert_over id shut e s.entries l, w.bounded);
      scoped = λ j f k. elim (Bool-cases (id == j)) [
        | inl same ↦
            let q : shut ≡ f = ground (arith, lookup-insert id j shut s.entries) in
            subst (Scoped s.admin s.deadline) q (w.scoped id e l)
        | inr other ↦ w.scoped j f (ground (arith, lookup-insert id j shut s.entries))
      ];
    }

add_WellFormed :
    (id : Uuid) (e : Session) (s : Sessions)
    → length s.entries < 32
    → Scoped s.admin s.deadline e
    → WellFormed s
    → WellFormed (add_session id e s)
unfolding add_session
add_WellFormed id e s room fits w = record {
  distinct = insert-NodupKeys id e s.entries w.distinct;
  bounded = omega (arith, length-insert_le id e s.entries);
  scoped = λ j f k. elim (Bool-cases (id == j)) [
    | inl same ↦
        let q : e ≡ f = ground (arith, lookup-insert id j e s.entries) in
        subst (Scoped s.admin s.deadline) q fits
    | inr other ↦ w.scoped j f (ground (arith, lookup-insert id j e s.entries))
  ];
}

module _ (sha256 : List Char → Digest) where
  Moved-WellFormed :
      {o : Option Uuid} {s s' : Sessions} → Moved sha256 o s s' → WellFormed s → WellFormed s'
  unfolding drop_expired
  Moved-WellFormed (stays) w = w
  Moved-WellFormed (expires {s = s} now) w = drop_WellFormed now s w
  Moved-WellFormed (adds {s = s} id e now room fits waits) w =
      add_WellFormed id e (drop_expired now s) room fits (drop_WellFormed now s w)
  Moved-WellFormed (attaches {s = s} id e l) w = attach_WellFormed id e s l w
  Moved-WellFormed (removes {s = s} id) w = revoke_WellFormed id s w
  Moved-WellFormed (attaches_not {s = s} id e l) w =
      revoke_WellFormed id (attached_to id e s) (attach_WellFormed id e s l w)

  -- Calls in a row that introduce only allowed identifiers.
  pub data Later (allowed : Uuid → Type 0) : Sessions → Sessions → Type 0 where
    done : {s : Sessions} → Later allowed s s
    step :
        {o : Option Uuid} {s t u : Sessions}
        → Later allowed s t
        → Change sha256 o t u
        → ((id : Uuid) → o ≡ some id → allowed id)
        → Later allowed s u

  Later-WellFormed :
      {allowed : Uuid → Type 0} {s t : Sessions} → Later allowed s t → WellFormed s → WellFormed t
  Later-WellFormed done w = w
  Later-WellFormed (step l c new) w =
      let before = Later-WellFormed l w in
      Moved-WellFormed (Change-moves sha256 before.distinct c) before

  -- The sessions that any calls make of an empty list are at most 32, under distinct identifiers;
  -- each has a principal that is not blank and not the human's, between 1 and 64 tasks without the
  -- nil task, and an expiry that is not past the owner's deadline.
  pub sessions_WellFormed :
      (owner workspace admin : String) (socket : Option String) (deadline : Time) (s : Sessions)
      → Later (λ id. Unit) (new_sessions owner workspace admin socket deadline) s
      → WellFormed s
  unfolding lookup
  sessions_WellFormed owner workspace admin socket deadline s l =
      Later-WellFormed l
        (record { distinct = tt; bounded = omega arith; scoped = λ id e k. absurd (ground arith) })

  absent_stays :
      {o : Option Uuid} {s s' : Sessions} (id : Uuid)
      → Moved sha256 o s s'
      → o ≢ some id
      → lookup id s.entries ≡ none
      → lookup id s'.entries ≡ none
  unfolding drop_expired revoke_session add_session attached_to
  absent_stays id stays new a = a
  absent_stays id (expires {s = s} now) new a = lookup-filter-none (later now) id s.entries a
  absent_stays id (adds {s = s} j e now room fits waits) new a = ground (
    arith,
    lookup-insert j id e (drop_expired now s).entries,
    lookup-filter-none (later now) id s.entries a,
    nat_eq.beq_iff j id,
    ap {A = Uuid} some {x = j} {y = id},
  )
  absent_stays id (attaches {s = s} j e l) new a =
      ground (arith, lookup-insert j id (record e { digest = none }) s.entries, nat_eq.beq_iff j id)
  absent_stays id (removes {s = s} j) new a = ground (arith, lookup-erase j id s.entries)
  absent_stays id (attaches_not {s = s} j e l) new a = ground (
    arith,
    lookup-erase j id (attached_to j e s).entries,
    lookup-insert j id (record e { digest = none }) s.entries,
  )

  Later-absent :
      (id : Uuid) {s t : Sessions}
      → Later (λ j. j ≢ id) s t
      → WellFormed s
      → lookup id s.entries ≡ none
      → lookup id t.entries ≡ none
  Later-absent id done w a = a
  Later-absent id (step l c new) w a =
      absent_stays id (Change-moves sha256 (Later-WellFormed l w).distinct c)
        (λ same. new id same refl) (Later-absent id l w a)

  -- Once revoked, a session is not live and permits no task, after any later calls that do not
  -- introduce its identifier again.
  pub revoked_session_dead :
      (s : Sessions) (id : Uuid) (t : Sessions)
      → WellFormed s
      → Later (λ j. j ≢ id) (revoke_session id s) t
      → (task : Uuid) (now : Time) → (live t id now ≡ false) × (permits t id task now ≡ false)
  unfolding permits live revoke_session
  revoked_session_dead s id t w l task now =
      let gone =
        Later-absent id l (revoke_WellFormed id s w)
          (ground (arith, lookup-erase id id s.entries, ==_refl id)) in
      rw gone (refl, refl)
