-- ===== src/Snapshot/Sound.antt =====
-- src/agent/snapshot.rs, `validate`: what holds in a snapshot that it accepts.
use credman.Base.{
  ℕ, ◌≡◌, ◌≢◌, refl, sym, subst, Bool, true, false, ◌&&◌, ◌||◌, not, some, List, [], ◌∷◌, arith,
  ◌==◌, nat_eq, inl, inr, Member, here, there, Bool-cases, Option-cases, contains, insert_set,
  contains-insert_set, ==_refl, if◌then◌else◌, Eq, string_eq,
}
use credman.Base.Dict.{Dict, lookup, lookup-insert}
use credman.Result.{ok, bind_ok}
use credman.Loops.{fold_each}
use credman.Types.{
  Uuid, Application, Record, DeliveryAttempt, RequestKey, Remembered, register, action_eq, key_eq,
  permission_eq, field_eq,
}
use credman.Application.{Codec}
use credman.Snapshot.Validate.{check_request, check_kind, Accounts, set_at, add_at}
use credman.Snapshot.Whole.{Attempts, check_delivery}
use credman.Snapshot.Passed.{Passed, record_keyed}

module _ {V : Type 0} {K : Type 0} ⦃e : Eq K⦄ where
  pub Member-entry : (k : K) (v : V) (d : Dict K V) → lookup k d ≡ some v → Member (k, v) d
  unfolding lookup
  Member-entry k v [] h = absurd (ground arith)
  Member-entry k v ((j, w) ∷ d) h = elim (Bool-cases (j == k)) [
    | inl same ↦ subst (λ (x : K × V). Member x ((j, w) ∷ d)) (ground (arith, e.beq_iff j k)) here
    | inr other ↦ there (Member-entry k v d (ground arith))
  ]

set_at-add_at :
    (j k : Uuid) (n : ℕ) (d : Dict Uuid (List ℕ))
    → set_at j (add_at k n d) ≡ (if k == j then insert_set n (set_at k d) else set_at j d)
unfolding set_at
set_at-add_at j k n d = ground (arith, lookup-insert k j (insert_set n (set_at k d)) d)

abbrev registers : DeliveryAttempt → Bool
registers d = d.action == register && d.dispatched

module _ (codec : Codec) (app : Application) where
  check_delivery-registers :
      (id : Uuid) (d : DeliveryAttempt) (seen seen' : Attempts)
      → check_delivery codec app (id, d) seen ≡ ok seen'
      → ((not (registers d) || not (contains seen.registrations d.record_id)) ≡ true)
        × (seen'.registrations ≡ (
            if registers d then insert_set d.record_id seen.registrations else seen.registrations))
  unfolding check_delivery
  check_delivery-registers id d seen seen' h = ground arith

  -- What was registered before a loop that ends is not registered in it.
  registered_later :
      {x : Uuid × DeliveryAttempt} {ds : Dict Uuid DeliveryAttempt}
      → Member x ds
      → (seen seen' : Attempts) → fold_each (check_delivery codec app) ds seen ≡ ok seen'
      → registers x.1 ≡ true
      → contains seen.registrations x.1.record_id ≡ false
  unfolding fold_each
  registered_later {x = x} (here {xs = xs}) seen seen' h r =
      let (next, step, _) = bind_ok (check_delivery codec app x seen) _ _ h in
      ground (arith, check_delivery-registers x.0 x.1 seen next step)
  registered_later {x = x} (there {x = y} {xs = xs} m) seen seen' h r =
      let (next, step, rest) = bind_ok (check_delivery codec app y seen) _ _ h in
      ground (
        arith,
        check_delivery-registers y.0 y.1 seen next step,
        registered_later m next seen' rest r,
        contains-insert_set y.1.record_id x.1.record_id seen.registrations,
      )

  registered_clash :
      (x y : Uuid × DeliveryAttempt) (ds : Dict Uuid DeliveryAttempt) (seen seen' : Attempts)
      → fold_each (check_delivery codec app) (x ∷ ds) seen ≡ ok seen'
      → Member y ds
      → registers x.1 ≡ true
      → registers y.1 ≡ true
      → x.1.record_id ≢ y.1.record_id
  unfolding fold_each
  registered_clash x y ds seen seen' h m r r' same =
      let (next, step, rest) = bind_ok (check_delivery codec app x seen) _ _ h in
      absurd (
        ground (
          arith,
          check_delivery-registers x.0 x.1 seen next step,
          registered_later m next seen' rest r',
          contains-insert_set x.1.record_id y.1.record_id seen.registrations,
          ==_refl x.1.record_id,
        ))

  pub registered_unique :
      {x y : Uuid × DeliveryAttempt} (ds : Dict Uuid DeliveryAttempt) (seen seen' : Attempts)
      → Member x ds
      → Member y ds
      → fold_each (check_delivery codec app) ds seen ≡ ok seen'
      → registers x.1 ≡ true
      → registers y.1 ≡ true
      → x.1.record_id ≡ y.1.record_id
      → x ≡ y
  unfolding fold_each
  registered_unique [] seen seen' m _ h r r' same = elim m [ ]
  registered_unique (x ∷ ds) seen seen' here here h r r' same = refl
  registered_unique {y = y} (x ∷ ds) seen seen' here (there m) h r r' same =
      absurd (registered_clash x y ds seen seen' h m r r' same)
  registered_unique {x = y} (x ∷ ds) seen seen' (there m) here h r r' same =
      absurd (registered_clash x y ds seen seen' h m r' r (sym same))
  registered_unique (x ∷ ds) seen seen' (there m) (there m') h r r' same =
      let (next, _, rest) = bind_ok (check_delivery codec app x seen) _ _ h in
      registered_unique ds next seen' m m' rest r r' same

  check_kind_revisions :
      (key : RequestKey) (c : Remembered) (r : Record) (acc acc' : Accounts)
      → check_kind app key c r acc ≡ ok acc'
      → acc'.revisions ≡ acc.revisions
  unfolding check_kind
  check_kind_revisions key c r acc acc' h = ground arith

  check_request_revision :
      (p : Passed codec app) (key : RequestKey) (c : Remembered) (acc acc' : Accounts)
      → check_request app (key, c) acc ≡ ok acc'
      → (contains (set_at c.result.record_id acc.revisions) c.result.revision ≡ false)
        × (acc'.revisions ≡ add_at c.result.record_id c.result.revision acc.revisions)
  unfolding check_request
  check_request_revision p key c acc acc' h = elim (Option-cases (lookup key.task app.tasks)) [
    | inl missing ↦ absurd (ground arith)
    | inr (t, task) ↦ elim (Option-cases (lookup c.result.record_id app.records)) [
      | inl missing ↦ absurd (ground arith)
      | inr (r, found) ↦
          let same =
            record_keyed codec app p c.result.record_id r
              (Member-entry c.result.record_id r app.records found) in
          ground (
            arith,
            same,
            check_kind_revisions key c r
                (record acc { revisions = add_at r.id c.result.revision acc.revisions }) acc',
          )
    ]
  ]

  -- The same of the revisions: one that was seen before the loop is in no later receipt.
  module _ (p : Passed codec app) where
    revision_later :
        {x : RequestKey × Remembered} {rs : Dict RequestKey Remembered}
        → Member x rs
        → (acc acc' : Accounts) → fold_each (check_request app) rs acc ≡ ok acc'
        → contains (set_at x.1.result.record_id acc.revisions) x.1.result.revision ≡ false
    unfolding fold_each
    revision_later {x = x} (here {xs = xs}) acc acc' h =
        let (next, step, _) = bind_ok (check_request app x acc) _ _ h in
        (check_request_revision p x.0 x.1 acc next step).0
    revision_later {x = x} (there {x = y} {xs = xs} m) acc acc' h =
        let (next, step, rest) = bind_ok (check_request app y acc) _ _ h in
        ground (
          arith,
          check_request_revision p y.0 y.1 acc next step,
          revision_later m next acc' rest,
          set_at-add_at x.1.result.record_id y.1.result.record_id y.1.result.revision acc.revisions,
          contains-insert_set y.1.result.revision x.1.result.revision
              (set_at y.1.result.record_id acc.revisions),
          nat_eq.beq_iff y.1.result.record_id x.1.result.record_id,
        )

    revision_clash :
        (x y : RequestKey × Remembered) (rs : Dict RequestKey Remembered) (acc acc' : Accounts)
        → fold_each (check_request app) (x ∷ rs) acc ≡ ok acc'
        → Member y rs
        → x.1.result.record_id ≡ y.1.result.record_id
        → x.1.result.revision ≢ y.1.result.revision
    unfolding fold_each
    revision_clash x y rs acc acc' h m same equal =
        let (next, step, rest) = bind_ok (check_request app x acc) _ _ h in
        absurd (
          ground (
            arith,
            check_request_revision p x.0 x.1 acc next step,
            revision_later m next acc' rest,
            set_at-add_at y.1.result.record_id x.1.result.record_id x.1.result.revision
                acc.revisions,
            contains-insert_set x.1.result.revision y.1.result.revision
                (set_at x.1.result.record_id acc.revisions),
            ==_refl x.1.result.record_id,
            ==_refl x.1.result.revision,
          ))

    pub revision_unique :
        {x y : RequestKey × Remembered} (rs : Dict RequestKey Remembered) (acc acc' : Accounts)
        → Member x rs
        → Member y rs
        → fold_each (check_request app) rs acc ≡ ok acc'
        → x.1.result.record_id ≡ y.1.result.record_id
        → x.1.result.revision ≡ y.1.result.revision
        → x ≡ y
    unfolding fold_each
    revision_unique [] acc acc' m _ h same equal = elim m [ ]
    revision_unique (x ∷ rs) acc acc' here here h same equal = refl
    revision_unique {y = y} (x ∷ rs) acc acc' here (there m) h same equal =
        absurd (revision_clash x y rs acc acc' h m same equal)
    revision_unique {x = y} (x ∷ rs) acc acc' (there m) here h same equal =
        absurd (revision_clash x y rs acc acc' h m (sym same) (sym equal))
    revision_unique (x ∷ rs) acc acc' (there m) (there m') h same equal =
        let (next, _, rest) = bind_ok (check_request app x acc) _ _ h in
        revision_unique rs next acc' m m' rest same equal
