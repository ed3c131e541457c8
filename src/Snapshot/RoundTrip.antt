-- ===== src/Snapshot/RoundTrip.antt =====
-- src/agent/snapshot.rs: `decode` after `encode`.
use credman.Base.{
  ℕ, ◌≡◌, ◌≢◌, ==_refl, refl, ap, ◌∙◌, sym, true, false, none, List, [], ◌∷◌, ◌++◌, arith, ltb, leb,
  length, list_eq, nat_eq, contains, Eq, all, any, Member, here, there, all-elim, is_some,
}
use mathlib.Core.List.{append-nil, append_assoc}
use credman.Base.Dict.{Dict, values, lookup, insert, NodupKeys}
use credman.Result.{ok}
use credman.Loops.{fold_each}
use credman.Types.{
  Uuid, Application, TaskApproval, Record, Remembered, DeliveryAttempt, Grant, RecordBaseline,
  key_eq,
}
use credman.Application.{Codec}
use credman.Snapshot.Validate.{check_counts, check_clock, limit}
use credman.Snapshot.Encoding.{
  Json, ReadsBack, snapshot_of, encode, decode, restore, insert_new, insert_new_member, acceptable,
  date_request, date_delivery,
}
use credman.Snapshot.Passed.{Passed, validate-Passed, Keyed, tasks-Keyed, records-Keyed, ensure_ok}
use credman.Snapshot.Difference.{encode-Encoded}

module _ {K V : Type 0} ⦃e : Eq K⦄ where
  insert_end : (k : K) (v : V) (d : Dict K V) → lookup k d ≡ none → insert k v d ≡ d ++ (k, v) ∷ []
  unfolding lookup insert
  insert_end k v [] h = refl
  insert_end k v ((j, w) ∷ d) h = ground (arith, insert_end k v d)

  lookup-append_later : (k : K) (v : V) (a b : Dict K V) → lookup k (a ++ (k, v) ∷ b) ≢ none
  unfolding lookup
  lookup-append_later k v [] b h = absurd (ground (arith, ==_refl k))
  lookup-append_later k v ((j, w) ∷ a) b h = absurd (ground (arith, lookup-append_later k v a b))

  -- Nothing of the first map stands in the second.
  NodupKeys-append_head :
      (k : K) (v : V) (a b : Dict K V) → NodupKeys (a ++ (k, v) ∷ b) → lookup k a ≡ none
  unfolding lookup
  NodupKeys-append_head k v [] b u = refl
  NodupKeys-append_head k v ((j, w) ∷ a) b u = ground (
    arith,
    NodupKeys-append_head k v a b u.1,
    lookup-append_later k v a b,
    e.beq_iff j k,
    e.beq_iff k j,
  )

  -- A loop that inserts entries with new keys appends them.
  fold_insert_new :
      (f : V → V) (d acc : Dict K V)
      → NodupKeys (acc ++ d)
      → ((v : V) → Member v (values d) → f v ≡ v)
      → fold_each (λ (x : K × V). insert_new (x.0, f x.1)) d acc ≡ ok (acc ++ d)
  unfolding fold_each insert_new values
  fold_insert_new f [] acc u same = ap ok (sym (append-nil acc))
  fold_insert_new f ((k, v) ∷ d) acc u same =
      let new = NodupKeys-append_head k v acc d u in
      let end = insert_end k v acc new in
      let join : (acc ++ (k, v) ∷ []) ++ d ≡ acc ++ (k, v) ∷ d = append_assoc acc ((k, v) ∷ []) d in
      rw new (
        rw (same v here) (
          rw end (
            fold_insert_new f d (acc ++ (k, v) ∷ []) (rw join u) (λ w m. same w (there m))
            ∙ ap ok join)))

module _ {V : Type 0} (id : V → Uuid) where
  -- The same where the values hold their keys.
  fold_insert-Keyed :
      (d acc : Dict Uuid V)
      → Keyed id d
      → NodupKeys (acc ++ d)
      → fold_each (λ (v : V). insert_new (id v, v)) (values d) acc ≡ ok (acc ++ d)
  unfolding fold_each insert_new values
  fold_insert-Keyed [] acc k u = ap ok (sym (append-nil acc))
  fold_insert-Keyed ((j, v) ∷ d) acc k u =
      let new = NodupKeys-append_head j v acc d u in
      let end = insert_end j v acc new in
      let join : (acc ++ (j, v) ∷ []) ++ d ≡ acc ++ (j, v) ∷ d = append_assoc acc ((j, v) ∷ []) d in
      rw (← k.0)
        (rw new (rw end (fold_insert-Keyed d (acc ++ (j, v) ∷ []) k.1 (rw join u) ∙ ap ok join)))

  length-values : (d : Dict Uuid V) → length (values d) ≡ length d
  unfolding values
  length-values [] = refl
  length-values (x ∷ d) = ground (arith, length-values d)

-- A set that is listed once.
abbrev pub NodupSet : List Uuid → Type 0
NodupSet [] = Unit
NodupSet (x ∷ xs) = (contains xs x ≡ false) × NodupSet xs

contains-append_later : (x : Uuid) (a b : List Uuid) → contains (a ++ x ∷ b) x ≡ true
contains-append_later x [] b = ground (arith, ==_refl x)
contains-append_later x (y ∷ a) b = ground (arith, contains-append_later x a b)

NodupSet-append_head : (x : Uuid) (a b : List Uuid) → NodupSet (a ++ x ∷ b) → contains a x ≡ false
NodupSet-append_head x [] b u = refl
NodupSet-append_head x (y ∷ a) b u =
    ground (arith, NodupSet-append_head x a b u.1, contains-append_later x a b, nat_eq.beq_iff y x)

fold_insert_set :
    (xs acc : List Uuid)
    → NodupSet (acc ++ xs)
    → fold_each insert_new_member xs acc ≡ ok (acc ++ xs)
unfolding fold_each insert_new_member
fold_insert_set [] acc u = ap ok (sym (append-nil acc))
fold_insert_set (x ∷ xs) acc u =
    let new = NodupSet-append_head x acc xs u in
    let join : (acc ++ x ∷ []) ++ xs ≡ acc ++ x ∷ xs = append_assoc acc (x ∷ []) xs in
    rw new (fold_insert_set xs (acc ++ x ∷ []) (rw join u) ∙ ap ok join)

-- The maps and the set of a real application.
pub record Distinct (app : Application) : Type 0 where
  pub tasks : NodupKeys app.tasks
  pub records : NodupKeys app.records
  pub grants : NodupKeys app.grants
  pub requests : NodupKeys app.requests
  pub revoked_tasks : NodupSet app.revoked_tasks
  pub deliveries : NodupKeys app.deliveries
  pub baselines : NodupKeys app.baselines

none_over : (ns : List ℕ) → all (λ n. leb n limit) ns ≡ true → any (ltb limit) ns ≡ false
none_over [] h = refl
none_over (n ∷ ns) h = ground (arith, none_over ns)

module _ (codec : Codec) (app : Application) (p : Passed codec app) (u : Distinct app)
    (requests : all (λ r. is_some r.at) (values app.requests) ≡ true)
    (deliveries : all (λ d. is_some d.at) (values app.deliveries) ≡ true) where
  restored : (json : Json) → restore json codec (snapshot_of app) ≡ ok app
  unfolding restore snapshot_of
  restored json =
      let last = app.last_time in
      rw
        (fold_insert-Keyed (λ (t : TaskApproval). t.id) app.tasks [] (tasks-Keyed codec app p)
          u.tasks)
        (rw
          (fold_insert-Keyed (λ (r : Record). r.id) app.records [] (records-Keyed codec app p)
            u.records)
          (rw (fold_insert_new (λ (g : Grant). g) app.grants [] u.grants (λ v m. refl)) (
            rw
              (fold_insert_new (date_request last) app.requests [] u.requests
                (λ r m. ground (arith, all-elim (λ (x : Remembered). is_some x.at) m requests)))
              (rw (fold_insert_set app.revoked_tasks [] u.revoked_tasks) (
                rw
                  (fold_insert_new (date_delivery last) app.deliveries [] u.deliveries (λ d m.
                    ground (arith, all-elim (λ (x : DeliveryAttempt). is_some x.at) m deliveries)))
                  (rw
                    (fold_insert_new (λ (b : RecordBaseline). b) app.baselines [] u.baselines
                      (λ v m. refl))
                    refl))))))

  accepted : acceptable (snapshot_of app) ≡ true
  unfolding acceptable snapshot_of check_counts check_clock
  accepted =
      let counts =
        none_over
          (length app.tasks
            ∷ length app.records
            ∷ length app.grants
            ∷ length app.requests
            ∷ length app.revoked_tasks
            ∷ length app.deliveries
            ∷ length app.audit_log
            ∷ length app.baselines
            ∷ [])
          (ensure_ok _ p.counts) in
      rw (length-values (λ (t : TaskApproval). t.id) app.tasks) (
        rw (length-values (λ (r : Record). r.id) app.records)
          (rw counts (ground (arith, ensure_ok _ p.clock))))

-- `decode` gives back the application that `encode` was given, whole. It is assumed that serde_json reads
-- back what it wrote, that the maps have one entry for a key and the set one for a member, and that
-- every receipt and delivery has its time, which `decode` would fill in.
pub decode-encode :
    (json : Json) (codec : Codec) (app : Application) (bytes : List ℕ)
    → ReadsBack json
    → Distinct app
    → all (λ r. is_some r.at) (values app.requests) ≡ true
    → all (λ d. is_some d.at) (values app.deliveries) ≡ true
    → encode json codec app ≡ ok bytes
    → decode json codec bytes ≡ ok app
unfolding decode
decode-encode json codec app bytes law u requests deliveries h =
    let e = encode-Encoded json codec app bytes h in
    let p = validate-Passed codec app e.valid in
    rw e.small (
      rw (law (snapshot_of app) bytes e.written) (
        rw (accepted codec app p u requests deliveries)
          (rw (restored codec app p u requests deliveries json) (rw e.valid refl))))
