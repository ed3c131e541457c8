-- ===== src/Storage/Recovery/Finished.antt =====
-- src/agent/storage/recovery.rs, `sanitize`: its loops over the tasks, the grants and the deliveries.
use credman.Base.{
  ◌≡◌, refl, subst, ◌∙◌, true, ◌||◌, some, List, [], ◌∷◌, arith, ◌==◌, nat_eq, contains, insert_set,
  contains-insert_set, is_some, Bool-cases, Option-cases, inl, inr, ◌⊎◌,
}
use credman.Base.Dict.{Dict, lookup, keys, lookup-insert, lookup-insert_self, lookup-map_values}
use credman.Base.Order.{each}
use credman.Result.{Error, ok, bind_ok}
use credman.Loops.{fold_each}
use credman.Types.{
  Uuid, Application, TaskApproval, Grant, DeliveryAttempt, DeliveryStatus, action_eq,
}
use credman.Application.{revoke_grant}
use credman.Storage.Recovery.{revoke_all, finish_delivery}

-- Every task is revoked and every grant is.
pub record Revoked (app : Application) : Type 0 where
  pub tasks :
      (id : Uuid) (t : TaskApproval)
      → lookup id app.tasks ≡ some t
      → contains app.revoked_tasks id ≡ true
  pub grants : (id : Uuid) (g : Grant) → lookup id app.grants ≡ some g → g.revoked ≡ true

contains-each_insert :
    (id : Uuid) (ids set : List Uuid)
    → (contains ids id || contains set id) ≡ true
    → contains (each insert_set ids set) id ≡ true
unfolding each
contains-each_insert id [] set h = h
contains-each_insert id (x ∷ ids) set h =
    contains-each_insert id ids (insert_set x set) (ground (arith, contains-insert_set x id set))

pub keys-contains :
    {V : Type 0} (id : Uuid) (v : V) (d : Dict Uuid V)
    → lookup id d ≡ some v
    → contains (keys d) id ≡ true
unfolding lookup keys
keys-contains id v [] h = absurd (ground arith)
keys-contains id v ((j, w) ∷ d) h = ground (arith, keys-contains id v d)

pub revoke_all-Revoked : (app : Application) → Revoked (revoke_all app)
unfolding revoke_all
revoke_all-Revoked app = record {
  tasks = λ id t found.
      contains-each_insert id (keys app.tasks) app.revoked_tasks
        (rw (keys-contains id t app.tasks found) refl);
  grants = λ id g found. ground (arith, lookup-map_values revoke_grant id app.grants);
}

-- A delivery with its end.
abbrev pub Finished : Application → Uuid → Type 0
Finished app id =
    (d : DeliveryAttempt) → lookup id app.deliveries ≡ some d → is_some d.status ≡ true

-- A round leaves the tasks, the grants and the finished deliveries alone, and finishes its own.
record Round (e : Error) (x : Uuid) (app app' : Application) : Type 0 where
  pub tasks : app'.tasks ≡ app.tasks
  pub revoked_tasks : app'.revoked_tasks ≡ app.revoked_tasks
  pub grants : app'.grants ≡ app.grants
  pub own : Finished app' x
  pub others : (id : Uuid) → Finished app id → Finished app' id
  pub old :
      (id : Uuid) (d : DeliveryAttempt)
      → lookup id app'.deliveries ≡ some d
      → is_some (lookup id app.deliveries) ≡ true

finish_delivery-Round :
    (e : Error) (x : Uuid) (app app' : Application)
    → finish_delivery e x app ≡ ok app'
    → Round e x app app'
unfolding finish_delivery
finish_delivery-Round e x app app' h = elim (Option-cases (lookup x app.deliveries)) [
  | inl missing ↦ record {
    tasks = ground arith;
    revoked_tasks = ground arith;
    grants = ground arith;
    own = λ d found. absurd (ground arith);
    others = λ id f. λ d found. f d (ground arith);
    old = λ id d found. ground arith;
  }
  | inr (d, there) ↦ record {
    tasks = ground arith;
    revoked_tasks = ground arith;
    grants = ground arith;
    own = λ c found. ground (
      arith,
      lookup-insert_self x (record d { status = some DeliveryStatus.unknown }) app.deliveries,
    );
    others = λ id f. λ c found. ground (
      arith,
      lookup-insert x id (record d { status = some DeliveryStatus.unknown }) app.deliveries,
      f c,
    );
    old = λ id c found. ground (
      arith,
      lookup-insert x id (record d { status = some DeliveryStatus.unknown }) app.deliveries,
      nat_eq.beq_iff x id,
    );
  }
]

-- All rounds.
pub finish_each-Finished :
    (e : Error) (ids : List Uuid) (app app' : Application)
    → fold_each (finish_delivery e) ids app ≡ ok app'
    → (app'.tasks ≡ app.tasks)
      × (app'.revoked_tasks ≡ app.revoked_tasks)
      × (app'.grants ≡ app.grants)
      × ((id : Uuid) → (contains ids id ≡ true) ⊎ Finished app id → Finished app' id)
      × ((id : Uuid) (d : DeliveryAttempt)
          → lookup id app'.deliveries ≡ some d
          → is_some (lookup id app.deliveries) ≡ true)
unfolding fold_each
finish_each-Finished e [] app app' h =
    let same : app ≡ app' = ground arith in
    (
      ground arith,
      ground arith,
      ground arith,
      λ id c. elim c [
        | inl absent ↦ absurd (ground arith)
        | inr f ↦ subst (λ a. Finished a id) same f
      ],
      λ id d found. ground arith,
    )
finish_each-Finished e (x ∷ ids) app app' h =
    let (next, step, rest) = bind_ok (finish_delivery e x app) _ _ h in
    let r = finish_delivery-Round e x app next step in
    let (tasks, revoked, grants, finished, old) = finish_each-Finished e ids next app' rest in
    (
      tasks ∙ r.tasks,
      revoked ∙ r.revoked_tasks,
      grants ∙ r.grants,
      λ id c. finished id (elim c [
        | inr f ↦ inr (r.others id f)
        | inl listed ↦ elim (Bool-cases (x == id)) [
          | inl same ↦
              let q : x ≡ id = ground (arith, nat_eq.beq_iff x id) in
              inr (subst (λ y. Finished next y) q r.own)
          | inr other ↦ inl (ground arith)
        ]
      ]),
      λ id d found. elim (Option-cases (lookup id next.deliveries)) [
        | inl none_there ↦ absurd (let o = old id d found in ground arith)
        | inr (d', found') ↦ r.old id d' found'
      ],
    )
