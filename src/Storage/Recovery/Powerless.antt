-- ===== src/Storage/Recovery/Powerless.antt =====
-- src/agent/storage/recovery.rs, `sanitize`, and src/agent/storage/backup.rs, `prepare_restored`: nobody
-- keeps any authority, and nothing is left unfinished.
use credman.Base.{
  ℕ, ◌+◌, ◌≡◌, refl, subst, ◌∙◌, true, false, none, some, arith, nat_eq, contains, is_some,
  Option-cases, inl, inr,
}
use credman.Base.Dict.{lookup, keys, map_values, lookup-insert, lookup-map_values}
use credman.Result.{
  Error, Result, ok, err, bind_ok, then_ok, denied, map_err, recovery_required, invalid_storage,
}
use credman.Loops.{fold_each_inv}
use credman.Types.{
  Uuid, Time, Application, AuthenticatedContext, TaskApproval, Record, DeliveryAttempt, SignupState,
  action_eq,
}
use credman.Policy.{task}
use credman.Storage.{Images}
use credman.Storage.Vault.{next_generation}
use credman.Storage.Reopen.{admin_scope}
use credman.Storage.Recovery.{
  revoke_all, finish_delivery, finish_deliveries, sanitize, prepare_restored, restored_mark,
}
use credman.Storage.Rekey.{one_more}
use credman.Storage.Recovery.Finished.{
  Revoked, revoke_all-Revoked, finish_each-Finished, keys-contains,
}

-- Nobody has a task or a grant, and every delivery has its end.
pub record Powerless (app : Application) : Type 0 where
  pub revoked : Revoked app
  pub finished :
      (id : Uuid) (d : DeliveryAttempt)
      → lookup id app.deliveries ≡ some d
      → is_some d.status ≡ true
  pub denied_to_all :
      (ctx : AuthenticatedContext) (id : Uuid) (now : Time) → task app ctx id now ≡ err denied

finished-Powerless :
    (e : Error) (app finished end : Application)
    → Revoked app
    → finish_deliveries e app ≡ ok finished
    → end.tasks ≡ finished.tasks
    → end.revoked_tasks ≡ finished.revoked_tasks
    → end.grants ≡ finished.grants
    → end.deliveries ≡ finished.deliveries
    → Powerless end
unfolding finish_deliveries task
finished-Powerless e app finished end r h tasks revoked grants deliveries =
    let (t, v, g, f, old) = finish_each-Finished e (keys app.deliveries) app finished h in
    let tasks_revoked : (id : Uuid) (a : TaskApproval)
        → lookup id end.tasks ≡ some a
        → contains end.revoked_tasks id ≡ true =
      λ id a found. rw revoked (rw v (r.tasks id a (ground arith))) in
    record {
      revoked = record {
        tasks = tasks_revoked;
        grants = λ id a found. r.grants id a (ground arith);
      };
      finished = λ id d found.
          let there : lookup id finished.deliveries ≡ some d = ground arith in
          f id
            (elim (Option-cases (lookup id app.deliveries)) [
              | inl missing ↦ absurd (let o = old id d there in ground arith)
              | inr (d', found') ↦ inl (keys-contains id d' app.deliveries found')
            ])
            d there;
      denied_to_all = λ ctx id now. elim (Option-cases (lookup id end.tasks)) [
        | inl missing ↦ ground arith
        | inr (a, found) ↦ ground (arith, tasks_revoked id a found)
      ];
    }

restored_Round :
    (e : Error) (x : Uuid) (app app' : Application)
    → finish_delivery e x app ≡ ok app'
    → ((id : Uuid) (r : Record) → lookup id app.records ≡ some r → r.restored ≡ true)
    → (id : Uuid) (r : Record) → lookup id app'.records ≡ some r
    → r.restored ≡ true
unfolding finish_delivery
restored_Round e x app app' h all id r found = elim (Option-cases (lookup x app.deliveries)) [
  | inl missing ↦ all id r (ground arith)
  | inr (d, there) ↦ elim (Option-cases (lookup d.record_id app.records)) [
    | inl missing ↦ all id r (ground arith)
    | inr (q, at) ↦ ground (
      arith,
      all id r,
      all d.record_id q,
      lookup-insert d.record_id id (record q { signup = SignupState.unknown }) app.records,
    )
  ]
]

abbrev AllRestored : Application → Type 0
AllRestored app = (id : Uuid) (r : Record) → lookup id app.records ≡ some r → r.restored ≡ true

finish_deliveries_restored :
    (e : Error) (app app' : Application)
    → finish_deliveries e app ≡ ok app'
    → AllRestored app
    → AllRestored app'
unfolding finish_deliveries
finish_deliveries_restored e app app' h =
    fold_each_inv (finish_delivery e) AllRestored (restored_Round e) (keys app.deliveries) app app'
      h

finish_delivery_generation :
    (e : Error) (n : ℕ) (x : Uuid) (app app' : Application)
    → finish_delivery e x app ≡ ok app'
    → app.generation ≡ n
    → app'.generation ≡ n
unfolding finish_delivery
finish_delivery_generation e n x app app' h g = ground arith

finish_deliveries_generation :
    (e : Error) (app app' : Application)
    → finish_deliveries e app ≡ ok app'
    → app'.generation ≡ app.generation
unfolding finish_deliveries
finish_deliveries_generation e app app' h =
    fold_each_inv (finish_delivery e) (λ (a : Application). a.generation ≡ app.generation)
      (finish_delivery_generation e app.generation) (keys app.deliveries) app app' h refl

pub map_err_ok {ℓ} :
    {A : Type ℓ} (r : Result A) (a : A) → map_err r recovery_required ≡ ok a → r ≡ ok a
map_err_ok r a h = ground arith

module _ (images : Images) (app app' : Application) (now : Time) where
  -- What `sanitize` makes of a vault is valid and nobody has any authority in it: its tasks and grants are
  -- revoked, no operation under any task is accepted at any time, and no delivery is left without an
  -- end. Its clock runs again from the time that the human gave, and it is the next generation.
  pub sanitize-Powerless :
      sanitize images app now ≡ ok app'
      → Powerless app'
        × (images.validate app' ≡ ok tt)
        × (app'.clock_frozen ≡ false)
        × (app'.last_time ≡ some now)
        × (app'.predecessor ≡ none)
        × (app'.generation ≡ app.generation + 1)
  unfolding sanitize
  sanitize-Powerless h =
      let (generation, counted, h1) =
        bind_ok (map_err (next_generation app) recovery_required) _ _ h in
      let start = record (revoke_all app) { generation = generation } in
      let (finished, ended, h2) = bind_ok (finish_deliveries recovery_required start) _ _ h1 in
      let clean = record finished {
        clock_frozen = false;
        last_time = some now;
        predecessor = none;
      } in
      let (valid, made) = then_ok (map_err (images.validate clean) recovery_required) _ _ h2 in
      let same : clean ≡ app' = ground arith in
      let q = revoke_all-Revoked app in
      let powerless =
        finished-Powerless recovery_required start finished clean
          (record { tasks = q.tasks; grants = q.grants }) ended refl refl refl refl in
      let count : finished.generation ≡ app.generation + 1 =
        finish_deliveries_generation recovery_required start finished ended
        ∙ one_more app generation (map_err_ok (next_generation app) generation counted) in
      subst
        (λ a.
          Powerless a
          × (images.validate a ≡ ok tt)
          × (a.clock_frozen ≡ false)
          × (a.last_time ≡ some now)
          × (a.predecessor ≡ none)
          × (a.generation ≡ app.generation + 1))
        same (powerless, map_err_ok (images.validate clean) tt valid, refl, refl, refl, count)

  -- What a restored copy starts from is valid and nobody has any authority in it, as after `sanitize`, and
  -- every record carries the mark of a copy. Only an administrator of all its tasks and records
  -- makes one; it is the next generation, and its clock does not go back.
  pub prepare_restored-Powerless :
      (admin : AuthenticatedContext)
      → prepare_restored images app admin now ≡ ok app'
      → Powerless app'
        × ((id : Uuid) (r : Record) → lookup id app'.records ≡ some r → r.restored ≡ true)
        × (admin_scope app admin ≡ ok tt)
        × (images.validate app' ≡ ok tt)
        × (app'.predecessor ≡ none)
        × (app'.generation ≡ app.generation + 1)
  unfolding prepare_restored
  prepare_restored-Powerless admin h =
      let (scoped, h0) = then_ok (admin_scope app admin) _ _ h in
      let (generation, counted, h1) = bind_ok (next_generation app) _ _ h0 in
      let start = record (revoke_all app) {
        generation = generation;
        records = map_values (λ (r : Record). record r { restored = true }) app.records;
      } in
      let (finished, ended, h2) = bind_ok (finish_deliveries invalid_storage start) _ _ h1 in
      let copy = record finished {
        last_time = some (restored_mark finished.last_time now);
        predecessor = none;
      } in
      let (valid, made) = then_ok (images.validate copy) _ _ h2 in
      let same : copy ≡ app' = ground arith in
      let q = revoke_all-Revoked app in
      let powerless =
        finished-Powerless invalid_storage start finished copy
          (record { tasks = q.tasks; grants = q.grants }) ended refl refl refl refl in
      let count : finished.generation ≡ app.generation + 1 =
        finish_deliveries_generation invalid_storage start finished ended
        ∙ one_more app generation counted in
      let marked = finish_deliveries_restored invalid_storage start finished ended (λ id r found.
        ground (
          arith,
          lookup-map_values (λ (r : Record). record r { restored = true }) id app.records,
        )) in
      subst
        (λ a.
          Powerless a
          × ((id : Uuid) (r : Record) → lookup id a.records ≡ some r → r.restored ≡ true)
          × (admin_scope app admin ≡ ok tt)
          × (images.validate a ≡ ok tt)
          × (a.predecessor ≡ none)
          × (a.generation ≡ app.generation + 1))
        same (powerless, marked, scoped, valid, refl, count)
