-- ===== src/Storage/Recovery/Within.antt =====
-- src/agent/storage/recovery.rs, `sanitize`: the vault stays within the scope of its administrator.
use credman.Base.{
  ◌≡◌, inl, inr, subst, Bool, false, ◌||◌, none, some, [], ◌∷◌, arith, ◌!=◌, nat_eq, string_eq,
  list_eq, any, Option-cases,
}
use credman.Base.Dict.{Dict, lookup, insert, values, keys}
use credman.Result.{ok, bind_ok, then_ok, map_err, recovery_required}
use credman.Loops.{fold_each_inv}
use credman.Types.{Uuid, Application, AuthenticatedContext, Time, SignupState}
use credman.Storage.{Images}
use credman.Storage.Vault.{next_generation}
use credman.Storage.Reopen.{admin_scope}
use credman.Storage.Recovery.{revoke_all, finish_delivery, finish_deliveries, sanitize, scope}
use credman.Storage.Recovery.Powerless.{sanitize-Powerless}

-- A record in the place of one that belongs to the same owner.
any-insert :
    {V : Type 0} (p : V → Bool) (k : Uuid) (v : V) (d : Dict Uuid V)
    → any p (values d) ≡ false
    → p v ≡ false
    → any p (values (insert k v d)) ≡ false
unfolding values insert
any-insert p k v [] h q = ground arith
any-insert p k v ((j, w) ∷ d) h q = ground (arith, any-insert p k v d)

any-lookup :
    {V : Type 0} (p : V → Bool) (k : Uuid) (v : V) (d : Dict Uuid V)
    → any p (values d) ≡ false
    → lookup k d ≡ some v
    → p v ≡ false
unfolding values lookup
any-lookup p k v [] h q = absurd (ground arith)
any-lookup p k v ((j, w) ∷ d) h q = ground (arith, any-lookup p k v d)

finish_delivery-scope :
    (admin : AuthenticatedContext) (x : Uuid) (app app' : Application)
    → finish_delivery recovery_required x app ≡ ok app'
    → scope app admin ≡ ok tt
    → scope app' admin ≡ ok tt
unfolding finish_delivery admin_scope
finish_delivery-scope admin x app app' h s = elim (Option-cases (lookup x app.deliveries)) [
  | inl missing ↦ ground arith
  | inr (d, there) ↦ elim (Option-cases (lookup d.record_id app.records)) [
    | inl missing ↦ ground arith
    | inr (r, at) ↦ ground (
      arith,
      any-lookup (λ r. r.owner != admin.owner || r.workspace != admin.workspace) d.record_id r
          app.records,
      any-insert (λ r. r.owner != admin.owner || r.workspace != admin.workspace) d.record_id
          (record r { signup = SignupState.unknown }) app.records,
    )
  ]
]

pub sanitize-scope :
    (images : Images) (admin : AuthenticatedContext) (app app' : Application) (now : Time)
    → sanitize images app now ≡ ok app'
    → scope app admin ≡ ok tt
    → scope app' admin ≡ ok tt
unfolding sanitize revoke_all finish_deliveries admin_scope
sanitize-scope images admin app app' now h s =
    let (generation, counted, h1) =
      bind_ok (map_err (next_generation app) recovery_required) _ _ h in
    let start = record (revoke_all app) { generation = generation } in
    let (finished, ended, h2) = bind_ok (finish_deliveries recovery_required start) _ _ h1 in
    let clean = record finished {
      clock_frozen = false;
      last_time = some now;
      predecessor = none;
    } in
    let (valid, made) = then_ok (map_err (images.validate clean) recovery_required) _ _ h2 in
    let same : clean ≡ app' = ground arith in
    let kept =
      fold_each_inv (finish_delivery recovery_required) (λ (a : Application). scope a admin ≡ ok tt)
        (finish_delivery-scope admin) (keys app.deliveries) start finished ended s in
    subst (λ (a : Application). scope a admin ≡ ok tt) same kept

pub sanitize_time :
    (images : Images) (app app' : Application) (now : Time)
    → sanitize images app now ≡ ok app'
    → app'.last_time ≡ some now
sanitize_time images app app' now h =
    let (_, _, _, time, _, _) = sanitize-Powerless images app app' now h in time
