-- ===== src/Application/Growth.antt =====
-- src/agent/mod.rs, the match of `mutate` that makes the receipt: the maps that it extends.
use credman.Base.{
  ◌≡◌, refl, sym, true, none, some, [], arith, inl, inr, subst, nat_eq, Option-cases,
}
use credman.Base.Dict.{Dict, lookup, insert, map_values}
use credman.Base.Growth.{Grows, Grows-refl, Grows-insert_new, Grows-insert_over, Grows-map_values}
use credman.Result.{ok, Result-cases}
use credman.Types.{
  Uuid, Time, AuthenticatedContext, TaskApproval, Record, Grant, GrantSpec, Application, Mutation,
  create, generate, patch, delete, share, revoke, report_outcome, SecretInput, CredentialKind,
  SignupState,
}
use credman.Generation.{Answers}
use credman.Policy.Admission.{Admitted}
use credman.Application.Plan.{resolve}
use credman.Application.Atomic.{resolve_ok}
use credman.Application.Records.{
  bumped, patched, new_record, new_grant, revoke_of, revoke_grant, get_record, put_record,
  create_record, patch_record, share_record, revoke_record, delete_record, report_record, carry_out,
}
use credman.Application.History.{
  Later, Later-refl, GrantKept, RecordKept, GrantKept-refl, RecordKept-refl,
}

-- The states of a mutation: as it was, or with a record and a grant map written.
data Written (app : Application) : Application → Type 0 where
  untouched : Written app app
  wrote :
      (id : Uuid) (r : Record) (grants : Dict Uuid Grant)
      → Grows RecordKept app.records (insert id r app.records)
      → Grows GrantKept app.grants grants
      → Written app (record (record app { records = insert id r app.records }) { grants = grants })

Written-Later : (app app' : Application) → Written app app' → Later app app'
Written-Later app app' untouched = Later-refl app
Written-Later app app' (wrote id r grants records grown) = record {
  tasks = Grows-refl _ (λ t. refl) app.tasks;
  revoked_tasks = λ i h. h;
  records = records;
  grants = grown;
}

module _ (app : Application) where
  same_grants : Grows GrantKept app.grants app.grants
  same_grants = Grows-refl GrantKept GrantKept-refl app.grants

  over :
      (id : Uuid) (r r' : Record)
      → lookup id app.records ≡ some r
      → RecordKept r r'
      → Grows RecordKept app.records (insert id r' app.records)
  over id r r' = Grows-insert_over RecordKept RecordKept-refl id r r' app.records

  bumped_over :
      (id : Uuid) (r : Record)
      → lookup id app.records ≡ some r
      → Grows RecordKept app.records (insert id (bumped r) app.records)
  bumped_over id r found = over id r (bumped r) found (ground arith)

  create_Written :
      (fresh : Uuid) (ctx : AuthenticatedContext) (t : TaskApproval) (task : Uuid)
      (kind : CredentialKind) (values : SecretInput)
      → lookup fresh app.records ≡ none
      → Written app (create_record fresh ctx t task kind values app).1
  unfolding create_record put_record
  create_Written fresh ctx t task kind values unused =
      elim (Result-cases (create_record fresh ctx t task kind values app).0) [
        | inr (e, failed) ↦ subst (Written app) (ground arith) untouched
        | inl (receipt, done) ↦ subst (Written app) (ground arith) (
            wrote fresh (new_record fresh ctx t task kind values) app.grants
              (Grows-insert_new RecordKept RecordKept-refl fresh _ app.records unused) same_grants)
      ]

  patch_Written : (id : Uuid) (values : SecretInput) → Written app (patch_record id values app).1
  unfolding patch_record get_record put_record
  patch_Written id values = elim (Option-cases (lookup id app.records)) [
    | inl missing ↦ subst (Written app) (ground arith) untouched
    | inr (r, found) ↦ elim (Result-cases (patch_record id values app).0) [
      | inr (e, failed) ↦ subst (Written app) (ground arith) untouched
      | inl (receipt, done) ↦ subst (Written app) (ground arith) (
          wrote id (patched r values) app.grants
            (over id r (patched r values) found (unfold patched in ground arith)) same_grants)
    ]
  ]

  share_Written :
      (fresh : Uuid) (ctx : AuthenticatedContext) (task id : Uuid) (spec : GrantSpec)
      → lookup fresh app.grants ≡ none
      → Written app (share_record fresh ctx task id spec app).1
  unfolding share_record get_record put_record
  share_Written fresh ctx task id spec unused = elim (Option-cases (lookup id app.records)) [
    | inl missing ↦ subst (Written app) (ground arith) untouched
    | inr (r, found) ↦ elim (Result-cases (share_record fresh ctx task id spec app).0) [
      | inr (e, failed) ↦ subst (Written app) (ground arith) untouched
      | inl (receipt, done) ↦ subst (Written app) (ground arith) (
          wrote id (bumped r)
            (insert fresh (new_grant ctx task id spec r.secret_version) app.grants)
            (bumped_over id r found)
            (Grows-insert_new GrantKept GrantKept-refl fresh _ app.grants unused))
    ]
  ]

  revoke_Written :
      (id grant : Uuid) (r : Record)
      → lookup id app.records ≡ some r
      → Written app (revoke_record id grant app).1
  unfolding revoke_record get_record put_record
  revoke_Written id grant r found = elim (Option-cases (lookup grant app.grants)) [
    | inl missing ↦ subst (Written app) (ground arith) untouched
    | inr (g, held) ↦ subst (Written app) (ground arith) (
        wrote id (bumped r) (insert grant (revoke_grant g) app.grants) (bumped_over id r found) (
          Grows-insert_over GrantKept GrantKept-refl grant g (revoke_grant g) app.grants held
            (ground arith)))
  ]

  delete_Written : (id : Uuid) → Written app (delete_record id app).1
  unfolding delete_record get_record put_record
  delete_Written id = elim (Option-cases (lookup id app.records)) [
    | inl missing ↦ subst (Written app) (ground arith) untouched
    | inr (r, found) ↦ subst (Written app) (ground arith) (
        wrote id (record (bumped r) { deleted = true; values = [] })
          (map_values (revoke_of id) app.grants) (over id r _ found (ground arith))
          (Grows-map_values GrantKept (revoke_of id) (λ g. ground arith) app.grants))
  ]

  report_Written : (id : Uuid) (state : SignupState) → Written app (report_record id state app).1
  unfolding report_record get_record put_record
  report_Written id state = elim (Option-cases (lookup id app.records)) [
    | inl missing ↦ subst (Written app) (ground arith) untouched
    | inr (r, found) ↦ subst (Written app) (ground arith) (
        wrote id (record (bumped r) { signup = state }) app.grants
          (over id r _ found (ground arith)) same_grants)
  ]

-- The identifier that `Uuid::new_v4` returns is new.
pub record Unused (fresh : Uuid) (app : Application) : Type 0 where
  pub as_record : lookup fresh app.records ≡ none
  pub as_grant : lookup fresh app.grants ≡ none

module _ (fresh : Uuid) (ctx : AuthenticatedContext) (t : TaskApproval) (task : Uuid) (now : Time)
    (app : Application) (unused : Unused fresh app) where
  carry_out-Written :
      (op : Mutation)
      → Admitted app ctx t op now
      → Written app (carry_out fresh ctx t task op app).1
  unfolding carry_out
  carry_out-Written (create kind values) a =
      create_Written app fresh ctx t task kind values unused.as_record
  carry_out-Written (generate _ _ _) a = untouched
  carry_out-Written (patch id _ values) a = patch_Written app id values
  carry_out-Written (delete id _) a = delete_Written app id
  carry_out-Written (share id _ spec) a = share_Written app fresh ctx task id spec unused.as_grant
  carry_out-Written (revoke id _ grant) a = revoke_Written app id grant a.found a.at_id
  carry_out-Written (report_outcome id _ state) a = report_Written app id state

  pub resolved_Later :
      (answers : Answers) (op op' : Mutation)
      → resolve app answers op ≡ ok op'
      → Admitted app ctx t op now
      → Later app (carry_out fresh ctx t task op' app).1
  resolved_Later answers op op' r a = Written-Later app _ (elim (resolve_ok app answers op op' r) [
    | inl same ↦ carry_out-Written op' (subst (λ o. Admitted app ctx t o now) same a)
    | inr (k, values, made, _) ↦
        carry_out-Written op' (subst (λ o. Admitted app ctx t o now) (sym made) tt)
  ])
