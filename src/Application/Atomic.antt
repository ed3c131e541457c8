-- ===== src/Application/Atomic.antt =====
-- src/agent/mod.rs: the state after an operation that fails.
use credman.Base.{◌≡◌, refl, sym, none, some, arith, inl, inr, ◌⊎◌, subst, nat_eq}
use credman.Base.Dict.{lookup}
use credman.Result.{Error, ok, err, Result-cases}
use credman.Types.{
  Uuid, Time, AuthenticatedContext, TaskApproval, GrantSpec, Application, Record, Mutation,
  SecretInput, create, generate, patch, delete, share, revoke, report_outcome, CredentialKind,
}
use credman.Generation.{Answers, generate_values}
use credman.Clock.{clock}
use credman.Application.Records.{
  create_record, patch_record, share_record, revoke_record, delete_record, report_record, carry_out,
}
use credman.Policy.Admission.{target, Admitted, authorize_ok}
use credman.Application.Planned.{plan_ok}
use credman.Application.Plan.{resolve, Codec, Plan, replay, perform, plan}
use credman.Application.Mutate.{execute, mutate}

share_record_error :
    (fresh : Uuid) (ctx : AuthenticatedContext) (task id : Uuid) (spec : GrantSpec)
    (app : Application) (e : Error)
    → (share_record fresh ctx task id spec app).0 ≡ err e
    → (share_record fresh ctx task id spec app).1 ≡ app
unfolding share_record
share_record_error fresh ctx task id spec app e h = ground arith

-- The record of an admitted revocation is there, so that the grant is not written alone.
revoke_record_error :
    (id grant : Uuid) (r : Record) (app : Application) (e : Error)
    → lookup id app.records ≡ some r
    → (revoke_record id grant app).0 ≡ err e
    → (revoke_record id grant app).1 ≡ app
unfolding revoke_record
revoke_record_error id grant r app e found h = ground arith

-- A mutation that `mutate` resolves is itself, or the creation that stands for a generation.
pub resolve_ok :
    (app : Application) (answers : Answers) (op op' : Mutation)
    → resolve app answers op ≡ ok op'
    → (op ≡ op')
      ⊎ ((k : CredentialKind) × (values : SecretInput) × (op' ≡ create k values)
          × (target op ≡ none))
unfolding resolve
resolve_ok app answers (generate kind name policy) op' h =
    elim (Result-cases (generate_values kind name policy answers).0) [
      | inl (values, drawn) ↦ inr (kind, values, ground arith, refl)
      | inr (e, failed) ↦ absurd (ground arith)
    ]
resolve_ok app answers (create kind values) op' h = inl (ground arith)
resolve_ok app answers _ op' h = inl (ground arith)

module _ (fresh : Uuid) (ctx : AuthenticatedContext) (t : TaskApproval) (task : Uuid) (now : Time)
    (app : Application) (e : Error) where
  carry_out_error :
      (op : Mutation)
      → Admitted app ctx t op now
      → (carry_out fresh ctx t task op app).0 ≡ err e
      → (carry_out fresh ctx t task op app).1 ≡ app
  unfolding carry_out
  carry_out_error (create kind values) a h = unfold create_record in ground arith
  carry_out_error (generate _ _ _) a h = refl
  carry_out_error (patch id _ values) a h = unfold patch_record in ground arith
  carry_out_error (delete id _) a h = unfold delete_record in ground arith
  carry_out_error (share id _ spec) a h = share_record_error fresh ctx task id spec app e h
  carry_out_error (revoke id _ grant) a h = revoke_record_error id grant a.found app e a.at_id h
  carry_out_error (report_outcome id _ state) a h = unfold report_record in ground arith

  resolved_error :
      (answers : Answers) (op op' : Mutation)
      → resolve app answers op ≡ ok op'
      → Admitted app ctx t op now
      → (carry_out fresh ctx t task op' app).0 ≡ err e
      → (carry_out fresh ctx t task op' app).1 ≡ app
  resolved_error answers op op' r a h = elim (resolve_ok app answers op op' r) [
    | inl same ↦ carry_out_error op' (subst (λ o. Admitted app ctx t o now) same a) h
    | inr (k, values, made, _) ↦
        carry_out_error op' (subst (λ o. Admitted app ctx t o now) (sym made) tt) h
  ]

module _ (codec : Codec) (fresh : Uuid) (answers : Answers) (ctx : AuthenticatedContext)
    (id request : Uuid) (op : Mutation) (e : Error) where
  execute_error :
      (now : Time) (app : Application) (p : Plan)
      → plan codec answers ctx id request op now app ≡ ok p
      → (execute fresh ctx id request op now p app).0 ≡ err e
      → (execute fresh ctx id request op now p app).1 ≡ app
  unfolding execute
  execute_error now app (replay receipt) planned h = refl
  execute_error now app (perform t fingerprint op') planned h =
      let facts = plan_ok codec answers ctx id request op now app _ planned in
      let admitted = authorize_ok app ctx t now op facts.allowed in
      ground (arith, resolved_error fresh ctx t id now app e answers op op' facts.resolved admitted)

  -- A mutation that fails leaves the vault as the clock left it: no record, grant, receipt or audit
  -- event is written.
  pub mutate_error :
      (now : Time) (app : Application)
      → (mutate codec fresh answers ctx id request op now app).0 ≡ err e
      → (mutate codec fresh answers ctx id request op now app).1 ≡ (clock now app).1
  unfolding mutate
  mutate_error now app h = elim (Result-cases (clock now app).0) [
    | inr (e', stopped) ↦ ground arith
    | inl (now', ticked) ↦
        elim (Result-cases (plan codec answers ctx id request op now' (clock now app).1)) [
          | inr (e', refused) ↦ ground arith
          | inl (p, planned) ↦ ground (arith, execute_error now' (clock now app).1 p planned)
        ]
  ]
