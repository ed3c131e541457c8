-- ===== src/Application/Update.antt =====
-- src/agent/mod.rs, `mutate`: the effect of a first successful call on an existing record.
use credman.Base.{◌≡◌, refl, sym, ap, ◌∙◌, false, none, some, arith, inl, inr, subst, nat_eq}
use credman.Base.Dict.{lookup}
use credman.Result.{Result, ok}
use credman.Types.{
  Uuid, Time, Digest, AuthenticatedContext, TaskApproval, Receipt, Record, Application, Mutation,
  key_eq,
}
use credman.Generation.{Answers}
use credman.Clock.{clock}
use credman.Clock.Frame.{SameButClock, clock_frame}
use credman.Policy.Admission.{target, expected, Admission, Admitted, authorize_ok}
use credman.Application.Records.{audit, carry_out}
use credman.Application.Plan.{Codec, Plan, replay, perform, plan, request_key, resolve}
use credman.Application.Planned.{plan_ok, Performs}
use credman.Application.Outcome.{execute_ok, mutate_ok}
use credman.Application.Atomic.{resolve_ok}
use credman.Application.Effect.{IsU64, Updates, carry_out-Updates}
use credman.Application.Mutate.{remember, execute, mutate}

records-remember :
    (ctx : AuthenticatedContext) (id request : Uuid) (op : Mutation) (fingerprint : Digest)
    (now : Time) (receipt : Receipt) (app : Application)
    → (remember ctx id request op fingerprint now receipt app).records ≡ app.records
unfolding remember audit
records-remember ctx id request op fingerprint now receipt app = refl

resolve_aimed :
    (app : Application) (answers : Answers) (op op' : Mutation) (id : Uuid)
    → target op ≡ some id
    → resolve app answers op ≡ ok op'
    → op ≡ op'
resolve_aimed app answers op op' id aimed h = elim (resolve_ok app answers op op' h) [
  | inl same ↦ same
  | inr (k, values, made, untargeted) ↦ absurd (ground arith)
]

Admission-at :
    (app : Application) (ctx : AuthenticatedContext) (t : TaskApproval) (op : Mutation) (now : Time)
    (id : Uuid)
    → target op ≡ some id
    → Admitted app ctx t op now
    → Admission app ctx t id op now
Admission-at app ctx t op now id aimed a = rw (aimed, Admitted) at a

Updates-frame :
    (op : Mutation) (id : Uuid) (r : Record) (a b c d : Application) (receipt : Receipt)
    → a.records ≡ b.records
    → d.records ≡ c.records
    → Updates op id r b c receipt
    → Updates op id r a d receipt
Updates-frame op id r a b c d receipt before after u = record {
  r' = u.r';
  stored = rw after u.stored;
  identity = u.identity;
  revision = u.revision;
  version = u.version;
  of_record = u.of_record;
  at_revision = u.at_revision;
  others = λ j other. rw (after, before) (u.others j other);
}

-- What a first successful call on the record `id` has met and what it leaves.
pub record Mutated (ctx : AuthenticatedContext) (op : Mutation) (id : Uuid)
    (before after : Application) (receipt : Receipt) : Type 0 where
  pub r : Record
  pub found : lookup id before.records ≡ some r
  pub owner : r.owner ≡ ctx.owner
  pub workspace : r.workspace ≡ ctx.workspace
  pub kept : r.deleted ≡ false
  pub current : r.revision ≡ expected op
  pub updates : Updates op id r before after receipt

Mutated-frame :
    (ctx : AuthenticatedContext) (op : Mutation) (id : Uuid) (receipt : Receipt)
    (a b c : Application)
    → SameButClock a b
    → Mutated ctx op id b c receipt
    → Mutated ctx op id a c receipt
Mutated-frame ctx op id receipt a b c frame m = record {
  r = m.r;
  found = ground (arith, m.found, frame.records);
  owner = m.owner;
  workspace = m.workspace;
  kept = m.kept;
  current = m.current;
  updates = Updates-frame op id m.r a b c c receipt (sym frame.records) refl m.updates;
}

module _ (codec : Codec) (fresh : Uuid) (answers : Answers) (ctx : AuthenticatedContext)
    (task request : Uuid) (op : Mutation) (id : Uuid) (aimed : target op ≡ some id) where
  execute_updates :
      (now : Time) (app : Application) (t : TaskApproval) (fingerprint : Digest) (op' : Mutation)
      (receipt : Receipt)
      → ((r : Record) → lookup id app.records ≡ some r → IsU64 r)
      → Performs codec answers ctx task request op now app t fingerprint op'
      → (execute fresh ctx task request op now (perform t fingerprint op') app).0 ≡ ok receipt
      → Mutated ctx op id app
          (execute fresh ctx task request op now (perform t fingerprint op') app).1
          receipt
  execute_updates now app t fingerprint op' receipt small facts h =
      let done = execute_ok fresh ctx task request op now t fingerprint op' app receipt h in
      let same = resolve_aimed app answers op op' id aimed facts.resolved in
      let a =
        Admission-at app ctx t op now id aimed (authorize_ok app ctx t now op facts.allowed) in
      let carried : (carry_out fresh ctx t task op app).0 ≡ ok receipt = rw same done.0 in
      record {
        r = a.found;
        found = a.at_id;
        owner = a.owner;
        workspace = a.workspace;
        kept = a.kept;
        current = a.current;
        updates =
            Updates-frame op id a.found app app (carry_out fresh ctx t task op app).1 _ receipt refl
              (ap (λ (s : Application). s.records) done.1
                ∙ records-remember ctx task request op fingerprint now receipt _
                ∙ ap (λ o. (carry_out fresh ctx t task o app).1.records) (sym same))
              (carry_out-Updates fresh ctx t task app op id a.found receipt aimed a.at_id
                (small a.found a.at_id) a.room carried);
      }

  -- A first successful mutation of a record (its request is new) has met the record in the scope of
  -- the caller, not deleted, and at the expected revision. It raises the revision by one, and the
  -- secret version by one exactly if it patches the username or a secret; the receipt names the
  -- record and the new revision. The record's identity and every other record stay as they were.
  pub mutate_updates :
      (now : Time) (app : Application) (receipt : Receipt)
      → ((r : Record) → lookup id app.records ≡ some r → IsU64 r)
      → lookup (request_key ctx task request) app.requests ≡ none
      → (mutate codec fresh answers ctx task request op now app).0 ≡ ok receipt
      → Mutated ctx op id app (mutate codec fresh answers ctx task request op now app).1 receipt
  mutate_updates now app receipt small unused h =
      let run = mutate_ok fresh ctx task request op codec answers now app receipt h in
      let frame = clock_frame now app in
      let run_ok = ap (λ (o : Result Receipt × Application). o.0) (sym run.executed) ∙ h in
      subst (λ (o : Result Receipt × Application). Mutated ctx op id app o.1 receipt)
        (sym run.executed) (from_plan run.at (clock now app).1 run.decided frame run.planned run_ok)
    where
      from_plan :
          (at : Time) (ticked : Application) (p : Plan)
          → SameButClock app ticked
          → plan codec answers ctx task request op at ticked ≡ ok p
          → (execute fresh ctx task request op at p ticked).0 ≡ ok receipt
          → Mutated ctx op id app (execute fresh ctx task request op at p ticked).1 receipt
      from_plan at ticked (replay r) frame planned done =
          let facts = plan_ok codec answers ctx task request op at ticked _ planned in
          absurd (ground (arith, facts.remembered, frame.requests))
      from_plan at ticked (perform t fingerprint op') frame planned done =
          let facts = plan_ok codec answers ctx task request op at ticked _ planned in
          let m =
            execute_updates at ticked t fingerprint op' receipt (λ r found. small r (ground arith))
              facts done in
          Mutated-frame ctx op id receipt app ticked _ frame m
