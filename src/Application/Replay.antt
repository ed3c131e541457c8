-- ===== src/Application/Replay.antt =====
-- src/agent/mod.rs, `mutate`: the same request again.
use credman.Base.{ℕ, ◌≡◌, refl, sym, ap, ◌∙◌, some, List, arith, inl, inr, subst}
use credman.Base.Dict.{lookup, lookup-insert_self}
use credman.Result.{Result, ok, err}
use credman.Types.{
  Uuid, Time, Digest, AuthenticatedContext, Receipt, Remembered, Application, Mutation, key_eq,
}
use credman.Generation.{Answers}
use credman.Clock.{clock}
use credman.Clock.Frame.{clock_frame}
use credman.Application.Records.{audit}
use credman.Application.Plan.{Codec, Plan, replay, perform, plan, request_key}
use credman.Application.Planned.{plan_ok}
use credman.Application.Outcome.{execute_ok, mutate_ok, mutate_cases}
use credman.Application.Mutate.{remember, execute, mutate}

module _ (codec : Codec) (ctx : AuthenticatedContext) (id request : Uuid) (op : Mutation) where
  -- The vault remembers the request with this input and this receipt.
  pub record Remembers (app : Application) (receipt : Receipt) : Type 0 where
    pub entry : Remembered
    pub bytes : List ℕ
    pub found : lookup (request_key ctx id request) app.requests ≡ some entry
    pub encoded : codec.mutation_bytes op ≡ some bytes
    pub same : entry.fingerprint ≡ codec.sha256 bytes
    pub result : entry.result ≡ receipt

  remember_found :
      (fingerprint : Digest) (now : Time) (receipt : Receipt) (bytes : List ℕ) (app : Application)
      → codec.mutation_bytes op ≡ some bytes
      → fingerprint ≡ codec.sha256 bytes
      → Remembers (remember ctx id request op fingerprint now receipt app) receipt
  unfolding remember audit
  remember_found fingerprint now receipt bytes app encoded sealed = record {
    entry = _;
    bytes = bytes;
    found = lookup-insert_self (request_key ctx id request) _ app.requests;
    encoded = encoded;
    same = sealed;
    result = refl;
  }

  execute-Remembers :
      (fresh : Uuid) (answers : Answers) (now : Time) (app : Application) (p : Plan)
      (receipt : Receipt)
      → plan codec answers ctx id request op now app ≡ ok p
      → (execute fresh ctx id request op now p app).0 ≡ ok receipt
      → Remembers (execute fresh ctx id request op now p app).1 receipt
  unfolding execute
  execute-Remembers fresh answers now app (replay r) receipt planned h =
      let facts = plan_ok codec answers ctx id request op now app _ planned in
      record {
        entry = facts.entry;
        bytes = facts.bytes;
        found = facts.remembered;
        encoded = facts.passed.encoded;
        same = facts.same;
        result = ground (arith, facts.result);
      }
  execute-Remembers fresh answers now app (perform t fingerprint op') receipt planned h =
      let facts = plan_ok codec answers ctx id request op now app _ planned in
      let done = execute_ok fresh ctx id request op now t fingerprint op' app receipt h in
      subst (λ s. Remembers s receipt) (sym done.1)
        (remember_found fingerprint now receipt facts.bytes _ facts.passed.encoded facts.sealed)

  pub mutate-Remembers :
      (fresh : Uuid) (answers : Answers) (now : Time) (app : Application) (receipt : Receipt)
      → (mutate codec fresh answers ctx id request op now app).0 ≡ ok receipt
      → Remembers (mutate codec fresh answers ctx id request op now app).1 receipt
  mutate-Remembers fresh answers now app receipt h =
      let run = mutate_ok fresh ctx id request op codec answers now app receipt h in
      subst (λ (o : Result Receipt × Application). Remembers o.1 receipt) (sym run.executed)
        (execute-Remembers fresh answers run.at (clock now app).1 run.decided receipt run.planned
          (ap (λ (o : Result Receipt × Application). o.0) (sym run.executed) ∙ h))

  -- The two answers that a remembered request can still get.
  abbrev pub Again : Receipt → Result Receipt → Type 0
  Again receipt (ok r) = r ≡ receipt
  Again receipt (err e) = Unit

  remembered_plan :
      (fresh : Uuid) (answers : Answers) (now : Time) (app : Application) (receipt : Receipt)
      → Remembers app receipt
      → (p : Plan) → plan codec answers ctx id request op now app ≡ ok p
      → p ≡ replay receipt
  remembered_plan fresh answers now app receipt kept (replay r) planned =
      let facts = plan_ok codec answers ctx id request op now app _ planned in
      ground (arith, facts.remembered, facts.result, kept.found, kept.result)
  remembered_plan fresh answers now app receipt kept (perform t fingerprint op') planned =
      let facts = plan_ok codec answers ctx id request op now app _ planned in
      absurd (ground (arith, facts.unused, kept.found))

  abbrev pub Answered : Receipt → Application → Result Receipt × Application → Type 0
  Answered receipt app (r, app') = Again receipt r × (app' ≡ app)

  module _ (fresh : Uuid) (answers : Answers) (now : Time) (app : Application)
      (receipt : Receipt) where
    pub remembered_again :
        Remembers (clock now app).1 receipt
        → Answered receipt (clock now app).1 (mutate codec fresh answers ctx id request op now app)
    remembered_again kept = elim (mutate_cases fresh ctx id request op codec answers now app) [
      | inl (e, failed) ↦ subst (Answered receipt (clock now app).1) (sym failed) (tt, refl)
      | inr run ↦
          let same = remembered_plan fresh answers run.at _ receipt kept run.decided run.planned in
          subst (Answered receipt (clock now app).1)
            (sym (
              run.executed
              ∙ ap (λ p. execute fresh ctx id request op run.at p (clock now app).1) same))
            (unfold execute in (refl, refl))
    ]

    pub remembered_later : Remembers app receipt → Remembers (clock now app).1 receipt
    remembered_later kept = record {
      entry = kept.entry;
      bytes = kept.bytes;
      found = rw ((clock_frame now app).requests) kept.found;
      encoded = kept.encoded;
      same = kept.same;
      result = kept.result;
    }
