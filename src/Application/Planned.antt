-- ===== src/Application/Planned.antt =====
-- src/agent/mod.rs, `mutate`: what a call has passed when it is carried out or answered again.
use credman.Base.{
  ℕ, ◌≡◌, ◌<◌, true, false, none, some, List, arith, inl, inr, ◌==◌, ==→≡, subst, nat_eq, list_eq,
  length, any, Option-cases,
}
use credman.Base.Dict.{lookup, values}
use credman.Result.{ok, Result-cases}
use credman.Types.{
  Uuid, Time, Digest, AuthenticatedContext, TaskApproval, Receipt, Remembered, Application,
  Mutation, key_eq,
}
use credman.Generation.{Answers}
use credman.Policy.{task, authorize}
use credman.Application.Plan.{
  Codec, Plan, replay, perform, plan, replayed, admitted, resolve, request_key,
}

module _ (codec : Codec) (answers : Answers) (ctx : AuthenticatedContext) (id request : Uuid)
    (op : Mutation) (now : Time) (app : Application) where
  -- What both outcomes have passed.
  pub record Passed (t : TaskApproval) (bytes : List ℕ) : Type 0 where
    pub live : task app ctx id now ≡ ok t
    pub retry : authorize app ctx t op now true ≡ ok tt
    pub encoded : codec.mutation_bytes op ≡ some bytes
    pub undelivered :
        any (λ delivery. delivery.key == request_key ctx id request) (values app.deliveries) ≡ false

  pub record Performs (t : TaskApproval) (fingerprint : Digest) (op' : Mutation) : Type 0 where
    pub bytes : List ℕ
    pub passed : Passed t bytes
    pub sealed : fingerprint ≡ codec.sha256 bytes
    pub unused : lookup (request_key ctx id request) app.requests ≡ none
    pub allowed : authorize app ctx t op now false ≡ ok tt
    pub room : length app.requests < 10000
    pub resolved : resolve app answers op ≡ ok op'

  pub record Replays (receipt : Receipt) : Type 0 where
    pub t : TaskApproval
    pub bytes : List ℕ
    pub passed : Passed t bytes
    pub entry : Remembered
    pub remembered : lookup (request_key ctx id request) app.requests ≡ some entry
    pub same : entry.fingerprint ≡ codec.sha256 bytes
    pub result : entry.result ≡ receipt

  abbrev pub Planned : Plan → Type 0
  Planned (replay receipt) = Replays receipt
  Planned (perform t fingerprint op') = Performs t fingerprint op'

  module _ (t : TaskApproval) (bytes : List ℕ) (passed : Passed t bytes) where
    replayed_plan :
        (entry : Remembered) (p : Plan)
        → lookup (request_key ctx id request) app.requests ≡ some entry
        → replayed app ctx op (codec.sha256 bytes) entry ≡ ok p
        → Planned p
    unfolding replayed
    replayed_plan entry (replay receipt) found h = record {
      t = t;
      bytes = bytes;
      passed = passed;
      entry = entry;
      remembered = found;
      same = ==→≡ entry.fingerprint (codec.sha256 bytes) (ground arith);
      result = ground arith;
    }
    replayed_plan entry (perform u fingerprint op') found h = absurd (ground arith)

    admitted_plan :
        (p : Plan)
        → lookup (request_key ctx id request) app.requests ≡ none
        → admitted app answers ctx t op (codec.sha256 bytes) now ≡ ok p
        → Planned p
    unfolding admitted
    admitted_plan (replay receipt) unused h = absurd (ground arith)
    admitted_plan (perform u fingerprint op') unused h =
        let e : t ≡ u = ground arith in
        subst (λ v. Performs v fingerprint op') e
          (record {
            bytes = bytes;
            passed = passed;
            sealed = ground arith;
            unused = unused;
            allowed = ground arith;
            room = ground arith;
            resolved = ground arith;
          })

  -- A call of `mutate` is carried out only if every check of a first call has passed, and its request
  -- is new; it is answered again only from a remembered call with the same input.
  pub plan_ok : (p : Plan) → plan codec answers ctx id request op now app ≡ ok p → Planned p
  unfolding plan
  plan_ok p h = elim (Result-cases (task app ctx id now)) [
    | inr (e, dead) ↦ absurd (ground arith)
    | inl (t, live) ↦ elim (Option-cases (codec.mutation_bytes op)) [
      | inl bad ↦ absurd (ground arith)
      | inr (bytes, encoded) ↦
          let passed : Passed t bytes = record {
            live = live;
            retry = ground arith;
            encoded = encoded;
            undelivered = ground arith;
          } in
          elim (Option-cases (lookup (request_key ctx id request) app.requests)) [
            | inl unused ↦ admitted_plan t bytes passed p unused (ground arith)
            | inr (entry, found) ↦ replayed_plan t bytes passed entry p found (ground arith)
          ]
    ]
  ]
