-- ===== src/Application/Outcome.antt =====
-- src/agent/mod.rs, `mutate`: a successful call by its two parts, the plan and its execution.
use credman.Base.{◌≡◌, arith, inl, inr, ◌⊎◌}
use credman.Result.{Error, ok, err, Result-cases}
use credman.Types.{
  Uuid, Time, Digest, AuthenticatedContext, TaskApproval, Receipt, Application, Mutation,
}
use credman.Generation.{Answers}
use credman.Clock.{clock}
use credman.Application.Records.{carry_out}
use credman.Application.Plan.{Codec, Plan, perform, plan}
use credman.Application.Mutate.{remember, execute, mutate}

module _ (fresh : Uuid) (ctx : AuthenticatedContext) (id request : Uuid) (op : Mutation) where
  pub execute_ok :
      (now : Time) (t : TaskApproval) (fingerprint : Digest) (op' : Mutation) (app : Application)
      (receipt : Receipt)
      → (execute fresh ctx id request op now (perform t fingerprint op') app).0 ≡ ok receipt
      → ((carry_out fresh ctx t id op' app).0 ≡ ok receipt)
        × ((execute fresh ctx id request op now (perform t fingerprint op') app).1
            ≡ remember ctx id request op fingerprint now receipt
                (carry_out fresh ctx t id op' app).1)
  unfolding execute
  execute_ok now t fingerprint op' app receipt h =
      elim (Result-cases (carry_out fresh ctx t id op' app).0) [
        | inr (e, failed) ↦ absurd (ground arith)
        | inl (r, done) ↦ (ground arith, ground arith)
      ]

  module _ (codec : Codec) (answers : Answers) (now : Time) (app : Application) where
    -- The clock's answer and the plan of a call of `mutate` that gets as far as its execution.
    pub record Reached : Type 0 where
      pub at : Time
      pub ticked : (clock now app).0 ≡ ok at
      pub decided : Plan
      pub planned : plan codec answers ctx id request op at (clock now app).1 ≡ ok decided
      pub executed :
          mutate codec fresh answers ctx id request op now app
          ≡ execute fresh ctx id request op at decided (clock now app).1

    -- A call of `mutate` stops with an error at the clock or the plan, or is executed.
    pub mutate_cases :
        ((e : Error) × (mutate codec fresh answers ctx id request op now app
            ≡ (err e, (clock now app).1)))
        ⊎ Reached
    unfolding mutate
    mutate_cases = elim (Result-cases (clock now app).0) [
      | inr (e, stopped) ↦ inl (e, ground arith)
      | inl (now', ticked) ↦
          elim (Result-cases (plan codec answers ctx id request op now' (clock now app).1)) [
            | inr (e, refused) ↦ inl (e, ground arith)
            | inl (p, planned) ↦ inr (record {
              at = now';
              ticked = ticked;
              decided = p;
              planned = planned;
              executed = ground arith;
            })
          ]
    ]

    pub mutate_ok :
        (receipt : Receipt)
        → (mutate codec fresh answers ctx id request op now app).0 ≡ ok receipt
        → Reached
    mutate_ok receipt h = elim mutate_cases [
      | inl (e, failed) ↦ absurd (ground arith)
      | inr run ↦ run
    ]
