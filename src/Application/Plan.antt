-- ===== src/Application/Plan.antt =====
-- src/agent/mod.rs: the checks of `mutate`. What it calls outside the program is an argument: serde_json and
-- SHA-256 as a `Codec`, `Uuid::new_v4` as the identifier that it returns next, the random source by
-- its answers.
use credman.Base.{
  ℕ, Bool, true, false, Option, none, some, List, ltb, leb, ◌==◌, ◌!=◌, nat_eq, list_eq,
  if◌then◌else◌, length, any,
}
use credman.Base.Dict.{lookup, values}
use credman.Result.{Result, ok, invalid, replay_conflict, capacity, ◌>>=◌, ◌>>◌, reject, ok_or}
use credman.Types.{
  Uuid, Time, Digest, is_nil, AuthenticatedContext, TaskApproval, Receipt, RequestKey, Remembered,
  Application, Mutation, create, generate, patch, delete, share, revoke, report_outcome, PrivateUse,
  CachedKind, changes_credential, key_eq,
}
use credman.Types.{CachedKind}
use credman.Generation.{Answers, generate_values}
use credman.Policy.{task, find_record, authorize}

-- `serde_json::to_vec` and `Sha256::digest`.
pub record Codec : Type 0 where
  pub mutation_bytes : Mutation → Option (List ℕ)
  pub use_bytes : PrivateUse → Option (List ℕ)
  pub sha256 : List ℕ → Digest

abbrev pub request_key : AuthenticatedContext → Uuid → Uuid → RequestKey
request_key ctx task request = record {
  owner = ctx.owner;
  principal = ctx.principal;
  task = task;
  id = request;
}

-- The kind under which a receipt is remembered.
unfoldable pub cached_kind : Mutation → CachedKind
unfolding changes_credential
cached_kind (create _ _) = CachedKind.create
cached_kind (generate _ _ _) = CachedKind.create
cached_kind (patch _ _ values) =
    if changes_credential values then CachedKind.patch else CachedKind.metadata_patch
cached_kind (delete _ _) = CachedKind.delete
cached_kind (share _ _ _) = CachedKind.share
cached_kind (revoke _ _ _) = CachedKind.revoke
cached_kind (report_outcome _ _ _) = CachedKind.report_outcome

abbrev pub makes_record : Mutation → Bool
makes_record (create _ _) = true
makes_record (generate _ _ _) = true
makes_record _ = false

-- `Mutation::Generate` is replaced by the creation of the generated values.
unfoldable pub resolve : Application → Answers → Mutation → Result Mutation
resolve app answers (generate kind name policy) = do
  reject (leb 10000 (length app.records)) capacity
  drawn ← (generate_values kind name policy answers).0
  ok (create kind drawn)
resolve app answers op = ok op

-- What the checks of `mutate` decide: a retained receipt, or a mutation to carry out.
pub data Plan : Type 0 where
  replay : Receipt → Plan
  perform : TaskApproval → Digest → Mutation → Plan

-- The branch of `mutate` on a remembered request.
unfoldable pub replayed :
    Application → AuthenticatedContext → Mutation → Digest → Remembered → Result Plan
replayed app ctx op fingerprint previous = do
  reject (previous.fingerprint != fingerprint) replay_conflict
  if makes_record op
      then (do _ ← find_record app ctx previous.result.record_id; ok (replay previous.result))
      else ok (replay previous.result)

-- The branch of `mutate` on a new request.
unfoldable pub admitted :
    Application
    → Answers
    → AuthenticatedContext
    → TaskApproval
    → Mutation
    → Digest
    → Time
    → Result Plan
admitted app answers ctx t op fingerprint now = do
  authorize app ctx t op now false
  reject (leb 10000 (length app.requests)) capacity
  op' ← resolve app answers op
  ok (perform t fingerprint op')

module _ (codec : Codec) where
  -- `mutate` from the clock to the mutation: the checks, none of which changes the state.
  unfoldable pub plan :
      Answers → AuthenticatedContext → Uuid → Uuid → Mutation → Time → Application → Result Plan
  plan answers ctx id request op now app = do
    reject (is_nil request) invalid
    t ← task app ctx id now
    authorize app ctx t op now true
    let key = request_key ctx id request
    reject (any (λ delivery. delivery.key == key) (values app.deliveries)) replay_conflict
    bytes ← ok_or (codec.mutation_bytes op) invalid
    reject (ltb 65536 (length bytes)) invalid
    let fingerprint = codec.sha256 bytes
    elim (lookup key app.requests) [
      | some previous ↦ replayed app ctx op fingerprint previous
      | none ↦ admitted app answers ctx t op fingerprint now
    ]
