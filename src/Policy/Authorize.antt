-- ===== src/Policy/Authorize.antt =====
-- src/agent/mod.rs: `generation_fields` and `authorize`, one function for each arm of its matches.
use credman.Base.{
  ℕ, String, len, Bool, true, false, ◌&&◌, ◌||◌, not, Option, none, some, [], ◌∷◌, ltb, leb, ◌==◌,
  ◌!=◌, string_eq, nat_eq, if◌then◌else◌, length, is_empty, any, all, is_some_and, contains,
  is_subset,
}
use credman.Base.Int.{ltb_ℤ, leb_ℤ}
use credman.Base.Dict.{lookup, keys, contains_key}
use credman.Result.{
  Result, ok, err, denied, invalid, conflict, capacity, ◌>>=◌, ◌>>◌, reject, ok_or,
}
use credman.Types.{
  Uuid, Time, is_blank, AuthenticatedContext, TaskApproval, ShareBounds, Record, GrantSpec,
  Application, username, password, api_key, secret_use, secret_write, access_grant, entry_delete,
  Fields, CredentialKind, login_kind, api_key_kind, verified_login, SecretInput, valid_input,
  GenerationPolicy, valid_policy, Mutation, create, generate, patch, delete, share, revoke,
  report_outcome, u64_max, field_eq, permission_eq, kind_eq, signup_eq,
}
use credman.Policy.Tasks.{bad_name}
use credman.Policy.Access.{can}

-- `generation_fields`.
unfoldable pub generation_fields : CredentialKind → Option String → Result Fields
generation_fields login_kind (some name) =
    if not (is_blank name) && leb (len name) 2048
    then ok (username ∷ password ∷ [])
    else err invalid
generation_fields login_kind none = err invalid
generation_fields api_key_kind none = ok (api_key ∷ [])
generation_fields api_key_kind (some _) = err invalid

-- `Mutation::Generate`.
unfoldable pub authorize_generate :
    TaskApproval → CredentialKind → Option String → Option GenerationPolicy → Result (Unit {0})
unfolding generation_fields valid_policy
authorize_generate t kind name policy = do
  reject (is_some_and policy (λ p. not (valid_policy p))) invalid
  fields ← generation_fields kind name
  reject (not (contains t.permissions secret_write) || not (is_subset fields t.fields)) denied

-- `Mutation::Create`.
unfoldable pub authorize_create : TaskApproval → CredentialKind → SecretInput → Result (Unit {0})
unfolding valid_input keys lookup
authorize_create t kind values = do
  reject (not (valid_input values)) invalid
  reject (not (contains t.permissions secret_write) || not (is_subset (keys values) t.fields))
      denied
  reject
      ((kind == login_kind && (not (contains_key password values) || contains_key api_key values))
        || (kind == api_key_kind
            && (not (contains_key api_key values) || contains_key password values)))
      invalid

-- `Mutation::Patch`.
unfoldable pub authorize_patch :
    Application
    → AuthenticatedContext
    → TaskApproval
    → Record
    → SecretInput
    → Time
    → Result (Unit {0})
authorize_patch app ctx t r values now = do
  reject (not (valid_input values)) invalid
  reject (not (can app ctx t r secret_write (keys values) none now)) denied
  reject
      ((r.kind == login_kind && contains_key api_key values)
        || (r.kind == api_key_kind && contains_key password values))
      invalid

-- The first test of `Mutation::Share`.
unfoldable pub malformed_grant : Record → GrantSpec → Time → Bool
unfolding keys
malformed_grant r grant now =
    is_empty grant.fields
    || is_empty grant.permissions
    || leb_ℤ grant.expires_at now
    || is_blank grant.recipient
    || ltb 2048 (len grant.recipient)
    || contains grant.permissions access_grant
    || not (is_subset grant.fields (keys r.values))
    || ltb 32 (length grant.destinations)
    || any bad_name grant.destinations
    || (contains grant.permissions secret_use && is_empty grant.destinations)

-- An agent's grant steps outside the share bounds of the task.
unfoldable pub exceeds_bounds : ShareBounds → GrantSpec → Bool
exceeds_bounds bounds grant =
    (grant.follow_active && not bounds.allow_follow_active)
    || not (contains bounds.recipients grant.recipient)
    || not (is_subset grant.fields bounds.fields)
    || not (is_subset grant.permissions bounds.permissions)
    || not (is_subset grant.destinations bounds.destinations)
    || ltb_ℤ bounds.expires_at grant.expires_at

-- A human's grant steps outside the task.
unfoldable pub exceeds_task : TaskApproval → Record → GrantSpec → Bool
exceeds_task t r grant =
    r.service != t.service
    || r.origin != t.origin
    || not (is_subset grant.fields t.fields)
    || not (is_subset grant.permissions t.permissions)
    || not (is_subset grant.destinations t.destinations)
    || ltb_ℤ t.expires_at grant.expires_at

-- `Mutation::Share`.
unfoldable pub authorize_share :
    Application
    → AuthenticatedContext
    → TaskApproval
    → Record
    → GrantSpec
    → Time
    → Result (Unit {0})
authorize_share app ctx t r grant now = do
  reject (malformed_grant r grant now) invalid
  if ctx.admin then reject (exceeds_task t r grant) denied else do
    bounds ← ok_or t.share denied
    reject (not (can app ctx t r access_grant grant.fields none now) || exceeds_bounds bounds grant)
        denied
    reject
        (not
          (all (λ permission. can app ctx t r permission grant.fields none now) grant.permissions))
        denied

-- `Mutation::Revoke`.
unfoldable pub authorize_revoke :
    Application
    → AuthenticatedContext
    → TaskApproval
    → Record
    → Uuid
    → Uuid
    → Time
    → Result (Unit {0})
authorize_revoke app ctx t r id grant now = do
  g ← ok_or (lookup grant app.grants) denied
  reject
      (g.record_id != id
        || (not ctx.admin && not (can app ctx t r access_grant g.spec.fields none now)))
      denied

-- The second match of `authorize`, over the mutations of an existing record.
unfoldable pub authorize_record :
    Application
    → AuthenticatedContext
    → TaskApproval
    → Record
    → Uuid
    → Mutation
    → Time
    → Result (Unit {0})
authorize_record app ctx t r id (patch _ _ values) now = authorize_patch app ctx t r values now
authorize_record app ctx t r id (delete _ _) now =
    reject (not ctx.admin && not (can app ctx t r entry_delete (keys r.values) none now)) denied
authorize_record app ctx t r id (share _ _ grant) now = authorize_share app ctx t r grant now
authorize_record app ctx t r id (revoke _ _ grant) now = authorize_revoke app ctx t r id grant now
authorize_record app ctx t r id (report_outcome _ _ state) now =
    reject (state == verified_login || not (can app ctx t r secret_write [] none now)) denied
authorize_record app ctx t r id (create _ _) now = ok tt
authorize_record app ctx t r id (generate _ _ _) now = ok tt

abbrev pub is_delete : Mutation → Bool
is_delete (delete _ _) = true
is_delete _ = false

-- The part of `authorize` that looks the record up.
unfoldable pub authorize_existing :
    Application
    → AuthenticatedContext
    → TaskApproval
    → Uuid
    → ℕ
    → Mutation
    → Time
    → Bool
    → Result (Unit {0})
authorize_existing app ctx t id expected op now retry = do
  r ← ok_or (lookup id app.records) denied
  reject
      (r.owner != ctx.owner
        || r.workspace != ctx.workspace
        || (r.deleted && not (retry && is_delete op)))
      denied
  authorize_record app ctx t r id op now
  reject (not retry && r.revision != expected) conflict
  reject (not retry && r.revision == u64_max) capacity

-- `Application::authorize`.
unfoldable pub authorize :
    Application → AuthenticatedContext → TaskApproval → Mutation → Time → Bool → Result (Unit {0})
authorize app ctx t (generate kind name policy) now retry = authorize_generate t kind name policy
authorize app ctx t (create kind values) now retry = authorize_create t kind values
authorize app ctx t (patch id expected values) now retry =
    authorize_existing app ctx t id expected (patch id expected values) now retry
authorize app ctx t (delete id expected) now retry =
    authorize_existing app ctx t id expected (delete id expected) now retry
authorize app ctx t (share id expected grant) now retry =
    authorize_existing app ctx t id expected (share id expected grant) now retry
authorize app ctx t (revoke id expected grant) now retry =
    authorize_existing app ctx t id expected (revoke id expected grant) now retry
authorize app ctx t (report_outcome id expected state) now retry =
    authorize_existing app ctx t id expected (report_outcome id expected state) now retry
