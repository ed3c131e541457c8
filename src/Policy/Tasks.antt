-- ===== src/Policy/Tasks.antt =====
-- src/agent/mod.rs: the checks of `approve_task` and `revoke_task`, and the lookups `task` and
-- `trusted_task_context`.
use credman.Base.{
  String, len, Bool, ◌||◌, not, [], ◌∷◌, ltb, leb, ◌!=◌, string_eq, nat_eq, length, is_empty, any,
  is_some_and, contains, is_subset,
}
use credman.Base.Int.{ltb_ℤ, leb_ℤ}
use credman.Base.Dict.{lookup, values, contains_key}
use credman.Result.{Result, ok, denied, invalid, conflict, capacity, ◌>>=◌, ◌>>◌, reject, ok_or}
use credman.Types.{
  Uuid, Time, is_nil, is_blank, AuthenticatedContext, from_authenticated_peer, TaskApproval,
  ShareBounds, Application, access_grant, field_eq, permission_eq,
}

-- `s.is_empty() || s.len() > 2048`, as the code tests names.
abbrev pub bad_name : String → Bool
bad_name s = is_blank s || ltb 2048 (len s)

-- The task's own fields: the second check of `approve_task`.
unfoldable pub malformed_task : TaskApproval → Time → Bool
malformed_task task now =
    is_nil task.id
    || leb_ℤ task.expires_at now
    || is_empty task.fields
    || is_empty task.permissions
    || is_blank task.owner
    || is_blank task.principal
    || is_blank task.workspace
    || is_blank task.service
    || is_blank task.origin
    || any (λ s. ltb 2048 (len s))
        (task.owner ∷ task.principal ∷ task.workspace ∷ task.service ∷ task.origin ∷ [])
    || ltb 32 (length task.destinations)
    || any bad_name task.destinations

-- The check of a task's share bounds.
unfoldable pub malformed_bounds : TaskApproval → Time → ShareBounds → Bool
malformed_bounds task now bounds =
    is_empty bounds.recipients
    || ltb 32 (length bounds.recipients)
    || any bad_name bounds.recipients
    || not (is_subset bounds.fields task.fields)
    || not (is_subset bounds.permissions task.permissions)
    || not (is_subset bounds.destinations task.destinations)
    || ltb_ℤ task.expires_at bounds.expires_at
    || leb_ℤ bounds.expires_at now
    || contains bounds.permissions access_grant

-- `admin` has no authority over an owner and a workspace.
abbrev pub foreign : AuthenticatedContext → TaskApproval → Bool
foreign admin task =
    not admin.admin || admin.owner != task.owner || admin.workspace != task.workspace

-- The checks of `approve_task`, behind the clock.
unfoldable pub check_approval :
    AuthenticatedContext → TaskApproval → Time → Application → Result (Unit {0})
check_approval admin task now app = do
  reject (foreign admin task) denied
  reject
      (any (λ kept. kept.owner != task.owner || kept.workspace != task.workspace)
        (values app.tasks))
      denied
  reject (malformed_task task now) invalid
  reject (is_some_and task.share (malformed_bounds task now)) invalid
  reject (contains_key task.id app.tasks) conflict
  reject (leb 10000 (length app.tasks)) capacity

-- The checks of `revoke_task`, behind the clock.
unfoldable pub check_revocation : AuthenticatedContext → Uuid → Application → Result (Unit {0})
check_revocation admin id app = do
  task ← ok_or (lookup id app.tasks) denied
  reject (foreign admin task) denied

-- `Application::task`.
unfoldable pub task : Application → AuthenticatedContext → Uuid → Time → Result TaskApproval
task app ctx id now = do
  t ← ok_or (lookup id app.tasks) denied
  reject
      (t.owner != ctx.owner
        || t.workspace != ctx.workspace
        || t.principal != ctx.principal
        || leb_ℤ t.expires_at now
        || contains app.revoked_tasks id
        || is_some_and ctx.session_deadline (λ deadline. leb_ℤ deadline now))
      denied
  ok t

-- `Application::trusted_task_context`.
unfoldable pub trusted_task_context :
    Application → AuthenticatedContext → Uuid → Time → Result AuthenticatedContext
trusted_task_context app admin id now = do
  reject (not admin.admin) denied
  t ← ok_or (lookup id app.tasks) denied
  reject (t.owner != admin.owner || t.workspace != admin.workspace) denied
  let ctx = from_authenticated_peer t.owner t.principal t.workspace
  _ ← task app ctx id now
  ok ctx
