-- ===== src/Policy/Access.antt =====
-- src/agent/mod.rs: `record` and `can`.
use credman.Base.{
  String, Bool, true, false, ◌&&◌, ◌||◌, not, Option, leb, ◌==◌, ◌!=◌, string_eq, nat_eq,
  if◌then◌else◌, any, is_some_and, is_none_or, contains, is_subset,
}
use credman.Base.Int.{ltb_ℤ}
use credman.Base.Dict.{lookup, values}
use credman.Result.{Result, ok, denied, ◌>>=◌, ◌>>◌, reject, ok_or}
use credman.Types.{
  Uuid, Time, AuthenticatedContext, TaskApproval, Record, Grant, Application, Permission, Fields,
  field_eq, permission_eq,
}

-- `Application::record`.
unfoldable pub find_record : Application → AuthenticatedContext → Uuid → Result Record
find_record app ctx id = do
  r ← ok_or (lookup id app.records) denied
  reject (r.owner != ctx.owner || r.workspace != ctx.workspace || r.deleted) denied
  ok r

-- The test of `can` against the task.
unfoldable pub outside_task : TaskApproval → Record → Permission → Fields → Option String → Bool
outside_task t r permission fields destination =
    r.service != t.service
    || r.origin != t.origin
    || not (contains t.permissions permission)
    || not (is_subset fields t.fields)
    || is_some_and destination (λ d. not (contains t.destinations d))

-- The test of `can` against one grant.
unfoldable pub grant_allows :
    Application
    → AuthenticatedContext
    → Record
    → Permission
    → Fields
    → Option String
    → Time
    → Grant
    → Bool
unfolding lookup
grant_allows app ctx r permission fields destination now g =
    g.record_id == r.id
    && not g.revoked
    && ltb_ℤ now g.spec.expires_at
    && (if g.spec.follow_active
        then leb g.version r.secret_version
        else g.version == r.secret_version)
    && not (contains app.revoked_tasks g.issuer_task)
    && is_some_and (lookup g.issuer_task app.tasks) (λ issuer. ltb_ℤ now issuer.expires_at)
    && g.spec.recipient == ctx.principal
    && contains g.spec.permissions permission
    && is_subset fields g.spec.fields
    && is_none_or destination (λ d. contains g.spec.destinations d)

-- `Application::can`.
unfoldable pub can :
    Application
    → AuthenticatedContext
    → TaskApproval
    → Record
    → Permission
    → Fields
    → Option String
    → Time
    → Bool
unfolding outside_task grant_allows values
can app ctx t r permission fields destination now =
    if outside_task t r permission fields destination
    then false
    else if r.created_by == ctx.principal && r.task == t.id
    then true
    else any (grant_allows app ctx r permission fields destination now) (values app.grants)
