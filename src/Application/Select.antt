-- ===== src/Application/Select.antt =====
-- src/agent/mod.rs: `select`, `registration_sealed`, and `audit_events`.
use credman.Base.{
  String, Bool, ◌&&◌, ◌||◌, not, Option, List, [], ◌∷◌, ◌==◌, string_eq, nat_eq, is_empty, any,
  filter, is_some_and,
}
use credman.Base.Dict.{lookup, insert, values}
use credman.Result.{Result, ok, denied, invalid, ◌>>=◌, ◌>>◌, reject, ok_or}
use credman.Types.{
  Uuid, Time, AuthenticatedContext, AuditEvent, Application, Fields, secret, Permission,
  metadata_read, register, permission_eq, field_eq, action_eq, SecretInput,
}
use credman.Policy.{task, find_record, can}

-- The loop of `select` over the requested fields.
unfoldable pub pick : SecretInput → Fields → SecretInput → Result SecretInput
unfolding lookup insert
pick from [] picked = ok picked
pick from (f ∷ fields) picked = do
  v ← ok_or (lookup f from) denied
  pick from fields (insert f v picked)

-- `Application::select`.
unfoldable pub select :
    Application
    → AuthenticatedContext
    → Uuid
    → Uuid
    → Fields
    → Permission
    → Option String
    → Time
    → Result SecretInput
select app ctx id record_id fields permission destination now = do
  reject (is_empty fields) invalid
  reject (permission == metadata_read && any secret fields) denied
  t ← task app ctx id now
  r ← find_record app ctx record_id
  reject (not (can app ctx t r permission fields destination now)) denied
  pick r.values fields []

-- `Application::registration_sealed`.
unfoldable pub registration_sealed : Application → Uuid → Bool
unfolding lookup values
registration_sealed app id =
    is_some_and (lookup id app.baselines) (λ base. base.registration_dispatched)
    || any (λ d. d.record_id == id && d.action == register && d.dispatched) (values app.deliveries)

-- `Application::audit_events`.
unfoldable pub audit_events : Application → AuthenticatedContext → Result (List AuditEvent)
unfolding lookup
audit_events app admin = do
  reject (not admin.admin) denied
  ok (
      filter
        (λ event.
          is_some_and (lookup event.task app.tasks)
            (λ t. t.owner == admin.owner && t.workspace == admin.workspace))
        app.audit_log)
