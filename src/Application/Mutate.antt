-- ===== src/Application/Mutate.antt =====
-- src/agent/mod.rs: `mutate`, `read_secret` and `metadata`.
use credman.Base.{none, some, nat_eq}
use credman.Base.Dict.{insert}
use credman.Exec.{Exec, ◌>>=◌, ◌>>◌, pure, reads, modify}
use credman.Types.{
  Uuid, Time, Digest, AuthenticatedContext, Receipt, Remembered, AuditEvent, MetadataView,
  Application, Mutation, Fields, SecretInput, Permission, key_eq,
}
use credman.Types.{AuditAction}
use credman.Generation.{Answers}
use credman.Clock.{clock}
use credman.Policy.{find_record}
use credman.Application.Records.{carry_out, audit}
use credman.Application.Plan.{Codec, Plan, replay, perform, plan, request_key, cached_kind}
use credman.Application.Select.{select}

-- The receipt and the audit event that `mutate` keeps at its end.
unfoldable pub remember :
    AuthenticatedContext
    → Uuid
    → Uuid
    → Mutation
    → Digest
    → Time
    → Receipt
    → Application
    → Application
remember ctx id request op fingerprint now receipt app =
    audit event (record app { requests = insert (request_key ctx id request) entry app.requests })
  where
    entry : Remembered
    entry = record {
      fingerprint = fingerprint;
      result = receipt;
      kind = cached_kind op;
      at = some now;
    }

    event : AuditEvent
    event = record {
      task = id;
      record_id = receipt.record_id;
      request = some request;
      action = AuditAction.mutation;
      at = now;
      principal = ctx.principal;
    }

-- What follows the checks of `mutate`.
unfoldable pub execute :
    Uuid → AuthenticatedContext → Uuid → Uuid → Mutation → Time → Plan → Exec Application Receipt
execute fresh ctx id request op now (replay receipt) = pure receipt
execute fresh ctx id request op now (perform t fingerprint op') = do
  receipt ← carry_out fresh ctx t id op'
  modify (remember ctx id request op fingerprint now receipt)
  pure receipt

-- `Application::mutate`.
unfoldable pub mutate :
    Codec
    → Uuid
    → Answers
    → AuthenticatedContext
    → Uuid
    → Uuid
    → Mutation
    → Time
    → Exec Application Receipt
mutate codec fresh answers ctx id request op now = do
  now' ← clock now
  decided ← reads (plan codec answers ctx id request op now')
  execute fresh ctx id request op now' decided

-- The audit event of a reading operation.
abbrev pub read_event : AuthenticatedContext → Uuid → Uuid → AuditAction → Time → AuditEvent
read_event ctx id record_id action now = record {
  task = id;
  record_id = record_id;
  request = none;
  action = action;
  at = now;
  principal = ctx.principal;
}

-- `Application::read_secret`; a `Disclosure` is its values.
unfoldable pub read_secret :
    AuthenticatedContext → Uuid → Uuid → Fields → Time → Exec Application SecretInput
read_secret ctx id record_id fields now = do
  now' ← clock now
  result ← reads (λ app. select app ctx id record_id fields Permission.secret_read none now')
  modify (audit (read_event ctx id record_id AuditAction.secret_read now'))
  pure result

-- `Application::metadata`.
unfoldable pub metadata :
    AuthenticatedContext → Uuid → Uuid → Fields → Time → Exec Application MetadataView
metadata ctx id record_id fields now = do
  now' ← clock now
  values ← reads (λ app. select app ctx id record_id fields Permission.metadata_read none now')
  r ← reads (λ app. find_record app ctx record_id)
  modify (audit (read_event ctx id record_id AuditAction.metadata_read now'))
  pure (record { revision = r.revision; signup = r.signup; fields = values })
