-- ===== src/Tests/Fixture.antt =====
-- src/agent/tests.rs: two agents of one workspace, `a` with an approval that may share with `b`.
use credman.Base.{ℕ, String, false, none, some, List, [], ◌∷◌, length}
use credman.Base.Int.{pos, pos_part, neg_part, saturating_sub}
use credman.Base.Dict.{insert, lookup, values, keys, erase, map_values}
use credman.Types.{
  AuthenticatedContext, from_authenticated_peer, from_authenticated_admin, TaskApproval, GrantSpec,
  Application, empty_application, username, password, Permission, secret_write, access_grant,
  entry_delete, login_kind, Mutation, create, generate, patch, delete, share, revoke,
  report_outcome, valid_input, valid_policy, changes_credential, metadata_only,
}
use credman.Policy.{
  malformed_task, malformed_bounds, check_approval, check_revocation, task, trusted_task_context,
  find_record, outside_task, grant_allows, can, generation_fields, authorize_generate,
  authorize_create, authorize_patch, malformed_grant, exceeds_bounds, exceeds_task, authorize_share,
  authorize_revoke, authorize_record, authorize_existing, authorize,
}
use credman.Clock.{effective_time, clock}
use credman.Generation.{
  generation_index, push_index, fill_from, sample_from, sample_secret, note_class, note_classes,
  classes_present, attempts, masked, plain_secret, generate_secret, place_values, generate_values,
}
use credman.Application.{
  Codec, approve_task, revoke_task, mutate, read_secret, metadata, audit, drop_oldest, get_record,
  put_record, new_record, patched, create_record, patch_record, share_record, revoke_record,
  delete_record, report_record, carry_out, cached_kind, resolve, replayed, admitted, plan, remember,
  execute, pick, select, registration_sealed, audit_events, extend,
}

-- Unfolds the operations of the vault.
unfoldable pub runs : Unit {0}
unfolding insert lookup values keys erase map_values pos_part neg_part saturating_sub valid_input
    valid_policy changes_credential metadata_only from_authenticated_peer from_authenticated_admin
    malformed_task malformed_bounds check_approval check_revocation task trusted_task_context
    find_record outside_task grant_allows can generation_fields authorize_generate authorize_create
    authorize_patch malformed_grant exceeds_bounds exceeds_task authorize_share authorize_revoke
    authorize_record authorize_existing authorize effective_time clock generation_index push_index
    fill_from sample_from sample_secret note_class note_classes classes_present attempts masked
    plain_secret generate_secret place_values generate_values approve_task revoke_task mutate
    read_secret metadata audit drop_oldest get_record put_record new_record patched create_record
    patch_record share_record revoke_record delete_record report_record carry_out cached_kind
    resolve replayed admitted plan remember execute pick select registration_sealed audit_events
    extend
runs = tt

abbrev pub admin : AuthenticatedContext
unfolding from_authenticated_admin
admin = from_authenticated_admin "owner" "human" "work"

abbrev pub agent : String → AuthenticatedContext
agent name = record {
  owner = "owner";
  principal = name;
  workspace = "work";
  admin = false;
  session_deadline = none;
}

abbrev pub task_a : TaskApproval
task_a = record {
  id = 1;
  owner = "owner";
  principal = "a";
  workspace = "work";
  service = "mail";
  origin = "https://mail.example";
  fields = username ∷ password ∷ [];
  permissions =
      Permission.metadata_read ∷ Permission.secret_use ∷ Permission.secret_read ∷ secret_write
      ∷ access_grant ∷ entry_delete ∷ [];
  destinations = "mail" ∷ [];
  expires_at = pos 1000;
  share = some (record {
    recipients = "b" ∷ [];
    fields = username ∷ password ∷ [];
    permissions = Permission.metadata_read ∷ Permission.secret_use ∷ [];
    destinations = "mail" ∷ [];
    expires_at = pos 900;
    allow_follow_active = false;
  });
}

abbrev pub task_b : TaskApproval
task_b = record task_a {
  id = 2;
  principal = "b";
  permissions = Permission.metadata_read ∷ Permission.secret_use ∷ [];
  share = none;
}

abbrev pub op_code : Mutation → List ℕ
op_code (create _ values) = 1 ∷ length values ∷ []
op_code (generate _ _ _) = 2 ∷ []
op_code (patch id n values) = 3 ∷ id ∷ n ∷ length values ∷ []
op_code (delete id n) = 4 ∷ id ∷ n ∷ []
op_code (share id n _) = 5 ∷ id ∷ n ∷ []
op_code (revoke id n g) = 6 ∷ id ∷ n ∷ g ∷ []
op_code (report_outcome id n _) = 7 ∷ id ∷ n ∷ []

abbrev pub codec : Codec
codec = record {
  mutation_bytes = λ op. some (op_code op);
  use_bytes = λ u. some (u.request ∷ u.record_id ∷ []);
  sha256 = λ bytes. bytes;
}

abbrev pub approved : Application
approved =
    (approve_task admin task_b (pos 1) (approve_task admin task_a (pos 1) empty_application).1).1

abbrev pub login_values : Mutation
login_values = create login_kind ((username, "alice") ∷ (password, "secret") ∷ [])

abbrev pub stored : Application
stored = (mutate codec 10 [] (agent "a") 1 100 login_values (pos 2) approved).1

abbrev pub grant_b : GrantSpec
grant_b = record {
  recipient = "b";
  fields = username ∷ password ∷ [];
  permissions = Permission.secret_use ∷ [];
  destinations = "mail" ∷ [];
  expires_at = pos 500;
  follow_active = false;
}

abbrev pub shared : Application
shared = (mutate codec 20 [] (agent "a") 1 101 (share 10 1 grant_b) (pos 3) stored).1
