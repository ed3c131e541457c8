-- ===== src/Tests/Recovery.antt =====
-- src/agent/storage/recovery_tests.rs: a vault with an unfinished registration is reconciled.
use credman.Base.{
  ℕ, ◌≡◌, refl, Bool, true, false, some, [], ◌∷◌, nat_eq, string_eq, bool_eq, list_eq, option_eq,
  arith,
}
use credman.Base.Order.{each}
use credman.Base.Int.{pos}
use credman.Result.{ok}
use credman.Loops.{fold_each, try_each}
use credman.Types.{
  Application, SignupState, DeliveryStatus, DeliveryAttempt, PrivateAction, register, login,
  use_action, action_eq, TaskApproval, SecretInput, GrantSpec, Remembered,
}
use credman.Snapshot.Compact.{referenced}
use credman.Storage.Vault.{next_generation}
use credman.Storage.Recovery.{revoke_all, finish_delivery, finish_deliveries, sanitize}
use credman.Storage.Recovery.Transition.{
  Forms, equal, follows, keeps_revoked, keeps_task, record_altered, keeps_record, keeps_grant,
  keeps_request, expected_delivery, unsealed_register, unsealed_login, keeps_delivery, transition,
}
use credman.Storage.Recovery.Follows.{TellsApart, Follows, transition-Follows}
use credman.Tests.Fixture.{runs}
use credman.Tests.Disk.{images}
use credman.Tests.Use.{record_of_b, submitted_attempt, handing}

abbrev pub stopped : Application
stopped = record handing.app { clock_frozen = true }

abbrev reconciled : Application
reconciled = record handing.app {
  revoked_tasks = 2 ∷ [];
  records = (10, record record_of_b { signup = SignupState.unknown }) ∷ [];
  deliveries = (50, record submitted_attempt { status = some DeliveryStatus.unknown }) ∷ [];
  last_time = some (pos 9);
  generation = 4;
}

sanitizes : sanitize images stopped (pos 9) ≡ ok reconciled
unfolding runs sanitize revoke_all finish_deliveries finish_delivery fold_each each next_generation
sanitizes = refl

-- The copy keeps the freeze, and its clock the later time.
abbrev pub copied : Application
copied = record reconciled {
  records = (10, record record_of_b { signup = SignupState.unknown; restored = true }) ∷ [];
  clock_frozen = true;
  last_time = some (pos 5);
}

abbrev code : PrivateAction → ℕ
code register = 0
code login = 1
code use_action = 2

abbrev bit : Bool → ℕ
bit true = 1
bit false = 0

-- Encodings by a part of each value.
abbrev pub forms : Forms
forms = record {
  task = λ (t : TaskApproval). some (t.id ∷ []);
  values = λ (v : SecretInput). some [];
  spec = λ (s : GrantSpec). some [];
  receipt = λ (r : Remembered). some (r.result.record_id ∷ []);
  attempt = λ (d : DeliveryAttempt). some (d.record_id ∷ code d.action ∷ bit d.dispatched ∷ []);
}

code_inj : (a b : PrivateAction) → code a ≡ code b → a ≡ b
code_inj register register h = refl
code_inj register login h = absurd (ground arith)
code_inj register use_action h = absurd (ground arith)
code_inj login register h = absurd (ground arith)
code_inj login login h = refl
code_inj login use_action h = absurd (ground arith)
code_inj use_action register h = absurd (ground arith)
code_inj use_action login h = absurd (ground arith)
code_inj use_action use_action h = refl

bit_inj : (a b : Bool) → bit a ≡ bit b → a ≡ b
bit_inj false false h = refl
bit_inj false true h = absurd (ground arith)
bit_inj true false h = absurd (ground arith)
bit_inj true true h = refl

forms-TellsApart : TellsApart forms
forms-TellsApart a b bytes left right = (
  ground arith,
  code_inj a.action b.action (ground arith),
  bit_inj a.dispatched b.dispatched (ground arith),
)

follows_on : transition forms stopped reconciled ≡ ok tt
unfolding runs transition try_each equal follows keeps_revoked keeps_task record_altered
    keeps_record keeps_grant keeps_request expected_delivery unsealed_register unsealed_login
    keeps_delivery referenced
follows_on = refl

transition-Follows_example : Follows stopped reconciled
transition-Follows_example = transition-Follows forms stopped reconciled forms-TellsApart follows_on
