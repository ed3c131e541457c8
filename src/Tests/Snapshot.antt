-- ===== src/Tests/Snapshot.antt =====
-- src/agent/snapshot.rs, tests: a snapshot that is valid, one that is compacted, and a small format in
-- the place of serde_json, for snapshots that hold the clock alone.
use credman.Base.{
  ℕ, ◌≡◌, refl, ap, subst, Bool, true, false, ◌&&◌, not, Option, none, some, List, [], ◌∷◌, arith,
  nat_eq, eqb, if◌then◌else◌, is_empty, is_none, all, is_some, zero, suc, Bool-cases, inl, inr,
}
use credman.Base.Int.{pos, negsuc}
use credman.Base.Dict.{lookup, values, NodupKeys}
use credman.Base.Order.{sort, sort_by_key, insert_by_key, dedup, each, increasing}
use credman.Result.{ok}
use credman.Loops.{try_each, fold_each}
use credman.Types.{
  Time, Application, empty_application, DeliveryAttempt, accepted, register, username, password,
}
use credman.Application.{registration_sealed}
use credman.Snapshot.Compact.{
  stale, should_compact, baseline, through_of, revisions_of, foldable, account, fold_record,
  prune_grant, seals_register, seals_login, prune_delivery, dropped, drop_records, referenced,
  removable, latest_task, removed_tasks, drop_tasks, retained, settle_baseline, keeps_baseline,
  settle_history, fold_records, prune_grants, prune_deliveries, compact,
}
use credman.Snapshot.Validate.{
  same_scope, check_clock, check_counts, check_task, check_revoked, fits_kind, check_record,
  within_bounds, grant_fits, check_grant, set_at, check_kind, check_request, check_pruned,
  check_baseline, range_from, last?, unbroken, check_account,
}
use credman.Snapshot.Whole.{check_shares, check_delivery, check_verified, check_event, validate}
use credman.Snapshot.Encoding.{
  Snapshot, Json, ReadsBack, snapshot_of, insert_new, insert_new_member, acceptable, encode,
  restore, decode, clock_only_difference,
}
use credman.Snapshot.Compaction.{Compacted, compact-Compacted}
use credman.Snapshot.Seals.{compact-registration_sealed}
use credman.Snapshot.Difference.{clock_only_difference_sound}
use credman.Snapshot.RoundTrip.{Distinct, decode-encode}
use credman.Snapshot.Valid.{IsValid, validate-IsValid}
use credman.Tests.Fixture.{runs, codec, shared}
use credman.Tests.Use.{app_of_b, record_of_b}

-- Unfolds the snapshot codec.
unfoldable pub checks : Unit {0}
unfolding sort sort_by_key insert_by_key dedup each increasing try_each fold_each stale
    should_compact baseline through_of revisions_of foldable account fold_record prune_grant
    seals_register seals_login prune_delivery dropped drop_records referenced removable latest_task
    removed_tasks drop_tasks retained settle_baseline keeps_baseline settle_history fold_records
    prune_grants prune_deliveries compact same_scope check_clock check_counts check_task
    check_revoked fits_kind check_record within_bounds grant_fits check_grant set_at check_kind
    check_request check_pruned check_baseline range_from last? unbroken check_account check_shares
    check_delivery check_verified check_event validate snapshot_of insert_new insert_new_member
    acceptable encode restore decode clock_only_difference
checks = tt

abbrev saved_app : Application
saved_app = record shared { generation = 1 }

saved_app_valid : validate codec saved_app ≡ ok tt
unfolding runs checks
saved_app_valid = refl

validate-IsValid_example : IsValid saved_app
validate-IsValid_example = validate-IsValid codec saved_app saved_app_valid

-- A day and a second after the record was made its receipt is folded; that of the grant is not yet.
abbrev aged_app : Application
aged_app = record saved_app { last_time = some (pos 86402) }

aged_app_compacts : (should_compact aged_app ≡ true) × (validate codec (compact aged_app) ≡ ok tt)
unfolding runs checks
aged_app_compacts = (refl, refl)

aged_app_folded :
    lookup 10 (compact aged_app).baselines
    ≡ some (record {
      through = 1;
      secret_version = 1;
      delete_pruned = false;
      pruned_grants = [];
      registration_dispatched = false;
      verified_login = false;
    })
unfolding runs checks
aged_app_folded = refl

aged_records : NodupKeys aged_app.records
unfolding runs
aged_records = (refl, tt)

aged_tasks : NodupKeys aged_app.tasks
unfolding runs
aged_tasks = (refl, (refl, tt))

compact-Compacted_example : Compacted aged_app (compact aged_app)
compact-Compacted_example = compact-Compacted aged_app aged_records aged_tasks

-- A registration that was accepted long ago.
abbrev registered : DeliveryAttempt
registered = record {
  task = 2;
  record_id = 10;
  version = 1;
  destination = "mail";
  fields = username ∷ password ∷ [];
  status = some accepted;
  key = record { owner = "owner"; principal = "b"; task = 2; id = 200 };
  fingerprint = 200 ∷ 10 ∷ [];
  action = register;
  dispatched = true;
  at = some (pos 4);
}

abbrev registered_app : Application
registered_app = record app_of_b {
  deliveries = (30, registered) ∷ [];
  last_time = some (pos 90000);
}

registered_record : lookup 10 (compact registered_app).records ≡ lookup 10 app_of_b.records
unfolding runs checks
registered_record = refl

registered_dropped : (compact registered_app).deliveries ≡ []
unfolding runs checks
registered_dropped = refl

registered_sealed : registration_sealed registered_app 10 ≡ true
unfolding runs
registered_sealed = refl

registered_found : lookup 10 (compact registered_app).records ≡ some record_of_b
unfolding runs checks
registered_found = refl

registered_keys : NodupKeys registered_app.deliveries
unfolding runs
registered_keys = (refl, tt)

compact-registration_sealed_example : registration_sealed (compact registered_app) 10 ≡ true
compact-registration_sealed_example =
    compact-registration_sealed 10 record_of_b registered_app registered_keys registered_found
      registered_sealed

-- The format: the generation, and the clock by its sign and size.
abbrev time_code : Option Time → List ℕ
time_code none = []
time_code (some (pos n)) = 0 ∷ n ∷ []
time_code (some (negsuc n)) = 1 ∷ n ∷ []

abbrev read_time : List ℕ → Option Time
read_time (zero ∷ n ∷ []) = some (pos n)
read_time (suc _ ∷ n ∷ []) = some (negsuc n)
read_time _ = none

abbrev clock_snapshot : ℕ → Option Time → Snapshot
clock_snapshot generation last_time = record {
  schema = 3;
  generation = generation;
  tasks = [];
  records = [];
  grants = [];
  requests = [];
  revoked_tasks = [];
  deliveries = [];
  audit_log = [];
  last_time = last_time;
  clock_frozen = false;
  baselines = [];
  predecessor = none;
}

unfoldable pub clock_alone : Snapshot → Bool
clock_alone s =
    eqb s.schema 3
    && is_empty s.tasks
    && is_empty s.records
    && is_empty s.grants
    && is_empty s.requests
    && is_empty s.revoked_tasks
    && is_empty s.deliveries
    && is_empty s.audit_log
    && not s.clock_frozen
    && is_empty s.baselines
    && is_none s.predecessor

clock_alone_lem :
    (s : Snapshot) → clock_alone s ≡ true → clock_snapshot s.generation s.last_time ≡ s
unfolding clock_alone
clock_alone_lem s h = ground arith

abbrev pub json : Json
json = record {
  to_vec = λ s. if clock_alone s then some (s.generation ∷ time_code s.last_time) else none;
  from_slice = λ bytes. elim bytes [ [] ↦ none | g ∷ t ↦ some (clock_snapshot g (read_time t)) ];
}

read_time_code : (t : Option Time) → read_time (time_code t) ≡ t
read_time_code none = refl
read_time_code (some (pos n)) = refl
read_time_code (some (negsuc n)) = refl

pub json-ReadsBack : ReadsBack json
json-ReadsBack s bytes h = elim (Bool-cases (clock_alone s)) [
  | inr more ↦ absurd (ground arith)
  | inl alone ↦
      let code : s.generation ∷ time_code s.last_time ≡ bytes = ground arith in
      subst (λ b. json.from_slice b ≡ some s) code
        (rw (read_time_code s.last_time) (ap some (clock_alone_lem s alone)))
]

abbrev pub clock_app : Application
clock_app = record empty_application { generation = 7; last_time = some (pos 40) }

clock_app_encoded : encode json codec clock_app ≡ ok (7 ∷ 0 ∷ 40 ∷ [])
unfolding runs checks clock_alone
clock_app_encoded = refl

clock_app-Distinct : Distinct clock_app
clock_app-Distinct = record {
  tasks = tt;
  records = tt;
  grants = tt;
  requests = tt;
  revoked_tasks = tt;
  deliveries = tt;
  baselines = tt;
}

clock_app_dated : all (λ r. is_some r.at) (values clock_app.requests) ≡ true
unfolding values
clock_app_dated = refl

clock_deliveries_dated : all (λ d. is_some d.at) (values clock_app.deliveries) ≡ true
unfolding values
clock_deliveries_dated = refl

decode-encode_example : decode json codec (7 ∷ 0 ∷ 40 ∷ []) ≡ ok clock_app
decode-encode_example =
    decode-encode json codec clock_app (7 ∷ 0 ∷ 40 ∷ []) json-ReadsBack clock_app-Distinct
      clock_app_dated clock_deliveries_dated clock_app_encoded

-- A later generation with a later clock.
abbrev later_app : Application
later_app = record clock_app { generation = 8; last_time = some (pos 45) }

later_app_differs : clock_only_difference json codec clock_app later_app ≡ ok true
unfolding runs checks clock_alone
later_app_differs = refl

clock_only_difference_sound_example :
    later_app
    ≡ record clock_app { last_time = later_app.last_time; generation = later_app.generation }
clock_only_difference_sound_example =
    clock_only_difference_sound json codec clock_app later_app json-ReadsBack later_app_differs
