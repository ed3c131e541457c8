-- ===== src/Snapshot/Difference.antt =====
-- src/agent/snapshot.rs, `clock_only_difference`: what it calls a difference of the clock alone.
use credman.Base.{
  ℕ, ◌≡◌, ap, ◌∙◌, sym, true, false, some, List, arith, ltb, length, list_eq, nat_eq, ==→≡,
}
use credman.Result.{ok, ok_or, reject, bind_ok, then_ok, invalid_storage, capacity}
use credman.Types.{Application, TaskApproval, Record}
use credman.Application.{Codec}
use credman.Snapshot.Whole.{validate}
use credman.Snapshot.Encoding.{
  Snapshot, Json, ReadsBack, snapshot_of, encode, later_mark, clock_only_difference, max_plaintext,
}
use credman.Snapshot.Passed.{validate-Passed, ok_or_ok, Keyed-values, tasks-Keyed, records-Keyed}

-- An encoding that was made.
pub record Encoded (json : Json) (codec : Codec) (app : Application) (bytes : List ℕ) : Type 0 where
  pub valid : validate codec app ≡ ok tt
  pub written : json.to_vec (snapshot_of app) ≡ some bytes
  pub small : ltb max_plaintext (length bytes) ≡ false

pub encode-Encoded :
    (json : Json) (codec : Codec) (app : Application) (bytes : List ℕ)
    → encode json codec app ≡ ok bytes
    → Encoded json codec app bytes
unfolding encode
encode-Encoded json codec app bytes h =
    let (valid, h1) = then_ok (validate codec app) _ _ h in
    let (made, written, h2) =
      bind_ok (ok_or (json.to_vec (snapshot_of app)) invalid_storage) _ _ h1 in
    let (small, h3) = then_ok (reject (ltb max_plaintext (length made)) capacity) _ _ h2 in
    let same : made ≡ bytes = ground arith in
    record {
      valid = valid;
      written = ok_or_ok _ bytes (written ∙ ap ok same);
      small = rw (← same) (ground arith);
    }

-- Valid applications with the same encoding are the same.
pub encode_inj :
    (json : Json) (codec : Codec) (a b : Application) (bytes : List ℕ)
    → ReadsBack json
    → encode json codec a ≡ ok bytes
    → encode json codec b ≡ ok bytes
    → a ≡ b
unfolding snapshot_of
encode_inj json codec a b bytes law p q =
    let ea = encode-Encoded json codec a bytes p in
    let eb = encode-Encoded json codec b bytes q in
    let pa = validate-Passed codec a ea.valid in
    let pb = validate-Passed codec b eb.valid in
    let same : snapshot_of a ≡ snapshot_of b =
      ground (arith, law (snapshot_of a) bytes ea.written, law (snapshot_of b) bytes eb.written) in
    let tasks =
      Keyed-values (λ (t : TaskApproval). t.id) a.tasks b.tasks (tasks-Keyed codec a pa)
        (tasks-Keyed codec b pb) (ap (λ (s : Snapshot). s.tasks) same) in
    let records =
      Keyed-values (λ (r : Record). r.id) a.records b.records (records-Keyed codec a pa)
        (records-Keyed codec b pb) (ap (λ (s : Snapshot). s.records) same) in
    λ i. record {
      tasks = tasks i;
      records = records i;
      grants = (same i).grants;
      requests = (same i).requests;
      audit_log = (same i).audit_log;
      last_time = (same i).last_time;
      clock_frozen = (same i).clock_frozen;
      generation = (same i).generation;
      revoked_tasks = (same i).revoked_tasks;
      deliveries = (same i).deliveries;
      baselines = (same i).baselines;
      predecessor = (same i).predecessor;
    }

-- A difference that `clock_only_difference` calls one of the clock alone is one of the high-water mark
-- and of the generation: all else is the same. It is assumed that serde_json reads back what it
-- wrote.
pub clock_only_difference_sound :
    (json : Json) (codec : Codec) (current candidate : Application)
    → ReadsBack json
    → clock_only_difference json codec current candidate ≡ ok true
    → candidate
      ≡ record current { last_time = candidate.last_time; generation = candidate.generation }
unfolding clock_only_difference
clock_only_difference_sound json codec current candidate law h =
    let high = later_mark current.last_time candidate.last_time in
    let a = record current { last_time = high; generation = 1 } in
    let b = record candidate { last_time = high; generation = 1 } in
    let (left, written, h1) = bind_ok (encode json codec a) _ _ h in
    let (right, written', h2) = bind_ok (encode json codec b) _ _ h1 in
    let equal : left ≡ right = ==→≡ left right (ground arith) in
    let back = sym (encode_inj json codec a b left law written (written' ∙ ap ok (sym equal))) in
    λ i. record (back i) { last_time = candidate.last_time; generation = candidate.generation }
