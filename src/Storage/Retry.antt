-- ===== src/Storage/Retry.antt =====
-- src/agent/mod.rs, `mutate`, on an owner's application: the same request again, at any later time.
use credman.Base.{◌≡◌, false, some}
use credman.Base.Dict.{lookup}
use credman.Result.{ok}
use credman.Types.{
  Uuid, Receipt, Time, AuthenticatedContext, Application, Mutation, RequestKey, Remembered, key_eq,
}
use credman.Generation.{Answers}
use credman.Clock.{clock}
use credman.Application.Frame.{Step-Recorded}
use credman.Application.{Codec, request_key, mutate}
use credman.Application.Replay.{
  Remembers, Answered, mutate-Remembers, remembered_again, remembered_later,
}
use credman.Snapshot.Compact.{compact, stale}
use credman.Snapshot.Stages.{compact_requests}
use credman.Snapshot.Kept.{fold_records_fresh}
use credman.Storage.Onward.{
  Onward, unmoved, operates, prepares, checks, withdraws, concludes, numbers, compacts,
  prepare-Prepared, check_handoff_frame, withdraw-Aside, conclude_Aside,
}

-- The receipt of a request is not old enough to be pruned.
abbrev pub InWindow : RequestKey → Application → Type 0
InWindow key app =
    (c : Remembered) → lookup key app.requests ≡ some c → stale c.at app.last_time ≡ false

-- Any withdrawal is allowed.
abbrev pub Any : Uuid → Application → Type 0
Any attempt app = Unit

module _ (key : RequestKey) (c : Remembered) (a : Application) where
  compact_receipt :
      (b : Application)
      → stale c.at b.last_time ≡ false
      → lookup key b.requests ≡ some c
      → lookup key (compact b).requests ≡ some c
  compact_receipt b fresh found = rw (compact_requests b) (fold_records_fresh key c b fresh found)

  -- A receipt stays as long as the compactions come while it is in the window.
  Onward-receipt :
      {b : Application}
      → Onward (InWindow key) Any a b
      → lookup key a.requests ≡ some c
      → lookup key b.requests ≡ some c
  Onward-receipt unmoved found = found
  Onward-receipt (operates way step) found =
      (Step-Recorded step).requests key c (Onward-receipt way found)
  Onward-receipt (prepares {b = b} fingerprint attempt ctx task request at way new) found =
      rw ((prepare-Prepared fingerprint attempt ctx task request at b).0.requests)
        (Onward-receipt way found)
  Onward-receipt (checks {b = b} fingerprint attempt ctx task request at way) found =
      rw ((check_handoff_frame fingerprint attempt ctx task request at b).0.requests)
        (Onward-receipt way found)
  Onward-receipt (withdraws {b = b} fingerprint attempt ctx task request way allowed) found =
      rw ((withdraw-Aside fingerprint attempt ctx task request b).requests)
        (Onward-receipt way found)
  Onward-receipt (concludes {b = b} attempt ctx task request at status way) found =
      rw ((conclude_Aside attempt ctx task request at status b).requests) (Onward-receipt way found)
  Onward-receipt (numbers generation way) found = Onward-receipt way found
  Onward-receipt (compacts {b = b} way fresh) found =
      let there = Onward-receipt way found in compact_receipt b (fresh c there) there

-- A request is carried out at most once while its receipt is kept: after the call that carried it
-- out, and after whatever operations, private uses and compactions come then, the same call again, at
-- whatever time, with whatever new identifier and random bytes, changes nothing but the clock, and
-- answers with the receipt of the first call or with an error. The condition is that a compaction comes
-- only while the receipt is within the retry window; once a later compaction has pruned the receipt,
-- the same identifier is a new request, of which nothing is said. Recoveries, restores and key changes in
-- between are not covered.
pub mutate_once :
    (codec : Codec) (ctx : AuthenticatedContext) (id request : Uuid) (op : Mutation)
    (fresh fresh' : Uuid) (answers answers' : Answers) (now now' : Time) (app later : Application)
    (receipt : Receipt)
    → (mutate codec fresh answers ctx id request op now app).0 ≡ ok receipt
    → Onward
        (InWindow (request_key ctx id request))
        Any
        (mutate codec fresh answers ctx id request op now app).1
        later
    → Answered codec ctx id request op receipt
        (clock now' later).1
        (mutate codec fresh' answers' ctx id request op now' later)
mutate_once codec ctx id request op fresh fresh' answers answers' now now' app later receipt h way =
    let first = (mutate codec fresh answers ctx id request op now app).1 in
    let kept = mutate-Remembers codec ctx id request op fresh answers now app receipt h in
    let still : Remembers codec ctx id request op later receipt = record {
      entry = kept.entry;
      bytes = kept.bytes;
      found = Onward-receipt (request_key ctx id request) kept.entry first way kept.found;
      encoded = kept.encoded;
      same = kept.same;
      result = kept.result;
    } in
    remembered_again codec ctx id request op fresh' answers' now' later receipt
      (remembered_later codec ctx id request op fresh' answers' now' later receipt still)
