-- ===== src/Snapshot/Passed.antt =====
-- src/agent/snapshot.rs: what a snapshot that `validate` accepts has passed.
use credman.Base.{
  ◌≡◌, refl, ap, ◌∙◌, sym, Bool, true, false, ◌&&◌, not, Option, some, List, [], ◌∷◌, arith, ◌==◌,
  nat_eq, Member, here, there,
}
use credman.Base.Dict.{Dict, values}
use credman.Result.{ok, ok_or, bind_ok, then_ok, invalid_storage}
use credman.Loops.{try_each, fold_each, try_each_ok, fold_each_ok}
use credman.Types.{Uuid, Application, empty_application, TaskApproval, Record, is_nil, is_blank}
use credman.Application.{Codec}
use credman.Snapshot.Validate.{
  ensure, check_clock, check_counts, check_task, check_revoked, check_record, check_grant,
  no_accounts, check_request, check_baseline, check_account, Accounts,
}
use credman.Snapshot.Whole.{
  Attempts, check_shares, check_delivery, check_verified, check_event, validate,
}

pub ensure_ok : (b : Bool) → ensure b ≡ ok tt → b ≡ true
ensure_ok true h = refl
ensure_ok false h = absurd (ground arith)

pub ok_or_ok {ℓ} : {A : Type ℓ} (o : Option A) (a : A) → ok_or o invalid_storage ≡ ok a → o ≡ some a
ok_or_ok o a h = ground arith

abbrev pub no_attempts : Attempts
no_attempts = record { delivery_keys = []; registrations = [] }

-- The loops of `validate`, each at its end.
pub record Passed (codec : Codec) (app : Application) : Type 0 where
  pub clock : check_clock app ≡ ok tt
  pub counts : check_counts app ≡ ok tt
  pub checker : Application
  pub tasks : fold_each check_task app.tasks empty_application ≡ ok checker
  pub revoked : try_each (check_revoked app) app.revoked_tasks ≡ ok tt
  pub records : try_each (check_record app) app.records ≡ ok tt
  pub grants : try_each (check_grant app) app.grants ≡ ok tt
  pub accounts : Accounts
  pub requests : fold_each (check_request app) app.requests no_accounts ≡ ok accounts
  pub accounted : List Uuid
  pub baselines : fold_each (check_baseline app) app.baselines [] ≡ ok accounted
  pub history : try_each (check_account app accounts) app.records ≡ ok tt
  pub shares : check_shares app accounts accounted ≡ ok tt
  pub attempts : Attempts
  pub deliveries : fold_each (check_delivery codec app) app.deliveries no_attempts ≡ ok attempts
  pub verified : try_each (check_verified codec app) (values app.records) ≡ ok tt
  pub events : try_each (check_event codec app) app.audit_log ≡ ok tt

pub validate-Passed :
    (codec : Codec) (app : Application) → validate codec app ≡ ok tt → Passed codec app
unfolding validate
validate-Passed codec app h =
    let (clock, h1) = then_ok (check_clock app) _ _ h in
    let (counts, h2) = then_ok (check_counts app) _ _ h1 in
    let (checker, tasks, h3) = bind_ok (fold_each check_task app.tasks empty_application) _ _ h2 in
    let (revoked, h4) = then_ok (try_each (check_revoked app) app.revoked_tasks) _ _ h3 in
    let (records, h5) = then_ok (try_each (check_record app) app.records) _ _ h4 in
    let (grants, h6) = then_ok (try_each (check_grant app) app.grants) _ _ h5 in
    let (accounts, requests, h7) =
      bind_ok (fold_each (check_request app) app.requests no_accounts) _ _ h6 in
    let (accounted, baselines, h8) =
      bind_ok (fold_each (check_baseline app) app.baselines []) _ _ h7 in
    let (history, h9) = then_ok (try_each (check_account app accounts) app.records) _ _ h8 in
    let (shares, h10) = then_ok (check_shares app accounts accounted) _ _ h9 in
    let (attempts, deliveries, h11) =
      bind_ok (fold_each (check_delivery codec app) app.deliveries no_attempts) _ _ h10 in
    let (verified, events) =
      then_ok (try_each (check_verified codec app) (values app.records)) _ _ h11 in
    record {
      clock = clock;
      counts = counts;
      checker = checker;
      tasks = tasks;
      revoked = revoked;
      records = records;
      grants = grants;
      accounts = accounts;
      requests = requests;
      accounted = accounted;
      baselines = baselines;
      history = history;
      shares = shares;
      attempts = attempts;
      deliveries = deliveries;
      verified = verified;
      events = events;
    }

-- A map whose values hold their keys.
abbrev pub Keyed {ℓ} : {V : Type ℓ} → (V → Uuid) → Dict Uuid V → Type ℓ
Keyed id [] = Unit
Keyed id ((k, v) ∷ d) = (k ≡ id v) × Keyed id d

module _ {ℓ} {V : Type ℓ} (id : V → Uuid) where
  pub Keyed-intro :
      (d : Dict Uuid V) → ((k : Uuid) (v : V) → Member (k, v) d → k ≡ id v) → Keyed id d
  Keyed-intro [] h = tt
  Keyed-intro ((k, v) ∷ d) h = (h k v here, Keyed-intro d (λ j w m. h j w (there m)))

module _ {V : Type 0} (id : V → Uuid) where
  pub Keyed-values : (a b : Dict Uuid V) → Keyed id a → Keyed id b → values a ≡ values b → a ≡ b
  unfolding values
  Keyed-values [] [] p q h = refl
  Keyed-values [] (y ∷ b) p q h = absurd (ground arith)
  Keyed-values (x ∷ a) [] p q h = absurd (ground arith)
  Keyed-values ((k, v) ∷ a) ((j, w) ∷ b) p q h =
      let same : v ≡ w = ground arith in
      let rest = Keyed-values a b p.1 q.1 (ground arith) in
      let key : k ≡ j = p.0 ∙ ap id same ∙ sym q.0 in ground (arith, same, rest, key)

module _ (codec : Codec) (app : Application) (p : Passed codec app) where
  pub task_keyed : (k : Uuid) (t : TaskApproval) → Member (k, t) app.tasks → k ≡ t.id
  unfolding check_task
  task_keyed k t m =
      let s = fold_each_ok check_task m empty_application p.checker p.tasks in
      let (first, _) =
        then_ok (ensure (not (is_nil k) && k == t.id && not (is_blank t.workspace))) _ _
          s.stepped in
      ground (arith, ensure_ok _ first, nat_eq.beq_iff k t.id)

  pub record_keyed : (k : Uuid) (r : Record) → Member (k, r) app.records → k ≡ r.id
  unfolding check_record
  record_keyed k r m =
      ground (arith, try_each_ok (check_record app) m p.records, nat_eq.beq_iff k r.id)

  pub tasks-Keyed : Keyed (λ (t : TaskApproval). t.id) app.tasks
  tasks-Keyed = Keyed-intro (λ (t : TaskApproval). t.id) app.tasks task_keyed

  pub records-Keyed : Keyed (λ (r : Record). r.id) app.records
  records-Keyed = Keyed-intro (λ (r : Record). r.id) app.records record_keyed
