-- ===== src/Storage/Recovery/Planned.antt =====
-- src/agent/storage/recovery.rs, `recover_at`: what is planned is what `sanitize` makes.
use credman.Base.{
  ℕ, ◌≡◌, ◌⊎◌, inl, inr, refl, ap, sym, subst, ◌∙◌, Bool, true, false, ◌&&◌, ◌||◌, not, List, arith,
  ◌!=◌, nat_eq, list_eq, is_some, is_none, ==→≡, any, if◌then◌else◌,
}
use credman.Base.Dict.{values}
use credman.Result.{Result, ok, bind_ok, then_ok, ok_or, recovery_required, invalid, reject}
use credman.Exec.{exec_ok, reads, pure, ◌>>=◌, ◌>>◌}
use credman.Types.{Application, AuthenticatedContext, Digest, Time}
use credman.Storage.{Image, Sealing, Images, Directory}
use credman.Storage.Recovery.{sanitize, scope}
use credman.Storage.Recovery.Powerless.{map_err_ok}
use credman.Storage.Recovery.Transition.{Forms, refuse_if}
use credman.Storage.Recovery.Pending.{
  read_gate, Unseal, unsealed, pending_valid, other_seed, resume, begin,
}
use credman.Storage.Recovery.Run.{RecoveryWeather, fallible, write_pair, plan_recovery}

pub passed : (fails : Bool) (d d' : Directory) → fallible fails d ≡ (ok tt, d') → (d ≡ d')
passed true d d' h = absurd (ground arith)
passed false d d' h = ap (λ p. p.1) h

-- Two applications are not encoded alike.
abbrev pub Distinct : Images → Type 0
Distinct images =
    (a b : Application) (bytes : List ℕ)
    → images.encode a ≡ ok bytes
    → images.encode b ≡ ok bytes
    → a ≡ b

-- The images that a recovery may start from: the one it has found and the one that a plan names.
abbrev pub Start : Image → Directory → Image → Type 0
Start visible d base = (base ≡ visible) ⊎ ((x : Image) × (read_gate d.recovery ≡ ok (base, x)))

-- What is planned is made by `sanitize` of the application of such an image, which is within the
-- administrator's scope, and the planned image is sealed from it or opens to it.
pub record Sanitized (images : Images) (unseal : Unseal) (admin : AuthenticatedContext)
    (start : Image → Type 0) (sealing : Sealing) (planned : Application × Image) : Type 0 where
  pub base : Image
  pub from : start base
  pub previous : Application
  pub seed : Sealing
  pub now : Time
  pub opened : unseal base ≡ ok (previous, seed)
  pub scoped : scope previous admin ≡ ok tt
  pub made : sanitize images previous now ≡ ok planned.0
  pub image :
      ((nonce : List ℕ) × (images.seal planned.0 sealing nonce ≡ ok planned.1))
      ⊎ ((s : Sealing) × (unseal planned.1 ≡ ok (planned.0, s)))

pub chosen :
    (a b : Application) (x y : Image)
    → ◌≡◌ {A = Result (Application × Image)} (ok (a, x)) (ok (b, y))
    → a ≡ b
chosen a b x y h = ground arith

chosen_image :
    (a b : Application) (x y : Image)
    → ◌≡◌ {A = Result (Application × Image)} (ok (a, x)) (ok (b, y))
    → x ≡ y
chosen_image a b x y h = ground arith

same_bytes : (left right : List ℕ) → refuse_if (left != right) ≡ ok tt → left ≡ right
same_bytes left right h = ==→≡ left right (ground arith)

module _ (images : Images) (unseal : Unseal) (image_hash : Image → Digest) (forms : Forms) where
  resume-Sanitized :
      (admin : AuthenticatedContext) (visible : Image) (sealing : Sealing) (d : Directory)
      (target : Application) (planned : Image)
      → Distinct images
      → resume images unseal image_hash forms admin visible sealing d ≡ ok (target, planned)
      → Sanitized images unseal admin (Start visible d) sealing (target, planned)
  unfolding resume
  resume-Sanitized admin visible sealing d target planned law h =
      let (gate, gate_read, h1) = bind_ok (read_gate d.recovery) _ _ h in
      let (before, base_opened, h2) = bind_ok (unsealed unseal gate.0) _ _ h1 in
      let (after, plan_opened, h3) = bind_ok (unsealed unseal gate.1) _ _ h2 in
      let (scoped, h4) = then_ok (scope before.0 admin) _ _ h3 in
      let (_, h5) = then_ok (scope after.0 admin) _ _ h4 in
      let (_, h6) =
        then_ok
          (refuse_if (
            other_seed sealing before.1
            || other_seed sealing after.1
            || visible != gate.0 && visible != gate.1))
          _ _ h5 in
      let (now, _, h7) = bind_ok (ok_or after.0.last_time recovery_required) _ _ h6 in
      let (expected, made, h8) = bind_ok (sanitize images before.0 now) _ _ h7 in
      let (left, written, h9) = bind_ok (images.encode expected) _ _ h8 in
      let (right, written', h10) = bind_ok (images.encode after.0) _ _ h9 in
      let (same, h11) = then_ok (refuse_if (left != right)) _ _ h10 in
      let (_, h12) = then_ok (pending_valid unseal image_hash forms d gate.0) _ _ h11 in
      let equal : left ≡ right = same_bytes left right same in
      let target_same = chosen after.0 target gate.1 planned h12 in
      let back = law expected after.0 left written (written' ∙ ap ok (sym equal)) in
      let image_same = chosen_image after.0 target gate.1 planned h12 in
      record {
        base = gate.0;
        from = inr (gate.1, gate_read);
        previous = before.0;
        seed = before.1;
        now = now;
        opened = map_err_ok (unseal gate.0) before base_opened;
        scoped = scoped;
        made = made ∙ ap ok (back ∙ target_same);
        image = inr (
          after.1,
          ap unseal (sym image_same)
              ∙ map_err_ok (unseal gate.1) after plan_opened
              ∙ ap (λ a. ok (a, after.1)) target_same,
        );
      }

  begin-Sanitized :
      (admin : AuthenticatedContext) (visible : Image) (app : Application) (sealing : Sealing)
      (now : Time) (nonce : List ℕ) (d : Directory) (target : Application) (planned : Image)
      → unseal visible ≡ ok (app, sealing)
      → scope app admin ≡ ok tt
      → begin images unseal image_hash forms visible app sealing now nonce d ≡ ok (target, planned)
      → Sanitized images unseal admin (Start visible d) sealing (target, planned)
  unfolding begin
  begin-Sanitized admin visible app sealing now nonce d target planned opened scoped h =
      let (_, h1) =
        then_ok
          (reject
            (is_none d.pending
              && not app.clock_frozen
              && not (any (λ a. is_none a.status) (values app.deliveries)))
            invalid)
          _ _ h in
      let (_, h2) = then_ok (pending_valid unseal image_hash forms d visible) _ _ h1 in
      let (clean, made, h3) = bind_ok (sanitize images app now) _ _ h2 in
      let (image, sealed, h4) = bind_ok (images.seal clean sealing nonce) _ _ h3 in
      let target_same = chosen clean target image planned h4 in
      record {
        base = visible;
        from = inl refl;
        previous = app;
        seed = sealing;
        now = now;
        opened = opened;
        scoped = scoped;
        made = made ∙ ap ok target_same;
        image = inl (
          nonce,
          ap (λ a. images.seal a sealing nonce) (sym target_same)
              ∙ sealed
              ∙ ap ok (chosen_image clean target image planned h4),
        );
      }

  write_pair_pending :
      (w : RecoveryWeather) (old next : Image) (d d' : Directory)
      → write_pair w old next d ≡ (ok tt, d')
      → d'.pending ≡ d.pending
  unfolding write_pair
  write_pair_pending w old next d d' h = ground arith

  module _ (w : RecoveryWeather) (admin : AuthenticatedContext) (visible : Image)
      (app : Application) (sealing : Sealing) (d d' : Directory) (planned : Application × Image)
      (law : Distinct images) (opened : unseal visible ≡ ok (app, sealing))
      (scoped : scope app admin ≡ ok tt) where
    resumed_plan :
        reads (resume images unseal image_hash forms admin visible sealing) d ≡ (ok planned, d')
        → (d'.pending ≡ d.pending) × Sanitized images unseal admin (Start visible d) sealing planned
    resumed_plan h = (
      ap (λ p. p.1.pending) (sym h),
      resume-Sanitized admin visible sealing d planned.0 planned.1 law (ap (λ p. p.0) h),
    )

    begun_plan :
        (reads (begin images unseal image_hash forms visible app sealing w.now w.nonce) >>= λ p.
        write_pair w visible p.1 >> pure p)
            d
          ≡ (ok planned, d')
        → (d'.pending ≡ d.pending) × Sanitized images unseal admin (Start visible d) sealing planned
    begun_plan h =
        let (p, d1, s1, h1) =
          exec_ok (reads (begin images unseal image_hash forms visible app sealing w.now w.nonce)) _
            d d' planned h in
        let (_, d2, s2, h2) = exec_ok (write_pair w visible p.1) _ d1 d' planned h1 in
        let same : p ≡ planned = ground arith in
        let from_begin =
          begin-Sanitized admin visible app sealing w.now w.nonce d p.0 p.1 opened scoped
            (ap (λ q. q.0) s1) in
        (
          ap (λ q. q.1.pending) (sym h2)
              ∙ write_pair_pending w visible p.1 d1 d2 s2
              ∙ ap (λ q. q.1.pending) (sym s1),
          subst
              (λ (q : Application × Image).
                Sanitized images unseal admin (Start visible d) sealing q)
              same from_begin,
        )

    planned_either :
        (there : Bool)
        → (if there
              then reads (resume images unseal image_hash forms admin visible sealing)
              else (reads (begin images unseal image_hash forms visible app sealing w.now w.nonce)
                  >>= λ p. write_pair w visible p.1 >> pure p))
            d
          ≡ (ok planned, d')
        → (d'.pending ≡ d.pending) × Sanitized images unseal admin (Start visible d) sealing planned
    planned_either true h = resumed_plan h
    planned_either false h = begun_plan h

  pub plan_recovery-Sanitized :
      (w : RecoveryWeather) (admin : AuthenticatedContext) (visible : Image) (app : Application)
      (sealing : Sealing) (d d' : Directory) (planned : Application × Image)
      → Distinct images
      → unseal visible ≡ ok (app, sealing)
      → scope app admin ≡ ok tt
      → plan_recovery images unseal image_hash forms w admin visible app sealing d
        ≡ (ok planned, d')
      → (d'.pending ≡ d.pending) × Sanitized images unseal admin (Start visible d) sealing planned
  unfolding plan_recovery
  plan_recovery-Sanitized w admin visible app sealing d d' planned law opened scoped h =
      let (_, d1, s1, h1) = exec_ok (fallible w.gate_unreadable) _ d d' planned h in
      let start = passed w.gate_unreadable d d1 s1 in
      planned_either w admin visible app sealing d d' planned law opened scoped (is_some d.recovery)
        (rw start h1)
