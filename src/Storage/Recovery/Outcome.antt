-- ===== src/Storage/Recovery/Outcome.antt =====
-- src/agent/storage/recovery.rs, `recover_at`: what a recovery that ends leaves.
use credman.Base.{
  ◌≡◌, ◌∙◌, option_eq, refl, ap, sym, subst, Bool, true, false, not, none, some, arith, nat_eq,
  list_eq, is_some, is_none,
}
use credman.Result.{ok, map_err, recovery_required, denied}
use credman.Exec.{exec_ok, refuse, reads, ◌>>◌}
use credman.Types.{Application, AuthenticatedContext, Digest}
use credman.Storage.{Image, Sealing, Images, Directory, DurableVault}
use credman.Storage.Recovery.{scope}
use credman.Storage.Recovery.Powerless.{Powerless, sanitize-Powerless, map_err_ok}
use credman.Storage.Recovery.Transition.{Forms}
use credman.Storage.Recovery.Pending.{Unseal, absent_initial_image}
use credman.Storage.Recovery.Run.{
  RecoveryWeather, fallible, rename_state, install, plan_recovery, recover_at, settle_visible,
  recovered, carry_through, recover_from,
}
use credman.Storage.Recovery.Settled.{
  rename_state_lem, Held, Found, settle_visible-Found, Found-Held,
}
use credman.Storage.Recovery.Planned.{Distinct, Sanitized, Start, passed, plan_recovery-Sanitized}

install_lem :
    (w : RecoveryWeather) (missing has_pending : Bool) (image : Image) (d d' : Directory)
    → install w missing has_pending image d ≡ (ok tt, d')
    → has_pending ≡ is_some d.pending
    → (d'.visible ≡ some image) × (d'.pending ≡ none) × (d'.recovery ≡ none)
unfolding install
install_lem w missing has_pending image d d' h q =
    let (_, d1, s1, h1) = exec_ok (fallible w.write_fails) _ d d' tt h in
    let start = passed w.write_fails d d1 s1 in
    let (_, d2, s2, h2) = exec_ok (rename_state w.rename missing image) _ d1 d' tt h1 in
    let moved = rename_state_lem w.rename missing image d1 d2 s2 in
    (ground arith, ground arith, ground arith)

administrator :
    (admin : Bool) (d d' : Directory) → refuse (not admin) denied d ≡ (ok tt, d') → admin ≡ true
administrator true d d' h = refl
administrator false d d' h = absurd (ground arith)

asked : (admin : Bool) (d d' : Directory) → refuse (not admin) denied d ≡ (ok tt, d') → d ≡ d'
asked true d d' h = ap (λ p. p.1) h
asked false d d' h = absurd (ground arith)

-- What a recovery leaves, of the vault, the directory and the human.
pub record Reconciled (images : Images) (unseal : Unseal) (admin : AuthenticatedContext)
    (start : Image → Type 0) (vault : DurableVault) (d : Directory) : Type 0 where
  pub image : Image
  pub planned : Sanitized images unseal admin start vault.store.sealing (vault.app, image)
  pub powerless : Powerless vault.app
  pub valid : images.validate vault.app ≡ ok tt
  pub clock_runs : vault.app.clock_frozen ≡ false
  pub administrator : admin.admin ≡ true
  pub usable : (vault.store.blocked ≡ false) × (vault.frozen ≡ false)
  pub held :
      (vault.store.dir ≡ d) × (vault.store.current_image ≡ some image) × (d.visible ≡ some image)
  pub ungated : (d.pending ≡ none) × (d.recovery ≡ none)

installed-Reconciled :
    (images : Images) (unseal : Unseal) (w : RecoveryWeather) (admin : AuthenticatedContext)
    (start : Image → Type 0) (missing has_pending : Bool) (planned : Application × Image)
    (sealing : Sealing) (d d' : Directory) (vault : DurableVault)
    → (install w missing has_pending planned.1 >> reads (λ dir. ok (recovered planned sealing dir)))
        d
      ≡ (ok vault, d')
    → has_pending ≡ is_some d.pending
    → Sanitized images unseal admin start sealing planned
    → admin.admin ≡ true
    → Reconciled images unseal admin start vault d'
installed-Reconciled images unseal w admin start missing has_pending planned sealing d d' vault h q
      s a =
    let (_, d1, s1, h1) = exec_ok (install w missing has_pending planned.1) _ d d' vault h in
    let (visible, pending, recovery) = install_lem w missing has_pending planned.1 d d1 s1 q in
    let (powerless, valid, runs, _, _, _) =
      sanitize-Powerless images s.previous planned.0 s.now s.made in
    let same : recovered planned sealing d1 ≡ vault = ground arith in
    let there : d1 ≡ d' = ap (λ p. p.1) h1 in
    let reached : Reconciled images unseal admin start (recovered planned sealing d1) d1 = record {
      image = planned.1;
      planned = s;
      powerless = powerless;
      valid = valid;
      clock_runs = runs;
      administrator = a;
      usable = (refl, refl);
      held = (refl, refl, visible);
      ungated = (pending, recovery);
    } in
    subst (λ v. Reconciled images unseal admin start v d') same
      (subst (λ x. Reconciled images unseal admin start (recovered planned sealing d1) x) there
        reached)

-- The start of a recovery in other words.
Reconciled-start :
    (images : Images) (unseal : Unseal) (admin : AuthenticatedContext) (start held : Image → Type 0)
    (vault : DurableVault) (d : Directory)
    → ((base : Image) → start base → held base)
    → Reconciled images unseal admin start vault d
    → Reconciled images unseal admin held vault d
Reconciled-start images unseal admin start held vault d weaken r =
    let s = r.planned in
    record {
      image = r.image;
      planned = record {
        base = s.base;
        from = weaken s.base s.from;
        previous = s.previous;
        seed = s.seed;
        now = s.now;
        opened = s.opened;
        scoped = s.scoped;
        made = s.made;
        image = s.image;
      };
      powerless = r.powerless;
      valid = r.valid;
      clock_runs = r.clock_runs;
      administrator = r.administrator;
      usable = r.usable;
      held = r.held;
      ungated = r.ungated;
    }

module _ (images : Images) (unseal : Unseal) (image_hash : Image → Digest) (forms : Forms) where
  carry_through-Reconciled :
      (w : RecoveryWeather) (admin : AuthenticatedContext) (missing : Bool) (visible : Image)
      (found : Application × Sealing) (d d' : Directory) (vault : DurableVault)
      → Distinct images
      → carry_through images unseal image_hash forms w admin missing visible found d
        ≡ (ok vault, d')
      → unseal visible ≡ ok found
      → scope found.0 admin ≡ ok tt
      → admin.admin ≡ true
      → Reconciled images unseal admin (Start visible d) vault d'
  unfolding carry_through
  carry_through-Reconciled w admin missing visible found d d' vault law h opened scoped a =
      let (planned, d1, planned_at, h1) =
        exec_ok (plan_recovery images unseal image_hash forms w admin visible found.0 found.1)
          (λ p.
            install w missing (is_some d.pending) p.1
            >> reads (λ dir. ok (recovered p found.1 dir)))
          d d' vault h in
      let (kept, made) =
        plan_recovery-Sanitized images unseal image_hash forms w admin visible found.0 found.1 d d1
          planned law opened scoped planned_at in
      installed-Reconciled images unseal w admin (Start visible d) missing (is_some d.pending)
        planned found.1 d1 d' vault h1 (ap is_some (sym kept)) made a

  recover_from-Reconciled :
      (w : RecoveryWeather) (admin : AuthenticatedContext) (missing : Bool) (visible : Image)
      (d d' : Directory) (vault : DurableVault)
      → Distinct images
      → recover_from images unseal image_hash forms w admin missing visible d ≡ (ok vault, d')
      → admin.admin ≡ true
      → Reconciled images unseal admin (Start visible d) vault d'
  unfolding recover_from
  recover_from-Reconciled w admin missing visible d d' vault law h a =
      let (found, d1, s1, h1) =
        exec_ok (reads (λ _. map_err (unseal visible) recovery_required)) _ d d' vault h in
      let (_, d2, s2, h2) = exec_ok (reads (λ _. scope found.0 admin)) _ d1 d' vault h1 in
      let same : d2 ≡ d = ap (λ p. p.1) (sym s2) ∙ ap (λ p. p.1) (sym s1) in
      subst (λ x. Reconciled images unseal admin (Start visible x) vault d') same
        (carry_through-Reconciled w admin missing visible found d2 d' vault law h2
          (map_err_ok (unseal visible) found (ap (λ p. p.0) s1)) (ap (λ p. p.0) s2) a)

  -- A recovery that ends well was asked for by an administrator, and its vault is what `sanitize`
  -- makes, at some time, of the application in an image of the directory: the visible one, the base
  -- of the plan, or the next one of a pending publication. That application is within the scope of
  -- the administrator. So the vault is valid, with no live task or grant, no operation under any task
  -- accepted, no delivery without an end and a clock that runs. It is usable, its image, which is
  -- sealed from it or opens to it, is the visible one and both gates are gone. It is assumed that no
  -- two applications are encoded alike.
  pub recover_at-Reconciled :
      (w : RecoveryWeather) (admin : AuthenticatedContext) (d d' : Directory) (vault : DurableVault)
      → Distinct images
      → recover_at images unseal image_hash forms w admin d ≡ (ok vault, d')
      → Reconciled images unseal admin (Held d) vault d'
  unfolding recover_at
  recover_at-Reconciled w admin d d' vault law h =
      let (_, d1, s1, h1) = exec_ok (refuse (not admin.admin) denied) _ d d' vault h in
      let (_, d2, s2, h2) = exec_ok (reads (λ _. w.acquired)) _ d1 d' vault h1 in
      let (on_disk, d3, s3, h3) =
        exec_ok (settle_visible unseal image_hash w admin) _ d2 d' vault h2 in
      let (visible, d4, s4, h4) =
        exec_ok
          (reads (λ dir. elim on_disk [
            | some image ↦ ok image
            | none ↦ absent_initial_image unseal dir
          ]))
          _ d3 d' vault h3 in
      let start : d2 ≡ d = ap (λ p. p.1) (sym s2) ∙ sym (asked admin.admin d d1 s1) in
      let found =
        subst (λ x. Found unseal image_hash x on_disk d3) start
          (settle_visible-Found unseal image_hash w admin on_disk d2 d3 s3) in
      let same : d4 ≡ d3 = ap (λ p. p.1) (sym s4) in
      Reconciled-start images unseal admin (Start visible d3) (Held d) vault d'
        (Found-Held unseal image_hash on_disk visible d d3 found (ap (λ p. p.0) s4))
        (subst (λ x. Reconciled images unseal admin (Start visible x) vault d') same
          (recover_from-Reconciled w admin (is_none on_disk) visible d4 d' vault law h4
            (administrator admin.admin d d1 s1)))
