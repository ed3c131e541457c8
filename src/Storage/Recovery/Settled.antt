-- ===== src/Storage/Recovery/Settled.antt =====
-- src/agent/storage/recovery.rs, `adopt_rekeyed` and `settle_visible`: the image that a recovery begins from.
use credman.Base.{
  ◌≡◌, ◌⊎◌, inl, inr, ◌∙◌, ◌&&◌, ◌!=◌, ◌==◌, Option, option_eq, refl, ap, sym, subst, Bool, true,
  false, not, none, some, arith, nat_eq, list_eq, is_none, is_empty, if◌then◌else◌,
}
use credman.Result.{Result, err, bind_ok, then_ok, invalid_storage, ok, map_err, recovery_required}
use credman.Exec.{Exec, exec_ok, refuse, reads, pure, ◌>>◌}
use credman.Types.{Application, AuthenticatedContext, Digest}
use credman.Storage.{Image, Sealing, Directory, Rename, renamed, not_renamed, renamed_with_error}
use credman.Storage.Publish.{rename_to}
use credman.Storage.Recovery.{scope, safe_initial_publication}
use credman.Storage.Recovery.Transition.{refuse_if}
use credman.Storage.Recovery.Pending.{Unseal, read_gate, adoptable, absent_initial_image}
use credman.Storage.Recovery.Run.{
  RecoveryWeather, adopt_rekeyed, fallible, rename_state, settle_visible,
}
use credman.Storage.Recovery.Planned.{Start, passed}

pub rename_state_lem :
    (answer : Rename) (create_only : Bool) (image : Image) (d d' : Directory)
    → rename_state answer create_only image d ≡ (ok tt, d')
    → d' ≡ record d { visible = some image }
unfolding rename_to
rename_state_lem renamed create_only image d d' h = ground arith
rename_state_lem not_renamed create_only image d d' h = absurd (ground arith)
rename_state_lem renamed_with_error create_only image d d' h = absurd (ground arith)

-- The images in a directory that a recovery may start from: the visible one, the base of a plan, and the
-- next one of a pending publication.
abbrev pub Held : Directory → Image → Type 0
Held d base =
    (d.visible ≡ some base)
    ⊎ ((x : Image) × (read_gate d.recovery ≡ ok (base, x)))
    ⊎ ((x : Image) × (read_gate d.pending ≡ ok (x, base)))

reread : (fails : Bool) (d d' : Directory) → refuse fails invalid_storage d ≡ (ok tt, d') → d ≡ d'
reread true d d' h = absurd (ground arith)
reread false d d' h = ap (λ p. p.1) h

module _ (unseal : Unseal) (image_hash : Image → Digest) where
  adoptable_next :
      (admin : AuthenticatedContext) (visible next : Image) (d : Directory)
      → adoptable unseal image_hash admin visible d ≡ ok next
      → (old : Image) × (read_gate d.pending ≡ ok (old, next))
  unfolding adoptable
  adoptable_next admin visible next d h =
      let (_, h1) = then_ok (refuse_if (is_none d.pending)) _ _ h in
      let (gate, gate_read, h2) = bind_ok (read_gate d.pending) _ _ h1 in
      let (_, h3) = then_ok (refuse_if (visible != gate.0 && visible != gate.1)) _ _ h2 in
      let (opened, _, h4) = bind_ok (map_err (unseal gate.1) recovery_required) _ _ h3 in
      let (_, h5) = then_ok (scope opened.0 admin) _ _ h4 in
      let (_, h6) = then_ok (refuse_if (opened.0.predecessor != some (image_hash gate.0))) _ _ h5 in
      let same : gate.1 ≡ next = ground arith in (gate.0, gate_read ∙ ap (λ x. ok (gate.0, x)) same)

  -- What an adoption leaves: the visible image is the one before, or the next one of the gate.
  abbrev Adopted : Directory → Directory → Type 0
  Adopted d d' =
      (d'.recovery ≡ d.recovery)
      × (d'.pending ≡ d.pending)
      × ((d'.visible ≡ d.visible)
          ⊎ ((old : Image) × (next : Image) × (read_gate d.pending ≡ ok (old, next))
              × (d'.visible ≡ some next)))

  adopted_if :
      (same : Bool) (w : RecoveryWeather) (next : Image) (d d' : Directory)
      → (if same
            then pure tt
            else (fallible w.adopt_write_fails
                >> (rename_state w.adopt_rename false next >> fallible w.adopt_sync_fails)))
          d
        ≡ (ok tt, d')
      → (d' ≡ d) ⊎ (d' ≡ record d { visible = some next })
  adopted_if true w next d d' h = inl (ap (λ p. p.1) (sym h))
  adopted_if false w next d d' h =
      let (_, d1, s1, h1) = exec_ok (fallible w.adopt_write_fails) _ d d' tt h in
      let (_, d2, s2, h2) = exec_ok (rename_state w.adopt_rename false next) _ d1 d' tt h1 in
      let moved = rename_state_lem w.adopt_rename false next d1 d2 s2 in
      let end = passed w.adopt_sync_fails d2 d' h2 in
      let start = passed w.adopt_write_fails d d1 s1 in
      inr (sym end ∙ moved ∙ ap (λ (x : Directory). record x { visible = some next }) (sym start))

  adopt_rekeyed-Adopted :
      (w : RecoveryWeather) (admin : AuthenticatedContext) (visible : Image) (d d' : Directory)
      → adopt_rekeyed unseal image_hash w admin visible d ≡ (ok tt, d')
      → Adopted d d'
  unfolding adopt_rekeyed
  adopt_rekeyed-Adopted w admin visible d d' h =
      let (_, d1, s1, h1) = exec_ok (fallible w.adopt_gate_unreadable) _ d d' tt h in
      let start = passed w.adopt_gate_unreadable d d1 s1 in
      let (next, d2, s2, h2) =
        exec_ok (reads (adoptable unseal image_hash admin visible)) _ d1 d' tt h1 in
      let (old, gate_read) = adoptable_next admin visible next d1 (ap (λ p. p.0) s2) in
      let same : d ≡ d2 = start ∙ ap (λ p. p.1) s2 in
      elim (adopted_if (visible == next) w next d2 d' h2) [
        | inl q ↦ subst (λ x. Adopted d x) (same ∙ sym q) (refl, refl, inl refl)
        | inr q ↦
            subst (λ x. Adopted d x)
              (ap (λ (x : Directory). record x { visible = some next }) same ∙ sym q)
              (
                refl,
                refl,
                inr (
                  old,
                  next,
                  ap (λ (x : Directory). read_gate x.pending) start ∙ gate_read,
                  refl,
                ),
              )
      ]

  -- What is found is visible in the directory that is left.
  abbrev pub Found : Directory → Option Image → Directory → Type 0
  Found d on_disk d' = Adopted d d' × (d'.visible ≡ on_disk)

  -- The rest of `settle_visible`, after the image is opened and after it is read.
  abbrev after_opening :
      RecoveryWeather
      → AuthenticatedContext
      → Image
      → Result (Application × Sealing)
      → Exec Directory (Option Image)
  after_opening w admin image opened = elim opened [
    | ok _ ↦ pure (some image)
    | err _ ↦ do
      adopt_rekeyed unseal image_hash w admin image
      refuse w.reread_fails invalid_storage
      reads (λ dir. ok dir.visible)
  ]

  abbrev after_reading :
      RecoveryWeather → AuthenticatedContext → Option Image → Exec Directory (Option Image)
  after_reading w admin seen = elim seen [
    | none ↦ pure none
    | some image ↦ after_opening w admin image (unseal image)
  ]

  opened_or_adopted :
      (r : Result (Application × Sealing)) (w : RecoveryWeather) (admin : AuthenticatedContext)
      (image : Image) (on_disk : Option Image) (d d' : Directory)
      → d.visible ≡ some image
      → after_opening w admin image r d ≡ (ok on_disk, d')
      → Found d on_disk d'
  opened_or_adopted (ok a) w admin image on_disk d d' there h =
      let found : some image ≡ on_disk = ground arith in
      subst (λ x. Found d on_disk x) (ap (λ p. p.1) h) ((refl, refl, inl refl), there ∙ found)
  opened_or_adopted (err e) w admin image on_disk d d' there h =
      let (_, d1, s1, h1) =
        exec_ok (adopt_rekeyed unseal image_hash w admin image) _ d d' on_disk h in
      let (_, d2, s2, h2) = exec_ok (refuse w.reread_fails invalid_storage) _ d1 d' on_disk h1 in
      let adopted = adopt_rekeyed-Adopted w admin image d d1 s1 in
      let same : d1 ≡ d2 = reread w.reread_fails d1 d2 s2 in
      let found : d2.visible ≡ on_disk = ground arith in
      subst (λ x. Found d on_disk x) (same ∙ ap (λ p. p.1) h2)
        (adopted, ap (λ (x : Directory). x.visible) same ∙ found)

  Found-from :
      (seen : Option Image) (w : RecoveryWeather) (admin : AuthenticatedContext)
      (on_disk : Option Image) (d d' : Directory)
      → d.visible ≡ seen
      → after_reading w admin seen d ≡ (ok on_disk, d')
      → Found d on_disk d'
  Found-from none w admin on_disk d d' there h =
      let found : none ≡ on_disk = ground arith in
      subst (λ x. Found d on_disk x) (ap (λ p. p.1) h) ((refl, refl, inl refl), there ∙ found)
  Found-from (some image) w admin on_disk d d' there h =
      opened_or_adopted (unseal image) w admin image on_disk d d' there h

  pub settle_visible-Found :
      (w : RecoveryWeather) (admin : AuthenticatedContext) (on_disk : Option Image)
      (d d' : Directory)
      → settle_visible unseal image_hash w admin d ≡ (ok on_disk, d')
      → Found d on_disk d'
  unfolding settle_visible
  settle_visible-Found w admin on_disk d d' h =
      let (_, d1, s1, h1) = exec_ok (refuse w.image_unreadable invalid_storage) _ d d' on_disk h in
      let same = reread w.image_unreadable d d1 s1 in
      subst (λ x. Found x on_disk d') (sym same)
        (Found-from d1.visible w admin on_disk d1 d' refl h1)

  absent_next :
      (visible : Image) (d : Directory)
      → absent_initial_image unseal d ≡ ok visible
      → (x : Image) × (read_gate d.pending ≡ ok (x, visible))
  unfolding absent_initial_image
  absent_next visible d h =
      let (gate, gate_read, h1) = bind_ok (read_gate d.pending) _ _ h in
      let (_, h2) = then_ok (refuse_if (not (is_empty gate.0))) _ _ h1 in
      let (opened, _, h3) = bind_ok (map_err (unseal gate.1) recovery_required) _ _ h2 in
      let (_, h4) = then_ok (refuse_if (not (safe_initial_publication opened.0))) _ _ h3 in
      let same : gate.1 ≡ visible = ground arith in
      (gate.0, gate_read ∙ ap (λ x. ok (gate.0, x)) same)

  -- The image to recover from was in the directory, and so was the plan.
  pub Found-Held :
      (on_disk : Option Image) (visible : Image) (d d' : Directory)
      → Found d on_disk d'
      → (elim on_disk [ some image ↦ ok image | none ↦ absent_initial_image unseal d' ])
        ≡ ok visible
      → (base : Image) → Start visible d' base
      → Held d base
  Found-Held on_disk visible d d' ((plan, gate, moved), there) chosen base (inr (x, read)) =
      inr (inl (x, ap read_gate (sym plan) ∙ read))
  Found-Held none visible d d' ((plan, gate, moved), there) chosen base (inl same) =
      let (x, read) = absent_next visible d' chosen in
      inr (inr (x, ap read_gate (sym gate) ∙ read ∙ ap (λ i. ok (x, i)) (sym same)))
  Found-Held (some image) visible d d' ((plan, gate, inl kept), there) chosen base (inl same) =
      let found : image ≡ visible = ground arith in
      inl (sym kept ∙ there ∙ ap some (found ∙ sym same))
  Found-Held (some image) visible d d' ((plan, gate, inr (old, next, read, moved)), there) chosen
        base (inl same) =
      let found : next ≡ visible = ground arith in
      inr (inr (old, read ∙ ap (λ i. ok (old, i)) (found ∙ sym same)))
