-- ===== src/Storage/Durable.antt =====
-- src/agent/storage.rs, `apply`: the owner's application beside the one in its visible image.
use credman.Base.{
  ℕ, ◌≡◌, ◌⊎◌, refl, sym, ap, subst, true, false, Option, none, some, List, arith, inl, inr,
}
use credman.Base.Int.{pos_part, neg_part, saturating_sub, ◌-ℤ◌}
use credman.Result.{Result, ok, err, Result-cases}
use credman.Exec.{Exec}
use credman.Types.{Application, Time}
use credman.Storage.{
  Image, Sealing, Images, Weather, Publication, not_published, durable, unknown, Store,
  DurableVault, gated, block,
}
use credman.Storage.Publish.{publish_with, publish}
use credman.Storage.Vault.{ready, due, settle, clock_only, commit, working_copy, apply, answer_with}
use credman.Storage.Crash.{Settled, publish_outcome}
use credman.Storage.Owner.{refused, ticked, published, Committed, commit_cases}

-- What the directory and the owner agree on.
pub record Saved (images : Images) (vault : DurableVault) : Type 0 where
  pub saved : Application
  pub image : Image
  pub nonce : List ℕ
  pub sealed : images.seal saved vault.store.sealing nonce ≡ ok image
  pub visible : vault.store.dir.visible ≡ some image
  pub held : vault.store.current_image ≡ some image
  pub ungated : gated vault.store.dir ≡ false
  pub mark : vault.store.persisted_last_time ≡ saved.last_time
  pub freeze : vault.store.persisted_frozen ≡ saved.clock_frozen
  pub same : vault.app ≡ record saved { last_time = vault.app.last_time }
  pub recent : due saved.last_time vault.app.last_time ≡ false

unfoldable pub Synced : Images → DurableVault → Type 0
Synced images vault = ready vault ≡ ok tt → Saved images vault

pub due_now : (t : Option Time) → due t t ≡ false
unfolding due saturating_sub ◌-ℤ◌ pos_part neg_part
due_now none = refl
due_now (some t) = ground arith

Settled-Synced :
    (images : Images) (weather : Weather) (next : Application) (sealing : Sealing)
    (vault : DurableVault) (image : Image) (p : Publication × Store)
    → Synced images vault
    → images.seal next sealing weather.nonce ≡ ok image
    → gated vault.store.dir ≡ false
    → Settled next sealing image vault.store p
    → Synced images (settle next vault p).1
unfolding Synced Settled settle ready
Settled-Synced images weather next sealing vault image (not_published, store) s k g done r =
    rw done (s (ground arith))
Settled-Synced images weather next sealing vault image (unknown, store) s k g done r =
    absurd (ground arith)
Settled-Synced images weather next sealing vault image (durable, store) s k g done r =
    let (v, c, l, m, f, q, e) = done in
    record {
      saved = next;
      image = image;
      nonce = weather.nonce;
      sealed = rw l k;
      visible = v;
      held = c;
      ungated = ground arith;
      mark = m;
      freeze = f;
      same = refl;
      recent = due_now next.last_time;
    }

-- A publication whose image was not attempted.
unpublished_Synced :
    (images : Images) (next : Application) (vault : DurableVault) (p : Publication × Store)
    → Synced images vault
    → (p ≡ (unknown, block vault.store)) ⊎ (p ≡ (not_published, vault.store))
    → Synced images (settle next vault p).1
unfolding Synced settle ready
unpublished_Synced images next vault p s (inl e) = rw e (λ r. absurd (ground arith))
unpublished_Synced images next vault p s (inr e) = rw e (λ r. s (ground arith))

pub publish_with-Synced :
    (images : Images) (weather : Weather) (next : Application) (sealing : Sealing)
    (vault : DurableVault)
    → Synced images vault
    → Synced images (settle next vault (publish_with images weather next sealing vault.store)).1
publish_with-Synced images weather next sealing vault s =
    elim (publish_outcome images weather next sealing vault.store) [
      | inl (e, _) ↦ unpublished_Synced images next vault _ s (inl e)
      | inr (inl (e, _)) ↦ unpublished_Synced images next vault _ s (inr e)
      | inr (inr (image, k, g, done)) ↦
          Settled-Synced images weather next sealing vault image _ s k g done
    ]

publish-Synced :
    (images : Images) (weather : Weather) (next : Application) (vault : DurableVault)
    → Synced images vault
    → Synced images (settle next vault (publish images weather next vault.store)).1
unfolding publish
publish-Synced images weather next vault s =
    publish_with-Synced images weather next vault.store.sealing vault s

clock_only-due :
    (images : Images) (candidate : Application) (vault : DurableVault)
    → clock_only images candidate vault ≡ ok true
    → due vault.store.persisted_last_time candidate.last_time ≡ false
unfolding clock_only
clock_only-due images candidate vault k =
    elim (Result-cases (images.clock_only_difference vault.app candidate)) [
      | inr (e, f) ↦ absurd (ground arith)
      | inl (b, f) ↦ ground arith
    ]

tick_Synced :
    (images : Images) (candidate : Application) (vault : DurableVault)
    → Synced images vault
    → ready vault ≡ ok tt
    → clock_only images candidate vault ≡ ok true
    → Synced images (record vault { app = record vault.app { last_time = candidate.last_time } })
unfolding Synced ready
tick_Synced images candidate vault s r k _ =
    let kept = s r in
    record {
      saved = kept.saved;
      image = kept.image;
      nonce = kept.nonce;
      sealed = kept.sealed;
      visible = kept.visible;
      held = kept.held;
      ungated = kept.ungated;
      mark = kept.mark;
      freeze = kept.freeze;
      same = ap {A = Application} (λ a. record a { last_time = candidate.last_time }) kept.same;
      recent =
          subst (λ t. due t candidate.last_time ≡ false) kept.mark
            (clock_only-due images candidate vault k);
    }

Committed-Synced :
    (images : Images) (weather : Weather) (candidate : Application) (vault : DurableVault)
    (c : Result (Unit {0}) × DurableVault)
    → Committed images weather candidate vault c
    → Synced images vault
    → Synced images c.1
Committed-Synced images weather candidate vault c (refused e) s = s
Committed-Synced images weather candidate vault c (ticked r k) s =
    tick_Synced images candidate vault s r k
Committed-Synced images weather candidate vault c (published next r k) s =
    publish-Synced images weather next vault s

answer_keeps {ℓ} :
    {R : Type ℓ} (result : Result R) (c : Result (Unit {0}) × DurableVault)
    → (answer_with result c).1 ≡ c.1
unfolding answer_with
answer_keeps result (err e, after) = refl
answer_keeps result (ok u, after) = refl

-- However a publication ends, an owner that is still usable after `apply` has its application in the
-- visible image of a directory without gates: the two differ in the clock's high-water mark at most,
-- and the mark that is saved is not due to be saved again.
pub apply-Synced {ℓ} :
    {R : Type ℓ} (images : Images) (weather : Weather) (operation : Exec Application R)
    (vault : DurableVault)
    → Synced images vault
    → Synced images (apply images weather operation vault).1
unfolding apply
apply-Synced images weather operation vault s = elim (Result-cases (ready vault)) [
  | inr (e, f) ↦ rw (f, apply) s
  | inl (u, f) ↦
      let made = operation (working_copy images vault.app) in
      rw (f, apply)
        (subst (Synced images) (sym (answer_keeps made.0 (commit images weather made.1 vault))) (
          Committed-Synced images weather made.1 vault _ (commit_cases images weather made.1 vault)
            s))
]
