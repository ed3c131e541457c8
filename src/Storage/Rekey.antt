-- ===== src/Storage/Rekey.antt =====
-- src/agent/storage.rs, `rekey`: what it leaves behind, however its publication ends.
use credman.Base.{
  ℕ, ◌+◌, ◌≡◌, ◌⊎◌, inl, inr, refl, sym, subst, ap, ◌∙◌, Bool, not, Option, some, arith, string_eq,
}
use credman.Result.{
  Error, Result, ok, err, Result-cases, bind_ok, then_ok, reject, ok_or, map_err, recovery_required,
  invalid_storage, invalid,
}
use credman.Result.{not_published as not_published_error}
use credman.Types.{Application, AuthenticatedContext, Digest}
use credman.Storage.{
  Image, Sealing, Images, Weather, DurableVault, Publication, not_published, durable, unknown,
  Store,
}
use credman.Storage.Crash.{Settled, publish_outcome}
use credman.Storage.Vault.{ready, settle, next_generation}
use credman.Storage.Durable.{Synced, publish_with-Synced}
use credman.Storage.Reopen.{admin_scope, rekeyed, rekey}

-- However the publication of `rekey` ends, an owner that is still usable afterwards has its
-- application in the visible image, sealed with the key that the owner then holds.
pub rekey-Synced :
    (images : Images) (image_hash : Image → Digest) (weather : Weather)
    (admin : AuthenticatedContext) (valid_words : Bool) (derived : Result Sealing)
    (vault : DurableVault)
    → Synced images vault
    → Synced images (rekey images image_hash weather admin valid_words derived vault).1
unfolding rekey
rekey-Synced images image_hash weather admin valid_words derived vault s =
    elim (Result-cases (rekeyed images image_hash admin valid_words derived vault)) [
      | inr (e, f) ↦ rw (f, rekey) s
      | inl ((next, sealing), f) ↦
          rw (f, rekey) (publish_with-Synced images weather next sealing vault s)
    ]

-- What `rekey` goes on with.
pub one_more : (app : Application) (n : ℕ) → next_generation app ≡ ok n → n ≡ app.generation + 1
unfolding next_generation
one_more app n k = ground arith

held_image :
    (o : Option Image) (image : Image) → ok_or o invalid_storage ≡ ok image → o ≡ some image
held_image o image k = ground arith

key_derived :
    (r : Result Sealing) (made : Sealing) → map_err r invalid_storage ≡ ok made → r ≡ ok made
key_derived r made k = ground arith

pub record Prepared (images : Images) (image_hash : Image → Digest) (admin : AuthenticatedContext)
    (derived : Result Sealing) (vault : DurableVault) (next : Application) (sealing : Sealing)
    : Type 0 where
  pub previous : Image
  pub held : vault.store.current_image ≡ some previous
  pub usable : ready vault ≡ ok tt
  pub scope : admin_scope vault.app admin ≡ ok tt
  pub valid : images.validate next ≡ ok tt
  pub key : derived ≡ ok sealing
  pub application : next ≡ record vault.app {
    generation = vault.app.generation + 1;
    predecessor = some (image_hash previous);
  }

rekeyed-Prepared :
    (images : Images) (image_hash : Image → Digest) (admin : AuthenticatedContext)
    (valid_words : Bool) (derived : Result Sealing) (vault : DurableVault) (next : Application)
    (sealing : Sealing)
    → rekeyed images image_hash admin valid_words derived vault ≡ ok (next, sealing)
    → Prepared images image_hash admin derived vault next sealing
unfolding rekeyed
rekeyed-Prepared images image_hash admin valid_words derived vault next sealing k =
    let (usable, k1) = then_ok (ready vault) _ _ k in
    let (scope, k2) = then_ok (admin_scope vault.app admin) _ _ k1 in
    let (words, k3) = then_ok (reject (not valid_words) invalid) _ _ k2 in
    let (previous, held, k4) = bind_ok (ok_or vault.store.current_image invalid_storage) _ _ k3 in
    let (generation, counted, k5) = bind_ok (next_generation vault.app) _ _ k4 in
    let (valid, k6) = then_ok _ _ _ k5 in
    let (made, key, k7) = bind_ok (map_err derived invalid_storage) _ _ k6 in
    let same_key : made ≡ sealing = ground (arith, k7) in
    let same_app : record vault.app {
      generation = generation;
      predecessor = some (image_hash previous);
    }
        ≡ next =
      ground (arith, k7) in
    record {
      previous = previous;
      held = held_image _ previous held;
      usable = usable;
      scope = scope;
      valid = subst (λ a. images.validate a ≡ ok tt) same_app valid;
      key = key_derived derived made key ∙ ap ok same_key;
      application =
          sym same_app
          ∙ ap {A = ℕ}
              (λ n. record vault.app { generation = n; predecessor = some (image_hash previous) })
              (one_more vault.app generation counted);
    }

-- A failed `rekey`: the owner goes on with the application and the key that it had.
unfoldable pub Kept : DurableVault → Result (Unit {0}) × DurableVault → Type 0
Kept vault (answer, after) =
    ((e : Error) × (answer ≡ err e))
    × (after.app ≡ vault.app)
    × (after.store.sealing ≡ vault.store.sealing)

-- A successful one: the visible image holds the next application under the new key.
pub record Moved (images : Images) (image_hash : Image → Digest) (weather : Weather)
    (admin : AuthenticatedContext) (derived : Result Sealing) (vault : DurableVault)
    (c : Result (Unit {0}) × DurableVault) : Type 0 where
  pub image : Image
  pub answer : c.0 ≡ ok tt
  pub prepared : Prepared images image_hash admin derived vault c.1.app c.1.store.sealing
  pub sealed : images.seal c.1.app c.1.store.sealing weather.nonce ≡ ok image
  pub visible : c.1.store.dir.visible ≡ some image
  pub held : c.1.store.current_image ≡ some image

Settled-Moved :
    (images : Images) (image_hash : Image → Digest) (weather : Weather)
    (admin : AuthenticatedContext) (derived : Result Sealing) (vault : DurableVault)
    (next : Application) (sealing : Sealing) (image : Image) (p : Publication × Store)
    → Prepared images image_hash admin derived vault next sealing
    → images.seal next sealing weather.nonce ≡ ok image
    → Settled next sealing image vault.store p
    → Kept vault (settle next vault p)
      ⊎ Moved images image_hash weather admin derived vault (settle next vault p)
unfolding Settled settle Kept
Settled-Moved images image_hash weather admin derived vault next sealing image
      (not_published, store) prepared k done =
    inl ((not_published_error, refl), refl, ap (λ (s : Store). s.sealing) done)
Settled-Moved images image_hash weather admin derived vault next sealing image (unknown, store)
      prepared k (b, c, same, d) =
    inl ((recovery_required, refl), refl, same)
Settled-Moved images image_hash weather admin derived vault next sealing image (durable, store)
      prepared k (v, c, l, m, z, q, d) =
    inr (record {
      image = image;
      answer = refl;
      prepared = subst (Prepared images image_hash admin derived vault next) (sym l) prepared;
      sealed = rw l k;
      visible = v;
      held = c;
    })

-- `rekey` fails and keeps the application and the key, or it succeeds: then the owner was usable, all
-- tasks and records are the administrator's, and the visible image holds the application, one
-- generation later and with the old image's digest as predecessor, sealed with the new key.
pub rekey_outcome :
    (images : Images) (image_hash : Image → Digest) (weather : Weather)
    (admin : AuthenticatedContext) (valid_words : Bool) (derived : Result Sealing)
    (vault : DurableVault)
    → Kept vault (rekey images image_hash weather admin valid_words derived vault)
      ⊎ Moved images image_hash weather admin derived vault
          (rekey images image_hash weather admin valid_words derived vault)
unfolding rekey settle Kept
rekey_outcome images image_hash weather admin valid_words derived vault =
    elim (Result-cases (rekeyed images image_hash admin valid_words derived vault)) [
      | inr (e, f) ↦ rw (f, rekey) (inl ((e, refl), refl, refl))
      | inl ((next, sealing), f) ↦
          let prepared =
            rekeyed-Prepared images image_hash admin valid_words derived vault next sealing f in
          rw (f, rekey)
            (elim (publish_outcome images weather next sealing vault.store) [
              | inl (e, _) ↦ rw e (inl ((recovery_required, refl), refl, refl))
              | inr (inl (e, _)) ↦ rw e (inl ((not_published_error, refl), refl, refl))
              | inr (inr (image, k, g, done)) ↦
                  Settled-Moved images image_hash weather admin derived vault next sealing image _
                    prepared k done
            ])
    ]
