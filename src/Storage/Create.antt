-- ===== src/Storage/Create.antt =====
-- src/agent/storage.rs, `create_from_app`: the vault that it returns.
use credman.Base.{◌≡◌, ◌⊎◌, refl, ap, subst, false, ◌||◌, arith, inl, inr, is_some, Bool-cases}
use credman.Result.{Result, ok, Result-cases}
use credman.Types.{Application}
use credman.Storage.{
  Image, Sealing, Images, Directory, Weather, Publication, not_published, durable, unknown, Store,
  DurableVault, gated,
}
use credman.Storage.Publish.{publish}
use credman.Storage.Vault.{ready}
use credman.Storage.Crash.{Settled, publish_outcome}
use credman.Storage.Durable.{Saved, Synced, due_now}
use credman.Storage.Vault.{create_from_app, created, first_store}

Settled-created :
    (images : Images) (weather : Weather) (app : Application) (sealing : Sealing) (dir : Directory)
    (image : Image) (p : Publication × Store) (vault : DurableVault)
    → images.seal app sealing weather.nonce ≡ ok image
    → gated dir ≡ false
    → Settled app sealing image (first_store sealing dir) p
    → created app p ≡ ok vault
    → Synced images vault
unfolding Synced Settled created ready
Settled-created images weather app sealing dir image (not_published, store) vault k g done h r =
    absurd (ground arith)
Settled-created images weather app sealing dir image (unknown, store) vault k g done h r =
    absurd (ground arith)
Settled-created images weather app sealing dir image (durable, store) vault k g done h r =
    let (v, c, l, m, f, q, e) = done in
    let w : record { app = app; store = store; frozen = store.blocked } ≡ vault = ground arith in
    subst (Saved images) w (record {
      saved = app;
      image = image;
      nonce = weather.nonce;
      sealed = rw l k;
      visible = v;
      held = c;
      ungated = ground arith;
      mark = m;
      freeze = f;
      same = refl;
      recent = due_now app.last_time;
    })

uncreated :
    (app : Application) (p : Publication × Store) (vault : DurableVault)
    → (p.0 ≡ unknown) ⊎ (p.0 ≡ not_published)
    → created app p ≡ ok vault
    → ⊥
unfolding created
uncreated app (not_published, store) vault e h = ground arith
uncreated app (unknown, store) vault e h = ground arith
uncreated app (durable, store) vault (inl e) h = ground arith
uncreated app (durable, store) vault (inr e) h = ground arith

create_ends :
    (images : Images) (weather : Weather) (acquired : Result (Unit {0})) (derived : Result Sealing)
    (app : Application) (dir : Directory) (vault : DurableVault)
    → create_from_app images weather acquired derived app dir ≡ ok vault
    → (sealing : Sealing) × (created app (publish images weather app (first_store sealing dir))
        ≡ ok vault)
unfolding create_from_app
create_ends images weather acquired derived app dir vault h =
    elim (Result-cases (images.encode app)) [
      | inr (e, f) ↦ absurd (ground arith)
      | inl (a, f) ↦ elim (Result-cases acquired) [
        | inr (e, g) ↦ absurd (ground arith)
        | inl (u, g) ↦ elim (Bool-cases (weather.gate_unreadable || gated dir)) [
          | inl shut ↦ absurd (ground arith)
          | inr clear ↦ elim (Bool-cases (is_some dir.visible)) [
            | inl there ↦ absurd (ground arith)
            | inr fresh ↦ elim (Result-cases derived) [
              | inr (e, k) ↦ absurd (ground arith)
              | inl (sealing, k) ↦ (sealing, ground arith)
            ]
          ]
        ]
      ]
    ]

-- A vault that `create_from_app` returns is in step with its directory, if it is usable.
pub create_Synced :
    (images : Images) (weather : Weather) (acquired : Result (Unit {0})) (derived : Result Sealing)
    (app : Application) (dir : Directory) (vault : DurableVault)
    → create_from_app images weather acquired derived app dir ≡ ok vault
    → Synced images vault
unfolding publish
create_Synced images weather acquired derived app dir vault h =
    let (sealing, h5) = create_ends images weather acquired derived app dir vault h in
    elim (publish_outcome images weather app sealing (first_store sealing dir)) [
      | inl (e, _) ↦ absurd (uncreated app _ vault (inl (ap (λ p. p.0) e)) h5)
      | inr (inl (e, _)) ↦ absurd (uncreated app _ vault (inr (ap (λ p. p.0) e)) h5)
      | inr (inr (image, k, g, done)) ↦
          Settled-created images weather app sealing dir image _ vault k g done h5
    ]
