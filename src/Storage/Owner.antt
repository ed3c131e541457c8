-- ===== src/Storage/Owner.antt =====
-- src/agent/storage.rs, `commit` and `apply`: how they end, and the application that they keep in
-- memory.
use credman.Base.{◌+◌, ◌≡◌, ◌⊎◌, refl, ap, ◌∙◌, true, arith, eqb, inl, inr, Bool-cases}
use credman.Result.{Error, Result, ok, err, Result-cases}
use credman.Exec.{Exec}
use credman.Types.{Application, u64_max}
use credman.Storage.{
  Images, Weather, Publication, not_published, durable, unknown, Store, DurableVault,
}
use credman.Storage.Publish.{publish}
use credman.Storage.Vault.{
  ready, settle, staged, commit_image, clock_only, commit, working_copy, apply, answer_with,
  next_generation,
}

module _ (images : Images) (weather : Weather) (candidate : Application)
    (vault : DurableVault) where
  -- How `commit` ends: refused before any file is touched, or with the clock's mark alone, or with a
  -- publication.
  pub data Committed : Result (Unit {0}) × DurableVault → Type 0 where
    refused : (e : Error) → Committed (err e, vault)
    ticked :
        ready vault ≡ ok tt
        → clock_only images candidate vault ≡ ok true
        → Committed
            (ok tt, record vault { app = record vault.app { last_time = candidate.last_time } })
    published :
        (next : Application)
        → ready vault ≡ ok tt
        → staged images vault.app candidate ≡ ok next
        → Committed (settle next vault (publish images weather next vault.store))

  pub commit_cases : Committed (commit images weather candidate vault)
  unfolding commit commit_image
  commit_cases = elim (Result-cases (ready vault)) [
    | inr (e, f) ↦ rw (f, commit) (refused e)
    | inl (u, f) ↦
        rw (f, commit)
          (elim (Result-cases (clock_only images candidate vault)) [
            | inr (e, g) ↦ rw (g, commit) (refused e)
            | inl (b, g) ↦ elim (Bool-cases b) [
              | inl alone ↦ rw (g, commit) (rw alone (ticked f (g ∙ ap ok alone)))
              | inr more ↦
                  rw (g, commit)
                    (rw more (elim (Result-cases (staged images vault.app candidate)) [
                      | inr (e, h) ↦ rw (h, commit_image) (refused e)
                      | inl (next, h) ↦ rw (h, commit_image) (published next f h)
                    ]))
            ]
          ])
  ]

pub staged_next :
    (images : Images) (app candidate next : Application)
    → staged images app candidate ≡ ok next
    → next ≡ record candidate { generation = app.generation + 1 }
unfolding staged next_generation
staged_next images app candidate next h = elim (Bool-cases (eqb app.generation u64_max)) [
  | inl full ↦ absurd (ground arith)
  | inr room ↦
      elim (Result-cases (images.validate (record candidate { generation = app.generation + 1 }))) [
        | inr (e, f) ↦ absurd (ground arith)
        | inl (u, f) ↦ ground arith
      ]
]

clock_only_same :
    (images : Images) (candidate : Application) (vault : DurableVault)
    → clock_only images candidate vault ≡ ok true
    → images.clock_only_difference vault.app candidate ≡ ok true
unfolding clock_only
clock_only_same images candidate vault k =
    elim (Result-cases (images.clock_only_difference vault.app candidate)) [
      | inr (e, f) ↦ absurd (ground arith)
      | inl (b, f) ↦ ground arith
    ]

module _ {ℓ} {R : Type ℓ} where
  -- What `apply` may have done to the application in memory, given what the operation made.
  unfoldable pub Applied :
      Images → Result R × Application → DurableVault → Result R × DurableVault → Type ℓ
  Applied images made before (answer, after) =
      ((e : Error) × (answer ≡ err e) × (after.app ≡ before.app))
      ⊎ ((answer ≡ made.0)
          × ((after.app ≡ record made.1 { generation = before.app.generation + 1 })
              ⊎ ((after.app ≡ record before.app { last_time = made.1.last_time })
                  × (images.clock_only_difference before.app made.1 ≡ ok true))))

  unready :
      (images : Images) (made : Result R × Application) (vault : DurableVault) (e : Error)
      → Applied images made vault (err e, vault)
  unfolding Applied
  unready images made vault e = inl (e, refl, refl)

  settled_Applied :
      (images : Images) (made : Result R × Application) (vault : DurableVault) (next : Application)
      (p : Publication × Store)
      → next ≡ record made.1 { generation = vault.app.generation + 1 }
      → Applied images made vault (answer_with made.0 (settle next vault p))
  unfolding Applied answer_with settle
  settled_Applied images made vault next (not_published, store) e = inl (_, refl, refl)
  settled_Applied images made vault next (unknown, store) e = inl (_, refl, refl)
  settled_Applied images made vault next (durable, store) e = inr (refl, inl e)

  Committed-Applied :
      (images : Images) (weather : Weather) (made : Result R × Application) (vault : DurableVault)
      (c : Result (Unit {0}) × DurableVault)
      → Committed images weather made.1 vault c
      → Applied images made vault (answer_with made.0 c)
  unfolding Applied answer_with
  Committed-Applied images weather made vault c (refused e) = inl (e, refl, refl)
  Committed-Applied images weather made vault c (ticked r k) =
      inr (refl, inr (refl, clock_only_same images made.1 vault k))
  Committed-Applied images weather made vault c (published next r k) =
      settled_Applied images made vault next (publish images weather next vault.store)
        (staged_next images vault.app made.1 next k)

  -- `apply` returns an error and keeps the application in memory; or it returns what the operation
  -- returned, and the application is the operation's with the next generation, or the snapshots of
  -- the two differ in the clock alone and the old application takes on the operation's high-water
  -- mark.
  pub apply_outcome :
      (images : Images) (weather : Weather) (operation : Exec Application R) (vault : DurableVault)
      → Applied images
          (operation (working_copy images vault.app))
          vault
          (apply images weather operation vault)
  unfolding apply
  apply_outcome images weather operation vault = elim (Result-cases (ready vault)) [
    | inr (e, f) ↦
        rw (f, apply) (unready images (operation (working_copy images vault.app)) vault e)
    | inl (u, f) ↦
        rw (f, apply)
          (Committed-Applied images weather (operation (working_copy images vault.app)) vault _
            (commit_cases images weather (operation (working_copy images vault.app)).1 vault))
  ]
