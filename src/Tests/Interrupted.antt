-- ===== src/Tests/Interrupted.antt =====
-- src/agent/storage/recovery_tests.rs: a vault whose clock is frozen is reconciled, and once the recovery
-- stops when its plan is written.
use credman.Base.{◌≡◌, refl, inl, true, none, some, zero, suc, [], ◌∷◌}
use credman.Base.Dict.{values}
use credman.Base.Int.{pos}
use credman.Result.{ok, err, recovery_required}
use credman.Types.{Application, Digest}
use credman.Snapshot.Difference.{encode_inj}
use credman.Storage.{Image, intent, Directory}
use credman.Storage.Publish.{rename_to}
use credman.Storage.Vault.{next_generation}
use credman.Storage.Reopen.{admin_scope}
use credman.Storage.Sealed.{seal}
use credman.Storage.Recovery.{revoke_all, finish_delivery, finish_deliveries, sanitize}
use credman.Storage.Recovery.Pending.{Unseal, begin}
use credman.Storage.Recovery.Run.{
  write_pair, settle_visible, install, plan_recovery, recover_at, recovered, carry_through,
  recover_from, RecoveryWeather,
}
use credman.Storage.Recovery.Planned.{Distinct}
use credman.Storage.Recovery.Settled.{Held}
use credman.Storage.Recovery.Outcome.{Reconciled, recover_at-Reconciled}
use credman.Storage.Recovery.Again.{calm, settled_on, Interrupted, recover_at_again}
use credman.Tests.Fixture.{runs, codec}
use credman.Tests.Disk.{manager, sealing}
use credman.Tests.Snapshot.{checks, json, json-ReadsBack, clock_alone, clock_app}
use credman.Tests.Sealed.{owner_images}
use credman.Tests.Recovery.{forms}

abbrev frozen_app : Application
frozen_app = record clock_app { clock_frozen = true }

abbrev thawed_app : Application
thawed_app = record clock_app { generation = 8; last_time = some (pos 50) }

-- The image begins with its nonce, and the frozen vault's is 0.
abbrev opens : Unseal
opens (zero ∷ _) = ok (frozen_app, sealing)
opens (suc _ ∷ _) = ok (thawed_app, sealing)
opens [] = err recovery_required

abbrev thawed_image : Image
thawed_image = 2 ∷ 8 ∷ 0 ∷ 50 ∷ []

abbrev frozen_directory : Directory
frozen_directory = record { visible = some (0 ∷ []); pending = none; recovery = none }

abbrev hash : Image → Digest
hash image = image

abbrev weather : RecoveryWeather
weather = calm (pos 50) (2 ∷ [])

thaws : recover_at owner_images opens hash forms weather manager frozen_directory ≡ (
  ok (recovered (thawed_app, thawed_image) sealing (settled_on thawed_image)),
  settled_on thawed_image,
)
unfolding runs checks clock_alone seal sanitize revoke_all finish_deliveries finish_delivery
    next_generation recover_at settle_visible recover_from carry_through plan_recovery begin
    write_pair install rename_to admin_scope values
thaws = refl

owner_images-Distinct : Distinct owner_images
owner_images-Distinct a b bytes left right =
    encode_inj json codec a b bytes json-ReadsBack left right

recover_at-Reconciled_example :
    Reconciled owner_images opens manager
      (Held frozen_directory)
      (recovered (thawed_app, thawed_image) sealing (settled_on thawed_image))
      (settled_on thawed_image)
recover_at-Reconciled_example =
    recover_at-Reconciled owner_images opens hash forms weather manager frozen_directory
      (settled_on thawed_image)
      (recovered (thawed_app, thawed_image) sealing (settled_on thawed_image)) owner_images-Distinct
      thaws

-- The plan is there, and the old image is still visible.
abbrev stopped_directory : Directory
stopped_directory = record frozen_directory {
  recovery = some (intent (some (0 ∷ [])) thawed_image);
}

stops :
    recover_at owner_images opens hash forms
      (record weather { write_fails = true })
      manager
      frozen_directory
    ≡ (err recovery_required, stopped_directory)
unfolding runs checks clock_alone seal sanitize revoke_all finish_deliveries finish_delivery
    next_generation recover_at settle_visible recover_from carry_through plan_recovery begin
    write_pair install rename_to admin_scope values
stops = refl

stopped-Interrupted :
    Interrupted owner_images opens hash forms manager
      (0 ∷ [])
      (pos 50)
      (2 ∷ [])
      frozen_directory
      frozen_app
      thawed_app
      sealing
      thawed_image
      stopped_directory
unfolding runs checks clock_alone seal sanitize revoke_all finish_deliveries finish_delivery
    next_generation begin admin_scope values
stopped-Interrupted = record {
  opened = refl;
  scoped = refl;
  begun = refl;
  encoded = (8 ∷ 0 ∷ 50 ∷ [], refl);
  reads_back = (refl, refl);
  plan = refl;
  gate = inl refl;
  on_disk = inl refl;
}

recover_at_again_example :
    recover_at owner_images opens hash forms (calm (pos 70) (5 ∷ [])) manager stopped_directory ≡ (
      ok (recovered (thawed_app, thawed_image) sealing (settled_on thawed_image)),
      settled_on thawed_image,
    )
recover_at_again_example =
    recover_at_again owner_images opens hash forms manager (0 ∷ []) (pos 50) (2 ∷ [])
      frozen_directory frozen_app thawed_app sealing thawed_image stopped_directory
      stopped-Interrupted (pos 70) (5 ∷ [])
