-- ===== src/Tests/Core.antt =====
-- Runs of the policy core.
use credman.Base.{◌≡◌, refl, none, some, [], ◌∷◌}
use credman.Base.Int.{pos}
use credman.Result.{ok, err, denied, conflict}
use credman.Types.{Permission, password, share, report_outcome, verified_login}
use credman.Application.{mutate, select}
use credman.Tests.Fixture.{runs, agent, codec, approved, stored, shared, login_values, grant_b}

create_answer :
    (mutate codec 10 [] (agent "a") 1 100 login_values (pos 2) approved).0
    ≡ ok (record { record_id = 10; revision = 1; grant = none })
unfolding runs
create_answer = refl

share_answer :
    (mutate codec 20 [] (agent "a") 1 101 (share 10 1 grant_b) (pos 3) stored).0
    ≡ ok (record { record_id = 10; revision = 2; grant = some 20 })
unfolding runs
share_answer = refl

-- The grant lets `b` use the secret at the shared destination only.
use_by_b :
    select shared (agent "b") 2 10 (password ∷ []) Permission.secret_use (some "mail") (pos 4)
    ≡ ok ((password, "secret") ∷ [])
unfolding runs
use_by_b = refl

read_by_b :
    select shared (agent "b") 2 10 (password ∷ []) Permission.secret_read none (pos 4) ≡ err denied
unfolding runs
read_by_b = refl

stale_share :
    (mutate codec 21 [] (agent "a") 1 102 (share 10 1 grant_b) (pos 3) shared).0 ≡ err conflict
unfolding runs
stale_share = refl

self_verified :
    (mutate codec 21 [] (agent "a") 1 102 (report_outcome 10 2 verified_login) (pos 3) shared).0
    ≡ err denied
unfolding runs
self_verified = refl
