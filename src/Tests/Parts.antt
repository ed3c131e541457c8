-- ===== src/Tests/Parts.antt =====
-- The generation of secrets, the sessions and the durable owner at concrete inputs.
use Prim.Native.Char.{Char, code}
use credman.Base.{
  ◌/◌, ◌≡◌, ◌⊎◌, refl, true, false, ◌&&◌, some, List, [], ◌∷◌, String, arith, nat_eq, contains, map,
}
use credman.Base.Int.{pos, ltb_ℤ, pos_part, neg_part}
use credman.Base.Dict.{lookup, insert}
use credman.Result.{ok, err, denied}
use credman.Types.{Uuid, Digest, GenerationPolicy, valid_policy, from_authenticated_session}
use credman.Generation.{
  Answers, chars, generate_secret, generation_index, push_index, fill_from, sample_from,
  sample_secret, attempts,
}
use credman.Generation.Uniform.{bytes_for, generation_index_uniform}
use credman.Generation.Sampling.{kept, kept_bytes}
use credman.Generation.Secrets.{Meets, generate_secret-Meets, generate_secret_delivers}
use credman.Bridge.{Session, Sessions, new_sessions, issue, permits, live, revoke_session}
use credman.Bridge.Attach.{attach, difference, find_session}
use credman.Bridge.Outcome.{
  Attached, Waits, Nobody, well_formed_token, attach_outcome, Attached-permits, attach_once,
  attached_to,
}
use credman.Bridge.Reach.{issues, WellFormed}
use credman.Bridge.Bounds.{done, step, sessions_WellFormed, revoked_session_dead}

generation_index_uniform_example : bytes_for 256 10 3 ≡ 256 / 10
generation_index_uniform_example =
    generation_index_uniform 10 3 (omega arith) (omega arith) (omega arith)

abbrev policy : GenerationPolicy
policy = record { length = 16; symbols = false; require_classes = false }

abbrev answers : Answers
answers =
    some (0 ∷ 27 ∷ 54 ∷ 255 ∷ 5 ∷ 6 ∷ 7 ∷ 8 ∷ [])
    ∷ some (9 ∷ 10 ∷ 11 ∷ 12 ∷ 13 ∷ 14 ∷ 15 ∷ 16 ∷ [])
    ∷ []

generate_secret-Meets_example :
    (valid_policy policy ≡ true) × Meets policy (chars "Ab2_FGHIJKLMNOPQ")
unfolding generate_secret attempts sample_secret sample_from fill_from push_index generation_index
    valid_policy
generate_secret-Meets_example =
    generate_secret-Meets policy answers (chars "Ab2_FGHIJKLMNOPQ") [] refl

generate_secret_delivers_example :
    (secret : List Char) × (rest : Answers) × (generate_secret (some policy) answers
      ≡ (ok secret, rest))
    × Meets policy secret
unfolding valid_policy kept kept_bytes generation_index
generate_secret_delivers_example = generate_secret_delivers policy answers refl refl (omega arith)

abbrev one_digest : Digest
one_digest = 1 ∷ 2 ∷ []

abbrev other_digest : Digest
other_digest = 1 ∷ 3 ∷ []

abbrev sha256 : List Char → Digest
sha256 cs = map code cs

abbrev token : String
token = "0123456789abcdef0123456789abcdef0123456789abcdef0123456789abcdef"

abbrev pending : Session
pending = record {
  digest = some (sha256 (chars token));
  principal = "agent";
  tasks = 1 ∷ [];
  expires_at = pos 200;
}

abbrev sessions : Sessions
sessions = record {
  entries = (5, pending) ∷ [];
  owner = "owner";
  workspace = "work";
  admin = "human";
  socket = some "/private/bridge.sock";
  deadline = pos 400;
}

pending_Attached : Attached sha256 token (pos 100) sessions 5 pending
unfolding attach difference find_session attached_to insert from_authenticated_session pos_part
    neg_part
pending_Attached = refl

attach_outcome_example :
    ((attach sha256 token (pos 100) sessions ≡ (err denied, sessions))
      × (well_formed_token token ≡ true → Nobody sha256 token (pos 100) sessions))
    ⊎ ((well_formed_token token ≡ true)
        × ((id : Uuid) × (e : Session) × Waits sha256 token (pos 100) sessions id e
            × Attached sha256 token (pos 100) sessions id e))
unfolding lookup
attach_outcome_example = attach_outcome sha256 token (pos 100) sessions (refl, tt)

Attached-permits_example :
    permits (attach sha256 token (pos 100) sessions).1 5 1 (pos 150)
    ≡ (ltb_ℤ (pos 150) pending.expires_at && contains pending.tasks 1)
Attached-permits_example =
    Attached-permits sha256 token (pos 100) sessions 5 pending pending_Attached 1 (pos 150)

alone : (j : Uuid) (f : Session) → Waits sha256 token (pos 100) sessions j f → j ≡ 5
unfolding lookup
alone j f w = ground arith

attach_once_example :
    attach sha256 token (pos 120) (attach sha256 token (pos 100) sessions).1
    ≡ (err denied, (attach sha256 token (pos 100) sessions).1)
unfolding lookup pos_part neg_part
attach_once_example =
    attach_once sha256 token (pos 100) sessions 5 pending (refl, tt) alone pending_Attached
      (pos 120) (omega arith)

abbrev first_issue : Sessions
first_issue =
    (issue sha256 (some (1 ∷ 2 ∷ [])) 5 (λ tasks principal. ok tt) "agent" (1 ∷ []) (pos 200)
      (pos 100) (new_sessions "owner" "work" "human" (some "/private/bridge.sock") (pos 400))).1

sessions_WellFormed_example : WellFormed first_issue
sessions_WellFormed_example =
    sessions_WellFormed sha256 "owner" "work" "human" (some "/private/bridge.sock") (pos 400)
      first_issue
      (step done
        (issues (some (1 ∷ 2 ∷ [])) 5 (λ tasks principal. ok tt) "agent" (1 ∷ []) (pos 200)
          (pos 100))
        (λ id e. tt))

first_WellFormed : WellFormed first_issue
first_WellFormed =
    sessions_WellFormed sha256 "owner" "work" "human" (some "/private/bridge.sock") (pos 400)
      first_issue
      (step done
        (issues (some (1 ∷ 2 ∷ [])) 5 (λ tasks principal. ok tt) "agent" (1 ∷ []) (pos 200)
          (pos 100))
        (λ id e. tt))

revoked_session_dead_example :
    (live (revoke_session 5 first_issue) 5 (pos 150) ≡ false)
    × (permits (revoke_session 5 first_issue) 5 1 (pos 150) ≡ false)
revoked_session_dead_example =
    revoked_session_dead sha256 first_issue 5 (revoke_session 5 first_issue) first_WellFormed done 1
      (pos 150)
