-- ===== src/Generation/Secrets.antt =====
-- src/agent/mod.rs, `generate_secret` with a policy: what the secret is made of, and when it comes.
use Prim.Native.Char.{Char}
use credman.Base.{
  ℕ, zero, suc, ◌≤◌, ◌≡◌, ap, subst, true, false, ◌||◌, not, some, List, [], arith, inl, inr,
  Bool-cases, length,
}
use credman.Result.{ok, Result-cases}
use credman.Types.{GenerationPolicy, valid_policy}
use credman.Generation.{
  Answers, sample_from, sample_secret, attempts, policy_alphabet, classes_present, generate_secret,
}
use credman.Generation.Sampling.{Drawn, kept, sample_Drawn, sample_delivers}
use credman.Generation.Present.{holds_classes, classes_present_lem}

-- What the policy asks of a secret.
unfoldable pub Meets : GenerationPolicy → List Char → Type 0
Meets policy secret =
    (length secret ≡ policy.length)
    × Drawn (policy_alphabet policy) secret
    × ((policy.require_classes ≡ true) → holds_classes secret policy.symbols ≡ true)

Meets-intro :
    (policy : GenerationPolicy) (secret : List Char)
    → length secret ≡ policy.length
    → Drawn (policy_alphabet policy) secret
    → (not policy.require_classes || classes_present secret policy.symbols) ≡ true
    → Meets policy secret
unfolding Meets
Meets-intro policy secret l d c =
    (l, d, λ r. subst (λ b. b ≡ true) (classes_present_lem secret policy.symbols) (ground arith))

attempts_meet :
    (k : ℕ) (policy : GenerationPolicy) (answers : Answers) (secret : List Char) (rest : Answers)
    → attempts k (policy_alphabet policy) policy answers ≡ (ok secret, rest)
    → Meets policy secret
unfolding attempts sample_secret
attempts_meet zero policy answers secret rest e = absurd (ground arith)
attempts_meet (suc k) policy answers secret rest e =
    let draw = sample_secret (policy_alphabet policy) policy.length answers in
    elim (Result-cases draw.0) [
      | inl (drawn, f) ↦
          let (l, d) =
            sample_Drawn (policy_alphabet policy) policy.length [] answers drawn draw.1
              (ground arith) tt (ap (λ r. (r, draw.1)) f) in
          let e' = rw (f, attempts) at e in
          elim (Bool-cases (not policy.require_classes || classes_present drawn policy.symbols)) [
            | inl good ↦
                let q : drawn ≡ secret = ground arith in
                subst (Meets policy) q (Meets-intro policy drawn l d good)
            | inr poor ↦ attempts_meet k policy draw.1 secret rest (rw poor at e')
          ]
      | inr (fault, f) ↦ let e' = rw (f, attempts) at e in absurd (ground arith)
    ]

-- A secret that the code generates for a policy has the policy's length, consists of characters of
-- the policy's alphabet, and holds every required character class; and the policy is valid.
pub generate_secret-Meets :
    (policy : GenerationPolicy) (answers : Answers) (secret : List Char) (rest : Answers)
    → generate_secret (some policy) answers ≡ (ok secret, rest)
    → (valid_policy policy ≡ true) × Meets policy secret
unfolding generate_secret
generate_secret-Meets policy answers secret rest e = elim (Bool-cases (valid_policy policy)) [
  | inl good ↦ let e' = rw good at e in (good, attempts_meet 128 policy answers secret rest e')
  | inr bad ↦ let e' = rw bad at e in absurd (ground arith)
]

attempt_once :
    (k : ℕ) (policy : GenerationPolicy) (answers : Answers) (secret : List Char) (rest : Answers)
    → policy.require_classes ≡ false
    → sample_from (policy_alphabet policy) policy.length [] answers ≡ (ok secret, rest)
    → attempts (suc k) (policy_alphabet policy) policy answers ≡ (ok secret, rest)
unfolding attempts sample_secret
attempt_once k policy answers secret rest r e =
    rw (e, attempts) (rw r (ap (λ p. (ok secret, p.1)) e))

-- With a valid policy that requires no classes, a random source whose buffers before its first
-- failure hold as many usable bytes as the policy's length gives a secret that meets the policy.
pub generate_secret_delivers :
    (policy : GenerationPolicy) (answers : Answers)
    → valid_policy policy ≡ true
    → policy.require_classes ≡ false
    → policy.length ≤ kept (policy_alphabet policy) answers
    → (secret : List Char) × (rest : Answers) × (generate_secret (some policy) answers
        ≡ (ok secret, rest))
      × Meets policy secret
unfolding generate_secret attempts sample_secret
generate_secret_delivers policy answers v r enough =
    let (secret, rest, e) =
      sample_delivers (policy_alphabet policy) policy.length [] answers (ground arith)
        (omega arith) in
    let delivered : generate_secret (some policy) answers ≡ (ok secret, rest) =
      rw v (attempt_once 127 policy answers secret rest r e) in
    (secret, rest, delivered, (generate_secret-Meets policy answers secret rest delivered).1)
