-- ===== src/Generation/Sampling.antt =====
-- src/agent/mod.rs, `sample_secret`: its length, its characters, and the random bytes it needs.
use Prim.Native.Nat.{min}
use Prim.Native.Char.{Char}
use native.Mathlib.Nat.{mod-lt}
use credman.Base.{
  ℕ, zero, suc, ◌+◌, ◌<◌, ◌≤◌, ◌≡◌, ◌≢◌, refl, subst, false, Option, none, some, List, [], ◌∷◌,
  ◌++◌, arith, eqb, ltb, inl, inr, Option-cases, Bool-cases, length, length-append, Member, here,
  there,
}
use credman.Result.{ok}
use credman.Generation.{Answers, get_elem?, generation_index, push_index, fill_from, sample_from}

abbrev pub All {ℓ κ} : {A : Type ℓ} → (A → Type κ) → List A → Type κ
All P [] = Unit
All P (x ∷ xs) = P x × All P xs

All-append {ℓ κ} :
    {A : Type ℓ} (P : A → Type κ) (xs ys : List A) → All P xs → All P ys → All P (xs ++ ys)
All-append P [] ys h k = k
All-append P (x ∷ xs) ys h k = (h.0, All-append P xs ys h.1 k)

get_elem?-Member {ℓ} :
    {A : Type ℓ} (xs : List A) (i : ℕ) (a : A) → get_elem? xs i ≡ some a → Member a xs
get_elem?-Member [] i a h = absurd (ground arith)
get_elem?-Member (x ∷ xs) zero a h = subst (λ y. Member y (x ∷ xs)) (ground arith) here
get_elem?-Member (x ∷ xs) (suc i) a h = there (get_elem?-Member xs i a h)

get_elem?_total {ℓ} :
    {A : Type ℓ} (xs : List A) (i : ℕ) → i < length xs → (a : A) × (get_elem? xs i ≡ some a)
get_elem?_total [] i h = absurd (omega arith)
get_elem?_total (x ∷ xs) zero h = (x, refl)
get_elem?_total (x ∷ xs) (suc i) h = get_elem?_total xs i (omega arith)

abbrev weight : Option ℕ → ℕ
weight none = 0
weight (some i) = 1

weight_small : (o : Option ℕ) → weight o ≤ 1
weight_small none = omega arith
weight_small (some i) = omega arith

eqb-false : (m n : ℕ) → eqb m n ≡ false → m ≢ n
eqb-false m n h = ground arith

-- How many bytes of a buffer the sampler keeps.
unfoldable pub kept_bytes : ℕ → List ℕ → ℕ
kept_bytes span [] = 0
kept_bytes span (byte ∷ bytes) = weight (generation_index byte span) + kept_bytes span bytes

module _ (alphabet : List Char) where
  abbrev pub Drawn : List Char → Type 0
  Drawn = All (λ c. Member c alphabet)

  push_Drawn :
      (i : Option ℕ) (secret : List Char) → Drawn secret → Drawn (push_index alphabet i secret)
  unfolding push_index
  push_Drawn none secret d = d
  push_Drawn (some i) secret d = elim (Option-cases (get_elem? alphabet i)) [
    | inl past ↦ subst Drawn (ground arith) d
    | inr (c, found) ↦
        subst Drawn (ground arith)
          (All-append _ secret (c ∷ []) d (get_elem?-Member alphabet i c found, tt))
  ]

  fill_Drawn :
      (n : ℕ) (secret : List Char) (bytes : List ℕ)
      → Drawn secret
      → Drawn (fill_from alphabet n secret bytes)
  unfolding fill_from
  fill_Drawn n secret [] d = d
  fill_Drawn n secret (byte ∷ bytes) d = elim (Bool-cases (eqb (length secret) n)) [
    | inl full ↦ rw full d
    | inr more ↦ rw more (
        fill_Drawn n (push_index alphabet (generation_index byte (length alphabet)) secret) bytes
          (push_Drawn (generation_index byte (length alphabet)) secret d))
  ]

  index_small :
      (byte i : ℕ) → generation_index byte (length alphabet) ≡ some i → i < length alphabet
  unfolding generation_index
  index_small byte i h = ground (arith, mod-lt byte {m = length alphabet})

  push_length :
      (byte : ℕ) (secret : List Char)
      → length (push_index alphabet (generation_index byte (length alphabet)) secret)
        ≡ length secret + weight (generation_index byte (length alphabet))
  unfolding push_index
  push_length byte secret = elim (Option-cases (generation_index byte (length alphabet))) [
    | inl dropped ↦ rw (dropped, push_index) (omega arith)
    | inr (i, kept) ↦
        let (c, found) = get_elem?_total alphabet i (index_small byte i kept) in
        rw (kept, push_index) (rw found (omega (arith, length-append secret (c ∷ []))))
  ]

  -- The loop over a buffer adds a character for each kept byte, until the length is reached.
  fill_length :
      (n : ℕ) (secret : List Char) (bytes : List ℕ)
      → length secret ≤ n
      → length (fill_from alphabet n secret bytes)
        ≡ min n (length secret + kept_bytes (length alphabet) bytes)
  unfolding fill_from kept_bytes
  fill_length n secret [] h = omega arith
  fill_length n secret (byte ∷ bytes) h = elim (Bool-cases (eqb (length secret) n)) [
    | inl full ↦ rw full (ground arith)
    | inr more ↦ rw more (
        omega (
          arith,
          eqb-false (length secret) n more,
          weight_small (generation_index byte (length alphabet)),
          push_length byte secret,
          fill_length n (push_index alphabet (generation_index byte (length alphabet)) secret) bytes
              (omega (
                arith,
                eqb-false (length secret) n more,
                weight_small (generation_index byte (length alphabet)),
                push_length byte secret,
              )),
        ))
  ]

  carried : (s t : List Char) → s ≡ t → Drawn s → Drawn t
  carried s t e d = subst Drawn e d

  pub sample_Drawn :
      (n : ℕ) (secret : List Char) (answers : Answers) (drawn : List Char) (rest : Answers)
      → length secret ≤ n
      → Drawn secret
      → sample_from alphabet n secret answers ≡ (ok drawn, rest)
      → (length drawn ≡ n) × Drawn drawn
  unfolding sample_from
  sample_Drawn n secret [] drawn rest h d e = (ground arith, carried secret drawn (ground arith) d)
  sample_Drawn n secret (none ∷ answers) drawn rest h d e =
      (ground arith, carried secret drawn (ground arith) d)
  sample_Drawn n secret (some bytes ∷ answers) drawn rest h d e =
      elim (Bool-cases (ltb (length secret) n)) [
        | inl short ↦
            let more = rw short at e in
            sample_Drawn n (fill_from alphabet n secret bytes) answers drawn rest
              (omega (arith, fill_length n secret bytes h)) (fill_Drawn n secret bytes d) more
        | inr done ↦ (ground arith, carried secret drawn (ground arith) d)
      ]

  -- The bytes that the sampler keeps of the buffers before the first failure.
  unfoldable pub kept : Answers → ℕ
  kept [] = 0
  kept (none ∷ answers) = 0
  kept (some bytes ∷ answers) = kept_bytes (length alphabet) bytes + kept answers

  pub sample_delivers :
      (n : ℕ) (secret : List Char) (answers : Answers)
      → length secret ≤ n
      → n ≤ length secret + kept answers
      → (drawn : List Char) × (rest : Answers) × (sample_from alphabet n secret answers
          ≡ (ok drawn, rest))
  unfolding sample_from kept
  sample_delivers n secret [] h enough = (secret, [], ground arith)
  sample_delivers n secret (none ∷ answers) h enough = (secret, none ∷ answers, ground arith)
  sample_delivers n secret (some bytes ∷ answers) h enough =
      elim (Bool-cases (ltb (length secret) n)) [
        | inl short ↦ rw short (
            sample_delivers n (fill_from alphabet n secret bytes) answers
              (omega (arith, fill_length n secret bytes h))
              (omega (arith, fill_length n secret bytes h)))
        | inr done ↦ rw done (secret, some bytes ∷ answers, refl)
      ]
