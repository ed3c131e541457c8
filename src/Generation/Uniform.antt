-- ===== src/Generation/Uniform.antt =====
-- src/agent/mod.rs, `generation_index`: how the bytes are spread over the indices.
use credman.Base.{
  ℕ, zero, suc, ◌+◌, ◌*◌, ◌/◌, ◌%◌, ◌<◌, ◌≤◌, ◌≡◌, Option, none, some, arith, eqb, subst, ◌-◌, ◌∙◌,
  ltb, if◌then◌else◌,
}
use native.Mathlib.Nat.{mul-add-mod_self_right, mod-eq_of_lt}
use credman.Generation.{generation_index}

-- How many bytes below `n` the sampler maps to the index `i`.
abbrev hit : ℕ → Option ℕ → ℕ
hit i none = 0
hit i (some j) = if eqb j i then 1 else 0

unfoldable pub bytes_for : ℕ → ℕ → ℕ → ℕ
bytes_for zero span i = 0
bytes_for (suc n) span i = hit i (generation_index n span) + bytes_for n span i

module _ (span i : ℕ) (low : 0 < span) (high : span ≤ 256) (fits : i < span) where
  index_at :
      (k j : ℕ)
      → j < span
      → k * span + j < 256 / span * span
      → generation_index (k * span + j) span ≡ some j
  unfolding generation_index
  index_at k j small below =
      let e : (k * span + j) % span ≡ j = mul-add-mod_self_right k span j ∙ mod-eq_of_lt small in
      ground (arith, e)

  index_past : (n : ℕ) → 256 / span * span ≤ n → generation_index n span ≡ none
  unfolding generation_index
  index_past n past = ground arith

  -- `j` bytes into the round `k`.
  bytes_for_round :
      (k j : ℕ)
      → j ≤ span
      → k * span + j ≤ 256 / span * span
      → bytes_for (k * span + j) span i ≡ k + (if ltb i j then 1 else 0)
  unfolding bytes_for
  bytes_for_round zero zero h below = let e : 0 * span + 0 ≡ 0 = omega arith in rw e (ground arith)
  bytes_for_round (suc k) zero h below =
      let e : suc k * span + 0 ≡ k * span + span = omega arith in
      rw e (ground (arith, bytes_for_round k span))
  bytes_for_round k (suc j) h below =
      let e : k * span + suc j ≡ suc (k * span + j) = omega arith in
      rw e (ground (arith, index_at k j (omega arith) (omega arith), bytes_for_round k j))

  bytes_for_past : (m : ℕ) → bytes_for (256 / span * span + m) span i ≡ 256 / span
  unfolding bytes_for
  bytes_for_past zero = ground (arith, bytes_for_round (256 / span) 0)
  bytes_for_past (suc m) =
      let e : 256 / span * span + suc m ≡ suc (256 / span * span + m) = omega arith in
      rw e (ground (arith, index_past (256 / span * span + m) (omega arith), bytes_for_past m))

-- Every index below the span of the alphabet is the image of the same number, 256 / span, of the
-- 256 bytes; so a uniform byte that is not discarded gives a uniform index.
pub generation_index_uniform :
    (span i : ℕ) → 0 < span → span ≤ 256 → i < span → bytes_for 256 span i ≡ 256 / span
generation_index_uniform span i low high fits =
    let e : 256 / span * span + (256 - 256 / span * span) ≡ 256 = omega arith in
    subst (λ n. bytes_for n span i ≡ 256 / span) e
      (bytes_for_past span i low high fits (256 - 256 / span * span))
