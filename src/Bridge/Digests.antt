-- ===== src/Bridge/Digests.antt =====
-- src/agent_bridge.rs, the comparison of digests in `attach`.
use Prim.Native.Nat.{bit_or, bit_xor, digits, bitwise, bit_or-bitwise, bit_xor-bitwise, max, differ}
use credman.Base.{
  ℕ, zero, suc, ◌+◌, ◌*◌, ◌/◌, ◌%◌, ◌≤◌, ◌≡◌, ◌↔◌, refl, true, [], ◌∷◌, arith, length,
}
use credman.Types.{Digest}
use credman.Bridge.Attach.{difference, same_digest}

-- The clauses on binary digits need no more fuel than the first number.
module _ (f : ℕ → ℕ → ℕ) where
  abbrev spread : ℕ → ℕ → ℕ → ℕ
  spread = digits (λ b. b) f

  spread_fuel : (n m a b : ℕ) → a ≤ n → a ≤ m → spread n a b ≡ spread m a b
  spread_fuel zero zero a b p q = refl
  spread_fuel zero (suc m) zero b p q = refl
  spread_fuel zero (suc m) (suc a) b p q = absurd (omega arith)
  spread_fuel (suc n) zero zero b p q = refl
  spread_fuel (suc n) zero (suc a) b p q = absurd (omega arith)
  spread_fuel (suc n) (suc m) zero b p q = refl
  spread_fuel (suc n) (suc m) (suc a) b p q =
      rw (spread_fuel n m (suc a / 2) (b / 2) (omega arith) (omega arith))

  spread_step :
      (a b : ℕ)
      → bitwise (λ b. b) f (suc a) b
        ≡ bitwise (λ b. b) f (suc a / 2) (b / 2) * 2 + f (suc a % 2) (b % 2)
  spread_step a b =
      omega (arith, spread_fuel a (suc a / 2) (suc a / 2) (b / 2) (omega arith) (omega arith))

differ_zero : (x y : ℕ) → differ x y ≡ 0 → x ≡ y
differ_zero zero y h = omega arith
differ_zero (suc x) zero h = absurd (omega arith)
differ_zero (suc x) (suc y) h = omega (arith, differ_zero x y h)

xor_zero : (n a b : ℕ) → a ≤ n → bit_xor a b ≡ 0 → a ≡ b
xor_zero n zero b p h = omega (arith, bit_xor-bitwise 0 b)
xor_zero zero (suc a) b p h = absurd (omega arith)
xor_zero (suc n) (suc a) b p h =
    let e : bit_xor (suc a / 2) (b / 2) * 2 + differ (suc a % 2) (b % 2) ≡ 0 = omega (
      arith,
      bit_xor-bitwise (suc a) b,
      bit_xor-bitwise (suc a / 2) (b / 2),
      spread_step differ a b,
    ) in
    omega (
      arith,
      xor_zero n (suc a / 2) (b / 2) (omega arith) (omega arith),
      differ_zero (suc a % 2) (b % 2) (omega arith),
    )

differ_same : (x : ℕ) → differ x x ≡ 0
differ_same zero = refl
differ_same (suc x) = differ_same x

xor_same : (n a : ℕ) → a ≤ n → bit_xor a a ≡ 0
xor_same n zero p = refl
xor_same zero (suc a) p = absurd (omega arith)
xor_same (suc n) (suc a) p = omega (
  arith,
  bit_xor-bitwise (suc a) (suc a),
  bit_xor-bitwise (suc a / 2) (suc a / 2),
  spread_step differ a (suc a),
  differ_same (suc a % 2),
  xor_same n (suc a / 2) (omega arith),
)

or_zero : (n a b : ℕ) → a ≤ n → bit_or a b ≡ 0 → (a ≡ 0) × (b ≡ 0)
or_zero n zero b p h = (refl, omega (arith, bit_or-bitwise 0 b))
or_zero zero (suc a) b p h = absurd (omega arith)
or_zero (suc n) (suc a) b p h =
    let e : bit_or (suc a / 2) (b / 2) * 2 + max (suc a % 2) (b % 2) ≡ 0 =
      omega (
        arith,
        bit_or-bitwise (suc a) b,
        bit_or-bitwise (suc a / 2) (b / 2),
        spread_step max a b,
      ) in
    let (l, r) = or_zero n (suc a / 2) (b / 2) (omega arith) (omega arith) in absurd (omega arith)

difference_zero :
    (xs bs : Digest) (seen : ℕ)
    → length xs ≡ length bs
    → difference xs bs seen ≡ 0
    → (seen ≡ 0) × (xs ≡ bs)
unfolding difference
difference_zero [] [] seen l h = (h, refl)
difference_zero [] (b ∷ bs) seen l h = absurd (omega arith)
difference_zero (a ∷ xs) [] seen l h = absurd (omega arith)
difference_zero (a ∷ xs) (b ∷ bs) seen l h =
    let (s, t) = difference_zero xs bs (bit_or seen (bit_xor a b)) (omega arith) h in
    let (u, v) = or_zero seen seen (bit_xor a b) (omega arith) s in
    let w = xor_zero a a b (omega arith) v in (u, cc)

difference_same : (xs : Digest) → difference xs xs 0 ≡ 0
unfolding difference
difference_same [] = refl
difference_same (a ∷ xs) = rw (xor_same a a (omega arith)) (difference_same xs)

-- The comparison of two digests of one length answers true exactly when they are equal, though it
-- never stops at the first difference.
pub same_digest_iff :
    (expected digest : Digest)
    → length expected ≡ length digest
    → (same_digest expected digest ≡ true) ↔ (expected ≡ digest)
same_digest_iff expected digest l = (
  λ h. (difference_zero expected digest 0 l (ground arith)).1,
  λ e. rw (← e) (ground (arith, difference_same expected)),
)
