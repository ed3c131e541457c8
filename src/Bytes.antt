-- ===== src/Bytes.antt =====
-- The byte layouts of src/agent/storage.rs: big-endian words, and a cursor over a slice.
use credman.Base.{
  ℕ, zero, suc, ◌+◌, ◌*◌, ◌/◌, ◌%◌, ◌<◌, ◌≤◌, ◌≡◌, refl, ap, ◌∙◌, List, [], ◌∷◌, ◌++◌, arith,
  length, length-append,
}
use credman.Result.{Result, ok, err, ◌>>=◌, invalid_storage}

-- `to_be_bytes` in a number of bytes.
unfoldable pub to_be_bytes : ℕ → ℕ → List ℕ
to_be_bytes zero n = []
to_be_bytes (suc k) n = to_be_bytes k (n / 256) ++ (n % 256 ∷ [])

unfoldable pub from_be_after : ℕ → List ℕ → ℕ
from_be_after acc [] = acc
from_be_after acc (b ∷ bytes) = from_be_after (acc * 256 + b) bytes

-- `from_be_bytes`.
abbrev pub from_be_bytes : List ℕ → ℕ
from_be_bytes bytes = from_be_after 0 bytes

-- `array`: the next bytes of the cursor, and the rest.
unfoldable pub array : ℕ → List ℕ → Result (List ℕ × List ℕ)
array zero bytes = ok ([], bytes)
array (suc n) [] = err invalid_storage
array (suc n) (b ∷ bytes) = do (first, rest) ← array n bytes; ok (b ∷ first, rest)

-- `&bytes[..n]`.
abbrev pub take : ℕ → List ℕ → List ℕ
take zero bytes = []
take (suc n) [] = []
take (suc n) (b ∷ bytes) = b ∷ take n bytes

-- `&bytes[n..]`.
abbrev pub drop : ℕ → List ℕ → List ℕ
drop zero bytes = bytes
drop (suc n) [] = []
drop (suc n) (b ∷ bytes) = drop n bytes

-- A word of so many bytes.
unfoldable pub word : ℕ → List ℕ → Result (ℕ × List ℕ)
unfolding array from_be_after
word k bytes = do (first, rest) ← array k bytes; ok (from_be_bytes first, rest)

-- The words of so many bytes.
abbrev pub words : ℕ → ℕ
words zero = 1
words (suc k) = 256 * words k

from_be_after-append :
    (acc : ℕ) (bytes : List ℕ) (b : ℕ)
    → from_be_after acc (bytes ++ (b ∷ [])) ≡ from_be_after acc bytes * 256 + b
unfolding from_be_after
from_be_after-append acc [] b = refl
from_be_after-append acc (x ∷ bytes) b = from_be_after-append (acc * 256 + x) bytes b

pub length-to_be_bytes : (k n : ℕ) → length (to_be_bytes k n) ≡ k
unfolding to_be_bytes
length-to_be_bytes zero n = refl
length-to_be_bytes (suc k) n =
    omega (
      arith,
      length-append (to_be_bytes k (n / 256)) (n % 256 ∷ []),
      length-to_be_bytes k (n / 256),
    )

pub from_be_bytes-to_be_bytes : (k n : ℕ) → n < words k → from_be_bytes (to_be_bytes k n) ≡ n
unfolding to_be_bytes from_be_after
from_be_bytes-to_be_bytes zero n h = omega arith
from_be_bytes-to_be_bytes (suc k) n h = omega (
  arith,
  from_be_after-append 0 (to_be_bytes k (n / 256)) (n % 256),
  from_be_bytes-to_be_bytes k (n / 256) (omega arith),
)

pub array-append : (first rest : List ℕ) → array (length first) (first ++ rest) ≡ ok (first, rest)
unfolding array
array-append [] rest = refl
array-append (b ∷ first) rest = ap (λ r. r >>= λ p. ok (b ∷ p.0, p.1)) (array-append first rest)

pub array_of :
    (n : ℕ) (first rest : List ℕ) → length first ≡ n → array n (first ++ rest) ≡ ok (first, rest)
array_of n first rest h = rw (← h) (array-append first rest)

-- A word is read back.
pub word-to_be_bytes :
    (k n : ℕ) (rest : List ℕ) → n < words k → word k (to_be_bytes k n ++ rest) ≡ ok (n, rest)
unfolding word
word-to_be_bytes k n rest h =
    ap (λ r. r >>= λ p. ok (from_be_bytes p.0, p.1))
      (array_of k (to_be_bytes k n) rest (length-to_be_bytes k n))
    ∙ ap (λ w. ok (w, rest)) (from_be_bytes-to_be_bytes k n h)

pub append_assoc : (xs ys zs : List ℕ) → (xs ++ ys) ++ zs ≡ xs ++ (ys ++ zs)
append_assoc [] ys zs = refl
append_assoc (x ∷ xs) ys zs = ap (λ l. x ∷ l) (append_assoc xs ys zs)

pub take_length : (xs ys : List ℕ) → take (length xs) (xs ++ ys) ≡ xs
take_length [] ys = refl
take_length (x ∷ xs) ys = ap (λ l. x ∷ l) (take_length xs ys)

pub drop_length : (xs ys : List ℕ) → drop (length xs) (xs ++ ys) ≡ ys
drop_length [] ys = refl
drop_length (x ∷ xs) ys = drop_length xs ys

-- A cut after the first part.
pub take-append : (xs ys : List ℕ) (j : ℕ) → take (length xs + j) (xs ++ ys) ≡ xs ++ take j ys
take-append [] ys j = let same : 0 + j ≡ j = omega arith in ap (λ n. take n ys) same
take-append (x ∷ xs) ys j =
    let next : length (x ∷ xs) + j ≡ suc (length xs + j) = omega arith in
    ap (λ n. take n (x ∷ (xs ++ ys))) next ∙ ap (λ l. x ∷ l) (take-append xs ys j)

pub length-take : (n : ℕ) (xs : List ℕ) → n ≤ length xs → length (take n xs) ≡ n
length-take zero xs h = refl
length-take (suc n) [] h = absurd (omega arith)
length-take (suc n) (x ∷ xs) h = omega (arith, length-take n xs (omega arith))
