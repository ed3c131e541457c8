-- ===== src/Storage/Gate.antt =====
-- src/agent/storage.rs and src/agent/storage/recovery.rs: the bytes of a gate, which `Intent` stands for.
use credman.Base.{
  ℕ, ◌+◌, ◌*◌, ◌<◌, ◌≤◌, ◌≡◌, ◌≢◌, ◌-◌, ap, sym, ◌∙◌, false, ◌||◌, List, [], ◌∷◌, ◌++◌, arith, ltb,
  eqb, ◌!=◌, nat_eq, list_eq, length, length-append, is_empty, Bool-cases, inl, inr,
}
use credman.Result.{Result, ok, err, ◌>>◌, reject, recovery_required, on_done}
use credman.Bytes.{
  to_be_bytes, from_be_after, from_be_bytes, take, drop, take_length, drop_length, take-append,
  length-take, length-to_be_bytes, from_be_bytes-to_be_bytes,
}
use credman.Storage.{Image}
use credman.Storage.Header.{max_image}

-- `INTENT_MAGIC`.
abbrev pub intent_magic : List ℕ
intent_magic = 67 ∷ 77 ∷ 80 ∷ 69 ∷ 78 ∷ 68 ∷ 48 ∷ 50 ∷ []

-- The magic and the two lengths.
unfoldable pub intent_header : ℕ → ℕ → List ℕ
unfolding to_be_bytes
intent_header old_len new_len = intent_magic ++ (to_be_bytes 8 old_len ++ to_be_bytes 8 new_len)

-- What is written to a gate.
unfoldable pub intent_bytes : Image → Image → List ℕ
unfolding intent_header
intent_bytes old next = intent_header (length old) (length next) ++ (old ++ next)

-- The end of `read_gate`, after the two lengths are read.
unfoldable pub split_intent : ℕ → ℕ → List ℕ → Result (Image × Image)
split_intent old_len new_len bytes =
    reject
      (ltb max_image old_len
        || ltb max_image new_len
        || eqb new_len 0
        || old_len + new_len + 24 != length bytes)
      recovery_required
    >> ok (take old_len (drop 24 bytes), drop old_len (drop 24 bytes))

-- `read_gate` on the bytes of the file. A file beyond the limit is refused by its length.
unfoldable pub read_intent : List ℕ → Result (Image × Image)
unfolding from_be_after split_intent
read_intent bytes = do
  reject
      (ltb (length bytes) 24
        || ltb (max_image * 2 + 24) (length bytes)
        || take 8 bytes != intent_magic)
      recovery_required
  let old_len = from_be_bytes (take 8 (drop 8 bytes))
  let new_len = from_be_bytes (take 8 (drop 16 bytes))
  split_intent old_len new_len bytes

length-intent_header : (a b : ℕ) → length (intent_header a b) ≡ 24
unfolding intent_header
length-intent_header a b = omega (
  arith,
  length-append (to_be_bytes 8 a) (to_be_bytes 8 b),
  length-to_be_bytes 8 a,
  length-to_be_bytes 8 b,
)

header_read :
    (a b : ℕ) (body : List ℕ)
    → a < 18446744073709551616
    → b < 18446744073709551616
    → length body ≤ 67108864
    → read_intent (intent_header a b ++ body) ≡ split_intent a b (intent_header a b ++ body)
unfolding read_intent intent_header
header_read a b body small_a small_b fits =
    let bytes = intent_header a b ++ body in
    let within : reject
          (ltb (length bytes) 24
            || ltb (max_image * 2 + 24) (length bytes)
            || take 8 bytes != intent_magic)
          recovery_required
        ≡ ok tt =
      ground arith in
    on_done _ within (
      ap (λ n. split_intent n (from_be_bytes (to_be_bytes 8 b)) bytes)
        (from_be_bytes-to_be_bytes 8 a small_a)
      ∙ ap (λ n. split_intent a n bytes) (from_be_bytes-to_be_bytes 8 b small_b))

some_length : (bytes : List ℕ) → is_empty bytes ≡ false → eqb (length bytes) 0 ≡ false
some_length [] h = absurd (ground arith)
some_length (x ∷ bytes) h = ground arith

drop_header : (a b : ℕ) (body : List ℕ) → drop 24 (intent_header a b ++ body) ≡ body
drop_header a b body =
    ap (λ n. drop n (intent_header a b ++ body)) (sym (length-intent_header a b))
    ∙ drop_length (intent_header a b) body

split_whole :
    (old next : Image)
    → length old ≤ max_image
    → length next ≤ max_image
    → is_empty next ≡ false
    → split_intent (length old) (length next) (intent_bytes old next) ≡ ok (old, next)
unfolding split_intent intent_bytes
split_whole old next small_old small_next there =
    let h = intent_header (length old) (length next) in
    let size : length (h ++ (old ++ next)) ≡ length old + length next + 24 = omega (
      arith,
      length-append h (old ++ next),
      length-append old next,
      length-intent_header (length old) (length next),
    ) in
    let body = drop_header (length old) (length next) (old ++ next) in
    let nonempty : eqb (length next) 0 ≡ false = some_length next there in
    let passes : reject
          (ltb max_image (length old)
            || ltb max_image (length next)
            || eqb (length next) 0
            || length old + length next + 24 != length (h ++ (old ++ next)))
          recovery_required
        ≡ ok tt =
      ground
        (arith, nat_eq.beq_iff (length old + length next + 24) (length (h ++ (old ++ next)))) in
    on_done _ passes (
      ap (λ l. ok (take (length old) l, drop (length old) l)) body
      ∙ (λ i. ok (take_length old next i, drop_length old next i)))

split_other :
    (a b : ℕ) (bytes : List ℕ)
    → a + b + 24 ≢ length bytes
    → split_intent a b bytes ≡ err recovery_required
unfolding split_intent
split_other a b bytes other = ground (arith, nat_eq.beq_iff (a + b + 24) (length bytes))

read_short : (bytes : List ℕ) → length bytes < 24 → read_intent bytes ≡ err recovery_required
unfolding read_intent
read_short bytes short =
    let refused : reject
          (ltb (length bytes) 24
            || ltb (max_image * 2 + 24) (length bytes)
            || take 8 bytes != intent_magic)
          recovery_required
        ≡ err recovery_required =
      ground arith in
    ap
      (λ r.
        r
        >> split_intent (from_be_bytes (take 8 (drop 8 bytes)))
            (from_be_bytes (take 8 (drop 16 bytes))) bytes)
      refused

header_whole :
    (old next : Image)
    → length old ≤ max_image
    → length next ≤ max_image
    → read_intent (intent_bytes old next)
      ≡ split_intent (length old) (length next) (intent_bytes old next)
unfolding intent_bytes
header_whole old next small_old small_next =
    header_read (length old) (length next) (old ++ next) (omega arith) (omega arith)
      (omega (arith, length-append old next))

read_intent-intent_bytes :
    (old next : Image)
    → length old ≤ max_image
    → length next ≤ max_image
    → is_empty next ≡ false
    → read_intent (intent_bytes old next) ≡ ok (old, next)
read_intent-intent_bytes old next small_old small_next there =
    header_whole old next small_old small_next ∙ split_whole old next small_old small_next there

read_intent_torn :
    (old next : Image) (k : ℕ)
    → length old ≤ max_image
    → length next ≤ max_image
    → k < length (intent_bytes old next)
    → read_intent (take k (intent_bytes old next)) ≡ err recovery_required
unfolding intent_bytes
read_intent_torn old next k small_old small_next cut =
    let h = intent_header (length old) (length next) in
    let body = old ++ next in
    let size : length (h ++ body) ≡ length old + length next + 24 = omega (
      arith,
      length-append h body,
      length-append old next,
      length-intent_header (length old) (length next),
    ) in
    let taken : length (take k (h ++ body)) ≡ k = length-take k (h ++ body) (omega arith) in
    elim (Bool-cases (ltb k 24)) [
      | inl early ↦ read_short (take k (h ++ body)) (ground arith)
      | inr late ↦
          let at : k ≡ length h + (k - 24) =
            ground (arith, length-intent_header (length old) (length next)) in
          let same : take k (h ++ body) ≡ h ++ take (k - 24) body =
            ap (λ n. take n (h ++ body)) at ∙ take-append h body (k - 24) in
          let part : length (h ++ take (k - 24) body) ≡ k = ap length (sym same) ∙ taken in
          let left : length (take (k - 24) body) ≤ 67108864 = omega (
            arith,
            length-append h (take (k - 24) body),
            length-intent_header (length old) (length next),
          ) in
          let refused =
            split_other (length old) (length next) (h ++ take (k - 24) body)
              (λ e. absurd (omega arith)) in
          ap read_intent same
          ∙ header_read (length old) (length next) (take (k - 24) body) (omega arith) (omega arith)
              left
          ∙ refused
    ]

-- The bytes of a gate are read as the two images that were written, if neither is too large and the next
-- one is not empty, and a gate whose writing stopped before its last byte is refused, wherever it
-- stopped.
pub read_intent-take :
    (old next : Image)
    → length old ≤ max_image
    → length next ≤ max_image
    → is_empty next ≡ false
    → (read_intent (intent_bytes old next) ≡ ok (old, next))
      × ((k : ℕ)
          → k < length (intent_bytes old next)
          → read_intent (take k (intent_bytes old next)) ≡ err recovery_required)
read_intent-take old next small_old small_next there = (
  read_intent-intent_bytes old next small_old small_next there,
  λ k cut. read_intent_torn old next k small_old small_next cut,
)
