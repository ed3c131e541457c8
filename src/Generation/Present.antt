-- ===== src/Generation/Present.antt =====
-- src/agent/mod.rs, `classes_present`: its loop, beside the character classes of the secret.
use Prim.Native.Char.{Char}
use credman.Base.{
  ◌≡◌, ◌∙◌, Bool, true, false, ◌&&◌, ◌||◌, not, List, [], ◌∷◌, arith, inl, inr, Bool-cases, any,
}
use credman.Generation.{classes_present, Classes, note_class, note_classes, between, is_symbol}

-- Each required class has a character in the secret.
unfoldable pub holds_classes : List Char → Bool → Bool
holds_classes secret symbols =
    any (between b'A' b'Z') secret
    && any (between b'a' b'z') secret
    && any (between b'0' b'9') secret
    && (not symbols || any is_symbol secret)

note_upper :
    (symbols : Bool) (seen : Classes) (c : Char)
    → (note_class symbols seen c).upper ≡ (seen.upper || between b'A' b'Z' c)
unfolding note_class
note_upper symbols seen c = ground arith

note_lower :
    (symbols : Bool) (seen : Classes) (c : Char)
    → (note_class symbols seen c).lower ≡ (seen.lower || between b'a' b'z' c)
unfolding note_class
note_lower symbols seen c = ground arith

note_digit :
    (symbols : Bool) (seen : Classes) (c : Char)
    → (note_class symbols seen c).digit ≡ (seen.digit || between b'0' b'9' c)
unfolding note_class
note_digit symbols seen c = ground arith

symbol_apart :
    (c : Char)
    → is_symbol c ≡ true
    → (between b'A' b'Z' c ≡ false) × (between b'a' b'z' c ≡ false) × (between b'0' b'9' c ≡ false)
symbol_apart c h = ground arith

note_symbol :
    (symbols : Bool) (seen : Classes) (c : Char)
    → (note_class symbols seen c).symbol ≡ (seen.symbol || (symbols && is_symbol c))
unfolding note_class
note_symbol symbols seen c = elim (Bool-cases (is_symbol c)) [
  | inl is ↦ let (u, l, d) = symbol_apart c is in rw (u, note_class) (rw (l, d, is) (ground arith))
  | inr other ↦ rw other (ground arith)
]

class_step : (a s p q m : Bool) → m ≡ (a || (s && p)) → (m || (s && q)) ≡ (a || (s && (p || q)))
class_step a s p q m h = ground arith

note_seen :
    (symbols : Bool) (seen : Classes) (secret : List Char)
    → let last = note_classes symbols seen secret in
      (last.upper ≡ (seen.upper || any (between b'A' b'Z') secret))
      × (last.lower ≡ (seen.lower || any (between b'a' b'z') secret))
      × (last.digit ≡ (seen.digit || any (between b'0' b'9') secret))
      × (last.symbol ≡ (seen.symbol || (symbols && any is_symbol secret)))
unfolding note_classes
note_seen symbols seen [] = ground arith
note_seen symbols seen (c ∷ cs) =
    let (u, l, d, s) = note_seen symbols (note_class symbols seen c) cs in
    (
      ground (arith, u, note_upper symbols seen c),
      ground (arith, l, note_lower symbols seen c),
      ground (arith, d, note_digit symbols seen c),
      s
          ∙ class_step seen.symbol symbols (is_symbol c) (any is_symbol cs) _
              (note_symbol symbols seen c),
    )

four_flags :
    (s a b c d : Bool) → (a && b && c && (not s || (s && d))) ≡ (a && b && c && (not s || d))
four_flags s a b c d = ground arith

pub classes_present_lem :
    (secret : List Char) (symbols : Bool)
    → classes_present secret symbols ≡ holds_classes secret symbols
unfolding classes_present holds_classes
classes_present_lem secret symbols =
    let (u, l, d, s) =
      note_seen symbols
        (record { upper = false; lower = false; digit = false; symbol = not symbols }) secret in
    rw u (
      rw l (
        rw d (
          rw s (
            four_flags symbols (any (between b'A' b'Z') secret) (any (between b'a' b'z') secret)
              (any (between b'0' b'9') secret) (any is_symbol secret)))))
