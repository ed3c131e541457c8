-- ===== src/Generation.antt =====
-- src/agent/mod.rs: private generation of credential values. The answers of the operating system's
-- random source, `OsRng.try_fill_bytes`, are the list that the functions consume from the front:
-- `some bytes` for a filled buffer, `none` for a failure. The source fails after its last answer.
pub mod Uniform
pub mod Sampling
pub mod Present
pub mod Secrets
use Prim.Native.Nat.{bit_and}
use Prim.Native.Char.{Char, code}
use Prim.Native.String
use credman.Base.{
  ℕ, zero, suc, ◌+◌, ◌*◌, ◌/◌, ◌%◌, String, Bool, true, false, ◌&&◌, ◌||◌, not, Option, none, some,
  List, [], ◌∷◌, ◌++◌, ltb, leb, eqb, ◌==◌, if◌then◌else◌, length, any, map,
}
use credman.Base.Dict.{insert}
use credman.Result.{Result, ok, err, invalid, generation_unavailable}
use credman.Exec.{Exec, ◌>>=◌, ◌>>◌, pure, raise, refuse}
use credman.Types.{
  CredentialKind, login_kind, api_key_kind, username, password, api_key, SecretInput,
  GenerationPolicy, valid_policy, field_eq,
}

-- The characters of a text, and the text of characters.
abbrev pub chars : String → List Char
chars String.[] = []
chars (String.◌∷◌ c s) = c ∷ chars s

abbrev pub text : List Char → String
text [] = String.[]
text (c ∷ cs) = String.◌∷◌ c (text cs)

-- `GENERATION_ALPHABET`.
abbrev pub generation_alphabet : List Char
generation_alphabet = chars "ABCDEFGHIJKLMNOPQRSTUVWXYZabcdefghijklmnopqrstuvwxyz0123456789-_"

-- `GENERATION_SYMBOLS`.
abbrev pub generation_symbols : List Char
generation_symbols = chars "!@#$%^&*+=?"

abbrev pub Answers : Type 0
Answers = List (Option (List ℕ))

-- `generation_index`.
unfoldable pub generation_index : ℕ → ℕ → Option ℕ
generation_index byte span =
    if eqb span 0 || ltb 256 span
    then none
    else (let limit = 256 / span * span in if ltb byte limit then some (byte % span) else none)

-- `alphabet[index]`; the code never indexes past the end.
abbrev pub get_elem? {ℓ} : {A : Type ℓ} → List A → ℕ → Option A
get_elem? [] i = none
get_elem? (x ∷ xs) zero = some x
get_elem? (x ∷ xs) (suc i) = get_elem? xs i

-- What one byte adds to the secret.
unfoldable pub push_index : List Char → Option ℕ → List Char → List Char
push_index alphabet none secret = secret
push_index alphabet (some index) secret = elim (get_elem? alphabet index) [
  | none ↦ secret
  | some c ↦ secret ++ c ∷ []
]

-- The `for` loop of `sample_secret` over one filled buffer.
unfoldable pub fill_from : List Char → ℕ → List Char → List ℕ → List Char
fill_from alphabet n secret [] = secret
fill_from alphabet n secret (byte ∷ bytes) =
    if eqb (length secret) n
    then secret
    else fill_from alphabet n (push_index alphabet (generation_index byte (length alphabet)) secret)
        bytes

-- The `while` loop of `sample_secret`, each round with the next answer of the random source.
unfoldable pub sample_from : List Char → ℕ → List Char → Exec Answers (List Char)
sample_from alphabet n secret [] =
    if ltb (length secret) n then (err generation_unavailable, []) else (ok secret, [])
sample_from alphabet n secret (none ∷ rest) =
    if ltb (length secret) n then (err generation_unavailable, rest) else (ok secret, none ∷ rest)
sample_from alphabet n secret (some bytes ∷ rest) =
    if ltb (length secret) n
    then sample_from alphabet n (fill_from alphabet n secret bytes) rest
    else (ok secret, some bytes ∷ rest)

-- `sample_secret`.
unfoldable pub sample_secret : List Char → ℕ → Exec Answers (List Char)
sample_secret alphabet n = sample_from alphabet n []

-- The flags that the loop of `classes_present` keeps.
pub record Classes : Type 0 where
  pub upper : Bool
  pub lower : Bool
  pub digit : Bool
  pub symbol : Bool

abbrev pub between : ℕ → ℕ → Char → Bool
between low high c = leb low (code c) && leb (code c) high

abbrev pub is_symbol : Char → Bool
is_symbol c = any (λ d. eqb (code d) (code c)) generation_symbols

-- The `match` of `classes_present` on one byte.
unfoldable pub note_class : Bool → Classes → Char → Classes
note_class symbols seen c =
    if between b'A' b'Z' c
    then record seen { upper = true }
    else if between b'a' b'z' c
    then record seen { lower = true }
    else if between b'0' b'9' c
    then record seen { digit = true }
    else if symbols && is_symbol c
    then record seen { symbol = true }
    else seen

unfoldable pub note_classes : Bool → Classes → List Char → Classes
note_classes symbols seen [] = seen
note_classes symbols seen (c ∷ cs) = note_classes symbols (note_class symbols seen c) cs

-- `classes_present`, over the characters of an ASCII secret, which are its bytes.
unfoldable pub classes_present : List Char → Bool → Bool
classes_present secret symbols =
    let seen =
      note_classes symbols
        (record { upper = false; lower = false; digit = false; symbol = not symbols }) secret in
    seen.upper && seen.lower && seen.digit && seen.symbol

-- The `for _ in 0..128` loop of `generate_secret`, by the rounds left.
unfoldable pub attempts : ℕ → List Char → GenerationPolicy → Exec Answers (List Char)
attempts zero alphabet policy answers = (err generation_unavailable, answers)
attempts (suc k) alphabet policy answers =
    let (drawn, rest) = sample_secret alphabet policy.length answers in
    elim drawn [
      | err e ↦ (err e, rest)
      | ok secret ↦ elim (not policy.require_classes || classes_present secret policy.symbols) [
        | true ↦ (ok secret, rest)
        | false ↦ attempts k alphabet policy rest
      ]
    ]

abbrev pub policy_alphabet : GenerationPolicy → List Char
policy_alphabet policy =
    if policy.symbols then generation_alphabet ++ generation_symbols else generation_alphabet

-- The characters of a secret with no policy, from one buffer of 32 bytes.
unfoldable pub masked : List ℕ → List Char
masked [] = []
masked (byte ∷ bytes) = push_index generation_alphabet (some (bit_and byte 63)) [] ++ masked bytes

-- `generate_secret` with no policy.
unfoldable pub plain_secret : Exec Answers (List Char)
plain_secret [] = (err generation_unavailable, [])
plain_secret (none ∷ rest) = (err generation_unavailable, rest)
plain_secret (some bytes ∷ rest) = (ok (masked bytes), rest)

-- `generate_secret`.
unfoldable pub generate_secret : Option GenerationPolicy → Exec Answers (List Char)
generate_secret none = plain_secret
generate_secret (some policy) = do
  refuse (not (valid_policy policy)) invalid
  attempts 128 (policy_alphabet policy) policy

-- The map that `generate_values` builds.
unfoldable pub place_values : CredentialKind → Option String → List Char → Exec Answers SecretInput
unfolding insert
place_values login_kind none secret = raise invalid
place_values login_kind (some name) secret =
    pure (insert password (text secret) (insert username name []))
place_values api_key_kind name secret = pure (insert api_key (text secret) [])

-- `generate_values`.
unfoldable pub generate_values :
    CredentialKind → Option String → Option GenerationPolicy → Exec Answers SecretInput
generate_values kind name policy = do secret ← generate_secret policy; place_values kind name secret
