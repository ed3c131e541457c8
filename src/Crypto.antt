-- ===== src/Crypto.antt =====
-- src/crypto.rs: the parameters of the key derivation, and the interface to the third-party ciphers.
use credman.Base.{
  ℕ, ◌*◌, ◌<◌, ◌≡◌, Bool, ◌&&◌, ◌||◌, not, Option, some, List, arith, ltb, leb, length, ◌+◌,
  if◌then◌else◌,
}
use credman.Result.{Result, ok, reject, ◌>>◌, invalid_storage}

-- `KdfParams`.
pub record KdfParams : Type 0 where
  pub m_kib : ℕ
  pub t_cost : ℕ
  pub p_cost : ℕ

-- `KdfParams::current`.
abbrev pub current : KdfParams
current = record { m_kib = 65536; t_cost = 3; p_cost = 1 }

abbrev pub u32_max : ℕ
u32_max = 4294967295

abbrev pub saturating_mul : ℕ → ℕ → ℕ
saturating_mul a b = if ltb u32_max (a * b) then u32_max else a * b

-- `KdfParams::validated`, whose error every caller replaces. `accepts` is `argon2::Params::new`.
unfoldable pub validated : (ℕ → ℕ → ℕ → Bool) → ℕ → ℕ → ℕ → Result KdfParams
validated accepts m_kib t_cost p_cost =
    reject
      (not (leb 19456 m_kib && leb m_kib 1048576)
        || not (leb 1 t_cost && leb t_cost 100)
        || not (leb 1 p_cost && leb p_cost 16)
        || ltb m_kib (saturating_mul p_cost 8))
      invalid_storage
    >> reject (not (accepts m_kib t_cost p_cost)) invalid_storage
    >> ok (record { m_kib = m_kib; t_cost = t_cost; p_cost = p_cost })

-- `encrypt` and `decrypt`: the key, the nonce, the text and the associated data.
pub record Cipher : Type 0 where
  pub encrypt : List ℕ → List ℕ → List ℕ → List ℕ → Option (List ℕ)
  pub decrypt : List ℕ → List ℕ → List ℕ → List ℕ → Option (List ℕ)

-- A ciphertext is 16 bytes longer than its text, which decryption gives back.
pub record Decrypts (cipher : Cipher) : Type 0 where
  pub longer :
      (key nonce plain aad text : List ℕ)
      → cipher.encrypt key nonce plain aad ≡ some text
      → length text ≡ length plain + 16
  pub back :
      (key nonce plain aad text : List ℕ)
      → cipher.encrypt key nonce plain aad ≡ some text
      → cipher.decrypt key nonce text aad ≡ some plain

-- Accepted parameters are words.
pub validated_small :
    (accepts : ℕ → ℕ → ℕ → Bool) (m t p : ℕ) (kdf : KdfParams)
    → validated accepts m t p ≡ ok kdf
    → (m < 4294967296) × (t < 4294967296) × (p < 4294967296)
unfolding validated
validated_small accepts m t p kdf h = (ground arith, ground arith, ground arith)

pub validated_same :
    (accepts : ℕ → ℕ → ℕ → Bool) (m t p : ℕ) (kdf : KdfParams)
    → validated accepts m t p ≡ ok kdf
    → validated accepts m t p ≡ ok (record { m_kib = m; t_cost = t; p_cost = p })
unfolding validated
validated_same accepts m t p kdf h = ground arith
