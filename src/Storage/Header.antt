-- ===== src/Storage/Header.antt =====
-- src/agent/storage.rs: the bytes of an image. The ciphers, the key derivation and Argon2's own test of its
-- parameters are arguments.
use credman.Base.{
  ℕ, ◌-◌, Bool, ◌&&◌, Option, List, [], ◌∷◌, ◌++◌, ltb, leb, ◌==◌, ◌!=◌, nat_eq, list_eq, length,
  if◌then◌else◌,
}
use credman.Result.{Result, ok, ◌>>=◌, ◌>>◌, reject, ok_or, invalid_storage, capacity}
use credman.Bytes.{to_be_bytes, array, word, take}
use credman.Crypto.{KdfParams, validated, Cipher}
use credman.Types.{Application}
use credman.Snapshot.Encoding.{max_plaintext}
use credman.Storage.{Image, Sealing}

-- `MAGIC`.
abbrev pub image_magic : List ℕ
image_magic = 67 ∷ 77 ∷ 65 ∷ 71 ∷ 69 ∷ 78 ∷ 84 ∷ 50 ∷ []

-- `HEADER_V2`, `HEADER_V3`, `MAX_IMAGE`.
abbrev pub header_v2 : ℕ
header_v2 = 2

abbrev pub header_v3 : ℕ
header_v3 = 3

abbrev pub max_image : ℕ
max_image = 33554432

abbrev pub params : Sealing → KdfParams
params sealing = record { m_kib = sealing.m_kib; t_cost = sealing.t_cost; p_cost = sealing.p_cost }

-- The words of the parameters, most significant byte first.
unfoldable pub kdf_bytes : KdfParams → List ℕ
unfolding to_be_bytes
kdf_bytes kdf = to_be_bytes 4 kdf.m_kib ++ (to_be_bytes 4 kdf.t_cost ++ to_be_bytes 4 kdf.p_cost)

-- The part of an image that is bound to its ciphertext.
unfoldable pub header : ℕ → Sealing → List ℕ
unfolding kdf_bytes
header version sealing =
    image_magic ++ (to_be_bytes 4 version ++ (kdf_bytes (params sealing) ++ sealing.salt))

-- What the cursor has passed.
abbrev pub passed_by : List ℕ → List ℕ → ℕ
passed_by bytes rest = length bytes - length rest

-- `seal_version`, with its nonce.
unfoldable pub seal_version : Cipher → List ℕ → Sealing → List ℕ → ℕ → Result Image
unfolding header
seal_version cipher plaintext sealing nonce version = do
  reject (ltb max_plaintext (length plaintext)) capacity
  let bound = header version sealing
  let aad = if leb header_v3 version then bound else []
  ciphertext ← ok_or (cipher.encrypt sealing.key nonce plaintext aad) invalid_storage
  ok (bound ++ (nonce ++ (to_be_bytes 8 (length ciphertext) ++ ciphertext)))

-- `seal_plaintext`.
unfoldable pub seal_plaintext : Cipher → List ℕ → Sealing → List ℕ → Result Image
unfolding seal_version
seal_plaintext cipher plaintext sealing nonce =
    seal_version cipher plaintext sealing nonce header_v3

-- What `unseal` reads before it derives the key.
pub record Envelope : Type 0 where
  pub kdf : KdfParams
  pub salt : List ℕ
  pub nonce : List ℕ
  pub aad : List ℕ
  pub ciphertext : List ℕ

module _ (accepts : ℕ → ℕ → ℕ → Bool) where
  unfoldable pub read_kdf : List ℕ → Result (KdfParams × List ℕ)
  unfolding word validated
  read_kdf bytes = do
    (m_kib, r1) ← word 4 bytes
    (t_cost, r2) ← word 4 r1
    (p_cost, r3) ← word 4 r2
    kdf ← validated accepts m_kib t_cost p_cost
    ok (kdf, r3)

  unfoldable pub read_image : Image → Result Envelope
  unfolding array word read_kdf
  read_image image = do
    reject (ltb max_image (length image)) invalid_storage
    (magic, r1) ← array 8 image
    reject (magic != image_magic) invalid_storage
    (version, r2) ← word 4 r1
    reject (version != header_v2 && version != header_v3) invalid_storage
    (kdf, r3) ← read_kdf r2
    (salt, r4) ← array 16 r3
    let aad = if version == header_v3 then take (passed_by image r4) image else []
    (nonce, r5) ← array 12 r4
    (size, r6) ← word 8 r5
    reject (size != length r6) invalid_storage
    ok (record { kdf = kdf; salt = salt; nonce = nonce; aad = aad; ciphertext = r6 })

  module _ (cipher : Cipher) (derive_key : List ℕ → KdfParams → Option (List ℕ))
      (decode : List ℕ → Result Application) where
    -- `unseal`, for the words that `derive_key` is of.
    unfoldable pub unseal : Image → Result (Application × Sealing)
    unfolding read_image
    unseal image = do
      e ← read_image image
      key ← ok_or (derive_key e.salt e.kdf) invalid_storage
      plaintext ← ok_or (cipher.decrypt key e.nonce e.ciphertext e.aad) invalid_storage
      app ← decode plaintext
      ok (
        app,
        record {
          key = key;
          salt = e.salt;
          m_kib = e.kdf.m_kib;
          t_cost = e.kdf.t_cost;
          p_cost = e.kdf.p_cost;
        },
      )
