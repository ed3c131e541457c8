-- ===== src/Storage/Unsealed.antt =====
-- src/agent/storage.rs, `seal_version` and `unseal`: an image opens to what was sealed in it.
use credman.Base.{
  ℕ, ◌+◌, ◌<◌, ◌≤◌, ◌≡◌, refl, ap, sym, ◌∙◌, Bool, true, ◌&&◌, ◌||◌, Option, some, List, [], ◌++◌,
  arith, ltb, leb, ◌==◌, ◌!=◌, nat_eq, list_eq, length, length-append, if◌then◌else◌, ==_refl,
}
use credman.Result.{
  Result, ok, reject, ok_or, invalid_storage, capacity, on_ok, on_done, bind_ok, then_ok,
}
use credman.Bytes.{
  to_be_bytes, array, array_of, word-to_be_bytes, length-to_be_bytes, take, append_assoc,
  take_length,
}
use credman.Crypto.{KdfParams, validated, validated_small, validated_same, Cipher, Decrypts}
use credman.Types.{Application}
use credman.Snapshot.Encoding.{max_plaintext}
use credman.Snapshot.Passed.{ok_or_ok}
use credman.Storage.{Sealing}
use credman.Storage.Header.{
  params, image_magic, header_v2, header_v3, max_image, kdf_bytes, header, passed_by, seal_version,
  read_kdf, read_image, unseal,
}

-- What the cursor has passed before the rest.
pub take-passed_by : (xs ys : List ℕ) → take (passed_by (xs ++ ys) ys) (xs ++ ys) ≡ xs
take-passed_by xs ys =
    let at : passed_by (xs ++ ys) ys ≡ length xs = omega (arith, length-append xs ys) in
    ap (λ n. take n (xs ++ ys)) at ∙ take_length xs ys

kdf_bytes-append :
    (kdf : KdfParams) (rest : List ℕ)
    → kdf_bytes kdf ++ rest
      ≡ to_be_bytes 4 kdf.m_kib ++ (to_be_bytes 4 kdf.t_cost ++ (to_be_bytes 4 kdf.p_cost ++ rest))
unfolding kdf_bytes
kdf_bytes-append kdf rest =
    append_assoc (to_be_bytes 4 kdf.m_kib) (to_be_bytes 4 kdf.t_cost ++ to_be_bytes 4 kdf.p_cost)
      rest
    ∙ ap (λ l. to_be_bytes 4 kdf.m_kib ++ l)
        (append_assoc (to_be_bytes 4 kdf.t_cost) (to_be_bytes 4 kdf.p_cost) rest)

pub header-append :
    (version : ℕ) (sealing : Sealing) (rest : List ℕ)
    → header version sealing ++ rest
      ≡ image_magic
        ++ (to_be_bytes 4 version ++ (kdf_bytes (params sealing) ++ (sealing.salt ++ rest)))
unfolding header
header-append version sealing rest =
    ap (λ l. image_magic ++ l)
      (append_assoc (to_be_bytes 4 version) (kdf_bytes (params sealing) ++ sealing.salt) rest
        ∙ ap (λ l. to_be_bytes 4 version ++ l)
            (append_assoc (kdf_bytes (params sealing)) sealing.salt rest))

pub versions_agree :
    (version : ℕ)
    → (version == header_v2 || version == header_v3) ≡ true
    → (version == header_v3) ≡ leb header_v3 version
versions_agree version h =
    ground (arith, nat_eq.beq_iff version header_v2, nat_eq.beq_iff version header_v3)

pub same_image : (a b : List ℕ) → ok a ≡ ok b → a ≡ b
same_image a b h = ground arith

module _ (accepts : ℕ → ℕ → ℕ → Bool) where
  pub read_kdf-kdf_bytes :
      (kdf accepted : KdfParams) (rest : List ℕ)
      → validated accepts kdf.m_kib kdf.t_cost kdf.p_cost ≡ ok accepted
      → read_kdf accepts (kdf_bytes kdf ++ rest) ≡ ok (kdf, rest)
  unfolding read_kdf
  read_kdf-kdf_bytes kdf accepted rest h =
      let (m, t, p) = validated_small accepts kdf.m_kib kdf.t_cost kdf.p_cost accepted h in
      ap (read_kdf accepts) (kdf_bytes-append kdf rest)
      ∙ on_ok _ (word-to_be_bytes 4 kdf.m_kib _ m) (
          on_ok _ (word-to_be_bytes 4 kdf.t_cost _ t) (
            on_ok _ (word-to_be_bytes 4 kdf.p_cost rest p)
              (on_ok _ (validated_same accepts kdf.m_kib kdf.t_cost kdf.p_cost accepted h) refl)))

  pub length-kdf_bytes : (kdf : KdfParams) → length (kdf_bytes kdf) ≡ 12
  unfolding kdf_bytes
  length-kdf_bytes kdf = omega (
    arith,
    length-append (to_be_bytes 4 kdf.m_kib) (to_be_bytes 4 kdf.t_cost ++ to_be_bytes 4 kdf.p_cost),
    length-append (to_be_bytes 4 kdf.t_cost) (to_be_bytes 4 kdf.p_cost),
    length-to_be_bytes 4 kdf.m_kib,
    length-to_be_bytes 4 kdf.t_cost,
    length-to_be_bytes 4 kdf.p_cost,
  )

  length-header :
      (version : ℕ) (sealing : Sealing) → length (header version sealing) ≡ 24 + length sealing.salt
  unfolding header
  length-header version sealing = omega (
    arith,
    length-append (to_be_bytes 4 version) (kdf_bytes (params sealing) ++ sealing.salt),
    length-append (kdf_bytes (params sealing)) sealing.salt,
    length-to_be_bytes 4 version,
    length-kdf_bytes (params sealing),
  )

  abbrev sealed_with : List ℕ → List ℕ → List ℕ → List ℕ
  sealed_with bound nonce text = bound ++ (nonce ++ (to_be_bytes 8 (length text) ++ text))

  abbrev bound_to : ℕ → List ℕ → List ℕ
  bound_to version bound = if version == header_v3 then bound else []

  read_image-sealed_with :
      (version : ℕ) (sealing : Sealing) (kdf : KdfParams) (nonce text : List ℕ)
      → validated accepts sealing.m_kib sealing.t_cost sealing.p_cost ≡ ok kdf
      → length sealing.salt ≡ 16
      → length nonce ≡ 12
      → length text ≤ 16777232
      → (version == header_v2 || version == header_v3) ≡ true
      → read_image accepts (sealed_with (header version sealing) nonce text)
        ≡ ok (record {
          kdf = params sealing;
          salt = sealing.salt;
          nonce = nonce;
          aad = bound_to version (header version sealing);
          ciphertext = text;
        })
  unfolding read_image
  read_image-sealed_with version sealing kdf nonce text valid salt_size nonce_size small known =
      let bound = header version sealing in
      let after_salt = nonce ++ (to_be_bytes 8 (length text) ++ text) in
      let image = bound ++ after_salt in
      let cursor = header-append version sealing after_salt in
      let size : length image ≤ 33554432 = omega (
        arith,
        length-append bound after_salt,
        length-header version sealing,
        length-append nonce (to_be_bytes 8 (length text) ++ text),
        length-append (to_be_bytes 8 (length text)) text,
        length-to_be_bytes 8 (length text),
      ) in
      let fits : reject (ltb max_image (length image)) invalid_storage ≡ ok tt = ground arith in
      let magic : array 8 image
          ≡ ok (
            image_magic,
            to_be_bytes 4 version ++ (kdf_bytes (params sealing) ++ (sealing.salt ++ after_salt)),
          ) =
        ap (array 8) cursor
        ∙ array_of 8 image_magic
            (to_be_bytes 4 version ++ (kdf_bytes (params sealing) ++ (sealing.salt ++ after_salt)))
            refl in
      let is_version : version < 4294967296 =
        ground (arith, nat_eq.beq_iff version header_v2, nat_eq.beq_iff version header_v3) in
      let accepted : reject (version != header_v2 && version != header_v3) invalid_storage ≡ ok tt =
        ground arith in
      let whole : reject (length text != length text) invalid_storage ≡ ok tt =
        ground (arith, ==_refl (length text)) in
      on_done _ fits (
        on_ok _ magic (
          on_done _ refl (
            on_ok _
              (word-to_be_bytes 4 version
                (kdf_bytes (params sealing) ++ (sealing.salt ++ after_salt)) is_version)
              (on_done _ accepted (
                on_ok _ (read_kdf-kdf_bytes (params sealing) kdf (sealing.salt ++ after_salt) valid)
                  (on_ok _ (array_of 16 sealing.salt after_salt salt_size) (
                    on_ok _ (array_of 12 nonce (to_be_bytes 8 (length text) ++ text) nonce_size) (
                      on_ok _ (word-to_be_bytes 8 (length text) text (omega arith)) (
                        on_done _ whole (
                          ap
                            (λ (l : List ℕ). ok (record {
                              kdf = params sealing;
                              salt = sealing.salt;
                              nonce = nonce;
                              aad = bound_to version l;
                              ciphertext = text;
                            }))
                            (take-passed_by bound after_salt)))))))))))

  module _ (cipher : Cipher) (derive_key : List ℕ → KdfParams → Option (List ℕ))
      (decode : List ℕ → Result Application) where
    -- An image opens to the application, the key and the parameters that it was sealed with, in either
    -- version of the header. It is assumed that decryption undoes encryption, which makes a text 16
    -- bytes longer, that the words give the key again and that the snapshot is decoded.
    pub unseal-seal_version :
        (version : ℕ) (plain : List ℕ) (app : Application) (sealing : Sealing) (kdf : KdfParams)
        (nonce image : List ℕ)
        → Decrypts cipher
        → validated accepts sealing.m_kib sealing.t_cost sealing.p_cost ≡ ok kdf
        → length sealing.salt ≡ 16
        → length nonce ≡ 12
        → (version == header_v2 || version == header_v3) ≡ true
        → derive_key sealing.salt (params sealing) ≡ some sealing.key
        → decode plain ≡ ok app
        → seal_version cipher plain sealing nonce version ≡ ok image
        → unseal accepts cipher derive_key decode image ≡ ok (app, sealing)
    unfolding seal_version unseal
    unseal-seal_version version plain app sealing kdf nonce image law valid salt_size nonce_size
          known key decoded h =
        let bound = header version sealing in
        let aad = if leb header_v3 version then bound else [] in
        let (fits, h1) = then_ok (reject (ltb max_plaintext (length plain)) capacity) _ _ h in
        let (text, made, h2) =
          bind_ok (ok_or (cipher.encrypt sealing.key nonce plain aad) invalid_storage) _ _ h1 in
        let encrypted = ok_or_ok (cipher.encrypt sealing.key nonce plain aad) text made in
        let small : length text ≤ 16777232 =
          (let longer = law.longer sealing.key nonce plain aad text encrypted in ground arith) in
        let same_aad : bound_to version bound ≡ aad =
          ap (λ b. if b then bound else []) (versions_agree version known) in
        let opened =
          ap (read_image accepts) (sym (same_image _ image h2))
          ∙ read_image-sealed_with version sealing kdf nonce text valid salt_size nonce_size small
              known in
        let decrypted : cipher.decrypt sealing.key nonce text (bound_to version bound)
            ≡ some plain =
          ap (cipher.decrypt sealing.key nonce text) same_aad
          ∙ law.back sealing.key nonce plain aad text encrypted in
        on_ok _ opened (
          on_ok _ (ap (λ o. ok_or o invalid_storage) key)
            (on_ok _ (ap (λ o. ok_or o invalid_storage) decrypted) (on_ok _ decoded refl)))
