-- ===== src/Tests/Images.antt =====
-- src/agent/storage/tests.rs: an image and a gate, with a cipher that only lengthens its text.
use credman.Base.{
  ℕ, ◌-◌, ◌<◌, ◌≡◌, refl, ap, sym, ◌∙◌, Bool, true, some, List, [], ◌∷◌, ◌++◌, arith, length,
  length-append,
}
use credman.Result.{ok, err, recovery_required}
use credman.Bytes.{to_be_bytes, take, take_length}
use credman.Crypto.{validated, Cipher, Decrypts}
use credman.Snapshot.Encoding.{decode}
use credman.Storage.{Image, Sealing}
use credman.Storage.Header.{seal_version, header, kdf_bytes, unseal}
use credman.Storage.Unsealed.{unseal-seal_version}
use credman.Storage.Gate.{intent_bytes, read_intent, read_intent-take}
use credman.Tests.Fixture.{runs, codec}
use credman.Tests.Disk.{sealing}
use credman.Tests.Snapshot.{checks, json, clock_app}

abbrev pub sixteen : List ℕ
sixteen = 0 ∷ 0 ∷ 0 ∷ 0 ∷ 0 ∷ 0 ∷ 0 ∷ 0 ∷ 0 ∷ 0 ∷ 0 ∷ 0 ∷ 0 ∷ 0 ∷ 0 ∷ 0 ∷ []

abbrev pub cipher : Cipher
cipher = record {
  encrypt = λ key nonce plain aad. some (plain ++ sixteen);
  decrypt = λ key nonce text aad. some (take (length text - 16) text);
}

longer : (plain : List ℕ) → length (plain ++ sixteen) - 16 ≡ length plain
longer plain = omega (arith, length-append plain sixteen)

text_same : (a b : List ℕ) → some a ≡ some b → a ≡ b
text_same a b h = ground arith

pub cipher-Decrypts : Decrypts cipher
cipher-Decrypts = record {
  longer = λ key nonce plain aad text h.
      ap length (sym (text_same (plain ++ sixteen) text h)) ∙ length-append plain sixteen;
  back = λ key nonce plain aad text h.
      ap (λ (t : List ℕ). some (take (length t - 16) t)) (sym (text_same (plain ++ sixteen) text h))
      ∙ ap (λ n. some (take n (plain ++ sixteen))) (longer plain)
      ∙ ap some (take_length plain sixteen);
}

abbrev salted : Sealing
salted = record sealing { salt = sixteen }

abbrev pub accepts : ℕ → ℕ → ℕ → Bool
accepts m_kib t_cost p_cost = true

abbrev pub twelve : List ℕ
twelve = 9 ∷ 0 ∷ 0 ∷ 0 ∷ 0 ∷ 0 ∷ 0 ∷ 0 ∷ 0 ∷ 0 ∷ 0 ∷ 9 ∷ []

-- `CMAGENT2`, the version 3, 65536 kibibytes, 3 passes, 1 lane, the salt, the nonce and 19 bytes.
abbrev clock_image : Image
clock_image =
    67
    ∷ 77
    ∷ 65
    ∷ 71
    ∷ 69
    ∷ 78
    ∷ 84
    ∷ 50
    ∷ 0
    ∷ 0
    ∷ 0
    ∷ 3
    ∷ 0
    ∷ 1
    ∷ 0
    ∷ 0
    ∷ 0
    ∷ 0
    ∷ 0
    ∷ 3
    ∷ 0
    ∷ 0
    ∷ 0
    ∷ 1
    ∷ (sixteen ++ (twelve ++ (0 ∷ 0 ∷ 0 ∷ 0 ∷ 0 ∷ 0 ∷ 0 ∷ 19 ∷ 7 ∷ 0 ∷ 40 ∷ sixteen)))

seals : seal_version cipher (7 ∷ 0 ∷ 40 ∷ []) salted twelve 3 ≡ ok clock_image
unfolding seal_version header kdf_bytes to_be_bytes
seals = refl

pub decodes : decode json codec (7 ∷ 0 ∷ 40 ∷ []) ≡ ok clock_app
unfolding runs checks
decodes = refl

pub accepted : validated accepts 65536 3 1 ≡ ok (record { m_kib = 65536; t_cost = 3; p_cost = 1 })
unfolding validated
accepted = refl

unseal-seal_version_example :
    unseal accepts cipher (λ salt kdf. some (1 ∷ [])) (decode json codec) clock_image
    ≡ ok (clock_app, salted)
unseal-seal_version_example =
    unseal-seal_version accepts cipher (λ salt kdf. some (1 ∷ [])) (decode json codec) 3
      (7 ∷ 0 ∷ 40 ∷ []) clock_app salted (record { m_kib = 65536; t_cost = 3; p_cost = 1 }) twelve
      clock_image cipher-Decrypts accepted refl refl refl refl decodes seals

read_intent-take_example :
    (read_intent (intent_bytes (1 ∷ 2 ∷ []) (3 ∷ [])) ≡ ok (1 ∷ 2 ∷ [], 3 ∷ []))
    × ((k : ℕ)
        → k < length (intent_bytes (1 ∷ 2 ∷ []) (3 ∷ []))
        → read_intent (take k (intent_bytes (1 ∷ 2 ∷ []) (3 ∷ []))) ≡ err recovery_required)
read_intent-take_example = read_intent-take (1 ∷ 2 ∷ []) (3 ∷ []) (omega arith) (omega arith) refl
