-- ===== src/Tests/Signing.antt =====
-- Signatures at concrete inputs.
use saltpack.Base.{ℕ, ◌≡◌, refl, arith, Option, some, List, [], ◌∷◌, inr}
use saltpack.Const.{version2}
use saltpack.Errors.{ok}
use saltpack.Common.{single_version_validator}
use saltpack.Sign.{sign, sign_detached, write_all}
use saltpack.Sign.Stream.{at}
use saltpack.Sign.Streaming.{seal, write_all_unique}
use saltpack.Verify.{verify, verify_detached}
use saltpack.Verify.RoundTrip.{verify-sign, verify_detached-sign_detached}
use saltpack.Tests.Codecs.{some_codecs, some_codecs-AreLawful}
use saltpack.Tests.Fixtures.{some_keys, some_keys-IsSigningKeys, some_keys-Signs, some_crypto}

abbrev some_text : List ℕ
some_text = 104 ∷ 105 ∷ 33 ∷ []

abbrev some_keyring : List ℕ → Option ℕ
some_keyring kid = some 5

accepts_v2 : single_version_validator version2 version2 ≡ ok tt
unfolding single_version_validator
accepts_v2 = refl

verify-sign_example :
    (signed_msg : List ℕ) × (sign some_keys some_crypto some_codecs version2 some_text
        (ok (9 ∷ []))
        (some 5)
      ≡ ok signed_msg)
    × (verify some_keys some_crypto some_codecs 4
          (λ i. 512)
          (single_version_validator version2)
          signed_msg
          some_keyring
        ≡ ok (5, some_text))
verify-sign_example =
    verify-sign some_keys some_crypto some_codecs some_codecs-AreLawful (λ a. (_, refl))
      (λ a. (_, refl)) version2 (9 ∷ []) 5 (single_version_validator version2) accepts_v2 (inr refl)
      some_keys-IsSigningKeys (some_keys-Signs 5) (λ a. (_, refl)) (λ a. (_, refl)) some_keyring
      refl some_text 4 (λ i. 512) (omega arith) (λ i. omega arith) (omega arith)

verify_detached-sign_detached_example :
    (signature : List ℕ) × (sign_detached some_keys some_crypto some_codecs version2 some_text
        (ok (9 ∷ []))
        (some 5)
      ≡ ok signature)
    × (verify_detached some_keys some_crypto some_codecs
          (single_version_validator version2)
          some_text
          signature
          some_keyring
        ≡ ok 5)
verify_detached-sign_detached_example =
    verify_detached-sign_detached some_keys some_crypto some_codecs some_codecs-AreLawful
      (λ a. (_, refl)) (λ a. (_, refl)) version2 (9 ∷ []) 5 (single_version_validator version2)
      accepts_v2 (inr refl) some_keys-IsSigningKeys (some_keys-Signs 5) (λ a. (_, refl))
      (λ a. (_, refl)) some_keyring refl some_text

write_all_unique_example :
    write_all some_keys some_crypto some_codecs
      ((104 ∷ []) ∷ [] ∷ (105 ∷ 33 ∷ []) ∷ [])
      (at some_keys some_crypto some_codecs version2 (1 ∷ []) 5 [] [] 0)
    ≡ write_all some_keys some_crypto some_codecs
        (some_text ∷ [])
        (at some_keys some_crypto some_codecs version2 (1 ∷ []) 5 [] [] 0)
write_all_unique_example =
    write_all_unique some_keys some_crypto some_codecs 5 version2 (inr refl) (1 ∷ [])
      (seal some_keys some_crypto some_codecs 5 (some_keys-Signs 5) (λ a. (_, refl))
        (λ a. (_, refl)) version2 (inr refl) (1 ∷ []))
      [] ((104 ∷ []) ∷ [] ∷ (105 ∷ 33 ∷ []) ∷ []) (some_text ∷ []) (omega arith) refl
