-- ===== src/Tests/Opening.antt =====
-- Encrypted and signcrypted messages at concrete inputs.
use saltpack.Base.{
  ℕ, ◌+◌, ◌≤◌, ◌<◌, ◌≡◌, ◌≢◌, ◌↔◌, ◌⊎◌, subst, refl, arith, true, false, Option, none, some, List,
  [], ◌∷◌, ◌++◌, inr, length, replicate,
}
use saltpack.Const.{version2, encryption_block_size, max_receiver_count}
use saltpack.Errors.{ok}
use saltpack.Decrypt.{Keyring, visible_kids}
use saltpack.State.{and_then}
use saltpack.Nonce.{nonce_for_chunk_signcryption, set_low_bit, put_uint64}
use saltpack.Blocks.Cut.{IsCut-short}
use saltpack.Encrypt.Runs.{at, seal}
use saltpack.Encrypt.Streaming.{write-write}
use saltpack.Common.{
  single_version_validator, check_block_number, compute_signcryption_signature_input, prev_uint64,
}
use saltpack.Encrypt.{EncryptStream, EncryptRng, check_encrypt_receivers, check_repeated}
use saltpack.Encrypt as Encrypt
use saltpack.Encrypt.Receivers.{AreNew}
use saltpack.Decrypt.Header.{open_message}
use saltpack.Decrypt.Visible.{Owns}
use saltpack.Decrypt.Senders.{IsSender}
use saltpack.Decrypt.RoundTrip.{key_info, open_message-seal}
use saltpack.Signcrypt.Keys.{
  receiver_box_key, SigncryptRng, check_signcrypt_receivers, check_signcrypt_receiver_count,
  add_kids,
}
use saltpack.Signcrypt.Sealing.{signcrypt_seal}
use saltpack.Signcrypt.Opening.{
  SigncryptOpenStream, opened_block, or_bad_signature, check_signature, process_block,
  signcrypt_open,
}
use saltpack.Signcrypt.Senders.{IsKnownSender}
use saltpack.Signcrypt.RoundTrip.{signcrypt_open-signcrypt_seal}
use saltpack.Signcrypt.Checks.{IsSigned, check_signcrypt_receivers_iff, process_block-IsSigned}
use saltpack.Tests.Codecs.{some_codecs, some_codecs-AreLawful}
use saltpack.Tests.Fixtures.{
  front, length-front, front_crypto, front_crypto-IsCrypto, wide_box_keys, wide_box_keys-IsBoxKeys,
  wide_keys, wide_keys-IsSigningKeys,
}
use mathlib.Core.List.Memᴰ.{head}

-- The key whose ID this is.
abbrev from_kid : List ℕ → Option ℕ
from_kid [] = none
from_kid (p ∷ kid) = some p

-- The receiver's key is 4, and it knows everyone.
abbrev some_ring : Keyring wide_box_keys
some_ring = record {
  lookup_box_secret_key = λ kids. some (0, 4);
  lookup_box_public_key = from_kid;
  get_all_box_secret_keys = 4 ∷ [];
  import_box_ephemeral_key = from_kid;
}

abbrev some_rng : SigncryptRng wide_box_keys
some_rng = record {
  create_symmetric_key = ok (replicate 32 6);
  shuffle_receivers = λ box_keys symmetric_keys. ok (receiver_box_key 4 ∷ []);
}

receivers_pass : check_signcrypt_receivers wide_box_keys (4 ∷ []) [] ≡ ok tt
unfolding check_signcrypt_receivers check_signcrypt_receiver_count add_kids
receivers_pass = refl

sender_known : IsKnownSender wide_keys from_kid 3
sender_known = record {
  signs = λ m. (front (3 ∷ m), refl, length-front (3 ∷ m));
  length-to_kid = refl;
  not_zero = λ e. cc e;
  in_keyring = refl;
}

signcrypt_open-signcrypt_seal_example :
    (ciphertext : List ℕ) × (signcrypt_seal wide_keys front_crypto some_codecs wide_box_keys
        (8 ∷ 9 ∷ [])
        (some 3)
        (4 ∷ [])
        []
        (ok 7)
        some_rng
      ≡ ok ciphertext)
    × (signcrypt_open wide_keys front_crypto some_codecs wide_box_keys some_ring from_kid none 3
          (λ i. 512)
          ciphertext
        ≡ ok (some 3, 8 ∷ 9 ∷ []))
signcrypt_open-signcrypt_seal_example =
    signcrypt_open-signcrypt_seal wide_box_keys wide_box_keys-IsBoxKeys wide_keys
      wide_keys-IsSigningKeys front_crypto front_crypto-IsCrypto some_codecs some_codecs-AreLawful
      (λ a. (_, refl)) (λ a. (_, refl)) (λ a. (_, refl)) 7 (replicate 32 6) refl
      (receiver_box_key 4 ∷ []) (some 3) from_kid sender_known some_rng (4 ∷ []) [] some_ring none 4
      (8 ∷ 9 ∷ []) 3 (λ i. 512) receivers_pass refl refl refl (head refl) (head refl)
      (((λ i e. refl), tt), tt) (omega arith) (λ i. omega arith) (omega arith)

check_signcrypt_receivers_iff_example :
    (check_signcrypt_receivers wide_box_keys (4 ∷ []) [] ≡ ok tt)
    ↔ ((1 ≤ 1 + 0) × (1 + 0 ≤ max_receiver_count) × AreNew [] ((4 ∷ replicate 31 0) ∷ []))
check_signcrypt_receivers_iff_example = check_signcrypt_receivers_iff wide_box_keys (4 ∷ []) []

abbrev encrypt_rng : EncryptRng wide_box_keys
encrypt_rng = record {
  create_symmetric_key = ok (replicate 32 6);
  shuffle_receivers = λ receivers. ok (4 ∷ []);
}

encrypt_receivers_pass : check_encrypt_receivers wide_box_keys (4 ∷ []) ≡ ok tt
unfolding check_encrypt_receivers check_repeated
encrypt_receivers_pass = refl

Owns-four :
    Owns wide_box_keys wide_box_keys-IsBoxKeys version2
      (inr refl)
      7
      (replicate 32 6)
      refl
      some_ring
      (4 ∷ [])
      4
unfolding visible_kids
Owns-four = record { index = 0; looks_up = refl; asked = refl; to_kid-inj = λ r e. cc e }

IsSender-three : IsSender wide_box_keys some_ring 7 (some 3)
IsSender-three = record {
  length-to_kid = refl;
  is_known = λ key e.
      let same : 3 ≡ key = cc e in
      subst
        (λ t.
          ((7 ∷ replicate 31 0) ≢ (t ∷ replicate 31 0)) × (from_kid (t ∷ replicate 31 0) ≡ some t))
        same ((λ f. cc f), refl);
}

accepts : single_version_validator version2 version2 ≡ ok tt
unfolding single_version_validator
accepts = refl

open_message-seal_example :
    (ciphertext : List ℕ) × (Encrypt.seal wide_box_keys front_crypto some_codecs version2
        (8 ∷ 9 ∷ [])
        (some 3)
        (4 ∷ [])
        (ok 7)
        encrypt_rng
      ≡ ok ciphertext)
    × (open_message wide_box_keys front_crypto some_codecs some_ring 3
          (λ i. 512)
          (single_version_validator version2)
          ciphertext
        ≡ (
          ok (8 ∷ 9 ∷ []),
          record {
            sender_key = some 3;
            sender_is_anon = false;
            receiver_key = some 4;
            receiver_is_anon = false;
            named_receivers = (4 ∷ replicate 31 0) ∷ [];
            num_anon_receivers = 0;
          },
        ))
unfolding visible_kids key_info
open_message-seal_example =
    open_message-seal wide_box_keys wide_box_keys-IsBoxKeys front_crypto front_crypto-IsCrypto
      some_codecs some_codecs-AreLawful (λ a. (_, refl)) (λ a. (_, refl)) (λ a. (_, refl))
      (λ a. (_, refl)) version2 (inr refl) 7 (replicate 32 6) refl (4 ∷ []) (some 3) some_ring 4
      (single_version_validator version2) accepts refl Owns-four IsSender-three encrypt_rng (4 ∷ [])
      (8 ∷ 9 ∷ []) 3 (λ i. 512) encrypt_receivers_pass refl refl (omega arith) (λ i. omega arith)
      (omega arith)

abbrev sealing : List ℕ → List ℕ → ℕ → EncryptStream
sealing =
    at wide_box_keys front_crypto some_codecs (replicate 64 7) (replicate 32 6)
      (replicate 32 5 ∷ []) version2

write-write_example :
    (t : EncryptStream) × (and_then
        (Encrypt.write wide_box_keys front_crypto some_codecs (1 ∷ []) (sealing [] (9 ∷ []) 0)).0
        (Encrypt.write wide_box_keys front_crypto some_codecs (1 ∷ []) (sealing [] (9 ∷ []) 0)).1
        (λ _ u. Encrypt.write wide_box_keys front_crypto some_codecs (2 ∷ 3 ∷ []) u)
      ≡ (ok 2, t))
    × (Encrypt.write wide_box_keys front_crypto some_codecs (1 ∷ 2 ∷ 3 ∷ []) (sealing [] (9 ∷ []) 0)
        ≡ (ok (1 + 2), t))
write-write_example =
    write-write wide_box_keys front_crypto front_crypto-IsCrypto some_codecs (replicate 64 7)
      (replicate 32 6) (replicate 32 5 ∷ []) version2 (inr refl)
      (seal wide_box_keys front_crypto some_codecs (replicate 64 7) (replicate 32 6)
        (replicate 32 5 ∷ []) (λ a. (_, refl)) (λ a. (_, refl)) version2 (inr refl))
      [] (1 ∷ []) (2 ∷ 3 ∷ []) (9 ∷ []) [] [] (IsCut-short encryption_block_size [] (omega arith))
      (omega arith)

abbrev signcrypted : SigncryptOpenStream wide_keys
signcrypted = record {
  mps = record { input = []; seqno = 2 };
  payload_key = replicate 32 6;
  signing_public_key = some 3;
  sender_anonymous = false;
  header_hash = replicate 64 7;
}

abbrev block_nonce : List ℕ
block_nonce = nonce_for_chunk_signcryption (replicate 64 7) true 0

abbrev block_sig : List ℕ
block_sig = front (
    3
    ∷ compute_signcryption_signature_input front_crypto (replicate 64 7) block_nonce true
        (8 ∷ 9 ∷ []))

accepted :
    process_block wide_keys front_crypto signcrypted
      (replicate 16 0 ++ (block_sig ++ (8 ∷ 9 ∷ [])))
      true
      1
    ≡ ok (8 ∷ 9 ∷ [])
unfolding process_block check_block_number opened_block check_signature or_bad_signature
    compute_signcryption_signature_input nonce_for_chunk_signcryption set_low_bit put_uint64
accepted = refl

process_block-IsSigned_example :
    (sig : List ℕ) × (length sig ≡ 64)
    × (front_crypto.secretbox_open
          (replicate 16 0 ++ (block_sig ++ (8 ∷ 9 ∷ [])))
          (nonce_for_chunk_signcryption (replicate 64 7) true (prev_uint64 1))
          (replicate 32 6)
        ≡ some (sig ++ (8 ∷ 9 ∷ [])))
    × ((false ≡ true)
        ⊎ IsSigned wide_keys front_crypto signcrypted
            (nonce_for_chunk_signcryption (replicate 64 7) true (prev_uint64 1))
            true
            (8 ∷ 9 ∷ [])
            sig)
    × (prev_uint64 1 < 0xffffffffffffffff)
process_block-IsSigned_example =
    process_block-IsSigned wide_keys front_crypto signcrypted
      (replicate 16 0 ++ (block_sig ++ (8 ∷ 9 ∷ []))) true 1 (8 ∷ 9 ∷ []) accepted
