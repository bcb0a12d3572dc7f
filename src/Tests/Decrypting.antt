-- ===== src/Tests/Decrypting.antt =====
-- Encrypted blocks at concrete inputs.
use saltpack.Base.{
  ℕ, ◌<◌, ◌≡◌, refl, arith, true, some, List, [], ◌∷◌, ◌++◌, map, replicate, get_elem?,
}
use saltpack.Const.{version2}
use saltpack.Errors.{ok}
use saltpack.Nonce.{nonce_for_chunk_secretbox}
use saltpack.Common.{compute_payload_hash, final_flag, compute_payload_authenticator, prev_uint64}
use saltpack.Decrypt.{DecryptStream, ReadBlock, process_block}
use saltpack.Decrypt.Blocks.{process_block-encrypted, process_block-checked}
use saltpack.Tests.Fixtures.{front, front_crypto, front_crypto-IsCrypto}

abbrev some_stream : DecryptStream
some_stream = record {
  version = version2;
  mps = record { input = []; seqno = 2 };
  payload_key = replicate 32 1;
  header_hash = replicate 64 7;
  mac_key = replicate 32 5;
  position = 1;
}

abbrev some_mac_keys : List (List ℕ)
some_mac_keys = replicate 32 4 ∷ replicate 32 5 ∷ []

abbrev some_hash : List ℕ
some_hash =
    front (replicate 64 7 ++ (nonce_for_chunk_secretbox 0 ++ (1 ∷ replicate 16 0 ++ (8 ∷ 9 ∷ []))))

abbrev some_block : ReadBlock
some_block = record {
  ciphertext = replicate 16 0 ++ (8 ∷ 9 ∷ []);
  authenticators =
      map (λ mac_key. compute_payload_authenticator front_crypto mac_key some_hash) some_mac_keys;
  is_final = true;
  seqno = 1;
}

hashes :
    compute_payload_hash front_crypto version2
      (replicate 64 7)
      (nonce_for_chunk_secretbox 0)
      (replicate 16 0 ++ (8 ∷ 9 ∷ []))
      true
    ≡ ok some_hash
unfolding compute_payload_hash final_flag
hashes = refl

process_block-encrypted_example :
    process_block front_crypto some_stream some_block ≡ ok (8 ∷ 9 ∷ [])
process_block-encrypted_example =
    process_block-encrypted front_crypto front_crypto-IsCrypto some_stream some_mac_keys
      (8 ∷ 9 ∷ []) some_hash 0 true (omega arith) refl hashes

process_block-checked_example :
    (hash : List ℕ) × (compute_payload_hash front_crypto version2
        (replicate 64 7)
        (nonce_for_chunk_secretbox (prev_uint64 1))
        (replicate 16 0 ++ (8 ∷ 9 ∷ []))
        true
      ≡ ok hash)
    × (get_elem? some_block.authenticators 1
        ≡ some (compute_payload_authenticator front_crypto (replicate 32 5) hash))
    × (front_crypto.secretbox_open some_block.ciphertext
          (nonce_for_chunk_secretbox (prev_uint64 1))
          (replicate 32 1)
        ≡ some (8 ∷ 9 ∷ []))
    × (prev_uint64 1 < 0xffffffffffffffff)
process_block-checked_example =
    process_block-checked front_crypto some_stream some_block (8 ∷ 9 ∷ []) (
      process_block-encrypted front_crypto front_crypto-IsCrypto some_stream some_mac_keys
        (8 ∷ 9 ∷ []) some_hash 0 true (omega arith) refl hashes)
