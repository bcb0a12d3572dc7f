-- ===== src/Common.antt =====
-- common.go: what the modes share. Hashes are streams of bytes that are hashed at the end.
pub mod Chunks
use saltpack.Base.{
  ℕ, ◌+◌, ◌-◌, ◌%◌, ◌^◌, Bool, false, not, ◌&&◌, ◌||◌, List, [], ◌∷◌, ◌++◌, length, take, drop,
  replicate, ltb, leb, ◌==◌, eq_int, pos, eq_bool, if◌then◌else◌,
}
use saltpack.Const.{
  Version, known_versions, eq_version, crypto_auth_bytes, crypto_auth_key_bytes,
  signature_attached_string, signature_detached_string, signature_encrypted_string,
}
use saltpack.Errors.{
  Result, ok, err, panic, ◌>>=◌, ◌>>◌, fail_if, panic_if, packet_overflow, bad_version,
  unexpected_empty_block,
}
use saltpack.Key.{Crypto, BoxKeys, secretbox_overhead}
use saltpack.Nonce.{put_uint64}
use saltpack.Packets.{VersionValidator}

-- `seqno - 1` on `uint64`.
abbrev pub prev_uint64 : ℕ → ℕ
prev_uint64 seqno = (seqno + 0xffffffffffffffff) % 2 ^ 64

-- `encryptionBlockNumber.check`
unfoldable pub check_block_number : ℕ → Result (Unit {0})
check_block_number e = fail_if (leb 0xffffffffffffffff e) packet_overflow

-- What a version adds to a hash: nothing in version 1, the final flag as a byte in version 2.
abbrev pub final_flag_byte : Bool → ℕ
final_flag_byte is_final = if is_final then 1 else 0

unfoldable pub final_flag : Version → Bool → Result (List ℕ)
final_flag version is_final =
    if eq_int version.major (pos 1)
    then ok []
    else if eq_int version.major (pos 2)
    then ok (final_flag_byte is_final ∷ [])
    else panic

module _ (c : Crypto) where
  unfoldable pub attached_signature_input : Version → List ℕ → List ℕ → ℕ → Bool → Result (List ℕ)
  unfolding final_flag
  attached_signature_input version header_hash payload_chunk seqno is_final = do
    flag ← final_flag version is_final
    ok (
        signature_attached_string
        ++ c.sha512 (header_hash ++ (put_uint64 seqno ++ (flag ++ payload_chunk))))

  unfoldable pub detached_signature_input_from_hash : List ℕ → List ℕ
  detached_signature_input_from_hash plaintext_and_header_hash =
      signature_detached_string ++ plaintext_and_header_hash

  unfoldable pub detached_signature_input : List ℕ → List ℕ → List ℕ
  unfolding detached_signature_input_from_hash
  detached_signature_input header_hash plaintext =
      detached_signature_input_from_hash (c.sha512 (header_hash ++ plaintext))

  unfoldable pub compute_payload_authenticator : List ℕ → List ℕ → List ℕ
  compute_payload_authenticator mac_key payload_hash =
      take crypto_auth_bytes (c.hmac_sha512 mac_key payload_hash)

  unfoldable pub sum512_truncate256 : List ℕ → List ℕ
  sum512_truncate256 bytes = take 32 (c.sha512 bytes)

  unfoldable pub compute_payload_hash : Version → List ℕ → List ℕ → List ℕ → Bool → Result (List ℕ)
  unfolding final_flag
  compute_payload_hash version header_hash nonce ciphertext is_final = do
    flag ← final_flag version is_final
    ok (c.sha512 (header_hash ++ (nonce ++ (flag ++ ciphertext))))

  unfoldable pub compute_signcryption_signature_input : List ℕ → List ℕ → Bool → List ℕ → List ℕ
  compute_signcryption_signature_input header_hash nonce is_final chunk_plaintext =
      signature_encrypted_string
      ++ (header_hash ++ (nonce ++ (final_flag_byte is_final ∷ c.sha512 chunk_plaintext)))

  unfoldable pub hash_header : List ℕ → List ℕ
  hash_header header_bytes = c.sha512 header_bytes

-- The box of 32 zero bytes without its 16 bytes of overhead; a shorter box panics.
unfoldable pub compute_mac_key_single :
    (k : BoxKeys) → k.Secret → k.Public → List ℕ → Result (List ℕ)
compute_mac_key_single k secret public nonce =
    let mac_key_box = k.box secret public nonce (replicate crypto_auth_key_bytes 0) in
    do
      panic_if (ltb (length mac_key_box) (secretbox_overhead + crypto_auth_key_bytes))
      ok (take crypto_auth_key_bytes (drop secretbox_overhead mac_key_box))

-- `CheckKnownMajorVersion`
has_major : Version → List Version → Bool
has_major version [] = false
has_major version (known ∷ rest) = eq_int version.major known.major || has_major version rest

unfoldable pub check_known_major_version : VersionValidator
unfolding has_major
check_known_major_version version =
    fail_if (not (has_major version known_versions)) (bad_version version)

unfoldable pub single_version_validator : Version → VersionValidator
single_version_validator desired_version version =
    fail_if (not (eq_version version desired_version)) (bad_version version)

unfoldable pub check_chunk_state : Version → ℕ → ℕ → Bool → Result (Unit {0})
check_chunk_state version chunk_len block_index is_final =
    if eq_int version.major (pos 1)
    then panic_if (not (eq_bool (chunk_len == 0) is_final))
    else if eq_int version.major (pos 2)
    then fail_if (chunk_len == 0 && (not (block_index == 0) || not is_final)) unexpected_empty_block
    else panic

-- `if err != nil { panic(err) }`
abbrev pub or_panic {ℓ} : {A : Type ℓ} → Result A → Result A
or_panic (ok u) = ok u
or_panic (err e) = panic
or_panic panic = panic

unfoldable pub assert_encoded_chunk_state : Version → List ℕ → ℕ → ℕ → Bool → Result (Unit {0})
assert_encoded_chunk_state version encoded_chunk encoding_overhead block_index is_final = do
  panic_if (ltb (length encoded_chunk) encoding_overhead)
  or_panic
      (check_chunk_state version (length encoded_chunk - encoding_overhead) block_index is_final)

unfoldable pub check_decoded_chunk_state : Version → List ℕ → ℕ → Bool → Result (Unit {0})
check_decoded_chunk_state version chunk seqno is_final =
    check_chunk_state version (length chunk) (prev_uint64 seqno) is_final
