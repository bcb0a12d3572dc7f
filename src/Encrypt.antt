-- ===== src/Encrypt.antt =====
-- encrypt.go: the encryption of a stream for several recipients. The writer under the stream is a
-- `bytes.Buffer`; the random choices are `EncryptRng` and the ephemeral key.
pub mod Receivers
pub mod Runs
pub mod Streaming
pub mod Entries
use saltpack.Base.{
  ℕ, ◌+◌, ◌%◌, ◌^◌, Bool, true, false, not, ◌||◌, Option, none, some, List, [], ◌∷◌, ◌++◌, map,
  length, take, drop, ltb, ◌==◌, eq_bytes, if◌then◌else◌,
}
use saltpack.Const.{
  Version, version1, version2, eq_version, known_versions, format_name, message_type_encryption,
  encryption_block_size, max_receiver_count,
}
use saltpack.Errors.{
  Error, Result, ok, err, panic, ◌>>=◌, ◌>>◌, fail_if, panic_if, bad_version, bad_receivers,
  repeated_key,
}
use saltpack.State.{St, and_then}
use saltpack.Key.{Crypto, BoxKeys, secretbox_overhead}
use saltpack.Nonce.{
  nonce_for_chunk_secretbox, nonce_for_sender_key_secretbox, nonce_for_payload_key_box,
  nonce_for_mac_key_box_v1, nonce_for_mac_key_box_v2,
}
use saltpack.Packets.{Codecs, ReceiverKeys, EncryptionBlockV1, EncryptionBlockV2}
use saltpack.Common.{
  check_block_number, assert_encoded_chunk_state, compute_payload_hash,
  compute_payload_authenticator, compute_mac_key_single, sum512_truncate256,
}
use saltpack.Blocks.{check_encrypt_block_read, drain}

pub record EncryptStream : Type 0 where
  pub version : Version
  -- what the encoder has written
  pub output : List ℕ
  pub payload_key : List ℕ
  pub buffer : List ℕ
  pub header_hash : List ℕ
  pub mac_keys : List (List ℕ)
  pub num_blocks : ℕ
  pub error : Option Error

-- What `makeEncryptionBlock` returns as `any`.
pub data EncryptionBlock : Type 0 where
  block_v1 : EncryptionBlockV1 → EncryptionBlock
  block_v2 : EncryptionBlockV2 → EncryptionBlock

unfoldable pub make_encryption_block :
    Version → List ℕ → List (List ℕ) → Bool → Result EncryptionBlock
make_encryption_block version ciphertext authenticators is_final =
    let eb_v1 : EncryptionBlockV1 = record {
      payload_ciphertext = ciphertext;
      hash_authenticators = authenticators;
    } in
    if eq_version version version1
    then ok (block_v1 eb_v1)
    else if eq_version version version2
    then ok (block_v2 (record { block_v1 = eb_v1; is_final = is_final }))
    else panic

-- `slices.Contains` on versions and, as a map from key IDs, on byte strings.
abbrev pub contains_version : Version → List Version → Bool
contains_version v [] = false
contains_version v (w ∷ ws) = eq_version v w || contains_version v ws

abbrev pub contains_kid : List ℕ → List (List ℕ) → Bool
contains_kid kid [] = false
contains_kid kid (a ∷ seen) = eq_bytes kid a || contains_kid kid seen

-- `if sender == nil { sender = ephemeralKey }`
abbrev pub sender_or : {S : Type 0} → S → Option S → S
sender_or ephemeral_key none = ephemeral_key
sender_or ephemeral_key (some sender) = sender

unfoldable pub check_known_version : Version → Result (Unit {0})
check_known_version version =
    fail_if (not (contains_version version known_versions)) (bad_version version)

-- The loop of `checkEncryptReceivers`.
unfoldable pub check_repeated : List (List ℕ) → List (List ℕ) → Result (Unit {0})
check_repeated seen [] = ok tt
check_repeated seen (kid ∷ kids) =
    let rest = check_repeated (kid ∷ seen) kids in
    if contains_kid kid seen then err (repeated_key kid) else rest

module _ (k : BoxKeys) where
  unfoldable pub check_encrypt_receivers : List k.Public → Result (Unit {0})
  check_encrypt_receivers receivers = do
    fail_if (length receivers == 0 || ltb max_receiver_count (length receivers)) bad_receivers
    check_repeated [] (map k.to_kid receivers)

  -- `encryptRNG`
  pub record EncryptRng : Type 0 where
    pub create_symmetric_key : Result (List ℕ)
    pub shuffle_receivers : List k.Public → Result (List k.Public)

  -- The loop over the receivers in `init`, from receiver number `i` on.
  unfoldable pub box_payload_keys :
      Version → k.Secret → List ℕ → ℕ → List k.Public → Result (List ReceiverKeys)
  box_payload_keys version ephemeral_key payload_key i [] = ok []
  box_payload_keys version ephemeral_key payload_key i (receiver ∷ receivers) = do
    nonce ← nonce_for_payload_key_box version i
    rest ← box_payload_keys version ephemeral_key payload_key (i + 1) receivers
    ok (
        record {
          receiver_kid = if k.hide_identity receiver then [] else k.to_kid receiver;
          payload_key_box = k.box ephemeral_key receiver nonce payload_key;
        }
        ∷ rest)

  module _ (c : Crypto) where
    unfoldable pub compute_mac_key_sender :
        Version → ℕ → k.Secret → k.Secret → k.Public → List ℕ → Result (List ℕ)
    compute_mac_key_sender version index secret e_secret public header_hash =
        if eq_version version version1
        then compute_mac_key_single k secret public (nonce_for_mac_key_box_v1 header_hash)
        else if eq_version version version2
        then (do
          mac ←
              compute_mac_key_single k secret public
                (nonce_for_mac_key_box_v2 header_hash false index)
          e_mac ←
              compute_mac_key_single k e_secret public
                (nonce_for_mac_key_box_v2 header_hash true index)
          ok (sum512_truncate256 c (mac ++ e_mac)))
        else panic

    unfoldable pub compute_mac_keys_sender :
        Version → k.Secret → k.Secret → ℕ → List k.Public → List ℕ → Result (List (List ℕ))
    compute_mac_keys_sender version sender ephemeral_key i [] header_hash = ok []
    compute_mac_keys_sender version sender ephemeral_key i (receiver ∷ receivers) header_hash = do
      mac_key ← compute_mac_key_sender version i sender ephemeral_key receiver header_hash
      rest ← compute_mac_keys_sender version sender ephemeral_key (i + 1) receivers header_hash
      ok (mac_key ∷ rest)

    module _ (codecs : Codecs) where
      unfoldable pub encode_encryption_block : EncryptionBlock → Result (List ℕ)
      encode_encryption_block (block_v1 b) = codecs.encryption_block_v1.encode b
      encode_encryption_block (block_v2 b) = codecs.encryption_block_v2.encode b

      -- The buffer has lost the plaintext also when an error follows.
      unfoldable pub encrypt_block : Bool → St EncryptStream (Unit {0})
      encrypt_block is_final es =
          let plaintext = take encryption_block_size es.buffer in
          let rest = drop encryption_block_size es.buffer in
          let nonce = nonce_for_chunk_secretbox es.num_blocks in
          let ciphertext = c.secretbox_seal plaintext nonce es.payload_key in
          let encoded = do
            check_encrypt_block_read es.version is_final encryption_block_size (length plaintext)
                (length rest)
            check_block_number es.num_blocks
            assert_encoded_chunk_state es.version ciphertext secretbox_overhead es.num_blocks
                is_final
            hash ← compute_payload_hash c es.version es.header_hash nonce ciphertext is_final
            block ←
                make_encryption_block es.version ciphertext
                  (map (λ mac_key. compute_payload_authenticator c mac_key hash) es.mac_keys)
                  is_final
            encode_encryption_block block
          in and_then encoded (record es { buffer = rest })
            (λ bytes t. (
              ok tt,
              record t { output = t.output ++ bytes; num_blocks = (t.num_blocks + 1) % 2 ^ 64 },
            ))

      -- `es.err = es.encryptBlock(false)`
      unfoldable pub keep_error :
          Result (Unit {0}) × EncryptStream → Result (Unit {0}) × EncryptStream
      keep_error (ok u, es) = (ok u, es)
      keep_error (err e, es) = (err e, record es { error = some e })
      keep_error (panic, es) = (panic, es)

      -- `Write` on a stream that has not failed.
      unfoldable pub write_plaintext : List ℕ → St EncryptStream ℕ
      write_plaintext plaintext es =
          let buffered = record es { buffer = es.buffer ++ plaintext } in
          let drained =
            drain (λ t. t.buffer) encryption_block_size (λ t. keep_error (encrypt_block false t))
              (length buffered.buffer) buffered in
          and_then drained.0 drained.1 (λ _ t. (ok (length plaintext), t))

      unfoldable pub write : List ℕ → St EncryptStream ℕ
      write plaintext es = elim es.error [
        | some e ↦ (err e, es)
        | none ↦ write_plaintext plaintext es
      ]

      unfoldable pub close : St EncryptStream (Unit {0})
      close es =
          let first = if ltb 0 (length es.buffer) then encrypt_block false es else (ok tt, es) in
          let only = encrypt_block true es in
          if eq_version es.version version1
          then and_then first.0 first.1
              (λ _ t. and_then (panic_if (ltb 0 (length t.buffer))) t (λ _ u. encrypt_block true u))
          else if eq_version es.version version2
          then and_then only.0 only.1 (λ _ t. (panic_if (ltb 0 (length t.buffer)), t))
          else (panic, es)

      -- `newEncryptStream` with `init`. Without a sender the ephemeral key is the sender's.
      unfoldable pub new_encrypt_stream :
          Version
          → Option k.Secret
          → List k.Public
          → Result k.Secret
          → EncryptRng
          → Result EncryptStream
      new_encrypt_stream version sender receivers create_ephemeral_key rng = do
        check_known_version version
        check_encrypt_receivers receivers
        receivers' ← rng.shuffle_receivers receivers
        ephemeral_key ← create_ephemeral_key
        let sender' = sender_or ephemeral_key sender
        payload_key ← rng.create_symmetric_key
        keys ← box_payload_keys version ephemeral_key payload_key 0 receivers'
        header_bytes ← codecs.encryption_header.encode (record {
          format_name = format_name;
          version = version;
          type = message_type_encryption;
          ephemeral = k.to_kid (k.get_public_key ephemeral_key);
          sender_secretbox =
              c.secretbox_seal (k.to_kid (k.get_public_key sender')) nonce_for_sender_key_secretbox
                payload_key;
          receivers = keys;
        })
        let header_hash = c.sha512 header_bytes
        wire ← codecs.bytes.encode header_bytes
        mac_keys ← compute_mac_keys_sender version sender' ephemeral_key 0 receivers' header_hash
        ok (record {
          version = version;
          output = wire;
          payload_key = payload_key;
          buffer = [];
          header_hash = header_hash;
          mac_keys = mac_keys;
          num_blocks = 0;
          error = none;
        })

      unfoldable pub seal :
          Version
          → List ℕ
          → Option k.Secret
          → List k.Public
          → Result k.Secret
          → EncryptRng
          → Result (List ℕ)
      seal version plaintext sender receivers create_ephemeral_key rng = do
        es ← new_encrypt_stream version sender receivers create_ephemeral_key rng
        let written = write plaintext es
        let closed = and_then written.0 written.1 (λ _ t. close t)
        closed.0
        ok closed.1.output
