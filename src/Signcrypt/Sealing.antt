-- ===== src/Signcrypt/Sealing.antt =====
-- signcrypt_seal.go: the stream that signs and encrypts. The writer under it is a `bytes.Buffer`; the
-- random choices are `SigncryptRng` and the ephemeral key.
use saltpack.Base.{
  ℕ, ◌+◌, ◌%◌, ◌^◌, Bool, true, false, not, ◌&&◌, Option, none, some, List, [], ◌++◌, length, take,
  drop, replicate, ltb, ◌==◌,
}
use saltpack.Const.{
  Version, version2, format_name, message_type_signcryption, encryption_block_size,
}
use saltpack.Errors.{Error, Result, ok, err, panic, ◌>>=◌, ◌>>◌, panic_if}
use saltpack.State.{St, and_then}
use saltpack.Key.{Crypto, BoxKeys, SigningKeys, secretbox_overhead}
use saltpack.Nonce.{nonce_for_chunk_signcryption, nonce_for_sender_key_secretbox}
use saltpack.Packets.{Codecs}
use saltpack.Common.{
  check_block_number, assert_encoded_chunk_state, compute_signcryption_signature_input,
}
use saltpack.Blocks.{drain}
use saltpack.Signcrypt.Keys.{
  signature_size, public_key_size, ReceiverSymmetricKey, check_signcrypt_receivers, SigncryptRng,
  make_all_receiver_keys,
}

module _ (s : SigningKeys) where
  pub record SigncryptSealStream : Type 0 where
    pub version : Version
    -- what the encoder has written
    pub output : List ℕ
    pub encryption_key : List ℕ
    pub signing_key : Option s.Secret
    pub buffer : List ℕ
    pub header_hash : List ℕ
    pub num_blocks : ℕ
    pub error : Option Error

  -- The sender's key in the header: zeros for an anonymous one.
  unfoldable pub sender_key_bytes : Option s.Secret → Result (List ℕ)
  sender_key_bytes none = ok (replicate public_key_size 0)
  sender_key_bytes (some signing_key) =
      let kid = s.to_kid (s.get_public_key signing_key) in
      do panic_if (not (length kid == public_key_size)); ok kid

  module _ (c : Crypto) where
    unfoldable pub detached_sig :
        Option s.Secret → List ℕ → List ℕ → Bool → List ℕ → Result (List ℕ)
    detached_sig none header_hash nonce is_final plaintext = ok (replicate signature_size 0)
    detached_sig (some signing_key) header_hash nonce is_final plaintext =
        s.sign signing_key
          (compute_signcryption_signature_input c header_hash nonce is_final plaintext)

    module _ (codecs : Codecs) where
      -- The buffer has lost the plaintext also when an error follows.
      unfoldable pub signcrypt_block : Bool → St SigncryptSealStream (Unit {0})
      signcrypt_block is_final sss =
          let plaintext = take encryption_block_size sss.buffer in
          let rest = drop encryption_block_size sss.buffer in
          let nonce = nonce_for_chunk_signcryption sss.header_hash is_final sss.num_blocks in
          let encoded = do
            panic_if (is_final && not (length rest == 0))
            check_block_number sss.num_blocks
            sig ← detached_sig sss.signing_key sss.header_hash nonce is_final plaintext
            let ciphertext = c.secretbox_seal (sig ++ plaintext) nonce sss.encryption_key
            assert_encoded_chunk_state sss.version ciphertext secretbox_overhead sss.num_blocks
                is_final
            codecs.signcryption_block.encode
                (record { payload_ciphertext = ciphertext; is_final = is_final })
          in and_then encoded (record sss { buffer = rest })
            (λ bytes t. (
              ok tt,
              record t { output = t.output ++ bytes; num_blocks = (t.num_blocks + 1) % 2 ^ 64 },
            ))

      -- `sss.err = sss.signcryptBlock(false)`
      unfoldable pub keep_error :
          Result (Unit {0}) × SigncryptSealStream → Result (Unit {0}) × SigncryptSealStream
      keep_error (ok u, sss) = (ok u, sss)
      keep_error (err e, sss) = (err e, record sss { error = some e })
      keep_error (panic, sss) = (panic, sss)

      -- `Write` on a stream that has not failed.
      unfoldable pub write_plaintext : List ℕ → St SigncryptSealStream ℕ
      write_plaintext plaintext sss =
          let buffered = record sss { buffer = sss.buffer ++ plaintext } in
          let drained =
            drain (λ t. t.buffer) encryption_block_size (λ t. keep_error (signcrypt_block false t))
              (length buffered.buffer) buffered in
          and_then drained.0 drained.1 (λ _ t. (ok (length plaintext), t))

      unfoldable pub write : List ℕ → St SigncryptSealStream ℕ
      write plaintext sss = elim sss.error [
        | some e ↦ (err e, sss)
        | none ↦ write_plaintext plaintext sss
      ]

      unfoldable pub close : St SigncryptSealStream (Unit {0})
      close sss =
          let only = signcrypt_block true sss in
          and_then only.0 only.1 (λ _ t. (panic_if (ltb 0 (length t.buffer)), t))

      module _ (k : BoxKeys) where
        -- `newSigncryptSealStream` with `init`.
        unfoldable pub new_signcrypt_seal_stream :
            Option s.Secret
            → List k.Public
            → List ReceiverSymmetricKey
            → Result k.Secret
            → SigncryptRng k
            → Result SigncryptSealStream
        new_signcrypt_seal_stream sender box_keys symmetric_keys create_ephemeral_key rng = do
          check_signcrypt_receivers k box_keys symmetric_keys
          receivers ← rng.shuffle_receivers box_keys symmetric_keys
          ephemeral_key ← create_ephemeral_key
          encryption_key ← rng.create_symmetric_key
          sender_key ← sender_key_bytes sender
          keys ← make_all_receiver_keys k c ephemeral_key encryption_key 0 receivers
          header_bytes ← codecs.encryption_header.encode (record {
            format_name = format_name;
            version = version2;
            type = message_type_signcryption;
            ephemeral = k.to_kid (k.get_public_key ephemeral_key);
            sender_secretbox =
                c.secretbox_seal sender_key nonce_for_sender_key_secretbox encryption_key;
            receivers = keys;
          })
          wire ← codecs.bytes.encode header_bytes
          ok (record {
            version = version2;
            output = wire;
            encryption_key = encryption_key;
            signing_key = sender;
            buffer = [];
            header_hash = c.sha512 header_bytes;
            num_blocks = 0;
            error = none;
          })

        unfoldable pub signcrypt_seal :
            List ℕ
            → Option s.Secret
            → List k.Public
            → List ReceiverSymmetricKey
            → Result k.Secret
            → SigncryptRng k
            → Result (List ℕ)
        signcrypt_seal plaintext sender box_keys symmetric_keys create_ephemeral_key rng = do
          sss ← new_signcrypt_seal_stream sender box_keys symmetric_keys create_ephemeral_key rng
          let written = write plaintext sss
          let closed = and_then written.0 written.1 (λ _ t. close t)
          closed.0
          ok closed.1.output
