-- ===== src/Signcrypt/Opening.antt =====
-- signcrypt_open.go: the blocks and the header of a message.
use saltpack.Base.{
  ℕ, Bool, true, false, Option, none, some, List, [], length, take, drop, replicate, ltb, eq_bytes,
  if◌then◌else◌,
}
use saltpack.Errors.{
  Result, ok, err, panic, ◌>>=◌, ◌>>◌, fail_if, is_eof, unexpected_eof, bad_sender_key_secretbox,
  no_sender_key, bad_ciphertext, bad_signature,
}
use saltpack.Key.{Crypto, BoxKeys, SigningKeys}
use saltpack.Const.{version2}
use saltpack.Nonce.{nonce_for_chunk_signcryption, nonce_for_sender_key_secretbox}
use saltpack.Packets.{
  Codecs, EncryptionHeader, SigncryptionBlock, validate_signcryption_header, MsgpackStream,
  new_msgpack_stream, read_packet, decode_from_bytes, assert_end_of_stream,
}
use saltpack.Common.{
  check_block_number, check_decoded_chunk_state, compute_signcryption_signature_input, prev_uint64,
}
use saltpack.ChunkReader.{Chunk, new_chunk_reader, read_all}
use saltpack.Verify.{or_no_header, or_error}
use saltpack.Decrypt.{Keyring}
use saltpack.Signcrypt.Keys.{signature_size}
use saltpack.Signcrypt.Finding.{SymmetricKeyResolver, or_nil, find_payload_key}

module _ (s : SigningKeys) where
  -- `signcryptOpenStream` once its header has been read.
  pub record SigncryptOpenStream : Type 0 where
    pub mps : MsgpackStream
    pub payload_key : List ℕ
    pub signing_public_key : Option s.Public
    pub sender_anonymous : Bool
    pub header_hash : List ℕ

  unfoldable pub opened_sender : Option (List ℕ) → Result (List ℕ)
  opened_sender none = err bad_sender_key_secretbox
  opened_sender (some sender_key_slice) = ok sender_key_slice

  unfoldable pub known_signer : List ℕ → Option s.Public → Result (Option s.Public × Bool)
  known_signer sender none = err (no_sender_key sender)
  known_signer sender (some key) = ok (some key, false)

  -- The signing key and `senderAnonymous`: a sender of zeros is an anonymous one.
  unfoldable pub find_signer : (List ℕ → Option s.Public) → List ℕ → Result (Option s.Public × Bool)
  find_signer lookup_signing_public_key sender =
      if eq_bytes (replicate (length sender) 0) sender
      then ok (none, true)
      else known_signer sender (lookup_signing_public_key sender)

  -- `secretbox.Open` of a block, and the test that a signature stands in front.
  unfoldable pub opened_block : ℕ → Option (List ℕ) → Result (List ℕ)
  opened_block seqno none = err (bad_ciphertext seqno)
  opened_block seqno (some attached_sig) = do
    fail_if (ltb (length attached_sig) signature_size) (bad_ciphertext seqno)
    ok attached_sig

  -- `if sigErr != nil { return nil, ErrBadSignature }`
  unfoldable pub or_bad_signature : Result (Unit {0}) → Result (Unit {0})
  or_bad_signature (ok u) = ok u
  or_bad_signature (err e) = err bad_signature
  or_bad_signature panic = panic

  module _ (c : Crypto) where
    unfoldable pub check_signature :
        SigncryptOpenStream → List ℕ → Bool → List ℕ → List ℕ → Result (Unit {0})
    check_signature sos nonce is_final chunk_plaintext detached_sig =
        let verified = do
          key ← or_nil sos.signing_public_key
          or_bad_signature (
              s.verify key
                (compute_signcryption_signature_input c sos.header_hash nonce is_final
                  chunk_plaintext)
                detached_sig)
        in if sos.sender_anonymous then ok tt else verified

    unfoldable pub process_block : SigncryptOpenStream → List ℕ → Bool → ℕ → Result (List ℕ)
    process_block sos payload_ciphertext is_final seqno =
        let block_num = prev_uint64 seqno in
        let nonce = nonce_for_chunk_signcryption sos.header_hash is_final block_num in
        do
          check_block_number block_num
          attached_sig ←
              opened_block seqno (c.secretbox_open payload_ciphertext nonce sos.payload_key)
          check_signature sos nonce is_final (drop signature_size attached_sig)
              (take signature_size attached_sig)
          ok (drop signature_size attached_sig)

    module _ (codecs : Codecs) where
      -- `getNextChunk` behind the read of the block, and then with it.
      unfoldable pub checked_chunk : SigncryptOpenStream → SigncryptionBlock → ℕ → Result Chunk
      checked_chunk sos sb seqno = do
        chunk ← process_block sos sb.payload_ciphertext sb.is_final seqno
        check_decoded_chunk_state version2 chunk seqno sb.is_final
        elim sb.is_final [
          | false ↦ ok (record { bytes = chunk; error = none })
          | true ↦ do
            e ← assert_end_of_stream codecs sos.mps
            ok (record { bytes = chunk; error = some e })
        ]

      unfoldable pub or_failed : Result Chunk → Result Chunk
      or_failed (ok chunk) = ok chunk
      or_failed (err e) = ok (record { bytes = []; error = some e })
      or_failed panic = panic

      unfoldable pub after_read :
          SigncryptOpenStream
          → Result (SigncryptionBlock × ℕ × MsgpackStream)
          → Result Chunk × SigncryptOpenStream
      after_read sos (ok (sb, seqno, rest)) = (
        or_failed (checked_chunk (record sos { mps = rest }) sb seqno),
        record sos { mps = rest },
      )
      after_read sos (err e) = (or_failed (err (if is_eof e then unexpected_eof else e)), sos)
      after_read sos panic = (panic, sos)

      unfoldable pub get_next_chunk : SigncryptOpenStream → Result Chunk × SigncryptOpenStream
      get_next_chunk sos = after_read sos (read_packet codecs.signcryption_block sos.mps)

      module _ (k : BoxKeys) (ring : Keyring k)
          (lookup_signing_public_key : List ℕ → Option s.Public)
          (resolver : Option SymmetricKeyResolver) where
        unfoldable pub process_header : EncryptionHeader → Result (List ℕ × Option s.Public × Bool)
        process_header hdr = do
          validate_signcryption_header hdr
          payload_key ← find_payload_key c k ring resolver hdr
          sender_key_slice ←
              opened_sender
                (c.secretbox_open hdr.sender_secretbox nonce_for_sender_key_secretbox payload_key)
          signer ← find_signer lookup_signing_public_key sender_key_slice
          ok (payload_key, signer.0, signer.1)

        -- `NewSigncryptOpenStream` with `readHeader`.
        unfoldable pub new_signcrypt_open_stream : List ℕ → Result SigncryptOpenStream
        new_signcrypt_open_stream r = do
          (header_bytes, seqno, rest) ←
              or_no_header (read_packet codecs.bytes (new_msgpack_stream r))
          header ← decode_from_bytes codecs.encryption_header header_bytes
          (payload_key, signing_public_key, sender_anonymous) ← process_header header
          ok (record {
            mps = rest;
            payload_key = payload_key;
            signing_public_key = signing_public_key;
            sender_anonymous = sender_anonymous;
            header_hash = c.sha512 header_bytes;
          })

        -- `SigncryptOpen`. `size` and `fuel` are those of `io.ReadAll`.
        unfoldable pub signcrypt_open : ℕ → (ℕ → ℕ) → List ℕ → Result (Option s.Public × List ℕ)
        signcrypt_open fuel size ciphertext = do
          sos ← new_signcrypt_open_stream ciphertext
          (ret, e) ← read_all get_next_chunk fuel size 0 [] (new_chunk_reader get_next_chunk sos)
          or_error e (sos.signing_public_key, ret)
