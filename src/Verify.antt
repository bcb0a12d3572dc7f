-- ===== src/Verify.antt =====
-- verify.go and verify_stream.go.
pub mod Stream
pub mod RoundTrip
use saltpack.Base.{
  ℕ, Bool, true, false, List, [], ◌++◌, Option, none, some, length, ◌==◌, pos, eq_int,
  if◌then◌else◌,
}
use saltpack.Const.{
  Version, MessageType, message_type_attached_signature, message_type_detached_signature,
}
use saltpack.Errors.{
  Error, Result, ok, err, panic, ◌>>=◌, ◌>>◌, unexpected_eof, is_eof, failed_to_read_header_bytes,
  no_sender_key,
}
use saltpack.Key.{Crypto, SigningKeys}
use saltpack.Packets.{
  Codecs, SignatureHeader, VersionValidator, validate_signature_header, MsgpackStream,
  new_msgpack_stream, read_packet, decode_from_bytes, assert_end_of_stream,
}
use saltpack.Common.{
  attached_signature_input, detached_signature_input_from_hash, check_decoded_chunk_state,
  hash_header, prev_uint64,
}
use saltpack.ChunkReader.{Chunk, new_chunk_reader, read_all}

-- `verifyStream` before its public key is set.
pub record VerifyHeader : Type 0 where
  pub mps : MsgpackStream
  pub header : SignatureHeader
  pub header_hash : List ℕ

pub record VerifyStream (k : SigningKeys) : Type 0 where
  pub mps : MsgpackStream
  pub header : SignatureHeader
  pub header_hash : List ℕ
  pub public_key : k.Public

-- What `readSignatureBlock` returns.
pub record ReadBlock : Type 0 where
  pub signature : List ℕ
  pub payload_chunk : List ℕ
  pub is_final : Bool
  pub seqno : ℕ

-- An error of the first read is `ErrFailedToReadHeaderBytes`.
abbrev pub or_no_header : Result (List ℕ × ℕ × MsgpackStream) → Result (List ℕ × ℕ × MsgpackStream)
or_no_header (ok p) = ok p
or_no_header (err e) = err failed_to_read_header_bytes
or_no_header panic = panic

-- `keyring.LookupSigningPublicKey` gives nil for a sender that it does not have.
abbrev pub known_sender : {P : Type 0} → List ℕ → Option P → Result P
known_sender kid none = err (no_sender_key kid)
known_sender kid (some key) = ok key

-- `if err != nil { return nil, nil, err }`
abbrev pub or_error : {A : Type 0} → Option Error → A → Result A
or_error none a = ok a
or_error (some e) a = err e

module _ (k : SigningKeys) (c : Crypto) (codecs : Codecs) where
  -- A failed read leaves the input where it was: the reader asks for nothing after an error.
  unfoldable pub read_signature_block : Version → MsgpackStream → Result (ReadBlock × MsgpackStream)
  read_signature_block version mps =
      if eq_int version.major (pos 1)
      then (do
        (sb, seqno, rest) ← read_packet codecs.signature_block_v1 mps
        ok (
          record {
            signature = sb.signature;
            payload_chunk = sb.payload_chunk;
            is_final = length sb.payload_chunk == 0;
            seqno = seqno;
          },
          rest,
        ))
      else if eq_int version.major (pos 2)
      then (do
        (sb, seqno, rest) ← read_packet codecs.signature_block_v2 mps
        ok (
          record {
            signature = sb.block_v1.signature;
            payload_chunk = sb.block_v1.payload_chunk;
            is_final = sb.is_final;
            seqno = seqno;
          },
          rest,
        ))
      else panic

  unfoldable pub process_block : VerifyStream k → ReadBlock → Result (Unit {0})
  process_block v b = do
    input ←
        attached_signature_input c v.header.version v.header_hash b.payload_chunk
          (prev_uint64 b.seqno) b.is_final
    k.verify v.public_key input b.signature

  unfoldable pub eof_is_unexpected : Error → Error
  eof_is_unexpected e = if is_eof e then unexpected_eof else e

  -- `getNextChunk` behind the read of the block.
  unfoldable pub checked_chunk : VerifyStream k → ReadBlock → Result Chunk
  checked_chunk v b = do
    process_block v b
    check_decoded_chunk_state v.header.version b.payload_chunk b.seqno b.is_final
    elim b.is_final [
      | false ↦ ok (record { bytes = b.payload_chunk; error = none })
      | true ↦ do
        e ← assert_end_of_stream codecs v.mps
        ok (record { bytes = b.payload_chunk; error = some e })
    ]

  -- `return nil, err`
  unfoldable pub failed : Error → Result Chunk
  failed e = ok (record { bytes = []; error = some e })

  unfoldable pub or_failed : Result Chunk → Result Chunk
  or_failed (ok chunk) = ok chunk
  or_failed (err e) = failed e
  or_failed panic = panic

  -- `getNextChunk` with what the read of the block returned.
  unfoldable pub after_read :
      VerifyStream k → Result (ReadBlock × MsgpackStream) → Result Chunk × VerifyStream k
  after_read v (ok (b, rest)) =
      (or_failed (checked_chunk (record v { mps = rest }) b), record v { mps = rest })
  after_read v (err e) = (failed (eof_is_unexpected e), v)
  after_read v panic = (panic, v)

  unfoldable pub get_next_chunk : VerifyStream k → Result Chunk × VerifyStream k
  get_next_chunk v = after_read v (read_signature_block v.header.version v.mps)

  unfoldable pub read_header : VersionValidator → MsgpackStream → MessageType → Result VerifyHeader
  read_header version_validator mps msg_type = do
    (header_bytes, seqno, rest) ← or_no_header (read_packet codecs.bytes mps)
    header ← decode_from_bytes codecs.signature_header header_bytes
    validate_signature_header header version_validator msg_type
    ok (record { mps = rest; header = header; header_hash = hash_header c header_bytes })

  unfoldable pub new_verify_stream : VersionValidator → List ℕ → MessageType → Result VerifyHeader
  new_verify_stream version_validator r msg_type =
      read_header version_validator (new_msgpack_stream r) msg_type

  -- `NewVerifyStream`
  unfoldable pub new_attached_verify_stream :
      VersionValidator → List ℕ → (List ℕ → Option k.Public) → Result (k.Public × VerifyStream k)
  new_attached_verify_stream version_validator r lookup_signing_public_key = do
    s ← new_verify_stream version_validator r message_type_attached_signature
    skey ← known_sender s.header.sender_public (lookup_signing_public_key s.header.sender_public)
    ok (
      skey,
      record { mps = s.mps; header = s.header; header_hash = s.header_hash; public_key = skey },
    )

  -- `Verify`. `size` and `fuel` are those of `io.ReadAll`.
  unfoldable pub verify :
      ℕ
      → (ℕ → ℕ)
      → VersionValidator
      → List ℕ
      → (List ℕ → Option k.Public)
      → Result (k.Public × List ℕ)
  verify fuel size version_validator signed_msg lookup_signing_public_key = do
    (skey, s) ← new_attached_verify_stream version_validator signed_msg lookup_signing_public_key
    (verified_msg, e) ← read_all get_next_chunk fuel size 0 [] (new_chunk_reader get_next_chunk s)
    or_error e (skey, verified_msg)

  -- `VerifyDetachedReader`, with all the bytes that the message reader gives.
  unfoldable pub verify_detached :
      VersionValidator → List ℕ → List ℕ → (List ℕ → Option k.Public) → Result k.Public
  verify_detached version_validator message signature lookup_signing_public_key = do
    s ← new_verify_stream version_validator signature message_type_detached_signature
    (nacl_signature, seqno, rest) ← read_packet codecs.bytes s.mps
    skey ← known_sender s.header.sender_public (lookup_signing_public_key s.header.sender_public)
    k.verify skey (detached_signature_input_from_hash c (c.sha512 (s.header_hash ++ message)))
        nacl_signature
    ok skey
