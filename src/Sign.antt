-- ===== src/Sign.antt =====
-- sign.go and sign_stream.go: attached and detached signatures. The writer under a stream is a
-- `bytes.Buffer`, which takes all that it is given; the random nonce of the header is a parameter.
pub mod Stream
pub mod Runs
pub mod Streaming
use saltpack.Base.{
  ℕ, ◌+◌, ◌%◌, ◌^◌, Bool, true, false, List, [], ◌∷◌, ◌++◌, Option, none, some, length, take, drop,
  ltb, if◌then◌else◌,
}
use saltpack.Const.{
  Version, version1, version2, eq_version, message_type_attached_signature,
  message_type_detached_signature, signature_block_size,
}
use saltpack.Errors.{Result, ok, err, panic, ◌>>=◌, ◌>>◌, panic_if, invalid_parameter}
use saltpack.State.{St, and_then}
use saltpack.Key.{Crypto, SigningKeys}
use saltpack.Packets.{Codecs, SignatureBlockV1, SignatureBlockV2, new_signature_header}
use saltpack.Common.{
  attached_signature_input, detached_signature_input_from_hash, assert_encoded_chunk_state,
  hash_header,
}
use saltpack.Blocks.{check_sign_block_read, drain}

pub record SignAttachedStream (k : SigningKeys) : Type 0 where
  pub version : Version
  pub header_hash : List ℕ
  -- what the encoder has written
  pub output : List ℕ
  pub buffer : List ℕ
  pub seqno : ℕ
  pub secret_key : k.Secret

-- What `makeSignatureBlock` returns as `any`.
pub data SignatureBlock : Type 0 where
  block_v1 : SignatureBlockV1 → SignatureBlock
  block_v2 : SignatureBlockV2 → SignatureBlock

unfoldable pub make_signature_block : Version → List ℕ → List ℕ → Bool → Result SignatureBlock
make_signature_block version sig chunk is_final =
    let sb_v1 : SignatureBlockV1 = record { signature = sig; payload_chunk = chunk } in
    if eq_version version version1
    then ok (block_v1 sb_v1)
    else if eq_version version version2
    then ok (block_v2 (record { block_v1 = sb_v1; is_final = is_final }))
    else panic

module _ (k : SigningKeys) (c : Crypto) (codecs : Codecs) where
  unfoldable pub encode_signature_block : SignatureBlock → Result (List ℕ)
  encode_signature_block (block_v1 b) = codecs.signature_block_v1.encode b
  encode_signature_block (block_v2 b) = codecs.signature_block_v2.encode b

  unfoldable pub new_sign_attached_stream :
      Version → Result (List ℕ) → Option k.Secret → Result (SignAttachedStream k)
  new_sign_attached_stream version new_sig_nonce none = err invalid_parameter
  new_sign_attached_stream version new_sig_nonce (some signer) = do
    header ←
        new_signature_header k.to_kid version (some (k.get_public_key signer))
          message_type_attached_signature new_sig_nonce
    header_bytes ← codecs.signature_header.encode header
    wire ← codecs.bytes.encode header_bytes
    ok (record {
      version = version;
      header_hash = hash_header c header_bytes;
      output = wire;
      buffer = [];
      seqno = 0;
      secret_key = signer;
    })

  unfoldable pub compute_sig : SignAttachedStream k → List ℕ → ℕ → Bool → Result (List ℕ)
  compute_sig s payload_chunk seqno is_final = do
    input ← attached_signature_input c s.version s.header_hash payload_chunk seqno is_final
    k.sign s.secret_key input

  -- The buffer has lost the chunk also when an error follows.
  unfoldable pub sign_block : Bool → St (SignAttachedStream k) (Unit {0})
  sign_block is_final s =
      let chunk = take signature_block_size s.buffer in
      let rest = drop signature_block_size s.buffer in
      let encoded = do
        check_sign_block_read s.version is_final signature_block_size (length chunk) (length rest)
        sig ← compute_sig s chunk s.seqno is_final
        assert_encoded_chunk_state s.version chunk 0 s.seqno is_final
        block ← make_signature_block s.version sig chunk is_final
        encode_signature_block block
      in and_then encoded (record s { buffer = rest })
        (λ bytes t.
          (ok tt, record t { output = t.output ++ bytes; seqno = (t.seqno + 1) % 2 ^ 64 }))

  -- The count of bytes that `Write` returns is the length of `p`.
  unfoldable pub write : List ℕ → St (SignAttachedStream k) ℕ
  write p s =
      let buffered = record s { buffer = s.buffer ++ p } in
      let drained =
        drain (λ t. t.buffer) signature_block_size (sign_block false) (length buffered.buffer)
          buffered in
      and_then drained.0 drained.1 (λ _ t. (ok (length p), t))

  unfoldable pub close : St (SignAttachedStream k) (Unit {0})
  close s =
      let first = if ltb 0 (length s.buffer) then sign_block false s else (ok tt, s) in
      let only = sign_block true s in
      if eq_version s.version version1
      then and_then first.0 first.1
          (λ _ t. and_then (panic_if (ltb 0 (length t.buffer))) t (λ _ u. sign_block true u))
      else if eq_version s.version version2
      then and_then only.0 only.1 (λ _ t. (panic_if (ltb 0 (length t.buffer)), t))
      else (panic, s)

  -- Any series of calls of `Write`.
  unfoldable pub write_all : List (List ℕ) → St (SignAttachedStream k) (Unit {0})
  write_all [] s = (ok tt, s)
  write_all (p ∷ ps) s = and_then (write p s).0 (write p s).1 (λ _ t. write_all ps t)

  pub record SignDetachedStream : Type 0 where
    pub output : List ℕ
    pub secret_key : k.Secret
    -- what the hasher has been given
    pub hasher : List ℕ

  unfoldable pub new_sign_detached_stream :
      Version → Result (List ℕ) → Option k.Secret → Result SignDetachedStream
  new_sign_detached_stream version new_sig_nonce none = err invalid_parameter
  new_sign_detached_stream version new_sig_nonce (some signer) = do
    header ←
        new_signature_header k.to_kid version (some (k.get_public_key signer))
          message_type_detached_signature new_sig_nonce
    header_bytes ← codecs.signature_header.encode header
    wire ← codecs.bytes.encode header_bytes
    ok (record { output = wire; secret_key = signer; hasher = hash_header c header_bytes })

  unfoldable pub write_detached : List ℕ → St SignDetachedStream ℕ
  write_detached p s = (ok (length p), record s { hasher = s.hasher ++ p })

  unfoldable pub close_detached : St SignDetachedStream (Unit {0})
  close_detached s =
      let encoded = do
        signature ← k.sign s.secret_key (detached_signature_input_from_hash c (c.sha512 s.hasher))
        codecs.bytes.encode signature
      in and_then encoded s (λ bytes t. (ok tt, record t { output = t.output ++ bytes }))

  -- `signToStream` with `NewSignStream`, and with `NewSignDetachedStream`.
  unfoldable pub sign : Version → List ℕ → Result (List ℕ) → Option k.Secret → Result (List ℕ)
  sign version plaintext new_sig_nonce signer = do
    s ← new_sign_attached_stream version new_sig_nonce signer
    let written = write plaintext s
    let closed = and_then written.0 written.1 (λ _ t. close t)
    closed.0
    ok closed.1.output

  unfoldable pub sign_detached :
      Version → List ℕ → Result (List ℕ) → Option k.Secret → Result (List ℕ)
  sign_detached version plaintext new_sig_nonce signer = do
    s ← new_sign_detached_stream version new_sig_nonce signer
    let written = write_detached plaintext s
    let closed = and_then written.0 written.1 (λ _ t. close_detached t)
    closed.0
    ok closed.1.output
