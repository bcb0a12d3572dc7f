-- ===== src/Verify/RoundTrip.antt =====
-- sign.go and verify.go: signed messages and detached signatures, and their verification.
use saltpack.Base.{
  ℕ, ◌+◌, ◌≤◌, ◌<◌, ◌^◌, ◌≡◌, refl, sym, ap, ◌∙◌, subst, arith, true, List, [], ◌++◌, append-nil,
  Option, some, length,
}
use saltpack.Const.{
  Version, MessageType, message_type_attached_signature, message_type_detached_signature,
  format_name,
}
use saltpack.Errors.{ok, ◌>>◌, >>=_ok, eof}
use saltpack.State.{and_then}
use saltpack.Key.{Crypto, SigningKeys, IsSigningKeys, Signs}
use saltpack.Packets.{
  Codecs, AreLawful, Encodes, SignatureHeader, VersionValidator, new_signature_header,
  validate_signature_header, new_msgpack_stream, read_packet, read_packet-encode,
  decode_from_bytes-encode,
}
use saltpack.Common.{hash_header, detached_signature_input_from_hash}
use saltpack.ChunkReader.Laws.{Yields, read_all-Yields}
use saltpack.Blocks.Layout.{IsLayout, IsLayout-count}
use saltpack.Blocks.Writer.{emit_all}
use saltpack.Sign.{
  SignDetachedStream, new_sign_attached_stream, new_sign_detached_stream, sign, sign_detached,
  write_detached, close_detached,
}
use saltpack.Sign.Stream.{IsKnown}
use saltpack.Sign.Runs.{Seals, packet, wire}
use saltpack.Sign.Streaming.{seal, run_one}
use saltpack.Verify.{
  new_verify_stream, read_header, or_no_header, known_sender, get_next_chunk,
  new_attached_verify_stream, verify, verify_detached,
}
use saltpack.Verify.Stream.{at_input, wire-Yields}

module _ (k : SigningKeys) (c : Crypto) (codecs : Codecs) (lawful : AreLawful codecs)
    (encodes_bytes : Encodes codecs.bytes) (encodes_header : Encodes codecs.signature_header)
    (version : Version) (nonce : List ℕ) (secret_key : k.Secret)
    (version_validator : VersionValidator) (accepts : version_validator version ≡ ok tt) where
  -- The header of a message of either kind, and its bytes on the wire.
  abbrev header : MessageType → SignatureHeader
  header type = record {
    format_name = format_name;
    version = version;
    type = type;
    sender_public = k.to_kid (k.get_public_key secret_key);
    nonce = nonce;
  }

  abbrev header_bytes : MessageType → List ℕ
  header_bytes type = (encodes_header (header type)).0

  abbrev wire_header : MessageType → List ℕ
  wire_header type = (encodes_bytes (header_bytes type)).0

  new_verify_stream-ok :
      (type : MessageType) (rest : List ℕ)
      → validate_signature_header (header type) version_validator type ≡ ok tt
      → new_verify_stream k c codecs version_validator (wire_header type ++ rest) type
        ≡ ok (record {
          mps = record { input = rest; seqno = 1 };
          header = header type;
          header_hash = hash_header c (header_bytes type);
        })
  unfolding new_verify_stream read_header new_msgpack_stream
  new_verify_stream-ok type rest valid =
      >>=_ok _ (
        ap or_no_header (
          read_packet-encode codecs.bytes (header_bytes type) (wire_header type) rest 0 lawful.bytes
            (encodes_bytes (header_bytes type)).1 (omega arith)))
      ∙ >>=_ok _ (
          decode_from_bytes-encode codecs.signature_header (header type) (header_bytes type)
            lawful.signature_header (encodes_header (header type)).1)
      ∙ >>=_ok _ valid

  valid_attached :
      validate_signature_header
        (header message_type_attached_signature)
        version_validator
        message_type_attached_signature
      ≡ ok tt
  unfolding validate_signature_header
  valid_attached = >>=_ok _ accepts

  valid_detached :
      validate_signature_header
        (header message_type_detached_signature)
        version_validator
        message_type_detached_signature
      ≡ ok tt
  unfolding validate_signature_header
  valid_detached = >>=_ok _ accepts

  module _ (known : IsKnown version) (is_signing : IsSigningKeys k) (signs : Signs k secret_key)
      (encodes_v1 : Encodes codecs.signature_block_v1)
      (encodes_v2 : Encodes codecs.signature_block_v2)
      (lookup_signing_public_key : List ℕ → Option k.Public)
      (in_keyring : lookup_signing_public_key (k.to_kid (k.get_public_key secret_key))
        ≡ some (k.get_public_key secret_key)) where
    header_hash : List ℕ
    header_hash = hash_header c (header_bytes message_type_attached_signature)

    seals : Seals k c codecs header_hash secret_key version
    seals = seal k c codecs secret_key signs encodes_v1 encodes_v2 version known header_hash

    -- The message of a layout.
    message : List (List ℕ) → List ℕ → List ℕ
    message cs r =
        wire_header message_type_attached_signature
        ++ wire k c codecs header_hash secret_key seals cs r

    sign-message :
        (plaintext : List ℕ)
        → length plaintext + 2 < 2 ^ 64
        → (cs : List (List ℕ)) × (r : List ℕ) × IsLayout version plaintext cs r
          × (sign k c codecs version plaintext (ok nonce) (some secret_key) ≡ ok (message cs r))
    unfolding sign new_sign_attached_stream new_signature_header message header_hash
    sign-message plaintext h =
        let (cs, r, layout, e) =
          run_one k c codecs secret_key version known header_hash seals
            (wire_header message_type_attached_signature) plaintext h in
        (
          cs,
          r,
          layout,
          >>=_ok _ (
                >>=_ok _ (encodes_header (header message_type_attached_signature)).1
                ∙ >>=_ok _ (encodes_bytes (header_bytes message_type_attached_signature)).1)
              ∙ ap (λ d. d.0 >> ok d.1.output) e,
        )

    chunks :
        (plaintext : List ℕ) (cs : List (List ℕ)) (r : List ℕ)
        → length plaintext + 2 < 2 ^ 64
        → IsLayout version plaintext cs r
        → Yields
            (get_next_chunk k c codecs)
            (at_input k c codecs lawful header_hash secret_key is_signing version known
              (header message_type_attached_signature)
              refl
              seals
              (wire k c codecs header_hash secret_key seals cs r)
              1)
            plaintext
            eof
    chunks plaintext cs r h layout =
        subst
          (λ t.
            Yields (get_next_chunk k c codecs)
              (at_input k c codecs lawful header_hash secret_key is_signing version known
                (header message_type_attached_signature) refl seals
                (emit_all (packet k c codecs header_hash secret_key seals) 0 cs
                  ++ packet k c codecs header_hash secret_key seals t r true)
                1)
              plaintext eof)
          {x = 0 + length cs} {y = length cs} (omega arith)
          (wire-Yields k c codecs lawful header_hash secret_key is_signing version known
            (header message_type_attached_signature) refl seals 0 plaintext cs r layout.joins
            layout.nonempty layout.final_v1 (λ v z. omega (arith, layout.final_v2 v z))
            (omega (arith, IsLayout-count cs r layout)))

    verify-message :
        (plaintext : List ℕ) (cs : List (List ℕ)) (r : List ℕ) (fuel : ℕ) (size : ℕ → ℕ)
        → length plaintext + 2 < 2 ^ 64
        → IsLayout version plaintext cs r
        → ((i : ℕ) → 1 ≤ size i)
        → length plaintext < fuel
        → verify k c codecs fuel size version_validator (message cs r) lookup_signing_public_key
          ≡ ok (k.get_public_key secret_key, plaintext)
    unfolding verify new_attached_verify_stream message header_hash
    verify-message plaintext cs r fuel size h layout pos enough =
        >>=_ok _ (
          >>=_ok _ (
            new_verify_stream-ok message_type_attached_signature
              (wire k c codecs header_hash secret_key seals cs r) valid_attached)
          ∙ >>=_ok _ (ap (known_sender (k.to_kid (k.get_public_key secret_key))) in_keyring))
        ∙ >>=_ok _ (
            read_all-Yields (get_next_chunk k c codecs) _ plaintext eof size fuel
              (chunks plaintext cs r h layout) pos enough)

    -- Signing and verifying: for version 1 or 2, a plaintext shorter than 2^64 - 2 bytes, a codec and
    -- keys that meet their laws, a signer whose signatures and encodings do not fail, a validator
    -- that accepts the version and a keyring that has the signer, `Sign` succeeds, and `Verify` of
    -- its output gives the signer's public key and the plaintext, whatever the sizes of the buffers
    -- that the reads get, on fuel above the length of the plaintext.
    pub verify-sign :
        (plaintext : List ℕ) (fuel : ℕ) (size : ℕ → ℕ)
        → length plaintext + 2 < 2 ^ 64
        → ((i : ℕ) → 1 ≤ size i)
        → length plaintext < fuel
        → (signed_msg : List ℕ) × (sign k c codecs version plaintext (ok nonce) (some secret_key)
            ≡ ok signed_msg)
          × (verify k c codecs fuel size version_validator signed_msg lookup_signing_public_key
              ≡ ok (k.get_public_key secret_key, plaintext))
    verify-sign plaintext fuel size h pos enough =
        let (cs, r, layout, e) = sign-message plaintext h in
        (message cs r, e, verify-message plaintext cs r fuel size h layout pos enough)

    abbrev hashed : List ℕ → SignDetachedStream k c codecs
    hashed plaintext = record {
      output = wire_header message_type_detached_signature;
      secret_key = secret_key;
      hasher = hash_header c (header_bytes message_type_detached_signature) ++ plaintext;
    }

    -- Detached signatures: under the same conditions, without a bound on the length, `SignDetached`
    -- succeeds, and `VerifyDetached` of its output with the same message gives the signer's public
    -- key.
    pub verify_detached-sign_detached :
        (plaintext : List ℕ)
        → (signature : List ℕ) × (sign_detached k c codecs version plaintext
              (ok nonce)
              (some secret_key)
            ≡ ok signature)
          × (verify_detached k c codecs version_validator plaintext signature
                lookup_signing_public_key
              ≡ ok (k.get_public_key secret_key))
    unfolding sign_detached new_sign_detached_stream new_signature_header write_detached
        close_detached verify_detached
    verify_detached-sign_detached plaintext =
        let hash = hash_header c (header_bytes message_type_detached_signature) in
        let input = detached_signature_input_from_hash c (c.sha512 (hash ++ plaintext)) in
        let (sig, signed) = signs input in
        let (bytes, encoded) = encodes_bytes sig in
        (
          wire_header message_type_detached_signature ++ bytes,
          >>=_ok _ (
                >>=_ok _ (encodes_header (header message_type_detached_signature)).1
                ∙ >>=_ok _ (encodes_bytes (header_bytes message_type_detached_signature)).1)
              ∙ ap
                  (λ r.
                    let p =
                      and_then r (hashed plaintext)
                        (λ b t. (ok tt, record t { output = t.output ++ b })) in
                    p.0 >> ok p.1.output)
                  (>>=_ok codecs.bytes.encode signed ∙ encoded),
          >>=_ok _ (new_verify_stream-ok message_type_detached_signature bytes valid_detached)
              ∙ >>=_ok _ (
                  ap (λ t. read_packet codecs.bytes (record { input = t; seqno = 1 }))
                    (sym (append-nil bytes))
                  ∙ read_packet-encode codecs.bytes sig bytes [] 1 lawful.bytes encoded
                      (omega arith))
              ∙ >>=_ok _ (ap (known_sender (k.to_kid (k.get_public_key secret_key))) in_keyring)
              ∙ >>=_ok _ (is_signing.verify-sign secret_key input sig signed),
        )
