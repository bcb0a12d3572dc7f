-- ===== src/Packets.antt =====
-- packets.go and msgpack.go: headers, blocks, and the stream of packets. The codec (go-codec) is a
-- parameter: for each type, an encoder into bytes and a decoder from the front of the bytes.
use saltpack.Base.{
  ℕ, ◌+◌, ◌<◌, ◌%◌, ◌^◌, ◌≡◌, ◌∙◌, ap, sym, append-nil, arith, Bool, not, ◌&&◌, Option, none, some,
  List, [], ◌++◌, eq_int,
}
use saltpack.Const.{
  Version, MessageType, version2, message_type_encryption, message_type_signcryption,
  message_type_attached_signature, message_type_detached_signature, format_name,
}
use saltpack.Errors.{
  Error, Result, ok, err, panic, ◌>>=◌, ◌>>◌, >>=_ok, fail_if, eof, trailing_garbage, bad_version,
  wrong_message_type, invalid_parameter,
}

pub record ReceiverKeys : Type 0 where
  pub receiver_kid : List ℕ
  pub payload_key_box : List ℕ

-- Also `SigncryptionHeader`.
pub record EncryptionHeader : Type 0 where
  pub format_name : List ℕ
  pub version : Version
  pub type : MessageType
  pub ephemeral : List ℕ
  pub sender_secretbox : List ℕ
  pub receivers : List ReceiverKeys

pub record EncryptionBlockV1 : Type 0 where
  pub hash_authenticators : List (List ℕ)
  pub payload_ciphertext : List ℕ

pub record EncryptionBlockV2 : Type 0 where
  pub block_v1 : EncryptionBlockV1
  pub is_final : Bool

pub record SigncryptionBlock : Type 0 where
  pub payload_ciphertext : List ℕ
  pub is_final : Bool

pub record SignatureHeader : Type 0 where
  pub format_name : List ℕ
  pub version : Version
  pub type : MessageType
  pub sender_public : List ℕ
  pub nonce : List ℕ

pub record SignatureBlockV1 : Type 0 where
  pub signature : List ℕ
  pub payload_chunk : List ℕ

pub record SignatureBlockV2 : Type 0 where
  pub block_v1 : SignatureBlockV1
  pub is_final : Bool

abbrev pub VersionValidator : Type 0
VersionValidator = Version → Result (Unit {0})

unfoldable pub validate_encryption_header : EncryptionHeader → VersionValidator → Result (Unit {0})
validate_encryption_header h version_validator = do
  fail_if (not (eq_int h.type message_type_encryption))
      (wrong_message_type message_type_encryption h.type)
  version_validator h.version

unfoldable pub validate_signcryption_header : EncryptionHeader → Result (Unit {0})
validate_signcryption_header h = do
  fail_if (not (eq_int h.type message_type_signcryption))
      (wrong_message_type message_type_signcryption h.type)
  fail_if (not (eq_int h.version.major version2.major)) (bad_version h.version)

unfoldable pub validate_signature_header :
    SignatureHeader → VersionValidator → MessageType → Result (Unit {0})
validate_signature_header h version_validator msg_type = do
  version_validator h.version
  fail_if (not (eq_int h.type msg_type)) (wrong_message_type msg_type h.type)
  fail_if
      (not (eq_int msg_type message_type_attached_signature)
        && not (eq_int msg_type message_type_detached_signature))
      invalid_parameter

-- The sender is a `SigningPublicKey`, of which the code uses `ToKID`, or nil; the nonce comes from the
-- random source.
unfoldable pub new_signature_header :
    {Public : Type 0}
    → (Public → List ℕ)
    → Version
    → Option Public
    → MessageType
    → Result (List ℕ)
    → Result SignatureHeader
new_signature_header to_kid version none msg_type new_sig_nonce = err invalid_parameter
new_signature_header to_kid version (some sender) msg_type new_sig_nonce = do
  nonce ← new_sig_nonce
  ok (record {
    format_name = format_name;
    version = version;
    type = msg_type;
    sender_public = to_kid sender;
    nonce = nonce;
  })

-- What the program asks of go-codec at one type.
pub record Codec (A : Type 0) : Type 0 where
  pub encode : A → Result (List ℕ)
  pub decode : List ℕ → Result (A × List ℕ)

-- An encoded value is decoded, whatever follows it; at the end of the input the error is `io.EOF`.
pub record IsLawful {A : Type 0} (c : Codec A) : Type 0 where
  pub decode-encode :
      (a : A) (bytes rest : List ℕ)
      → c.encode a ≡ ok bytes
      → c.decode (bytes ++ rest) ≡ ok (a, rest)
  pub decode-nil : c.decode [] ≡ err eof

-- The codec encodes every value of the type.
abbrev pub Encodes : {A : Type 0} → Codec A → Type 0
Encodes {A} c = (a : A) → (bytes : List ℕ) × (c.encode a ≡ ok bytes)

-- The codec at every type that the program writes, and a decoder of any value, which gives what
-- follows it.
pub record Codecs : Type 0 where
  pub bytes : Codec (List ℕ)
  pub encryption_header : Codec EncryptionHeader
  pub encryption_block_v1 : Codec EncryptionBlockV1
  pub encryption_block_v2 : Codec EncryptionBlockV2
  pub signcryption_block : Codec SigncryptionBlock
  pub signature_header : Codec SignatureHeader
  pub signature_block_v1 : Codec SignatureBlockV1
  pub signature_block_v2 : Codec SignatureBlockV2
  pub any : List ℕ → Result (List ℕ)

pub record AreLawful (c : Codecs) : Type 0 where
  pub bytes : IsLawful c.bytes
  pub encryption_header : IsLawful c.encryption_header
  pub encryption_block_v1 : IsLawful c.encryption_block_v1
  pub encryption_block_v2 : IsLawful c.encryption_block_v2
  pub signcryption_block : IsLawful c.signcryption_block
  pub signature_header : IsLawful c.signature_header
  pub signature_block_v1 : IsLawful c.signature_block_v1
  pub signature_block_v2 : IsLawful c.signature_block_v2
  pub any-nil : c.any [] ≡ err eof

-- `decodeFromBytes` leaves alone what stands behind the value.
unfoldable pub decode_from_bytes : {A : Type 0} → Codec A → List ℕ → Result A
decode_from_bytes c b = do (a, rest) ← c.decode b; ok a

pub decode_from_bytes-encode :
    {A : Type 0} (c : Codec A) (a : A) (bytes : List ℕ)
    → IsLawful c
    → c.encode a ≡ ok bytes
    → decode_from_bytes c bytes ≡ ok a
unfolding decode_from_bytes
decode_from_bytes-encode c a bytes lawful e =
    >>=_ok _ (ap c.decode (sym (append-nil bytes)) ∙ lawful.decode-encode a bytes [] e)

pub record MsgpackStream : Type 0 where
  pub input : List ℕ
  pub seqno : ℕ

unfoldable pub new_msgpack_stream : List ℕ → MsgpackStream
new_msgpack_stream input = record { input = input; seqno = 0 }

-- `msgpackStream.Read`: the value, its sequence number, and the stream behind it. The number is a
-- `uint64`.
unfoldable pub read_packet : {A : Type 0} → Codec A → MsgpackStream → Result (A × ℕ × MsgpackStream)
read_packet c r = do
  (a, rest) ← c.decode r.input
  ok (a, r.seqno, record { input = rest; seqno = (r.seqno + 1) % 2 ^ 64 })

-- A packet of the stream is read back.
pub read_packet-encode :
    {A : Type 0} (c : Codec A) (a : A) (bytes rest : List ℕ) (n : ℕ)
    → IsLawful c
    → c.encode a ≡ ok bytes
    → n + 1 < 2 ^ 64
    → read_packet c (record { input = bytes ++ rest; seqno = n })
      ≡ ok (a, n, record { input = rest; seqno = n + 1 })
unfolding read_packet
read_packet-encode {A} c a bytes rest n lawful e h =
    >>=_ok _ (lawful.decode-encode a bytes rest e)
    ∙ ap (λ t. ok (a, n, record { input = rest; seqno = t })) {x = (n + 1) % 2 ^ 64} {y = n + 1}
        (omega arith)

-- The error of `assertEndOfStream`, from what its read returned.
abbrev pub or_end : Result (List ℕ) → Result Error
or_end (ok rest) = ok trailing_garbage
or_end (err e) = ok e
or_end panic = panic

-- `assertEndOfStream`: always an error, `io.EOF` at the end.
unfoldable pub assert_end_of_stream : Codecs → MsgpackStream → Result Error
assert_end_of_stream c stream = or_end (c.any stream.input)
