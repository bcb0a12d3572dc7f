-- ===== src/Decrypt/Header.antt =====
-- decrypt.go: the header of a message, and `Open`. The message key info is the state: it is
-- returned on errors too.
use saltpack.Base.{ℕ, true, false, Option, none, some, List, [], eq_bytes, if◌then◌else◌}
use saltpack.Errors.{
  Error, Result, ok, err, panic, bad_ephemeral_key, no_decryption_key, bad_sender_key_secretbox,
  no_sender_key, failed_to_read_header_bytes,
}
use saltpack.State.{St, ◌>>=◌, ◌>>◌, lift, modify}
use saltpack.Key.{Crypto, BoxKeys, raw_box_key_from_slice}
use saltpack.Nonce.{nonce_for_sender_key_secretbox}
use saltpack.Packets.{
  Codecs, EncryptionHeader, VersionValidator, validate_encryption_header, MsgpackStream,
  new_msgpack_stream, read_packet, decode_from_bytes,
}
use saltpack.Common.{hash_header}
use saltpack.ChunkReader.{new_chunk_reader, read_all}
use saltpack.Decrypt.{
  Keyring, MessageKeyInfo, Found, DecryptStream, visible_kids, count_hidden, try_visible_receivers,
  try_hidden_receivers, compute_mac_key_receiver, get_next_chunk,
}

-- A value that has to be there.
abbrev pub or_error : {A : Type 0} → Error → Option A → Result A
or_error e none = err e
or_error e (some a) = ok a

abbrev pub no_header : Result (List ℕ × ℕ × MsgpackStream) → Result (List ℕ × ℕ × MsgpackStream)
no_header (ok p) = ok p
no_header (err e) = err failed_to_read_header_bytes
no_header panic = panic

module _ (k : BoxKeys) where
  unfoldable pub empty_info : MessageKeyInfo k
  empty_info = record {
    sender_key = none;
    sender_is_anon = false;
    receiver_key = none;
    receiver_is_anon = false;
    named_receivers = [];
    num_anon_receivers = 0;
  }

  module _ (c : Crypto) (codecs : Codecs) (ring : Keyring k) where
    -- The hidden receivers are tried, and the receiver counts as anonymous, only if no visible one
    -- was found.
    unfoldable pub find_key :
        EncryptionHeader → k.Public → Option (Found k) → St (MessageKeyInfo k) (Found k)
    find_key hdr ephemeral_key (some found) = lift (ok found)
    find_key hdr ephemeral_key none = do
      modify (λ mki. record mki {
        num_anon_receivers = count_hidden k hdr.receivers;
        receiver_is_anon = true;
      })
      found ← lift (try_hidden_receivers k hdr ephemeral_key ring.get_all_box_secret_keys)
      lift (or_error no_decryption_key found)

    -- A sender key that is the ephemeral key stands for an anonymous sender.
    unfoldable pub find_sender :
        EncryptionHeader → k.Public → List ℕ → St (MessageKeyInfo k) k.Public
    find_sender hdr ephemeral_key sender_key =
        let anonymous : St (MessageKeyInfo k) k.Public = do
          modify (λ mki. record mki { sender_is_anon = true; sender_key = some ephemeral_key })
          lift (ok ephemeral_key)
        in let known : St (MessageKeyInfo k) k.Public = do
          key ← lift (or_error (no_sender_key sender_key) (ring.lookup_box_public_key sender_key))
          modify (λ mki. record mki { sender_key = some key })
          lift (ok key)
          in if eq_bytes hdr.ephemeral sender_key then anonymous else known

    unfoldable pub process_header :
        VersionValidator
        → List ℕ
        → MsgpackStream
        → EncryptionHeader
        → St (MessageKeyInfo k) DecryptStream
    process_header version_validator header_hash mps hdr = do
      lift (validate_encryption_header hdr version_validator)
      ephemeral_key ←
          lift (or_error bad_ephemeral_key (ring.import_box_ephemeral_key hdr.ephemeral))
      modify (λ mki. record mki { named_receivers = visible_kids k hdr.receivers })
      visible ← lift (try_visible_receivers k ring hdr ephemeral_key)
      found ← find_key hdr ephemeral_key visible
      modify (λ mki. record mki { receiver_key = some found.secret_key })
      sender_key_slice ← lift (
          or_error bad_sender_key_secretbox (
            c.secretbox_open hdr.sender_secretbox nonce_for_sender_key_secretbox found.payload_key))
      sender_key ← lift (raw_box_key_from_slice sender_key_slice)
      sender ← find_sender hdr ephemeral_key sender_key
      mac_key ← lift (
          compute_mac_key_receiver k c hdr.version found.position found.secret_key sender
            ephemeral_key header_hash)
      lift (
          ok (record {
            version = hdr.version;
            mps = mps;
            payload_key = found.payload_key;
            header_hash = header_hash;
            mac_key = mac_key;
            position = found.position;
          }))

    -- `NewDecryptStream` with `readHeader`.
    unfoldable pub new_decrypt_stream :
        VersionValidator → List ℕ → St (MessageKeyInfo k) DecryptStream
    new_decrypt_stream version_validator r = do
      (header_bytes, seqno, rest) ←
          lift (no_header (read_packet codecs.bytes (new_msgpack_stream r)))
      hdr ← lift (decode_from_bytes codecs.encryption_header header_bytes)
      process_header version_validator (hash_header c header_bytes) rest hdr

    unfoldable pub all_read : List ℕ × Option Error → Result (List ℕ)
    all_read (bytes, none) = ok bytes
    all_read (bytes, some e) = err e

    -- `Open`. `size` and `fuel` are those of `io.ReadAll`. After an error of a block the key info is
    -- nil in the code, and is not to be used here.
    unfoldable pub open_message :
        ℕ → (ℕ → ℕ) → VersionValidator → List ℕ → Result (List ℕ) × MessageKeyInfo k
    open_message fuel size version_validator ciphertext =
        (do
          ds ← new_decrypt_stream version_validator ciphertext
          read ← lift (
              read_all (get_next_chunk c codecs) fuel size 0 []
                (new_chunk_reader (get_next_chunk c codecs) ds))
          lift (all_read read))
          empty_info
