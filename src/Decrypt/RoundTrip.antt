-- ===== src/Decrypt/RoundTrip.antt =====
-- encrypt.go and decrypt.go: a message on its way from the encryption stream to a
-- receiver that the header names.
use saltpack.Base.{
  ℕ, ◌+◌, ◌≤◌, ◌<◌, ◌^◌, ◌≡◌, refl, sym, ap, ◌∙◌, arith, false, inl, inr, Option, some, List, ◌++◌,
  length, get_elem?,
}
use saltpack.Const.{Version, format_name, message_type_encryption}
use saltpack.Errors.{ok, ◌>>◌, >>=_ok, eof, bad_ephemeral_key, bad_sender_key_secretbox}
use saltpack.State.{and_then_ok, and_then_pair}
use saltpack.Key.{Crypto, IsCrypto, BoxKeys, IsBoxKeys}
use saltpack.Nonce.{nonce_for_sender_key_secretbox}
use saltpack.Packets.{
  Codecs, AreLawful, Encodes, EncryptionHeader, VersionValidator, validate_encryption_header,
  new_msgpack_stream, read_packet-encode, decode_from_bytes-encode,
}
use saltpack.Common.{hash_header}
use saltpack.ChunkReader.Laws.{read_all-Yields}
use saltpack.Blocks.Layout.{IsLayout}
use saltpack.Sign.Stream.{IsKnown}
use saltpack.Encrypt.{
  EncryptRng, sender_or, check_known_version, check_encrypt_receivers, new_encrypt_stream,
}
use saltpack.Encrypt as Encrypt
use saltpack.Encrypt.Runs.{Seals, seal}
use saltpack.Encrypt.Streaming.{wire, run_one}
use saltpack.Encrypt.Entries.{
  entries, box_payload_keys-ok, mac_keys, compute_mac_keys_sender-ok, get_elem?-mac_keys,
}
use saltpack.Signcrypt.Receivers.{key_size, raw_box_key_from_slice-ok}
use saltpack.Decrypt.{Keyring, MessageKeyInfo, visible_kids, get_next_chunk}
use saltpack.Decrypt.MacKeys.{compute_mac_key_sender-receiver}
use saltpack.Decrypt.Visible.{Owns, try_visible_receivers-ok}
use saltpack.Decrypt.Chunks.{at_input, chunks}
use saltpack.Decrypt.Senders.{is_none, IsSender, find_sender-ok}
use saltpack.Decrypt.Header.{
  or_error, no_header, empty_info, find_key, process_header, new_decrypt_stream, all_read,
  open_message,
}

module _ (k : BoxKeys) (is_box : IsBoxKeys k) (c : Crypto) (law : IsCrypto c) (codecs : Codecs)
    (lawful : AreLawful codecs) (encodes_bytes : Encodes codecs.bytes)
    (encodes_header : Encodes codecs.encryption_header)
    (encodes_v1 : Encodes codecs.encryption_block_v1)
    (encodes_v2 : Encodes codecs.encryption_block_v2) (version : Version) (known : IsKnown version)
    (ephemeral : k.Secret) (payload_key : List ℕ) (size : length payload_key ≡ key_size)
    (receivers : List k.Public) (sender : Option k.Secret) where
  -- The sender's key, which is the ephemeral one without a sender.
  abbrev sender_key : k.Secret
  sender_key = sender_or ephemeral sender

  abbrev sender_kid : List ℕ
  sender_kid = k.to_kid (k.get_public_key sender_key)

  abbrev header : EncryptionHeader
  header = record {
    format_name = format_name;
    version = version;
    type = message_type_encryption;
    ephemeral = k.to_kid (k.get_public_key ephemeral);
    sender_secretbox = c.secretbox_seal sender_kid nonce_for_sender_key_secretbox payload_key;
    receivers = entries k version known ephemeral payload_key 0 receivers;
  }

  abbrev header_bytes : List ℕ
  header_bytes = (encodes_header header).0

  abbrev wire_header : List ℕ
  wire_header = (encodes_bytes header_bytes).0

  abbrev header_hash : List ℕ
  header_hash = c.sha512 header_bytes

  abbrev keys : List (List ℕ)
  keys = mac_keys k is_box c sender_key ephemeral header_hash version known 0 receivers

  seals : Seals k c codecs header_hash payload_key keys version
  seals = seal k c codecs header_hash payload_key keys encodes_v1 encodes_v2 version known

  -- The message of a layout.
  message : List (List ℕ) → List ℕ → List ℕ
  message cs r =
      wire_header ++ wire k c law codecs header_hash payload_key keys version known seals cs r

  versioned : (v : Version) → IsKnown v → check_known_version v ≡ ok tt
  unfolding check_known_version
  versioned v (inl e) = ap check_known_version e
  versioned v (inr e) = ap check_known_version e

  seal-message :
      (rng : EncryptRng k) (given : List k.Public) (plaintext : List ℕ)
      → check_encrypt_receivers k given ≡ ok tt
      → rng.shuffle_receivers given ≡ ok receivers
      → rng.create_symmetric_key ≡ ok payload_key
      → length plaintext + 2 < 2 ^ 64
      → (cs : List (List ℕ)) × (r : List ℕ) × IsLayout version plaintext cs r
        × (Encrypt.seal k c codecs version plaintext sender given (ok ephemeral) rng
            ≡ ok (message cs r))
  unfolding Encrypt.seal new_encrypt_stream message
  seal-message rng given plaintext valid shuffled created h =
      let (cs, r, layout, e) =
        run_one k c law codecs header_hash payload_key keys version known seals wire_header
          plaintext h in
      (
        cs,
        r,
        layout,
        >>=_ok _ (
              >>=_ok _ (versioned version known)
              ∙ >>=_ok _ valid
              ∙ >>=_ok _ shuffled
              ∙ >>=_ok _ created
              ∙ >>=_ok _ (box_payload_keys-ok k version known ephemeral payload_key 0 receivers)
              ∙ >>=_ok _ (encodes_header header).1
              ∙ >>=_ok _ (encodes_bytes header_bytes).1
              ∙ >>=_ok _ (
                  compute_mac_keys_sender-ok k is_box c sender_key ephemeral header_hash version
                    known 0 receivers))
            ∙ ap (λ d. d.0 >> ok d.1.output) e,
      )

  module _ (ring : Keyring k) (secret_key : k.Secret) (version_validator : VersionValidator)
      (accepts : version_validator version ≡ ok tt)
      (imports : ring.import_box_ephemeral_key (k.to_kid (k.get_public_key ephemeral))
        ≡ some (k.get_public_key ephemeral))
      (owns : Owns k is_box version known ephemeral payload_key size ring receivers secret_key)
      (is_sender : IsSender k ring ephemeral sender) where
    -- What the receiver learns of the keys.
    unfoldable pub key_info : MessageKeyInfo k
    key_info = record {
      sender_key = some (k.get_public_key sender_key);
      sender_is_anon = is_none sender;
      receiver_key = some secret_key;
      receiver_is_anon = false;
      named_receivers = visible_kids k header.receivers;
      num_anon_receivers = 0;
    }

    -- The stream that is opened, for a receiver at a position with this MAC key.
    opens :
        (rest : List ℕ)
        → (position : ℕ) × (mac_key : List ℕ) × (mine : get_elem? keys position ≡ some mac_key)
          × (new_decrypt_stream k c codecs ring version_validator
                (wire_header ++ rest)
                (empty_info k)
              ≡ (
                ok (
                    at_input k c law codecs lawful header_hash payload_key keys version known
                      mac_key position mine seals rest 1),
                key_info,
              ))
    unfolding new_decrypt_stream process_header new_msgpack_stream hash_header empty_info find_key
        validate_encryption_header key_info
    opens rest =
        let public = k.get_public_key ephemeral in
        let (position, at, visible) =
          try_visible_receivers-ok k is_box version known ephemeral payload_key size ring header
            receivers secret_key refl refl owns in
        let (mac_key, mine, made) =
          get_elem?-mac_keys k is_box c sender_key ephemeral header_hash version known 0 position
            receivers (k.get_public_key secret_key) at in
        (
          position,
          mac_key,
          mine,
          and_then_ok _ (
                ap no_header (
                  read_packet-encode codecs.bytes header_bytes wire_header rest 0 lawful.bytes
                    (encodes_bytes header_bytes).1 (omega arith)))
              ∙ and_then_ok _ (
                  decode_from_bytes-encode codecs.encryption_header header header_bytes
                    lawful.encryption_header (encodes_header header).1)
              ∙ and_then_ok _ accepts
              ∙ and_then_ok _ (ap (or_error bad_ephemeral_key) imports)
              ∙ and_then_ok _ visible
              ∙ and_then_ok _ (
                  ap (or_error bad_sender_key_secretbox)
                    (law.open-seal sender_kid nonce_for_sender_key_secretbox payload_key))
              ∙ and_then_ok _ (raw_box_key_from_slice-ok sender_kid is_sender.length-to_kid)
              ∙ and_then_pair _
                  (find_sender-ok k ring ephemeral c codecs header refl sender _ is_sender refl)
              ∙ and_then_ok _ (
                  sym (
                    compute_mac_key_sender-receiver k is_box c position sender_key ephemeral
                      secret_key header_hash version known)
                  ∙ ap
                      (λ i.
                        Encrypt.compute_mac_key_sender k c version i sender_key ephemeral
                          (k.get_public_key secret_key) header_hash)
                      {x = position} {y = 0 + position} (omega arith)
                  ∙ made),
        )

    open-message :
        (plaintext : List ℕ) (cs : List (List ℕ)) (r : List ℕ) (fuel : ℕ) (sizes : ℕ → ℕ)
        → length plaintext + 2 < 2 ^ 64
        → IsLayout version plaintext cs r
        → ((i : ℕ) → 1 ≤ sizes i)
        → length plaintext < fuel
        → open_message k c codecs ring fuel sizes version_validator (message cs r)
          ≡ (ok plaintext, key_info)
    unfolding open_message message all_read
    open-message plaintext cs r fuel sizes h layout pos enough =
        let (position, mac_key, mine, e) =
          opens (wire k c law codecs header_hash payload_key keys version known seals cs r) in
        and_then_pair _ e
        ∙ and_then_ok _ (
            read_all-Yields (get_next_chunk c codecs) _ plaintext eof sizes fuel
              (chunks k c law codecs lawful header_hash payload_key keys version known mac_key
                position mine seals plaintext cs r h layout)
              pos enough)

    pub open_message-seal :
        (rng : EncryptRng k) (given : List k.Public) (plaintext : List ℕ) (fuel : ℕ) (sizes : ℕ → ℕ)
        → check_encrypt_receivers k given ≡ ok tt
        → rng.shuffle_receivers given ≡ ok receivers
        → rng.create_symmetric_key ≡ ok payload_key
        → length plaintext + 2 < 2 ^ 64
        → ((i : ℕ) → 1 ≤ sizes i)
        → length plaintext < fuel
        → (ciphertext : List ℕ) × (Encrypt.seal k c codecs version plaintext sender given
              (ok ephemeral)
              rng
            ≡ ok ciphertext)
          × (open_message k c codecs ring fuel sizes version_validator ciphertext
              ≡ (ok plaintext, key_info))
    open_message-seal rng given plaintext fuel sizes valid shuffled created h pos enough =
        let (cs, r, layout, e) = seal-message rng given plaintext valid shuffled created h in
        (message cs r, e, open-message plaintext cs r fuel sizes h layout pos enough)
