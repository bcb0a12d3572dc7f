-- ===== src/Signcrypt/RoundTrip.antt =====
-- signcrypt_seal.go and signcrypt_open.go: a message on its way from the sealing stream
-- to a receiver with a box key.
use saltpack.Base.{
  ℕ, ◌+◌, ◌≤◌, ◌<◌, ◌^◌, ◌≡◌, refl, ap, ◌∙◌, arith, Option, some, List, ◌++◌, length, All,
}
use saltpack.Const.{version2, format_name, message_type_signcryption}
use saltpack.Errors.{ok, ◌>>◌, >>=_ok, eof}
use saltpack.Key.{Crypto, IsCrypto, BoxKeys, IsBoxKeys, SigningKeys, IsSigningKeys}
use saltpack.Nonce.{nonce_for_sender_key_secretbox}
use saltpack.Packets.{
  Codecs, AreLawful, Encodes, EncryptionHeader, validate_signcryption_header, new_msgpack_stream,
  read_packet-encode, decode_from_bytes-encode,
}
use saltpack.ChunkReader.Laws.{read_all-Yields}
use saltpack.Blocks.Layout.{IsLayout}
use saltpack.Verify.{or_no_header}
use saltpack.Decrypt.{Keyring}
use saltpack.Signcrypt.Keys.{
  ReceiverSymmetricKey, ReceiverKeysMaker, receiver_box_key, SigncryptRng,
  check_signcrypt_receivers,
}
use saltpack.Signcrypt.Sealing.{new_signcrypt_seal_stream, signcrypt_seal}
use saltpack.Signcrypt.Finding.{SymmetricKeyResolver, find_payload_key}
use saltpack.Signcrypt.Opening.{
  opened_sender, process_header, get_next_chunk, new_signcrypt_open_stream, signcrypt_open,
}
use saltpack.Signcrypt.Runs.{Seals, wire, run_one}
use saltpack.Signcrypt.Chunks.{signer_of, stream, chunks}
use saltpack.Signcrypt.Receivers.{key_size, entries, make_all_receiver_keys-ok}
use saltpack.Signcrypt.Search.{Apart, find_payload_key-ok}
use saltpack.Signcrypt.Senders.{
  IsSender, sender_bytes, sender_key_bytes-ok, find_signer-sender_bytes, seal,
}
use mathlib.Core.List.{Memᴰ}

module _ (k : BoxKeys) (is_box : IsBoxKeys k) (s : SigningKeys) (is_signing : IsSigningKeys s)
    (c : Crypto) (law : IsCrypto c) (codecs : Codecs) (lawful : AreLawful codecs)
    (encodes_bytes : Encodes codecs.bytes) (encodes_header : Encodes codecs.encryption_header)
    (encodes_block : Encodes codecs.signcryption_block) (ephemeral : k.Secret)
    (payload_key : List ℕ) (size : length payload_key ≡ key_size)
    (makers : List (ReceiverKeysMaker k)) (sender : Option s.Secret)
    (lookup_signing_public_key : List ℕ → Option s.Public)
    (known : IsSender s lookup_signing_public_key sender) where
  abbrev header : EncryptionHeader
  header = record {
    format_name = format_name;
    version = version2;
    type = message_type_signcryption;
    ephemeral = k.to_kid (k.get_public_key ephemeral);
    sender_secretbox =
        c.secretbox_seal (sender_bytes s lookup_signing_public_key sender)
          nonce_for_sender_key_secretbox payload_key;
    receivers = entries k is_box c law ephemeral payload_key size 0 makers;
  }

  abbrev header_bytes : List ℕ
  header_bytes = (encodes_header header).0

  abbrev wire_header : List ℕ
  wire_header = (encodes_bytes header_bytes).0

  header_hash : List ℕ
  header_hash = c.sha512 header_bytes

  seals : Seals s c codecs header_hash payload_key sender
  seals =
      seal s lookup_signing_public_key c codecs header_hash payload_key encodes_block sender known

  -- The message of a layout.
  message : List (List ℕ) → List ℕ → List ℕ
  message cs r = wire_header ++ wire s c codecs header_hash payload_key sender law seals cs r

  seal-message :
      (rng : SigncryptRng k) (box_keys : List k.Public) (symmetric_keys : List ReceiverSymmetricKey)
      (plaintext : List ℕ)
      → check_signcrypt_receivers k box_keys symmetric_keys ≡ ok tt
      → rng.shuffle_receivers box_keys symmetric_keys ≡ ok makers
      → rng.create_symmetric_key ≡ ok payload_key
      → length plaintext + 2 < 2 ^ 64
      → (cs : List (List ℕ)) × (r : List ℕ) × IsLayout version2 plaintext cs r
        × (signcrypt_seal s c codecs k plaintext sender box_keys symmetric_keys (ok ephemeral) rng
            ≡ ok (message cs r))
  unfolding signcrypt_seal new_signcrypt_seal_stream message header_hash
  seal-message rng box_keys symmetric_keys plaintext valid shuffled created h =
      let (cs, r, layout, e) =
        run_one s c codecs header_hash payload_key sender law seals wire_header plaintext h in
      (
        cs,
        r,
        layout,
        >>=_ok _ (
              >>=_ok _ valid
              ∙ >>=_ok _ shuffled
              ∙ >>=_ok _ created
              ∙ >>=_ok _ (sender_key_bytes-ok s lookup_signing_public_key sender known)
              ∙ >>=_ok _
                  (make_all_receiver_keys-ok k is_box c law ephemeral payload_key size 0 makers)
              ∙ >>=_ok _ (encodes_header header).1
              ∙ >>=_ok _ (encodes_bytes header_bytes).1)
            ∙ ap (λ d. d.0 >> ok d.1.output) e,
      )

  module _ (ring : Keyring k) (resolver : Option SymmetricKeyResolver)
      (finds : find_payload_key c k ring resolver header ≡ ok payload_key) where
    process_header-ok :
        process_header s c codecs k ring lookup_signing_public_key resolver header
        ≡ ok (payload_key, (signer_of s sender).0, (signer_of s sender).1)
    unfolding process_header validate_signcryption_header opened_sender
    process_header-ok =
        >>=_ok _ finds
        ∙ >>=_ok _ (
            ap (opened_sender s) (
              law.open-seal (sender_bytes s lookup_signing_public_key sender)
                nonce_for_sender_key_secretbox payload_key))
        ∙ >>=_ok _ (find_signer-sender_bytes s lookup_signing_public_key sender known)

    open_stream-ok :
        (rest : List ℕ)
        → new_signcrypt_open_stream s c codecs k ring lookup_signing_public_key resolver
            (wire_header ++ rest)
          ≡ ok (stream s c header_hash payload_key sender rest 1)
    unfolding new_signcrypt_open_stream new_msgpack_stream header_hash
    open_stream-ok rest =
        >>=_ok _ (
          ap or_no_header (
            read_packet-encode codecs.bytes header_bytes wire_header rest 0 lawful.bytes
              (encodes_bytes header_bytes).1 (omega arith)))
        ∙ >>=_ok _ (
            decode_from_bytes-encode codecs.encryption_header header header_bytes
              lawful.encryption_header (encodes_header header).1)
        ∙ >>=_ok _ process_header-ok

    open-message :
        (plaintext : List ℕ) (cs : List (List ℕ)) (r : List ℕ) (fuel : ℕ) (sizes : ℕ → ℕ)
        → length plaintext + 2 < 2 ^ 64
        → IsLayout version2 plaintext cs r
        → ((i : ℕ) → 1 ≤ sizes i)
        → length plaintext < fuel
        → signcrypt_open s c codecs k ring lookup_signing_public_key resolver fuel sizes
            (message cs r)
          ≡ ok ((signer_of s sender).0, plaintext)
    unfolding signcrypt_open message
    open-message plaintext cs r fuel sizes h layout pos enough =
        >>=_ok _ (open_stream-ok (wire s c codecs header_hash payload_key sender law seals cs r))
        ∙ >>=_ok _ (
            read_all-Yields (get_next_chunk s c codecs) _ plaintext eof sizes fuel
              (chunks s c codecs header_hash payload_key sender law is_signing lawful seals
                plaintext cs r h layout)
              pos enough)

  -- Signcryption and its opening by a receiver with a box key: for a plaintext shorter than
  -- 2^64 - 2 bytes, codecs, keys and cryptography that meet their laws, receivers that pass the
  -- check and are shuffled into `makers`, a payload key of 32 bytes, a sender that is anonymous or
  -- that the receiver knows, and a keyring that imports the ephemeral key and holds the secret key of
  -- one of the receivers, where the identifiers tell the keys of that keyring apart from those of
  -- the receivers: `SigncryptSeal` succeeds, and `SigncryptOpen` of its output gives the sender's key
  -- (nil for an anonymous one) and the plaintext, whatever the sizes of the buffers that the reads
  -- get, on fuel above the length of the plaintext.
  pub signcrypt_open-signcrypt_seal :
      (rng : SigncryptRng k) (box_keys : List k.Public) (symmetric_keys : List ReceiverSymmetricKey)
      (ring : Keyring k) (resolver : Option SymmetricKeyResolver) (secret_key : k.Secret)
      (plaintext : List ℕ) (fuel : ℕ) (sizes : ℕ → ℕ)
      → check_signcrypt_receivers k box_keys symmetric_keys ≡ ok tt
      → rng.shuffle_receivers box_keys symmetric_keys ≡ ok makers
      → rng.create_symmetric_key ≡ ok payload_key
      → ring.import_box_ephemeral_key (k.to_kid (k.get_public_key ephemeral))
        ≡ some (k.get_public_key ephemeral)
      → Memᴰ secret_key ring.get_all_box_secret_keys
      → Memᴰ (receiver_box_key (k.get_public_key secret_key)) makers
      → All
          (λ m.
            All
              (λ sk. Apart k is_box c law ephemeral payload_key size sk m)
              ring.get_all_box_secret_keys)
          makers
      → length plaintext + 2 < 2 ^ 64
      → ((i : ℕ) → 1 ≤ sizes i)
      → length plaintext < fuel
      → (ciphertext : List ℕ) × (signcrypt_seal s c codecs k plaintext sender box_keys
            symmetric_keys
            (ok ephemeral)
            rng
          ≡ ok ciphertext)
        × (signcrypt_open s c codecs k ring lookup_signing_public_key resolver fuel sizes ciphertext
            ≡ ok ((signer_of s sender).0, plaintext))
  signcrypt_open-signcrypt_seal rng box_keys symmetric_keys ring resolver secret_key plaintext fuel
        sizes valid shuffled created imports owned receiver apart h pos enough =
      let (cs, r, layout, e) =
        seal-message rng box_keys symmetric_keys plaintext valid shuffled created h in
      (
        message cs r,
        e,
        open-message ring resolver
            (find_payload_key-ok k is_box c law ephemeral payload_key size
              ring.get_all_box_secret_keys secret_key owned ring resolver header makers imports refl
              refl apart receiver)
            plaintext cs r fuel sizes h layout pos enough,
      )
