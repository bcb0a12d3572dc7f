-- ===== src/Signcrypt/Finding.antt =====
-- signcrypt_open.go: how a receiver finds the payload key. A nil `BoxPublicKey` on which a method is
-- called panics.
use saltpack.Base.{
  ℕ, ◌+◌, not, Option, none, some, List, [], ◌∷◌, map, length, ◌==◌, eq_bytes, get_elem?,
  if◌then◌else◌,
}
use saltpack.Errors.{
  Result, ok, err, panic, ◌>>=◌, ◌>>◌, fail_if, decryption_failed, wrong_number_of_keys,
  no_decryption_key,
}
use saltpack.Key.{Crypto, BoxKeys, symmetric_key_from_slice}
use saltpack.Nonce.{nonce_for_payload_key_box_v2}
use saltpack.Packets.{ReceiverKeys, EncryptionHeader}
use saltpack.Decrypt.{Keyring}
use saltpack.Signcrypt.Keys.{
  derived_ephemeral_key_from_box_keys, key_identifier_from_derived_key, derived_symmetric_key,
}

-- `SymmetricKeyResolver`: for each identifier a key, or nil.
abbrev pub SymmetricKeyResolver : Type 0
SymmetricKeyResolver = List (List ℕ) → Result (List (Option (List ℕ)))

-- A method called on a nil interface.
abbrev pub or_nil {ℓ} : {A : Type ℓ} → Option A → Result A
or_nil none = panic
or_nil (some a) = ok a

module _ (c : Crypto) where
  -- What `secretbox.Open` of a payload key box gave.
  unfoldable pub opened_payload_key : Option (List ℕ) → Result (Option (List ℕ))
  opened_payload_key none = err decryption_failed
  opened_payload_key (some payload_key) = do
    key ← symmetric_key_from_slice payload_key
    ok (some key)

  unfoldable pub open_payload_key_box : ℕ → List ℕ → List ℕ → Result (Option (List ℕ))
  open_payload_key_box index payload_key_box derived_key =
      opened_payload_key
        (c.secretbox_open payload_key_box (nonce_for_payload_key_box_v2 index) derived_key)

  module _ (k : BoxKeys) where
    unfoldable pub derive_keys : Option k.Public → List k.Secret → Result (List (List ℕ))
    derive_keys ephemeral_pub [] = ok []
    derive_keys ephemeral_pub (secret_key ∷ secret_keys) = do
      public ← or_nil ephemeral_pub
      derived_key ← derived_ephemeral_key_from_box_keys k public secret_key
      rest ← derive_keys ephemeral_pub secret_keys
      ok (derived_key ∷ rest)

    -- The inner loop of `tryBoxSecretKeys`; `next` goes on with the receivers that are left.
    unfoldable pub try_derived_keys :
        ℕ → ReceiverKeys → Result (Option (List ℕ)) → List (List ℕ) → Result (Option (List ℕ))
    try_derived_keys index receiver next [] = next
    try_derived_keys index receiver next (derived_key ∷ derived_keys) =
        let rest = try_derived_keys index receiver next derived_keys in
        if eq_bytes (key_identifier_from_derived_key k c derived_key index) receiver.receiver_kid
        then open_payload_key_box index receiver.payload_key_box derived_key
        else rest

    unfoldable pub try_receivers : List (List ℕ) → ℕ → List ReceiverKeys → Result (Option (List ℕ))
    try_receivers derived_keys index [] = ok none
    try_receivers derived_keys index (receiver ∷ receivers) =
        try_derived_keys index receiver (try_receivers derived_keys (index + 1) receivers)
          derived_keys

    unfoldable pub try_box_secret_keys :
        List k.Secret → EncryptionHeader → Option k.Public → Result (Option (List ℕ))
    try_box_secret_keys secret_keys hdr ephemeral_pub = do
      derived_keys ← derive_keys ephemeral_pub secret_keys
      try_receivers derived_keys 0 hdr.receivers

    -- The loop over the resolved keys, from number `index` on.
    unfoldable pub try_resolved_keys :
        EncryptionHeader → Option k.Public → ℕ → List (Option (List ℕ)) → Result (Option (List ℕ))
    try_resolved_keys hdr ephemeral_pub index [] = ok none
    try_resolved_keys hdr ephemeral_pub index (none ∷ resolved) =
        try_resolved_keys hdr ephemeral_pub (index + 1) resolved
    try_resolved_keys hdr ephemeral_pub index (some key ∷ resolved) = do
      public ← or_nil ephemeral_pub
      derived_key ← derived_symmetric_key k c (k.to_kid public) key
      receiver ← or_nil (get_elem? hdr.receivers index)
      open_payload_key_box index receiver.payload_key_box derived_key

    unfoldable pub try_shared_symmetric_keys :
        Option SymmetricKeyResolver → EncryptionHeader → Option k.Public → Result (Option (List ℕ))
    try_shared_symmetric_keys none hdr ephemeral_pub = ok none
    try_shared_symmetric_keys (some resolve_keys) hdr ephemeral_pub = do
      resolved_keys ← resolve_keys (map (λ r. r.receiver_kid) hdr.receivers)
      fail_if (not (length resolved_keys == length hdr.receivers)) wrong_number_of_keys
      try_resolved_keys hdr ephemeral_pub 0 resolved_keys

    -- `if sos.payloadKey == nil`
    unfoldable pub or_try : Option (List ℕ) → Result (Option (List ℕ)) → Result (Option (List ℕ))
    or_try (some payload_key) next = ok (some payload_key)
    or_try none next = next

    unfoldable pub or_no_key : Option (List ℕ) → Result (List ℕ)
    or_no_key none = err no_decryption_key
    or_no_key (some payload_key) = ok payload_key

    unfoldable pub find_payload_key :
        Keyring k → Option SymmetricKeyResolver → EncryptionHeader → Result (List ℕ)
    find_payload_key ring resolver hdr =
        let ephemeral_pub = ring.import_box_ephemeral_key hdr.ephemeral in
        do
          boxed ← try_box_secret_keys ring.get_all_box_secret_keys hdr ephemeral_pub
          found ← or_try boxed (try_shared_symmetric_keys resolver hdr ephemeral_pub)
          or_no_key found
