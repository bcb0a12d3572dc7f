-- ===== src/Signcrypt/Search.antt =====
-- signcrypt_open.go: the search of a receiver with a box key through the receivers of a message.
use saltpack.Base.{
  ℕ, ◌+◌, ◌≡◌, ◌⊎◌, refl, sym, ap, ◌∙◌, inl, inr, Option, some, List, [], ◌∷◌, map, length, All,
}
use saltpack.Errors.{Result, ok, >>=_ok}
use saltpack.Key.{Crypto, IsCrypto, BoxKeys, IsBoxKeys}
use saltpack.Packets.{ReceiverKeys, EncryptionHeader}
use saltpack.Decrypt.{Keyring}
use saltpack.Signcrypt.Keys.{ReceiverKeysMaker, receiver_box_key, key_identifier_from_derived_key}
use saltpack.Signcrypt.Finding.{
  SymmetricKeyResolver, derive_keys, try_derived_keys, try_receivers, try_box_secret_keys, or_try,
  or_no_key, find_payload_key,
}
use saltpack.Signcrypt.Receivers.{
  key_size, derived_of_comm, derived_ephemeral_key_from_box_keys-ok, entry, entries, mine,
  TellsApart, try_one,
}
use mathlib.Core.List.{Memᴰ}
use mathlib.Core.List.Memᴰ.{head, tail}

module _ (k : BoxKeys) (is_box : IsBoxKeys k) (c : Crypto) (law : IsCrypto c) (ephemeral : k.Secret)
    (payload_key : List ℕ) (size : length payload_key ≡ key_size) where
  abbrev entry_of : ℕ → ReceiverKeysMaker k → ReceiverKeys
  entry_of = entry k is_box c law ephemeral payload_key size

  abbrev derived : k.Secret → List ℕ
  derived = mine k is_box c law ephemeral payload_key size

  abbrev pub Apart : k.Secret → ReceiverKeysMaker k → Type 0
  Apart = TellsApart k is_box c law ephemeral payload_key size

  -- A secret key that the receiver's entry names.
  abbrev Named : List k.Secret → ReceiverKeysMaker k → ℕ → Type 0
  Named sks m i =
      (sk : k.Secret) × Memᴰ sk sks
      × (key_identifier_from_derived_key k c (derived sk) i ≡ (entry_of i m).receiver_kid)

  try-All :
      (sks : List k.Secret) (m : ReceiverKeysMaker k) (i : ℕ) (next : Result (Option (List ℕ)))
      → All (λ sk. Apart sk m) sks
      → (next ≡ ok (some payload_key)) ⊎ Named sks m i
      → try_derived_keys c k i (entry_of i m) next (map derived sks) ≡ ok (some payload_key)
  unfolding try_derived_keys
  try-All [] m i next apart (inl e) = e
  try-All [] m i next apart (inr (sk, mem, e)) = elim mem [ ]
  try-All (sk ∷ sks) m i next apart found =
      try_one k is_box c law ephemeral payload_key size sk m i next (map derived sks) apart.0
        (λ other. try-All sks m i next apart.1 (elim found [
          | inl e ↦ inl e
          | inr (s, mem, e) ↦ elim mem [
            | head same ↦
                absurd (
                  other
                    (ap (λ t. key_identifier_from_derived_key k c (derived t) i) (sym same) ∙ e))
            | tail later ↦ inr (s, later, e)
          ]
        ]))

  module _ (sks : List k.Secret) (sk : k.Secret) (owned : Memᴰ sk sks) where
    try_receivers-ok :
        (i : ℕ) (ms : List (ReceiverKeysMaker k))
        → All (λ m. All (λ s. Apart s m) sks) ms
        → Memᴰ (receiver_box_key (k.get_public_key sk)) ms
        → try_receivers c k
            (map derived sks)
            i
            (entries k is_box c law ephemeral payload_key size i ms)
          ≡ ok (some payload_key)
    unfolding try_receivers
    try_receivers-ok i [] apart mem = elim mem [ ]
    try_receivers-ok i (m ∷ ms) apart (head e) = try-All sks m i _ apart.0 (
        inr (
          sk,
          owned,
          ap (λ t. key_identifier_from_derived_key k c t i) (derived_of_comm k is_box ephemeral sk)
              ∙ ap (λ t. (entry_of i t).receiver_kid) e,
        ))
    try_receivers-ok i (m ∷ ms) apart (tail mem) =
        try-All sks m i _ apart.0 (inl (try_receivers-ok (i + 1) ms apart.1 mem))

    derive_keys-ok :
        (ss : List k.Secret)
        → derive_keys c k (some (k.get_public_key ephemeral)) ss ≡ ok (map derived ss)
    unfolding derive_keys
    derive_keys-ok [] = refl
    derive_keys-ok (s ∷ ss) =
        >>=_ok _ (derived_ephemeral_key_from_box_keys-ok k is_box (k.get_public_key ephemeral) s)
        ∙ >>=_ok _ (derive_keys-ok ss)

    -- A keyring with the secret key of a receiver finds the payload key, whatever its other keys
    -- and its resolver are.
    pub find_payload_key-ok :
        (ring : Keyring k) (resolver : Option SymmetricKeyResolver) (hdr : EncryptionHeader)
        (ms : List (ReceiverKeysMaker k))
        → ring.import_box_ephemeral_key hdr.ephemeral ≡ some (k.get_public_key ephemeral)
        → ring.get_all_box_secret_keys ≡ sks
        → hdr.receivers ≡ entries k is_box c law ephemeral payload_key size 0 ms
        → All (λ m. All (λ s. Apart s m) sks) ms
        → Memᴰ (receiver_box_key (k.get_public_key sk)) ms
        → find_payload_key c k ring resolver hdr ≡ ok payload_key
    unfolding find_payload_key try_box_secret_keys or_try or_no_key
    find_payload_key-ok ring resolver hdr ms imports keys receivers apart mem =
        rw (imports, keys, receivers)
          (>>=_ok _ (>>=_ok _ (derive_keys-ok sks) ∙ try_receivers-ok 0 ms apart mem))
