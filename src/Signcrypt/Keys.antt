-- ===== src/Signcrypt/Keys.antt =====
-- signcrypt_seal.go: the receivers of a message and the keys that are made for them.
use saltpack.Base.{
  ℕ, ◌+◌, ◌-◌, ◌||◌, List, [], ◌∷◌, ◌++◌, map, length, take, drop, replicate, ltb, ◌==◌,
  if◌then◌else◌,
}
use saltpack.Const.{
  max_receiver_count, signcryption_box_key_identifier_context, signcryption_symmetric_key_context,
}
use saltpack.Errors.{Result, ok, err, ◌>>=◌, ◌>>◌, fail_if, panic_if, bad_receivers, repeated_key}
use saltpack.Key.{Crypto, BoxKeys, symmetric_key_from_slice, raw_box_key_from_slice}
use saltpack.Nonce.{nonce_for_payload_key_box_v2, nonce_for_derived_shared_key}
use saltpack.Packets.{ReceiverKeys}
use saltpack.Common.{or_panic}
use saltpack.Encrypt.{contains_kid}

-- `ed25519.SignatureSize` and `ed25519.PublicKeySize`
abbrev pub signature_size : ℕ
signature_size = 64

abbrev pub public_key_size : ℕ
public_key_size = 32

pub record ReceiverSymmetricKey : Type 0 where
  pub key : List ℕ
  pub identifier : List ℕ

-- The lengths of two slices, which are not negative.
unfoldable pub check_signcrypt_receiver_count : ℕ → ℕ → Result (Unit {0})
check_signcrypt_receiver_count c1 c2 = do
  fail_if (ltb max_receiver_count c1) bad_receivers
  fail_if (ltb max_receiver_count c2) bad_receivers
  fail_if (c1 + c2 == 0 || ltb max_receiver_count (c1 + c2)) bad_receivers

-- A loop of `checkSigncryptReceivers`: it leaves `receiverSet` with the key IDs added.
unfoldable pub add_kids : List (List ℕ) → List (List ℕ) → Result (List (List ℕ))
add_kids seen [] = ok seen
add_kids seen (kid ∷ kids) =
    let rest = add_kids (kid ∷ seen) kids in
    if contains_kid kid seen then err (repeated_key kid) else rest

module _ (k : BoxKeys) where
  unfoldable pub check_signcrypt_receivers :
      List k.Public → List ReceiverSymmetricKey → Result (Unit {0})
  check_signcrypt_receivers receiver_box_keys receiver_symmetric_keys = do
    check_signcrypt_receiver_count (length receiver_box_keys) (length receiver_symmetric_keys)
    receiver_set ← add_kids [] (map k.to_kid receiver_box_keys)
    _ ← add_kids receiver_set (map (λ r. r.identifier) receiver_symmetric_keys)
    ok tt

  -- `sharedSecretBox[len(sharedSecretBox)-32:]` panics on a shorter box.
  unfoldable pub derived_ephemeral_key_from_box_keys : k.Public → k.Secret → Result (List ℕ)
  derived_ephemeral_key_from_box_keys public private =
      let shared_secret_box = k.box private public nonce_for_derived_shared_key (replicate 32 0) in
      do
        panic_if (ltb (length shared_secret_box) 32)
        or_panic (symmetric_key_from_slice (drop (length shared_secret_box - 32) shared_secret_box))

  -- `receiverKeysMaker`
  pub data ReceiverKeysMaker : Type 0 where
    receiver_box_key : k.Public → ReceiverKeysMaker
    receiver_symmetric_key : ReceiverSymmetricKey → ReceiverKeysMaker

  -- `signcryptRNG`
  pub record SigncryptRng : Type 0 where
    pub create_symmetric_key : Result (List ℕ)
    pub shuffle_receivers :
        List k.Public → List ReceiverSymmetricKey → Result (List ReceiverKeysMaker)

  module _ (c : Crypto) where
    unfoldable pub key_identifier_from_derived_key : List ℕ → ℕ → List ℕ
    key_identifier_from_derived_key derived_key recipient_index = take 32 (
        c.hmac_sha512 signcryption_box_key_identifier_context
          (derived_key ++ nonce_for_payload_key_box_v2 recipient_index))

    -- The key of a message for a symmetric key, from the ephemeral public key's ID.
    unfoldable pub derived_symmetric_key : List ℕ → List ℕ → Result (List ℕ)
    derived_symmetric_key ephemeral_kid key = or_panic (
        raw_box_key_from_slice
          (take 32 (c.hmac_sha512 signcryption_symmetric_key_context (ephemeral_kid ++ key))))

    unfoldable pub make_receiver_keys :
        k.Secret → List ℕ → ℕ → ReceiverKeysMaker → Result ReceiverKeys
    make_receiver_keys ephemeral_priv payload_key index (receiver_box_key pk) = do
      derived_key ← derived_ephemeral_key_from_box_keys pk ephemeral_priv
      ok (record {
        receiver_kid = key_identifier_from_derived_key derived_key index;
        payload_key_box =
            c.secretbox_seal payload_key (nonce_for_payload_key_box_v2 index) derived_key;
      })
    make_receiver_keys ephemeral_priv payload_key index (receiver_symmetric_key r) = do
      derived_key ← derived_symmetric_key (k.to_kid (k.get_public_key ephemeral_priv)) r.key
      ok (record {
        receiver_kid = r.identifier;
        payload_key_box =
            c.secretbox_seal payload_key (nonce_for_payload_key_box_v2 index) derived_key;
      })

    -- The loop over the receivers in `init`, from receiver number `i` on.
    unfoldable pub make_all_receiver_keys :
        k.Secret → List ℕ → ℕ → List ReceiverKeysMaker → Result (List ReceiverKeys)
    make_all_receiver_keys ephemeral_priv payload_key i [] = ok []
    make_all_receiver_keys ephemeral_priv payload_key i (r ∷ rs) = do
      keys ← make_receiver_keys ephemeral_priv payload_key i r
      rest ← make_all_receiver_keys ephemeral_priv payload_key (i + 1) rs
      ok (keys ∷ rest)
