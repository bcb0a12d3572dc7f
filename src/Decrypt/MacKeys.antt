-- ===== src/Decrypt/MacKeys.antt =====
-- encrypt.go and decrypt.go: the MAC key of a recipient, on the sender's side and on the
-- recipient's.
use saltpack.Base.{
  ℕ, ◌≡◌, sym, ap, ap₂, subst, true, false, List, ◌++◌, replicate, inl, inr, length, ltb, take,
  drop,
}
use saltpack.Const.{Version, version1, version2, crypto_auth_key_bytes}
use saltpack.Errors.{ok, ◌>>=◌, ◌>>◌, panic_if}
use saltpack.Key.{Crypto, BoxKeys, IsBoxKeys, secretbox_overhead}
use saltpack.Nonce.{nonce_for_mac_key_box_v1, nonce_for_mac_key_box_v2}
use saltpack.Common.{compute_mac_key_single, sum512_truncate256}
use saltpack.Encrypt.{compute_mac_key_sender}
use saltpack.Decrypt.{compute_mac_key_receiver}
use saltpack.Sign.Stream.{IsKnown}

module _ (k : BoxKeys) (law : IsBoxKeys k) where
  swap :
      (s r : k.Secret) (nonce : List ℕ)
      → compute_mac_key_single k s (k.get_public_key r) nonce
        ≡ compute_mac_key_single k r (k.get_public_key s) nonce
  unfolding compute_mac_key_single
  swap s r nonce =
      ap
        (λ b.
          panic_if (ltb (length b) 48)
          >> ok (take crypto_auth_key_bytes (drop secretbox_overhead b)))
        (law.box_comm s r nonce (replicate crypto_auth_key_bytes 0))

  module _ (c : Crypto) (index : ℕ) (sender ephemeral recipient : k.Secret)
      (header_hash : List ℕ) where
    abbrev Agrees : Version → Type 0
    Agrees version =
        compute_mac_key_sender k c version index sender ephemeral (k.get_public_key recipient)
          header_hash
        ≡ compute_mac_key_receiver k c version index recipient (k.get_public_key sender)
            (k.get_public_key ephemeral) header_hash

    Agrees-v1 : Agrees version1
    unfolding compute_mac_key_sender compute_mac_key_receiver
    Agrees-v1 = swap sender recipient (nonce_for_mac_key_box_v1 header_hash)

    Agrees-v2 : Agrees version2
    unfolding compute_mac_key_sender compute_mac_key_receiver
    Agrees-v2 =
        ap₂ (λ m e. m >>= λ mac. e >>= λ e_mac. ok (sum512_truncate256 c (mac ++ e_mac)))
          (swap sender recipient (nonce_for_mac_key_box_v2 header_hash false index))
          (swap ephemeral recipient (nonce_for_mac_key_box_v2 header_hash true index))

    -- In version 1 or 2, for keys that meet their laws, the sender, from its own and the ephemeral
    -- secret key, and the recipient, from its secret key and the two public keys, compute the same
    -- MAC key at the same position and header hash.
    pub compute_mac_key_sender-receiver :
        (version : Version)
        → IsKnown version
        → compute_mac_key_sender k c version index sender ephemeral
            (k.get_public_key recipient)
            header_hash
          ≡ compute_mac_key_receiver k c version index recipient
              (k.get_public_key sender)
              (k.get_public_key ephemeral)
              header_hash
    compute_mac_key_sender-receiver version (inl e) = subst Agrees (sym e) Agrees-v1
    compute_mac_key_sender-receiver version (inr e) = subst Agrees (sym e) Agrees-v2
