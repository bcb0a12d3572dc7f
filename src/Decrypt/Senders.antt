-- ===== src/Decrypt/Senders.antt =====
-- encrypt.go and decrypt.go: the sender of a message, anonymous or not.
use saltpack.Base.{
  ℕ, ◌≡◌, ◌≢◌, refl, sym, ap, ◌∙◌, Bool, true, false, inl, inr, Bool-cases, Option, none, some,
  List, length, eq_bytes, eq_bytes_iff, if◌then◌else◌,
}
use saltpack.Errors.{ok, no_sender_key}
use saltpack.State.{St, ◌>>=◌, ◌>>◌, lift, modify}
use saltpack.Key.{Crypto, BoxKeys}
use saltpack.Packets.{Codecs, EncryptionHeader}
use saltpack.Encrypt.{sender_or}
use saltpack.Signcrypt.Receivers.{key_size}
use saltpack.Decrypt.{Keyring, MessageKeyInfo}
use saltpack.Decrypt.Header.{or_error, find_sender}

abbrev pub is_none : {A : Type 0} → Option A → Bool
is_none none = true
is_none (some a) = false

module _ (k : BoxKeys) (ring : Keyring k) (ephemeral : k.Secret) where
  -- The sender's key ID has 32 bytes. A sender that is named is in the keyring, and its key ID is not
  -- that of the ephemeral key.
  pub record IsSender (sender : Option k.Secret) : Type 0 where
    pub length-to_kid : length (k.to_kid (k.get_public_key (sender_or ephemeral sender))) ≡ key_size
    pub is_known :
        (key : k.Secret)
        → sender ≡ some key
        → (k.to_kid (k.get_public_key ephemeral) ≢ k.to_kid (k.get_public_key key))
          × (ring.lookup_box_public_key (k.to_kid (k.get_public_key key))
              ≡ some (k.get_public_key key))

  module _ (c : Crypto) (codecs : Codecs) (hdr : EncryptionHeader)
      (from : hdr.ephemeral ≡ k.to_kid (k.get_public_key ephemeral)) where
    -- What `find_sender` does, by the outcome of its test.
    abbrev by_test : k.Public → List ℕ → Bool → St (MessageKeyInfo k) k.Public
    by_test public kid anonymous =
        let unnamed : St (MessageKeyInfo k) k.Public = do
          modify (λ mki. record mki { sender_is_anon = true; sender_key = some public })
          lift (ok public)
        in let named : St (MessageKeyInfo k) k.Public = do
          key ← lift (or_error (no_sender_key kid) (ring.lookup_box_public_key kid))
          modify (λ mki. record mki { sender_key = some key })
          lift (ok key)
          in if anonymous then unnamed else named

    pub find_sender-ok :
        (sender : Option k.Secret) (info : MessageKeyInfo k)
        → IsSender sender
        → info.sender_is_anon ≡ false
        → find_sender k c codecs ring hdr
            (k.get_public_key ephemeral)
            (k.to_kid (k.get_public_key (sender_or ephemeral sender)))
            info
          ≡ (
            ok (k.get_public_key (sender_or ephemeral sender)),
            record info {
              sender_is_anon = is_none sender;
              sender_key = some (k.get_public_key (sender_or ephemeral sender));
            },
          )
    unfolding find_sender
    find_sender-ok none info is_sender fresh =
        let public = k.get_public_key ephemeral in
        ap (λ b. by_test public (k.to_kid public) b info)
          ((eq_bytes_iff hdr.ephemeral (k.to_kid public)).1 from)
    find_sender-ok (some key) info is_sender fresh =
        let public = k.get_public_key key in
        let (other, listed) = is_sender.is_known key refl in
        elim (Bool-cases (eq_bytes hdr.ephemeral (k.to_kid public))) [
          | inl same ↦
              absurd (other (sym from ∙ (eq_bytes_iff hdr.ephemeral (k.to_kid public)).0 same))
          | inr named ↦
              ap (λ b. by_test (k.get_public_key ephemeral) (k.to_kid public) b info) named
              ∙ ap
                  (λ o.
                    (do
                      found ← lift (or_error (no_sender_key (k.to_kid public)) o)
                      modify (λ mki. record mki { sender_key = some found })
                      lift (ok found))
                      info)
                  listed
              ∙ ap (λ b. (ok public, record info { sender_is_anon = b; sender_key = some public }))
                  fresh
        ]
