-- ===== src/Signcrypt/Senders.antt =====
-- signcrypt_seal.go and signcrypt_open.go: the sender of a message, anonymous or not.
use saltpack.Base.{
  ℕ, ◌≡◌, ◌≢◌, refl, sym, ap, ◌∙◌, true, inl, inr, Bool-cases, Option, none, some, List, length,
  length-replicate, replicate, ◌==◌, not, eq_bytes, eq_bytes_iff, if◌then◌else◌,
}
use saltpack.Errors.{ok, ◌>>◌, panic_if}
use saltpack.Key.{Crypto, SigningKeys}
use saltpack.Packets.{Codecs, Encodes}
use saltpack.Common.{compute_signcryption_signature_input}
use saltpack.Signcrypt.Keys.{signature_size, public_key_size}
use saltpack.Signcrypt.Sealing.{sender_key_bytes, detached_sig}
use saltpack.Signcrypt.Opening.{known_signer, find_signer}
use saltpack.Signcrypt.Runs.{Seals, nonce_of}
use saltpack.Signcrypt.Chunks.{signer_of}

module _ (s : SigningKeys) (lookup_signing_public_key : List ℕ → Option s.Public) where
  -- A sender that the receiver knows: its signatures do not fail and have 64 bytes, its key ID has
  -- 32 bytes that are not all zero, and the keyring has it.
  pub record IsKnownSender (signing_key : s.Secret) : Type 0 where
    pub signs :
        (m : List ℕ)
        → (sig : List ℕ) × (s.sign signing_key m ≡ ok sig) × (length sig ≡ signature_size)
    pub length-to_kid : length (s.to_kid (s.get_public_key signing_key)) ≡ public_key_size
    pub not_zero : s.to_kid (s.get_public_key signing_key) ≢ replicate public_key_size 0
    pub in_keyring :
        lookup_signing_public_key (s.to_kid (s.get_public_key signing_key))
        ≡ some (s.get_public_key signing_key)

  abbrev pub IsSender : Option s.Secret → Type 0
  IsSender none = Unit {0}
  IsSender (some signing_key) = IsKnownSender signing_key

  -- What the header's secretbox holds.
  abbrev pub sender_bytes : Option s.Secret → List ℕ
  sender_bytes none = replicate public_key_size 0
  sender_bytes (some signing_key) = s.to_kid (s.get_public_key signing_key)

  pub sender_key_bytes-ok :
      (sender : Option s.Secret)
      → IsSender sender
      → sender_key_bytes s sender ≡ ok (sender_bytes sender)
  unfolding sender_key_bytes
  sender_key_bytes-ok none known = refl
  sender_key_bytes-ok (some key) known =
      ap (λ n. panic_if (not (n == public_key_size)) >> ok (s.to_kid (s.get_public_key key)))
        known.length-to_kid

  pub find_signer-sender_bytes :
      (sender : Option s.Secret)
      → IsSender sender
      → find_signer s lookup_signing_public_key (sender_bytes sender) ≡ ok (signer_of s sender)
  unfolding find_signer known_signer
  find_signer-sender_bytes none known = refl
  find_signer-sender_bytes (some key) known =
      let kid = s.to_kid (s.get_public_key key) in
      ap
        (λ n.
          if eq_bytes (replicate n 0) kid
          then ok (none, true)
          else known_signer s kid (lookup_signing_public_key kid))
        known.length-to_kid
      ∙ elim (Bool-cases (eq_bytes (replicate public_key_size 0) kid)) [
        | inl same ↦
            absurd (known.not_zero (sym ((eq_bytes_iff (replicate public_key_size 0) kid).0 same)))
        | inr other ↦
            ap
              (λ b.
                if b then ok (none, true) else known_signer s kid (lookup_signing_public_key kid))
              other
            ∙ ap (known_signer s kid) known.in_keyring
      ]

  -- Every block can be signed and encoded.
  pub seal :
      (c : Crypto) (codecs : Codecs) (header_hash encryption_key : List ℕ)
      → Encodes codecs.signcryption_block
      → (sender : Option s.Secret) → IsSender sender
      → Seals s c codecs header_hash encryption_key sender
  unfolding detached_sig
  seal c codecs header_hash encryption_key encodes none known n chunk is_final =
      let (bytes, e) = encodes _ in
      record {
        sig = replicate signature_size 0;
        bytes = bytes;
        signs = refl;
        size = length-replicate {A = ℕ} signature_size 0;
        encodes = e;
      }
  seal c codecs header_hash encryption_key encodes (some key) known n chunk is_final =
      let (sig, signed, size) = known.signs (
        compute_signcryption_signature_input c header_hash
          (nonce_of s c codecs header_hash encryption_key (some key) n is_final) is_final chunk) in
      let (bytes, e) = encodes _ in
      record { sig = sig; bytes = bytes; signs = signed; size = size; encodes = e }
