-- ===== src/Signcrypt/Chunks.antt =====
-- signcrypt_open.go: the chunks that a signcrypted stream gives.
use saltpack.Base.{
  ℕ, ◌+◌, ◌≤◌, ◌<◌, ◌^◌, ◌≡◌, refl, sym, ap, ap₂, ◌∙◌, arith, Bool, true, false, List, [], ◌++◌,
  append-nil, Option, none, some, length, length-append, take, drop, take-append, drop-append,
  le→ltb,
}
use saltpack.Const.{version2}
use saltpack.Errors.{ok, ◌>>=◌, ◌>>◌, >>=_ok, fail_if, bad_ciphertext, eof}
use saltpack.Key.{Crypto, IsCrypto, SigningKeys, IsSigningKeys}
use saltpack.Nonce.{nonce_for_chunk_signcryption}
use saltpack.Packets.{
  Codecs, AreLawful, SigncryptionBlock, read_packet, read_packet-encode, or_end,
  assert_end_of_stream,
}
use saltpack.Common.{
  check_block_number, check_chunk_state, check_decoded_chunk_state,
  compute_signcryption_signature_input, prev_uint64,
}
use saltpack.ChunkReader.Laws.{Yields}
use saltpack.Blocks.Layout.{IsLayout, IsLayout-count}
use saltpack.Blocks.Reader.{message-Yields}
use saltpack.Decrypt.Blocks.{number_ok}
use saltpack.Signcrypt.Keys.{signature_size}
use saltpack.Signcrypt.Sealing.{detached_sig}
use saltpack.Signcrypt.Opening.{
  SigncryptOpenStream, opened_block, or_bad_signature, check_signature, process_block,
  checked_chunk, or_failed, after_read, get_next_chunk,
}
use saltpack.Signcrypt.Runs.{Sealed, Seals, packet, wire}

check-more : (n i : ℕ) → 1 ≤ n → check_chunk_state version2 n i false ≡ ok tt
unfolding check_chunk_state
check-more n i h = ground arith

check-last : (n i : ℕ) → (n ≡ 0 → i ≡ 0) → check_chunk_state version2 n i true ≡ ok tt
unfolding check_chunk_state
check-last n i h = ground arith

module _ (s : SigningKeys) where
  -- The signing key and the anonymity that the header of this sender stands for.
  abbrev pub signer_of : Option s.Secret → Option s.Public × Bool
  signer_of none = (none, true)
  signer_of (some signing_key) = (some (s.get_public_key signing_key), false)

  opened_block-ok :
      (seqno : ℕ) (attached : List ℕ)
      → signature_size ≤ length attached
      → opened_block s seqno (some attached) ≡ ok attached
  unfolding opened_block
  opened_block-ok seqno attached h =
      ap (λ t. fail_if t (bad_ciphertext seqno) >> ok attached)
        (le→ltb (length attached) signature_size h)

module _ (s : SigningKeys) (c : Crypto) (header_hash encryption_key : List ℕ) where
  -- The stream of a receiver in front of the input.
  abbrev pub stream : Option s.Secret → List ℕ → ℕ → SigncryptOpenStream s
  stream signing_key input seqno = record {
    mps = record { input = input; seqno = seqno };
    payload_key = encryption_key;
    signing_public_key = (signer_of s signing_key).0;
    sender_anonymous = (signer_of s signing_key).1;
    header_hash = header_hash;
  }

  -- The signature of the sender is accepted; nothing is checked of an anonymous one.
  check_signature-ok :
      (is_signing : IsSigningKeys s) (signing_key : Option s.Secret) (input : List ℕ) (m : ℕ)
      (nonce : List ℕ) (is_final : Bool) (chunk sig : List ℕ)
      → detached_sig s c signing_key header_hash nonce is_final chunk ≡ ok sig
      → check_signature s c (stream signing_key input m) nonce is_final chunk sig ≡ ok tt
  unfolding check_signature or_bad_signature detached_sig
  check_signature-ok is_signing none input m nonce is_final chunk sig e = refl
  check_signature-ok is_signing (some key) input m nonce is_final chunk sig e =
      ap (or_bad_signature s) (
        is_signing.verify-sign key
          (compute_signcryption_signature_input c header_hash nonce is_final chunk) sig e)

module _ (s : SigningKeys) (c : Crypto) (codecs : Codecs) (header_hash encryption_key : List ℕ)
    (signing_key : Option s.Secret) where
  abbrev pub at_input : List ℕ → ℕ → SigncryptOpenStream s
  at_input = stream s c header_hash encryption_key signing_key

  module _ (law : IsCrypto c) (is_signing : IsSigningKeys s) where
    -- A block that `signcryptBlock` has sealed gives the plaintext.
    process_block-Sealed :
        (input : List ℕ) (m n : ℕ) (chunk : List ℕ) (is_final : Bool)
        → n < 0xffffffffffffffff
        → (b : Sealed s c codecs header_hash encryption_key signing_key n chunk is_final)
        → process_block s c
            (at_input input m)
            (c.secretbox_seal
              (b.sig ++ chunk)
              (nonce_for_chunk_signcryption header_hash is_final n)
              encryption_key)
            is_final
            (n + 1)
          ≡ ok chunk
    unfolding process_block
    process_block-Sealed input m n chunk is_final h b =
        let nonce = nonce_for_chunk_signcryption header_hash is_final n in
        let ciphertext = c.secretbox_seal (b.sig ++ chunk) nonce encryption_key in
        ap
          (λ i. check_block_number i >>= λ _.
            opened_block s (n + 1) (
              c.secretbox_open ciphertext (nonce_for_chunk_signcryption header_hash is_final i)
                encryption_key)
            >>= λ attached.
                check_signature s c (at_input input m)
                  (nonce_for_chunk_signcryption header_hash is_final i) is_final
                  (drop signature_size attached) (take signature_size attached)
                >>= λ _. ok (drop signature_size attached))
          {x = prev_uint64 (n + 1)} {y = n} (omega arith)
        ∙ >>=_ok _ (number_ok c n h)
        ∙ >>=_ok _ (
            ap (opened_block s (n + 1)) (law.open-seal (b.sig ++ chunk) nonce encryption_key)
            ∙ opened_block-ok s (n + 1) (b.sig ++ chunk)
                (omega (arith, b.size, length-append b.sig chunk)))
        ∙ >>=_ok _ (
            ap₂ (λ p q. check_signature s c (at_input input m) nonce is_final p q)
              (drop-append signature_size b.sig chunk b.size)
              (take-append signature_size b.sig chunk b.size)
            ∙ check_signature-ok s c header_hash encryption_key is_signing signing_key input m nonce
                is_final chunk b.sig b.signs)
        ∙ ap ok (drop-append signature_size b.sig chunk b.size)

    module _ (lawful : AreLawful codecs)
        (seal : Seals s c codecs header_hash encryption_key signing_key) where
      abbrev packet_of : ℕ → List ℕ → Bool → List ℕ
      packet_of = packet s c codecs header_hash encryption_key signing_key law seal

      abbrev block_of : ℕ → List ℕ → Bool → SigncryptionBlock
      block_of n chunk is_final = record {
        payload_ciphertext =
            c.secretbox_seal ((seal n chunk is_final).sig ++ chunk)
              (nonce_for_chunk_signcryption header_hash is_final n) encryption_key;
        is_final = is_final;
      }

      reads :
          (n : ℕ) (chunk : List ℕ) (is_final : Bool) (rest : List ℕ)
          → n + 2 < 2 ^ 64
          → read_packet codecs.signcryption_block
              (record { input = packet_of n chunk is_final ++ rest; seqno = n + 1 })
            ≡ ok (block_of n chunk is_final, n + 1, record { input = rest; seqno = n + 2 })
      reads n chunk is_final rest l =
          read_packet-encode codecs.signcryption_block (block_of n chunk is_final)
            (packet_of n chunk is_final) rest (n + 1) lawful.signcryption_block
            (seal n chunk is_final).encodes (omega arith)
          ∙ ap (λ m. ok (block_of n chunk is_final, n + 1, record { input = rest; seqno = m }))
              {x = n + 1 + 1} {y = n + 2} (omega arith)

      checks_state :
          (n : ℕ) (chunk : List ℕ) (is_final : Bool)
          → n + 1 < 2 ^ 64
          → check_chunk_state version2 (length chunk) n is_final ≡ ok tt
          → check_decoded_chunk_state version2 chunk (n + 1) is_final ≡ ok tt
      unfolding check_decoded_chunk_state
      checks_state n chunk is_final h e =
          ap (λ i. check_chunk_state version2 (length chunk) i is_final) {x = prev_uint64 (n + 1)}
            {y = n} (omega arith)
          ∙ e

      next-more :
          (n : ℕ) (chunk rest : List ℕ)
          → 1 ≤ length chunk
          → n + 2 < 2 ^ 64
          → get_next_chunk s c codecs (at_input (packet_of n chunk false ++ rest) (n + 1))
            ≡ (ok (record { bytes = chunk; error = none }), at_input rest (n + 2))
      unfolding get_next_chunk after_read checked_chunk or_failed
      next-more n chunk rest h l =
          ap (after_read s c codecs (at_input (packet_of n chunk false ++ rest) (n + 1)))
            (reads n chunk false rest l)
          ∙ ap (λ r. (or_failed s c codecs r, at_input rest (n + 2)))
              (>>=_ok _ (
                  process_block-Sealed rest (n + 2) n chunk false (omega arith)
                    (seal n chunk false))
                ∙ >>=_ok _
                    (checks_state n chunk false (omega arith) (check-more (length chunk) n h)))

      next-last :
          (n : ℕ) (chunk : List ℕ)
          → (length chunk ≡ 0 → n ≡ 0)
          → n + 2 < 2 ^ 64
          → get_next_chunk s c codecs (at_input (packet_of n chunk true) (n + 1))
            ≡ (ok (record { bytes = chunk; error = some eof }), at_input [] (n + 2))
      unfolding get_next_chunk after_read checked_chunk or_failed assert_end_of_stream
      next-last n chunk h l =
          ap (λ t. get_next_chunk s c codecs (at_input t (n + 1)))
            (sym (append-nil (packet_of n chunk true)))
          ∙ ap (after_read s c codecs (at_input (packet_of n chunk true ++ []) (n + 1)))
              (reads n chunk true [] l)
          ∙ ap (λ r. (or_failed s c codecs r, at_input [] (n + 2)))
              (>>=_ok _
                  (process_block-Sealed [] (n + 2) n chunk true (omega arith) (seal n chunk true))
                ∙ >>=_ok _ (checks_state n chunk true (omega arith) (check-last (length chunk) n h))
                ∙ ap (λ r. or_end r >>= λ e. ok (record { bytes = chunk; error = some e }))
                    lawful.any-nil)

      -- A message as `Write` and `Close` leave it yields its plaintext.
      pub chunks :
          (plaintext : List ℕ) (cs : List (List ℕ)) (r : List ℕ)
          → length plaintext + 2 < 2 ^ 64
          → IsLayout version2 plaintext cs r
          → Yields
              (get_next_chunk s c codecs)
              (at_input (wire s c codecs header_hash encryption_key signing_key law seal cs r) 1)
              plaintext
              eof
      chunks plaintext cs r h layout =
          message-Yields (get_next_chunk s c codecs) at_input packet_of
            (λ n r. length r ≡ 0 → n ≡ 0) next-more next-last plaintext cs r layout.joins
            layout.nonempty (layout.final_v2 refl) (omega (arith, IsLayout-count cs r layout))
