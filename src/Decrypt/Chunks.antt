-- ===== src/Decrypt/Chunks.antt =====
-- decrypt.go: the chunks that an encrypted stream gives.
use saltpack.Base.{
  ℕ, ◌+◌, ◌≤◌, ◌<◌, ◌^◌, ◌≡◌, refl, sym, ap, ap₂, ◌∙◌, subst, arith, Bool, true, false, List, [],
  ◌++◌, append-nil, none, some, inl, inr, length, ◌==◌, get_elem?,
}
use saltpack.Const.{Version, version1, version2}
use saltpack.Errors.{ok, ◌>>=◌, >>=_ok, eof}
use saltpack.Key.{Crypto, IsCrypto, BoxKeys, secretbox_overhead}
use saltpack.Packets.{Codecs, AreLawful, read_packet-encode, assert_end_of_stream, or_end}
use saltpack.Common.{check_chunk_state, check_decoded_chunk_state, prev_uint64}
use saltpack.ChunkReader.Laws.{Yields}
use saltpack.Blocks.Layout.{IsLayout, IsLayout-count}
use saltpack.Blocks.Reader.{message-Yields}
use saltpack.Encrypt.{make_encryption_block, encode_encryption_block}
use saltpack.Encrypt.Runs.{Seals, packet, ciphertext_of, authenticators_of}
use saltpack.Encrypt.Streaming.{wire}
use saltpack.Sign.Stream.{IsKnown}
use saltpack.Verify.Stream.{check-more, check-last}
use saltpack.Decrypt.{
  DecryptStream, ReadBlock, process_block, read_encryption_block, checked_chunk, or_failed,
  after_read, get_next_chunk,
}
use saltpack.Decrypt.Blocks.{process_block-encrypted}

overhead_only : (n m : ℕ) → m ≡ n + secretbox_overhead → (m == secretbox_overhead) ≡ (n == 0)
overhead_only n m h = ground arith

nonzero : (n : ℕ) → 1 ≤ n → (n == 0) ≡ false
nonzero n h = ground arith

zero_is : (n : ℕ) → n ≡ 0 → (n == 0) ≡ true
zero_is n h = ground arith

module _ (k : BoxKeys) (c : Crypto) (law : IsCrypto c) (codecs : Codecs) (lawful : AreLawful codecs)
    (header_hash payload_key : List ℕ) (mac_keys : List (List ℕ)) where
  abbrev block_of :
      {version : Version}
      → Seals k c codecs header_hash payload_key mac_keys version
      → ℕ
      → List ℕ
      → Bool
      → ReadBlock
  block_of seals n chunk is_final = record {
    ciphertext = ciphertext_of k c codecs header_hash payload_key mac_keys n chunk;
    authenticators =
        authenticators_of k c codecs header_hash payload_key mac_keys (seals n chunk is_final).hash;
    is_final = is_final;
    seqno = n + 1;
  }

  -- A packet is read back; in version 1 the final block is told by its length.
  abbrev Reads : Version → Type 0
  Reads version =
      (seals : Seals k c codecs header_hash payload_key mac_keys version) (n : ℕ) (chunk : List ℕ)
      (is_final : Bool) (rest : List ℕ)
      → (version ≡ version1 → (length chunk == 0) ≡ is_final)
      → n + 2 < 2 ^ 64
      → read_encryption_block c codecs version (record {
        input = packet k c codecs header_hash payload_key mac_keys seals n chunk is_final ++ rest;
        seqno = n + 1;
      })
        ≡ ok (block_of seals n chunk is_final, record { input = rest; seqno = n + 2 })

  Reads-v1 : Reads version1
  unfolding read_encryption_block make_encryption_block encode_encryption_block
  Reads-v1 seals n chunk is_final rest h l =
      let b = seals n chunk is_final in
      let ciphertext = ciphertext_of k c codecs header_hash payload_key mac_keys n chunk in
      >>=_ok _ (
        read_packet-encode codecs.encryption_block_v1
          (record {
            hash_authenticators =
                authenticators_of k c codecs header_hash payload_key mac_keys b.hash;
            payload_ciphertext = ciphertext;
          })
          b.bytes rest (n + 1) lawful.encryption_block_v1
          (>>=_ok (encode_encryption_block k c codecs) b.makes ∙ b.encodes) (omega arith))
      ∙ ap₂
          (λ f m. ok (
            record (block_of seals n chunk is_final) { is_final = f },
            record { input = rest; seqno = m },
          ))
          {u = n + 1 + 1} {v = n + 2}
          (overhead_only (length chunk) (length ciphertext) (law.length-seal chunk _ payload_key)
            ∙ h refl)
          (omega arith)

  Reads-v2 : Reads version2
  unfolding read_encryption_block make_encryption_block encode_encryption_block
  Reads-v2 seals n chunk is_final rest h l =
      let b = seals n chunk is_final in
      >>=_ok _ (
        read_packet-encode codecs.encryption_block_v2
          (record {
            block_v1 = record {
              hash_authenticators =
                  authenticators_of k c codecs header_hash payload_key mac_keys b.hash;
              payload_ciphertext =
                  ciphertext_of k c codecs header_hash payload_key mac_keys n chunk;
            };
            is_final = is_final;
          })
          b.bytes rest (n + 1) lawful.encryption_block_v2
          (>>=_ok (encode_encryption_block k c codecs) b.makes ∙ b.encodes) (omega arith))
      ∙ ap (λ m. ok (block_of seals n chunk is_final, record { input = rest; seqno = m }))
          {x = n + 1 + 1} {y = n + 2} (omega arith)

  reads : (version : Version) → IsKnown version → Reads version
  reads version (inl e) = subst Reads (sym e) Reads-v1
  reads version (inr e) = subst Reads (sym e) Reads-v2

  module _ (version : Version) (known : IsKnown version) (mac_key : List ℕ) (position : ℕ)
      (mine : get_elem? mac_keys position ≡ some mac_key)
      (seals : Seals k c codecs header_hash payload_key mac_keys version) where
    -- The stream of the receiver at a position, in front of the input.
    abbrev pub at_input : List ℕ → ℕ → DecryptStream
    at_input input seqno = record {
      version = version;
      mps = record { input = input; seqno = seqno };
      payload_key = payload_key;
      header_hash = header_hash;
      mac_key = mac_key;
      position = position;
    }

    abbrev packet_of : ℕ → List ℕ → Bool → List ℕ
    packet_of = packet k c codecs header_hash payload_key mac_keys seals

    process_block-ok :
        (input : List ℕ) (m n : ℕ) (chunk : List ℕ) (is_final : Bool)
        → n < 0xffffffffffffffff
        → process_block c (at_input input m) (block_of seals n chunk is_final) ≡ ok chunk
    process_block-ok input m n chunk is_final h =
        process_block-encrypted c law (at_input input m) mac_keys chunk
          (seals n chunk is_final).hash n is_final h mine (seals n chunk is_final).hashes

    checks_state :
        (n : ℕ) (chunk : List ℕ) (is_final : Bool)
        → n + 1 < 2 ^ 64
        → check_chunk_state version (length chunk) n is_final ≡ ok tt
        → check_decoded_chunk_state version chunk (n + 1) is_final ≡ ok tt
    unfolding check_decoded_chunk_state
    checks_state n chunk is_final h e =
        ap (λ i. check_chunk_state version (length chunk) i is_final) {x = prev_uint64 (n + 1)}
          {y = n} (omega arith)
        ∙ e

    next-more :
        (n : ℕ) (chunk rest : List ℕ)
        → 1 ≤ length chunk
        → n + 2 < 2 ^ 64
        → get_next_chunk c codecs (at_input (packet_of n chunk false ++ rest) (n + 1))
          ≡ (ok (record { bytes = chunk; error = none }), at_input rest (n + 2))
    unfolding get_next_chunk after_read checked_chunk or_failed
    next-more n chunk rest h l =
        ap (after_read c codecs (at_input (packet_of n chunk false ++ rest) (n + 1)))
          (reads version known seals n chunk false rest (λ _. nonzero (length chunk) h) l)
        ∙ ap (λ r. (or_failed c codecs r, at_input rest (n + 2)))
            (>>=_ok _ (process_block-ok rest (n + 2) n chunk false (omega arith))
              ∙ >>=_ok _ (
                  checks_state n chunk false (omega arith)
                    (check-more version (length chunk) n known h)))

    abbrev CanEnd : ℕ → List ℕ → Type 0
    CanEnd n chunk =
        (version ≡ version1 → length chunk ≡ 0) × (version ≡ version2 → length chunk ≡ 0 → n ≡ 0)

    next-last :
        (n : ℕ) (chunk : List ℕ)
        → CanEnd n chunk
        → n + 2 < 2 ^ 64
        → get_next_chunk c codecs (at_input (packet_of n chunk true) (n + 1))
          ≡ (ok (record { bytes = chunk; error = some eof }), at_input [] (n + 2))
    unfolding get_next_chunk after_read checked_chunk or_failed assert_end_of_stream
    next-last n chunk h l =
        ap (λ t. get_next_chunk c codecs (at_input t (n + 1)))
          (sym (append-nil (packet_of n chunk true)))
        ∙ ap (after_read c codecs (at_input (packet_of n chunk true ++ []) (n + 1)))
            (reads version known seals n chunk true [] (λ e. zero_is (length chunk) (h.0 e)) l)
        ∙ ap (λ r. (or_failed c codecs r, at_input [] (n + 2)))
            (>>=_ok _ (process_block-ok [] (n + 2) n chunk true (omega arith))
              ∙ >>=_ok _ (
                  checks_state n chunk true (omega arith)
                    (check-last version (length chunk) n known h.0 h.1))
              ∙ ap (λ r. or_end r >>= λ e. ok (record { bytes = chunk; error = some e }))
                  lawful.any-nil)

    -- A message as `Write` and `Close` leave it yields its plaintext.
    pub chunks :
        (plaintext : List ℕ) (cs : List (List ℕ)) (r : List ℕ)
        → length plaintext + 2 < 2 ^ 64
        → IsLayout version plaintext cs r
        → Yields
            (get_next_chunk c codecs)
            (at_input
              (wire k c law codecs header_hash payload_key mac_keys version known seals cs r)
              1)
            plaintext
            eof
    chunks plaintext cs r h layout =
        message-Yields (get_next_chunk c codecs) at_input packet_of CanEnd next-more next-last
          plaintext cs r layout.joins layout.nonempty (layout.final_v1, layout.final_v2)
          (omega (arith, IsLayout-count cs r layout))
