-- ===== src/Verify/Stream.antt =====
-- verify_stream.go: the chunks that a signed stream gives.
use saltpack.Base.{
  ℕ, suc, ◌+◌, ◌≤◌, ◌<◌, ◌^◌, ◌≡◌, refl, sym, ap, ap₂, ◌∙◌, subst, arith, Bool, true, false, List,
  [], ◌∷◌, ◌++◌, append-nil, append_assoc, none, some, inl, inr, length, All, ◌==◌,
}
use saltpack.Const.{Version, version1, version2}
use saltpack.Errors.{ok, ◌>>=◌, >>=_ok, eof}
use saltpack.Key.{Crypto, SigningKeys, IsSigningKeys}
use saltpack.Packets.{
  Codecs, AreLawful, SignatureHeader, read_packet-encode, assert_end_of_stream, or_end,
}
use saltpack.Common.{
  attached_signature_input, check_chunk_state, check_decoded_chunk_state, prev_uint64,
}
use saltpack.ChunkReader.Laws.{Yields}
use saltpack.ChunkReader.Laws
use saltpack.Blocks.Cut.{concat}
use saltpack.Blocks.Layout.{IsNonempty}
use saltpack.Blocks.Writer.{emit_all}
use saltpack.Sign.{make_signature_block, encode_signature_block}
use saltpack.Sign.Stream.{IsKnown}
use saltpack.Sign.Runs.{Seals, packet}
use saltpack.Verify.{
  VerifyStream, ReadBlock, read_signature_block, process_block, checked_chunk, or_failed,
  after_read, get_next_chunk,
}

-- `checkChunkState` on a block that is not final.
check-more-v1 : (n i : ℕ) → 1 ≤ n → check_chunk_state version1 n i false ≡ ok tt
unfolding check_chunk_state
check-more-v1 n i h = ground arith

check-more-v2 : (n i : ℕ) → 1 ≤ n → check_chunk_state version2 n i false ≡ ok tt
unfolding check_chunk_state
check-more-v2 n i h = ground arith

check-last-v1 : (n i : ℕ) → n ≡ 0 → check_chunk_state version1 n i true ≡ ok tt
unfolding check_chunk_state
check-last-v1 n i h = ground arith

check-last-v2 : (n i : ℕ) → (n ≡ 0 → i ≡ 0) → check_chunk_state version2 n i true ≡ ok tt
unfolding check_chunk_state
check-last-v2 n i h = ground arith

nonzero : (n : ℕ) → 1 ≤ n → (n == 0) ≡ false
nonzero n h = ground arith

zero_is : (n : ℕ) → n ≡ 0 → (n == 0) ≡ true
zero_is n h = ground arith

pub check-more :
    (version : Version) (n i : ℕ)
    → IsKnown version
    → 1 ≤ n
    → check_chunk_state version n i false ≡ ok tt
check-more version n i (inl e) h = ap (λ v. check_chunk_state v n i false) e ∙ check-more-v1 n i h
check-more version n i (inr e) h = ap (λ v. check_chunk_state v n i false) e ∙ check-more-v2 n i h

pub check-last :
    (version : Version) (n i : ℕ)
    → IsKnown version
    → (version ≡ version1 → n ≡ 0)
    → (version ≡ version2 → n ≡ 0 → i ≡ 0)
    → check_chunk_state version n i true ≡ ok tt
check-last version n i (inl e) h k =
    ap (λ v. check_chunk_state v n i true) e ∙ check-last-v1 n i (h e)
check-last version n i (inr e) h k =
    ap (λ v. check_chunk_state v n i true) e ∙ check-last-v2 n i (k e)

module _ (k : SigningKeys) (c : Crypto) (codecs : Codecs) (lawful : AreLawful codecs)
    (header_hash : List ℕ) (secret_key : k.Secret) where
  -- The block that is read from a packet.
  abbrev read_block :
      {version : Version}
      → Seals k c codecs header_hash secret_key version
      → ℕ
      → List ℕ
      → Bool
      → ReadBlock
  read_block seal n chunk is_final = record {
    signature = (seal n chunk is_final).sig;
    payload_chunk = chunk;
    is_final = is_final;
    seqno = n + 1;
  }

  -- A packet is read back; in version 1 the final block is told by its length.
  abbrev Reads : Version → Type 0
  Reads version =
      (seal : Seals k c codecs header_hash secret_key version) (n : ℕ) (chunk : List ℕ)
      (is_final : Bool) (rest : List ℕ)
      → (version ≡ version1 → (length chunk == 0) ≡ is_final)
      → n + 2 < 2 ^ 64
      → read_signature_block k c codecs version (record {
        input = packet k c codecs header_hash secret_key seal n chunk is_final ++ rest;
        seqno = n + 1;
      })
        ≡ ok (read_block seal n chunk is_final, record { input = rest; seqno = n + 2 })

  Reads-v1 : Reads version1
  unfolding read_signature_block make_signature_block encode_signature_block
  Reads-v1 seal n chunk is_final rest h l =
      let s = seal n chunk is_final in
      >>=_ok _ (
        read_packet-encode codecs.signature_block_v1
          (record { signature = s.sig; payload_chunk = chunk }) s.bytes rest (n + 1)
          lawful.signature_block_v1 (>>=_ok (encode_signature_block k c codecs) s.makes ∙ s.encodes)
          (omega arith))
      ∙ ap₂
          (λ b m. ok (
            record (read_block seal n chunk is_final) { is_final = b },
            record { input = rest; seqno = m },
          ))
          {u = n + 1 + 1} {v = n + 2} (h refl) (omega arith)

  Reads-v2 : Reads version2
  unfolding read_signature_block make_signature_block encode_signature_block
  Reads-v2 seal n chunk is_final rest h l =
      let s = seal n chunk is_final in
      >>=_ok _ (
        read_packet-encode codecs.signature_block_v2
          (record {
            block_v1 = record { signature = s.sig; payload_chunk = chunk };
            is_final = is_final;
          })
          s.bytes rest (n + 1) lawful.signature_block_v2
          (>>=_ok (encode_signature_block k c codecs) s.makes ∙ s.encodes) (omega arith))
      ∙ ap (λ m. ok (read_block seal n chunk is_final, record { input = rest; seqno = m }))
          {x = n + 1 + 1} {y = n + 2} (omega arith)

  reads : (version : Version) → IsKnown version → Reads version
  reads version (inl e) = subst Reads (sym e) Reads-v1
  reads version (inr e) = subst Reads (sym e) Reads-v2

  module _ (is_signing : IsSigningKeys k) (version : Version) (known : IsKnown version)
      (header : SignatureHeader) (same_version : header.version ≡ version)
      (seal : Seals k c codecs header_hash secret_key version) where
    abbrev pub at_input : List ℕ → ℕ → VerifyStream k
    at_input input seqno = record {
      mps = record { input = input; seqno = seqno };
      header = header;
      header_hash = header_hash;
      public_key = k.get_public_key secret_key;
    }

    process_block-ok :
        (input : List ℕ) (m n : ℕ) (chunk : List ℕ) (is_final : Bool)
        → n + 1 < 2 ^ 64
        → process_block k c codecs (at_input input m) (read_block seal n chunk is_final) ≡ ok tt
    unfolding process_block
    process_block-ok input m n chunk is_final h =
        let s = seal n chunk is_final in
        >>=_ok _ (
          ap₂ (λ w i. attached_signature_input c w header_hash chunk i is_final)
            {u = prev_uint64 (n + 1)} {v = n} same_version (omega arith)
          ∙ s.inputs)
        ∙ is_signing.verify-sign secret_key s.input s.sig s.signs

    checks_state :
        (n : ℕ) (chunk : List ℕ) (is_final : Bool)
        → n + 1 < 2 ^ 64
        → check_chunk_state version (length chunk) n is_final ≡ ok tt
        → check_decoded_chunk_state header.version chunk (n + 1) is_final ≡ ok tt
    unfolding check_decoded_chunk_state
    checks_state n chunk is_final h e =
        ap₂ (λ w i. check_chunk_state w (length chunk) i is_final) {u = prev_uint64 (n + 1)} {v = n}
          same_version (omega arith)
        ∙ e

    reads_here :
        (n : ℕ) (chunk : List ℕ) (is_final : Bool) (rest : List ℕ)
        → (version ≡ version1 → (length chunk == 0) ≡ is_final)
        → n + 2 < 2 ^ 64
        → read_signature_block k c codecs header.version (record {
          input = packet k c codecs header_hash secret_key seal n chunk is_final ++ rest;
          seqno = n + 1;
        })
          ≡ ok (read_block seal n chunk is_final, record { input = rest; seqno = n + 2 })
    reads_here n chunk is_final rest h l =
        ap
          (λ w. read_signature_block k c codecs w (record {
            input = packet k c codecs header_hash secret_key seal n chunk is_final ++ rest;
            seqno = n + 1;
          }))
          same_version
        ∙ reads version known seal n chunk is_final rest h l

    next-more :
        (n : ℕ) (chunk rest : List ℕ)
        → 1 ≤ length chunk
        → n + 2 < 2 ^ 64
        → get_next_chunk k c codecs
            (at_input (packet k c codecs header_hash secret_key seal n chunk false ++ rest) (n + 1))
          ≡ (ok (record { bytes = chunk; error = none }), at_input rest (n + 2))
    unfolding get_next_chunk after_read checked_chunk or_failed
    next-more n chunk rest h l =
        ap
          (after_read k c codecs (
            at_input (packet k c codecs header_hash secret_key seal n chunk false ++ rest) (n + 1)))
          (reads_here n chunk false rest (λ _. nonzero (length chunk) h) l)
        ∙ ap (λ r. (or_failed k c codecs r, at_input rest (n + 2)))
            (>>=_ok _ (process_block-ok rest (n + 2) n chunk false (omega arith))
              ∙ >>=_ok _ (
                  checks_state n chunk false (omega arith)
                    (check-more version (length chunk) n known h)))

    next-last :
        (n : ℕ) (chunk : List ℕ)
        → (version ≡ version1 → length chunk ≡ 0)
        → (version ≡ version2 → length chunk ≡ 0 → n ≡ 0)
        → n + 2 < 2 ^ 64
        → get_next_chunk k c codecs
            (at_input (packet k c codecs header_hash secret_key seal n chunk true) (n + 1))
          ≡ (ok (record { bytes = chunk; error = some eof }), at_input [] (n + 2))
    unfolding get_next_chunk after_read checked_chunk or_failed assert_end_of_stream
    next-last n chunk h h' l =
        ap (λ t. get_next_chunk k c codecs (at_input t (n + 1)))
          (sym (append-nil (packet k c codecs header_hash secret_key seal n chunk true)))
        ∙ ap
            (after_read k c codecs
              (at_input (packet k c codecs header_hash secret_key seal n chunk true ++ []) (n + 1)))
            (reads_here n chunk true [] (λ e. zero_is (length chunk) (h e)) l)
        ∙ ap (λ r. (or_failed k c codecs r, at_input [] (n + 2)))
            (>>=_ok _ (process_block-ok [] (n + 2) n chunk true (omega arith))
              ∙ >>=_ok _ (
                  checks_state n chunk true (omega arith)
                    (check-last version (length chunk) n known h h'))
              ∙ ap (λ r. or_end r >>= λ e. ok (record { bytes = chunk; error = some e }))
                  lawful.any-nil)

    -- The chunks of a message are its bytes.
    pub wire-Yields :
        (n : ℕ) (bytes : List ℕ) (cs : List (List ℕ)) (r : List ℕ)
        → concat cs ++ r ≡ bytes
        → All IsNonempty cs
        → (version ≡ version1 → length r ≡ 0)
        → (version ≡ version2 → length r ≡ 0 → n + length cs ≡ 0)
        → n + length cs + 2 < 2 ^ 64
        → Yields
            (get_next_chunk k c codecs)
            (at_input
              (emit_all (packet k c codecs header_hash secret_key seal) n cs
                ++ packet k c codecs header_hash secret_key seal (n + length cs) r true)
              (n + 1))
            bytes
            eof
    wire-Yields n bytes [] r e a h h' l =
        subst
          (λ t.
            Yields (get_next_chunk k c codecs)
              (at_input (packet k c codecs header_hash secret_key seal t r true) (n + 1)) bytes eof)
          {x = n} {y = n + 0} (omega arith)
          (subst
            (λ t.
              Yields (get_next_chunk k c codecs)
                (at_input (packet k c codecs header_hash secret_key seal n r true) (n + 1)) t eof)
            e (Laws.last r eof (next-last n r h (λ v z. omega (arith, h' v z)) (omega arith))))
    wire-Yields n bytes ([] ∷ cs) r e a h h' l = absurd (omega (arith, a.0))
    wire-Yields n bytes ((b ∷ d) ∷ cs) r e a h h' l =
        subst (λ t. Yields (get_next_chunk k c codecs) (at_input t (n + 1)) bytes eof) joined
          (subst (λ t. Yields (get_next_chunk k c codecs) (at_input (first ++ rest) (n + 1)) t eof)
            (sym (append_assoc (b ∷ d) (concat cs) r) ∙ e)
            (Laws.more b d (next-more n (b ∷ d) rest (omega arith) (omega arith)) (
              subst (λ t. Yields (get_next_chunk k c codecs) (at_input rest t) (concat cs ++ r) eof)
                {x = n + 1 + 1} {y = n + 2} (omega arith)
                (wire-Yields (n + 1) (concat cs ++ r) cs r refl a.1 h
                  (λ v z. absurd (omega (arith, h' v z))) (omega arith)))))
      where
        first : List ℕ
        first = packet k c codecs header_hash secret_key seal n (b ∷ d) false

        later : List ℕ
        later = emit_all (packet k c codecs header_hash secret_key seal) (n + 1) cs

        rest : List ℕ
        rest = later ++ packet k c codecs header_hash secret_key seal (n + 1 + length cs) r true

        joined :
            first ++ rest
            ≡ (first ++ later)
              ++ packet k c codecs header_hash secret_key seal (n + suc (length cs)) r true
        joined =
            ap (λ t. first ++ (later ++ packet k c codecs header_hash secret_key seal t r true))
              {x = n + 1 + length cs} {y = n + suc (length cs)} (omega arith)
            ∙ sym (
                append_assoc first later
                  (packet k c codecs header_hash secret_key seal (n + suc (length cs)) r true))
