-- ===== src/Signcrypt/Runs.antt =====
-- signcrypt_seal.go: what a run of the stream writes.
use saltpack.Base.{
  ℕ, ◌+◌, ◌≤◌, ◌<◌, ◌%◌, ◌^◌, ◌≡◌, refl, sym, ap, ap₂, ◌∙◌, arith, Bool, true, false, not, ◌&&◌,
  List, [], ◌++◌, append_assoc, append-nil, Option, none, length, length-append, take, drop,
  take-all, drop-all, ◌==◌, ltb,
}
use saltpack.Const.{version2, encryption_block_size, encryption_block_size-pos}
use saltpack.Errors.{Result, ok, ◌>>=◌, ◌>>◌, >>=_ok, panic_if}
use saltpack.State.{and_then}
use saltpack.Key.{Crypto, IsCrypto, SigningKeys, secretbox_overhead}
use saltpack.Nonce.{nonce_for_chunk_signcryption}
use saltpack.Packets.{Codecs}
use saltpack.Common.{check_block_number, check_chunk_state, assert_encoded_chunk_state}
use saltpack.Decrypt.Blocks.{number_ok}
use saltpack.Blocks.Cut.{IsCut, IsCut-short, IsCut-count}
use saltpack.Blocks.Layout.{IsLayout, IsLayout-v2}
use saltpack.Blocks.Writer.{emit_all, drain-more}
use saltpack.Signcrypt.Keys.{signature_size}
use saltpack.Signcrypt.Sealing.{
  SigncryptSealStream, detached_sig, signcrypt_block, keep_error, write, write_plaintext, close,
}

module _ (c : Crypto) (law : IsCrypto c) where
  -- With the signature in front a block is not empty.
  assert-ok :
      (attached nonce key : List ℕ) (n : ℕ) (is_final : Bool)
      → 1 ≤ length attached
      → assert_encoded_chunk_state version2
          (c.secretbox_seal attached nonce key)
          secretbox_overhead
          n
          is_final
        ≡ ok tt
  unfolding assert_encoded_chunk_state check_chunk_state
  assert-ok attached nonce key n is_final h = ground (arith, law.length-seal attached nonce key)

module _ (s : SigningKeys) (c : Crypto) (codecs : Codecs) (header_hash encryption_key : List ℕ)
    (signing_key : Option s.Secret) where
  -- A stream of this header and these keys.
  abbrev pub at : List ℕ → List ℕ → ℕ → SigncryptSealStream s
  at buffer output n = record {
    version = version2;
    output = output;
    encryption_key = encryption_key;
    signing_key = signing_key;
    buffer = buffer;
    header_hash = header_hash;
    num_blocks = n;
    error = none;
  }

  abbrev pub nonce_of : ℕ → Bool → List ℕ
  nonce_of n is_final = nonce_for_chunk_signcryption header_hash is_final n

  -- The signature and the packet of a block.
  pub record Sealed (n : ℕ) (chunk : List ℕ) (is_final : Bool) : Type 0 where
    pub sig : List ℕ
    pub bytes : List ℕ
    pub signs :
        detached_sig s c signing_key header_hash (nonce_of n is_final) is_final chunk ≡ ok sig
    pub size : length sig ≡ signature_size
    pub encodes :
        codecs.signcryption_block.encode (record {
          payload_ciphertext = c.secretbox_seal (sig ++ chunk) (nonce_of n is_final) encryption_key;
          is_final = is_final;
        })
        ≡ ok bytes

  abbrev pub Seals : Type 0
  Seals = (n : ℕ) (chunk : List ℕ) (is_final : Bool) → Sealed n chunk is_final

  module _ (law : IsCrypto c) where
    -- What `signcryptBlock` does between the buffer and the output.
    abbrev between : Bool → List ℕ → List ℕ → ℕ → Result (List ℕ)
    between is_final chunk rest n = do
      panic_if (is_final && not (length rest == 0))
      check_block_number n
      sig ← detached_sig s c signing_key header_hash (nonce_of n is_final) is_final chunk
      let ciphertext = c.secretbox_seal (sig ++ chunk) (nonce_of n is_final) encryption_key
      assert_encoded_chunk_state version2 ciphertext secretbox_overhead n is_final
      codecs.signcryption_block.encode
          (record { payload_ciphertext = ciphertext; is_final = is_final })

    final_is_last :
        (is_final : Bool) (rest : ℕ)
        → (is_final ≡ true → rest ≡ 0)
        → panic_if (is_final && not (rest == 0)) ≡ ok tt
    final_is_last is_final rest h = ground arith

    between-ok :
        (is_final : Bool) (chunk rest : List ℕ) (n : ℕ)
        → (is_final ≡ true → length rest ≡ 0)
        → n < 0xffffffffffffffff
        → (b : Sealed n chunk is_final) → between is_final chunk rest n ≡ ok b.bytes
    between-ok is_final chunk rest n last h b =
        >>=_ok _ (final_is_last is_final (length rest) last)
        ∙ >>=_ok _ (number_ok c n h)
        ∙ >>=_ok _ b.signs
        ∙ >>=_ok _ (
            assert-ok c law (b.sig ++ chunk) (nonce_of n is_final) encryption_key n is_final
              (omega (arith, length-append b.sig chunk, b.size)))
        ∙ b.encodes

    signcrypt_block-ok :
        (is_final : Bool) (chunk rest b o : List ℕ) (n : ℕ)
        → take encryption_block_size b ≡ chunk
        → drop encryption_block_size b ≡ rest
        → (is_final ≡ true → length rest ≡ 0)
        → n < 0xffffffffffffffff
        → (p : Sealed n chunk is_final)
        → signcrypt_block s c codecs is_final (at b o n) ≡ (ok tt, at rest (o ++ p.bytes) (n + 1))
    unfolding signcrypt_block
    signcrypt_block-ok is_final chunk rest b o n e f last h p =
        ap₂ (λ u v. counted (between is_final u v n) (at v o n)) e f
        ∙ ap (λ r. counted r (at rest o n)) (between-ok is_final chunk rest n last h p)
        ∙ ap (λ m. (ok tt, at rest (o ++ p.bytes) m)) {x = (n + 1) % 2 ^ 64} {y = n + 1}
            (omega arith)
      where
        counted :
            Result (List ℕ) → SigncryptSealStream s → Result (Unit {0}) × SigncryptSealStream s
        counted r t = and_then r t (λ bytes t. (
          ok tt,
          record t { output = t.output ++ bytes; num_blocks = (t.num_blocks + 1) % 2 ^ 64 },
        ))

    module _ (seal : Seals) where
      -- The packet of a block, and a message on the wire behind its header.
      abbrev pub packet : ℕ → List ℕ → Bool → List ℕ
      packet n chunk is_final = (seal n chunk is_final).bytes

      abbrev pub wire : List (List ℕ) → List ℕ → List ℕ
      wire cs last = emit_all packet 0 cs ++ packet (length cs) last true

      block_emits :
          (b o : List ℕ) (n : ℕ)
          → n < 0xffffffffffffffff
          → encryption_block_size < length b
          → keep_error s c codecs (signcrypt_block s c codecs false (at b o n)) ≡ (
            ok tt,
            at
                (drop encryption_block_size b)
                (o ++ packet n (take encryption_block_size b) false)
                (n + 1),
          )
      unfolding keep_error
      block_emits b o n h l = ap (keep_error s c codecs) (
          signcrypt_block-ok false (take encryption_block_size b) (drop encryption_block_size b) b o
            n refl refl (λ e. cc) h (seal n (take encryption_block_size b) false))

      pub write_lem :
          (bytes p o : List ℕ) (cs : List (List ℕ)) (r : List ℕ)
          → IsCut encryption_block_size bytes cs r
          → length bytes + length p ≤ 0xffffffffffffffff
          → (ds : List (List ℕ)) × (t : List ℕ) × IsCut encryption_block_size (bytes ++ p) ds t
            × (write s c codecs p (at r (o ++ emit_all packet 0 cs) (length cs))
                ≡ (ok (length p), at t (o ++ emit_all packet 0 ds) (length ds)))
      unfolding write write_plaintext
      write_lem bytes p o cs r cut h =
          let (ds, t, cut', e) =
            drain-more (λ s. s.buffer) encryption_block_size 0xffffffffffffffff
              (λ t. keep_error s c codecs (signcrypt_block s c codecs false t)) at packet
              encryption_block_size-pos (λ b o n. refl) block_emits bytes p o cs r cut h in
          (ds, t, cut', ap (λ d. and_then d.0 d.1 (λ _ t. (ok (length p), t))) e)

      pub close_lem :
          (bytes o : List ℕ) (cs : List (List ℕ)) (r : List ℕ)
          → IsCut encryption_block_size bytes cs r
          → length bytes + 2 < 2 ^ 64
          → close s c codecs (at r (o ++ emit_all packet 0 cs) (length cs))
            ≡ (ok tt, at [] (o ++ wire cs r) (length cs + 1))
      unfolding close
      close_lem bytes o cs r cut h =
          ap (λ d. and_then d.0 d.1 (λ _ t. (panic_if (ltb 0 (length t.buffer)), t)))
            (signcrypt_block-ok true r [] r (o ++ emit_all packet 0 cs) (length cs)
              (take-all encryption_block_size r cut.short)
              (drop-all encryption_block_size r cut.short) (λ _. refl)
              (omega (arith, IsCut-count encryption_block_size cs r encryption_block_size-pos cut))
              (seal (length cs) r true))
          ∙ ap (λ t. (ok tt, at [] t (length cs + 1)))
              (append_assoc o (emit_all packet 0 cs) (packet (length cs) r true))

      -- One write and `Close`.
      pub run_one :
          (o p : List ℕ)
          → length p + 2 < 2 ^ 64
          → (ds : List (List ℕ)) × (last : List ℕ) × IsLayout version2 p ds last
            × (and_then
                  (write s c codecs p (at [] o 0)).0
                  (write s c codecs p (at [] o 0)).1
                  (λ _ t. close s c codecs t)
                ≡ (ok tt, at [] (o ++ wire ds last) (length ds + 1)))
      run_one o p h =
          let (ds, t, cut, e) =
            write_lem [] p o [] [] (IsCut-short encryption_block_size [] (omega arith))
              (omega arith) in
          (
            ds,
            t,
            IsLayout-v2 encryption_block_size encryption_block_size-pos p ds t cut,
            ap
                  (λ u.
                    and_then (write s c codecs p (at [] u 0)).0 (write s c codecs p (at [] u 0)).1
                      (λ _ t. close s c codecs t))
                  (sym (append-nil o))
                ∙ ap (λ d. and_then d.0 d.1 (λ _ t. close s c codecs t)) e
                ∙ close_lem p o ds t cut h,
          )
