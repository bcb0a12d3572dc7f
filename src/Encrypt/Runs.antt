-- ===== src/Encrypt/Runs.antt =====
-- encrypt.go: what a run of the stream writes.
use saltpack.Base.{
  ℕ, ◌+◌, ◌-◌, ◌≤◌, ◌<◌, ◌%◌, ◌^◌, ◌≡◌, refl, sym, ap, ap₂, ◌∙◌, subst, arith, Bool, false, List,
  ◌++◌, inl, inr, none, map, length, length-take, take, drop, le→ltb,
}
use saltpack.Const.{Version, version1, version2, encryption_block_size, encryption_block_size-pos}
use saltpack.Errors.{Result, ok, ◌>>=◌, ◌>>◌, >>=_ok, panic_if}
use saltpack.State.{and_then}
use saltpack.Key.{Crypto, IsCrypto, BoxKeys, secretbox_overhead}
use saltpack.Nonce.{nonce_for_chunk_secretbox}
use saltpack.Packets.{Codecs, Encodes}
use saltpack.Common.{
  check_block_number, check_chunk_state, assert_encoded_chunk_state, compute_payload_hash,
  compute_payload_authenticator, final_flag, or_panic,
}
use saltpack.Decrypt.Blocks.{number_ok}
use saltpack.Blocks.{check_encrypt_block_read}
use saltpack.Blocks.Cut.{IsCut}
use saltpack.Blocks.Writer.{emit_all, drain-more}
use saltpack.Blocks.Closer.{can-more, Emits, Closes, close_v1_lem, close_v2_lem}
use saltpack.Encrypt.{
  EncryptStream, EncryptionBlock, make_encryption_block, encode_encryption_block, encrypt_block,
  keep_error, write, write_plaintext, close,
}
use saltpack.Sign.Stream.{IsKnown}

abbrev pub max_blocks : ℕ
max_blocks = 0xffffffffffffffff

module _ (c : Crypto) (law : IsCrypto c) where
  assert-ok :
      (version : Version) (chunk nonce key : List ℕ) (n : ℕ) (is_final : Bool)
      → check_chunk_state version (length chunk) n is_final ≡ ok tt
      → assert_encoded_chunk_state version
          (c.secretbox_seal chunk nonce key)
          secretbox_overhead
          n
          is_final
        ≡ ok tt
  unfolding assert_encoded_chunk_state
  assert-ok version chunk nonce key n is_final e =
      let ciphertext = c.secretbox_seal chunk nonce key in
      ap
        (λ t.
          panic_if t >> or_panic (check_chunk_state version (length ciphertext - 16) n is_final))
        (le→ltb (length ciphertext) 16 (omega (arith, law.length-seal chunk nonce key)))
      ∙ ap (λ m. or_panic (check_chunk_state version m n is_final)) {x = length ciphertext - 16}
          {y = length chunk} (omega (arith, law.length-seal chunk nonce key))
      ∙ ap or_panic e

module _ (k : BoxKeys) (c : Crypto) (codecs : Codecs) (header_hash payload_key : List ℕ)
    (mac_keys : List (List ℕ)) where
  -- A stream of this header and these keys.
  abbrev pub at : Version → List ℕ → List ℕ → ℕ → EncryptStream
  at version buffer output n = record {
    version = version;
    output = output;
    payload_key = payload_key;
    buffer = buffer;
    header_hash = header_hash;
    mac_keys = mac_keys;
    num_blocks = n;
    error = none;
  }

  abbrev pub ciphertext_of : ℕ → List ℕ → List ℕ
  ciphertext_of n chunk = c.secretbox_seal chunk (nonce_for_chunk_secretbox n) payload_key

  abbrev pub authenticators_of : List ℕ → List (List ℕ)
  authenticators_of hash = map (λ mac_key. compute_payload_authenticator c mac_key hash) mac_keys

  -- The hash and the packet of a block.
  pub record Sealed (version : Version) (n : ℕ) (chunk : List ℕ) (is_final : Bool) : Type 0 where
    pub hash : List ℕ
    pub block : EncryptionBlock
    pub bytes : List ℕ
    pub hashes :
        compute_payload_hash c version header_hash
          (nonce_for_chunk_secretbox n)
          (ciphertext_of n chunk)
          is_final
        ≡ ok hash
    pub makes :
        make_encryption_block version (ciphertext_of n chunk) (authenticators_of hash) is_final
        ≡ ok block
    pub encodes : encode_encryption_block k c codecs block ≡ ok bytes

  abbrev pub Seals : Version → Type 0
  Seals version = (n : ℕ) (chunk : List ℕ) (is_final : Bool) → Sealed version n chunk is_final

  -- The packet of a block.
  abbrev pub packet : {version : Version} → Seals version → ℕ → List ℕ → Bool → List ℕ
  packet seal n chunk is_final = (seal n chunk is_final).bytes

  module _ (encodes_v1 : Encodes codecs.encryption_block_v1)
      (encodes_v2 : Encodes codecs.encryption_block_v2) where
    seal-v1 : Seals version1
    unfolding compute_payload_hash final_flag make_encryption_block encode_encryption_block
    seal-v1 n chunk is_final =
        let (bytes, e) = encodes_v1 _ in
        record { hash = _; block = _; bytes = bytes; hashes = refl; makes = refl; encodes = e }

    seal-v2 : Seals version2
    unfolding compute_payload_hash final_flag make_encryption_block encode_encryption_block
    seal-v2 n chunk is_final =
        let (bytes, e) = encodes_v2 _ in
        record { hash = _; block = _; bytes = bytes; hashes = refl; makes = refl; encodes = e }

    -- Every block can be encoded.
    pub seal : (version : Version) → IsKnown version → Seals version
    seal version (inl e) = subst Seals (sym e) seal-v1
    seal version (inr e) = subst Seals (sym e) seal-v2

  module _ (law : IsCrypto c) (version : Version) (seals : Seals version) where
    -- What `encryptBlock` does between the buffer and the output.
    abbrev between : Bool → List ℕ → List ℕ → ℕ → Result (List ℕ)
    between is_final chunk rest n = do
      check_encrypt_block_read version is_final encryption_block_size (length chunk) (length rest)
      check_block_number n
      assert_encoded_chunk_state version (ciphertext_of n chunk) secretbox_overhead n is_final
      hash ←
          compute_payload_hash c version header_hash (nonce_for_chunk_secretbox n)
            (ciphertext_of n chunk) is_final
      block ←
          make_encryption_block version (ciphertext_of n chunk) (authenticators_of hash) is_final
      encode_encryption_block k c codecs block

    pub encrypt_block-ok :
        Emits
          (λ t. t.buffer)
          encryption_block_size
          max_blocks
          (encrypt_block k c codecs)
          (at version)
          (packet seals)
          encryption_block_size-pos
          (λ b o n. refl)
          version
    unfolding encrypt_block
    encrypt_block-ok is_final chunk rest b o n e f can h =
        ap₂ (λ u v. counted (between is_final u v n) (at version v o n)) e f
        ∙ ap (λ r. counted r (at version rest o n))
            (>>=_ok _ can.0
              ∙ >>=_ok _ (number_ok c n h)
              ∙ >>=_ok _ (
                  assert-ok c law version chunk (nonce_for_chunk_secretbox n) payload_key n is_final
                    can.1)
              ∙ >>=_ok _ (seals n chunk is_final).hashes
              ∙ >>=_ok _ (seals n chunk is_final).makes
              ∙ (seals n chunk is_final).encodes)
        ∙ ap (λ m. (ok tt, at version rest (o ++ packet seals n chunk is_final) m))
            {x = (n + 1) % 2 ^ 64} {y = n + 1} (omega arith)
      where
        counted : Result (List ℕ) → EncryptStream → Result (Unit {0}) × EncryptStream
        counted r t = and_then r t (λ bytes t. (
          ok tt,
          record t { output = t.output ++ bytes; num_blocks = (t.num_blocks + 1) % 2 ^ 64 },
        ))

    block_emits :
        IsKnown version
        → (b o : List ℕ) (n : ℕ) → n < max_blocks
        → encryption_block_size < length b
        → keep_error k c codecs (encrypt_block k c codecs false (at version b o n)) ≡ (
          ok tt,
          at version
              (drop encryption_block_size b)
              (o ++ packet seals n (take encryption_block_size b) false)
              (n + 1),
        )
    unfolding keep_error
    block_emits known b o n h l =
        let chunk = take encryption_block_size b in
        let rest = drop encryption_block_size b in
        ap (keep_error k c codecs) (
          encrypt_block-ok false chunk rest b o n refl refl
            (can-more encryption_block_size (length chunk) (length rest) n
              (omega (arith, length-take encryption_block_size b, encryption_block_size-pos))
              (omega (arith, length-take encryption_block_size b))
              (λ m. omega (arith, length-take encryption_block_size b)) version known)
            h)

    pub write_lem :
        IsKnown version
        → (bytes p o : List ℕ) (cs : List (List ℕ)) (r : List ℕ)
        → IsCut encryption_block_size bytes cs r
        → length bytes + length p ≤ max_blocks
        → (ds : List (List ℕ)) × (t : List ℕ) × IsCut encryption_block_size (bytes ++ p) ds t
          × (write k c codecs p (at version r (o ++ emit_all (packet seals) 0 cs) (length cs))
              ≡ (ok (length p), at version t (o ++ emit_all (packet seals) 0 ds) (length ds)))
    unfolding write write_plaintext
    write_lem known bytes p o cs r cut h =
        let (ds, t, cut', e) =
          drain-more (λ s. s.buffer) encryption_block_size max_blocks
            (λ t. keep_error k c codecs (encrypt_block k c codecs false t)) (at version)
            (packet seals) encryption_block_size-pos (λ b o n. refl) (block_emits known) bytes p o
            cs r cut h in
        (ds, t, cut', ap (λ d. and_then d.0 d.1 (λ _ t. (ok (length p), t))) e)

  -- `Close` after any writes, in either version.
  abbrev pub ClosesIn : (law : IsCrypto c) → Version → Type 0
  ClosesIn law version =
      (seals : Seals version)
      → Closes (λ t. t.buffer) encryption_block_size max_blocks (encrypt_block k c codecs)
          (at version) (packet seals) encryption_block_size-pos (λ b o n. refl) version
          (close k c codecs)

  module _ (law : IsCrypto c) where
    close-v1 : ClosesIn law version1
    unfolding close
    close-v1 seals =
        close_v1_lem (λ t. t.buffer) encryption_block_size max_blocks (encrypt_block k c codecs)
          (at version1) (packet seals) encryption_block_size-pos (λ b o n. refl)
          (encrypt_block-ok law version1 seals)

    close-v2 : ClosesIn law version2
    unfolding close
    close-v2 seals =
        close_v2_lem (λ t. t.buffer) encryption_block_size max_blocks (encrypt_block k c codecs)
          (at version2) (packet seals) encryption_block_size-pos (λ b o n. refl)
          (encrypt_block-ok law version2 seals)

    pub close_lem : (version : Version) → IsKnown version → ClosesIn law version
    close_lem version (inl e) = subst (ClosesIn law) (sym e) close-v1
    close_lem version (inr e) = subst (ClosesIn law) (sym e) close-v2
