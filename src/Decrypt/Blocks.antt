-- ===== src/Decrypt/Blocks.antt =====
-- decrypt.go and encrypt.go: an encrypted block and its decryption.
use saltpack.Base.{
  ℕ, zero, suc, ◌+◌, ◌<◌, ◌≡◌, refl, sym, ap, ◌∙◌, arith, Bool, not, Option, none, some, List, [],
  ◌∷◌, map, get_elem?, eq_bytes, eq_bytes_iff, Bool-cases, inl, inr,
}
use saltpack.Errors.{ok, ◌>>=◌, >>=_ok, >>=-eq-ok, fail_if, bad_tag}
use saltpack.Key.{Crypto, IsCrypto}
use saltpack.Nonce.{nonce_for_chunk_secretbox}
use saltpack.Common.{
  check_block_number, compute_payload_hash, compute_payload_authenticator, prev_uint64,
}
use saltpack.Decrypt.{DecryptStream, ReadBlock, process_block, check_authenticator, opened}

module _ (c : Crypto) where
  get_elem?-map :
      (f : List ℕ → List ℕ) (xs : List (List ℕ)) (i : ℕ) {x : List ℕ}
      → get_elem? xs i ≡ some x
      → get_elem? (map f xs) i ≡ some (f x)
  get_elem?-map f [] i e = cc
  get_elem?-map f (x ∷ xs) zero e = cc
  get_elem?-map f (x ∷ xs) (suc i) e = get_elem?-map f xs i e

  pub number_ok : (n : ℕ) → n < 0xffffffffffffffff → check_block_number n ≡ ok tt
  unfolding check_block_number
  number_ok n h = ground arith

  pub number_lem : (n : ℕ) (u : Unit {0}) → check_block_number n ≡ ok u → n < 0xffffffffffffffff
  unfolding check_block_number
  number_lem n u e = ground arith

  same_tag : (ours : List ℕ) (seqno : ℕ) → check_authenticator c ours seqno (some ours) ≡ ok tt
  unfolding check_authenticator
  same_tag ours seqno = ap (λ t. fail_if (not t) (bad_tag seqno)) ((eq_bytes_iff ours ours).1 refl)

  tag_lem :
      (ours : List ℕ) (seqno : ℕ) (theirs : Option (List ℕ)) (u : Unit {0})
      → check_authenticator c ours seqno theirs ≡ ok u
      → theirs ≡ some ours
  unfolding check_authenticator
  tag_lem ours seqno none u e = cc
  tag_lem ours seqno (some theirs) u e = elim (Bool-cases (eq_bytes ours theirs)) [
    | inl same ↦ ap some (sym ((eq_bytes_iff ours theirs).0 same))
    | inr other ↦ cc
  ]

  open_lem : (seqno : ℕ) (o : Option (List ℕ)) (p : List ℕ) → opened c seqno o ≡ ok p → o ≡ some p
  unfolding opened
  open_lem seqno none p e = cc
  open_lem seqno (some q) p e = cc

  -- A block as `encryptBlock` makes it, for MAC keys of which the one at the recipient's position is
  -- the recipient's, with the nonce of a number below 2^64 - 1: the decryption of the block with
  -- the next sequence number gives the plaintext.
  pub process_block-encrypted :
      (law : IsCrypto c) (ds : DecryptStream) (mac_keys : List (List ℕ)) (plaintext hash : List ℕ)
      (n : ℕ) (is_final : Bool)
      → n < 0xffffffffffffffff
      → get_elem? mac_keys ds.position ≡ some ds.mac_key
      → compute_payload_hash c ds.version ds.header_hash
          (nonce_for_chunk_secretbox n)
          (c.secretbox_seal plaintext (nonce_for_chunk_secretbox n) ds.payload_key)
          is_final
        ≡ ok hash
      → process_block c ds (record {
        ciphertext = c.secretbox_seal plaintext (nonce_for_chunk_secretbox n) ds.payload_key;
        authenticators = map (λ mac_key. compute_payload_authenticator c mac_key hash) mac_keys;
        is_final = is_final;
        seqno = n + 1;
      })
        ≡ ok plaintext
  unfolding process_block opened
  process_block-encrypted law ds mac_keys plaintext hash n is_final h e f =
      let ours = compute_payload_authenticator c ds.mac_key hash in
      let ciphertext = c.secretbox_seal plaintext (nonce_for_chunk_secretbox n) ds.payload_key in
      ap
        (λ m. check_block_number m >>= λ _.
          compute_payload_hash c ds.version ds.header_hash (nonce_for_chunk_secretbox m) ciphertext
            is_final
          >>= λ hash'.
              check_authenticator c (compute_payload_authenticator c ds.mac_key hash') (n + 1) (
                get_elem? (map (λ mac_key. compute_payload_authenticator c mac_key hash) mac_keys)
                  ds.position)
              >>= λ _.
                  opened c (n + 1)
                    (c.secretbox_open ciphertext (nonce_for_chunk_secretbox m) ds.payload_key))
        {x = prev_uint64 (n + 1)} {y = n} (omega arith)
      ∙ >>=_ok _ (number_ok n h)
      ∙ >>=_ok _ f
      ∙ >>=_ok _ (
          ap (check_authenticator c ours (n + 1)) (
            get_elem?-map (λ mac_key. compute_payload_authenticator c mac_key hash) mac_keys
              ds.position e)
          ∙ same_tag ours (n + 1))
      ∙ ap (opened c (n + 1)) (law.open-seal plaintext (nonce_for_chunk_secretbox n) ds.payload_key)

  -- A block that is accepted: its authenticator at the recipient's position is the one that the
  -- recipient's MAC key gives for the header hash, the nonce, the ciphertext and the final flag,
  -- the secretbox opens to the plaintext with the nonce of the block's number, and that number is
  -- below 2^64 - 1.
  pub process_block-checked :
      (ds : DecryptStream) (b : ReadBlock) (plaintext : List ℕ)
      → process_block c ds b ≡ ok plaintext
      → (hash : List ℕ) × (compute_payload_hash c ds.version ds.header_hash
            (nonce_for_chunk_secretbox (prev_uint64 b.seqno))
            b.ciphertext
            b.is_final
          ≡ ok hash)
        × (get_elem? b.authenticators ds.position
            ≡ some (compute_payload_authenticator c ds.mac_key hash))
        × (c.secretbox_open b.ciphertext
              (nonce_for_chunk_secretbox (prev_uint64 b.seqno))
              ds.payload_key
            ≡ some plaintext)
        × (prev_uint64 b.seqno < 0xffffffffffffffff)
  unfolding process_block
  process_block-checked ds b plaintext e =
      let (u, number, e1) = >>=-eq-ok (check_block_number (prev_uint64 b.seqno)) _ e in
      let (hash, hashed, e2) =
        >>=-eq-ok
          (compute_payload_hash c ds.version ds.header_hash
            (nonce_for_chunk_secretbox (prev_uint64 b.seqno)) b.ciphertext b.is_final)
          _ e1 in
      let (v, tagged, e3) =
        >>=-eq-ok
          (check_authenticator c (compute_payload_authenticator c ds.mac_key hash) b.seqno
            (get_elem? b.authenticators ds.position))
          _ e2 in
      (
        hash,
        hashed,
        tag_lem (compute_payload_authenticator c ds.mac_key hash) b.seqno
            (get_elem? b.authenticators ds.position) v tagged,
        open_lem b.seqno
            (c.secretbox_open b.ciphertext (nonce_for_chunk_secretbox (prev_uint64 b.seqno))
              ds.payload_key)
            plaintext e3,
        number_lem (prev_uint64 b.seqno) u number,
      )
