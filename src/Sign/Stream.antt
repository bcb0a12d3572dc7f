-- ===== src/Sign/Stream.antt =====
-- sign_stream.go: what a run of the attached stream writes.
use saltpack.Base.{
  ℕ, ◌+◌, ◌-◌, ◌≤◌, ◌<◌, ◌%◌, ◌^◌, ◌≡◌, sym, ap, ap₂, ◌∙◌, subst, arith, Bool, true, false, List,
  [], ◌++◌, ◌⊎◌, inl, inr, length, take, drop, le→ltb,
}
use saltpack.Const.{Version, version1, version2, signature_block_size}
use saltpack.Errors.{Result, ok, ◌>>=◌, >>=_ok, panic_if, ◌>>◌}
use saltpack.State.{and_then}
use saltpack.Key.{Crypto, SigningKeys}
use saltpack.Packets.{Codecs}
use saltpack.Common.{
  attached_signature_input, assert_encoded_chunk_state, check_chunk_state, or_panic,
}
use saltpack.Blocks.{check_sign_block_read, check_encrypt_block_read}
use saltpack.Sign.{
  SignAttachedStream, SignatureBlock, make_signature_block, encode_signature_block, compute_sig,
  sign_block,
}

abbrev pub IsKnown : Version → Type 0
IsKnown version = (version ≡ version1) ⊎ (version ≡ version2)

-- What `checkSignBlockRead` and `checkChunkState` ask of a block.
abbrev pub CanSign : Version → Bool → ℕ → ℕ → ℕ → Type 0
CanSign version is_final chunk rest seqno =
    (check_sign_block_read version is_final signature_block_size chunk rest ≡ ok tt)
    × (check_chunk_state version chunk seqno is_final ≡ ok tt)

can-more-v1 :
    (chunk rest seqno : ℕ)
    → 1 ≤ chunk
    → chunk ≤ signature_block_size
    → (chunk < signature_block_size → rest ≡ 0)
    → CanSign version1 false chunk rest seqno
unfolding check_sign_block_read check_encrypt_block_read check_chunk_state
can-more-v1 chunk rest seqno h k l = (ground arith, ground arith)

can-more-v2 :
    (chunk rest seqno : ℕ)
    → 1 ≤ chunk
    → chunk ≤ signature_block_size
    → (chunk < signature_block_size → rest ≡ 0)
    → CanSign version2 false chunk rest seqno
unfolding check_sign_block_read check_encrypt_block_read check_chunk_state
can-more-v2 chunk rest seqno h k l = (ground arith, ground arith)

pub can-last-v1 : (seqno : ℕ) → CanSign version1 true 0 0 seqno
unfolding check_sign_block_read check_encrypt_block_read check_chunk_state
can-last-v1 seqno = (ground arith, ground arith)

pub can-last-v2 :
    (chunk seqno : ℕ)
    → chunk ≤ signature_block_size
    → (chunk ≡ 0 → seqno ≡ 0)
    → CanSign version2 true chunk 0 seqno
unfolding check_sign_block_read check_encrypt_block_read check_chunk_state
can-last-v2 chunk seqno k l = (ground arith, ground arith)

pub can-more :
    (version : Version) (chunk rest seqno : ℕ)
    → IsKnown version
    → 1 ≤ chunk
    → chunk ≤ signature_block_size
    → (chunk < signature_block_size → rest ≡ 0)
    → CanSign version false chunk rest seqno
can-more version chunk rest seqno (inl e) h k l =
    subst (λ v. CanSign v false chunk rest seqno) (sym e) (can-more-v1 chunk rest seqno h k l)
can-more version chunk rest seqno (inr e) h k l =
    subst (λ v. CanSign v false chunk rest seqno) (sym e) (can-more-v2 chunk rest seqno h k l)

-- Without overhead the assertion is the check.
assert_encoded_chunk_state-ok :
    (version : Version) (chunk : List ℕ) (seqno : ℕ) (is_final : Bool)
    → check_chunk_state version (length chunk) seqno is_final ≡ ok tt
    → assert_encoded_chunk_state version chunk 0 seqno is_final ≡ ok tt
unfolding assert_encoded_chunk_state
assert_encoded_chunk_state-ok version chunk seqno is_final e =
    ap (λ t. panic_if t >> or_panic (check_chunk_state version (length chunk - 0) seqno is_final))
      (le→ltb (length chunk) 0 (omega arith))
    ∙ ap (λ n. or_panic (check_chunk_state version n seqno is_final)) {x = length chunk - 0}
        {y = length chunk} (omega arith)
    ∙ ap or_panic e

module _ (k : SigningKeys) (c : Crypto) (codecs : Codecs) (version : Version) (header_hash : List ℕ)
    (secret_key : k.Secret) where
  -- A stream of this key and header.
  abbrev pub at : List ℕ → List ℕ → ℕ → SignAttachedStream k
  at buffer output seqno = record {
    version = version;
    header_hash = header_hash;
    output = output;
    buffer = buffer;
    seqno = seqno;
    secret_key = secret_key;
  }

  -- The signature and the packet of a block.
  pub record Sealed (n : ℕ) (chunk : List ℕ) (is_final : Bool) : Type 0 where
    pub input : List ℕ
    pub sig : List ℕ
    pub block : SignatureBlock
    pub bytes : List ℕ
    pub inputs : attached_signature_input c version header_hash chunk n is_final ≡ ok input
    pub signs : k.sign secret_key input ≡ ok sig
    pub makes : make_signature_block version sig chunk is_final ≡ ok block
    pub encodes : encode_signature_block k c codecs block ≡ ok bytes

  -- What `signBlock` does between the buffer and the output.
  abbrev between : Bool → List ℕ → List ℕ → ℕ → Result (List ℕ)
  between is_final chunk rest n = do
    check_sign_block_read version is_final signature_block_size (length chunk) (length rest)
    sig ← compute_sig k c codecs (at rest [] n) chunk n is_final
    assert_encoded_chunk_state version chunk 0 n is_final
    block ← make_signature_block version sig chunk is_final
    encode_signature_block k c codecs block

  between-ok :
      (is_final : Bool) (chunk rest : List ℕ) (n : ℕ)
      → CanSign version is_final (length chunk) (length rest) n
      → (s : Sealed n chunk is_final) → between is_final chunk rest n ≡ ok s.bytes
  unfolding compute_sig
  between-ok is_final chunk rest n can s =
      >>=_ok _ can.0
      ∙ >>=_ok _ (>>=_ok _ s.inputs ∙ s.signs)
      ∙ >>=_ok _ (assert_encoded_chunk_state-ok version chunk n is_final can.1)
      ∙ >>=_ok _ s.makes
      ∙ s.encodes

  pub sign_block-ok :
      (is_final : Bool) (chunk rest b o : List ℕ) (n : ℕ)
      → take signature_block_size b ≡ chunk
      → drop signature_block_size b ≡ rest
      → CanSign version is_final (length chunk) (length rest) n
      → n + 1 < 2 ^ 64
      → (s : Sealed n chunk is_final)
      → sign_block k c codecs is_final (at b o n) ≡ (ok tt, at rest (o ++ s.bytes) (n + 1))
  unfolding sign_block compute_sig
  sign_block-ok is_final chunk rest b o n e f can h s =
      ap₂ (λ u v. counted (between is_final u v n) (at v o n)) e f
      ∙ ap (λ r. counted r (at rest o n)) (between-ok is_final chunk rest n can s)
      ∙ ap (λ m. (ok tt, at rest (o ++ s.bytes) m)) {x = (n + 1) % 2 ^ 64} {y = n + 1} (omega arith)
    where
      counted : Result (List ℕ) → SignAttachedStream k → Result (Unit {0}) × SignAttachedStream k
      counted r t = and_then r t (λ bytes t.
          (ok tt, record t { output = t.output ++ bytes; seqno = (t.seqno + 1) % 2 ^ 64 }))
