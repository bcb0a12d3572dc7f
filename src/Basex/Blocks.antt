-- ===== src/Basex/Blocks.antt =====
-- `encodeBlock` and `decodeBlock` of encoding/basex/encoding.go on one block.
use saltpack.Base.{
  ℕ, zero, suc, ◌+◌, ◌-◌, ◌*◌, ◌/◌, ◌%◌, ◌^◌, ◌≤◌, ◌<◌, ◌≡◌, refl, sym, ap, ◌∙◌, arith, true, false,
  List, [], ◌∷◌, ◌++◌, map, length, length-set, get_or, set, drop, take, take-all, replicate, All,
  ◌⊎◌, ◌==◌, ==_iff, le→ltb, lt→ltb, Bool-cases, inl, inr, append_assoc,
}
use saltpack.Errors.{ok, Result}
use saltpack.Radix.{
  of_digits, to_digits, to_digits-lt, length-to_digits, quotient-lt, IsByte, of_digits-lt,
  of_digits-to_digits, to_digits-of_digits, big_bytes, big_bytes-IsPadded, IsPadded,
}
use saltpack.Basex.{Encoding, pad_block, fill_block, encode_block}
use saltpack.Basex.Decoding.{read_chars, decode_block}
use saltpack.Basex.Lengths.{
  IsValid, encoded_len-block, value-lt, decoded_len-block, is_valid_encoding_length-ceil, within,
  ceil_pos,
}
use mathlib.Core.List.{map-append}
use native.Mathlib.Nat.{zero-mod, zero-div, pow-zero}

-- The digits of a number, `k` of them, in the alphabet.
abbrev pub symbols : Encoding → ℕ → ℕ → List ℕ
symbols enc k n = map (λ d. get_or enc.encode d 0) (to_digits enc.base k n)

module _ {ℓ} {A : Type ℓ} where
  -- What a write at position `p` leaves behind `p`.
  pub drop-set :
      (xs : List A) (p : ℕ) (v : A) → p < length xs → drop p (set xs p v) ≡ v ∷ drop (suc p) xs
  drop-set [] p v h = absurd (omega arith)
  drop-set (x ∷ xs) zero v h = refl
  drop-set (x ∷ xs) (suc p) v h = drop-set xs p v (omega arith)

module _ (enc : Encoding) where
  symbols-suc :
      (p n : ℕ)
      → symbols enc (suc p) n
        ≡ symbols enc p (n / enc.base) ++ (get_or enc.encode (n % enc.base) 0 ∷ [])
  symbols-suc p n = map-append _ (to_digits enc.base p (n / enc.base)) (n % enc.base ∷ [])

  symbols-suc_zero :
      (p : ℕ) → symbols enc (suc p) 0 ≡ symbols enc p 0 ++ (get_or enc.encode 0 0 ∷ [])
  symbols-suc_zero p = symbols-suc p 0 ∙ rw (zero-div, zero-mod)

  -- The write at `p` that follows or precedes the writes below it.
  below :
      (p c : ℕ) (dst syms : List ℕ)
      → p < length dst
      → syms ++ drop p (set dst p c) ≡ (syms ++ (c ∷ [])) ++ drop (suc p) dst
  below p c dst syms h =
      rw (drop-set dst p c h) (sym (append_assoc syms (c ∷ []) (drop (suc p) dst)))

  pad_block_lem :
      (p : ℕ) (dst : List ℕ)
      → p ≤ length dst
      → pad_block enc p dst ≡ ok (symbols enc p 0 ++ drop p dst)
  unfolding pad_block
  pad_block_lem zero dst h = refl
  pad_block_lem (suc p) dst h = rw (lt→ltb p (length dst) h) (
      pad_block_lem p (set dst p (get_or enc.encode 0 0))
        (omega (arith, length-set dst p (get_or enc.encode 0 0)))
      ∙ ap ok (
          below p (get_or enc.encode 0 0) dst (symbols enc p 0) h
          ∙ ap (λ t. t ++ drop (suc p) dst) (sym (symbols-suc_zero p))))

  -- Enough room, and a number that fits: the digits are written in front.
  fill_block_lem :
      (p num : ℕ) (dst : List ℕ)
      → 0 < enc.base
      → num < enc.base ^ p
      → p ≤ length dst
      → fill_block enc p num dst ≡ ok (symbols enc p num ++ drop p dst)
  unfolding fill_block
  fill_block_lem zero num dst hb fits h = rw (less-one num (rw pow-zero at fits))
    where
      less-one : (n : ℕ) → n < 1 → (n == 0) ≡ true
      less-one n k = ground arith
  fill_block_lem (suc p) num dst hb fits h = elim (Bool-cases (num == 0)) [
    | inl e ↦ rw e (
        pad_block_lem (suc p) dst h
        ∙ ap (λ t. ok (symbols enc (suc p) t ++ drop (suc p) dst)) (sym ((==_iff num 0).0 e)))
    | inr e ↦
        rw (e, lt→ltb p (length dst) h)
          (fill_block_lem p (num / enc.base) (set dst p (get_or enc.encode (num % enc.base) 0)) hb
              (quotient-lt enc.base p num hb fits)
              (omega (arith, length-set dst p (get_or enc.encode (num % enc.base) 0)))
            ∙ ap ok (
                below p (get_or enc.encode (num % enc.base) 0) dst (symbols enc p (num / enc.base))
                  h
                ∙ ap (λ t. t ++ drop (suc p) dst) (sym (symbols-suc p num))))
  ]

ok_triple :
    {A : Type 0} {x y : A} {a b c d : ℕ}
    → x ≡ y
    → a ≡ b
    → c ≡ d
    → ◌≡◌ {A = Result (A × ℕ × ℕ)} (ok (x, a, c)) (ok (y, b, d))
ok_triple p q r = λ i. ok (p i, q i, r i)

module _ (enc : Encoding) (v : IsValid enc) where
  -- A block of at most `base256BlockLen` bytes becomes the digits of its number, in front of `dst`.
  pub encode_block_lem :
      (dst src : List ℕ)
      → 1 ≤ length src
      → length src ≤ enc.base256_block_len
      → All IsByte src
      → enc.log_of_base.ceil (length src) ≤ length dst
      → encode_block enc dst src
        ≡ ok (
            symbols enc (enc.log_of_base.ceil (length src)) (of_digits 256 0 src)
            ++ drop (enc.log_of_base.ceil (length src)) dst)
  unfolding encode_block
  encode_block_lem dst src h k bytes room = rw (encoded_len-block enc v (length src) h k) (
      fill_block_lem enc (enc.log_of_base.ceil (length src)) (of_digits 256 0 src) dst
        (omega (arith, v.base_min)) (value-lt enc v src k bytes) room)

  -- Whole digits are read back, up to the end of the text or of the block.
  read_chars-symbols :
      (off : ℕ) (ds rest : List ℕ) (i good res : ℕ)
      → 1 ≤ length ds
      → All (λ d. d < enc.base) ds
      → good + length ds ≤ enc.base_x_block_len
      → (rest ≡ []) ⊎ (good + length ds ≡ enc.base_x_block_len)
      → read_chars enc off (map (λ d. get_or enc.encode d 0) ds ++ rest) i good res
        ≡ ok (of_digits enc.base res ds, good + length ds, i + length ds)
  unfolding read_chars
  read_chars-symbols off [] rest i good res h digits le end = absurd (omega arith)
  read_chars-symbols off (d ∷ []) rest i good res h digits le end =
      elim (Bool-cases (good + 1 == enc.base_x_block_len)) [
        | inl e ↦ rw (v.decode_encode d digits.0, read_chars, e) refl
        | inr e ↦ elim end [
          | inl nothing ↦ rw (v.decode_encode d digits.0, read_chars, e, nothing) refl
          | inr full ↦ absurd (ground arith)
        ]
      ]
  read_chars-symbols off (d ∷ d' ∷ ds) rest i good res h digits le end =
      rw (v.decode_encode d digits.0, read_chars, later)
        (read_chars-symbols off (d' ∷ ds) rest (i + 1) (good + 1) (res * enc.base + d) (omega arith)
            digits.1 (omega arith) (moved end)
          ∙ ok_triple refl (omega arith) (omega arith))
    where
      later : (good + 1 == enc.base_x_block_len) ≡ false
      later = ground arith

      moved :
          (rest ≡ []) ⊎ (good + suc (suc (length ds)) ≡ enc.base_x_block_len)
          → (rest ≡ []) ⊎ (good + 1 + suc (length ds) ≡ enc.base_x_block_len)
      moved (inl n) = inl n
      moved (inr f) = inr (omega arith)

  pub decode_block_lem :
      (dst src rest : List ℕ) (off : ℕ)
      → 1 ≤ length src
      → length src ≤ enc.base256_block_len
      → All IsByte src
      → length src ≤ length dst
      → (rest ≡ []) ⊎ (length src ≡ enc.base256_block_len)
      → decode_block enc dst
          (symbols enc (enc.log_of_base.ceil (length src)) (of_digits 256 0 src) ++ rest)
          off
        ≡ ok (src ++ drop (length src) dst, length src, enc.log_of_base.ceil (length src))
  unfolding decode_block
  decode_block_lem dst src rest off h k bytes room end =
      rw
        (
          read,
          is_valid_encoding_length-ceil enc v (length src) chars k refl,
          decoded_len-block enc v (length src) h k,
          le→ltb (length dst) (length src) room,
        )
        (ok_triple front refl refl)
    where
      chars : ℕ
      chars = enc.log_of_base.ceil (length src)

      value : ℕ
      value = of_digits 256 0 src

      base_pos : 0 < enc.base
      base_pos = omega (arith, v.base_min)

      raw : List ℕ
      raw = big_bytes value

      padded : IsPadded (length src) raw (to_digits 256 (length src) value)
      padded =
          big_bytes-IsPadded (length src) value
            (omega (arith, of_digits-lt 256 0 (length src) src refl bytes))

      front :
          replicate (length src - length raw) 0
            ++ (take (length src - (length src - length raw)) raw ++ drop (length src) dst)
          ≡ src ++ drop (length src) dst
      front =
          ap (λ t. replicate (length src - length raw) 0 ++ (t ++ drop (length src) dst))
            (take-all (length src - (length src - length raw)) raw (omega (arith, padded.0)))
          ∙ sym (append_assoc (replicate (length src - length raw) 0) raw (drop (length src) dst))
          ∙ ap (λ t. t ++ drop (length src) dst)
              (padded.1 ∙ to_digits-of_digits 256 (length src) src refl bytes)

      read : read_chars enc off (symbols enc chars value ++ rest) 0 0 0 ≡ ok (value, chars, chars)
      read =
          read_chars-symbols off (to_digits enc.base chars value) rest 0 0 0
            (omega (arith, length-to_digits enc.base chars value, ceil_pos enc v (length src) h k))
            (to_digits-lt enc.base chars value base_pos)
            (omega (arith, length-to_digits enc.base chars value, within enc v (length src) k))
            (elim end [
              | inl n ↦ inl n
              | inr f ↦ inr (
                  omega (
                    arith,
                    length-to_digits enc.base chars value,
                    ap enc.log_of_base.ceil f,
                    v.block_len,
                  ))
            ])
          ∙ ok_triple
              (of_digits-to_digits enc.base chars value base_pos (value-lt enc v src k bytes))
              (omega (arith, length-to_digits enc.base chars value))
              (omega (arith, length-to_digits enc.base chars value))
