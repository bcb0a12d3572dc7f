-- ===== src/Basex/Lengths.antt =====
-- The lengths of encoding/basex/encoding.go: what is assumed of the float arithmetic, and how
-- `EncodedLen`, `DecodedLen` and `IsValidEncodingLength` fit together.
use saltpack.Base.{
  ℕ, zero, suc, ◌+◌, ◌-◌, ◌*◌, ◌/◌, ◌%◌, ◌^◌, ◌≤◌, ◌<◌, ◌≡◌, ◌↔◌, refl, sym, ap, ◌∙◌, arith, All,
  true, some, List, length, get_or, Bool-cases, inl, inr, if◌then◌else◌, ◌==◌, ltb, min, ==_iff,
  ==_refl, lt→ltb,
}
use saltpack.Basex.{Encoding, Rounding, encoded_len, decoded_len, is_valid_encoding_length}
use saltpack.Radix.{of_digits, of_digits-lt, IsByte}
use native.Mathlib.Decide.{dec_le}
use native.Mathlib.Nat.{
  min-eq_right, sub-eq-zero_of_le, zero-div, zero-mod, pow-suc, pow-zero, le_refl, le_trans,
  one-le-pow, lt_of_not-le, not-le_of_lt, mul-le-mul, mul-le-mul_right, div-eq_of_lt, mod-eq_of_lt,
  pow-le-pow_right,
}

-- Up to `limit` the float results are the exact ones: `ceil n` is the least number of characters
-- that can hold `n` bytes, and `floor n` is the greatest number of bytes that `n` characters hold.
pub record IsRounding (base limit : ℕ) (r : Rounding) : Type 0 where
  pub ceil_iff : (n m : ℕ) → n ≤ limit → (r.ceil n ≤ m) ↔ (256 ^ n ≤ base ^ m)
  pub floor_iff : (n m : ℕ) → n ≤ limit → (m ≤ r.floor n) ↔ (256 ^ m ≤ base ^ n)

-- An encoding as `NewEncoding` makes it from an alphabet of different characters.
pub record IsValid (enc : Encoding) : Type 0 where
  pub base_min : 2 ≤ enc.base
  pub base_max : enc.base < 256
  pub block_pos : 1 ≤ enc.base256_block_len
  pub block_len : enc.base_x_block_len ≡ enc.log_of_base.ceil enc.base256_block_len
  pub block_le : enc.base256_block_len ≤ enc.base_x_block_len
  pub rounds : IsRounding enc.base enc.base_x_block_len enc.log_of_base
  pub decode_encode : (i : ℕ) → i < enc.base → enc.decode_map (get_or enc.encode i 0) ≡ some i

module _ (base limit : ℕ) (r : Rounding) (rounds : IsRounding base limit r) (lo : 2 ≤ base)
    (hi : base < 256) where
  open rounds use {ceil_iff, floor_iff}

  ceil_enough : (n : ℕ) → n ≤ limit → 256 ^ n ≤ base ^ r.ceil n
  ceil_enough n h = (ceil_iff n (r.ceil n) h).0 (le_refl _)

  -- One character less is not enough.
  too_short : (n c : ℕ) → n ≤ limit → r.ceil n ≡ suc c → base ^ c < 256 ^ n
  too_short n c h e = lt_of_not-le (λ k. omega (arith, (ceil_iff n c h).1 k))

  -- The characters that hold `n` bytes do not hold one more.
  ceil-lt : (n c : ℕ) → n ≤ limit → r.ceil n ≡ c → base ^ c < 256 ^ suc n
  ceil-lt n zero h e = rw (pow-zero, pow-suc) (omega (arith, one-le-pow n 256))
  ceil-lt n (suc c) h e =
      rw (pow-suc, pow-suc)
        (omega (
          arith,
          mul-le-mul_right base (too_short n c h e),
          mul-le-mul (le_refl (256 ^ n)) hi,
          one-le-pow n 256,
        ))

  pub floor-ceil : (n : ℕ) → n ≤ limit → r.ceil n ≤ limit → r.floor (r.ceil n) ≡ n
  floor-ceil n h k = omega (arith, fits, no_more)
    where
      fits : n ≤ r.floor (r.ceil n)
      fits = (floor_iff (r.ceil n) n k).1 (ceil_enough n h)

      no_more : r.floor (r.ceil n) < suc n
      no_more =
          lt_of_not-le
            (λ q. not-le_of_lt (ceil-lt n (r.ceil n) h refl) ((floor_iff (r.ceil n) (suc n) k).0 q))

  pub floor-ceil_pred : (n c : ℕ) → n ≤ limit → r.ceil n ≡ suc c → suc c ≤ limit → r.floor c < n
  floor-ceil_pred n c h e k =
      lt_of_not-le (λ q. not-le_of_lt (too_short n c h e) ((floor_iff c n (omega arith)).0 q))

  pub ceil-pos : (n : ℕ) → 1 ≤ n → n ≤ limit → 1 ≤ r.ceil n
  ceil-pos n h k =
      lt_of_not-le (λ q. not-le_of_lt (big n h) (rw pow-zero at ((ceil_iff n 0 k).0 q)))
    where
      big : (n : ℕ) → 1 ≤ n → 1 < 256 ^ n
      big n h = le_trans (omega arith) (pow-le-pow_right (omega arith) h)

  pub ceil_mono : (n m : ℕ) → n ≤ m → m ≤ limit → r.ceil n ≤ r.ceil m
  ceil_mono n m h k =
      (ceil_iff n (r.ceil m) (omega arith)).1
        (le_trans (pow-le-pow_right (omega arith) h) (ceil_enough m k))

-- The shape of both lengths: whole blocks of `a`, each for `b`, and `f` of what is left.
abbrev by_blocks : ℕ → ℕ → (ℕ → ℕ) → ℕ → ℕ
by_blocks a b f n = if n == a then b else if ltb 0 (n % a) then n / a * b + f (n % a) else n / a * b

one_block : (a m : ℕ) → 0 < a → ((a + m) / a ≡ m / a + 1) × ((a + m) % a ≡ m % a)
one_block a m h = (grind arith, grind arith)

self_block : (a : ℕ) → 0 < a → (a / a ≡ 1) × (a % a ≡ 0)
self_block a h = (grind arith, grind arith)

abbrev tail_block : (ℕ → ℕ) → ℕ → ℕ
tail_block f r = if ltb 0 r then f r else 0

-- The fast path for one block gives what the division gives.
by_blocks-plain :
    (a b : ℕ) (f : ℕ → ℕ) (n : ℕ) → 0 < a → by_blocks a b f n ≡ n / a * b + tail_block f (n % a)
by_blocks-plain a b f n h = elim (Bool-cases (n == a)) [
  | inl e ↦ rw ((==_iff n a).0 e, (self_block a h).0, (self_block a h).1, ==_refl) (omega arith)
  | inr e ↦ rw e (ground arith)
]

by_blocks-step :
    (a b : ℕ) (f : ℕ → ℕ) (m : ℕ) → 0 < a → by_blocks a b f (a + m) ≡ b + by_blocks a b f m
by_blocks-step a b f m h =
    by_blocks-plain a b f (a + m) h
    ∙ rw ((one_block a m h).0, (one_block a m h).1) (omega (arith, by_blocks-plain a b f m h))

by_blocks-short : (a b : ℕ) (f : ℕ → ℕ) (n : ℕ) → 0 < n → n < a → by_blocks a b f n ≡ f n
by_blocks-short a b f n h k =
    by_blocks-plain a b f n (omega arith)
    ∙ rw (div-eq_of_lt k, mod-eq_of_lt k, lt→ltb 0 n h) (omega arith)

module _ (enc : Encoding) (v : IsValid enc) where
  -- The characters of a block of `n` bytes.
  pub encoded_len-block :
      (n : ℕ) → 1 ≤ n → n ≤ enc.base256_block_len → encoded_len enc n ≡ enc.log_of_base.ceil n
  unfolding encoded_len
  encoded_len-block n h k = elim (Bool-cases (n == enc.base256_block_len)) [
    | inl e ↦ rw e (v.block_len ∙ ap enc.log_of_base.ceil (sym ((==_iff _ _).0 e)))
    | inr e ↦
        by_blocks-short enc.base256_block_len enc.base_x_block_len enc.log_of_base.ceil n h
          (ground arith)
  ]

  pub encoded_len-step :
      (m : ℕ)
      → encoded_len enc (enc.base256_block_len + m) ≡ enc.base_x_block_len + encoded_len enc m
  unfolding encoded_len
  encoded_len-step m =
      by_blocks-step enc.base256_block_len enc.base_x_block_len enc.log_of_base.ceil m v.block_pos

  pub within : (n : ℕ) → n ≤ enc.base256_block_len → enc.log_of_base.ceil n ≤ enc.base_x_block_len
  within n h = rw v.block_len (
      ceil_mono enc.base enc.base_x_block_len enc.log_of_base v.rounds v.base_min v.base_max n
        enc.base256_block_len h v.block_le)

  floor_back :
      (n : ℕ) → n ≤ enc.base256_block_len → enc.log_of_base.floor (enc.log_of_base.ceil n) ≡ n
  floor_back n h =
      floor-ceil enc.base enc.base_x_block_len enc.log_of_base v.rounds v.base_min v.base_max n
        (omega (arith, v.block_le)) (within n h)

  pub ceil_pos : (n : ℕ) → 1 ≤ n → n ≤ enc.base256_block_len → 1 ≤ enc.log_of_base.ceil n
  ceil_pos n h k =
      ceil-pos enc.base enc.base_x_block_len enc.log_of_base v.rounds v.base_min v.base_max n h
        (omega (arith, v.block_le))

  pub decoded_len-block :
      (n : ℕ) → 1 ≤ n → n ≤ enc.base256_block_len → decoded_len enc (enc.log_of_base.ceil n) ≡ n
  unfolding decoded_len
  decoded_len-block n h k = elim (Bool-cases (enc.log_of_base.ceil n == enc.base_x_block_len)) [
    | inl e ↦ rw e (
        sym (floor_back enc.base256_block_len (omega arith))
        ∙ ap enc.log_of_base.floor (sym v.block_len ∙ sym ((==_iff _ _).0 e))
        ∙ floor_back n k)
    | inr e ↦
        by_blocks-short enc.base_x_block_len enc.base256_block_len enc.log_of_base.floor
          (enc.log_of_base.ceil n) (ceil_pos n h k) (ground (arith, within n k))
        ∙ floor_back n k
  ]

  pub decoded_len-step :
      (m : ℕ)
      → decoded_len enc (enc.base_x_block_len + m) ≡ enc.base256_block_len + decoded_len enc m
  unfolding decoded_len
  decoded_len-step m =
      by_blocks-step enc.base_x_block_len enc.base256_block_len enc.log_of_base.floor m
        (omega (arith, v.block_pos, v.block_le))

  pub is_valid_encoding_length-ceil :
      (n c : ℕ)
      → n ≤ enc.base256_block_len
      → enc.log_of_base.ceil n ≡ c
      → is_valid_encoding_length enc c ≡ true
  unfolding is_valid_encoding_length
  is_valid_encoding_length-ceil n zero h e = refl
  is_valid_encoding_length-ceil n (suc c) h e = ground (arith, shorter, longer)
    where
      shorter : enc.log_of_base.floor c < n
      shorter =
          floor-ceil_pred enc.base enc.base_x_block_len enc.log_of_base v.rounds v.base_min
            v.base_max n c (omega (arith, v.block_le)) e (rw e at (within n h))

      longer : enc.log_of_base.floor (suc c) ≡ n
      longer = ap enc.log_of_base.floor (sym e) ∙ floor_back n h

  -- The number of a block fits the characters of the block.
  pub value-lt :
      (src : List ℕ)
      → length src ≤ enc.base256_block_len
      → All IsByte src
      → of_digits 256 0 src < enc.base ^ enc.log_of_base.ceil (length src)
  value-lt src k bytes = le_trans (of_digits-lt 256 0 (length src) src refl bytes) (
      omega (
        arith,
        ceil_enough enc.base enc.base_x_block_len enc.log_of_base v.rounds v.base_min v.base_max
            (length src) (omega (arith, v.block_le)),
      ))

  pub encoded_len-zero : encoded_len enc 0 ≡ 0
  unfolding encoded_len
  encoded_len-zero =
      by_blocks-plain enc.base256_block_len enc.base_x_block_len enc.log_of_base.ceil 0 v.block_pos
      ∙ rw (zero-div, zero-mod) (omega arith)

  -- The first block of a text, and what is left of it.
  pub encoded_len-split :
      (n : ℕ)
      → 1 ≤ n
      → (min enc.base_x_block_len (encoded_len enc n)
          ≡ enc.log_of_base.ceil (min enc.base256_block_len n))
        × (encoded_len enc n - enc.base_x_block_len ≡ encoded_len enc (n - enc.base256_block_len))
  encoded_len-split n h = elim (dec_le n enc.base256_block_len) [
    | yes k ↦
        rw (min-eq_right k, encoded_len-block n h k, (sub-eq-zero_of_le k), encoded_len-zero)
          (min-eq_right (within n k), sub-eq-zero_of_le (within n k))
    | no k ↦ (
      omega (arith, step n (omega arith))
          ∙ v.block_len
          ∙ ap enc.log_of_base.ceil {x = enc.base256_block_len} {y = min enc.base256_block_len n}
              (omega arith),
      omega (arith, step n (omega arith)),
    )
  ]
    where
      step :
          (n : ℕ)
          → enc.base256_block_len ≤ n
          → encoded_len enc n ≡ enc.base_x_block_len + encoded_len enc (n - enc.base256_block_len)
      step n k =
          ap (encoded_len enc) {x = n} {y = enc.base256_block_len + (n - enc.base256_block_len)}
            (omega arith)
          ∙ encoded_len-step (n - enc.base256_block_len)

  decoded_len-zero : decoded_len enc 0 ≡ 0
  unfolding decoded_len
  decoded_len-zero =
      by_blocks-plain enc.base_x_block_len enc.base256_block_len enc.log_of_base.floor 0
        (omega (arith, v.block_pos, v.block_le))
      ∙ rw (zero-div, zero-mod) (omega arith)

  decoded_len-encoded_len_fuel : (f n : ℕ) → n ≤ f → decoded_len enc (encoded_len enc n) ≡ n
  decoded_len-encoded_len_fuel f zero h = rw encoded_len-zero decoded_len-zero
  decoded_len-encoded_len_fuel zero (suc n) h = absurd (omega arith)
  decoded_len-encoded_len_fuel (suc f) (suc n) h = elim (dec_le (suc n) enc.base256_block_len) [
    | yes k ↦
        rw (encoded_len-block (suc n) (omega arith) k) (decoded_len-block (suc n) (omega arith) k)
    | no k ↦
        ap (λ t. decoded_len enc (encoded_len enc t)) {x = suc n}
          {y = enc.base256_block_len + (suc n - enc.base256_block_len)} (omega arith)
        ∙ ap (decoded_len enc) (encoded_len-step (suc n - enc.base256_block_len))
        ∙ decoded_len-step (encoded_len enc (suc n - enc.base256_block_len))
        ∙ omega (
          arith,
          decoded_len-encoded_len_fuel f (suc n - enc.base256_block_len)
              (omega (arith, v.block_pos)),
        )
  ]

  -- `DecodedLen` of `EncodedLen` is the length, for a valid encoding.
  pub decoded_len-encoded_len : (n : ℕ) → decoded_len enc (encoded_len enc n) ≡ n
  decoded_len-encoded_len n = decoded_len-encoded_len_fuel n n (le_refl n)
