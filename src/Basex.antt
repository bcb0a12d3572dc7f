-- ===== src/Basex.antt =====
-- encoding/basex/encoding.go and bases.go: radix-X encoding of bytes in blocks, and
-- `EncodeToString` and `DecodeString` of stream.go. A byte slice is a list of numbers; a slice
-- whose end lies behind the length of its buffer is taken as a panic.
pub mod Decoding
pub mod Lengths
pub mod Blocks
pub mod RoundTrip
pub mod Exact
pub mod Streaming
use saltpack.Base.{
  ℕ, zero, suc, ◌+◌, ◌*◌, ◌/◌, ◌%◌, Bool, true, false, not, Option, none, some, List, [], ◌∷◌, ◌++◌,
  length, get_or, set, take, drop, replicate, ltb, ◌==◌, if◌then◌else◌,
}
use saltpack.Const.{codes}
use saltpack.Errors.{Result, ok, panic, ◌>>=◌}
use saltpack.Radix.{of_digits}

-- The two results of float64 arithmetic that the code truncates to integers, for a base:
-- `ceil n` is `int(math.Ceil(float64(8*n) / math.Log2(float64(base))))`, and
-- `floor n` is `int(math.Floor(float64(n) * math.Log2(float64(base)) / float64(8)))`.
pub record Rounding : Type 0 where
  pub ceil : ℕ → ℕ
  pub floor : ℕ → ℕ

pub record Encoding : Type 0 where
  pub encode : List ℕ
  pub decode_map : ℕ → Option ℕ
  pub skip_map : ℕ → Bool
  pub base256_block_len : ℕ
  pub base_x_block_len : ℕ
  pub base : ℕ
  pub log_of_base : Rounding
  pub skip_bytes : List ℕ

-- `e.decodeMap[encoder[i]] = i` for each `i` from `i` on.
abbrev pub fill_decode_map : List ℕ → ℕ → (ℕ → Option ℕ) → ℕ → Option ℕ
fill_decode_map [] i m = m
fill_decode_map (c ∷ cs) i m = fill_decode_map cs (i + 1) (λ b. if b == c then some i else m b)

-- `e.skipMap[c] = true` for each skip byte.
abbrev pub fill_skip_map : List ℕ → (ℕ → Bool) → ℕ → Bool
fill_skip_map [] m = m
fill_skip_map (c ∷ cs) m = fill_skip_map cs (λ b. if b == c then true else m b)

unfoldable pub new_encoding : (ℕ → Rounding) → List ℕ → ℕ → List ℕ → Encoding
new_encoding log2 encoder base256_block_len skip_bytes =
    let base = length encoder in
    let log_of_base = log2 base in
    record {
      encode = encoder;
      decode_map = fill_decode_map encoder 0 (λ b. none);
      skip_map = fill_skip_map skip_bytes (λ b. false);
      base256_block_len = base256_block_len;
      base_x_block_len = log_of_base.ceil base256_block_len;
      base = base;
      log_of_base = log_of_base;
      skip_bytes = skip_bytes;
    }

abbrev pub base62_encode_std : List ℕ
base62_encode_std = codes "0123456789ABCDEFGHIJKLMNOPQRSTUVWXYZabcdefghijklmnopqrstuvwxyz"

abbrev pub base62_skip_bytes : List ℕ
base62_skip_bytes = 9 ∷ 10 ∷ 13 ∷ 32 ∷ 62 ∷ []

unfoldable pub base62_std_encoding : (ℕ → Rounding) → Encoding
unfolding new_encoding
base62_std_encoding log2 = new_encoding log2 base62_encode_std 32 base62_skip_bytes

pub data ByteType : Type 0 where
  normal skip invalid : ByteType

module _ (enc : Encoding) where
  unfoldable pub get_byte_type : ℕ → ByteType
  get_byte_type b = elim (enc.decode_map b) [
    | some v ↦ normal
    | none ↦ if enc.skip_map b then skip else invalid
  ]

  unfoldable pub has_skip_bytes : Bool
  has_skip_bytes = ltb 0 (length enc.skip_bytes)

  unfoldable pub is_valid_byte : ℕ → Bool
  is_valid_byte b = elim (enc.decode_map b) [ some v ↦ true | none ↦ enc.skip_map b ]

  -- `EncodedLen`, the fast path for a full block included.
  unfoldable pub encoded_len : ℕ → ℕ
  encoded_len n =
      if n == enc.base256_block_len
      then enc.base_x_block_len
      else let nblocks = n / enc.base256_block_len in
        let rem = n % enc.base256_block_len in
        let out = nblocks * enc.base_x_block_len in
        if ltb 0 rem then out + enc.log_of_base.ceil rem else out

  unfoldable pub decoded_len : ℕ → ℕ
  decoded_len n =
      if n == enc.base_x_block_len
      then enc.base256_block_len
      else let nblocks = n / enc.base_x_block_len in
        let rem = n % enc.base_x_block_len in
        let out = nblocks * enc.base256_block_len in
        if ltb 0 rem then out + enc.log_of_base.floor rem else out

  -- `f(n) != f(n-1)` at `n = 0` compares with `f(-1)`, which is at most -1 for a base above 1, so
  -- that the test holds there.
  unfoldable pub is_valid_encoding_length : ℕ → Bool
  is_valid_encoding_length zero = true
  is_valid_encoding_length (suc n) =
      if suc n == enc.base_x_block_len
      then true
      else not (enc.log_of_base.floor (suc n) == enc.log_of_base.floor n)

  -- The two loops of `encodeBlock`, with `p + 1` positions still to be written. A write at
  -- position -1 or behind the end of `dst` panics.
  pub pad_block : ℕ → List ℕ → Result (List ℕ)
  pad_block zero dst = ok dst
  pad_block (suc p) dst =
      let rest = pad_block p (set dst p (get_or enc.encode 0 0)) in
      if ltb p (length dst) then rest else panic

  pub fill_block : ℕ → ℕ → List ℕ → Result (List ℕ)
  unfolding pad_block
  fill_block zero num dst = if num == 0 then ok dst else panic
  fill_block (suc p) num dst =
      let rest = fill_block p (num / enc.base) (set dst p (get_or enc.encode (num % enc.base) 0)) in
      if num == 0 then pad_block (suc p) dst else if ltb p (length dst) then rest else panic

  unfoldable pub encode_block : List ℕ → List ℕ → Result (List ℕ)
  unfolding fill_block encoded_len
  encode_block dst src = fill_block (encoded_len (length src)) (of_digits 256 0 src) dst

  -- `Encode` over what is left of `dst` and `src`. A round takes a byte of `src` at least, so that
  -- `length src` rounds are enough for a block length above 0.
  unfoldable pub encode_loop : ℕ → List ℕ → List ℕ → Result (List ℕ)
  unfolding encode_block
  encode_loop fuel dst [] = ok dst
  encode_loop zero dst (b ∷ src) = panic
  encode_loop (suc fuel) dst (b ∷ src) = do
    block ← encode_block (take enc.base_x_block_len dst) (take enc.base256_block_len (b ∷ src))
    rest ← encode_loop fuel (drop enc.base_x_block_len dst) (drop enc.base256_block_len (b ∷ src))
    ok (block ++ rest)

  unfoldable pub encode_to : List ℕ → List ℕ → Result (List ℕ)
  unfolding encode_loop
  encode_to dst src = encode_loop (length src) dst src

  unfoldable pub encode_to_string : List ℕ → Result (List ℕ)
  unfolding encode_to
  encode_to_string src = encode_to (replicate (encoded_len (length src)) 0) src
