-- ===== src/Basex/Decoding.antt =====
-- `decodeBlock`, `decode` and `Decode` of encoding/basex/encoding.go, and `DecodeString` of
-- encoding/basex/stream.go.
use saltpack.Base.{
  ℕ, zero, suc, ◌+◌, ◌-◌, ◌*◌, not, Option, none, some, List, [], ◌∷◌, ◌++◌, length, take, drop,
  replicate, ltb, ◌==◌, if◌then◌else◌,
}
use saltpack.Errors.{
  Error, Result, ok, err, panic, ◌>>=◌, ◌>>◌, fail_if, panic_if, corrupt_input,
  invalid_encoding_length,
}
use saltpack.Radix.{big_bytes}
use saltpack.Basex.{Encoding, decoded_len, is_valid_encoding_length}

module _ (enc : Encoding) where
  -- The loop over `src`, with the index `i`, `numGoodChars` and `res`: what it leaves in `res`,
  -- `numGoodChars` and `si`.
  unfoldable pub read_chars : ℕ → List ℕ → ℕ → ℕ → ℕ → Result (ℕ × ℕ × ℕ)
  read_chars base_offset [] i good res = ok (res, good, i)
  read_chars base_offset (b ∷ src) i good res = elim (enc.decode_map b) [
    | none ↦
        let rest = read_chars base_offset src (i + 1) good res in
        if enc.skip_map b then rest else err (corrupt_input (i + base_offset))
    | some v ↦
        let res' = res * enc.base + v in
        let rest = read_chars base_offset src (i + 1) (good + 1) res' in
        if good + 1 == enc.base_x_block_len then ok (res', good + 1, i + 1) else rest
  ]

  -- The new `dst`, with the two numbers returned.
  unfoldable pub decode_block : List ℕ → List ℕ → ℕ → Result (List ℕ × ℕ × ℕ)
  unfolding read_chars
  decode_block dst src base_offset = do
    (res, good, si) ← read_chars base_offset src 0 0 0
    fail_if (not (is_valid_encoding_length enc good)) invalid_encoding_length
    let padded_len = decoded_len enc good
    let raw = big_bytes res
    let p = padded_len - length raw
    panic_if (ltb (length dst) padded_len)
    ok (replicate p 0 ++ (take (padded_len - p) raw ++ drop padded_len dst), padded_len, si)

  -- `decode` over what is left of `dst` and `src`: the new `dst`, the number of bytes written, and
  -- the error. A round takes a character at least, so that `length src` rounds are enough.
  unfoldable pub decode_loop : ℕ → List ℕ → List ℕ → ℕ → Result (List ℕ × ℕ × Option Error)
  decode_loop fuel dst [] sp = ok (dst, 0, none)
  decode_loop zero dst (b ∷ src) sp = panic
  decode_loop (suc fuel) dst (b ∷ src) sp = elim (decode_block dst (b ∷ src) sp) [
    | panic ↦ panic
    | err e ↦ ok (dst, 0, some e)
    | ok (dst', di, si) ↦ do
      (rest, n, e) ← decode_loop fuel (drop di dst') (drop si (b ∷ src)) (sp + si)
      ok (take di dst' ++ rest, di + n, e)
  ]

  unfoldable pub decode : List ℕ → List ℕ → Result (List ℕ × ℕ × Option Error)
  unfolding decode_loop decode_block
  decode dst src = decode_loop (length src) dst src 0

  unfoldable pub decode_string : List ℕ → Result (List ℕ × Option Error)
  unfolding decode
  decode_string s = do
    (dbuf, n, e) ← decode (replicate (decoded_len enc (length s)) 0) s
    ok (take n dbuf, e)
