-- ===== src/Basex/Streaming.antt =====
-- encoding/basex/stream.go: the encoder of a stream. The writer under it is a `bytes.Buffer`,
-- which takes all that it is given: the error that the code keeps of a failed write and the number of
-- bytes that `Write` then returns are left out, as is that number after a write without error, which
-- is the length of the bytes.
pub mod Runs
pub mod Writes
pub mod Fringe
pub mod Whole
pub mod Prefix
use saltpack.Base.{
  ℕ, zero, suc, ◌+◌, ◌-◌, ◌*◌, ◌/◌, ◌%◌, List, [], ◌∷◌, ◌++◌, length, take, drop, replicate, ltb,
  leb, min, if◌then◌else◌,
}
use saltpack.Errors.{Result, ok, panic, ◌>>=◌}
use saltpack.Basex.{Encoding, encode_to, encoded_len}

pub record Encoder : Type 0 where
  -- what the writer has been given
  pub w : List ℕ
  -- `buf[:nbuf]`
  pub buf : List ℕ

unfoldable pub new_encoder : Encoder
new_encoder = record { w = []; buf = [] }

module _ (enc : Encoding) where
  -- The length of the buffer `out`.
  abbrev pub out_len : ℕ
  out_len = 128 * enc.base_x_block_len

  -- `Encode` into `out`, of which the first `n` bytes are written. `out` is zeros at first here: what
  -- an earlier call left in it is overwritten or not written out.
  unfoldable pub emit : ℕ → List ℕ → List ℕ → Result (List ℕ)
  emit n src w = do out ← encode_to enc (replicate out_len 0) src; ok (w ++ take n out)

  -- How much of `p` a round of the loop takes: what fills `out`, or all whole blocks.
  unfoldable pub interior_len : ℕ → ℕ
  interior_len len =
      let nn = out_len / enc.base_x_block_len * enc.base256_block_len in
      if ltb len nn then len - len % enc.base256_block_len else nn

  -- The loop over the large interior chunks, and then the trailing fringe. A round takes a byte of
  -- `p` at least, so that its length is enough fuel for a block length above 0.
  unfoldable pub interior : ℕ → List ℕ → List ℕ → Result Encoder
  interior zero p w =
      if leb enc.base256_block_len (length p) then panic else ok (record { w = w; buf = p })
  interior (suc fuel) p w =
      let nn = interior_len (length p) in
      let again = do
        w' ← emit (nn / enc.base256_block_len * enc.base_x_block_len) (take nn p) w
        interior fuel (drop nn p) w'
      in if leb enc.base256_block_len (length p) then again else ok (record { w = w; buf = p })

  unfoldable pub write : List ℕ → Encoder → Result Encoder
  write p e =
      let i = min (length p) (enc.base256_block_len - length e.buf) in
      let buf = e.buf ++ take i p in
      let filled = do w ← emit enc.base_x_block_len buf e.w; interior (length p) (drop i p) w
      in if ltb 0 (length e.buf)
        then if ltb (length buf) enc.base256_block_len then ok (record e { buf = buf }) else filled
        else interior (length p) p e.w

  unfoldable pub close : Encoder → Result Encoder
  close e =
      let flushed = do
        w ← emit (encoded_len enc (length e.buf)) e.buf e.w
        ok (record { w = w; buf = [] })
      in if ltb 0 (length e.buf) then flushed else ok e

  -- Any series of calls of `Write`.
  unfoldable pub write_all : List (List ℕ) → Encoder → Result Encoder
  write_all [] e = ok e
  write_all (p ∷ ps) e = do e' ← write p e; write_all ps e'
