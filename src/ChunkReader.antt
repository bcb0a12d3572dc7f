-- ===== src/ChunkReader.antt =====
-- chunk_reader.go: an io.Reader over a source of chunks, and io.ReadAll over it. The chunker is
-- any state with a `getNextChunk`, as the Go interface is; it may panic.
pub mod Laws
use saltpack.Base.{
  ℕ, zero, suc, ◌+◌, ◌-◌, ◌≤◌, ◌≡◌, refl, arith, Bool, true, false, ◌&&◌, Option, none, some, List,
  [], ◌∷◌, ◌++◌, length, take, drop, ltb, ◌==◌, min, if◌then◌else◌,
}
use saltpack.Errors.{Error, Result, ok, err, panic, ◌>>=◌, is_eof}

-- What `getNextChunk` returns: a chunk with an error, or nil.
pub record Chunk : Type 0 where
  pub bytes : List ℕ
  pub error : Option Error

abbrev pub Chunker : Type 0 → Type 0
Chunker C = C → Result Chunk × C

pub record ChunkReader (C : Type 0) : Type 0 where
  pub chunker : C
  pub prev_chunk : List ℕ
  pub prev_err : Option Error

-- What `Read` returns: the bytes copied into the front of `p`, and the error or nil.
pub record ReadResult : Type 0 where
  pub copied : List ℕ
  pub error : Option Error

abbrev pub is_none {ℓ} : {A : Type ℓ} → Option A → Bool
is_none none = true
is_none (some a) = false

module _ {C : Type 0} (get_next_chunk : Chunker C) where
  unfoldable pub new_chunk_reader : C → ChunkReader C
  new_chunk_reader c = record { chunker = c; prev_chunk = []; prev_err = none }

  -- The loop of `Read`, with `room` bytes of `p` left and `out` copied so far. A round that goes on
  -- has filled a byte of `p` or is the first, so that `room + 2` rounds are enough.
  unfoldable pub read_loop : ℕ → ℕ → List ℕ → ChunkReader C → Result ReadResult × ChunkReader C
  read_loop zero room out r = (panic, r)
  read_loop (suc fuel) room out r =
      let out' = out ++ take room r.prev_chunk in
      let left = drop room r.prev_chunk in
      let room' = room - min room (length r.prev_chunk) in
      let r' = record r { prev_chunk = left } in
      elim left [
        | x ∷ xs ↦ (ok (record { copied = out'; error = none }), r')
        | [] ↦ elim r.prev_err [
          | some e ↦ (ok (record { copied = out'; error = some e }), r')
          | none ↦
              let (next, c) = get_next_chunk r.chunker in
              elim next [
                | panic ↦ (panic, record r' { chunker = c })
                | err e ↦ (err e, record r' { chunker = c })
                | ok chunk ↦
                    let again =
                      read_loop fuel room' out' (record {
                        chunker = c;
                        prev_chunk = chunk.bytes;
                        prev_err = chunk.error;
                      }) in
                    if length chunk.bytes == 0 && is_none chunk.error
                    then (panic, record r' { chunker = c })
                    else again
              ]
        ]
      ]

  unfoldable pub read : ℕ → ChunkReader C → Result ReadResult × ChunkReader C
  unfolding read_loop
  read len_p r = read_loop (len_p + 2) len_p [] r

  -- `io.ReadAll`: reads until an error, and takes `io.EOF` for success. The size of the buffer
  -- that call number `i` gets is `size i`.
  unfoldable pub read_all :
      ℕ → (ℕ → ℕ) → ℕ → List ℕ → ChunkReader C → Result (List ℕ × Option Error)
  read_all zero size i acc r = panic
  read_all (suc fuel) size i acc r =
      let (res, r') = read (size i) r in
      elim res [
        | panic ↦ panic
        | err e ↦ err e
        | ok got ↦ elim got.error [
          | none ↦ read_all fuel size (i + 1) (acc ++ got.copied) r'
          | some e ↦ ok (acc ++ got.copied, if is_eof e then none else some e)
        ]
      ]
