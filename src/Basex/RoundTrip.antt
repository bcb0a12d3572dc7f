-- ===== src/Basex/RoundTrip.antt =====
-- `EncodeToString` and `DecodeString` of encoding/basex/stream.go on texts of any length.
use saltpack.Base.{
  ℕ, zero, suc, ◌+◌, ◌-◌, ◌≤◌, ◌≡◌, refl, sym, ap, ◌∙◌, arith, none, List, [], ◌∷◌, ◌++◌, map,
  length, length-append, length-take, length-drop, take, drop, take-all, drop-all, take-append,
  drop-append, take-append-drop, replicate, length-replicate, get_or, All, All-take, All-drop,
  append-nil, min, inl, inr, ◌⊎◌,
}
use saltpack.Errors.{ok}
use saltpack.Radix.{of_digits, to_digits, length-to_digits, IsByte}
use saltpack.Basex.{Encoding, encode_block, encode_loop, encode_to, encode_to_string, encoded_len}
use saltpack.Basex.{decoded_len}
use saltpack.Basex.Decoding.{decode_block, decode_loop, decode, decode_string}
use saltpack.Basex.Lengths.{
  IsValid, encoded_len-split, encoded_len-zero, decoded_len-encoded_len, ceil_pos,
}
use saltpack.Basex.Blocks.{symbols, encode_block_lem, decode_block_lem}
use native.Mathlib.Decide.{dec_le}

length-map-ℕ : (f : ℕ → ℕ) (xs : List ℕ) → length (map f xs) ≡ length xs
length-map-ℕ f [] = refl
length-map-ℕ f (x ∷ xs) = ap suc (length-map-ℕ f xs)

length-zero : (xs : List ℕ) → length xs ≡ 0 → xs ≡ []
length-zero [] h = refl
length-zero (x ∷ xs) h = absurd (omega arith)

module _ (enc : Encoding) where
  abbrev pub characters : List ℕ → List ℕ
  characters blk = symbols enc (enc.log_of_base.ceil (length blk)) (of_digits 256 0 blk)

  -- The encoding, block by block, with as many blocks at most as the first argument says.
  unfoldable pub encoded : ℕ → List ℕ → List ℕ
  encoded f [] = []
  encoded zero (b ∷ src) = []
  encoded (suc f) (b ∷ src) =
      characters (take enc.base256_block_len (b ∷ src))
      ++ encoded f (drop enc.base256_block_len (b ∷ src))

  pub length-characters :
      (blk : List ℕ) → length (characters blk) ≡ enc.log_of_base.ceil (length blk)
  length-characters blk =
      length-map-ℕ (λ d. get_or enc.encode d 0)
        (to_digits enc.base (enc.log_of_base.ceil (length blk)) (of_digits 256 0 blk))
      ∙ length-to_digits enc.base (enc.log_of_base.ceil (length blk)) (of_digits 256 0 blk)

module _ (enc : Encoding) where
  decode_loop-step :
      (f : ℕ) (dst s : List ℕ) (sp : ℕ) (dst' : List ℕ) (di si : ℕ) (out : List ℕ) (n : ℕ)
      → 1 ≤ length s
      → decode_block enc dst s sp ≡ ok (dst', di, si)
      → decode_loop enc f (drop di dst') (drop si s) (sp + si) ≡ ok (out, n, none)
      → decode_loop enc (suc f) dst s sp ≡ ok (take di dst' ++ out, di + n, none)
  unfolding decode_loop
  decode_loop-step f dst [] sp dst' di si out n h block again = absurd (omega arith)
  decode_loop-step f dst (c ∷ s) sp dst' di si out n h block again =
      rw (block, decode_loop, again) refl

  -- A round that decodes `blk` from the characters in front.
  decode_loop-round :
      (f : ℕ) (dst front back : List ℕ) (sp : ℕ) (blk rest : List ℕ)
      → 1 ≤ length front
      → decode_block enc dst (front ++ back) sp
        ≡ ok (blk ++ drop (length blk) dst, length blk, length front)
      → decode_loop enc f (drop (length blk) dst) back (sp + length front)
        ≡ ok (rest, length rest, none)
      → decode_loop enc (suc f) dst (front ++ back) sp
        ≡ ok (blk ++ rest, length (blk ++ rest), none)
  decode_loop-round f dst front back sp blk rest h block again =
      decode_loop-step f dst (front ++ back) sp (blk ++ drop (length blk) dst) (length blk)
        (length front) rest (length rest) (omega (arith, length-append front back)) block
        (rw
          (
            drop-append (length blk) blk (drop (length blk) dst) refl,
            drop-append (length front) front back refl,
          )
          again)
      ∙ rw (take-append (length blk) blk (drop (length blk) dst) refl, length-append blk rest)

module _ (enc : Encoding) (v : IsValid enc) where
  block_facts :
      (src : List ℕ)
      → 1 ≤ length src
      → (1 ≤ length (take enc.base256_block_len src))
        × (length (take enc.base256_block_len src) ≤ enc.base256_block_len)
        × (length (drop enc.base256_block_len src) + 1 ≤ length src)
  block_facts src h = omega (
    arith,
    length-take enc.base256_block_len src,
    length-drop enc.base256_block_len src,
    v.block_pos,
  )

  module _ (b : ℕ) (src : List ℕ) (bytes : All IsByte (b ∷ src)) where
    blk : List ℕ
    blk = take enc.base256_block_len (b ∷ src)

    rest : List ℕ
    rest = drop enc.base256_block_len (b ∷ src)

    chars : ℕ
    chars = enc.log_of_base.ceil (length blk)

    facts :
        (1 ≤ length blk)
        × (length blk ≤ enc.base256_block_len)
        × (length rest + 1 ≤ length (b ∷ src))
        × (length blk + length rest ≡ length (b ∷ src))
        × ((rest ≡ []) ⊎ (length blk ≡ enc.base256_block_len))
    unfolding blk rest
    facts = (
      omega (arith, sizes, v.block_pos),
      omega (arith, sizes),
      omega (arith, sizes, v.block_pos),
      omega (arith, sizes),
      elim (dec_le (length (b ∷ src)) enc.base256_block_len) [
        | yes k ↦ inl (drop-all enc.base256_block_len (b ∷ src) k)
        | no k ↦ inr (omega (arith, sizes))
      ],
    )
      where
        sizes :
            (length blk ≡ min enc.base256_block_len (length (b ∷ src)))
            × (length rest ≡ length (b ∷ src) - enc.base256_block_len)
        sizes = (
          length-take enc.base256_block_len (b ∷ src),
          length-drop enc.base256_block_len (b ∷ src),
        )

    bytes_blk : All IsByte blk
    unfolding blk
    bytes_blk = All-take IsByte enc.base256_block_len (b ∷ src) bytes

    bytes_rest : All IsByte rest
    unfolding rest
    bytes_rest = All-drop IsByte enc.base256_block_len (b ∷ src) bytes

    -- The room for the first block is the room of its characters; what is left serves the rest.
    room :
        (dst : List ℕ)
        → length dst ≡ encoded_len enc (length (b ∷ src))
        → (length (take enc.base_x_block_len dst) ≡ chars)
          × (length (drop enc.base_x_block_len dst) ≡ encoded_len enc (length rest))
    unfolding blk rest chars
    room dst h =
        let split = encoded_len-split enc v (length (b ∷ src)) (omega arith) in
        (
          length-take enc.base_x_block_len dst
              ∙ ap (min enc.base_x_block_len) h
              ∙ split.0
              ∙ ap enc.log_of_base.ceil (sym (length-take enc.base256_block_len (b ∷ src))),
          length-drop enc.base_x_block_len dst
              ∙ ap (λ t. t - enc.base_x_block_len) h
              ∙ split.1
              ∙ ap (encoded_len enc) (sym (length-drop enc.base256_block_len (b ∷ src))),
        )

    first_block :
        (front : List ℕ)
        → length front ≡ chars
        → encode_block enc front blk ≡ ok (characters enc blk)
    unfolding chars
    first_block front h =
        encode_block_lem enc v front blk facts.0 facts.1 bytes_blk (omega arith)
        ∙ ap ok (
            ap (λ t. characters enc blk ++ t) (drop-all _ front (omega arith))
            ∙ append-nil (characters enc blk))

    decoded_block :
        (dst : List ℕ) (g off : ℕ)
        → length blk ≤ length dst
        → decode_block enc dst (characters enc blk ++ encoded enc g rest) off
          ≡ ok (blk ++ drop (length blk) dst, length blk, length (characters enc blk))
    unfolding chars encoded
    decoded_block dst g off h =
        decode_block_lem enc v dst blk (encoded enc g rest) off facts.0 facts.1 bytes_blk h
          (nothing facts.4)
        ∙ ap (λ t. ok (blk ++ drop (length blk) dst, length blk, t))
            (sym (length-characters enc blk))
      where
        nothing :
            (rest ≡ []) ⊎ (length blk ≡ enc.base256_block_len)
            → (encoded enc g rest ≡ []) ⊎ (length blk ≡ enc.base256_block_len)
        nothing (inl e) = inl (ap (encoded enc g) e)
        nothing (inr e) = inr e

  pub encode_loop_lem :
      (f : ℕ) (dst src : List ℕ)
      → length src ≤ f
      → All IsByte src
      → length dst ≡ encoded_len enc (length src)
      → encode_loop enc f dst src ≡ ok (encoded enc f src)
  unfolding encode_loop encoded blk rest
  encode_loop_lem f dst [] h bytes r = ap ok (length-zero dst (r ∙ encoded_len-zero enc v))
  encode_loop_lem zero dst (b ∷ src) h bytes r = absurd (omega arith)
  encode_loop_lem (suc f) dst (b ∷ src) h bytes r = rw (
    first_block b src bytes (take enc.base_x_block_len dst) (room b src bytes dst r).0,
    encode_loop_lem f (drop enc.base_x_block_len dst) (rest b src bytes)
        (omega (arith, facts b src bytes)) (bytes_rest b src bytes) (room b src bytes dst r).1,
  )

  encoded_len-first :
      (b : ℕ) (src : List ℕ) (bytes : All IsByte (b ∷ src))
      → encoded_len enc (length (b ∷ src))
        ≡ chars b src bytes + encoded_len enc (length (rest b src bytes))
  encoded_len-first b src bytes =
      let k = encoded_len enc (length (b ∷ src)) in
      let r = room b src bytes (replicate {A = ℕ} k 0) (length-replicate {A = ℕ} k 0) in
      omega (
        arith,
        r,
        length-replicate {A = ℕ} k 0,
        length-take enc.base_x_block_len (replicate {A = ℕ} k 0),
        length-drop enc.base_x_block_len (replicate {A = ℕ} k 0),
      )

  -- In blocks, the encoding is as long as `EncodedLen` says.
  length-encoded :
      (f : ℕ) (src : List ℕ)
      → length src ≤ f
      → All IsByte src
      → length (encoded enc f src) ≡ encoded_len enc (length src)
  unfolding encoded blk rest chars
  length-encoded f [] h bytes = sym (encoded_len-zero enc v)
  length-encoded zero (b ∷ src) h bytes = absurd (omega arith)
  length-encoded (suc f) (b ∷ src) h bytes =
      length-append (characters enc (blk b src bytes)) (encoded enc f (rest b src bytes))
      ∙ omega (
        arith,
        length-characters enc (blk b src bytes),
        length-encoded f (rest b src bytes) (omega (arith, facts b src bytes))
            (bytes_rest b src bytes),
        encoded_len-first b src bytes,
      )

  characters-pos :
      (b : ℕ) (src : List ℕ) (bytes : All IsByte (b ∷ src))
      → 1 ≤ length (characters enc (blk b src bytes))
  characters-pos b src bytes = omega (
    arith,
    length-characters enc (blk b src bytes),
    ceil_pos enc v (length (blk b src bytes)) (facts b src bytes).0 (facts b src bytes).1,
  )

  decoded_round :
      (b : ℕ) (src : List ℕ) (bytes : All IsByte (b ∷ src)) (g f : ℕ) (dst : List ℕ) (sp : ℕ)
      → length (encoded enc (suc g) (b ∷ src)) ≤ f
      → length dst ≡ length (b ∷ src)
      → ((f' : ℕ)
          → length (encoded enc g (rest b src bytes)) ≤ f'
          → decode_loop enc f'
              (drop (length (blk b src bytes)) dst)
              (encoded enc g (rest b src bytes))
              (sp + length (characters enc (blk b src bytes)))
            ≡ ok (rest b src bytes, length (rest b src bytes), none))
      → decode_loop enc f dst (encoded enc (suc g) (b ∷ src)) sp
        ≡ ok (b ∷ src, length (b ∷ src), none)
  unfolding encoded blk rest
  decoded_round b src bytes g zero dst sp hf r again = absurd (
      omega (
        arith,
        length-append (characters enc (blk b src bytes)) (encoded enc g (rest b src bytes)),
        characters-pos b src bytes,
      ))
  decoded_round b src bytes g (suc f) dst sp hf r again =
      decode_loop-round enc f dst (characters enc (blk b src bytes))
        (encoded enc g (rest b src bytes)) sp (blk b src bytes) (rest b src bytes)
        (characters-pos b src bytes)
        (decoded_block b src bytes dst g sp (omega (arith, facts b src bytes)))
        (again f (
          omega (
            arith,
            length-append (characters enc (blk b src bytes)) (encoded enc g (rest b src bytes)),
            characters-pos b src bytes,
          )))
      ∙ ap (λ t. ok (t, length t, none)) (take-append-drop enc.base256_block_len (b ∷ src))

  decode_loop_lem :
      (g f : ℕ) (dst src : List ℕ) (sp : ℕ)
      → length src ≤ g
      → length (encoded enc g src) ≤ f
      → All IsByte src
      → length dst ≡ length src
      → decode_loop enc f dst (encoded enc g src) sp ≡ ok (src, length src, none)
  decode_loop_lem g f dst [] sp hg hf bytes r = unfold decode_loop encoded in rw (length-zero dst r)
  decode_loop_lem zero f dst (b ∷ src) sp hg hf bytes r = absurd (omega arith)
  decode_loop_lem (suc g) f dst (b ∷ src) sp hg hf bytes r =
      decoded_round b src bytes g f dst sp hf r (λ f' h.
        decode_loop_lem g f' (drop (length (blk b src bytes)) dst) (rest b src bytes)
          (sp + length (characters enc (blk b src bytes))) (omega (arith, facts b src bytes)) h
          (bytes_rest b src bytes)
          (omega (arith, facts b src bytes, length-drop (length (blk b src bytes)) dst)))

  -- For a valid encoding and any bytes, `EncodeToString` succeeds with a text of the length
  -- `EncodedLen`, and `DecodeString` of it gives the bytes back, with no error.
  pub decode_string-encode_to_string :
      (src : List ℕ)
      → All IsByte src
      → (s : List ℕ) × (encode_to_string enc src ≡ ok s)
        × (length s ≡ encoded_len enc (length src))
        × (decode_string enc s ≡ ok (src, none))
  unfolding encode_to_string decode_string encode_to decode
  decode_string-encode_to_string src bytes = (
    s,
    encode_loop_lem (length src) (replicate (encoded_len enc (length src)) 0) src (omega arith)
        bytes (length-replicate (encoded_len enc (length src)) 0),
    size,
    rw
        (decode_loop_lem (length src) (length s) (replicate (decoded_len enc (length s)) 0) src 0
          (omega arith) (omega arith) bytes
          (length-replicate (decoded_len enc (length s)) 0
            ∙ ap (decoded_len enc) size
            ∙ decoded_len-encoded_len enc v (length src)))
        (ap (λ t. ok (t, none)) (take-all (length src) src (omega arith))),
  )
    where
      s : List ℕ
      s = encoded enc (length src) src

      size : length s ≡ encoded_len enc (length src)
      size = length-encoded (length src) src (omega arith) bytes
