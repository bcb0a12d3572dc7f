-- ===== src/Basex/Streaming/Whole.antt =====
-- encoding/basex/stream.go: any series of writes to the encoder, and its end.
use saltpack.Base.{
  drop-append, ℕ, ◌≤◌, ◌<◌, ◌≡◌, refl, sym, ap, ◌∙◌, subst, arith, Bool, List, [], ◌∷◌, ◌++◌,
  append-nil, append_assoc, length, length-replicate, take, drop, take-all, drop-all, take-append,
  replicate, All, All-append, All-drop, ltb, ltb→lt, min, inl, inr, Bool-cases, if◌then◌else◌,
}
use saltpack.Errors.{Result, ok, ◌>>=◌, >>=_ok}
use saltpack.Radix.{IsByte}
use saltpack.Basex.{Encoding, encode_loop, encode_to, encode_to_string, encoded_len}
use saltpack.Basex.Lengths.{IsValid, encoded_len-block, encoded_len-split}
use saltpack.Basex.RoundTrip.{characters, encoded, encode_loop_lem, length-characters}
use saltpack.Blocks.Cut.{concat}
use saltpack.Basex.Streaming.{Encoder, new_encoder, emit, out_len, close, write_all}
use saltpack.Basex.Streaming.Runs.{all_characters, encode_step, last_characters, encoded_lem}
use saltpack.Basex.Streaming.Writes.{Holds, Holds-new_encoder}
use saltpack.Basex.Streaming.Fringe.{no_bytes, write-Holds}

module _ (enc : Encoding) (v : IsValid enc) where
  -- `Close` on a part of a block.
  flush_lem :
      (r w : List ℕ)
      → 1 ≤ length r
      → length r < enc.base256_block_len
      → All IsByte r
      → emit enc (encoded_len enc (length r)) r w ≡ ok (w ++ characters enc r)
  unfolding emit encode_to encode_loop
  flush_lem [] w h k bytes = absurd (omega arith)
  flush_lem (b ∷ r) w h k bytes =
      let src = b ∷ r in
      let dst = replicate (out_len enc) 0 in
      let o = enc.base_x_block_len in
      let room : o ≤ length dst = omega (arith, length-replicate {A = ℕ} (out_len enc) 0) in
      let len : encoded_len enc (length src) ≡ enc.log_of_base.ceil (length src) =
        encoded_len-block enc v (length src) h (omega (arith, k)) in
      let tail = drop (enc.log_of_base.ceil (length src)) (take o dst) in
      let rest = drop o dst in
      ap
        (λ t. encode_loop enc (length src) dst t >>= λ out.
          ok (w ++ take (encoded_len enc (length src)) out))
        (sym (append-nil src))
      ∙ ap (λ m. m >>= λ out. ok (w ++ take (encoded_len enc (length src)) out))
          (encode_step enc v (length r) dst src [] h (omega (arith, k)) bytes room (small src h k)
            (ap (take enc.base256_block_len) (append-nil src)
              ∙ take-all enc.base256_block_len src (omega (arith, k)))
            (ap (drop enc.base256_block_len) (append-nil src)
              ∙ drop-all enc.base256_block_len src (omega (arith, k))))
      ∙ ap (λ t. ok (w ++ t))
          (ap (λ n. take n ((characters enc src ++ tail) ++ rest)) len
            ∙ ap (take (enc.log_of_base.ceil (length src)))
                (append_assoc (characters enc src) tail rest)
            ∙ take-append (enc.log_of_base.ceil (length src)) (characters enc src) (tail ++ rest)
                (length-characters enc src))
    where
      small :
          (src : List ℕ)
          → 1 ≤ length src
          → length src < enc.base256_block_len
          → enc.log_of_base.ceil (length src) ≤ enc.base_x_block_len
      small src h k =
          let (first, _) = encoded_len-split enc v (length src) h in
          let len = encoded_len-block enc v (length src) h (omega (arith, k)) in
          omega (
            arith,
            first,
            ap enc.log_of_base.ceil {x = min enc.base256_block_len (length src)} {y = length src}
                (omega (arith, k)),
            len,
          )

  -- An encoder that keeps the invariant is closed with the encoding of all bytes written.
  pub close-Holds :
      (bytes : List ℕ) (e : Encoder)
      → All IsByte bytes
      → Holds enc v bytes e
      → (e' : Encoder) × (close enc e ≡ ok e') × (e'.w ≡ encoded enc (length bytes) bytes)
  unfolding close
  close-Holds bytes e is_bytes holds =
      let all =
        encoded_lem enc v holds.blocks e.buf (length bytes) holds.whole holds.short
          (omega (arith, ap length holds.joins)) in
      let joined = ap (encoded enc (length bytes)) (sym holds.joins) ∙ all in
      let choice : Bool → Result Encoder = λ t.
        if t
        then (emit enc (encoded_len enc (length e.buf)) e.buf e.w >>= λ w.
            ok (record { w = w; buf = [] }))
        else ok e in
      elim (Bool-cases (ltb 0 (length e.buf))) [
        | inl some_buf ↦
            let long = ltb→lt 0 (length e.buf) some_buf in
            (
              record { w = e.w ++ characters enc e.buf; buf = [] },
              ap choice some_buf
                  ∙ >>=_ok _ (
                      flush_lem e.buf e.w (omega (arith, long)) holds.short (
                        subst (All IsByte)
                          (drop-append (length (concat holds.blocks)) (concat holds.blocks) e.buf
                            refl)
                          (All-drop IsByte (length (concat holds.blocks))
                            (concat holds.blocks ++ e.buf)
                            (subst (All IsByte) (sym holds.joins) is_bytes)))),
              ap (λ t. t ++ characters enc e.buf) holds.written
                  ∙ ap (λ t. all_characters enc v holds.blocks ++ t)
                      (sym (last_is e.buf (omega (arith, long))))
                  ∙ sym joined,
            )
        | inr no_buf ↦ (
          e,
          ap choice no_buf,
          holds.written
              ∙ sym (append-nil (all_characters enc v holds.blocks))
              ∙ ap (λ t. all_characters enc v holds.blocks ++ last_characters enc v t)
                  (sym (no_bytes e.buf no_buf))
              ∙ sym joined,
        )
      ]
    where
      last_is : (r : List ℕ) → 1 ≤ length r → last_characters enc v r ≡ characters enc r
      last_is [] h = absurd (omega arith)
      last_is (b ∷ r) h = refl

  writes :
      (bytes : List ℕ) (ps : List (List ℕ)) (e : Encoder)
      → All IsByte bytes
      → All (All IsByte) ps
      → Holds enc v bytes e
      → (e' : Encoder) × (write_all enc ps e ≡ ok e') × Holds enc v (bytes ++ concat ps) e'
  unfolding write_all
  writes bytes [] e is_bytes is_ps holds =
      (e, refl, subst (λ t. Holds enc v t e) (sym (append-nil bytes)) holds)
  writes bytes (p ∷ ps) e is_bytes is_ps holds =
      let (e1, first, holds1) = write-Holds enc v bytes p e is_bytes is_ps.0 holds in
      let (e2, later, holds2) =
        writes (bytes ++ p) ps e1 (All-append IsByte bytes p is_bytes is_ps.0) is_ps.1 holds1 in
      (
        e2,
        >>=_ok _ first ∙ later,
        subst (λ t. Holds enc v t e2) (append_assoc bytes p (concat ps)) holds2,
      )

  pub All-concat-IsByte : (ps : List (List ℕ)) → All (All IsByte) ps → All IsByte (concat ps)
  All-concat-IsByte [] a = tt
  All-concat-IsByte (p ∷ ps) a = All-append IsByte p (concat ps) a.0 (All-concat-IsByte ps a.1)

  pub encode_to_string-encoded :
      (bytes : List ℕ)
      → All IsByte bytes
      → encode_to_string enc bytes ≡ ok (encoded enc (length bytes) bytes)
  unfolding encode_to_string encode_to
  encode_to_string-encoded bytes is_bytes =
      encode_loop_lem enc v (length bytes) (replicate (encoded_len enc (length bytes)) 0) bytes
        (omega arith) is_bytes (length-replicate (encoded_len enc (length bytes)) 0)

  -- For a valid encoding and bytes: any series of writes to a new encoder and then `Close` succeed, and
  -- the writer has been given what `EncodeToString` gives of all bytes together, however they were
  -- split into writes.
  pub write_all-encode_to_string :
      (ps : List (List ℕ))
      → All (All IsByte) ps
      → (e : Encoder) × ((write_all enc ps new_encoder >>= λ t. close enc t) ≡ ok e)
        × (encode_to_string enc (concat ps) ≡ ok e.w)
  write_all-encode_to_string ps bytes =
      let all = All-concat-IsByte ps bytes in
      let (e1, written, holds) = writes [] ps new_encoder tt bytes (Holds-new_encoder enc v) in
      let (e2, closed, is_encoding) = close-Holds (concat ps) e1 all holds in
      (
        e2,
        >>=_ok _ written ∙ closed,
        encode_to_string-encoded (concat ps) all ∙ ap ok (sym is_encoding),
      )
