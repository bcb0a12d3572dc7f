-- ===== src/Basex/Streaming/Runs.antt =====
-- encoding/basex/stream.go: the characters of whole blocks, as the encoder writes them.
use saltpack.Base.{
  ℕ, zero, suc, ◌*◌, ◌≤◌, ◌<◌, ◌≡◌, refl, sym, ap, ap₂, ◌∙◌, subst, arith, List, [], ◌∷◌, ◌++◌,
  append-nil, append_assoc, length, length-append, length-take, length-drop, length-replicate, take,
  drop, take-all, drop-all, take-append, drop-append, replicate, All,
}
use saltpack.Errors.{ok, ◌>>=◌, >>=_ok}
use saltpack.Radix.{IsByte}
use saltpack.Basex.{Encoding, encode_block, encode_loop, encode_to}
use saltpack.Basex.Lengths.{IsValid}
use saltpack.Basex.Blocks.{encode_block_lem}
use saltpack.Basex.RoundTrip.{characters, encoded, length-characters}
use saltpack.Blocks.Cut.{concat}
use saltpack.Basex.Streaming.{emit, out_len}
use native.Mathlib.Nat.{suc-mul, mul-le-mul_right}

module _ (enc : Encoding) (v : IsValid enc) where
  abbrev pub IsWhole : List ℕ → Type 0
  IsWhole c = length c ≡ enc.base256_block_len

  -- The characters of whole blocks.
  unfoldable pub all_characters : List (List ℕ) → List ℕ
  all_characters [] = []
  all_characters (c ∷ cs) = characters enc c ++ all_characters cs

  pub all_characters-append :
      (cs ds : List (List ℕ)) → all_characters (cs ++ ds) ≡ all_characters cs ++ all_characters ds
  unfolding all_characters
  all_characters-append [] ds = refl
  all_characters-append (c ∷ cs) ds =
      ap (λ t. characters enc c ++ t) (all_characters-append cs ds)
      ∙ sym (append_assoc (characters enc c) (all_characters cs) (all_characters ds))

  pub length-all_characters :
      (cs : List (List ℕ))
      → All IsWhole cs
      → length (all_characters cs) ≡ length cs * enc.base_x_block_len
  unfolding all_characters
  length-all_characters [] a = omega arith
  length-all_characters (c ∷ cs) a = grind (
    arith,
    length-append (characters enc c) (all_characters cs),
    length-characters enc c,
    ap enc.log_of_base.ceil a.0,
    v.block_len,
    length-all_characters cs a.1,
  )

  -- One block in front of what is still to be encoded.
  pub encode_step :
      (f : ℕ) (dst c rest : List ℕ)
      → 1 ≤ length c
      → length c ≤ enc.base256_block_len
      → All IsByte c
      → enc.base_x_block_len ≤ length dst
      → enc.log_of_base.ceil (length c) ≤ enc.base_x_block_len
      → take enc.base256_block_len (c ++ rest) ≡ c
      → drop enc.base256_block_len (c ++ rest) ≡ rest
      → encode_loop enc (suc f) dst (c ++ rest) ≡ (
          (encode_loop enc f (drop enc.base_x_block_len dst) rest) >>= λ t. ok (
            (characters enc c
              ++ drop (enc.log_of_base.ceil (length c)) (take enc.base_x_block_len dst))
            ++ t))
  unfolding encode_loop
  encode_step f dst [] rest h k bytes room small e g = absurd (omega arith)
  encode_step f dst (b ∷ c) rest h k bytes room small e g =
      ap
        (λ t. encode_block enc (take enc.base_x_block_len dst) t >>= λ block.
          encode_loop enc f (drop enc.base_x_block_len dst)
            (drop enc.base256_block_len ((b ∷ c) ++ rest))
          >>= λ r. ok (block ++ r))
        e
      ∙ >>=_ok _ (
          encode_block_lem enc v (take enc.base_x_block_len dst) (b ∷ c) h k bytes
            (omega (arith, length-take enc.base_x_block_len dst)))
      ∙ ap
          (λ t. encode_loop enc f (drop enc.base_x_block_len dst) t >>= λ r. ok (
            (characters enc (b ∷ c)
              ++ drop (enc.log_of_base.ceil (length (b ∷ c))) (take enc.base_x_block_len dst))
            ++ r))
          g

  pub block_small : enc.log_of_base.ceil enc.base256_block_len ≤ enc.base_x_block_len
  block_small = omega (arith, v.block_len)

  -- Whole blocks are encoded in front of what the buffer has behind them.
  whole_lem :
      (cs : List (List ℕ)) (f : ℕ) (dst : List ℕ)
      → All IsWhole cs
      → All (All IsByte) cs
      → length cs ≤ f
      → length cs * enc.base_x_block_len ≤ length dst
      → (tail : List ℕ) × (encode_loop enc f dst (concat cs) ≡ ok (all_characters cs ++ tail))
  unfolding all_characters encode_loop
  whole_lem [] f dst a bytes h room = (dst, refl)
  whole_lem (c ∷ cs) zero dst a bytes h room = absurd (omega arith)
  whole_lem (c ∷ cs) (suc f) dst a bytes h room =
      let o = enc.base_x_block_len in
      let here =
        encode_step f dst c (concat cs) (omega (arith, a.0, v.block_pos)) (omega (arith, a.0))
          bytes.0 (omega (arith, room, suc-mul (length cs) o))
          (subst (λ n. enc.log_of_base.ceil n ≤ o) (sym a.0) block_small)
          (take-append enc.base256_block_len c (concat cs) a.0)
          (drop-append enc.base256_block_len c (concat cs) a.0) in
      let (tail, later) =
        whole_lem cs f (drop o dst) a.1 bytes.1 (omega arith)
          (omega (arith, room, suc-mul (length cs) o, length-drop o dst)) in
      (
        tail,
        here
            ∙ >>=_ok _ later
            ∙ ap (λ t. ok ((characters enc c ++ t) ++ (all_characters cs ++ tail)))
                (drop-all (enc.log_of_base.ceil (length c)) (take o dst)
                  (omega (arith, length-take o dst, ap enc.log_of_base.ceil a.0, v.block_len)))
            ∙ ap (λ t. ok (t ++ (all_characters cs ++ tail))) (append-nil (characters enc c))
            ∙ ap ok (sym (append_assoc (characters enc c) (all_characters cs) tail)),
      )

  count-le : (cs : List (List ℕ)) → All IsWhole cs → length cs ≤ length (concat cs)
  count-le [] a = omega arith
  count-le (c ∷ cs) a =
      omega (arith, a.0, v.block_pos, length-append c (concat cs), count-le cs a.1)

  pub emit-whole :
      (cs : List (List ℕ)) (w : List ℕ)
      → All IsWhole cs
      → All (All IsByte) cs
      → length cs ≤ 128
      → emit enc (length cs * enc.base_x_block_len) (concat cs) w ≡ ok (w ++ all_characters cs)
  unfolding emit encode_to
  emit-whole cs w a bytes h =
      let (tail, e) =
        whole_lem cs (length (concat cs)) (replicate (out_len enc) 0) a bytes (count-le cs a) (
          omega (
            arith,
            length-replicate {A = ℕ} (out_len enc) 0,
            mul-le-mul_right enc.base_x_block_len h,
          )) in
      >>=_ok _ e
      ∙ ap (λ t. ok (w ++ t))
          (take-append (length cs * enc.base_x_block_len) (all_characters cs) tail
            (length-all_characters cs a))

  -- What `Encode` writes of a last block that is not whole.
  abbrev pub last_characters : List ℕ → List ℕ
  last_characters [] = []
  last_characters (b ∷ r) = characters enc (b ∷ r)

  pub encoded_lem :
      (cs : List (List ℕ)) (r : List ℕ) (f : ℕ)
      → All IsWhole cs
      → length r < enc.base256_block_len
      → length (concat cs ++ r) ≤ f
      → encoded enc f (concat cs ++ r) ≡ all_characters cs ++ last_characters r
  unfolding encoded all_characters
  encoded_lem [] [] f a h k = refl
  encoded_lem [] (b ∷ r) zero a h k = absurd (omega arith)
  encoded_lem [] (b ∷ r) (suc f) a h k =
      ap₂ (λ t u. characters enc t ++ encoded enc f u)
        (take-all enc.base256_block_len (b ∷ r) (omega arith))
        (drop-all enc.base256_block_len (b ∷ r) (omega arith))
      ∙ append-nil (characters enc (b ∷ r))
  encoded_lem ([] ∷ cs) r f a h k = absurd (omega (arith, a.0, v.block_pos))
  encoded_lem ((b ∷ c) ∷ cs) r zero a h k = absurd (omega arith)
  encoded_lem ((b ∷ c) ∷ cs) r (suc f) a h k =
      let shape : (b ∷ c ++ concat cs) ++ r ≡ (b ∷ c) ++ (concat cs ++ r) =
        append_assoc (b ∷ c) (concat cs) r in
      ap (encoded enc (suc f)) shape
      ∙ ap₂ (λ t u. characters enc t ++ encoded enc f u)
          (take-append enc.base256_block_len (b ∷ c) (concat cs ++ r) a.0)
          (drop-append enc.base256_block_len (b ∷ c) (concat cs ++ r) a.0)
      ∙ ap (λ t. characters enc (b ∷ c) ++ t)
          (encoded_lem cs r f a.1 h
            (omega (arith, ap length shape, length-append (b ∷ c) (concat cs ++ r))))
      ∙ sym (append_assoc (characters enc (b ∷ c)) (all_characters cs) (last_characters r))
