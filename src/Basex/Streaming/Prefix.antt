-- ===== src/Basex/Streaming/Prefix.antt =====
-- encoding/basex/stream.go: the encoder with other bytes in front of what it has written.
use saltpack.Base.{
  ℕ, zero, suc, ◌-◌, ◌*◌, ◌/◌, ◌≡◌, refl, ap, ◌∙◌, Bool, true, false, List, [], ◌++◌, append_assoc,
  length, take, drop, replicate, ltb, leb, min, if◌then◌else◌,
}
use saltpack.Errors.{Result, ok, err, panic, ◌>>=◌}
use saltpack.Basex.{Encoding, encode_to, encoded_len}
use saltpack.Basex.Streaming.{Encoder, emit, interior, interior_len, write, close, out_len}

-- The encoder with bytes in front of what it has written.
abbrev pub onto : List ℕ → Encoder → Encoder
onto front e = record e { w = front ++ e.w }

if_bind {ℓ} :
    {A B : Type ℓ} (b : Bool) (x y : Result A) (x' y' : Result B) (f : A → Result B)
    → x' ≡ (x >>= f)
    → y' ≡ (y >>= f)
    → (if b then x' else y') ≡ ((if b then x else y) >>= f)
if_bind true x y x' y' f e g = e
if_bind false x y x' y' f e g = g

bind_front {ℓ} :
    {A B : Type ℓ} (front : List ℕ) (m : Result (List ℕ)) (g : List ℕ → Result B)
    (h : List ℕ → Result A) (f : A → Result B)
    → ((w : List ℕ) → g (front ++ w) ≡ (h w >>= f))
    → ((m >>= λ w. ok (front ++ w)) >>= g) ≡ ((m >>= h) >>= f)
bind_front front panic g h f e = refl
bind_front front (err x) g h f e = refl
bind_front front (ok w) g h f e = e w

module _ (enc : Encoding) where
  emit-front :
      (front w : List ℕ) (n : ℕ) (src : List ℕ)
      → emit enc n src (front ++ w) ≡ (emit enc n src w >>= λ t. ok (front ++ t))
  unfolding emit
  emit-front front w n src = written (encode_to enc (replicate (out_len enc) 0) src)
    where
      written :
          (m : Result (List ℕ))
          → (m >>= λ out. ok ((front ++ w) ++ take n out))
            ≡ ((m >>= λ out. ok (w ++ take n out)) >>= λ t. ok (front ++ t))
      written panic = refl
      written (err x) = refl
      written (ok out) = ap ok (append_assoc front w (take n out))

  emit_then {ℓ} :
      {A B : Type ℓ} (front w : List ℕ) (n : ℕ) (src : List ℕ) (g : List ℕ → Result B)
      (h : List ℕ → Result A) (f : A → Result B)
      → ((t : List ℕ) → g (front ++ t) ≡ (h t >>= f))
      → (emit enc n src (front ++ w) >>= g) ≡ ((emit enc n src w >>= h) >>= f)
  emit_then front w n src g h f e =
      ap (λ m. m >>= g) (emit-front front w n src) ∙ bind_front front (emit enc n src w) g h f e

  interior-front :
      (front : List ℕ) (fuel : ℕ) (p w : List ℕ)
      → interior enc fuel p (front ++ w) ≡ (interior enc fuel p w >>= λ t. ok (onto front t))
  unfolding interior
  interior-front front zero p w =
      if_bind (leb enc.base256_block_len (length p)) panic (ok (record { w = w; buf = p })) panic
        (ok (record { w = front ++ w; buf = p })) (λ t. ok (onto front t)) refl refl
  interior-front front (suc fuel) p w =
      let nn = interior_len enc (length p) in
      let n = nn / enc.base256_block_len * enc.base_x_block_len in
      let rest : List ℕ → Result Encoder = λ t. interior enc fuel (drop nn p) t in
      if_bind (leb enc.base256_block_len (length p)) (emit enc n (take nn p) w >>= rest)
        (ok (record { w = w; buf = p })) (emit enc n (take nn p) (front ++ w) >>= rest)
        (ok (record { w = front ++ w; buf = p })) (λ t. ok (onto front t))
        (emit_then front w n (take nn p) rest rest (λ t. ok (onto front t))
          (interior-front front fuel (drop nn p)))
        refl

  pub write-onto :
      (front p : List ℕ) (e : Encoder)
      → write enc p (onto front e) ≡ (write enc p e >>= λ t. ok (onto front t))
  unfolding write
  write-onto front p e =
      let i = min (length p) (enc.base256_block_len - length e.buf) in
      let buf = e.buf ++ take i p in
      let rest : List ℕ → Result Encoder = λ w. interior enc (length p) (drop i p) w in
      let f : Encoder → Result Encoder = λ t. ok (onto front t) in
      let n = enc.base_x_block_len in
      let short = ltb (length buf) enc.base256_block_len in
      if_bind (ltb 0 (length e.buf))
        (if short then ok (record e { buf = buf }) else (emit enc n buf e.w >>= rest))
        (interior enc (length p) p e.w)
        (if short
          then ok (record (onto front e) { buf = buf })
          else (emit enc n buf (front ++ e.w) >>= rest))
        (interior enc (length p) p (front ++ e.w)) f
        (if_bind short (ok (record e { buf = buf })) (emit enc n buf e.w >>= rest)
          (ok (record (onto front e) { buf = buf })) (emit enc n buf (front ++ e.w) >>= rest) f refl
          (emit_then front e.w n buf rest rest f (interior-front front (length p) (drop i p))))
        (interior-front front (length p) p e.w)

  pub close-onto :
      (front : List ℕ) (e : Encoder)
      → close enc (onto front e) ≡ (close enc e >>= λ t. ok (onto front t))
  unfolding close
  close-onto front e =
      let n = encoded_len enc (length e.buf) in
      let rest : List ℕ → Result Encoder = λ w. ok (record { w = w; buf = [] }) in
      let f : Encoder → Result Encoder = λ t. ok (onto front t) in
      if_bind (ltb 0 (length e.buf)) (emit enc n e.buf e.w >>= rest) (ok e)
        (emit enc n e.buf (front ++ e.w) >>= rest) (ok (onto front e)) f
        (emit_then front e.w n e.buf rest rest f (λ t. refl)) refl

-- What a call with bytes in front returns, the call without them returns.
pub without_front :
    (front : List ℕ) (m : Result Encoder) (e : Encoder)
    → (m >>= λ t. ok (onto front t)) ≡ ok e
    → (t : Encoder) × (m ≡ ok t) × (onto front t ≡ e)
without_front front panic e h = absurd (cc h)
without_front front (err x) e h = absurd (cc h)
without_front front (ok t) e h = (t, refl, cc h)
