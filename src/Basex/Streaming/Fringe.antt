-- ===== src/Basex/Streaming/Fringe.antt =====
-- encoding/basex/stream.go: one write to the encoder.
use saltpack.Base.{
  length-drop, drop-append, ℕ, suc, ◌+◌, ◌-◌, ◌*◌, ◌≡◌, refl, sym, ap, ap₂, ◌∙◌, subst, arith, Bool,
  false, List, [], ◌∷◌, ◌++◌, append-nil, append_assoc, length, length-append, length-take, take,
  drop, take-all, take-append-drop, All, All-append, All-take, All-drop, ltb, ltb→lt, ltb→le, min,
  inl, inr, Bool-cases, if◌then◌else◌,
}
use saltpack.Errors.{Result, ok, ◌>>=◌, >>=_ok}
use saltpack.Radix.{IsByte}
use saltpack.Basex.{Encoding}
use saltpack.Basex.Lengths.{IsValid}
use saltpack.Blocks.Cut.{concat, concat-append}
use saltpack.Basex.Streaming.{Encoder, emit, interior, write}
use saltpack.Basex.Streaming.Runs.{IsWhole, all_characters, all_characters-append, emit-whole}
use saltpack.Basex.Streaming.Writes.{Holds, after_interior}

pub no_bytes : (xs : List ℕ) → ltb 0 (length xs) ≡ false → xs ≡ []
no_bytes [] h = refl
no_bytes (x ∷ xs) h = absurd (omega (arith, ltb→le 0 (suc (length xs)) h))

module _ (enc : Encoding) (v : IsValid enc) where
  -- What a call leaves.
  abbrev Leaves : List ℕ → Result Encoder → Type 0
  Leaves bytes r = (e : Encoder) × (r ≡ ok e) × Holds enc v bytes e

  -- A write into a buffer that holds a part of a block.
  fringe_lem :
      (bytes p : List ℕ) (e : Encoder)
      → All IsByte bytes
      → All IsByte p
      → Holds enc v bytes e
      → Leaves (bytes ++ p) (
          let i = min (length p) (enc.base256_block_len - length e.buf) in
          let buf = e.buf ++ take i p in
          if ltb (length buf) enc.base256_block_len
          then ok (record e { buf = buf })
          else (emit enc enc.base_x_block_len buf e.w >>= λ w.
              interior enc (length p) (drop i p) w))
  fringe_lem bytes p e is_bytes is_p holds =
      let b = enc.base256_block_len in
      let i = min (length p) (b - length e.buf) in
      let buf = e.buf ++ take i p in
      let size : length buf ≡ length e.buf + min i (length p) =
        length-append e.buf (take i p) ∙ ap (λ n. length e.buf + n) (length-take i p) in
      let choice : Bool → Result Encoder = λ t.
        if t
        then ok (record e { buf = buf })
        else (emit enc enc.base_x_block_len buf e.w >>= λ w.
            interior enc (length p) (drop i p) w) in
      elim (Bool-cases (ltb (length buf) b)) [
        | inl part ↦
            let all : take i p ≡ p =
              take-all i p (omega (arith, size, holds.short, ltb→lt (length buf) b part)) in
            (
              record e { buf = buf },
              ap choice part,
              record {
                blocks = holds.blocks;
                whole = holds.whole;
                joins =
                    ap (λ t. concat holds.blocks ++ (e.buf ++ t)) all
                    ∙ sym (append_assoc (concat holds.blocks) e.buf p)
                    ∙ ap (λ t. t ++ p) holds.joins;
                short = ltb→lt (length buf) b part;
                written = holds.written;
              },
            )
        | inr full ↦
            let is_block : length buf ≡ b =
              omega (arith, size, holds.short, ltb→le (length buf) b full) in
            let is_buf : All IsByte buf =
              All-append IsByte e.buf (take i p)
                (subst (All IsByte)
                  (drop-append (length (concat holds.blocks)) (concat holds.blocks) e.buf refl)
                  (All-drop IsByte (length (concat holds.blocks)) (concat holds.blocks ++ e.buf)
                    (subst (All IsByte) (sym holds.joins) is_bytes)))
                (All-take IsByte i p is_p) in
            let (e', left, holds') =
              after_interior enc v (bytes ++ p) (drop i p) (e.w ++ all_characters enc v (buf ∷ []))
                (holds.blocks ++ buf ∷ [])
                (All-append (IsWhole enc v) holds.blocks (buf ∷ []) holds.whole (is_block, tt))
                (ap (λ t. t ++ drop i p)
                    (concat-append holds.blocks (buf ∷ [])
                      ∙ ap (λ t. concat holds.blocks ++ t) (append-nil buf)
                      ∙ sym (append_assoc (concat holds.blocks) e.buf (take i p))
                      ∙ ap (λ t. t ++ take i p) holds.joins)
                  ∙ append_assoc bytes (take i p) (drop i p)
                  ∙ ap (λ t. bytes ++ t) (take-append-drop i p))
                (ap (λ t. t ++ all_characters enc v (buf ∷ [])) holds.written
                  ∙ sym (all_characters-append enc v holds.blocks (buf ∷ [])))
                (length p) (All-drop IsByte i p is_p) (omega (arith, length-drop i p)) in
            (
              e',
              ap choice full
                  ∙ >>=_ok _ (
                      ap₂ (λ n t. emit enc n t e.w) {x = enc.base_x_block_len}
                        {y = 1 * enc.base_x_block_len} (omega arith) (sym (append-nil buf))
                      ∙ emit-whole enc v (buf ∷ []) e.w (is_block, tt) (is_buf, tt) (omega arith))
                  ∙ left,
              holds',
            )
      ]

  -- For a valid encoding and bytes: the invariant is kept by `Write`, which succeeds.
  pub write-Holds :
      (bytes p : List ℕ) (e : Encoder)
      → All IsByte bytes
      → All IsByte p
      → Holds enc v bytes e
      → (e' : Encoder) × (write enc p e ≡ ok e') × Holds enc v (bytes ++ p) e'
  unfolding write
  write-Holds bytes p e is_bytes is_p holds = elim (Bool-cases (ltb 0 (length e.buf))) [
    | inl some_buf ↦
        subst
          (λ t. Leaves (bytes ++ p) (
            if t
            then (let i = min (length p) (enc.base256_block_len - length e.buf) in
                let buf = e.buf ++ take i p in
                if ltb (length buf) enc.base256_block_len
                then ok (record e { buf = buf })
                else (emit enc enc.base_x_block_len buf e.w >>= λ w.
                    interior enc (length p) (drop i p) w))
            else interior enc (length p) p e.w))
          (sym some_buf) (fringe_lem bytes p e is_bytes is_p holds)
    | inr no_buf ↦
        let (e', left, holds') =
          after_interior enc v (bytes ++ p) p e.w holds.blocks holds.whole
            (ap (λ t. t ++ p)
              (sym (append-nil (concat holds.blocks))
                ∙ ap (λ t. concat holds.blocks ++ t) (sym (no_bytes e.buf no_buf))
                ∙ holds.joins))
            holds.written (length p) is_p (omega arith) in
        (
          e',
          ap
                (λ t.
                  if t
                  then (let i = min (length p) (enc.base256_block_len - length e.buf) in
                      let buf = e.buf ++ take i p in
                      if ltb (length buf) enc.base256_block_len
                      then ok (record e { buf = buf })
                      else (emit enc enc.base_x_block_len buf e.w >>= λ w.
                          interior enc (length p) (drop i p) w))
                  else interior enc (length p) p e.w)
                no_buf
              ∙ left,
          holds',
        )
  ]
