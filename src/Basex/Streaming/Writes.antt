-- ===== src/Basex/Streaming/Writes.antt =====
-- encoding/basex/stream.go: the invariant of the encoder of a stream, and its loop over whole blocks.
use saltpack.Base.{
  ℕ, zero, suc, ◌-◌, ◌*◌, ◌/◌, ◌%◌, ◌≤◌, ◌<◌, ◌≡◌, refl, sym, ap, ap₂, ◌∙◌, subst, arith, Bool,
  true, false, List, [], ◌∷◌, ◌++◌, append-nil, append_assoc, length, length-append, length-take,
  length-drop, take, drop, take-append, drop-append, append_cancel, take-append-drop, All,
  All-append, All-take, All-drop, ltb, leb, ltb→lt, ltb→le, inl, inr, Bool-cases, if◌then◌else◌,
}
use saltpack.Errors.{Result, ok, panic, ◌>>=◌, >>=_ok}
use saltpack.Radix.{IsByte}
use saltpack.Basex.{Encoding}
use saltpack.Basex.Lengths.{IsValid}
use saltpack.Blocks.Cut.{concat, concat-append}
use saltpack.Basex.Streaming.{Encoder, new_encoder, emit, out_len, interior_len, interior}
use saltpack.Basex.Streaming.Runs.{IsWhole, all_characters, all_characters-append, emit-whole}
use native.Mathlib.Nat.{
  suc-mul, mul-div_cancel, mod-add-div', div-mul-le_self, le-div_iff_mul-le, div-lt_iff_lt-mul,
}

leb-true : (a b : ℕ) → leb a b ≡ true → a ≤ b
leb-true a b e = ground arith

leb-false : (a b : ℕ) → leb a b ≡ false → b < a
leb-false a b e = ground arith

not_whole : (a b : ℕ) → b < a → leb a b ≡ false
not_whole a b e = ground arith

module _ (enc : Encoding) (v : IsValid enc) where
  -- A number of whole blocks in front of the bytes.
  cut-IsWhole :
      (m : ℕ) (p : List ℕ)
      → m * enc.base256_block_len ≤ length p
      → (ds : List (List ℕ)) × (concat ds ≡ take (m * enc.base256_block_len) p)
        × (length ds ≡ m)
        × All (IsWhole enc v) ds
        × (concat ds ++ drop (m * enc.base256_block_len) p ≡ p)
  cut-IsWhole zero p h =
      let none : zero * enc.base256_block_len ≡ 0 = omega arith in
      ([], ap (λ n. take n p) (sym none), refl, tt, ap (λ n. drop n p) none)
  cut-IsWhole (suc m) p h =
      let b = enc.base256_block_len in
      let size = suc-mul m b in
      let (ds, front, count, whole, joins) =
        cut-IsWhole m (drop b p) (omega (arith, size, length-drop b p)) in
      let all =
        append_assoc (take b p) (concat ds) (drop (m * b) (drop b p))
        ∙ ap (λ t. take b p ++ t) joins
        ∙ take-append-drop b p in
      let parts =
        append_cancel (take b p ++ concat ds) (drop (m * b) (drop b p)) (take (suc m * b) p)
          (drop (suc m * b) p)
          (omega (
            arith,
            length-append (take b p) (concat ds),
            ap length front,
            length-take (m * b) (drop b p),
            length-take b p,
            length-drop b p,
            length-take (suc m * b) p,
            size,
          ))
          (all ∙ sym (take-append-drop (suc m * b) p)) in
      (
        take b p ∷ ds,
        parts.0,
        omega (arith, count),
        (omega (arith, length-take b p, size), whole),
        ap (λ t. t ++ drop (suc m * b) p) parts.0 ∙ take-append-drop (suc m * b) p,
      )

  interior_len_lem :
      (len : ℕ)
      → enc.base256_block_len ≤ len
      → (m : ℕ) × (interior_len enc len ≡ m * enc.base256_block_len)
        × (1 ≤ m)
        × (m ≤ 128)
        × (m * enc.base256_block_len ≤ len)
  unfolding interior_len
  interior_len_lem len h =
      let b = enc.base256_block_len in
      let pos = v.block_pos in
      let opos : 1 ≤ enc.base_x_block_len = omega (arith, v.block_pos, v.block_le) in
      let nn = ap (λ t. t * b) (mul-div_cancel 128 opos) in
      elim (Bool-cases (ltb len (out_len enc / enc.base_x_block_len * b))) [
        | inl short ↦ (
          len / b,
          ap (λ t. if t then len - len % b else out_len enc / enc.base_x_block_len * b) short
              ∙ omega (arith, mod-add-div' len b),
          (le-div_iff_mul-le pos).1 (omega (arith, h)),
          omega (
            arith,
            (div-lt_iff_lt-mul {x = len} {y = 128} pos).1
                (omega (arith, nn, ltb→lt len (out_len enc / enc.base_x_block_len * b) short)),
          ),
          div-mul-le_self len b,
        )
        | inr long ↦ (
          128,
          ap (λ t. if t then len - len % b else out_len enc / enc.base_x_block_len * b) long ∙ nn,
          omega arith,
          omega arith,
          omega (arith, nn, ltb→le len (out_len enc / enc.base_x_block_len * b) long),
        )
      ]

  All-concat : (ds : List (List ℕ)) → All IsByte (concat ds) → All (All IsByte) ds
  All-concat [] a = tt
  All-concat (d ∷ ds) a = (
    subst (All IsByte) (take-append (length d) d (concat ds) refl)
        (All-take IsByte (length d) (d ++ concat ds) a),
    All-concat ds (
        subst (All IsByte) (drop-append (length d) d (concat ds) refl)
          (All-drop IsByte (length d) (d ++ concat ds) a)),
  )

  taken : (m b : ℕ) → 1 ≤ m → 1 ≤ b → 1 ≤ m * b
  taken zero b h k = absurd (omega arith)
  taken (suc m) b h k = omega (arith, suc-mul m b)

  -- What the loop has written, and what it keeps.
  interior_lem :
      (fuel : ℕ) (p w : List ℕ)
      → All IsByte p
      → length p ≤ fuel
      → (ds : List (List ℕ)) × (r : List ℕ) × (concat ds ++ r ≡ p)
        × All (IsWhole enc v) ds
        × (length r < enc.base256_block_len)
        × (interior enc fuel p w ≡ ok (record { w = w ++ all_characters enc v ds; buf = r }))
  unfolding interior all_characters
  interior_lem zero p w bytes h =
      let few : length p < enc.base256_block_len = omega (arith, v.block_pos) in
      (
        [],
        p,
        refl,
        tt,
        few,
        ap (λ t. if t then panic else ok (record { w = w; buf = p }))
              (not_whole enc.base256_block_len (length p) few)
            ∙ ap (λ t. ok (record { w = t; buf = p })) (sym (append-nil w)),
      )
  interior_lem (suc fuel) p w bytes h =
      let b = enc.base256_block_len in
      let o = enc.base_x_block_len in
      let choice : Bool → Result Encoder = λ t.
        if t
        then (emit enc (interior_len enc (length p) / b * o) (take (interior_len enc (length p)) p)
              w
            >>= λ w'. interior enc fuel (drop (interior_len enc (length p)) p) w')
        else ok (record { w = w; buf = p }) in
      elim (Bool-cases (leb b (length p))) [
        | inr few ↦ (
          [],
          p,
          refl,
          tt,
          leb-false b (length p) few,
          ap choice few ∙ ap (λ t. ok (record { w = t; buf = p })) (sym (append-nil w)),
        )
        | inl enough ↦
            let (m, is_m, pos, small, le) =
              interior_len_lem (length p) (leb-true b (length p) enough) in
            let (ds, front, count, whole, joins) = cut-IsWhole m p le in
            let bytes_ds =
              All-concat ds (subst (All IsByte) (sym front) (All-take IsByte (m * b) p bytes)) in
            let (es, r, joins', whole', short, e) =
              interior_lem fuel (drop (m * b) p) (w ++ all_characters enc v ds)
                (All-drop IsByte (m * b) p bytes)
                (omega (arith, length-drop (m * b) p, taken m b pos v.block_pos)) in
            (
              ds ++ es,
              r,
              ap (λ t. t ++ r) (concat-append ds es)
                  ∙ append_assoc (concat ds) (concat es) r
                  ∙ ap (λ t. concat ds ++ t) joins'
                  ∙ joins,
              All-append (IsWhole enc v) ds es whole whole',
              short,
              ap choice enough
                  ∙ ap
                      (λ n.
                        emit enc (n / b * o) (take n p) w >>= λ w'. interior enc fuel (drop n p) w')
                      is_m
                  ∙ >>=_ok _ (
                      ap₂ (λ n t. emit enc (n * o) t w) (mul-div_cancel m v.block_pos ∙ sym count)
                        (sym front)
                      ∙ emit-whole enc v ds w whole bytes_ds (omega (arith, count, small)))
                  ∙ e
                  ∙ ap (λ t. ok (record { w = t; buf = r }))
                      (append_assoc w (all_characters enc v ds) (all_characters enc v es)
                        ∙ ap (λ t. w ++ t) (sym (all_characters-append enc v ds es))),
            )
      ]

  -- The invariant of the encoder: of the bytes written, the whole blocks are encoded, and less than a
  -- block is kept.
  pub record Holds (bytes : List ℕ) (e : Encoder) : Type 0 where
    pub blocks : List (List ℕ)
    pub whole : All (IsWhole enc v) blocks
    pub joins : concat blocks ++ e.buf ≡ bytes
    pub short : length e.buf < enc.base256_block_len
    pub written : e.w ≡ all_characters enc v blocks

  pub Holds-new_encoder : Holds [] new_encoder
  unfolding new_encoder all_characters
  Holds-new_encoder = record {
    blocks = [];
    whole = tt;
    joins = refl;
    short = omega (arith, v.block_pos);
    written = refl;
  }

  -- What the loop leaves of an encoder that has written whole blocks.
  pub after_interior :
      (bytes p w : List ℕ) (cs : List (List ℕ))
      → All (IsWhole enc v) cs
      → concat cs ++ p ≡ bytes
      → w ≡ all_characters enc v cs
      → (fuel : ℕ) → All IsByte p
      → length p ≤ fuel
      → (e : Encoder) × (interior enc fuel p w ≡ ok e) × Holds bytes e
  after_interior bytes p w cs whole joins written fuel is_bytes h =
      let (ds, r, joins', whole', short, e) = interior_lem fuel p w is_bytes h in
      (
        record { w = w ++ all_characters enc v ds; buf = r },
        e,
        record {
          blocks = cs ++ ds;
          whole = All-append (IsWhole enc v) cs ds whole whole';
          joins =
              ap (λ t. t ++ r) (concat-append cs ds)
              ∙ append_assoc (concat cs) (concat ds) r
              ∙ ap (λ t. concat cs ++ t) joins'
              ∙ joins;
          short = short;
          written =
              ap (λ t. t ++ all_characters enc v ds) written
              ∙ sym (all_characters-append enc v cs ds);
        },
      )
