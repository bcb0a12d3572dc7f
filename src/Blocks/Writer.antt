-- ===== src/Blocks/Writer.antt =====
-- A writer that keeps a buffer, an output and a block number, and whose block operation emits the
-- block in front of the buffer: what any series of writes emits.
use saltpack.Base.{
  ℕ, zero, suc, ◌+◌, ◌≤◌, ◌<◌, ◌≡◌, refl, sym, ap, ap₂, ◌∙◌, arith, Bool, false, List, [], ◌∷◌,
  ◌++◌, append_assoc, append-nil, length, length-append, length-drop, take, drop, lt→ltb, le→ltb,
}
use saltpack.Errors.{ok}
use saltpack.State.{St, and_then}
use saltpack.Blocks.{drain}
use saltpack.Blocks.Cut.{IsCut, IsCut-short, IsCut-cons, IsCut-append, IsCut-count}
use native.Mathlib.Decide.{dec_le}

-- What blocks that are not final emit, numbered from `n`.
abbrev pub emit_all : (ℕ → List ℕ → Bool → List ℕ) → ℕ → List (List ℕ) → List ℕ
emit_all emit n [] = []
emit_all emit n (c ∷ cs) = emit n c false ++ emit_all emit (n + 1) cs

pub emit_all-append :
    (emit : ℕ → List ℕ → Bool → List ℕ) (n : ℕ) (cs ds : List (List ℕ))
    → emit_all emit n (cs ++ ds) ≡ emit_all emit n cs ++ emit_all emit (n + length cs) ds
emit_all-append emit n [] ds = ap (λ t. emit_all emit t ds) {x = n} {y = n + 0} (omega arith)
emit_all-append emit n (c ∷ cs) ds =
    ap (λ t. emit n c false ++ t)
      (emit_all-append emit (n + 1) cs ds
        ∙ ap (λ t. emit_all emit (n + 1) cs ++ emit_all emit t ds) {x = n + 1 + length cs}
            {y = n + suc (length cs)} (omega arith))
    ∙ sym (
        append_assoc (emit n c false) (emit_all emit (n + 1) cs)
          (emit_all emit (n + suc (length cs)) ds))

pub emit_all-joined :
    (emit : ℕ → List ℕ → Bool → List ℕ) (cs ds : List (List ℕ))
    → emit_all emit 0 cs ++ emit_all emit (length cs) ds ≡ emit_all emit 0 (cs ++ ds)
emit_all-joined emit cs ds =
    ap (λ t. emit_all emit 0 cs ++ emit_all emit t ds) {x = length cs} {y = 0 + length cs}
      (omega arith)
    ∙ sym (emit_all-append emit 0 cs ds)

pub emit_all-snoc :
    (emit : ℕ → List ℕ → Bool → List ℕ) (cs : List (List ℕ)) (r : List ℕ)
    → emit_all emit 0 (cs ++ r ∷ []) ≡ emit_all emit 0 cs ++ emit (length cs) r false
emit_all-snoc emit cs r =
    sym (emit_all-joined emit cs (r ∷ []))
    ∙ ap (λ t. emit_all emit 0 cs ++ t) (append-nil (emit (length cs) r false))

module _ {S : Type 0} (buffer : S → List ℕ) (block_size limit : ℕ) (block : St S (Unit {0}))
    (make : List ℕ → List ℕ → ℕ → S) (emit : ℕ → List ℕ → Bool → List ℕ) (pos : 1 ≤ block_size)
    (buffer_make : (b o : List ℕ) (n : ℕ) → buffer (make b o n) ≡ b)
    (block_emits : (b o : List ℕ) (n : ℕ)
      → n < limit
      → block_size < length b
      → block (make b o n)
        ≡ (ok tt, make (drop block_size b) (o ++ emit n (take block_size b) false) (n + 1))) where
  -- What the loop of `Write` leaves: the full blocks are out, and the rest is kept.
  abbrev pub Drained : ℕ → List ℕ → List ℕ → ℕ → Type 0
  Drained fuel b o n =
      (cs : List (List ℕ)) × (r : List ℕ) × IsCut block_size b cs r
      × (drain buffer block_size block fuel (make b o n)
          ≡ (ok tt, make r (o ++ emit_all emit n cs) (n + length cs)))

  stays :
      (fuel : ℕ) (b o : List ℕ) (n : ℕ)
      → length b ≤ block_size
      → drain buffer block_size block fuel (make b o n) ≡ (ok tt, make b o n)
  unfolding drain
  stays zero b o n h = rw (drain, buffer_make b o n, le→ltb block_size (length b) h) refl
  stays (suc fuel) b o n h = rw (drain, buffer_make b o n, le→ltb block_size (length b) h) refl

  steps :
      (fuel : ℕ) (b o : List ℕ) (n : ℕ)
      → n < limit
      → block_size < length b
      → drain buffer block_size block (suc fuel) (make b o n)
        ≡ drain buffer block_size block fuel
            (make (drop block_size b) (o ++ emit n (take block_size b) false) (n + 1))
  unfolding drain
  steps fuel b o n k h =
      rw (drain, buffer_make b o n, lt→ltb block_size (length b) h)
        (ap (λ r. and_then r.0 r.1 (λ _ t. drain buffer block_size block fuel t))
          (block_emits b o n k h))

  Drained-short : (fuel : ℕ) (b o : List ℕ) (n : ℕ) → length b ≤ block_size → Drained fuel b o n
  Drained-short fuel b o n h = (
    [],
    b,
    IsCut-short block_size b h,
    stays fuel b o n h
        ∙ ap₂ (λ u v. (ok tt, make b u v)) {x = o} {y = o ++ []} {u = n} {v = n + 0}
            (sym (append-nil o)) (omega arith),
  )

  Drained-more :
      (fuel : ℕ) (b o : List ℕ) (n : ℕ)
      → n < limit
      → block_size < length b
      → Drained fuel (drop block_size b) (o ++ emit n (take block_size b) false) (n + 1)
      → Drained (suc fuel) b o n
  Drained-more fuel b o n k h (cs, r, cut, e) = (
    take block_size b ∷ cs,
    r,
    IsCut-cons block_size b cs r h cut,
    steps fuel b o n k h
        ∙ e
        ∙ ap₂ (λ u v. (ok tt, make r u v)) {u = n + 1 + length cs} {v = n + suc (length cs)}
            (append_assoc o (emit n (take block_size b) false) (emit_all emit (n + 1) cs))
            (omega arith),
  )

  pub drain_lem :
      (fuel : ℕ) (b o : List ℕ) (n : ℕ)
      → length b ≤ fuel
      → n + length b ≤ limit
      → Drained fuel b o n
  drain_lem zero b o n h k = Drained-short zero b o n (omega arith)
  drain_lem (suc fuel) b o n h k = elim (dec_le (length b) block_size) [
    | yes small ↦ Drained-short (suc fuel) b o n small
    | no big ↦ Drained-more fuel b o n (omega arith) (omega arith) (
        drain_lem fuel (drop block_size b) (o ++ emit n (take block_size b) false) (n + 1)
          (omega (arith, length-drop block_size b)) (omega (arith, length-drop block_size b)))
  ]

  -- A write behind others: what they left is cut further.
  pub drain-more :
      (bytes p o : List ℕ) (cs : List (List ℕ)) (r : List ℕ)
      → IsCut block_size bytes cs r
      → length bytes + length p ≤ limit
      → (ds : List (List ℕ)) × (t : List ℕ) × IsCut block_size (bytes ++ p) ds t
        × (drain buffer block_size block
              (length (r ++ p))
              (make (r ++ p) (o ++ emit_all emit 0 cs) (length cs))
            ≡ (ok tt, make t (o ++ emit_all emit 0 ds) (length ds)))
  drain-more bytes p o cs r cut h =
      let (ds, t, cut', e) =
        drain_lem (length (r ++ p)) (r ++ p) (o ++ emit_all emit 0 cs) (length cs) (omega arith)
          (omega (arith, length-append r p, IsCut-count block_size cs r pos cut)) in
      (
        cs ++ ds,
        t,
        IsCut-append block_size bytes p cs ds r t cut cut',
        e
            ∙ ap₂ (λ u v. (ok tt, make t u v)) {u = length cs + length ds} {v = length (cs ++ ds)}
                (append_assoc o (emit_all emit 0 cs) (emit_all emit (length cs) ds)
                  ∙ ap (λ u. o ++ u) (emit_all-joined emit cs ds))
                (sym (length-append cs ds)),
      )
