-- ===== src/PunctuatedReader/Until.antt =====
-- punctuated_reader.go: what `ReadUntilPunctuation` returns.
use saltpack.Base.{
  ℕ, zero, suc, ◌+◌, ◌≤◌, ◌<◌, ◌≡◌, sym, ap, ◌∙◌, subst, arith, true, false, none, List, [], ◌∷◌,
  ◌++◌, append_assoc, length, length-append, leb, ◌==◌, ==_refl, All, Bool-cases, inl, inr,
  if◌then◌else◌,
}
use saltpack.Errors.{Result, ok, err, overflow, unexpected_eof}
use saltpack.PunctuatedReader.{
  ReadResult, Reader, buf_len, PunctuatedReader, read, until_next, read_until_loop,
  read_until_punctuation,
}
use saltpack.PunctuatedReader.Laws.{
  IsFree, IsFree-front, first_only, IsSource, remaining, IsOpen, Reads, part, stop, end,
}
use saltpack.PunctuatedReader.Segments.{read-Reads}

below : (lim n : ℕ) → n < lim → leb lim n ≡ false
below lim n h = ground arith

reached : (lim n : ℕ) → lim ≤ n → leb lim n ≡ true
reached lim n h = ground arith

is_reached : (lim n : ℕ) → leb lim n ≡ true → lim ≤ n
is_reached lim n e = ground arith

is_below : (lim n : ℕ) → leb lim n ≡ false → n < lim
is_below lim n e = ground arith

All-right : (P : ℕ → Type 0) (xs ys : List ℕ) → All P (xs ++ ys) → All P ys
All-right P [] ys h = h
All-right P (x ∷ xs) ys h = All-right P xs ys h.1

nonzero : (n : ℕ) → 1 ≤ n → (n == 0) ≡ false
nonzero n h = ground arith

module _ {R : Type 0} (read_from : Reader R) (contents : R → List ℕ)
    (source : IsSource read_from contents) where
  -- A round of the loop, with what the read gave.
  abbrev round :
      ℕ → ℕ → List ℕ → ReadResult × PunctuatedReader R → Result (List ℕ) × PunctuatedReader R
  round fuel lim res out =
      until_next read_from lim (res ++ out.0.copied) (length out.0.copied) out.0.error out.1
        (read_until_loop read_from fuel lim (res ++ out.0.copied) out.1)

  -- A read that gives bytes below the limit is followed by another round.
  goes_on :
      (fuel lim : ℕ) (res got : List ℕ) (p' : PunctuatedReader R)
      → 1 ≤ length got
      → length (res ++ got) < lim
      → round fuel lim res (record { copied = got; error = none }, p')
        ≡ read_until_loop read_from fuel lim (res ++ got) p'
  unfolding until_next
  goes_on fuel lim res got p' h l =
      ap
        (λ b.
          if b
          then (err overflow, p')
          else if length got == 0
          then (err unexpected_eof, p')
          else read_until_loop read_from fuel lim (res ++ got) p')
        (below lim (length (res ++ got)) l)
      ∙ ap
          (λ b.
            if b
            then (err unexpected_eof, p')
            else read_until_loop read_from fuel lim (res ++ got) p')
          (nonzero (length got) h)

  -- The bytes up to the punctuation are returned, and what stands behind it remains.
  abbrev Finds :
      PunctuatedReader R → List ℕ → List ℕ → Result (List ℕ) × PunctuatedReader R → Type 0
  Finds p front back out =
      (p' : PunctuatedReader R) × (out ≡ (ok front, p'))
      × IsOpen read_from contents p'
      × (p'.punctuation ≡ p.punctuation)
      × (remaining read_from contents p' ≡ back)

  abbrev FindsAll : ℕ → ℕ → Type 0
  FindsAll fuel lim =
      (res : List ℕ) (p : PunctuatedReader R) (front back : List ℕ)
      → IsOpen read_from contents p
      → IsFree p.punctuation front
      → front ++ p.punctuation ∷ back ≡ remaining read_from contents p
      → length res + length front < lim
      → lim < length res + fuel
      → Finds p (res ++ front) back (read_until_loop read_from fuel lim res p)

  find_step :
      (fuel lim : ℕ)
      → FindsAll fuel lim
      → (res : List ℕ) (p : PunctuatedReader R) (front back : List ℕ)
        (out : ReadResult × PunctuatedReader R)
      → IsFree p.punctuation front
      → front ++ p.punctuation ∷ back ≡ remaining read_from contents p
      → length res + length front < lim
      → lim < length res + suc fuel
      → Reads read_from contents p out
      → Finds p (res ++ front) back (round fuel lim res out)
  unfolding until_next
  find_step fuel lim again res p front back out free_f whole l enough
        (part got p' h free_got o same e) =
      let (more, joins, free_more, rest) =
        IsFree-front p.punctuation got (remaining read_from contents p') front back free_got free_f
          (e ∙ sym whole) in
      let (q, found, open_q, same_q, left) =
        again (res ++ got) p' more back o (subst (λ c. IsFree c more) (sym same) free_more)
          (ap (λ c. more ++ c ∷ back) same ∙ sym rest)
          (omega (arith, length-append res got, length-append got more, ap length joins))
          (omega (arith, length-append res got)) in
      (
        q,
        goes_on fuel lim res got p' h
              (omega (arith, length-append res got, length-append got more, ap length joins))
            ∙ found
            ∙ ap (λ t. (ok t, q)) (append_assoc res got more ∙ ap (λ t. res ++ t) joins),
        open_q,
        same_q ∙ same,
        left,
      )
  find_step fuel lim again res p front back out free_f whole l enough
        (stop got p' free_got o same e) =
      let (joins, left) =
        first_only p.punctuation got (remaining read_from contents p') front back free_got free_f
          (e ∙ sym whole) in
      (p', ap (λ t. (ok (res ++ t), p')) joins, o, same, left)
  find_step fuel lim again res p front back out free_f whole l enough (end p' none_left) =
      absurd
        (omega (arith, ap length (whole ∙ none_left), length-append front (p.punctuation ∷ back)))

  finds_all : (fuel lim : ℕ) → FindsAll fuel lim
  unfolding read_until_loop
  finds_all zero lim res p front back o f e l enough = absurd (omega arith)
  finds_all (suc fuel) lim res p front back o f e l enough =
      find_step fuel lim (finds_all fuel lim) res p front back (read read_from buf_len p) f e l
        enough (read-Reads read_from contents source buf_len p (omega arith) o)

  -- On a reader with contents, a punctuated reader whose remaining bytes are `front` without
  -- punctuation, the punctuation, and `back`, with less than `lim` bytes in front: `front` is
  -- returned, whatever the sizes of the reads under it and wherever the segments were cut before,
  -- `back` remains, and the invariant holds again.
  pub read_until_punctuation-finds :
      (lim : ℕ) (p : PunctuatedReader R) (front back : List ℕ)
      → IsOpen read_from contents p
      → IsFree p.punctuation front
      → front ++ p.punctuation ∷ back ≡ remaining read_from contents p
      → length front < lim
      → (p' : PunctuatedReader R) × (read_until_punctuation read_from lim p ≡ (ok front, p'))
        × IsOpen read_from contents p'
        × (p'.punctuation ≡ p.punctuation)
        × (remaining read_from contents p' ≡ back)
  unfolding read_until_punctuation
  read_until_punctuation-finds lim p front back o f e l =
      finds_all (lim + 1) lim [] p front back o f e (omega arith) (omega arith)

  -- Which error ends the search in bytes without punctuation.
  abbrev FailsAll : ℕ → ℕ → Type 0
  FailsAll fuel lim =
      (res : List ℕ) (p : PunctuatedReader R)
      → IsOpen read_from contents p
      → IsFree p.punctuation (remaining read_from contents p)
      → length res < lim
      → lim < length res + fuel
      → (read_until_loop read_from fuel lim res p).0
        ≡ err (
            if leb lim (length res + length (remaining read_from contents p))
            then overflow
            else unexpected_eof)

  abbrev fail_result : ℕ → ℕ → Result (List ℕ)
  fail_result lim n = err (if leb lim n then overflow else unexpected_eof)

  fail_step :
      (fuel lim : ℕ)
      → FailsAll fuel lim
      → (res : List ℕ) (p : PunctuatedReader R) (out : ReadResult × PunctuatedReader R)
      → IsFree p.punctuation (remaining read_from contents p)
      → length res < lim
      → lim < length res + suc fuel
      → Reads read_from contents p out
      → (round fuel lim res out).0
        ≡ fail_result lim (length res + length (remaining read_from contents p))
  unfolding until_next
  fail_step fuel lim again res p out f l enough (part got p' h free_got o same e) =
      let left = remaining read_from contents p' in
      let total : length (res ++ got) + length left
          ≡ length res + length (remaining read_from contents p) =
        omega (arith, ap length e, length-append got left, length-append res got) in
      elim (Bool-cases (leb lim (length (res ++ got)))) [
        | inl over ↦
            ap
              (λ b.
                (if b
                  then (err overflow, p')
                  else if length got == 0
                  then (err unexpected_eof, p')
                  else read_until_loop read_from fuel lim (res ++ got) p').0)
              over
            ∙ ap (λ b. err (if b then overflow else unexpected_eof))
                (sym (
                  reached lim (length res + length (remaining read_from contents p))
                    (omega (arith, total, is_reached lim (length (res ++ got)) over))))
        | inr under ↦
            ap (λ t. t.0) (goes_on fuel lim res got p' h (is_below lim (length (res ++ got)) under))
            ∙ again (res ++ got) p' o
                (subst (λ c. IsFree c left) (sym same)
                  (All-right (λ c. (c == p.punctuation) ≡ false) got left
                    (subst (IsFree p.punctuation) (sym e) f)))
                (is_below lim (length (res ++ got)) under) (omega (arith, length-append res got))
            ∙ ap (fail_result lim) total
      ]
  fail_step fuel lim again res p out f l enough (stop got p' free_got o same e) =
      let bad =
        All-right (λ c. (c == p.punctuation) ≡ false) got
          (p.punctuation ∷ remaining read_from contents p')
          (subst (IsFree p.punctuation) (sym e) f) in
      cc (bad.0, ==_refl p.punctuation)
  fail_step fuel lim again res p out f l enough (end p' none_left) =
      ap (λ b. err (if b then overflow else unexpected_eof))
        (sym (
          below lim (length res + length (remaining read_from contents p))
            (omega (arith, ap length none_left))))

  fails_all : (fuel lim : ℕ) → FailsAll fuel lim
  unfolding read_until_loop
  fails_all zero lim res p o f l enough = absurd (omega arith)
  fails_all (suc fuel) lim res p o f l enough =
      fail_step fuel lim (fails_all fuel lim) res p (read read_from buf_len p) f l enough
        (read-Reads read_from contents source buf_len p (omega arith) o)

  -- On a reader with contents, a punctuated reader whose remaining bytes hold no punctuation, and a
  -- limit above 0: the search ends with an error, `ErrOverflow` if at least `lim` bytes remain and
  -- `io.ErrUnexpectedEOF` if fewer do.
  pub read_until_punctuation-fails :
      (lim : ℕ) (p : PunctuatedReader R)
      → IsOpen read_from contents p
      → IsFree p.punctuation (remaining read_from contents p)
      → 1 ≤ lim
      → (read_until_punctuation read_from lim p).0
        ≡ err
            (if leb lim (length (remaining read_from contents p)) then overflow else unexpected_eof)
  unfolding read_until_punctuation
  read_until_punctuation-fails lim p o f h =
      fails_all (lim + 1) lim [] p o f (omega arith) (omega arith)
      ∙ ap (fail_result lim) {x = 0 + length (remaining read_from contents p)}
          {y = length (remaining read_from contents p)} (omega arith)
