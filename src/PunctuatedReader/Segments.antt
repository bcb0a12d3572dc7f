-- ===== src/PunctuatedReader/Segments.antt =====
-- punctuated_reader.go: `Read` and `ReadUntilPunctuation` on a reader with contents.
use saltpack.Base.{
  ℕ, ◌≤◌, ◌≡◌, refl, sym, ap, ◌∙◌, subst, arith, true, false, Option, none, some, List, [], ◌∷◌,
  ◌++◌, append_assoc, length, ltb, ltb→lt, ltb→le, ◌==◌, inl, inr, Bool-cases, if◌then◌else◌,
}
use saltpack.PunctuatedReader.{
  ReadResult, Reader, PunctuatedReader, cut, read_cut, read_next, split_read, after_read, read_on,
  read, drain_segment,
}
use saltpack.PunctuatedReader.Laws.{
  IsFree, Cut, cut-Cut, free, at, Supplies, ended, gives, IsSource, remaining, IsOpen, Reads, part,
  stop, end,
}
use saltpack.PunctuatedReader.Reading.{empty, none_long, drained, copied}

module _ {R : Type 0} (read_from : Reader R) (contents : R → List ℕ)
    (source : IsSource read_from contents) where
  -- Nothing is left of a segment that was copied short.
  record IsClear (p : PunctuatedReader R) : Type 0 where
    no_segment : p.this_segment ≡ []
    no_error : p.err_this_segment ≡ none

  clear :
      (p : PunctuatedReader R)
      → ltb 0 (length p.this_segment) ≡ false
      → IsOpen read_from contents p
      → IsClear p
  clear p e open_p = record {
    no_segment = empty p.this_segment (ap (λ n. n == 0) (none_long (length p.this_segment) e));
    no_error = elim open_p.kept [
      | inl clean ↦ clean
      | inr (_, long) ↦ absurd (omega (arith, long, ltb→le 0 (length p.this_segment) e))
    ];
  }

  remaining_clear :
      (p : PunctuatedReader R)
      → IsClear p
      → p.next_segment ++ contents p.r ≡ remaining read_from contents p
  unfolding remaining
  remaining_clear p is_clear = rw (is_clear.no_segment, is_clear.no_error) refl

  cut_lem :
      (len : ℕ) (p : PunctuatedReader R) (found : Option (List ℕ × List ℕ))
      → 1 ≤ len
      → IsClear p
      → 1 ≤ length p.next_segment
      → Cut p.punctuation p.next_segment found
      → Reads read_from contents p (read_cut read_from len p found)
  unfolding read_cut
  cut_lem len p none h is_clear some_next (free f) =
      copied read_from contents source len p.next_segment [] false p
        (record p { next_segment = [] }) h f refl refl is_clear.no_error (λ _. some_next)
        (remaining_clear p is_clear)
  cut_lem len p (some (front, back)) h is_clear some_next (at u v f e) =
      copied read_from contents source len front back true p (record p { next_segment = back }) h f
        refl refl is_clear.no_error (λ x. cc x)
        (sym (append_assoc front (p.punctuation ∷ back) (contents p.r))
          ∙ ap (λ t. t ++ contents p.r) e
          ∙ remaining_clear p is_clear)

  split_lem :
      (p : PunctuatedReader R) (r' : R) (got : List ℕ) (found : Option (List ℕ × List ℕ))
      → IsClear p
      → p.next_segment ≡ []
      → 1 ≤ length got
      → got ++ contents r' ≡ contents p.r
      → Cut p.punctuation got found
      → Reads read_from contents p (split_read read_from (record p { r = r' }) got found)
  unfolding split_read remaining
  split_lem p r' got none is_clear no_next h e (free f) =
      part got (record p { r = r' }) h f
        (record {
          free_segment = subst (IsFree p.punctuation) (sym is_clear.no_segment) tt;
          kept = inl is_clear.no_error;
        })
        refl (rw (is_clear.no_segment, is_clear.no_error, no_next) e)
  split_lem p r' got (some (front, back)) is_clear no_next h e (at u v f g) =
      stop front (record p { r = r'; next_segment = back }) f
        (record {
          free_segment = subst (IsFree p.punctuation) (sym is_clear.no_segment) tt;
          kept = inl is_clear.no_error;
        })
        refl
        (rw (is_clear.no_segment, is_clear.no_error, no_next)
          (sym (append_assoc front (p.punctuation ∷ back) (contents r'))
            ∙ ap (λ t. t ++ contents r') g
            ∙ e))

  read_on_lem :
      (len : ℕ) (p : PunctuatedReader R) (got : ReadResult × R)
      → IsClear p
      → p.next_segment ≡ []
      → Supplies read_from contents len p.r got
      → Reads read_from contents p (after_read read_from (record p { r = got.1 }) got.0)
  unfolding after_read remaining
  read_on_lem len p got is_clear no_next (ended r' e) =
      end (record p { r = r' }) (rw (is_clear.no_segment, is_clear.no_error, no_next) e)
  read_on_lem len p got is_clear no_next (gives bytes r' h e) =
      split_lem p r' bytes (cut p.punctuation bytes) is_clear no_next h e
        (cut-Cut p.punctuation bytes)

  -- `Read` into a buffer that is not empty, on a punctuated reader that keeps the invariant, over a
  -- reader with contents. It gives bytes without punctuation and no error, or bytes without
  -- punctuation and `ErrPunctuated` in place of the punctuation behind them, or `io.EOF` when nothing
  -- remained; the bytes, the punctuation and what remains then are what remained before, and the
  -- invariant holds again, unless it was `io.EOF`.
  pub read-Reads :
      (len : ℕ) (p : PunctuatedReader R)
      → 1 ≤ len
      → IsOpen read_from contents p
      → Reads read_from contents p (read read_from len p)
  unfolding read read_next read_on
  read-Reads len p h open_p = elim (Bool-cases (ltb 0 (length p.this_segment))) [
    | inl short ↦
        subst
          (λ b. Reads read_from contents p (
            if b
            then drain_segment read_from len p
            else if ltb 0 (length p.next_segment)
            then read_next read_from len p
            else read_on read_from len p))
          (sym short)
          (drained read_from contents source len p h (ltb→lt 0 (length p.this_segment) short)
            open_p)
    | inr none_short ↦
        let is_clear = clear p none_short open_p in
        subst
          (λ b. Reads read_from contents p (
            if b
            then drain_segment read_from len p
            else if ltb 0 (length p.next_segment)
            then read_next read_from len p
            else read_on read_from len p))
          (sym none_short)
          (elim (Bool-cases (ltb 0 (length p.next_segment))) [
            | inl some_next ↦
                subst
                  (λ b.
                    Reads read_from contents p
                      (if b then read_next read_from len p else read_on read_from len p))
                  (sym some_next)
                  (cut_lem len p (cut p.punctuation p.next_segment) h is_clear
                    (ltb→lt 0 (length p.next_segment) some_next)
                    (cut-Cut p.punctuation p.next_segment))
            | inr no_next ↦
                subst
                  (λ b.
                    Reads read_from contents p
                      (if b then read_next read_from len p else read_on read_from len p))
                  (sym no_next)
                  (read_on_lem len p (read_from len p.r) is_clear
                    (empty p.next_segment
                      (ap (λ n. n == 0) (none_long (length p.next_segment) no_next)))
                    (source len p.r h))
          ])
  ]
