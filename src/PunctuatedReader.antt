-- ===== src/PunctuatedReader.antt =====
-- punctuated_reader.go: a reader that stops at a punctuation byte. The reader under it is any state
-- with a `Read`, as the Go interface is. A slice is a value here: the code keeps slices of the
-- buffer of the last call, which is right as long as the caller leaves that buffer alone.
pub mod Laws
pub mod Reading
pub mod Segments
pub mod Until
use saltpack.Base.{
  ℕ, zero, suc, ◌+◌, ◌-◌, Bool, true, false, not, ◌&&◌, ◌||◌, Option, none, some, List, [], ◌∷◌,
  ◌++◌, length, take, drop, ltb, leb, ◌==◌, if◌then◌else◌,
}
use saltpack.Errors.{
  Error, Result, ok, err, panic, is_eof, is_punctuated, punctuated, overflow, unexpected_eof,
}

-- What a `Read` returns: the bytes that it has put into the front of the buffer, and the error.
pub record ReadResult : Type 0 where
  pub copied : List ℕ
  pub error : Option Error

-- `io.Reader`: a call with a buffer of some length.
abbrev pub Reader : Type 0 → Type 0
Reader R = ℕ → R → ReadResult × R

-- The length of the buffer `buf`.
abbrev pub buf_len : ℕ
buf_len = 4096

pub record PunctuatedReader (R : Type 0) : Type 0 where
  pub r : R
  pub punctuation : ℕ
  pub next_segment : List ℕ
  pub this_segment : List ℕ
  pub err_this_segment : Option Error

-- What stands in front of the first punctuation byte, and what behind it, as `bytes.Index` finds.
abbrev pub found_later : ℕ → Option (List ℕ × List ℕ) → Option (List ℕ × List ℕ)
found_later c none = none
found_later c (some (front, back)) = some (c ∷ front, back)

unfoldable pub cut : ℕ → List ℕ → Option (List ℕ × List ℕ)
cut punctuation [] = none
cut punctuation (c ∷ cs) =
    let rest = cut punctuation cs in if c == punctuation then some ([], cs) else found_later c rest

module _ {R : Type 0} (read_from : Reader R) where
  unfoldable pub new_punctuated_reader : R → ℕ → PunctuatedReader R
  new_punctuated_reader r punctuation = record {
    r = r;
    punctuation = punctuation;
    next_segment = [];
    this_segment = [];
    err_this_segment = none;
  }

  -- The first case of `Read`: a short copy of an earlier call.
  unfoldable pub drain_segment : ℕ → PunctuatedReader R → ReadResult × PunctuatedReader R
  drain_segment len p =
      let rest = drop len p.this_segment in
      let done = length rest == 0 in
      (
        record {
          copied = take len p.this_segment;
          error = if done then p.err_this_segment else none;
        },
        record p {
          this_segment = rest;
          err_this_segment = if done then none else p.err_this_segment;
        },
      )

  -- The segment `src` is copied into the buffer; `found` says that punctuation follows it.
  unfoldable pub copy_segment :
      ℕ → List ℕ → Bool → PunctuatedReader R → ReadResult × PunctuatedReader R
  copy_segment len src found p =
      let rest = drop len src in
      let short = ltb 0 (length rest) in
      (
        record {
          copied = take len src;
          error = if found && not short then some punctuated else none;
        },
        record p {
          this_segment = rest;
          err_this_segment = if found && short then some punctuated else p.err_this_segment;
        },
      )

  -- The second case: what was left behind the last punctuation, with where it is cut.
  unfoldable pub read_cut :
      ℕ → PunctuatedReader R → Option (List ℕ × List ℕ) → ReadResult × PunctuatedReader R
  read_cut len p none = copy_segment len p.next_segment false (record p { next_segment = [] })
  read_cut len p (some (front, back)) =
      copy_segment len front true (record p { next_segment = back })

  unfoldable pub read_next : ℕ → PunctuatedReader R → ReadResult × PunctuatedReader R
  read_next len p = read_cut len p (cut p.punctuation p.next_segment)

  -- The third case, with what the read returned, and where that is cut.
  unfoldable pub split_read :
      PunctuatedReader R → List ℕ → Option (List ℕ × List ℕ) → ReadResult × PunctuatedReader R
  split_read p copied none = (record { copied = copied; error = none }, p)
  split_read p copied (some (front, back)) =
      (record { copied = front; error = some punctuated }, record p { next_segment = back })

  unfoldable pub after_read : PunctuatedReader R → ReadResult → ReadResult × PunctuatedReader R
  after_read p got = elim got.error [
    | some e ↦ (got, p)
    | none ↦ split_read p got.copied (cut p.punctuation got.copied)
  ]

  unfoldable pub read_on : ℕ → PunctuatedReader R → ReadResult × PunctuatedReader R
  read_on len p = let (got, r) = read_from len p.r in after_read (record p { r = r }) got

  unfoldable pub read : ℕ → PunctuatedReader R → ReadResult × PunctuatedReader R
  read len p =
      if ltb 0 (length p.this_segment)
      then drain_segment len p
      else if ltb 0 (length p.next_segment)
      then read_next len p
      else read_on len p

  -- What the loop of `ReadUntilPunctuation` does with the bytes so far, the number of bytes that the
  -- read gave and its error.
  unfoldable pub until_next :
      ℕ
      → List ℕ
      → ℕ
      → Option Error
      → PunctuatedReader R
      → Result (List ℕ) × PunctuatedReader R
      → Result (List ℕ) × PunctuatedReader R
  until_next lim res n (some e) p again =
      if is_punctuated e then (ok res, p) else (err (if is_eof e then unexpected_eof else e), p)
  until_next lim res n none p again =
      if leb lim (length res)
      then (err overflow, p)
      else if n == 0
      then (err unexpected_eof, p)
      else again

  -- A round that goes on has added a byte, so that one round more than the limit is enough fuel.
  unfoldable pub read_until_loop :
      ℕ → ℕ → List ℕ → PunctuatedReader R → Result (List ℕ) × PunctuatedReader R
  read_until_loop zero lim res p = (panic, p)
  read_until_loop (suc fuel) lim res p =
      let got = read buf_len p in
      let res' = res ++ got.0.copied in
      let again = read_until_loop fuel lim res' got.1 in
      until_next lim res' (length got.0.copied) got.0.error got.1 again

  unfoldable pub read_until_punctuation :
      ℕ → PunctuatedReader R → Result (List ℕ) × PunctuatedReader R
  read_until_punctuation lim p = read_until_loop (lim + 1) lim [] p
