-- ===== src/PunctuatedReader/Laws.antt =====
-- punctuated_reader.go: what the reader gives of the bytes that the reader under it still has.
use saltpack.Base.{
  ℕ, ◌≤◌, ◌≡◌, refl, sym, ap, ap₂, subst, arith, true, false, Option, none, some, List, [], ◌∷◌,
  ◌++◌, length, All, ◌==◌, ==_iff, inl, inr, ◌⊎◌, Bool-cases, if◌then◌else◌,
}
use saltpack.Errors.{Error, eof, punctuated}
use saltpack.PunctuatedReader.{ReadResult, Reader, PunctuatedReader, found_later, cut}

-- No punctuation in the bytes.
abbrev pub IsFree : ℕ → List ℕ → Type 0
IsFree punctuation bytes = All (λ c. (c == punctuation) ≡ false) bytes

-- What `cut` finds.
pub data Cut (punctuation : ℕ) (xs : List ℕ) : Option (List ℕ × List ℕ) → Type 0 where
  free : IsFree punctuation xs → Cut punctuation xs none
  at :
      (front back : List ℕ)
      → IsFree punctuation front
      → front ++ punctuation ∷ back ≡ xs
      → Cut punctuation xs (some (front, back))

is_same : (c d : ℕ) → (c == d) ≡ true → c ≡ d
is_same c d e = ground arith

pub cut-Cut : (punctuation : ℕ) (xs : List ℕ) → Cut punctuation xs (cut punctuation xs)
unfolding cut
cut-Cut punctuation [] = free tt
cut-Cut punctuation (c ∷ cs) = elim (Bool-cases (c == punctuation)) [
  | inl here ↦
      subst (Cut punctuation (c ∷ cs))
        (ap (λ b. if b then some ([], cs) else found_later c (cut punctuation cs)) (sym here))
        (at [] cs tt (ap (λ t. t ∷ cs) (sym (is_same c punctuation here))))
  | inr other ↦
      subst (Cut punctuation (c ∷ cs))
        (ap (λ b. if b then some ([], cs) else found_later c (cut punctuation cs)) (sym other))
        (onward (cut punctuation cs) other (cut-Cut punctuation cs))
]
  where
    onward :
        (found : Option (List ℕ × List ℕ))
        → (c == punctuation) ≡ false
        → Cut punctuation cs found
        → Cut punctuation (c ∷ cs) (found_later c found)
    onward none other (free f) = free (other, f)
    onward (some (front, back)) other (at u v f e) = at (c ∷ u) v (other, f) (ap (λ t. c ∷ t) e)

-- Bytes without punctuation stand in front of the first punctuation.
pub IsFree-front :
    (punctuation : ℕ) (xs rest front back : List ℕ)
    → IsFree punctuation xs
    → IsFree punctuation front
    → xs ++ rest ≡ front ++ punctuation ∷ back
    → (more : List ℕ) × (xs ++ more ≡ front)
      × IsFree punctuation more
      × (rest ≡ more ++ punctuation ∷ back)
IsFree-front punctuation [] rest front back f g e = (front, refl, g, e)
IsFree-front punctuation (x ∷ xs) rest [] back f g e =
    let same : x ≡ punctuation = cc e in cc (f.0, (==_iff x punctuation).1 same)
IsFree-front punctuation (x ∷ xs) rest (y ∷ front) back f g e =
    let same : x ≡ y = cc e in
    let later : xs ++ rest ≡ front ++ punctuation ∷ back = cc e in
    let (more, joins, free_more, e') = IsFree-front punctuation xs rest front back f.1 g.1 later in
    (more, ap₂ (λ t u. t ∷ u) same joins, free_more, e')

-- The first punctuation of a list is where it is.
pub first_only :
    (punctuation : ℕ) (xs rest front back : List ℕ)
    → IsFree punctuation xs
    → IsFree punctuation front
    → xs ++ punctuation ∷ rest ≡ front ++ punctuation ∷ back
    → (xs ≡ front) × (rest ≡ back)
first_only punctuation [] rest [] back f g e = (refl, cc e)
first_only punctuation [] rest (y ∷ front) back f g e =
    let same : y ≡ punctuation = cc e in cc (g.0, (==_iff y punctuation).1 same)
first_only punctuation (x ∷ xs) rest [] back f g e =
    let same : x ≡ punctuation = cc e in cc (f.0, (==_iff x punctuation).1 same)
first_only punctuation (x ∷ xs) rest (y ∷ front) back f g e =
    let same : x ≡ y = cc e in
    let later : xs ++ punctuation ∷ rest ≡ front ++ punctuation ∷ back = cc e in
    let (a, b) = first_only punctuation xs rest front back f.1 g.1 later in
    (ap₂ (λ t u. t ∷ u) same a, b)

module _ {R : Type 0} (read_from : Reader R) (contents : R → List ℕ) where
  -- What a read of the reader under it gives: some of its bytes, or `io.EOF` when it has none.
  pub data Supplies (len : ℕ) (r : R) : ReadResult × R → Type 0 where
    ended :
        (r' : R) → contents r ≡ [] → Supplies len r (record { copied = []; error = some eof }, r')
    gives :
        (got : List ℕ) (r' : R)
        → 1 ≤ length got
        → got ++ contents r' ≡ contents r
        → Supplies len r (record { copied = got; error = none }, r')

  -- A reader with contents, such as `bytes.Buffer`.
  abbrev pub IsSource : Type 0
  IsSource = (len : ℕ) (r : R) → 1 ≤ len → Supplies len r (read_from len r)

  -- The punctuation that follows a segment.
  abbrev pub mark : ℕ → Option Error → List ℕ
  mark punctuation none = []
  mark punctuation (some e) = punctuation ∷ []

  -- All that the reader has still to give.
  unfoldable pub remaining : PunctuatedReader R → List ℕ
  remaining p =
      p.this_segment ++ (mark p.punctuation p.err_this_segment ++ (p.next_segment ++ contents p.r))

  -- The invariant: a segment that was copied short holds no punctuation, and an error is kept back
  -- only with such a segment.
  pub record IsOpen (p : PunctuatedReader R) : Type 0 where
    pub free_segment : IsFree p.punctuation p.this_segment
    pub kept :
        (p.err_this_segment ≡ none)
        ⊎ ((p.err_this_segment ≡ some punctuated) × (1 ≤ length p.this_segment))

  -- What a call of `Read` may do.
  pub data Reads (p : PunctuatedReader R) : ReadResult × PunctuatedReader R → Type 0 where
    part :
        (got : List ℕ) (p' : PunctuatedReader R)
        → 1 ≤ length got
        → IsFree p.punctuation got
        → IsOpen p'
        → p'.punctuation ≡ p.punctuation
        → got ++ remaining p' ≡ remaining p
        → Reads p (record { copied = got; error = none }, p')
    stop :
        (got : List ℕ) (p' : PunctuatedReader R)
        → IsFree p.punctuation got
        → IsOpen p'
        → p'.punctuation ≡ p.punctuation
        → got ++ p.punctuation ∷ remaining p' ≡ remaining p
        → Reads p (record { copied = got; error = some punctuated }, p')
    end :
        (p' : PunctuatedReader R)
        → remaining p ≡ []
        → Reads p (record { copied = []; error = some eof }, p')
