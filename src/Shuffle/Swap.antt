-- ===== src/Shuffle/Swap.antt =====
-- The swap of two elements of a slice.
use mathlib.Core.List.{Perm}
use mathlib.Core.List.Perm
use saltpack.Base.{
  ℕ, zero, suc, ◌<◌, ◌≡◌, refl, sym, ap, ◌∙◌, subst, arith, some, List, [], ◌∷◌, length, get_elem?,
  set,
}
use saltpack.Errors.{ok, >>=_ok}
use saltpack.Shuffle.{element, swap}

get_elem?-lt :
    {A : Type 0} (xs : List A) (i : ℕ) → i < length xs → (x : A) × (get_elem? xs i ≡ some x)
get_elem?-lt [] i h = absurd (omega arith)
get_elem?-lt (x ∷ xs) zero h = (x, refl)
get_elem?-lt (x ∷ xs) (suc i) h = get_elem?-lt xs i (omega (arith, h))

-- An element and what replaces it, exchanged.
set-Perm :
    {A : Type 0} (xs : List A) (i : ℕ) (x y : A)
    → get_elem? xs i ≡ some x
    → Perm (x ∷ set xs i y) (y ∷ xs)
set-Perm [] i x y e = absurd (cc e)
set-Perm (z ∷ xs) zero x y e =
    let same : z ≡ x = cc e in
    subst (λ t. Perm (x ∷ y ∷ xs) (y ∷ t ∷ xs)) (sym same) (Perm.swap y x xs)
set-Perm (z ∷ xs) (suc i) x y e =
    Perm.trans (Perm.swap z x (set xs i y))
      (Perm.trans (Perm.cons z (set-Perm xs i x y e)) (Perm.swap y z xs))

get_elem?-set :
    {A : Type 0} (xs : List A) (i j : ℕ) (y : A)
    → get_elem? xs j ≡ some y
    → get_elem? (set xs i y) j ≡ some y
get_elem?-set [] i j y e = e
get_elem?-set (z ∷ xs) zero zero y e = refl
get_elem?-set (z ∷ xs) zero (suc j) y e = e
get_elem?-set (z ∷ xs) (suc i) zero y e = e
get_elem?-set (z ∷ xs) (suc i) (suc j) y e = get_elem?-set xs i j y e

length-set : {A : Type 0} (xs : List A) (i : ℕ) (y : A) → length (set xs i y) ≡ length xs
length-set [] i y = refl
length-set (z ∷ xs) zero y = refl
length-set (z ∷ xs) (suc i) y = ap suc (length-set xs i y)

-- Two positions of the slice: the swap succeeds.
pub swap-Perm :
    {A : Type 0} (i j : ℕ) (xs : List A)
    → i < length xs
    → j < length xs
    → (ys : List A) × (swap i j xs ≡ ok ys) × Perm xs ys × (length ys ≡ length xs)
unfolding swap
swap-Perm i j xs hi hj =
    let (b, at_j) = get_elem?-lt xs j hj in
    let (a, at_i) = get_elem?-lt xs i hi in
    (
      set (set xs i b) j a,
      >>=_ok _ (ap element at_j) ∙ >>=_ok _ (ap element at_i),
      Perm.symm (
          Perm.cons_inv (
            Perm.trans (set-Perm (set xs i b) j b a (get_elem?-set xs i j b at_j))
              (set-Perm xs i a b at_i))),
      length-set (set xs i b) j a ∙ length-set xs i b,
    )
