-- ===== src/Shuffle/Permuted.antt =====
-- rand.go: a shuffle of a slice.
use mathlib.Core.List.{Perm}
use mathlib.Core.List.Perm
use saltpack.Base.{
  ℕ, zero, suc, ◌+◌, ◌-◌, ◌^◌, ◌≤◌, ◌<◌, ◌≡◌, refl, sym, ap, ◌∙◌, subst, arith, false, inl, inr,
  ◌⊎◌, List, length, All, ltb, if◌then◌else◌,
}
use saltpack.Errors.{Error, Result, ok, err, panic, ◌>>=◌, >>=_ok}
use saltpack.Radix.{IsByte}
use saltpack.Rand.Bounds.{csprng_uint32n-lt}
use saltpack.Rand.Ends.{csprng_uint32n-Ends}
use saltpack.Shuffle.{swap, shuffle_loop, csprng_shuffle}
use saltpack.Shuffle.Swap.{swap-Perm}

-- An error of the source, or a rearrangement.
abbrev pub Shuffles : {A : Type 0} → List A → Result (List A × List ℕ) → Type 0
Shuffles {A} xs m =
    ((e : Error) × (m ≡ err e))
    ⊎ ((ys : List A) × (rest : List ℕ) × (m ≡ ok (ys, rest)) × Perm xs ys)

after_swap :
    {A : Type 0} (xs ys : List A) (m n : Result (List A × List ℕ))
    → m ≡ n
    → Perm xs ys
    → Shuffles ys n
    → Shuffles xs m
after_swap xs ys m n e same (inl (x, failed)) = inl (x, e ∙ failed)
after_swap xs ys m n e same (inr (zs, rest, done, p)) = inr (zs, rest, e ∙ done, Perm.trans same p)

shuffle_loop-Perm :
    {A : Type 0} (i : ℕ) (csprng : List ℕ) (xs : List A)
    → All IsByte csprng
    → i ≤ length xs - 1
    → length xs < 2 ^ 31
    → Shuffles xs (shuffle_loop swap i csprng xs)
unfolding shuffle_loop
shuffle_loop-Perm zero csprng xs bytes h small = inr (xs, csprng, refl, Perm.refl xs)
shuffle_loop-Perm (suc i) csprng xs bytes h small =
    elim (csprng_uint32n-Ends csprng (suc i + 1) bytes) [
      | inl (e, failed) ↦ inl (
        e,
        ap (λ m. m >>= λ p. (swap (suc i) p.0 xs >>= λ ys. shuffle_loop swap i p.1 ys)) failed,
      )
      | inr (x, drawn, left) ↦
          let below =
            csprng_uint32n-lt csprng x.1 (suc i + 1) x.0 bytes (omega arith)
              (omega (arith, h, small)) drawn in
          let (ys, swapped, same, size) =
            swap-Perm (suc i) x.0 xs (omega (arith, h)) (omega (arith, below, h)) in
          after_swap xs ys _ (shuffle_loop swap i x.1 ys)
            (ap (λ m. m >>= λ p. (swap (suc i) p.0 xs >>= λ ys. shuffle_loop swap i p.1 ys)) drawn
              ∙ >>=_ok (λ ys. shuffle_loop swap i x.1 ys) swapped)
            same
            (shuffle_loop-Perm i x.1 ys left (omega (arith, size, h)) (omega (arith, size, small)))
    ]

-- For a source of bytes and a slice of at most 2^31 - 1 elements: the shuffle of the slice returns an
-- error of the source, or a rearrangement of the slice; no swap is out of range.
pub csprng_shuffle-Perm :
    {A : Type 0} (csprng : List ℕ) (xs : List A)
    → All IsByte csprng
    → length xs < 2 ^ 31
    → Shuffles xs (csprng_shuffle swap csprng (length xs) xs)
unfolding csprng_shuffle
csprng_shuffle-Perm csprng xs bytes small =
    subst (λ b. Shuffles xs (if b then panic else shuffle_loop swap (length xs - 1) csprng xs))
      (sym (not_over (length xs) small))
      (shuffle_loop-Perm (length xs - 1) csprng xs bytes (omega arith) small)
  where
    not_over : (n : ℕ) → n < 2 ^ 31 → ltb (2 ^ 31 - 1) n ≡ false
    not_over n h = ground arith
