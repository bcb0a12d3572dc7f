-- ===== src/Rand/Ends.antt =====
-- rand.go: a draw from a source of finitely many bytes.
use saltpack.Base.{
  ℕ, zero, suc, ◌+◌, ◌-◌, ◌*◌, ◌/◌, ◌%◌, ◌^◌, ◌<◌, ◌≡◌, ap, ◌∙◌, arith, Bool, inl, inr, ◌⊎◌,
  Bool-cases, List, length, length-drop, take, drop, All, All-drop, ltb, ltb→le, if◌then◌else◌,
}
use saltpack.Errors.{Error, Result, ok, err, ◌>>=◌, >>=_ok, eof, unexpected_eof}
use saltpack.Radix.{of_digits, IsByte}
use saltpack.Rand.{csprng_read_full, csprng_uint32, csprng_loop, csprng_uint32n}

-- An error, or a number and bytes that are left.
abbrev pub Ends : Result (ℕ × List ℕ) → Type 0
Ends m = ((e : Error) × (m ≡ err e)) ⊎ ((x : ℕ × List ℕ) × (m ≡ ok x) × All IsByte x.1)

>>=_err :
    {A B : Type 0} (f : A → Result B) {m : Result A} {e : Error} → m ≡ err e → (m >>= f) ≡ err e
>>=_err f h = ap (λ t. t >>= f) h

csprng_uint32_cases :
    (csprng : List ℕ)
    → All IsByte csprng
    → ((e : Error) × (csprng_uint32 csprng ≡ err e))
      ⊎ ((x : ℕ × List ℕ) × (csprng_uint32 csprng ≡ ok x)
          × All IsByte x.1
          × (length x.1 < length csprng))
unfolding csprng_uint32 csprng_read_full
csprng_uint32_cases csprng bytes =
    let number : List ℕ × List ℕ → Result (ℕ × List ℕ) = λ p. ok (of_digits 256 0 p.0, p.1) in
    let fails : Bool → Result (List ℕ × List ℕ) = λ b. if b then err unexpected_eof else err eof in
    let read : Bool → Result (ℕ × List ℕ) = λ b.
      (if b then fails (ltb 0 (length csprng)) else ok (take 4 csprng, drop 4 csprng)) >>= number in
    elim (Bool-cases (ltb (length csprng) 4)) [
      | inl short ↦ elim (Bool-cases (ltb 0 (length csprng))) [
        | inl some_bytes ↦
            inl (unexpected_eof, ap read short ∙ ap (λ b. fails b >>= number) some_bytes)
        | inr no_bytes ↦ inl (eof, ap read short ∙ ap (λ b. fails b >>= number) no_bytes)
      ]
      | inr long ↦ inr (
        (of_digits 256 0 (take 4 csprng), drop 4 csprng),
        ap read long,
        All-drop IsByte 4 csprng bytes,
        omega (arith, length-drop 4 csprng, ltb→le (length csprng) 4 long),
      )
    ]

-- With more fuel than bytes the loop does not run out of it.
csprng_loop-Ends :
    (fuel n thresh prod : ℕ) (csprng : List ℕ)
    → All IsByte csprng
    → length csprng < fuel
    → Ends (csprng_loop fuel n thresh prod csprng)
unfolding csprng_loop
csprng_loop-Ends zero n thresh prod csprng bytes h = absurd (omega arith)
csprng_loop-Ends (suc fuel) n thresh prod csprng bytes h =
    let next : ℕ × List ℕ → Result (ℕ × List ℕ) = λ p. csprng_loop fuel n thresh (p.0 * n) p.1 in
    let choice : Bool → Result (ℕ × List ℕ) =
      λ b. if b then (csprng_uint32 csprng >>= next) else ok (prod, csprng) in
    elim (Bool-cases (ltb (prod % 2 ^ 32) thresh)) [
      | inl small ↦ elim (csprng_uint32_cases csprng bytes) [
        | inl (e, failed) ↦ inl (e, ap choice small ∙ >>=_err next failed)
        | inr (x, drawn, left, less) ↦
            elim (csprng_loop-Ends fuel n thresh (x.0 * n) x.1 left (omega (arith, less, h))) [
              | inl (e, failed) ↦ inl (e, ap choice small ∙ >>=_ok next drawn ∙ failed)
              | inr (y, done, left') ↦ inr (y, ap choice small ∙ >>=_ok next drawn ∙ done, left')
            ]
      ]
      | inr enough ↦ inr ((prod, csprng), ap choice enough, bytes)
    ]

-- For a source of bytes and any bound: the draw returns an error, or a number and what the source
-- has left; the loop that refuses draws ends, and it does not panic.
pub csprng_uint32n-Ends :
    (csprng : List ℕ) (n : ℕ) → All IsByte csprng → Ends (csprng_uint32n csprng n)
unfolding csprng_uint32n
csprng_uint32n-Ends csprng n bytes = elim (csprng_uint32_cases csprng bytes) [
  | inl (e, failed) ↦ inl (e, >>=_err _ failed)
  | inr (x, drawn, left, less) ↦
      let high : ℕ × List ℕ → Result (ℕ × List ℕ) = λ p. ok (p.0 / 2 ^ 32 % 2 ^ 32, p.1) in
      let retried = csprng_loop (length x.1 + 1) n ((2 ^ 32 - n) % 2 ^ 32 % n) (x.0 * n) x.1 in
      let choice : Bool → Result (ℕ × List ℕ) =
        λ b. (if b then retried else ok (x.0 * n, x.1)) >>= high in
      elim (Bool-cases (ltb (x.0 * n % 2 ^ 32) n)) [
        | inl low ↦
            elim (csprng_loop-Ends (length x.1 + 1) n ((2 ^ 32 - n) % 2 ^ 32 % n) (x.0 * n) x.1 left
              (omega arith)) [
                | inl (e, failed) ↦ inl (e, >>=_ok _ drawn ∙ ap choice low ∙ >>=_err high failed)
                | inr (y, done, left') ↦
                    inr (high_of y, >>=_ok _ drawn ∙ ap choice low ∙ >>=_ok high done, left')
              ]
        | inr not_low ↦ inr (high_of (x.0 * n, x.1), >>=_ok _ drawn ∙ ap choice not_low, left)
      ]
]
  where
    high_of : ℕ × List ℕ → ℕ × List ℕ
    high_of p = (p.0 / 2 ^ 32 % 2 ^ 32, p.1)
