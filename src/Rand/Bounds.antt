-- ===== src/Rand/Bounds.antt =====
-- rand.go: the numbers that `csprngUint32n` returns.
use saltpack.Base.{
  ℕ, zero, suc, ◌+◌, ◌-◌, ◌*◌, ◌/◌, ◌%◌, ◌^◌, ◌≤◌, ◌<◌, ◌≡◌, refl, ap, arith, subst, Bool, true,
  false, inl, inr, ◌⊎◌, List, length, take, drop, All, All-take, All-drop, length-take, ltb,
  if◌then◌else◌,
}
use saltpack.Errors.{Result, ok, panic, >>=-eq-ok}
use saltpack.Radix.{of_digits, of_digits-lt, IsByte}
use native.Mathlib.Nat.{mul-le-mul_right}
use saltpack.Rand.{csprng_read_full, csprng_uint32, csprng_loop, csprng_uint32n}

-- A product of a 32-bit number with `n`.
IsProduct : ℕ → ℕ → Type 0
IsProduct n prod = (v : ℕ) × (v < 2 ^ 32) × (prod ≡ v * n)

read_lem :
    (csprng buf rest : List ℕ) (b : Bool)
    → ltb (length csprng) 4 ≡ b
    → csprng_read_full csprng 4 ≡ ok (buf, rest)
    → (4 ≤ length csprng) × (take 4 csprng ≡ buf) × (drop 4 csprng ≡ rest)
unfolding csprng_read_full
read_lem csprng buf rest b h e = ground arith

csprng_uint32-lt :
    (csprng : List ℕ) (x : ℕ × List ℕ)
    → All IsByte csprng
    → csprng_uint32 csprng ≡ ok x
    → (x.0 < 2 ^ 32) × All IsByte x.1
unfolding csprng_uint32
csprng_uint32-lt csprng x bytes e =
    let (p, read, e1) = >>=-eq-ok (csprng_read_full csprng 4) _ e in
    let (long, front, back) = read_lem csprng p.0 p.1 (ltb (length csprng) 4) refl read in
    value p.0 p.1 x (omega (arith, ap length front, length-take 4 csprng))
      (subst (All IsByte) front (All-take IsByte 4 csprng bytes))
      (subst (All IsByte) back (All-drop IsByte 4 csprng bytes)) e1
  where
    value :
        (buf rest : List ℕ) (x : ℕ × List ℕ)
        → length buf ≡ 4
        → All IsByte buf
        → All IsByte rest
        → ◌≡◌ {A = Result (ℕ × List ℕ)} (ok (of_digits 256 0 buf, rest)) (ok x)
        → (x.0 < 2 ^ 32) × All IsByte x.1
    value buf rest x size a b e =
        let same : ◌≡◌ {A = ℕ × List ℕ} (of_digits 256 0 buf, rest) x = cc in
        (
          omega (arith, of_digits-lt 256 0 4 buf size a, ap (λ t. t.0) same),
          subst (All IsByte) (ap (λ t. t.1) same) b,
        )

if_cases :
    {A : Type 0} (b : Bool) (m k : Result A) {x : A}
    → (if b then m else k) ≡ ok x
    → (m ≡ ok x) ⊎ (k ≡ ok x)
if_cases true m k e = inl e
if_cases false m k e = inr e

same-IsProduct :
    (n prod : ℕ) (csprng : List ℕ) (x : ℕ × List ℕ)
    → IsProduct n prod
    → ◌≡◌ {A = Result (ℕ × List ℕ)} (ok (prod, csprng)) (ok x)
    → IsProduct n x.0
same-IsProduct n prod csprng x p e =
    let same : ◌≡◌ {A = ℕ × List ℕ} (prod, csprng) x = cc in subst (λ t. IsProduct n t.0) same p

csprng_loop-IsProduct :
    (fuel n thresh prod : ℕ) (csprng : List ℕ) (x : ℕ × List ℕ)
    → All IsByte csprng
    → IsProduct n prod
    → csprng_loop fuel n thresh prod csprng ≡ ok x
    → IsProduct n x.0
unfolding csprng_loop IsProduct
csprng_loop-IsProduct zero n thresh prod csprng x bytes p e =
    elim (if_cases (ltb (prod % 2 ^ 32) thresh) panic (ok (prod, csprng)) e) [
      | inl f ↦ cc
      | inr f ↦ same-IsProduct n prod csprng x p f
    ]
csprng_loop-IsProduct (suc fuel) n thresh prod csprng x bytes p e =
    elim (if_cases (ltb (prod % 2 ^ 32) thresh) _ (ok (prod, csprng)) e) [
      | inl f ↦
          let (q, read, f1) = >>=-eq-ok (csprng_uint32 csprng) _ f in
          let (small, bytes') = csprng_uint32-lt csprng q bytes read in
          csprng_loop-IsProduct fuel n thresh (q.0 * n) q.1 x bytes' (q.0, small, refl) f1
      | inr f ↦ same-IsProduct n prod csprng x p f
    ]

high-lt : (n prod : ℕ) → 1 ≤ n → IsProduct n prod → prod / 2 ^ 32 % 2 ^ 32 < n
unfolding IsProduct
high-lt n prod pos (v, small, e) = omega (arith, mul-le-mul_right n small)

-- Bound: with a bound from 1 to 2^32 - 1 and a source of bytes, a number that is returned is below
-- the bound.
pub csprng_uint32n-lt :
    (csprng rest : List ℕ) (n r : ℕ)
    → All IsByte csprng
    → 1 ≤ n
    → n < 2 ^ 32
    → csprng_uint32n csprng n ≡ ok (r, rest)
    → r < n
unfolding csprng_uint32n IsProduct
csprng_uint32n-lt csprng rest n r bytes pos small e =
    let (p, read, e1) = >>=-eq-ok (csprng_uint32 csprng) _ e in
    let (v_small, bytes') = csprng_uint32-lt csprng p bytes read in
    let start : IsProduct n (p.0 * n) = (p.0, v_small, refl) in
    let (q, chosen, e2) =
      >>=-eq-ok
        (if ltb (p.0 * n % 2 ^ 32) n
          then csprng_loop (length p.1 + 1) n ((2 ^ 32 - n) % 2 ^ 32 % n) (p.0 * n) p.1
          else ok (p.0 * n, p.1))
        _ e1 in
    let product : IsProduct n q.0 =
      elim (if_cases (ltb (p.0 * n % 2 ^ 32) n) _ (ok (p.0 * n, p.1)) chosen) [
        | inl f ↦ csprng_loop-IsProduct (length p.1 + 1) n _ (p.0 * n) p.1 q bytes' start f
        | inr f ↦ same-IsProduct n (p.0 * n) p.1 q start f
      ] in
    let result : q.0 / 2 ^ 32 % 2 ^ 32 ≡ r = cc in omega (arith, result, high-lt n q.0 pos product)
