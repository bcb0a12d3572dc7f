-- ===== src/Radix.antt =====
-- Numbers as digits, most significant first: what big.Int.SetBytes, big.Int.Bytes and
-- binary.BigEndian of the standard library read and write.
use saltpack.Base.{
  ℕ, zero, suc, ◌+◌, ◌-◌, ◌*◌, ◌/◌, ◌%◌, ◌^◌, ◌≤◌, ◌<◌, ◌≡◌, refl, sym, ap, ap₂, ◌∙◌, arith, true,
  false, List, [], ◌∷◌, ◌++◌, append-nil, append_assoc, length, length-append, replicate, All,
  All-append, ◌==◌, ==_iff, subst, Bool-cases, inl, inr,
}
use native.Mathlib.Nat.{
  pow-suc, pow-zero, div-add-mod', mod-lt, zero-div, zero-mod, sub-zero, div-lt_iff_lt-mul,
  mul-le-mul_right, le_trans, le_of_eq,
}

-- The number that the digits stand for, after the digits read so far.
abbrev pub of_digits : ℕ → ℕ → List ℕ → ℕ
of_digits b acc [] = acc
of_digits b acc (d ∷ ds) = of_digits b (acc * b + d) ds

-- The last `k` digits of a number.
abbrev pub to_digits : ℕ → ℕ → ℕ → List ℕ
to_digits b zero n = []
to_digits b (suc k) n = to_digits b k (n / b) ++ (n % b ∷ [])

abbrev pub IsByte : ℕ → Type 0
IsByte b = b < 256

pub length-to_digits : (b k n : ℕ) → length (to_digits b k n) ≡ k
length-to_digits b zero n = refl
length-to_digits b (suc k) n =
    omega (arith, length-append (to_digits b k (n / b)) (n % b ∷ []), length-to_digits b k (n / b))

pub of_digits-append :
    (b acc : ℕ) (xs ys : List ℕ) → of_digits b acc (xs ++ ys) ≡ of_digits b (of_digits b acc xs) ys
of_digits-append b acc [] ys = refl
of_digits-append b acc (x ∷ xs) ys = of_digits-append b (acc * b + x) xs ys

pub quotient-lt : (b k n : ℕ) → 0 < b → n < b ^ suc k → n / b < b ^ k
quotient-lt b k n hb h = (div-lt_iff_lt-mul hb).1 (rw (pow-suc b k) at h)

-- Below `b ^ k` nothing is lost.
pub of_digits-to_digits : (b k n : ℕ) → 0 < b → n < b ^ k → of_digits b 0 (to_digits b k n) ≡ n
of_digits-to_digits b zero n hb h = omega (arith, rw (pow-zero b) at h)
of_digits-to_digits b (suc k) n hb h =
    of_digits-append b 0 (to_digits b k (n / b)) (n % b ∷ [])
    ∙ ap (λ t. t * b + n % b) (of_digits-to_digits b k (n / b) hb (quotient-lt b k n hb h))
    ∙ div-add-mod' n b

pub to_digits-lt : (b k n : ℕ) → 0 < b → All (λ d. d < b) (to_digits b k n)
to_digits-lt b zero n hb = tt
to_digits-lt b (suc k) n hb =
    All-append (λ d. d < b) (to_digits b k (n / b)) (n % b ∷ []) (to_digits-lt b k (n / b) hb)
      (mod-lt n hb, tt)

-- Digits after `acc`, bounded.
pub of_digits-lt :
    (b acc k : ℕ) (ds : List ℕ)
    → length ds ≡ k
    → All (λ d. d < b) ds
    → of_digits b acc ds < (acc + 1) * b ^ k
of_digits-lt b acc zero [] e h = rw pow-zero (le_of_eq (omega arith))
of_digits-lt b acc zero (d ∷ ds) e h = absurd (omega arith)
of_digits-lt b acc (suc k) [] e h = absurd (omega arith)
of_digits-lt b acc (suc k) (d ∷ ds) e h =
    le_trans (of_digits-lt b (acc * b + d) k ds (omega arith) h.1) (rw pow-suc (wide h.0))
  where
    wide : d < b → (acc * b + d + 1) * b ^ k ≤ (acc + 1) * (b ^ k * b)
    wide hd = omega (arith, mul-le-mul_right (b ^ k) hd)

division : (b q d : ℕ) → d < b → ((q * b + d) / b ≡ q) × ((q * b + d) % b ≡ d)
division b q d h = (grind arith, grind arith)

to_digits-of_digits_acc :
    (b acc k j m : ℕ) (ds : List ℕ)
    → length ds ≡ k
    → m ≡ j + k
    → All (λ d. d < b) ds
    → to_digits b m (of_digits b acc ds) ≡ to_digits b j acc ++ ds
to_digits-of_digits_acc b acc k j m [] e f h =
    ap (λ t. to_digits b t acc) {x = m} {y = j} (omega arith) ∙ sym (append-nil (to_digits b j acc))
to_digits-of_digits_acc b acc k j m (d ∷ ds) e f h =
    to_digits-of_digits_acc b (acc * b + d) (k - 1) (suc j) m ds (omega arith) (omega arith) h.1
    ∙ append_assoc (to_digits b j ((acc * b + d) / b)) ((acc * b + d) % b ∷ []) ds
    ∙ ap₂ (λ q r. to_digits b j q ++ (r ∷ ds)) (division b acc d h.0).0 (division b acc d h.0).1

-- The digits of the number that `k` digits stand for are those digits.
pub to_digits-of_digits :
    (b k : ℕ) (ds : List ℕ)
    → length ds ≡ k
    → All (λ d. d < b) ds
    → to_digits b k (of_digits b 0 ds) ≡ ds
to_digits-of_digits b k ds e h = to_digits-of_digits_acc b 0 k 0 k ds e (omega arith) h

-- `big.Int.Bytes`: the bytes of `n` without leading zeros. Fuel `n` is enough, since `n` shrinks.
pub big_bytes_loop : ℕ → ℕ → List ℕ
big_bytes_loop zero n = []
big_bytes_loop (suc f) n = elim (n == 0) [
  | true ↦ []
  | false ↦ big_bytes_loop f (n / 256) ++ (n % 256 ∷ [])
]

unfoldable pub big_bytes : ℕ → List ℕ
unfolding big_bytes_loop
big_bytes n = big_bytes_loop n n

replicate-suc : (n a : ℕ) → replicate n a ++ (a ∷ []) ≡ a ∷ replicate n a
replicate-suc zero a = refl
replicate-suc (suc n) a = ap (λ t. a ∷ t) (replicate-suc n a)

pub to_digits-zero : (b k : ℕ) → to_digits b k 0 ≡ replicate k 0
to_digits-zero b zero = refl
to_digits-zero b (suc k) = rw (zero-div b, zero-mod b, to_digits-zero b k) (replicate-suc k 0)

-- `raw`, padded with zeros to `k` bytes, is `ds`.
abbrev pub IsPadded : ℕ → List ℕ → List ℕ → Type 0
IsPadded k raw ds = (length raw ≤ k) × (replicate (k - length raw) 0 ++ raw ≡ ds)

IsPadded-zero : (k : ℕ) → IsPadded k [] (to_digits 256 k 0)
IsPadded-zero k = (omega arith, simp (sub-zero, append-nil, to_digits-zero))

IsPadded-snoc :
    (k d : ℕ) (raw ds : List ℕ)
    → IsPadded k raw ds
    → IsPadded (suc k) (raw ++ (d ∷ [])) (ds ++ (d ∷ []))
IsPadded-snoc k d raw ds h = (
  omega (arith, length-append raw (d ∷ []), h.0),
  ap (λ t. replicate t 0 ++ (raw ++ (d ∷ []))) {x = suc k - length (raw ++ (d ∷ []))}
        {y = k - length raw} (omega (arith, length-append raw (d ∷ [])))
      ∙ sym (append_assoc (replicate (k - length raw) 0) raw (d ∷ []))
      ∙ ap (λ t. t ++ (d ∷ [])) h.1,
)

big_bytes_loop-IsPadded :
    (k f n : ℕ) → n ≤ f → n < 256 ^ k → IsPadded k (big_bytes_loop f n) (to_digits 256 k n)
unfolding big_bytes_loop
big_bytes_loop-IsPadded k zero n hf hk =
    subst (λ t. IsPadded k [] (to_digits 256 k t)) {x = 0} {y = n} (omega arith) (IsPadded-zero k)
big_bytes_loop-IsPadded zero (suc f) n hf hk = elim (Bool-cases (n == 0)) [
  | inl e ↦ rw (e, big_bytes_loop) (IsPadded-zero 0)
  | inr e ↦ absurd (positive n e (rw pow-zero at hk))
]
  where
    positive : (n : ℕ) → (n == 0) ≡ false → n < 1 → ⊥
    positive n e h = ground arith
big_bytes_loop-IsPadded (suc k) (suc f) n hf hk = elim (Bool-cases (n == 0)) [
  | inl e ↦
      rw (e, big_bytes_loop)
        (subst (λ t. IsPadded (suc k) [] (to_digits 256 (suc k) t)) (sym ((==_iff n 0).0 e))
          (IsPadded-zero (suc k)))
  | inr e ↦
      rw (e, big_bytes_loop)
        (IsPadded-snoc k (n % 256) (big_bytes_loop f (n / 256)) (to_digits 256 k (n / 256)) (
          big_bytes_loop-IsPadded k f (n / 256) (ground arith)
            (quotient-lt 256 k n (omega arith) hk)))
]

pub big_bytes-IsPadded : (k n : ℕ) → n < 256 ^ k → IsPadded k (big_bytes n) (to_digits 256 k n)
unfolding big_bytes
big_bytes-IsPadded k n h = big_bytes_loop-IsPadded k n n (omega arith) h
