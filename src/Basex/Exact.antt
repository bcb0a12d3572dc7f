-- ===== src/Basex/Exact.antt =====
-- Roundings that are computed with whole numbers, and encodings over them.
use saltpack.Base.{
  ℕ, zero, suc, ◌+◌, ◌*◌, ◌^◌, ◌-◌, ◌≤◌, ◌<◌, ◌≡◌, ◌↔◌, refl, sym, ap, ◌∙◌, arith, Bool, true,
  false, ltb, lt→ltb, le→ltb, subst, if◌then◌else◌, ◌&&◌, Option, some, none, ◌==◌, ==_iff, get_or,
}
use saltpack.Basex.{
  Encoding, Rounding, base62_encode_std, base62_skip_bytes, base62_std_encoding, fill_decode_map,
  fill_skip_map,
}
use saltpack.Basex.Lengths.{IsRounding, IsValid}
use native.Mathlib.Decide.{dec_le}
use native.Mathlib.Nat.{
  pow-suc, le_trans, lt_of_not-le, not-le_of_lt, pow-le-pow_right, pow-le-pow_left, one-le-pow,
}

-- The least exponent from `m` on with `t ≤ b ^ m`, for which `fuel` steps are enough.
least : ℕ → ℕ → ℕ → ℕ → ℕ
least b t zero m = m
least b t (suc fuel) m = let rest = least b t fuel (m + 1) in if ltb (b ^ m) t then rest else m

found : (b t m k : ℕ) → 2 ≤ b → t ≤ b ^ m → ((j : ℕ) → j < m → b ^ j < t) → (m ≤ k) ↔ (t ≤ b ^ k)
found b t m k hb h below = (
  λ q. le_trans h (pow-le-pow_right (omega arith) q),
  λ q. elim (dec_le m k) [ yes l ↦ l | no l ↦ absurd (not-le_of_lt (below k (omega arith)) q) ],
)

least_iff :
    (b t fuel m k : ℕ)
    → 2 ≤ b
    → t ≤ b ^ (m + fuel)
    → ((j : ℕ) → j < m → b ^ j < t)
    → (least b t fuel m ≤ k) ↔ (t ≤ b ^ k)
unfolding least
least_iff b t zero m k hb h below =
    found b t m k hb (subst (λ n. t ≤ b ^ n) {x = m + 0} {y = m} (omega arith) h) below
least_iff b t (suc fuel) m k hb h below = elim (dec_le t (b ^ m)) [
  | yes q ↦
      subst (λ c. ((if c then least b t fuel (m + 1) else m) ≤ k) ↔ (t ≤ b ^ k))
        (sym (le→ltb (b ^ m) t q)) (found b t m k hb q below)
  | no q ↦
      subst (λ c. ((if c then least b t fuel (m + 1) else m) ≤ k) ↔ (t ≤ b ^ k))
        (sym (lt→ltb (b ^ m) t (lt_of_not-le q)))
        (least_iff b t fuel (m + 1) k hb
          (subst (λ n. t ≤ b ^ n) {x = m + suc fuel} {y = m + 1 + fuel} (omega arith) h)
          (λ j l. elim (dec_le m j) [
            | yes r ↦ subst (λ n. b ^ n < t) {x = m} {y = j} (omega arith) (lt_of_not-le q)
            | no r ↦ below j (omega arith)
          ]))
]

-- The rounding of a base: the least number of characters, and the greatest number of bytes, which
-- is one below the least that is too much.
pub exact : ℕ → Rounding
unfolding least
exact base = record {
  ceil = λ n. least base (256 ^ n) (8 * n) 0;
  floor = λ n. least 256 (base ^ n + 1) (n + 1) 0 - 1;
}

eight : (m : ℕ) → 2 ^ suc (suc (suc (suc (suc (suc (suc (suc m))))))) ≡ 2 ^ m * 256
eight m = simp pow-suc (omega arith)

bytes_fit : (base n : ℕ) → 2 ≤ base → 256 ^ n ≤ base ^ (0 + 8 * n)
bytes_fit base n h =
    subst (λ t. t ≤ base ^ (0 + 8 * n)) (two_powers n)
      (le_trans (pow-le-pow_left h (8 * n)) (pow-le-pow_right (omega arith) (omega arith)))
  where
    two_powers : (n : ℕ) → 2 ^ (8 * n) ≡ 256 ^ n
    two_powers zero = refl
    two_powers (suc n) =
        ap (λ m. 2 ^ m) {x = 8 * suc n} {y = suc (suc (suc (suc (suc (suc (suc (suc (8 * n))))))))}
          (omega arith)
        ∙ eight (8 * n)
        ∙ ap (λ t. t * 256) (two_powers n)
        ∙ sym (pow-suc 256 n)

too_much : (base n : ℕ) → base < 256 → base ^ n + 1 ≤ 256 ^ (0 + (n + 1))
too_much base n h =
    subst (λ m. base ^ n + 1 ≤ 256 ^ m) {x = suc n} {y = 0 + (n + 1)} (omega arith)
      (omega (
        arith,
        pow-suc 256 n,
        pow-le-pow_left {n = base} {m = 256} (omega arith) n,
        one-le-pow n 256,
      ))

floor_lem : (f t u m : ℕ) → (f ≤ m) ↔ (t + 1 ≤ u) → 1 ≤ f → (m ≤ f - 1) ↔ (u ≤ t)
floor_lem f t u m iff pos = (
  λ h. elim (dec_le u t) [ yes q ↦ q | no q ↦ absurd (omega (arith, iff.1 (omega arith))) ],
  λ h. elim (dec_le f m) [ yes q ↦ absurd (omega (arith, iff.0 q)) | no q ↦ omega arith ],
)

pub exact-IsRounding : (base limit : ℕ) → 2 ≤ base → base < 256 → IsRounding base limit (exact base)
unfolding exact
exact-IsRounding base limit lo hi = record {
  ceil_iff = λ n m h.
      least_iff base (256 ^ n) (8 * n) 0 m lo (bytes_fit base n lo) (λ j l. absurd (omega arith));
  floor_iff = λ n m h.
      floor_lem (least 256 (base ^ n + 1) (n + 1) 0) (base ^ n) (256 ^ m) m
        (least_iff 256 (base ^ n + 1) (n + 1) 0 m (omega arith) (too_much base n hi)
          (λ j l. absurd (omega arith)))
        (first n);
}
  where
    first : (n : ℕ) → 1 ≤ least 256 (base ^ n + 1) (n + 1) 0
    first n = elim (dec_le 1 (least 256 (base ^ n + 1) (n + 1) 0)) [
      | yes q ↦ q
      | no q ↦ absurd (
          omega (
            arith,
            one-le-pow n base,
            (least_iff 256 (base ^ n + 1) (n + 1) 0 0 (omega arith) (too_much base n hi)
                  (λ j l. absurd (omega arith))).0
                (omega arith),
          ))
    ]

-- The test that `f i` holds for each `i` below `n`.
abbrev all_below : ℕ → (ℕ → Bool) → Bool
all_below zero f = true
all_below (suc n) f = f n && all_below n f

all_below_sound : (n : ℕ) (f : ℕ → Bool) (i : ℕ) → all_below n f ≡ true → i < n → f i ≡ true
all_below_sound zero f i e h = absurd (omega arith)
all_below_sound (suc n) f i e h = elim (dec_le n i) [
  | yes q ↦ subst (λ j. f j ≡ true) {x = n} {y = i} (omega arith) (and_left (f n) (all_below n f) e)
  | no q ↦ all_below_sound n f i (and_right (f n) (all_below n f) e) (omega arith)
]
  where
    and_left : (a b : Bool) → (a && b) ≡ true → a ≡ true
    and_left true b e = refl
    and_left false b e = e

    and_right : (a b : Bool) → (a && b) ≡ true → b ≡ true
    and_right true b e = e
    and_right false b e = cc

abbrev is_index : Option ℕ → ℕ → Bool
is_index none i = false
is_index (some j) i = j == i

is_index_sound : (o : Option ℕ) (i : ℕ) → is_index o i ≡ true → o ≡ some i
is_index_sound none i e = cc
is_index_sound (some j) i e = ap some ((==_iff j i).0 e)

abbrev pub exact_base62 : Encoding
exact_base62 = record {
  encode = base62_encode_std;
  decode_map = fill_decode_map base62_encode_std 0 (λ b. none);
  skip_map = fill_skip_map base62_skip_bytes (λ b. false);
  base256_block_len = 32;
  base_x_block_len = 43;
  base = 62;
  log_of_base = exact 62;
  skip_bytes = base62_skip_bytes;
}

exact_base62-is : exact_base62 ≡ base62_std_encoding exact
unfolding base62_std_encoding exact least
exact_base62-is = refl

base62_index :
    (i : ℕ)
    → i < 62
    → fill_decode_map base62_encode_std 0 (λ b. none) (get_or base62_encode_std i 0) ≡ some i
base62_index i h = is_index_sound _ i (
    all_below_sound 62
      (λ i.
        is_index (fill_decode_map base62_encode_std 0 (λ b. none) (get_or base62_encode_std i 0)) i)
      i refl h)

block_len : 43 ≡ (exact 62).ceil 32
unfolding exact least
block_len = refl

-- The base 62 encoding of the program is valid, with the exact lengths.
pub base62_std_encoding-IsValid : IsValid (base62_std_encoding exact)
base62_std_encoding-IsValid = subst IsValid exact_base62-is (record {
  base_min = omega arith;
  base_max = omega arith;
  block_pos = omega arith;
  block_len = block_len;
  block_le = omega arith;
  rounds = exact-IsRounding 62 43 (omega arith) (omega arith);
  decode_encode = base62_index;
})
