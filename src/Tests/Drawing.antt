-- ===== src/Tests/Drawing.antt =====
-- Random numbers at concrete inputs.
use saltpack.Base.{ℕ, ◌<◌, ◌≡◌, refl, arith, List, [], ◌∷◌, All}
use saltpack.Errors.{ok}
use saltpack.Rand.{csprng_read_full, csprng_uint32, csprng_loop, csprng_uint32n}
use saltpack.Radix.{IsByte}
use saltpack.Rand.Ends.{Ends, csprng_uint32n-Ends}
use saltpack.Shuffle.{swap, csprng_shuffle}
use saltpack.Shuffle.Permuted.{Shuffles, csprng_shuffle-Perm}
use saltpack.Rand.Bounds.{csprng_uint32n-lt}

-- The first draw is refused, and the second is taken.
abbrev some_source : List ℕ
some_source = 128 ∷ 0 ∷ 0 ∷ 0 ∷ 128 ∷ 0 ∷ 0 ∷ 1 ∷ 77 ∷ []

draws : csprng_uint32n some_source 10 ≡ ok (5, 77 ∷ [])
unfolding csprng_uint32n csprng_uint32 csprng_loop csprng_read_full
draws = refl

some_source-IsByte : All IsByte some_source
some_source-IsByte = (
  omega arith,
  (
    omega arith,
    (
      omega arith,
      (omega arith, (omega arith, (omega arith, (omega arith, (omega arith, (omega arith, tt)))))),
    ),
  ),
)

csprng_uint32n-lt_example : 5 < 10
csprng_uint32n-lt_example =
    csprng_uint32n-lt some_source (77 ∷ []) 10 5 some_source-IsByte (omega arith) (omega arith)
      draws

csprng_uint32n-Ends_example : Ends (csprng_uint32n some_source 10)
csprng_uint32n-Ends_example = csprng_uint32n-Ends some_source 10 some_source-IsByte

csprng_shuffle-Perm_example :
    Shuffles {A = ℕ} (4 ∷ 5 ∷ 6 ∷ []) (csprng_shuffle swap some_source 3 (4 ∷ 5 ∷ 6 ∷ []))
csprng_shuffle-Perm_example =
    csprng_shuffle-Perm some_source (4 ∷ 5 ∷ 6 ∷ []) some_source-IsByte (omega arith)
