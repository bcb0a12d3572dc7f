-- ===== src/Rand.antt =====
-- rand.go: numbers below a bound, from a source of random bytes. The source is the list of the
-- bytes that it still gives.
pub mod Bounds
pub mod Ends
use saltpack.Base.{
  ℕ, zero, suc, ◌+◌, ◌-◌, ◌*◌, ◌/◌, ◌%◌, ◌^◌, ◌≤◌, ◌<◌, ◌≡◌, refl, sym, ap, ◌∙◌, arith, subst, Bool,
  true, false, inl, inr, Bool-cases, List, [], ◌∷◌, length, take, drop, All, All-take, All-drop,
  length-take, ltb, ltb→le, if◌then◌else◌,
}
use saltpack.Errors.{Result, ok, err, panic, ◌>>=◌, >>=-eq-ok, eof, unexpected_eof}
use saltpack.Radix.{of_digits, of_digits-lt, IsByte}

-- `io.ReadFull` into `n` bytes.
unfoldable pub csprng_read_full : List ℕ → ℕ → Result (List ℕ × List ℕ)
csprng_read_full csprng n =
    if ltb (length csprng) n
    then if ltb 0 (length csprng) then err unexpected_eof else err eof
    else ok (take n csprng, drop n csprng)

unfoldable pub csprng_uint32 : List ℕ → Result (ℕ × List ℕ)
csprng_uint32 csprng = do (buf, rest) ← csprng_read_full csprng 4; ok (of_digits 256 0 buf, rest)

-- The loop of `csprngUint32n` with the product `prod`. A round takes four bytes, so that one
-- round more than the bytes is enough fuel.
unfoldable pub csprng_loop : ℕ → ℕ → ℕ → ℕ → List ℕ → Result (ℕ × List ℕ)
csprng_loop zero n thresh prod csprng =
    if ltb (prod % 2 ^ 32) thresh then panic else ok (prod, csprng)
csprng_loop (suc fuel) n thresh prod csprng =
    let again = do (v, rest) ← csprng_uint32 csprng; csprng_loop fuel n thresh (v * n) rest
    in if ltb (prod % 2 ^ 32) thresh then again else ok (prod, csprng)

-- `-n % n` on `uint32`, which divides by `n` and so panics at 0; it is reached only if `low < n`.
unfoldable pub csprng_uint32n : List ℕ → ℕ → Result (ℕ × List ℕ)
csprng_uint32n csprng n = do
  (v, rest) ← csprng_uint32 csprng
  let retried = csprng_loop (length rest + 1) n ((2 ^ 32 - n) % 2 ^ 32 % n) (v * n) rest
  (prod, rest') ← if ltb (v * n % 2 ^ 32) n then retried else ok (v * n, rest)
  ok (prod / 2 ^ 32 % 2 ^ 32, rest')
