-- ===== src/Shuffle.antt =====
-- rand.go: `csprngShuffle`; encrypt.go and signcrypt_seal.go: the shuffles of the receivers. The
-- source of random bytes is the list of the bytes that it still gives.
pub mod Swap
pub mod Permuted
use saltpack.Base.{
  ℕ, zero, suc, ◌+◌, ◌-◌, ◌^◌, Option, none, some, List, ◌++◌, map, length, get_elem?, set, ltb,
  if◌then◌else◌,
}
use saltpack.Errors.{Result, ok, panic, ◌>>=◌}
use saltpack.Rand.{csprng_uint32n}
use saltpack.Key.{BoxKeys}
use saltpack.Signcrypt.Keys.{
  ReceiverKeysMaker, receiver_box_key, receiver_symmetric_key, ReceiverSymmetricKey,
}

-- An element of a slice, which panics out of range.
abbrev pub element {ℓ} : {A : Type ℓ} → Option A → Result A
element none = panic
element (some a) = ok a

-- `shuffled[i], shuffled[j] = shuffled[j], shuffled[i]`
unfoldable pub swap {ℓ} : {A : Type ℓ} → ℕ → ℕ → List A → Result (List A)
swap i j shuffled = do
  at_j ← element (get_elem? shuffled j)
  at_i ← element (get_elem? shuffled i)
  ok (set (set shuffled i at_j) j at_i)

module _ {S : Type 0} (swap_elements : ℕ → ℕ → S → Result S) where
  -- The loop, from `i` down to 1. What an error leaves half swapped, the callers drop.
  unfoldable pub shuffle_loop : ℕ → List ℕ → S → Result (S × List ℕ)
  shuffle_loop zero csprng s = ok (s, csprng)
  shuffle_loop (suc i) csprng s = do
    (j, rest) ← csprng_uint32n csprng (suc i + 1)
    s' ← swap_elements (suc i) j s
    shuffle_loop i rest s'

  -- `n` is a length, which is not negative.
  unfoldable pub csprng_shuffle : List ℕ → ℕ → S → Result (S × List ℕ)
  csprng_shuffle csprng n s = if ltb (2 ^ 31 - 1) n then panic else shuffle_loop (n - 1) csprng s

module _ (k : BoxKeys) where
  unfoldable pub shuffle_encrypt_receivers :
      List ℕ → List k.Public → Result (List k.Public × List ℕ)
  shuffle_encrypt_receivers csprng receivers =
      csprng_shuffle swap csprng (length receivers) receivers

  unfoldable pub shuffle_signcrypt_receivers :
      List ℕ
      → List k.Public
      → List ReceiverSymmetricKey
      → Result (List (ReceiverKeysMaker k) × List ℕ)
  shuffle_signcrypt_receivers csprng receiver_box_keys receiver_symmetric_keys =
      let makers =
        map (λ p. receiver_box_key p) receiver_box_keys
        ++ map (λ s. receiver_symmetric_key s) receiver_symmetric_keys in
      csprng_shuffle swap csprng (length makers) makers
