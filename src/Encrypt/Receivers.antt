-- ===== src/Encrypt/Receivers.antt =====
-- encrypt.go: `checkEncryptReceivers`.
use saltpack.Base.{
  ℕ, ◌≤◌, ◌≡◌, ◌↔◌, refl, arith, true, ◌⊎◌, List, [], ◌∷◌, map, length, eq_bytes_iff,
}
use saltpack.Const.{max_receiver_count}
use saltpack.Errors.{ok}
use saltpack.Key.{BoxKeys}
use saltpack.Encrypt.{check_encrypt_receivers, check_repeated, contains_kid}

-- A key ID stands in a list of them.
pub IsIn : List ℕ → List (List ℕ) → Type 0
IsIn kid [] = ⊥
IsIn kid (a ∷ seen) = (kid ≡ a) ⊎ IsIn kid seen

-- No key ID stands behind itself, or in `seen`.
pub AreNew : List (List ℕ) → List (List ℕ) → Type 0
AreNew seen [] = Unit {0}
AreNew seen (kid ∷ kids) = ¬ IsIn kid seen × AreNew (kid ∷ seen) kids

contains_kid_iff :
    (kid : List ℕ) (seen : List (List ℕ)) → (contains_kid kid seen ≡ true) ↔ IsIn kid seen
unfolding IsIn
contains_kid_iff kid [] = (λ e. cc, λ i. absurd i)
contains_kid_iff kid (a ∷ seen) = ground (arith, eq_bytes_iff kid a, contains_kid_iff kid seen)

pub check_repeated_iff :
    (seen kids : List (List ℕ)) → (check_repeated seen kids ≡ ok tt) ↔ AreNew seen kids
unfolding AreNew check_repeated
check_repeated_iff seen [] = (λ e. tt, λ a. refl)
check_repeated_iff seen (kid ∷ kids) =
    ground (arith, contains_kid_iff kid seen, check_repeated_iff (kid ∷ seen) kids)

-- The receivers are accepted exactly if there are between 1 and 2^32 - 1 of them and no two have
-- the same key ID.
pub check_encrypt_receivers_iff :
    (k : BoxKeys) (receivers : List k.Public)
    → (check_encrypt_receivers k receivers ≡ ok tt) ↔ (
        (1 ≤ length receivers)
        × (length receivers ≤ max_receiver_count)
        × AreNew [] (map k.to_kid receivers))
unfolding check_encrypt_receivers
check_encrypt_receivers_iff k receivers =
    ground (arith, check_repeated_iff [] (map k.to_kid receivers))
