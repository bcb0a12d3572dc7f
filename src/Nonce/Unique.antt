-- ===== src/Nonce/Unique.antt =====
-- nonce.go: the counters and the flag in the nonces.
use saltpack.Base.{
  ℕ, zero, suc, ◌+◌, ◌*◌, ◌/◌, ◌%◌, ◌^◌, ◌≤◌, ◌<◌, ◌≡◌, refl, sym, ap, ◌∙◌, arith, Bool, true,
  false, List, [], ◌∷◌, ◌++◌, length, length-take, length-set, take, set, get_or, append_cancel,
  eq_int, pos, if◌then◌else◌,
}
use saltpack.Const.{Version, codes}
use saltpack.Errors.{ok, panic}
use saltpack.Radix.{of_digits, of_digits-to_digits}
use saltpack.Nonce.{
  put_uint64, set_low_bit, nonce_for_chunk_secretbox, nonce_for_payload_key_box_v2,
  nonce_for_payload_key_box, nonce_for_sender_key_secretbox, nonce_for_chunk_signcryption,
  nonce_for_mac_key_box_v2,
}

put_uint64-inj : (m n : ℕ) → m < 2 ^ 64 → n < 2 ^ 64 → put_uint64 m ≡ put_uint64 n → m ≡ n
unfolding put_uint64
put_uint64-inj m n h k e =
    sym (of_digits-to_digits 256 8 m (omega arith) (omega arith))
    ∙ ap (of_digits 256 0) e
    ∙ of_digits-to_digits 256 8 n (omega arith) (omega arith)

get_or-set : (xs : List ℕ) (i v d : ℕ) → i < length xs → get_or (set xs i v) i d ≡ v
get_or-set [] i v d h = absurd (omega arith)
get_or-set (x ∷ xs) zero v d h = refl
get_or-set (x ∷ xs) (suc i) v d h = get_or-set xs i v d (omega arith)

abbrev bit : Bool → ℕ
bit true = 1
bit false = 0

bit-inj : (f g : Bool) → bit f ≡ bit g → f ≡ g
bit-inj true true e = refl
bit-inj false false e = refl
bit-inj true false e = absurd (omega arith)
bit-inj false true e = absurd (omega arith)

low_bit : (f : Bool) (n : List ℕ) → 16 ≤ length n → get_or (set_low_bit f n) 15 0 % 2 ≡ bit f
unfolding set_low_bit
low_bit false n h =
    ap (λ t. t % 2) (get_or-set n 15 (get_or n 15 0 / 2 * 2) 0 (omega arith)) ∙ omega arith
low_bit true n h =
    let cleared = set n 15 (get_or n 15 0 / 2 * 2) in
    ap (λ t. t % 2)
      (get_or-set cleared 15 (get_or cleared 15 0 + 1) 0
        (omega (arith, length-set n 15 (get_or n 15 0 / 2 * 2))))
    ∙ ap (λ t. (t + 1) % 2) (get_or-set n 15 (get_or n 15 0 / 2 * 2) 0 (omega arith))
    ∙ omega arith

length-set_low_bit : (f : Bool) (n : List ℕ) → length (set_low_bit f n) ≡ length n
unfolding set_low_bit
length-set_low_bit false n = length-set n 15 (get_or n 15 0 / 2 * 2)
length-set_low_bit true n =
    let cleared = set n 15 (get_or n 15 0 / 2 * 2) in
    length-set cleared 15 (get_or cleared 15 0 + 1) ∙ length-set n 15 (get_or n 15 0 / 2 * 2)

-- The flag in the lowest bit of byte 15, and the counter behind it, are read back.
flagged-inj :
    (header_hash : List ℕ) (f g : Bool) (i j : ℕ)
    → 16 ≤ length header_hash
    → i < 2 ^ 64
    → j < 2 ^ 64
    → set_low_bit f (take 16 header_hash) ++ put_uint64 i
      ≡ set_low_bit g (take 16 header_hash) ++ put_uint64 j
    → (f ≡ g) × (i ≡ j)
flagged-inj header_hash f g i j h k l e =
    let n = take 16 header_hash in
    let (prefix, suffix) =
      append_cancel (set_low_bit f n) (put_uint64 i) (set_low_bit g n) (put_uint64 j)
        (length-set_low_bit f n ∙ sym (length-set_low_bit g n)) e in
    let long : 16 ≤ length n = omega (arith, length-take 16 header_hash) in
    (
      bit-inj f g (sym (low_bit f n long) ∙ ap (λ t. get_or t 15 0 % 2) prefix ∙ low_bit g n long),
      put_uint64-inj i j k l suffix,
    )

-- Two chunks of a signcrypted message have the same nonce only if their numbers and their final
-- flags are the same: for a header hash of at least 16 bytes and numbers below 2^64.
pub nonce_for_chunk_signcryption-inj :
    (header_hash : List ℕ) (f g : Bool) (i j : ℕ)
    → 16 ≤ length header_hash
    → i < 2 ^ 64
    → j < 2 ^ 64
    → nonce_for_chunk_signcryption header_hash f i ≡ nonce_for_chunk_signcryption header_hash g j
    → (f ≡ g) × (i ≡ j)
unfolding nonce_for_chunk_signcryption
nonce_for_chunk_signcryption-inj = flagged-inj

pub nonce_for_mac_key_box_v2-inj :
    (header_hash : List ℕ) (f g : Bool) (i j : ℕ)
    → 16 ≤ length header_hash
    → i < 2 ^ 64
    → j < 2 ^ 64
    → nonce_for_mac_key_box_v2 header_hash f i ≡ nonce_for_mac_key_box_v2 header_hash g j
    → (f ≡ g) × (i ≡ j)
unfolding nonce_for_mac_key_box_v2
nonce_for_mac_key_box_v2-inj = flagged-inj

-- The secretbox nonces of two chunks of an encrypted message with different numbers below 2^64
-- differ. In either version, and for each recipient number below 2^64, none of them is the nonce of a
-- recipient's payload key box, nor is it the nonce of the secretbox with the sender's key.
pub nonce_for_chunk_secretbox-inj :
    (version : Version) (i j : ℕ)
    → i < 2 ^ 64
    → j < 2 ^ 64
    → (nonce_for_chunk_secretbox i ≡ nonce_for_chunk_secretbox j → i ≡ j)
      × ¬ (nonce_for_payload_key_box version j ≡ ok (nonce_for_chunk_secretbox i))
      × ¬ (nonce_for_chunk_secretbox i ≡ nonce_for_sender_key_secretbox)
unfolding nonce_for_chunk_secretbox nonce_for_payload_key_box nonce_for_payload_key_box_v2
    nonce_for_sender_key_secretbox
nonce_for_chunk_secretbox-inj version i j h k = (
  λ e.
      put_uint64-inj i j h k
        (append_cancel (codes "saltpack_ploadsb") (put_uint64 i) (codes "saltpack_ploadsb")
          (put_uint64 j) refl e).1,
  λ e.
      other (eq_int version.major (pos 1)) (eq_int version.major (pos 2)) (put_uint64 i)
        (put_uint64 j) e,
  λ e. let differ : 112 ≡ 115 = ap (λ t. get_or t 9 0) e in omega (arith, differ),
)
  where
    other :
        (v1 v2 : Bool) (chunk recip : List ℕ)
        → ¬ (
            (if v1
              then ok (codes "saltpack_payload_key_box")
              else if v2
              then ok (codes "saltpack_recipsb" ++ recip)
              else panic)
            ≡ ok (codes "saltpack_ploadsb" ++ chunk))
    other true v2 chunk recip e =
        let same : codes "saltpack_payload_key_box" ≡ codes "saltpack_ploadsb" ++ chunk = cc e in
        let differ : 97 ≡ 108 = ap (λ t. get_or t 10 0) same in omega (arith, differ)
    other false true chunk recip e =
        let same : codes "saltpack_recipsb" ++ recip ≡ codes "saltpack_ploadsb" ++ chunk = cc e in
        let differ : 114 ≡ 112 = ap (λ t. get_or t 9 0) same in omega (arith, differ)
    other false false chunk recip e = cc
