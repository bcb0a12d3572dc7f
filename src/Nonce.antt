-- ===== src/Nonce.antt =====
-- nonce.go. A nonce is a list of 24 bytes. A header hash is an array of 64 bytes, so that the
-- slices of it that are copied have the right size.
pub mod Unique
use saltpack.Base.{
  ℕ, ◌+◌, ◌*◌, ◌/◌, Bool, List, ◌++◌, take, set, get_or, eq_int, pos, if◌then◌else◌,
}
use saltpack.Const.{Version, codes}
use saltpack.Errors.{Result, ok, panic}
use saltpack.Radix.{to_digits}

-- `binary.BigEndian.PutUint64`
unfoldable pub put_uint64 : ℕ → List ℕ
put_uint64 n = to_digits 256 8 n

unfoldable pub nonce_for_sender_key_secretbox : List ℕ
nonce_for_sender_key_secretbox = codes "saltpack_sender_key_sbox"

unfoldable pub nonce_for_payload_key_box_v2 : ℕ → List ℕ
nonce_for_payload_key_box_v2 recip = codes "saltpack_recipsb" ++ put_uint64 recip

unfoldable pub nonce_for_payload_key_box : Version → ℕ → Result (List ℕ)
nonce_for_payload_key_box version recip =
    if eq_int version.major (pos 1)
    then ok (codes "saltpack_payload_key_box")
    else if eq_int version.major (pos 2)
    then ok (nonce_for_payload_key_box_v2 recip)
    else panic

unfoldable pub nonce_for_derived_shared_key : List ℕ
nonce_for_derived_shared_key = codes "saltpack_derived_sboxkey"

unfoldable pub nonce_for_mac_key_box_v1 : List ℕ → List ℕ
nonce_for_mac_key_box_v1 header_hash = take 24 header_hash

-- `n[15] &^= 1; if flag { n[15] |= 1 }` on the 16 bytes of `n`.
unfoldable pub set_low_bit : Bool → List ℕ → List ℕ
set_low_bit flag n =
    let cleared = set n 15 (get_or n 15 0 / 2 * 2) in
    if flag then set cleared 15 (get_or cleared 15 0 + 1) else cleared

unfoldable pub nonce_for_mac_key_box_v2 : List ℕ → Bool → ℕ → List ℕ
unfolding set_low_bit put_uint64
nonce_for_mac_key_box_v2 header_hash ephemeral recip =
    set_low_bit ephemeral (take 16 header_hash) ++ put_uint64 recip

unfoldable pub nonce_for_chunk_secretbox : ℕ → List ℕ
unfolding put_uint64
nonce_for_chunk_secretbox i = codes "saltpack_ploadsb" ++ put_uint64 i

unfoldable pub nonce_for_chunk_signcryption : List ℕ → Bool → ℕ → List ℕ
unfolding set_low_bit put_uint64
nonce_for_chunk_signcryption header_hash is_final i =
    set_low_bit is_final (take 16 header_hash) ++ put_uint64 i
