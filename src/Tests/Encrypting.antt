-- ===== src/Tests/Encrypting.antt =====
-- Box keys, MAC keys and receivers at concrete inputs.
use saltpack.Base.{◌≤◌, ◌≡◌, ◌↔◌, refl, [], ◌∷◌, replicate, inr}
use saltpack.Const.{version2, max_receiver_count}
use saltpack.Errors.{ok}
use saltpack.Encrypt.{check_encrypt_receivers, compute_mac_key_sender}
use saltpack.Encrypt.Receivers.{AreNew, check_encrypt_receivers_iff}
use saltpack.Decrypt.{compute_mac_key_receiver}
use saltpack.Decrypt.MacKeys.{compute_mac_key_sender-receiver}
use saltpack.Tests.Fixtures.{some_crypto, some_box_keys, some_box_keys-IsBoxKeys}

compute_mac_key_sender-receiver_example :
    compute_mac_key_sender some_box_keys some_crypto version2 1 3 8 4 (replicate 64 7)
    ≡ compute_mac_key_receiver some_box_keys some_crypto version2 1 4 3 8 (replicate 64 7)
compute_mac_key_sender-receiver_example =
    compute_mac_key_sender-receiver some_box_keys some_box_keys-IsBoxKeys some_crypto 1 3 8 4
      (replicate 64 7) version2 (inr refl)

check_encrypt_receivers_iff_example :
    (check_encrypt_receivers some_box_keys (4 ∷ 9 ∷ 4 ∷ []) ≡ ok tt)
    ↔ ((1 ≤ 3) × (3 ≤ max_receiver_count) × AreNew [] ((4 ∷ []) ∷ (9 ∷ []) ∷ (4 ∷ []) ∷ []))
check_encrypt_receivers_iff_example = check_encrypt_receivers_iff some_box_keys (4 ∷ 9 ∷ 4 ∷ [])
