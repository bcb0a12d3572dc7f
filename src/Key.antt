-- ===== src/Key.antt =====
-- key.go, and what the program asks of the cryptography that it does not implement: SHA-512 and
-- HMAC-SHA512 of the standard library, NaCl's secretbox, and the keys of its callers.
use saltpack.Base.{ℕ, ◌+◌, ◌≡◌, Bool, not, Option, some, List, length, ◌==◌}
use saltpack.Errors.{Result, ok, ◌>>◌, fail_if, bad_box_key, bad_symmetric_key}

pub record Crypto : Type 0 where
  pub sha512 : List ℕ → List ℕ
  -- key, message
  pub hmac_sha512 : List ℕ → List ℕ → List ℕ
  -- `secretbox.Seal` and `secretbox.Open`: message or box, nonce, key
  pub secretbox_seal : List ℕ → List ℕ → List ℕ → List ℕ
  pub secretbox_open : List ℕ → List ℕ → List ℕ → Option (List ℕ)

-- `secretbox.Overhead`
abbrev pub secretbox_overhead : ℕ
secretbox_overhead = 16

pub record IsCrypto (c : Crypto) : Type 0 where
  pub length-sha512 : (m : List ℕ) → length (c.sha512 m) ≡ 64
  pub length-hmac_sha512 : (k m : List ℕ) → length (c.hmac_sha512 k m) ≡ 64
  pub open-seal : (m n k : List ℕ) → c.secretbox_open (c.secretbox_seal m n k) n k ≡ some m
  pub length-seal :
      (m n k : List ℕ) → length (c.secretbox_seal m n k) ≡ length m + secretbox_overhead

-- `BoxPublicKey` and `BoxSecretKey`. A precomputed key boxes as the two keys that it is made of.
pub record BoxKeys : Type 1 where
  pub Public : Type 0
  pub Secret : Type 0
  pub to_kid : Public → List ℕ
  pub hide_identity : Public → Bool
  pub get_public_key : Secret → Public
  pub box : Secret → Public → List ℕ → List ℕ → List ℕ
  pub unbox : Secret → Public → List ℕ → List ℕ → Result (List ℕ)

-- NaCl's box: the receiver opens what the sender closed, both sides derive the same box, and a box
-- is 16 bytes longer than the message.
pub record IsBoxKeys (k : BoxKeys) : Type 0 where
  pub unbox-box :
      (s r : k.Secret) (n m : List ℕ)
      → k.unbox r (k.get_public_key s) n (k.box s (k.get_public_key r) n m) ≡ ok m
  pub box_comm :
      (s r : k.Secret) (n m : List ℕ)
      → k.box s (k.get_public_key r) n m ≡ k.box r (k.get_public_key s) n m
  pub length-box :
      (s : k.Secret) (p : k.Public) (n m : List ℕ) → length (k.box s p n m) ≡ length m + 16

-- `SigningPublicKey` and `SigningSecretKey`.
pub record SigningKeys : Type 1 where
  pub Public : Type 0
  pub Secret : Type 0
  pub to_kid : Public → List ℕ
  pub get_public_key : Secret → Public
  pub sign : Secret → List ℕ → Result (List ℕ)
  pub verify : Public → List ℕ → List ℕ → Result (Unit {0})

pub record IsSigningKeys (k : SigningKeys) : Type 0 where
  pub verify-sign :
      (s : k.Secret) (m sig : List ℕ)
      → k.sign s m ≡ ok sig
      → k.verify (k.get_public_key s) m sig ≡ ok tt

-- The key signs every message.
abbrev pub Signs : (k : SigningKeys) → k.Secret → Type 0
Signs k s = (m : List ℕ) → (sig : List ℕ) × (k.sign s m ≡ ok sig)

-- `rawBoxKeyFromSlice` and `symmetricKeyFromSlice`
unfoldable pub raw_box_key_from_slice : List ℕ → Result (List ℕ)
raw_box_key_from_slice slice = do fail_if (not (length slice == 32)) bad_box_key; ok slice

unfoldable pub symmetric_key_from_slice : List ℕ → Result (List ℕ)
symmetric_key_from_slice slice = do fail_if (not (length slice == 32)) bad_symmetric_key; ok slice
