-- ===== src/Tests/Fixtures.antt =====
-- Keys and hashes that meet what is asked of them, for the runs.
use saltpack.Base.{
  ℕ, ◌+◌, ◌≡◌, refl, sym, ap, ◌∙◌, arith, false, List, [], ◌∷◌, ◌++◌, length, length-append,
  length-take, length-replicate, take, drop, drop-append, eq_bytes, eq_bytes_iff, if◌then◌else◌,
  some, replicate,
}
use saltpack.Errors.{ok, err, bad_signature}
use saltpack.Key.{Crypto, IsCrypto, BoxKeys, IsBoxKeys, SigningKeys, IsSigningKeys, Signs}
use saltpack.Tests.SignatureCodec.{ok-inj}

-- A signature is the key in front of the message.
abbrev pub some_keys : SigningKeys
some_keys = record {
  Public = ℕ;
  Secret = ℕ;
  to_kid = λ p. p ∷ [];
  get_public_key = λ s. s;
  sign = λ s m. ok (s ∷ m);
  verify = λ p m sig. if eq_bytes sig (p ∷ m) then ok tt else err bad_signature;
}

pub some_keys-IsSigningKeys : IsSigningKeys some_keys
some_keys-IsSigningKeys = record {
  verify-sign = λ s m sig e.
      ap (λ t. if t then ok tt else err bad_signature)
        ((eq_bytes_iff sig (s ∷ m)).1 (sym (ok-inj (s ∷ m) sig e)));
}

pub some_keys-Signs : (s : ℕ) → Signs some_keys s
some_keys-Signs s m = (s ∷ m, refl)

-- Hashes that keep all that they are given.
abbrev pub some_crypto : Crypto
some_crypto = record {
  sha512 = λ m. m;
  hmac_sha512 = λ k m. k ++ m;
  secretbox_seal = λ m n k. replicate 16 0 ++ m;
  secretbox_open = λ b n k. some (drop 16 b);
}

-- Hashes of 64 bytes: the front of what is hashed, padded.
abbrev pub front : List ℕ → List ℕ
front m = take 64 (m ++ replicate 64 0)

pub length-front : (m : List ℕ) → length (front m) ≡ 64
length-front m = omega (
  arith,
  length-take 64 (m ++ replicate 64 0),
  length-append m (replicate {A = ℕ} 64 0),
  length-replicate {A = ℕ} 64 0,
)

abbrev pub front_crypto : Crypto
front_crypto = record {
  sha512 = front;
  hmac_sha512 = λ k m. front (k ++ m);
  secretbox_seal = λ m n k. replicate 16 0 ++ m;
  secretbox_open = λ b n k. some (drop 16 b);
}

pub front_crypto-IsCrypto : IsCrypto front_crypto
front_crypto-IsCrypto = record {
  length-sha512 = length-front;
  length-hmac_sha512 = λ k m. length-front (k ++ m);
  open-seal = λ m n k. ap some (drop-append 16 (replicate 16 0) m refl);
  length-seal = λ m n k. length-append (replicate 16 0) m ∙ omega arith;
}

-- A box of the two keys' sum and the message, for the runs.
abbrev pub some_box_keys : BoxKeys
some_box_keys = record {
  Public = ℕ;
  Secret = ℕ;
  to_kid = λ p. p ∷ [];
  hide_identity = λ p. false;
  get_public_key = λ s. s;
  box = λ s p n m. replicate 16 (s + p) ++ m;
  unbox = λ s p n b. ok (drop 16 b);
}

pub some_box_keys-IsBoxKeys : IsBoxKeys some_box_keys
some_box_keys-IsBoxKeys = record {
  unbox-box = λ s r n m. ap ok (drop-append 16 (replicate 16 (r + s)) m refl);
  box_comm = λ s r n m. ap (λ t. replicate 16 t ++ m) {x = s + r} {y = r + s} (omega arith);
  length-box = λ s p n m. length-append (replicate 16 (s + p)) m ∙ omega arith;
}

-- Key IDs of 32 bytes.
abbrev pub wide_box_keys : BoxKeys
wide_box_keys = record some_box_keys { to_kid = λ p. p ∷ replicate 31 0 }

pub wide_box_keys-IsBoxKeys : IsBoxKeys wide_box_keys
wide_box_keys-IsBoxKeys = record {
  unbox-box = some_box_keys-IsBoxKeys.unbox-box;
  box_comm = some_box_keys-IsBoxKeys.box_comm;
  length-box = some_box_keys-IsBoxKeys.length-box;
}

-- Signatures of 64 bytes, key IDs of 32.
abbrev pub wide_keys : SigningKeys
wide_keys = record {
  Public = ℕ;
  Secret = ℕ;
  to_kid = λ p. p ∷ replicate 31 0;
  get_public_key = λ s. s;
  sign = λ s m. ok (front (s ∷ m));
  verify = λ p m sig. if eq_bytes sig (front (p ∷ m)) then ok tt else err bad_signature;
}

pub wide_keys-IsSigningKeys : IsSigningKeys wide_keys
wide_keys-IsSigningKeys = record {
  verify-sign = λ s m sig e.
      ap (λ t. if t then ok tt else err bad_signature)
        ((eq_bytes_iff sig (front (s ∷ m))).1 (sym (ok-inj (front (s ∷ m)) sig e)));
}
