-- ===== src/Signcrypt/Checks.antt =====
-- signcrypt_seal.go and signcrypt_open.go: the check of the receivers, and the checks on a
-- block.
use saltpack.Base.{
  ℕ, ◌+◌, ◌≤◌, ◌<◌, ◌≡◌, ◌↔◌, ◌⊎◌, refl, sym, ap, ◌∙◌, subst, arith, Bool, true, false, Option,
  none, some, List, [], ◌∷◌, ◌++◌, map, length, length-take, take, drop, take-append-drop, inl, inr,
  Bool-cases, if◌then◌else◌,
}
use saltpack.Const.{max_receiver_count}
use saltpack.Errors.{Error, Result, ok, err, panic, ◌>>=◌, ◌>>◌, >>=-eq-ok, repeated_key}
use saltpack.Key.{Crypto, BoxKeys, SigningKeys}
use saltpack.Nonce.{nonce_for_chunk_signcryption}
use saltpack.Common.{check_block_number, compute_signcryption_signature_input, prev_uint64}
use saltpack.Encrypt.{check_repeated, contains_kid}
use saltpack.Encrypt.Receivers.{AreNew, check_repeated_iff}
use saltpack.Decrypt.Blocks.{number_lem}
use saltpack.Signcrypt.Keys.{
  signature_size, ReceiverSymmetricKey, check_signcrypt_receiver_count, add_kids,
  check_signcrypt_receivers,
}
use saltpack.Signcrypt.Finding.{or_nil}
use saltpack.Signcrypt.Opening.{
  SigncryptOpenStream, opened_block, or_bad_signature, check_signature, process_block,
}

fails->>= :
    {A B : Type 0} (b : Bool) (e : Error) (m : Result A) (f : A → Result B)
    → ((if b then err e else m) >>= f) ≡ (if b then err e else (m >>= f))
fails->>= true e m f = refl
fails->>= false e m f = refl

-- Two loops over one set are one loop.
add_kids-append :
    (seen us bs : List (List ℕ))
    → (add_kids seen us >>= λ set. add_kids set bs) ≡ add_kids seen (us ++ bs)
unfolding add_kids
add_kids-append seen [] bs = refl
add_kids-append seen (a ∷ us) bs =
    fails->>= (contains_kid a seen) (repeated_key a) (add_kids (a ∷ seen) us) _
    ∙ ap (λ t. if contains_kid a seen then err (repeated_key a) else t)
        (add_kids-append (a ∷ seen) us bs)

add_kids-check_repeated :
    (seen kids : List (List ℕ)) → (add_kids seen kids >>= λ _. ok tt) ≡ check_repeated seen kids
unfolding add_kids check_repeated
add_kids-check_repeated seen [] = refl
add_kids-check_repeated seen (a ∷ us) =
    fails->>= (contains_kid a seen) (repeated_key a) (add_kids (a ∷ seen) us) _
    ∙ ap (λ t. if contains_kid a seen then err (repeated_key a) else t)
        (add_kids-check_repeated (a ∷ seen) us)

>>=_assoc :
    {A B C : Type 0} (m : Result A) (f : A → Result B) (g : B → Result C)
    → (m >>= λ a. (f a >>= g)) ≡ ((m >>= f) >>= g)
>>=_assoc panic f g = refl
>>=_assoc (err e) f g = refl
>>=_assoc (ok a) f g = refl

check_count_iff :
    (a b : ℕ)
    → (check_signcrypt_receiver_count a b ≡ ok tt) ↔ ((1 ≤ a + b) × (a + b ≤ max_receiver_count))
unfolding check_signcrypt_receiver_count
check_count_iff a b = ground arith

>>-iff : (m n : Result (Unit {0})) → ((m >> n) ≡ ok tt) ↔ ((m ≡ ok tt) × (n ≡ ok tt))
>>-iff panic n = (λ e. cc, λ e. cc e.0)
>>-iff (err e) n = (λ e. cc, λ e. cc e.0)
>>-iff (ok u) n = (λ e. (refl, e), λ e. e.1)

-- The receivers of both kinds are accepted exactly if there are between 1 and 2^32 - 1 of them
-- together and no two have the same key ID or identifier, also not one of each kind.
pub check_signcrypt_receivers_iff :
    (k : BoxKeys) (box_keys : List k.Public) (symmetric_keys : List ReceiverSymmetricKey)
    → (check_signcrypt_receivers k box_keys symmetric_keys ≡ ok tt) ↔ (
        (1 ≤ length box_keys + length symmetric_keys)
        × (length box_keys + length symmetric_keys ≤ max_receiver_count)
        × AreNew [] (map k.to_kid box_keys ++ map (λ r. r.identifier) symmetric_keys))
unfolding check_signcrypt_receivers
check_signcrypt_receivers_iff k box_keys symmetric_keys =
    let us = map k.to_kid box_keys in
    let bs = map (λ (r : ReceiverSymmetricKey). r.identifier) symmetric_keys in
    let loops : (add_kids [] us >>= λ set. (add_kids set bs >>= λ _. ok tt))
        ≡ check_repeated [] (us ++ bs) =
      >>=_assoc (add_kids [] us) (λ set. add_kids set bs) (λ _. ok tt)
      ∙ ap (λ m. m >>= λ _. ok tt) (add_kids-append [] us bs)
      ∙ add_kids-check_repeated [] (us ++ bs) in
    let count = check_count_iff (length box_keys) (length symmetric_keys) in
    let new = check_repeated_iff [] (us ++ bs) in
    let both =
      >>-iff (check_signcrypt_receiver_count (length box_keys) (length symmetric_keys))
        (add_kids [] us >>= λ set. (add_kids set bs >>= λ _. ok tt)) in
    (
      λ e.
          let (counted, looped) = both.0 e in
          ((count.0 counted).0, (count.0 counted).1, new.0 (sym loops ∙ looped)),
      λ (low, high, fresh). both.1 (count.1 (low, high), loops ∙ new.1 fresh),
    )

module _ (s : SigningKeys) (c : Crypto) where
  opened_block_lem :
      (seqno : ℕ) (o : Option (List ℕ)) (attached : List ℕ)
      → opened_block s seqno o ≡ ok attached
      → (o ≡ some attached) × (signature_size ≤ length attached)
  unfolding opened_block
  opened_block_lem seqno none attached e = cc
  opened_block_lem seqno (some b) attached e = ground arith

  or_bad_signature_lem :
      (r : Result (Unit {0})) (u : Unit {0}) → or_bad_signature s r ≡ ok u → r ≡ ok tt
  unfolding or_bad_signature
  or_bad_signature_lem panic u e = cc
  or_bad_signature_lem (err x) u e = cc
  or_bad_signature_lem (ok v) u e = refl

  or_nil_lem : {A : Type 0} (o : Option A) (a : A) → or_nil o ≡ ok a → o ≡ some a
  or_nil_lem none a e = cc
  or_nil_lem (some b) a e = cc

  -- The signature that the sender's key has made for a block.
  pub IsSigned : SigncryptOpenStream s → List ℕ → Bool → List ℕ → List ℕ → Type 0
  IsSigned sos nonce is_final plaintext sig =
      (key : s.Public) × (sos.signing_public_key ≡ some key)
      × (s.verify key
            (compute_signcryption_signature_input c sos.header_hash nonce is_final plaintext) sig
          ≡ ok tt)

  check_signature_lem :
      (sos : SigncryptOpenStream s) (nonce : List ℕ) (is_final : Bool) (plaintext sig : List ℕ)
      (u : Unit {0})
      → check_signature s c sos nonce is_final plaintext sig ≡ ok u
      → sos.sender_anonymous ≡ false
      → IsSigned sos nonce is_final plaintext sig
  unfolding check_signature IsSigned
  check_signature_lem sos nonce is_final plaintext sig u e named =
      let verified = λ (key : s.Public). or_bad_signature s (
        s.verify key
          (compute_signcryption_signature_input c sos.header_hash nonce is_final plaintext) sig) in
      let (key, signer, checked) = >>=-eq-ok (or_nil sos.signing_public_key) verified (
        sym (ap (λ b. if b then ok tt else (or_nil sos.signing_public_key >>= verified)) named)
        ∙ e) in
      (
        key,
        or_nil_lem sos.signing_public_key key signer,
        or_bad_signature_lem
            (s.verify key
              (compute_signcryption_signature_input c sos.header_hash nonce is_final plaintext) sig)
            u checked,
      )

  -- A block that is accepted: its secretbox opens, with the nonce of its number and its final flag,
  -- to a signature of 64 bytes and the plaintext; unless the sender is anonymous, the signature is
  -- the sender's for the header hash, the nonce, the final flag and the plaintext; and the block's
  -- number is below 2^64 - 1.
  pub process_block-IsSigned :
      (sos : SigncryptOpenStream s) (ciphertext : List ℕ) (is_final : Bool) (seqno : ℕ)
      (plaintext : List ℕ)
      → process_block s c sos ciphertext is_final seqno ≡ ok plaintext
      → (sig : List ℕ) × (length sig ≡ signature_size)
        × (c.secretbox_open ciphertext
              (nonce_for_chunk_signcryption sos.header_hash is_final (prev_uint64 seqno))
              sos.payload_key
            ≡ some (sig ++ plaintext))
        × ((sos.sender_anonymous ≡ true)
            ⊎ IsSigned sos
                (nonce_for_chunk_signcryption sos.header_hash is_final (prev_uint64 seqno))
                is_final
                plaintext
                sig)
        × (prev_uint64 seqno < 0xffffffffffffffff)
  unfolding process_block
  process_block-IsSigned sos ciphertext is_final seqno plaintext e =
      let nonce = nonce_for_chunk_signcryption sos.header_hash is_final (prev_uint64 seqno) in
      let (u, number, e1) = >>=-eq-ok (check_block_number (prev_uint64 seqno)) _ e in
      let (attached, opens, e2) =
        >>=-eq-ok (opened_block s seqno (c.secretbox_open ciphertext nonce sos.payload_key)) _ e1 in
      let sig = take signature_size attached in
      let rest = drop signature_size attached in
      let (v, signed, e3) = >>=-eq-ok (check_signature s c sos nonce is_final rest sig) _ e2 in
      let (boxed, long) =
        opened_block_lem seqno (c.secretbox_open ciphertext nonce sos.payload_key) attached opens in
      let same : rest ≡ plaintext = cc e3 in
      (
        sig,
        omega (arith, length-take signature_size attached),
        boxed ∙ ap some (sym (take-append-drop signature_size attached) ∙ ap (λ t. sig ++ t) same),
        elim (Bool-cases sos.sender_anonymous) [
          | inl anonymous ↦ inl anonymous
          | inr named ↦ inr (
              subst (λ t. IsSigned sos nonce is_final t sig) same
                (check_signature_lem sos nonce is_final rest sig v signed named))
        ],
        number_lem c (prev_uint64 seqno) u number,
      )
