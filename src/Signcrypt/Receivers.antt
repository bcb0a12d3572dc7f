-- ===== src/Signcrypt/Receivers.antt =====
-- signcrypt_seal.go and signcrypt_open.go: the keys that are made for a receiver with a box
-- key, and how it finds the payload key in them.
use saltpack.Base.{
  ℕ, ◌+◌, ◌-◌, ◌≡◌, ◌≢◌, refl, sym, ap, ◌∙◌, arith, inl, inr, Bool-cases, Option, some, List, [],
  ◌∷◌, ◌++◌, length, length-take, length-drop, length-replicate, take, drop, replicate, not, ◌==◌,
  ltb, eq_bytes, eq_bytes_iff, if◌then◌else◌,
}
use saltpack.Const.{signcryption_symmetric_key_context}
use saltpack.Errors.{Result, ok, ◌>>◌, >>=_ok, fail_if, panic_if, bad_symmetric_key, bad_box_key}
use saltpack.Key.{
  Crypto, IsCrypto, BoxKeys, IsBoxKeys, symmetric_key_from_slice, raw_box_key_from_slice,
}
use saltpack.Nonce.{nonce_for_payload_key_box_v2, nonce_for_derived_shared_key}
use saltpack.Common.{or_panic}
use saltpack.Packets.{ReceiverKeys}
use saltpack.Signcrypt.Keys.{
  ReceiverKeysMaker, receiver_box_key, receiver_symmetric_key, derived_ephemeral_key_from_box_keys,
  derived_symmetric_key, key_identifier_from_derived_key, make_receiver_keys,
  make_all_receiver_keys,
}
use saltpack.Signcrypt.Finding.{opened_payload_key, open_payload_key_box, try_derived_keys}

abbrev pub key_size : ℕ
key_size = 32

pub symmetric_key_from_slice-ok :
    (slice : List ℕ) → length slice ≡ key_size → symmetric_key_from_slice slice ≡ ok slice
unfolding symmetric_key_from_slice
symmetric_key_from_slice-ok slice e =
    ap (λ n. fail_if (not (n == 32)) bad_symmetric_key >> ok slice) e

pub raw_box_key_from_slice-ok :
    (slice : List ℕ) → length slice ≡ key_size → raw_box_key_from_slice slice ≡ ok slice
unfolding raw_box_key_from_slice
raw_box_key_from_slice-ok slice e = ap (λ n. fail_if (not (n == 32)) bad_box_key >> ok slice) e

module _ (k : BoxKeys) (is_box : IsBoxKeys k) where
  -- The key that two box keys derive.
  abbrev pub derived_of : k.Public → k.Secret → List ℕ
  derived_of public private =
      drop 16 (k.box private public nonce_for_derived_shared_key (replicate 32 0))

  pub derived_of_comm :
      (a b : k.Secret) → derived_of (k.get_public_key a) b ≡ derived_of (k.get_public_key b) a
  derived_of_comm a b =
      ap (drop 16) (is_box.box_comm b a nonce_for_derived_shared_key (replicate 32 0))

  length-shared :
      (public : k.Public) (private : k.Secret)
      → length (k.box private public nonce_for_derived_shared_key (replicate 32 0)) ≡ 48
  length-shared public private =
      is_box.length-box private public nonce_for_derived_shared_key (replicate 32 0)
      ∙ ap (λ n. n + 16) (length-replicate {A = ℕ} 32 0)

  pub derived_ephemeral_key_from_box_keys-ok :
      (public : k.Public) (private : k.Secret)
      → derived_ephemeral_key_from_box_keys k public private ≡ ok (derived_of public private)
  unfolding derived_ephemeral_key_from_box_keys
  derived_ephemeral_key_from_box_keys-ok public private =
      let shared = k.box private public nonce_for_derived_shared_key (replicate 32 0) in
      ap (λ n. panic_if (ltb n 32) >> or_panic (symmetric_key_from_slice (drop (n - 32) shared)))
        (length-shared public private)
      ∙ ap or_panic (
          symmetric_key_from_slice-ok (drop 16 shared)
            (omega (arith, length-shared public private, length-drop 16 shared)))

module _ (k : BoxKeys) (is_box : IsBoxKeys k) (c : Crypto) (law : IsCrypto c) (ephemeral : k.Secret)
    (payload_key : List ℕ) (size : length payload_key ≡ key_size) where
  abbrev symmetric_of : List ℕ → List ℕ
  symmetric_of key = take 32 (
      c.hmac_sha512 signcryption_symmetric_key_context
        (k.to_kid (k.get_public_key ephemeral) ++ key))

  derived_symmetric_key-ok :
      (key : List ℕ)
      → derived_symmetric_key k c (k.to_kid (k.get_public_key ephemeral)) key
        ≡ ok (symmetric_of key)
  unfolding derived_symmetric_key
  derived_symmetric_key-ok key =
      let digest =
        c.hmac_sha512 signcryption_symmetric_key_context
          (k.to_kid (k.get_public_key ephemeral) ++ key) in
      ap or_panic (
        raw_box_key_from_slice-ok (take 32 digest) (
          omega (
            arith,
            length-take 32 digest,
            law.length-hmac_sha512 signcryption_symmetric_key_context
                (k.to_kid (k.get_public_key ephemeral) ++ key),
          )))

  -- The entry of a receiver in the header.
  abbrev pub entry : ℕ → ReceiverKeysMaker k → ReceiverKeys
  entry i (receiver_box_key pk) = record {
    receiver_kid = key_identifier_from_derived_key k c (derived_of k is_box pk ephemeral) i;
    payload_key_box =
        c.secretbox_seal payload_key (nonce_for_payload_key_box_v2 i)
          (derived_of k is_box pk ephemeral);
  }
  entry i (receiver_symmetric_key r) = record {
    receiver_kid = r.identifier;
    payload_key_box =
        c.secretbox_seal payload_key (nonce_for_payload_key_box_v2 i) (symmetric_of r.key);
  }

  abbrev pub entries : ℕ → List (ReceiverKeysMaker k) → List ReceiverKeys
  entries i [] = []
  entries i (m ∷ ms) = entry i m ∷ entries (i + 1) ms

  make_receiver_keys-ok :
      (i : ℕ) (m : ReceiverKeysMaker k)
      → make_receiver_keys k c ephemeral payload_key i m ≡ ok (entry i m)
  unfolding make_receiver_keys
  make_receiver_keys-ok i (receiver_box_key pk) =
      >>=_ok _ (derived_ephemeral_key_from_box_keys-ok k is_box pk ephemeral)
  make_receiver_keys-ok i (receiver_symmetric_key r) = >>=_ok _ (derived_symmetric_key-ok r.key)

  pub make_all_receiver_keys-ok :
      (i : ℕ) (ms : List (ReceiverKeysMaker k))
      → make_all_receiver_keys k c ephemeral payload_key i ms ≡ ok (entries i ms)
  unfolding make_all_receiver_keys
  make_all_receiver_keys-ok i [] = refl
  make_all_receiver_keys-ok i (m ∷ ms) =
      >>=_ok _ (make_receiver_keys-ok i m) ∙ >>=_ok _ (make_all_receiver_keys-ok (i + 1) ms)

  open_payload_key_box-sealed :
      (i : ℕ) (derived_key : List ℕ)
      → open_payload_key_box c i
          (c.secretbox_seal payload_key (nonce_for_payload_key_box_v2 i) derived_key)
          derived_key
        ≡ ok (some payload_key)
  unfolding open_payload_key_box opened_payload_key
  open_payload_key_box-sealed i derived_key =
      ap (opened_payload_key c)
        (law.open-seal payload_key (nonce_for_payload_key_box_v2 i) derived_key)
      ∙ >>=_ok _ (symmetric_key_from_slice-ok payload_key size)

  -- The derived key of a secret key of the receiver.
  abbrev pub mine : k.Secret → List ℕ
  mine sk = derived_of k is_box (k.get_public_key ephemeral) sk

  -- The identifiers of the message tell the receiver's key apart from the keys of the others.
  abbrev pub TellsApart : k.Secret → ReceiverKeysMaker k → Type 0
  TellsApart sk (receiver_box_key pk) =
      (i : ℕ)
      → key_identifier_from_derived_key k c (derived_of k is_box (k.get_public_key ephemeral) sk) i
        ≡ key_identifier_from_derived_key k c (derived_of k is_box pk ephemeral) i
      → derived_of k is_box (k.get_public_key ephemeral) sk ≡ derived_of k is_box pk ephemeral
  TellsApart sk (receiver_symmetric_key r) =
      (i : ℕ)
      → key_identifier_from_derived_key k c (derived_of k is_box (k.get_public_key ephemeral) sk) i
        ≢ r.identifier

  opens_when_named :
      (sk : k.Secret) (m : ReceiverKeysMaker k) (i : ℕ)
      → TellsApart sk m
      → key_identifier_from_derived_key k c (mine sk) i ≡ (entry i m).receiver_kid
      → open_payload_key_box c i (entry i m).payload_key_box (mine sk) ≡ ok (some payload_key)
  opens_when_named sk (receiver_box_key pk) i apart e =
      ap
        (λ t.
          open_payload_key_box c i (c.secretbox_seal payload_key (nonce_for_payload_key_box_v2 i) t)
            (mine sk))
        (sym (apart i e))
      ∙ open_payload_key_box-sealed i (mine sk)
  opens_when_named sk (receiver_symmetric_key r) i apart e = absurd (apart i e)

  -- One secret key at one receiver: the payload key, or the search goes on.
  pub try_one :
      (sk : k.Secret) (m : ReceiverKeysMaker k) (i : ℕ) (next : Result (Option (List ℕ)))
      (sks : List (List ℕ))
      → TellsApart sk m
      → (key_identifier_from_derived_key k c (mine sk) i ≢ (entry i m).receiver_kid
          → try_derived_keys c k i (entry i m) next sks ≡ ok (some payload_key))
      → try_derived_keys c k i (entry i m) next (mine sk ∷ sks) ≡ ok (some payload_key)
  unfolding try_derived_keys
  try_one sk m i next sks apart rest =
      let ident = key_identifier_from_derived_key k c (mine sk) i in
      let kid = (entry i m).receiver_kid in
      elim (Bool-cases (eq_bytes ident kid)) [
        | inl same ↦
            ap
              (λ t.
                if t
                then open_payload_key_box c i (entry i m).payload_key_box (mine sk)
                else try_derived_keys c k i (entry i m) next sks)
              same
            ∙ opens_when_named sk m i apart ((eq_bytes_iff ident kid).0 same)
        | inr other ↦
            ap
              (λ t.
                if t
                then open_payload_key_box c i (entry i m).payload_key_box (mine sk)
                else try_derived_keys c k i (entry i m) next sks)
              other
            ∙ rest (λ e. cc ((eq_bytes_iff ident kid).1 e, other))
      ]
