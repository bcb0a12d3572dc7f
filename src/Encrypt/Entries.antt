-- ===== src/Encrypt/Entries.antt =====
-- encrypt.go: the entries of the receivers in the header, and their MAC keys.
use saltpack.Base.{
  ℕ, zero, suc, ◌+◌, ◌≡◌, refl, ap, ◌∙◌, subst, sym, arith, true, false, List, [], ◌∷◌, ◌++◌, inl,
  inr, some, get_elem?, length, take, drop, replicate, if◌then◌else◌, le→ltb, length-replicate,
}
use saltpack.Const.{Version, version1, version2, crypto_auth_key_bytes}
use saltpack.Errors.{ok, ◌>>◌, >>=_ok, panic_if}
use saltpack.Key.{Crypto, BoxKeys, IsBoxKeys, secretbox_overhead}
use saltpack.Nonce.{nonce_for_payload_key_box, nonce_for_mac_key_box_v1, nonce_for_mac_key_box_v2}
use saltpack.Packets.{ReceiverKeys}
use saltpack.Common.{compute_mac_key_single, sum512_truncate256}
use saltpack.Encrypt.{box_payload_keys, compute_mac_key_sender, compute_mac_keys_sender}
use saltpack.Sign.Stream.{IsKnown}

nonce-v1 : (i : ℕ) → (nonce : List ℕ) × (nonce_for_payload_key_box version1 i ≡ ok nonce)
unfolding nonce_for_payload_key_box
nonce-v1 i = (_, refl)

nonce-v2 : (i : ℕ) → (nonce : List ℕ) × (nonce_for_payload_key_box version2 i ≡ ok nonce)
unfolding nonce_for_payload_key_box
nonce-v2 i = (_, refl)

pub nonce_ok :
    (version : Version)
    → IsKnown version
    → (i : ℕ) → (nonce : List ℕ) × (nonce_for_payload_key_box version i ≡ ok nonce)
nonce_ok version (inl e) i =
    subst (λ v. (n : List ℕ) × (nonce_for_payload_key_box v i ≡ ok n)) (sym e) (nonce-v1 i)
nonce_ok version (inr e) i =
    subst (λ v. (n : List ℕ) × (nonce_for_payload_key_box v i ≡ ok n)) (sym e) (nonce-v2 i)

module _ (k : BoxKeys) (version : Version) (known : IsKnown version) (ephemeral : k.Secret)
    (payload_key : List ℕ) where
  -- The entry of receiver number `i`.
  abbrev pub entry : ℕ → k.Public → ReceiverKeys
  entry i receiver = record {
    receiver_kid = if k.hide_identity receiver then [] else k.to_kid receiver;
    payload_key_box = k.box ephemeral receiver (nonce_ok version known i).0 payload_key;
  }

  abbrev pub entries : ℕ → List k.Public → List ReceiverKeys
  entries i [] = []
  entries i (r ∷ rs) = entry i r ∷ entries (i + 1) rs

  pub box_payload_keys-ok :
      (i : ℕ) (rs : List k.Public)
      → box_payload_keys k version ephemeral payload_key i rs ≡ ok (entries i rs)
  unfolding box_payload_keys
  box_payload_keys-ok i [] = refl
  box_payload_keys-ok i (r ∷ rs) =
      >>=_ok _ (nonce_ok version known i).1 ∙ >>=_ok _ (box_payload_keys-ok (i + 1) rs)

  -- The entry at a position is that of the receiver there.
  pub get_elem?-entries :
      (i p : ℕ) (rs : List k.Public) (found : ReceiverKeys)
      → get_elem? (entries i rs) p ≡ some found
      → (r : k.Public) × (get_elem? rs p ≡ some r) × (found ≡ entry (i + p) r)
  get_elem?-entries i p [] found e = cc
  get_elem?-entries i zero (r ∷ rs) found e =
      let same : found ≡ entry i r = cc e in
      (r, refl, same ∙ ap (λ t. entry t r) {x = i} {y = i + 0} (omega arith))
  get_elem?-entries i (suc p) (r ∷ rs) found e =
      let (q, at, same) = get_elem?-entries (i + 1) p rs found e in
      (q, at, same ∙ ap (λ t. entry t q) {x = i + 1 + p} {y = i + suc p} (omega arith))

module _ (k : BoxKeys) (is_box : IsBoxKeys k) (c : Crypto) (sender ephemeral : k.Secret)
    (header_hash : List ℕ) where
  single_total :
      (secret : k.Secret) (public : k.Public) (nonce : List ℕ)
      → (mac_key : List ℕ) × (compute_mac_key_single k secret public nonce ≡ ok mac_key)
  unfolding compute_mac_key_single
  single_total secret public nonce =
      let zeros = replicate crypto_auth_key_bytes 0 in
      let box = k.box secret public nonce zeros in
      (
        take crypto_auth_key_bytes (drop secretbox_overhead box),
        ap (λ t. panic_if t >> ok (take crypto_auth_key_bytes (drop secretbox_overhead box)))
            (le→ltb (length box) 48 (
              omega (
                arith,
                is_box.length-box secret public nonce zeros,
                length-replicate {A = ℕ} crypto_auth_key_bytes 0,
              ))),
      )

  abbrev pub Has : Version → Type 0
  Has version =
      (i : ℕ) (receiver : k.Public)
      → (mac_key : List ℕ) × (compute_mac_key_sender k c version i sender ephemeral receiver
            header_hash
          ≡ ok mac_key)

  Has-v1 : Has version1
  unfolding compute_mac_key_sender
  Has-v1 i receiver = single_total sender receiver (nonce_for_mac_key_box_v1 header_hash)

  Has-v2 : Has version2
  unfolding compute_mac_key_sender
  Has-v2 i receiver =
      let (mac, e) = single_total sender receiver (nonce_for_mac_key_box_v2 header_hash false i) in
      let (e_mac, f) =
        single_total ephemeral receiver (nonce_for_mac_key_box_v2 header_hash true i) in
      (sum512_truncate256 c (mac ++ e_mac), >>=_ok _ e ∙ >>=_ok _ f)

  pub mac_key_ok : (version : Version) → IsKnown version → Has version
  mac_key_ok version (inl e) = subst Has (sym e) Has-v1
  mac_key_ok version (inr e) = subst Has (sym e) Has-v2

  module _ (version : Version) (known : IsKnown version) where
    abbrev pub mac_keys : ℕ → List k.Public → List (List ℕ)
    mac_keys i [] = []
    mac_keys i (r ∷ rs) = (mac_key_ok version known i r).0 ∷ mac_keys (i + 1) rs

    pub compute_mac_keys_sender-ok :
        (i : ℕ) (rs : List k.Public)
        → compute_mac_keys_sender k c version sender ephemeral i rs header_hash ≡ ok (mac_keys i rs)
    unfolding compute_mac_keys_sender
    compute_mac_keys_sender-ok i [] = refl
    compute_mac_keys_sender-ok i (r ∷ rs) =
        >>=_ok _ (mac_key_ok version known i r).1 ∙ >>=_ok _ (compute_mac_keys_sender-ok (i + 1) rs)

    -- The MAC key of the receiver at a position.
    pub get_elem?-mac_keys :
        (i p : ℕ) (rs : List k.Public) (r : k.Public)
        → get_elem? rs p ≡ some r
        → (mac_key : List ℕ) × (get_elem? (mac_keys i rs) p ≡ some mac_key)
          × (compute_mac_key_sender k c version (i + p) sender ephemeral r header_hash ≡ ok mac_key)
    get_elem?-mac_keys i p [] r e = cc
    get_elem?-mac_keys i zero (q ∷ rs) r e =
        let same : q ≡ r = cc e in
        (
          (mac_key_ok version known i q).0,
          refl,
          ap (λ t. compute_mac_key_sender k c version t sender ephemeral r header_hash) {x = i + 0}
                {y = i} (omega arith)
              ∙ ap (λ t. compute_mac_key_sender k c version i sender ephemeral t header_hash)
                  (sym same)
              ∙ (mac_key_ok version known i q).1,
        )
    get_elem?-mac_keys i (suc p) (q ∷ rs) r e =
        let (mac_key, at, made) = get_elem?-mac_keys (i + 1) p rs r e in
        (
          mac_key,
          at,
          ap (λ t. compute_mac_key_sender k c version t sender ephemeral r header_hash)
                {x = i + suc p} {y = i + 1 + p} (omega arith)
              ∙ made,
        )
