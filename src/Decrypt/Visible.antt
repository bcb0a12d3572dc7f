-- ===== src/Decrypt/Visible.antt =====
-- decrypt.go: the search for the payload key by a receiver that the header names.
use saltpack.Base.{
  ℕ, zero, suc, ◌+◌, ◌≡◌, refl, ap, ◌∙◌, sym, arith, false, List, [], ◌∷◌, inl, inr, Bool-cases,
  some, get_elem?, length, ◌==◌, if◌then◌else◌,
}
use saltpack.Const.{Version}
use saltpack.Errors.{ok, >>=_ok}
use saltpack.Key.{BoxKeys, IsBoxKeys}
use saltpack.Nonce.{nonce_for_payload_key_box}
use saltpack.Packets.{ReceiverKeys, EncryptionHeader}
use saltpack.Sign.Stream.{IsKnown}
use saltpack.Encrypt.Entries.{nonce_ok, entry, entries, get_elem?-entries}
use saltpack.Signcrypt.Receivers.{key_size, symmetric_key_from_slice-ok}
use saltpack.Decrypt.{
  Keyring, visible_kids, visible_positions, open_payload_key, open_at, open_visible,
  try_visible_receivers,
}

-- A key ID at a position of the list.
abbrev At : List ReceiverKeys → ℕ → List ℕ → Type 0
At rs p kid =
    (r : ReceiverKeys) × (get_elem? rs p ≡ some r)
    × (r.receiver_kid ≡ kid)
    × ((length kid == 0) ≡ false)

module _ (k : BoxKeys) where
  -- The key ID number `i` of those that are named has a position in the header, and stands there.
  abbrev HasPosition : List ReceiverKeys → ℕ → ℕ → List ℕ → Type 0
  HasPosition rs j i kid =
      (p : ℕ) × (get_elem? (visible_positions k j rs) i ≡ some (j + p)) × At rs p kid

  visible_at :
      (rs : List ReceiverKeys) (j i : ℕ) (kid : List ℕ)
      → get_elem? (visible_kids k rs) i ≡ some kid
      → HasPosition rs j i kid
  unfolding visible_kids visible_positions
  visible_at [] j i kid e = cc
  visible_at (r ∷ rs) j i kid e = elim (Bool-cases (length r.receiver_kid == 0)) [
    | inl hidden ↦
        let (p, at, found) = visible_at rs (j + 1) i kid (
          ap
            (λ b. get_elem? (if b then visible_kids k rs else r.receiver_kid ∷ visible_kids k rs) i)
            (sym hidden)
          ∙ e) in
        (
          suc p,
          ap
                (λ b.
                  get_elem?
                    (if b
                      then visible_positions k (j + 1) rs
                      else j ∷ visible_positions k (j + 1) rs)
                    i)
                hidden
              ∙ at
              ∙ ap some {x = j + 1 + p} {y = j + suc p} (omega arith),
          found,
        )
    | inr shown ↦ shown_at i (visible_at rs (j + 1)) shown (
        ap (λ b. get_elem? (if b then visible_kids k rs else r.receiver_kid ∷ visible_kids k rs) i)
          (sym shown)
        ∙ e)
  ]
    where
      shown_at :
          (i : ℕ)
          → ((i : ℕ) (kid : List ℕ)
              → get_elem? (visible_kids k rs) i ≡ some kid
              → HasPosition rs (j + 1) i kid)
          → (length r.receiver_kid == 0) ≡ false
          → get_elem? (r.receiver_kid ∷ visible_kids k rs) i ≡ some kid
          → HasPosition (r ∷ rs) j i kid
      shown_at zero again shown e =
          let same : r.receiver_kid ≡ kid = cc e in
          (
            zero,
            ap
                  (λ b.
                    get_elem?
                      (if b
                        then visible_positions k (j + 1) rs
                        else j ∷ visible_positions k (j + 1) rs)
                      zero)
                  shown
                ∙ ap some {x = j} {y = j + 0} (omega arith),
            (r, refl, same, ap (λ t. length t == 0) (sym same) ∙ shown),
          )
      shown_at (suc i) again shown e =
          let (p, at, found) = again i kid e in
          (
            suc p,
            ap
                  (λ b.
                    get_elem?
                      (if b
                        then visible_positions k (j + 1) rs
                        else j ∷ visible_positions k (j + 1) rs)
                      (suc i))
                  shown
                ∙ at
                ∙ ap some {x = j + 1 + p} {y = j + suc p} (omega arith),
            found,
          )

module _ (k : BoxKeys) (is_box : IsBoxKeys k) (version : Version) (known : IsKnown version)
    (ephemeral : k.Secret) (payload_key : List ℕ) (size : length payload_key ≡ key_size) where
  named_receiver :
      (i : ℕ) (r : k.Public) (kid : List ℕ)
      → (entry k version known ephemeral payload_key i r).receiver_kid ≡ kid
      → (length kid == 0) ≡ false
      → k.to_kid r ≡ kid
  named_receiver i r kid e shown = elim (Bool-cases (k.hide_identity r)) [
    | inl hidden ↦ cc (sym (ap (λ b. if b then [] else k.to_kid r) hidden) ∙ e, shown)
    | inr plain ↦ sym (ap (λ b. if b then [] else k.to_kid r) plain) ∙ e
  ]

  open_payload_key-ok :
      (hdr : EncryptionHeader) (sk : k.Secret) (i : ℕ)
      → hdr.version ≡ version
      → open_payload_key k hdr
          (k.get_public_key ephemeral)
          sk
          i
          (some (entry k version known ephemeral payload_key i (k.get_public_key sk)))
        ≡ ok (some (record { secret_key = sk; payload_key = payload_key; position = i }))
  unfolding open_payload_key
  open_payload_key-ok hdr sk i same =
      >>=_ok _ (ap (λ v. nonce_for_payload_key_box v i) same ∙ (nonce_ok version known i).1)
      ∙ >>=_ok _ (is_box.unbox-box ephemeral sk (nonce_ok version known i).0 payload_key)
      ∙ >>=_ok _ (symmetric_key_from_slice-ok payload_key size)

  -- A keyring that answers with the secret key of one of the named key IDs: key IDs stand for keys.
  pub record Owns (ring : Keyring k) (rs : List k.Public) (sk : k.Secret) : Type 0 where
    pub index : ℕ
    pub looks_up :
        ring.lookup_box_secret_key
          (visible_kids k (entries k version known ephemeral payload_key 0 rs))
        ≡ some (index, sk)
    pub asked :
        get_elem? (visible_kids k (entries k version known ephemeral payload_key 0 rs)) index
        ≡ some (k.to_kid (k.get_public_key sk))
    pub to_kid-inj :
        (r : k.Public) → k.to_kid r ≡ k.to_kid (k.get_public_key sk) → r ≡ k.get_public_key sk

  pub try_visible_receivers-ok :
      (ring : Keyring k) (hdr : EncryptionHeader) (rs : List k.Public) (sk : k.Secret)
      → hdr.version ≡ version
      → hdr.receivers ≡ entries k version known ephemeral payload_key 0 rs
      → Owns ring rs sk
      → (p : ℕ) × (get_elem? rs p ≡ some (k.get_public_key sk))
        × (try_visible_receivers k ring hdr (k.get_public_key ephemeral)
            ≡ ok (some (record { secret_key = sk; payload_key = payload_key; position = p })))
  unfolding try_visible_receivers open_visible open_at
  try_visible_receivers-ok ring hdr rs sk same receivers owns =
      let kid = k.to_kid (k.get_public_key sk) in
      let keys = entries k version known ephemeral payload_key 0 rs in
      let (p, at, (r, stands, named, shown)) = visible_at k keys 0 owns.index kid owns.asked in
      let (q, at_q, is_entry) =
        get_elem?-entries k version known ephemeral payload_key 0 p rs r stands in
      let mine : q ≡ k.get_public_key sk = owns.to_kid-inj q (
        named_receiver (0 + p) q kid
          (ap (λ (t : ReceiverKeys). t.receiver_kid) (sym is_entry) ∙ named) shown) in
      (
        p,
        at_q ∙ ap some mine,
        ap
              (λ t.
                open_visible k hdr (k.get_public_key ephemeral)
                  (ring.lookup_box_secret_key (visible_kids k t)))
              receivers
            ∙ ap (open_visible k hdr (k.get_public_key ephemeral)) owns.looks_up
            ∙ ap
                (λ t.
                  open_at k hdr (k.get_public_key ephemeral) sk
                    (get_elem? (visible_positions k 0 t) owns.index))
                receivers
            ∙ ap (open_at k hdr (k.get_public_key ephemeral) sk)
                (at ∙ ap some {x = 0 + p} {y = p} (omega arith))
            ∙ ap (λ t. open_payload_key k hdr (k.get_public_key ephemeral) sk p (get_elem? t p))
                receivers
            ∙ ap (open_payload_key k hdr (k.get_public_key ephemeral) sk p) (
                stands
                ∙ ap some (
                    is_entry
                    ∙ ap (λ t. entry k version known ephemeral payload_key t q) {x = 0 + p} {y = p}
                        (omega arith)
                    ∙ ap (entry k version known ephemeral payload_key p) mine))
            ∙ open_payload_key-ok hdr sk p same,
      )
