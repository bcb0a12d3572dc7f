-- ===== src/Decrypt.antt =====
-- decrypt.go: the keys of a message, and its blocks.
pub mod MacKeys
pub mod Blocks
pub mod Header
pub mod Chunks
pub mod Visible
pub mod Senders
pub mod RoundTrip
use saltpack.Base.{
  ℕ, ◌+◌, Bool, true, false, not, Option, none, some, List, [], ◌∷◌, ◌++◌, length, get_elem?, ◌==◌,
  pos, eq_int, eq_bytes, if◌then◌else◌,
}
use saltpack.Const.{Version}
use saltpack.Errors.{
  Result, ok, err, panic, ◌>>=◌, ◌>>◌, fail_if, is_eof, unexpected_eof, bad_lookup, bad_tag,
  bad_ciphertext,
}
use saltpack.Key.{Crypto, BoxKeys, secretbox_overhead, symmetric_key_from_slice}
use saltpack.Nonce.{
  nonce_for_chunk_secretbox, nonce_for_payload_key_box, nonce_for_mac_key_box_v1,
  nonce_for_mac_key_box_v2,
}
use saltpack.Packets.{
  Codecs, ReceiverKeys, EncryptionHeader, MsgpackStream, read_packet, assert_end_of_stream,
}
use saltpack.Common.{
  check_block_number, check_decoded_chunk_state, compute_payload_hash,
  compute_payload_authenticator, compute_mac_key_single, sum512_truncate256, prev_uint64,
}
use saltpack.ChunkReader.{Chunk}

-- What `readEncryptionBlock` returns.
pub record ReadBlock : Type 0 where
  pub ciphertext : List ℕ
  pub authenticators : List (List ℕ)
  pub is_final : Bool
  pub seqno : ℕ

module _ (k : BoxKeys) where
  -- `Keyring`. A lookup that finds nothing, with a negative index or without a key, is none.
  pub record Keyring : Type 0 where
    pub lookup_box_secret_key : List (List ℕ) → Option (ℕ × k.Secret)
    pub lookup_box_public_key : List ℕ → Option k.Public
    pub get_all_box_secret_keys : List k.Secret
    pub import_box_ephemeral_key : List ℕ → Option k.Public

  pub record MessageKeyInfo : Type 0 where
    pub sender_key : Option k.Public
    pub sender_is_anon : Bool
    pub receiver_key : Option k.Secret
    pub receiver_is_anon : Bool
    pub named_receivers : List (List ℕ)
    pub num_anon_receivers : ℕ

  -- A secret key that opens a payload key box, the payload key, and the position of the box.
  pub record Found : Type 0 where
    pub secret_key : k.Secret
    pub payload_key : List ℕ
    pub position : ℕ

  -- The key IDs that a header names, and their positions in it: `kids` and `tab`.
  unfoldable pub visible_kids : List ReceiverKeys → List (List ℕ)
  visible_kids [] = []
  visible_kids (r ∷ rs) =
      let rest = visible_kids rs in
      if length r.receiver_kid == 0 then rest else r.receiver_kid ∷ rest

  unfoldable pub visible_positions : ℕ → List ReceiverKeys → List ℕ
  visible_positions i [] = []
  visible_positions i (r ∷ rs) =
      let rest = visible_positions (i + 1) rs in
      if length r.receiver_kid == 0 then rest else i ∷ rest

  unfoldable pub open_payload_key :
      EncryptionHeader → k.Public → k.Secret → ℕ → Option ReceiverKeys → Result (Option Found)
  open_payload_key hdr ephemeral_key sk orig none = panic
  open_payload_key hdr ephemeral_key sk orig (some r) = do
    nonce ← nonce_for_payload_key_box hdr.version orig
    payload_key_slice ← k.unbox sk ephemeral_key nonce r.payload_key_box
    payload_key ← symmetric_key_from_slice payload_key_slice
    ok (some (record { secret_key = sk; payload_key = payload_key; position = orig }))

  -- A lookup with the index of a key ID that was not asked for is an error.
  unfoldable pub open_at : EncryptionHeader → k.Public → k.Secret → Option ℕ → Result (Option Found)
  open_at hdr ephemeral_key sk none = err bad_lookup
  open_at hdr ephemeral_key sk (some orig) =
      open_payload_key hdr ephemeral_key sk orig (get_elem? hdr.receivers orig)

  unfoldable pub open_visible :
      EncryptionHeader → k.Public → Option (ℕ × k.Secret) → Result (Option Found)
  open_visible hdr ephemeral_key none = ok none
  open_visible hdr ephemeral_key (some (i, sk)) =
      open_at hdr ephemeral_key sk (get_elem? (visible_positions 0 hdr.receivers) i)

  unfoldable pub try_visible_receivers :
      Keyring → EncryptionHeader → k.Public → Result (Option Found)
  try_visible_receivers ring hdr ephemeral_key =
      open_visible hdr ephemeral_key (ring.lookup_box_secret_key (visible_kids hdr.receivers))

  unfoldable pub count_hidden : List ReceiverKeys → ℕ
  count_hidden [] = 0
  count_hidden (r ∷ rs) =
      let rest = count_hidden rs in if length r.receiver_kid == 0 then rest + 1 else rest

  -- What `shared.Unbox` returned for box number `i`: on an error the loop goes on with `rest`.
  unfoldable pub opened_or :
      k.Secret → ℕ → Result (Option Found) → Result (List ℕ) → Result (Option Found)
  opened_or secret_key i rest (ok payload_key_slice) = do
    payload_key ← symmetric_key_from_slice payload_key_slice
    ok (some (record { secret_key = secret_key; payload_key = payload_key; position = i }))
  opened_or secret_key i rest (err e) = rest
  opened_or secret_key i rest panic = panic

  -- The inner loop of `tryHiddenReceivers`, from receiver number `i` on; `next` goes on with the
  -- keys that are left.
  unfoldable pub try_hidden_boxes :
      Version
      → k.Public
      → k.Secret
      → Result (Option Found)
      → ℕ
      → List ReceiverKeys
      → Result (Option Found)
  try_hidden_boxes version ephemeral_key secret_key next i [] = next
  try_hidden_boxes version ephemeral_key secret_key next i (r ∷ rs) =
      let rest = try_hidden_boxes version ephemeral_key secret_key next (i + 1) rs in
      let opened = do
        nonce ← nonce_for_payload_key_box version i
        opened_or secret_key i rest (k.unbox secret_key ephemeral_key nonce r.payload_key_box)
      in if length r.receiver_kid == 0 then opened else rest

  unfoldable pub try_hidden_receivers :
      EncryptionHeader → k.Public → List k.Secret → Result (Option Found)
  try_hidden_receivers hdr ephemeral_key [] = ok none
  try_hidden_receivers hdr ephemeral_key (secret_key ∷ secret_keys) =
      try_hidden_boxes hdr.version ephemeral_key secret_key
        (try_hidden_receivers hdr ephemeral_key secret_keys) 0 hdr.receivers

  module _ (c : Crypto) where
    unfoldable pub compute_mac_key_receiver :
        Version → ℕ → k.Secret → k.Public → k.Public → List ℕ → Result (List ℕ)
    compute_mac_key_receiver version index secret public e_public header_hash =
        if eq_int version.major (pos 1)
        then compute_mac_key_single k secret public (nonce_for_mac_key_box_v1 header_hash)
        else if eq_int version.major (pos 2)
        then (do
          mac ←
              compute_mac_key_single k secret public
                (nonce_for_mac_key_box_v2 header_hash false index)
          e_mac ←
              compute_mac_key_single k secret e_public
                (nonce_for_mac_key_box_v2 header_hash true index)
          ok (sum512_truncate256 c (mac ++ e_mac)))
        else panic

-- `decryptStream` once its header has been read.
pub record DecryptStream : Type 0 where
  pub version : Version
  pub mps : MsgpackStream
  pub payload_key : List ℕ
  pub header_hash : List ℕ
  pub mac_key : List ℕ
  pub position : ℕ

module _ (c : Crypto) where
  -- `authenticators[ds.position]` panics behind the end of the slice.
  unfoldable pub check_authenticator : List ℕ → ℕ → Option (List ℕ) → Result (Unit {0})
  check_authenticator ours seqno none = panic
  check_authenticator ours seqno (some theirs) =
      fail_if (not (eq_bytes ours theirs)) (bad_tag seqno)

  unfoldable pub opened : ℕ → Option (List ℕ) → Result (List ℕ)
  opened seqno none = err (bad_ciphertext seqno)
  opened seqno (some plaintext) = ok plaintext

  unfoldable pub process_block : DecryptStream → ReadBlock → Result (List ℕ)
  process_block ds b =
      let block_num = prev_uint64 b.seqno in
      let nonce = nonce_for_chunk_secretbox block_num in
      do
        check_block_number block_num
        hash ← compute_payload_hash c ds.version ds.header_hash nonce b.ciphertext b.is_final
        check_authenticator (compute_payload_authenticator c ds.mac_key hash) b.seqno
            (get_elem? b.authenticators ds.position)
        opened b.seqno (c.secretbox_open b.ciphertext nonce ds.payload_key)

  module _ (codecs : Codecs) where
    unfoldable pub read_encryption_block :
        Version → MsgpackStream → Result (ReadBlock × MsgpackStream)
    read_encryption_block version mps =
        if eq_int version.major (pos 1)
        then (do
          (eb, seqno, rest) ← read_packet codecs.encryption_block_v1 mps
          ok (
            record {
              ciphertext = eb.payload_ciphertext;
              authenticators = eb.hash_authenticators;
              is_final = length eb.payload_ciphertext == secretbox_overhead;
              seqno = seqno;
            },
            rest,
          ))
        else if eq_int version.major (pos 2)
        then (do
          (eb, seqno, rest) ← read_packet codecs.encryption_block_v2 mps
          ok (
            record {
              ciphertext = eb.block_v1.payload_ciphertext;
              authenticators = eb.block_v1.hash_authenticators;
              is_final = eb.is_final;
              seqno = seqno;
            },
            rest,
          ))
        else panic

    -- `getNextChunk` behind the read of the block, and then with it.
    unfoldable pub checked_chunk : DecryptStream → ReadBlock → Result Chunk
    checked_chunk ds b = do
      chunk ← process_block ds b
      check_decoded_chunk_state ds.version chunk b.seqno b.is_final
      elim b.is_final [
        | false ↦ ok (record { bytes = chunk; error = none })
        | true ↦ do
          e ← assert_end_of_stream codecs ds.mps
          ok (record { bytes = chunk; error = some e })
      ]

    unfoldable pub or_failed : Result Chunk → Result Chunk
    or_failed (ok chunk) = ok chunk
    or_failed (err e) = ok (record { bytes = []; error = some e })
    or_failed panic = panic

    unfoldable pub after_read :
        DecryptStream → Result (ReadBlock × MsgpackStream) → Result Chunk × DecryptStream
    after_read ds (ok (b, rest)) =
        (or_failed (checked_chunk (record ds { mps = rest }) b), record ds { mps = rest })
    after_read ds (err e) = (or_failed (err (if is_eof e then unexpected_eof else e)), ds)
    after_read ds panic = (panic, ds)

    unfoldable pub get_next_chunk : DecryptStream → Result Chunk × DecryptStream
    get_next_chunk ds = after_read ds (read_encryption_block ds.version ds.mps)
