-- ===== src/Tests/Reading.antt =====
-- Lengths, encodings, readers, nonces and checks at concrete inputs.
use saltpack.Base.{
  ℕ, ◌≡◌, ◌↔◌, refl, arith, true, false, ◌⊎◌, none, some, List, [], ◌∷◌, replicate, length, pos,
}
use saltpack.Const.{Version, version1, version2}
use saltpack.Errors.{Result, ok, err, panic, eof, bad_version, unexpected_empty_block}
use saltpack.Basex.{base62_std_encoding, encoded_len, decoded_len, encode_to_string}
use saltpack.Basex.Decoding.{decode_string}
use saltpack.Basex.Lengths.{decoded_len-encoded_len}
use saltpack.Basex.RoundTrip.{decode_string-encode_to_string}
use saltpack.Basex.Exact.{exact, base62_std_encoding-IsValid}
use saltpack.ChunkReader.{Chunk, new_chunk_reader, read_all}
use saltpack.ChunkReader.Laws.{last, more, read_all-Yields}
use saltpack.Nonce.{
  nonce_for_chunk_secretbox, nonce_for_payload_key_box, nonce_for_sender_key_secretbox,
}
use saltpack.Nonce.Unique.{
  nonce_for_chunk_secretbox-inj, nonce_for_chunk_signcryption-inj, nonce_for_mac_key_box_v2-inj,
}
use saltpack.Common.{
  assert_encoded_chunk_state, check_decoded_chunk_state, check_known_major_version,
}
use saltpack.Common.Chunks.{
  IsChunk, assert_encoded_chunk_state-check_decoded_chunk_state, check_known_major_version_iff,
}

decode_string-encode_to_string_example :
    (s : List ℕ) × (encode_to_string (base62_std_encoding exact) (104 ∷ 105 ∷ 255 ∷ []) ≡ ok s)
    × (length s ≡ encoded_len (base62_std_encoding exact) 3)
    × (decode_string (base62_std_encoding exact) s ≡ ok (104 ∷ 105 ∷ 255 ∷ [], none))
decode_string-encode_to_string_example =
    decode_string-encode_to_string (base62_std_encoding exact) base62_std_encoding-IsValid
      (104 ∷ 105 ∷ 255 ∷ []) (omega arith, (omega arith, (omega arith, tt)))

decoded_len-encoded_len_example :
    decoded_len (base62_std_encoding exact) (encoded_len (base62_std_encoding exact) 75) ≡ 75
decoded_len-encoded_len_example =
    decoded_len-encoded_len (base62_std_encoding exact) base62_std_encoding-IsValid 75

abbrev next_of : List (List ℕ) → Result Chunk × List (List ℕ)
next_of [] = (ok (record { bytes = []; error = some eof }), [])
next_of (c ∷ cs) = (ok (record { bytes = c; error = none }), cs)

read_all-Yields_example :
    read_all next_of 6 (λ i. 2) 0 [] (new_chunk_reader next_of ((1 ∷ 2 ∷ 3 ∷ []) ∷ (4 ∷ []) ∷ []))
    ≡ ok (1 ∷ 2 ∷ 3 ∷ 4 ∷ [], none)
read_all-Yields_example =
    read_all-Yields next_of ((1 ∷ 2 ∷ 3 ∷ []) ∷ (4 ∷ []) ∷ []) (1 ∷ 2 ∷ 3 ∷ 4 ∷ []) eof (λ i. 2) 6
      (more 1 (2 ∷ 3 ∷ []) refl (more 4 [] refl (last [] eof refl))) (λ i. omega arith)
      (omega arith)

abbrev some_hash : List ℕ
some_hash = replicate 64 7

nonce_for_chunk_signcryption-inj_example : (true ≡ true) × (◌≡◌ {A = ℕ} 3 3)
nonce_for_chunk_signcryption-inj_example =
    nonce_for_chunk_signcryption-inj some_hash true true 3 3 (omega arith) (omega arith)
      (omega arith) refl

nonce_for_mac_key_box_v2-inj_example : (false ≡ false) × (◌≡◌ {A = ℕ} 1 1)
nonce_for_mac_key_box_v2-inj_example =
    nonce_for_mac_key_box_v2-inj some_hash false false 1 1 (omega arith) (omega arith) (omega arith)
      refl

nonce_for_chunk_secretbox-inj_example :
    (nonce_for_chunk_secretbox 3 ≡ nonce_for_chunk_secretbox 4 → ◌≡◌ {A = ℕ} 3 4)
    × ¬ (nonce_for_payload_key_box version1 4 ≡ ok (nonce_for_chunk_secretbox 3))
    × ¬ (nonce_for_chunk_secretbox 3 ≡ nonce_for_sender_key_secretbox)
nonce_for_chunk_secretbox-inj_example =
    nonce_for_chunk_secretbox-inj version1 3 4 (omega arith) (omega arith)

assert_encoded_chunk_state-check_decoded_chunk_state_example :
    ((assert_encoded_chunk_state version2 (7 ∷ 8 ∷ 9 ∷ []) 3 2 true ≡ ok tt)
      ↔ IsChunk version2 0 2 true)
    × ((assert_encoded_chunk_state version2 (7 ∷ 8 ∷ 9 ∷ []) 3 2 true ≡ panic)
        ↔ ¬ IsChunk version2 0 2 true)
    × ((check_decoded_chunk_state version2 [] 3 true ≡ ok tt) ↔ IsChunk version2 0 2 true)
    × ((check_decoded_chunk_state version2 [] 3 true ≡ err unexpected_empty_block)
        ↔ ((version2.major ≡ pos 2) × ¬ IsChunk version2 0 2 true))
    × ((check_decoded_chunk_state version2 [] 3 true ≡ panic)
        ↔ (¬ (version2.major ≡ pos 2) × ¬ IsChunk version2 0 2 true))
assert_encoded_chunk_state-check_decoded_chunk_state_example =
    assert_encoded_chunk_state-check_decoded_chunk_state version2 [] (7 ∷ 8 ∷ 9 ∷ []) 3 2 true refl
      (omega arith)

abbrev version_3 : Version
version_3 = record { major = pos 3; minor = pos 1 }

check_known_major_version_iff_example :
    ((check_known_major_version version_3 ≡ ok tt) ↔ ((pos 3 ≡ pos 1) ⊎ (pos 3 ≡ pos 2)))
    × ((check_known_major_version version_3 ≡ ok tt)
        ⊎ (check_known_major_version version_3 ≡ err (bad_version version_3)))
check_known_major_version_iff_example = check_known_major_version_iff version_3
