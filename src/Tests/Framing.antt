-- ===== src/Tests/Framing.antt =====
-- Frames, the punctuated reader and the encoder of a stream at concrete inputs.
use saltpack.Base.{
  ℕ, ◌≡◌, refl, arith, none, some, List, [], ◌∷◌, length-take, take, drop, take-append-drop, inl,
}
use saltpack.Errors.{ok, err, ◌>>=◌, eof, bad_frame, unexpected_eof}
use saltpack.Const.{message_type_encryption}
use saltpack.Basex.{base62_std_encoding, encode_to_string}
use saltpack.Basex.Exact.{exact, base62_std_encoding-IsValid}
use saltpack.Basex.Streaming
use saltpack.Basex.Streaming.{Encoder, new_encoder, write}
use saltpack.Basex.Streaming.Writes.{Holds, Holds-new_encoder}
use saltpack.Basex.Streaming.Fringe.{write-Holds}
use saltpack.Basex.Streaming.Whole.{write_all-encode_to_string}
use saltpack.Armor.{ArmorEncoderStream, new_armor_encoder_stream, close}
use saltpack.Armor.Spacing.{IsSpaced}
use saltpack.Armor.Whole.{armored, write_all, write_all-IsSpaced}
use saltpack.Armor62.{
  armor62_params, armor62_seal, armor62_seal_lem, check_armor62, check_armor62-make_frame,
}
use saltpack.Frame.{header_marker, footer_marker, make_frame, parse_frame}
use saltpack.Frame.RoundTrip.{parse_frame-make_frame}
use saltpack.PunctuatedReader.{
  Reader, PunctuatedReader, new_punctuated_reader, read, read_until_punctuation,
}
use saltpack.PunctuatedReader.Laws.{IsSource, IsOpen, Reads, remaining, ended, gives}
use saltpack.PunctuatedReader.Segments.{read-Reads}
use saltpack.PunctuatedReader.Until.{read_until_punctuation-finds, read_until_punctuation-fails}

parse_frame-make_frame_example :
    parse_frame
      (make_frame header_marker message_type_encryption (75 ∷ 66 ∷ []))
      message_type_encryption
      header_marker
    ≡ ok (75 ∷ 66 ∷ [])
parse_frame-make_frame_example =
    parse_frame-make_frame header_marker message_type_encryption (75 ∷ 66 ∷ [])
      (
        omega arith,
        ((refl, refl), ((refl, refl), ((refl, refl), ((refl, refl), ((refl, refl), tt))))),
      )
      (omega arith) (inl refl) ((refl, refl), ((refl, refl), tt)) (omega arith)

-- `bytes.Buffer`.
abbrev buffer_read : Reader (List ℕ)
buffer_read len [] = (record { copied = []; error = some eof }, [])
buffer_read len (x ∷ xs) = (record { copied = take len (x ∷ xs); error = none }, drop len (x ∷ xs))

buffer_read-IsSource : IsSource buffer_read (λ r. r)
buffer_read-IsSource len [] h = ended [] refl
buffer_read-IsSource len (x ∷ xs) h =
    gives (take len (x ∷ xs)) (drop len (x ∷ xs)) (omega (arith, length-take len (x ∷ xs)))
      (take-append-drop len (x ∷ xs))

abbrev new_reader : List ℕ → PunctuatedReader (List ℕ)
new_reader bytes = new_punctuated_reader buffer_read bytes 46

new_reader-IsOpen : (bytes : List ℕ) → IsOpen buffer_read (λ r. r) (new_reader bytes)
unfolding new_punctuated_reader
new_reader-IsOpen bytes = record { free_segment = tt; kept = inl refl }

read-Reads_example :
    Reads buffer_read
      (λ r. r)
      (new_reader (72 ∷ 46 ∷ 73 ∷ []))
      (read buffer_read 2 (new_reader (72 ∷ 46 ∷ 73 ∷ [])))
read-Reads_example =
    read-Reads buffer_read (λ r. r) buffer_read-IsSource 2 (new_reader (72 ∷ 46 ∷ 73 ∷ []))
      (omega arith) (new_reader-IsOpen (72 ∷ 46 ∷ 73 ∷ []))

read_until_punctuation-finds_example :
    (p' : PunctuatedReader (List ℕ)) × (read_until_punctuation buffer_read 20
        (new_reader (72 ∷ 73 ∷ 46 ∷ 74 ∷ []))
      ≡ (ok (72 ∷ 73 ∷ []), p'))
    × IsOpen buffer_read (λ r. r) p'
    × (p'.punctuation ≡ 46)
    × (remaining buffer_read (λ r. r) p' ≡ 74 ∷ [])
unfolding new_punctuated_reader remaining
read_until_punctuation-finds_example =
    read_until_punctuation-finds buffer_read (λ r. r) buffer_read-IsSource 20
      (new_reader (72 ∷ 73 ∷ 46 ∷ 74 ∷ [])) (72 ∷ 73 ∷ []) (74 ∷ [])
      (new_reader-IsOpen (72 ∷ 73 ∷ 46 ∷ 74 ∷ [])) (refl, (refl, tt)) refl (omega arith)

read_until_punctuation-fails_example :
    (read_until_punctuation buffer_read 20 (new_reader (72 ∷ 73 ∷ []))).0 ≡ err unexpected_eof
unfolding new_punctuated_reader remaining
read_until_punctuation-fails_example =
    read_until_punctuation-fails buffer_read (λ r. r) buffer_read-IsSource 20
      (new_reader (72 ∷ 73 ∷ [])) (new_reader-IsOpen (72 ∷ 73 ∷ [])) (refl, (refl, tt))
      (omega arith)

write_all-encode_to_string_example :
    (e : Encoder) × ((Streaming.write_all
          (base62_std_encoding exact)
          ((104 ∷ []) ∷ (105 ∷ 255 ∷ []) ∷ [])
          new_encoder
        >>= λ t. Streaming.close (base62_std_encoding exact) t)
      ≡ ok e)
    × (encode_to_string (base62_std_encoding exact) (104 ∷ 105 ∷ 255 ∷ []) ≡ ok e.w)
write_all-encode_to_string_example =
    write_all-encode_to_string (base62_std_encoding exact) base62_std_encoding-IsValid
      ((104 ∷ []) ∷ (105 ∷ 255 ∷ []) ∷ [])
      ((omega arith, tt), ((omega arith, (omega arith, tt)), tt))

write-Holds_example :
    (e' : Encoder) × (write (base62_std_encoding exact) (104 ∷ 105 ∷ []) new_encoder ≡ ok e')
    × Holds (base62_std_encoding exact) base62_std_encoding-IsValid (104 ∷ 105 ∷ []) e'
write-Holds_example =
    write-Holds (base62_std_encoding exact) base62_std_encoding-IsValid [] (104 ∷ 105 ∷ [])
      new_encoder tt (omega arith, (omega arith, tt))
      (Holds-new_encoder (base62_std_encoding exact) base62_std_encoding-IsValid)

check_armor62-make_frame_example :
    check_armor62
      (make_frame header_marker message_type_encryption (75 ∷ 66 ∷ []))
      (make_frame footer_marker message_type_encryption (75 ∷ []))
      message_type_encryption
    ≡ err bad_frame
check_armor62-make_frame_example =
    check_armor62-make_frame message_type_encryption (75 ∷ 66 ∷ []) (75 ∷ []) (inl refl)
      ((refl, refl), ((refl, refl), tt)) (omega arith) ((refl, refl), tt) (omega arith)

write_all-IsSpaced_example :
    (s : ArmorEncoderStream) × (body : List ℕ) × (chars : List ℕ) × ((write_all
          ((104 ∷ []) ∷ (105 ∷ []) ∷ [])
          (new_armor_encoder_stream [] (72 ∷ []) (70 ∷ []) (armor62_params exact))
        >>= λ t. close t)
      ≡ ok s)
    × (s.encoded ≡ armored (armor62_params exact) (72 ∷ []) (70 ∷ []) body)
    × IsSpaced chars body
    × (encode_to_string (base62_std_encoding exact) (104 ∷ 105 ∷ []) ≡ ok chars)
write_all-IsSpaced_example =
    write_all-IsSpaced (armor62_params exact) base62_std_encoding-IsValid (omega arith)
      (omega arith) [] (72 ∷ []) (70 ∷ []) ((104 ∷ []) ∷ (105 ∷ []) ∷ [])
      ((omega arith, tt), ((omega arith, tt), tt))

armor62_seal_lem_example :
    (header : List ℕ) × (footer : List ℕ) × (body : List ℕ) × (chars : List ℕ) × (armor62_seal exact
        (104 ∷ 105 ∷ [])
        message_type_encryption
        (75 ∷ [])
      ≡ ok (armored (armor62_params exact) header footer body))
    × (check_armor62 header footer message_type_encryption ≡ ok (75 ∷ []))
    × IsSpaced chars body
    × (encode_to_string (base62_std_encoding exact) (104 ∷ 105 ∷ []) ≡ ok chars)
armor62_seal_lem_example =
    armor62_seal_lem exact (104 ∷ 105 ∷ []) message_type_encryption (75 ∷ [])
      base62_std_encoding-IsValid (omega arith, (omega arith, tt)) (inl refl) ((refl, refl), tt)
      (omega arith)
