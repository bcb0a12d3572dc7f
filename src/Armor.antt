-- ===== src/Armor.antt =====
-- armor.go: the encoder of an armored stream. The writers are buffers that take all that they are
-- given. The punctuation is below 128, where `%c` writes one byte.
pub mod Spacing
pub mod Whole
use saltpack.Base.{
  ℕ, zero, suc, ◌+◌, ◌%◌, List, [], ◌∷◌, ◌++◌, length, take, drop, ltb, ◌==◌, if◌then◌else◌,
}
use saltpack.Errors.{Result, ok, panic, ◌>>=◌}
use saltpack.Basex.{Encoding}
use saltpack.Basex.Streaming
use saltpack.Basex.Streaming.{Encoder, new_encoder}

pub record ArmorParams : Type 0 where
  pub bytes_per_word : ℕ
  pub words_per_line : ℕ
  pub punctuation : ℕ
  pub encoding : Encoding

-- The buffer `buf` is the writer under the encoder, so that what it holds is `encoder.w`.
pub record ArmorEncoderStream : Type 0 where
  pub encoder : Encoder
  pub footer : List ℕ
  pub encoded : List ℕ
  pub n_words : ℕ
  pub params : ArmorParams

-- What follows word number `n_words`: a line feed if it ends a line, or a space. A remainder by zero
-- panics.
unfoldable pub separator : ArmorParams → ℕ → Result ℕ
separator params n_words =
    if params.words_per_line == 0
    then panic
    else ok (if n_words % params.words_per_line == 0 then 10 else 32)

-- A round writes a word of one byte at least, so that the length of the buffer is enough fuel for
-- words of a length above 0; with words of length 0 the code does not return.
unfoldable pub space_and_output_buffer : ℕ → ArmorEncoderStream → Result ArmorEncoderStream
space_and_output_buffer zero s =
    if ltb s.params.bytes_per_word (length s.encoder.w) then panic else ok s
space_and_output_buffer (suc fuel) s =
    let n_words = s.n_words + 1 in
    let again = do
      sep ← separator s.params n_words
      space_and_output_buffer fuel (record s {
        encoder = record s.encoder { w = drop s.params.bytes_per_word s.encoder.w };
        encoded = s.encoded ++ (take s.params.bytes_per_word s.encoder.w ++ sep ∷ []);
        n_words = n_words;
      })
    in if ltb s.params.bytes_per_word (length s.encoder.w) then again else ok s

unfoldable pub write : List ℕ → ArmorEncoderStream → Result ArmorEncoderStream
write b s = do
  encoder ← Streaming.write s.params.encoding b s.encoder
  space_and_output_buffer (length encoder.w) (record s { encoder = encoder })

-- What stands between a last word of `len` bytes and the punctuation.
unfoldable pub padding : ArmorParams → ℕ → ℕ → Result (List ℕ)
padding params n_words len =
    let full = do sep ← separator params n_words; ok (sep ∷ [])
    in if len == params.bytes_per_word then full else ok []

unfoldable pub close : ArmorEncoderStream → Result ArmorEncoderStream
close s = do
  encoder ← Streaming.close s.params.encoding s.encoder
  t ← space_and_output_buffer (length encoder.w) (record s { encoder = encoder })
  pad ← padding t.params (t.n_words + 1) (length t.encoder.w)
  ok (record t {
    encoded =
        t.encoded
        ++ (t.encoder.w
            ++ (pad ++ t.params.punctuation ∷ 32 ∷ (t.footer ++ t.params.punctuation ∷ 10 ∷ [])));
    n_words = t.n_words + 1;
  })

-- `encoded` is what the writer holds already.
unfoldable pub new_armor_encoder_stream :
    List ℕ → List ℕ → List ℕ → ArmorParams → ArmorEncoderStream
new_armor_encoder_stream encoded header footer params = record {
  encoder = new_encoder;
  footer = footer;
  encoded = encoded ++ (header ++ params.punctuation ∷ 32 ∷ []);
  n_words = 0;
  params = params;
}

unfoldable pub armor_seal : List ℕ → List ℕ → List ℕ → ArmorParams → Result (List ℕ)
unfolding new_armor_encoder_stream
armor_seal plaintext header footer params = do
  s ← write plaintext (new_armor_encoder_stream [] header footer params)
  t ← close s
  ok t.encoded
