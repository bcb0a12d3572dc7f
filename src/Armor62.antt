-- ===== src/Armor62.antt =====
-- armor62.go: sealing, and the check of the header and the footer of an armored message.
use saltpack.Base.{
  ℕ, ◌≡◌, refl, ap, ◌∙◌, eq_bytes_iff, if◌then◌else◌, ◌≤◌, arith, Bool, true, false, not, List,
  length, All, eq_bytes,
}
use saltpack.Const.{MessageType}
use saltpack.Errors.{Result, ok, err, ◌>>=◌, ◌>>◌, >>=_ok, fail_if, bad_frame}
use saltpack.Radix.{IsByte}
use saltpack.Basex.{Rounding, base62_std_encoding, encode_to_string}
use saltpack.Basex.Lengths.{IsValid}
use saltpack.Armor.{ArmorParams, ArmorEncoderStream, new_armor_encoder_stream, armor_seal}
use saltpack.Armor.Spacing.{IsSpaced}
use saltpack.Armor.Whole.{armored, armor_seal-IsSpaced}
use saltpack.Frame.{header_marker, footer_marker, max_brand_length, make_frame, parse_frame}
use saltpack.Frame.Words.{IsPlain}
use saltpack.Frame.RoundTrip.{
  IsFramed, header_marker-IsWord, footer_marker-IsWord, parse_frame-make_frame,
}

module _ (r : ℕ → Rounding) where
  abbrev pub armor62_params : ArmorParams
  armor62_params = record {
    bytes_per_word = 15;
    words_per_line = 200;
    punctuation = 46;
    encoding = base62_std_encoding r;
  }

  -- `encoded` is what the writer holds already.
  unfoldable pub new_armor62_encoder_stream : List ℕ → MessageType → List ℕ → ArmorEncoderStream
  new_armor62_encoder_stream encoded typ brand =
      new_armor_encoder_stream encoded (make_frame header_marker typ brand)
        (make_frame footer_marker typ brand) armor62_params

  unfoldable pub armor62_seal : List ℕ → MessageType → List ℕ → Result (List ℕ)
  armor62_seal plaintext typ brand =
      armor_seal plaintext (make_frame header_marker typ brand) (make_frame footer_marker typ brand)
        armor62_params

unfoldable pub check_armor62 : List ℕ → List ℕ → MessageType → Result (List ℕ)
check_armor62 hdr ftr typ = do
  brand ← parse_frame hdr typ header_marker
  b2 ← parse_frame ftr typ footer_marker
  fail_if (not (eq_bytes b2 brand)) bad_frame
  ok brand

pub check_armor62-make_frame :
    (typ : MessageType) (brand b2 : List ℕ)
    → IsFramed typ
    → All IsPlain brand
    → length brand ≤ max_brand_length
    → All IsPlain b2
    → length b2 ≤ max_brand_length
    → check_armor62 (make_frame header_marker typ brand) (make_frame footer_marker typ b2) typ
      ≡ (if eq_bytes b2 brand then ok brand else err bad_frame)
unfolding check_armor62
check_armor62-make_frame typ brand b2 is_framed plain h plain2 h2 =
    >>=_ok _ (
      parse_frame-make_frame header_marker typ brand header_marker-IsWord (omega arith) is_framed
        plain h)
    ∙ >>=_ok _ (
        parse_frame-make_frame footer_marker typ b2 footer_marker-IsWord (omega arith) is_framed
          plain2 h2)
    ∙ tested (eq_bytes b2 brand)
  where
    tested :
        (b : Bool)
        → (fail_if (not b) bad_frame >> ok brand) ≡ (if b then ok brand else err bad_frame)
    tested true = refl
    tested false = refl

pub armor62_seal_lem :
    (r : ℕ → Rounding) (plaintext : List ℕ) (typ : MessageType) (brand : List ℕ)
    → IsValid (base62_std_encoding r)
    → All IsByte plaintext
    → IsFramed typ
    → All IsPlain brand
    → length brand ≤ max_brand_length
    → (header : List ℕ) × (footer : List ℕ) × (body : List ℕ) × (chars : List ℕ) × (armor62_seal r
          plaintext typ brand
        ≡ ok (armored (armor62_params r) header footer body))
      × (check_armor62 header footer typ ≡ ok brand)
      × IsSpaced chars body
      × (encode_to_string (base62_std_encoding r) plaintext ≡ ok chars)
unfolding armor62_seal
armor62_seal_lem r plaintext typ brand v is_bytes is_framed plain h =
    let header = make_frame header_marker typ brand in
    let footer = make_frame footer_marker typ brand in
    let (body, chars, sealed, spaced, is_encoding) =
      armor_seal-IsSpaced (armor62_params r) v (omega arith) (omega arith) plaintext header footer
        is_bytes in
    (
      header,
      footer,
      body,
      chars,
      sealed,
      check_armor62-make_frame typ brand brand is_framed plain h plain h
          ∙ ap (λ b. if b then ok brand else err bad_frame) ((eq_bytes_iff brand brand).1 refl),
      spaced,
      is_encoding,
    )
