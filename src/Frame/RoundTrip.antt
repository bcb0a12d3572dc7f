-- ===== src/Frame/RoundTrip.antt =====
-- frame.go: `parseFrame` on the frames of `makeFrame`.
use saltpack.Base.{
  ℕ, ◌+◌, ◌≤◌, ◌≡◌, refl, ap, ◌∙◌, arith, Bool, true, false, not, ◌&&◌, List, [], ◌∷◌, ◌++◌, length,
  length-append, All, ◌==◌, ltb, le→ltb, eq_bytes, eq_bytes_iff, ◌⊎◌, inl, inr, if◌then◌else◌,
}
use saltpack.Const.{
  codes, MessageType, format_name, message_type_encryption, message_type_attached_signature,
  message_type_detached_signature,
}
use saltpack.Errors.{ok, ◌>>◌, >>=_ok, fail_if, bad_frame}
use saltpack.Frame.{
  header_marker, footer_marker, is_separator, is_space, max_frame_length, max_brand_length, shift,
  pop, to_upper, join, get_string_for_type, frame_words, make_frame, trim_space, collapse, split,
  brand_of, parse_words, parse_frame,
}
use saltpack.Frame.Words.{IsPlain, IsWord, collapse-join, trim_space-join, split-join}

-- The types of message that have a frame.
abbrev pub IsFramed : MessageType → Type 0
IsFramed typ =
    (typ ≡ message_type_encryption)
    ⊎ (typ ≡ message_type_attached_signature)
    ⊎ (typ ≡ message_type_detached_signature)

both : (x y z : Bool) → (not x && (not y && z)) ≡ true → (x ≡ false) × (y ≡ false) × (z ≡ true)
both x y z e = ground arith

abbrev all_plain : List ℕ → Bool
all_plain [] = true
all_plain (c ∷ cs) = not (is_separator c) && (not (is_space c) && all_plain cs)

all_plain_sound : (w : List ℕ) → all_plain w ≡ true → All IsPlain w
all_plain_sound [] e = tt
all_plain_sound (c ∷ w) e =
    let (first, second, rest) = both (is_separator c) (is_space c) (all_plain w) e in
    ((first, second), all_plain_sound w rest)

word : (w : List ℕ) → all_plain w ≡ true → 1 ≤ length w → IsWord w
word w e h = (h, all_plain_sound w e)

length-step :
    (w v : List ℕ) (ws : List (List ℕ))
    → length (join (w ∷ v ∷ ws)) ≡ length w + 1 + length (join (v ∷ ws))
length-step w v ws = length-append w (32 ∷ join (v ∷ ws)) ∙ omega arith

same : (xs : List ℕ) → eq_bytes xs xs ≡ true
same xs = (eq_bytes_iff xs xs).1 refl

module _ (which a b : List ℕ) (is_which : IsWord which) (is_a : IsWord a) (is_b : IsWord b)
    (short_which : length which ≤ 100) (short_a : length a ≤ 100) (short_b : length b ≤ 100) where
  abbrev sffx : List ℕ
  sffx = a ++ 32 ∷ b

  -- The words of a frame without a brand and with one.
  abbrev words : List ℕ → List (List ℕ)
  words [] = which ∷ to_upper format_name ∷ a ∷ b ∷ []
  words (c ∷ brand) = which ∷ (c ∷ brand) ∷ to_upper format_name ∷ a ∷ b ∷ []

  join-words : (brand : List ℕ) → join (frame_words which brand sffx) ≡ join (words brand)
  join-words [] = refl
  join-words (c ∷ brand) = refl

  format_name-IsWord : IsWord (to_upper format_name)
  format_name-IsWord = word (to_upper format_name) refl (omega arith)

  words-IsWord : (brand : List ℕ) → All IsPlain brand → All IsWord (words brand)
  words-IsWord [] h = (is_which, (format_name-IsWord, (is_a, (is_b, tt))))
  words-IsWord (c ∷ brand) h =
      (is_which, ((omega arith, h), (format_name-IsWord, (is_a, (is_b, tt)))))

  -- The words come back.
  words_lem :
      (brand : List ℕ)
      → All IsPlain brand
      → split (trim_space (collapse false (join (words brand)))) ≡ words brand
  words_lem [] h =
      let all = words-IsWord [] h in
      ap (λ t. split (trim_space t)) (collapse-join (words []) all)
      ∙ ap split (trim_space-join (words []) all)
      ∙ split-join which (to_upper format_name ∷ a ∷ b ∷ []) all
  words_lem (c ∷ brand) h =
      let all = words-IsWord (c ∷ brand) h in
      ap (λ t. split (trim_space t)) (collapse-join (words (c ∷ brand)) all)
      ∙ ap split (trim_space-join (words (c ∷ brand)) all)
      ∙ split-join which ((c ∷ brand) ∷ to_upper format_name ∷ a ∷ b ∷ []) all

  passes : (xs : List ℕ) → fail_if (not (eq_bytes xs xs)) bad_frame ≡ ok tt
  passes xs = ap (λ t. fail_if (not t) bad_frame) (same xs)

  parse_words-words :
      (brand : List ℕ)
      → length brand ≤ max_brand_length
      → parse_words (words brand) sffx which ≡ ok brand
  unfolding parse_words shift pop brand_of
  parse_words-words [] h = >>=_ok _ (passes which) ∙ >>=_ok _ (passes sffx)
  parse_words-words (c ∷ brand) h =
      >>=_ok _ (passes which)
      ∙ >>=_ok _ (passes sffx)
      ∙ ap (λ t. fail_if t bad_frame >> ok (c ∷ brand))
          (le→ltb max_brand_length (length (c ∷ brand)) h)

  length-join :
      (brand : List ℕ)
      → length (join (words brand)) ≤ length which + length brand + 12 + length sffx
  length-join [] = omega (
    arith,
    length-step which (to_upper format_name) (a ∷ b ∷ []),
    length-step (to_upper format_name) a (b ∷ []),
  )
  length-join (c ∷ brand) = omega (
    arith,
    length-step which (c ∷ brand) (to_upper format_name ∷ a ∷ b ∷ []),
    length-step (c ∷ brand) (to_upper format_name) (a ∷ b ∷ []),
    length-step (to_upper format_name) a (b ∷ []),
  )

  nonzero : (n : ℕ) → 1 ≤ n → (n == 0) ≡ false
  nonzero n h = ground arith

  frame_lem :
      (typ : MessageType) (brand : List ℕ)
      → get_string_for_type typ ≡ sffx
      → All IsPlain brand
      → length brand ≤ max_brand_length
      → parse_frame (make_frame which typ brand) typ which ≡ ok brand
  unfolding parse_frame make_frame
  frame_lem typ brand e plain h =
      let size : length sffx ≡ length a + 1 + length b = length-append a (32 ∷ b) ∙ omega arith in
      let some_sffx = nonzero (length sffx) (omega (arith, size)) in
      let line : join (frame_words which brand sffx) ≡ join (words brand) = join-words brand in
      ap
        (λ s.
          fail_if
            (ltb max_frame_length
              (length (if length s == 0 then s else join (frame_words which brand s))))
            bad_frame
          >> (fail_if (length s == 0) bad_frame
              >> parse_words
                  (split (
                    trim_space (
                      collapse false
                        (if length s == 0 then s else join (frame_words which brand s)))))
                  s which))
        e
      ∙ ap
          (λ t.
            fail_if
              (ltb max_frame_length
                (length (if t then sffx else join (frame_words which brand sffx))))
              bad_frame
            >> (fail_if t bad_frame
                >> parse_words
                    (split (
                      trim_space
                        (collapse false (if t then sffx else join (frame_words which brand sffx)))))
                    sffx which))
          some_sffx
      ∙ ap
          (λ t.
            fail_if (ltb max_frame_length (length t)) bad_frame
            >> parse_words (split (trim_space (collapse false t))) sffx which)
          line
      ∙ ap
          (λ t.
            fail_if t bad_frame
            >> parse_words (split (trim_space (collapse false (join (words brand))))) sffx which)
          (le→ltb max_frame_length (length (join (words brand)))
            (omega (arith, length-join brand, size)))
      ∙ ap (λ ws. parse_words ws sffx which) (words_lem brand plain)
      ∙ parse_words-words brand h

pub parse_frame-make_frame :
    (which : List ℕ) (typ : MessageType) (brand : List ℕ)
    → IsWord which
    → length which ≤ 100
    → IsFramed typ
    → All IsPlain brand
    → length brand ≤ max_brand_length
    → parse_frame (make_frame which typ brand) typ which ≡ ok brand
unfolding get_string_for_type
parse_frame-make_frame which typ brand is_which short (inl e) plain h =
    frame_lem which (codes "ENCRYPTED") (codes "MESSAGE") is_which
      (word (codes "ENCRYPTED") refl (omega arith)) (word (codes "MESSAGE") refl (omega arith))
      short (omega arith) (omega arith) typ brand (ap get_string_for_type e) plain h
parse_frame-make_frame which typ brand is_which short (inr (inl e)) plain h =
    frame_lem which (codes "SIGNED") (codes "MESSAGE") is_which
      (word (codes "SIGNED") refl (omega arith)) (word (codes "MESSAGE") refl (omega arith)) short
      (omega arith) (omega arith) typ brand (ap get_string_for_type e) plain h
parse_frame-make_frame which typ brand is_which short (inr (inr e)) plain h =
    frame_lem which (codes "DETACHED") (codes "SIGNATURE") is_which
      (word (codes "DETACHED") refl (omega arith)) (word (codes "SIGNATURE") refl (omega arith))
      short (omega arith) (omega arith) typ brand (ap get_string_for_type e) plain h

pub header_marker-IsWord : IsWord header_marker
header_marker-IsWord = word header_marker refl (omega arith)

pub footer_marker-IsWord : IsWord footer_marker
footer_marker-IsWord = word footer_marker refl (omega arith)
