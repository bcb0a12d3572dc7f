-- ===== src/Frame.antt =====
-- frame.go: the header and the footer of an armored message. A string is the list of its bytes. The
-- regular expression and `strings.TrimSpace` are written out for bytes below 128, which is what the
-- frames of the armor reader hold.
pub mod Words
pub mod RoundTrip
use saltpack.Base.{
  ℕ, ◌+◌, ◌-◌, Bool, true, false, not, ◌&&◌, ◌||◌, List, [], ◌∷◌, ◌++◌, map, length, take, drop,
  get_or, ltb, leb, ◌==◌, eq_int, eq_bytes, if◌then◌else◌,
}
use saltpack.Const.{
  codes, MessageType, format_name, message_type_encryption, message_type_attached_signature,
  message_type_detached_signature, encryption_armor_string, signed_armor_string,
  detached_signature_armor_string,
}
use saltpack.Errors.{Result, ok, err, ◌>>=◌, ◌>>◌, fail_if, bad_frame}

-- `headerMarker` and `footerMarker`
abbrev pub header_marker : List ℕ
header_marker = codes "BEGIN"

abbrev pub footer_marker : List ℕ
footer_marker = codes "END"

abbrev pub max_frame_length : ℕ
max_frame_length = 512

abbrev pub max_brand_length : ℕ
max_brand_length = 128

-- The slice that is taken, and what is left of the other.
unfoldable pub pop {ℓ} : {A : Type ℓ} → List A → ℕ → List A × List A
pop v n = (drop (length v - n) v, take (length v - n) v)

unfoldable pub shift {ℓ} : {A : Type ℓ} → List A → ℕ → List A × List A
shift v n = (take n v, drop n v)

-- `strings.ToUpper`
abbrev pub to_upper : List ℕ → List ℕ
to_upper s = map (λ c. if leb 97 c && leb c 122 then c - 32 else c) s

-- `strings.Join(words, " ")`
abbrev pub join : List (List ℕ) → List ℕ
join [] = []
join (w ∷ []) = w
join (w ∷ v ∷ ws) = w ++ 32 ∷ join (v ∷ ws)

unfoldable pub get_string_for_type : MessageType → List ℕ
get_string_for_type typ =
    if eq_int typ message_type_encryption
    then encryption_armor_string
    else if eq_int typ message_type_attached_signature
    then signed_armor_string
    else if eq_int typ message_type_detached_signature
    then detached_signature_armor_string
    else []

-- `which`, the brand unless it is empty, the format and what the type is called.
abbrev pub frame_words : List ℕ → List ℕ → List ℕ → List (List ℕ)
frame_words which [] sffx = which ∷ to_upper format_name ∷ sffx ∷ []
frame_words which (b ∷ brand) sffx = which ∷ (b ∷ brand) ∷ to_upper format_name ∷ sffx ∷ []

unfoldable pub make_frame : List ℕ → MessageType → List ℕ → List ℕ
make_frame which typ brand =
    let sffx = get_string_for_type typ in
    if length sffx == 0 then sffx else join (frame_words which brand sffx)

unfoldable pub make_armor_header : MessageType → List ℕ → List ℕ
unfolding make_frame
make_armor_header typ brand = make_frame header_marker typ brand

unfoldable pub make_armor_footer : MessageType → List ℕ → List ℕ
unfolding make_frame
make_armor_footer typ brand = make_frame footer_marker typ brand

-- The set `[>\n\r\t ]`.
abbrev pub is_separator : ℕ → Bool
is_separator c = c == 62 || (c == 10 || (c == 13 || (c == 9 || c == 32)))

-- `re.ReplaceAllString(m, " ")`; the flag says that the run in front has been replaced.
unfoldable pub collapse : Bool → List ℕ → List ℕ
collapse replaced [] = []
collapse replaced (c ∷ cs) =
    let inside = collapse true cs in
    let outside = collapse false cs in
    if is_separator c then if replaced then inside else 32 ∷ inside else c ∷ outside

abbrev pub is_space : ℕ → Bool
is_space c = (leb 9 c && leb c 13) || c == 32

unfoldable pub trim_left : List ℕ → List ℕ
trim_left [] = []
trim_left (c ∷ cs) = let rest = trim_left cs in if is_space c then rest else c ∷ cs

unfoldable pub trim_right : List ℕ → List ℕ
trim_right [] = []
trim_right (c ∷ cs) =
    let rest = trim_right cs in if is_space c && length rest == 0 then [] else c ∷ rest

-- `strings.TrimSpace`
unfoldable pub trim_space : List ℕ → List ℕ
unfolding trim_left trim_right
trim_space s = trim_right (trim_left s)

-- `strings.Split(s, " ")`
abbrev pub onto_first : ℕ → List (List ℕ) → List (List ℕ)
onto_first c [] = (c ∷ []) ∷ []
onto_first c (w ∷ ws) = (c ∷ w) ∷ ws

unfoldable pub split : List ℕ → List (List ℕ)
split [] = [] ∷ []
split (c ∷ cs) = let rest = split cs in if c == 32 then [] ∷ rest else onto_first c rest

-- The brand of the words that are left, at most one.
unfoldable pub brand_of : List (List ℕ) → Result (List ℕ)
brand_of [] = ok []
brand_of (brand ∷ v) = do fail_if (ltb max_brand_length (length brand)) bad_frame; ok brand

-- The checks of `parseFrame` on the words of the frame.
unfoldable pub parse_words : List (List ℕ) → List ℕ → List ℕ → Result (List ℕ)
parse_words v sffx hof = do
  fail_if (not (length v == 4) && not (length v == 5)) bad_frame
  let (front, v1) = shift v 1
  fail_if (not (eq_bytes (get_or front 0 []) hof)) bad_frame
  let (tmp, v2) = pop v1 2
  fail_if (not (eq_bytes (join tmp) sffx)) bad_frame
  let (spfn, v3) = pop v2 1
  fail_if (not (eq_bytes (get_or spfn 0 []) (to_upper format_name))) bad_frame
  brand_of v3

unfoldable pub parse_frame : List ℕ → MessageType → List ℕ → Result (List ℕ)
parse_frame m typ hof =
    let sffx = get_string_for_type typ in
    do
      fail_if (ltb max_frame_length (length m)) bad_frame
      fail_if (length sffx == 0) bad_frame
      parse_words (split (trim_space (collapse false m))) sffx hof
