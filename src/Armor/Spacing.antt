-- ===== src/Armor/Spacing.antt =====
-- armor.go: the spaces and line feeds that the encoder puts between the characters.
use saltpack.Base.{
  ℕ, zero, suc, ◌+◌, ◌%◌, ◌≤◌, ◌≡◌, refl, ap, ◌∙◌, subst, arith, Bool, true, false, List, [], ◌∷◌,
  ◌++◌, append-nil, append_assoc, length, length-drop, take, drop, take-append-drop, ltb, ltb→lt,
  ◌==◌, inl, inr, Bool-cases, if◌then◌else◌,
}
use saltpack.Errors.{Result, ok, panic, ◌>>=◌, >>=_ok}
use saltpack.Armor.{ArmorParams, ArmorEncoderStream, separator, space_and_output_buffer, padding}

-- A text that is the characters with spaces and line feeds put in.
pub data IsSpaced : List ℕ → List ℕ → Type 0 where
  nothing : IsSpaced [] []
  character : {cs text : List ℕ} (c : ℕ) → IsSpaced cs text → IsSpaced (c ∷ cs) (c ∷ text)
  space : {cs text : List ℕ} → IsSpaced cs text → IsSpaced cs (32 ∷ text)
  line_feed : {cs text : List ℕ} → IsSpaced cs text → IsSpaced cs (10 ∷ text)

pub IsSpaced-append :
    {cs text ds more : List ℕ}
    → IsSpaced cs text
    → IsSpaced ds more
    → IsSpaced (cs ++ ds) (text ++ more)
IsSpaced-append nothing q = q
IsSpaced-append (character c p) q = character c (IsSpaced-append p q)
IsSpaced-append (space p) q = space (IsSpaced-append p q)
IsSpaced-append (line_feed p) q = line_feed (IsSpaced-append p q)

pub IsSpaced-refl : (cs : List ℕ) → IsSpaced cs cs
IsSpaced-refl [] = nothing
IsSpaced-refl (c ∷ cs) = character c (IsSpaced-refl cs)

not_zero : (n : ℕ) → 1 ≤ n → (n == 0) ≡ false
not_zero n h = ground arith

-- With lines of one word at least, a separator is a space or a line feed.
separator-IsSpaced :
    (params : ArmorParams) (n_words : ℕ)
    → 1 ≤ params.words_per_line
    → (sep : ℕ) × (separator params n_words ≡ ok sep) × IsSpaced [] (sep ∷ [])
unfolding separator
separator-IsSpaced params n_words h =
    let last = n_words % params.words_per_line == 0 in
    (
      if last then 10 else 32,
      ap (λ b. if b then panic else ok (if last then 10 else 32))
          (not_zero params.words_per_line h),
      chosen last,
    )
  where
    chosen : (b : Bool) → IsSpaced [] ((if b then 10 else 32) ∷ [])
    chosen true = line_feed nothing
    chosen false = space nothing

pub padding-IsSpaced :
    (params : ArmorParams) (n_words len : ℕ)
    → 1 ≤ params.words_per_line
    → (pad : List ℕ) × (padding params n_words len ≡ ok pad) × IsSpaced [] pad
unfolding padding
padding-IsSpaced params n_words len h =
    let (sep, e, spaced) = separator-IsSpaced params n_words h in
    chosen (len == params.bytes_per_word) sep e spaced
  where
    chosen :
        (b : Bool) (sep : ℕ)
        → separator params n_words ≡ ok sep
        → IsSpaced [] (sep ∷ [])
        → (pad : List ℕ) × ((if b then (separator params n_words >>= λ t. ok (t ∷ [])) else ok [])
            ≡ ok pad)
          × IsSpaced [] pad
    chosen true sep e spaced = (sep ∷ [], >>=_ok _ e, spaced)
    chosen false sep e spaced = ([], refl, nothing)

module _ (params : ArmorParams) (footer : List ℕ) where
  -- A stream by its parts: what its buffer, its encoder and its writer hold, and its words.
  abbrev pub at : List ℕ → List ℕ → List ℕ → ℕ → ArmorEncoderStream
  at w buf encoded n_words = record {
    encoder = record { w = w; buf = buf };
    footer = footer;
    encoded = encoded;
    n_words = n_words;
    params = params;
  }

  -- The characters `front` have been written with separators in `text`, behind `intro`.
  abbrev Spaces : List ℕ → List ℕ → List ℕ → List ℕ → Result ArmorEncoderStream → Type 0
  Spaces intro buf front w out =
      (front' : List ℕ) × (text' : List ℕ) × (w' : List ℕ) × (n' : ℕ) × (out
        ≡ ok (at w' buf (intro ++ text') n'))
      × IsSpaced front' text'
      × (front' ++ w' ≡ front ++ w)

  -- With words of one byte and lines of one word at least, the buffer is written with separators
  -- between its words, up to the last.
  pub space_and_output_buffer_lem :
      1 ≤ params.bytes_per_word
      → 1 ≤ params.words_per_line
      → (fuel : ℕ) (intro w buf front text : List ℕ) (n : ℕ) → length w ≤ fuel
      → IsSpaced front text
      → Spaces intro buf front w (space_and_output_buffer fuel (at w buf (intro ++ text) n))
  unfolding space_and_output_buffer
  space_and_output_buffer_lem hb hl zero intro w buf front text n h spaced = (
    front,
    text,
    w,
    n,
    ap (λ b. if b then panic else ok (at w buf (intro ++ text) n))
        (stays params.bytes_per_word (length w) (omega (arith, h))),
    spaced,
    refl,
  )
    where
      stays : (a b : ℕ) → b ≤ a → ltb a b ≡ false
      stays a b q = ground arith
  space_and_output_buffer_lem hb hl (suc fuel) intro w buf front text n h spaced =
      let b = params.bytes_per_word in
      let (sep, e, gap) = separator-IsSpaced params (n + 1) hl in
      let again = separator params (n + 1) >>= λ t.
      space_and_output_buffer fuel
        (at (drop b w) buf ((intro ++ text) ++ (take b w ++ t ∷ [])) (n + 1)) in
      let choice : Bool → Result ArmorEncoderStream =
        λ t. if t then again else ok (at w buf (intro ++ text) n) in
      elim (Bool-cases (ltb b (length w))) [
        | inl more ↦
            let (front', text', w', n', left, spaced', joins) =
              space_and_output_buffer_lem hb hl fuel intro (drop b w) buf (front ++ take b w)
                (text ++ (take b w ++ sep ∷ [])) (n + 1)
                (omega (arith, h, length-drop b w, ltb→lt b (length w) more))
                (IsSpaced-append spaced (
                  subst (λ t. IsSpaced t (take b w ++ sep ∷ [])) (append-nil (take b w))
                    (IsSpaced-append (IsSpaced-refl (take b w)) gap))) in
            (
              front',
              text',
              w',
              n',
              ap choice more
                  ∙ >>=_ok _ e
                  ∙ ap (λ t. space_and_output_buffer fuel (at (drop b w) buf t (n + 1)))
                      (append_assoc intro text (take b w ++ sep ∷ []))
                  ∙ left,
              spaced',
              joins
                  ∙ append_assoc front (take b w) (drop b w)
                  ∙ ap (λ t. front ++ t) (take-append-drop b w),
            )
        | inr last ↦ (front, text, w, n, ap choice last, spaced, refl)
      ]
