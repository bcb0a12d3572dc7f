-- ===== src/Armor/Whole.antt =====
-- armor.go: what the encoder has written after any series of writes and its end.
use saltpack.Base.{
  ℕ, ◌+◌, ◌≤◌, ◌≡◌, refl, sym, ap, ◌∙◌, subst, arith, List, [], ◌∷◌, ◌++◌, append-nil, append_assoc,
  length, All, All-append,
}
use saltpack.Errors.{Result, ok, err, panic, ◌>>=◌, >>=_ok}
use saltpack.Radix.{IsByte}
use saltpack.Basex.{encode_to_string}
use saltpack.Basex.Lengths.{IsValid}
use saltpack.Basex.RoundTrip.{encoded}
use saltpack.Blocks.Cut.{concat}
use saltpack.Basex.Streaming
use saltpack.Basex.Streaming.{Encoder, new_encoder}
use saltpack.Basex.Streaming.Writes.{Holds, Holds-new_encoder}
use saltpack.Basex.Streaming.Fringe.{write-Holds}
use saltpack.Basex.Streaming.Whole.{close-Holds, encode_to_string-encoded, All-concat-IsByte}
use saltpack.Basex.Streaming.Prefix.{onto, write-onto, close-onto, without_front}
use saltpack.Armor.{
  ArmorParams, ArmorEncoderStream, write, close, new_armor_encoder_stream, armor_seal,
}
use saltpack.Armor.Spacing.{
  IsSpaced, nothing, IsSpaced-append, IsSpaced-refl, padding-IsSpaced, at,
  space_and_output_buffer_lem,
}

-- Any series of calls of `Write`.
unfoldable pub write_all : List (List ℕ) → ArmorEncoderStream → Result ArmorEncoderStream
write_all [] s = ok s
write_all (b ∷ bs) s = do t ← write b s; write_all bs t

-- A message around its body.
abbrev pub armored : ArmorParams → List ℕ → List ℕ → List ℕ → List ℕ
armored params header footer body =
    header
    ++ params.punctuation
      ∷ 32
      ∷ (body ++ params.punctuation ∷ 32 ∷ (footer ++ params.punctuation ∷ 10 ∷ []))

module _ (params : ArmorParams) (v : IsValid params.encoding) (hb : 1 ≤ params.bytes_per_word)
    (hl : 1 ≤ params.words_per_line) (footer intro : List ℕ) where
  -- A stream that has been given the bytes: the encoder's invariant holds with the characters that
  -- have been written behind the header.
  record Armors (bytes : List ℕ) (s : ArmorEncoderStream) : Type 0 where
    pub w : List ℕ
    pub buf : List ℕ
    pub n_words : ℕ
    pub front : List ℕ
    pub text : List ℕ
    pub is_at : s ≡ at params footer w buf (intro ++ text) n_words
    pub holds : Holds params.encoding v bytes (record { w = front ++ w; buf = buf })
    pub spaced : IsSpaced front text

  write-Armors :
      (bytes b : List ℕ) (s : ArmorEncoderStream)
      → All IsByte bytes
      → All IsByte b
      → Armors bytes s
      → (t : ArmorEncoderStream) × (write b s ≡ ok t) × Armors (bytes ++ b) t
  unfolding write
  write-Armors bytes b s is_bytes is_b a =
      let enc = params.encoding in
      let e : Encoder = record { w = a.w; buf = a.buf } in
      let (e', done, holds) = write-Holds enc v bytes b (onto a.front e) is_bytes is_b a.holds in
      let (u, written, same) =
        without_front a.front (Streaming.write enc b e) e'
          (sym (write-onto enc a.front b e) ∙ done) in
      let (front, text, w, n, spaces, spaced, joins) =
        space_and_output_buffer_lem params footer hb hl (length u.w) intro u.w u.buf a.front a.text
          a.n_words (omega arith) a.spaced in
      (
        at params footer w u.buf (intro ++ text) n,
        ap (write b) a.is_at ∙ >>=_ok _ written ∙ spaces,
        record {
          w = w;
          buf = u.buf;
          n_words = n;
          front = front;
          text = text;
          is_at = refl;
          holds =
              subst (Holds enc v (bytes ++ b))
                (sym same ∙ ap (λ t. record { w = t; buf = u.buf }) (sym joins)) holds;
          spaced = spaced;
        },
      )

  write_all-Armors :
      (bytes : List ℕ) (bs : List (List ℕ)) (s : ArmorEncoderStream)
      → All IsByte bytes
      → All (All IsByte) bs
      → Armors bytes s
      → (t : ArmorEncoderStream) × (write_all bs s ≡ ok t) × Armors (bytes ++ concat bs) t
  unfolding write_all
  write_all-Armors bytes [] s is_bytes is_bs a =
      (s, refl, subst (λ t. Armors t s) (sym (append-nil bytes)) a)
  write_all-Armors bytes (b ∷ bs) s is_bytes is_bs a =
      let (t, first, a') = write-Armors bytes b s is_bytes is_bs.0 a in
      let (u, later, a'') =
        write_all-Armors (bytes ++ b) bs t (All-append IsByte bytes b is_bytes is_bs.0) is_bs.1
          a' in
      (u, >>=_ok _ first ∙ later, subst (λ xs. Armors xs u) (append_assoc bytes b (concat bs)) a'')

  -- The end of a stream that has been given the bytes.
  close-Armors :
      (bytes : List ℕ) (s : ArmorEncoderStream)
      → All IsByte bytes
      → Armors bytes s
      → (t : ArmorEncoderStream) × (body : List ℕ) × (close s ≡ ok t)
        × (t.encoded
            ≡ intro ++ (body ++ params.punctuation ∷ 32 ∷ (footer ++ params.punctuation ∷ 10 ∷ [])))
        × IsSpaced (encoded params.encoding (length bytes) bytes) body
  unfolding close
  close-Armors bytes s is_bytes a =
      let enc = params.encoding in
      let e : Encoder = record { w = a.w; buf = a.buf } in
      let (e', done, whole) = close-Holds enc v bytes (onto a.front e) is_bytes a.holds in
      let (u, closed, same) =
        without_front a.front (Streaming.close enc e) e' (sym (close-onto enc a.front e) ∙ done) in
      let (front, text, w, n, spaces, spaced, joins) =
        space_and_output_buffer_lem params footer hb hl (length u.w) intro u.w u.buf a.front a.text
          a.n_words (omega arith) a.spaced in
      let (pad, padded, gap) = padding-IsSpaced params (n + 1) (length w) hl in
      let end = params.punctuation ∷ 32 ∷ (footer ++ params.punctuation ∷ 10 ∷ []) in
      (
        record {
          encoder = record { w = w; buf = u.buf };
          footer = footer;
          encoded = (intro ++ text) ++ (w ++ (pad ++ end));
          n_words = n + 1;
          params = params;
        },
        text ++ (w ++ pad),
        ap close a.is_at ∙ >>=_ok _ closed ∙ >>=_ok _ spaces ∙ >>=_ok _ padded,
        append_assoc intro text (w ++ (pad ++ end))
            ∙ ap (λ t. intro ++ t)
                (ap (λ t. text ++ t) (sym (append_assoc w pad end))
                  ∙ sym (append_assoc text (w ++ pad) end)),
        subst (λ t. IsSpaced t (text ++ (w ++ pad)))
            (ap (λ t. front ++ t) (append-nil w) ∙ joins ∙ ap (λ t. t.w) same ∙ whole)
            (IsSpaced-append spaced (IsSpaced-append (IsSpaced-refl w) gap)),
      )

-- For a valid encoding, words of one byte and lines of one word at least, and bytes: any series of
-- writes to a new encoder and then `Close` succeed. The writer gets, behind what it had, the header,
-- the punctuation, a body, the punctuation, the footer and the punctuation, and the body is what
-- `EncodeToString` gives of all bytes together, with only spaces and line feeds put in.
pub write_all-IsSpaced :
    (params : ArmorParams)
    → IsValid params.encoding
    → 1 ≤ params.bytes_per_word
    → 1 ≤ params.words_per_line
    → (out header footer : List ℕ) (bs : List (List ℕ)) → All (All IsByte) bs
    → (s : ArmorEncoderStream) × (body : List ℕ) × (chars : List ℕ) × ((write_all bs
            (new_armor_encoder_stream out header footer params)
          >>= λ t. close t)
        ≡ ok s)
      × (s.encoded ≡ out ++ armored params header footer body)
      × IsSpaced chars body
      × (encode_to_string params.encoding (concat bs) ≡ ok chars)
unfolding new_armor_encoder_stream new_encoder
write_all-IsSpaced params v hb hl out header footer bs is_bs =
    let intro = out ++ (header ++ params.punctuation ∷ 32 ∷ []) in
    let is_all = All-concat-IsByte params.encoding v bs is_bs in
    let new = new_armor_encoder_stream out header footer params in
    let start : Armors params v hb hl footer intro [] new = record {
      w = [];
      buf = [];
      n_words = 0;
      front = [];
      text = [];
      is_at = ap (λ t. at params footer [] [] t 0) (sym (append-nil intro));
      holds = Holds-new_encoder params.encoding v;
      spaced = nothing;
    } in
    let (t, written, a) = write_all-Armors params v hb hl footer intro [] bs new tt is_bs start in
    let (u, body, closed, is_text, spaced) =
      close-Armors params v hb hl footer intro (concat bs) t is_all a in
    let rest = body ++ params.punctuation ∷ 32 ∷ (footer ++ params.punctuation ∷ 10 ∷ []) in
    (
      u,
      body,
      encoded params.encoding (length (concat bs)) (concat bs),
      >>=_ok _ written ∙ closed,
      is_text
          ∙ append_assoc out (header ++ params.punctuation ∷ 32 ∷ []) rest
          ∙ ap (λ t. out ++ t) (append_assoc header (params.punctuation ∷ 32 ∷ []) rest),
      spaced,
      encode_to_string-encoded params.encoding v (concat bs) is_all,
    )

-- For a valid encoding, words of one byte and lines of one word at least, and bytes: `armorSeal` gives
-- the header, the body and the footer with the punctuation, and the body is what `EncodeToString`
-- gives of the plaintext, with only spaces and line feeds put in.
pub armor_seal-IsSpaced :
    (params : ArmorParams)
    → IsValid params.encoding
    → 1 ≤ params.bytes_per_word
    → 1 ≤ params.words_per_line
    → (plaintext header footer : List ℕ) → All IsByte plaintext
    → (body : List ℕ) × (chars : List ℕ) × (armor_seal plaintext header footer params
        ≡ ok (armored params header footer body))
      × IsSpaced chars body
      × (encode_to_string params.encoding plaintext ≡ ok chars)
unfolding armor_seal write_all
armor_seal-IsSpaced params v hb hl plaintext header footer is_bytes =
    let (s, body, chars, sealed, is_text, spaced, is_encoding) =
      write_all-IsSpaced params v hb hl [] header footer (plaintext ∷ []) (is_bytes, tt) in
    (
      body,
      chars,
      closing (write plaintext (new_armor_encoder_stream [] header footer params)) s sealed
          ∙ ap ok is_text,
      spaced,
      ap (encode_to_string params.encoding) (sym (append-nil plaintext)) ∙ is_encoding,
    )
  where
    closing :
        (m : Result ArmorEncoderStream) (s : ArmorEncoderStream)
        → ((m >>= λ t. ok t) >>= λ t. close t) ≡ ok s
        → (m >>= λ t. (close t >>= λ u. ok u.encoded)) ≡ ok s.encoded
    closing panic s e = absurd (cc e)
    closing (err x) s e = absurd (cc e)
    closing (ok t) s e = >>=_ok _ e
