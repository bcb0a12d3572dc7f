-- ===== src/Tests/SignatureCodec.antt =====
-- A codec for the runs: bytes, numbers, and the packets of signatures.
use saltpack.Base.{
  ℕ, ◌≡◌, refl, sym, ap, ap₂, ◌∙◌, arith, Bool, true, false, List, [], ◌∷◌, ◌++◌, append_assoc,
  length, length-append, take, drop, take-append, drop-append, ltb, le→ltb, if◌then◌else◌, ℤ, pos,
  negsuc, ◌==◌,
}
use saltpack.Errors.{Result, ok, err, panic, ◌>>=◌, >>=_ok, eof, unexpected_eof}
use saltpack.Packets.{Codec, IsLawful, SignatureHeader, SignatureBlockV1, SignatureBlockV2}

-- A length in front of the bytes.
abbrev pub take_counted : ℕ → List ℕ → Result (List ℕ × List ℕ)
take_counted n rest =
    if ltb (length rest) n then err unexpected_eof else ok (take n rest, drop n rest)

pub take_counted-append : (a rest : List ℕ) → take_counted (length a) (a ++ rest) ≡ ok (a, rest)
take_counted-append a rest =
    ap
      (λ t.
        if t
        then err unexpected_eof
        else ok (take (length a) (a ++ rest), drop (length a) (a ++ rest)))
      (le→ltb (length (a ++ rest)) (length a) (omega (arith, length-append a rest)))
    ∙ ap₂ (λ u v. ok (u, v)) (take-append (length a) a rest refl)
        (drop-append (length a) a rest refl)

abbrev pub decode_bytes : List ℕ → Result (List ℕ × List ℕ)
decode_bytes [] = err eof
decode_bytes (n ∷ rest) = take_counted n rest

abbrev pub encode_bytes : List ℕ → List ℕ
encode_bytes a = length a ∷ a

abbrev pub decode_int : List ℕ → Result (ℤ × List ℕ)
decode_int [] = err eof
decode_int (s ∷ []) = err unexpected_eof
decode_int (s ∷ n ∷ rest) = ok (if s == 0 then pos n else negsuc n, rest)

abbrev pub encode_int : ℤ → List ℕ
encode_int (pos n) = 0 ∷ n ∷ []
encode_int (negsuc n) = 1 ∷ n ∷ []

pub decode_int-encode_int :
    (z : ℤ) (rest : List ℕ) → decode_int (encode_int z ++ rest) ≡ ok (z, rest)
decode_int-encode_int (pos n) rest = refl
decode_int-encode_int (negsuc n) rest = refl

abbrev pub bytes_codec : Codec (List ℕ)
bytes_codec = record { encode = λ a. ok (encode_bytes a); decode = decode_bytes }

pub value_or : {A : Type 0} → A → Result A → A
value_or a (ok x) = x
value_or a (err e) = a
value_or a panic = a

pub ok-inj : {A : Type 0} (a b : A) → ◌≡◌ {A = Result A} (ok a) (ok b) → a ≡ b
unfolding value_or
ok-inj {A} a b e = ap (value_or a) e

-- An encoder that never fails, and its decoder.
pub total-IsLawful :
    {A : Type 0} (f : A → List ℕ) (d : List ℕ → Result (A × List ℕ))
    → ((a : A) (rest : List ℕ) → d (f a ++ rest) ≡ ok (a, rest))
    → d [] ≡ err eof
    → IsLawful (record { encode = λ a. ok (f a); decode = d })
total-IsLawful {A} f d law none = record {
  decode-encode =
      λ a bytes rest e. ap (λ t. d (t ++ rest)) (sym (ok-inj (f a) bytes e)) ∙ law a rest;
  decode-nil = none;
}

abbrev pub decode_sig_v1 : List ℕ → Result (SignatureBlockV1 × List ℕ)
decode_sig_v1 input = do
  (sig, rest) ← decode_bytes input
  (chunk, rest') ← decode_bytes rest
  ok (record { signature = sig; payload_chunk = chunk }, rest')

abbrev pub encode_sig_v1 : SignatureBlockV1 → List ℕ
encode_sig_v1 b = encode_bytes b.signature ++ encode_bytes b.payload_chunk

pub decode_sig_v1-encode_sig_v1 :
    (b : SignatureBlockV1) (rest : List ℕ) → decode_sig_v1 (encode_sig_v1 b ++ rest) ≡ ok (b, rest)
decode_sig_v1-encode_sig_v1 b rest =
    ap decode_sig_v1 (append_assoc (encode_bytes b.signature) (encode_bytes b.payload_chunk) rest)
    ∙ >>=_ok _ (take_counted-append b.signature (encode_bytes b.payload_chunk ++ rest))
    ∙ >>=_ok _ (take_counted-append b.payload_chunk rest)

abbrev pub decode_sig_v2 : List ℕ → Result (SignatureBlockV2 × List ℕ)
decode_sig_v2 [] = err eof
decode_sig_v2 (flag ∷ input) = do
  (b, rest) ← decode_sig_v1 input
  ok (record { block_v1 = b; is_final = flag == 1 }, rest)

abbrev pub encode_sig_v2 : SignatureBlockV2 → List ℕ
encode_sig_v2 b = (if b.is_final then 1 else 0) ∷ encode_sig_v1 b.block_v1

pub flag_read : (f : Bool) → ((if f then 1 else 0) == 1) ≡ f
flag_read true = refl
flag_read false = refl

pub decode_sig_v2-encode_sig_v2 :
    (b : SignatureBlockV2) (rest : List ℕ) → decode_sig_v2 (encode_sig_v2 b ++ rest) ≡ ok (b, rest)
decode_sig_v2-encode_sig_v2 b rest =
    >>=_ok _ (decode_sig_v1-encode_sig_v1 b.block_v1 rest)
    ∙ ap (λ f. ok (record { block_v1 = b.block_v1; is_final = f }, rest)) (flag_read b.is_final)

abbrev pub decode_sig_header : List ℕ → Result (SignatureHeader × List ℕ)
decode_sig_header input = do
  (name, r1) ← decode_bytes input
  (major, r2) ← decode_int r1
  (minor, r3) ← decode_int r2
  (type, r4) ← decode_int r3
  (sender, r5) ← decode_bytes r4
  (nonce, r6) ← decode_bytes r5
  ok (
    record {
      format_name = name;
      version = record { major = major; minor = minor };
      type = type;
      sender_public = sender;
      nonce = nonce;
    },
    r6,
  )

-- Each part is followed by the others.
abbrev pub sig_header_onto : SignatureHeader → List ℕ → List ℕ
sig_header_onto h rest =
    encode_bytes h.format_name
    ++ (encode_int h.version.major
        ++ (encode_int h.version.minor
            ++ (encode_int h.type
                ++ (encode_bytes h.sender_public ++ (encode_bytes h.nonce ++ rest)))))

abbrev pub encode_sig_header : SignatureHeader → List ℕ
encode_sig_header h = sig_header_onto h []

pub sig_header_onto-append :
    (h : SignatureHeader) (rest : List ℕ) → encode_sig_header h ++ rest ≡ sig_header_onto h rest
sig_header_onto-append h rest = simp append_assoc refl

pub decode_sig_header-encode_sig_header :
    (h : SignatureHeader) (rest : List ℕ)
    → decode_sig_header (encode_sig_header h ++ rest) ≡ ok (h, rest)
decode_sig_header-encode_sig_header h rest =
    ap decode_sig_header (sig_header_onto-append h rest)
    ∙ >>=_ok _ (take_counted-append h.format_name _)
    ∙ >>=_ok _ (decode_int-encode_int h.version.major _)
    ∙ >>=_ok _ (decode_int-encode_int h.version.minor _)
    ∙ >>=_ok _ (decode_int-encode_int h.type _)
    ∙ >>=_ok _ (take_counted-append h.sender_public _)
    ∙ >>=_ok _ (take_counted-append h.nonce rest)
