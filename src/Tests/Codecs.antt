-- ===== src/Tests/Codecs.antt =====
-- A codec for the runs: the packets of encryption and signcryption, and the codec of all types.
use saltpack.Base.{
  ℕ, zero, suc, ◌≡◌, refl, ap, ◌∙◌, List, [], ◌∷◌, ◌++◌, append_assoc, length, if◌then◌else◌, ◌==◌,
}
use saltpack.Errors.{Result, ok, err, ◌>>=◌, >>=_ok, eof}
use saltpack.Packets.{
  Codecs, AreLawful, ReceiverKeys, EncryptionHeader, EncryptionBlockV1, EncryptionBlockV2,
  SigncryptionBlock,
}
use saltpack.Tests.SignatureCodec.{
  decode_bytes, encode_bytes, decode_int, encode_int, take_counted-append, decode_int-encode_int,
  total-IsLawful, encode_sig_v1, decode_sig_v1, decode_sig_v1-encode_sig_v1, encode_sig_v2,
  decode_sig_v2, decode_sig_v2-encode_sig_v2, flag_read, encode_sig_header, decode_sig_header,
  decode_sig_header-encode_sig_header,
}

abbrev decode_list : ℕ → List ℕ → Result (List (List ℕ) × List ℕ)
decode_list zero input = ok ([], input)
decode_list (suc n) input = do
  (x, rest) ← decode_bytes input
  (xs, rest') ← decode_list n rest
  ok (x ∷ xs, rest')

-- Each part is followed by the others.
abbrev list_onto : List (List ℕ) → List ℕ → List ℕ
list_onto [] rest = rest
list_onto (x ∷ xs) rest = encode_bytes x ++ list_onto xs rest

decode_list-list_onto :
    (xs : List (List ℕ)) (rest : List ℕ)
    → decode_list (length xs) (list_onto xs rest) ≡ ok (xs, rest)
decode_list-list_onto [] rest = refl
decode_list-list_onto (x ∷ xs) rest =
    >>=_ok _ (take_counted-append x (list_onto xs rest)) ∙ >>=_ok _ (decode_list-list_onto xs rest)

list_onto-append :
    (xs : List (List ℕ)) (more rest : List ℕ)
    → list_onto xs more ++ rest ≡ list_onto xs (more ++ rest)
list_onto-append [] more rest = refl
list_onto-append (x ∷ xs) more rest =
    append_assoc (encode_bytes x) (list_onto xs more) rest
    ∙ ap (λ t. encode_bytes x ++ t) (list_onto-append xs more rest)

abbrev decode_enc_v1 : List ℕ → Result (EncryptionBlockV1 × List ℕ)
decode_enc_v1 [] = err eof
decode_enc_v1 (n ∷ input) = do
  (tags, rest) ← decode_list n input
  (ciphertext, rest') ← decode_bytes rest
  ok (record { hash_authenticators = tags; payload_ciphertext = ciphertext }, rest')

abbrev encode_enc_v1 : EncryptionBlockV1 → List ℕ
encode_enc_v1 b =
    length b.hash_authenticators
    ∷ list_onto b.hash_authenticators (encode_bytes b.payload_ciphertext)

decode_enc_v1-encode_enc_v1 :
    (b : EncryptionBlockV1) (rest : List ℕ) → decode_enc_v1 (encode_enc_v1 b ++ rest) ≡ ok (b, rest)
decode_enc_v1-encode_enc_v1 b rest =
    ap (λ t. decode_enc_v1 (length b.hash_authenticators ∷ t))
      (list_onto-append b.hash_authenticators (encode_bytes b.payload_ciphertext) rest)
    ∙ >>=_ok _
        (decode_list-list_onto b.hash_authenticators (encode_bytes b.payload_ciphertext ++ rest))
    ∙ >>=_ok _ (take_counted-append b.payload_ciphertext rest)

abbrev decode_enc_v2 : List ℕ → Result (EncryptionBlockV2 × List ℕ)
decode_enc_v2 [] = err eof
decode_enc_v2 (flag ∷ input) = do
  (b, rest) ← decode_enc_v1 input
  ok (record { block_v1 = b; is_final = flag == 1 }, rest)

abbrev encode_enc_v2 : EncryptionBlockV2 → List ℕ
encode_enc_v2 b = (if b.is_final then 1 else 0) ∷ encode_enc_v1 b.block_v1

decode_enc_v2-encode_enc_v2 :
    (b : EncryptionBlockV2) (rest : List ℕ) → decode_enc_v2 (encode_enc_v2 b ++ rest) ≡ ok (b, rest)
decode_enc_v2-encode_enc_v2 b rest =
    >>=_ok _ (decode_enc_v1-encode_enc_v1 b.block_v1 rest)
    ∙ ap (λ f. ok (record { block_v1 = b.block_v1; is_final = f }, rest)) (flag_read b.is_final)

abbrev decode_signcryption : List ℕ → Result (SigncryptionBlock × List ℕ)
decode_signcryption [] = err eof
decode_signcryption (flag ∷ input) = do
  (ciphertext, rest) ← decode_bytes input
  ok (record { payload_ciphertext = ciphertext; is_final = flag == 1 }, rest)

abbrev encode_signcryption : SigncryptionBlock → List ℕ
encode_signcryption b = (if b.is_final then 1 else 0) ∷ encode_bytes b.payload_ciphertext

decode_signcryption-encode_signcryption :
    (b : SigncryptionBlock) (rest : List ℕ)
    → decode_signcryption (encode_signcryption b ++ rest) ≡ ok (b, rest)
decode_signcryption-encode_signcryption b rest =
    >>=_ok _ (take_counted-append b.payload_ciphertext rest)
    ∙ ap (λ f. ok (record { payload_ciphertext = b.payload_ciphertext; is_final = f }, rest))
        (flag_read b.is_final)

abbrev decode_receivers : ℕ → List ℕ → Result (List ReceiverKeys × List ℕ)
decode_receivers zero input = ok ([], input)
decode_receivers (suc n) input = do
  (kid, rest) ← decode_bytes input
  (box, rest') ← decode_bytes rest
  (rs, rest'') ← decode_receivers n rest'
  ok (record { receiver_kid = kid; payload_key_box = box } ∷ rs, rest'')

abbrev receivers_onto : List ReceiverKeys → List ℕ → List ℕ
receivers_onto [] rest = rest
receivers_onto (r ∷ rs) rest =
    encode_bytes r.receiver_kid ++ (encode_bytes r.payload_key_box ++ receivers_onto rs rest)

decode_receivers-receivers_onto :
    (rs : List ReceiverKeys) (rest : List ℕ)
    → decode_receivers (length rs) (receivers_onto rs rest) ≡ ok (rs, rest)
decode_receivers-receivers_onto [] rest = refl
decode_receivers-receivers_onto (r ∷ rs) rest =
    >>=_ok _ (take_counted-append r.receiver_kid _)
    ∙ >>=_ok _ (take_counted-append r.payload_key_box _)
    ∙ >>=_ok _ (decode_receivers-receivers_onto rs rest)

receivers_onto-append :
    (rs : List ReceiverKeys) (more rest : List ℕ)
    → receivers_onto rs more ++ rest ≡ receivers_onto rs (more ++ rest)
receivers_onto-append [] more rest = refl
receivers_onto-append (r ∷ rs) more rest =
    append_assoc (encode_bytes r.receiver_kid) _ rest
    ∙ ap (λ t. encode_bytes r.receiver_kid ++ t)
        (append_assoc (encode_bytes r.payload_key_box) _ rest
          ∙ ap (λ t. encode_bytes r.payload_key_box ++ t) (receivers_onto-append rs more rest))

-- The number of the receivers stands in front of all.
abbrev decode_enc_header : List ℕ → Result (EncryptionHeader × List ℕ)
decode_enc_header [] = err eof
decode_enc_header (n ∷ input) = do
  (name, r1) ← decode_bytes input
  (major, r2) ← decode_int r1
  (minor, r3) ← decode_int r2
  (type, r4) ← decode_int r3
  (ephemeral, r5) ← decode_bytes r4
  (sender, r6) ← decode_bytes r5
  (receivers, r7) ← decode_receivers n r6
  ok (
    record {
      format_name = name;
      version = record { major = major; minor = minor };
      type = type;
      ephemeral = ephemeral;
      sender_secretbox = sender;
      receivers = receivers;
    },
    r7,
  )

abbrev enc_header_onto : EncryptionHeader → List ℕ → List ℕ
enc_header_onto h rest =
    encode_bytes h.format_name
    ++ (encode_int h.version.major
        ++ (encode_int h.version.minor
            ++ (encode_int h.type
                ++ (encode_bytes h.ephemeral
                    ++ (encode_bytes h.sender_secretbox ++ receivers_onto h.receivers rest)))))

abbrev encode_enc_header : EncryptionHeader → List ℕ
encode_enc_header h = length h.receivers ∷ enc_header_onto h []

enc_header_onto-append :
    (h : EncryptionHeader) (rest : List ℕ) → enc_header_onto h [] ++ rest ≡ enc_header_onto h rest
enc_header_onto-append h rest = simp (append_assoc, receivers_onto-append) refl

decode_enc_header-encode_enc_header :
    (h : EncryptionHeader) (rest : List ℕ)
    → decode_enc_header (encode_enc_header h ++ rest) ≡ ok (h, rest)
decode_enc_header-encode_enc_header h rest =
    ap (λ t. decode_enc_header (length h.receivers ∷ t)) (enc_header_onto-append h rest)
    ∙ >>=_ok _ (take_counted-append h.format_name _)
    ∙ >>=_ok _ (decode_int-encode_int h.version.major _)
    ∙ >>=_ok _ (decode_int-encode_int h.version.minor _)
    ∙ >>=_ok _ (decode_int-encode_int h.type _)
    ∙ >>=_ok _ (take_counted-append h.ephemeral _)
    ∙ >>=_ok _ (take_counted-append h.sender_secretbox _)
    ∙ >>=_ok _ (decode_receivers-receivers_onto h.receivers rest)

abbrev decode_any : List ℕ → Result (List ℕ)
decode_any [] = err eof
decode_any (x ∷ rest) = ok rest

abbrev pub some_codecs : Codecs
some_codecs = record {
  bytes = record { encode = λ a. ok (encode_bytes a); decode = decode_bytes };
  encryption_header = record { encode = λ h. ok (encode_enc_header h); decode = decode_enc_header };
  encryption_block_v1 = record { encode = λ b. ok (encode_enc_v1 b); decode = decode_enc_v1 };
  encryption_block_v2 = record { encode = λ b. ok (encode_enc_v2 b); decode = decode_enc_v2 };
  signcryption_block = record {
    encode = λ b. ok (encode_signcryption b);
    decode = decode_signcryption;
  };
  signature_header = record { encode = λ h. ok (encode_sig_header h); decode = decode_sig_header };
  signature_block_v1 = record { encode = λ b. ok (encode_sig_v1 b); decode = decode_sig_v1 };
  signature_block_v2 = record { encode = λ b. ok (encode_sig_v2 b); decode = decode_sig_v2 };
  any = decode_any;
}

pub some_codecs-AreLawful : AreLawful some_codecs
some_codecs-AreLawful = record {
  bytes = total-IsLawful encode_bytes decode_bytes take_counted-append refl;
  encryption_header =
      total-IsLawful encode_enc_header decode_enc_header decode_enc_header-encode_enc_header refl;
  encryption_block_v1 = total-IsLawful encode_enc_v1 decode_enc_v1 decode_enc_v1-encode_enc_v1 refl;
  encryption_block_v2 = total-IsLawful encode_enc_v2 decode_enc_v2 decode_enc_v2-encode_enc_v2 refl;
  signcryption_block =
      total-IsLawful encode_signcryption decode_signcryption decode_signcryption-encode_signcryption
        refl;
  signature_header =
      total-IsLawful encode_sig_header decode_sig_header decode_sig_header-encode_sig_header refl;
  signature_block_v1 = total-IsLawful encode_sig_v1 decode_sig_v1 decode_sig_v1-encode_sig_v1 refl;
  signature_block_v2 = total-IsLawful encode_sig_v2 decode_sig_v2 decode_sig_v2-encode_sig_v2 refl;
  any-nil = refl;
}
