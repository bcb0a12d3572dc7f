-- ===== src/Sign/Streaming.antt =====
-- sign.go and sign_stream.go: a message signed in one write, or in many.
use saltpack.Base.{
  ℕ, ◌+◌, ◌≤◌, ◌<◌, ◌^◌, ◌≡◌, refl, sym, ap, ap₂, ◌∙◌, subst, arith, List, [], ◌∷◌, ◌++◌,
  append-nil, append_assoc, inl, inr, length, length-append,
}
use saltpack.Const.{Version, version1, version2, signature_block_size}
use saltpack.Errors.{Result, ok}
use saltpack.State.{and_then}
use saltpack.Key.{Crypto, SigningKeys, Signs}
use saltpack.Packets.{Codecs, Encodes}
use saltpack.Common.{attached_signature_input, final_flag}
use saltpack.Blocks.Cut.{concat, IsCut, IsCut-short, IsCut-unique}
use saltpack.Blocks.Layout.{IsLayout}
use saltpack.Blocks.Writer.{emit_all}
use saltpack.Sign.{
  SignAttachedStream, make_signature_block, encode_signature_block, write, write_all, close,
}
use saltpack.Sign.Stream.{IsKnown, at}
use saltpack.Sign.Runs.{Seals, wire, write_lem, close_lem}

module _ (k : SigningKeys) (c : Crypto) (codecs : Codecs) (secret_key : k.Secret)
    (signs : Signs k secret_key) (encodes_v1 : Encodes codecs.signature_block_v1)
    (encodes_v2 : Encodes codecs.signature_block_v2) where
  seal-v1 : (header_hash : List ℕ) → Seals k c codecs header_hash secret_key version1
  unfolding attached_signature_input final_flag make_signature_block encode_signature_block
  seal-v1 header_hash n chunk is_final =
      let (sig, s) = signs _ in
      let (bytes, e) = encodes_v1 _ in
      record {
        input = _;
        sig = sig;
        block = _;
        bytes = bytes;
        inputs = refl;
        signs = s;
        makes = refl;
        encodes = e;
      }

  seal-v2 : (header_hash : List ℕ) → Seals k c codecs header_hash secret_key version2
  unfolding attached_signature_input final_flag make_signature_block encode_signature_block
  seal-v2 header_hash n chunk is_final =
      let (sig, s) = signs _ in
      let (bytes, e) = encodes_v2 _ in
      record {
        input = _;
        sig = sig;
        block = _;
        bytes = bytes;
        inputs = refl;
        signs = s;
        makes = refl;
        encodes = e;
      }

  -- Every block can be signed and encoded.
  pub seal :
      (version : Version)
      → IsKnown version
      → (header_hash : List ℕ) → Seals k c codecs header_hash secret_key version
  seal version (inl e) header_hash =
      subst (Seals k c codecs header_hash secret_key) (sym e) (seal-v1 header_hash)
  seal version (inr e) header_hash =
      subst (Seals k c codecs header_hash secret_key) (sym e) (seal-v2 header_hash)

module _ (k : SigningKeys) (c : Crypto) (codecs : Codecs) (secret_key : k.Secret)
    (version : Version) (known : IsKnown version) (header_hash : List ℕ)
    (seals : Seals k c codecs header_hash secret_key version) where
  abbrev st : List ℕ → List ℕ → ℕ → SignAttachedStream k
  st = at k c codecs version header_hash secret_key

  abbrev emits : List (List ℕ) → List ℕ
  emits = emit_all (λ n chunk is_final. (seals n chunk is_final).bytes) 0

  write_all_lem :
      (bytes o : List ℕ) (cs : List (List ℕ)) (r : List ℕ) (ps : List (List ℕ))
      → IsCut signature_block_size bytes cs r
      → length bytes + length (concat ps) ≤ 0xffffffffffffffff
      → (ds : List (List ℕ)) × (t : List ℕ) × IsCut signature_block_size (bytes ++ concat ps) ds t
        × (write_all k c codecs ps (st r (o ++ emits cs) (length cs))
            ≡ (ok tt, st t (o ++ emits ds) (length ds)))
  unfolding write_all
  write_all_lem bytes o cs r [] cut h =
      (cs, r, subst (λ t. IsCut signature_block_size t cs r) (sym (append-nil bytes)) cut, refl)
  write_all_lem bytes o cs r (p ∷ ps) cut h =
      let (ds, t, cut', e) =
        write_lem k c codecs header_hash secret_key version known seals bytes p o cs r cut
          (omega (arith, length-append p (concat ps))) in
      let (es, u, cut'', f) =
        write_all_lem (bytes ++ p) o ds t ps cut'
          (omega (arith, length-append p (concat ps), length-append bytes p)) in
      (
        es,
        u,
        subst (λ x. IsCut signature_block_size x es u) (append_assoc bytes p (concat ps)) cut'',
        ap (λ d. and_then d.0 d.1 (λ _ t. write_all k c codecs ps t)) e ∙ f,
      )

  -- The stream that the writes `ps` and then `Close` leave.
  abbrev pub run : List (List ℕ) → SignAttachedStream k → Result (Unit {0}) × SignAttachedStream k
  run ps s =
      and_then (write_all k c codecs ps s).0 (write_all k c codecs ps s).1
        (λ _ t. close k c codecs t)

  pub run_lem :
      (o : List ℕ) (ps : List (List ℕ))
      → length (concat ps) + 2 < 2 ^ 64
      → (ds : List (List ℕ)) × (last : List ℕ) × IsLayout version (concat ps) ds last
        × (run ps (st [] o 0) ≡ (
          ok tt,
          st [] (o ++ wire k c codecs header_hash secret_key seals ds last) (length ds + 1),
        ))
  run_lem o ps h =
      let (ds, t, cut, e) =
        write_all_lem [] o [] [] ps (IsCut-short signature_block_size [] (omega arith))
          (omega arith) in
      let (es, last, layout, f) =
        close_lem k c codecs header_hash secret_key version known seals (concat ps) o ds t cut h in
      (
        es,
        last,
        layout,
        ap (λ u. run ps (st [] u 0)) (sym (append-nil o))
            ∙ ap (λ d. and_then d.0 d.1 (λ _ t. close k c codecs t)) e
            ∙ f,
      )

  -- One write and `Close`.
  pub run_one :
      (o p : List ℕ)
      → length p + 2 < 2 ^ 64
      → (ds : List (List ℕ)) × (last : List ℕ) × IsLayout version p ds last
        × (and_then
              (write k c codecs p (st [] o 0)).0
              (write k c codecs p (st [] o 0)).1
              (λ _ t. close k c codecs t)
            ≡ (
              ok tt,
              st [] (o ++ wire k c codecs header_hash secret_key seals ds last) (length ds + 1),
            ))
  run_one o p h =
      let (ds, t, cut, e) =
        write_lem k c codecs header_hash secret_key version known seals [] p o [] []
          (IsCut-short signature_block_size [] (omega arith)) (omega arith) in
      let (es, last, layout, f) =
        close_lem k c codecs header_hash secret_key version known seals p o ds t cut h in
      (
        es,
        last,
        layout,
        ap
              (λ u.
                and_then (write k c codecs p (st [] u 0)).0 (write k c codecs p (st [] u 0)).1
                  (λ _ t. close k c codecs t))
              (sym (append-nil o))
            ∙ ap (λ d. and_then d.0 d.1 (λ _ t. close k c codecs t)) e
            ∙ f,
      )

  -- Two series of writes to a new attached signature stream, of the same bytes and less than
  -- 2^64 - 2 of them, return the same and leave the same stream, its output, buffer and block number
  -- included; for version 1 or 2 and a signer whose signatures and encodings do not fail.
  pub write_all_unique :
      (o : List ℕ) (ps qs : List (List ℕ))
      → length (concat ps) + 2 < 2 ^ 64
      → concat ps ≡ concat qs
      → write_all k c codecs ps (st [] o 0) ≡ write_all k c codecs qs (st [] o 0)
  write_all_unique o ps qs h same =
      let (ds, t, cut, e) =
        write_all_lem [] o [] [] ps (IsCut-short signature_block_size [] (omega arith))
          (omega arith) in
      let (es, u, cut', f) =
        write_all_lem [] o [] [] qs (IsCut-short signature_block_size [] (omega arith))
          (omega (arith, ap length same)) in
      let (a, b) =
        IsCut-unique signature_block_size ds es (concat ps) t u cut
          (subst (λ x. IsCut signature_block_size x es u) (sym same) cut') in
      ap (λ u. write_all k c codecs ps (st [] u 0)) (sym (append-nil o))
      ∙ e
      ∙ ap₂ (λ x y. (ok tt, st y (o ++ emits x) (length x))) a b
      ∙ sym f
      ∙ ap (λ u. write_all k c codecs qs (st [] u 0)) (append-nil o)
