-- ===== src/Encrypt/Streaming.antt =====
-- encrypt.go: a message encrypted in one write, and a write cut in two.
use saltpack.Base.{
  ℕ, ◌+◌, ◌≤◌, ◌<◌, ◌^◌, ◌≡◌, sym, ap, ap₂, ◌∙◌, subst, arith, true, List, [], ◌++◌, append-nil,
  append_assoc, length, length-append,
}
use saltpack.Const.{Version, encryption_block_size}
use saltpack.Errors.{ok}
use saltpack.State.{and_then}
use saltpack.Key.{Crypto, IsCrypto, BoxKeys}
use saltpack.Packets.{Codecs}
use saltpack.Blocks.Cut.{IsCut, IsCut-short, IsCut-unique}
use saltpack.Blocks.Layout.{IsLayout}
use saltpack.Blocks.Writer.{emit_all}
use saltpack.Encrypt.{EncryptStream, write, close}
use saltpack.Encrypt.Runs.{max_blocks, at, Seals, packet, write_lem, close_lem}
use saltpack.Sign.Stream.{IsKnown}

module _ (k : BoxKeys) (c : Crypto) (law : IsCrypto c) (codecs : Codecs)
    (header_hash payload_key : List ℕ) (mac_keys : List (List ℕ)) (version : Version)
    (known : IsKnown version)
    (seals : Seals k c codecs header_hash payload_key mac_keys version) where
  abbrev st : List ℕ → List ℕ → ℕ → EncryptStream
  st = at k c codecs header_hash payload_key mac_keys version

  abbrev emits : List (List ℕ) → List ℕ
  emits = emit_all (packet k c codecs header_hash payload_key mac_keys seals) 0

  abbrev pub wire : List (List ℕ) → List ℕ → List ℕ
  wire cs last =
      emit_all (packet k c codecs header_hash payload_key mac_keys seals) 0 cs
      ++ packet k c codecs header_hash payload_key mac_keys seals (length cs) last true

  -- One write and `Close`.
  pub run_one :
      (o p : List ℕ)
      → length p + 2 < 2 ^ 64
      → (ds : List (List ℕ)) × (last : List ℕ) × IsLayout version p ds last
        × (and_then
              (write k c codecs p (st [] o 0)).0
              (write k c codecs p (st [] o 0)).1
              (λ _ t. close k c codecs t)
            ≡ (ok tt, st [] (o ++ wire ds last) (length ds + 1)))
  run_one o p h =
      let (ds, t, cut, e) =
        write_lem k c codecs header_hash payload_key mac_keys law version seals known [] p o [] []
          (IsCut-short encryption_block_size [] (omega arith)) (omega arith) in
      let (es, last, layout, f) =
        close_lem k c codecs header_hash payload_key mac_keys law version known seals p o ds t cut
          (omega arith) in
      (
        es,
        last,
        layout,
        ap
              (λ u.
                and_then (write k c codecs p (st [] u 0)).0 (write k c codecs p (st [] u 0)).1
                  (λ _ t. close k c codecs t))
              (sym (append-nil o))
            ∙ ap (λ d. and_then d.0 d.1 (λ _ t. close k c codecs t)) e
            ∙ f,
      )

  -- On a stream that has written the full blocks `cs` of the plaintext `bytes` and keeps the rest, for
  -- version 1 or 2, cryptography of the right lengths, blocks that can be encoded and less than 2^64
  -- bytes in all: a write of `p` and then of `q` succeeds with the length of `q`, a write of both
  -- together with their length, and both leave the same stream, its output included.
  pub write-write :
      (bytes p q o : List ℕ) (cs : List (List ℕ)) (r : List ℕ)
      → IsCut encryption_block_size bytes cs r
      → length bytes + length p + length q ≤ max_blocks
      → (t : EncryptStream) × (and_then
            (write k c codecs p (st r (o ++ emits cs) (length cs))).0
            (write k c codecs p (st r (o ++ emits cs) (length cs))).1
            (λ _ u. write k c codecs q u)
          ≡ (ok (length q), t))
        × (write k c codecs (p ++ q) (st r (o ++ emits cs) (length cs))
            ≡ (ok (length p + length q), t))
  write-write bytes p q o cs r cut h =
      let (ds, t, cut1, e1) =
        write_lem k c codecs header_hash payload_key mac_keys law version seals known bytes p o cs r
          cut (omega arith) in
      let (es, u, cut2, e2) =
        write_lem k c codecs header_hash payload_key mac_keys law version seals known (bytes ++ p) q
          o ds t cut1 (omega (arith, length-append bytes p)) in
      let (fs, v, cut3, e3) =
        write_lem k c codecs header_hash payload_key mac_keys law version seals known bytes (p ++ q)
          o cs r cut (omega (arith, length-append p q)) in
      let (a, b) =
        IsCut-unique encryption_block_size fs es (bytes ++ (p ++ q)) v u cut3
          (subst (λ x. IsCut encryption_block_size x es u) (append_assoc bytes p q) cut2) in
      (
        st u (o ++ emits es) (length es),
        ap (λ d. and_then d.0 d.1 (λ _ u. write k c codecs q u)) e1 ∙ e2,
        e3
            ∙ ap₂ (λ n s. (ok n, s)) (length-append p q)
                (ap₂ (λ x y. st y (o ++ emits x) (length x)) a b),
      )
