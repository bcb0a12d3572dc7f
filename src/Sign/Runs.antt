-- ===== src/Sign/Runs.antt =====
-- sign_stream.go: any series of writes to an attached stream, and its end.
use saltpack.Base.{
  ℕ, ◌+◌, ◌≤◌, ◌<◌, ◌^◌, ◌≡◌, refl, sym, ap, ap₂, ◌∙◌, subst, arith, Bool, true, false, List, [],
  ◌∷◌, ◌++◌, append_assoc, inl, inr, length, length-append, length-take, take, drop, take-all,
  drop-all, ltb, lt→ltb, if◌then◌else◌,
}
use saltpack.Const.{Version, version1, version2, signature_block_size, signature_block_size-pos}
use saltpack.Errors.{Result, ok, panic_if}
use saltpack.State.{and_then}
use saltpack.Key.{Crypto, SigningKeys}
use saltpack.Packets.{Codecs}
use saltpack.Blocks.Cut.{IsCut, IsCut-count}
use saltpack.Blocks.Layout.{IsLayout, IsLayout-v1-empty, IsLayout-v1, IsLayout-v2}
use saltpack.Blocks.Writer.{emit_all, emit_all-snoc, drain-more}
use saltpack.Sign.{SignAttachedStream, sign_block, write, close}
use saltpack.Sign.Stream.{IsKnown, can-more, can-last-v1, can-last-v2, at, Sealed, sign_block-ok}

module _ (k : SigningKeys) (c : Crypto) (codecs : Codecs) (header_hash : List ℕ)
    (secret_key : k.Secret) where
  abbrev pub Seals : Version → Type 0
  Seals version =
      (n : ℕ) (chunk : List ℕ) (is_final : Bool)
      → Sealed k c codecs version header_hash secret_key n chunk is_final

  -- The packet of a block.
  abbrev pub packet : {version : Version} → Seals version → ℕ → List ℕ → Bool → List ℕ
  packet seal n chunk is_final = (seal n chunk is_final).bytes

  module _ (version : Version) (known : IsKnown version) (seal : Seals version) where
    block_emits :
        (b o : List ℕ) (n : ℕ)
        → n < 0xffffffffffffffff
        → signature_block_size < length b
        → sign_block k c codecs false (at k c codecs version header_hash secret_key b o n) ≡ (
          ok tt,
          at k c codecs version header_hash secret_key
              (drop signature_block_size b)
              (o ++ packet seal n (take signature_block_size b) false)
              (n + 1),
        )
    block_emits b o n h l =
        sign_block-ok k c codecs version header_hash secret_key false (take signature_block_size b)
          (drop signature_block_size b) b o n refl refl
          (can-more version (length (take signature_block_size b))
            (length (drop signature_block_size b)) n known
            (omega (arith, length-take signature_block_size b, signature_block_size-pos))
            (omega (arith, length-take signature_block_size b))
            (λ m. omega (arith, length-take signature_block_size b)))
          (omega arith) (seal n (take signature_block_size b) false)

    pub write_lem :
        (bytes p o : List ℕ) (cs : List (List ℕ)) (r : List ℕ)
        → IsCut signature_block_size bytes cs r
        → length bytes + length p ≤ 0xffffffffffffffff
        → (ds : List (List ℕ)) × (t : List ℕ) × IsCut signature_block_size (bytes ++ p) ds t
          × (write k c codecs p (
                at k c codecs version header_hash secret_key r
                  (o ++ emit_all (packet seal) 0 cs)
                  (length cs))
              ≡ (
                ok (length p),
                at k c codecs version header_hash secret_key t
                    (o ++ emit_all (packet seal) 0 ds)
                    (length ds),
              ))
    unfolding write
    write_lem bytes p o cs r cut h =
        let (ds, t, cut', e) =
          drain-more (λ s. s.buffer) signature_block_size 0xffffffffffffffff
            (sign_block k c codecs false) (at k c codecs version header_hash secret_key)
            (packet seal) signature_block_size-pos (λ b o n. refl) block_emits bytes p o cs r cut
            h in
        (ds, t, cut', ap (λ d. and_then d.0 d.1 (λ _ t. (ok (length p), t))) e)

  -- What a message is on the wire behind its header.
  abbrev pub wire : {version : Version} → Seals version → List (List ℕ) → List ℕ → List ℕ
  wire seal cs last = emit_all (packet seal) 0 cs ++ packet seal (length cs) last true

  -- What `Close` leaves of a stream that holds the cut of the plaintext.
  abbrev pub Closes : Version → Type 0
  Closes version =
      (seal : Seals version) (bytes o : List ℕ) (cs : List (List ℕ)) (r : List ℕ)
      → IsCut signature_block_size bytes cs r
      → length bytes + 2 < 2 ^ 64
      → (ds : List (List ℕ)) × (last : List ℕ) × IsLayout version bytes ds last
        × (close k c codecs (
              at k c codecs version header_hash secret_key r (o ++ emit_all (packet seal) 0 cs)
                (length cs))
            ≡ (
              ok tt,
              at k c codecs version header_hash secret_key [] (o ++ wire seal ds last)
                  (length ds + 1),
            ))

  -- The last steps of `Close` in version 1.
  after_first : Result (Unit {0}) × SignAttachedStream k → Result (Unit {0}) × SignAttachedStream k
  after_first p =
      and_then p.0 p.1 (λ _ t.
        and_then (panic_if (ltb 0 (length t.buffer))) t (λ _ u. sign_block k c codecs true u))

  last-v1 :
      (seal : Seals version1) (o : List ℕ) (n : ℕ)
      → n + 1 < 2 ^ 64
      → after_first (ok tt, at k c codecs version1 header_hash secret_key [] o n) ≡ (
        ok tt,
        at k c codecs version1 header_hash secret_key [] (o ++ packet seal n [] true) (n + 1),
      )
  unfolding after_first
  last-v1 seal o n h =
      sign_block-ok k c codecs version1 header_hash secret_key true [] [] [] o n
        (take-all signature_block_size [] (omega arith))
        (drop-all signature_block_size [] (omega arith)) (can-last-v1 n) h (seal n [] true)

  close-v1 : Closes version1
  unfolding close after_first
  close-v1 seal bytes o cs [] cut h = (
    cs,
    [],
    IsLayout-v1-empty signature_block_size signature_block_size-pos bytes cs cut,
    last-v1 seal (o ++ emit_all (packet seal) 0 cs) (length cs)
          (omega (arith, IsCut-count signature_block_size cs [] signature_block_size-pos cut))
        ∙ ap (λ t. (ok tt, at k c codecs version1 header_hash secret_key [] t (length cs + 1)))
            (append_assoc o (emit_all (packet seal) 0 cs) (packet seal (length cs) [] true)),
  )
  close-v1 seal bytes o cs (x ∷ xs) cut h = (
    cs ++ r ∷ [],
    [],
    IsLayout-v1 signature_block_size signature_block_size-pos bytes cs r (omega arith) cut,
    ap
          (λ b.
            after_first
              (if b then sign_block k c codecs false (st r start n) else (ok tt, st r start n)))
          (lt→ltb 0 (length r) (omega arith))
        ∙ ap after_first (
            sign_block-ok k c codecs version1 header_hash secret_key false r [] r start n
              (take-all signature_block_size r cut.short)
              (drop-all signature_block_size r cut.short)
              (can-more version1 (length r) 0 n (inl refl) (omega arith) cut.short (λ _. refl))
              (omega (arith, count)) (seal n r false))
        ∙ last-v1 seal (start ++ packet seal n r false) (n + 1) (omega (arith, count))
        ∙ ap₂ (λ u m. (ok tt, st [] u (m + 1))) joined count_snoc,
  )
    where
      r : List ℕ
      r = x ∷ xs

      n : ℕ
      n = length cs

      start : List ℕ
      start = o ++ emit_all (packet seal) 0 cs

      st : List ℕ → List ℕ → ℕ → SignAttachedStream k
      st = at k c codecs version1 header_hash secret_key

      count_snoc : n + 1 ≡ length (cs ++ r ∷ [])
      count_snoc = omega (arith, length-append cs (r ∷ []))

      final : List ℕ
      final = packet seal (length (cs ++ r ∷ [])) [] true

      joined :
          (start ++ packet seal n r false) ++ packet seal (n + 1) [] true
          ≡ o ++ wire seal (cs ++ r ∷ []) []
      joined =
          ap (λ m. (start ++ packet seal n r false) ++ packet seal m [] true) count_snoc
          ∙ ap (λ t. t ++ final)
              (append_assoc o (emit_all (packet seal) 0 cs) (packet seal n r false)
                ∙ ap (λ t. o ++ t) (sym (emit_all-snoc (packet seal) cs r)))
          ∙ append_assoc o (emit_all (packet seal) 0 (cs ++ r ∷ [])) final

      count : n + length r ≤ length bytes
      count = IsCut-count signature_block_size cs r signature_block_size-pos cut

  close-v2 : Closes version2
  unfolding close
  close-v2 seal bytes o cs r cut h = (
    cs,
    r,
    IsLayout-v2 signature_block_size signature_block_size-pos bytes cs r cut,
    ap (λ d. and_then d.0 d.1 (λ _ t. (panic_if (ltb 0 (length t.buffer)), t)))
          (sign_block-ok k c codecs version2 header_hash secret_key true r [] r
            (o ++ emit_all (packet seal) 0 cs) (length cs)
            (take-all signature_block_size r cut.short) (drop-all signature_block_size r cut.short)
            (can-last-v2 (length r) (length cs) cut.short (λ z.
              (IsLayout-v2 signature_block_size signature_block_size-pos bytes cs r cut).final_v2
                refl z))
            (omega (arith, IsCut-count signature_block_size cs r signature_block_size-pos cut))
            (seal (length cs) r true))
        ∙ ap (λ t. (ok tt, at k c codecs version2 header_hash secret_key [] t (length cs + 1)))
            (append_assoc o (emit_all (packet seal) 0 cs) (packet seal (length cs) r true)),
  )

  pub close_lem : (version : Version) → IsKnown version → Closes version
  close_lem version (inl e) = subst Closes (sym e) close-v1
  close_lem version (inr e) = subst Closes (sym e) close-v2
