-- ===== src/Blocks/Closer.antt =====
-- How the writers of encrypt.go and sign_stream.go end a message: `Close` on a stream whose writes
-- have left a cut of the plaintext.
use saltpack.Base.{
  ℕ, ◌+◌, ◌≤◌, ◌<◌, ◌≡◌, refl, sym, ap, ap₂, ◌∙◌, subst, arith, Bool, true, false, List, [], ◌∷◌,
  ◌++◌, append_assoc, length, length-append, take, drop, take-all, drop-all, ltb, lt→ltb,
  if◌then◌else◌, ◌⊎◌, inl, inr,
}
use saltpack.Const.{Version, version1, version2}
use saltpack.Errors.{Result, ok, panic_if}
use saltpack.State.{St, and_then}
use saltpack.Common.{check_chunk_state}
use saltpack.Blocks.{check_encrypt_block_read}
use saltpack.Blocks.Cut.{IsCut, IsCut-count}
use saltpack.Blocks.Layout.{IsLayout, IsLayout-v1-empty, IsLayout-v1, IsLayout-v2}
use saltpack.Blocks.Writer.{emit_all, emit_all-snoc}

-- What `checkEncryptBlockRead` and `checkChunkState` ask of a block.
abbrev pub CanWrite : ℕ → Version → Bool → ℕ → ℕ → ℕ → Type 0
CanWrite block_size version is_final chunk rest n =
    (check_encrypt_block_read version is_final block_size chunk rest ≡ ok tt)
    × (check_chunk_state version chunk n is_final ≡ ok tt)

module _ (block_size chunk rest n : ℕ) (h : 1 ≤ chunk) (k : chunk ≤ block_size)
    (l : chunk < block_size → rest ≡ 0) where
  can-more-v1 : CanWrite block_size version1 false chunk rest n
  unfolding check_encrypt_block_read check_chunk_state
  can-more-v1 = (ground arith, ground arith)

  can-more-v2 : CanWrite block_size version2 false chunk rest n
  unfolding check_encrypt_block_read check_chunk_state
  can-more-v2 = (ground arith, ground arith)

  pub can-more :
      (version : Version)
      → (version ≡ version1) ⊎ (version ≡ version2)
      → CanWrite block_size version false chunk rest n
  can-more version (inl e) =
      subst (λ v. CanWrite block_size v false chunk rest n) (sym e) can-more-v1
  can-more version (inr e) =
      subst (λ v. CanWrite block_size v false chunk rest n) (sym e) can-more-v2

can-last-v1 : (block_size n : ℕ) → CanWrite block_size version1 true 0 0 n
unfolding check_encrypt_block_read check_chunk_state
can-last-v1 block_size n = (ground arith, ground arith)

can-last-v2 :
    (block_size chunk n : ℕ)
    → chunk ≤ block_size
    → (chunk ≡ 0 → n ≡ 0)
    → CanWrite block_size version2 true chunk 0 n
unfolding check_encrypt_block_read check_chunk_state
can-last-v2 block_size chunk n k l = (ground arith, ground arith)

module _ {S : Type 0} (buffer : S → List ℕ) (block_size limit : ℕ) (block : Bool → St S (Unit {0}))
    (make : List ℕ → List ℕ → ℕ → S) (emit : ℕ → List ℕ → Bool → List ℕ) (pos : 1 ≤ block_size)
    (buffer_make : (b o : List ℕ) (n : ℕ) → buffer (make b o n) ≡ b) where
  -- Block number `n` goes out.
  abbrev pub Emits : Version → Type 0
  Emits version =
      (is_final : Bool) (chunk rest b o : List ℕ) (n : ℕ)
      → take block_size b ≡ chunk
      → drop block_size b ≡ rest
      → CanWrite block_size version is_final (length chunk) (length rest) n
      → n < limit
      → block is_final (make b o n) ≡ (ok tt, make rest (o ++ emit n chunk is_final) (n + 1))

  -- `Close` in version 1, behind its first block, and in version 2.
  abbrev pub close_last : Result (Unit {0}) × S → Result (Unit {0}) × S
  close_last p =
      and_then p.0 p.1
        (λ _ t. and_then (panic_if (ltb 0 (length (buffer t)))) t (λ _ u. block true u))

  abbrev pub close_v1 : S → Result (Unit {0}) × S
  close_v1 s = close_last (if ltb 0 (length (buffer s)) then block false s else (ok tt, s))

  abbrev pub close_v2 : S → Result (Unit {0}) × S
  close_v2 s =
      and_then (block true s).0 (block true s).1 (λ _ t. (panic_if (ltb 0 (length (buffer t))), t))

  -- What a message is on the wire behind its header.
  abbrev pub wire_of : List (List ℕ) → List ℕ → List ℕ
  wire_of cs last = emit_all emit 0 cs ++ emit (length cs) last true

  -- What `Close` leaves.
  abbrev pub Closes : Version → (S → Result (Unit {0}) × S) → Type 0
  Closes version close =
      (bytes o : List ℕ) (cs : List (List ℕ)) (r : List ℕ)
      → IsCut block_size bytes cs r
      → length bytes + 1 < limit
      → (ds : List (List ℕ)) × (last : List ℕ) × IsLayout version bytes ds last
        × (close (make r (o ++ emit_all emit 0 cs) (length cs))
            ≡ (ok tt, make [] (o ++ wire_of ds last) (length ds + 1)))

  module _ (emits : Emits version1) where
    last_lem :
        (o : List ℕ) (n : ℕ)
        → n < limit
        → close_last (ok tt, make [] o n) ≡ (ok tt, make [] (o ++ emit n [] true) (n + 1))
    last_lem o n h =
        ap (λ b. and_then (panic_if (ltb 0 (length b))) (make [] o n) (λ _ u. block true u))
          (buffer_make [] o n)
        ∙ emits true [] [] [] o n (take-all block_size [] (omega arith))
            (drop-all block_size [] (omega arith)) (can-last-v1 block_size n) h

    first_lem :
        (r o : List ℕ) (n : ℕ)
        → 1 ≤ length r
        → length r ≤ block_size
        → n < limit
        → close_v1 (make r o n) ≡ close_last (ok tt, make [] (o ++ emit n r false) (n + 1))
    first_lem r o n h k l =
        ap (λ b. close_last (if b then block false (make r o n) else (ok tt, make r o n)))
          (ap (λ b. ltb 0 (length b)) (buffer_make r o n) ∙ lt→ltb 0 (length r) (omega arith))
        ∙ ap close_last (
            emits false r [] r o n (take-all block_size r k) (drop-all block_size r k)
              (can-more block_size (length r) 0 n h k (λ _. refl) version1 (inl refl)) l)

    pub close_v1_lem : Closes version1 close_v1
    close_v1_lem bytes o cs [] cut h = (
      cs,
      [],
      IsLayout-v1-empty block_size pos bytes cs cut,
      ap
            (λ b. close_last (
              if b
              then block false (make [] (o ++ emit_all emit 0 cs) (length cs))
              else (ok tt, make [] (o ++ emit_all emit 0 cs) (length cs))))
            (ap (λ b. ltb 0 (length b)) (buffer_make [] (o ++ emit_all emit 0 cs) (length cs)))
          ∙ last_lem (o ++ emit_all emit 0 cs) (length cs)
              (omega (arith, IsCut-count block_size cs [] pos cut))
          ∙ ap (λ t. (ok tt, make [] t (length cs + 1)))
              (append_assoc o (emit_all emit 0 cs) (emit (length cs) [] true)),
    )
    close_v1_lem bytes o cs (x ∷ xs) cut h = (
      cs ++ r ∷ [],
      [],
      IsLayout-v1 block_size pos bytes cs r (omega arith) cut,
      first_lem r start n (omega arith) cut.short (omega (arith, count))
          ∙ last_lem (start ++ emit n r false) (n + 1) (omega (arith, count))
          ∙ ap₂ (λ u m. (ok tt, make [] u (m + 1))) joined count_snoc,
    )
      where
        r : List ℕ
        r = x ∷ xs

        n : ℕ
        n = length cs

        start : List ℕ
        start = o ++ emit_all emit 0 cs

        count_snoc : n + 1 ≡ length (cs ++ r ∷ [])
        count_snoc = omega (arith, length-append cs (r ∷ []))

        joined : (start ++ emit n r false) ++ emit (n + 1) [] true ≡ o ++ wire_of (cs ++ r ∷ []) []
        joined =
            ap (λ m. (start ++ emit n r false) ++ emit m [] true) count_snoc
            ∙ ap (λ t. t ++ emit (length (cs ++ r ∷ [])) [] true)
                (append_assoc o (emit_all emit 0 cs) (emit n r false)
                  ∙ ap (λ t. o ++ t) (sym (emit_all-snoc emit cs r)))
            ∙ append_assoc o (emit_all emit 0 (cs ++ r ∷ [])) (emit (length (cs ++ r ∷ [])) [] true)

        count : n + length r ≤ length bytes
        count = IsCut-count block_size cs r pos cut

  pub close_v2_lem : Emits version2 → Closes version2 close_v2
  close_v2_lem emits bytes o cs r cut h =
      let layout = IsLayout-v2 block_size pos bytes cs r cut in
      (
        cs,
        r,
        layout,
        ap (λ d. and_then d.0 d.1 (λ _ t. (panic_if (ltb 0 (length (buffer t))), t)))
              (emits true r [] r (o ++ emit_all emit 0 cs) (length cs)
                (take-all block_size r cut.short) (drop-all block_size r cut.short)
                (can-last-v2 block_size (length r) (length cs) cut.short
                  (λ z. layout.final_v2 refl z))
                (omega (arith, IsCut-count block_size cs r pos cut)))
            ∙ ap
                (λ b. (
                  panic_if (ltb 0 (length b)),
                  make [] ((o ++ emit_all emit 0 cs) ++ emit (length cs) r true) (length cs + 1),
                ))
                (buffer_make [] ((o ++ emit_all emit 0 cs) ++ emit (length cs) r true)
                  (length cs + 1))
            ∙ ap (λ t. (ok tt, make [] t (length cs + 1)))
                (append_assoc o (emit_all emit 0 cs) (emit (length cs) r true)),
      )
