-- ===== src/Blocks/Reader.antt =====
-- A reader of numbered packets, and the chunks that it yields from what a writer emitted.
use saltpack.Base.{
  ℕ, suc, ◌+◌, ◌≤◌, ◌<◌, ◌^◌, ◌≡◌, refl, sym, ap, ◌∙◌, subst, arith, Bool, true, false, none, some,
  List, [], ◌∷◌, ◌++◌, append_assoc, length, All,
}
use saltpack.Errors.{ok, eof}
use saltpack.ChunkReader.{Chunker}
use saltpack.ChunkReader.Laws.{Yields}
use saltpack.ChunkReader.Laws
use saltpack.Blocks.Cut.{concat}
use saltpack.Blocks.Layout.{IsNonempty}
use saltpack.Blocks.Writer.{emit_all}

-- `at_input input m` is the reader in front of packet number `m` of the stream, the header being
-- number 0. `CanEnd n r` is what makes the final block `r` acceptable as block number `n`.
module _ {S : Type 0} (next : Chunker S) (at_input : List ℕ → ℕ → S)
    (packet : ℕ → List ℕ → Bool → List ℕ) (CanEnd : ℕ → List ℕ → Type 0)
    (next-more : (n : ℕ) (chunk rest : List ℕ)
      → 1 ≤ length chunk
      → n + 2 < 2 ^ 64
      → next (at_input (packet n chunk false ++ rest) (n + 1))
        ≡ (ok (record { bytes = chunk; error = none }), at_input rest (n + 2)))
    (next-last : (n : ℕ) (chunk : List ℕ)
      → CanEnd n chunk
      → n + 2 < 2 ^ 64
      → next (at_input (packet n chunk true) (n + 1))
        ≡ (ok (record { bytes = chunk; error = some eof }), at_input [] (n + 2))) where
  -- The chunks of a message are its bytes.
  wire-Yields :
      (n : ℕ) (bytes : List ℕ) (cs : List (List ℕ)) (r : List ℕ)
      → concat cs ++ r ≡ bytes
      → All IsNonempty cs
      → CanEnd (n + length cs) r
      → n + length cs + 2 < 2 ^ 64
      → Yields next
          (at_input (emit_all packet n cs ++ packet (n + length cs) r true) (n + 1))
          bytes
          eof
  wire-Yields n bytes [] r e a h l =
      subst (λ t. Yields next (at_input (packet t r true) (n + 1)) bytes eof) {x = n} {y = n + 0}
        (omega arith)
        (subst (λ t. Yields next (at_input (packet n r true) (n + 1)) t eof) e
          (Laws.last r eof (
            next-last n r (subst (λ t. CanEnd t r) {x = n + 0} {y = n} (omega arith) h)
              (omega arith))))
  wire-Yields n bytes ([] ∷ cs) r e a h l = absurd (omega (arith, a.0))
  wire-Yields n bytes ((b ∷ d) ∷ cs) r e a h l =
      subst (λ t. Yields next (at_input t (n + 1)) bytes eof) joined
        (subst (λ t. Yields next (at_input (first ++ rest) (n + 1)) t eof)
          (sym (append_assoc (b ∷ d) (concat cs) r) ∙ e)
          (Laws.more b d (next-more n (b ∷ d) rest (omega arith) (omega arith)) (
            subst (λ t. Yields next (at_input rest t) (concat cs ++ r) eof) {x = n + 1 + 1}
              {y = n + 2} (omega arith)
              (wire-Yields (n + 1) (concat cs ++ r) cs r refl a.1
                (subst (λ t. CanEnd t r) {x = n + suc (length cs)} {y = n + 1 + length cs}
                  (omega arith) h)
                (omega arith)))))
    where
      first : List ℕ
      first = packet n (b ∷ d) false

      later : List ℕ
      later = emit_all packet (n + 1) cs

      rest : List ℕ
      rest = later ++ packet (n + 1 + length cs) r true

      joined : first ++ rest ≡ (first ++ later) ++ packet (n + suc (length cs)) r true
      joined =
          ap (λ t. first ++ (later ++ packet t r true)) {x = n + 1 + length cs}
            {y = n + suc (length cs)} (omega arith)
          ∙ sym (append_assoc first later (packet (n + suc (length cs)) r true))

  -- From the first block on.
  pub message-Yields :
      (bytes : List ℕ) (cs : List (List ℕ)) (r : List ℕ)
      → concat cs ++ r ≡ bytes
      → All IsNonempty cs
      → CanEnd (length cs) r
      → length cs + 2 < 2 ^ 64
      → Yields next (at_input (emit_all packet 0 cs ++ packet (length cs) r true) 1) bytes eof
  message-Yields bytes cs r e a h l =
      subst (λ t. Yields next (at_input (emit_all packet 0 cs ++ packet t r true) 1) bytes eof)
        {x = 0 + length cs} {y = length cs} (omega arith)
        (wire-Yields 0 bytes cs r e a
          (subst (λ t. CanEnd t r) {x = length cs} {y = 0 + length cs} (omega arith) h)
          (omega arith))
