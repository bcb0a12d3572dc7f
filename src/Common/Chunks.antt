-- ===== src/Common/Chunks.antt =====
-- common.go: the checks of `checkChunkState` on the writer's and on the reader's side, and the
-- versions of `CheckKnownMajorVersion`.
use saltpack.Base.{
  ℕ, ◌+◌, ◌-◌, ◌^◌, ◌<◌, ◌≡◌, ◌↔◌, refl, ap, subst, sym, ◌∙◌, arith, Bool, true, false, ◌⊎◌, inl,
  inr, pos, eq_int_iff, List, length, le→ltb,
}
use saltpack.Const.{Version}
use saltpack.Errors.{Result, ok, err, panic, bad_version, unexpected_empty_block, panic_if, ◌>>◌}
use saltpack.Common.{
  check_chunk_state, check_known_major_version, has_major, or_panic, assert_encoded_chunk_state,
  check_decoded_chunk_state, prev_uint64,
}

-- The blocks of a well-formed message: in version 1 a block is empty exactly if it is final, and in
-- version 2 an empty block is the first one and final.
abbrev pub IsChunk : Version → ℕ → ℕ → Bool → Type 0
IsChunk version n i is_final =
    ((version.major ≡ pos 1) × ((n ≡ 0) ↔ (is_final ≡ true)))
    ⊎ ((version.major ≡ pos 2) × (n ≡ 0 → (i ≡ 0) × (is_final ≡ true)))

-- What a check has done with a block, by how it ended.
abbrev Checks : Version → ℕ → ℕ → Bool → Result (Unit {0}) → Type 0
Checks version n i is_final m =
    ((m ≡ ok tt) × IsChunk version n i is_final)
    ⊎ ((m ≡ err unexpected_empty_block) × (version.major ≡ pos 2) × ¬ IsChunk version n i is_final)
    ⊎ ((m ≡ panic) × ¬ (version.major ≡ pos 2) × ¬ IsChunk version n i is_final)

check_chunk_state-Checks :
    (version : Version) (n i : ℕ) (is_final : Bool)
    → Checks version n i is_final (check_chunk_state version n i is_final)
unfolding check_chunk_state
check_chunk_state-Checks version n i true =
    ground (arith, eq_int_iff version.major (pos 1), eq_int_iff version.major (pos 2))
check_chunk_state-Checks version n i false =
    ground (arith, eq_int_iff version.major (pos 1), eq_int_iff version.major (pos 2))

-- How the writer's assertion and the reader's check end on the same block.
abbrev Agrees : Version → ℕ → ℕ → Bool → Result (Unit {0}) → Result (Unit {0}) → Type 0
Agrees version n i is_final w r =
    ((w ≡ ok tt) ↔ IsChunk version n i is_final)
    × ((w ≡ panic) ↔ ¬ IsChunk version n i is_final)
    × ((r ≡ ok tt) ↔ IsChunk version n i is_final)
    × ((r ≡ err unexpected_empty_block)
        ↔ ((version.major ≡ pos 2) × ¬ IsChunk version n i is_final))
    × ((r ≡ panic) ↔ (¬ (version.major ≡ pos 2) × ¬ IsChunk version n i is_final))

checked-Agrees :
    (version : Version) (n i : ℕ) (is_final : Bool) (m : Result (Unit {0}))
    → Checks version n i is_final m
    → Agrees version n i is_final (or_panic m) m
checked-Agrees version n i is_final m (inl (e, chunk)) =
    subst (λ t. Agrees version n i is_final (or_panic t) t) (sym e)
      (
        (λ _. chunk, λ _. refl),
        (λ h. cc, λ not_chunk. absurd (not_chunk chunk)),
        (λ _. chunk, λ _. refl),
        (λ h. cc, λ p. absurd (p.1 chunk)),
        (λ h. cc, λ p. absurd (p.1 chunk)),
      )
checked-Agrees version n i is_final m (inr (inl (e, v2, not_chunk))) =
    subst (λ t. Agrees version n i is_final (or_panic t) t) (sym e)
      (
        (λ h. cc, λ chunk. absurd (not_chunk chunk)),
        (λ _. not_chunk, λ _. refl),
        (λ h. cc, λ chunk. absurd (not_chunk chunk)),
        (λ _. (v2, not_chunk), λ _. refl),
        (λ h. cc, λ p. absurd (p.0 v2)),
      )
checked-Agrees version n i is_final m (inr (inr (e, not_v2, not_chunk))) =
    subst (λ t. Agrees version n i is_final (or_panic t) t) (sym e)
      (
        (λ h. cc, λ chunk. absurd (not_chunk chunk)),
        (λ _. not_chunk, λ _. refl),
        (λ h. cc, λ chunk. absurd (not_chunk chunk)),
        (λ h. cc, λ p. absurd (not_v2 p.0)),
        (λ _. (not_v2, not_chunk), λ _. refl),
      )

pub assert_encoded_chunk_state-check_decoded_chunk_state :
    (version : Version) (chunk encoded : List ℕ) (overhead i : ℕ) (is_final : Bool)
    → length encoded ≡ length chunk + overhead
    → i + 1 < 2 ^ 64
    → ((assert_encoded_chunk_state version encoded overhead i is_final ≡ ok tt)
        ↔ IsChunk version (length chunk) i is_final)
      × ((assert_encoded_chunk_state version encoded overhead i is_final ≡ panic)
          ↔ ¬ IsChunk version (length chunk) i is_final)
      × ((check_decoded_chunk_state version chunk (i + 1) is_final ≡ ok tt)
          ↔ IsChunk version (length chunk) i is_final)
      × ((check_decoded_chunk_state version chunk (i + 1) is_final ≡ err unexpected_empty_block)
          ↔ ((version.major ≡ pos 2) × ¬ IsChunk version (length chunk) i is_final))
      × ((check_decoded_chunk_state version chunk (i + 1) is_final ≡ panic)
          ↔ (¬ (version.major ≡ pos 2) × ¬ IsChunk version (length chunk) i is_final))
unfolding assert_encoded_chunk_state check_decoded_chunk_state
assert_encoded_chunk_state-check_decoded_chunk_state version chunk encoded overhead i is_final size
      h =
    let checked = check_chunk_state version (length chunk) i is_final in
    let written : assert_encoded_chunk_state version encoded overhead i is_final
        ≡ or_panic checked =
      ap
        (λ b.
          panic_if b >> or_panic (check_chunk_state version (length encoded - overhead) i is_final))
        (le→ltb (length encoded) overhead (omega (arith, size)))
      ∙ ap (λ n. or_panic (check_chunk_state version n i is_final)) {x = length encoded - overhead}
          {y = length chunk} (omega (arith, size)) in
    let read : check_decoded_chunk_state version chunk (i + 1) is_final ≡ checked =
      ap (λ n. check_chunk_state version (length chunk) n is_final) {x = prev_uint64 (i + 1)}
        {y = i} (omega (arith, h)) in
    subst
      (λ r.
        Agrees version (length chunk) i is_final
          (assert_encoded_chunk_state version encoded overhead i is_final) r)
      (sym read)
      (subst (λ w. Agrees version (length chunk) i is_final w checked) (sym written)
        (checked-Agrees version (length chunk) i is_final checked
          (check_chunk_state-Checks version (length chunk) i is_final)))

-- A version is accepted exactly if its major number is 1 or 2, whatever its minor number, and
-- otherwise the error names it.
pub check_known_major_version_iff :
    (version : Version)
    → ((check_known_major_version version ≡ ok tt)
        ↔ ((version.major ≡ pos 1) ⊎ (version.major ≡ pos 2)))
      × ((check_known_major_version version ≡ ok tt)
          ⊎ (check_known_major_version version ≡ err (bad_version version)))
unfolding check_known_major_version has_major
check_known_major_version_iff version =
    ground (arith, eq_int_iff version.major (pos 1), eq_int_iff version.major (pos 2))
