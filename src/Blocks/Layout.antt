-- ===== src/Blocks/Layout.antt =====
-- The blocks of a message on the wire: those that are not final, and the final one.
use saltpack.Base.{
  ℕ, ◌≤◌, ◌≡◌, refl, sym, ap, ◌∙◌, arith, List, [], ◌∷◌, ◌++◌, append-nil, length, length-append,
  All, All-append,
}
use saltpack.Const.{Version, version1, version2}
use saltpack.Blocks.Cut.{concat, concat-append, IsCut}

abbrev pub IsNonempty : List ℕ → Type 0
IsNonempty c = 1 ≤ length c

-- In version 1 the final block is empty. In version 2 it is empty only if the message is.
pub record IsLayout (version : Version) (bytes : List ℕ) (cs : List (List ℕ)) (last : List ℕ)
    : Type 0 where
  pub joins : concat cs ++ last ≡ bytes
  pub nonempty : All IsNonempty cs
  pub final_v1 : version ≡ version1 → length last ≡ 0
  pub final_v2 : version ≡ version2 → length last ≡ 0 → length cs ≡ 0

full-IsNonempty :
    (block_size : ℕ)
    → 1 ≤ block_size
    → (cs : List (List ℕ)) → All (λ c. length c ≡ block_size) cs
    → All IsNonempty cs
full-IsNonempty block_size pos [] a = tt
full-IsNonempty block_size pos (c ∷ cs) a =
    (omega (arith, a.0), full-IsNonempty block_size pos cs a.1)

nonempty-count : (cs : List (List ℕ)) → All IsNonempty cs → length cs ≤ length (concat cs)
nonempty-count [] a = omega arith
nonempty-count (c ∷ cs) a = omega (arith, a.0, length-append c (concat cs), nonempty-count cs a.1)

-- There are no more blocks before the final one than bytes.
pub IsLayout-count :
    {version : Version} {bytes : List ℕ} (cs : List (List ℕ)) (last : List ℕ)
    → IsLayout version bytes cs last
    → length cs ≤ length bytes
IsLayout-count cs last layout = omega (
  arith,
  ap length layout.joins,
  length-append (concat cs) last,
  nonempty-count cs layout.nonempty,
)

v1≢v2 : version1 ≡ version2 → ⊥
v1≢v2 e = cc

module _ (block_size : ℕ) (pos : 1 ≤ block_size) (bytes : List ℕ) (cs : List (List ℕ)) where
  pub IsLayout-v1-empty : IsCut block_size bytes cs [] → IsLayout version1 bytes cs []
  IsLayout-v1-empty cut = record {
    joins = cut.joins;
    nonempty = full-IsNonempty block_size pos cs cut.full;
    final_v1 = λ _. refl;
    final_v2 = λ e. absurd (v1≢v2 e);
  }

  pub IsLayout-v1 :
      (r : List ℕ)
      → 1 ≤ length r
      → IsCut block_size bytes cs r
      → IsLayout version1 bytes (cs ++ r ∷ []) []
  IsLayout-v1 r h cut = record {
    joins =
        append-nil (concat (cs ++ r ∷ []))
        ∙ concat-append cs (r ∷ [])
        ∙ ap (λ t. concat cs ++ t) (append-nil r)
        ∙ cut.joins;
    nonempty =
        All-append IsNonempty cs (r ∷ []) (full-IsNonempty block_size pos cs cut.full) (h, tt);
    final_v1 = λ _. refl;
    final_v2 = λ e. absurd (v1≢v2 e);
  }

  pub IsLayout-v2 : (r : List ℕ) → IsCut block_size bytes cs r → IsLayout version2 bytes cs r
  IsLayout-v2 r cut = record {
    joins = cut.joins;
    nonempty = full-IsNonempty block_size pos cs cut.full;
    final_v1 = λ e. absurd (v1≢v2 (sym e));
    final_v2 = λ _ h. none_kept cs cut h;
  }
    where
      none_kept : (cs : List (List ℕ)) → IsCut block_size bytes cs r → length r ≡ 0 → length cs ≡ 0
      none_kept [] cut h = refl
      none_kept (d ∷ ds) cut h = absurd (omega (arith, cut.kept (omega arith)))
