-- ===== src/Blocks/Cut.antt =====
-- How a message is cut into blocks: full ones, and a last one that is not empty unless the message
-- is, whatever the sizes of the writes.
use saltpack.Base.{
  ℕ, ◌+◌, ◌≤◌, ◌<◌, ◌≡◌, refl, sym, ap, ap₂, ◌∙◌, subst, arith, List, [], ◌∷◌, ◌++◌, append_assoc,
  length, length-append, take, drop, length-take, length-drop, take-append-drop, append_cancel, All,
  All-append,
}

abbrev pub concat : List (List ℕ) → List ℕ
concat [] = []
concat (c ∷ cs) = c ++ concat cs

pub concat-append : (cs ds : List (List ℕ)) → concat (cs ++ ds) ≡ concat cs ++ concat ds
concat-append [] ds = refl
concat-append (c ∷ cs) ds =
    ap (λ t. c ++ t) (concat-append cs ds) ∙ sym (append_assoc c (concat cs) (concat ds))

module _ (block_size : ℕ) where
  abbrev pub IsFull : List ℕ → Type 0
  IsFull c = length c ≡ block_size

  -- `bytes` is the full blocks `cs` and the rest `r`, which is kept back until more is known.
  pub record IsCut (bytes : List ℕ) (cs : List (List ℕ)) (r : List ℕ) : Type 0 where
    pub joins : concat cs ++ r ≡ bytes
    pub full : All IsFull cs
    pub short : length r ≤ block_size
    pub kept : 1 ≤ length cs → 1 ≤ length r

  pub IsCut-short : (bytes : List ℕ) → length bytes ≤ block_size → IsCut bytes [] bytes
  IsCut-short bytes h = record {
    joins = refl;
    full = tt;
    short = h;
    kept = λ k. absurd (omega arith);
  }

  -- One more full block in front.
  pub IsCut-cons :
      (bytes : List ℕ) (cs : List (List ℕ)) (r : List ℕ)
      → block_size < length bytes
      → IsCut (drop block_size bytes) cs r
      → IsCut bytes (take block_size bytes ∷ cs) r
  IsCut-cons bytes cs r h cut = record {
    joins =
        append_assoc (take block_size bytes) (concat cs) r
        ∙ ap (λ t. take block_size bytes ++ t) cut.joins
        ∙ take-append-drop block_size bytes;
    full = (length-take block_size bytes ∙ omega arith, cut.full);
    short = cut.short;
    kept = λ k. rest_kept cs r cut h;
  }
    where
      rest_kept :
          (cs : List (List ℕ)) (r : List ℕ)
          → IsCut (drop block_size bytes) cs r
          → block_size < length bytes
          → 1 ≤ length r
      rest_kept [] r cut h = omega (arith, ap length cut.joins, length-drop block_size bytes)
      rest_kept (c ∷ cs) r cut h = cut.kept (omega arith)

  -- More bytes are cut behind the rest.
  pub IsCut-append :
      (bytes more : List ℕ) (cs ds : List (List ℕ)) (r r' : List ℕ)
      → IsCut bytes cs r
      → IsCut (r ++ more) ds r'
      → IsCut (bytes ++ more) (cs ++ ds) r'
  IsCut-append bytes more cs ds r r' cut cut' = record {
    joins =
        ap (λ t. t ++ r') (concat-append cs ds)
        ∙ append_assoc (concat cs) (concat ds) r'
        ∙ ap (λ t. concat cs ++ t) cut'.joins
        ∙ sym (append_assoc (concat cs) r more)
        ∙ ap (λ t. t ++ more) cut.joins;
    full = All-append IsFull cs ds cut.full cut'.full;
    short = cut'.short;
    kept = λ k. still ds cut' (omega (arith, length-append cs ds));
  }
    where
      still :
          (ds : List (List ℕ)) → IsCut (r ++ more) ds r' → 1 ≤ length cs + length ds → 1 ≤ length r'
      still [] cut' k =
          omega (arith, cut.kept (omega arith), ap length cut'.joins, length-append r more)
      still (d ∷ ds) cut' k = cut'.kept (omega arith)

  count-le : 1 ≤ block_size → (cs : List (List ℕ)) → All IsFull cs → length cs ≤ length (concat cs)
  count-le pos [] full = omega arith
  count-le pos (c ∷ cs) full =
      omega (arith, full.0, length-append c (concat cs), count-le pos cs full.1)

  -- There are no more blocks and kept bytes than bytes.
  pub IsCut-count :
      {bytes : List ℕ} (cs : List (List ℕ)) (r : List ℕ)
      → 1 ≤ block_size
      → IsCut bytes cs r
      → length cs + length r ≤ length bytes
  IsCut-count cs r pos cut =
      omega (arith, ap length cut.joins, length-append (concat cs) r, count-le pos cs cut.full)

  IsCut-tail :
      (c : List ℕ) (cs : List (List ℕ)) (bytes r : List ℕ)
      → IsCut bytes (c ∷ cs) r
      → IsCut (concat cs ++ r) cs r
  IsCut-tail c cs bytes r cut = record {
    joins = refl;
    full = cut.full.1;
    short = cut.short;
    kept = λ k. cut.kept (omega arith);
  }

  too_long :
      (c : List ℕ) (cs : List (List ℕ)) (bytes r : List ℕ)
      → IsCut bytes (c ∷ cs) r
      → block_size < length bytes
  too_long c cs bytes r cut = omega (
    arith,
    ap length cut.joins,
    length-append (c ++ concat cs) r,
    length-append c (concat cs),
    cut.full.0,
    cut.kept (omega arith),
  )

  -- There is one way to cut.
  pub IsCut-unique :
      (cs ds : List (List ℕ)) (bytes r r' : List ℕ)
      → IsCut bytes cs r
      → IsCut bytes ds r'
      → (cs ≡ ds) × (r ≡ r')
  IsCut-unique [] [] bytes r r' c d = (refl, c.joins ∙ sym d.joins)
  IsCut-unique [] (d ∷ ds) bytes r r' c e =
      absurd (omega (arith, too_long d ds bytes r' e, c.short, ap length c.joins))
  IsCut-unique (c ∷ cs) [] bytes r r' d e =
      absurd (omega (arith, too_long c cs bytes r d, e.short, ap length e.joins))
  IsCut-unique (c ∷ cs) (d ∷ ds) bytes r r' f e =
      let same = append_cancel c (concat cs ++ r) d (concat ds ++ r') (f.full.0 ∙ sym e.full.0) (
        sym (append_assoc c (concat cs) r)
        ∙ f.joins
        ∙ sym e.joins
        ∙ append_assoc d (concat ds) r') in
      let rest =
        IsCut-unique cs ds (concat cs ++ r) r r' (IsCut-tail c cs bytes r f)
          (subst (λ t. IsCut t ds r') (sym same.1) (IsCut-tail d ds bytes r' e)) in
      (ap₂ (λ t u. t ∷ u) same.0 rest.0, rest.1)
