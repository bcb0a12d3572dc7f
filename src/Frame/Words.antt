-- ===== src/Frame/Words.antt =====
-- frame.go: the steps of `parseFrame` on words joined by spaces.
use saltpack.Base.{
  ℕ, ◌≤◌, ◌≡◌, refl, sym, ap, ◌∙◌, arith, Bool, true, false, ◌&&◌, List, [], ◌∷◌, ◌++◌, append-nil,
  length, length-append, All, ◌==◌, if◌then◌else◌,
}
use saltpack.Frame.{
  join, is_separator, collapse, is_space, trim_left, trim_right, trim_space, onto_first, split,
}

-- No separator and no space.
abbrev pub IsPlain : ℕ → Type 0
IsPlain c = (is_separator c ≡ false) × (is_space c ≡ false)

-- A word of a frame.
abbrev pub IsWord : List ℕ → Type 0
IsWord w = (1 ≤ length w) × All IsPlain w

collapse-plain :
    (replaced : Bool) (c : ℕ) (cs : List ℕ)
    → IsPlain c
    → collapse replaced (c ∷ cs) ≡ c ∷ collapse false cs
unfolding collapse
collapse-plain replaced c cs h =
    ap
      (λ b.
        if b
        then if replaced then collapse true cs else 32 ∷ collapse true cs
        else c ∷ collapse false cs)
      h.0

collapse-word :
    (w rest : List ℕ) → All IsPlain w → collapse false (w ++ rest) ≡ w ++ collapse false rest
collapse-word [] rest h = refl
collapse-word (c ∷ w) rest h =
    collapse-plain false c (w ++ rest) h.0 ∙ ap (λ t. c ∷ t) (collapse-word w rest h.1)

-- A space between two words is kept.
collapse-space :
    (w rest : List ℕ) → IsWord w → collapse false (32 ∷ w ++ rest) ≡ 32 ∷ collapse false (w ++ rest)
unfolding collapse
collapse-space [] rest h = absurd (omega (arith, h.0))
collapse-space (c ∷ w) rest h =
    ap (λ t. 32 ∷ t)
      (collapse-plain true c (w ++ rest) h.1.0 ∙ sym (collapse-plain false c (w ++ rest) h.1.0))

join-starts : (w : List ℕ) (ws : List (List ℕ)) → (rest : List ℕ) × (join (w ∷ ws) ≡ w ++ rest)
join-starts w [] = ([], sym (append-nil w))
join-starts w (v ∷ ws) = (32 ∷ join (v ∷ ws), refl)

pub collapse-join : (ws : List (List ℕ)) → All IsWord ws → collapse false (join ws) ≡ join ws
unfolding collapse
collapse-join [] h = refl
collapse-join (w ∷ []) h =
    ap (collapse false) (sym (append-nil w)) ∙ collapse-word w [] h.0.1 ∙ append-nil w
collapse-join (w ∷ v ∷ ws) h =
    let (rest, e) = join-starts v ws in
    collapse-word w (32 ∷ join (v ∷ ws)) h.0.1
    ∙ ap (λ t. w ++ t)
        (ap (λ t. collapse false (32 ∷ t)) e
          ∙ collapse-space v rest h.1.0
          ∙ ap (λ t. 32 ∷ collapse false t) (sym e)
          ∙ ap (λ t. 32 ∷ t) (collapse-join (v ∷ ws) h.1))

trim_left-join :
    (w : List ℕ) (ws : List (List ℕ)) → IsWord w → trim_left (join (w ∷ ws)) ≡ join (w ∷ ws)
unfolding trim_left
trim_left-join [] ws h = absurd (omega (arith, h.0))
trim_left-join (c ∷ w) ws h =
    let (rest, e) = join-starts (c ∷ w) ws in
    ap trim_left e ∙ ap (λ b. if b then trim_left (w ++ rest) else c ∷ (w ++ rest)) h.1.0.1 ∙ sym e

trim_right-plain : (w t : List ℕ) → All IsPlain w → trim_right t ≡ t → trim_right (w ++ t) ≡ w ++ t
unfolding trim_right
trim_right-plain [] t h e = e
trim_right-plain (c ∷ w) t h e =
    ap (λ b. if b && length (trim_right (w ++ t)) == 0 then [] else c ∷ trim_right (w ++ t)) h.0.1
    ∙ ap (λ s. c ∷ s) (trim_right-plain w t h.1 e)

nonzero : (n : ℕ) → 1 ≤ n → (n == 0) ≡ false
nonzero n h = ground arith

trim_right-join : (ws : List (List ℕ)) → All IsWord ws → trim_right (join ws) ≡ join ws
unfolding trim_right
trim_right-join [] h = refl
trim_right-join (w ∷ []) h =
    ap trim_right (sym (append-nil w)) ∙ trim_right-plain w [] h.0.1 refl ∙ append-nil w
trim_right-join (w ∷ v ∷ ws) h =
    let rest = join (v ∷ ws) in
    let kept : trim_right rest ≡ rest = trim_right-join (v ∷ ws) h.1 in
    let (more, e) = join-starts v ws in
    trim_right-plain w (32 ∷ rest) h.0.1 (
      ap (λ t. if length t == 0 then [] else 32 ∷ t) kept
      ∙ ap (λ b. if b then [] else 32 ∷ rest)
          (nonzero (length rest) (omega (arith, h.1.0.0, ap length e, length-append v more))))

pub trim_space-join : (ws : List (List ℕ)) → All IsWord ws → trim_space (join ws) ≡ join ws
unfolding trim_space trim_right trim_left
trim_space-join [] h = refl
trim_space-join (w ∷ ws) h = ap trim_right (trim_left-join w ws h.0) ∙ trim_right-join (w ∷ ws) h

not_space : (c : ℕ) → is_separator c ≡ false → (c == 32) ≡ false
not_space c h = ground arith

split-word :
    (w t v : List ℕ) (vs : List (List ℕ))
    → All IsPlain w
    → split t ≡ v ∷ vs
    → split (w ++ t) ≡ (w ++ v) ∷ vs
unfolding split
split-word [] t v vs h e = e
split-word (c ∷ w) t v vs h e =
    ap (λ b. if b then [] ∷ split (w ++ t) else onto_first c (split (w ++ t))) (not_space c h.0.0)
    ∙ ap (onto_first c) (split-word w t v vs h.1 e)

pub split-join :
    (w : List ℕ) (ws : List (List ℕ)) → All IsWord (w ∷ ws) → split (join (w ∷ ws)) ≡ w ∷ ws
unfolding split
split-join w [] h =
    ap split (sym (append-nil w))
    ∙ split-word w [] [] [] h.0.1 refl
    ∙ ap (λ t. t ∷ []) (append-nil w)
split-join w (v ∷ ws) h =
    split-word w (32 ∷ join (v ∷ ws)) [] (v ∷ ws) h.0.1 (ap (λ t. [] ∷ t) (split-join v ws h.1))
    ∙ ap (λ t. t ∷ v ∷ ws) (append-nil w)
