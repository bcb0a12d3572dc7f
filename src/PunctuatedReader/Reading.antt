-- ===== src/PunctuatedReader/Reading.antt =====
-- punctuated_reader.go: `Read` on what an earlier call has left.
use saltpack.Base.{
  ℕ, ◌≤◌, ◌≡◌, refl, sym, ap, ap₂, ◌∙◌, subst, arith, Bool, true, false, not, ◌&&◌, Option, none,
  some, List, [], ◌∷◌, ◌++◌, append-nil, append_assoc, length, length-take, length-drop, take, drop,
  take-append-drop, All-take, All-drop, ltb, ltb→lt, ltb→le, ◌==◌, inl, inr, Bool-cases,
  if◌then◌else◌,
}
use saltpack.Errors.{Error, punctuated}
use saltpack.PunctuatedReader.{ReadResult, Reader, PunctuatedReader, drain_segment, copy_segment}
use saltpack.PunctuatedReader.Laws.{IsFree, IsSource, mark, remaining, IsOpen, Reads, part, stop}

pub empty : (xs : List ℕ) → (length xs == 0) ≡ true → xs ≡ []
empty [] e = refl
empty (x ∷ xs) e = ground arith

pub none_long : (n : ℕ) → ltb 0 n ≡ false → n ≡ 0
none_long n e = omega (arith, ltb→le 0 n e)

nonempty : (n : ℕ) → (n == 0) ≡ false → 1 ≤ n
nonempty n e = ground arith

module _ {R : Type 0} (read_from : Reader R) (contents : R → List ℕ)
    (source : IsSource read_from contents) where
  abbrev to_come : PunctuatedReader R → List ℕ
  to_come p = p.next_segment ++ contents p.r

  -- `Read` when a segment was copied short.
  pub drained :
      (len : ℕ) (p : PunctuatedReader R)
      → 1 ≤ len
      → 1 ≤ length p.this_segment
      → IsOpen read_from contents p
      → Reads read_from contents p (drain_segment read_from len p)
  unfolding drain_segment remaining
  drained len p h k open_p =
      let rest = drop len p.this_segment in
      let got = take len p.this_segment in
      let fits = take-append-drop len p.this_segment in
      let some_got : 1 ≤ length got = omega (arith, length-take len p.this_segment) in
      let free_got =
        All-take (λ c. (c == p.punctuation) ≡ false) len p.this_segment open_p.free_segment in
      let free_rest =
        All-drop (λ c. (c == p.punctuation) ≡ false) len p.this_segment open_p.free_segment in
      let outcome : Bool → Option Error → ReadResult × PunctuatedReader R = λ b e. (
        record { copied = got; error = if b then e else none },
        record p { this_segment = rest; err_this_segment = if b then none else e },
      ) in
      elim (Bool-cases (length rest == 0)) [
        | inl done ↦
            subst (λ b. Reads read_from contents p (outcome b p.err_this_segment)) (sym done)
              (elim open_p.kept [
                | inl clean ↦
                    subst (λ e. Reads read_from contents p (outcome true e)) (sym clean)
                      (part got (record p { this_segment = rest; err_this_segment = none }) some_got
                        free_got (record { free_segment = free_rest; kept = inl refl }) refl
                        (sym (append_assoc got rest (to_come p))
                          ∙ ap (λ t. t ++ to_come p) fits
                          ∙ ap
                              (λ e.
                                p.this_segment
                                ++ (mark read_from contents p.punctuation e ++ to_come p))
                              (sym clean)))
                | inr (marked, _) ↦
                    subst (λ e. Reads read_from contents p (outcome true e)) (sym marked)
                      (stop got (record p { this_segment = rest; err_this_segment = none }) free_got
                        (record { free_segment = free_rest; kept = inl refl }) refl
                        (ap (λ t. got ++ p.punctuation ∷ (t ++ to_come p)) (empty rest done)
                          ∙ ap (λ t. t ++ p.punctuation ∷ to_come p)
                              (sym (append-nil got)
                                ∙ ap (λ t. got ++ t) (sym (empty rest done))
                                ∙ fits)
                          ∙ ap
                              (λ e.
                                p.this_segment
                                ++ (mark read_from contents p.punctuation e ++ to_come p))
                              (sym marked)))
              ])
        | inr more ↦
            subst (λ b. Reads read_from contents p (outcome b p.err_this_segment)) (sym more)
              (part got (record p { this_segment = rest }) some_got free_got
                (record {
                  free_segment = free_rest;
                  kept = elim open_p.kept [
                    | inl clean ↦ inl clean
                    | inr (marked, _) ↦ inr (marked, nonempty (length rest) more)
                  ];
                })
                refl
                (sym (
                    append_assoc got rest
                      (mark read_from contents p.punctuation p.err_this_segment ++ to_come p))
                  ∙ ap
                      (λ t.
                        t
                        ++ (mark read_from contents p.punctuation p.err_this_segment ++ to_come p))
                      fits))
      ]

  -- A segment without punctuation, of which the buffer takes a part; `q` has nothing of it left.
  pub copied :
      (len : ℕ) (src back : List ℕ) (found : Bool) (p q : PunctuatedReader R)
      → 1 ≤ len
      → IsFree p.punctuation src
      → q.punctuation ≡ p.punctuation
      → q.next_segment ≡ back
      → q.err_this_segment ≡ none
      → (found ≡ false → 1 ≤ length src)
      → src ++ ((if found then p.punctuation ∷ [] else []) ++ (back ++ contents q.r))
        ≡ remaining read_from contents p
      → Reads read_from contents p (copy_segment read_from len src found q)
  unfolding copy_segment remaining
  copied len src back found p q h free_src same next clean some_src whole =
      let rest = drop len src in
      let got = take len src in
      let fits = take-append-drop len src in
      let free_got = All-take (λ c. (c == p.punctuation) ≡ false) len src free_src in
      let free_rest : IsFree q.punctuation rest =
        subst (λ t. IsFree t rest) (sym same)
          (All-drop (λ c. (c == p.punctuation) ≡ false) len src free_src) in
      let outcome : Bool → Bool → ReadResult × PunctuatedReader R = λ f short. (
        record { copied = got; error = if f && not short then some punctuated else none },
        record q {
          this_segment = rest;
          err_this_segment = if f && short then some punctuated else q.err_this_segment;
        },
      ) in
      let tail = back ++ contents q.r in
      let after = ap (λ t. t ++ contents q.r) next in
      elim (Bool-cases found) [
        | inl marked ↦ elim (Bool-cases (ltb 0 (length rest))) [
          | inl short ↦
              subst (λ b. Reads read_from contents p (outcome found b)) (sym short)
                (subst (λ b. Reads read_from contents p (outcome b true)) (sym marked)
                  (part got (record q { this_segment = rest; err_this_segment = some punctuated })
                    (omega (
                      arith,
                      length-take len src,
                      length-drop len src,
                      ltb→lt 0 (length rest) short,
                    ))
                    free_got
                    (record {
                      free_segment = free_rest;
                      kept = inr (refl, ltb→lt 0 (length rest) short);
                    })
                    same
                    (sym (append_assoc got rest (q.punctuation ∷ (q.next_segment ++ contents q.r)))
                      ∙ ap₂ (λ t u. t ++ u) fits (ap₂ (λ c t. c ∷ t) same after)
                      ∙ ap (λ b. src ++ ((if b then p.punctuation ∷ [] else []) ++ tail))
                          (sym marked)
                      ∙ whole)))
          | inr done ↦
              let none_left = empty rest (ap (λ n. n == 0) (none_long (length rest) done)) in
              subst (λ b. Reads read_from contents p (outcome found b)) (sym done)
                (subst (λ b. Reads read_from contents p (outcome b false)) (sym marked)
                  (stop got (record q { this_segment = rest }) free_got
                    (record { free_segment = free_rest; kept = inl clean }) same
                    (ap₂
                        (λ t e.
                          got
                          ++ p.punctuation
                            ∷ (t
                                ++ (mark read_from contents q.punctuation e
                                    ++ (q.next_segment ++ contents q.r))))
                        none_left clean
                      ∙ ap₂ (λ t u. t ++ p.punctuation ∷ u)
                          (sym (append-nil got) ∙ ap (λ t. got ++ t) (sym none_left) ∙ fits) after
                      ∙ ap (λ b. src ++ ((if b then p.punctuation ∷ [] else []) ++ tail))
                          (sym marked)
                      ∙ whole)))
        ]
        | inr plain ↦
            subst (λ b. Reads read_from contents p (outcome b (ltb 0 (length rest)))) (sym plain)
              (part got (record q { this_segment = rest })
                (omega (arith, length-take len src, some_src plain)) free_got
                (record { free_segment = free_rest; kept = inl clean }) same
                (ap
                    (λ e.
                      got
                      ++ (rest
                          ++ (mark read_from contents q.punctuation e
                              ++ (q.next_segment ++ contents q.r))))
                    clean
                  ∙ sym (append_assoc got rest (q.next_segment ++ contents q.r))
                  ∙ ap₂ (λ t u. t ++ u) fits after
                  ∙ ap (λ b. src ++ ((if b then p.punctuation ∷ [] else []) ++ tail)) (sym plain)
                  ∙ whole))
      ]
