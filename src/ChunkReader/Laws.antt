-- ===== src/ChunkReader/Laws.antt =====
-- What a reader of chunk_reader.go gives, whatever the sizes of the buffers that it is read with.
use saltpack.Base.{
  ℕ, zero, suc, ◌+◌, ◌-◌, ◌≤◌, ◌<◌, ◌≡◌, refl, sym, ap, ap₂, ◌∙◌, subst, arith, Bool, true, false,
  Option, none, some, List, [], ◌∷◌, ◌++◌, append_assoc, append-nil, length, length-append, take,
  drop, take-all, drop-all, length-take, length-drop, take-append-drop, min, ◌==◌, ◌&&◌,
  if◌then◌else◌,
}
use saltpack.Errors.{Error, Result, ok, is_eof}
use saltpack.ChunkReader.{Chunker, ChunkReader, ReadResult, new_chunk_reader, read_loop, is_none}
use saltpack.ChunkReader.{read, read_all}
use native.Mathlib.Nat.{min-eq_right}
use native.Mathlib.Decide.{dec_le}

module _ {C : Type 0} (next : Chunker C) where
  -- From state `c`, the chunks up to the first error `e` hold `bytes`, and none of them is empty
  -- but with an error.
  pub data Yields : C → List ℕ → Error → Type 0 where
    last :
        {c c' : C} (bytes : List ℕ) (e : Error)
        → next c ≡ (ok (record { bytes = bytes; error = some e }), c')
        → Yields c bytes e
    more :
        {c c' : C} (b : ℕ) (bytes : List ℕ) {rest : List ℕ} {e : Error}
        → next c ≡ (ok (record { bytes = b ∷ bytes; error = none }), c')
        → Yields c' rest e
        → Yields c (b ∷ bytes ++ rest) e

  -- What a reader still has to give.
  data Remaining : ChunkReader C → List ℕ → Error → Type 0 where
    drained :
        (c : C) (prev : List ℕ) (e : Error)
        → Remaining (record { chunker = c; prev_chunk = prev; prev_err = some e }) prev e
    pending :
        (c : C) (prev : List ℕ) {rest : List ℕ} {e : Error}
        → Yields c rest e
        → Remaining (record { chunker = c; prev_chunk = prev; prev_err = none }) (prev ++ rest) e

  -- A call of `Read` gives bytes and no error, and leaves the rest, or it gives all and the error.
  data Gives (out : List ℕ) (room : ℕ) (all : List ℕ) (e : Error)
      : Result ReadResult × ChunkReader C → Type 0 where
    part :
        (got rest : List ℕ) {copied : List ℕ} {r : ChunkReader C}
        → length got ≡ room
        → got ++ rest ≡ all
        → out ++ got ≡ copied
        → Remaining r rest e
        → Gives out room all e (ok (record { copied = copied; error = none }), r)
    whole :
        {copied : List ℕ} {r : ChunkReader C}
        → out ++ all ≡ copied
        → Gives out room all e (ok (record { copied = copied; error = some e }), r)

  -- What was copied in an earlier round counts for the call.
  Gives-append :
      {out : List ℕ} (prev : List ℕ) {room room' : ℕ} {all : List ℕ} {e : Error}
      {res : Result ReadResult × ChunkReader C}
      → length prev + room' ≡ room
      → Gives (out ++ prev) room' all e res
      → Gives out room (prev ++ all) e res
  Gives-append {out} prev h (part got rest l a c r) =
      part (prev ++ got) rest (length-append prev got ∙ omega arith)
        (append_assoc prev got rest ∙ ap (λ t. prev ++ t) a) (sym (append_assoc out prev got) ∙ c) r
  Gives-append {out} prev {all = all} h (whole c) = whole (sym (append_assoc out prev all) ∙ c)

  nonempty : (xs : List ℕ) → 1 ≤ length xs → (x : ℕ) × (ys : List ℕ) × (xs ≡ x ∷ ys)
  nonempty [] h = absurd (omega arith)
  nonempty (x ∷ xs) h = (x, xs, refl)

  module _ (fuel room : ℕ) (out : List ℕ) (c : C) (prev : List ℕ) (o : Option Error) where
    abbrev start : ChunkReader C
    start = record { chunker = c; prev_chunk = prev; prev_err = o }

    full_step :
        (x : ℕ) (xs : List ℕ)
        → drop room prev ≡ x ∷ xs
        → read_loop next (suc fuel) room out start ≡ (
          ok (record { copied = out ++ take room prev; error = none }),
          record { chunker = c; prev_chunk = drop room prev; prev_err = o },
        )
    unfolding read_loop
    full_step x xs left =
        rw (left, read_loop)
          (ap {B = Result ReadResult × ChunkReader C}
            (λ t. (
              ok (record { copied = out ++ take room prev; error = none }),
              record { chunker = c; prev_chunk = t; prev_err = o },
            ))
            left)

    -- `p` is full before the chunk is drained.
    read_loop-full :
        {all : List ℕ} {e : Error} (rest : List ℕ)
        → room < length prev
        → prev ++ rest ≡ all
        → Remaining
            (record { chunker = c; prev_chunk = drop room prev; prev_err = o })
            (drop room prev ++ rest)
            e
        → Gives out room all e (read_loop next (suc fuel) room out start)
    read_loop-full {all} {e} rest h a r =
        let (x, xs, left) = nonempty (drop room prev) (omega (arith, length-drop room prev)) in
        subst (λ t. Gives out room all e t) (sym (full_step x xs left))
          (part (take room prev) (drop room prev ++ rest) (length-take room prev ∙ omega arith)
            (sym (append_assoc (take room prev) (drop room prev) rest)
              ∙ ap (λ t. t ++ rest) (take-append-drop room prev)
              ∙ a)
            refl r)

  -- The chunk is drained, and its error is returned.
  read_loop-error :
      (fuel room : ℕ) (out : List ℕ) (c : C) (prev : List ℕ) (e : Error)
      → length prev ≤ room
      → read_loop next
          (suc fuel)
          room
          out
          (record { chunker = c; prev_chunk = prev; prev_err = some e })
        ≡ (
          ok (record { copied = out ++ prev; error = some e }),
          record { chunker = c; prev_chunk = []; prev_err = some e },
        )
  unfolding read_loop
  read_loop-error fuel room out c prev e h =
      rw (drop-all room prev h, read_loop)
        (ap₂ {C = Result ReadResult × ChunkReader C}
          (λ t u. (
            ok (record { copied = out ++ t; error = some e }),
            record { chunker = c; prev_chunk = u; prev_err = some e },
          ))
          (take-all room prev h) (drop-all room prev h))

  -- The chunk is drained, and the next one is fetched.
  read_loop-next :
      (fuel room : ℕ) (out : List ℕ) (c c' : C) (prev bytes : List ℕ) (o : Option Error)
      → length prev ≤ room
      → next c ≡ (ok (record { bytes = bytes; error = o }), c')
      → (length bytes == 0 && is_none o) ≡ false
      → read_loop next
          (suc fuel)
          room
          out
          (record { chunker = c; prev_chunk = prev; prev_err = none })
        ≡ read_loop next fuel
            (room - length prev)
            (out ++ prev)
            (record { chunker = c'; prev_chunk = bytes; prev_err = o })
  unfolding read_loop
  read_loop-next fuel room out c c' prev bytes o h n g =
      rw (drop-all room prev h, read_loop, n, g)
        (λ i.
          read_loop next fuel (room - min-eq_right h i) (out ++ take-all room prev h i)
            (record { chunker = (n i).1; prev_chunk = bytes; prev_err = o }))

  and-false : (b : Bool) → (b && false) ≡ false
  and-false true = refl
  and-false false = refl

  drained-Gives :
      (fuel room : ℕ) (out : List ℕ) (c : C) (prev : List ℕ) (e : Error)
      → Gives out room prev e (
          read_loop next
            (suc fuel)
            room
            out
            (record { chunker = c; prev_chunk = prev; prev_err = some e }))
  drained-Gives fuel room out c prev e = elim (dec_le (length prev) room) [
    | yes h ↦
        subst (λ t. Gives out room prev e t) (sym (read_loop-error fuel room out c prev e h))
          (whole refl)
    | no h ↦ read_loop-full fuel room out c prev (some e) [] (omega arith) (append-nil prev) (
        subst
          (λ t.
            Remaining (record { chunker = c; prev_chunk = drop room prev; prev_err = some e }) t e)
          (sym (append-nil (drop room prev))) (drained c (drop room prev) e))
  ]

  fetch-Gives :
      (fuel room : ℕ) (out : List ℕ) (c : C) (prev : List ℕ) {all : List ℕ} {e : Error}
      → room + 2 ≤ suc fuel + min 1 (length prev)
      → length prev ≤ room
      → Yields c all e
      → ((c' : C) (b : ℕ) (bytes rest : List ℕ)
          → room - length prev + 2 ≤ fuel + 1
          → Yields c' rest e
          → Gives (out ++ prev) (room - length prev) (b ∷ bytes ++ rest) e (
              read_loop next fuel
                (room - length prev)
                (out ++ prev)
                (record { chunker = c'; prev_chunk = b ∷ bytes; prev_err = none })))
      → Gives out room (prev ++ all) e (
          read_loop next
            (suc fuel)
            room
            out
            (record { chunker = c; prev_chunk = prev; prev_err = none }))
  fetch-Gives zero room out c prev h k (last {c' = c'} bytes e n) again = absurd (omega arith)
  fetch-Gives (suc fuel) room out c prev h k (last {c' = c'} bytes e n) again =
      subst (λ t. Gives out room (prev ++ bytes) e t)
        (sym (
          read_loop-next (suc fuel) room out c c' prev bytes (some e) k n
            (and-false (length bytes == 0))))
        (Gives-append prev (omega arith)
          (drained-Gives fuel (room - length prev) (out ++ prev) c' bytes e))
  fetch-Gives fuel room out c prev h k (more {c' = c'} b bytes {rest} {e} n y) again =
      subst (λ t. Gives out room (prev ++ (b ∷ bytes ++ rest)) e t)
        (sym (read_loop-next fuel room out c c' prev (b ∷ bytes) none k n (ground arith)))
        (Gives-append prev (omega arith) (again c' b bytes rest (omega arith) y))

  pending-Gives :
      (fuel room : ℕ) (out : List ℕ) (c : C) (prev : List ℕ) {rest : List ℕ} {e : Error}
      → room + 2 ≤ fuel + min 1 (length prev)
      → Yields c rest e
      → Gives out room (prev ++ rest) e (
          read_loop next fuel room out (record { chunker = c; prev_chunk = prev; prev_err = none }))
  pending-Gives zero room out c prev h y = absurd (omega arith)
  pending-Gives (suc fuel) room out c prev {rest} {e} h y = elim (dec_le (length prev) room) [
    | yes k ↦ fetch-Gives fuel room out c prev h k y (λ c' b bytes rest' h' y'.
        pending-Gives fuel (room - length prev) (out ++ prev) c' (b ∷ bytes) (omega arith) y')
    | no k ↦
        read_loop-full fuel room out c prev none rest (omega arith) refl
          (pending c (drop room prev) y)
  ]

  -- One call of `Read` on a buffer of any size.
  read-Gives :
      (room : ℕ) {r : ChunkReader C} {all : List ℕ} {e : Error}
      → Remaining r all e
      → Gives [] room all e (read next room r)
  unfolding read
  read-Gives room (drained c prev e) =
      let two : suc (room + 1) ≡ room + 2 = omega arith in
      subst
        (λ t.
          Gives [] room prev e (
            read_loop next t room []
              (record { chunker = c; prev_chunk = prev; prev_err = some e })))
        two (drained-Gives (room + 1) room [] c prev e)
  read-Gives room (pending c prev y) = pending-Gives (room + 2) room [] c prev (omega arith) y

  -- The end of a stream as `io.ReadAll` reports it.
  abbrev pub end_of : Error → Option Error
  end_of e = if is_eof e then none else some e

  read_all_step :
      (size : ℕ → ℕ) (fuel i : ℕ) (acc : List ℕ) (r : ChunkReader C) {all : List ℕ} {e : Error}
      (res : Result ReadResult × ChunkReader C)
      → read next (size i) r ≡ res
      → 1 ≤ size i
      → length all < suc fuel
      → Gives [] (size i) all e res
      → ((acc' : List ℕ) (r' : ChunkReader C) (rest : List ℕ)
          → length rest < fuel
          → Remaining r' rest e
          → read_all next fuel size (i + 1) acc' r' ≡ ok (acc' ++ rest, end_of e))
      → read_all next (suc fuel) size i acc r ≡ ok (acc ++ all, end_of e)
  unfolding read_all
  read_all_step size fuel i acc r {all} {e} res q pos h
        (part got rest {copied = copied} {r = r'} l a c rem) again =
      rw (q, read_all)
        (ap (λ t. read_all next fuel size (i + 1) (acc ++ copied) (t.1)) q
          ∙ ap (λ t. read_all next fuel size (i + 1) (acc ++ t) r') (sym c)
          ∙ again (acc ++ got) r' rest (omega (arith, ap length a, length-append got rest)) rem
          ∙ ap (λ t. ok (t, end_of e)) (append_assoc acc got rest ∙ ap (λ t. acc ++ t) a))
  read_all_step size fuel i acc r {all} {e} res q pos h (whole c) again =
      rw (q, read_all) (ap (λ t. ok (acc ++ t, end_of e)) (sym c))

  read_all_lem :
      (size : ℕ → ℕ)
      → ((i : ℕ) → 1 ≤ size i)
      → (fuel i : ℕ) (acc : List ℕ) {r : ChunkReader C} {all : List ℕ} {e : Error}
      → length all < fuel
      → Remaining r all e
      → read_all next fuel size i acc r ≡ ok (acc ++ all, end_of e)
  read_all_lem size pos zero i acc h r = absurd (omega arith)
  read_all_lem size pos (suc fuel) i acc {r = r'} h r =
      read_all_step size fuel i acc r' (read next (size i) r') refl (pos i) h
        (read-Gives (size i) r)
        (λ acc' r'' rest h' rem. read_all_lem size pos fuel (i + 1) acc' h' rem)

  -- For a source whose chunks up to its first error are `bytes`, none of them empty without an
  -- error: read to the end with buffers of any sizes above 0, on fuel above the length of `bytes`,
  -- a new reader gives `bytes`, and the error, with none for `io.EOF`.
  pub read_all-Yields :
      (c : C) (bytes : List ℕ) (e : Error) (size : ℕ → ℕ) (fuel : ℕ)
      → Yields c bytes e
      → ((i : ℕ) → 1 ≤ size i)
      → length bytes < fuel
      → read_all next fuel size 0 [] (new_chunk_reader next c) ≡ ok (bytes, end_of e)
  unfolding new_chunk_reader
  read_all-Yields c bytes e size fuel y pos h = read_all_lem size pos fuel 0 [] h (pending c [] y)
