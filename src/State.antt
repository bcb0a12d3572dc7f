-- ===== src/State.antt =====
-- Calls on a mutable object: they return a result and leave the object in a new state, on errors
-- too.
use saltpack.Base.{◌≡◌}
use saltpack.Errors.{Result, ok, err, panic}

abbrev pub St : Type 0 → Type 0 → Type 0
St S A = S → Result A × S

-- What follows a call: nothing after an error or a panic.
abbrev pub and_then {ℓ} :
    {S : Type 0} {A : Type 0} {R : Type ℓ} → Result A → S → (A → S → Result R × S) → Result R × S
and_then (ok a) s f = f a s
and_then (err e) s f = (err e, s)
and_then panic s f = (panic, s)

infixl 5 ◌>>=◌ ◌>>◌
abbrev pub ◌>>=◌ : {S A B : Type 0} → St S A → (A → St S B) → St S B
◌>>=◌ m f s = and_then (m s).0 (m s).1 f

abbrev pub ◌>>◌ : {S B : Type 0} → St S (Unit {0}) → St S B → St S B
m >> k = m >>= λ _. k

abbrev pub lift : {S A : Type 0} → Result A → St S A
lift r s = (r, s)

abbrev pub gets : {S A : Type 0} → (S → A) → St S A
gets f s = (ok (f s), s)

abbrev pub modify : {S : Type 0} → (S → S) → St S (Unit {0})
modify f s = (ok tt, f s)

-- Two calls that succeed, one after the other.
pub >>=_ok :
    {S A B : Type 0} (m : St S A) (f : A → St S B) (s : S) {a : A} {t : S}
    → m s ≡ (ok a, t)
    → (m >>= f) s ≡ f a t
>>=_ok m f s e = λ i. and_then (e i).0 (e i).1 f

-- A call without effects that succeeds, and any call that succeeds.
pub and_then_ok {ℓ} :
    {S A : Type 0} {R : Type ℓ} {r : Result A} {a : A} {s : S} (f : A → S → Result R × S)
    → r ≡ ok a
    → and_then r s f ≡ f a s
and_then_ok {s = s} f e = λ i. and_then (e i) s f

pub and_then_pair {ℓ} :
    {S A : Type 0} {R : Type ℓ} {p : Result A × S} {a : A} {t : S} (f : A → S → Result R × S)
    → p ≡ (ok a, t)
    → and_then p.0 p.1 f ≡ f a t
and_then_pair f e = λ i. and_then (e i).0 (e i).1 f
