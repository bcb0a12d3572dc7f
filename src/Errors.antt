-- ===== src/Errors.antt =====
-- errors.go, with the error values of io and of the armor reader that the program passes on, and
-- Go's ways to end a call. Of an error that only carries a text for a human, the text is left out.
use saltpack.Base.{ℕ, ◌≡◌, refl, ap, Bool, true, false, List}
use saltpack.Const.{Version, MessageType}

pub data Error : Type 0 where
  no_decryption_key trailing_garbage failed_to_read_header_bytes packet_overflow : Error
  insufficient_randomness bad_ephemeral_key bad_receivers bad_sender_key_secretbox : Error
  bad_symmetric_key bad_box_key bad_lookup bad_signature decryption_failed : Error
  wrong_number_of_keys unexpected_empty_block short_slice_or_buffer : Error
  not_a_saltpack_message : Error
  no_sender_key : List ℕ → Error
  bad_tag : ℕ → Error
  bad_ciphertext : ℕ → Error
  repeated_key : List ℕ → Error
  wrong_message_type : MessageType → MessageType → Error
  bad_version : Version → Error
  bad_frame invalid_parameter : Error
  -- `io.EOF` and `io.ErrUnexpectedEOF`
  eof unexpected_eof : Error
  -- punctuated_reader.go
  punctuated overflow : Error
  -- encoding/basex
  corrupt_input : ℕ → Error
  invalid_encoding_length : Error
  -- any other error, of a codec, a key or a writer that the program does not implement
  external : ℕ → Error

-- A call that returns `(a, nil)`, that returns an error, or that panics.
pub data Result {ℓ} (Value : Type ℓ) : Type ℓ where
  panic : Result Value
  err : Error → Result Value
  ok : Value → Result Value

infixl 5 ◌>>=◌ ◌>>◌
-- The next call is made only after a value.
abbrev pub ◌>>=◌ {ℓ₁ ℓ₂} :
    {A : Type ℓ₁} {B : Type ℓ₂} (first : Result A) → (A → Result B) → Result B
panic >>= next = panic
err why >>= next = err why
ok value >>= next = next value

abbrev pub ◌>>◌ {ℓ₁} : {B : Type ℓ₁} (check : Result (Unit {0})) → Result B → Result B
check >> next = check >>= λ _. next

-- `if test { return e }`
abbrev pub fail_if : Bool → Error → Result (Unit {0})
fail_if true e = err e
fail_if false e = ok tt

-- `if test { panic(...) }`
abbrev pub panic_if : Bool → Result (Unit {0})
panic_if true = panic
panic_if false = ok tt

-- `errors.Is(err, io.EOF)` and the like test for one value.
abbrev pub is_eof : Error → Bool
is_eof eof = true
is_eof _ = false

abbrev pub is_punctuated : Error → Bool
is_punctuated punctuated = true
is_punctuated _ = false

-- A chain that succeeds has a first call that does.
pub >>=-eq-ok {ℓ₁ ℓ₂} :
    {A : Type ℓ₁} {B : Type ℓ₂} (first : Result A) (next : A → Result B) {b : B}
    → (first >>= next) ≡ ok b
    → (value : A) × (first ≡ ok value) × (next value ≡ ok b)
>>=-eq-ok panic next h = cc
>>=-eq-ok (err why) next h = cc
>>=-eq-ok (ok value) next h = (value, refl, h)

-- What follows a call that succeeds.
pub >>=_ok {ℓ κ} :
    {A : Type ℓ} {B : Type κ} {m : Result A} {a : A} (f : A → Result B) → m ≡ ok a → (m >>= f) ≡ f a
>>=_ok f e = ap (λ t. t >>= f) e
