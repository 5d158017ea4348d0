-- ===== src/Error.antt =====
-- crates/libreatrust-core/src/error.rs: error codes and errors, and the results that carry them.
use libreatrust.Base.{Bool, List, String, Text, false, inl, inr, refl, true, ℕ, ◌&&◌, ◌≡◌, ◌⊎◌}

-- The text of an error: a literal, a literal with a run-time text put in, or the bytes that a
-- peer sent, read as text.
pub data Message : Type 0 where
  literal : String → Message
  about : String → Text → Message
  lossy : List ℕ → Message

pub data ErrorCode : Type 0 where
  ok_code invalid_argument_code parse_failed_code network_failed_code unauthorized_code : ErrorCode
  challenge_required_code invalid_state_code crypto_failed_code not_found_code : ErrorCode
  unsupported_code internal_code : ErrorCode

-- The `i32` of a code, as `#[repr(i32)]` fixes it.
pub discriminant : ErrorCode → ℕ
discriminant ok_code = 0
discriminant invalid_argument_code = 1
discriminant parse_failed_code = 2
discriminant network_failed_code = 3
discriminant unauthorized_code = 4
discriminant challenge_required_code = 5
discriminant invalid_state_code = 6
discriminant crypto_failed_code = 7
discriminant not_found_code = 8
discriminant unsupported_code = 9
discriminant internal_code = 255

pub data AtrError : Type 0 where
  invalid_argument : Message → AtrError
  parse_failed : Message → AtrError
  network_failed : Message → AtrError
  unauthorized : Message → AtrError
  challenge_required : Message → AtrError
  invalid_state : Message → AtrError
  crypto_failed : Message → AtrError
  not_found : Message → AtrError
  unsupported : Message → AtrError
  internal : Message → AtrError

-- `AtrError::code`
unfoldable pub error_code : AtrError → ErrorCode
error_code (invalid_argument m) = invalid_argument_code
error_code (parse_failed m) = parse_failed_code
error_code (network_failed m) = network_failed_code
error_code (unauthorized m) = unauthorized_code
error_code (challenge_required m) = challenge_required_code
error_code (invalid_state m) = invalid_state_code
error_code (crypto_failed m) = crypto_failed_code
error_code (not_found m) = not_found_code
error_code (unsupported m) = unsupported_code
error_code (internal m) = internal_code

-- `AtrResult<T>`
pub data AtrResult {ℓ} (A : Type ℓ) : Type ℓ where
  ok : A → AtrResult A
  err : AtrError → AtrResult A

-- `?`
infixl 5 ◌>>=◌ ◌>>◌
abbrev pub ◌>>=◌ {ℓ κ} : {A : Type ℓ} {B : Type κ} → AtrResult A → (A → AtrResult B) → AtrResult B
ok a >>= f = f a
err e >>= f = err e

abbrev pub ◌>>◌ {ℓ} : {B : Type ℓ} → AtrResult (Unit {0}) → AtrResult B → AtrResult B
m >> k = m >>= λ _. k

abbrev pub is_ok {ℓ} : {A : Type ℓ} → AtrResult A → Bool
is_ok (ok a) = true
is_ok (err e) = false

-- A chain succeeds if its first step does, and what follows does for every value.
pub is_ok-bind {ℓ κ} :
    {A : Type ℓ} {B : Type κ} (m : AtrResult A) (f : A → AtrResult B) (b : Bool)
    → ((a : A) → is_ok (f a) ≡ b)
    → is_ok (m >>= f) ≡ (is_ok m && b)
is_ok-bind (ok a) f b h = h a
is_ok-bind (err e) f b h = refl

-- What every error of a chain satisfies.
err-bind {ℓ κ} :
    {A : Type ℓ} {B : Type κ} (P : AtrError → Type 0) (m : AtrResult A) (f : A → AtrResult B)
    → ((e : AtrError) → m ≡ err e → P e)
    → ((a : A) (e : AtrError) → f a ≡ err e → P e)
    → (e : AtrError) → (m >>= f) ≡ err e
    → P e
err-bind P (ok a) f hm hf e h = hf a e h
err-bind P (err d) f hm hf e h = hm e (cc)

pub AtrResult-cases {ℓ} :
    {A : Type ℓ} (r : AtrResult A) → ((a : A) × (r ≡ ok a)) ⊎ ((e : AtrError) × (r ≡ err e))
AtrResult-cases (ok a) = inl (a, refl)
AtrResult-cases (err e) = inr (e, refl)
