-- ===== src/Auth/Traffic.antt =====
-- auth.rs: how many requests the calls send.
pub mod Questions
pub mod Bounds
use libreatrust.Base.{
  Bool, List, Text, [], ap, arith, false, if◌then◌else◌, length, length-append, true, ℕ, ◌+◌, ◌∷◌,
  ◌≤◌,
}
use libreatrust.Auth.{
  Auth, AuthSession, Request, Response, Services, continue_with, lift, pure, raise_if, ◌>>=◌, ◌>>◌,
}
use libreatrust.Error.{AtrError, AtrResult, err, ok}
use libreatrust.Auth.Http.{exchange, millis, read_body, trace_id}
use libreatrust.Auth.Requests.{ask}
use libreatrust.Auth.Asked.{exchange-sent}

-- At most `n` requests are sent, however the step ends.
abbrev pub Asks {ℓ} : {A : Type ℓ} → ℕ → Auth A → Type 0
Asks n m = (s : AuthSession) → length (m s).1.sent ≤ length s.sent + n

continue_with-Asks {ℓ κ} :
    {A : Type ℓ} {B : Type κ} (n : ℕ) (f : A → Auth B) (r : AtrResult A) (s : AuthSession)
    → ((a : A) → Asks n (f a))
    → length (continue_with f (r, s)).1.sent ≤ length s.sent + n
continue_with-Asks n f (ok a) s h = h a s
continue_with-Asks n f (err e) s h = omega arith

pub bind-Asks {ℓ κ} :
    {A : Type ℓ} {B : Type κ} (n k : ℕ) (m : Auth A) (f : A → Auth B)
    → Asks n m
    → ((a : A) → Asks k (f a))
    → Asks (n + k) (m >>= f)
bind-Asks n k m f hm hf s = omega (arith, continue_with-Asks k f (m s).0 (m s).1 hf, hm s)

pub Asks-le {ℓ} : {A : Type ℓ} (n k : ℕ) (m : Auth A) → n ≤ k → Asks n m → Asks k m
Asks-le n k m h a s = omega (arith, a s)

pub if-Asks {ℓ} :
    {A : Type ℓ} (n : ℕ) (b : Bool) (m k : Auth A)
    → Asks n m
    → Asks n k
    → Asks n (if b then m else k)
if-Asks n true m k hm hk = hm
if-Asks n false m k hm hk = hk

pub guarded-Asks {ℓ} :
    {A : Type ℓ} (c : Bool) (e : AtrError) (a : A) → Asks 0 (raise_if c e >> pure a)
guarded-Asks c e a = bind-Asks 0 0 (raise_if c e) _ (λ s. omega arith) (λ u s. omega arith)

pub lifted-Asks {ℓ κ} :
    {A : Type ℓ} {B : Type κ} (r : AtrResult A) (f : A → AtrResult B)
    → Asks 0 (lift r >>= λ a. lift (f a))
lifted-Asks r f = bind-Asks 0 0 (lift r) (λ a. lift (f a)) (λ s. omega arith) (λ a s. omega arith)

module _ (services : Services) where
  pub exchange-Asks : (request : Request) → Asks 1 (exchange services request)
  exchange-Asks request s =
      omega
        (arith, ap length (exchange-sent services request s), length-append s.sent (request ∷ []))

  pub ask-Asks : (make : AuthSession → Text → Request) → Asks 1 (ask services make)
  unfolding ask trace_id millis
  ask-Asks make s = exchange-Asks _ (record s { readings = s.readings + 1 })

  pub read_body-Asks :
      {A : Type 0} (read : List ℕ → AtrResult A) (response : Response)
      → Asks 0 (read_body services read response)
  unfolding read_body
  read_body-Asks read response =
      bind-Asks 0 0 (lift response.body) _ (λ s. omega arith) (λ bytes s. omega arith)

  -- One question, its answer, and what depends on the answer alone.
  pub asked-Asks {κ} :
      {A : Type 0} {B : Type κ} (make : AuthSession → Text → Request) (read : List ℕ → AtrResult A)
      (f : A → Auth B)
      → ((a : A) → Asks 0 (f a))
      → Asks 1 (ask services make >>= λ response. read_body services read response >>= f)
  asked-Asks make read f h = bind-Asks 1 0 (ask services make) _ (ask-Asks make) (λ response.
      bind-Asks 0 0 (read_body services read response) f (read_body-Asks read response) h)

  pub checked-Asks {ℓ} :
      {A : Type 0} {B : Type ℓ} (make : AuthSession → Text → Request) (read : List ℕ → AtrResult A)
      (refused : A → Bool) (e : A → AtrError) (value : A → B)
      → Asks 1 (
          ask services make >>= λ response.
          read_body services read response >>= λ a. raise_if (refused a) (e a) >> pure (value a))
  checked-Asks make read refused e value =
      asked-Asks make read _ (λ a. guarded-Asks (refused a) (e a) (value a))
