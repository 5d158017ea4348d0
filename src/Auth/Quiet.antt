-- ===== src/Auth/Quiet.antt =====
-- auth.rs: the methods that ask the server one question change the cookies and the keys of the
-- server, and nothing of who logs in and how far the login has come.
pub mod Questions
use libreatrust.Base.{
  Bool, List, Option, Text, [], ap, arith, false, if◌then◌else◌, inl, inr, refl, true, ℕ, ◌∙◌, ◌∷◌,
  ◌≡◌,
}
use libreatrust.Types.{CookieRecord}
use libreatrust.Auth.{
  Auth, AuthSession, Core, PendingFlow, Request, Response, Services, continue_with, drop_result,
  lift, ◌>>=◌,
}
use libreatrust.Error.{AtrResult, AtrResult-cases, err, ok}
use libreatrust.Auth.Http.{
  add_cookie, capture_cookies, exchange, install_cookie, millis, parse_set_cookie, read_body, send,
  trace_id,
}
use libreatrust.Auth.Requests.{ask, auth_config_impl}

-- A step that leaves the core as it was, however it ends.
abbrev pub IsQuiet {ℓ} : {A : Type ℓ} → Auth A → Type 0
IsQuiet m = (s : AuthSession) → (m s).1.core ≡ s.core

continue_with-core {ℓ κ} :
    {A : Type ℓ} {B : Type κ} (f : A → Auth B) (r : AtrResult A) (s : AuthSession)
    → ((a : A) → IsQuiet (f a))
    → (continue_with f (r, s)).1.core ≡ s.core
continue_with-core f (ok a) s h = h a s
continue_with-core f (err e) s h = refl

pub bind-IsQuiet {ℓ κ} :
    {A : Type ℓ} {B : Type κ} (m : Auth A) (f : A → Auth B)
    → IsQuiet m
    → ((a : A) → IsQuiet (f a))
    → IsQuiet (m >>= f)
bind-IsQuiet m f hm hf s = continue_with-core f (m s).0 (m s).1 hf ∙ hm s

lift-IsQuiet {ℓ} : {A : Type ℓ} (r : AtrResult A) → IsQuiet (lift r)
lift-IsQuiet r s = refl

pub drop_result-IsQuiet {ℓ} : {A : Type ℓ} (m : Auth A) → IsQuiet m → IsQuiet (drop_result m)
drop_result-IsQuiet m h = bind-IsQuiet m _ h (λ a s. refl)

pub if-IsQuiet {ℓ} :
    {A : Type ℓ} (b : Bool) (m k : Auth A) → IsQuiet m → IsQuiet k → IsQuiet (if b then m else k)
if-IsQuiet true m k hm hk = hm
if-IsQuiet false m k hm hk = hk

abbrev pub pending_of : Core → Option PendingFlow
pending_of c = c.pending

abbrev pub bytes_of : Core → Option (List ℕ)
bytes_of c = c.client_resource_bytes

-- A step that leaves a part of the core as it was, however it ends.
abbrev pub Keeps {ℓ} : {A : Type ℓ} {X : Type 0} → (Core → X) → Auth A → Type 0
Keeps part m = (s : AuthSession) → part (m s).1.core ≡ part s.core

pub quiet-Keeps {ℓ} :
    {A : Type ℓ} {X : Type 0} (part : Core → X) (m : Auth A) → IsQuiet m → Keeps part m
quiet-Keeps part m q s = ap part (q s)

continue_with-part {ℓ κ} :
    {A : Type ℓ} {B : Type κ} {X : Type 0} (part : Core → X) (f : A → Auth B) (r : AtrResult A)
    (s : AuthSession)
    → ((a : A) → Keeps part (f a))
    → part (continue_with f (r, s)).1.core ≡ part s.core
continue_with-part part f (ok a) s h = h a s
continue_with-part part f (err e) s h = refl

pub bind-Keeps {ℓ κ} :
    {A : Type ℓ} {B : Type κ} {X : Type 0} (part : Core → X) (m : Auth A) (f : A → Auth B)
    → Keeps part m
    → ((a : A) → Keeps part (f a))
    → Keeps part (m >>= f)
bind-Keeps part m f hm hf s = continue_with-part part f (m s).0 (m s).1 hf ∙ hm s

pub if-Keeps {ℓ} :
    {A : Type ℓ} {X : Type 0} (part : Core → X) (b : Bool) (m k : Auth A)
    → Keeps part m
    → Keeps part k
    → Keeps part (if b then m else k)
if-Keeps part true m k hm hk = hm
if-Keeps part false m k hm hk = hk

module _ (services : Services) where
  pub install_cookie-core :
      (cookie : CookieRecord) (s : AuthSession) → (install_cookie services cookie s).core ≡ s.core
  unfolding install_cookie
  install_cookie-core cookie s = ground arith

  capture_cookies-core :
      (values : List (List ℕ)) (s : AuthSession) → (capture_cookies services values s).core ≡ s.core
  unfolding capture_cookies
  capture_cookies-core [] s = refl
  capture_cookies-core (value ∷ values) s =
      elim (AtrResult-cases (parse_set_cookie services.header_text value s.base_host)) [
        | inl (cookie, e) ↦
            rw (e, capture_cookies)
              (capture_cookies-core values (add_cookie services cookie s)
                ∙ install_cookie-core cookie s)
        | inr (d, e) ↦ rw (e, capture_cookies) (capture_cookies-core values s)
      ]

  send-IsQuiet : (request : Request) → IsQuiet (send services request)
  unfolding send
  send-IsQuiet request s = ground arith

  pub exchange-IsQuiet : (request : Request) → IsQuiet (exchange services request)
  unfolding exchange
  exchange-IsQuiet request =
      bind-IsQuiet (send services request) _ (send-IsQuiet request)
        (λ response s. capture_cookies-core response.set_cookies s)

  pub ask-IsQuiet : (make : AuthSession → Text → Request) → IsQuiet (ask services make)
  unfolding ask trace_id millis
  ask-IsQuiet make s = exchange-IsQuiet _ _

  pub read_body-IsQuiet :
      {A : Type 0} (read : List ℕ → AtrResult A) (response : Response)
      → IsQuiet (read_body services read response)
  unfolding read_body
  read_body-IsQuiet read response =
      bind-IsQuiet (lift response.body) _ (λ s. refl) (λ bytes s. refl)

  -- A question whose answer is read, and then what depends on the answer alone.
  pub asked-IsQuiet {κ} :
      {A : Type 0} {B : Type κ} (make : AuthSession → Text → Request) (read : List ℕ → AtrResult A)
      (f : A → Auth B)
      → ((a : A) → IsQuiet (f a))
      → IsQuiet (ask services make >>= λ response. read_body services read response >>= f)
  asked-IsQuiet make read f h = bind-IsQuiet (ask services make) _ (ask-IsQuiet make) (λ response.
      bind-IsQuiet (read_body services read response) f (read_body-IsQuiet read response) h)

  pub auth_config_impl-IsQuiet :
      (extra : List (Text × Text)) → IsQuiet (auth_config_impl services extra)
  unfolding auth_config_impl
  auth_config_impl-IsQuiet extra = asked-IsQuiet _ services.read_auth_config _ (λ parsed s. refl)
