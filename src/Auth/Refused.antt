-- ===== src/Auth/Refused.antt =====
-- auth.rs: a code by SMS that the server refuses.
use libreatrust.Base.{List, Text, [], ap, arith, false, refl, ℕ, ◌+◌, ◌∙◌, ◌∷◌, ◌≡◌}
use libreatrust.Auth.{
  Auth, AuthSession, PasswordResponse, Request, Response, Services, continue_with, ◌>>=◌,
}
use libreatrust.Error.{AtrResult, err, invalid_state, literal, ok}
use libreatrust.Auth.Http.{exchange, millis, read_body, send, trace_id}
use libreatrust.Auth.Requests.{ask, post_sms_verify}
use libreatrust.Auth.Answers.{report_env}
use libreatrust.Auth.Login.{
  config_if, finish_login, login_with_ticket, run_sms_verify, sync_sid_from_cookies,
}

-- A first step that returns hands its value on.
bind-ok {ℓ κ} :
    {A : Type ℓ} {B : Type κ} (m : Auth A) (f : A → Auth B) (s : AuthSession) (a : A)
    → (m s).0 ≡ ok a
    → (m >>= f) s ≡ f a (m s).1
bind-ok m f s a h = ap (λ r. continue_with f (r, (m s).1)) h

module _ (services : Services) where
  send-reply :
      (request : Request) (s : AuthSession) (response : Response) (rest : List (AtrResult Response))
      → s.replies ≡ ok response ∷ rest
      → (send services request s).0 ≡ ok response
  unfolding send
  send-reply request s response rest e = rw (e, send) refl

  -- The next reply answers a question.
  exchange-reply :
      (request : Request) (s : AuthSession) (response : Response) (rest : List (AtrResult Response))
      → s.replies ≡ ok response ∷ rest
      → (exchange services request s).0 ≡ ok response
  unfolding exchange
  exchange-reply request s response rest e =
      ap (λ r. r.0)
        (bind-ok (send services request) _ s response (send-reply request s response rest e))

  read_body-reply :
      {A : Type 0} (read : List ℕ → AtrResult A) (response : Response) (bytes : List ℕ) (a : A)
      (s : AuthSession)
      → response.body ≡ ok bytes
      → read bytes ≡ ok a
      → (read_body services read response s).0 ≡ ok a
  unfolding read_body
  read_body-reply read response bytes a s b r = rw b r

  post_sms_verify-reply :
      (phone login_domain code captcha : Text) (s : AuthSession) (response : Response)
      (rest : List (AtrResult Response)) (bytes : List ℕ) (parsed : PasswordResponse)
      → s.replies ≡ ok response ∷ rest
      → response.body ≡ ok bytes
      → services.read_sms bytes ≡ ok parsed
      → (post_sms_verify services phone login_domain code captcha s).0 ≡ ok parsed
  unfolding post_sms_verify ask trace_id millis
  post_sms_verify-reply phone login_domain code captcha s response rest bytes parsed e b r =
      ap (λ p. p.0)
        (bind-ok (exchange services _) (read_body services services.read_sms)
          (record s { readings = s.readings + 1 }) response
          (exchange-reply _ (record s { readings = s.readings + 1 }) response rest e))
      ∙ read_body-reply services.read_sms response bytes parsed _ b r

  -- Without a ticket the environment is not reported.
  finish_login-no_ticket :
      (s : AuthSession)
      → s.core.ticket ≡ []
      → (finish_login services false s).0 ≡ err (invalid_state (literal "ticket is empty"))
  unfolding finish_login config_if report_env
  finish_login-no_ticket s e = rw e refl

  sync_sid-ticket :
      (s : AuthSession) → (sync_sid_from_cookies services s).1.core.ticket ≡ s.core.ticket
  unfolding sync_sid_from_cookies
  sync_sid-ticket s = ground arith

  login_with_ticket-none :
      (s : AuthSession)
      → (login_with_ticket services [] s).0 ≡ err (invalid_state (literal "ticket is empty"))
  unfolding login_with_ticket sync_sid_from_cookies
  login_with_ticket-none s =
      let named : AuthSession = record s { core = record s.core { ticket = [] } } in
      finish_login-no_ticket (sync_sid_from_cookies services named).1 (sync_sid-ticket named)

  -- Where the answer to a code by SMS has no ticket and asks for no captcha, the login ends with
  -- `InvalidState` and the text "ticket is empty", whatever code and message the answer has.
  pub run_sms_verify-refused :
      (phone login_domain code captcha : Text) (s : AuthSession) (response : Response)
      (rest : List (AtrResult Response)) (bytes : List ℕ) (parsed : PasswordResponse)
      → s.replies ≡ ok response ∷ rest
      → response.body ≡ ok bytes
      → services.read_sms bytes ≡ ok parsed
      → parsed.ticket ≡ []
      → parsed.graph_check_code_enable.size ≡ 0
      → (run_sms_verify services phone login_domain code captcha s).0
        ≡ err (invalid_state (literal "ticket is empty"))
  unfolding run_sms_verify
  run_sms_verify-refused phone login_domain code captcha s response rest bytes parsed e b r t g =
      ap (λ p. p.0)
        (bind-ok (post_sms_verify services phone login_domain code captcha) _ s parsed (
          post_sms_verify-reply phone login_domain code captcha s response rest bytes parsed e b r))
      ∙ rw g (rw t (login_with_ticket-none _))
