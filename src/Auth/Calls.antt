-- ===== src/Auth/Calls.antt =====
-- auth.rs: the calls that a caller of `AuthSession` makes, in any order.
use libreatrust.Base.{
  List, Option, Text, [], ap, arith, is_empty, none, refl, some, subst, sym, true, ℕ, ◌∙◌, ◌∷◌, ◌≡◌,
}
use libreatrust.Types.{
  AuthChallenge, AuthConfig, CookieRecord, PasswordLoginInput, SessionMaterial, SmsLoginInput,
}
use libreatrust.Auth.{
  Auth, AuthSession, PendingFlow, Response, Services, auth_step_flow, lift, password_flow,
  sms_login_flow, sms_verify_flow,
}
use libreatrust.Error.{AtrResult, ok}
use libreatrust.Auth.Http.{add_cookie, micros, random_hex}
use libreatrust.Auth.Requests.{ask, auth_config_init}
use libreatrust.Auth.Answers.{extract_ticket_from_callback, online_info}
use libreatrust.Auth.Login.{continue_auth, sync_sid_from_cookies}
use libreatrust.Auth.Session.{
  answer_captcha, answer_sms, available_methods, build_connection_id, complete_auth_step,
  complete_callback, complete_callback_with_device, login_with_password, login_with_sms,
  new_session, reset_identity, submit_captcha, submit_sms_code,
}
use libreatrust.Auth.Stored.{
  cached_or_fetched, check_login, client_resource_bytes, fetch_client_resource, import_cookies,
  import_session, require_login, resume_session,
}
use libreatrust.Auth.Quiet.{
  IsQuiet, Keeps, ask-IsQuiet, auth_config_impl-IsQuiet, bind-IsQuiet, bind-Keeps, if-IsQuiet,
  install_cookie-core, pending_of, quiet-Keeps,
}
use libreatrust.Auth.Quiet.Questions.{
  complete_auth_step-IsQuiet, extract_ticket_from_callback-IsQuiet, online_info-IsQuiet,
}
use libreatrust.Auth.Challenge.{
  Challenged, Challenged-IsSound, IsSound, err-Challenged, quiet-Challenged, sync_sid-pending,
}
use libreatrust.Auth.Challenge.Flows.{
  auth_rounds-Challenged, finish_login-Challenged, run_password-Challenged, run_sms_send-Challenged,
  run_sms_verify-Challenged,
}

-- The calls that answer with a challenge.
pub data Call : Type 0 where
  password_call : PasswordLoginInput → Text → Call
  sms_call : SmsLoginInput → Text → Call
  captcha_call : Text → Call
  code_call : Text → Call
  callback_call : Text → Call
  callback_with_device_call : Text → Text → Call

module _ (services : Services) where
  unfoldable pub run : Call → Auth AuthChallenge
  run (password_call input device_id) = login_with_password services input device_id
  run (sms_call input device_id) = login_with_sms services input device_id
  run (captcha_call captcha) = submit_captcha services captcha
  run (code_call code) = submit_sms_code services code
  run (callback_call url) = complete_callback services url
  run (callback_with_device_call url device_id) =
      complete_callback_with_device services url device_id

  -- What a caller can do to a session.
  pub data Step (s : AuthSession) : AuthSession → Type 0 where
    called : (c : Call) → Step s (run c s).1
    prepared : (device_id : Text) → Step s (reset_identity services device_id s).1
    imported : (session : SessionMaterial) → Step s (import_session services session s).1
    resumed : (session : SessionMaterial) → Step s (resume_session services session s).1
    listed : Step s (available_methods services s).1
    fetched : Step s (client_resource_bytes services s).1

  pub data Reach (s : AuthSession) : AuthSession → Type 0 where
    here : Reach s s
    next : {t u : AuthSession} → Reach s t → Step t u → Reach s u

  answer_captcha-Challenged :
      (flow : Option PendingFlow) (captcha : Text) (s : AuthSession)
      → IsSound s.core.pending
      → Challenged services (answer_captcha services flow captcha s)
  unfolding answer_captcha
  answer_captcha-Challenged none captcha s h = err-Challenged services _ s h
  answer_captcha-Challenged (some (password_flow input)) captcha s h =
      run_password-Challenged services input captcha s h
  answer_captcha-Challenged (some (sms_login_flow input)) captcha s h =
      run_sms_send-Challenged services input captcha s h
  answer_captcha-Challenged (some (sms_verify_flow phone login_domain code)) captcha s h =
      run_sms_verify-Challenged services phone login_domain code captcha s h
  answer_captcha-Challenged (some (auth_step_flow step)) captcha s h = err-Challenged services _ s h

  answer_sms-Challenged :
      (flow : Option PendingFlow) (code : Text) (s : AuthSession)
      → IsSound s.core.pending
      → Challenged services (answer_sms services flow code s)
  unfolding answer_sms continue_auth
  answer_sms-Challenged none code s h = err-Challenged services _ s h
  answer_sms-Challenged (some (password_flow input)) code s h = err-Challenged services _ s h
  answer_sms-Challenged (some (sms_login_flow input)) code s h =
      run_sms_verify-Challenged services input.phone input.login_domain code [] _ tt
  answer_sms-Challenged (some (sms_verify_flow phone login_domain old)) code s h =
      run_sms_verify-Challenged services phone login_domain code [] s h
  answer_sms-Challenged (some (auth_step_flow step)) code s h =
      quiet-Challenged services (complete_auth_step services step _ _) _ s
        (complete_auth_step-IsQuiet services step _ _) h (auth_rounds-Challenged services 8)

  complete_callback-Challenged :
      (url : Text) (s : AuthSession)
      → IsSound s.core.pending
      → Challenged services (complete_callback services url s)
  unfolding complete_callback
  complete_callback-Challenged url s h =
      quiet-Challenged services (lift (services.parse_url url)) _ s (λ t. refl) h
        (λ callback s1 h1.
          quiet-Challenged services (extract_ticket_from_callback services callback) _ s1
            (extract_ticket_from_callback-IsQuiet services callback) h1
            (λ ticket s2 h2. finish_login-Challenged services true _ h2))

  reset_identity-pending :
      (device_id : Text) (s : AuthSession)
      → (reset_identity services device_id s).1.core.pending ≡ none
  unfolding reset_identity build_connection_id micros random_hex
  reset_identity-pending device_id s = refl

  run-Challenged :
      (c : Call) (s : AuthSession) → IsSound s.core.pending → Challenged services (run c s)
  unfolding run login_with_password login_with_sms submit_captcha submit_sms_code
      complete_callback_with_device reset_identity build_connection_id micros random_hex
  run-Challenged (password_call input device_id) s h =
      run_password-Challenged services input [] _ tt
  run-Challenged (sms_call input device_id) s h = run_sms_send-Challenged services input [] _ tt
  run-Challenged (captcha_call captcha) s h = answer_captcha-Challenged s.core.pending captcha s h
  run-Challenged (code_call code) s h = answer_sms-Challenged s.core.pending code s h
  run-Challenged (callback_call url) s h = complete_callback-Challenged url s h
  run-Challenged (callback_with_device_call url device_id) s h =
      complete_callback-Challenged url _ tt

  import_cookies-core :
      (cookies : List CookieRecord) (s : AuthSession)
      → (import_cookies services cookies s).core ≡ s.core
  unfolding import_cookies
  import_cookies-core [] s = refl
  import_cookies-core (cookie ∷ cookies) s =
      import_cookies-core cookies (add_cookie services cookie s)
      ∙ install_cookie-core services cookie s

  import_session-pending :
      (session : SessionMaterial) → Keeps pending_of (import_session services session)
  unfolding import_session build_connection_id micros random_hex
  import_session-pending session s = ap (λ c. c.pending) (import_cookies-core session.cookies _)

  check_login-IsQuiet : IsQuiet (check_login services)
  unfolding check_login
  check_login-IsQuiet =
      bind-IsQuiet (auth_config_init services) _ (auth_config_impl-IsQuiet services _)
        (λ config s. refl)

  resume_session-pending :
      (session : SessionMaterial) → Keeps pending_of (resume_session services session)
  unfolding resume_session sync_sid_from_cookies
  resume_session-pending session =
      bind-Keeps pending_of (import_session services session) _ (import_session-pending session)
        (λ u1.
          bind-Keeps pending_of (check_login services) _
            (quiet-Keeps pending_of (check_login services) check_login-IsQuiet)
            (λ u2.
              bind-Keeps pending_of (online_info services) _
                (quiet-Keeps pending_of (online_info services) (online_info-IsQuiet services))
                (λ username s.
                  sync_sid-pending services
                    (record s { core = record s.core { username = username } }))))

  fetch_client_resource-IsQuiet : IsQuiet (fetch_client_resource services)
  unfolding fetch_client_resource require_login
  fetch_client_resource-IsQuiet =
      bind-IsQuiet (require_login services) _
        (λ s. if-IsQuiet (is_empty s.core.ticket) _ _ check_login-IsQuiet (λ t. refl) s)
        (λ u. bind-IsQuiet (ask services _) _ (ask-IsQuiet services _) (λ response.
          bind-IsQuiet (lift response.body) _ (λ s. refl)
            (λ bytes. bind-IsQuiet (lift _) _ (λ s. refl) (λ v s. refl))))

  cached_or_fetched-pending :
      (cached : Option (List ℕ)) → Keeps pending_of (cached_or_fetched services cached)
  unfolding cached_or_fetched
  cached_or_fetched-pending (some bytes) = λ s. refl
  cached_or_fetched-pending none =
      bind-Keeps pending_of (fetch_client_resource services) _
        (quiet-Keeps pending_of (fetch_client_resource services) fetch_client_resource-IsQuiet)
        (λ bytes s. refl)

  available_methods-pending : Keeps pending_of (available_methods services)
  unfolding available_methods
  available_methods-pending =
      bind-Keeps pending_of (auth_config_init services) _
        (quiet-Keeps pending_of (auth_config_init services) (auth_config_impl-IsQuiet services _))
        (λ config s. refl)

  Step-IsSound : {s t : AuthSession} → Step s t → IsSound s.core.pending → IsSound t.core.pending
  unfolding client_resource_bytes
  Step-IsSound {s} (called c) h =
      Challenged-IsSound services (run c s).0 (run c s).1 (run-Challenged c s h)
  Step-IsSound {s} (prepared device_id) h =
      subst IsSound (sym (reset_identity-pending device_id s)) tt
  Step-IsSound {s} (imported session) h = subst IsSound (sym (import_session-pending session s)) h
  Step-IsSound {s} (resumed session) h = subst IsSound (sym (resume_session-pending session s)) h
  Step-IsSound {s} listed h = subst IsSound (sym (available_methods-pending s)) h
  Step-IsSound {s} fetched h =
      subst IsSound (sym (cached_or_fetched-pending s.core.client_resource_bytes s)) h

  Reach-IsSound : {s t : AuthSession} → IsSound s.core.pending → Reach s t → IsSound t.core.pending
  Reach-IsSound h here = h
  Reach-IsSound h (next r step) = Step-IsSound step (Reach-IsSound h r)

  new_session-pending :
      (build_client : AuthConfig → AtrResult (Unit {0})) (config : AuthConfig)
      (replies : List (AtrResult Response)) (s : AuthSession)
      → new_session services build_client config replies ≡ ok s
      → s.core.pending ≡ none
  unfolding new_session random_hex
  new_session-pending build_client config replies s e = ground arith

  -- After any sequence of calls to a new session, and whatever the server replies, the next call
  -- that answers with a challenge leaves a session that can take the answer: a captcha is asked
  -- for where a flow waits that takes one, a code with the id of the step by SMS that waits for
  -- it, no callback is asked for, a login that is done returns the session's own material and
  -- leaves nothing waiting, and after an error a waiting step by SMS has its mode.
  pub run-Reach :
      (build_client : AuthConfig → AtrResult (Unit {0})) (config : AuthConfig)
      (replies : List (AtrResult Response)) (s t : AuthSession) (c : Call)
      → new_session services build_client config replies ≡ ok s
      → Reach s t
      → Challenged services (run c t)
  run-Reach build_client config replies s t c e r = run-Challenged c t (
      Reach-IsSound (subst IsSound (sym (new_session-pending build_client config replies s e)) tt)
        r)
