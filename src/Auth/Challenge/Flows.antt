-- ===== src/Auth/Challenge/Flows.antt =====
-- auth.rs: the methods that run a login leave a flow that its answer can use.
use libreatrust.Base.{
  Bool, Text, codes, false, is_empty, not, refl, some, subst, suc, sym, text_eq, zero, ℕ, ◌&&◌,
}
use libreatrust.Types.{PasswordLoginInput, SmsLoginInput}
use libreatrust.Auth.{
  AuthSession, AuthStep, PendingFlow, Services, is_zero, password_flow, sms_login_flow,
  sms_verify_flow, ◌>>=◌,
}
use libreatrust.Auth.Requests.{auth_config_init, post_password, post_sms_verify, send_sms}
use libreatrust.Auth.Answers.{auth_check, fetch_captcha, report_env}
use libreatrust.Auth.Login.{
  ask_captcha, auth_rounds, begin_sms, config_if, continue_auth, finish_login, login_with_ticket,
  run_password, run_sms_send, run_sms_verify, sync_sid_from_cookies,
}
use libreatrust.Auth.Quiet.{auth_config_impl-IsQuiet}
use libreatrust.Auth.Quiet.Questions.{
  auth_check-IsQuiet, config_if-IsQuiet, fetch_captcha-IsQuiet, post_password-IsQuiet,
  post_sms_verify-IsQuiet, report_env-IsQuiet, send_sms-IsQuiet,
}
use libreatrust.Auth.Challenge.{
  Challenged, IsSound, TakesCaptcha, begin_by-Challenged, begin_custom_sms-Challenged,
  captcha-Challenged, complete_login-Challenged, err-Challenged, if-Challenged, quiet-Challenged,
  sync_sid-pending,
}

module _ (services : Services) where
  pub auth_rounds-Challenged :
      (rounds : ℕ) (step : AuthStep) (s : AuthSession)
      → IsSound s.core.pending
      → Challenged services (auth_rounds services rounds step s)
  unfolding auth_rounds begin_sms
  auth_rounds-Challenged zero step s h = err-Challenged services _ s h
  auth_rounds-Challenged (suc rounds) step s h =
      if-Challenged services (is_empty step.service) _ _ s (complete_login-Challenged services s) (
        if-Challenged services (text_eq step.service (codes "auth/authCheck")) _ _ s
          (quiet-Challenged services (auth_check services) _ s (auth_check-IsQuiet services) h
            (auth_rounds-Challenged rounds))
          (if-Challenged services (text_eq step.service (codes "auth/sms")) _ _ s
            (begin_by-Challenged services step.sms_mode step s refl h)
            (if-Challenged services (text_eq step.service (codes "auth/customSms")) _ _ s
              (begin_custom_sms-Challenged services s h) (err-Challenged services _ s h))))

  -- A check of what comes next, and then the steps.
  check-Challenged :
      (s : AuthSession)
      → IsSound s.core.pending
      → Challenged services ((auth_check services >>= continue_auth services) s)
  unfolding continue_auth
  check-Challenged s h =
      quiet-Challenged services (auth_check services) _ s (auth_check-IsQuiet services) h
        (auth_rounds-Challenged 8)

  pub finish_login-Challenged :
      (update_mod : Bool) (s : AuthSession)
      → IsSound s.core.pending
      → Challenged services (finish_login services update_mod s)
  unfolding finish_login
  finish_login-Challenged update_mod s h =
      quiet-Challenged services (config_if services update_mod _) _ s
        (config_if-IsQuiet services _ _) h
        (λ u s' h'.
          quiet-Challenged services (report_env services) _ s' (report_env-IsQuiet services) h'
            (λ v s'' h''. check-Challenged s'' h''))

  login_with_ticket-Challenged :
      (ticket : Text) (s : AuthSession)
      → IsSound s.core.pending
      → Challenged services (login_with_ticket services ticket s)
  unfolding login_with_ticket sync_sid_from_cookies
  login_with_ticket-Challenged ticket s h =
      let named : AuthSession = record s { core = record s.core { ticket = ticket } } in
      finish_login-Challenged false (sync_sid_from_cookies services named).1
        (subst IsSound (sym (sync_sid-pending services named)) h)

  ask_captcha-Challenged :
      (flow : PendingFlow) (s : AuthSession)
      → TakesCaptcha (some flow)
      → IsSound s.core.pending
      → Challenged services (ask_captcha services flow s)
  unfolding ask_captcha
  ask_captcha-Challenged flow s takes h =
      quiet-Challenged services (fetch_captcha services) _ s (fetch_captcha-IsQuiet services) h
        (λ image s' h'. captcha-Challenged services image _ takes)

  pub run_password-Challenged :
      (input : PasswordLoginInput) (captcha : Text) (s : AuthSession)
      → IsSound s.core.pending
      → Challenged services (run_password services input captcha s)
  unfolding run_password
  run_password-Challenged input captcha s h =
      quiet-Challenged services (auth_config_init services) _ s
        (auth_config_impl-IsQuiet services _) h
        (λ config s1 h1.
          quiet-Challenged services (post_password services input captcha) _ s1
            (post_password-IsQuiet services input captcha) h1
            (λ response s2 h2.
              if-Challenged services (not (is_zero response.graph_check_code_enable)) _ _ s2
                (ask_captcha-Challenged (password_flow input) s2 tt h2)
                (login_with_ticket-Challenged response.ticket s2 h2)))

  pub run_sms_send-Challenged :
      (input : SmsLoginInput) (captcha : Text) (s : AuthSession)
      → IsSound s.core.pending
      → Challenged services (run_sms_send services input captcha s)
  unfolding run_sms_send
  run_sms_send-Challenged input captcha s h =
      quiet-Challenged services (auth_config_init services) _ s
        (auth_config_impl-IsQuiet services _) h
        (λ config s1 h1.
          quiet-Challenged services (send_sms services input captcha) _ s1
            (send_sms-IsQuiet services input captcha) h1
            (λ enabled s2 h2.
              if-Challenged services (not (is_zero enabled) && is_empty captcha) _ _ s2
                (ask_captcha-Challenged (sms_login_flow input) s2 tt h2) (check-Challenged s2 h2)))

  pub run_sms_verify-Challenged :
      (phone login_domain code captcha : Text) (s : AuthSession)
      → IsSound s.core.pending
      → Challenged services (run_sms_verify services phone login_domain code captcha s)
  unfolding run_sms_verify
  run_sms_verify-Challenged phone login_domain code captcha s h =
      quiet-Challenged services (post_sms_verify services phone login_domain code captcha) _ s
        (post_sms_verify-IsQuiet services phone login_domain code captcha) h
        (λ response s1 h1.
          if-Challenged services
            (not (is_zero response.graph_check_code_enable) && is_empty captcha) _ _ s1
            (ask_captcha-Challenged (sms_verify_flow phone login_domain code) s1 tt h1)
            (login_with_ticket-Challenged response.ticket s1 h1))
