-- ===== src/Auth/Stale.antt =====
-- auth.rs: what a new login leaves of the one before.
use libreatrust.Base.{
  Bool, List, Option, Text, [], arith, codes, false, is_empty, none, not, refl, some, suc, text_eq,
  zero, ℕ, ◌∙◌, ◌≡◌,
}
use libreatrust.Types.{AuthChallenge, PasswordLoginInput}
use libreatrust.Auth.{
  Auth, AuthSession, AuthStep, PendingFlow, Services, SmsMode, is_zero, password_flow, ◌>>=◌,
}
use libreatrust.Error.{ok}
use libreatrust.Auth.Http.{micros, random_hex}
use libreatrust.Auth.Requests.{auth_config_init, post_password}
use libreatrust.Auth.Answers.{
  auth_check, fetch_captcha, is_with_auth_id, is_without_auth_id, log_phone_number, online_info,
  report_env, send_custom_sms, trigger_password_sms_step,
}
use libreatrust.Auth.Login.{
  ask_captcha, auth_rounds, begin_by, begin_custom_sms, begin_sms, complete_login, config_if,
  continue_auth, finish_login, login_with_ticket, named_login, run_password, sync_sid_from_cookies,
  wait_for_code, with_ticket,
}
use libreatrust.Auth.Session.{build_connection_id, login_with_password, reset_identity}
use libreatrust.Auth.Stored.{cached_or_fetched, client_resource_bytes}
use libreatrust.Auth.Quiet.{
  Keeps, auth_config_impl-IsQuiet, bind-Keeps, bytes_of, if-Keeps, quiet-Keeps,
}
use libreatrust.Auth.Quiet.Questions.{
  auth_check-IsQuiet, config_if-IsQuiet, fetch_captcha-IsQuiet, log_phone_number-IsQuiet,
  online_info-IsQuiet, post_password-IsQuiet, report_env-IsQuiet, send_custom_sms-IsQuiet,
  trigger_password_sms_step-IsQuiet,
}

module _ (services : Services) where
  sync_sid-bytes : Keeps bytes_of (sync_sid_from_cookies services)
  unfolding sync_sid_from_cookies
  sync_sid-bytes s = ground arith

  named_login-bytes : (name : Text) → Keeps bytes_of (named_login services name)
  unfolding named_login sync_sid_from_cookies
  named_login-bytes name s = sync_sid-bytes (record s { core = record s.core { username = name } })

  complete_login-bytes : Keeps bytes_of (complete_login services)
  unfolding complete_login
  complete_login-bytes s =
      bind-Keeps bytes_of (online_info services) (named_login services)
        (quiet-Keeps bytes_of (online_info services) (online_info-IsQuiet services))
        named_login-bytes (record s { core = record s.core { pending = none } })

  begin_by-bytes :
      (mode : Option SmsMode) (step : AuthStep) → Keeps bytes_of (begin_by services mode step)
  unfolding begin_by wait_for_code
  begin_by-bytes none step = λ s. refl
  begin_by-bytes (some mode) step =
      let config = λ (c : Bool). config_if services c (with_ticket services) in
      let config-bytes = λ (c : Bool).
        quiet-Keeps bytes_of (config c) (config_if-IsQuiet services c (with_ticket services)) in
      bind-Keeps bytes_of (config (is_with_auth_id (some mode))) _ (config-bytes _) (λ u1.
        bind-Keeps bytes_of (log_phone_number services step.auth_id) _
          (quiet-Keeps bytes_of (log_phone_number services step.auth_id)
            (log_phone_number-IsQuiet services step.auth_id))
          (λ u2.
            bind-Keeps bytes_of (trigger_password_sms_step services step) _
              (quiet-Keeps bytes_of (trigger_password_sms_step services step)
                (trigger_password_sms_step-IsQuiet services step))
              (λ u3.
                bind-Keeps bytes_of (config (is_without_auth_id (some mode))) _ (config-bytes _)
                  (λ u4 s. refl))))

  begin_custom_sms-bytes : Keeps bytes_of (begin_custom_sms services)
  unfolding begin_custom_sms wait_for_code
  begin_custom_sms-bytes =
      bind-Keeps bytes_of (send_custom_sms services) _
        (quiet-Keeps bytes_of (send_custom_sms services) (send_custom_sms-IsQuiet services))
        (λ u s. refl)

  check_then-bytes :
      (f : AuthStep → Auth AuthChallenge)
      → ((step : AuthStep) → Keeps bytes_of (f step))
      → Keeps bytes_of (auth_check services >>= f)
  check_then-bytes f h =
      bind-Keeps bytes_of (auth_check services) f
        (quiet-Keeps bytes_of (auth_check services) (auth_check-IsQuiet services)) h

  auth_rounds-bytes :
      (rounds : ℕ) (step : AuthStep) → Keeps bytes_of (auth_rounds services rounds step)
  unfolding auth_rounds begin_sms
  auth_rounds-bytes zero step = λ s. refl
  auth_rounds-bytes (suc rounds) step =
      if-Keeps bytes_of (is_empty step.service) _ _ complete_login-bytes (
        if-Keeps bytes_of (text_eq step.service (codes "auth/authCheck")) _ _
          (check_then-bytes (auth_rounds services rounds) (auth_rounds-bytes rounds))
          (if-Keeps bytes_of (text_eq step.service (codes "auth/sms")) _ _
            (begin_by-bytes step.sms_mode step)
            (if-Keeps bytes_of (text_eq step.service (codes "auth/customSms")) _ _
              begin_custom_sms-bytes (λ s. refl))))

  finish_login-bytes : (update_mod : Bool) → Keeps bytes_of (finish_login services update_mod)
  unfolding finish_login continue_auth
  finish_login-bytes update_mod =
      bind-Keeps bytes_of (config_if services update_mod _) _
        (quiet-Keeps bytes_of (config_if services update_mod _) (config_if-IsQuiet services _ _))
        (λ u.
          bind-Keeps bytes_of (report_env services) _
            (quiet-Keeps bytes_of (report_env services) (report_env-IsQuiet services))
            (λ v. check_then-bytes (auth_rounds services 8) (auth_rounds-bytes 8)))

  login_with_ticket-bytes : (ticket : Text) → Keeps bytes_of (login_with_ticket services ticket)
  unfolding login_with_ticket sync_sid_from_cookies
  login_with_ticket-bytes ticket s =
      let named : AuthSession = record s { core = record s.core { ticket = ticket } } in
      finish_login-bytes false (sync_sid_from_cookies services named).1 ∙ sync_sid-bytes named

  ask_captcha-bytes : (flow : PendingFlow) → Keeps bytes_of (ask_captcha services flow)
  unfolding ask_captcha
  ask_captcha-bytes flow =
      bind-Keeps bytes_of (fetch_captcha services) _
        (quiet-Keeps bytes_of (fetch_captcha services) (fetch_captcha-IsQuiet services))
        (λ image s. refl)

  run_password-bytes :
      (input : PasswordLoginInput) (captcha : Text)
      → Keeps bytes_of (run_password services input captcha)
  unfolding run_password
  run_password-bytes input captcha =
      bind-Keeps bytes_of (auth_config_init services) _
        (quiet-Keeps bytes_of (auth_config_init services) (auth_config_impl-IsQuiet services _))
        (λ config.
          bind-Keeps bytes_of (post_password services input captcha) _
            (quiet-Keeps bytes_of (post_password services input captcha)
              (post_password-IsQuiet services input captcha))
            (λ response.
              if-Keeps bytes_of (not (is_zero response.graph_check_code_enable)) _ _
                (ask_captcha-bytes (password_flow input))
                (login_with_ticket-bytes response.ticket)))

  -- Where resources have been fetched, a login with a password, of whichever user and however it
  -- ends, leaves them in the session, and `client_resource_bytes` then returns those of the login
  -- before without a request.
  pub client_resource_bytes-login_with_password :
      (input : PasswordLoginInput) (device_id : Text) (bytes : List ℕ) (s : AuthSession)
      → s.core.client_resource_bytes ≡ some bytes
      → let after = (login_with_password services input device_id s).1 in
        client_resource_bytes services after ≡ (ok bytes, after)
  unfolding login_with_password reset_identity build_connection_id micros random_hex
      client_resource_bytes cached_or_fetched
  client_resource_bytes-login_with_password input device_id bytes s e =
      let kept : (login_with_password services input device_id s).1.core.client_resource_bytes
          ≡ some bytes =
        run_password-bytes input [] _ ∙ e in
      rw (kept, cached_or_fetched) refl
