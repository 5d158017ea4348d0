-- ===== src/Auth/Traffic/Questions.antt =====
-- auth.rs: each method that asks one question sends one request.
use libreatrust.Base.{Bool, List, Option, String, Text, arith, is_empty, none, some}
use libreatrust.Types.{PasswordLoginInput, SmsLoginInput}
use libreatrust.Auth.{
  AuthStep, Response, Services, SmsMode, Url, custom, lift, raise_if, with_auth_id, without_auth_id,
}
use libreatrust.Auth.Http.{exchange, millis, read_body}
use libreatrust.Auth.Requests.{
  ask, auth_config_impl, password_payload, post_password, post_sms_verify, send_sms,
}
use libreatrust.Auth.Answers.{
  auth_check, custom_sms_check_code, extract_ticket_from_callback, fetch_captcha, log_phone_number,
  next_step, online_info, password_sms_check, report_env, send_custom_sms,
  trigger_password_sms_step,
}
use libreatrust.Auth.Login.{config_if}
use libreatrust.Auth.Session.{complete_by}
use libreatrust.Auth.Traffic.{
  Asks, ask-Asks, asked-Asks, bind-Asks, checked-Asks, exchange-Asks, guarded-Asks, if-Asks,
  lifted-Asks, read_body-Asks,
}

module _ (services : Services) where
  pub config-Asks : (extra : List (Text × Text)) → Asks 1 (auth_config_impl services extra)
  unfolding auth_config_impl
  config-Asks extra = asked-Asks services _ services.read_auth_config _ (λ parsed s. omega arith)

  pub config_if-Asks : (c : Bool) (extra : List (Text × Text)) → Asks 1 (config_if services c extra)
  unfolding config_if
  config_if-Asks c extra =
      if-Asks 1 c _ _
        (bind-Asks 1 0 (auth_config_impl services extra) _ (config-Asks extra)
          (λ config s. omega arith))
        (λ s. omega arith)

  pub post_password-Asks :
      (input : PasswordLoginInput) (captcha : Text) → Asks 1 (post_password services input captcha)
  unfolding post_password
  post_password-Asks input captcha =
      bind-Asks 0 1 (λ s. (password_payload services input captcha s, s)) _ (λ s. omega arith)
        (λ body. checked-Asks services _ services.read_password _ _ (λ parsed. parsed))

  pub send_sms-Asks :
      (input : SmsLoginInput) (captcha : Text) → Asks 1 (send_sms services input captcha)
  unfolding send_sms
  send_sms-Asks input captcha = checked-Asks services _ services.read_sms _ _ _

  pub post_sms_verify-Asks :
      (phone login_domain code captcha : Text)
      → Asks 1 (post_sms_verify services phone login_domain code captcha)
  unfolding post_sms_verify
  post_sms_verify-Asks phone login_domain code captcha =
      bind-Asks 1 0 (ask services _) _ (ask-Asks services _)
        (λ response. read_body-Asks services services.read_sms response)

  pub log_phone_number-Asks : (auth_id : Text) → Asks 1 (log_phone_number services auth_id)
  unfolding log_phone_number
  log_phone_number-Asks auth_id =
      bind-Asks 1 0 (ask services _) (read_body services services.read_json) (ask-Asks services _)
        (read_body-Asks services services.read_json)

  pub trigger-Asks : (step : AuthStep) → Asks 1 (trigger_password_sms_step services step)
  unfolding trigger_password_sms_step
  trigger-Asks step = asked-Asks services _ services.read_sms _ (λ parsed s. omega arith)

  pub send_custom_sms-Asks : Asks 1 (send_custom_sms services)
  unfolding send_custom_sms
  send_custom_sms-Asks = asked-Asks services _ services.read_custom_sms _ (λ parsed s. omega arith)

  next_step-Asks : (what : String) (response : Response) → Asks 0 (next_step services what response)
  unfolding next_step
  next_step-Asks what response =
      bind-Asks 0 0 (read_body services services.read_step response) _
        (read_body-Asks services services.read_step response) (λ parsed. guarded-Asks _ _ _)

  pub complete_by-Asks :
      (mode : Option SmsMode) (step : AuthStep) (code : Text) (skip : Bool)
      → Asks 1 (complete_by services mode step code skip)
  unfolding complete_by custom_sms_check_code password_sms_check
  complete_by-Asks none step code skip = λ s. omega arith
  complete_by-Asks (some custom) step code skip =
      bind-Asks 1 0 (ask services _) _ (ask-Asks services _) (next_step-Asks _)
  complete_by-Asks (some with_auth_id) step code skip =
      bind-Asks 1 0 (ask services _) _ (ask-Asks services _) (next_step-Asks _)
  complete_by-Asks (some without_auth_id) step code skip =
      bind-Asks 1 0 (ask services _) _ (ask-Asks services _) (next_step-Asks _)

  pub auth_check-Asks : Asks 1 (auth_check services)
  unfolding auth_check
  auth_check-Asks = bind-Asks 1 0 (ask services _) _ (ask-Asks services _) (next_step-Asks _)

  pub report_env-Asks : Asks 1 (report_env services)
  unfolding report_env
  report_env-Asks s =
      bind-Asks 0 1 (raise_if (is_empty s.core.ticket) _) _ (λ s'. omega arith)
        (λ u. asked-Asks services _ services.read_code _ (λ parsed s'. omega arith)) s

  pub online_info-Asks : Asks 1 (online_info services)
  unfolding online_info
  online_info-Asks =
      bind-Asks 1 0 (ask services _) _ (ask-Asks services _)
        (read_body-Asks services services.read_username)

  pub fetch_captcha-Asks : Asks 1 (fetch_captcha services)
  unfolding fetch_captcha millis
  fetch_captcha-Asks s =
      bind-Asks 1 0 (exchange services _) (λ response. lift response.body)
        (exchange-Asks services _) (λ response s'. omega arith) _

  pub extract-Asks : (callback : Url) → Asks 1 (extract_ticket_from_callback services callback)
  unfolding extract_ticket_from_callback
  extract-Asks callback =
      bind-Asks 1 0 (ask services _) _ (ask-Asks services _) (λ response. lifted-Asks _ _)
