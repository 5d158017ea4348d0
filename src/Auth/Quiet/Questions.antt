-- ===== src/Auth/Quiet/Questions.antt =====
-- auth.rs: each method that asks one question is quiet.
use libreatrust.Base.{Bool, List, Option, String, Text, is_empty, none, refl, some, ℕ}
use libreatrust.Types.{PasswordLoginInput, SmsLoginInput}
use libreatrust.Auth.{
  AuthSession, AuthStep, Request, Response, Services, SmsMode, Url, custom, lift, pure, raise_if,
  with_auth_id, without_auth_id, ◌>>=◌, ◌>>◌,
}
use libreatrust.Error.{AtrError, AtrResult}
use libreatrust.Auth.Http.{exchange, millis, read_body}
use libreatrust.Auth.Requests.{ask, password_payload, post_password, post_sms_verify, send_sms}
use libreatrust.Auth.Answers.{
  auth_check, custom_sms_check_code, extract_ticket_from_callback, fetch_captcha, log_phone_number,
  next_step, online_info, password_sms_check, report_env, send_custom_sms,
  trigger_password_sms_step,
}
use libreatrust.Auth.Quiet.{
  IsQuiet, ask-IsQuiet, asked-IsQuiet, auth_config_impl-IsQuiet, bind-IsQuiet, drop_result-IsQuiet,
  exchange-IsQuiet, if-IsQuiet, read_body-IsQuiet,
}
use libreatrust.Auth.Session.{complete_auth_step, complete_by}
use libreatrust.Auth.Login.{config_if}

module _ (services : Services) where
  -- A question whose answer is refused or not, and then a value.
  checked {ℓ} :
      {A : Type 0} {B : Type ℓ} (make : AuthSession → Text → Request) (read : List ℕ → AtrResult A)
      (refused : A → Bool) (e : A → AtrError) (value : A → B)
      → IsQuiet (
          ask services make >>= λ response.
          read_body services read response >>= λ a. raise_if (refused a) (e a) >> pure (value a))
  checked make read refused e value =
      asked-IsQuiet services make read _
        (λ a. bind-IsQuiet (raise_if (refused a) (e a)) _ (λ s. refl) (λ u s. refl))

  pub post_password-IsQuiet :
      (input : PasswordLoginInput) (captcha : Text) → IsQuiet (post_password services input captcha)
  unfolding post_password
  post_password-IsQuiet input captcha =
      bind-IsQuiet (λ s. (password_payload services input captcha s, s)) _ (λ s. refl)
        (λ body. checked _ services.read_password _ _ (λ parsed. parsed))

  pub send_sms-IsQuiet :
      (input : SmsLoginInput) (captcha : Text) → IsQuiet (send_sms services input captcha)
  unfolding send_sms
  send_sms-IsQuiet input captcha = checked _ services.read_sms _ _ _

  pub post_sms_verify-IsQuiet :
      (phone login_domain code captcha : Text)
      → IsQuiet (post_sms_verify services phone login_domain code captcha)
  unfolding post_sms_verify
  post_sms_verify-IsQuiet phone login_domain code captcha =
      bind-IsQuiet (ask services _) _ (ask-IsQuiet services _)
        (λ response. read_body-IsQuiet services services.read_sms response)

  pub log_phone_number-IsQuiet : (auth_id : Text) → IsQuiet (log_phone_number services auth_id)
  unfolding log_phone_number
  log_phone_number-IsQuiet auth_id =
      bind-IsQuiet (ask services _) (read_body services services.read_json) (ask-IsQuiet services _)
        (read_body-IsQuiet services services.read_json)

  pub trigger_password_sms_step-IsQuiet :
      (step : AuthStep) → IsQuiet (trigger_password_sms_step services step)
  unfolding trigger_password_sms_step
  trigger_password_sms_step-IsQuiet step =
      asked-IsQuiet services _ services.read_sms _ (λ parsed s. refl)

  pub send_custom_sms-IsQuiet : IsQuiet (send_custom_sms services)
  unfolding send_custom_sms
  send_custom_sms-IsQuiet = asked-IsQuiet services _ services.read_custom_sms _ (λ parsed s. refl)

  next_step-IsQuiet :
      (what : String) (response : Response) → IsQuiet (next_step services what response)
  unfolding next_step
  next_step-IsQuiet what response =
      bind-IsQuiet (read_body services services.read_step response) _
        (read_body-IsQuiet services services.read_step response)
        (λ parsed. bind-IsQuiet (raise_if _ _) _ (λ s. refl) (λ u s. refl))

  password_sms_check-IsQuiet :
      (step : AuthStep) (code : Text) (skip : Bool)
      → IsQuiet (password_sms_check services step code skip)
  unfolding password_sms_check
  password_sms_check-IsQuiet step code skip =
      bind-IsQuiet (ask services _) _ (ask-IsQuiet services _) (next_step-IsQuiet _)

  custom_sms_check_code-IsQuiet :
      (code : Text) (skip : Bool) → IsQuiet (custom_sms_check_code services code skip)
  unfolding custom_sms_check_code
  custom_sms_check_code-IsQuiet code skip =
      bind-IsQuiet (ask services _) _ (ask-IsQuiet services _) (next_step-IsQuiet _)

  pub auth_check-IsQuiet : IsQuiet (auth_check services)
  unfolding auth_check
  auth_check-IsQuiet =
      bind-IsQuiet (ask services _) _ (ask-IsQuiet services _) (next_step-IsQuiet _)

  pub report_env-IsQuiet : IsQuiet (report_env services)
  unfolding report_env
  report_env-IsQuiet s =
      bind-IsQuiet (raise_if (is_empty s.core.ticket) _) _ (λ s'. refl)
        (λ u. asked-IsQuiet services _ services.read_code _ (λ parsed s'. refl)) s

  pub online_info-IsQuiet : IsQuiet (online_info services)
  unfolding online_info
  online_info-IsQuiet =
      bind-IsQuiet (ask services _) _ (ask-IsQuiet services _)
        (read_body-IsQuiet services services.read_username)

  pub fetch_captcha-IsQuiet : IsQuiet (fetch_captcha services)
  unfolding fetch_captcha millis
  fetch_captcha-IsQuiet s =
      bind-IsQuiet (exchange services _) (λ response. lift response.body)
        (exchange-IsQuiet services _) (λ response s'. refl) _

  pub extract_ticket_from_callback-IsQuiet :
      (callback : Url) → IsQuiet (extract_ticket_from_callback services callback)
  unfolding extract_ticket_from_callback
  extract_ticket_from_callback-IsQuiet callback =
      bind-IsQuiet (ask services _) _ (ask-IsQuiet services _)
        (λ response. bind-IsQuiet (lift _) _ (λ s. refl) (λ found s. refl))

  complete_by-IsQuiet :
      (mode : Option SmsMode) (step : AuthStep) (code : Text) (skip : Bool)
      → IsQuiet (complete_by services mode step code skip)
  unfolding complete_by
  complete_by-IsQuiet none step code skip = λ s. refl
  complete_by-IsQuiet (some custom) step code skip = custom_sms_check_code-IsQuiet code skip
  complete_by-IsQuiet (some with_auth_id) step code skip = password_sms_check-IsQuiet step code skip
  complete_by-IsQuiet (some without_auth_id) step code skip =
      password_sms_check-IsQuiet step code skip

  pub complete_auth_step-IsQuiet :
      (step : AuthStep) (code : Text) (skip : Bool)
      → IsQuiet (complete_auth_step services step code skip)
  unfolding complete_auth_step
  complete_auth_step-IsQuiet step code skip = complete_by-IsQuiet step.sms_mode step code skip

  pub config_if-IsQuiet :
      (c : Bool) (extra : List (Text × Text)) → IsQuiet (config_if services c extra)
  unfolding config_if
  config_if-IsQuiet c extra =
      if-IsQuiet c _ _ (drop_result-IsQuiet _ (auth_config_impl-IsQuiet services extra)) (λ s. refl)
