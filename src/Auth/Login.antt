-- ===== src/Auth/Login.antt =====
-- auth.rs: the methods of `AuthSession` that a caller uses, and the order in which a login runs.
use libreatrust.Base.{
  Bool, List, Option, Text, [], codes, false, if◌then◌else◌, is_empty, map, none, not, some, suc,
  text_eq, zero, ℕ, ◌&&◌, ◌∷◌,
}
use libreatrust.Types.{
  AuthChallenge, PasswordLoginInput, SessionMaterial, SmsLoginInput, done, need_captcha,
  need_sms_code,
}
use libreatrust.Map.{lookup}
use libreatrust.Auth.{
  Auth, AuthSession, AuthStep, PendingFlow, Services, SmsMode, auth_step_flow, change, custom,
  drop_result, gets, is_zero, password_flow, pure, raise, sms_login_flow, sms_verify_flow, ◌>>=◌,
  ◌>>◌,
}
use libreatrust.Error.{AtrError, about, invalid_state, literal, ok, unauthorized, unsupported}
use libreatrust.Auth.Requests.{
  auth_config_impl, auth_config_init, post_password, post_sms_verify, send_sms,
}
use libreatrust.Auth.Answers.{
  auth_check, fetch_captcha, is_with_auth_id, is_without_auth_id, log_phone_number, online_info,
  report_env, send_custom_sms, trigger_password_sms_step,
}

abbrev pub exceeded : AtrError
exceeded = unauthorized (literal "authentication chain exceeded 8 steps")

abbrev pub set_pending : PendingFlow → Auth (Unit {0})
set_pending flow = change (λ c. record c { pending = some flow })

-- `session_material`
abbrev pub session_material : AuthSession → SessionMaterial
session_material s = record {
  username = s.core.username;
  sid = s.core.sid;
  device_id = s.core.device_id;
  connection_id = s.core.connection_id;
  sign_key_hex = s.core.sign_key_hex;
  cookies = map (λ entry. entry.1) s.cookies;
}

module _ (services : Services) where
  -- `sync_sid_from_cookies`
  unfoldable pub sync_sid_from_cookies : Auth (Unit {0})
  sync_sid_from_cookies s = (
    ok tt,
    elim (lookup (codes "sid") s.cookies) [
      | none ↦ s
      | some cookie ↦ record s { core = record s.core { sid = cookie.value } }
    ],
  )

  -- The end of `complete_login`, with the name of the user.
  unfoldable pub named_login : Text → Auth AuthChallenge
  named_login username = do
    change (λ c. record c { username = username })
    sync_sid_from_cookies
    material ← gets session_material
    pure (done material)

  -- `complete_login`
  unfoldable pub complete_login : Auth AuthChallenge
  complete_login = do
    change (λ c. record c { pending = none })
    online_info services >>= named_login

  -- The configuration is read anew where `c` holds; its error is passed on.
  unfoldable pub config_if : Bool → List (Text × Text) → Auth (Unit {0})
  config_if c extra = if c then drop_result (auth_config_impl services extra) else pure tt

  abbrev pub with_ticket : List (Text × Text)
  with_ticket = (codes "mod", codes "1") ∷ (codes "needTicket", codes "1") ∷ []

  -- A step waits for its code.
  unfoldable pub wait_for_code : AuthStep → Auth AuthChallenge
  wait_for_code step = do set_pending (auth_step_flow step); pure (need_sms_code step.auth_id)

  -- `begin_sms`, by the mode of the step.
  unfoldable pub begin_by : Option SmsMode → AuthStep → Auth AuthChallenge
  begin_by none step = raise (invalid_state (literal "missing SMS authentication mode"))
  begin_by (some mode) step = do
    config_if (is_with_auth_id (some mode)) with_ticket
    log_phone_number services step.auth_id
    trigger_password_sms_step services step
    config_if (is_without_auth_id (some mode)) with_ticket
    wait_for_code step

  unfoldable pub begin_sms : AuthStep → Auth AuthChallenge
  begin_sms step = begin_by step.sms_mode step

  abbrev pub custom_step : AuthStep
  custom_step = record { service = codes "auth/customSms"; auth_id = []; sms_mode = some custom }

  -- `begin_custom_sms`
  unfoldable pub begin_custom_sms : Auth AuthChallenge
  begin_custom_sms = do send_custom_sms services; wait_for_code custom_step

  -- The loop of `continue_auth`, with the rounds that are left.
  unfoldable pub auth_rounds : ℕ → AuthStep → Auth AuthChallenge
  auth_rounds zero step = raise exceeded
  auth_rounds (suc rounds) step =
      let again : Auth AuthChallenge = auth_check services >>= auth_rounds rounds in
      if is_empty step.service
      then complete_login
      else if text_eq step.service (codes "auth/authCheck")
      then again
      else if text_eq step.service (codes "auth/sms")
      then begin_sms step
      else if text_eq step.service (codes "auth/customSms")
      then begin_custom_sms
      else raise (unsupported (about "unsupported next authentication service: " step.service))

  -- `continue_auth`
  unfoldable pub continue_auth : AuthStep → Auth AuthChallenge
  continue_auth = auth_rounds 8

  -- `finish_login`
  unfoldable pub finish_login : Bool → Auth AuthChallenge
  finish_login update_mod = do
    config_if update_mod ((codes "mod", codes "1") ∷ [])
    report_env services
    step ← auth_check services
    continue_auth step

  -- The end of `run_password` and of `run_sms_verify`, with a ticket.
  unfoldable pub login_with_ticket : Text → Auth AuthChallenge
  login_with_ticket ticket = do
    change (λ c. record c { ticket = ticket })
    sync_sid_from_cookies
    finish_login false

  -- A captcha is fetched, and the flow that asked for it waits.
  unfoldable pub ask_captcha : PendingFlow → Auth AuthChallenge
  ask_captcha flow = do image ← fetch_captcha services; set_pending flow; pure (need_captcha image)

  -- `run_password`
  unfoldable pub run_password : PasswordLoginInput → Text → Auth AuthChallenge
  run_password input captcha = do
    config ← auth_config_init services
    response ← post_password services input captcha
    if not (is_zero response.graph_check_code_enable)
        then ask_captcha (password_flow input)
        else login_with_ticket response.ticket

  -- `run_sms_send`
  unfoldable pub run_sms_send : SmsLoginInput → Text → Auth AuthChallenge
  run_sms_send input captcha = do
    config ← auth_config_init services
    captcha_enabled ← send_sms services input captcha
    if not (is_zero captcha_enabled) && is_empty captcha
        then ask_captcha (sms_login_flow input)
        else (auth_check services >>= continue_auth)

  -- `run_sms_verify`
  unfoldable pub run_sms_verify : Text → Text → Text → Text → Auth AuthChallenge
  run_sms_verify phone login_domain code captcha = do
    response ← post_sms_verify services phone login_domain code captcha
    if not (is_zero response.graph_check_code_enable) && is_empty captcha
        then ask_captcha (sms_verify_flow phone login_domain code)
        else login_with_ticket response.ticket
