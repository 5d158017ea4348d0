-- ===== src/Auth/Session.antt =====
-- auth.rs: an `AuthSession` from the outside: `new`, the logins and their continuations.
use libreatrust.Base.{
  Bool, List, Option, Text, [], codes, false, if◌then◌else◌, is_empty, none, some, true, ◌++◌, ◌==◌,
  ◌∷◌,
}
use libreatrust.Types.{AuthChallenge, AuthConfig, AuthMethodInfo, PasswordLoginInput, SmsLoginInput}
use libreatrust.Json.{end, field, object, str}
use libreatrust.Auth.{
  Auth, AuthSession, AuthStep, Core, PendingFlow, Response, Services, SmsMode, auth_step_flow,
  change, custom, lift, password_flow, pure, raise, sms_login_flow, sms_verify_flow, with_auth_id,
  without_auth_id, ◌>>=◌, ◌>>◌,
}
use libreatrust.Error.{
  AtrError, AtrResult, err, invalid_argument, invalid_state, literal, ok, unauthorized,
}
use libreatrust.Decimal.{decimal}
use libreatrust.Auth.Http.{micros, random_hex}
use libreatrust.Auth.Requests.{auth_config_init}
use libreatrust.Auth.Answers.{
  custom_sms_check_code, extract_ticket_from_callback, password_sms_check,
}
use libreatrust.Auth.Login.{
  continue_auth, finish_login, run_password, run_sms_send, run_sms_verify, set_pending,
}

-- `code.strip_prefix('$')`: the code, and whether a second factor is to be skipped from now on.
abbrev pub strip_dollar : Text → Text × Bool
strip_dollar [] = ([], false)
strip_dollar (c ∷ code) = if c == b'$' then (code, true) else (c ∷ code, false)

abbrev pub not_logged_in : AtrError
not_logged_in = unauthorized (literal "stored session is not logged in")

module _ (services : Services) where
  -- `build_env`
  abbrev pub build_env : Text → Text
  build_env device_id =
      services.base64 (services.print_json (object (field (codes "deviceId") (str device_id) end)))

  -- `build_connection_id`
  unfoldable pub build_connection_id : Text → Auth Text
  build_connection_id device_id = do
    now ← micros services
    pure (services.md5_hex device_id ++ (codes "-" ++ decimal now))

  abbrev pub empty_core : Core
  empty_core = record {
    device_id = [];
    sign_key_hex = [];
    connection_id = [];
    env = [];
    ticket = [];
    sid = [];
    username = [];
    client_resource_bytes = none;
    pending = none;
  }

  -- `AuthSession::new`, with the replies that the server will give. `build_client` builds the
  -- HTTP client.
  unfoldable pub new_session :
      (AuthConfig → AtrResult (Unit {0}))
      → AuthConfig
      → List (AtrResult Response)
      → AtrResult AuthSession
  new_session build_client config replies =
      if is_empty config.server_host
      then err (invalid_argument (literal "server_host is empty"))
      else let base_host =
          if config.server_port == 443
          then config.server_host
          else config.server_host ++ (codes ":" ++ decimal config.server_port) in
        let session : AuthSession = record {
          config = config;
          base_host = base_host;
          csrf_token = [];
          pub_key = [];
          pub_key_exp = [];
          anti_replay_rand = [];
          core = empty_core;
          cookies = [];
          cookie_jar = [];
          sent = [];
          replies = replies;
          draws = 0;
          readings = 0;
        } in
        elim (services.parse_url (codes "https://" ++ base_host)) [
          | err e ↦ err e
          | ok url ↦ elim (build_client config) [
            | err e ↦ err e
            | ok built ↦
                let (key, s) = random_hex services 64 session in
                elim key [
                  | err e ↦ err e
                  | ok sign_key ↦ ok (record s { core = record s.core { sign_key_hex = sign_key } })
                ]
          ]
        ]

  -- `reset_identity`, which also stands for `prepare_callback_login`
  unfoldable pub reset_identity : Text → Auth (Unit {0})
  reset_identity device_id = do
    connection_id ← build_connection_id device_id
    sign_key_hex ← random_hex services 64
    change (λ c. record c {
      device_id = device_id;
      connection_id = connection_id;
      sign_key_hex = sign_key_hex;
      env = build_env device_id;
      ticket = [];
      sid = [];
      username = [];
      pending = none;
    })

  -- `available_methods`
  unfoldable pub available_methods : Auth (List AuthMethodInfo)
  available_methods = do config ← auth_config_init services; pure config.1

  -- `login_with_password`
  unfoldable pub login_with_password : PasswordLoginInput → Text → Auth AuthChallenge
  login_with_password input device_id = do
    reset_identity device_id
    set_pending (password_flow input)
    run_password services input []

  -- `login_with_sms`
  unfoldable pub login_with_sms : SmsLoginInput → Text → Auth AuthChallenge
  login_with_sms input device_id = do
    reset_identity device_id
    set_pending (sms_login_flow input)
    run_sms_send services input []

  -- The `match` of `submit_captcha`.
  unfoldable pub answer_captcha : Option PendingFlow → Text → Auth AuthChallenge
  answer_captcha none captcha = raise (invalid_state (literal "no pending challenge"))
  answer_captcha (some (password_flow input)) captcha = run_password services input captcha
  answer_captcha (some (sms_login_flow input)) captcha = run_sms_send services input captcha
  answer_captcha (some (sms_verify_flow phone login_domain code)) captcha =
      run_sms_verify services phone login_domain code captcha
  answer_captcha (some (auth_step_flow step)) captcha =
      raise (invalid_state (literal "captcha is not expected here"))

  -- `submit_captcha`
  unfoldable pub submit_captcha : Text → Auth AuthChallenge
  submit_captcha captcha s = answer_captcha s.core.pending captcha s

  -- The `match` of `complete_auth_step`.
  unfoldable pub complete_by : Option SmsMode → AuthStep → Text → Bool → Auth AuthStep
  complete_by (some custom) step code skip = custom_sms_check_code services code skip
  complete_by (some with_auth_id) step code skip = password_sms_check services step code skip
  complete_by (some without_auth_id) step code skip = password_sms_check services step code skip
  complete_by none step code skip = raise (invalid_state (literal "invalid authentication step"))

  -- `complete_auth_step`
  unfoldable pub complete_auth_step : AuthStep → Text → Bool → Auth AuthStep
  complete_auth_step step = complete_by step.sms_mode step

  -- The `match` of `submit_sms_code`.
  unfoldable pub answer_sms : Option PendingFlow → Text → Auth AuthChallenge
  answer_sms none code = raise (invalid_state (literal "no pending sms flow"))
  answer_sms (some (auth_step_flow step)) code =
      complete_auth_step step (strip_dollar code).0 (strip_dollar code).1 >>= continue_auth services
  answer_sms (some (sms_login_flow input)) code = do
    set_pending (sms_verify_flow input.phone input.login_domain code)
    run_sms_verify services input.phone input.login_domain code []
  answer_sms (some (sms_verify_flow phone login_domain old)) code =
      run_sms_verify services phone login_domain code []
  answer_sms (some (password_flow input)) code =
      raise (invalid_state (literal "pending password flow, not sms"))

  -- `submit_sms_code`
  unfoldable pub submit_sms_code : Text → Auth AuthChallenge
  submit_sms_code code s = answer_sms s.core.pending code s

  -- `complete_callback`
  unfoldable pub complete_callback : Text → Auth AuthChallenge
  complete_callback callback_url = do
    callback ← lift (services.parse_url callback_url)
    ticket ← extract_ticket_from_callback services callback
    change (λ c. record c { ticket = ticket })
    finish_login services true

  -- `complete_callback_with_device`
  unfoldable pub complete_callback_with_device : Text → Text → Auth AuthChallenge
  complete_callback_with_device callback_url device_id = do
    reset_identity device_id
    complete_callback callback_url
