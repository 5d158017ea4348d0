-- ===== src/Auth/Requests.antt =====
-- auth.rs: the methods that ask the server one question each.
use libreatrust.Base.{
  Bool, List, String, Text, [], codes, if◌then◌else◌, is_empty, none, not, some, ◌&&◌, ◌++◌, ◌-◌,
  ◌==◌, ◌^◌, ◌∷◌,
}
use libreatrust.Types.{AuthMethodInfo, PasswordLoginInput, SmsLoginInput}
use libreatrust.Json.{Fields, I64, Json, end, field, object, print_i64, str}
use libreatrust.Auth.{
  Auth, AuthSession, PasswordResponse, Request, RequestBody, Response, Services, get_method, gets,
  is_one, is_zero, json_body, modify, no_body, post_method, pure, raise_if, ◌>>=◌, ◌>>◌,
}
use libreatrust.Error.{AtrResult, about, err, ok, parse_failed, unauthorized}
use libreatrust.Decimal.{parse_unsigned}
use libreatrust.Auth.Http.{exchange, read_body, shared_params, trace_id}

module _ (services : Services) where
  -- The headers of every request but the captcha's; `base64_rid` stands only with authConfig, and
  -- `x-sdp-env` with the first password and SMS requests.
  abbrev pub headers_of : AuthSession → Text → List (String × Text)
  headers_of s trace =
      ("User-Agent", s.config.user_agent)
      ∷ ("x-csrf-token", s.csrf_token)
      ∷ ("x-sdp-traceid", trace)
      ∷ []

  abbrev pub json_type : String × Text
  json_type = ("Content-Type", codes "application/json;charset=utf-8")

  abbrev pub to_json : List (Text × Json) → Fields
  to_json [] = end
  to_json ((name, value) ∷ rest) = field name value (to_json rest)

  abbrev pub get_request : String → List (Text × Text) → AuthSession → Text → Request
  get_request path extra s trace = record {
    method = get_method;
    path = codes path;
    query = shared_params services s ++ extra;
    headers = headers_of s trace;
    body = no_body;
  }

  abbrev pub post_request :
      String
      → List (Text × Text)
      → List (String × Text)
      → RequestBody
      → AuthSession
      → Text
      → Request
  post_request path extra headers body s trace = record {
    method = post_method;
    path = codes path;
    query = shared_params services s ++ extra;
    headers = headers ++ headers_of s trace;
    body = body;
  }

  -- The trace id is made first; then the request is sent as the session stands.
  unfoldable pub ask : (AuthSession → Text → Request) → Auth Response
  ask make = do
    trace ← trace_id services
    request ← gets (λ s. make s trace)
    exchange services request

  -- `auth_config_impl`
  unfoldable pub auth_config_impl : List (Text × Text) → Auth (Bool × List AuthMethodInfo)
  auth_config_impl extra = do
    response ← ask (λ s trace.
        let plain = get_request "/passport/v1/public/authConfig" extra s trace in
        record plain { headers = ("x-sdp-rid", services.base64 s.base_host) ∷ plain.headers })
    parsed ← read_body services services.read_auth_config response
    modify (λ s. record s {
      csrf_token =
          if is_empty parsed.csrf_token
          then elim parsed.security [ none ↦ [] | some token ↦ token ]
          else parsed.csrf_token;
      pub_key = parsed.pub_key;
      pub_key_exp = parsed.pub_key_exp;
      anti_replay_rand = parsed.anti_replay_rand;
    })
    pure (is_one parsed.is_login, parsed.auth_server_info_list)

  abbrev pub auth_config_init : Auth (Bool × List AuthMethodInfo)
  auth_config_init = auth_config_impl ((codes "needTicket", codes "1") ∷ [])

  abbrev pub at_domain : Text → Text → Text
  at_domain name domain = name ++ (codes "@" ++ domain)

  abbrev pub captcha_field : Text → List (Text × Json)
  captcha_field captcha =
      if is_empty captcha then [] else (codes "graphCheckCode", str captcha) ∷ []

  -- `password_payload`
  unfoldable pub password_payload : PasswordLoginInput → Text → AuthSession → AtrResult RequestBody
  password_payload input captcha s = elim (services.hex_decode s.pub_key) [
    | err e ↦ err e
    | ok key ↦ elim (parse_unsigned (2 ^ 32 - 1) s.pub_key_exp) [
      | none ↦ err (parse_failed (about "" s.pub_key_exp))
      | some exponent ↦
          let message = input.password ++ (codes "_" ++ s.anti_replay_rand) in
          elim (services.encrypt key exponent message) [
            | err e ↦ err e
            | ok cipher ↦ ok (
                json_body (
                  object (
                    to_json (
                      (codes "username", str (at_domain input.username input.login_domain))
                      ∷ (codes "password", str (services.hex_encode cipher))
                      ∷ (codes "rememberPwd", str (codes "0"))
                      ∷ captcha_field captcha))))
          ]
    ]
  ]

  abbrev pub with_env : AuthSession → List (String × Text)
  with_env s = json_type ∷ ("x-sdp-env", s.core.env) ∷ []

  -- `post_password`: an error code counts unless a captcha is asked for.
  unfoldable pub post_password : PasswordLoginInput → Text → Auth PasswordResponse
  post_password input captcha = do
    body ← (λ s. (password_payload input captcha s, s))
    response ← ask (λ s. post_request "/passport/v1/auth/psw" [] (with_env s) body s)
    parsed ← read_body services services.read_password response
    raise_if (not (is_zero parsed.code) && is_zero parsed.graph_check_code_enable) (
        unauthorized (
          if is_empty parsed.message
          then about "password authentication failed with code " (print_i64 parsed.code)
          else about "" parsed.message))
    pure parsed

  -- The code that `sendSms` and `auth/sms` answer when a message was sent a moment ago.
  abbrev pub sms_refused : I64 → Bool
  sms_refused code = not (is_zero code) && not (not code.is_negative && code.size == 75_500_401)

  -- `send_sms`: whether a captcha is asked for.
  unfoldable pub send_sms : SmsLoginInput → Text → Auth I64
  send_sms input captcha = do
    response ← ask (λ s.
        post_request "/passport/v1/public/sendSms" [] (with_env s)
          (json_body (
            object (
              to_json (
                (codes "phone", str (at_domain input.phone input.login_domain))
                ∷ (codes "graphCheckCode", str captcha)
                ∷ []))))
          s)
    parsed ← read_body services services.read_sms response
    raise_if (sms_refused parsed.code) (unauthorized (about "sendSms failed: " parsed.message))
    pure parsed.graph_check_code_enable

  -- `post_sms_verify`, whose answer's code is not looked at.
  unfoldable pub post_sms_verify : Text → Text → Text → Text → Auth PasswordResponse
  post_sms_verify phone login_domain code captcha = do
    response ← ask (λ s.
        post_request "/passport/v1/auth/smsCheckCode" [] (with_env s)
          (json_body (
            object (
              to_json (
                (codes "code", str code)
                ∷ (codes "phone", str (at_domain phone login_domain))
                ∷ captcha_field captcha))))
          s)
    read_body services services.read_sms response
