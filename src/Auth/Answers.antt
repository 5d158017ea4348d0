-- ===== src/Auth/Answers.antt =====
-- auth.rs: the requests that take a login from step to step, and those around it.
use libreatrust.Base.{
  Bool, List, Option, String, Text, [], codes, false, if◌then◌else◌, is_empty, leb, ltb, none, not,
  some, text_eq, true, ℕ, ◌&&◌, ◌++◌, ◌∷◌,
}
use libreatrust.Json.{I64, Json, as_str, bool, end, field, get, object, print_i64, str}
use libreatrust.Auth.{
  Auth, AuthSession, AuthStep, Response, Services, SmsMode, Url, custom, form_body, get_method,
  gets, is_zero, json_body, lift, no_body, pure, raise_if, with_auth_id, without_auth_id, ◌>>=◌,
  ◌>>◌,
}
use libreatrust.Error.{
  AtrError, AtrResult, about, err, invalid_state, literal, ok, parse_failed, unauthorized,
}
use libreatrust.Decimal.{decimal}
use libreatrust.Utf8.{encode}
use libreatrust.Auth.Http.{exchange, millis, read_body, shared_params}
use libreatrust.Auth.Requests.{
  ask, get_request, headers_of, json_type, post_request, sms_refused, to_json,
}
use libreatrust.Auth.Step.{auth_step_from_data}

abbrev pub failed_with : String → I64 → Text → AtrError
failed_with what code message = unauthorized (about what (print_i64 code ++ (codes " " ++ message)))

-- What an `if let Err(error) = result` that only logs leaves of a method.
abbrev pub attempt : {A : Type 0} → Auth A → Auth (Unit {0})
attempt m s = (ok tt, (m s).1)

abbrev pub pair_value : Text → List (Text × Text) → Option Text
pair_value key [] = none
pair_value key ((name, value) ∷ pairs) =
    if text_eq name key then some value else pair_value key pairs

abbrev pub skip_flag : Bool → Text
skip_flag skip = if skip then codes "1" else codes "0"

abbrev pub is_with_auth_id : Option SmsMode → Bool
is_with_auth_id (some with_auth_id) = true
is_with_auth_id (some without_auth_id) = false
is_with_auth_id (some custom) = false
is_with_auth_id none = false

abbrev pub is_without_auth_id : Option SmsMode → Bool
is_without_auth_id (some without_auth_id) = true
is_without_auth_id (some with_auth_id) = false
is_without_auth_id (some custom) = false
is_without_auth_id none = false

module _ (services : Services) where
  -- `log_phone_number`
  unfoldable pub log_phone_number : Text → Auth (Unit {0})
  log_phone_number auth_id = attempt (do
    response ← ask services (
        get_request services "/passport/v1/public/phoneNumber"
          (if is_empty auth_id then [] else (codes "authId", auth_id) ∷ []))
    read_body services services.read_json response)

  -- `trigger_password_sms_step`
  unfoldable pub trigger_password_sms_step : AuthStep → Auth (Unit {0})
  trigger_password_sms_step step = do
    response ← ask services (
        get_request services "/passport/v1/auth/sms" (
          (codes "action", codes "sendsms")
          ∷ (if is_with_auth_id step.sms_mode
              then (codes "isPrevEffect", codes "0")
                ∷ (codes "taskId", [])
                ∷ (codes "authId", step.auth_id)
                ∷ []
              else [])))
    parsed ← read_body services services.read_sms response
    raise_if (sms_refused services parsed.code)
        (unauthorized (about "authSms failed: " parsed.message))

  -- The end of the requests that answer with the next step.
  unfoldable pub next_step : String → Response → Auth AuthStep
  next_step what response = do
    parsed ← read_body services services.read_step response
    raise_if (not (is_zero parsed.code)) (failed_with what parsed.code parsed.message)
    pure (auth_step_from_data parsed.step)

  -- `password_sms_check`
  unfoldable pub password_sms_check : AuthStep → Text → Bool → Auth AuthStep
  password_sms_check step code skip = do
    response ← ask services (
        post_request services "/passport/v1/auth/sms" ((codes "action", codes "checkcode") ∷ [])
          (if is_without_auth_id step.sms_mode
            then ("Content-Type", codes "application/x-www-form-urlencoded") ∷ []
            else json_type services ∷ [])
          (if is_without_auth_id step.sms_mode
            then form_body ((codes "code", code) ∷ (codes "skipSecondaryAuth", skip_flag skip) ∷ [])
            else json_body (
                object (
                  to_json services (
                    (codes "isPrevEffect", bool false)
                    ∷ (codes "code", str code)
                    ∷ (codes "skipSecondaryAuth", str (skip_flag skip))
                    ∷ (codes "taskId", str [])
                    ∷ (codes "authId", str step.auth_id)
                    ∷ [])))))
    next_step "smsCheckCode failed: " response

  -- `send_custom_sms`
  unfoldable pub send_custom_sms : Auth (Unit {0})
  send_custom_sms = do
    response ← ask services (
        post_request services "/passport/v1/auth/customSms"
          ((codes "action", codes "sendcustomsms") ∷ []) (json_type services ∷ [])
          (json_body (
            object (
              to_json services
                ((codes "isPrevEffect", str (codes "0")) ∷ (codes "taskId", str []) ∷ [])))))
    parsed ← read_body services services.read_custom_sms response
    raise_if (not (is_zero parsed.code))
        (failed_with "sendCustomSMS failed: " parsed.code parsed.message)

  -- `custom_sms_check_code`
  unfoldable pub custom_sms_check_code : Text → Bool → Auth AuthStep
  custom_sms_check_code code skip = do
    response ← ask services (
        post_request services "/passport/v1/auth/customSms"
          ((codes "action", codes "checkcustomcode") ∷ []) (json_type services ∷ [])
          (json_body (
            object (
              to_json services (
                (codes "isPrevEffect", bool false)
                ∷ (codes "customCode", str code)
                ∷ (codes "skipSecondaryAuth", str (skip_flag skip))
                ∷ (codes "taskId", str [])
                ∷ [])))))
    next_step "customSMSCheckCode failed: " response

  -- `auth_check`
  unfoldable pub auth_check : Auth AuthStep
  auth_check = do
    response ← ask services (get_request services "/passport/v1/auth/authCheck" [])
    next_step "authCheck failed: " response

  abbrev pub report_body : AuthSession → Json
  report_body s =
      let endpoint = object (
        to_json services (
          (codes "device_id", str s.core.device_id)
          ∷ (codes "device", object (field (codes "type") (str (codes "browser")) end))
          ∷ [])) in
      object (
        to_json services (
          (codes "ticket", str s.core.ticket)
          ∷ (codes "deviceId", str s.core.device_id)
          ∷ (codes "env", object (field (codes "endpoint") endpoint end))
          ∷ []))

  -- `report_env`
  unfoldable pub report_env : Auth (Unit {0})
  report_env = do
    ticket ← gets (λ s. s.core.ticket)
    raise_if (is_empty ticket) (invalid_state (literal "ticket is empty"))
    response ← ask services (λ s.
        post_request services "/controller/v1/public/reportEnv" [] (json_type services ∷ [])
          (json_body (report_body s)) s)
    parsed ← read_body services services.read_code response
    raise_if (not (is_zero parsed.code)) (unauthorized (about "reportEnv failed: " parsed.message))

  -- `online_info`: the name of the user.
  unfoldable pub online_info : Auth Text
  online_info = do
    response ← ask services (get_request services "/passport/v1/user/onlineInfo" [])
    read_body services services.read_username response

  -- `fetch_captcha`
  unfoldable pub fetch_captcha : Auth (List ℕ)
  fetch_captcha = do
    now ← millis services
    request ← gets (λ s. record {
      method = get_method;
      path = codes "/passport/v1/public/checkCode";
      query = shared_params services s ++ ((codes "rnd", decimal now) ∷ []);
      headers =
          ("User-Agent", s.config.user_agent)
          ∷ ("Accept", codes "image/webp,image/apng,image/*,*/*;q=0.8")
          ∷ [];
      body = no_body;
    })
    response ← exchange services request
    lift response.body

  -- The `data` of a redirection, which is JSON.
  unfoldable pub ticket_in_data : Option Text → AtrResult (Option Text)
  ticket_in_data none = ok none
  ticket_in_data (some content) = elim (services.read_json (encode content)) [
    | err e ↦ err e
    | ok payload ↦ ok (elim (get (codes "ticket") payload) [ none ↦ none | some v ↦ as_str v ])
  ]

  -- `extract_ticket_from_redirect`
  unfoldable pub extract_ticket_from_redirect : Text → AtrResult (Option Text)
  extract_ticket_from_redirect location = elim (services.parse_url location) [
    | err e ↦ err e
    | ok url ↦ elim (pair_value (codes "ticket") url.query_pairs) [
      | some ticket ↦ ok (some ticket)
      | none ↦ ticket_in_data (pair_value (codes "data") url.query_pairs)
    ]
  ]

  abbrev pub header_or_empty : List ℕ → Text
  header_or_empty value = elim (services.header_text value) [ none ↦ [] | some t ↦ t ]

  -- What a reply to a callback redirects to; the other replies give no ticket.
  unfoldable pub ticket_of_reply : Response → AtrResult (Option Text)
  ticket_of_reply response =
      if leb 300 response.status && ltb response.status 400
      then elim response.location [
        | none ↦ ok none
        | some location ↦ extract_ticket_from_redirect (header_or_empty location)
      ]
      else ok none

  abbrev pub ticket_of_callback : Url → AtrResult Text
  ticket_of_callback callback = elim (pair_value (codes "ticket") callback.query_pairs) [
    | none ↦ err (parse_failed (literal "ticket missing"))
    | some ticket ↦ ok ticket
  ]

  -- `extract_ticket_from_callback`
  unfoldable pub extract_ticket_from_callback : Url → Auth Text
  extract_ticket_from_callback callback = do
    response ← ask services (λ s trace. record {
      method = get_method;
      path = callback.text;
      query = [];
      headers = headers_of services s trace;
      body = no_body;
    })
    found ← lift (ticket_of_reply response)
    lift (elim found [ none ↦ ticket_of_callback callback | some ticket ↦ ok ticket ])
