-- ===== src/Examples/Login.antt =====
-- auth.rs: logins at concrete replies.
use libreatrust.Base.{
  Bool, List, [], codes, false, length, none, refl, some, trim, true, ℕ, ◌+◌, ◌↔◌, ◌∷◌, ◌≡◌, ◌≤◌,
}
use libreatrust.Types.{
  AuthChallenge, AuthConfig, PasswordLoginInput, done, need_callback_url, need_captcha,
  need_sms_code,
}
use libreatrust.Map.{lookup}
use libreatrust.Json.{I64, Json, end, field, i64, nonneg, object}
use libreatrust.Auth.{AuthSession, AuthStepData, PasswordResponse, Response, Services}
use libreatrust.Error.{AtrError, AtrResult, about, err, invalid_state, literal, ok, unauthorized}
use libreatrust.Decimal.{decimal, parse_unsigned}
use libreatrust.Auth.Http.{
  capture_cookies, exchange, hex_from, micros, millis, parse_set_cookie, random_hex, read_body,
  send, trace_id,
}
use libreatrust.Auth.Http.Cookies.{parse_set_cookie-pair}
use libreatrust.Auth.Requests.{ask, auth_config_impl, password_payload, post_password}
use libreatrust.Auth.Answers.{auth_check, next_step, online_info, report_env}
use libreatrust.Auth.Step.{auth_step_from_data, mode_of}
use libreatrust.Auth.Login.{
  auth_rounds, complete_login, config_if, continue_auth, finish_login, login_with_ticket,
  named_login, run_password, run_sms_verify, sync_sid_from_cookies,
}
use libreatrust.Auth.Session.{build_connection_id, login_with_password, new_session, reset_identity}
use libreatrust.Auth.Stored.{client_resource_bytes}
use libreatrust.Auth.Bodies.{lossy_from, short_response_body, validate_client_resource_response}
use libreatrust.Auth.Bodies.Checks.{
  IsSuccess, SaysNoFailure, validate_client_resource_response-ok_iff,
}
use libreatrust.Auth.Challenge.{Challenged}
use libreatrust.Auth.Calls.{here, password_call, run, run-Reach}
use libreatrust.Auth.Traffic.Bounds.{run-Asks}
use libreatrust.Auth.Stale.{client_resource_bytes-login_with_password}
use libreatrust.Auth.Refused.{run_sms_verify-refused}

-- Crates that read each body as fixed: a body of one byte 1 asks for a captcha, and an empty body
-- has no ticket.
abbrev code_of : ℕ → I64
code_of n = i64 false n

abbrev fixed_password : List ℕ → PasswordResponse
fixed_password [] = record {
  code = code_of 9;
  message = codes "wrong";
  ticket = [];
  graph_check_code_enable = code_of 0;
}
fixed_password (b ∷ bytes) = record {
  code = code_of 0;
  message = [];
  ticket = codes "ticket";
  graph_check_code_enable = code_of b;
}

abbrev fixed_step : List ℕ → AuthStepData
fixed_step [] = record { next_service = []; next_service_list = [] }
fixed_step (b ∷ bytes) = record {
  next_service = codes "auth/sms";
  next_service_list = record { auth_id = codes "id"; auth_type = codes "auth/sms" } ∷ [];
}

abbrev plain : Services
plain = record {
  parse_url = λ text. ok (record { text = text; query_pairs = [] });
  read_auth_config = λ bytes. ok (record {
    auth_server_info_list = [];
    is_login = code_of 1;
    csrf_token = codes "token";
    pub_key = [];
    pub_key_exp = codes "65537";
    anti_replay_rand = codes "rand";
    security = none;
  });
  read_password = λ bytes. ok (fixed_password bytes);
  read_sms = λ bytes. ok (fixed_password bytes);
  read_step = λ bytes. ok (record { code = code_of 0; message = []; step = fixed_step bytes });
  read_custom_sms = λ bytes. ok (record { code = code_of 0; message = [] });
  read_code = λ bytes. ok (record { code = code_of 0; message = [] });
  read_username = λ bytes. ok (codes "alice");
  read_json = λ bytes. ok (object end);
  header_text = λ bytes. some bytes;
  print_json = λ json. codes "{}";
  base64 = λ text. text;
  md5_hex = λ text. text;
  hex_encode = λ bytes. bytes;
  hex_decode = λ text. ok text;
  encrypt = λ key exponent message. ok message;
  random_bytes = λ draw count. 7 ∷ [];
  millis = λ reading. reading;
  micros = λ reading. reading;
}

abbrev reply : List ℕ → AtrResult Response
reply bytes = ok (record { status = 200; set_cookies = []; location = none; body = ok bytes })

abbrev auth_config : AuthConfig
auth_config = record {
  server_host = codes "vpn.example";
  server_port = 443;
  user_agent = codes "agent";
  client_type = codes "client";
  platform = codes "Linux";
  login_domain = codes "local";
  preferred_auth_type = none;
  io_timeout_ms = 1000;
  allow_insecure_tls = false;
}

-- The configuration, the password, reportEnv, authCheck and onlineInfo.
abbrev five_replies : List (AtrResult Response)
five_replies = reply [] ∷ reply (0 ∷ []) ∷ reply [] ∷ reply [] ∷ reply [] ∷ []

abbrev start : AuthSession
start = record {
  config = auth_config;
  base_host = codes "vpn.example";
  csrf_token = [];
  pub_key = [];
  pub_key_exp = [];
  anti_replay_rand = [];
  core = record {
    device_id = [];
    sign_key_hex = 7 ∷ [];
    connection_id = [];
    env = [];
    ticket = [];
    sid = [];
    username = [];
    client_resource_bytes = none;
    pending = none;
  };
  cookies = [];
  cookie_jar = [];
  sent = [];
  replies = five_replies;
  draws = 1;
  readings = 0;
}

new_session-start : new_session plain (λ config. ok tt) auth_config five_replies ≡ ok start
unfolding new_session random_hex
new_session-start = refl

abbrev alice : PasswordLoginInput
alice = record { username = codes "alice"; password = codes "secret"; login_domain = codes "local" }

abbrev is_done : AtrResult AuthChallenge → Bool
is_done (ok (done material)) = true
is_done (ok (need_captcha image)) = false
is_done (ok (need_sms_code auth_id)) = false
is_done (ok (need_callback_url url kind)) = false
is_done (err e) = false

-- The five replies end in a login.
alice_is_in : is_done (run plain (password_call alice (codes "device")) start).0 ≡ true
unfolding run login_with_password reset_identity build_connection_id micros random_hex run_password
    auth_config_impl ask trace_id millis exchange send capture_cookies read_body post_password
    password_payload login_with_ticket sync_sid_from_cookies finish_login config_if report_env
    auth_check next_step auth_step_from_data mode_of continue_auth auth_rounds complete_login
    online_info named_login hex_from lookup parse_unsigned
alice_is_in = refl

run-Reach_example : Challenged plain (run plain (password_call alice (codes "device")) start)
run-Reach_example =
    run-Reach plain (λ config. ok tt) auth_config five_replies start start
      (password_call alice (codes "device")) new_session-start here

run-Asks_example :
    length (run plain (password_call alice (codes "device")) start).1.sent ≤ length start.sent + 16
run-Asks_example = run-Asks plain (password_call alice (codes "device")) start

abbrev fetched_before : AuthSession
fetched_before = record start {
  core = record start.core { client_resource_bytes = some (1 ∷ 2 ∷ []) };
}

client_resource_bytes-login_with_password_example :
    client_resource_bytes plain (login_with_password plain alice (codes "device") fetched_before).1
    ≡ (ok (1 ∷ 2 ∷ []), (login_with_password plain alice (codes "device") fetched_before).1)
client_resource_bytes-login_with_password_example =
    client_resource_bytes-login_with_password plain alice (codes "device") (1 ∷ 2 ∷ [])
      fetched_before refl

run_sms_verify-refused_example :
    (run_sms_verify plain (codes "555") (codes "local") (codes "0000") [] start).0
    ≡ err (invalid_state (literal "ticket is empty"))
run_sms_verify-refused_example =
    run_sms_verify-refused plain (codes "555") (codes "local") (codes "0000") [] start
      (record { status = 200; set_cookies = []; location = none; body = ok [] })
      (reply (0 ∷ []) ∷ reply [] ∷ reply [] ∷ reply [] ∷ []) [] (fixed_password []) refl refl refl
      refl refl

abbrev failing_body : List ℕ → AtrResult Json
failing_body bytes = ok (object (field (codes "code") (nonneg 500) end))

validate_client_resource_response-ok_iff_example :
    (validate_client_resource_response failing_body 200 [] ≡ ok tt)
    ↔ (IsSuccess 200 × SaysNoFailure (failing_body []))
validate_client_resource_response-ok_iff_example =
    validate_client_resource_response-ok_iff failing_body 200 []

abbrev denied : AtrError
denied = unauthorized (about "clientResource http status " (codes "403: <empty body>"))

denied_reply : validate_client_resource_response failing_body 403 [] ≡ err denied
unfolding validate_client_resource_response short_response_body lossy_from trim decimal
denied_reply = refl

parse_set_cookie-pair_example :
    parse_set_cookie (λ bytes. some bytes) (codes "sid=abc123; Path=/") (codes "host")
    ≡ ok (record {
      host = codes "host";
      scheme = codes "https";
      name = trim (codes "sid");
      value = trim (codes "abc123");
    })
parse_set_cookie-pair_example =
    parse_set_cookie-pair (λ bytes. some bytes) (codes "sid=abc123; Path=/") (codes "sid")
      (codes "abc123") (codes "; Path=/") (codes "host") refl refl refl refl refl
