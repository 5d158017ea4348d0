-- ===== src/Auth/Traffic/Bounds.antt =====
-- auth.rs: a bound on the requests of every call.
use libreatrust.Base.{
  Bool, Option, Text, [], ap, arith, codes, false, if◌then◌else◌, is_empty, length, none, not, some,
  suc, text_eq, true, zero, ℕ, ◌&&◌, ◌+◌, ◌≡◌, ◌≤◌,
}
use libreatrust.Types.{AuthChallenge, PasswordLoginInput, SmsLoginInput}
use libreatrust.Auth.{
  Auth, AuthSession, AuthStep, PendingFlow, Services, SmsMode, auth_step_flow, is_zero, lift,
  password_flow, sms_login_flow, sms_verify_flow, ◌>>=◌,
}
use libreatrust.Auth.Http.{micros, random_hex}
use libreatrust.Auth.Requests.{auth_config_init, post_password, post_sms_verify, send_sms}
use libreatrust.Auth.Answers.{
  auth_check, extract_ticket_from_callback, fetch_captcha, log_phone_number, online_info,
  report_env, send_custom_sms, trigger_password_sms_step,
}
use libreatrust.Auth.Login.{
  ask_captcha, auth_rounds, begin_by, begin_custom_sms, begin_sms, complete_login, config_if,
  continue_auth, finish_login, login_with_ticket, named_login, run_password, run_sms_send,
  run_sms_verify, sync_sid_from_cookies, wait_for_code,
}
use libreatrust.Auth.Session.{
  answer_captcha, answer_sms, build_connection_id, complete_auth_step, complete_by,
  complete_callback, complete_callback_with_device, login_with_password, login_with_sms,
  reset_identity, submit_captcha, submit_sms_code,
}
use libreatrust.Auth.Calls.{
  Call, callback_call, callback_with_device_call, captcha_call, code_call, password_call, run,
  sms_call,
}
use libreatrust.Auth.Traffic.{Asks, Asks-le, bind-Asks, if-Asks}
use libreatrust.Auth.Traffic.Questions.{
  auth_check-Asks, complete_by-Asks, config-Asks, config_if-Asks, extract-Asks, fetch_captcha-Asks,
  log_phone_number-Asks, online_info-Asks, post_password-Asks, post_sms_verify-Asks,
  report_env-Asks, send_custom_sms-Asks, send_sms-Asks, trigger-Asks,
}

module _ (services : Services) where
  sync_sid-sent : (s : AuthSession) → (sync_sid_from_cookies services s).1.sent ≡ s.sent
  unfolding sync_sid_from_cookies
  sync_sid-sent s = ground arith

  complete_login-Asks : Asks 1 (complete_login services)
  unfolding complete_login named_login sync_sid_from_cookies
  complete_login-Asks s =
      bind-Asks 1 0 (online_info services) _ (online_info-Asks services)
        (λ username s'. omega (
          arith,
          ap length (sync_sid-sent (record s' { core = record s'.core { username = username } })),
        ))
        (record s { core = record s.core { pending = none } })

  begin_by-Asks : (mode : Option SmsMode) (step : AuthStep) → Asks 4 (begin_by services mode step)
  unfolding begin_by wait_for_code
  begin_by-Asks none step = λ s. omega arith
  begin_by-Asks (some mode) step =
      bind-Asks 1 3 (config_if services _ _) _ (config_if-Asks services _ _) (λ u1.
        bind-Asks 1 2 (log_phone_number services step.auth_id) _
          (log_phone_number-Asks services step.auth_id)
          (λ u2.
            bind-Asks 1 1 (trigger_password_sms_step services step) _ (trigger-Asks services step)
              (λ u3.
                bind-Asks 1 0 (config_if services _ _) _ (config_if-Asks services _ _)
                  (λ u4 s. omega arith))))

  begin_custom_sms-Asks : Asks 1 (begin_custom_sms services)
  unfolding begin_custom_sms wait_for_code
  begin_custom_sms-Asks =
      bind-Asks 1 0 (send_custom_sms services) _ (send_custom_sms-Asks services)
        (λ u s. omega arith)

  -- A round asks once more, or ends with four requests at most.
  auth_rounds-Asks :
      (rounds : ℕ) (step : AuthStep) → Asks (rounds + 3) (auth_rounds services rounds step)
  unfolding auth_rounds begin_sms
  auth_rounds-Asks zero step = λ s. omega arith
  auth_rounds-Asks (suc rounds) step =
      if-Asks _ (is_empty step.service) _ _
        (Asks-le 1 _ (complete_login services) (omega arith) complete_login-Asks)
        (if-Asks _ (text_eq step.service (codes "auth/authCheck")) _ _
          (Asks-le (1 + (rounds + 3)) _ (auth_check services >>= auth_rounds services rounds)
            (omega arith)
            (bind-Asks 1 (rounds + 3) (auth_check services) _ (auth_check-Asks services)
              (auth_rounds-Asks rounds)))
          (if-Asks _ (text_eq step.service (codes "auth/sms")) _ _
            (Asks-le 4 _ (begin_by services step.sms_mode step) (omega arith)
              (begin_by-Asks step.sms_mode step))
            (if-Asks _ (text_eq step.service (codes "auth/customSms")) _ _
              (Asks-le 1 _ (begin_custom_sms services) (omega arith) begin_custom_sms-Asks)
              (λ s. omega arith))))

  check-Asks : Asks 12 (auth_check services >>= continue_auth services)
  unfolding continue_auth
  check-Asks =
      bind-Asks 1 11 (auth_check services) (auth_rounds services 8) (auth_check-Asks services)
        (λ step.
          Asks-le (8 + 3) 11 (auth_rounds services 8 step) (omega arith) (auth_rounds-Asks 8 step))

  finish_login-Asks : (update_mod : Bool) → Asks 14 (finish_login services update_mod)
  unfolding finish_login
  finish_login-Asks update_mod =
      bind-Asks 1 13 (config_if services update_mod _) _ (config_if-Asks services update_mod _)
        (λ u. bind-Asks 1 12 (report_env services) _ (report_env-Asks services) (λ v. check-Asks))

  login_with_ticket-Asks : (ticket : Text) → Asks 14 (login_with_ticket services ticket)
  unfolding login_with_ticket sync_sid_from_cookies
  login_with_ticket-Asks ticket s =
      let named : AuthSession = record s { core = record s.core { ticket = ticket } } in
      omega (
        arith,
        finish_login-Asks false (sync_sid_from_cookies services named).1,
        ap length (sync_sid-sent named),
      )

  ask_captcha-Asks : (flow : PendingFlow) → Asks 1 (ask_captcha services flow)
  unfolding ask_captcha
  ask_captcha-Asks flow =
      bind-Asks 1 0 (fetch_captcha services) _ (fetch_captcha-Asks services)
        (λ image s. omega arith)

  -- A captcha is asked for, or the login goes on.
  captcha_or-Asks :
      (b : Bool) (flow : PendingFlow) (m : Auth AuthChallenge)
      → Asks 14 m
      → Asks 14 (if b then ask_captcha services flow else m)
  captcha_or-Asks b flow m h =
      if-Asks 14 b (ask_captcha services flow) m
        (Asks-le 1 14 (ask_captcha services flow) (omega arith) (ask_captcha-Asks flow)) h

  run_password-Asks :
      (input : PasswordLoginInput) (captcha : Text) → Asks 16 (run_password services input captcha)
  unfolding run_password
  run_password-Asks input captcha =
      bind-Asks 1 15 (auth_config_init services) _ (config-Asks services _) (λ config.
        bind-Asks 1 14 (post_password services input captcha) _
          (post_password-Asks services input captcha)
          (λ response.
            captcha_or-Asks (not (is_zero response.graph_check_code_enable)) (password_flow input)
              (login_with_ticket services response.ticket)
              (login_with_ticket-Asks response.ticket)))

  run_sms_send-Asks :
      (input : SmsLoginInput) (captcha : Text) → Asks 16 (run_sms_send services input captcha)
  unfolding run_sms_send
  run_sms_send-Asks input captcha =
      bind-Asks 1 15 (auth_config_init services) _ (config-Asks services _) (λ config.
        bind-Asks 1 14 (send_sms services input captcha) _ (send_sms-Asks services input captcha)
          (λ enabled.
            captcha_or-Asks (not (is_zero enabled) && is_empty captcha) (sms_login_flow input)
              (auth_check services >>= continue_auth services)
              (Asks-le 12 14 (auth_check services >>= continue_auth services) (omega arith)
                check-Asks)))

  run_sms_verify-Asks :
      (phone login_domain code captcha : Text)
      → Asks 16 (run_sms_verify services phone login_domain code captcha)
  unfolding run_sms_verify
  run_sms_verify-Asks phone login_domain code captcha =
      bind-Asks 2 14 (post_sms_verify services phone login_domain code captcha) _
        (Asks-le 1 2 (post_sms_verify services phone login_domain code captcha) (omega arith)
          (post_sms_verify-Asks services phone login_domain code captcha))
        (λ response.
          captcha_or-Asks (not (is_zero response.graph_check_code_enable) && is_empty captcha)
            (sms_verify_flow phone login_domain code) (login_with_ticket services response.ticket)
            (login_with_ticket-Asks response.ticket))

  answer_captcha-Asks :
      (flow : Option PendingFlow) (captcha : Text) → Asks 16 (answer_captcha services flow captcha)
  unfolding answer_captcha
  answer_captcha-Asks none captcha = λ s. omega arith
  answer_captcha-Asks (some (password_flow input)) captcha = run_password-Asks input captcha
  answer_captcha-Asks (some (sms_login_flow input)) captcha = run_sms_send-Asks input captcha
  answer_captcha-Asks (some (sms_verify_flow phone login_domain code)) captcha =
      run_sms_verify-Asks phone login_domain code captcha
  answer_captcha-Asks (some (auth_step_flow step)) captcha = λ s. omega arith

  answer_sms-Asks :
      (flow : Option PendingFlow) (code : Text) → Asks 16 (answer_sms services flow code)
  unfolding answer_sms continue_auth complete_auth_step
  answer_sms-Asks none code = λ s. omega arith
  answer_sms-Asks (some (password_flow input)) code = λ s. omega arith
  answer_sms-Asks (some (sms_login_flow input)) code = λ s.
      run_sms_verify-Asks input.phone input.login_domain code [] (record s {
        core = record s.core {
          pending = some (sms_verify_flow input.phone input.login_domain code);
        };
      })
  answer_sms-Asks (some (sms_verify_flow phone login_domain old)) code =
      run_sms_verify-Asks phone login_domain code []
  answer_sms-Asks (some (auth_step_flow step)) code =
      bind-Asks 1 15 (complete_by services step.sms_mode step _ _) (auth_rounds services 8)
        (complete_by-Asks services step.sms_mode step _ _)
        (λ next.
          Asks-le (8 + 3) 15 (auth_rounds services 8 next) (omega arith) (auth_rounds-Asks 8 next))

  complete_callback-Asks : (url : Text) → Asks 16 (complete_callback services url)
  unfolding complete_callback
  complete_callback-Asks url =
      bind-Asks 0 16 (lift (services.parse_url url)) _ (λ s. omega arith)
        (λ callback.
          bind-Asks 2 14 (extract_ticket_from_callback services callback) _
            (Asks-le 1 2 (extract_ticket_from_callback services callback) (omega arith)
              (extract-Asks services callback))
            (λ ticket s.
              finish_login-Asks true (record s { core = record s.core { ticket = ticket } })))

  -- Whatever the server replies, a call that answers with a challenge sends at most sixteen
  -- requests and then ends.
  pub run-Asks :
      (c : Call) (s : AuthSession) → length (run services c s).1.sent ≤ length s.sent + 16
  unfolding run login_with_password login_with_sms submit_captcha submit_sms_code
      complete_callback_with_device reset_identity build_connection_id micros random_hex
  run-Asks (password_call input device_id) s = run_password-Asks input [] _
  run-Asks (sms_call input device_id) s = run_sms_send-Asks input [] _
  run-Asks (captcha_call captcha) s = answer_captcha-Asks s.core.pending captcha s
  run-Asks (code_call code) s = answer_sms-Asks s.core.pending code s
  run-Asks (callback_call url) s = complete_callback-Asks url s
  run-Asks (callback_with_device_call url device_id) s = complete_callback-Asks url _
