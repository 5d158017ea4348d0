-- ===== src/Auth/Challenge.antt =====
-- auth.rs: a challenge that a login returns can be answered.
pub mod Flows
use libreatrust.Base.{
  Bool, List, Option, Text, ap, arith, false, if◌then◌else◌, none, refl, some, subst, sym, true, ℕ,
  ◌∙◌, ◌≡◌,
}
use libreatrust.Types.{AuthChallenge, done, need_callback_url, need_captcha, need_sms_code}
use libreatrust.Auth.{
  Auth, AuthSession, AuthStep, PendingFlow, Services, SmsMode, auth_step_flow, continue_with,
  custom, password_flow, sms_login_flow, sms_verify_flow, ◌>>=◌,
}
use libreatrust.Error.{AtrError, AtrResult, err, ok}
use libreatrust.Auth.Answers.{
  is_with_auth_id, is_without_auth_id, log_phone_number, online_info, send_custom_sms,
  trigger_password_sms_step,
}
use libreatrust.Auth.Login.{
  begin_by, begin_custom_sms, complete_login, config_if, custom_step, named_login, session_material,
  sync_sid_from_cookies, wait_for_code, with_ticket,
}
use libreatrust.Auth.Quiet.{IsQuiet}
use libreatrust.Auth.Quiet.Questions.{
  config_if-IsQuiet, log_phone_number-IsQuiet, online_info-IsQuiet, send_custom_sms-IsQuiet,
  trigger_password_sms_step-IsQuiet,
}
use libreatrust.Auth.Asked.{Named, online_info-Named}

-- A step that waits for a code by SMS.
abbrev pub IsSmsStep : AuthStep → Type 0
IsSmsStep step = (mode : SmsMode) × (step.sms_mode ≡ some mode)

-- A flow that waits for something that its answer can use.
abbrev pub IsSound : Option PendingFlow → Type 0
IsSound none = Unit
IsSound (some (password_flow input)) = Unit
IsSound (some (sms_login_flow input)) = Unit
IsSound (some (sms_verify_flow phone login_domain code)) = Unit
IsSound (some (auth_step_flow step)) = IsSmsStep step

-- The flows that `submit_captcha` goes on with.
abbrev pub TakesCaptcha : Option PendingFlow → Type 0
TakesCaptcha none = ⊥
TakesCaptcha (some (password_flow input)) = Unit
TakesCaptcha (some (sms_login_flow input)) = Unit
TakesCaptcha (some (sms_verify_flow phone login_domain code)) = Unit
TakesCaptcha (some (auth_step_flow step)) = ⊥

module _ (services : Services) where
  -- A call's result fits the flow that waits after it: a captcha is asked for where one is taken,
  -- a code where a step by SMS waits for it, and nothing waits after a login that is done, whose
  -- material is that of the session.
  unfoldable pub Challenged : AtrResult AuthChallenge × AuthSession → Type 0
  Challenged (ok (need_captcha image), s) = TakesCaptcha s.core.pending
  Challenged (ok (need_sms_code auth_id), s) =
      (step : AuthStep) × (s.core.pending ≡ some (auth_step_flow step))
      × (step.auth_id ≡ auth_id)
      × IsSmsStep step
  Challenged (ok (need_callback_url url kind), s) = ⊥
  Challenged (ok (done material), s) =
      (s.core.pending ≡ none)
      × (material ≡ session_material s)
      × Named services s.sent material.username
  Challenged (err e, s) = IsSound s.core.pending

  TakesCaptcha-IsSound : (flow : Option PendingFlow) → TakesCaptcha flow → IsSound flow
  TakesCaptcha-IsSound none h = tt
  TakesCaptcha-IsSound (some (password_flow input)) h = tt
  TakesCaptcha-IsSound (some (sms_login_flow input)) h = tt
  TakesCaptcha-IsSound (some (sms_verify_flow phone login_domain code)) h = tt
  TakesCaptcha-IsSound (some (auth_step_flow step)) h = absurd h

  pub Challenged-IsSound :
      (r : AtrResult AuthChallenge) (s : AuthSession) → Challenged (r, s) → IsSound s.core.pending
  unfolding Challenged
  Challenged-IsSound (ok (need_captcha image)) s h = TakesCaptcha-IsSound s.core.pending h
  Challenged-IsSound (ok (need_sms_code auth_id)) s (step, e, i, m) = subst IsSound (sym e) m
  Challenged-IsSound (ok (need_callback_url url kind)) s h = absurd h
  Challenged-IsSound (ok (done material)) s (e, m, n) = subst IsSound (sym e) tt
  Challenged-IsSound (err e) s h = h

  continue_with-Challenged {ℓ} :
      {A : Type ℓ} (f : A → Auth AuthChallenge) (r : AtrResult A) (s : AuthSession)
      → IsSound s.core.pending
      → ((a : A) → Challenged (f a s))
      → Challenged (continue_with f (r, s))
  unfolding Challenged
  continue_with-Challenged f (ok a) s h k = k a
  continue_with-Challenged f (err e) s h k = h

  -- A quiet step leaves the flow that waits as it was.
  quiet_at-Challenged {ℓ} :
      {A : Type ℓ} (flow : Option PendingFlow) (m : Auth A) (f : A → Auth AuthChallenge)
      (s : AuthSession)
      → IsQuiet m
      → s.core.pending ≡ flow
      → IsSound flow
      → ((a : A) (s' : AuthSession) → s'.core.pending ≡ flow → Challenged (f a s'))
      → Challenged ((m >>= f) s)
  quiet_at-Challenged flow m f s q e h k =
      let same : (m s).1.core.pending ≡ flow = ap (λ c. c.pending) (q s) ∙ e in
      continue_with-Challenged f (m s).0 (m s).1 (subst IsSound (sym same) h)
        (λ a. k a (m s).1 same)

  pub quiet-Challenged {ℓ} :
      {A : Type ℓ} (m : Auth A) (f : A → Auth AuthChallenge) (s : AuthSession)
      → IsQuiet m
      → IsSound s.core.pending
      → ((a : A) (s' : AuthSession) → IsSound s'.core.pending → Challenged (f a s'))
      → Challenged ((m >>= f) s)
  quiet-Challenged m f s q h k =
      quiet_at-Challenged s.core.pending m f s q refl h (λ a s' e. k a s' (subst IsSound (sym e) h))

  pub err-Challenged :
      (e : AtrError) (s : AuthSession) → IsSound s.core.pending → Challenged (err e, s)
  unfolding Challenged
  err-Challenged e s h = h

  done-Challenged :
      (s : AuthSession)
      → s.core.pending ≡ none
      → Named services s.sent s.core.username
      → Challenged (ok (done (session_material s)), s)
  unfolding Challenged
  done-Challenged s e n = (e, refl, n)

  pub captcha-Challenged :
      (image : List ℕ) (s : AuthSession)
      → TakesCaptcha s.core.pending
      → Challenged (ok (need_captcha image), s)
  unfolding Challenged
  captcha-Challenged image s h = h

  pub if-Challenged :
      (b : Bool) (m k : Auth AuthChallenge) (s : AuthSession)
      → Challenged (m s)
      → Challenged (k s)
      → Challenged ((if b then m else k) s)
  if-Challenged true m k s hm hk = hm
  if-Challenged false m k s hm hk = hk

  pub sync_sid-pending :
      (s : AuthSession) → (sync_sid_from_cookies services s).1.core.pending ≡ s.core.pending
  unfolding sync_sid_from_cookies
  sync_sid-pending s = ground arith

  sync_sid-kept :
      (s : AuthSession)
      → ((sync_sid_from_cookies services s).1.sent ≡ s.sent)
        × ((sync_sid_from_cookies services s).1.core.username ≡ s.core.username)
  unfolding sync_sid_from_cookies
  sync_sid-kept s = (ground arith, ground arith)

  named_login-Challenged :
      (name : Text) (s : AuthSession)
      → s.core.pending ≡ none
      → Named services s.sent name
      → Challenged (named_login services name s)
  unfolding named_login sync_sid_from_cookies
  named_login-Challenged name s e n =
      let named : AuthSession = record s { core = record s.core { username = name } } in
      let kept = sync_sid-kept named in
      done-Challenged (sync_sid_from_cookies services named).1 (sync_sid-pending named ∙ e) (
        subst (λ sent. Named services sent (sync_sid_from_cookies services named).1.core.username)
          (sym kept.0) (subst (Named services s.sent) (sym kept.1) n))

  pub complete_login-Challenged : (s : AuthSession) → Challenged (complete_login services s)
  unfolding complete_login
  complete_login-Challenged s =
      let left : AuthSession = record s { core = record s.core { pending = none } } in
      after_name (online_info services left).0 (online_info services left).1 refl
        (ap (λ c. c.pending) (online_info-IsQuiet services left))
    where
      after_name :
          (r : AtrResult Text) (t : AuthSession)
          → online_info services (record s { core = record s.core { pending = none } }) ≡ (r, t)
          → t.core.pending ≡ none
          → Challenged (continue_with (named_login services) (r, t))
      after_name (ok name) t e p =
          named_login-Challenged name t p (online_info-Named services _ t name e)
      after_name (err d) t e p = err-Challenged d t (subst IsSound (sym p) tt)

  wait_for_code-Challenged :
      (step : AuthStep) (s : AuthSession)
      → IsSmsStep step
      → Challenged (wait_for_code services step s)
  unfolding wait_for_code Challenged
  wait_for_code-Challenged step s h = (step, refl, refl, h)

  pub begin_by-Challenged :
      (mode : Option SmsMode) (step : AuthStep) (s : AuthSession)
      → step.sms_mode ≡ mode
      → IsSound s.core.pending
      → Challenged (begin_by services mode step s)
  unfolding begin_by
  begin_by-Challenged none step s e h = err-Challenged _ s h
  begin_by-Challenged (some mode) step s e h =
      let config = λ (c : Bool). config_if services c (with_ticket services) in
      quiet-Challenged (config (is_with_auth_id (some mode))) _ s (config_if-IsQuiet services _ _) h
        (λ u1 s1 h1.
          quiet-Challenged (log_phone_number services step.auth_id) _ s1
            (log_phone_number-IsQuiet services step.auth_id) h1
            (λ u2 s2 h2.
              quiet-Challenged (trigger_password_sms_step services step) _ s2
                (trigger_password_sms_step-IsQuiet services step) h2
                (λ u3 s3 h3.
                  quiet-Challenged (config (is_without_auth_id (some mode))) _ s3
                    (config_if-IsQuiet services _ _) h3
                    (λ u4 s4 h4. wait_for_code-Challenged step s4 (mode, e)))))

  pub begin_custom_sms-Challenged :
      (s : AuthSession) → IsSound s.core.pending → Challenged (begin_custom_sms services s)
  unfolding begin_custom_sms
  begin_custom_sms-Challenged s h =
      quiet-Challenged (send_custom_sms services) _ s (send_custom_sms-IsQuiet services) h
        (λ u s' h'. wait_for_code-Challenged (custom_step services) s' (custom, refl))
