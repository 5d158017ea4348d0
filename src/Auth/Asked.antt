-- ===== src/Auth/Asked.antt =====
-- auth.rs: the requests that a question leaves behind it.
use libreatrust.Base.{
  List, Text, [], ap, arith, codes, inl, inr, refl, sym, ℕ, ◌++◌, ◌+◌, ◌∙◌, ◌∷◌, ◌≡◌,
}
use libreatrust.Types.{CookieRecord}
use libreatrust.Auth.{
  Auth, AuthSession, Request, Response, Services, continue_with, lift, modify, pure, ◌>>=◌, ◌>>◌,
}
use libreatrust.Error.{AtrResult, AtrResult-cases, err, ok}
use libreatrust.Auth.Http.{
  add_cookie, capture_cookies, exchange, hex_from, install_cookie, millis, parse_set_cookie,
  read_body, send, trace_id,
}
use libreatrust.Auth.Requests.{ask, get_request}
use libreatrust.Auth.Answers.{online_info}

-- A chain that returns has had a first step that returned.
bind-eq-ok {ℓ κ} :
    {A : Type ℓ} {B : Type κ} (m : Auth A) (f : A → Auth B) (s t : AuthSession) (b : B)
    → (m >>= f) s ≡ (ok b, t)
    → (a : A) × (u : AuthSession) × (m s ≡ (ok a, u)) × (f a u ≡ (ok b, t))
bind-eq-ok {A} {B} m f s t b e = go (m s).0 (m s).1 refl e
  where
    go :
        (r : AtrResult A) (u : AuthSession)
        → m s ≡ (r, u)
        → continue_with f (r, u) ≡ (ok b, t)
        → (a : A) × (u' : AuthSession) × (m s ≡ (ok a, u')) × (f a u' ≡ (ok b, t))
    go (ok a) u h e' = (a, u, h, e')
    go (err d) u h e' = absurd (cc e')

module _ (services : Services) where
  install_cookie-sent :
      (cookie : CookieRecord) (s : AuthSession) → (install_cookie services cookie s).sent ≡ s.sent
  unfolding install_cookie
  install_cookie-sent cookie s = ground arith

  capture_cookies-sent :
      (values : List (List ℕ)) (s : AuthSession) → (capture_cookies services values s).sent ≡ s.sent
  unfolding capture_cookies
  capture_cookies-sent [] s = refl
  capture_cookies-sent (value ∷ values) s =
      elim (AtrResult-cases (parse_set_cookie services.header_text value s.base_host)) [
        | inl (cookie, e) ↦
            rw (e, capture_cookies)
              (capture_cookies-sent values (add_cookie services cookie s)
                ∙ install_cookie-sent cookie s)
        | inr (d, e) ↦ rw (e, capture_cookies) (capture_cookies-sent values s)
      ]

  send-sent :
      (request : Request) (s : AuthSession)
      → (send services request s).1.sent ≡ s.sent ++ (request ∷ [])
  unfolding send
  send-sent request s = ground arith

  captured-sent :
      (r : AtrResult Response) (s : AuthSession)
      → (continue_with
          (λ response. modify (capture_cookies services response.set_cookies) >> pure response)
          (r, s)).1.sent
        ≡ s.sent
  captured-sent (ok response) s = capture_cookies-sent response.set_cookies s
  captured-sent (err e) s = refl

  -- Every question is one request more.
  pub exchange-sent :
      (request : Request) (s : AuthSession)
      → (exchange services request s).1.sent ≡ s.sent ++ (request ∷ [])
  unfolding exchange
  exchange-sent request s =
      captured-sent (send services request s).0 (send services request s).1 ∙ send-sent request s

  read_body-ok :
      {A : Type 0} (read : List ℕ → AtrResult A) (response : Response) (s t : AuthSession) (a : A)
      → read_body services read response s ≡ (ok a, t)
      → (bytes : List ℕ) × (read bytes ≡ ok a) × (t ≡ s)
  unfolding read_body
  read_body-ok read response s t a e =
      let (bytes, u, h, k) = bind-eq-ok (lift response.body) (λ b. lift (read b)) s t a e in
      (bytes, ap (λ p. p.0) k, sym (ap (λ p. p.1) k) ∙ sym (ap (λ p. p.1) h))

  -- The last request asked who is logged in, and the answer was read as this name.
  abbrev pub Named : List Request → Text → Type 0
  Named sent username =
      (front : List Request) × (request : Request) × (bytes : List ℕ) × (sent
        ≡ front ++ (request ∷ []))
      × (request.path ≡ codes "/passport/v1/user/onlineInfo")
      × (services.read_username bytes ≡ ok username)

  -- A user who is named was named by the answer to the last request.
  pub online_info-Named :
      (s t : AuthSession) (name : Text) → online_info services s ≡ (ok name, t) → Named t.sent name
  unfolding online_info ask trace_id millis
  online_info-Named s t name e =
      let read : AuthSession = record s { readings = s.readings + 1 } in
      let request =
        get_request services "/passport/v1/user/onlineInfo" [] read
          (hex_from 32 (services.millis s.readings)) in
      let (response, u, h, k) =
        bind-eq-ok (exchange services request) (read_body services services.read_username) read t
          name e in
      let (bytes, n, same) = read_body-ok services.read_username response u t name k in
      (
        s.sent,
        request,
        bytes,
        ap (λ v. v.sent) same ∙ sym (ap (λ p. p.1.sent) h) ∙ exchange-sent request read,
        refl,
        n,
      )
