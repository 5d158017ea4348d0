-- ===== src/Auth/Http.antt =====
-- auth.rs: the requests of a login, and what each method takes from the reply.
pub mod Cookies
use libreatrust.Base.{
  List, Option, Text, [], before_first, codes, if◌then◌else◌, is_empty, ltb, none, some, split_once,
  suc, take, trim, zero, ℕ, ◌%◌, ◌++◌, ◌+◌, ◌/◌, ◌∷◌,
}
use libreatrust.Types.{CookieRecord}
use libreatrust.Map.{insert}
use libreatrust.Auth.{
  Auth, AuthSession, Request, Response, Services, lift, modify, pure, ◌>>=◌, ◌>>◌,
}
use libreatrust.Error.{AtrResult, err, literal, network_failed, ok, parse_failed}

-- Hexadecimal digits of a number, with one round for each digit.
abbrev pub hex_digit : ℕ → ℕ
hex_digit d = if ltb d 10 then 48 + d else 87 + d

unfoldable pub hex_from : ℕ → ℕ → Text
hex_from zero n = []
hex_from (suc rounds) n =
    let front = hex_from rounds (n / 16) in
    if ltb n 16 then hex_digit n ∷ [] else front ++ (hex_digit (n % 16) ∷ [])

-- `parse_set_cookie`
unfoldable pub parse_set_cookie : (List ℕ → Option Text) → List ℕ → Text → AtrResult CookieRecord
parse_set_cookie header_text value host = elim (header_text value) [
  | none ↦ err (parse_failed (literal "failed to convert header to a str"))
  | some raw ↦ elim (split_once b'=' (before_first b';' raw)) [
    | none ↦ err (parse_failed (literal "invalid set-cookie"))
    | some (name, content) ↦
        ok (record { host = host; scheme = codes "https"; name = trim name; value = trim content })
  ]
]

module _ (services : Services) where
  -- `install_cookie`: a cookie whose host gives no URL is not added.
  unfoldable pub install_cookie : CookieRecord → AuthSession → AuthSession
  install_cookie cookie s =
      let host = if is_empty cookie.host then s.base_host else cookie.host in
      let scheme = if is_empty cookie.scheme then codes "https" else cookie.scheme in
      elim (services.parse_url (scheme ++ (codes "://" ++ host))) [
        | err e ↦ s
        | ok url ↦ record s {
          cookie_jar = s.cookie_jar ++ ((url, cookie.name ++ (codes "=" ++ cookie.value)) ∷ []);
        }
      ]

  abbrev pub add_cookie : CookieRecord → AuthSession → AuthSession
  add_cookie cookie s =
      let installed = install_cookie cookie s in
      record installed { cookies = insert cookie.name cookie installed.cookies }

  -- The loop of `capture_cookies`.
  unfoldable pub capture_cookies : List (List ℕ) → AuthSession → AuthSession
  capture_cookies [] s = s
  capture_cookies (value ∷ values) s =
      elim (parse_set_cookie services.header_text value s.base_host) [
        | err e ↦ capture_cookies values s
        | ok cookie ↦ capture_cookies values (add_cookie cookie s)
      ]

  -- `send`: the next reply answers the request.
  unfoldable pub send : Request → Auth Response
  send request s =
      let asked = record s { sent = s.sent ++ (request ∷ []) } in
      elim s.replies [
        | [] ↦ (err (network_failed (literal "no reply")), asked)
        | err e ∷ rest ↦ (err e, record asked { replies = rest })
        | ok response ∷ rest ↦ (ok response, record asked { replies = rest })
      ]

  -- `send` and then `capture_cookies`.
  unfoldable pub exchange : Request → Auth Response
  exchange request = do
    response ← send request
    modify (capture_cookies response.set_cookies)
    pure response

  abbrev pub shared_params : AuthSession → List (Text × Text)
  shared_params s =
      (codes "clientType", s.config.client_type)
      ∷ (codes "platform", s.config.platform)
      ∷ (codes "lang", codes "en-US")
      ∷ []

  -- `millis`, which reads the clock.
  unfoldable pub millis : Auth ℕ
  millis s = (ok (services.millis s.readings), record s { readings = s.readings + 1 })

  -- `micros`
  unfoldable pub micros : Auth ℕ
  micros s = (ok (services.micros s.readings), record s { readings = s.readings + 1 })

  -- `trace_id`: the milliseconds in hexadecimal, 32 digits at most.
  unfoldable pub trace_id : Auth Text
  trace_id = do now ← millis; pure (hex_from 32 now)

  -- `random_hex`
  unfoldable pub random_hex : ℕ → Auth Text
  random_hex len s =
      let bytes = services.random_bytes s.draws ((len + 1) / 2) in
      (ok (take len (services.hex_encode bytes)), record s { draws = s.draws + 1 })

  -- A text that serde reads.
  unfoldable pub read_body : {A : Type 0} → (List ℕ → AtrResult A) → Response → Auth A
  read_body read response = do bytes ← lift response.body; lift (read bytes)
