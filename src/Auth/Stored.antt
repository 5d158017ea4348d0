-- ===== src/Auth/Stored.antt =====
-- auth.rs: an `AuthSession` that is kept: stored sessions, and the client's resources.
use libreatrust.Base.{List, Option, [], codes, if◌then◌else◌, is_empty, none, not, some, ℕ, ◌∷◌}
use libreatrust.Types.{CookieRecord, SessionMaterial}
use libreatrust.Json.{Json, end, field, object, str}
use libreatrust.Auth.{
  Auth, AuthSession, Services, change, gets, json_body, lift, modify, pure, raise_if, ◌>>=◌, ◌>>◌,
}
use libreatrust.Auth.Http.{add_cookie, random_hex}
use libreatrust.Auth.Requests.{ask, auth_config_init, json_type, post_request}
use libreatrust.Auth.Answers.{online_info}
use libreatrust.Auth.Bodies.{validate_client_resource_response}
use libreatrust.Auth.Login.{session_material, sync_sid_from_cookies}
use libreatrust.Auth.Session.{build_connection_id, build_env, not_logged_in}

-- `clientResource` asks for these.
abbrev pub resource_type : Json
resource_type =
    let params =
      object
        (field (codes "params") (object (field (codes "action") (str (codes "login")) end)) end) in
    object (
      field (codes "resourceType")
        (object (
          field (codes "sdpPolicy") (object end) (
            field (codes "appList") (object end) (
              field (codes "favoriteAppList") (object end) (
                field (codes "featureCenter") (object end)
                  (field (codes "uemSpace") params end))))))
        end)

module _ (services : Services) where
  -- The loop of `import_session`.
  unfoldable pub import_cookies : List CookieRecord → AuthSession → AuthSession
  import_cookies [] s = s
  import_cookies (cookie ∷ cookies) s = import_cookies cookies (add_cookie services cookie s)

  -- `import_session`
  unfoldable pub import_session : SessionMaterial → Auth (Unit {0})
  import_session session = do
    connection_id ← build_connection_id services session.device_id
    sign_key_hex ← random_hex services 64
    change (λ c. record c {
      device_id = session.device_id;
      connection_id = connection_id;
      sign_key_hex = sign_key_hex;
      username = session.username;
      ticket = [];
      sid = session.sid;
      env = build_env services session.device_id;
    })
    modify (λ s. import_cookies session.cookies (record s { cookies = [] }))

  -- The configuration says that the session is logged in.
  unfoldable pub check_login : Auth (Unit {0})
  check_login = do config ← auth_config_init services; raise_if (not config.0) not_logged_in

  -- `resume_session`
  unfoldable pub resume_session : SessionMaterial → Auth SessionMaterial
  resume_session session = do
    import_session session
    check_login
    username ← online_info services
    change (λ c. record c { username = username })
    sync_sid_from_cookies services
    gets (session_material)

  -- The first part of `fetch_client_resource`: without a ticket the session must be logged in.
  unfoldable pub require_login : Auth (Unit {0})
  require_login s = (if is_empty s.core.ticket then check_login else pure tt) s

  -- `fetch_client_resource`
  unfoldable pub fetch_client_resource : Auth (List ℕ)
  fetch_client_resource = do
    require_login
    response ← ask services (
        post_request services "/controller/v1/user/clientResource" [] (json_type services ∷ [])
          (json_body resource_type))
    bytes ← lift response.body
    lift (validate_client_resource_response services.read_json response.status bytes)
    pure bytes

  -- `client_resource_bytes`, by the bytes that were fetched before.
  unfoldable pub cached_or_fetched : Option (List ℕ) → Auth (List ℕ)
  cached_or_fetched (some bytes) = pure bytes
  cached_or_fetched none = do
    bytes ← fetch_client_resource
    change (λ c. record c { client_resource_bytes = some bytes })
    pure bytes

  unfoldable pub client_resource_bytes : Auth (List ℕ)
  client_resource_bytes s = cached_or_fetched s.core.client_resource_bytes s
