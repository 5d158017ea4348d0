-- ===== src/Auth.antt =====
-- crates/libreatrust-core/src/auth.rs: the data of a login, the state of an `AuthSession`, the
-- services around it, and the steps that work on it.
pub mod Step
pub mod Http
pub mod Requests
pub mod Answers
pub mod Bodies
pub mod Login
pub mod Session
pub mod Stored
pub mod Quiet
pub mod Asked
pub mod Challenge
pub mod Calls
pub mod Traffic
pub mod Stale
pub mod Refused
use libreatrust.Base.{Bool, List, Option, String, Text, if◌then◌else◌, not, ℕ, ◌&&◌, ◌==◌}
use libreatrust.Error.{AtrError, AtrResult, err, ok}
use libreatrust.Types.{AuthConfig, AuthMethodInfo, CookieRecord, PasswordLoginInput, SmsLoginInput}
use libreatrust.Map.{Map}
use libreatrust.Json.{I64, Json}

pub data SmsMode : Type 0 where
  with_auth_id without_auth_id custom : SmsMode

pub record AuthStep : Type 0 where
  pub service : Text
  pub auth_id : Text
  pub sms_mode : Option SmsMode

pub data PendingFlow : Type 0 where
  password_flow : PasswordLoginInput → PendingFlow
  auth_step_flow : AuthStep → PendingFlow
  sms_login_flow : SmsLoginInput → PendingFlow
  sms_verify_flow : Text → Text → Text → PendingFlow

-- The server's answers, as serde reads them.
pub record AuthConfigData : Type 0 where
  pub auth_server_info_list : List AuthMethodInfo
  pub is_login : I64
  pub csrf_token : Text
  pub pub_key : Text
  pub pub_key_exp : Text
  pub anti_replay_rand : Text
  pub security : Option Text

pub record CodeResponse : Type 0 where
  pub code : I64
  pub message : Text

-- `PasswordResponse` and `SmsResponse`, with their data.
pub record PasswordResponse : Type 0 where
  pub code : I64
  pub message : Text
  pub ticket : Text
  pub graph_check_code_enable : I64

pub record AuthIdItem : Type 0 where
  pub auth_id : Text
  pub auth_type : Text

pub record AuthStepData : Type 0 where
  pub next_service : Text
  pub next_service_list : List AuthIdItem

-- `AuthStepResponse` and `AuthCheckResponse`.
pub record AuthStepResponse : Type 0 where
  pub code : I64
  pub message : Text
  pub step : AuthStepData

abbrev pub is_zero : I64 → Bool
is_zero n = n.size == 0

abbrev pub is_one : I64 → Bool
is_one n = not n.is_negative && n.size == 1

-- What the code reads of a `Url`: its text and the decoded pairs of its query.
pub record Url : Type 0 where
  pub text : Text
  pub query_pairs : List (Text × Text)

pub data RequestBody : Type 0 where
  no_body : RequestBody
  json_body : Json → RequestBody
  form_body : List (Text × Text) → RequestBody

pub data Method : Type 0 where
  get_method post_method : Method

-- A request to the server of the base URL, or to a callback.
pub record Request : Type 0 where
  pub method : Method
  pub path : Text
  pub query : List (Text × Text)
  pub headers : List (String × Text)
  pub body : RequestBody

pub record Response : Type 0 where
  pub status : ℕ
  pub set_cookies : List (List ℕ)
  pub location : Option (List ℕ)
  pub body : AtrResult (List ℕ)

-- The crates that the login calls: url, serde_json, http, base64, md5, hex and rsa, the random
-- bytes of the n-th draw, and the clock at the n-th reading.
pub record Services : Type 0 where
  pub parse_url : Text → AtrResult Url
  pub read_auth_config : List ℕ → AtrResult AuthConfigData
  pub read_password : List ℕ → AtrResult PasswordResponse
  pub read_sms : List ℕ → AtrResult PasswordResponse
  pub read_step : List ℕ → AtrResult AuthStepResponse
  pub read_custom_sms : List ℕ → AtrResult CodeResponse
  pub read_code : List ℕ → AtrResult CodeResponse
  pub read_username : List ℕ → AtrResult Text
  pub read_json : List ℕ → AtrResult Json
  pub header_text : List ℕ → Option Text
  pub print_json : Json → Text
  pub base64 : Text → Text
  pub md5_hex : Text → Text
  pub hex_encode : List ℕ → Text
  pub hex_decode : Text → AtrResult (List ℕ)
  pub encrypt : List ℕ → ℕ → Text → AtrResult (List ℕ)
  pub random_bytes : ℕ → ℕ → List ℕ
  pub millis : ℕ → ℕ
  pub micros : ℕ → ℕ

-- The part of an `AuthSession` that says who logs in and how far the login has come.
pub record Core : Type 0 where
  pub device_id : Text
  pub sign_key_hex : Text
  pub connection_id : Text
  pub env : Text
  pub ticket : Text
  pub sid : Text
  pub username : Text
  pub client_resource_bytes : Option (List ℕ)
  pub pending : Option PendingFlow

-- An `AuthSession`, with the cookies given to its HTTP client, the requests sent, the replies to
-- come, and the number of random draws and of readings of the clock.
pub record AuthSession : Type 0 where
  pub config : AuthConfig
  pub base_host : Text
  pub csrf_token : Text
  pub pub_key : Text
  pub pub_key_exp : Text
  pub anti_replay_rand : Text
  pub core : Core
  pub cookies : Map CookieRecord
  pub cookie_jar : List (Url × Text)
  pub sent : List Request
  pub replies : List (AtrResult Response)
  pub draws : ℕ
  pub readings : ℕ

-- A method: what it changed before an error stays changed.
abbrev pub Auth {ℓ} : Type ℓ → Type ℓ
Auth A = AuthSession → AtrResult A × AuthSession

abbrev pub continue_with {ℓ κ} :
    {A : Type ℓ} {B : Type κ} → (A → Auth B) → AtrResult A × AuthSession → AtrResult B × AuthSession
continue_with f (ok a, s) = f a s
continue_with f (err e, s) = (err e, s)

infixl 5 ◌>>=◌ ◌>>◌
abbrev pub ◌>>=◌ {ℓ κ} : {A : Type ℓ} {B : Type κ} → Auth A → (A → Auth B) → Auth B
◌>>=◌ m f s = continue_with f (m s)

abbrev pub ◌>>◌ {ℓ κ} : {A : Type ℓ} {B : Type κ} → Auth A → Auth B → Auth B
m >> k = m >>= λ _. k

module _ {ℓ} {A : Type ℓ} where
  abbrev pub pure : A → Auth A
  pure a s = (ok a, s)

  abbrev pub raise : AtrError → Auth A
  raise e s = (err e, s)

  abbrev pub lift : AtrResult A → Auth A
  lift r s = (r, s)

  abbrev pub gets : (AuthSession → A) → Auth A
  gets f s = (ok (f s), s)

abbrev pub modify : (AuthSession → AuthSession) → Auth (Unit {0})
modify f s = (ok tt, f s)

abbrev pub change : (Core → Core) → Auth (Unit {0})
change f = modify (λ s. record s { core = f s.core })

abbrev pub raise_if : Bool → AtrError → Auth (Unit {0})
raise_if c e = lift (if c then err e else ok tt)

-- A result that is not used; its error is passed on.
abbrev pub drop_result {ℓ} : {A : Type ℓ} → Auth A → Auth (Unit {0})
drop_result m = do r ← m; pure tt
