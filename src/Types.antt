-- ===== src/Types.antt =====
-- crates/libreatrust-core/src/types.rs: the plain data that the parts hand to one another.
use libreatrust.Base.{Bool, List, Option, Text, [], codes, false, none, true, ℕ}

pub data ProtocolKind : Type 0 where
  tcp udp icmp : ProtocolKind

pub record RouteHit : Type 0 where
  pub app_id : Text
  pub node_group_id : Text

pub data RouteDecision : Type 0 where
  direct : RouteDecision
  managed : RouteHit → RouteDecision

pub record ClientConfig : Type 0 where
  pub server_host : Text
  pub server_port : ℕ
  pub user_agent : Text
  pub connect_timeout_ms : ℕ
  pub io_timeout_ms : ℕ
  pub node_probe_timeout_ms : ℕ
  pub allow_insecure_tls : Bool
  pub bind_interface : Option Text
  pub auto_detect_interface : Bool

-- `ClientConfig::default`
abbrev pub default_client_config : ClientConfig
default_client_config = record {
  server_host = [];
  server_port = 443;
  user_agent = codes "Mozilla/5.0";
  connect_timeout_ms = 20_000;
  io_timeout_ms = 20_000;
  node_probe_timeout_ms = 3_000;
  allow_insecure_tls = false;
  bind_interface = none;
  auto_detect_interface = true;
}

pub record CookieRecord : Type 0 where
  pub host : Text
  pub scheme : Text
  pub name : Text
  pub value : Text

pub record SessionMaterial : Type 0 where
  pub username : Text
  pub sid : Text
  pub device_id : Text
  pub connection_id : Text
  pub sign_key_hex : Text
  pub cookies : List CookieRecord

pub record AuthConfig : Type 0 where
  pub server_host : Text
  pub server_port : ℕ
  pub user_agent : Text
  pub client_type : Text
  pub platform : Text
  pub login_domain : Text
  pub preferred_auth_type : Option Text
  pub io_timeout_ms : ℕ
  pub allow_insecure_tls : Bool

pub record AuthMethodInfo : Type 0 where
  pub login_domain : Text
  pub auth_type : Text
  pub auth_name : Text
  pub login_url : Text

pub record PasswordLoginInput : Type 0 where
  pub username : Text
  pub password : Text
  pub login_domain : Text

pub record SmsLoginInput : Type 0 where
  pub phone : Text
  pub login_domain : Text

pub data AuthChallengeKind : Type 0 where
  captcha_kind sms_code_kind callback_url_kind : AuthChallengeKind

pub data AuthChallenge : Type 0 where
  need_captcha : List ℕ → AuthChallenge
  need_sms_code : Text → AuthChallenge
  need_callback_url : Text → AuthChallengeKind → AuthChallenge
  done : SessionMaterial → AuthChallenge
