-- ===== src/Request.antt =====
-- transport.rs and sign.rs: the signed request for the authorisation of a flow,
-- `build_auth_request` and what it is made of.
use libreatrust.Base.{
  List, Option, Text, [], codes, if◌then◌else◌, some, text_eq, ℕ, ◌++◌, ◌==◌, ◌∷◌,
}
use libreatrust.Error.{AtrResult, ◌>>=◌}
use libreatrust.Types.{ProtocolKind, icmp, tcp, udp}
use libreatrust.Decimal.{decimal}
use libreatrust.Address.{ipv4_text}
use libreatrust.Conntrack.{Conntrack, PacketMeta}

pub record L3ClientInfo : Type 0 where
  pub sid : Text
  pub device_id : Text
  pub connection_id : Text

-- `TrustProcess`, in the only `TrustRuntime` and `TrustApp` that hold it.
pub record TrustEnv : Type 0 where
  pub name : Text
  pub digital_signature : Text
  pub platform : Text
  pub fingerprint : Text
  pub description : Text
  pub path : Text
  pub version : Text
  pub security_env : Text
  pub process_trusted : Text

pub record AuthIp : Type 0 where
  pub atype : ℕ
  pub protocol : ℕ
  pub dest_addr : Text
  pub dest_port : ℕ
  pub src_addr : Text
  pub src_port : ℕ

pub record AuthRequestIp : Type 0 where
  pub sid : Text
  pub app_id : Text
  pub url : Text
  pub device_id : Text
  pub connection_id : Text
  pub env : Option TrustEnv
  pub conntrack_hash : ℕ
  pub lang : Text
  pub ip : AuthIp
  pub domain : Text
  pub proc_hash : Text
  pub x_request_sig : Text

-- `proto_name`
abbrev pub proto_name : ProtocolKind → Text
proto_name tcp = codes "tcp"
proto_name udp = codes "udp"
proto_name icmp = codes "icmp"

-- `protocol_number`
abbrev pub protocol_number : ProtocolKind → ℕ
protocol_number tcp = 6
protocol_number udp = 17
protocol_number icmp = 1

-- `auth_ip_type`
abbrev pub auth_ip_type : ℕ → ℕ
auth_ip_type atype = if atype == 6 then 0x86DD else 0x0800

-- What the request takes from other crates and from the platform: serde_json, HMAC-SHA256,
-- upper-case hex and SHA-256, the name of the operating system, and the language that the
-- environment gives.
pub record Platform : Type 0 where
  pub to_vec : AuthRequestIp → AtrResult (List ℕ)
  pub hmac_sha256 : List ℕ → List ℕ → List ℕ
  pub encode_upper : List ℕ → Text
  pub sha256 : List ℕ → List ℕ
  pub os_name : Text
  pub lang : Text

module _ (platform : Platform) where
  -- `current_platform_name`
  abbrev pub current_platform_name : Text
  current_platform_name =
      if text_eq platform.os_name (codes "macos")
      then codes "macOS"
      else if text_eq platform.os_name (codes "windows")
      then codes "Windows"
      else if text_eq platform.os_name (codes "linux")
      then codes "Linux"
      else platform.os_name

  abbrev proc_path : Text
  proc_path = codes "/usr/bin/zju-connect"

  -- `default_env`
  abbrev pub default_env : TrustEnv
  default_env = record {
    name = codes "zju-connect";
    digital_signature = codes "TrustAppClosed";
    platform = current_platform_name;
    fingerprint = platform.encode_upper (platform.sha256 proc_path);
    description = codes "TrustAppClosed";
    path = proc_path;
    version = codes "TrustAppClosed";
    security_env = codes "normal";
    process_trusted = codes "TRUSTED";
  }

  -- `calc_request_sig`
  abbrev pub calc_request_sig : List ℕ → List ℕ → Text
  calc_request_sig key bytes = platform.encode_upper (platform.hmac_sha256 key bytes)

  -- The request without its signature, for the application and the identifier of a conntrack.
  unfoldable pub unsigned_request : L3ClientInfo → PacketMeta → Text → ℕ → AuthRequestIp
  unsigned_request info meta app_id auth_id = record {
    sid = info.sid;
    app_id = app_id;
    url =
        proto_name meta.protocol
        ++ (b':' ∷ (ipv4_text meta.dst_ip ++ (b':' ∷ decimal meta.dst_port)));
    device_id = info.device_id;
    connection_id = info.connection_id;
    env = some default_env;
    conntrack_hash = auth_id;
    lang = platform.lang;
    ip = record {
      atype = auth_ip_type meta.atype;
      protocol = protocol_number meta.protocol;
      dest_addr = ipv4_text meta.dst_ip;
      dest_port = meta.dst_port;
      src_addr = ipv4_text meta.src_ip;
      src_port = meta.src_port;
    };
    domain = [];
    proc_hash = default_env.fingerprint;
    x_request_sig = [];
  }

  -- `build_auth_request`: the signature is that of the request without it.
  unfoldable pub build_auth_request :
      L3ClientInfo → List ℕ → PacketMeta → Conntrack → AtrResult (List ℕ)
  build_auth_request info sign_key meta ct = do
    let request = unsigned_request info meta ct.app_id ct.auth_id
    unsigned ← platform.to_vec request
    platform.to_vec (record request { x_request_sig = calc_request_sig sign_key unsigned })
