-- ===== src/Client.antt =====
-- crates/libreatrust-core/src/client.rs: the client's state, and what it answers from the
-- resources.
pub mod Answers
use libreatrust.Base.{
  Bool, Ipv4Addr, List, Option, Text, [], eq_ignore_ascii_case, false, if◌then◌else◌, is_empty,
  none, or_else, some, trim_end, ℕ, ◌==◌, ◌∷◌,
}
use libreatrust.Error.{AtrResult, about, err, invalid_argument, invalid_state, literal, ok}
use libreatrust.Types.{
  ClientConfig, CookieRecord, ProtocolKind, RouteDecision, SessionMaterial, direct, icmp, tcp, udp,
}
use libreatrust.Map.{Map, lookup}
use libreatrust.Resource.{
  ResourceSnapshot, domain_managed, host_name, ip_managed_for_tcp, is_dot, route,
}

pub record AtrClient : Type 0 where
  pub config : ClientConfig
  pub session : Option SessionMaterial
  pub resource : Option ResourceSnapshot
  pub resource_bytes : Option (List ℕ)

-- `AtrClient::new`
unfoldable pub new_client : ClientConfig → AtrResult AtrClient
new_client config =
    if is_empty config.server_host
    then err (invalid_argument (literal "server_host is empty"))
    else if config.server_port == 0
    then err (invalid_argument (literal "server_port is zero"))
    else ok (record { config = config; session = none; resource = none; resource_bytes = none })

abbrev pub set_session : SessionMaterial → AtrClient → AtrClient
set_session session client = record client { session = some session }

abbrev pub clear_session : AtrClient → AtrClient
clear_session client = record client { session = none }

abbrev pub set_resource : ResourceSnapshot → AtrClient → AtrClient
set_resource resource client = record client { resource = some resource }

abbrev pub set_resource_bytes : List ℕ → AtrClient → AtrClient
set_resource_bytes bytes client = record client { resource_bytes = some bytes }

-- `AtrClient::route`: with no resources everything goes direct.
unfoldable pub client_route : AtrClient → Text → ℕ → ProtocolKind → RouteDecision
client_route client host port protocol = elim client.resource [
  | some snapshot ↦ route snapshot host port protocol
  | none ↦ direct
]

abbrev pub route_tcp : AtrClient → Text → ℕ → RouteDecision
route_tcp client host port = client_route client host port tcp

abbrev pub route_udp : AtrClient → Text → ℕ → RouteDecision
route_udp client host port = client_route client host port udp

abbrev pub route_icmp : AtrClient → Text → RouteDecision
route_icmp client host = client_route client host 0 icmp

unfoldable pub is_managed_domain : AtrClient → Text → ProtocolKind → Bool
is_managed_domain client host protocol = elim client.resource [
  | some snapshot ↦ domain_managed snapshot host protocol
  | none ↦ false
]

unfoldable pub is_managed_ip_for_tcp : AtrClient → Ipv4Addr → Bool
is_managed_ip_for_tcp client ip = elim client.resource [
  | some snapshot ↦ ip_managed_for_tcp snapshot ip
  | none ↦ false
]

-- The first entry whose name is the host's, without trailing dots and whatever the case.
unfoldable pub find_static : Text → Map Ipv4Addr → Option Ipv4Addr
find_static host [] = none
find_static host ((name, ip) ∷ entries) =
    if eq_ignore_ascii_case (trim_end is_dot name) host then some ip else find_static host entries

unfoldable pub static_dns_ip : AtrClient → Text → Option Ipv4Addr
unfolding find_static
static_dns_ip client host = elim client.resource [
  | some snapshot ↦ find_static (host_name host) snapshot.dns_resource
  | none ↦ none
]

-- The node of a group, or else that of the major group.
unfoldable pub best_node_for : AtrClient → Text → Option Text
best_node_for client node_group_id = elim client.resource [
  | some snapshot ↦
      or_else (lookup node_group_id snapshot.best_nodes)
        (lookup snapshot.major_node_group snapshot.best_nodes)
  | none ↦ none
]

abbrev pub first_value {ℓ} : {V : Type ℓ} → Map V → Option V
first_value [] = none
first_value ((k, v) ∷ m) = some v

unfoldable pub best_node : AtrClient → Option Text
best_node client = elim client.resource [
  | some snapshot ↦
      or_else (lookup snapshot.major_node_group snapshot.best_nodes)
        (first_value snapshot.best_nodes)
  | none ↦ none
]

-- `hex_decode` is `hex::decode`, and `sign` is `calc_request_sig` (HMAC-SHA256, in hex).
unfoldable pub build_request_sig :
    (Text → Option (List ℕ)) → (List ℕ → List ℕ → Text) → AtrClient → List ℕ → AtrResult Text
build_request_sig hex_decode sign client bytes = elim client.session [
  | none ↦ err (invalid_state (literal "session not set"))
  | some session ↦ elim (hex_decode session.sign_key_hex) [
    | none ↦ err (invalid_argument (about "invalid sign key: " session.sign_key_hex))
    | some key ↦ ok (sign key bytes)
  ]
]

unfoldable pub client_cookies : AtrClient → List CookieRecord
client_cookies client = elim client.session [ some session ↦ session.cookies | none ↦ [] ]

abbrev pub session_material_from_parts : Text → Text → Text → Text → Text → SessionMaterial
session_material_from_parts username sid device_id connection_id sign_key_hex = record {
  username = username;
  sid = sid;
  device_id = device_id;
  connection_id = connection_id;
  sign_key_hex = sign_key_hex;
  cookies = [];
}

unfoldable pub choose_node_groups : AtrClient → Map Text
choose_node_groups client = elim client.resource [ some s ↦ s.best_nodes | none ↦ [] ]
