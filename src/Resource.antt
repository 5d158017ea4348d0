-- ===== src/Resource.antt =====
-- crates/libreatrust-core/src/resource.rs: the resources that the server publishes, and the
-- decision whether a destination goes through a tunnel.
pub mod Domains
pub mod Routing
pub mod Decision
pub mod Managed
pub mod Entries
pub mod Parse
use libreatrust.Base.{
  Bool, Ipv4Addr, List, Option, Text, [], any, codes, ends_with, eq_ignore_ascii_case, false,
  if◌then◌else◌, ipv4_number, is_empty, leb, none, rsplit_once, some, starts_with, text_eq,
  to_ascii_lowercase, trim, trim_end, trim_matches, trim_start, true, without_char, ℕ, ◌&&◌, ◌==◌,
  ◌||◌, ◌∷◌,
}
use libreatrust.Types.{ProtocolKind, RouteDecision, RouteHit, direct, icmp, managed, tcp, udp}
use libreatrust.Decimal.{parse_u16}
use libreatrust.Address.{parse_ipv4, parses_as_ipv6}
use libreatrust.Map.{Map}

pub record IpResource : Type 0 where
  pub ip_min : Ipv4Addr
  pub ip_max : Ipv4Addr
  pub port_min : ℕ
  pub port_max : ℕ
  pub protocol : Text
  pub app_id : Text
  pub node_group_id : Text

pub record DomainResource : Type 0 where
  pub port_min : ℕ
  pub port_max : ℕ
  pub protocol : Text
  pub app_id : Text
  pub node_group_id : Text

pub record ResourceSnapshot : Type 0 where
  pub ip_resources : List IpResource
  pub domain_resources : Map DomainResource
  pub dns_resource : Map Ipv4Addr
  pub dns_server : Option Text
  pub major_node_group : Text
  pub node_groups : Map (List Text)
  pub best_nodes : Map Text
  pub excluded_ips : List Ipv4Addr

-- `ResourceSnapshot::default`
abbrev pub empty_snapshot : ResourceSnapshot
empty_snapshot = record {
  ip_resources = [];
  domain_resources = [];
  dns_resource = [];
  dns_server = none;
  major_node_group = [];
  node_groups = [];
  best_nodes = [];
  excluded_ips = [];
}

abbrev pub is_dot : ℕ → Bool
is_dot c = c == b'.'

abbrev pub is_bracket : ℕ → Bool
is_bracket c = c == b'[' || c == b']'

-- True for an IPv6 literal, with or without brackets.
unfoldable pub is_ipv6_literal : Text → Bool
is_ipv6_literal host = parses_as_ipv6 (trim_matches is_bracket (trim host))

unfoldable pub split_host_port : Text → Option (Text × ℕ)
split_host_port endpoint = elim (rsplit_once b':' (trim endpoint)) [
  | none ↦ none
  | some (h, p) ↦
      let host = trim_matches is_bracket (trim h) in
      if is_empty host
      then none
      else elim (parse_u16 (trim p)) [ none ↦ none | some port ↦ some (host, port) ]
]

-- One endpoint of a node group, compared with a host and a port.
unfoldable pub is_endpoint : Text → ℕ → Text → Bool
unfolding split_host_port
is_endpoint host port endpoint = elim (split_host_port endpoint) [
  | none ↦ false
  | some (node_host, node_port) ↦ node_port == port && eq_ignore_ascii_case node_host host
]

unfoldable pub is_node_endpoint : ResourceSnapshot → Text → ℕ → Bool
unfolding is_endpoint
is_node_endpoint snapshot host port =
    let host' = trim_matches is_bracket (trim host) in
    any (λ group. any (is_endpoint host' port) group.1) snapshot.node_groups

unfoldable pub protocol_matches : Text → ProtocolKind → Bool
protocol_matches rule tcp = text_eq rule (codes "all") || text_eq rule (codes "tcp")
protocol_matches rule udp = text_eq rule (codes "all") || text_eq rule (codes "udp")
protocol_matches rule icmp = text_eq rule (codes "all") || text_eq rule (codes "icmp")

unfoldable pub ports_match : ℕ → ℕ → ℕ → ProtocolKind → Bool
ports_match port_min port_max port icmp = true
ports_match port_min port_max port tcp = leb port_min port && leb port port_max
ports_match port_min port_max port udp = leb port_min port && leb port port_max

-- `ip_between`, over `ip_order`
unfoldable pub ip_between : Ipv4Addr → Ipv4Addr → Ipv4Addr → Bool
ip_between value low high =
    leb (ipv4_number low) (ipv4_number value) && leb (ipv4_number value) (ipv4_number high)

-- The test of the loop of `match_ip`.
unfoldable pub ip_rule_matches : Ipv4Addr → ℕ → ProtocolKind → IpResource → Bool
unfolding ip_between protocol_matches ports_match
ip_rule_matches ip port protocol r =
    ip_between ip r.ip_min r.ip_max
    && (protocol_matches r.protocol protocol && ports_match r.port_min r.port_max port protocol)

unfoldable pub find_ip : Ipv4Addr → ℕ → ProtocolKind → List IpResource → Option RouteHit
unfolding ip_rule_matches
find_ip ip port protocol [] = none
find_ip ip port protocol (r ∷ rs) =
    if ip_rule_matches ip port protocol r
    then some (record { app_id = r.app_id; node_group_id = r.node_group_id })
    else find_ip ip port protocol rs

unfoldable pub match_ip : ResourceSnapshot → Ipv4Addr → ℕ → ProtocolKind → Option RouteHit
unfolding find_ip
match_ip snapshot ip port protocol = find_ip ip port protocol snapshot.ip_resources

-- How a rule is spelled for the comparison: without wildcards and trailing dots, in lower case.
abbrev pub rule_domain : Text → Text
rule_domain domain = to_ascii_lowercase (trim_end is_dot (without_char b'*' domain))

-- A host, without trailing dots and in lower case.
abbrev pub host_name : Text → Text
host_name host = to_ascii_lowercase (trim_end is_dot host)

-- The domain test of the loop of `match_domain_ports`, on a host that `host_name` has spelled.
unfoldable pub domain_matches : Text → Text → Bool
domain_matches host rule =
    let domain = rule_domain rule in
    if starts_with (b'.' ∷ []) domain
    then ends_with domain host || text_eq host (trim_start is_dot domain)
    else text_eq host domain || ends_with (b'.' ∷ domain) host

-- `port.is_none_or(|port| ports_match(…))`
abbrev pub port_allowed : DomainResource → Option ℕ → ProtocolKind → Bool
port_allowed r none protocol = true
port_allowed r (some port) protocol = ports_match r.port_min r.port_max port protocol

unfoldable pub domain_rule_matches : Text → Option ℕ → ProtocolKind → Text × DomainResource → Bool
unfolding protocol_matches ports_match domain_matches
domain_rule_matches host port protocol (domain, r) =
    protocol_matches r.protocol protocol
    && (port_allowed r port protocol && domain_matches host domain)

unfoldable pub find_domain : Text → Option ℕ → ProtocolKind → Map DomainResource → Option RouteHit
unfolding domain_rule_matches
find_domain host port protocol [] = none
find_domain host port protocol ((domain, r) ∷ rs) =
    if domain_rule_matches host port protocol (domain, r)
    then some (record { app_id = r.app_id; node_group_id = r.node_group_id })
    else find_domain host port protocol rs

unfoldable pub match_domain_ports :
    ResourceSnapshot → Text → Option ℕ → ProtocolKind → Option RouteHit
unfolding find_domain
match_domain_ports snapshot host port protocol =
    find_domain (host_name host) port protocol snapshot.domain_resources

abbrev pub match_domain : ResourceSnapshot → Text → ℕ → ProtocolKind → Option RouteHit
match_domain snapshot host port protocol = match_domain_ports snapshot host (some port) protocol

abbrev pub is_some {ℓ} : {A : Type ℓ} → Option A → Bool
is_some none = false
is_some (some a) = true

abbrev pub domain_managed : ResourceSnapshot → Text → ProtocolKind → Bool
domain_managed snapshot host protocol = is_some (match_domain_ports snapshot host none protocol)

unfoldable pub ip_managed_for_tcp : ResourceSnapshot → Ipv4Addr → Bool
unfolding ip_between protocol_matches
ip_managed_for_tcp snapshot ip =
    any (λ r. ip_between ip r.ip_min r.ip_max && protocol_matches r.protocol tcp)
      snapshot.ip_resources

abbrev pub decide_hit : Option RouteHit → RouteDecision
decide_hit none = direct
decide_hit (some hit) = managed hit

-- Node endpoints and IPv6 literals go direct; the rest by the resources.
unfoldable pub route : ResourceSnapshot → Text → ℕ → ProtocolKind → RouteDecision
route snapshot host port protocol =
    if is_node_endpoint snapshot host port
    then direct
    else if is_ipv6_literal host
    then direct
    else elim (parse_ipv4 host) [
      | some ip ↦ decide_hit (match_ip snapshot ip port protocol)
      | none ↦ decide_hit (match_domain snapshot host port protocol)
    ]
