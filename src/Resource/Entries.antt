-- ===== src/Resource/Entries.antt =====
-- resource.rs: the response of the server as `serde_json` has read it, and the texts of its
-- entries, `parse_port_range`, `parse_ip_range`, `is_ipv6_spec` and `is_domain_like`.
use libreatrust.Base.{
  Bool, Ipv4Addr, List, Option, Text, any, contains_char, false, if◌then◌else◌, is_digit, none, not,
  some, split_once, trim, true, ℕ, ◌==◌, ◌||◌,
}
use libreatrust.Error.{AtrResult, Message, about, err, ok, parse_failed, ◌>>=◌}
use libreatrust.Decimal.{parse_u16}
use libreatrust.Address.{parse_ipv4, parses_as_ipv6}
use libreatrust.Resource.{DomainResource, IpResource, is_ipv6_literal}

pub record AddressEntry : Type 0 where
  pub protocol : Text
  pub port : Text
  pub host : Text
  pub ip : List Text

pub record AppEntry : Type 0 where
  pub id : Text
  pub node_group_id : Text
  pub address_list : List AddressEntry

pub record AppInfo : Type 0 where
  pub apps : List AppEntry

pub record NodeAddress : Type 0 where
  pub address : Text
  pub kind : Text

pub record NodeGroupEntry : Type 0 where
  pub id : Text
  pub address_info : List NodeAddress

-- `NodeGroupConf`, with the id of its `MajorNodeGroup`
pub record NodeGroupConf : Type 0 where
  pub major_node_group : Text
  pub node_group_list : List NodeGroupEntry

-- `ClientOption`, with the `firstDNS` of its two options
pub record ClientOption : Type 0 where
  pub dns_option : Text
  pub dns_option_v2 : Text

-- `ClientResourceData`: `appList.data` and `sdpPolicy.data`
pub record ClientResourceData : Type 0 where
  pub app_info : List AppInfo
  pub config : NodeGroupConf
  pub sdp_policy : Option ClientOption

pub data HostEntry : Type 0 where
  ip_entry : IpResource → HostEntry
  domain_entry : Text → DomainResource → HostEntry

abbrev pub port_or : Option ℕ → Message → AtrResult ℕ
port_or none m = err (parse_failed m)
port_or (some p) m = ok p

-- The two branches of `parse_port_range`: with a hyphen, and without.
abbrev pub split_range : Text → Option (Text × Text) → AtrResult (ℕ × ℕ)
split_range port (some (start, end)) = do
  s ← port_or (parse_u16 start) (about "invalid port range: " port)
  e ← port_or (parse_u16 end) (about "invalid port range: " port)
  ok (s, e)
split_range port none = do
  value ← port_or (parse_u16 port) (about "invalid port: " port)
  ok (value, value)

unfoldable pub parse_port_range : Text → AtrResult (ℕ × ℕ)
parse_port_range port = split_range port (split_once b'-' port)

-- The hyphenated texts that are no address range fall through.
unfoldable pub parse_ip_range : Text → AtrResult (Option (Ipv4Addr × Ipv4Addr))
parse_ip_range host = elim (split_once b'-' host) [
  | none ↦ ok none
  | some (start, end) ↦ elim (parse_ipv4 (trim start)) [
    | none ↦ ok none
    | some s ↦ elim (parse_ipv4 (trim end)) [ none ↦ ok none | some e ↦ ok (some (s, e)) ]
  ]
]

-- True for an IPv6 address, CIDR block, or address range.
unfoldable pub is_ipv6_spec : Text → Bool
is_ipv6_spec spec =
    let host = trim spec in
    if is_ipv6_literal host then true else elim (split_once b'/' host) [
      | some (addr, prefix) ↦ parses_as_ipv6 (trim addr)
      | none ↦ elim (split_once b'-' host) [
        | some (start, end) ↦ is_ipv6_literal start || is_ipv6_literal end
        | none ↦ false
      ]
    ]

abbrev pub is_address_char : ℕ → Bool
is_address_char c = is_digit c || c == b'.' || c == b':' || c == b'-'

unfoldable pub is_domain_like : Text → Bool
is_domain_like host = any (λ c. not (is_address_char c)) host || contains_char b'*' host
