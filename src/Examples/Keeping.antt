-- ===== src/Examples/Keeping.antt =====
-- transport.rs: what keeps a tunnel alive, at concrete inputs.
use libreatrust.Base.{
  Ipv4Addr, IsIpv4, [], arith, codes, is_whitespace, none, refl, some, trim, ◌∷◌, ◌≡◌,
}
use libreatrust.Types.{default_client_config}
use libreatrust.Decimal.{decimal}
use libreatrust.Address.{ipv4_text, parse_ipv4, parses_as_ipv6}
use libreatrust.Resource.{
  empty_snapshot, find_ip, ip_between, ip_rule_matches, is_ipv6_literal, is_node_endpoint, match_ip,
  ports_match, protocol_matches, route,
}
use libreatrust.Client.{AtrClient, client_route}
use libreatrust.Keepalive.{
  range_target, representative_ipv4, resource_target, select_icmp_keepalive_target, static_target,
}

abbrev low : Ipv4Addr
low = record { o0 = 10; o1 = 0; o2 = 0; o3 = 0 }

abbrev high : Ipv4Addr
high = record { o0 = 10; o1 = 0; o2 = 0; o3 = 255 }

high-IsIpv4 : IsIpv4 high
high-IsIpv4 = record { b0 = omega arith; b1 = omega arith; b2 = omega arith; b3 = omega arith }

low-IsIpv4 : IsIpv4 low
low-IsIpv4 = record { b0 = omega arith; b1 = omega arith; b2 = omega arith; b3 = omega arith }

abbrev ranged_client : AtrClient
ranged_client = record {
  config = default_client_config;
  session = none;
  resource = some (record empty_snapshot {
    ip_resources =
        record {
          ip_min = low;
          ip_max = high;
          port_min = 1;
          port_max = 65535;
          protocol = codes "all";
          app_id = codes "a2";
          node_group_id = codes "g1";
        }
        ∷ [];
  });
  resource_bytes = none;
}

abbrev middle_ip : Ipv4Addr
middle_ip = record { o0 = 10; o1 = 0; o2 = 0; o3 = 127 }

middle_selected : select_icmp_keepalive_target ranged_client ≡ some middle_ip
unfolding select_icmp_keepalive_target resource_target range_target static_target
    representative_ipv4 client_route route is_node_endpoint trim is_whitespace is_ipv6_literal
    parses_as_ipv6 parse_ipv4 ipv4_text decimal match_ip find_ip ip_rule_matches ip_between
    protocol_matches ports_match
middle_selected = refl
