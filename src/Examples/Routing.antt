-- ===== src/Examples/Routing.antt =====
-- resource.rs and client.rs at concrete inputs.
use libreatrust.Base.{
  Ipv4Addr, Option, Text, [], codes, if◌then◌else◌, inr, is_whitespace, none, refl, some, text_eq,
  trim, true, ◌↔◌, ◌∷◌, ◌≡◌, ◌⊎◌,
}
use libreatrust.Error.{is_ok, ok}
use libreatrust.Types.{RouteHit, default_client_config, direct, managed, tcp}
use libreatrust.Decimal.{parse_unsigned}
use libreatrust.Address.{parse_ipv4, parses_as_ipv6}
use libreatrust.Map.{insert, lookup}
use libreatrust.Resource.{
  DomainResource, IpResource, ResourceSnapshot, domain_matches, domain_rule_matches, empty_snapshot,
  find_domain, is_endpoint, is_ipv6_literal, is_node_endpoint, match_domain_ports, ports_match,
  protocol_matches, route, split_host_port,
}
use libreatrust.Resource.Domains.{IsCovered, domain_matches_iff, rule_name}
use libreatrust.Resource.Decision.{Covered, IsExempt, route-direct, route-managed}
use libreatrust.Resource.Entries.{ClientResourceData, parse_port_range}
use libreatrust.Resource.Parse.{
  add_app_info, add_groups, first_nodes, node_addresses, node_endpoint, parse_resource,
  pick_dns_server,
}
use libreatrust.Resource.Parse.Failures.{all_ports_parse, parse_resource-ok_iff}
use libreatrust.Resource.Parse.Nodes.{AllHaveColon, first_of, parse_resource-nodes}
use libreatrust.Client.{AtrClient}

abbrev corp_rule : DomainResource
corp_rule = record {
  port_min = 80;
  port_max = 443;
  protocol = codes "tcp";
  app_id = codes "a1";
  node_group_id = codes "g1";
}

abbrev office : IpResource
office = record {
  ip_min = record { o0 = 10; o1 = 0; o2 = 0; o3 = 0 };
  ip_max = record { o0 = 10; o1 = 0; o2 = 0; o3 = 255 };
  port_min = 1;
  port_max = 65535;
  protocol = codes "all";
  app_id = codes "a2";
  node_group_id = codes "g1";
}

abbrev corp : ResourceSnapshot
corp = record {
  ip_resources = office ∷ [];
  domain_resources = (codes "*.corp.example", corp_rule) ∷ [];
  dns_resource = (codes "git.corp.example", record { o0 = 10; o1 = 0; o2 = 0; o3 = 7 }) ∷ [];
  dns_server = none;
  major_node_group = codes "g1";
  node_groups = (codes "g1", codes "1.2.3.4:441" ∷ []) ∷ [];
  best_nodes = (codes "g1", codes "1.2.3.4:441") ∷ [];
  excluded_ips = [];
}

abbrev corp_hit : RouteHit
corp_hit = record { app_id = codes "a1"; node_group_id = codes "g1" }

git_managed : route corp (codes "git.corp.example") 443 tcp ≡ managed corp_hit
unfolding route is_node_endpoint is_endpoint split_host_port trim is_whitespace parse_unsigned
    is_ipv6_literal parses_as_ipv6 parse_ipv4 match_domain_ports find_domain domain_rule_matches
    domain_matches protocol_matches ports_match
git_managed = refl

other_direct : route corp (codes "example.org") 443 tcp ≡ direct
unfolding route is_node_endpoint is_endpoint split_host_port trim is_whitespace parse_unsigned
    is_ipv6_literal parses_as_ipv6 parse_ipv4 match_domain_ports find_domain domain_rule_matches
    domain_matches protocol_matches ports_match
other_direct = refl

route-managed_example :
    (¬ IsExempt corp (codes "git.corp.example") 443)
    × Covered corp (codes "git.corp.example") 443 tcp corp_hit
route-managed_example = route-managed corp (codes "git.corp.example") 443 tcp corp_hit git_managed

route-direct_example :
    IsExempt corp (codes "example.org") 443
    ⊎ ((hit : RouteHit) → ¬ Covered corp (codes "example.org") 443 tcp hit)
route-direct_example = route-direct corp (codes "example.org") 443 tcp other_direct

domain_matches_iff_example :
    (domain_matches (codes "git.corp.example") (codes "*.corp.example") ≡ true)
    ↔ IsCovered (codes "git.corp.example") (rule_name (codes "*.corp.example"))
domain_matches_iff_example =
    domain_matches_iff (codes "git.corp.example") (codes "*.corp.example") (inr refl)

-- A reader of address blocks that knows one block.
abbrev one_block : Text → Option (Ipv4Addr × Ipv4Addr)
one_block s = if text_eq s (codes "10.0.0.0/24") then some (office.ip_min, office.ip_max) else none

abbrev response : ClientResourceData
response = record {
  app_info =
      record {
        apps =
            record {
              id = codes "a2";
              node_group_id = codes "g1";
              address_list =
                  record {
                    protocol = codes "all";
                    port = codes "1-65535";
                    host = codes "10.0.0.0/24";
                    ip = [];
                  }
                  ∷ [];
            }
            ∷ [];
      }
      ∷ [];
  config = record {
    major_node_group = codes "g1";
    node_group_list =
        record {
          id = codes "g1";
          address_info = record { address = codes "1.2.3.4:441"; kind = codes "wan" } ∷ [];
        }
        ∷ [];
  };
  sdp_policy = none;
}

-- The same without applications.
abbrev nodes_only : ClientResourceData
nodes_only = record response { app_info = [] }

abbrev parsed_response : ResourceSnapshot
parsed_response = record empty_snapshot {
  major_node_group = codes "g1";
  node_groups = (codes "g1", codes "1.2.3.4:441" ∷ []) ∷ [];
  best_nodes = (codes "g1", codes "1.2.3.4:441") ∷ [];
  excluded_ips = record { o0 = 1; o1 = 2; o2 = 3; o3 = 4 } ∷ [];
}

parse_resource-ok_iff_example :
    is_ok (parse_resource one_block response (codes "vpn.example")) ≡ all_ports_parse response
parse_resource-ok_iff_example = parse_resource-ok_iff one_block response (codes "vpn.example")

response_parses : parse_resource one_block nodes_only (codes "vpn.example") ≡ ok parsed_response
unfolding parse_resource add_groups node_addresses node_endpoint first_nodes pick_dns_server insert
    add_app_info split_host_port trim is_whitespace parse_unsigned parse_ipv4
response_parses = refl

parse_resource-nodes_example :
    AllHaveColon parsed_response.node_groups
    × ((group : Text)
        → lookup group parsed_response.best_nodes
          ≡ first_of (lookup group parsed_response.node_groups))
parse_resource-nodes_example =
    parse_resource-nodes one_block nodes_only (codes "vpn.example") parsed_response response_parses

range_parses : parse_port_range (codes "80-443") ≡ ok (80, 443)
unfolding parse_port_range parse_unsigned
range_parses = refl

abbrev corp_client : AtrClient
corp_client = record {
  config = default_client_config;
  session = none;
  resource = none;
  resource_bytes = none;
}
