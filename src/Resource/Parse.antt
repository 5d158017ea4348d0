-- ===== src/Resource/Parse.antt =====
-- `parse_resource_bytes` of resource.rs, from the response that `serde_json` has read.
pub mod Ports
pub mod Failures
pub mod Nodes
use libreatrust.Base.{
  Ipv4Addr, List, Option, Text, [], codes, contains_char, if◌then◌else◌, is_empty, none, not, some,
  split_once, text_eq, without_char, ℕ, ◌++◌, ◌∷◌,
}
use libreatrust.Error.{AtrResult, ok, ◌>>=◌}
use libreatrust.Address.{parse_ipv4}
use libreatrust.Map.{Map, insert}
use libreatrust.Resource.{IpResource, ResourceSnapshot, empty_snapshot}
use libreatrust.Resource.Entries.{
  AddressEntry, AppEntry, AppInfo, ClientOption, ClientResourceData, HostEntry, NodeAddress,
  NodeGroupEntry, domain_entry, ip_entry, is_domain_like, is_ipv6_spec, parse_ip_range,
  parse_port_range,
}

-- What every entry takes from its address and its application.
abbrev pub ip_resource : Ipv4Addr → Ipv4Addr → Text → ℕ → ℕ → Text → Text → IpResource
ip_resource low high protocol port_min port_max app_id node_group_id = record {
  ip_min = low;
  ip_max = high;
  port_min = port_min;
  port_max = port_max;
  protocol = protocol;
  app_id = app_id;
  node_group_id = node_group_id;
}

-- `parse_net` is `str::parse::<Ipv4Net>` of the `ipnet` crate, as the network and the broadcast
-- address of the block.
module _ (parse_net : Text → Option (Ipv4Addr × Ipv4Addr)) where
  unfoldable pub parse_host_entry : Text → Text → ℕ → ℕ → Text → Text → AtrResult (Option HostEntry)
  parse_host_entry host protocol port_min port_max app_id node_group_id =
      let entry = λ (low high : Ipv4Addr).
        ok (
          some (ip_entry (ip_resource low high protocol port_min port_max app_id node_group_id))) in
      if is_ipv6_spec host then ok none else elim (parse_ipv4 host) [
        | some ip ↦ entry ip ip
        | none ↦ elim (parse_net host) [
          | some (first, last) ↦ entry first last
          | none ↦ do
            range ← parse_ip_range host
            elim range [
              | some (start, end) ↦ entry start end
              | none ↦
                  if is_domain_like host
                  then ok (
                      some (
                        domain_entry (without_char b'*' host) (record {
                          port_min = port_min;
                          port_max = port_max;
                          protocol = protocol;
                          app_id = app_id;
                          node_group_id = node_group_id;
                        })))
                  else ok none
            ]
        ]
      ]

  abbrev pub add_entry : ResourceSnapshot → Option HostEntry → ResourceSnapshot
  add_entry snapshot none = snapshot
  add_entry snapshot (some (ip_entry r)) = record snapshot {
    ip_resources = snapshot.ip_resources ++ (r ∷ []);
  }
  add_entry snapshot (some (domain_entry domain r)) = record snapshot {
    domain_resources = insert domain r snapshot.domain_resources;
  }

  -- The first address that parses becomes the static address of the host.
  unfoldable pub add_static : Text → List Text → ResourceSnapshot → ResourceSnapshot
  add_static host [] snapshot = snapshot
  add_static host (ip ∷ ips) snapshot = elim (parse_ipv4 ip) [
    | some a ↦ record snapshot { dns_resource = insert host a snapshot.dns_resource }
    | none ↦ add_static host ips snapshot
  ]

  -- The body of the innermost loop.
  unfoldable pub add_address :
      AppEntry → ResourceSnapshot → AddressEntry → AtrResult ResourceSnapshot
  add_address app snapshot addr = do
    (port_min, port_max) ← parse_port_range addr.port
    entry ← parse_host_entry addr.host addr.protocol port_min port_max app.id app.node_group_id
    let snapshot' = add_entry snapshot entry
    ok (if is_domain_like addr.host then add_static addr.host addr.ip snapshot' else snapshot')

  unfoldable pub add_addresses :
      AppEntry → List AddressEntry → ResourceSnapshot → AtrResult ResourceSnapshot
  add_addresses app [] snapshot = ok snapshot
  add_addresses app (addr ∷ addrs) snapshot = do
    snapshot' ← add_address app snapshot addr
    add_addresses app addrs snapshot'

  unfoldable pub add_apps : List AppEntry → ResourceSnapshot → AtrResult ResourceSnapshot
  add_apps [] snapshot = ok snapshot
  add_apps (app ∷ apps) snapshot = do
    snapshot' ← add_addresses app app.address_list snapshot
    add_apps apps snapshot'

  unfoldable pub add_app_info : List AppInfo → ResourceSnapshot → AtrResult ResourceSnapshot
  add_app_info [] snapshot = ok snapshot
  add_app_info (info ∷ infos) snapshot = do
    snapshot' ← add_apps info.apps snapshot
    add_app_info infos snapshot'

-- `{{sdpcHost}}` stands for the host of the service, and 441 is the port where none is given.
unfoldable pub node_endpoint : Text → Text → Text
node_endpoint service_host address =
    let host = if text_eq address (codes "{{sdpcHost}}") then service_host else address in
    if contains_char b':' host then host else host ++ codes ":441"

abbrev pub before_colon : Text → Text
before_colon s = elim (split_once b':' s) [ some (host, rest) ↦ host | none ↦ s ]

-- The loop over the addresses of a group: the addresses kept, and the excluded IPs.
unfoldable pub node_addresses : Text → List NodeAddress → List Ipv4Addr → List Text × List Ipv4Addr
unfolding node_endpoint
node_addresses service_host [] excluded = ([], excluded)
node_addresses service_host (addr ∷ addrs) excluded =
    let normalized = node_endpoint service_host addr.address in
    let excluded' : List Ipv4Addr = elim (parse_ipv4 (before_colon normalized)) [
      | some ip ↦ excluded ++ (ip ∷ [])
      | none ↦ excluded
    ] in
    let wan = text_eq addr.kind (codes "wan") in
    let (rest, all_excluded) =
      node_addresses service_host addrs (if wan then excluded' else excluded) in
    (if wan then normalized ∷ rest else rest, all_excluded)

unfoldable pub add_groups :
    Text → List NodeGroupEntry → Map (List Text) → List Ipv4Addr → Map (List Text) × List Ipv4Addr
unfolding node_addresses
add_groups service_host [] groups excluded = (groups, excluded)
add_groups service_host (group ∷ more) groups excluded =
    let (addresses, excluded') = node_addresses service_host group.address_info excluded in
    add_groups service_host more (insert group.id addresses groups) excluded'

-- The first address of each group that has one.
unfoldable pub first_nodes : Map (List Text) → Map Text
first_nodes [] = []
first_nodes ((k, []) ∷ groups) = first_nodes groups
first_nodes ((k, addr ∷ addrs) ∷ groups) = (k, addr) ∷ first_nodes groups

unfoldable pub pick_dns_server : Option ClientOption → Option Text
pick_dns_server none = none
pick_dns_server (some o) =
    if not (is_empty o.dns_option)
    then some o.dns_option
    else if not (is_empty o.dns_option_v2)
    then some o.dns_option_v2
    else none

unfoldable pub parse_resource :
    (Text → Option (Ipv4Addr × Ipv4Addr)) → ClientResourceData → Text → AtrResult ResourceSnapshot
parse_resource parse_net parsed service_host = do
  snapshot ← add_app_info parse_net parsed.app_info empty_snapshot
  let (groups, excluded) = add_groups service_host parsed.config.node_group_list [] []
  ok (record snapshot {
    dns_server = pick_dns_server parsed.sdp_policy;
    major_node_group = parsed.config.major_node_group;
    node_groups = groups;
    best_nodes = first_nodes groups;
    excluded_ips = excluded;
  })
