-- ===== src/Resource/Parse/Failures.antt =====
-- `parse_resource` fails only by a port text that does not parse.
use libreatrust.Base.{
  Bool, Ipv4Addr, List, Option, Text, [], all, ap, arith, false, refl, true, ℕ, ◌&&◌, ◌∙◌, ◌∷◌, ◌≡◌,
}
use libreatrust.Error.{is_ok, is_ok-bind}
use libreatrust.Resource.{ResourceSnapshot, empty_snapshot}
use libreatrust.Resource.Entries.{
  AddressEntry, AppEntry, AppInfo, ClientResourceData, parse_ip_range, parse_port_range,
}
use libreatrust.Resource.Parse.{
  add_address, add_addresses, add_app_info, add_apps, parse_host_entry, parse_resource,
}

abbrev pub port_parses : AddressEntry → Bool
port_parses addr = is_ok (parse_port_range addr.port)

-- Every port text of the response parses.
abbrev pub all_ports_parse : ClientResourceData → Bool
all_ports_parse parsed =
    all (λ info. all (λ app. all port_parses app.address_list) info.apps) parsed.app_info

ip_range_ok : (host : Text) → is_ok (parse_ip_range host) ≡ true
unfolding parse_ip_range
ip_range_ok host = ground arith

and_true : (b : Bool) → (b && true) ≡ b
and_true true = refl
and_true false = refl

module _ (parse_net : Text → Option (Ipv4Addr × Ipv4Addr)) where
  host_entry_ok :
      (host protocol : Text) (low high : ℕ) (app_id group : Text)
      → is_ok (parse_host_entry parse_net host protocol low high app_id group) ≡ true
  unfolding parse_host_entry
  host_entry_ok host protocol low high app_id group =
      let range = ip_range_ok host in ground (arith, range)

  address_ok :
      (app : AppEntry) (s : ResourceSnapshot) (addr : AddressEntry)
      → is_ok (add_address parse_net app s addr) ≡ port_parses addr
  unfolding add_address
  address_ok app s addr =
      is_ok-bind (parse_port_range addr.port) _ true (λ (low, high).
        is_ok-bind
          (parse_host_entry parse_net addr.host addr.protocol low high app.id app.node_group_id) _
          true (λ entry. refl)
        ∙ ap (λ b. b && true)
            (host_entry_ok addr.host addr.protocol low high app.id app.node_group_id))
      ∙ and_true (port_parses addr)

  addresses_ok :
      (app : AppEntry) (addrs : List AddressEntry) (s : ResourceSnapshot)
      → is_ok (add_addresses parse_net app addrs s) ≡ all port_parses addrs
  unfolding add_addresses
  addresses_ok app [] s = refl
  addresses_ok app (addr ∷ addrs) s =
      is_ok-bind (add_address parse_net app s addr) _ (all port_parses addrs)
        (λ s'. addresses_ok app addrs s')
      ∙ ap (λ b. b && all port_parses addrs) (address_ok app s addr)

  apps_ok :
      (apps : List AppEntry) (s : ResourceSnapshot)
      → is_ok (add_apps parse_net apps s) ≡ all (λ app. all port_parses app.address_list) apps
  unfolding add_apps
  apps_ok [] s = refl
  apps_ok (app ∷ apps) s =
      let more = all (λ (a : AppEntry). all port_parses a.address_list) apps in
      is_ok-bind (add_addresses parse_net app app.address_list s) _ more (λ s'. apps_ok apps s')
      ∙ ap (λ b. b && more) (addresses_ok app app.address_list s)

  infos_ok :
      (infos : List AppInfo) (s : ResourceSnapshot)
      → is_ok (add_app_info parse_net infos s)
        ≡ all (λ info. all (λ app. all port_parses app.address_list) info.apps) infos
  unfolding add_app_info
  infos_ok [] s = refl
  infos_ok (info ∷ infos) s =
      let more =
        all (λ (i : AppInfo). all (λ app. all port_parses app.address_list) i.apps) infos in
      is_ok-bind (add_apps parse_net info.apps s) _ more (λ s'. infos_ok infos s')
      ∙ ap (λ b. b && more) (apps_ok info.apps s)

  -- `parse_resource` succeeds exactly when every port text of the response parses: no other part
  -- of a response that was read makes it fail.
  pub parse_resource-ok_iff :
      (parsed : ClientResourceData) (service_host : Text)
      → is_ok (parse_resource parse_net parsed service_host) ≡ all_ports_parse parsed
  unfolding parse_resource
  parse_resource-ok_iff parsed service_host =
      is_ok-bind (add_app_info parse_net parsed.app_info empty_snapshot) _ true (λ s. refl)
      ∙ and_true (is_ok (add_app_info parse_net parsed.app_info empty_snapshot))
      ∙ infos_ok parsed.app_info empty_snapshot
