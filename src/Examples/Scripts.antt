-- ===== src/Examples/Scripts.antt =====
-- pac.rs at concrete resources.
use libreatrust.Base.{
  Bool, Option, Text, [], arith, codes, false, if◌then◌else◌, inl, inr, is_whitespace, none, refl,
  some, to_ascii_lowercase, trim, ◌||◌, ◌∷◌, ◌≡◌,
}
use libreatrust.Types.{tcp}
use libreatrust.Decimal.{decimal}
use libreatrust.Address.{ipv4_text}
use libreatrust.Resource.{
  DomainResource, IpResource, ResourceSnapshot, domain_managed, ip_managed_for_tcp,
}
use libreatrust.Pac.{
  after_dots, dedup, dedup_after, direct_verdict, find_proxy, in_ranges, insert_sorted,
  ip_to_number, normalize_domain, octet, pac_domains, pac_ranges, proxy_line, proxy_verdict,
  range_table, resolved_verdict, rule_names, rule_ranges, script_host, sort, suffix_hit,
}
use libreatrust.Pac.Names.{AreRegular, IsRegular, suffix_hit-pac_domains}
use libreatrust.Pac.Literals.{find_proxy-ipv4_text}

abbrev corp_rule : DomainResource
corp_rule = record {
  port_min = 80;
  port_max = 443;
  protocol = codes "tcp";
  app_id = codes "a1";
  node_group_id = codes "g1";
}

abbrev quic_rule : DomainResource
quic_rule = record {
  port_min = 443;
  port_max = 443;
  protocol = codes "udp";
  app_id = codes "a1";
  node_group_id = codes "g1";
}

abbrev office : IpResource
office = record {
  ip_min = record { o0 = 10; o1 = 0; o2 = 0; o3 = 0 };
  ip_max = record { o0 = 10; o1 = 0; o2 = 0; o3 = 255 };
  port_min = 1;
  port_max = 65535;
  protocol = codes "all";
  app_id = codes "a2";
  node_group_id = codes "g1";
}

abbrev corp : ResourceSnapshot
corp = record {
  ip_resources = office ∷ office ∷ [];
  domain_resources =
      (codes "*.corp.example", corp_rule)
      ∷ (codes "bad\"name", quic_rule)
      ∷ (codes "corp.example", corp_rule)
      ∷ [];
  dns_resource = [];
  dns_server = none;
  major_node_group = codes "g1";
  node_groups = [];
  best_nodes = [];
  excluded_ips = [];
}

-- Two spellings of one name, and one range twice, stand once in the tables.
domains_once : pac_domains corp ≡ codes "corp.example" ∷ []
unfolding pac_domains rule_names normalize_domain sort insert_sorted dedup dedup_after trim
    is_whitespace
domains_once = refl

ranges_once : range_table (pac_ranges corp) ≡ codes "[167772160,167772415]"
unfolding range_table pac_ranges rule_ranges sort insert_sorted dedup dedup_after decimal
ranges_once = refl

proxy_text :
    proxy_line (codes "127.0.0.1") 1920
    ≡ codes "PROXY 127.0.0.1:1920; SOCKS5 127.0.0.1:1920; DIRECT"
unfolding decimal
proxy_text = refl

abbrev no_plain : Text → Bool
no_plain host = false

abbrev resolves_office : Text → Option Text
resolves_office host = some (codes "10.0.0.9")

-- A name outside the table goes by the address that the browser finds for it.
resolved_goes_to_proxy :
    find_proxy to_ascii_lowercase no_plain resolves_office
      (pac_domains corp)
      (pac_ranges corp)
      (codes "Files.Example.")
    ≡ proxy_verdict
unfolding find_proxy suffix_hit after_dots resolved_verdict in_ranges ip_to_number octet pac_domains
    rule_names normalize_domain sort insert_sorted dedup dedup_after trim is_whitespace pac_ranges
    rule_ranges
resolved_goes_to_proxy = refl

subdomain_goes_to_proxy :
    find_proxy to_ascii_lowercase no_plain
      (λ host. none)
      (pac_domains corp)
      (pac_ranges corp)
      (codes "Git.CORP.example.")
    ≡ proxy_verdict
unfolding find_proxy suffix_hit after_dots pac_domains rule_names normalize_domain sort
    insert_sorted dedup dedup_after trim is_whitespace
subdomain_goes_to_proxy = refl

wildcard-IsRegular : IsRegular (codes "*.corp.example")
unfolding normalize_domain trim is_whitespace
wildcard-IsRegular = record { kept = refl; property = refl; one_dot = inr refl }

bare-IsRegular : IsRegular (codes "corp.example")
unfolding normalize_domain trim is_whitespace
bare-IsRegular = record { kept = refl; property = refl; one_dot = inl refl }

corp-AreRegular : AreRegular corp.domain_resources
corp-AreRegular =
    ((λ _. wildcard-IsRegular), ((λ clash. absurd (cc clash)), ((λ _. bare-IsRegular), tt)))

suffix_hit-pac_domains_example :
    suffix_hit (pac_domains corp) (script_host to_ascii_lowercase (codes "git.corp.example"))
    ≡ domain_managed corp (codes "git.corp.example") tcp
suffix_hit-pac_domains_example =
    suffix_hit-pac_domains to_ascii_lowercase corp (codes "git.corp.example") corp-AreRegular refl

-- A rule named `__proto__` stands in no table of a browser.
proto_is_missed :
    suffix_hit (codes "__proto__" ∷ []) (script_host to_ascii_lowercase (codes "a.__proto__"))
    ≡ false
unfolding suffix_hit after_dots
proto_is_missed = refl

find_proxy-ipv4_text_example :
    find_proxy to_ascii_lowercase no_plain resolves_office
      (codes "corp.example" ∷ [])
      (pac_ranges corp)
      (ipv4_text (record { o0 = 10; o1 = 0; o2 = 0; o3 = 7 }))
    ≡ (if suffix_hit
            (codes "corp.example" ∷ [])
            (ipv4_text (record { o0 = 10; o1 = 0; o2 = 0; o3 = 7 }))
          || ip_managed_for_tcp corp (record { o0 = 10; o1 = 0; o2 = 0; o3 = 7 })
        then proxy_verdict
        else direct_verdict)
find_proxy-ipv4_text_example =
    find_proxy-ipv4_text to_ascii_lowercase no_plain resolves_office (codes "corp.example" ∷ [])
      corp (record { o0 = 10; o1 = 0; o2 = 0; o3 = 7 }) (λ s ascii. refl)
      (record { b0 = omega arith; b1 = omega arith; b2 = omega arith; b3 = omega arith })
