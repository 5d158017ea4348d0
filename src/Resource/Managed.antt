-- ===== src/Resource/Managed.antt =====
-- What a DNS server asks of resource.rs: whether a name is managed on some port.
use libreatrust.Base.{
  All, Bool-cases, Option, Option-cases, Text, [], ap, arith, inl, inr, none, refl, some,
  to_ascii_lowercase, true, ℕ, ◌++◌, ◌↔◌, ◌∷◌, ◌≡◌, ◌≤◌,
}
use libreatrust.Types.{ProtocolKind, RouteHit, icmp, tcp, udp}
use libreatrust.Map.{Map}
use libreatrust.Resource.{
  DomainResource, ResourceSnapshot, domain_managed, domain_rule_matches, find_domain, host_name,
  is_some, match_domain, match_domain_ports, ports_match, protocol_matches,
}
use libreatrust.Resource.Domains.{host_name_same}
use libreatrust.Resource.Routing.{and_cases}

-- The range of every domain resource holds a port.
abbrev pub HasPorts : Map DomainResource → Type 0
HasPorts = All (λ e. (e.1.port_min ≤ e.1.port_max) × (e.1.port_max ≤ 65535))

module _ (host : Text) (protocol : ProtocolKind) where
  rule_widens :
      (port : ℕ) (e : Text × DomainResource)
      → domain_rule_matches host (some port) protocol e ≡ true
      → domain_rule_matches host none protocol e ≡ true
  unfolding domain_rule_matches
  rule_widens port (d, r) h =
      let (rule, rest) = and_cases (protocol_matches r.protocol protocol) _ h in
      let (port_ok, name) = and_cases (ports_match r.port_min r.port_max port protocol) _ rest in
      rw rule name

  find_widens :
      (port : ℕ) (rs : Map DomainResource) (hit : RouteHit)
      → find_domain host (some port) protocol rs ≡ some hit
      → is_some (find_domain host none protocol rs) ≡ true
  unfolding find_domain
  find_widens port [] hit e = cc
  find_widens port ((d, r) ∷ rs) hit e =
      elim (Bool-cases (domain_rule_matches host none protocol (d, r))) [
        | inl wide ↦ rw wide
        | inr none_wide ↦ elim (Bool-cases (domain_rule_matches host (some port) protocol (d, r))) [
          | inl narrow ↦ absurd (cc (none_wide, rule_widens port (d, r) narrow))
          | inr none_narrow ↦ rw none_wide (find_widens port rs hit (ground (arith, none_narrow)))
        ]
      ]

  -- The lowest port of a matching rule is a port on which the rule matches.
  rule_narrows :
      (e : Text × DomainResource)
      → e.1.port_min ≤ e.1.port_max
      → domain_rule_matches host none protocol e ≡ true
      → domain_rule_matches host (some e.1.port_min) protocol e ≡ true
  unfolding domain_rule_matches
  rule_narrows (d, r) h m =
      let (rule, name) = and_cases (protocol_matches r.protocol protocol) _ m in
      rw rule (rw (at_low r.port_min r.port_max protocol h) name)
    where
      at_low : (low high : ℕ) (p : ProtocolKind) → low ≤ high → ports_match low high low p ≡ true
      at_low low high icmp h = refl
      at_low low high tcp h = ground arith
      at_low low high udp h = ground arith

  find_narrows :
      (rs : Map DomainResource)
      → HasPorts rs
      → is_some (find_domain host none protocol rs) ≡ true
      → (port : ℕ) × (port ≤ 65535) × (is_some (find_domain host (some port) protocol rs) ≡ true)
  unfolding find_domain
  find_narrows [] h e = cc
  find_narrows ((d, r) ∷ rs) h e =
      elim (Bool-cases (domain_rule_matches host none protocol (d, r))) [
        | inl wide ↦ (r.port_min, omega arith, rw (rule_narrows (d, r) h.0.0 wide))
        | inr none_wide ↦
            let (port, bound, found) = find_narrows rs h.1 (ground (arith, none_wide)) in
            (
              port,
              bound,
              elim (Bool-cases (domain_rule_matches host (some port) protocol (d, r))) [
                | inl narrow ↦ rw narrow
                | inr none_narrow ↦ rw none_narrow found
              ],
            )
      ]

-- A name is managed, whatever the port, exactly when it is managed on some port of 16 bits, if
-- the range of every domain resource holds a port of 16 bits.
domain_managed_iff :
    (snapshot : ResourceSnapshot) (host : Text) (protocol : ProtocolKind)
    → HasPorts snapshot.domain_resources
    → (domain_managed snapshot host protocol ≡ true)
      ↔ ((port : ℕ) × (port ≤ 65535) × (is_some (match_domain snapshot host port protocol) ≡ true))
unfolding match_domain_ports
domain_managed_iff snapshot host protocol h = (
  find_narrows (host_name host) protocol snapshot.domain_resources h,
  λ (port, bound, found). elim (Option-cases (match_domain snapshot host port protocol)) [
    | inl no_hit ↦ absurd (cc (no_hit, found))
    | inr (hit, is_hit) ↦
        find_widens (host_name host) protocol port snapshot.domain_resources hit is_hit
  ],
)

-- The decision about a name does not depend on the case of its letters, nor on a dot at its end.
match_domain_spellings :
    (snapshot : ResourceSnapshot) (host : Text) (port : Option ℕ) (protocol : ProtocolKind)
    → (match_domain_ports snapshot (host ++ (b'.' ∷ [])) port protocol
        ≡ match_domain_ports snapshot host port protocol)
      × (match_domain_ports snapshot (to_ascii_lowercase host) port protocol
          ≡ match_domain_ports snapshot host port protocol)
unfolding match_domain_ports
match_domain_spellings snapshot host port protocol =
    let find = λ (name : Text). find_domain name port protocol snapshot.domain_resources in
    (ap find (host_name_same host).0, ap find (host_name_same host).1)
