-- ===== src/Resource/Routing.antt =====
-- The routing decision of resource.rs against a description of what each resource covers.
use libreatrust.Base.{
  Any, Bool, Bool-cases, Ipv4Addr, List, Text, [], all, arith, codes, false, inl, inr, ipv4_number,
  none, refl, some, text_eq, text_eq_iff, true, ℕ, ◌&&◌, ◌||◌, ◌↔◌, ◌∷◌, ◌≡◌, ◌≤◌, ◌⊎◌,
}
use libreatrust.Types.{ProtocolKind, RouteHit, icmp, tcp, udp}
use libreatrust.Map.{Map}
use libreatrust.Resource.{
  DomainResource, IpResource, domain_matches, domain_rule_matches, find_domain, find_ip, host_name,
  ip_between, ip_rule_matches, ports_match, protocol_matches,
}

abbrev pub protocol_rule : ProtocolKind → Text
protocol_rule tcp = codes "tcp"
protocol_rule udp = codes "udp"
protocol_rule icmp = codes "icmp"

-- A rule carries its own protocol, and `all` carries every one.
abbrev pub Carries : Text → ProtocolKind → Type 0
Carries rule protocol = (rule ≡ codes "all") ⊎ (rule ≡ protocol_rule protocol)

-- ICMP has no ports.
abbrev pub PortsCover : ℕ → ℕ → ℕ → ProtocolKind → Type 0
PortsCover low high port icmp = Unit
PortsCover low high port tcp = (low ≤ port) × (port ≤ high)
PortsCover low high port udp = (low ≤ port) × (port ≤ high)

pub record IpCovers (ip : Ipv4Addr) (port : ℕ) (protocol : ProtocolKind) (r : IpResource)
    : Type 0 where
  pub above : ipv4_number r.ip_min ≤ ipv4_number ip
  pub below : ipv4_number ip ≤ ipv4_number r.ip_max
  pub carries : Carries r.protocol protocol
  pub ports : PortsCover r.port_min r.port_max port protocol

pub record DomainCovers (host : Text) (port : ℕ) (protocol : ProtocolKind)
    (entry : Text × DomainResource) : Type 0 where
  pub name : domain_matches (host_name host) entry.0 ≡ true
  pub carries : Carries entry.1.protocol protocol
  pub ports : PortsCover entry.1.port_min entry.1.port_max port protocol

or_cases : (a b : Bool) → (a || b) ≡ true → (a ≡ true) ⊎ (b ≡ true)
or_cases true b h = inl refl
or_cases false b h = inr h

or_intro : (a b : Bool) → (a ≡ true) ⊎ (b ≡ true) → (a || b) ≡ true
or_intro true b h = refl
or_intro false b (inl h) = absurd (cc)
or_intro false b (inr h) = h

pub and_cases : (a b : Bool) → (a && b) ≡ true → (a ≡ true) × (b ≡ true)
and_cases true b h = (refl, h)
and_cases false b h = cc

protocol_test :
    (rule : Text) (protocol : ProtocolKind)
    → protocol_matches rule protocol
      ≡ (text_eq rule (codes "all") || text_eq rule (protocol_rule protocol))
unfolding protocol_matches
protocol_test rule tcp = refl
protocol_test rule udp = refl
protocol_test rule icmp = refl

protocol_matches_iff :
    (rule : Text) (protocol : ProtocolKind)
    → (protocol_matches rule protocol ≡ true) ↔ Carries rule protocol
protocol_matches_iff rule protocol = rw (protocol_test rule protocol) (
  λ h. elim (or_cases _ _ h) [
    | inl all ↦ inl ((text_eq_iff rule (codes "all")).0 all)
    | inr own ↦ inr ((text_eq_iff rule (protocol_rule protocol)).0 own)
  ],
  λ c. or_intro _ _ (elim c [
    | inl all ↦ inl ((text_eq_iff rule (codes "all")).1 all)
    | inr own ↦ inr ((text_eq_iff rule (protocol_rule protocol)).1 own)
  ]),
)

ports_match_iff :
    (low high port : ℕ) (protocol : ProtocolKind)
    → (ports_match low high port protocol ≡ true) ↔ PortsCover low high port protocol
unfolding ports_match
ports_match_iff low high port icmp = (λ h. tt, λ h. refl)
ports_match_iff low high port tcp = (λ h. (ground arith, ground arith), λ h. ground arith)
ports_match_iff low high port udp = (λ h. (ground arith, ground arith), λ h. ground arith)

ip_between_iff :
    (ip low high : Ipv4Addr)
    → (ip_between ip low high ≡ true)
      ↔ ((ipv4_number low ≤ ipv4_number ip) × (ipv4_number ip ≤ ipv4_number high))
unfolding ip_between
ip_between_iff ip low high = (λ h. (ground arith, ground arith), λ h. ground arith)

and_intro : (a b : Bool) → a ≡ true → b ≡ true → (a && b) ≡ true
and_intro a b p q = rw p q

abbrev pub hit_of_ip : IpResource → RouteHit
hit_of_ip r = record { app_id = r.app_id; node_group_id = r.node_group_id }

abbrev pub hit_of_domain : Text × DomainResource → RouteHit
hit_of_domain e = record { app_id = e.1.app_id; node_group_id = e.1.node_group_id }

module _ (ip : Ipv4Addr) (port : ℕ) (protocol : ProtocolKind) where
  ip_rule_iff :
      (r : IpResource) → (ip_rule_matches ip port protocol r ≡ true) ↔ IpCovers ip port protocol r
  unfolding ip_rule_matches
  ip_rule_iff r = (
    λ h.
        let (range, rest) = and_cases (ip_between ip r.ip_min r.ip_max) _ h in
        let (rule, port_ok) = and_cases (protocol_matches r.protocol protocol) _ rest in
        let bounds = (ip_between_iff ip r.ip_min r.ip_max).0 range in
        record {
          above = bounds.0;
          below = bounds.1;
          carries = (protocol_matches_iff r.protocol protocol).0 rule;
          ports = (ports_match_iff r.port_min r.port_max port protocol).0 port_ok;
        },
    λ c. and_intro _ _ ((ip_between_iff ip r.ip_min r.ip_max).1 (c.above, c.below)) (
        and_intro _ _ ((protocol_matches_iff r.protocol protocol).1 c.carries)
          ((ports_match_iff r.port_min r.port_max port protocol).1 c.ports)),
  )

  -- A hit names the application and the node group of a resource that covers the address.
  pub find_ip-some :
      (rs : List IpResource) (hit : RouteHit)
      → find_ip ip port protocol rs ≡ some hit
      → Any (λ r. IpCovers ip port protocol r × (hit_of_ip r ≡ hit)) rs
  unfolding find_ip
  find_ip-some [] hit e = cc
  find_ip-some (r ∷ rs) hit e = elim (Bool-cases (ip_rule_matches ip port protocol r)) [
    | inl yes_rule ↦ inl ((ip_rule_iff r).0 yes_rule, ground (arith, yes_rule))
    | inr no_rule ↦ inr (find_ip-some rs hit (ground (arith, no_rule)))
  ]

  pub find_ip-none :
      (rs : List IpResource)
      → find_ip ip port protocol rs ≡ none
      → ¬ Any (IpCovers ip port protocol) rs
  unfolding find_ip
  find_ip-none [] e a = a
  find_ip-none (r ∷ rs) e (inl c) = let m = (ip_rule_iff r).1 c in absurd (ground (arith, m))
  find_ip-none (r ∷ rs) e (inr a) = elim (Bool-cases (ip_rule_matches ip port protocol r)) [
    | inl yes_rule ↦ absurd (ground (arith, yes_rule))
    | inr no_rule ↦ find_ip-none rs (ground (arith, no_rule)) a
  ]

module _ (host : Text) (port : ℕ) (protocol : ProtocolKind) where
  domain_rule_iff :
      (e : Text × DomainResource)
      → (domain_rule_matches (host_name host) (some port) protocol e ≡ true)
        ↔ DomainCovers host port protocol e
  unfolding domain_rule_matches
  domain_rule_iff (domain, r) = (
    λ h.
        let (rule, rest) = and_cases (protocol_matches r.protocol protocol) _ h in
        let (port_ok, name) = and_cases (ports_match r.port_min r.port_max port protocol) _ rest in
        record {
          name = name;
          carries = (protocol_matches_iff r.protocol protocol).0 rule;
          ports = (ports_match_iff r.port_min r.port_max port protocol).0 port_ok;
        },
    λ c.
        and_intro _ _ ((protocol_matches_iff r.protocol protocol).1 c.carries)
          (and_intro _ _ ((ports_match_iff r.port_min r.port_max port protocol).1 c.ports) c.name),
  )

  pub find_domain-some :
      (rs : Map DomainResource) (hit : RouteHit)
      → find_domain (host_name host) (some port) protocol rs ≡ some hit
      → Any (λ e. DomainCovers host port protocol e × (hit_of_domain e ≡ hit)) rs
  unfolding find_domain
  find_domain-some [] hit e = cc
  find_domain-some ((d, r) ∷ rs) hit e =
      elim (Bool-cases (domain_rule_matches (host_name host) (some port) protocol (d, r))) [
        | inl yes_rule ↦ inl ((domain_rule_iff (d, r)).0 yes_rule, ground (arith, yes_rule))
        | inr no_rule ↦ inr (find_domain-some rs hit (ground (arith, no_rule)))
      ]

  pub find_domain-none :
      (rs : Map DomainResource)
      → find_domain (host_name host) (some port) protocol rs ≡ none
      → ¬ Any (DomainCovers host port protocol) rs
  unfolding find_domain
  find_domain-none [] e a = a
  find_domain-none ((d, r) ∷ rs) e (inl c) =
      let m = (domain_rule_iff (d, r)).1 c in absurd (ground (arith, m))
  find_domain-none ((d, r) ∷ rs) e (inr a) =
      elim (Bool-cases (domain_rule_matches (host_name host) (some port) protocol (d, r))) [
        | inl yes_rule ↦ absurd (ground (arith, yes_rule))
        | inr no_rule ↦ find_domain-none rs (ground (arith, no_rule)) a
      ]
