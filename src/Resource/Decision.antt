-- ===== src/Resource/Decision.antt =====
-- `route` of resource.rs: when a destination is managed, and when it goes direct.
use libreatrust.Base.{
  Any, Bool-cases, Ipv4Addr, List, Option, Option-cases, Text, [], ap, false, inl, inr, none, refl,
  some, sym, true, ℕ, ◌∙◌, ◌∷◌, ◌≡◌, ◌⊎◌,
}
use libreatrust.Types.{ProtocolKind, RouteDecision, RouteHit, direct, managed}
use libreatrust.Address.{parse_ipv4}
use libreatrust.Resource.{
  ResourceSnapshot, decide_hit, is_ipv6_literal, is_node_endpoint, match_domain, match_domain_ports,
  match_ip, route,
}
use libreatrust.Resource.Routing.{
  DomainCovers, IpCovers, find_domain-none, find_domain-some, find_ip-none, find_ip-some,
  hit_of_domain, hit_of_ip,
}

-- Some resource covers the destination, and gives the hit.
abbrev pub Covered : ResourceSnapshot → Text → ℕ → ProtocolKind → RouteHit → Type 0
Covered snapshot host port protocol hit =
    ((ip : Ipv4Addr) × (parse_ipv4 host ≡ some ip)
      × Any (λ r. IpCovers ip port protocol r × (hit_of_ip r ≡ hit)) snapshot.ip_resources)
    ⊎ ((parse_ipv4 host ≡ none)
        × Any (λ e. DomainCovers host port protocol e × (hit_of_domain e ≡ hit))
            snapshot.domain_resources)

-- Node endpoints and IPv6 literals never enter a tunnel.
abbrev pub IsExempt : ResourceSnapshot → Text → ℕ → Type 0
IsExempt snapshot host port =
    (is_node_endpoint snapshot host port ≡ true) ⊎ (is_ipv6_literal host ≡ true)

decide_hit-managed :
    (o : Option RouteHit) (hit : RouteHit) → decide_hit o ≡ managed hit → o ≡ some hit
decide_hit-managed none hit e = cc
decide_hit-managed (some h) hit e = cc

decide_hit-direct : (o : Option RouteHit) → decide_hit o ≡ direct → o ≡ none
decide_hit-direct none e = refl
decide_hit-direct (some h) e = cc

module _ (snapshot : ResourceSnapshot) (host : Text) (port : ℕ) (protocol : ProtocolKind) where
  abbrev by_address : Option Ipv4Addr → RouteDecision
  by_address o = elim o [
    | some ip ↦ decide_hit (match_ip snapshot ip port protocol)
    | none ↦ decide_hit (match_domain snapshot host port protocol)
  ]

  abbrev by_resources : RouteDecision
  by_resources = by_address (parse_ipv4 host)

  exempt_direct : IsExempt snapshot host port → route snapshot host port protocol ≡ direct
  unfolding route
  exempt_direct (inl endpoint) = rw endpoint
  exempt_direct (inr literal6) = elim (Bool-cases (is_node_endpoint snapshot host port)) [
    | inl endpoint ↦ rw endpoint
    | inr other ↦ rw other (rw literal6)
  ]

  not_exempt :
      is_node_endpoint snapshot host port ≡ false
      → is_ipv6_literal host ≡ false
      → route snapshot host port protocol ≡ by_resources
  unfolding route
  not_exempt e l = rw e (rw l)

  IsExempt-cases :
      IsExempt snapshot host port
      ⊎ ((is_node_endpoint snapshot host port ≡ false) × (is_ipv6_literal host ≡ false))
  IsExempt-cases = elim (Bool-cases (is_node_endpoint snapshot host port)) [
    | inl e ↦ inl (inl e)
    | inr e ↦ elim (Bool-cases (is_ipv6_literal host)) [ inl l ↦ inl (inr l) | inr l ↦ inr (e, l) ]
  ]

  by_resources-managed :
      (hit : RouteHit) → by_resources ≡ managed hit → Covered snapshot host port protocol hit
  unfolding match_ip match_domain_ports
  by_resources-managed hit e = elim (Option-cases (parse_ipv4 host)) [
    | inl no_ip ↦
        let found =
          decide_hit-managed (match_domain snapshot host port protocol) hit
            (sym (ap by_address no_ip) ∙ e) in
        inr (no_ip, find_domain-some host port protocol snapshot.domain_resources hit found)
    | inr (ip, is_ip) ↦
        let found =
          decide_hit-managed (match_ip snapshot ip port protocol) hit
            (sym (ap by_address is_ip) ∙ e) in
        inl (ip, is_ip, find_ip-some ip port protocol snapshot.ip_resources hit found)
  ]

  Any-forget {ℓ} :
      {A : Type ℓ} (P Q : A → Type 0) (xs : List A) → Any (λ x. P x × Q x) xs → Any P xs
  Any-forget P Q [] a = a
  Any-forget P Q (x ∷ xs) (inl p) = inl p.0
  Any-forget P Q (x ∷ xs) (inr a) = inr (Any-forget P Q xs a)

  by_resources-direct :
      by_resources ≡ direct → (hit : RouteHit) → ¬ Covered snapshot host port protocol hit
  unfolding match_ip match_domain_ports
  by_resources-direct e hit (inl (ip, is_ip, covered)) =
      find_ip-none ip port protocol snapshot.ip_resources
        (decide_hit-direct (match_ip snapshot ip port protocol) (sym (ap by_address is_ip) ∙ e))
        (Any-forget (IpCovers ip port protocol) (λ r. hit_of_ip r ≡ hit) snapshot.ip_resources
          covered)
  by_resources-direct e hit (inr (no_ip, covered)) =
      find_domain-none host port protocol snapshot.domain_resources
        (decide_hit-direct (match_domain snapshot host port protocol)
          (sym (ap by_address no_ip) ∙ e))
        (Any-forget (DomainCovers host port protocol) (λ e. hit_of_domain e ≡ hit)
          snapshot.domain_resources covered)

  -- A managed destination is no node endpoint and no IPv6 literal, and the hit is that of a
  -- resource that covers it: an address range for an IPv4 literal, a domain rule for any other
  -- host, with the protocol and the port.
  pub route-managed :
      (hit : RouteHit)
      → route snapshot host port protocol ≡ managed hit
      → (¬ IsExempt snapshot host port) × Covered snapshot host port protocol hit
  route-managed hit e = elim IsExempt-cases [
    | inl exempt ↦ absurd (cc (exempt_direct exempt))
    | inr (p, q) ↦ (
      λ exempt. absurd (cc (exempt_direct exempt)),
      by_resources-managed hit (sym (not_exempt p q) ∙ e),
    )
  ]

  -- A destination that goes direct is a node endpoint or an IPv6 literal, or no resource covers it.
  pub route-direct :
      route snapshot host port protocol ≡ direct
      → IsExempt snapshot host port ⊎ ((hit : RouteHit) → ¬ Covered snapshot host port protocol hit)
  route-direct e = elim IsExempt-cases [
    | inl exempt ↦ inl exempt
    | inr (p, q) ↦ inr (by_resources-direct (sym (not_exempt p q) ∙ e))
  ]
