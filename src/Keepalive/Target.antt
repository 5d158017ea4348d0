-- ===== src/Keepalive/Target.antt =====
-- transport.rs: the target of the keep-alive echo.
use libreatrust.Base.{
  Bool, Bool-cases, Ipv4Addr, IsIpv4, List, Option, Option-cases, [], arith, if◌then◌else◌, inl,
  inr, ipv4_number, ipv4_number-of_number, ipv4_of_number, ltb, ltb-false, lt→ltb, min, none,
  or_else, refl, some, subst, true, ℕ, ◌%◌, ◌&&◌, ◌+◌, ◌-◌, ◌/◌, ◌<◌, ◌==◌, ◌||◌, ◌∷◌, ◌≡◌, ◌≤◌,
  ◌⊎◌,
}
use libreatrust.Address.{ipv4_text}
use libreatrust.Map.{Map, lookup}
use libreatrust.Resource.{DomainResource, IpResource, ResourceSnapshot}
use libreatrust.Client.{AtrClient, route_icmp}
use libreatrust.Proxy.{is_managed}
use libreatrust.Keepalive.{
  answers_icmp, protocol_allows_icmp, range_target, representative_ipv4, resource_target,
  select_icmp_keepalive_target, static_target,
}

-- Of a range that is not empty, the representative lies in the range; an empty range has none.
representative_ipv4-between :
    (low high : Ipv4Addr)
    → IsIpv4 high
    → (ipv4_number low ≤ ipv4_number high
        → (ip : Ipv4Addr) × (representative_ipv4 low high ≡ some ip)
          × (ipv4_number low ≤ ipv4_number ip)
          × (ipv4_number ip ≤ ipv4_number high))
      × (ipv4_number high < ipv4_number low → representative_ipv4 low high ≡ none)
unfolding representative_ipv4
representative_ipv4-between low high h = (
  λ le.
      let lo = ipv4_number low in
      let hi = ipv4_number high in
      let middle = lo + (hi - lo) / 2 in
      let is_edge = middle % 256 == 0 || middle % 256 == 255 in
      let n = if ltb lo hi && is_edge then min (min (middle + 1) 4294967295) hi else middle in
      let top : hi ≤ 4294967295 = omega (arith, h.b0, h.b1, h.b2, h.b3) in
      let inside : (lo ≤ n) × (n ≤ hi) = chosen lo hi is_edge le top in
      (
        ipv4_of_number n,
        rw (ltb-false hi lo le) refl,
        rw (ipv4_number-of_number n) inside.0,
        rw (ipv4_number-of_number n) inside.1,
      ),
  λ lt. rw (lt→ltb (ipv4_number high) (ipv4_number low) lt) refl,
)
  where
    chosen :
        (lo hi : ℕ) (edge : Bool)
        → lo ≤ hi
        → hi ≤ 4294967295
        → (lo ≤ (
            if ltb lo hi && edge
            then min (min (lo + (hi - lo) / 2 + 1) 4294967295) hi
            else lo + (hi - lo) / 2))
          × ((if ltb lo hi && edge
                then min (min (lo + (hi - lo) / 2 + 1) 4294967295) hi
                else lo + (hi - lo) / 2)
              ≤ hi)
    chosen lo hi edge le top = elim (Bool-cases (ltb lo hi && edge)) [
      | inl e ↦ rw e (omega arith, omega arith)
      | inr e ↦ rw e (omega arith, omega arith)
    ]

static_target-answers :
    (client : AtrClient) (domains : Map DomainResource) (entries : Map Ipv4Addr) (ip : Ipv4Addr)
    → static_target client domains entries ≡ some ip
    → answers_icmp client ip ≡ true
unfolding static_target
static_target-answers client domains [] ip e = absurd (cc)
static_target-answers client domains ((domain, first) ∷ entries) ip e =
    elim (Option-cases (lookup domain domains)) [
      | inl absent ↦
          static_target-answers client domains entries ip (rw (absent, static_target) at e)
      | inr (r, found) ↦
          let e1 = rw (found, static_target) at e in
          elim (Bool-cases (protocol_allows_icmp r.protocol)) [
            | inr other ↦ static_target-answers client domains entries ip (rw other at e1)
            | inl allowed ↦ elim (Bool-cases (answers_icmp client first)) [
              | inr other ↦
                  static_target-answers client domains entries ip (rw other at (rw allowed at e1))
              | inl hit ↦
                  let e2 : some first ≡ some ip = rw hit at (rw allowed at e1) in
                  let same : first ≡ ip = cc in subst (λ a. answers_icmp client a ≡ true) same hit
            ]
          ]
    ]

range_target-answers :
    (client : AtrClient) (rs : List IpResource) (ip : Ipv4Addr)
    → range_target client rs ≡ some ip
    → answers_icmp client ip ≡ true
unfolding range_target
range_target-answers client [] ip e = absurd (cc)
range_target-answers client (r ∷ rs) ip e = elim (Bool-cases (protocol_allows_icmp r.protocol)) [
  | inr other ↦ range_target-answers client rs ip (rw other at e)
  | inl allowed ↦
      let e1 = rw allowed at e in
      elim (Option-cases (representative_ipv4 r.ip_min r.ip_max)) [
        | inl empty ↦ absurd (none_is_some ip (rw (empty, range_target) at e1))
        | inr (first, found) ↦
            let e2 = rw (found, range_target) at e1 in
            elim (Bool-cases (answers_icmp client first)) [
              | inr other ↦ range_target-answers client rs ip (rw other at e2)
              | inl hit ↦
                  let e3 : some first ≡ some ip = rw hit at e2 in
                  let same : first ≡ ip = cc in subst (λ a. answers_icmp client a ≡ true) same hit
            ]
      ]
]
  where
    none_is_some : (a : Ipv4Addr) → none ≡ some a → ⊥
    none_is_some a h = cc

or_else-cases :
    {A : Type 0} (o p : Option A) (a : A) → or_else o p ≡ some a → (o ≡ some a) ⊎ (p ≡ some a)
or_else-cases none p a e = inr e
or_else-cases (some b) p a e = inl e

resource_target-answers :
    (client : AtrClient) (resource : Option ResourceSnapshot) (ip : Ipv4Addr)
    → resource_target client resource ≡ some ip
    → answers_icmp client ip ≡ true
unfolding resource_target
resource_target-answers client none ip e = absurd (cc)
resource_target-answers client (some resource) ip e =
    elim (or_else-cases (static_target client resource.domain_resources resource.dns_resource)
      (range_target client resource.ip_resources) ip e) [
        | inl by_name ↦
            static_target-answers client resource.domain_resources resource.dns_resource ip by_name
        | inr by_range ↦ range_target-answers client resource.ip_resources ip by_range
      ]

-- A target that is selected is an address that the client routes into the tunnel for ICMP.
select_icmp_keepalive_target-managed :
    (client : AtrClient) (ip : Ipv4Addr)
    → select_icmp_keepalive_target client ≡ some ip
    → is_managed (route_icmp client (ipv4_text ip)) ≡ true
unfolding select_icmp_keepalive_target
select_icmp_keepalive_target-managed client ip e =
    resource_target-answers client client.resource ip e
