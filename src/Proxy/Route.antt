-- ===== src/Proxy/Route.antt =====
-- proxy_service.rs: what the route of a proxied connection promises.
use libreatrust.Base.{
  All, Any, Bool, Bool-cases, List, Text, [], false, inl, inr, not, refl, subst, trim_matches, true,
  ℕ, ◌==◌, ◌||◌, ◌∷◌, ◌≡◌, ◌⊎◌,
}
use libreatrust.Address.{parses_as_ip}
use libreatrust.Client.{AtrClient, route_tcp}
use libreatrust.Proxy.{
  ResolvedProxyRoute, is_managed, proxy_direct, proxy_managed, resolved_tcp_route, route_addresses,
}

abbrev pub IsManaged : AtrClient → Text → ℕ → Type 0
IsManaged client host port = is_managed (route_tcp client host port) ≡ true

abbrev literal_text : Text → Text
literal_text host = trim_matches (λ c. c == b'[' || c == b']') host

-- What a route must satisfy for a host with the given addresses: a managed one names the host or
-- one of the addresses, which the client manages; a direct one keeps the host, and the client
-- manages neither the host nor, unless it is written as an address, one of the addresses.
abbrev pub Justified : AtrClient → Text → ℕ → Bool → List Text → ResolvedProxyRoute → Type 0
Justified client host port looked_up addrs r =
    ((r.decision ≡ proxy_managed)
      × IsManaged client r.connect_host port
      × ((r.connect_host ≡ host) ⊎ Any (λ ip. r.connect_host ≡ ip) addrs))
    ⊎ ((r.decision ≡ proxy_direct)
        × (r.connect_host ≡ host)
        × (is_managed (route_tcp client host port) ≡ false)
        × (looked_up ≡ true → All (λ ip. is_managed (route_tcp client ip port) ≡ false) addrs))

to_host : Text → ResolvedProxyRoute
to_host host = record { decision = proxy_direct; connect_host = host }

through : Text → ResolvedProxyRoute
through host = record { decision = proxy_managed; connect_host = host }

route_addresses-Justified :
    (client : AtrClient) (host : Text) (port : ℕ) (addrs : List Text)
    → is_managed (route_tcp client host port) ≡ false
    → Justified client host port true addrs (route_addresses client host port addrs)
unfolding route_addresses through
route_addresses-Justified client host port [] h = inr (refl, refl, h, λ z. tt)
route_addresses-Justified client host port (ip ∷ addrs) h =
    let found = route_addresses client host port (ip ∷ addrs) in
    let further = route_addresses client host port addrs in
    elim (Bool-cases (is_managed (route_tcp client ip port))) [
      | inl hit ↦
          let e : through ip ≡ found = rw hit refl in
          subst (Justified client host port true (ip ∷ addrs)) e (inl (refl, hit, inr (inl refl)))
      | inr miss ↦
          let e : further ≡ found = rw (miss, route_addresses) refl in
          subst (Justified client host port true (ip ∷ addrs)) e
            (elim (route_addresses-Justified client host port addrs h) [
              | inl (d, m, inl same) ↦ inl (d, m, inl same)
              | inl (d, m, inr some_ip) ↦ inl (d, m, inr (inr some_ip))
              | inr (d, same, n, none_managed) ↦ inr (d, same, n, λ z. (miss, none_managed z))
            ])
    ]

-- The route of a connection is justified: a managed one connects to the host or to one of its
-- addresses, whichever the client manages, and a direct one is taken only where the client
-- manages neither the host nor, unless the host is written as an address, any of its addresses.
pub resolved_tcp_route-Justified :
    (resolve : Text → List Text) (client : AtrClient) (host : Text) (port : ℕ)
    → Justified client host port
        (not (parses_as_ip (literal_text host)))
        (resolve host)
        (resolved_tcp_route resolve client host port)
unfolding resolved_tcp_route through to_host
resolved_tcp_route-Justified resolve client host port =
    let found = resolved_tcp_route resolve client host port in
    let looked_up = not (parses_as_ip (literal_text host)) in
    let J = Justified client host port looked_up (resolve host) in
    elim (Bool-cases (is_managed (route_tcp client host port))) [
      | inl hit ↦
          let e : through host ≡ found = rw hit refl in subst J e (inl (refl, hit, inl refl))
      | inr miss ↦ elim (Bool-cases (parses_as_ip (literal_text host))) [
        | inl ip ↦
            let e : to_host host ≡ found = rw miss (rw ip refl) in
            subst J e (inr (refl, refl, miss, λ z. absurd (cc)))
        | inr name ↦
            let e : route_addresses client host port (resolve host) ≡ found =
              rw miss (rw name refl) in
            let l : true ≡ looked_up = rw name refl in
            subst J e (
              subst
                (λ b.
                  Justified client host port b (resolve host)
                    (route_addresses client host port (resolve host)))
                l (route_addresses-Justified client host port (resolve host) miss))
      ]
    ]
