-- ===== src/Proxy.antt =====
-- proxy_service.rs: the local proxy. Here the routing of its targets, `resolved_tcp_route` and the
-- cache of `resolve_ipv4_addresses`; its two protocols are the child modules.
pub mod Socks
pub mod Http
pub mod Route
pub mod Cache
pub mod Service
use libreatrust.Base.{
  Bool, List, Text, [], false, if◌then◌else◌, length, ltb, none, some, trim_matches, true, ℕ, ◌*◌,
  ◌-◌, ◌==◌, ◌||◌, ◌∷◌,
}
use libreatrust.Types.{RouteDecision, direct, managed}
use libreatrust.Address.{parses_as_ip}
use libreatrust.Map.{Map, insert, lookup}
use libreatrust.Client.{AtrClient, route_tcp}

pub data ProxyRouteDecision : Type 0 where
  proxy_direct : ProxyRouteDecision
  proxy_managed : ProxyRouteDecision

pub record ResolvedProxyRoute : Type 0 where
  pub decision : ProxyRouteDecision
  pub connect_host : Text

abbrev pub is_managed : RouteDecision → Bool
is_managed (managed hit) = true
is_managed direct = false

-- The loop over the addresses of a host.
unfoldable pub route_addresses : AtrClient → Text → ℕ → List Text → ResolvedProxyRoute
route_addresses client host port [] = record { decision = proxy_direct; connect_host = host }
route_addresses client host port (ip ∷ addrs) =
    let rest = route_addresses client host port addrs in
    if is_managed (route_tcp client ip port)
    then record { decision = proxy_managed; connect_host = ip }
    else rest

-- `resolved_tcp_route`, where `resolve` gives the IPv4 addresses of a host.
unfoldable pub resolved_tcp_route : (Text → List Text) → AtrClient → Text → ℕ → ResolvedProxyRoute
unfolding route_addresses
resolved_tcp_route resolve client host port =
    if is_managed (route_tcp client host port)
    then record { decision = proxy_managed; connect_host = host }
    else if parses_as_ip (trim_matches (λ c. c == b'[' || c == b']') host)
    then record { decision = proxy_direct; connect_host = host }
    else route_addresses client host port (resolve host)

-- An entry of the cache, with the time at which it was resolved, in nanoseconds.
pub record DnsEntry : Type 0 where
  pub addrs : List Text
  pub resolved : ℕ

abbrev pub dns_cache_ttl : ℕ
dns_cache_ttl = 30 * 1000000000

abbrev pub dns_cache_max_entries : ℕ
dns_cache_max_entries = 1024

abbrev pub is_fresh : ℕ → DnsEntry → Bool
is_fresh now entry = ltb (now - entry.resolved) dns_cache_ttl

-- `cache.retain(..)`
unfoldable pub retain_fresh : ℕ → Map DnsEntry → Map DnsEntry
retain_fresh now [] = []
retain_fresh now ((host, entry) ∷ cache) =
    let rest = retain_fresh now cache in if is_fresh now entry then (host, entry) ∷ rest else rest

-- What is made room for a new entry.
unfoldable pub make_room : ℕ → Map DnsEntry → Map DnsEntry
unfolding retain_fresh
make_room now cache =
    let kept = retain_fresh now cache in
    if ltb (length cache) dns_cache_max_entries
    then cache
    else if ltb (length kept) dns_cache_max_entries
    then kept
    else []

-- `resolve_ipv4_addresses` at the time `now`: the addresses and the cache afterwards. A lookup
-- that fails gives no address, which is cached as well.
unfoldable pub resolve_ipv4_addresses :
    (Text → List Text) → ℕ → Text → Map DnsEntry → List Text × Map DnsEntry
unfolding make_room
resolve_ipv4_addresses system now host cache =
    let fresh =
      insert host (record { addrs = system host; resolved = now }) (make_room now cache) in
    elim (lookup host cache) [
      | none ↦ (system host, fresh)
      | some entry ↦ if is_fresh now entry then (entry.addrs, cache) else (system host, fresh)
    ]
