-- ===== src/Proxy/Cache.antt =====
-- proxy_service.rs: the cache of `resolve_ipv4_addresses`.
use libreatrust.Base.{
  Bool-cases, List, Option-cases, Text, [], arith, inl, inr, length, ltb, ltb→lt, lt→ltb, none,
  refl, some, suc, text_eq, text_eq_refl, true, ℕ, ◌-◌, ◌<◌, ◌∙◌, ◌∷◌, ◌≡◌, ◌≤◌, ◌⊎◌,
}
use libreatrust.Map.{Map, insert, lookup, lookup-insert}
use libreatrust.Proxy.{
  DnsEntry, dns_cache_max_entries, dns_cache_ttl, is_fresh, make_room, resolve_ipv4_addresses,
  retain_fresh,
}

length-insert :
    (host : Text) (entry : DnsEntry) (cache : Map DnsEntry)
    → length (insert host entry cache) ≤ suc (length cache)
unfolding insert
length-insert host entry [] = omega arith
length-insert host entry ((k, v) ∷ cache) = elim (Bool-cases (text_eq k host)) [
  | inl e ↦ rw e (omega arith)
  | inr e ↦ rw e (omega (arith, length-insert host entry cache))
]

make_room_lem :
    (now : ℕ) (cache : Map DnsEntry) → length (make_room now cache) < dns_cache_max_entries
unfolding make_room
make_room_lem now cache = elim (Bool-cases (ltb (length cache) dns_cache_max_entries)) [
  | inl e ↦ rw e (ltb→lt _ _ e)
  | inr e ↦ rw e (elim (Bool-cases (ltb (length (retain_fresh now cache)) dns_cache_max_entries)) [
    | inl e2 ↦ rw e2 (ltb→lt _ _ e2)
    | inr e2 ↦ rw e2 (omega arith)
  ])
]

module _ (system : Text → List Text) (now : ℕ) (host : Text) (cache : Map DnsEntry) where
  abbrev resolved_now : DnsEntry
  resolved_now = record { addrs = system host; resolved = now }

  abbrev extended : Map DnsEntry
  extended = insert host resolved_now (make_room now cache)

  -- A call either answers from a fresh entry and leaves the cache as it is, or asks the system
  -- and keeps its answer.
  resolve-cases :
      ((entry : DnsEntry) × (is_fresh now entry ≡ true)
        × (resolve_ipv4_addresses system now host cache ≡ (entry.addrs, cache)))
      ⊎ (resolve_ipv4_addresses system now host cache ≡ (system host, extended))
  unfolding resolve_ipv4_addresses
  resolve-cases = elim (Option-cases (lookup host cache)) [
    | inl missing ↦ inr (rw (missing, resolve_ipv4_addresses) refl)
    | inr (entry, found) ↦ elim (Bool-cases (is_fresh now entry)) [
      | inl fresh ↦ inl (entry, fresh, rw (found, resolve_ipv4_addresses) (rw fresh refl))
      | inr old ↦ inr (rw (found, resolve_ipv4_addresses) (rw old refl))
    ]
  ]

  -- The cache never holds more than 1024 hosts.
  resolve_ipv4_addresses-bounded :
      length cache ≤ dns_cache_max_entries
      → length (resolve_ipv4_addresses system now host cache).1 ≤ dns_cache_max_entries
  resolve_ipv4_addresses-bounded h = elim resolve-cases [
    | inl (entry, fresh, e) ↦ rw e h
    | inr e ↦ rw e (
        omega
          (arith, length-insert host resolved_now (make_room now cache), make_room_lem now cache))
  ]

  -- A host that was not in the cache is asked of the system once: for the next 30 seconds a
  -- second call gives the same addresses, whatever the system would say, and leaves the cache as
  -- it is.
  resolve_ipv4_addresses-again :
      (system' : Text → List Text) (later : ℕ)
      → lookup host cache ≡ none
      → later - now < dns_cache_ttl
      → resolve_ipv4_addresses system' later host (resolve_ipv4_addresses system now host cache).1
        ≡ resolve_ipv4_addresses system now host cache
  unfolding resolve_ipv4_addresses
  resolve_ipv4_addresses-again system' later missing h =
      let first : resolve_ipv4_addresses system now host cache ≡ (system host, extended) =
        rw (missing, resolve_ipv4_addresses) refl in
      let held : lookup host extended ≡ some resolved_now =
        lookup-insert host host resolved_now (make_room now cache) ∙ rw (text_eq_refl host) refl in
      let fresh : is_fresh later resolved_now ≡ true = lt→ltb (later - now) dns_cache_ttl h in
      rw first (rw (held, resolve_ipv4_addresses) (rw fresh refl))
