-- ===== src/Resource/Parse/Nodes.antt =====
-- The nodes of a parsed snapshot.
use libreatrust.Base.{
  All, Bool-cases, Ipv4Addr, List, Option, Text, [], arith, codes, contains_char, head?,
  if◌then◌else◌, inl, inr, none, refl, some, text_eq, text_eq_iff, true, ℕ, ◌++◌, ◌∷◌, ◌≡◌,
}
use libreatrust.Error.{AtrResult-cases, ok}
use libreatrust.Map.{Map, insert, lookup, lookup-insert}
use libreatrust.Resource.{ResourceSnapshot, empty_snapshot}
use libreatrust.Resource.Entries.{ClientResourceData, NodeAddress, NodeGroupEntry}
use libreatrust.Resource.Parse.{
  add_app_info, add_groups, first_nodes, node_addresses, node_endpoint, parse_resource,
}

-- No key stands twice.
abbrev pub HasUniqueKeys {ℓ} : {V : Type ℓ} → Map V → Type ℓ
HasUniqueKeys [] = Unit
HasUniqueKeys ((k, v) ∷ m) = (lookup k m ≡ none) × HasUniqueKeys m

insert-HasUniqueKeys {ℓ} :
    {V : Type ℓ} (k : Text) (v : V) (m : Map V) → HasUniqueKeys m → HasUniqueKeys (insert k v m)
unfolding insert
insert-HasUniqueKeys k v [] h = (unfold lookup in refl, tt)
insert-HasUniqueKeys k v ((j, w) ∷ m) h = elim (Bool-cases (text_eq j k)) [
  | inl same ↦ rw same (rw (← (text_eq_iff j k).0 same) h)
  | inr other ↦ rw other (
    rw (lookup-insert k j v m) (elim (Bool-cases (text_eq k j)) [
      | inl back ↦ absurd (ground (arith, text_eq_iff k j, text_eq_iff j k))
      | inr back ↦ rw back h.0
    ]),
    insert-HasUniqueKeys k v m h.1,
  )
]

abbrev pub first_of : Option (List Text) → Option Text
first_of none = none
first_of (some addrs) = head? addrs

first_nodes-missing :
    (k : Text) (m : Map (List Text)) → lookup k m ≡ none → lookup k (first_nodes m) ≡ none
unfolding lookup first_nodes
first_nodes-missing k [] h = refl
first_nodes-missing k ((j, []) ∷ m) h = first_nodes-missing k m (ground arith)
first_nodes-missing k ((j, a ∷ more) ∷ m) h = ground (arith, first_nodes-missing k m)

-- The best node of a group is the first of its addresses.
lookup-first_nodes :
    (k : Text) (m : Map (List Text))
    → HasUniqueKeys m
    → lookup k (first_nodes m) ≡ first_of (lookup k m)
unfolding lookup first_nodes
lookup-first_nodes k [] h = refl
lookup-first_nodes k ((j, []) ∷ m) h = elim (Bool-cases (text_eq j k)) [
  | inl same ↦ rw same (first_nodes-missing k m (rw ((text_eq_iff j k).0 same) at h.0))
  | inr other ↦ rw other (lookup-first_nodes k m h.1)
]
lookup-first_nodes k ((j, a ∷ more) ∷ m) h = elim (Bool-cases (text_eq j k)) [
  | inl same ↦ rw same
  | inr other ↦ rw other (lookup-first_nodes k m h.1)
]

abbrev pub HasColon : Text → Type 0
HasColon s = contains_char b':' s ≡ true

abbrev pub AllHaveColon : Map (List Text) → Type 0
AllHaveColon = All (λ group. All HasColon group.1)

contains_char-append :
    (x : ℕ) (s t : Text) → contains_char x t ≡ true → contains_char x (s ++ t) ≡ true
contains_char-append x [] t h = h
contains_char-append x (c ∷ s) t h = ground (arith, contains_char-append x s t)

node_endpoint-HasColon :
    (service_host address : Text) → HasColon (node_endpoint service_host address)
unfolding node_endpoint
node_endpoint-HasColon service_host address =
    let host = if text_eq address (codes "{{sdpcHost}}") then service_host else address in
    elim (Bool-cases (contains_char b':' host)) [
      | inl given ↦ rw given given
      | inr bare ↦ rw bare (contains_char-append b':' host (codes ":441") refl)
    ]

node_addresses-HasColon :
    (service_host : Text) (addrs : List NodeAddress) (excluded : List Ipv4Addr)
    → All HasColon (node_addresses service_host addrs excluded).0
unfolding node_addresses
node_addresses-HasColon service_host [] excluded = tt
node_addresses-HasColon service_host (addr ∷ addrs) excluded =
    elim (Bool-cases (text_eq addr.kind (codes "wan"))) [
      | inl wan ↦ rw wan (
        node_endpoint-HasColon service_host addr.address,
        node_addresses-HasColon service_host addrs _,
      )
      | inr lan ↦ rw lan (node_addresses-HasColon service_host addrs excluded)
    ]

insert-AllHaveColon :
    (k : Text) (v : List Text) (m : Map (List Text))
    → All HasColon v
    → AllHaveColon m
    → AllHaveColon (insert k v m)
unfolding insert
insert-AllHaveColon k v [] hv hm = (hv, tt)
insert-AllHaveColon k v ((j, w) ∷ m) hv hm = elim (Bool-cases (text_eq j k)) [
  | inl same ↦ rw same (hv, hm.1)
  | inr other ↦ rw other (hm.0, insert-AllHaveColon k v m hv hm.1)
]

add_groups-valid :
    (service_host : Text) (entries : List NodeGroupEntry) (m : Map (List Text))
    (excluded : List Ipv4Addr)
    → HasUniqueKeys m
    → AllHaveColon m
    → HasUniqueKeys (add_groups service_host entries m excluded).0
      × AllHaveColon (add_groups service_host entries m excluded).0
unfolding add_groups
add_groups-valid service_host [] m excluded hu hc = (hu, hc)
add_groups-valid service_host (group ∷ entries) m excluded hu hc =
    let r = node_addresses service_host group.address_info excluded in
    add_groups-valid service_host entries (insert group.id r.0 m) r.1
      (insert-HasUniqueKeys group.id r.0 m hu)
      (insert-AllHaveColon group.id r.0 m
        (node_addresses-HasColon service_host group.address_info excluded) hc)

-- In a snapshot that `parse_resource` returns every node address contains a colon, and the best
-- node of a group is the group's first address: a group has one exactly when it has an address.
pub parse_resource-nodes :
    (parse_net : Text → Option (Ipv4Addr × Ipv4Addr)) (parsed : ClientResourceData)
    (service_host : Text) (snapshot : ResourceSnapshot)
    → parse_resource parse_net parsed service_host ≡ ok snapshot
    → AllHaveColon snapshot.node_groups
      × ((group : Text)
          → lookup group snapshot.best_nodes ≡ first_of (lookup group snapshot.node_groups))
unfolding parse_resource
parse_resource-nodes parse_net parsed service_host snapshot e =
    let r = add_groups service_host parsed.config.node_group_list [] [] in
    let (unique, colons) =
      add_groups-valid service_host parsed.config.node_group_list [] [] tt tt in
    elim (AtrResult-cases (add_app_info parse_net parsed.app_info empty_snapshot)) [
      | inl (s, parsed_apps) ↦
          let groups : snapshot.node_groups ≡ r.0 = ground (arith, parsed_apps) in
          let best : snapshot.best_nodes ≡ first_nodes r.0 = ground (arith, parsed_apps) in
          rw groups (colons, λ group. rw best (lookup-first_nodes group r.0 unique))
      | inr (f, fails) ↦ absurd (cc (fails, e))
    ]
