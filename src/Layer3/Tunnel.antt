-- ===== src/Layer3/Tunnel.antt =====
-- transport.rs: `L3Tunnel`, which sends each packet through the remote of the node group that its
-- destination is routed to.
pub mod Remotes
use libreatrust.Base.{
  Bool, Ipv4Addr, List, Option, Text, [], false, if◌then◌else◌, length, map, none, some, true, ℕ,
}
use libreatrust.Error.{AtrResult, about, err, invalid_state, literal, not_found, ok}
use libreatrust.Types.{RouteDecision, SessionMaterial, direct, icmp, managed, tcp, udp}
use libreatrust.Address.{ipv4_text}
use libreatrust.Map.{Map, insert, lookup, remove}
use libreatrust.Client.{AtrClient, best_node_for, route_icmp, route_tcp, route_udp}
use libreatrust.Conntrack.{PacketMeta, parse_packet_meta}
use libreatrust.Request.{Platform}
use libreatrust.Layer3.{
  L3Remote, Progress, begin_write, close_remote, finished, heartbeat, send_heartbeat, waits,
}

-- An `L3Tunnel` with its `L3TunnelState`, as one call finds it: the remotes, which others share,
-- are those of this moment.
pub record L3Tunnel : Type 0 where
  pub client : AtrClient
  pub remotes : Map L3Remote
  pub close_flag : Bool
  pub vip_list : List Ipv4Addr

-- `L3Tunnel::new`
abbrev pub new_tunnel : AtrClient → L3Tunnel
new_tunnel client = record { client = client; remotes = []; close_flag = false; vip_list = [] }

-- What a write gives: its result, or that it waits for a conntrack of the group's remote.
pub data WriteProgress : Type 0 where
  completed : AtrResult ℕ → WriteProgress
  pending : Text → ℕ → WriteProgress

-- `Ok(packet.len())` after a write that has ended.
abbrev pub sized_progress : Text → List ℕ → Progress → WriteProgress
sized_progress group packet (finished (err e)) = completed (err e)
sized_progress group packet (finished (ok u)) = completed (ok (length packet))
sized_progress group packet (waits id) = pending group id

-- The route of a packet, by the text of its destination.
unfoldable pub packet_route : AtrClient → PacketMeta → RouteDecision
packet_route client meta = elim meta.protocol [
  | tcp ↦ route_tcp client (ipv4_text meta.dst_ip) meta.dst_port
  | udp ↦ route_udp client (ipv4_text meta.dst_ip) meta.dst_port
  | icmp ↦ route_icmp client (ipv4_text meta.dst_ip)
]

abbrev pub renewed_vips : List Ipv4Addr → Option (List Ipv4Addr) → List Ipv4Addr
renewed_vips old none = old
renewed_vips old (some ips) = ips

-- `connect` is `L3Remote::connect`: a remote, and the virtual addresses where the node gave any.
module _ (platform : Platform)
    (connect : AtrClient
      → SessionMaterial
      → Text
      → AtrResult (L3Remote × Option (List Ipv4Addr))) where
  -- The end of `remote_for`, for a group that has no open remote.
  unfoldable pub connect_remote : Text → L3Tunnel → AtrResult L3Remote × L3Tunnel
  connect_remote group tunnel = elim (best_node_for tunnel.client group) [
    | none ↦ (err (not_found (about "no node for group " group)), tunnel)
    | some node ↦ elim tunnel.client.session [
      | none ↦ (err (invalid_state (literal "session not set")), tunnel)
      | some session ↦ elim (connect tunnel.client session node) [
        | err e ↦ (err e, tunnel)
        | ok opened ↦ (
          ok opened.0,
          record tunnel {
            remotes = insert group opened.0 tunnel.remotes;
            vip_list = renewed_vips tunnel.vip_list opened.1;
          },
        )
      ]
    ]
  ]

  -- `L3TunnelState::remote_for`: a closed remote is taken out before another is connected.
  unfoldable pub remote_for : Text → L3Tunnel → AtrResult L3Remote × L3Tunnel
  remote_for group tunnel =
      let again = connect_remote group (record tunnel { remotes = remove group tunnel.remotes }) in
      if tunnel.close_flag
      then (err (invalid_state (literal "l3 tunnel closed")), tunnel)
      else elim (lookup group tunnel.remotes) [
        | none ↦ connect_remote group tunnel
        | some remote ↦ if remote.close_flag then again else (ok remote, tunnel)
      ]

  -- A call of the group's remote, which stays in the map.
  unfoldable pub via_remote :
      Text → (L3Remote → WriteProgress × L3Remote) → L3Tunnel → WriteProgress × L3Tunnel
  via_remote group call tunnel =
      let found = remote_for group tunnel in
      elim found.0 [
        | err e ↦ (completed (err e), found.1)
        | ok remote ↦
            let called = call remote in
            (called.0, record found.1 { remotes = insert group called.1 (found.1).remotes })
      ]

  -- `L3Tunnel::write_packet`
  unfoldable pub write_packet : List ℕ → L3Tunnel → WriteProgress × L3Tunnel
  write_packet packet tunnel = elim (parse_packet_meta packet) [
    | err e ↦ (completed (err e), tunnel)
    | ok meta ↦ elim (packet_route tunnel.client meta) [
      | direct ↦ (
        completed (err (not_found (about "resource not managed for " (ipv4_text meta.dst_ip)))),
        tunnel,
      )
      | managed hit ↦
          via_remote hit.node_group_id
            (λ remote.
              let begun = begin_write platform meta hit.app_id packet remote in
              (sized_progress hit.node_group_id packet begun.0, begun.1))
            tunnel
    ]
  ]

  -- `L3Tunnel::send_heartbeat`, with the size of what it has sent.
  unfoldable pub tunnel_heartbeat : L3Tunnel → WriteProgress × L3Tunnel
  tunnel_heartbeat tunnel = elim tunnel.client.resource [
    | none ↦ (completed (err (invalid_state (literal "resource not set"))), tunnel)
    | some snapshot ↦
        via_remote snapshot.major_node_group
          (λ remote.
            let sent = send_heartbeat remote in
            (sized_progress snapshot.major_node_group heartbeat (finished sent.0), sent.1))
          tunnel
  ]

-- `L3Tunnel::close`: the remotes are drained from the map, and each is closed.
unfoldable pub close_tunnel : L3Tunnel → List L3Remote × L3Tunnel
close_tunnel tunnel = if tunnel.close_flag then ([], tunnel) else (
  map (λ e. close_remote e.1) tunnel.remotes,
  record tunnel { close_flag = true; remotes = [] },
)
