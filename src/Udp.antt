-- ===== src/Udp.antt =====
-- transport.rs: `UdpTunnel`, the datagrams of one flow over a layer-3 tunnel.
pub mod Delivery
use libreatrust.Base.{
  Bool, Ipv4Addr, List, Option, Text, [], false, if◌then◌else◌, length, none, some, take, true, ℕ,
  ◌++◌, ◌∷◌,
}
use libreatrust.Error.{
  AtrError, AtrResult, about, err, invalid_state, literal, network_failed, not_found, ok, ◌>>=◌,
}
use libreatrust.Types.{SessionMaterial, direct, managed}
use libreatrust.Decimal.{decimal}
use libreatrust.Client.{AtrClient, route_udp}
use libreatrust.Packet.Udp.{build_udp_ipv4_packet, udp_payload_if_match}
use libreatrust.Keepalive.{pick_local_ip, pick_local_port}
use libreatrust.Request.{Platform}
use libreatrust.Layer3.{L3Remote}
use libreatrust.Layer3.Tunnel.{
  L3Tunnel, WriteProgress, close_tunnel, completed, connect_remote, new_tunnel, pending,
  write_packet,
}

-- A `UdpTunnel`, with the payloads that its reading thread has sent on, and whether this thread
-- still runs.
pub record UdpTunnel : Type 0 where
  pub l3 : L3Tunnel
  pub local_ip : Ipv4Addr
  pub local_port : ℕ
  pub remote_ip : Ipv4Addr
  pub remote_port : ℕ
  pub incoming : List (List ℕ)
  pub reader_runs : Bool
  pub close_flag : Bool

-- `UdpTunnel::connect`, where `resolve_ipv4` asks the resolver.
unfoldable pub connect : (Text → AtrResult Ipv4Addr) → AtrClient → Text → ℕ → AtrResult UdpTunnel
connect resolve_ipv4 client host port = elim (route_udp client host port) [
  | direct ↦ err (not_found (about "resource not managed for " (host ++ (b':' ∷ decimal port))))
  | managed hit ↦ (do
    remote_ip ← resolve_ipv4 host
    ok (record {
      l3 = new_tunnel client;
      local_ip = pick_local_ip remote_ip;
      local_port = pick_local_port host port;
      remote_ip = remote_ip;
      remote_port = port;
      incoming = [];
      reader_runs = true;
      close_flag = false;
    }))
]

-- A round of the reading thread: what it takes of a packet of the layer-3 tunnel.
unfoldable pub take_packet : List ℕ → UdpTunnel → UdpTunnel
take_packet packet tunnel =
    if tunnel.close_flag
    then record tunnel { reader_runs = false }
    else elim (udp_payload_if_match packet tunnel.local_ip tunnel.local_port tunnel.remote_ip
        tunnel.remote_port) [
          | none ↦ tunnel
          | some payload ↦ record tunnel { incoming = tunnel.incoming ++ (payload ∷ []) }
        ]

-- The packets that the reading thread takes one after another.
unfoldable pub take_packets : List (List ℕ) → UdpTunnel → UdpTunnel
take_packets [] tunnel = tunnel
take_packets (packet ∷ packets) tunnel = take_packets packets (take_packet packet tunnel)

-- What a read gives: its result, or that it waits.
pub data UdpRead : Type 0 where
  received : AtrResult (List ℕ) → UdpRead
  waiting : UdpRead

abbrev pub udp_closed : AtrError
udp_closed = network_failed (literal "udp tunnel closed")

-- A round of `UdpTunnel::read`, into a buffer of `size` bytes.
unfoldable pub read_datagram : ℕ → UdpTunnel → UdpRead × UdpTunnel
read_datagram size tunnel =
    if tunnel.close_flag then (received (err udp_closed), tunnel) else elim tunnel.incoming [
      | [] ↦ (if tunnel.reader_runs then waiting else received (err udp_closed), tunnel)
      | payload ∷ more ↦ (received (ok (take size payload)), record tunnel { incoming = more })
    ]

-- `Ok(data.len())` where the packet has been written.
abbrev pub datagram_size : List ℕ → WriteProgress → WriteProgress
datagram_size bytes (completed (err e)) = completed (err e)
datagram_size bytes (completed (ok n)) = completed (ok (length bytes))
datagram_size bytes (pending group id) = pending group id

module _ (platform : Platform)
    (connect_remote : AtrClient
      → SessionMaterial
      → Text
      → AtrResult (L3Remote × Option (List Ipv4Addr))) where
  -- `UdpTunnel::write`
  unfoldable pub write_datagram : List ℕ → UdpTunnel → WriteProgress × UdpTunnel
  write_datagram bytes tunnel =
      if tunnel.close_flag
      then (completed (err (invalid_state (literal "udp tunnel closed"))), tunnel)
      else elim (build_udp_ipv4_packet tunnel.local_ip tunnel.local_port tunnel.remote_ip
          tunnel.remote_port bytes) [
            | err e ↦ (completed (err e), tunnel)
            | ok packet ↦
                let written = write_packet platform connect_remote packet tunnel.l3 in
                (datagram_size bytes written.0, record tunnel { l3 = written.1 })
          ]

-- `UdpTunnel::close`
unfoldable pub close_datagrams : UdpTunnel → UdpTunnel
close_datagrams tunnel =
    if tunnel.close_flag
    then tunnel
    else record tunnel { close_flag = true; l3 = (close_tunnel tunnel.l3).1 }
