-- ===== src/Examples/Queues.antt =====
-- transport.rs: the queue of a TCP tunnel and a UDP tunnel at concrete inputs.
use libreatrust.Base.{
  List, [], arith, concat, false, if◌then◌else◌, length, map, none, refl, some, true, ℕ, ◌++◌, ◌==◌,
  ◌∷◌, ◌≡◌,
}
use libreatrust.Stream.{Reader, chunk}
use libreatrust.Error.{AtrResult, err, literal, network_failed, ok}
use libreatrust.Types.{default_client_config}
use libreatrust.Client.{AtrClient}
use libreatrust.Packet.Udp.{parse_ipv4_udp_packet, udp_payload_if_match}
use libreatrust.Stream.Live.{IsLive, contents}
use libreatrust.Tcp.{chunks, chunks_loop, write_tcp_payload}
use libreatrust.Tunnel.{DrainedTunnel, drain_tcp_tunnel_frames}
use libreatrust.Tunnel.Draining.{Drains}
use libreatrust.Tunnel.Commands.{TcpTunnelCommand, drain_tcp_tunnel_commands, write_bytes}
use libreatrust.Tunnel.Commands.Order.{
  drain_tcp_tunnel_commands-frames, drain_tcp_tunnel_commands-tickets, payloads, tickets,
}
use libreatrust.Layer3.Tunnel.{new_tunnel}
use libreatrust.Udp.{UdpTunnel, take_packets}
use libreatrust.Udp.Delivery.{cut, matching, reads, reads-take_packets}

abbrev two_writes : List TcpTunnelCommand
two_writes = write_bytes 0 (7 ∷ 8 ∷ []) ∷ write_bytes 1 (9 ∷ []) ∷ []

abbrev sends_all : List (List ℕ) → AtrResult (Unit {0})
sends_all frames = ok tt

-- The bytes of both frames, cut inside the first.
abbrev split_frames : Reader
split_frames =
    chunk (0x01 ∷ 0x00 ∷ 0x00 ∷ []) ∷ chunk (0x02 ∷ 7 ∷ 8 ∷ 0x01 ∷ 0x00 ∷ 0x00 ∷ 0x01 ∷ 9 ∷ []) ∷ []

split_frames-IsLive : IsLive split_frames
split_frames-IsLive = (λ e. absurd (cc e), (λ e. absurd (cc e), tt))

two_writes-goes_on : (drain_tcp_tunnel_commands sends_all two_writes).goes_on ≡ true
unfolding drain_tcp_tunnel_commands
two_writes-goes_on = refl

split_frames-contents :
    contents split_frames ≡ concat (drain_tcp_tunnel_commands sends_all two_writes).written
unfolding drain_tcp_tunnel_commands write_tcp_payload chunks chunks_loop
split_frames-contents = refl

drain_tcp_tunnel_commands-frames_example :
    (pieces : List (List ℕ)) × (d : DrainedTunnel) × (concat pieces ≡ payloads two_writes)
    × (drain_tcp_tunnel_frames true split_frames ≡ some d)
    × Drains pieces d
drain_tcp_tunnel_commands-frames_example =
    drain_tcp_tunnel_commands-frames sends_all two_writes split_frames two_writes-goes_on
      split_frames-IsLive split_frames-contents

-- The second write fails, and the command behind it stays.
abbrev sends_one : List (List ℕ) → AtrResult (Unit {0})
sends_one frames =
    if length frames == 1 then ok tt else err (network_failed (literal "broken pipe"))

drain_tcp_tunnel_commands-tickets_example :
    map
        (λ a. a.0)
        (drain_tcp_tunnel_commands sends_one
          (write_bytes 0 (7 ∷ []) ∷ write_bytes 1 [] ∷ write_bytes 2 (9 ∷ []) ∷ [])).acks
      ++ tickets
          (drain_tcp_tunnel_commands sends_one
            (write_bytes 0 (7 ∷ []) ∷ write_bytes 1 [] ∷ write_bytes 2 (9 ∷ []) ∷ [])).left
    ≡ tickets (write_bytes 0 (7 ∷ []) ∷ write_bytes 1 [] ∷ write_bytes 2 (9 ∷ []) ∷ [])
drain_tcp_tunnel_commands-tickets_example =
    drain_tcp_tunnel_commands-tickets sends_one
      (write_bytes 0 (7 ∷ []) ∷ write_bytes 1 [] ∷ write_bytes 2 (9 ∷ []) ∷ [])

abbrev idle_client : AtrClient
idle_client = record {
  config = default_client_config;
  session = none;
  resource = none;
  resource_bytes = none;
}

-- A tunnel to 10.0.0.7:53, and a packet of its flow before one of another.
abbrev dns_tunnel : UdpTunnel
dns_tunnel = record {
  l3 = new_tunnel idle_client;
  local_ip = record { o0 = 10; o1 = 0; o2 = 0; o3 = 1 };
  local_port = 40000;
  remote_ip = record { o0 = 10; o1 = 0; o2 = 0; o3 = 7 };
  remote_port = 53;
  incoming = [];
  reader_runs = true;
  close_flag = false;
}

abbrev dns_header : List ℕ
dns_header =
    69 ∷ 0 ∷ 0 ∷ 30 ∷ 0 ∷ 0 ∷ 0 ∷ 0 ∷ 64 ∷ 17 ∷ 0 ∷ 0 ∷ 10 ∷ 0 ∷ 0 ∷ 7 ∷ 10 ∷ 0 ∷ 0 ∷ 1 ∷ []

abbrev dns_answer : List ℕ
dns_answer = dns_header ++ (0 ∷ 53 ∷ 156 ∷ 64 ∷ 0 ∷ 10 ∷ 0 ∷ 0 ∷ 5 ∷ 6 ∷ [])

abbrev other_answer : List ℕ
other_answer = dns_header ++ (0 ∷ 54 ∷ 156 ∷ 64 ∷ 0 ∷ 10 ∷ 0 ∷ 0 ∷ 5 ∷ 6 ∷ [])

one_matches : matching dns_tunnel (other_answer ∷ dns_answer ∷ []) ≡ (5 ∷ 6 ∷ []) ∷ []
unfolding matching udp_payload_if_match parse_ipv4_udp_packet
one_matches = refl

reads-take_packets_example :
    reads (1 ∷ []) (take_packets (other_answer ∷ dns_answer ∷ []) dns_tunnel)
    ≡ cut (1 ∷ []) (matching dns_tunnel (other_answer ∷ dns_answer ∷ []))
reads-take_packets_example =
    reads-take_packets (other_answer ∷ dns_answer ∷ []) (1 ∷ []) dns_tunnel refl refl
      (rw one_matches (omega arith))
