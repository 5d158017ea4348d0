-- ===== src/Udp/Delivery.antt =====
-- transport.rs: which datagrams a `UdpTunnel` hands out.
use libreatrust.Base.{
  List, Option, [], ap, append-nil, append_assoc, arith, false, if_false, length, none, refl, some,
  sym, take, ℕ, ◌++◌, ◌∙◌, ◌∷◌, ◌≡◌, ◌≤◌,
}
use libreatrust.Error.{ok}
use libreatrust.Packet.Udp.{udp_payload_if_match}
use libreatrust.Udp.{UdpRead, UdpTunnel, read_datagram, received, take_packet, take_packets}

-- The payloads of the packets that belong to the tunnel's flow.
unfoldable pub matching : UdpTunnel → List (List ℕ) → List (List ℕ)
matching tunnel [] = []
matching tunnel (packet ∷ packets) =
    let rest = matching tunnel packets in
    elim (udp_payload_if_match packet tunnel.local_ip tunnel.local_port tunnel.remote_ip
      tunnel.remote_port) [ none ↦ rest | some payload ↦ payload ∷ rest ]

-- Reads into buffers of the given sizes, and the datagrams that they gave.
unfoldable pub reads : List ℕ → UdpTunnel → List UdpRead
reads [] tunnel = []
reads (size ∷ sizes) tunnel = let one = read_datagram size tunnel in one.0 ∷ reads sizes one.1

-- The datagrams as the buffers cut them.
abbrev pub cut : List ℕ → List (List ℕ) → List UdpRead
cut [] payloads = []
cut (size ∷ sizes) [] = []
cut (size ∷ sizes) (payload ∷ payloads) = received (ok (take size payload)) ∷ cut sizes payloads

take_packets-matching :
    (packets : List (List ℕ)) (tunnel : UdpTunnel)
    → tunnel.close_flag ≡ false
    → take_packets packets tunnel
      ≡ record tunnel { incoming = tunnel.incoming ++ matching tunnel packets }
unfolding take_packets matching take_packet
take_packets-matching [] tunnel opened =
    ap (λ incoming. record tunnel { incoming = incoming }) (sym (append-nil tunnel.incoming))
take_packets-matching (packet ∷ packets) tunnel opened =
    let step : take_packet packet tunnel ≡ _ = if_false tunnel.close_flag _ _ opened in
    ap (take_packets packets) step
    ∙ after (λ t e. take_packets-matching packets t e)
        (udp_payload_if_match packet tunnel.local_ip tunnel.local_port tunnel.remote_ip
          tunnel.remote_port)
  where
    after :
        (ih : (t : UdpTunnel)
          → t.close_flag ≡ false
          → take_packets packets t ≡ record t { incoming = t.incoming ++ matching t packets })
        (found : Option (List ℕ))
        → take_packets packets (elim found as (λ f. UdpTunnel) [
          | none ↦ tunnel
          | some payload ↦ record tunnel { incoming = tunnel.incoming ++ (payload ∷ []) }
        ])
          ≡ record tunnel {
            incoming = tunnel.incoming ++ (elim found as (λ f. List (List ℕ)) [
              | none ↦ matching tunnel packets
              | some payload ↦ payload ∷ matching tunnel packets
            ]);
          }
    after ih none = ih tunnel opened
    after ih (some payload) =
        ih (record tunnel { incoming = tunnel.incoming ++ (payload ∷ []) }) opened
        ∙ ap (λ incoming. record tunnel { incoming = incoming })
            (append_assoc tunnel.incoming (payload ∷ []) (matching tunnel packets))

read_front :
    (size : ℕ) (payload : List ℕ) (payloads : List (List ℕ)) (tunnel : UdpTunnel)
    → tunnel.close_flag ≡ false
    → tunnel.incoming ≡ payload ∷ payloads
    → read_datagram size tunnel
      ≡ (received (ok (take size payload)), record tunnel { incoming = payloads })
unfolding read_datagram
read_front size payload payloads tunnel opened e =
    if_false tunnel.close_flag _ _ opened ∙ rw (e, read_datagram) refl

reads-cut :
    (sizes : List ℕ) (payloads : List (List ℕ)) (tunnel : UdpTunnel)
    → length sizes ≤ length payloads
    → tunnel.close_flag ≡ false
    → tunnel.incoming ≡ payloads
    → reads sizes tunnel ≡ cut sizes payloads
unfolding reads
reads-cut [] payloads tunnel h opened e = refl
reads-cut (size ∷ sizes) [] tunnel h opened e = absurd (omega arith)
reads-cut (size ∷ sizes) (payload ∷ payloads) tunnel h opened e =
    let one : read_datagram size tunnel
        ≡ (received (ok (take size payload)), record tunnel { incoming = payloads }) =
      read_front size payload payloads tunnel opened e in
    let rest =
      reads-cut sizes payloads (record tunnel { incoming = payloads }) (omega arith) opened refl in
    ap (λ r. r.0 ∷ reads sizes r.1) one ∙ ap (λ t. received (ok (take size payload)) ∷ t) rest

-- From an open tunnel whose queue is empty, reads give the payloads of the packets that belong to
-- the tunnel's flow, one for each read, in the order of the packets, each cut to the reader's
-- buffer; the other packets are left out.
pub reads-take_packets :
    (packets : List (List ℕ)) (sizes : List ℕ) (tunnel : UdpTunnel)
    → tunnel.close_flag ≡ false
    → tunnel.incoming ≡ []
    → length sizes ≤ length (matching tunnel packets)
    → reads sizes (take_packets packets tunnel) ≡ cut sizes (matching tunnel packets)
reads-take_packets packets sizes tunnel opened empty h =
    ap (reads sizes) (take_packets-matching packets tunnel opened)
    ∙ reads-cut sizes (matching tunnel packets)
        (record tunnel { incoming = tunnel.incoming ++ matching tunnel packets }) h opened
        (ap (λ t. t ++ matching tunnel packets) empty)
