-- ===== src/Tunnel/Commands/Order.antt =====
-- transport.rs: the order in which the worker of a TCP tunnel takes the writes.
use libreatrust.Base.{
  All, List, [], ap, append_assoc, ap₂, concat, inl, inr, map, refl, some, sym, true, ℕ, ◌++◌, ◌∙◌,
  ◌∷◌, ◌≡◌,
}
use libreatrust.Stream.{Reader}
use libreatrust.Error.{AtrResult, AtrResult-cases}
use libreatrust.Stream.Live.{IsLive, contents}
use libreatrust.Tcp.{data_frame, write_tcp_payload}
use libreatrust.Tcp.Write.{Fits, write_tcp_payload-pieces}
use libreatrust.Tunnel.{DrainedTunnel, drain_tcp_tunnel_frames}
use libreatrust.Tunnel.Draining.{Drains, drain_tcp_tunnel_frames-pieces}
use libreatrust.Tunnel.Commands.{
  TcpTunnelCommand, close_tunnel, drain_tcp_tunnel_commands, write_bytes,
}
use libreatrust.Layer3.Steps.Grants.{All-append}

abbrev pub tickets : List TcpTunnelCommand → List ℕ
tickets [] = []
tickets (close_tunnel ∷ commands) = tickets commands
tickets (write_bytes ticket bytes ∷ commands) = ticket ∷ tickets commands

abbrev pub payloads : List TcpTunnelCommand → List ℕ
payloads [] = []
payloads (close_tunnel ∷ commands) = payloads commands
payloads (write_bytes ticket bytes ∷ commands) = bytes ++ payloads commands

concat-append : (xs ys : List (List ℕ)) → concat (xs ++ ys) ≡ concat xs ++ concat ys
concat-append [] ys = refl
concat-append (x ∷ xs) ys =
    ap (λ t. x ++ t) (concat-append xs ys) ∙ sym (append_assoc x (concat xs) (concat ys))

map-append :
    (xs ys : List (List ℕ)) → map data_frame (xs ++ ys) ≡ map data_frame xs ++ map data_frame ys
map-append [] ys = refl
map-append (x ∷ xs) ys = ap (λ t. data_frame x ∷ t) (map-append xs ys)

-- The answers and the commands left make up the queue, in its order: no write is answered twice,
-- and none is lost.
pub drain_tcp_tunnel_commands-tickets :
    (send : List (List ℕ) → AtrResult (Unit {0})) (commands : List TcpTunnelCommand)
    → let drained = drain_tcp_tunnel_commands send commands in
      map (λ a. a.0) drained.acks ++ tickets drained.left ≡ tickets commands
unfolding drain_tcp_tunnel_commands
drain_tcp_tunnel_commands-tickets send [] = refl
drain_tcp_tunnel_commands-tickets send (close_tunnel ∷ commands) = refl
drain_tcp_tunnel_commands-tickets send (write_bytes ticket bytes ∷ commands) =
    let ih = drain_tcp_tunnel_commands-tickets send commands in
    elim (AtrResult-cases (send (write_tcp_payload bytes).0)) [
      | inr (d, e) ↦ rw (e, drain_tcp_tunnel_commands) refl
      | inl (u, e) ↦ rw (e, drain_tcp_tunnel_commands) (ap (λ ts. ticket ∷ ts) ih)
    ]

-- The frames of the payloads of a queue.
abbrev Carries : List (List ℕ) → List TcpTunnelCommand → Type 0
Carries frames commands =
    (pieces : List (List ℕ)) × (frames ≡ map data_frame pieces)
    × (concat pieces ≡ payloads commands)
    × All Fits pieces

Carries-write :
    (ticket : ℕ) (bytes : List ℕ) (frames : List (List ℕ)) (commands : List TcpTunnelCommand)
    → Carries frames commands
    → Carries ((write_tcp_payload bytes).0 ++ frames) (write_bytes ticket bytes ∷ commands)
Carries-write ticket bytes frames commands (pieces, e, joined, fits) =
    let front = write_tcp_payload-pieces bytes in
    (
      front.0 ++ pieces,
      ap₂ (λ a b. a ++ b) (ap (λ r. r.0) front.1) e ∙ sym (map-append front.0 pieces),
      concat-append front.0 pieces ∙ ap₂ (λ a b. a ++ b) front.2 joined,
      All-append Fits front.0 pieces front.3 fits,
    )

goes_on-Carries :
    (send : List (List ℕ) → AtrResult (Unit {0})) (commands : List TcpTunnelCommand)
    → let drained = drain_tcp_tunnel_commands send commands in
      drained.goes_on ≡ true → Carries drained.written commands
unfolding drain_tcp_tunnel_commands
goes_on-Carries send [] = λ on. ([], refl, refl, tt)
goes_on-Carries send (close_tunnel ∷ commands) = λ on. absurd (cc on)
goes_on-Carries send (write_bytes ticket bytes ∷ commands) =
    let ih = goes_on-Carries send commands in
    elim (AtrResult-cases (send (write_tcp_payload bytes).0)) [
      | inr (d, e) ↦ rw (e, drain_tcp_tunnel_commands) (λ on. absurd (cc on))
      | inl (u, e) ↦
          rw (e, drain_tcp_tunnel_commands) (λ on. Carries-write ticket bytes _ commands (ih on))
    ]

-- Where the worker goes on after a round of commands, and a live connection gives exactly the
-- bytes of the frames that it has written, in any pieces, `drain_tcp_tunnel_frames` on that
-- connection hands out the payloads of the writes in the order of the queue, as far as it has
-- come.
pub drain_tcp_tunnel_commands-frames :
    (send : List (List ℕ) → AtrResult (Unit {0})) (commands : List TcpTunnelCommand)
    (events : Reader)
    → let drained = drain_tcp_tunnel_commands send commands in
      drained.goes_on ≡ true
      → IsLive events
      → contents events ≡ concat drained.written
      → (pieces : List (List ℕ)) × (d : DrainedTunnel) × (concat pieces ≡ payloads commands)
        × (drain_tcp_tunnel_frames true events ≡ some d)
        × Drains pieces d
drain_tcp_tunnel_commands-frames send commands events on live e =
    let (pieces, frames, joined, fits) = goes_on-Carries send commands on in
    let (d, drained, drains) =
      drain_tcp_tunnel_frames-pieces pieces events live fits (e ∙ ap concat frames) in
    (pieces, d, joined, drained, drains)
