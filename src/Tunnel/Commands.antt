-- ===== src/Tunnel/Commands.antt =====
-- transport.rs: `TcpTunnel::write`, `TcpTunnel::close` and `drain_tcp_tunnel_commands`, with the
-- queue between the callers and the worker.
pub mod Order
use libreatrust.Base.{
  Bool, List, Option, [], false, if◌then◌else◌, is_empty, none, some, suc, true, ℕ, ◌++◌, ◌==◌, ◌∷◌,
}
use libreatrust.Error.{AtrError, AtrResult, err, invalid_state, literal, network_failed, ok}
use libreatrust.Tcp.{write_tcp_payload}

-- `TcpTunnelCommand`, where a write carries the number of the channel for its answer.
pub data TcpTunnelCommand : Type 0 where
  write_bytes : ℕ → List ℕ → TcpTunnelCommand
  close_tunnel : TcpTunnelCommand

-- What the writers of a `TcpTunnel` share: the queue of `write_tx`, the number of the next channel
-- for an answer, the answers sent, whether the tunnel is closed, and whether the worker runs.
pub record TunnelWrites : Type 0 where
  pub commands : List TcpTunnelCommand
  pub next_ticket : ℕ
  pub acks : List (ℕ × AtrResult ℕ)
  pub closed : Bool
  pub worker_runs : Bool

-- What a write gives: its result, or the number of the channel on which it waits.
pub data Answer : Type 0 where
  answer : AtrResult ℕ → Answer
  awaits : ℕ → Answer

abbrev pub worker_stopped : AtrError
worker_stopped = network_failed (literal "tcp tunnel worker stopped")

-- `TcpTunnel::write` up to its wait
unfoldable pub write : List ℕ → TunnelWrites → Answer × TunnelWrites
write bytes tunnel =
    let ticket = tunnel.next_ticket in
    if is_empty bytes
    then (answer (ok 0), tunnel)
    else if tunnel.closed
    then (answer (err (invalid_state (literal "tcp tunnel closed"))), tunnel)
    else if tunnel.worker_runs
    then (
      awaits ticket,
      record tunnel {
        commands = tunnel.commands ++ (write_bytes ticket bytes ∷ []);
        next_ticket = suc ticket;
      },
    )
    else (answer (err worker_stopped), tunnel)

unfoldable pub find_ack : ℕ → List (ℕ × AtrResult ℕ) → Option (AtrResult ℕ)
find_ack ticket [] = none
find_ack ticket ((t, result) ∷ acks) = if t == ticket then some result else find_ack ticket acks

-- The `ack_rx.recv` of `write`: a channel that the worker has dropped gives an error.
unfoldable pub await : ℕ → TunnelWrites → Answer
await ticket tunnel = elim (find_ack ticket tunnel.acks) [
  | some result ↦ answer result
  | none ↦ if tunnel.worker_runs then awaits ticket else answer (err worker_stopped)
]

-- `TcpTunnel::close`, less its wait for the worker's end.
unfoldable pub close : TunnelWrites → TunnelWrites
close tunnel = if tunnel.closed then tunnel else record tunnel {
  closed = true;
  commands = if tunnel.worker_runs then tunnel.commands ++ (close_tunnel ∷ []) else tunnel.commands;
}

abbrev pub close_frame : List ℕ
close_frame = 0x01 ∷ 0x01 ∷ 0x00 ∷ 0x00 ∷ []

-- What `drain_tcp_tunnel_commands` returns and does: whether the worker goes on, the frames that
-- have been written whole, the answers sent, and the commands left.
pub record DrainedWrites : Type 0 where
  pub goes_on : Bool
  pub written : List (List ℕ)
  pub acks : List (ℕ × AtrResult ℕ)
  pub left : List TcpTunnelCommand

-- `drain_tcp_tunnel_commands`, where `send` is what writing frames to the stream gives.
unfoldable pub drain_tcp_tunnel_commands :
    (List (List ℕ) → AtrResult (Unit {0})) → List TcpTunnelCommand → DrainedWrites
drain_tcp_tunnel_commands send [] = record { goes_on = true; written = []; acks = []; left = [] }
drain_tcp_tunnel_commands send (close_tunnel ∷ commands) = record {
  goes_on = false;
  written = elim (send (close_frame ∷ [])) [ ok u ↦ close_frame ∷ [] | err e ↦ [] ];
  acks = [];
  left = commands;
}
drain_tcp_tunnel_commands send (write_bytes ticket bytes ∷ commands) =
    let frames = write_tcp_payload bytes in
    elim (send frames.0) [
      | err e ↦ record {
        goes_on = false;
        written = [];
        acks = (ticket, err e) ∷ [];
        left = commands;
      }
      | ok u ↦
          let rest = drain_tcp_tunnel_commands send commands in
          record rest {
            written = frames.0 ++ rest.written;
            acks = (ticket, ok frames.1) ∷ rest.acks;
          }
    ]
