-- ===== src/Tunnel.antt =====
-- transport.rs: the bytes that `TcpTunnel::read` hands out, from its cache and from the channel
-- that the worker fills.
pub mod Reading
pub mod Draining
pub mod Ends
pub mod Patience
pub mod Commands
use libreatrust.Base.{
  Bool, List, Option, [], drop, false, if◌then◌else◌, length, ltb, none, some, suc, take, true,
  zero, ℕ, ◌++◌, ◌-◌, ◌==◌, ◌||◌, ◌∷◌,
}
use libreatrust.Stream.{Reader, byte_count, failed, ready, stuck}
use libreatrust.Error.{AtrResult, err, ok}
use libreatrust.Tcp.{control, payload, read_tcp_frame}

-- What `read` uses of a `TcpTunnel`: the bytes of `read_buf`, and the messages of `incoming_rx`,
-- those that the worker sends until it stops.
pub record TcpTunnel : Type 0 where
  pub read_buf : List ℕ
  pub incoming : List (AtrResult (List ℕ))

-- The end of `read`, after `copied` bytes from the cache: a message of the channel is taken, and
-- what does not fit is added to the cache. A channel that the worker has left gives no bytes.
unfoldable pub receive :
    ℕ → List ℕ → List ℕ → List (AtrResult (List ℕ)) → AtrResult (List ℕ) × TcpTunnel
receive size copied cached [] = (ok [], record { read_buf = cached; incoming = [] })
receive size copied cached (err e ∷ more) = (err e, record { read_buf = cached; incoming = more })
receive size copied cached (ok bytes ∷ more) =
    let remaining = size - length copied in
    (
      ok (copied ++ take remaining bytes),
      record { read_buf = cached ++ drop remaining bytes; incoming = more },
    )

-- `TcpTunnel::read` into a buffer of `size` bytes: the bytes copied, and the tunnel afterwards.
unfoldable pub read : ℕ → TcpTunnel → AtrResult (List ℕ) × TcpTunnel
unfolding receive
read size tunnel =
    let copied = take size tunnel.read_buf in
    let cached = drop size tunnel.read_buf in
    if ltb 0 (length copied) || length copied == size
    then (ok copied, record tunnel { read_buf = cached })
    else receive size copied cached tunnel.incoming

-- What `drain_tcp_tunnel_frames` returns: whether the worker goes on, what it has sent to
-- `incoming_tx`, and the connection afterwards, which is shut down where the worker stops.
pub record DrainedTunnel : Type 0 where
  pub goes_on : Bool
  pub sent : List (AtrResult (List ℕ))
  pub stream : Reader

abbrev pub send_first : AtrResult (List ℕ) → Option DrainedTunnel → Option DrainedTunnel
send_first message none = none
send_first message (some d) = some (record d { sent = message ∷ d.sent })

-- The loop of `drain_tcp_tunnel_frames`, where `runs` is whether `incoming_rx` still exists. It is
-- `none` where the rounds or the fuel of a read have run out.
unfoldable pub drain_loop : ℕ → Bool → Reader → Option DrainedTunnel
drain_loop zero runs events = none
drain_loop (suc rounds) runs events = elim (read_tcp_frame events) [
  | ready (some (payload bytes)) rest ↦
      let more = send_first (ok bytes) (drain_loop rounds runs rest) in
      if runs then more else some (record { goes_on = false; sent = []; stream = [] })
  | ready (some control) rest ↦ drain_loop rounds runs rest
  | ready none rest ↦ some (record { goes_on = true; sent = []; stream = rest })
  | failed e ↦
      some (record { goes_on = false; sent = if runs then err e ∷ [] else []; stream = [] })
  | stuck ↦ none
]

-- `drain_tcp_tunnel_frames`: every frame has two bytes at least.
unfoldable pub drain_tcp_tunnel_frames : Bool → Reader → Option DrainedTunnel
unfolding drain_loop
drain_tcp_tunnel_frames runs events = drain_loop (suc (byte_count events)) runs events
