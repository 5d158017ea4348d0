-- ===== src/Tunnel/Ends.antt =====
-- The worker of a TCP tunnel drains a connection that ends in finitely many rounds: on the reads
-- of a `Reader`, which are finitely many, the fuel is enough.
use libreatrust.Base.{
  Bool, List, Option, [], arith, byte_at, codes, contains, false, if◌then◌else◌, none, not, refl,
  some, suc, true, zero, ℕ, ◌+◌, ◌<◌, ◌==◌, ◌∷◌, ◌≡◌, ◌≤◌,
}
use libreatrust.Stream.{
  Io, IoResult, Reader, byte_count, exact_loop, fail, failed, pure, read_sized, read_tunnel_exact,
  read_tunnel_exact_blocking, ready, stuck, ◌>>=◌,
}
use libreatrust.Error.{AtrError, err, ok}
use libreatrust.Stream.Ends.{
  Eats, Eats-first, Eats-if, Eats-none, Filled, exact_loop-Filled, read_blocking-Eats,
  read_sized-Eats,
}
use libreatrust.Tcp.{TcpFrameRead, control, is_pair, payload, read_tcp_body, read_tcp_frame}
use libreatrust.Tunnel.{DrainedTunnel, drain_loop, drain_tcp_tunnel_frames}

sized-Eats :
    {A : Type 0} (f : List ℕ → Io A) (events : Reader)
    → ((a : List ℕ) (rest : Reader) → Eats rest 0 (f a rest))
    → Eats events 0 ((read_sized >>= f) events)
sized-Eats f events hf =
    Eats-first read_sized f events 0
      (Eats-none events 2 (read_sized events) (read_sized-Eats events)) hf

exact-Eats :
    {A : Type 0} (n : ℕ) (f : List ℕ → Io A) (events : Reader)
    → ((a : List ℕ) (rest : Reader) → Eats rest 0 (f a rest))
    → Eats events 0 ((read_tunnel_exact_blocking n >>= f) events)
exact-Eats n f events hf =
    Eats-first (read_tunnel_exact_blocking n) f events 0
      (Eats-none events n (read_tunnel_exact_blocking n events) (read_blocking-Eats n events)) hf

checked :
    {A : Type 0} (b : Bool) (e : AtrError) (a : A) (rest : Reader)
    → Eats rest 0 ((if b then fail e else pure a) rest)
checked true e a rest = tt
checked false e a rest = omega arith

accepted :
    {A : Type 0} (b : Bool) (e : AtrError) (a : A) (rest : Reader)
    → Eats rest 0 ((if b then pure a else fail e) rest)
accepted true e a rest = omega arith
accepted false e a rest = tt

read_tcp_body-Eats :
    (header : List ℕ) (events : Reader) → Eats events 0 (read_tcp_body header events)
unfolding read_tcp_body
read_tcp_body-Eats header events =
    Eats-if (is_pair header 0x01 0x00) _ _ events 0 (sized-Eats _ events (λ a rest. omega arith)) (
      Eats-if (is_pair header 0x01 0x01) _ _ events 0
        (exact-Eats 2 _ events (λ a rest. checked (is_pair a 0x30 0x30) _ _ rest))
        (Eats-if (is_pair header 0x53 0x00) _ _ events 0
          (sized-Eats _ events (λ a rest. accepted (contains (codes "OK") a) _ _ rest))
          (Eats-if (is_pair header 0x05 0x81) _ _ events 0
            (exact-Eats 2 _ events (λ a rest.
              Eats-if (not (is_pair a 0x53 0x00)) _ _ rest 0 (omega arith)
                (sized-Eats _ rest (λ text last. checked _ _ _ last))))
            (Eats-if (byte_at header 0 == 0x05) _ _ events 0
              (exact-Eats 8 _ events (λ a rest. omega arith)) (omega arith)))))

-- A read of a frame ends with the reads, and one that finds a frame takes two bytes at least.
abbrev pub Framed : Reader → IoResult (Option TcpFrameRead) → Type 0
Framed events (ready (some f) rest) = 2 + byte_count rest ≤ byte_count events
Framed events (ready none rest) = Unit
Framed events (failed e) = Unit
Framed events stuck = ⊥

body-Framed :
    (events mid : Reader) (r : IoResult (Option TcpFrameRead))
    → 2 + byte_count mid ≤ byte_count events
    → Eats mid 0 r
    → Framed events r
body-Framed events mid (ready (some f) rest) h e = omega arith
body-Framed events mid (ready none rest) h e = tt
body-Framed events mid (failed d) h e = tt
body-Framed events mid stuck h e = e

pub read_tcp_frame-Framed : (events : Reader) → Framed events (read_tcp_frame events)
unfolding read_tcp_frame read_tunnel_exact
read_tcp_frame-Framed events = go (exact_loop events 2 []) refl (exact_loop-Filled events 2 [])
  where
    go :
        (r : IoResult (Option (List ℕ)))
        → exact_loop events 2 [] ≡ r
        → Filled events 2 r
        → Framed events (read_tcp_frame events)
    go (ready (some header) mid) e f =
        rw (e, ◌>>=◌)
          (body-Framed events mid (read_tcp_body header mid) f (read_tcp_body-Eats header mid))
    go (ready none mid) e f = rw (e, ◌>>=◌) tt
    go (failed d) e f = rw (e, ◌>>=◌) tt
    go stuck e f = absurd f

abbrev DrainEnds : ℕ → Bool → Reader → Type 0
DrainEnds rounds runs events = (d : DrainedTunnel) × (drain_loop rounds runs events ≡ some d)

drain_frame :
    (rounds : ℕ) (runs : Bool) (events rest : Reader) (bytes : List ℕ)
    → read_tcp_frame events ≡ ready (some (payload bytes)) rest
    → DrainEnds rounds runs rest
    → DrainEnds (suc rounds) runs events
unfolding drain_loop
drain_frame rounds true events rest bytes e (d, g) =
    (record d { sent = ok bytes ∷ d.sent }, rw (e, drain_loop) (rw g refl))
drain_frame rounds false events rest bytes e (d, g) =
    (record { goes_on = false; sent = []; stream = [] }, rw (e, drain_loop) refl)

drain_round :
    (rounds : ℕ) (runs : Bool) (events : Reader) (r : IoResult (Option TcpFrameRead))
    → read_tcp_frame events ≡ r
    → Framed events r
    → ((rest : Reader) → byte_count rest < byte_count events → DrainEnds rounds runs rest)
    → DrainEnds (suc rounds) runs events
unfolding drain_loop
drain_round rounds runs events (ready (some (payload bytes)) rest) e f again =
    drain_frame rounds runs events rest bytes e (again rest (omega arith))
drain_round rounds runs events (ready (some control) rest) e f again =
    let (d, g) = again rest (omega arith) in (d, rw (e, drain_loop) g)
drain_round rounds runs events (ready none rest) e f again =
    (record { goes_on = true; sent = []; stream = rest }, rw (e, drain_loop) refl)
drain_round rounds runs events (failed d) e f again = (
  record { goes_on = false; sent = if runs then err d ∷ [] else []; stream = [] },
  rw (e, drain_loop) refl,
)
drain_round rounds runs events stuck e f again = absurd f

drain_loop-ends :
    (rounds : ℕ) (runs : Bool) (events : Reader)
    → byte_count events < rounds
    → DrainEnds rounds runs events
drain_loop-ends zero runs events h = absurd (omega arith)
drain_loop-ends (suc rounds) runs events h =
    drain_round rounds runs events (read_tcp_frame events) refl (read_tcp_frame-Framed events)
      (λ rest less. drain_loop-ends rounds runs rest (omega arith))

-- On a connection that gives finitely many reads and is then closed, and whether or not the tunnel
-- still receives, `drain_tcp_tunnel_frames` ends with a result.
drain_tcp_tunnel_frames-ends :
    (runs : Bool) (events : Reader)
    → (d : DrainedTunnel) × (drain_tcp_tunnel_frames runs events ≡ some d)
unfolding drain_tcp_tunnel_frames
drain_tcp_tunnel_frames-ends runs events =
    drain_loop-ends (suc (byte_count events)) runs events (omega arith)
