-- ===== src/Tcp/Status.antt =====
-- transport.rs: `wait_for_tcp_connect_status` ends on a connection that ends.
use libreatrust.Base.{
  Bool, List, arith, byte_at, false, not, refl, suc, true, zero, ℕ, ◌+◌, ◌<◌, ◌==◌, ◌≡◌, ◌≢◌, ◌≤◌,
}
use libreatrust.Stream.{
  IoResult, Reader, byte_count, failed, read_sized, read_tunnel_exact_blocking, ready, stuck, ◌>>=◌,
}
use libreatrust.Error.{AtrResult, err, ok}
use libreatrust.Stream.Ends.{
  Eats, Eats-bind, Eats-ends, Eats-first, Eats-if, Eats-none, Eats-weaken, read_blocking-Eats,
  read_sized-Eats,
}
use libreatrust.Tcp.{
  auth_loop, auth_round, auth_verdict, connect_status, is_pair, lift, says_ok,
  wait_for_tcp_connect_status,
}

judged-Eats : (text : List ℕ) (rest : Reader) → Eats rest 0 (auth_verdict text rest)
unfolding auth_verdict
judged-Eats text rest = Eats-if (says_ok text) _ _ rest 0 (omega arith) tt

sized-Eats : (rest : Reader) → Eats rest 2 ((read_sized >>= auth_verdict) rest)
sized-Eats rest = Eats-first read_sized auth_verdict rest 2 (read_sized-Eats rest) judged-Eats

auth_round-Eats : (events : Reader) → Eats events 4 (auth_round events)
unfolding auth_round
auth_round-Eats events =
    Eats-bind (read_tunnel_exact_blocking 2) _ events 2 2 (read_blocking-Eats 2 events)
      (λ header rest. Eats-if (is_pair header 0x53 0x00) _ _ rest 2 (sized-Eats rest) (
        Eats-if (is_pair header 0x05 0x81) _ _ rest 2
          (Eats-first (read_tunnel_exact_blocking 2) _ rest 2 (read_blocking-Eats 2 rest)
            (λ marker rest'.
              Eats-if (not (is_pair marker 0x53 0x00)) _ _ rest' 0 (omega arith)
                (Eats-none rest' 2 _ (sized-Eats rest'))))
          tt))

auth_loop-round :
    (rounds : ℕ) (events : Reader) (r : IoResult Bool)
    → auth_round events ≡ r
    → Eats events 4 r
    → ((rest : Reader)
        → 4 + byte_count rest ≤ byte_count events
        → Eats rest 0 (auth_loop rounds rest))
    → Eats events 0 (auth_loop (suc rounds) events)
unfolding auth_loop
auth_loop-round rounds events (ready true rest) e h again = rw (e, Eats) (omega arith)
auth_loop-round rounds events (ready false rest) e h again =
    rw (e, Eats) (Eats-weaken rest events 0 0 (auth_loop rounds rest) (omega arith) (again rest h))
auth_loop-round rounds events (failed d) e h again = rw (e, Eats) tt
auth_loop-round rounds events stuck e h again = absurd h

auth_loop-Eats :
    (rounds : ℕ) (events : Reader)
    → byte_count events < rounds
    → Eats events 0 (auth_loop rounds events)
auth_loop-Eats zero events h = absurd (omega arith)
auth_loop-Eats (suc rounds) events h =
    auth_loop-round rounds events (auth_round events) refl (auth_round-Eats events)
      (λ rest less. auth_loop-Eats rounds rest (omega arith))

lift-Eats : (r : AtrResult (Unit {0})) (events : Reader) → Eats events 0 (lift r events)
lift-Eats (ok a) events = omega arith
lift-Eats (err e) events = tt

wait-Eats :
    (written : List ℕ) (events : Reader)
    → Eats events 0 (wait_for_tcp_connect_status written events)
unfolding wait_for_tcp_connect_status
wait-Eats written events =
    Eats-first (auth_loop (suc (byte_count events))) _ events 0
      (auth_loop-Eats (suc (byte_count events)) events (omega arith))
      (λ over rest. Eats-none rest 2 _ (
        Eats-first (read_tunnel_exact_blocking 2) _ rest 2 (read_blocking-Eats 2 rest)
          (λ status rest'. Eats-if (not (byte_at status 0 == 0x05)) _ _ rest' 0 tt (
            Eats-first (lift (connect_status (byte_at status 1))) _ rest' 0
              (lift-Eats (connect_status (byte_at status 1)) rest') (λ c rest''. omega arith)))))

-- On a connection that gives finitely many reads and is then closed, the wait for a tunnel's status
-- ends, with a result or a failure.
pub wait_for_tcp_connect_status-ends :
    (written : List ℕ) (events : Reader) → wait_for_tcp_connect_status written events ≢ stuck
wait_for_tcp_connect_status-ends written events = Eats-ends events 0 _ (wait-Eats written events)
