-- ===== src/Tcp/Patience.antt =====
-- transport.rs: what the silences of a server do to the reads of a TCP tunnel.
use libreatrust.Base.{
  Bool, List, [], ap, byte_at, codes, contains, false, length, not, refl, suc, sym, true, zero, ℕ,
  ◌&&◌, ◌+◌, ◌==◌, ◌∷◌, ◌≡◌, ◌≢◌,
}
use libreatrust.Stream.{
  IoResult, Reader, byte_count, chunk, failed, failure, read_sized, read_tunnel_exact_blocking,
  ready, stuck, would_block, ◌>>=◌,
}
use libreatrust.Error.{AtrResult, err, ok}
use libreatrust.Stream.Silence.{
  IsPatient, bind-IsPatient, heard, heard_result, if-IsPatient, read_blocking-IsPatient,
  read_sized-IsPatient,
}
use libreatrust.Tcp.{
  auth_loop, auth_round, auth_verdict, connect_status, is_pair, lift, read_tcp_body, says_ok,
  wait_for_tcp_connect_status,
}
use libreatrust.Tcp.Status.{wait_for_tcp_connect_status-ends}

judged-IsPatient : (text : List ℕ) → IsPatient (auth_verdict text)
unfolding auth_verdict
judged-IsPatient text = if-IsPatient (says_ok text) _ _ (λ events. refl) (λ events. refl)

sized-IsPatient : IsPatient (read_sized >>= auth_verdict)
sized-IsPatient = bind-IsPatient read_sized auth_verdict read_sized-IsPatient judged-IsPatient

auth_round-IsPatient : IsPatient auth_round
unfolding auth_round
auth_round-IsPatient =
    bind-IsPatient (read_tunnel_exact_blocking 2) _ (read_blocking-IsPatient 2) (λ header.
      if-IsPatient (is_pair header 0x53 0x00) _ _ sized-IsPatient (
        if-IsPatient (is_pair header 0x05 0x81) _ _
          (bind-IsPatient (read_tunnel_exact_blocking 2) _ (read_blocking-IsPatient 2) (λ marker.
            if-IsPatient (not (is_pair marker 0x53 0x00)) _ _ (λ events. refl) sized-IsPatient))
          (λ events. refl)))

auth_loop-round :
    (rounds : ℕ) (events : Reader) (r : IoResult Bool)
    → auth_round events ≡ r
    → auth_round (heard events) ≡ heard_result r
    → IsPatient (auth_loop rounds)
    → heard_result (auth_loop (suc rounds) events) ≡ auth_loop (suc rounds) (heard events)
unfolding auth_loop
auth_loop-round rounds events (ready true rest) e e' again =
    rw (e, auth_loop) (rw (e', auth_loop) refl)
auth_loop-round rounds events (ready false rest) e e' again =
    rw (e, auth_loop) (rw (e', auth_loop) (again rest))
auth_loop-round rounds events (failed d) e e' again = rw (e, auth_loop) (rw (e', auth_loop) refl)
auth_loop-round rounds events stuck e e' again = rw (e, auth_loop) (rw (e', auth_loop) refl)

auth_loop-IsPatient : (rounds : ℕ) → IsPatient (auth_loop rounds)
unfolding auth_loop
auth_loop-IsPatient zero events = refl
auth_loop-IsPatient (suc rounds) events =
    auth_loop-round rounds events (auth_round events) refl (sym (auth_round-IsPatient events))
      (auth_loop-IsPatient rounds)

lift-IsPatient : (r : AtrResult (Unit {0})) → IsPatient (lift r)
lift-IsPatient (ok a) events = refl
lift-IsPatient (err e) events = refl

byte_count-heard : (events : Reader) → byte_count (heard events) ≡ byte_count events
byte_count-heard [] = refl
byte_count-heard (would_block ∷ events) = byte_count-heard events
byte_count-heard (chunk bytes ∷ events) = ap (λ n. length bytes + n) (byte_count-heard events)
byte_count-heard (failure m ∷ events) = byte_count-heard events

-- On a connection that gives finitely many reads and is then closed, the wait for a tunnel's status
-- ends, and the silences of the server, wherever they stand among the reads and however long,
-- change nothing: the wait writes the same and gives the same result or failure as without them,
-- and leaves the same reads to come.
pub wait_for_tcp_connect_status-heard :
    (written : List ℕ) (events : Reader)
    → (wait_for_tcp_connect_status written events ≢ stuck)
      × (heard_result (wait_for_tcp_connect_status written events)
          ≡ wait_for_tcp_connect_status written (heard events))
unfolding wait_for_tcp_connect_status
wait_for_tcp_connect_status-heard written events = (
  wait_for_tcp_connect_status-ends written events,
  rw (byte_count-heard events) (
      bind-IsPatient (auth_loop (suc (byte_count events))) _
        (auth_loop-IsPatient (suc (byte_count events)))
        (λ over.
          bind-IsPatient (read_tunnel_exact_blocking 2) _ (read_blocking-IsPatient 2) (λ status.
            if-IsPatient (not (byte_at status 0 == 0x05)) _ _ (λ rest. refl)
              (bind-IsPatient (lift (connect_status (byte_at status 1))) _
                (lift-IsPatient (connect_status (byte_at status 1))) (λ connected rest. refl))))
        events),
)

pub read_tcp_body-IsPatient : (header : List ℕ) → IsPatient (read_tcp_body header)
unfolding read_tcp_body
read_tcp_body-IsPatient header =
    let tail : (n : ℕ) → IsPatient (read_tunnel_exact_blocking n) = read_blocking-IsPatient in
    if-IsPatient (is_pair header 0x01 0x00) _ _
      (bind-IsPatient read_sized _ read_sized-IsPatient (λ bytes events. refl))
      (if-IsPatient (is_pair header 0x01 0x01) _ _
        (bind-IsPatient (read_tunnel_exact_blocking 2) _ (tail 2)
          (λ two. if-IsPatient (is_pair two 0x30 0x30) _ _ (λ events. refl) (λ events. refl)))
        (if-IsPatient (is_pair header 0x53 0x00) _ _
          (bind-IsPatient read_sized _ read_sized-IsPatient (λ text.
            if-IsPatient (contains (codes "OK") text) _ _ (λ events. refl) (λ events. refl)))
          (if-IsPatient (is_pair header 0x05 0x81) _ _
            (bind-IsPatient (read_tunnel_exact_blocking 2) _ (tail 2) (λ marker.
              if-IsPatient (not (is_pair marker 0x53 0x00)) _ _ (λ events. refl)
                (bind-IsPatient read_sized _ read_sized-IsPatient (λ text.
                  if-IsPatient
                    (not (contains (codes "\"message\":\"OK\"") text)
                      && not (contains (codes "\"message\":\"Succeeded\"") text))
                    _ _ (λ events. refl) (λ events. refl)))))
            (if-IsPatient (byte_at header 0 == 0x05) _ _
              (bind-IsPatient (read_tunnel_exact_blocking 8) _ (tail 8) (λ eight events. refl))
              (λ events. refl)))))
