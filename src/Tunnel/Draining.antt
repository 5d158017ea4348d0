-- ===== src/Tunnel/Draining.antt =====
-- What the worker of a TCP tunnel sends on when frames are to come.
use libreatrust.Base.{
  All, List, [], ap, arith, concat, false, inl, inr, length, length-append, map, none, refl, some,
  suc, true, zero, ℕ, ◌++◌, ◌<◌, ◌∙◌, ◌∷◌, ◌≡◌, ◌≤◌, ◌⊎◌,
}
use libreatrust.Stream.{
  Reader, byte_count, chunk, closed_error, exact_loop, failure, read_tunnel_exact, ready,
  would_block,
}
use libreatrust.Error.{err, ok}
use libreatrust.Stream.Live.{IsLive, contents}
use libreatrust.Tcp.{data_frame, payload, read_tcp_frame}
use libreatrust.Tcp.Write.{Fits}
use libreatrust.Tcp.Read.{read_tcp_frame-data}
use libreatrust.Tunnel.{DrainedTunnel, drain_loop, drain_tcp_tunnel_frames}

byte_count-contents :
    (events : Reader) → IsLive events → byte_count events ≡ length (contents events)
byte_count-contents [] live = refl
byte_count-contents (chunk bytes ∷ events) live =
    omega (arith, byte_count-contents events live.1, length-append bytes (contents events))
byte_count-contents (would_block ∷ events) live = byte_count-contents events live
byte_count-contents (failure m ∷ events) live = absurd live

frames_length : (pieces : List (List ℕ)) → length pieces ≤ length (concat (map data_frame pieces))
frames_length [] = omega arith
frames_length (p ∷ pieces) =
    omega
      (arith, frames_length pieces, length-append (data_frame p) (concat (map data_frame pieces)))

-- The frames up to the first delay have been sent on, and the worker goes on with the others; or
-- all have been sent on, and then that the peer has closed.
pub record Drains (pieces : List (List ℕ)) (d : DrainedTunnel) : Type 0 where
  pub sent_pieces : List (List ℕ)
  pub later : List (List ℕ)
  pub split : pieces ≡ sent_pieces ++ later
  pub outcome :
      ((d.goes_on ≡ true)
        × (d.sent ≡ map ok sent_pieces)
        × IsLive d.stream
        × (contents d.stream ≡ concat (map data_frame later)))
      ⊎ ((d.goes_on ≡ false)
          × (later ≡ [])
          × (d.sent ≡ map ok sent_pieces ++ (err (closed_error []) ∷ [])))

Drains-send :
    (p : List ℕ) (pieces : List (List ℕ)) (d : DrainedTunnel)
    → Drains pieces d
    → Drains (p ∷ pieces) (record d { sent = ok p ∷ d.sent })
Drains-send p pieces d h = record {
  sent_pieces = p ∷ h.sent_pieces;
  later = h.later;
  split = ap (λ t. p ∷ t) h.split;
  outcome = elim h.outcome [
    | inl (g, s, live, c) ↦ inl (g, ap (λ t. ok p ∷ t) s, live, c)
    | inr (g, l, s) ↦ inr (g, l, ap (λ t. ok p ∷ t) s)
  ];
}

drain_end :
    (rounds : ℕ) (events : Reader)
    → IsLive events
    → contents events ≡ []
    → (d : DrainedTunnel) × (drain_loop (suc rounds) true events ≡ some d) × Drains [] d
unfolding drain_loop read_tcp_frame read_tunnel_exact exact_loop
drain_end rounds [] live e = (
  _,
  refl,
  record { sent_pieces = []; later = []; split = refl; outcome = inr (refl, refl, refl) },
)
drain_end rounds (chunk [] ∷ events) live e = absurd (live.0 refl)
drain_end rounds (chunk (b ∷ bytes) ∷ events) live e =
    let clash : b ∷ (bytes ++ contents events) ≡ [] = e in absurd (cc clash)
drain_end rounds (would_block ∷ events) live e = (
  _,
  refl,
  record { sent_pieces = []; later = []; split = refl; outcome = inl (refl, refl, live, e) },
)
drain_end rounds (failure m ∷ events) live e = absurd live

drain_frame :
    (rounds : ℕ) (events mid : Reader) (p : List ℕ) (d : DrainedTunnel)
    → read_tcp_frame events ≡ ready (some (payload p)) mid
    → drain_loop rounds true mid ≡ some d
    → drain_loop (suc rounds) true events ≡ some (record d { sent = ok p ∷ d.sent })
unfolding drain_loop
drain_frame rounds events mid p d r g = rw (r, drain_loop) (rw g refl)

drain_wait :
    (rounds : ℕ) (events mid : Reader)
    → read_tcp_frame events ≡ ready none mid
    → drain_loop (suc rounds) true events
      ≡ some (record { goes_on = true; sent = []; stream = mid })
unfolding drain_loop
drain_wait rounds events mid r = rw (r, drain_loop) refl

drain_loop-frames :
    (pieces : List (List ℕ)) (rounds : ℕ) (events : Reader)
    → length pieces < rounds
    → IsLive events
    → All Fits pieces
    → contents events ≡ concat (map data_frame pieces)
    → (d : DrainedTunnel) × (drain_loop rounds true events ≡ some d) × Drains pieces d
drain_loop-frames pieces zero events h live fits e = absurd (omega arith)
drain_loop-frames [] (suc rounds) events h live fits e = drain_end rounds events live e
drain_loop-frames (p ∷ pieces) (suc rounds) events h live fits e =
    elim (read_tcp_frame-data events p (concat (map data_frame pieces)) live fits.0.1 e) [
      | inl (mid, r, t) ↦
          let (d, g, drained) =
            drain_loop-frames pieces rounds mid (omega arith) t.live fits.1 t.left in
          (
            record d { sent = ok p ∷ d.sent },
            drain_frame rounds events mid p d r g,
            Drains-send p pieces d drained,
          )
      | inr (mid, r, w) ↦ (
        record { goes_on = true; sent = []; stream = mid },
        drain_wait rounds events mid r,
        record {
          sent_pieces = [];
          later = p ∷ pieces;
          split = refl;
          outcome = inl (refl, refl, w.live, w.left ∙ e);
        },
      )
    ]

-- Where the bytes to come on a live connection are the data frames of pieces of 1 to 65535 bytes,
-- `drain_tcp_tunnel_frames` ends, and has sent on the first pieces, in order. Either the others are
-- still to come and the worker goes on, or there are no others, the end of the connection is
-- reported behind them, and the worker stops.
pub drain_tcp_tunnel_frames-pieces :
    (pieces : List (List ℕ)) (events : Reader)
    → IsLive events
    → All Fits pieces
    → contents events ≡ concat (map data_frame pieces)
    → (d : DrainedTunnel) × (drain_tcp_tunnel_frames true events ≡ some d) × Drains pieces d
unfolding drain_tcp_tunnel_frames
drain_tcp_tunnel_frames-pieces pieces events live fits e =
    drain_loop-frames pieces (suc (byte_count events)) events
      (omega (arith, byte_count-contents events live, ap length e, frames_length pieces)) live fits
      e
