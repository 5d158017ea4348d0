-- ===== src/Tunnel/Patience.antt =====
-- transport.rs: what a silence within a frame does to the worker of a TCP tunnel.
use libreatrust.Base.{List, inl, inr, refl, subst, ℕ, ◌∷◌, ◌≡◌, ◌≢◌}
use libreatrust.Stream.{Reader, chunk, read_tunnel_exact, stuck, ◌>>=◌}
use libreatrust.Stream.Silence.{exact_loop-first, heard, heard_result}
use libreatrust.Tcp.{read_tcp_frame}
use libreatrust.Tcp.Patience.{read_tcp_body-IsPatient}
use libreatrust.Tunnel.Ends.{Framed, read_tcp_frame-Framed}

-- On a connection that gives finitely many reads and is then closed, and whose first read gives a
-- byte, a read of a frame ends, and the silences within the frame, however long, change nothing: it
-- gives the same frame or failure as without them, and leaves the same reads to come.
pub read_tcp_frame-heard :
    (b : ℕ) (bytes : List ℕ) (more : Reader)
    → (read_tcp_frame (chunk (b ∷ bytes) ∷ more) ≢ stuck)
      × (heard_result (read_tcp_frame (chunk (b ∷ bytes) ∷ more))
          ≡ read_tcp_frame (heard (chunk (b ∷ bytes) ∷ more)))
unfolding read_tcp_frame read_tunnel_exact
read_tcp_frame-heard b bytes more = (
  λ e.
      subst (Framed (chunk (b ∷ bytes) ∷ more)) e
        (read_tcp_frame-Framed (chunk (b ∷ bytes) ∷ more)),
  elim (exact_loop-first more 2 b bytes) [
    | inl (header, rest, e, e') ↦
        rw (e, ◌>>=◌) (rw (e', ◌>>=◌) (read_tcp_body-IsPatient header rest))
    | inr (d, e, e') ↦ rw (e, ◌>>=◌) (rw (e', ◌>>=◌) refl)
  ],
)
