-- ===== src/Examples/Tunnels.antt =====
-- transport.rs: reads of a TCP tunnel at concrete messages.
use libreatrust.Base.{All, List, [], arith, concat, map, refl, ℕ, ◌++◌, ◌∷◌, ◌≡◌, ◌≢◌}
use libreatrust.Stream.{Reader, chunk, stuck, would_block}
use libreatrust.Error.{err, literal, network_failed, ok}
use libreatrust.Stream.Live.{IsLive}
use libreatrust.Tcp.{read_tcp_frame}
use libreatrust.Tcp.Write.{Fits}
use libreatrust.Tunnel.{TcpTunnel, read, receive}
use libreatrust.Tunnel.Reading.{items, pending, reads, reads-pending}
use libreatrust.Tunnel.Patience.{read_tcp_frame-heard}
use libreatrust.Stream.Silence.{heard, heard_result}

abbrev two_messages : TcpTunnel
two_messages = record {
  read_buf = [];
  incoming = ok (1 ∷ 2 ∷ 3 ∷ []) ∷ ok [] ∷ err (network_failed (literal "reset")) ∷ [];
}

abbrev emptied : TcpTunnel
emptied = record { read_buf = []; incoming = ok [] ∷ [] }

four_reads :
    (reads (2 ∷ 2 ∷ 2 ∷ 2 ∷ []) two_messages).0
    ≡ ok (1 ∷ 2 ∷ []) ∷ ok (3 ∷ []) ∷ ok [] ∷ err (network_failed (literal "reset")) ∷ []
unfolding read receive
four_reads = refl

reads-pending_example :
    concat (map items (reads (2 ∷ 2 ∷ 2 ∷ 2 ∷ []) two_messages).0)
      ++ pending (reads (2 ∷ 2 ∷ 2 ∷ 2 ∷ []) two_messages).1
    ≡ pending two_messages
reads-pending_example = reads-pending (2 ∷ 2 ∷ 2 ∷ 2 ∷ []) two_messages

read-emptied : (read 4 emptied).0 ≡ ok []
unfolding read receive
read-emptied = refl

abbrev two_pieces : List (List ℕ)
two_pieces = (7 ∷ 8 ∷ []) ∷ (9 ∷ []) ∷ []

-- Two frames, cut inside the first, with a delay before the second.
abbrev two_frames : Reader
two_frames =
    chunk (0x01 ∷ 0x00 ∷ 0x00 ∷ [])
    ∷ would_block
    ∷ chunk (0x02 ∷ 7 ∷ 8 ∷ [])
    ∷ would_block
    ∷ chunk (0x01 ∷ 0x00 ∷ 0x00 ∷ 0x01 ∷ 9 ∷ [])
    ∷ []

two_frames-IsLive : IsLive two_frames
two_frames-IsLive = (λ e. absurd (cc e), ((λ e. absurd (cc e)), ((λ e. absurd (cc e)), tt)))

two_pieces-Fit : All Fits two_pieces
two_pieces-Fit = ((omega arith, omega arith), ((omega arith, omega arith), tt))

-- What follows the first three bytes of `two_frames`.
abbrev after_header : Reader
after_header =
    would_block
    ∷ chunk (0x02 ∷ 7 ∷ 8 ∷ [])
    ∷ would_block
    ∷ chunk (0x01 ∷ 0x00 ∷ 0x00 ∷ 0x01 ∷ 9 ∷ [])
    ∷ []

read_tcp_frame-heard_example :
    (read_tcp_frame two_frames ≢ stuck)
    × (heard_result (read_tcp_frame two_frames) ≡ read_tcp_frame (heard two_frames))
read_tcp_frame-heard_example = read_tcp_frame-heard 0x01 (0x00 ∷ 0x00 ∷ []) after_header
