-- ===== src/Examples/Streams.antt =====
-- transport.rs: the reads and writes of the tunnels at concrete inputs.
use libreatrust.Base.{List, [], arith, codes, concat, refl, true, ℕ, ◌++◌, ◌∷◌, ◌≡◌, ◌≢◌}
use libreatrust.Stream.{Reader, chunk, failed, ready, stuck, would_block}
use libreatrust.Error.{AtrResult, Message, err, literal, network_failed, ok, parse_failed}
use libreatrust.Stream.Live.{IsLive, contents}
use libreatrust.Stream.Front.{Leaves}
use libreatrust.Tcp.{connect_request, wait_for_tcp_connect_status, write_tcp_payload}
use libreatrust.Tcp.Deliver.{Delivers, read_tcp_frame-write_tcp_payload}
use libreatrust.Tcp.Accept.{wait_for_tcp_connect_status-code}
use libreatrust.Envelope.{decode_l3_data_payload, is_complete_ip_packet, token_mode}
use libreatrust.Envelope.RoundTrip.{envelope}
use libreatrust.Frames.Read.{envelope_body}
use libreatrust.Frames.Data.{Yields, answer_frame, read_l3_frame_available-envelope}
use libreatrust.Conntrack.{AuthResponseIp, new_mgr}
use libreatrust.Keepalive.{new_liveness}
use libreatrust.Remote.{RemoteState}
use libreatrust.Remote.Delivery.{Drained, IsCarried, drain_l3_remote_frames-packets}
use libreatrust.Tcp.Patience.{wait_for_tcp_connect_status-heard}
use libreatrust.Stream.Silence.{heard, heard_result}

-- A data frame of two bytes in pieces, with a delay, and one byte after it.
abbrev split_frame : Reader
split_frame =
    chunk (0x01 ∷ []) ∷ chunk (0x00 ∷ 0x00 ∷ []) ∷ would_block ∷ chunk (0x02 ∷ 7 ∷ 8 ∷ 9 ∷ []) ∷ []

split_frame-IsLive : IsLive split_frame
split_frame-IsLive = ((λ e. cc), ((λ e. cc), ((λ e. cc), tt)))

frame_first : contents split_frame ≡ concat (write_tcp_payload (7 ∷ 8 ∷ [])).0 ++ (9 ∷ [])
unfolding write_tcp_payload
frame_first = refl

read_tcp_frame-write_tcp_payload_example :
    (rest : Reader) × Delivers split_frame (7 ∷ 8 ∷ []) rest
    × IsLive rest
    × (contents rest ≡ 9 ∷ [])
read_tcp_frame-write_tcp_payload_example =
    read_tcp_frame-write_tcp_payload (7 ∷ 8 ∷ []) (9 ∷ []) split_frame split_frame-IsLive
      frame_first

abbrev status_code : ℕ
status_code = 5

-- A marker to pass over, an answer in the nested form, and a refused connection.
abbrev refused_reader : Reader
refused_reader =
    chunk (0x05 ∷ 0x81 ∷ 0x01 ∷ 0x02 ∷ 0x05 ∷ 0x81 ∷ [])
    ∷ would_block
    ∷ chunk (0x53 ∷ 0x00 ∷ 0x00 ∷ 0x02 ∷ (codes "OK" ++ (0x05 ∷ 0x05 ∷ [])))
    ∷ []

wait_for_tcp_connect_status-heard_example :
    (wait_for_tcp_connect_status [] refused_reader ≢ stuck)
    × (heard_result (wait_for_tcp_connect_status [] refused_reader)
        ≡ wait_for_tcp_connect_status [] (heard refused_reader))
wait_for_tcp_connect_status-heard_example = wait_for_tcp_connect_status-heard [] refused_reader

refused_reader-IsLive : IsLive refused_reader
refused_reader-IsLive = ((λ e. cc), ((λ e. cc), tt))

wait_for_tcp_connect_status-code_example :
    (rest : Reader) × Leaves refused_reader rest []
    × (status_code ≡ 0
        → wait_for_tcp_connect_status [] refused_reader ≡ ready ([] ++ connect_request) rest)
    × (status_code ≢ 0
        → (m : Message) × (wait_for_tcp_connect_status [] refused_reader
            ≡ failed (network_failed m)))
wait_for_tcp_connect_status-code_example =
    wait_for_tcp_connect_status-code [] refused_reader ((0x01 ∷ 0x02 ∷ []) ∷ []) true (codes "OK")
      refused_reader-IsLive ((refl, refl), tt) (omega arith) status_code [] refl refl

abbrev denied_reader : Reader
denied_reader = chunk (0x53 ∷ 0x00 ∷ 0x00 ∷ 0x02 ∷ codes "no") ∷ []

denied_reader-IsLive : IsLive denied_reader
denied_reader-IsLive = ((λ e. cc), tt)

-- An IPv4 packet of 20 bytes without data.
abbrev bare_packet : List ℕ
bare_packet =
    0x45 ∷ 0 ∷ 0 ∷ 20 ∷ 0 ∷ 0 ∷ 0 ∷ 0 ∷ 64 ∷ 6 ∷ 0 ∷ 0 ∷ 10 ∷ 0 ∷ 0 ∷ 1 ∷ 10 ∷ 0 ∷ 0 ∷ 2 ∷ []

abbrev packet_reader : Reader
packet_reader = chunk (0x05 ∷ []) ∷ would_block ∷ chunk (0x94 ∷ 0x00 ∷ 20 ∷ bare_packet) ∷ []

packet_reader-IsLive : IsLive packet_reader
packet_reader-IsLive = ((λ e. cc), ((λ e. cc), tt))

bare_packet_complete : is_complete_ip_packet bare_packet ≡ true
unfolding is_complete_ip_packet
bare_packet_complete = refl

-- A token of 17 bytes, one packet of two bytes, and the byte that is dropped.
abbrev token17 : List ℕ
token17 = codes "0123456789abcdefg"

abbrev envelope_reader : Reader
envelope_reader =
    chunk (0x05 ∷ 0x94 ∷ 17 ∷ 99 ∷ (envelope_body token17 ((1 ∷ 2 ∷ []) ∷ []) ++ [])) ∷ []

envelope_reader-IsLive : IsLive envelope_reader
envelope_reader-IsLive = ((λ e. cc), tt)

read_l3_frame_available-envelope_example :
    Yields envelope_reader (answer_frame (envelope token17 ((1 ∷ 2 ∷ []) ∷ [])) token_mode) []
    × (decode_l3_data_payload (envelope token17 ((1 ∷ 2 ∷ []) ∷ [])) token_mode
        ≡ ok ((1 ∷ 2 ∷ []) ∷ []))
read_l3_frame_available-envelope_example =
    read_l3_frame_available-envelope token17 ((1 ∷ 2 ∷ []) ∷ []) 99 envelope_reader []
      envelope_reader-IsLive (omega arith) (omega arith) (omega arith) (omega arith, tt) refl

abbrev no_json : List ℕ → AtrResult AuthResponseIp
no_json bytes = err (parse_failed (literal "no json"))

abbrev idle : RemoteState
idle = record {
  incoming = [];
  receiver_runs = true;
  conntracks = new_mgr;
  vip_list = [];
  liveness = new_liveness 0;
}

bare_packet-IsCarried : IsCarried bare_packet
bare_packet-IsCarried = record {
  some_byte = omega arith;
  fits = omega arith;
  complete = bare_packet_complete;
}

drain_l3_remote_frames-packets_example :
    Drained no_json (λ n. n) packet_reader idle (bare_packet ∷ []) []
drain_l3_remote_frames-packets_example =
    drain_l3_remote_frames-packets no_json (λ n. n) (bare_packet ∷ []) [] packet_reader idle
      packet_reader-IsLive refl (bare_packet-IsCarried, tt) refl
