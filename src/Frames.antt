-- ===== src/Frames.antt =====
-- transport.rs: the frames of the layer-3 tunnel, `read_l3_frame_available` and
-- `read_data_resp_payload`.
pub mod Read
pub mod Data
use libreatrust.Base.{
  List, Option, byte_at, from_be16, if◌then◌else◌, leb, ltb, none, some, suc, zero, ℕ, ◌&&◌, ◌++◌,
  ◌==◌, ◌||◌, ◌∷◌,
}
use libreatrust.Stream.{
  Io, byte_count, fail, failed, pure, read_sized, read_tunnel_exact, read_tunnel_exact_blocking,
  ready, stuck, ◌>>=◌,
}
use libreatrust.Error.{about, parse_failed}
use libreatrust.Envelope.{DataMode, len_mode, sized, token_mode}

pub record Frame : Type 0 where
  pub cmd : ℕ
  pub status : ℕ
  pub payload : List ℕ
  pub data_mode : DataMode

-- The packets of a token envelope, after the bytes read before.
unfoldable pub read_packets : ℕ → List ℕ → Io (List ℕ)
read_packets zero read = pure read
read_packets (suc count) read = do packet ← read_sized; read_packets count (read ++ sized packet)

-- `read_data_resp_payload`
unfoldable pub read_data_resp_payload : Io (List ℕ × DataMode)
unfolding read_packets
read_data_resp_payload = do
  peek ← read_tunnel_exact_blocking 2
  let payload_len = from_be16 (byte_at peek 0) (byte_at peek 1)
  if ltb 0 payload_len && leb payload_len 4096
      then (do bytes ← read_tunnel_exact_blocking payload_len; pure (bytes, len_mode))
      else (do
        token ← read_tunnel_exact_blocking (byte_at peek 0)
        reserved ← read_tunnel_exact_blocking 2
        count ← read_tunnel_exact_blocking 1
        bytes ← read_packets (byte_at count 0) (byte_at peek 0 ∷ (token ++ (reserved ++ count)))
        pure (bytes, token_mode))

abbrev pub len_frame : ℕ → ℕ → List ℕ → Option Frame
len_frame cmd status bytes =
    some (record { cmd = cmd; status = status; payload = bytes; data_mode = len_mode })

-- What follows each header, and `none` where the loop goes on.
unfoldable pub read_l3_body : List ℕ → Io (Option Frame)
unfolding read_data_resp_payload
read_l3_body header =
    let cmd = byte_at header 1 in
    if byte_at header 0 == 0x05 && (cmd == 0x93 || cmd == 0x96)
    then (do
      status_len ← read_tunnel_exact_blocking 3
      bytes ← read_tunnel_exact_blocking (from_be16 (byte_at status_len 1) (byte_at status_len 2))
      pure (len_frame cmd (byte_at status_len 0) bytes))
    else if byte_at header 0 == 0x05 && cmd == 0x94
    then (do
      answer ← read_data_resp_payload
      pure (some (record { cmd = 0x94; status = 0; payload = answer.0; data_mode = answer.1 })))
    else if byte_at header 0 == 0x05
    then (do bytes ← read_sized; pure (len_frame cmd 0 bytes))
    else if byte_at header 0 == 0x53 && cmd == 0x00
    then (do bytes ← read_sized; pure none)
    else fail (parse_failed (about "unexpected frame header " header))

-- The loop: `none` where the connection has nothing to read. Every round that goes on has taken
-- bytes, so that their number bounds the rounds.
unfoldable pub l3_frame_loop : ℕ → Io (Option Frame)
unfolding read_l3_body
l3_frame_loop zero events = stuck
l3_frame_loop (suc rounds) events = elim (read_tunnel_exact 2 events) [
  | ready none rest ↦ ready none rest
  | ready (some header) rest ↦ elim (read_l3_body header rest) [
    | ready (some f) rest' ↦ ready (some f) rest'
    | ready none rest' ↦ l3_frame_loop rounds rest'
    | failed e ↦ failed e
    | stuck ↦ stuck
  ]
  | failed e ↦ failed e
  | stuck ↦ stuck
]

-- `read_l3_frame_available`
unfoldable pub read_l3_frame_available : Io (Option Frame)
unfolding l3_frame_loop
read_l3_frame_available events = l3_frame_loop (suc (byte_count events)) events
