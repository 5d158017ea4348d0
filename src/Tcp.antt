-- ===== src/Tcp.antt =====
-- transport.rs: the frames of a TCP tunnel (`write_tcp_payload`, `read_tcp_frame`,
-- `wait_for_tcp_connect_status`, `send_tcp_dest`).
pub mod Write
pub mod Read
pub mod Deliver
pub mod Status
pub mod Answers
pub mod Accept
pub mod Patience
use libreatrust.Base.{
  Bool, List, Option, String, Text, [], as_u16, as_u8, be16, byte_at, codes, contains, drop, false,
  if◌then◌else◌, is_empty, length, ltb, map, none, not, octets, some, suc, take, true, zero, ℕ,
  ◌&&◌, ◌++◌, ◌==◌, ◌||◌, ◌∷◌,
}
use libreatrust.Stream.{
  Io, byte_count, fail, failed, pure, read_sized, read_tunnel_exact, read_tunnel_exact_blocking,
  ready, stuck, ◌>>=◌,
}
use libreatrust.Error.{AtrResult, about, err, invalid_argument, literal, lossy, network_failed, ok}
use libreatrust.Address.{parse_ipv4}
use libreatrust.Utf8.{encode}

-- `data.chunks(u16::MAX)`, with one round for each byte at most.
unfoldable pub chunks_loop : ℕ → List ℕ → List (List ℕ)
chunks_loop zero payload = []
chunks_loop (suc rounds) payload =
    let more = chunks_loop rounds (drop 65535 payload) in
    if is_empty payload then [] else take 65535 payload ∷ more

unfoldable pub chunks : List ℕ → List (List ℕ)
unfolding chunks_loop
chunks payload = chunks_loop (length payload) payload

abbrev pub data_frame : List ℕ → List ℕ
data_frame piece = 0x01 ∷ 0x00 ∷ (be16 (as_u16 (length piece)) ++ piece)

-- `write_tcp_payload`: the frames written, in order, and the number of bytes reported.
unfoldable pub write_tcp_payload : List ℕ → List (List ℕ) × ℕ
unfolding chunks
write_tcp_payload payload =
    if is_empty payload then ([], 0) else (map data_frame (chunks payload), length payload)

pub data TcpFrameRead : Type 0 where
  payload : List ℕ → TcpFrameRead
  control : TcpFrameRead

abbrev pub is_pair : List ℕ → ℕ → ℕ → Bool
is_pair header a b = byte_at header 0 == a && byte_at header 1 == b

-- What follows each header of `read_tcp_frame`.
unfoldable pub read_tcp_body : List ℕ → Io (Option TcpFrameRead)
unfolding read_sized
read_tcp_body header =
    if is_pair header 0x01 0x00
    then (do bytes ← read_sized; pure (some (payload bytes)))
    else if is_pair header 0x01 0x01
    then (do
      tail ← read_tunnel_exact_blocking 2
      if is_pair tail 0x30 0x30
          then fail (network_failed (literal "connection closed by server"))
          else pure (some control))
    else if is_pair header 0x53 0x00
    then (do
      text ← read_sized
      if contains (codes "OK") text
          then pure (some control)
          else fail (network_failed (lossy text)))
    else if is_pair header 0x05 0x81
    then (do
      marker ← read_tunnel_exact_blocking 2
      if not (is_pair marker 0x53 0x00) then pure (some control) else do
        text ← read_sized
        if not (contains (codes "\"message\":\"OK\"") text)
              && not (contains (codes "\"message\":\"Succeeded\"") text)
            then fail (network_failed (lossy text))
            else pure (some control))
    else if byte_at header 0 == 0x05
    then (do tail ← read_tunnel_exact_blocking 8; pure (some control))
    else pure (some control)

-- `none` where the connection has nothing to read.
unfoldable pub read_tcp_frame : Io (Option TcpFrameRead)
unfolding read_tcp_body
read_tcp_frame = do
  header ← read_tunnel_exact 2
  elim header [ none ↦ pure none | some bytes ↦ read_tcp_body bytes ]

abbrev pub says_ok : List ℕ → Bool
says_ok text = contains (codes "OK") text || contains (codes "Succeeded") text

-- What the text of an answer says.
unfoldable pub auth_verdict : List ℕ → Io Bool
auth_verdict text = if says_ok text then pure true else fail (network_failed (lossy text))

-- One round of the loop that waits for the tunnel's authentication: whether it is over.
unfoldable pub auth_round : Io Bool
unfolding read_sized auth_verdict
auth_round = do
  header ← read_tunnel_exact_blocking 2
  if is_pair header 0x53 0x00
      then (read_sized >>= auth_verdict)
      else if is_pair header 0x05 0x81
      then (do
        marker ← read_tunnel_exact_blocking 2
        if not (is_pair marker 0x53 0x00) then pure false else (read_sized >>= auth_verdict))
      else fail (network_failed (about "unexpected tcp tunnel response: " header))

unfoldable pub auth_loop : ℕ → Io (Unit {0})
auth_loop zero events = stuck
auth_loop (suc rounds) events = elim (auth_round events) [
  | ready over rest ↦ elim over [ true ↦ ready tt rest | false ↦ auth_loop rounds rest ]
  | failed e ↦ failed e
  | stuck ↦ stuck
]

-- The result that a status byte stands for.
unfoldable pub connect_status : ℕ → AtrResult (Unit {0})
connect_status code =
    let refused : String → AtrResult (Unit {0}) = λ m. err (network_failed (literal m)) in
    if code == 0x00
    then ok tt
    else if code == 0x01
    then refused "tcp tunnel server failure"
    else if code == 0x02
    then refused "tcp tunnel connection not allowed"
    else if code == 0x03
    then refused "network is unreachable"
    else if code == 0x04
    then refused "host is unreachable"
    else if code == 0x05
    then refused "connection refused"
    else if code == 0x06
    then refused "tcp tunnel TTL expired"
    else if code == 0x07
    then refused "tcp tunnel command not supported"
    else if code == 0x08
    then refused "tcp tunnel address type not supported"
    else err (network_failed (about "tcp tunnel connect failed with status " (code ∷ [])))

-- The four-byte empty data frame.
abbrev pub connect_request : List ℕ
connect_request = 0x01 ∷ 0x00 ∷ 0x00 ∷ 0x00 ∷ []

abbrev pub lift {ℓ} : {A : Type ℓ} → AtrResult A → Io A
lift (ok a) = pure a
lift (err e) = fail e

-- `wait_for_tcp_connect_status`, from the bytes written so far to those written at its end. Every
-- round of the loop takes four bytes, so that their number bounds the rounds.
unfoldable pub wait_for_tcp_connect_status : List ℕ → Io (List ℕ)
unfolding auth_loop auth_round connect_status
wait_for_tcp_connect_status written events =
    (do
      over ← auth_loop (suc (byte_count events))
      let written' = written ++ connect_request
      status ← read_tunnel_exact_blocking 2
      if not (byte_at status 0 == 0x05)
          then fail (network_failed (about "unexpected tcp tunnel connect status: " status))
          else do connected ← lift (connect_status (byte_at status 1)); pure written')
      events

-- `send_tcp_dest`: the frame that names the destination, by address or by domain.
unfoldable pub send_tcp_dest : Text → ℕ → AtrResult (List ℕ)
send_tcp_dest host port = elim (parse_ipv4 host) [
  | some ip ↦ ok (0x05 ∷ 0x01 ∷ 0x01 ∷ 0x01 ∷ (octets ip ++ be16 port))
  | none ↦
      let bytes = encode host in
      if ltb 255 (length bytes)
      then err (invalid_argument (about "domain too long: " host))
      else ok (0x05 ∷ 0x01 ∷ 0x01 ∷ 0x03 ∷ as_u8 (length bytes) ∷ (bytes ++ be16 port))
]
