-- ===== src/Envelope.antt =====
-- transport.rs: the payloads of the layer-3 tunnel, `build_data_payload`, `parse_data_payload`,
-- `decode_l3_data_payload` and the requests around them.
pub mod RoundTrip
use libreatrust.Base.{
  Bool, List, [], as_u16, as_u8, be16, byte_at, concat, drop, false, from_be16, if◌then◌else◌, leb,
  length, ltb, map, suc, take, zero, ℕ, ◌%◌, ◌&&◌, ◌*◌, ◌++◌, ◌+◌, ◌/◌, ◌==◌, ◌∷◌,
}
use libreatrust.Error.{AtrResult, err, invalid_argument, literal, ok, parse_failed, ◌>>=◌}

pub data DataMode : Type 0 where
  len_mode : DataMode
  token_mode : DataMode

-- A packet after its length.
abbrev pub sized : List ℕ → List ℕ
sized packet = be16 (as_u16 (length packet)) ++ packet

-- `wrap_auth_req_data`
unfoldable pub wrap_auth_req_data : List ℕ → ℕ → List ℕ
wrap_auth_req_data payload addr_type =
    let header = 0x53 ∷ 0x00 ∷ (be16 (as_u16 (length payload)) ++ payload) in
    0x05
    ∷ 0x01
    ∷ 0xD0
    ∷ (header ++ (0x05 ∷ 0x04 ∷ 0x00 ∷ addr_type ∷ 0x00 ∷ 0x00 ∷ 0x00 ∷ 0x00 ∷ 0x00 ∷ 0x00 ∷ []))

-- `build_data_payload`, of a token given by its bytes.
unfoldable pub build_data_payload : List ℕ → List (List ℕ) → List ℕ
build_data_payload token packets =
    0x05
    ∷ 0x14
    ∷ as_u8 (length token)
    ∷ (token ++ (0x00 ∷ 0x00 ∷ as_u8 (length packets) ∷ concat (map sized packets)))

-- `build_l3_auth_request_payload`
unfoldable pub build_l3_auth_request_payload : List ℕ → AtrResult (List ℕ)
build_l3_auth_request_payload req =
    if ltb 65535 (length req)
    then err (invalid_argument (literal "l3 auth request too large"))
    else ok (0x05 ∷ 0x13 ∷ (be16 (as_u16 (length req)) ++ req))

-- The loop of `parse_data_payload`, from the index `idx`.
unfoldable pub parse_packets : ℕ → ℕ → List ℕ → AtrResult (List (List ℕ))
parse_packets zero idx payload = ok []
parse_packets (suc count) idx payload =
    let plen = from_be16 (byte_at payload idx) (byte_at payload (idx + 1)) in
    let start = idx + 2 in
    let rest = parse_packets count (start + plen) payload in
    if ltb (length payload) (idx + 2)
    then err (parse_failed (literal "packet length overflow"))
    else if ltb (length payload) (start + plen)
    then err (parse_failed (literal "packet data overflow"))
    else do packets ← rest; ok (take plen (drop start payload) ∷ packets)

-- `parse_data_payload`
unfoldable pub parse_data_payload : List ℕ → AtrResult (List (List ℕ))
unfolding parse_packets
parse_data_payload payload =
    let idx = 1 + byte_at payload 0 in
    if ltb (length payload) 4
    then err (parse_failed (literal "payload too short"))
    else if ltb (length payload) (idx + 3)
    then err (parse_failed (literal "payload token overflow"))
    else parse_packets (byte_at payload (idx + 2)) (idx + 3) payload

-- `is_complete_ip_packet`
unfoldable pub is_complete_ip_packet : List ℕ → Bool
is_complete_ip_packet [] = false
is_complete_ip_packet (b ∷ bytes) =
    let packet = b ∷ bytes in
    let header_len = b % 16 * 4 in
    let total_len = from_be16 (byte_at packet 2) (byte_at packet 3) in
    let payload_len = from_be16 (byte_at packet 4) (byte_at packet 5) in
    if b / 16 == 4 && leb 20 (length packet)
    then leb 20 header_len && leb header_len total_len && leb total_len (length packet)
    else if b / 16 == 6 && leb 40 (length packet)
    then leb (40 + payload_len) (length packet)
    else false

-- `decode_l3_data_payload`
unfoldable pub decode_l3_data_payload : List ℕ → DataMode → AtrResult (List (List ℕ))
unfolding is_complete_ip_packet parse_data_payload
decode_l3_data_payload payload token_mode = parse_data_payload payload
decode_l3_data_payload payload len_mode =
    if is_complete_ip_packet payload then ok (payload ∷ []) else parse_data_payload payload
