-- ===== src/Handshake.antt =====
-- transport.rs: how a node answers the first message of a layer-3 connection,
-- `authenticate_l3_stream` and `request_l3_virtual_ips`.
pub mod Prompt
pub mod Accepted
use libreatrust.Base.{
  Ipv4Addr, List, Option, String, Text, [], byte_at, drop, from_be16, if◌then◌else◌, is_empty, leb,
  length, ltb, none, not, some, suc, take, zero, ℕ, ◌&&◌, ◌++◌, ◌-◌, ◌==◌, ◌∷◌,
}
use libreatrust.Stream.{
  Io, IoResult, Reader, chunk, fail, failed, failure, pure, read_tunnel_exact,
  read_tunnel_exact_blocking, ready, stuck, would_block, ◌>>=◌, ◌>>◌,
}
use libreatrust.Error.{
  AtrError, AtrResult, about, err, invalid_state, literal, lossy, network_failed, not_found, ok,
  parse_failed, unauthorized,
}
use libreatrust.Types.{SessionMaterial}
use libreatrust.Client.{AtrClient, best_node}
use libreatrust.Tcp.{is_pair}
use libreatrust.Envelope.{wrap_auth_req_data}
use libreatrust.Conntrack.{is_zero, ℤ}
use libreatrust.Remote.{parse_virtual_ip_bytes, vip_payload_length}
use libreatrust.Request.{L3ClientInfo}
use libreatrust.Layer3.{L3Remote, new_remote}

pub record AuthResponseSid : Type 0 where
  pub code : ℤ
  pub message : Text

-- The first message, where `to_vec` prints the JSON of a session identifier.
unfoldable pub sid_request : (Text → AtrResult (List ℕ)) → Text → AtrResult (List ℕ)
sid_request to_vec sid = elim (to_vec sid) [
  | err e ↦ err e
  | ok req ↦ ok (wrap_auth_req_data req 1)
]

abbrev pub eof_error : AtrError
eof_error = network_failed (literal "failed to fill whole buffer")

-- `blocked` is the text of the system's error for a read that takes too long, and `read_sid` reads
-- the JSON of an answer.
module _ (blocked : Text) (read_sid : List ℕ → AtrResult AuthResponseSid) where
  -- `Read::read_exact`, on the bytes still wanted and those that stand in the buffer
  unfoldable pub read_exact_loop : Reader → ℕ → List ℕ → IoResult (List ℕ)
  read_exact_loop events zero filled = ready filled events
  read_exact_loop [] (suc n) filled = failed eof_error
  read_exact_loop (would_block ∷ events) (suc n) filled = failed (network_failed (about "" blocked))
  read_exact_loop (failure m ∷ events) (suc n) filled = failed (network_failed (about "" m))
  read_exact_loop (chunk bytes ∷ events) (suc n) filled =
      let more = read_exact_loop events (suc n - length bytes) (filled ++ bytes) in
      if is_empty bytes
      then failed eof_error
      else if leb (length bytes) (suc n)
      then more
      else ready (filled ++ take (suc n) bytes) (chunk (drop (suc n) bytes) ∷ events)

  unfoldable pub read_exact : ℕ → Io (List ℕ)
  read_exact n events = read_exact_loop events n []

  -- What the answer of the node is checked for.
  unfoldable pub check_answer : String → ℕ → List ℕ → Io (Unit {0})
  check_answer failed_text status bytes =
      if not (status == 0)
      then fail (unauthorized (lossy bytes))
      else if is_empty bytes
      then pure tt
      else elim (read_sid bytes) [
        | err e ↦ fail e
        | ok resp ↦
            if is_zero resp.code
            then pure tt
            else fail (unauthorized (about failed_text resp.message))
      ]

  -- The answer, after its method.
  unfoldable pub read_answer : String → String → Io (Unit {0})
  read_answer header_text failed_text = do
    header ← read_exact 4
    if not (byte_at header 0 == 0x53) then fail (network_failed (about header_text header)) else (do
      bytes ← read_exact (from_be16 (byte_at header 2) (byte_at header 3))
      check_answer failed_text (byte_at header 1) bytes)

  -- What both functions read first, each with its own words for the errors.
  unfoldable pub sid_answer : String → String → String → Io (Unit {0})
  sid_answer method_text header_text failed_text = do
    method ← read_exact 2
    if not (is_pair method 0x05 0xD0)
        then fail (network_failed (about method_text method))
        else read_answer header_text failed_text

  -- The virtual addresses behind the header, where the node sends them.
  unfoldable pub read_vips : Option (List ℕ) → Io (Option (List Ipv4Addr))
  read_vips none = pure none
  read_vips (some header) =
      let data_len = vip_payload_length (byte_at header 3) in
      if byte_at header 0 == 0x05 && ltb 0 data_len
      then (do bytes ← read_tunnel_exact_blocking data_len; pure (parse_virtual_ip_bytes bytes))
      else pure none

  -- `authenticate_l3_stream` after its message: the new virtual addresses, if there are any.
  unfoldable pub authenticate_l3_stream : Io (Option (List Ipv4Addr))
  authenticate_l3_stream = do
    sid_answer "unexpected auth method" "unexpected auth header" "tunnel auth failed: "
    header ← read_tunnel_exact 4
    read_vips header

  -- The virtual addresses, which `request_l3_virtual_ips` must get.
  unfoldable pub require_vips : List ℕ → Io (List Ipv4Addr)
  require_vips header =
      let data_len = vip_payload_length (byte_at header 3) in
      if not (byte_at header 0 == 0x05)
      then fail (network_failed (about "unexpected virtual ip payload header" header))
      else if data_len == 0
      then fail (network_failed (literal "virtual ip response had empty payload"))
      else (do
        bytes ← read_exact data_len
        elim (parse_virtual_ip_bytes bytes) [
          | none ↦ fail (parse_failed (literal "virtual ip response had no ipv4"))
          | some ips ↦ pure ips
        ])

  -- `request_l3_virtual_ips` after its message
  unfoldable pub read_virtual_ips : Io (List Ipv4Addr)
  read_virtual_ips = do
    sid_answer "unexpected virtual ip method" "unexpected virtual ip header"
        "virtual ip request failed: "
    header ← read_exact 4
    require_vips header

  -- A step of another kind, and what follows it.
  abbrev after {ℓ} : {A : Type 0} {B : Type ℓ} → AtrResult A → (A → IoResult B) → IoResult B
  after (err e) next = failed e
  after (ok a) next = next a

  -- What a session is connected with: JSON, hex, and the connection to an address, which gives
  -- what the node will send after the first message.
  module _ (to_vec : Text → AtrResult (List ℕ)) (hex_decode : Text → AtrResult (List ℕ))
      (connect_tls : Text → AtrResult (List ℕ → Reader)) where
    -- `request_l3_virtual_ips`
    unfoldable pub request_l3_virtual_ips : AtrClient → IoResult (List Ipv4Addr)
    request_l3_virtual_ips client = elim client.session [
      | none ↦ failed (invalid_state (literal "session not set"))
      | some session ↦ elim (best_node client) [
        | none ↦ failed (not_found (literal "no node for l3 virtual ip request"))
        | some node ↦ after (connect_tls node) (λ stream.
            after (sid_request to_vec session.sid) (λ message. read_virtual_ips (stream message)))
      ]
    ]

    -- `L3Remote::connect`: the remote, and the virtual addresses where the node has sent any.
    unfoldable pub connect_session :
        SessionMaterial → Text → IoResult (L3Remote × Option (List Ipv4Addr))
    connect_session session node =
        let info : L3ClientInfo = record {
          sid = session.sid;
          device_id = session.device_id;
          connection_id = session.connection_id;
        } in
        after (connect_tls node) (λ stream. after (hex_decode session.sign_key_hex) (λ sign_key.
          after (sid_request to_vec info.sid) (λ message.
            elim (authenticate_l3_stream (stream message)) [
              | ready vips rest ↦ ready (new_remote info sign_key, vips) rest
              | failed e ↦ failed e
              | stuck ↦ stuck
            ])))
