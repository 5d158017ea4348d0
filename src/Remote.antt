-- ===== src/Remote.antt =====
-- transport.rs: the frames that the worker of a layer-3 tunnel takes from its connection,
-- `drain_l3_remote_frames`, `handle_l3_remote_frame` and `parse_virtual_ip_bytes`.
pub mod Delivery
use libreatrust.Base.{
  Bool, Ipv4Addr, List, Option, [], false, if◌then◌else◌, length, none, some, suc, true, zero, ℕ,
  ◌++◌, ◌==◌, ◌||◌, ◌∷◌,
}
use libreatrust.Error.{AtrResult, err, literal, network_failed, ok, ◌>>=◌}
use libreatrust.Packet.Udp.{ipv4_at}
use libreatrust.Conntrack.{AuthResponseIp, ConntrackMgr, handle_auth_resp}
use libreatrust.Keepalive.{L3Liveness, record_frame}
use libreatrust.Stream.{Io, failed, ready, stuck}
use libreatrust.Envelope.{decode_l3_data_payload}
use libreatrust.Frames.{Frame, read_l3_frame_available}

-- `vip_payload_length`
abbrev pub vip_payload_length : ℕ → ℕ
vip_payload_length addr_type =
    if addr_type == 1 then 6 else if addr_type == 4 then 18 else if addr_type == 5 then 22 else 0

-- `parse_virtual_ip_bytes`
unfoldable pub parse_virtual_ip_bytes : List ℕ → Option (List Ipv4Addr)
parse_virtual_ip_bytes bytes =
    let len = length bytes in
    if len == 6 || len == 18 || len == 22 then some (ipv4_at bytes 0 ∷ []) else none

-- What the worker changes: the packets sent on to the tunnel's receiver, which may have stopped,
-- the conntracks, the virtual addresses and the liveness of the connection.
pub record RemoteState : Type 0 where
  pub incoming : List (List ℕ)
  pub receiver_runs : Bool
  pub conntracks : ConntrackMgr
  pub vip_list : List Ipv4Addr
  pub liveness : L3Liveness

-- The loop that sends the packets of a frame on.
unfoldable pub send_packets : Bool → List (List ℕ) → List (List ℕ) → AtrResult (List (List ℕ))
send_packets runs incoming [] = ok incoming
send_packets runs incoming (packet ∷ packets) =
    let rest = send_packets runs (incoming ++ (packet ∷ [])) packets in
    if runs then rest else err (network_failed (literal "l3 packet receiver stopped"))

module _ (from_json : List ℕ → AtrResult AuthResponseIp) where
  -- `handle_l3_remote_frame`, where `from_json` reads the JSON of an authorisation's answer.
  -- Errors of the payload and of the answer are only logged.
  unfoldable pub handle_l3_remote_frame : Frame → RemoteState → AtrResult RemoteState
  unfolding send_packets parse_virtual_ip_bytes
  handle_l3_remote_frame frame state =
      if frame.cmd == 0x94
      then elim (decode_l3_data_payload frame.payload frame.data_mode) [
        | err e ↦ ok state
        | ok packets ↦ (do
          incoming ← send_packets state.receiver_runs state.incoming packets
          ok (record state { incoming = incoming }))
      ]
      else if frame.cmd == 0x93
      then ok (record state {
        conntracks = (handle_auth_resp from_json state.conntracks frame.status frame.payload).1;
      })
      else if frame.cmd == 0x96
      then elim (parse_virtual_ip_bytes frame.payload) [
        | none ↦ ok state
        | some ips ↦ ok (record state { vip_list = ips })
      ]
      else ok state

  -- The loop of `drain_l3_remote_frames`, with the frames still allowed and the time `clock n` at
  -- the frame after which `n` are allowed: whether more may be waiting, and the new state.
  unfoldable pub drain_l3_remote_frames : (ℕ → ℕ) → ℕ → RemoteState → Io (Bool × RemoteState)
  unfolding handle_l3_remote_frame
  drain_l3_remote_frames clock zero state events = ready (true, state) events
  drain_l3_remote_frames clock (suc n) state events = elim (read_l3_frame_available events) [
    | ready none rest ↦ ready (false, state) rest
    | ready (some frame) rest ↦
        let seen = record state { liveness = record_frame state.liveness frame.cmd (clock n) } in
        elim (handle_l3_remote_frame frame seen) [
          | ok state' ↦ drain_l3_remote_frames clock n state' rest
          | err e ↦ failed e
        ]
    | failed e ↦ failed e
    | stuck ↦ stuck
  ]
