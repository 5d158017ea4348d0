-- ===== src/Layer3.antt =====
-- transport.rs: a remote of the layer-3 tunnel, `L3Remote`, as its callers and its worker change
-- it, with the queue between them.
pub mod Steps
pub mod Tunnel
use libreatrust.Base.{
  Bool, List, Option, Text, [], false, if◌then◌else◌, none, some, true, ℕ, ◌++◌, ◌∷◌,
}
use libreatrust.Error.{
  AtrResult, about, err, invalid_state, literal, network_failed, ok, ◌>>=◌, ◌>>◌,
}
use libreatrust.Decimal.{decimal}
use libreatrust.Utf8.{encode}
use libreatrust.Envelope.{build_data_payload, build_l3_auth_request_payload}
use libreatrust.Conntrack.{
  Conntrack, ConntrackMgr, PacketMeta, conn_track_key, find_conntrack, fresh_conntrack,
  get_or_create, new_mgr, update_conntrack,
}
use libreatrust.Request.{L3ClientInfo, Platform, build_auth_request}

-- `L3RemoteCommand`
pub data L3RemoteCommand : Type 0 where
  write_command : List ℕ → L3RemoteCommand
  close_command : L3RemoteCommand

-- An `L3Remote`, with the queue that its `command_tx` fills, and whether the worker still holds
-- the other end.
pub record L3Remote : Type 0 where
  pub info : L3ClientInfo
  pub sign_key : List ℕ
  pub commands : List L3RemoteCommand
  pub worker_runs : Bool
  pub conntracks : ConntrackMgr
  pub close_flag : Bool

-- The end of `L3Remote::connect`.
abbrev pub new_remote : L3ClientInfo → List ℕ → L3Remote
new_remote info sign_key = record {
  info = info;
  sign_key = sign_key;
  commands = [];
  worker_runs = true;
  conntracks = new_mgr;
  close_flag = false;
}

-- What a call gives: its result, or that it waits for the authorisation of the conntrack.
pub data Progress : Type 0 where
  finished : AtrResult (Unit {0}) → Progress
  waits : ℕ → Progress

-- `enqueue_payload`
unfoldable pub enqueue_payload : List ℕ → L3Remote → AtrResult (Unit {0}) × L3Remote
enqueue_payload bytes remote =
    if remote.close_flag
    then (err (network_failed (literal "l3 remote closed")), remote)
    else if remote.worker_runs
    then (ok tt, record remote { commands = remote.commands ++ (write_command bytes ∷ []) })
    else (err (network_failed (literal "l3 I/O worker stopped")), remote)

abbrev pub heartbeat : List ℕ
heartbeat = 0x05 ∷ 0x15 ∷ 0x00 ∷ 0x00 ∷ []

-- `L3Remote::send_heartbeat`
unfoldable pub send_heartbeat : L3Remote → AtrResult (Unit {0}) × L3Remote
unfolding enqueue_payload
send_heartbeat remote = enqueue_payload heartbeat remote

-- `L3Remote::close`, less its wait for the worker's end.
unfoldable pub close_remote : L3Remote → L3Remote
close_remote remote = if remote.close_flag then remote else record remote {
  close_flag = true;
  commands =
      if remote.worker_runs then remote.commands ++ (close_command ∷ []) else remote.commands;
}

-- A shared conntrack. Whatever `by_key` names stands in the store.
unfoldable pub conntrack_at : ℕ → Text → ConntrackMgr → Conntrack
conntrack_at id app_id mgr = elim (find_conntrack id mgr.by_id) [
  | none ↦ fresh_conntrack id app_id
  | some ct ↦ ct
]

abbrev pub start_auth : Conntrack → Conntrack
start_auth ct = record ct { auth_started = true }

-- The end of `L3Remote::write_packet`, once `ensure_auth` has succeeded.
unfoldable pub send_data : Option Text → List ℕ → L3Remote → AtrResult (Unit {0}) × L3Remote
send_data none packet remote = (err (invalid_state (literal "missing connect token")), remote)
send_data (some token) packet remote =
    enqueue_payload (build_data_payload (encode token) (packet ∷ [])) remote

-- The end of `L3Remote::write_packet` for the result of an authorisation.
unfoldable pub with_result :
    AtrResult (Unit {0}) → Option Text → List ℕ → L3Remote → Progress × L3Remote
with_result (err e) token packet remote = (finished (err e), remote)
with_result (ok u) token packet remote =
    let sent = send_data token packet remote in (finished sent.0, sent.1)

-- A round of the loop of `ensure_auth`, with whether the eight seconds are over.
unfoldable pub look_again : ℕ → Text → List ℕ → Bool → L3Remote → Progress × L3Remote
look_again id app_id packet late remote =
    let ct = conntrack_at id app_id remote.conntracks in
    elim ct.auth_result [
      | some result ↦ with_result result ct.connect_token packet remote
      | none ↦
          if late
          then (
            finished (
                err (network_failed (about "l3 auth timeout for conntrack=" (decimal ct.auth_id)))),
            remote,
          )
          else (waits id, remote)
    ]

module _ (platform : Platform) where
  -- `send_auth_request`
  unfoldable pub send_auth_request :
      Conntrack → PacketMeta → L3Remote → AtrResult (Unit {0}) × L3Remote
  send_auth_request ct meta remote =
      let request : AtrResult (List ℕ) =
        build_auth_request platform remote.info remote.sign_key meta ct
        >>= build_l3_auth_request_payload in
      elim request [ err e ↦ (err e, remote) | ok bytes ↦ enqueue_payload bytes remote ]

  -- What `ensure_auth` does for the first caller of a conntrack.
  unfoldable pub ask_auth : ℕ → Text → PacketMeta → L3Remote → Progress × L3Remote
  ask_auth id app_id meta remote =
      let mgr = remote.conntracks in
      let marked = record remote {
        conntracks = record mgr { by_id = update_conntrack id start_auth mgr.by_id };
      } in
      let asked = send_auth_request (conntrack_at id app_id mgr) meta marked in
      elim asked.0 [ err e ↦ (finished (err e), asked.1) | ok u ↦ (waits id, asked.1) ]

  -- `ensure_auth` up to its loop, and what follows it where no wait is needed.
  unfoldable pub ensure_auth : ℕ → Text → PacketMeta → List ℕ → L3Remote → Progress × L3Remote
  ensure_auth id app_id meta packet remote =
      let ct = conntrack_at id app_id remote.conntracks in
      elim ct.auth_result [
        | some result ↦ with_result result ct.connect_token packet remote
        | none ↦ if ct.auth_started then (waits id, remote) else ask_auth id app_id meta remote
      ]

  -- `L3Remote::write_packet` up to its wait
  unfoldable pub begin_write : PacketMeta → Text → List ℕ → L3Remote → Progress × L3Remote
  begin_write meta app_id packet remote =
      let known = get_or_create remote.conntracks (conn_track_key meta) app_id in
      ensure_auth known.0 app_id meta packet (record remote { conntracks = known.1 })

-- What a round of the worker makes of the queue: whether it goes on, what it has written whole,
-- and what it leaves.
pub record DrainedCommands : Type 0 where
  pub result : AtrResult Bool
  pub written : List (List ℕ)
  pub left : List L3RemoteCommand

-- `drain_l3_remote_commands`, on a stream whose writes give `write_all` and whose flush gives
-- `flushed`.
unfoldable pub drain_l3_remote_commands :
    (List ℕ → AtrResult (Unit {0})) → AtrResult (Unit {0}) → List L3RemoteCommand → DrainedCommands
drain_l3_remote_commands write_all flushed [] = record {
  result = flushed >> ok true;
  written = [];
  left = [];
}
drain_l3_remote_commands write_all flushed (close_command ∷ commands) = record {
  result = ok false;
  written = [];
  left = commands;
}
drain_l3_remote_commands write_all flushed (write_command bytes ∷ commands) =
    elim (write_all bytes) [
      | err e ↦ record { result = err e; written = []; left = commands }
      | ok u ↦
          let rest = drain_l3_remote_commands write_all flushed commands in
          record rest { written = bytes ∷ rest.written }
    ]
