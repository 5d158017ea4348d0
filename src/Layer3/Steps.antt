-- ===== src/Layer3/Steps.antt =====
-- transport.rs: the changes of a remote by its callers and by its worker, in any order.
pub mod Grants
pub mod Sound
pub mod Callers
pub mod Worker
use libreatrust.Base.{
  Any, Bool, List, Text, [], false, if◌then◌else◌, is_empty, some, true, ℕ, ◌++◌, ◌==◌, ◌∷◌, ◌≡◌,
  ◌⊎◌,
}
use libreatrust.Error.{AtrError, AtrResult, err, ok}
use libreatrust.Utf8.{encode}
use libreatrust.Map.{Map, lookup}
use libreatrust.Envelope.{build_data_payload, build_l3_auth_request_payload}
use libreatrust.Conntrack.{
  AuthResponseIp, PacketMeta, answer_token, conn_track_key, fail_pending, handle_auth_resp, is_zero,
  parse_packet_meta,
}
use libreatrust.Request.{L3ClientInfo, Platform}
use libreatrust.Layer3.{
  L3Remote, L3RemoteCommand, begin_write, close_command, close_remote, drain_l3_remote_commands,
  heartbeat, look_again, new_remote, send_heartbeat, write_command,
}

-- A remote, the payloads that the worker has written, and the answers that it has read, the last
-- one first.
pub record World : Type 0 where
  pub remote : L3Remote
  pub written : List (List ℕ)
  pub answers : List AuthResponseIp

abbrev pub with_remote : World → L3Remote → World
with_remote w remote = record w { remote = remote }

-- The answers after one more payload.
unfoldable pub heard :
    (List ℕ → AtrResult AuthResponseIp) → ℕ → List ℕ → List AuthResponseIp → List AuthResponseIp
heard from_json status bytes answers =
    if status == 0
    then elim (from_json bytes) [ ok resp ↦ resp ∷ answers | err e ↦ answers ]
    else answers

abbrev pub hear : (List ℕ → AtrResult AuthResponseIp) → ℕ → List ℕ → World → World
hear from_json status bytes w = record {
  remote = record w.remote {
    conntracks = (handle_auth_resp from_json w.remote.conntracks status bytes).1;
  };
  written = w.written;
  answers = heard from_json status bytes w.answers;
}

abbrev pub drain_world : (List ℕ → AtrResult (Unit {0})) → AtrResult (Unit {0}) → World → World
drain_world write_all flushed w =
    let drained = drain_l3_remote_commands write_all flushed w.remote.commands in
    record {
      remote = record w.remote { commands = drained.left };
      written = w.written ++ drained.written;
      answers = w.answers;
    }

module _ (platform : Platform) (from_json : List ℕ → AtrResult AuthResponseIp) where
  -- A step of some thread: a caller begins a packet, or looks again whether its flow has been
  -- decided; a heartbeat; a caller closes the remote; the worker handles an answer, drains the
  -- queue, and ends by `run_l3_remote_worker`, which sets the flag, fails what is pending and
  -- drops the queue.
  pub data Step : World → World → Type 0 where
    begins :
        {w : World} (packet : List ℕ) (meta : PacketMeta) (app_id : Text)
        → parse_packet_meta packet ≡ ok meta
        → Step w (with_remote w (begin_write platform meta app_id packet w.remote).1)
    looks :
        {w : World} (packet : List ℕ) (meta : PacketMeta) (app_id : Text) (id : ℕ) (late : Bool)
        → parse_packet_meta packet ≡ ok meta
        → lookup (conn_track_key meta) w.remote.conntracks.by_key ≡ some id
        → Step w (with_remote w (look_again id app_id packet late w.remote).1)
    beats : {w : World} → Step w (with_remote w (send_heartbeat w.remote).1)
    closes : {w : World} → Step w (with_remote w (close_remote w.remote))
    hears : {w : World} (status : ℕ) (bytes : List ℕ) → Step w (hear from_json status bytes w)
    drains :
        {w : World} (write_all : List ℕ → AtrResult (Unit {0})) (flushed : AtrResult (Unit {0}))
        → Step w (drain_world write_all flushed w)
    flags : {w : World} → Step w (with_remote w (record w.remote { close_flag = true }))
    fails :
        {w : World} (error : AtrError)
        → Step w (
            with_remote w (record w.remote { conntracks = fail_pending error w.remote.conntracks }))
    ends : {w : World} → Step w (with_remote w (record w.remote { worker_runs = false }))

  -- What a new remote reaches.
  pub data Reaches : World → Type 0 where
    start :
        (info : L3ClientInfo) (sign_key : List ℕ)
        → Reaches (record { remote = new_remote info sign_key; written = []; answers = [] })
    step : {w w' : World} → Reaches w → Step w w' → Reaches w'

-- The payloads that wait in a queue.
unfoldable pub queued : List L3RemoteCommand → List (List ℕ)
queued [] = []
queued (close_command ∷ commands) = queued commands
queued (write_command bytes ∷ commands) = bytes ∷ queued commands

-- An answer of the server gives the conntrack the token.
abbrev pub Granted : List AuthResponseIp → ℕ → Text → Type 0
Granted answers id token =
    Any
      (λ resp.
        (resp.conntrack_hash ≡ id)
        × (is_zero resp.code ≡ true)
        × (is_empty (answer_token resp) ≡ false)
        × (answer_token resp ≡ token))
      answers

-- A payload that carries one packet, with a token that the server gave for the packet's flow.
pub record IsAuthorised (keys : Map ℕ) (answers : List AuthResponseIp) (bytes : List ℕ)
    : Type 0 where
  pub packet : List ℕ
  pub meta : PacketMeta
  pub id : ℕ
  pub token : Text
  pub parsed : parse_packet_meta packet ≡ ok meta
  pub flow : lookup (conn_track_key meta) keys ≡ some id
  pub granted : Granted answers id token
  pub payload : bytes ≡ build_data_payload (encode token) (packet ∷ [])

-- A payload that asks for an authorisation.
abbrev pub IsRequest : List ℕ → Type 0
IsRequest bytes = (request : List ℕ) × (build_l3_auth_request_payload request ≡ ok bytes)

abbrev pub IsAllowed : Map ℕ → List AuthResponseIp → List ℕ → Type 0
IsAllowed keys answers bytes =
    IsAuthorised keys answers bytes ⊎ (IsRequest bytes ⊎ (bytes ≡ heartbeat))
