-- ===== src/Layer3/Steps/Sound.antt =====
-- transport.rs: whatever a remote sends is a heartbeat, a request, or a packet with a token that
-- the server gave for its flow.
use libreatrust.Base.{
  All, Bool, List, Option, Option-cases, Text, [], if_both, inl, inr, none, refl, some, ℕ, ◌++◌,
  ◌∷◌, ◌≡◌,
}
use libreatrust.Error.{AtrResult, err, ok}
use libreatrust.Utf8.{encode}
use libreatrust.Map.{Map, lookup}
use libreatrust.Envelope.{build_data_payload}
use libreatrust.Conntrack.{
  AuthResponseIp, Conntrack, PacketMeta, conn_track_key, find_conntrack, parse_packet_meta,
}
use libreatrust.Layer3.{
  L3Remote, L3RemoteCommand, Progress, close_command, conntrack_at, enqueue_payload, look_again,
  send_data, with_result, write_command,
}
use libreatrust.Layer3.Steps.{Granted, IsAllowed, World, queued, with_remote}
use libreatrust.Layer3.Steps.Grants.{All-find}

abbrev pub HoldsGrant : List AuthResponseIp → ℕ → Conntrack → Type 0
HoldsGrant answers id ct = (token : Text) → ct.connect_token ≡ some token → Granted answers id token

-- What holds of the tokens of the store, and of every payload that is written or waits.
pub record IsSound (w : World) : Type 0 where
  pub tokens : All (λ e. HoldsGrant w.answers e.0 e.1) w.remote.conntracks.by_id
  pub sent : All (IsAllowed w.remote.conntracks.by_key w.answers) w.written
  pub waiting : All (IsAllowed w.remote.conntracks.by_key w.answers) (queued w.remote.commands)

pub IsAllowed-grows :
    (keys keys' : Map ℕ) (answers answers' : List AuthResponseIp)
    → ((k : Text) (i : ℕ) → lookup k keys ≡ some i → lookup k keys' ≡ some i)
    → ((i : ℕ) (token : Text) → Granted answers i token → Granted answers' i token)
    → (bytes : List ℕ) → IsAllowed keys answers bytes
    → IsAllowed keys' answers' bytes
IsAllowed-grows keys keys' answers answers' more_keys more_answers bytes (inr other) = inr other
IsAllowed-grows keys keys' answers answers' more_keys more_answers bytes (inl a) = inl (record {
  packet = a.packet;
  meta = a.meta;
  id = a.id;
  token = a.token;
  parsed = a.parsed;
  flow = more_keys (conn_track_key a.meta) a.id a.flow;
  granted = more_answers a.id a.token a.granted;
  payload = a.payload;
})

All-queued :
    (P : List ℕ → Type 0) (commands : List L3RemoteCommand) (bytes : List ℕ)
    → All P (queued commands)
    → P bytes
    → All P (queued (commands ++ (write_command bytes ∷ [])))
unfolding queued
All-queued P [] bytes h b = (b, tt)
All-queued P (close_command ∷ commands) bytes h b = All-queued P commands bytes h b
All-queued P (write_command x ∷ commands) bytes h b = (h.0, All-queued P commands bytes h.1 b)

pub All-queued_close :
    (P : List ℕ → Type 0) (commands : List L3RemoteCommand)
    → All P (queued commands)
    → All P (queued (commands ++ (close_command ∷ [])))
unfolding queued
All-queued_close P [] h = tt
All-queued_close P (close_command ∷ commands) h = All-queued_close P commands h
All-queued_close P (write_command x ∷ commands) h = (h.0, All-queued_close P commands h.1)

pub enqueue-IsSound :
    (w : World) (bytes : List ℕ)
    → IsAllowed w.remote.conntracks.by_key w.answers bytes
    → IsSound w
    → IsSound (with_remote w (enqueue_payload bytes w.remote).1)
unfolding enqueue_payload
enqueue-IsSound w bytes allowed sound =
    let P : AtrResult (Unit {0}) × L3Remote → Type 0 = λ r. IsSound (with_remote w r.1) in
    if_both P w.remote.close_flag _ _ sound (
      if_both P w.remote.worker_runs _ _
        (record {
          tokens = sound.tokens;
          sent = sound.sent;
          waiting =
              All-queued (IsAllowed w.remote.conntracks.by_key w.answers) w.remote.commands bytes
                sound.waiting allowed;
        })
        sound)

pub conntrack_at-HoldsGrant :
    (w : World) (id : ℕ) (app_id : Text)
    → IsSound w
    → HoldsGrant w.answers id (conntrack_at id app_id w.remote.conntracks)
unfolding conntrack_at
conntrack_at-HoldsGrant w id app_id sound =
    elim (Option-cases (find_conntrack id w.remote.conntracks.by_id)) [
      | inl missing ↦ rw (missing, conntrack_at) (λ token e. absurd (cc))
      | inr (ct, found) ↦
          rw (found, conntrack_at)
            (All-find (HoldsGrant w.answers) id w.remote.conntracks.by_id ct found sound.tokens)
    ]

module _ (packet : List ℕ) (meta : PacketMeta) (parsed : parse_packet_meta packet ≡ ok meta) where
  send_data-IsSound :
      (w : World) (id : ℕ) (token : Option Text)
      → lookup (conn_track_key meta) w.remote.conntracks.by_key ≡ some id
      → ((t : Text) → token ≡ some t → Granted w.answers id t)
      → IsSound w
      → IsSound (with_remote w (send_data token packet w.remote).1)
  unfolding send_data
  send_data-IsSound w id none flow granted sound = sound
  send_data-IsSound w id (some token) flow granted sound =
      enqueue-IsSound w (build_data_payload (encode token) (packet ∷ []))
        (inl (record {
          packet = packet;
          meta = meta;
          id = id;
          token = token;
          parsed = parsed;
          flow = flow;
          granted = granted token refl;
          payload = refl;
        }))
        sound

  pub with_result-IsSound :
      (w : World) (id : ℕ) (result : AtrResult (Unit {0})) (token : Option Text)
      → lookup (conn_track_key meta) w.remote.conntracks.by_key ≡ some id
      → ((t : Text) → token ≡ some t → Granted w.answers id t)
      → IsSound w
      → IsSound (with_remote w (with_result result token packet w.remote).1)
  unfolding with_result
  with_result-IsSound w id (err e) token flow granted sound = sound
  with_result-IsSound w id (ok u) token flow granted sound =
      send_data-IsSound w id token flow granted sound

  pub look_again-IsSound :
      (w : World) (id : ℕ) (app_id : Text) (late : Bool)
      → lookup (conn_track_key meta) w.remote.conntracks.by_key ≡ some id
      → IsSound w
      → IsSound (with_remote w (look_again id app_id packet late w.remote).1)
  unfolding look_again
  look_again-IsSound w id app_id late flow sound =
      let ct = conntrack_at id app_id w.remote.conntracks in
      let P : Progress × L3Remote → Type 0 = λ r. IsSound (with_remote w r.1) in
      elim (Option-cases ct.auth_result) [
        | inl undecided ↦ rw (undecided, look_again) (if_both P late _ _ sound sound)
        | inr (result, decided) ↦
            rw (decided, look_again)
              (with_result-IsSound w id result ct.connect_token flow
                (conntrack_at-HoldsGrant w id app_id sound) sound)
      ]
