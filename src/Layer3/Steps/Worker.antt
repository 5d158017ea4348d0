-- ===== src/Layer3/Steps/Worker.antt =====
-- transport.rs: what the worker of a remote keeps, and what it ever writes.
use libreatrust.Base.{
  All, Bool-cases, List, Option-cases, [], arith, if_both, inl, inr, is_empty, not, refl, some, ℕ,
  ◌&&◌, ◌==◌, ◌∷◌, ◌≡◌,
}
use libreatrust.Error.{AtrError, AtrResult, AtrResult-cases}
use libreatrust.Conntrack.{
  AuthResponseIp, Conntrack, answer_token, answered, fail_pending, find_conntrack, handle_auth_resp,
  is_zero,
}
use libreatrust.Request.{Platform}
use libreatrust.Layer3.{
  L3RemoteCommand, close_command, close_remote, drain_l3_remote_commands, heartbeat, send_heartbeat,
  write_command,
}
use libreatrust.Layer3.Steps.{
  IsAllowed, Reaches, Step, World, beats, begins, closes, drain_world, drains, ends, fails, flags,
  hear, heard, hears, looks, queued, start, step, with_remote,
}
use libreatrust.Layer3.Steps.Grants.{All-append, All-fail, All-map, All-update}
use libreatrust.Layer3.Steps.Sound.{
  All-queued_close, HoldsGrant, IsAllowed-grows, IsSound, enqueue-IsSound, look_again-IsSound,
}
use libreatrust.Layer3.Steps.Callers.{begin_write-IsSound}

more_answers :
    (w : World) (resp : AuthResponseIp)
    → IsSound w
    → IsSound (record { remote = w.remote; written = w.written; answers = resp ∷ w.answers })
more_answers w resp sound =
    let keys = w.remote.conntracks.by_key in
    let allowed =
      IsAllowed-grows keys keys w.answers (resp ∷ w.answers) (λ k i e. e) (λ i t g. inr g) in
    record {
      tokens =
          All-map (λ e. HoldsGrant w.answers e.0 e.1) (λ e. HoldsGrant (resp ∷ w.answers) e.0 e.1)
            (λ e h token t. inr (h token t)) w.remote.conntracks.by_id sound.tokens;
      sent = All-map (IsAllowed keys w.answers) _ allowed w.written sound.sent;
      waiting =
          All-map (IsAllowed keys w.answers) _ allowed (queued w.remote.commands) sound.waiting;
    }

answered-HoldsGrant :
    (resp : AuthResponseIp) (answers : List AuthResponseIp) (ct : Conntrack)
    → HoldsGrant (resp ∷ answers) resp.conntrack_hash ct
    → HoldsGrant (resp ∷ answers) resp.conntrack_hash (answered resp ct)
answered-HoldsGrant resp answers ct old token e =
    let success = is_zero resp.code && not (is_empty (answer_token resp)) in
    elim (Bool-cases success) [
      | inl good ↦
          let e' : some (answer_token resp) ≡ some token = rw good at e in
          let same : answer_token resp ≡ token = cc in
          inl (refl, ground (arith, good), ground (arith, good), same)
      | inr bad ↦ old token (rw bad at e)
    ]

module _ (from_json : List ℕ → AtrResult AuthResponseIp) where
  hear-IsSound :
      (w : World) (status : ℕ) (bytes : List ℕ)
      → IsSound w
      → IsSound (hear from_json status bytes w)
  unfolding heard handle_auth_resp
  hear-IsSound w status bytes sound = elim (Bool-cases (status == 0)) [
    | inr other ↦ rw (other, heard, handle_auth_resp) sound
    | inl zero_status ↦
        rw (zero_status, heard, handle_auth_resp)
          (elim (AtrResult-cases (from_json bytes)) [
            | inr (e, unread) ↦ rw unread sound
            | inl (resp, e) ↦
                rw e
                  (elim (Option-cases
                    (find_conntrack resp.conntrack_hash w.remote.conntracks.by_id)) [
                      | inl missing ↦ rw missing (more_answers w resp sound)
                      | inr (ct, found) ↦
                          let more = more_answers w resp sound in
                          rw found (record {
                            tokens =
                                All-update (HoldsGrant (resp ∷ w.answers)) resp.conntrack_hash
                                  (answered resp) w.remote.conntracks.by_id
                                  (answered-HoldsGrant resp w.answers) more.tokens;
                            sent = more.sent;
                            waiting = more.waiting;
                          })
                    ])
          ])
  ]

fails-IsSound :
    (w : World) (error : AtrError)
    → IsSound w
    → IsSound
        (with_remote w (record w.remote { conntracks = fail_pending error w.remote.conntracks }))
unfolding fail_pending
fails-IsSound w error sound = record {
  tokens =
      All-fail (HoldsGrant w.answers) error w.remote.conntracks.by_id (λ i ct h. h) sound.tokens;
  sent = sound.sent;
  waiting = sound.waiting;
}

closes-IsSound : (w : World) → IsSound w → IsSound (with_remote w (close_remote w.remote))
unfolding close_remote
closes-IsSound w sound =
    let keys = w.remote.conntracks.by_key in
    let P = IsAllowed keys w.answers in
    let more = All-queued_close P w.remote.commands sound.waiting in
    if_both (λ r. IsSound (with_remote w r)) w.remote.close_flag _ _ sound
      (record {
        tokens = sound.tokens;
        sent = sound.sent;
        waiting = if_both (λ cs. All P (queued cs)) w.remote.worker_runs _ _ more sound.waiting;
      })

All-drained :
    (P : List ℕ → Type 0) (write_all : List ℕ → AtrResult (Unit {0}))
    (flushed : AtrResult (Unit {0})) (commands : List L3RemoteCommand)
    → All P (queued commands)
    → let drained = drain_l3_remote_commands write_all flushed commands in
      All P drained.written × All P (queued drained.left)
unfolding drain_l3_remote_commands queued
All-drained P write_all flushed [] h = (tt, tt)
All-drained P write_all flushed (close_command ∷ commands) h = (tt, h)
All-drained P write_all flushed (write_command bytes ∷ commands) h =
    let ih = All-drained P write_all flushed commands h.1 in
    elim (AtrResult-cases (write_all bytes)) [
      | inl (u, e) ↦ rw (e, drain_l3_remote_commands, All, queued) ((h.0, ih.0), ih.1)
      | inr (d, e) ↦ rw (e, drain_l3_remote_commands, All, queued) (tt, h.1)
    ]

drains-IsSound :
    (w : World) (write_all : List ℕ → AtrResult (Unit {0})) (flushed : AtrResult (Unit {0}))
    → IsSound w
    → IsSound (drain_world write_all flushed w)
drains-IsSound w write_all flushed sound =
    let P = IsAllowed w.remote.conntracks.by_key w.answers in
    let drained = All-drained P write_all flushed w.remote.commands sound.waiting in
    record {
      tokens = sound.tokens;
      sent = All-append P w.written _ sound.sent drained.0;
      waiting = drained.1;
    }

module _ (platform : Platform) (from_json : List ℕ → AtrResult AuthResponseIp) where
  Step-IsSound : {w w' : World} → Step platform from_json w w' → IsSound w → IsSound w'
  unfolding send_heartbeat
  Step-IsSound {w} (begins packet meta app_id parsed) sound =
      begin_write-IsSound platform packet meta parsed w app_id sound
  Step-IsSound {w} (looks packet meta app_id id late parsed flow) sound =
      look_again-IsSound packet meta parsed w id app_id late flow sound
  Step-IsSound {w} beats sound = enqueue-IsSound w heartbeat (inr (inr refl)) sound
  Step-IsSound {w} closes sound = closes-IsSound w sound
  Step-IsSound {w} (hears status bytes) sound = hear-IsSound from_json w status bytes sound
  Step-IsSound {w} (drains write_all flushed) sound = drains-IsSound w write_all flushed sound
  Step-IsSound {w} flags sound = record {
    tokens = sound.tokens;
    sent = sound.sent;
    waiting = sound.waiting;
  }
  Step-IsSound {w} (fails error) sound = fails-IsSound w error sound
  Step-IsSound {w} ends sound = record {
    tokens = sound.tokens;
    sent = sound.sent;
    waiting = sound.waiting;
  }

  Reaches-IsSound : {w : World} → Reaches platform from_json w → IsSound w
  unfolding queued
  Reaches-IsSound (start info sign_key) = record { tokens = tt; sent = tt; waiting = tt }
  Reaches-IsSound (step r s) = Step-IsSound s (Reaches-IsSound r)

  -- In every state that a new remote reaches by any order of calls, answers, closings and steps of
  -- the worker, each payload that has been written is a heartbeat, a request for an authorisation,
  -- or one packet with a token that a successful answer gave to the conntrack of this packet's
  -- flow.
  pub Reaches-IsAllowed :
      (w : World)
      → Reaches platform from_json w
      → All (IsAllowed w.remote.conntracks.by_key w.answers) w.written
  Reaches-IsAllowed w r = let sound : IsSound w = Reaches-IsSound r in sound.sent
