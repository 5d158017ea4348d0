-- ===== src/Layer3/Steps/Callers.antt =====
-- transport.rs: what the callers of a remote keep.
use libreatrust.Base.{
  Bool-cases, List, Option-cases, Text, ap, if_both, inl, inr, none, refl, some, sym, text_eq,
  text_eq_iff, text_eq_refl, ℕ, ◌%◌, ◌+◌, ◌^◌, ◌∙◌, ◌∷◌, ◌≡◌,
}
use libreatrust.Error.{AtrResult, AtrResult-cases, err, ok}
use libreatrust.Map.{insert, lookup, lookup-insert}
use libreatrust.Envelope.{build_l3_auth_request_payload}
use libreatrust.Conntrack.{
  Conntrack, PacketMeta, conn_track_key, fresh_conntrack, get_or_create, parse_packet_meta,
  update_conntrack,
}
use libreatrust.Request.{Platform, build_auth_request}
use libreatrust.Layer3.{
  L3Remote, Progress, ask_auth, begin_write, conntrack_at, ensure_auth, finished, send_auth_request,
  start_auth, waits,
}
use libreatrust.Layer3.Steps.{Granted, IsAllowed, World, queued, with_remote}
use libreatrust.Layer3.Steps.Grants.{All-map, All-update}
use libreatrust.Layer3.Steps.Sound.{
  IsAllowed-grows, IsSound, conntrack_at-HoldsGrant, enqueue-IsSound, with_result-IsSound,
}

mark-IsSound :
    (w : World) (id : ℕ)
    → IsSound w
    → let mgr = w.remote.conntracks in
      IsSound (
        with_remote w (record w.remote {
          conntracks = record mgr { by_id = update_conntrack id start_auth mgr.by_id };
        }))
mark-IsSound w id sound = record {
  tokens =
      All-update
        (λ i ct. (token : Text) → ct.connect_token ≡ some token → Granted w.answers i token) id
        start_auth w.remote.conntracks.by_id (λ ct h. h) sound.tokens;
  sent = sound.sent;
  waiting = sound.waiting;
}

-- A new key: the store has one more conntrack, without a token.
extend-IsSound :
    (w : World) (key app_id : Text) (id : ℕ)
    → lookup key w.remote.conntracks.by_key ≡ none
    → IsSound w
    → IsSound (
        with_remote w (record w.remote {
          conntracks = record {
            next_auth_id = id;
            by_key = insert key id w.remote.conntracks.by_key;
            by_id = (id, fresh_conntrack id app_id) ∷ w.remote.conntracks.by_id;
          };
        }))
extend-IsSound w key app_id id absent sound =
    let keys = w.remote.conntracks.by_key in
    let grows : (k : Text) (i : ℕ)
        → lookup k keys ≡ some i
        → lookup k (insert key id keys) ≡ some i =
      λ k i e. lookup-insert key k id keys ∙ elim (Bool-cases (text_eq key k)) [
        | inl hit ↦
            let same : key ≡ k = (text_eq_iff key k).0 hit in
            let clash : none ≡ some i = sym absent ∙ ap (λ j. lookup j keys) same ∙ e in
            absurd (cc clash)
        | inr miss ↦ rw miss e
      ] in
    let allowed =
      IsAllowed-grows keys (insert key id keys) w.answers w.answers grows (λ i t g. g) in
    record {
      tokens = ((λ token e. absurd (cc e)), sound.tokens);
      sent = All-map (IsAllowed keys w.answers) _ allowed w.written sound.sent;
      waiting =
          All-map (IsAllowed keys w.answers) _ allowed (queued w.remote.commands) sound.waiting;
    }

-- What a call begins with: the key has the conntrack that it was given.
get_or_create-IsSound :
    (w : World) (key app_id : Text)
    → IsSound w
    → let known = get_or_create w.remote.conntracks key app_id in
      IsSound (with_remote w (record w.remote { conntracks = known.1 }))
      × (lookup key known.1.by_key ≡ some known.0)
unfolding get_or_create lookup
get_or_create-IsSound w key app_id sound =
    elim (Option-cases (lookup key w.remote.conntracks.by_key)) [
      | inr (id, e) ↦ rw (e, get_or_create) (sound, e)
      | inl absent ↦
          let id = (w.remote.conntracks.next_auth_id + 1) % 2 ^ 64 in
          rw (absent, get_or_create)
            (
              extend-IsSound w key app_id id absent sound,
              lookup-insert key key id w.remote.conntracks.by_key ∙ rw (text_eq_refl key) refl,
            )
    ]

module _ (platform : Platform) where
  send_auth_request-IsSound :
      (w : World) (ct : Conntrack) (meta : PacketMeta)
      → IsSound w
      → IsSound (with_remote w (send_auth_request platform ct meta w.remote).1)
  unfolding send_auth_request
  send_auth_request-IsSound w ct meta sound =
      elim (AtrResult-cases (build_auth_request platform w.remote.info w.remote.sign_key meta ct)) [
        | inr (e, failed) ↦ rw (failed, send_auth_request) sound
        | inl (request, built) ↦
            rw (built, send_auth_request)
              (elim (AtrResult-cases (build_l3_auth_request_payload request)) [
                | inr (e, failed) ↦ rw failed sound
                | inl (bytes, e) ↦ rw e (enqueue-IsSound w bytes (inr (inl (request, e))) sound)
              ])
      ]

  ask_auth-IsSound :
      (w : World) (id : ℕ) (app_id : Text) (meta : PacketMeta)
      → IsSound w
      → IsSound (with_remote w (ask_auth platform id app_id meta w.remote).1)
  unfolding ask_auth
  ask_auth-IsSound w id app_id meta sound = either _ (
      send_auth_request-IsSound _ (conntrack_at id app_id w.remote.conntracks) meta
        (mark-IsSound w id sound))
    where
      either :
          (asked : AtrResult (Unit {0}) × L3Remote)
          → IsSound (with_remote w asked.1)
          → IsSound (
              with_remote w (
                (elim asked.0 as (λ r. Progress × L3Remote) [
                  | err e ↦ (finished (err e), asked.1)
                  | ok u ↦ (waits id, asked.1)
                ]).1))
      either (err e, r) h = h
      either (ok u, r) h = h

  module _ (packet : List ℕ) (meta : PacketMeta) (parsed : parse_packet_meta packet ≡ ok meta) where
    ensure_auth-IsSound :
        (w : World) (id : ℕ) (app_id : Text)
        → lookup (conn_track_key meta) w.remote.conntracks.by_key ≡ some id
        → IsSound w
        → IsSound (with_remote w (ensure_auth platform id app_id meta packet w.remote).1)
    unfolding ensure_auth
    ensure_auth-IsSound w id app_id flow sound =
        let ct = conntrack_at id app_id w.remote.conntracks in
        let P : Progress × L3Remote → Type 0 = λ r. IsSound (with_remote w r.1) in
        elim (Option-cases ct.auth_result) [
          | inl undecided ↦
              rw (undecided, ensure_auth)
                (if_both P ct.auth_started _ _ sound (ask_auth-IsSound w id app_id meta sound))
          | inr (result, decided) ↦
              rw (decided, ensure_auth)
                (with_result-IsSound packet meta parsed w id result ct.connect_token flow
                  (conntrack_at-HoldsGrant w id app_id sound) sound)
        ]

    pub begin_write-IsSound :
        (w : World) (app_id : Text)
        → IsSound w
        → IsSound (with_remote w (begin_write platform meta app_id packet w.remote).1)
    unfolding begin_write
    begin_write-IsSound w app_id sound =
        let known = get_or_create-IsSound w (conn_track_key meta) app_id sound in
        ensure_auth-IsSound _ _ app_id known.1 known.0
