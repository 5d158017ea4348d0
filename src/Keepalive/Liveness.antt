-- ===== src/Keepalive/Liveness.antt =====
-- transport.rs: when `L3Liveness` gives a connection up.
use libreatrust.Base.{
  Bool, List, [], any, false, leb, leb-true, leb→le, refl, true, ℕ, ◌&&◌, ◌-◌, ◌==◌, ◌||◌, ◌↔◌, ◌∷◌,
  ◌≡◌, ◌≤◌,
}
use libreatrust.Keepalive.{
  L3Liveness, is_stale, l3_heartbeat_reply_cmd, l3_liveness_timeout, new_liveness, record_frame,
}

-- The frames received since the start, the last first, as their commands and times.
abbrev pub recorded : ℕ → List (ℕ × ℕ) → L3Liveness
recorded start [] = new_liveness start
recorded start ((cmd, time) ∷ earlier) = record_frame (recorded start earlier) cmd time

abbrev pub last_time : ℕ → List (ℕ × ℕ) → ℕ
last_time start [] = start
last_time start ((cmd, time) ∷ earlier) = time

recorded_lem :
    (start : ℕ) (frames : List (ℕ × ℕ))
    → ((recorded start frames).last_frame_at ≡ last_time start frames)
      × ((recorded start frames).heartbeat_acknowledged
          ≡ any (λ f. f.0 == l3_heartbeat_reply_cmd) frames)
unfolding record_frame
recorded_lem start [] = (refl, refl)
recorded_lem start ((cmd, time) ∷ earlier) =
    let (t, h) = recorded_lem start earlier in
    (
      refl,
      rw h (
          or_comm (any (λ f. f.0 == l3_heartbeat_reply_cmd) earlier)
            (cmd == l3_heartbeat_reply_cmd)),
    )
  where
    or_comm : (a b : Bool) → (a || b) ≡ (b || a)
    or_comm true true = refl
    or_comm true false = refl
    or_comm false true = refl
    or_comm false false = refl

-- Whatever frames a connection has received, it is given up exactly when one of them was the
-- answer to a heartbeat and the last of them, of whatever kind, came at least 80 seconds ago.
is_stale_iff :
    (start now : ℕ) (frames : List (ℕ × ℕ))
    → (is_stale (recorded start frames) now ≡ true) ↔ (
        (any (λ f. f.0 == l3_heartbeat_reply_cmd) frames ≡ true)
        × (l3_liveness_timeout ≤ now - last_time start frames))
unfolding is_stale
is_stale_iff start now frames =
    let (t, h) = recorded_lem start frames in
    let seen = any (λ f. f.0 == l3_heartbeat_reply_cmd) frames in
    rw t (
      rw h (
        both seen (leb l3_liveness_timeout (now - last_time start frames)) (λ e. leb→le _ _ e)
          (λ e. leb-true _ _ e)))
  where
    both :
        {P : Type 0} (a b : Bool)
        → (b ≡ true → P)
        → (P → b ≡ true)
        → ((a && b) ≡ true) ↔ ((a ≡ true) × P)
    both true b f g = ((λ e. (refl, f e)), λ (e, p). g p)
    both false b f g = ((λ e. absurd (cc)), λ (e, p). absurd (cc))
