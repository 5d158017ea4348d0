-- ===== src/Stream/Live.antt =====
-- Reading does not depend on how the connection cuts and delays the bytes.
use libreatrust.Base.{
  Bool-cases, List, [], ap, append-nil, append_assoc, arith, drop, drop-append_le, false, inl, inr,
  is_empty, leb, leb→le, length, length-append, length-drop, none, refl, some, suc, sym, take,
  take-append_le, zero, ℕ, ◌++◌, ◌-◌, ◌<◌, ◌∙◌, ◌∷◌, ◌≡◌, ◌≢◌, ◌≤◌, ◌⊎◌,
}
use libreatrust.Stream.{
  Reader, blocking_loop, chunk, exact_loop, failure, read_tunnel_exact, read_tunnel_exact_blocking,
  ready, would_block,
}

-- Bytes are to come, in pieces and with delays, and nothing fails before them.
abbrev pub IsLive : Reader → Type 0
IsLive [] = Unit
IsLive (chunk bytes ∷ events) = (bytes ≢ []) × IsLive events
IsLive (would_block ∷ events) = IsLive events
IsLive (failure m ∷ events) = ⊥

-- The bytes to come.
abbrev pub contents : Reader → List ℕ
contents [] = []
contents (chunk bytes ∷ events) = bytes ++ contents events
contents (would_block ∷ events) = contents events
contents (failure m ∷ events) = []

-- The result of a read of `n` bytes that found them.
pub record Took (events : Reader) (n : ℕ) (rest : Reader) : Type 0 where
  pub live : IsLive rest
  pub left : contents rest ≡ drop n (contents events)
  pub shorter : length rest ≤ length events

-- The result of a read that found nothing yet.
pub record Waited (events rest : Reader) : Type 0 where
  pub live : IsLive rest
  pub left : contents rest ≡ contents events
  pub shorter : length rest < length events

pub take-append :
    (n : ℕ) (xs ys : List ℕ) → length xs ≤ n → take n (xs ++ ys) ≡ xs ++ take (n - length xs) ys
take-append n [] ys h = ap (λ k. take k ys) (omega arith)
take-append zero (x ∷ xs) ys h = absurd (omega arith)
take-append (suc n) (x ∷ xs) ys h =
    ap (λ t. x ∷ t) (take-append n xs ys (omega arith) ∙ ap (λ k. xs ++ take k ys) (omega arith))

pub drop-append :
    (n : ℕ) (xs ys : List ℕ) → length xs ≤ n → drop n (xs ++ ys) ≡ drop (n - length xs) ys
drop-append n [] ys h = ap (λ k. drop k ys) (omega arith)
drop-append zero (x ∷ xs) ys h = absurd (omega arith)
drop-append (suc n) (x ∷ xs) ys h =
    drop-append n xs ys (omega arith) ∙ ap (λ k. drop k ys) (omega arith)

pub not_empty : (xs : List ℕ) → xs ≢ [] → is_empty xs ≡ false
not_empty [] h = absurd (h refl)
not_empty (x ∷ xs) h = refl

append-ne-nil : (xs ys : List ℕ) → ys ≢ [] → xs ++ ys ≢ []
append-ne-nil [] ys h e = h e
append-ne-nil (x ∷ xs) ys h e = cc

pub drop-ne-nil : (n : ℕ) (xs : List ℕ) → n < length xs → drop n xs ≢ []
drop-ne-nil n xs h e = absurd (omega (arith, length-drop n xs, ap length e))

exact_loop-live :
    (events : Reader) (n : ℕ) (filled : List ℕ)
    → IsLive events
    → n ≤ length (contents events)
    → ((rest : Reader) × (exact_loop events n filled
          ≡ ready (some (filled ++ take n (contents events))) rest)
        × Took events n rest)
      ⊎ ((rest : Reader) × (exact_loop events n filled ≡ ready none rest)
          × (filled ≡ [])
          × Waited events rest)
unfolding exact_loop
exact_loop-live events zero filled live h = inl (
  events,
  ap (λ t. ready (some t) events) (sym (append-nil filled)),
  record { live = live; left = refl; shorter = omega arith },
)
exact_loop-live [] (suc n) filled live h = absurd (omega arith)
exact_loop-live (failure m ∷ events) (suc n) filled live h = absurd live
exact_loop-live (would_block ∷ events) (suc n) [] live h =
    inr (events, refl, refl, record { live = live; left = refl; shorter = omega arith })
exact_loop-live (would_block ∷ events) (suc n) (f ∷ filled) live h =
    elim (exact_loop-live events (suc n) (f ∷ filled) live h) [
      | inl (rest, e, t) ↦
          inl (rest, e, record { live = t.live; left = t.left; shorter = omega (arith, t.shorter) })
      | inr (rest, e, z, w) ↦ absurd (cc)
    ]
exact_loop-live (chunk bytes ∷ events) (suc n) filled live h =
    rw (not_empty bytes live.0) (elim (Bool-cases (leb (length bytes) (suc n))) [
      | inl fits ↦
          let le : length bytes ≤ suc n = leb→le _ _ fits in
          rw fits
            (elim (exact_loop-live events (suc n - length bytes) (filled ++ bytes) live.1
              (omega (arith, length-append bytes (contents events)))) [
                | inl (rest, e, t) ↦ inl (
                  rest,
                  e
                      ∙ ap (λ t. ready (some t) rest)
                          (append_assoc filled bytes (take (suc n - length bytes) (contents events))
                            ∙ ap (λ t. filled ++ t)
                                (sym (take-append (suc n) bytes (contents events) le))),
                  record {
                    live = t.live;
                    left = t.left ∙ sym (drop-append (suc n) bytes (contents events) le);
                    shorter = omega (arith, t.shorter);
                  },
                )
                | inr (rest, e, z, w) ↦ absurd (append-ne-nil filled bytes live.0 z)
              ])
      | inr more ↦
          let lt : suc n < length bytes = ground (arith, more) in
          rw more (
            inl (
              chunk (drop (suc n) bytes) ∷ events,
              ap (λ t. ready (some (filled ++ t)) (chunk (drop (suc n) bytes) ∷ events))
                  (sym (take-append_le (suc n) bytes (contents events) (omega arith))),
              record {
                live = (drop-ne-nil (suc n) bytes lt, live.1);
                left = sym (drop-append_le (suc n) bytes (contents events) (omega arith));
                shorter = omega arith;
              },
            ))
    ])

-- One `read_tunnel_exact` of `n` bytes that are to come either takes them, or finds nothing yet
-- and leaves them all to come.
pub read_tunnel_exact-live :
    (events : Reader) (n : ℕ)
    → IsLive events
    → n ≤ length (contents events)
    → ((rest : Reader) × (read_tunnel_exact n events ≡ ready (some (take n (contents events))) rest)
        × Took events n rest)
      ⊎ ((rest : Reader) × (read_tunnel_exact n events ≡ ready none rest) × Waited events rest)
unfolding read_tunnel_exact
read_tunnel_exact-live events n live h = elim (exact_loop-live events n [] live h) [
  | inl r ↦ inl r
  | inr (rest, e, z, w) ↦ inr (rest, e, w)
]

blocking_loop-live :
    (fuel : ℕ) (events : Reader) (n : ℕ)
    → length events < fuel
    → IsLive events
    → n ≤ length (contents events)
    → (rest : Reader) × (blocking_loop fuel n events ≡ ready (take n (contents events)) rest)
      × Took events n rest
unfolding blocking_loop
blocking_loop-live zero events n hf live h = absurd (omega arith)
blocking_loop-live (suc fuel) events n hf live h = elim (read_tunnel_exact-live events n live h) [
  | inl (rest, e, t) ↦ (rest, rw (e, blocking_loop), t)
  | inr (rest, e, w) ↦
      let less : length rest < length events = w.shorter in
      let same = w.left in
      let (rest', e', t) = blocking_loop-live fuel rest n (omega arith) w.live (rw same h) in
      (
        rest',
        rw (e, blocking_loop) (rw same at e'),
        record {
          live = t.live;
          left = t.left ∙ ap (drop n) same;
          shorter = omega (arith, t.shorter);
        },
      )
]

-- Where `n` bytes are to come, however they are cut and delayed, `read_tunnel_exact_blocking`
-- returns exactly the first `n` of them and leaves the others to come.
pub read_blocking-live :
    (events : Reader) (n : ℕ)
    → IsLive events
    → n ≤ length (contents events)
    → (rest : Reader) × (read_tunnel_exact_blocking n events
        ≡ ready (take n (contents events)) rest)
      × Took events n rest
unfolding read_tunnel_exact_blocking
read_blocking-live events n live h =
    blocking_loop-live (suc (length events)) events n (omega arith) live h
