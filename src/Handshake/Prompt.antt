-- ===== src/Handshake/Prompt.antt =====
-- transport.rs: reading a connection whose bytes are all there.
use libreatrust.Base.{
  Bool-cases, List, Text, [], ap, append-nil, append_assoc, arith, drop, drop-append_exact,
  drop-append_le, inl, inr, leb, leb→le, length, length-append, refl, some, suc, sym, take,
  take-append_exact, take-append_le, zero, ℕ, ◌++◌, ◌-◌, ◌<◌, ◌∙◌, ◌∷◌, ◌≡◌, ◌≢◌, ◌≤◌,
}
use libreatrust.Stream.{Reader, chunk, exact_loop, failure, read_tunnel_exact, ready, would_block}
use libreatrust.Error.{AtrResult}
use libreatrust.Stream.Live.{IsLive, contents, drop-append, drop-ne-nil, not_empty, take-append}
use libreatrust.Handshake.{AuthResponseSid, read_exact, read_exact_loop}

-- Bytes are to come, in pieces, and no read has to wait for them.
abbrev pub IsPrompt : Reader → Type 0
IsPrompt [] = Unit
IsPrompt (chunk bytes ∷ events) = (bytes ≢ []) × IsPrompt events
IsPrompt (would_block ∷ events) = ⊥
IsPrompt (failure m ∷ events) = ⊥

pub IsPrompt-IsLive : (events : Reader) → IsPrompt events → IsLive events
IsPrompt-IsLive [] h = tt
IsPrompt-IsLive (chunk bytes ∷ events) h = (h.0, IsPrompt-IsLive events h.1)
IsPrompt-IsLive (would_block ∷ events) h = absurd h
IsPrompt-IsLive (failure m ∷ events) h = absurd h

-- A reader without its first bytes.
abbrev pub Rest : Reader → List ℕ → Type 0
Rest rest more = IsPrompt rest × (contents rest ≡ more)

module _ (blocked : Text) (read_sid : List ℕ → AtrResult AuthResponseSid) where
  exact_loop-prompt :
      (events : Reader) (n : ℕ) (filled : List ℕ)
      → IsPrompt events
      → n ≤ length (contents events)
      → (rest : Reader) × (read_exact_loop blocked read_sid events n filled
          ≡ ready (filled ++ take n (contents events)) rest)
        × (exact_loop events n filled ≡ ready (some (filled ++ take n (contents events))) rest)
        × Rest rest (drop n (contents events))
  unfolding read_exact_loop exact_loop
  exact_loop-prompt events zero filled h enough = (
    events,
    ap (λ bytes. ready bytes events) (sym (append-nil filled)),
    ap (λ bytes. ready (some bytes) events) (sym (append-nil filled)),
    (h, refl),
  )
  exact_loop-prompt [] (suc n) filled h enough = absurd (omega arith)
  exact_loop-prompt (would_block ∷ events) (suc n) filled h enough = absurd h
  exact_loop-prompt (failure m ∷ events) (suc n) filled h enough = absurd h
  exact_loop-prompt (chunk bytes ∷ events) (suc n) filled h enough =
      rw (not_empty bytes h.0) (elim (Bool-cases (leb (length bytes) (suc n))) [
        | inl fits ↦
            let le : length bytes ≤ suc n = leb→le _ _ fits in
            let (rest, e, e', r) =
              exact_loop-prompt events (suc n - length bytes) (filled ++ bytes) h.1
                (omega (arith, enough, length-append bytes (contents events))) in
            let same =
              append_assoc filled bytes (take (suc n - length bytes) (contents events))
              ∙ ap (λ t. filled ++ t) (sym (take-append (suc n) bytes (contents events) le)) in
            rw fits (
              rest,
              e ∙ ap (λ t. ready t rest) same,
              e' ∙ ap (λ t. ready (some t) rest) same,
              (r.0, r.1 ∙ sym (drop-append (suc n) bytes (contents events) le)),
            )
        | inr more ↦
            let lt : suc n < length bytes = ground (arith, more) in
            let same = sym (take-append_le (suc n) bytes (contents events) (omega arith)) in
            let rest = chunk (drop (suc n) bytes) ∷ events in
            rw more (
              rest,
              ap (λ t. ready (filled ++ t) rest) same,
              ap (λ t. ready (some (filled ++ t)) rest) same,
              (
                (drop-ne-nil (suc n) bytes lt, h.1),
                sym (drop-append_le (suc n) bytes (contents events) (omega arith)),
              ),
            )
      ])

  -- Both ways to read a known front of the bytes.
  pub read_exact-front :
      (events : Reader) (front more : List ℕ)
      → Rest events (front ++ more)
      → (rest : Reader) × (read_exact blocked read_sid (length front) events ≡ ready front rest)
        × (read_tunnel_exact (length front) events ≡ ready (some front) rest)
        × Rest rest more
  unfolding read_exact read_tunnel_exact
  read_exact-front events front more (prompt, e) =
      let (rest, r, r', t) =
        exact_loop-prompt events (length front) [] prompt
          (rw e (omega (arith, length-append front more))) in
      let same = ap (take (length front)) e ∙ take-append_exact front more in
      (
        rest,
        r ∙ ap (λ t. ready t rest) same,
        r' ∙ ap (λ t. ready (some t) rest) same,
        (t.0, t.1 ∙ ap (drop (length front)) e ∙ drop-append_exact front more),
      )
