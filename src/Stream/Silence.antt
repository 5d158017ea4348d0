-- ===== src/Stream/Silence.antt =====
-- transport.rs: a read that blocks waits through every silence of the server, for the loop of
-- `read_tunnel_exact_blocking` goes on after a time-out and has no bound of its own.
use libreatrust.Base.{
  Bool, Bool-cases, List, [], ap, arith, byte_at, false, from_be16, if◌then◌else◌, inl, inr, leb,
  length, refl, some, suc, sym, true, zero, ℕ, ◌++◌, ◌-◌, ◌<◌, ◌∙◌, ◌∷◌, ◌≡◌, ◌⊎◌,
}
use libreatrust.Stream.{
  Io, IoResult, Reader, blocking_loop, chunk, exact_loop, failed, failure, read_sized,
  read_tunnel_exact, read_tunnel_exact_blocking, ready, stuck, would_block, ◌>>=◌,
}
use libreatrust.Error.{AtrError}

-- The events of a reader without its silences, the reads that would block or time out.
abbrev pub heard : Reader → Reader
heard [] = []
heard (would_block ∷ events) = heard events
heard (chunk bytes ∷ events) = chunk bytes ∷ heard events
heard (failure m ∷ events) = failure m ∷ heard events

abbrev pub heard_result {ℓ} : {A : Type ℓ} → IoResult A → IoResult A
heard_result (ready a rest) = ready a (heard rest)
heard_result (failed e) = failed e
heard_result stuck = stuck

-- A step that gives the same when the silences are left out.
abbrev pub IsPatient {ℓ} : {A : Type ℓ} → Io A → Type ℓ
IsPatient m = (events : Reader) → heard_result (m events) ≡ m (heard events)

-- A buffer that is filled by the same bytes, or fails alike, with and without the silences.
abbrev pub Settles : Reader → ℕ → List ℕ → Type 0
Settles events n filled =
    ((b : List ℕ) × (rest : Reader) × (exact_loop events n filled ≡ ready (some b) rest)
      × (exact_loop (heard events) n filled ≡ ready (some b) (heard rest)))
    ⊎ ((e : AtrError) × (exact_loop events n filled ≡ failed e)
        × (exact_loop (heard events) n filled ≡ failed e))

-- Once a byte stands in the buffer, the loop of `read_tunnel_exact` waits for the others.
pub exact_loop-Settles :
    (events : Reader) (n : ℕ) (b : ℕ) (filled : List ℕ) → Settles events n (b ∷ filled)
unfolding exact_loop
exact_loop-Settles events zero b filled = inl (_, events, refl, refl)
exact_loop-Settles [] (suc n) b filled = inr (_, refl, refl)
exact_loop-Settles (would_block ∷ events) (suc n) b filled =
    exact_loop-Settles events (suc n) b filled
exact_loop-Settles (failure m ∷ events) (suc n) b filled = inr (_, refl, refl)
exact_loop-Settles (chunk [] ∷ events) (suc n) b filled = inr (_, refl, refl)
exact_loop-Settles (chunk (c ∷ bytes) ∷ events) (suc n) b filled =
    elim (Bool-cases (leb (length (c ∷ bytes)) (suc n))) [
      | inl fits ↦
          let more =
            exact_loop-Settles events (suc n - length (c ∷ bytes)) b (filled ++ (c ∷ bytes)) in
          rw fits more
      | inr longer ↦ rw longer (inl (_, _, refl, refl))
    ]

-- So does a read that finds a byte at once.
pub exact_loop-first :
    (events : Reader) (n : ℕ) (c : ℕ) (bytes : List ℕ) → Settles (chunk (c ∷ bytes) ∷ events) n []
unfolding exact_loop
exact_loop-first events zero c bytes = inl (_, _, refl, refl)
exact_loop-first events (suc n) c bytes = elim (Bool-cases (leb (length (c ∷ bytes)) (suc n))) [
  | inl fits ↦
      let more = exact_loop-Settles events (suc n - length (c ∷ bytes)) c bytes in rw fits more
  | inr longer ↦ rw longer (inl (_, _, refl, refl))
]

settled-loop :
    (events : Reader) (n fuel g : ℕ)
    → Settles events n []
    → heard_result (blocking_loop (suc fuel) n events) ≡ blocking_loop (suc g) n (heard events)
unfolding blocking_loop read_tunnel_exact
settled-loop events n fuel g (inl (b, rest, e, e')) =
    rw (e, blocking_loop) (rw (e', blocking_loop) refl)
settled-loop events n fuel g (inr (d, e, e')) = rw (e, blocking_loop) (rw (e', blocking_loop) refl)

blocking_loop-heard :
    (fuel g n : ℕ) (events : Reader)
    → length events < fuel
    → heard_result (blocking_loop fuel n events) ≡ blocking_loop (suc g) n (heard events)
unfolding blocking_loop read_tunnel_exact exact_loop
blocking_loop-heard zero g n events h = absurd (omega arith)
blocking_loop-heard (suc fuel) g zero events h = refl
blocking_loop-heard (suc fuel) g (suc n) [] h = refl
blocking_loop-heard (suc fuel) g (suc n) (would_block ∷ events) h =
    blocking_loop-heard fuel g (suc n) events (omega arith)
blocking_loop-heard (suc fuel) g (suc n) (failure m ∷ events) h = refl
blocking_loop-heard (suc fuel) g (suc n) (chunk [] ∷ events) h = refl
blocking_loop-heard (suc fuel) g (suc n) (chunk (c ∷ bytes) ∷ events) h =
    settled-loop (chunk (c ∷ bytes) ∷ events) (suc n) fuel g
      (exact_loop-first events (suc n) c bytes)

pub read_blocking-IsPatient : (n : ℕ) → IsPatient (read_tunnel_exact_blocking n)
unfolding read_tunnel_exact_blocking
read_blocking-IsPatient n events =
    blocking_loop-heard (suc (length events)) (length (heard events)) n events (omega arith)

pub bind-IsPatient {ℓ κ} :
    {A : Type ℓ} {B : Type κ} (m : Io A) (f : A → Io B)
    → IsPatient m
    → ((a : A) → IsPatient (f a))
    → IsPatient (m >>= f)
bind-IsPatient {A = A} {B = B} m f hm hf events = go (m events) refl (sym (hm events))
  where
    go :
        (r : IoResult A)
        → m events ≡ r
        → m (heard events) ≡ heard_result (m events)
        → heard_result ((m >>= f) events) ≡ (m >>= f) (heard events)
    go (ready a rest) e h =
        let e' : m (heard events) ≡ ready a (heard rest) = h ∙ ap heard_result e in
        rw (e, ◌>>=◌) (rw (e', ◌>>=◌) (hf a rest))
    go (failed d) e h =
        let e' : m (heard events) ≡ failed d = h ∙ ap heard_result e in
        rw (e, ◌>>=◌) (rw (e', ◌>>=◌) refl)
    go stuck e h =
        let e' : m (heard events) ≡ stuck = h ∙ ap heard_result e in
        rw (e, ◌>>=◌) (rw (e', ◌>>=◌) refl)

pub if-IsPatient {ℓ} :
    {A : Type ℓ} (b : Bool) (m k : Io A)
    → IsPatient m
    → IsPatient k
    → (events : Reader)
    → heard_result ((if b then m else k) events) ≡ (if b then m else k) (heard events)
if-IsPatient true m k hm hk events = hm events
if-IsPatient false m k hm hk events = hk events

pub read_sized-IsPatient : IsPatient read_sized
unfolding read_sized
read_sized-IsPatient =
    bind-IsPatient (read_tunnel_exact_blocking 2) _ (read_blocking-IsPatient 2)
      (λ len_bytes. read_blocking-IsPatient (from_be16 (byte_at len_bytes 0) (byte_at len_bytes 1)))

abbrev silence : ℕ → Reader
silence zero = []
silence (suc n) = would_block ∷ silence n

-- A loop that has no bound but its rounds: a server that is silent for as many reads as there are
-- rounds leaves it without a result, however many these are.
blocking_loop-silence :
    (rounds n : ℕ) (events : Reader)
    → blocking_loop rounds (suc n) (silence rounds ++ events) ≡ stuck
unfolding blocking_loop read_tunnel_exact exact_loop
blocking_loop-silence zero n events = refl
blocking_loop-silence (suc rounds) n events = blocking_loop-silence rounds n events
