-- ===== src/Stream/Ends.antt =====
-- transport.rs: the reads of a connection that ends come to an end, and take what they return from
-- it.
use libreatrust.Base.{
  Bool, Bool-cases, List, Option, [], arith, byte_at, false, from_be16, if◌then◌else◌, inl, inr,
  is_empty, leb, length, length-drop, none, refl, some, subst, suc, true, zero, ℕ, ◌++◌, ◌+◌, ◌-◌,
  ◌<◌, ◌∷◌, ◌≡◌, ◌≢◌, ◌≤◌,
}
use libreatrust.Stream.{
  Io, IoResult, Reader, bind-ready, blocking_loop, byte_count, chunk, exact_loop, failed, failure,
  read_sized, read_tunnel_exact, read_tunnel_exact_blocking, ready, stuck, would_block, ◌>>=◌,
}

-- A step ends with the reads, and one that returns has taken `n` bytes at least.
abbrev pub Eats {ℓ} : {A : Type ℓ} → Reader → ℕ → IoResult A → Type 0
Eats events n (ready a rest) = n + byte_count rest ≤ byte_count events
Eats events n (failed e) = Unit
Eats events n stuck = ⊥

pub Eats-weaken {ℓ} :
    {A : Type ℓ} (events events' : Reader) (n n' : ℕ) (r : IoResult A)
    → n' + byte_count events ≤ n + byte_count events'
    → Eats events n r
    → Eats events' n' r
Eats-weaken events events' n n' (ready a rest) h e = omega arith
Eats-weaken events events' n n' (failed d) h e = tt
Eats-weaken events events' n n' stuck h e = absurd e

pub Eats-bind {ℓ κ} :
    {A : Type ℓ} {B : Type κ} (m : Io A) (f : A → Io B) (events : Reader) (n k : ℕ)
    → Eats events n (m events)
    → ((a : A) (rest : Reader) → Eats rest k (f a rest))
    → Eats events (n + k) ((m >>= f) events)
Eats-bind {A = A} {B = B} m f events n k hm hf = go (m events) refl hm
  where
    go : (r : IoResult A) → m events ≡ r → Eats events n r → Eats events (n + k) ((m >>= f) events)
    go (ready a rest) e h =
        rw (bind-ready m f events rest a e)
          (Eats-weaken rest events k (n + k) (f a rest) (omega arith) (hf a rest))
    go (failed d) e h = rw (e, ◌>>=◌) tt
    go stuck e h = absurd h

-- A loop over a buffer ends, with all its bytes taken, or with nothing taken and an event fewer.
abbrev pub Filled : Reader → ℕ → IoResult (Option (List ℕ)) → Type 0
Filled events n (ready (some bytes) rest) = n + byte_count rest ≤ byte_count events
Filled events n (ready none rest) =
    (byte_count rest ≤ byte_count events) × (length rest < length events)
Filled events n (failed e) = Unit
Filled events n stuck = ⊥

Filled-weaken :
    (events events' : Reader) (n n' : ℕ) (r : IoResult (Option (List ℕ)))
    → n' + byte_count events ≤ n + byte_count events'
    → byte_count events ≤ byte_count events'
    → length events ≤ length events'
    → Filled events n r
    → Filled events' n' r
Filled-weaken events events' n n' (ready (some bytes) rest) h hb hl f = omega arith
Filled-weaken events events' n n' (ready none rest) h hb hl f = (omega arith, omega arith)
Filled-weaken events events' n n' (failed d) h hb hl f = tt
Filled-weaken events events' n n' stuck h hb hl f = absurd f

pub exact_loop-Filled :
    (events : Reader) (n : ℕ) (filled : List ℕ) → Filled events n (exact_loop events n filled)
unfolding exact_loop
exact_loop-Filled events zero filled = omega arith
exact_loop-Filled [] (suc n) filled = tt
exact_loop-Filled (would_block ∷ events) (suc n) filled = elim (Bool-cases (is_empty filled)) [
  | inl e ↦ rw e (omega arith, omega arith)
  | inr e ↦ rw e (
      Filled-weaken events (would_block ∷ events) (suc n) (suc n) (exact_loop events (suc n) filled)
        (omega arith) (omega arith) (omega arith) (exact_loop-Filled events (suc n) filled))
]
exact_loop-Filled (failure m ∷ events) (suc n) filled = tt
exact_loop-Filled (chunk bytes ∷ events) (suc n) filled = elim (Bool-cases (is_empty bytes)) [
  | inl e ↦ rw e tt
  | inr e ↦ rw e (elim (Bool-cases (leb (length bytes) (suc n))) [
    | inl fits ↦ rw fits (
        Filled-weaken events (chunk bytes ∷ events) (suc n - length bytes) (suc n)
          (exact_loop events (suc n - length bytes) (filled ++ bytes)) (ground (arith, fits))
          (omega arith) (omega arith)
          (exact_loop-Filled events (suc n - length bytes) (filled ++ bytes)))
    | inr more ↦ rw more (ground (arith, more, length-drop (suc n) bytes))
  ])
]

blocking_round :
    (fuel n : ℕ) (events : Reader) (r : IoResult (Option (List ℕ)))
    → exact_loop events n [] ≡ r
    → Filled events n r
    → ((rest : Reader) → length rest < length events → Eats rest n (blocking_loop fuel n rest))
    → Eats events n (blocking_loop (suc fuel) n events)
unfolding blocking_loop read_tunnel_exact
blocking_round fuel n events (ready (some bytes) rest) e f again = rw (e, Eats) f
blocking_round fuel n events (ready none rest) e f again =
    rw (e, Eats)
      (Eats-weaken rest events n n (blocking_loop fuel n rest) (omega arith) (again rest f.1))
blocking_round fuel n events (failed d) e f again = rw (e, Eats) tt
blocking_round fuel n events stuck e f again = absurd f

blocking_loop-Eats :
    (fuel n : ℕ) (events : Reader)
    → length events < fuel
    → Eats events n (blocking_loop fuel n events)
blocking_loop-Eats zero n events h = absurd (omega arith)
blocking_loop-Eats (suc fuel) n events h =
    blocking_round fuel n events (exact_loop events n []) refl (exact_loop-Filled events n [])
      (λ rest less. blocking_loop-Eats fuel n rest (omega arith))

pub read_blocking-Eats :
    (n : ℕ) (events : Reader) → Eats events n (read_tunnel_exact_blocking n events)
unfolding read_tunnel_exact_blocking
read_blocking-Eats n events = blocking_loop-Eats (suc (length events)) n events (omega arith)

pub read_sized-Eats : (events : Reader) → Eats events 2 (read_sized events)
unfolding read_sized
read_sized-Eats events =
    Eats-bind (read_tunnel_exact_blocking 2) _ events 2 0 (read_blocking-Eats 2 events) (λ len rest.
      let size = from_be16 (byte_at len 0) (byte_at len 1) in
      Eats-weaken rest rest size 0 (read_tunnel_exact_blocking size rest) (omega arith)
        (read_blocking-Eats size rest))

pub Eats-if {ℓ} :
    {A : Type ℓ} (b : Bool) (m k : Io A) (events : Reader) (n : ℕ)
    → Eats events n (m events)
    → Eats events n (k events)
    → Eats events n ((if b then m else k) events)
Eats-if true m k events n hm hk = hm
Eats-if false m k events n hm hk = hk

-- A chain that returns takes as much as its first step.
pub Eats-first {ℓ κ} :
    {A : Type ℓ} {B : Type κ} (m : Io A) (f : A → Io B) (events : Reader) (n : ℕ)
    → Eats events n (m events)
    → ((a : A) (rest : Reader) → Eats rest 0 (f a rest))
    → Eats events n ((m >>= f) events)
Eats-first m f events n hm hf =
    Eats-weaken events events (n + 0) n ((m >>= f) events) (omega arith)
      (Eats-bind m f events n 0 hm hf)

pub Eats-none {ℓ} :
    {A : Type ℓ} (events : Reader) (n : ℕ) (r : IoResult A) → Eats events n r → Eats events 0 r
Eats-none events n r h = Eats-weaken events events n 0 r (omega arith) h

pub Eats-ends {ℓ} :
    {A : Type ℓ} (events : Reader) (n : ℕ) (r : IoResult A) → Eats events n r → r ≢ stuck
Eats-ends events n r h e = subst (Eats events n) e h

Filled-Eats :
    (events : Reader) (n : ℕ) (r : IoResult (Option (List ℕ))) → Filled events n r → Eats events 0 r
Filled-Eats events n (ready (some bytes) rest) f = omega arith
Filled-Eats events n (ready none rest) f = omega arith
Filled-Eats events n (failed d) f = tt
Filled-Eats events n stuck f = f

read_tunnel_exact-Eats : (n : ℕ) (events : Reader) → Eats events 0 (read_tunnel_exact n events)
unfolding read_tunnel_exact
read_tunnel_exact-Eats n events =
    Filled-Eats events n (exact_loop events n []) (exact_loop-Filled events n [])
