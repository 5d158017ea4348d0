-- ===== src/Stream.antt =====
-- transport.rs: reading from a tunnel's connection, `read_tunnel_exact` and
-- `read_tunnel_exact_blocking`.
pub mod Live
pub mod Front
pub mod Ends
pub mod Silence
use libreatrust.Base.{
  List, Option, Text, [], byte_at, drop, from_be16, if◌then◌else◌, is_empty, leb, length, none,
  refl, some, suc, take, zero, ℕ, ◌++◌, ◌+◌, ◌-◌, ◌∷◌, ◌≡◌,
}
use libreatrust.Error.{AtrError, about, literal, network_failed}

-- What one `read` of the connection gives: bytes, of which a short buffer leaves the rest for the
-- next call (`Ok(0)` is `chunk []`), a `WouldBlock` or `TimedOut` error, or another error.
pub data ReadEvent : Type 0 where
  chunk : List ℕ → ReadEvent
  would_block : ReadEvent
  failure : Text → ReadEvent

-- The events to come; after the last one the peer has closed, and every read gives `Ok(0)`. Silences
-- may be of any length, but a connection on which the server is silent for ever, or sends for ever,
-- is no `Reader`: on such a one the loops of the source go on for ever.
abbrev pub Reader : Type 0
Reader = List ReadEvent

-- A step that reads returns a value and the reader left, or fails, or its fuel has run out.
pub data IoResult {ℓ} (A : Type ℓ) : Type ℓ where
  ready : A → Reader → IoResult A
  failed : AtrError → IoResult A
  stuck : IoResult A

abbrev pub Io {ℓ} : Type ℓ → Type ℓ
Io A = Reader → IoResult A

infixl 5 ◌>>=◌ ◌>>◌
abbrev pub ◌>>=◌ {ℓ κ} : {A : Type ℓ} {B : Type κ} → Io A → (A → Io B) → Io B
◌>>=◌ m f events = elim (m events) [ ready a rest ↦ f a rest | failed e ↦ failed e | stuck ↦ stuck ]

abbrev pub ◌>>◌ {ℓ κ} : {A : Type ℓ} {B : Type κ} → Io A → Io B → Io B
m >> k = m >>= λ _. k

abbrev pub pure {ℓ} : {A : Type ℓ} → A → Io A
pure a events = ready a events

abbrev pub fail {ℓ} : {A : Type ℓ} → AtrError → Io A
fail e events = failed e

-- A step that returns passes its value on.
pub bind-ready {ℓ κ} :
    {A : Type ℓ} {B : Type κ} (m : Io A) (f : A → Io B) (events rest : Reader) (a : A)
    → m events ≡ ready a rest
    → (m >>= f) events ≡ f a rest
bind-ready m f events rest a e = rw (e, ◌>>=◌) refl

pub bind-failed {ℓ κ} :
    {A : Type ℓ} {B : Type κ} (m : Io A) (f : A → Io B) (events : Reader) (d : AtrError)
    → m events ≡ failed d
    → (m >>= f) events ≡ failed d
bind-failed m f events d e = rw (e, ◌>>=◌) refl

abbrev pub closed_error : List ℕ → AtrError
closed_error filled =
    if is_empty filled
    then network_failed (literal "connection closed by server")
    else network_failed (literal "unexpected eof in tcp tunnel frame")

-- The loop of `read_tunnel_exact`, on the bytes still wanted and those that stand in the buffer.
-- It returns `none` where the source returns `false`: nothing was there to read.
unfoldable pub exact_loop : Reader → ℕ → List ℕ → IoResult (Option (List ℕ))
exact_loop events zero filled = ready (some filled) events
exact_loop [] (suc n) filled = failed (closed_error filled)
exact_loop (would_block ∷ events) (suc n) filled =
    let again = exact_loop events (suc n) filled in
    if is_empty filled then ready none events else again
exact_loop (failure m ∷ events) (suc n) filled = failed (network_failed (about "" m))
exact_loop (chunk bytes ∷ events) (suc n) filled =
    let more = exact_loop events (suc n - length bytes) (filled ++ bytes) in
    if is_empty bytes
    then failed (closed_error filled)
    else if leb (length bytes) (suc n)
    then more
    else ready (some (filled ++ take (suc n) bytes)) (chunk (drop (suc n) bytes) ∷ events)

unfoldable pub read_tunnel_exact : ℕ → Io (Option (List ℕ))
unfolding exact_loop
read_tunnel_exact n events = exact_loop events n []

-- `while !read_tunnel_exact(reader, buf)? {}`
unfoldable pub blocking_loop : ℕ → ℕ → Io (List ℕ)
blocking_loop zero n events = stuck
blocking_loop (suc fuel) n events = elim (read_tunnel_exact n events) [
  | ready (some bytes) rest ↦ ready bytes rest
  | ready none rest ↦ blocking_loop fuel n rest
  | failed e ↦ failed e
  | stuck ↦ stuck
]

-- Every round that reads nothing takes an event.
unfoldable pub read_tunnel_exact_blocking : ℕ → Io (List ℕ)
unfolding blocking_loop read_tunnel_exact
read_tunnel_exact_blocking n events = blocking_loop (suc (length events)) n events

-- A length of two bytes, and as many bytes.
unfoldable pub read_sized : Io (List ℕ)
read_sized = do
  len_bytes ← read_tunnel_exact_blocking 2
  read_tunnel_exact_blocking (from_be16 (byte_at len_bytes 0) (byte_at len_bytes 1))

-- The bytes that an arbitrary reader can still give.
abbrev pub byte_count : Reader → ℕ
byte_count [] = 0
byte_count (chunk bytes ∷ events) = length bytes + byte_count events
byte_count (would_block ∷ events) = byte_count events
byte_count (failure m ∷ events) = byte_count events
