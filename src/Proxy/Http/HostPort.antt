-- ===== src/Proxy/Http/HostPort.antt =====
-- proxy_service.rs: `parse_host_port` on a host and a printed port.
use libreatrust.Base.{
  ==_refl, Bool-cases, IsU16, Text, [], ap, arith, contains_char, false, inl, inr, none, refl,
  rsplit_once, some, split_once, starts_with, ℕ, ◌++◌, ◌==◌, ◌∷◌, ◌≡◌,
}
use libreatrust.Error.{ok}
use libreatrust.Decimal.{decimal}
use libreatrust.Decimal.RoundTrip.{IsDigits, decimal-IsDigits, parse_u16-decimal}
use libreatrust.Proxy.Http.{bracketed_port, parse_host_port, plain_host_port}

rsplit_once-digits_none : (s : Text) → IsDigits s → rsplit_once b':' s ≡ none
rsplit_once-digits_none [] h = refl
rsplit_once-digits_none (c ∷ s) h =
    let front = h.0 in rw (rsplit_once-digits_none s h.1) (ground arith)

rsplit_once-last :
    (host s : Text) → IsDigits s → rsplit_once b':' (host ++ (b':' ∷ s)) ≡ some (host, s)
rsplit_once-last [] s h = rw (rsplit_once-digits_none s h) refl
rsplit_once-last (c ∷ host) s h = rw (rsplit_once-last host s h) refl

split_once-first :
    (x : ℕ) (host rest : Text)
    → contains_char x host ≡ false
    → split_once x (host ++ (x ∷ rest)) ≡ some (host, rest)
split_once-first x [] rest h = rw (==_refl x) refl
split_once-first x (c ∷ host) rest h = elim (Bool-cases (c == x)) [
  | inl e ↦ absurd (ground (arith, e))
  | inr e ↦
      let tail : contains_char x host ≡ false = rw e at h in
      rw e (rw (split_once-first x host rest tail) refl)
]

plain_host_port-decimal :
    (host : Text) (p default_port : ℕ)
    → IsU16 p
    → plain_host_port (host ++ (b':' ∷ decimal p)) default_port ≡ (host, p)
unfolding plain_host_port
plain_host_port-decimal host p default_port h =
    rw (rsplit_once-last host (decimal p) (decimal-IsDigits p), plain_host_port)
      (rw (parse_u16-decimal p h) refl)

plain_host :
    (host : Text) (p default_port : ℕ)
    → IsU16 p
    → starts_with (b'[' ∷ []) host ≡ false
    → parse_host_port (host ++ (b':' ∷ decimal p)) default_port ≡ ok (host, p)
unfolding parse_host_port
plain_host [] p default_port h hs = ap ok (plain_host_port-decimal [] p default_port h)
plain_host (c ∷ s) p default_port h hs =
    let other : c == b'[' ≡ false = ground (arith, hs) in
    rw other (ap ok (plain_host_port-decimal (c ∷ s) p default_port h))

-- A host that does not start with a bracket and has no closing one is read back from its text
-- with a printed port of 16 bits behind a colon, and so it is where it stands in brackets. The
-- default port plays no part.
parse_host_port-decimal :
    (host : Text) (p default_port : ℕ)
    → IsU16 p
    → starts_with (b'[' ∷ []) host ≡ false
    → contains_char b']' host ≡ false
    → (parse_host_port (host ++ (b':' ∷ decimal p)) default_port ≡ ok (host, p))
      × (parse_host_port (b'[' ∷ (host ++ (b']' ∷ b':' ∷ decimal p))) default_port ≡ ok (host, p))
unfolding parse_host_port bracketed_port
parse_host_port-decimal host p default_port h open_free close_free = (
  plain_host host p default_port h open_free,
  rw (split_once-first b']' host (b':' ∷ decimal p) close_free) (rw (parse_u16-decimal p h) refl),
)
