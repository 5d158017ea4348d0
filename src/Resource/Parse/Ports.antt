-- ===== src/Resource/Parse/Ports.antt =====
-- The port ranges of resource.rs.
use libreatrust.Base.{IsU16, Text, [], arith, none, refl, some, split_once, ℕ, ◌++◌, ◌∷◌, ◌≡◌}
use libreatrust.Error.{ok}
use libreatrust.Decimal.{decimal}
use libreatrust.Decimal.RoundTrip.{IsDigits, decimal-IsDigits, parse_u16-decimal}
use libreatrust.Resource.Entries.{parse_port_range}

split_once-IsDigits :
    (s rest : Text) → IsDigits s → split_once b'-' (s ++ (b'-' ∷ rest)) ≡ some (s, rest)
split_once-IsDigits [] rest h = refl
split_once-IsDigits (c ∷ s) rest h =
    let front = h.0 in let ih = split_once-IsDigits s rest h.1 in rw ih (ground arith)

split_once-digits_none : (s : Text) → IsDigits s → split_once b'-' s ≡ none
split_once-digits_none [] h = refl
split_once-digits_none (c ∷ s) h =
    let front = h.0 in let ih = split_once-digits_none s h.1 in rw ih (ground arith)

-- `parse_port_range` reads a printed port as the range of that port, and two printed ports with
-- a hyphen between them as their range.
parse_port_range-decimal :
    (a b : ℕ)
    → IsU16 a
    → IsU16 b
    → (parse_port_range (decimal a) ≡ ok (a, a))
      × (parse_port_range (decimal a ++ (b'-' ∷ decimal b)) ≡ ok (a, b))
unfolding parse_port_range
parse_port_range-decimal a b ha hb = (
  rw (split_once-digits_none (decimal a) (decimal-IsDigits a)) (rw (parse_u16-decimal a ha)),
  rw (split_once-IsDigits (decimal a) (decimal b) (decimal-IsDigits a))
      (rw (parse_u16-decimal a ha) (rw (parse_u16-decimal b hb))),
)
