-- ===== src/Decimal.antt =====
-- Decimal numbers as Rust prints and parses them (`to_string`, `str::parse::<u16>`).
pub mod RoundTrip
use libreatrust.Base.{
  Option, Text, [], if◌then◌else◌, is_digit, leb, ltb, none, some, suc, zero, ℕ, ◌%◌, ◌&&◌, ◌*◌,
  ◌++◌, ◌+◌, ◌-◌, ◌/◌, ◌==◌, ◌∷◌,
}

-- `to_string` of an unsigned number, with one round for each digit.
pub digits_from : ℕ → ℕ → Text
digits_from zero n = []
digits_from (suc rounds) n =
    let front = digits_from rounds (n / 10) in
    if ltb n 10 then (48 + n) ∷ [] else front ++ ((48 + n % 10) ∷ [])

-- Twenty digits are enough for a `u64`.
unfoldable pub decimal : ℕ → Text
unfolding digits_from
decimal n = digits_from 20 n

-- The loop of `from_str_radix`: every character a digit, and no step past the type's `MAX`.
pub parse_digits : ℕ → ℕ → Text → Option ℕ
parse_digits limit acc [] = some acc
parse_digits limit acc (c ∷ s) =
    let next = acc * 10 + (c - 48) in
    if is_digit c && leb next limit then parse_digits limit next s else none

-- `s.parse()` at an unsigned type whose greatest value is `limit`.
unfoldable pub parse_unsigned : ℕ → Text → Option ℕ
unfolding parse_digits
parse_unsigned limit [] = none
parse_unsigned limit (c ∷ []) = parse_digits limit 0 (c ∷ [])
parse_unsigned limit (c ∷ d ∷ s) =
    if c == b'+' then parse_digits limit 0 (d ∷ s) else parse_digits limit 0 (c ∷ d ∷ s)

abbrev pub parse_u16 : Text → Option ℕ
parse_u16 = parse_unsigned 65535
