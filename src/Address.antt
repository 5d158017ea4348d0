-- ===== src/Address.antt =====
-- IPv4 and IPv6 literals as `std::net` parses and prints them.
pub mod Laws
pub mod Ipv6Text
pub mod RoundTrip
use libreatrust.Base.{
  Bool, Ipv4Addr, Option, Text, [], false, if◌then◌else◌, is_empty, leb, length, ltb, none, not,
  some, starts_with, suc, true, zero, ℕ, ◌&&◌, ◌*◌, ◌++◌, ◌+◌, ◌-◌, ◌==◌, ◌||◌, ◌∷◌,
}
use libreatrust.Decimal.{decimal}

infixl 5 ◌>>=◌ ◌>>◌
abbrev pub ◌>>=◌ {ℓ κ} : {A : Type ℓ} {B : Type κ} → Option A → (A → Option B) → Option B
none >>= f = none
some a >>= f = f a

abbrev pub ◌>>◌ {ℓ κ} : {A : Type ℓ} {B : Type κ} → Option A → Option B → Option B
m >> k = m >>= λ _. k

-- `char::to_digit`
pub digit : ℕ → ℕ → Option ℕ
digit radix c =
    let value =
      if leb b'0' c && leb c b'9'
      then c - 48
      else if leb b'a' c && leb c b'z'
      then c - 87
      else if leb b'A' c && leb c b'Z'
      then c - 55
      else 99 in
    if ltb value radix then some value else none

-- The loop of `read_number`: the value, the number of digits, and what follows them.
pub number_loop : ℕ → ℕ → ℕ → ℕ → ℕ → Text → Option (ℕ × ℕ × Text)
number_loop radix limit most acc count [] = some (acc, count, [])
number_loop radix limit most acc count (c ∷ s) = elim (digit radix c) [
  | none ↦ some (acc, count, c ∷ s)
  | some d ↦
      if ltb limit (acc * radix + d) || ltb most (count + 1)
      then none
      else number_loop radix limit most (acc * radix + d) (count + 1) s
]

-- `read_number(radix, Some(most), zero_prefix)` at a type whose greatest value is `limit`.
pub read_number : ℕ → ℕ → ℕ → Bool → Text → Option (ℕ × Text)
unfolding number_loop digit
read_number radix limit most zero_prefix s = do
  (value, count, rest) ← number_loop radix limit most 0 0 s
  if count == 0 || (not zero_prefix && starts_with (b'0' ∷ []) s && ltb 1 count)
      then none
      else some (value, rest)

-- `read_given_char`
pub given_char : ℕ → Text → Option Text
given_char x [] = none
given_char x (c ∷ s) = if c == x then some s else none

-- `read_ipv4_addr`
pub read_ipv4 : Text → Option (Ipv4Addr × Text)
unfolding given_char
read_ipv4 s = do
  (a, s1) ← read_number 10 255 3 false s
  s2 ← given_char b'.' s1
  (b, s3) ← read_number 10 255 3 false s2
  s4 ← given_char b'.' s3
  (c, s5) ← read_number 10 255 3 false s4
  s6 ← given_char b'.' s5
  (d, s7) ← read_number 10 255 3 false s6
  some (record { o0 = a; o1 = b; o2 = c; o3 = d }, s7)

-- `s.parse::<Ipv4Addr>()`
unfoldable pub parse_ipv4 : Text → Option Ipv4Addr
unfolding read_ipv4 read_number
parse_ipv4 s =
    if ltb 15 (length s)
    then none
    else do (ip, rest) ← read_ipv4 s; if is_empty rest then some ip else none

-- `read_separator(':', i, inner)`
separated {ℓ} : {A : Type ℓ} → Bool → (Text → Option (A × Text)) → Text → Option (A × Text)
unfolding given_char
separated true inner s = inner s
separated false inner s = do rest ← given_char b':' s; inner rest

-- `read_groups`: the groups read, whether an IPv4 address ended them, and what follows.
read_groups : ℕ → Bool → Text → ℕ × Bool × Text
unfolding separated read_ipv4 read_number
read_groups zero first s = (0, false, s)
read_groups (suc left) first s = elim (if ltb 0 left then separated first read_ipv4 s else none) [
  | some (ip, rest) ↦ (2, true, rest)
  | none ↦ elim (separated first (read_number 16 65535 4 true) s) [
    | none ↦ (0, false, s)
    | some (group, rest) ↦ let (n, v4, rest') = read_groups left false rest in (suc n, v4, rest')
  ]
]

-- `s.parse::<Ipv6Addr>().is_ok()`
unfoldable pub parses_as_ipv6 : Text → Bool
unfolding read_groups given_char
parses_as_ipv6 s =
    let (n, v4, rest) = read_groups 8 true s in
    if n == 8
    then is_empty rest
    else if v4
    then false
    else elim (do s1 ← given_char b':' rest; given_char b':' s1) [
      | none ↦ false
      | some tail ↦ let (m, v, end) = read_groups (8 - (n + 1)) true tail in is_empty end
    ]

-- `s.parse::<IpAddr>().is_ok()`
abbrev pub parses_as_ip : Text → Bool
parses_as_ip s = elim (parse_ipv4 s) [ some ip ↦ true | none ↦ parses_as_ipv6 s ]

-- `ip.to_string()`
unfoldable pub ipv4_text : Ipv4Addr → Text
ipv4_text ip =
    decimal ip.o0 ++ (b'.' ∷ (decimal ip.o1 ++ (b'.' ∷ (decimal ip.o2 ++ (b'.' ∷ decimal ip.o3)))))
