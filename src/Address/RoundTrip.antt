-- ===== src/Address/RoundTrip.antt =====
-- An IPv4 address that is printed parses back, and what parses is four octets.
use libreatrust.Base.{
  Bool-cases, Ipv4Addr, IsIpv4, Option, Text, [], ap, append-nil, arith, false, if◌then◌else◌, inl,
  inr, is_empty, length, length-append, ltb, ltb-false, ltb→lt, none, refl, some, starts_with, ℕ,
  ◌%◌, ◌*◌, ◌++◌, ◌+◌, ◌/◌, ◌<◌, ◌∙◌, ◌∷◌, ◌≡◌, ◌≤◌, ◌⊎◌,
}
use libreatrust.Decimal.{decimal}
use libreatrust.Decimal.RoundTrip.{digits_from-more, digits_from-one}
use libreatrust.Address.{digit, ipv4_text, number_loop, parse_ipv4, read_ipv4, read_number, ◌>>=◌}

digit_ten : (d : ℕ) → d < 10 → digit 10 (48 + d) ≡ some d
unfolding digit
digit_ten d h = ground arith

-- One more digit is read, while the value and the number of digits stay in range.
loop_digit :
    (acc count d : ℕ) (s : Text)
    → d < 10
    → acc * 10 + d ≤ 255
    → count < 3
    → number_loop 10 255 3 acc count ((48 + d) ∷ s)
      ≡ number_loop 10 255 3 (acc * 10 + d) (count + 1) s
unfolding number_loop
loop_digit acc count d s hd hl hc =
    rw (digit_ten d hd, number_loop)
      (rw (ltb-false 255 (acc * 10 + d) hl) (rw (ltb-false 3 (count + 1) (omega arith))))

-- A text that no digit continues.
abbrev IsStop : Text → Type 0
IsStop s = (s ≡ []) ⊎ ((rest : Text) × (s ≡ b'.' ∷ rest))

loop_stop :
    (acc count : ℕ) (s : Text) → IsStop s → number_loop 10 255 3 acc count s ≡ some (acc, count, s)
unfolding number_loop digit
loop_stop acc count s (inl e) = rw e
loop_stop acc count s (inr (rest, e)) = rw e

-- An octet as it is printed: one, two or three digits.
decimal_small : (n : ℕ) → n < 10 → decimal n ≡ (48 + n) ∷ []
unfolding decimal
decimal_small n h = digits_from-one 19 n h

decimal_two : (n : ℕ) → 10 ≤ n → n < 100 → decimal n ≡ (48 + n / 10) ∷ (48 + n % 10) ∷ []
unfolding decimal
decimal_two n lo hi =
    digits_from-more 19 n lo
    ∙ ap (λ t. t ++ ((48 + n % 10) ∷ [])) (digits_from-one 18 (n / 10) (omega arith))

decimal_three :
    (n : ℕ)
    → 100 ≤ n
    → n < 1000
    → decimal n ≡ (48 + n / 100) ∷ (48 + n / 10 % 10) ∷ (48 + n % 10) ∷ []
unfolding decimal
decimal_three n lo hi =
    digits_from-more 19 n (omega arith)
    ∙ ap (λ t. t ++ ((48 + n % 10) ∷ [])) (digits_from-more 18 (n / 10) (omega arith))
    ∙ rw (digits_from-one 17 (n / 10 / 10) (omega arith))
        (ap (λ t. (48 + t) ∷ (48 + n / 10 % 10) ∷ (48 + n % 10) ∷ []) (omega arith))

abbrev read_octet : Text → Option (ℕ × Text)
read_octet = read_number 10 255 3 false

-- `read_number` after its loop.
read_octet_of :
    (s rest : Text) (value count : ℕ)
    → number_loop 10 255 3 0 0 s ≡ some (value, count, rest)
    → 0 < count
    → (starts_with (b'0' ∷ []) s ≡ false) ⊎ (count ≡ 1)
    → read_octet s ≡ some (value, rest)
unfolding read_number
read_octet_of s rest value count e h z = rw e (ground arith)

read_one : (n : ℕ) (s : Text) → n < 10 → IsStop s → read_octet (decimal n ++ s) ≡ some (n, s)
read_one n s h stop = rw (decimal_small n h) (
    read_octet_of ((48 + n) ∷ s) s n 1
      (loop_digit 0 0 n s h (omega arith) (omega arith)
        ∙ loop_stop (0 * 10 + n) (0 + 1) s stop
        ∙ ap (λ t. some (t, 1, s)) (omega arith))
      (omega arith) (inr refl))

not_zero : (c : ℕ) (s : Text) → 0 < c → starts_with (b'0' ∷ []) ((48 + c) ∷ s) ≡ false
not_zero c s h = ground arith

read_two :
    (n : ℕ) (s : Text) → 10 ≤ n → n < 100 → IsStop s → read_octet (decimal n ++ s) ≡ some (n, s)
read_two n s lo hi stop =
    let t : Text = (48 + n % 10) ∷ s in
    rw (decimal_two n lo hi) (
      read_octet_of ((48 + n / 10) ∷ t) s n 2
        (loop_digit 0 0 (n / 10) t (omega arith) (omega arith) (omega arith)
          ∙ loop_digit (0 * 10 + n / 10) (0 + 1) (n % 10) s (omega arith) (omega arith)
              (omega arith)
          ∙ loop_stop ((0 * 10 + n / 10) * 10 + n % 10) (0 + 1 + 1) s stop
          ∙ ap (λ t. some (t, 2, s)) (omega arith))
        (omega arith) (inl (not_zero (n / 10) t (omega arith))))

read_three :
    (n : ℕ) (s : Text) → 100 ≤ n → n < 256 → IsStop s → read_octet (decimal n ++ s) ≡ some (n, s)
read_three n s lo hi stop =
    let u : Text = (48 + n % 10) ∷ s in
    let t : Text = (48 + n / 10 % 10) ∷ u in
    let a = 0 * 10 + n / 100 in
    let b = a * 10 + n / 10 % 10 in
    rw (decimal_three n lo (omega arith)) (
      read_octet_of ((48 + n / 100) ∷ t) s n 3
        (loop_digit 0 0 (n / 100) t (omega arith) (omega arith) (omega arith)
          ∙ loop_digit a (0 + 1) (n / 10 % 10) u (omega arith) (omega arith) (omega arith)
          ∙ loop_digit b (0 + 1 + 1) (n % 10) s (omega arith) (omega arith) (omega arith)
          ∙ loop_stop (b * 10 + n % 10) (0 + 1 + 1 + 1) s stop
          ∙ ap (λ t. some (t, 3, s)) (omega arith))
        (omega arith) (inl (not_zero (n / 100) t (omega arith))))

read_octet-decimal :
    (n : ℕ) (s : Text) → n < 256 → IsStop s → read_octet (decimal n ++ s) ≡ some (n, s)
read_octet-decimal n s h stop = elim (Bool-cases (ltb n 10)) [
  | inl one ↦ read_one n s (ltb→lt n 10 one) stop
  | inr more ↦ elim (Bool-cases (ltb n 100)) [
    | inl two ↦ read_two n s (ground arith) (ltb→lt n 100 two) stop
    | inr three ↦ read_three n s (ground arith) h stop
  ]
]

read_octet-decimal_last : (n : ℕ) → n < 256 → read_octet (decimal n) ≡ some (n, [])
read_octet-decimal_last n h = rw append-nil at (read_octet-decimal n [] h (inl refl))

dot : (s : Text) → IsStop (b'.' ∷ s)
dot s = inr (s, refl)

read_ipv4-ipv4_text : (ip : Ipv4Addr) → IsIpv4 ip → read_ipv4 (ipv4_text ip) ≡ some (ip, [])
unfolding read_ipv4 ipv4_text
read_ipv4-ipv4_text ip h =
    let s3 = decimal ip.o3 in
    let s2 = decimal ip.o2 ++ (b'.' ∷ s3) in
    let s1 = decimal ip.o1 ++ (b'.' ∷ s2) in
    rw (read_octet-decimal ip.o0 (b'.' ∷ s1) h.b0 (dot s1)) (
      rw (read_octet-decimal ip.o1 (b'.' ∷ s2) h.b1 (dot s2)) (
        rw (read_octet-decimal ip.o2 (b'.' ∷ s3) h.b2 (dot s3))
          (rw (read_octet-decimal_last ip.o3 h.b3))))

length-decimal : (n : ℕ) → n < 256 → length (decimal n) ≤ 3
length-decimal n h = elim (Bool-cases (ltb n 10)) [
  | inl one ↦ rw (decimal_small n (ltb→lt n 10 one)) (omega arith)
  | inr more ↦ elim (Bool-cases (ltb n 100)) [
    | inl two ↦ rw (decimal_two n (ground arith) (ltb→lt n 100 two)) (omega arith)
    | inr three ↦ rw (decimal_three n (ground arith) (omega arith)) (omega arith)
  ]
]

length-dotted :
    (n k : ℕ) (s : Text) → n < 256 → length s ≤ k → length (decimal n ++ (b'.' ∷ s)) ≤ k + 4
length-dotted n k s h hs =
    rw (length-append (decimal n) (b'.' ∷ s)) (omega (arith, length-decimal n h))

length-ipv4_text : (ip : Ipv4Addr) → IsIpv4 ip → length (ipv4_text ip) ≤ 15
unfolding ipv4_text
length-ipv4_text ip h =
    length-dotted ip.o0 11 _ h.b0
      (length-dotted ip.o1 7 _ h.b1 (length-dotted ip.o2 3 _ h.b2 (length-decimal ip.o3 h.b3)))

-- `to_string` of an address of four octets parses back as that address.
pub parse_ipv4-ipv4_text : (ip : Ipv4Addr) → IsIpv4 ip → parse_ipv4 (ipv4_text ip) ≡ some ip
unfolding parse_ipv4
parse_ipv4-ipv4_text ip h = rw (ltb-false 15 (length (ipv4_text ip)) (length-ipv4_text ip h)) (
    ap {B = Option Ipv4Addr} (λ r. r >>= λ p. if is_empty p.1 then some p.0 else none)
      (read_ipv4-ipv4_text ip h))
