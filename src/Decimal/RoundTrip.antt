-- ===== src/Decimal/RoundTrip.antt =====
-- What was printed parses back, and what parses is in range.
use libreatrust.Base.{
  All, Bool-cases, IsU16, Text, [], ap, append-nil, append_assoc, arith, false, inl, inr, is_digit,
  leb-true, length, length-append, ltb, ltb-false, ltb→lt, lt→ltb, pow-suc, refl, some, suc, true,
  zero, ℕ, ◌%◌, ◌*◌, ◌++◌, ◌+◌, ◌-◌, ◌/◌, ◌<◌, ◌^◌, ◌∙◌, ◌∷◌, ◌≡◌, ◌≢◌, ◌≤◌,
}
use libreatrust.Decimal.{decimal, digits_from, parse_digits, parse_u16, parse_unsigned}

abbrev pub IsDigits : Text → Type 0
IsDigits = All (λ c. is_digit c ≡ true)

parse_digits-le :
    (limit acc n : ℕ) (s : Text) → acc ≤ limit → parse_digits limit acc s ≡ some n → n ≤ limit
unfolding parse_digits
parse_digits-le limit acc n [] h e = ground arith
parse_digits-le limit acc n (c ∷ s) h e =
    ground (arith, parse_digits-le limit (acc * 10 + (c - 48)) n s)

parse_unsigned-le : (limit n : ℕ) (s : Text) → parse_unsigned limit s ≡ some n → n ≤ limit
unfolding parse_unsigned
parse_unsigned-le limit n [] e = cc
parse_unsigned-le limit n (c ∷ []) e = parse_digits-le limit 0 n (c ∷ []) (omega arith) e
parse_unsigned-le limit n (c ∷ d ∷ s) e =
    ground (arith, parse_digits-le limit 0 n (d ∷ s), parse_digits-le limit 0 n (c ∷ d ∷ s))

pub digits_from-one : (rounds n : ℕ) → n < 10 → digits_from (suc rounds) n ≡ (48 + n) ∷ []
unfolding digits_from
digits_from-one rounds n h = rw (lt→ltb n 10 h)

pub digits_from-more :
    (rounds n : ℕ)
    → 10 ≤ n
    → digits_from (suc rounds) n ≡ digits_from rounds (n / 10) ++ ((48 + n % 10) ∷ [])
unfolding digits_from
digits_from-more rounds n h = rw (ltb-false n 10 h)

parse_digit :
    (limit acc d : ℕ) (rest : Text)
    → d < 10
    → acc * 10 + d ≤ limit
    → parse_digits limit acc ((48 + d) ∷ rest) ≡ parse_digits limit (acc * 10 + d) rest
unfolding parse_digits
parse_digit limit acc d rest h hl =
    let e : (48 + d) - 48 ≡ d = omega arith in
    rw e (
      rw (leb-true 48 (48 + d) (omega arith))
        (rw (leb-true (48 + d) 57 (omega arith)) (rw (leb-true (acc * 10 + d) limit hl))))

parse_small :
    (limit n : ℕ) (rest : Text)
    → n < 10
    → n ≤ limit
    → parse_digits limit 0 ((48 + n) ∷ rest) ≡ parse_digits limit n rest
parse_small limit n rest h hl =
    parse_digit limit 0 n rest h (omega arith) ∙ ap (λ t. parse_digits limit t rest) (omega arith)

-- The printed digits, followed by more text, are read as the number.
parse_digits-digits_from :
    (rounds limit n : ℕ) (rest : Text)
    → n < 10 ^ suc rounds
    → n ≤ limit
    → parse_digits limit 0 (digits_from (suc rounds) n ++ rest) ≡ parse_digits limit n rest
parse_digits-digits_from zero limit n rest h hl =
    rw (digits_from-one zero n (omega arith)) (parse_small limit n rest (omega arith) hl)
parse_digits-digits_from (suc rounds) limit n rest h hl = elim (Bool-cases (ltb n 10)) [
  | inl one ↦
      rw (digits_from-one (suc rounds) n (ltb→lt n 10 one))
        (parse_small limit n rest (ltb→lt n 10 one) hl)
  | inr more ↦ rw (digits_from-more (suc rounds) n (ground arith)) (
      rw append_assoc (
        parse_digits-digits_from rounds limit (n / 10) ((48 + n % 10) ∷ rest)
          (omega (arith, pow-suc 10 (suc rounds))) (omega arith)
        ∙ parse_digit limit (n / 10) (n % 10) rest (omega arith) (omega arith)
        ∙ ap (λ t. parse_digits limit t rest) (omega arith)))
]

is_digit-add : (d : ℕ) → d < 10 → is_digit (48 + d) ≡ true
is_digit-add d h = ground arith

IsDigits-append : (s t : Text) → IsDigits s → IsDigits t → IsDigits (s ++ t)
IsDigits-append [] t hs ht = ht
IsDigits-append (c ∷ s) t hs ht = (hs.0, IsDigits-append s t hs.1 ht)

digits_from-IsDigits : (rounds n : ℕ) → IsDigits (digits_from rounds n)
digits_from-IsDigits zero n = unfold digits_from in tt
digits_from-IsDigits (suc rounds) n = elim (Bool-cases (ltb n 10)) [
  | inl one ↦ rw (digits_from-one rounds n (ltb→lt n 10 one)) (is_digit-add n (ltb→lt n 10 one), tt)
  | inr more ↦ rw (digits_from-more rounds n (ground arith)) (
      IsDigits-append (digits_from rounds (n / 10)) _ (digits_from-IsDigits rounds (n / 10))
        (is_digit-add (n % 10) (omega arith), tt))
]

digits_from-ne-nil : (rounds n : ℕ) → digits_from (suc rounds) n ≢ []
digits_from-ne-nil rounds n = elim (Bool-cases (ltb n 10)) [
  | inl one ↦ rw (digits_from-one rounds n (ltb→lt n 10 one)) (λ e. cc)
  | inr more ↦ rw (digits_from-more rounds n (ground arith)) (λ e. absurd (
      omega (arith, ap length e, length-append (digits_from rounds (n / 10)) ((48 + n % 10) ∷ []))))
]

parse_unsigned-digits :
    (limit : ℕ) (s : Text) → IsDigits s → s ≢ [] → parse_unsigned limit s ≡ parse_digits limit 0 s
unfolding parse_unsigned
parse_unsigned-digits limit [] h ne = absurd (ne refl)
parse_unsigned-digits limit (c ∷ []) h ne = refl
parse_unsigned-digits limit (c ∷ d ∷ s) h ne = let digit = h.0 in ground (arith, digit)

pub decimal-IsDigits : (n : ℕ) → IsDigits (decimal n)
unfolding decimal
decimal-IsDigits n = digits_from-IsDigits 20 n

pub decimal-ne-nil : (n : ℕ) → decimal n ≢ []
unfolding decimal
decimal-ne-nil n = digits_from-ne-nil 19 n

parse_digits-decimal :
    (limit n : ℕ) → n ≤ limit → n < 10 ^ 20 → parse_digits limit 0 (decimal n) ≡ some n
unfolding decimal parse_digits
parse_digits-decimal limit n hl h = rw append-nil at (parse_digits-digits_from 19 limit n [] h hl)

-- A printed number parses back, at every type that holds it.
parse_unsigned-decimal :
    (limit n : ℕ) → n ≤ limit → n < 10 ^ 20 → parse_unsigned limit (decimal n) ≡ some n
parse_unsigned-decimal limit n hl h =
    parse_unsigned-digits limit (decimal n) (decimal-IsDigits n) (decimal-ne-nil n)
    ∙ parse_digits-decimal limit n hl h

pub parse_u16-decimal : (p : ℕ) → IsU16 p → parse_u16 (decimal p) ≡ some p
parse_u16-decimal p h = parse_unsigned-decimal 65535 p (omega arith) (omega arith)

pub decimal_inj : (a b : ℕ) → a < 10 ^ 20 → b < 10 ^ 20 → decimal a ≡ decimal b → a ≡ b
decimal_inj a b ha hb e = cc (
  ap (parse_unsigned (10 ^ 20)) e,
  parse_unsigned-decimal (10 ^ 20) a (omega arith) ha,
  parse_unsigned-decimal (10 ^ 20) b (omega arith) hb,
)

-- Digits end where the first other character stands.
IsDigits-split :
    (s t x y : Text) (a b : ℕ)
    → IsDigits s
    → IsDigits t
    → is_digit a ≡ false
    → is_digit b ≡ false
    → s ++ (a ∷ x) ≡ t ++ (b ∷ y)
    → (s ≡ t) × (x ≡ y)
IsDigits-split [] [] x y a b hs ht ha hb e = (refl, cc)
IsDigits-split [] (d ∷ t) x y a b hs ht ha hb e = let h = ht.0 in absurd (cc)
IsDigits-split (c ∷ s) [] x y a b hs ht ha hb e = let h = hs.0 in absurd (cc)
IsDigits-split (c ∷ s) (d ∷ t) x y a b hs ht ha hb e =
    let (p, q) = IsDigits-split s t x y a b hs.1 ht.1 ha hb (cc) in (cc, q)
