-- ===== src/Pac/Literals.antt =====
-- pac.rs: what the script does with the text of an IPv4 address.
use libreatrust.Base.{
  All, Bool, Bool-cases, Ipv4Addr, IsByte, IsIpv4, List, Option, Text, [], ap, ap₂, arith, false,
  if◌then◌else◌, inl, inr, ipv4_number, is_digit, lower, none, refl, some, split_on, subst, suc,
  to_ascii_lowercase, true, zero, ℕ, ◌&&◌, ◌++◌, ◌<◌, ◌==◌, ◌||◌, ◌∙◌, ◌∷◌, ◌≡◌, ◌≢◌, ◌⊎◌,
}
use libreatrust.Decimal.{decimal}
use libreatrust.Decimal.RoundTrip.{IsDigits, decimal-IsDigits, decimal-ne-nil}
use libreatrust.Address.{ipv4_text}
use libreatrust.Resource.{ResourceSnapshot, ip_managed_for_tcp, is_dot}
use libreatrust.Pac.{
  LowersAscii, Verdict, direct_verdict, drop_dot, find_proxy, four_octets, in_ranges, ip_to_number,
  octet, pac_ranges, proxy_verdict, range_verdict, resolved_verdict, script_host, suffix_hit,
}
use libreatrust.Pac.Tables.{in_ranges-pac_ranges}

abbrev is_value : ℕ → Option ℕ → Bool
is_value b none = false
is_value b (some v) = v == b

is_value_sound : (b : ℕ) (r : Option ℕ) → is_value b r ≡ true → r ≡ some b
is_value_sound b none h = cc
is_value_sound b (some v) h = ap some (ground (arith, h))

-- Each number under a bound is read back from its text.
read_back : ℕ → Bool
read_back zero = true
read_back (suc top) = read_back top && is_value top (octet (decimal top))

read_back-octet : (top b : ℕ) → read_back top ≡ true → b < top → octet (decimal b) ≡ some b
unfolding read_back
read_back-octet zero b checked under = absurd (omega arith)
read_back-octet (suc top) b checked under = elim (Bool-cases (top == b)) [
  | inl last ↦
      let here : is_value top (octet (decimal top)) ≡ true = ground (arith, checked) in
      subst (λ n. octet (decimal n) ≡ some n) (ground (arith, last)) (is_value_sound top _ here)
  | inr other ↦ read_back-octet top b (ground (arith, checked)) (ground (arith, other))
]

octets_read_back : read_back 256 ≡ true
unfolding read_back octet decimal
octets_read_back = refl

octet-decimal : (b : ℕ) → IsByte b → octet (decimal b) ≡ some b
octet-decimal b h = read_back-octet 256 b octets_read_back h

split_on-digits :
    (s rest : Text) → IsDigits s → split_on is_dot (s ++ (b'.' ∷ rest)) ≡ s ∷ split_on is_dot rest
split_on-digits [] rest h = refl
split_on-digits (c ∷ s) rest h =
    let ih = split_on-digits s rest h.1 in let front = h.0 in rw ih (ground (arith, front))

split_on-digits_end : (s : Text) → IsDigits s → split_on is_dot s ≡ s ∷ []
split_on-digits_end [] h = refl
split_on-digits_end (c ∷ s) h =
    let ih = split_on-digits_end s h.1 in let front = h.0 in rw ih (ground (arith, front))

ip_to_number-ipv4_text :
    (ip : Ipv4Addr) → IsIpv4 ip → ip_to_number (ipv4_text ip) ≡ some (ipv4_number ip)
unfolding ip_to_number ipv4_text
ip_to_number-ipv4_text ip h = rw (split_on-digits (decimal ip.o0) _ (decimal-IsDigits ip.o0)) (
    rw (split_on-digits (decimal ip.o1) _ (decimal-IsDigits ip.o1)) (
      rw (split_on-digits (decimal ip.o2) _ (decimal-IsDigits ip.o2)) (
        rw (split_on-digits_end (decimal ip.o3) (decimal-IsDigits ip.o3)) (
          rw (octet-decimal ip.o0 h.b0, four_octets)
            (rw (octet-decimal ip.o1 h.b1, four_octets)
              (rw (octet-decimal ip.o2 h.b2, four_octets)
                (rw (octet-decimal ip.o3 h.b3, four_octets) (ap some (omega arith)))))))))

-- Digits and dots, with a digit at the end.
abbrev EndsInDigit : Text → Type 0
EndsInDigit [] = ⊥
EndsInDigit (c ∷ []) = is_digit c ≡ true
EndsInDigit (c ∷ d ∷ s) = ((is_digit c ≡ true) ⊎ (c ≡ b'.')) × EndsInDigit (d ∷ s)

EndsInDigit-digits : (s : Text) → s ≢ [] → IsDigits s → EndsInDigit s
EndsInDigit-digits [] n h = absurd (n refl)
EndsInDigit-digits (c ∷ []) n h = h.0
EndsInDigit-digits (c ∷ d ∷ s) n h = (inl h.0, EndsInDigit-digits (d ∷ s) (λ e. absurd (cc e)) h.1)

EndsInDigit-dot : (s t : Text) → IsDigits s → EndsInDigit t → EndsInDigit (s ++ (b'.' ∷ t))
EndsInDigit-dot [] [] h e = absurd e
EndsInDigit-dot [] (d ∷ t) h e = (inr refl, e)
EndsInDigit-dot (c ∷ []) t h e = (inl h.0, EndsInDigit-dot [] t tt e)
EndsInDigit-dot (c ∷ d ∷ s) t h e = (inl h.0, EndsInDigit-dot (d ∷ s) t h.1 e)

EndsInDigit-ascii : (s : Text) → EndsInDigit s → All (λ c. c < 128) s
EndsInDigit-ascii [] e = tt
EndsInDigit-ascii (c ∷ []) e = (ground (arith, e), tt)
EndsInDigit-ascii (c ∷ d ∷ s) e = (
  elim e.0 [ inl n ↦ ground (arith, n) | inr n ↦ ground (arith, n) ],
  EndsInDigit-ascii (d ∷ s) e.1,
)

drop_dot-digits : (s : Text) → EndsInDigit s → drop_dot (to_ascii_lowercase s) ≡ s
drop_dot-digits [] e = absurd e
drop_dot-digits (c ∷ []) e = ground (arith, e)
drop_dot-digits (c ∷ d ∷ s) e =
    let ih = drop_dot-digits (d ∷ s) e.1 in
    let same : lower c ≡ c = elim e.0 [ inl n ↦ ground (arith, n) | inr n ↦ ground (arith, n) ] in
    ap₂ (λ x t. x ∷ t) same ih

script_host-digits :
    (lower_case : Text → Text)
    → LowersAscii lower_case
    → (s : Text) → EndsInDigit s
    → script_host lower_case s ≡ s
script_host-digits lower_case lowers s e =
    ap drop_dot (lowers s (EndsInDigit-ascii s e)) ∙ drop_dot-digits s e

ipv4_text-EndsInDigit : (ip : Ipv4Addr) → EndsInDigit (ipv4_text ip)
unfolding ipv4_text
ipv4_text-EndsInDigit ip = EndsInDigit-dot (decimal ip.o0) _ (decimal-IsDigits ip.o0) (
    EndsInDigit-dot (decimal ip.o1) _ (decimal-IsDigits ip.o1) (
      EndsInDigit-dot (decimal ip.o2) _ (decimal-IsDigits ip.o2)
        (EndsInDigit-digits (decimal ip.o3) (decimal-ne-nil ip.o3) (decimal-IsDigits ip.o3))))

ranged :
    (is_plain : Text → Bool) (dns_resolve : Text → Option Text) (name : Text) (n : ℕ)
    (ranges : List (ℕ × ℕ))
    → ip_to_number name ≡ some n
    → (elim ranges as (λ r. Verdict) [
      | [] ↦ direct_verdict
      | r ∷ rs ↦ elim (ip_to_number name) [
        | none ↦ resolved_verdict is_plain dns_resolve (r ∷ rs) name
        | some k ↦ range_verdict (r ∷ rs) (some k)
      ]
    ])
      ≡ (if in_ranges ranges n then proxy_verdict else direct_verdict)
unfolding in_ranges
ranged is_plain dns_resolve name n [] e = refl
ranged is_plain dns_resolve name n (r ∷ rs) e = rw e refl

-- For the text of an IPv4 address the script answers with the proxy exactly when the text hits the
-- table of names or the client manages the address for TCP, and otherwise goes direct, whatever
-- the browser's functions answer, where `toLowerCase` of ASCII characters is what it should be.
pub find_proxy-ipv4_text :
    (lower_case : Text → Text) (is_plain : Text → Bool) (dns_resolve : Text → Option Text)
    (domains : List Text) (snapshot : ResourceSnapshot) (ip : Ipv4Addr)
    → LowersAscii lower_case
    → IsIpv4 ip
    → find_proxy lower_case is_plain dns_resolve domains (pac_ranges snapshot) (ipv4_text ip) ≡ (
        if suffix_hit domains (ipv4_text ip) || ip_managed_for_tcp snapshot ip
        then proxy_verdict
        else direct_verdict)
unfolding find_proxy
find_proxy-ipv4_text lower_case is_plain dns_resolve domains snapshot ip lowers h =
    let same : script_host lower_case (ipv4_text ip) ≡ ipv4_text ip =
      script_host-digits lower_case lowers (ipv4_text ip) (ipv4_text-EndsInDigit ip) in
    let number : ip_to_number (script_host lower_case (ipv4_text ip)) ≡ some (ipv4_number ip) =
      ap ip_to_number same ∙ ip_to_number-ipv4_text ip h in
    let hit_same = ap (suffix_hit domains) same in
    rw hit_same (elim (Bool-cases (suffix_hit domains (ipv4_text ip))) [
      | inl hit ↦ rw hit refl
      | inr miss ↦ rw miss (
          ranged is_plain dns_resolve (script_host lower_case (ipv4_text ip)) (ipv4_number ip)
            (pac_ranges snapshot) number
          ∙ ap (λ b. if b then proxy_verdict else direct_verdict)
              (in_ranges-pac_ranges snapshot ip))
    ])
