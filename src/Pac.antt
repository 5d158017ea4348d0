-- ===== src/Pac.antt =====
-- crates/libreatrust-core/src/pac.rs: the tables of the generated script, and the function of the
-- script that looks a host up in them.
pub mod Tables
pub mod Names
pub mod Literals
pub mod Script
use libreatrust.Base.{
  All, Bool, List, Option, Text, [], all, any, codes, false, if◌then◌else◌, ipv4_number, is_digit,
  is_empty, leb, length, ltb, map, none, not, some, split_on, text_eq, to_ascii_lowercase, trim,
  trim_matches, true, without_char, ℕ, ◌&&◌, ◌*◌, ◌++◌, ◌+◌, ◌-◌, ◌<◌, ◌==◌, ◌||◌, ◌∷◌, ◌≡◌,
}
use libreatrust.Map.{Map}
use libreatrust.Decimal.{decimal}
use libreatrust.Resource.{DomainResource, IpResource, ResourceSnapshot, is_dot}

-- `carries_tcp`
abbrev pub carries_tcp : Text → Bool
carries_tcp protocol = text_eq protocol (codes "all") || text_eq protocol (codes "tcp")

abbrev pub is_name_char : ℕ → Bool
is_name_char c =
    is_digit c
    || (leb b'a' c && leb c b'z')
    || (leb b'A' c && leb c b'Z')
    || c == b'.'
    || c == b'-'
    || c == b'_'

-- `normalize_domain`
unfoldable pub normalize_domain : Text → Option Text
unfolding trim
normalize_domain domain =
    let normalized = to_ascii_lowercase (trim (trim_matches is_dot (without_char b'*' domain))) in
    if not (is_empty normalized) && all is_name_char normalized then some normalized else none

-- `<` on strings of ASCII characters and on pairs of numbers
abbrev pub text_lt : Text → Text → Bool
text_lt [] [] = false
text_lt [] (b ∷ t) = true
text_lt (a ∷ s) [] = false
text_lt (a ∷ s) (b ∷ t) = ltb a b || (a == b && text_lt s t)

abbrev pub pair_lt : ℕ × ℕ → ℕ × ℕ → Bool
pair_lt (a, b) (c, d) = ltb a c || (a == c && ltb b d)

abbrev pub pair_eq : ℕ × ℕ → ℕ × ℕ → Bool
pair_eq (a, b) (c, d) = a == c && b == d

module _ {A : Type 0} (lt eq : A → A → Bool) where
  unfoldable pub insert_sorted : A → List A → List A
  insert_sorted x [] = x ∷ []
  insert_sorted x (y ∷ ys) =
      let rest = insert_sorted x ys in if lt y x then y ∷ rest else x ∷ y ∷ ys

  -- `sort`
  unfoldable pub sort : List A → List A
  unfolding insert_sorted
  sort [] = []
  sort (x ∷ xs) = insert_sorted x (sort xs)

  -- An element that equals the one before it is dropped.
  unfoldable pub dedup_after : A → List A → List A
  dedup_after x [] = []
  dedup_after x (y ∷ ys) = if eq x y then dedup_after x ys else y ∷ dedup_after y ys

  -- `dedup`
  unfoldable pub dedup : List A → List A
  unfolding dedup_after
  dedup [] = []
  dedup (x ∷ xs) = x ∷ dedup_after x xs

-- The names of the rules that carry TCP.
unfoldable pub rule_names : Map DomainResource → List Text
rule_names [] = []
rule_names ((domain, r) ∷ rs) =
    let rest = rule_names rs in
    if carries_tcp r.protocol
    then elim (normalize_domain domain) [ none ↦ rest | some name ↦ name ∷ rest ]
    else rest

-- The `domains` of `generate_pac`.
unfoldable pub pac_domains : ResourceSnapshot → List Text
unfolding rule_names sort dedup
pac_domains snapshot =
    dedup text_lt text_eq (sort text_lt text_eq (rule_names snapshot.domain_resources))

-- The ranges of the addresses that carry TCP.
unfoldable pub rule_ranges : List IpResource → List (ℕ × ℕ)
rule_ranges [] = []
rule_ranges (r ∷ rs) =
    let rest = rule_ranges rs in
    let low = ipv4_number r.ip_min in
    let high = ipv4_number r.ip_max in
    if carries_tcp r.protocol && leb low high then (low, high) ∷ rest else rest

-- The `ranges` of `generate_pac`.
unfoldable pub pac_ranges : ResourceSnapshot → List (ℕ × ℕ)
unfolding rule_ranges sort dedup
pac_ranges snapshot =
    dedup pair_lt pair_eq (sort pair_lt pair_eq (rule_ranges snapshot.ip_resources))

-- The `PROXY` of the script, for the text of the proxy's address and its port.
abbrev pub proxy_line : Text → ℕ → Text
proxy_line host port =
    let at = host ++ (b':' ∷ decimal port) in
    codes "PROXY " ++ (at ++ (codes "; SOCKS5 " ++ (at ++ codes "; DIRECT")))

abbrev pub join : List Text → Text
join [] = []
join (s ∷ []) = s
join (s ∷ t ∷ ts) = s ++ (b',' ∷ join (t ∷ ts))

-- The entries of `DOMAINS`, where `js_string` quotes a text.
unfoldable pub domain_table : (Text → Text) → List Text → Text
domain_table js_string domains = join (map (λ d. js_string d ++ codes ":1") domains)

-- The entries of `RANGES`.
unfoldable pub range_table : List (ℕ × ℕ) → Text
range_table ranges =
    join (map (λ r. b'[' ∷ (decimal r.0 ++ (b',' ∷ (decimal r.1 ++ (b']' ∷ []))))) ranges)

-- The entries of `DOMAINS` that make a property: `"__proto__":1` in an object literal makes none,
-- since it would set the prototype, and 1 is no object.
abbrev pub makes_property : Text → Bool
makes_property name = not (text_eq name (codes "__proto__"))

-- `DOMAINS.hasOwnProperty`
abbrev pub has_name : List Text → Text → Bool
has_name domains s = any (λ d. text_eq d s && makes_property d) domains

-- The suffixes behind the dots of a host.
unfoldable pub after_dots : List Text → Text → Bool
after_dots domains [] = false
after_dots domains (c ∷ s) =
    let rest = after_dots domains s in if is_dot c then has_name domains s || rest else rest

-- The loop over the suffixes of a host.
unfoldable pub suffix_hit : List Text → Text → Bool
unfolding after_dots
suffix_hit domains host = has_name domains host || after_dots domains host

-- The host without a dot at its end.
abbrev pub drop_dot : Text → Text
drop_dot [] = []
drop_dot (c ∷ []) = if is_dot c then [] else c ∷ []
drop_dot (c ∷ d ∷ s) = c ∷ drop_dot (d ∷ s)

-- The host in lower case, by the browser's `toLowerCase`, and without a dot at its end.
abbrev pub script_host : (Text → Text) → Text → Text
script_host lower_case host = drop_dot (lower_case host)

-- On ASCII characters, `toLowerCase` changes the letters from A to Z and nothing else.
abbrev pub LowersAscii : (Text → Text) → Type 0
LowersAscii lower_case = (s : Text) → All (λ c. c < 128) s → lower_case s ≡ to_ascii_lowercase s

abbrev pub digits_value : ℕ → Text → ℕ
digits_value acc [] = acc
digits_value acc (c ∷ s) = digits_value (acc * 10 + (c - 48)) s

-- `parseInt` of one to three digits, and no more than 255.
unfoldable pub octet : Text → Option ℕ
octet part =
    let value = digits_value 0 part in
    if ltb 0 (length part) && leb (length part) 3 && all is_digit part && leb value 255
    then some value
    else none

abbrev pub four_octets : List Text → Option ℕ
four_octets (a ∷ b ∷ c ∷ d ∷ []) = elim (octet a) [
  | none ↦ none
  | some w ↦ elim (octet b) [
    | none ↦ none
    | some x ↦ elim (octet c) [
      | none ↦ none
      | some y ↦ elim (octet d) [
        | none ↦ none
        | some z ↦ some (((w * 256 + x) * 256 + y) * 256 + z)
      ]
    ]
  ]
]
four_octets _ = none

-- `ipToNumber`, with `none` for -1
unfoldable pub ip_to_number : Text → Option ℕ
ip_to_number host = four_octets (split_on is_dot host)

-- `inRanges`
unfoldable pub in_ranges : List (ℕ × ℕ) → ℕ → Bool
in_ranges ranges n = any (λ r. leb r.0 n && leb n r.1) ranges

pub data Verdict : Type 0 where
  proxy_verdict direct_verdict : Verdict

abbrev pub range_verdict : List (ℕ × ℕ) → Option ℕ → Verdict
range_verdict ranges none = direct_verdict
range_verdict ranges (some n) = if in_ranges ranges n then proxy_verdict else direct_verdict

-- What the script does with a host that is no address.
unfoldable pub resolved_verdict :
    (Text → Bool) → (Text → Option Text) → List (ℕ × ℕ) → Text → Verdict
resolved_verdict is_plain dns_resolve ranges host =
    if is_plain host then direct_verdict else elim (dns_resolve host) [
      | none ↦ direct_verdict
      | some resolved ↦
          if is_empty resolved then direct_verdict else range_verdict ranges (ip_to_number resolved)
    ]

-- `FindProxyForURL`, with the browser's `toLowerCase`, `isPlainHostName` and `dnsResolve`.
unfoldable pub find_proxy :
    (Text → Text) → (Text → Bool) → (Text → Option Text) → List Text → List (ℕ × ℕ) → Text → Verdict
unfolding suffix_hit in_ranges resolved_verdict
find_proxy lower_case is_plain dns_resolve domains ranges host =
    let name = script_host lower_case host in
    if suffix_hit domains name then proxy_verdict else elim ranges [
      | [] ↦ direct_verdict
      | r ∷ rs ↦ elim (ip_to_number name) [
        | none ↦ resolved_verdict is_plain dns_resolve (r ∷ rs) name
        | some n ↦ range_verdict (r ∷ rs) (some n)
      ]
    ]
