-- ===== src/Resource/Domains.antt =====
-- Which hosts a domain rule of resource.rs covers.
use libreatrust.Base.{
  ==_false, Bool, Bool-cases, Text, [], ap, ap₂, arith, drop, ends_with, false, if◌then◌else◌, inl,
  inr, is_empty, lower, refl, starts_with, subst, sym, text_eq, text_eq_iff, text_eq_refl,
  to_ascii_lowercase, trim_end, trim_start, true, without_char, ℕ, ◌&&◌, ◌++◌, ◌||◌, ◌↔◌, ◌∙◌, ◌∷◌,
  ◌≡◌, ◌≢◌, ◌⊎◌,
}
use libreatrust.Resource.{domain_matches, host_name, is_dot, rule_domain}

-- `ends_with` finds a tail.
ends_with_sound :
    (suffix s : Text) → ends_with suffix s ≡ true → (front : Text) × (s ≡ front ++ suffix)
ends_with_sound suffix [] h = ([], (text_eq_iff [] suffix).0 h)
ends_with_sound suffix (c ∷ s) h = elim (Bool-cases (text_eq (c ∷ s) suffix)) [
  | inl whole ↦ ([], (text_eq_iff (c ∷ s) suffix).0 whole)
  | inr part ↦
      let (front, e) = ends_with_sound suffix s (ground (arith, part)) in
      (c ∷ front, ap (λ t. c ∷ t) e)
]

ends_with-append : (front suffix : Text) → ends_with suffix (front ++ suffix) ≡ true
ends_with-append [] [] = refl
ends_with-append [] (c ∷ s) = let e = text_eq_refl s in ground (arith, e)
ends_with-append (c ∷ front) suffix = let e = ends_with-append front suffix in ground (arith, e)

-- A rule covers its own name and every name that ends in a dot and its name.
pub record IsCovered (host name : Text) : Type 0 where
  pub by : (host ≡ name) ⊎ ((front : Text) × (host ≡ front ++ (b'.' ∷ name)))

-- The name of a rule: no wildcards, no dots at either end, lower case.
abbrev pub rule_name : Text → Text
rule_name domain = trim_start is_dot (rule_domain domain)

-- At most one dot begins the rule, once its wildcards are gone.
abbrev pub HasOneDot : Text → Type 0
HasOneDot rule = (rule_domain rule ≡ rule_name rule) ⊎ (rule_domain rule ≡ b'.' ∷ rule_name rule)

or_comm : (a b : Bool) → (a || b) ≡ (b || a)
or_comm a b = ground arith

-- The test of `domain_matches` on a rule that `rule_domain` has spelled.
abbrev domain_test : Text → Text → Bool
domain_test host domain =
    if starts_with (b'.' ∷ []) domain
    then ends_with domain host || text_eq host (trim_start is_dot domain)
    else text_eq host domain || ends_with (b'.' ∷ domain) host

-- Either spelling tests the name and the dotted suffix.
unfoldable pub plain_test : Text → Text → Bool
plain_test host name = text_eq host name || ends_with (b'.' ∷ name) host

trim_start_idem : (s : Text) → trim_start is_dot (trim_start is_dot s) ≡ trim_start is_dot s
trim_start_idem [] = refl
trim_start_idem (c ∷ s) = elim (Bool-cases (is_dot c)) [
  | inl dot ↦ rw dot (trim_start_idem s)
  | inr other ↦ rw other (rw other)
]

no_dot-trim_start : (s : Text) → starts_with (b'.' ∷ []) (trim_start is_dot s) ≡ false
no_dot-trim_start [] = refl
no_dot-trim_start (c ∷ s) = elim (Bool-cases (is_dot c)) [
  | inl dot ↦ rw dot (no_dot-trim_start s)
  | inr other ↦ rw other (ground arith)
]

domain_test-plain :
    (host domain : Text)
    → (domain ≡ trim_start is_dot domain) ⊎ (domain ≡ b'.' ∷ trim_start is_dot domain)
    → domain_test host domain ≡ plain_test host (trim_start is_dot domain)
unfolding plain_test
domain_test-plain host domain (inl bare) =
    rw (subst (λ d. starts_with (b'.' ∷ []) d ≡ false) (sym bare) (no_dot-trim_start domain))
      (ap (plain_test host) bare)
domain_test-plain host domain (inr dotted) =
    let name = trim_start is_dot domain in
    subst
      (λ d.
        (if starts_with (b'.' ∷ []) d
          then ends_with d host || text_eq host name
          else text_eq host d || ends_with (b'.' ∷ d) host)
        ≡ plain_test host name)
      (sym dotted) (or_comm (ends_with (b'.' ∷ name) host) (text_eq host name))

plain_test_sound : (host name : Text) → plain_test host name ≡ true → IsCovered host name
unfolding plain_test
plain_test_sound host name h = elim (Bool-cases (text_eq host name)) [
  | inl same ↦ record { by = inl ((text_eq_iff host name).0 same) }
  | inr other ↦ record { by = inr (ends_with_sound (b'.' ∷ name) host (ground (arith, other))) }
]

plain_test_complete : (host name : Text) → IsCovered host name → plain_test host name ≡ true
plain_test_complete host name c = go c.by
  where
    go :
        (host ≡ name) ⊎ ((front : Text) × (host ≡ front ++ (b'.' ∷ name)))
        → plain_test host name ≡ true
    go (inl e) = rw e (unfold plain_test in rw (text_eq_refl name))
    go (inr (front, e)) =
        let found = ends_with-append front (b'.' ∷ name) in
        rw e (unfold plain_test in ground (arith, found))

pub domain_matches-plain :
    (host rule : Text)
    → HasOneDot rule
    → domain_matches host rule ≡ plain_test host (rule_name rule)
unfolding domain_matches
domain_matches-plain host rule h = domain_test-plain host (rule_domain rule) h

-- A rule that begins with at most one dot, once its wildcards are gone, matches a host exactly
-- when the host is the rule's name or ends in a dot and the rule's name.
pub domain_matches_iff :
    (host rule : Text)
    → HasOneDot rule
    → (domain_matches host rule ≡ true) ↔ IsCovered host (rule_name rule)
domain_matches_iff host rule h = (
  λ m. plain_test_sound host (rule_name rule) (sym (domain_matches-plain host rule h) ∙ m),
  λ c. domain_matches-plain host rule h ∙ plain_test_complete host (rule_name rule) c,
)

rule_domain-cons :
    (c : ℕ) (s : Text)
    → c ≢ b'.'
    → c ≢ b'*'
    → rule_domain (c ∷ s) ≡ lower c ∷ to_ascii_lowercase (trim_end is_dot (without_char b'*' s))
rule_domain-cons c s hd hs = rw (==_false c b'*' hs) (
    rw (==_false c b'.' hd) (elim (Bool-cases (is_empty (trim_end is_dot (without_char b'*' s)))) [
      | inl e ↦ rw e
      | inr e ↦ rw e
    ]))

lower-ne-dot : (c : ℕ) → c ≢ b'.' → is_dot (lower c) ≡ false
lower-ne-dot c h = ground arith

trim_end-cons_ne :
    (c : ℕ) (s : Text) → is_dot c ≡ false → trim_end is_dot (c ∷ s) ≡ c ∷ trim_end is_dot s
trim_end-cons_ne c s h =
    rw h (elim (Bool-cases (is_empty (trim_end is_dot s))) [ inl e ↦ rw e | inr e ↦ rw e ])

rule_domain-dot :
    (c : ℕ) (s : Text)
    → c ≢ b'.'
    → c ≢ b'*'
    → rule_domain (b'.' ∷ c ∷ s) ≡ b'.' ∷ rule_domain (c ∷ s)
rule_domain-dot c s hd hs =
    rw (==_false c b'*' hs)
      (rw (trim_end-cons_ne c (without_char b'*' s) (==_false c b'.' hd)) refl)

module _ (host : Text) (c : ℕ) (s : Text) (hd : c ≢ b'.') (hs : c ≢ b'*') where
  no_dot_name : rule_name (c ∷ s) ≡ rule_domain (c ∷ s)
  no_dot_name = rw (rule_domain-cons c s hd hs) (rw (lower-ne-dot c hd))

  dotted_name : rule_name (b'.' ∷ c ∷ s) ≡ rule_domain (c ∷ s)
  dotted_name = rw (rule_domain-dot c s hd hs) no_dot_name

  HasOneDot-plain : HasOneDot (c ∷ s)
  HasOneDot-plain = inl (sym no_dot_name)

  HasOneDot-dotted : HasOneDot (b'.' ∷ c ∷ s)
  HasOneDot-dotted = inr (rule_domain-dot c s hd hs ∙ ap (λ t. b'.' ∷ t) (sym dotted_name))

  -- A rule whose first character is no dot and no `*`, the same rule behind a dot, and the same
  -- rule behind `*.` match the same hosts.
  pub domain_matches_spellings :
      (domain_matches host (b'.' ∷ c ∷ s) ≡ domain_matches host (c ∷ s))
      × (domain_matches host (b'*' ∷ b'.' ∷ c ∷ s) ≡ domain_matches host (c ∷ s))
  domain_matches_spellings =
      let same : domain_matches host (b'.' ∷ c ∷ s) ≡ domain_matches host (c ∷ s) =
        domain_matches-plain host (b'.' ∷ c ∷ s) HasOneDot-dotted
        ∙ ap (plain_test host) (dotted_name ∙ sym no_dot_name)
        ∙ sym (domain_matches-plain host (c ∷ s) HasOneDot-plain) in
      (same, unfold domain_matches in same)

-- Trailing dots and the case of letters do not matter to a host's name.
trim_end-append_dot : (s : Text) → trim_end is_dot (s ++ (b'.' ∷ [])) ≡ trim_end is_dot s
trim_end-append_dot [] = refl
trim_end-append_dot (c ∷ s) = rw (trim_end-append_dot s)

lower_idem : (c : ℕ) → lower (lower c) ≡ lower c
lower_idem c = ground arith

lower-is_dot : (c : ℕ) → is_dot (lower c) ≡ is_dot c
lower-is_dot c = ground arith

to_ascii_lowercase_idem :
    (s : Text) → to_ascii_lowercase (to_ascii_lowercase s) ≡ to_ascii_lowercase s
to_ascii_lowercase_idem [] = refl
to_ascii_lowercase_idem (c ∷ s) = ap₂ ◌∷◌ (lower_idem c) (to_ascii_lowercase_idem s)

is_empty-map : (s : Text) → is_empty (to_ascii_lowercase s) ≡ is_empty s
is_empty-map [] = refl
is_empty-map (c ∷ s) = refl

trim_end-lowercase :
    (s : Text) → trim_end is_dot (to_ascii_lowercase s) ≡ to_ascii_lowercase (trim_end is_dot s)
trim_end-lowercase [] = refl
trim_end-lowercase (c ∷ s) = rw (trim_end-lowercase s) (
    rw (lower-is_dot c) (
      rw (is_empty-map (trim_end is_dot s))
        (elim (Bool-cases (is_empty (trim_end is_dot s) && is_dot c)) [
          | inl drop ↦ rw drop
          | inr keep ↦ rw keep
        ])))

-- A host with a dot added at its end, or in lower case, has the same name.
pub host_name_same :
    (host : Text)
    → (host_name (host ++ (b'.' ∷ [])) ≡ host_name host)
      × (host_name (to_ascii_lowercase host) ≡ host_name host)
host_name_same host = (
  ap to_ascii_lowercase (trim_end-append_dot host),
  ap to_ascii_lowercase (trim_end-lowercase host) ∙ to_ascii_lowercase_idem (trim_end is_dot host),
)
