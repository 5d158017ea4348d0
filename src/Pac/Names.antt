-- ===== src/Pac/Names.antt =====
-- pac.rs: the script sends a name to the proxy when the client manages it.
use libreatrust.Base.{
  All, Bool, Bool-cases, List, Text, [], any, ap, arith, ends_with, false, if◌then◌else◌, inl, inr,
  none, refl, some, text_eq, text_eq_iff, true, ◌&&◌, ◌||◌, ◌∙◌, ◌∷◌, ◌≡◌,
}
use libreatrust.Types.{tcp}
use libreatrust.Map.{Map}
use libreatrust.Resource.{
  DomainResource, ResourceSnapshot, domain_managed, domain_rule_matches, find_domain, host_name,
  is_dot, is_some, match_domain_ports, protocol_matches,
}
use libreatrust.Resource.Domains.{HasOneDot, domain_matches-plain, plain_test, rule_name}
use libreatrust.Pac.{
  after_dots, carries_tcp, has_name, makes_property, normalize_domain, pac_domains, rule_names,
  script_host, suffix_hit, text_lt,
}
use libreatrust.Pac.Tables.{any-table}

text_eq_comm : (s t : Text) → text_eq s t ≡ text_eq t s
text_eq_comm [] [] = refl
text_eq_comm [] (b ∷ t) = refl
text_eq_comm (a ∷ s) [] = refl
text_eq_comm (a ∷ s) (b ∷ t) = let ih = text_eq_comm s t in ground (arith, ih)

abbrev suffix_test : Text → Text → Bool
suffix_test s d = ends_with (b'.' ∷ d) s && makes_property d

-- The names in the table that match a host and make a property.
abbrev own_test : Text → Text → Bool
own_test host d = plain_test host d && makes_property d

-- A table holds a suffix of a host.
after_dots-any :
    (domains : List Text) (s : Text) → after_dots domains s ≡ any (suffix_test s) domains
unfolding after_dots
after_dots-any domains [] = none_ends domains
  where
    none_ends : (ds : List Text) → false ≡ any (suffix_test []) ds
    none_ends [] = refl
    none_ends (d ∷ ds) = none_ends ds
after_dots-any domains (c ∷ s) = rw (after_dots-any domains s) (step domains)
  where
    step :
        (ds : List Text)
        → (if is_dot c then has_name ds s || any (suffix_test s) ds else any (suffix_test s) ds)
          ≡ any (suffix_test (c ∷ s)) ds
    step [] = ground arith
    step (d ∷ ds) = let ih = step ds in ground (arith, ih, text_eq_comm d s)

suffix_hit-any :
    (domains : List Text) (host : Text) → suffix_hit domains host ≡ any (own_test host) domains
unfolding suffix_hit plain_test
suffix_hit-any domains host = rw (after_dots-any domains host) (step domains)
  where
    step :
        (ds : List Text) → (has_name ds host || any (suffix_test host) ds) ≡ any (own_test host) ds
    step [] = refl
    step (d ∷ ds) = let ih = step ds in ground (arith, ih, text_eq_comm d host)

-- A rule whose name the script keeps, is not `__proto__`, and begins with at most one dot.
pub record IsRegular (domain : Text) : Type 0 where
  pub kept : normalize_domain domain ≡ some (rule_name domain)
  pub property : makes_property (rule_name domain) ≡ true
  pub one_dot : HasOneDot domain

-- Every rule that carries TCP is regular.
abbrev pub AreRegular : Map DomainResource → Type 0
AreRegular = All (λ e. carries_tcp e.1.protocol ≡ true → IsRegular e.0)

is_some-find :
    (host : Text) (rs : Map DomainResource)
    → AreRegular rs
    → any (own_test host) (rule_names rs) ≡ is_some (find_domain host none tcp rs)
unfolding rule_names find_domain domain_rule_matches protocol_matches
is_some-find host [] h = refl
is_some-find host ((domain, r) ∷ rs) h = elim (Bool-cases (carries_tcp r.protocol)) [
  | inr e ↦ rw e (is_some-find host rs h.1)
  | inl e ↦
      let regular = h.0 e in
      let same = domain_matches-plain host domain regular.one_dot in
      let ih = is_some-find host rs h.1 in
      rw e (
        rw (regular.kept, same)
          (rw regular.property (elim (Bool-cases (plain_test host (rule_name domain))) [
            | inl hit ↦ rw hit refl
            | inr miss ↦ rw miss ih
          ])))
]

text_eq_sound : (s t : Text) → text_eq s t ≡ true → s ≡ t
text_eq_sound s t = (text_eq_iff s t).0

-- Where every rule that carries TCP has a name that the script keeps, is not `__proto__` and
-- begins with at most one dot, and the host as the script makes it, in lower case and without a dot
-- at its end, is the host name that the client makes, the script finds the host in its table
-- exactly when the client manages the name for TCP.
pub suffix_hit-pac_domains :
    (lower_case : Text → Text) (snapshot : ResourceSnapshot) (host : Text)
    → AreRegular snapshot.domain_resources
    → script_host lower_case host ≡ host_name host
    → suffix_hit (pac_domains snapshot) (script_host lower_case host)
      ≡ domain_managed snapshot host tcp
unfolding pac_domains match_domain_ports
suffix_hit-pac_domains lower_case snapshot host regular e =
    suffix_hit-any _ (script_host lower_case host)
    ∙ any-table text_lt text_eq (own_test (script_host lower_case host)) text_eq_sound
        (rule_names snapshot.domain_resources)
    ∙ ap (λ h. any (own_test h) (rule_names snapshot.domain_resources)) e
    ∙ is_some-find (host_name host) snapshot.domain_resources regular
