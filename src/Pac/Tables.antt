-- ===== src/Pac/Tables.antt =====
-- pac.rs: sorting a table and dropping its repetitions changes no lookup.
use libreatrust.Base.{
  Bool, Bool-cases, Ipv4Addr, List, [], any, ap, ap₂, arith, inl, inr, ipv4_number, leb, refl, true,
  ℕ, ◌&&◌, ◌||◌, ◌∙◌, ◌∷◌, ◌≡◌,
}
use libreatrust.Types.{tcp}
use libreatrust.Resource.{
  IpResource, ResourceSnapshot, ip_between, ip_managed_for_tcp, protocol_matches,
}
use libreatrust.Pac.{
  dedup, dedup_after, in_ranges, insert_sorted, pac_ranges, pair_eq, pair_lt, rule_ranges, sort,
}

module _ {A : Type 0} (lt eq : A → A → Bool) (p : A → Bool) where
  any-insert_sorted : (x : A) (ys : List A) → any p (insert_sorted lt eq x ys) ≡ (p x || any p ys)
  unfolding insert_sorted
  any-insert_sorted x [] = refl
  any-insert_sorted x (y ∷ ys) = ground (arith, any-insert_sorted x ys)

  any-sort : (xs : List A) → any p (sort lt eq xs) ≡ any p xs
  unfolding sort
  any-sort [] = refl
  any-sort (x ∷ xs) = any-insert_sorted x (sort lt eq xs) ∙ ap (λ b. p x || b) (any-sort xs)

  any-dedup_after :
      (same : (x y : A) → eq x y ≡ true → x ≡ y) (x : A) (ys : List A)
      → (p x || any p (dedup_after lt eq x ys)) ≡ (p x || any p ys)
  unfolding dedup_after
  any-dedup_after same x [] = refl
  any-dedup_after same x (y ∷ ys) = elim (Bool-cases (eq x y)) [
    | inl e ↦
        let equal : p x ≡ p y = ap p (same x y e) in
        let ih = any-dedup_after same x ys in rw e (ground (arith, equal, ih))
    | inr e ↦ let ih = any-dedup_after same y ys in rw e (ap (λ b. p x || b) ih)
  ]

  any-dedup :
      (same : (x y : A) → eq x y ≡ true → x ≡ y) (xs : List A) → any p (dedup lt eq xs) ≡ any p xs
  unfolding dedup
  any-dedup same [] = refl
  any-dedup same (x ∷ xs) = any-dedup_after same x xs

  pub any-table :
      (same : (x y : A) → eq x y ≡ true → x ≡ y) (xs : List A)
      → any p (dedup lt eq (sort lt eq xs)) ≡ any p xs
  any-table same xs = any-dedup same (sort lt eq xs) ∙ any-sort xs

pair_eq_sound : (r q : ℕ × ℕ) → pair_eq r q ≡ true → r ≡ q
pair_eq_sound (a, b) (c, d) h = ap₂ (λ x y. (x, y)) (ground (arith, h)) (ground (arith, h))

in_rule_ranges :
    (ip : Ipv4Addr) (rs : List IpResource)
    → any (λ r. leb r.0 (ipv4_number ip) && leb (ipv4_number ip) r.1) (rule_ranges rs)
      ≡ any (λ r. ip_between ip r.ip_min r.ip_max && protocol_matches r.protocol tcp) rs
unfolding rule_ranges ip_between protocol_matches
in_rule_ranges ip [] = refl
in_rule_ranges ip (r ∷ rs) = let ih = in_rule_ranges ip rs in ground (arith, ih)

-- An address lies in the ranges of the script exactly when it lies in a managed range that
-- carries TCP: ranges that hold no address, repetitions and the order of the table do not matter.
pub in_ranges-pac_ranges :
    (snapshot : ResourceSnapshot) (ip : Ipv4Addr)
    → in_ranges (pac_ranges snapshot) (ipv4_number ip) ≡ ip_managed_for_tcp snapshot ip
unfolding in_ranges pac_ranges ip_managed_for_tcp
in_ranges-pac_ranges snapshot ip =
    any-table pair_lt pair_eq (λ r. leb r.0 (ipv4_number ip) && leb (ipv4_number ip) r.1)
      pair_eq_sound (rule_ranges snapshot.ip_resources)
    ∙ in_rule_ranges ip snapshot.ip_resources
