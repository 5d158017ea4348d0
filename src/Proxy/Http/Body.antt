-- ===== src/Proxy/Http/Body.antt =====
-- proxy_service.rs: where the header of a rewritten request ends.
use libreatrust.Base.{
  All, Bool-cases, List, Text, [], ap, append_assoc, arith, drop, false, inl, inr, ltb, refl, some,
  starts_with, subst, suc, sym, ℕ, ◌++◌, ◌+◌, ◌∙◌, ◌∷◌, ◌≡◌, ◌≢◌,
}
use libreatrust.Utf8.{encode, encode_char}
use libreatrust.Proxy.Http.{find_header_end, line_end}

-- Characters without a carriage return.
abbrev pub NoReturn : Text → Type 0
NoReturn = All (λ c. c ≢ 13)

-- The first empty line of `bytes` is followed by `body`.
abbrev pub EndsBefore : List ℕ → List ℕ → Type 0
EndsBefore bytes body = (n : ℕ) × (find_header_end bytes ≡ some n) × (drop (n + 4) bytes ≡ body)

pub EndsBefore-now : (body : List ℕ) → EndsBefore (13 ∷ 10 ∷ 13 ∷ 10 ∷ body) body
unfolding find_header_end
EndsBefore-now body = (0, refl, refl)

EndsBefore-later :
    (b : ℕ) (bytes body : List ℕ)
    → starts_with (13 ∷ 10 ∷ 13 ∷ 10 ∷ []) (b ∷ bytes) ≡ false
    → EndsBefore bytes body
    → EndsBefore (b ∷ bytes) body
unfolding find_header_end
EndsBefore-later b bytes body h (n, e, d) =
    let next : suc n + 4 ≡ suc (n + 4) = omega arith in
    (suc n, rw (h, find_header_end) (rw e refl), ap (λ k. drop k (b ∷ bytes)) next ∙ d)

pub EndsBefore-text :
    (s : Text) (bytes body : List ℕ)
    → NoReturn s
    → EndsBefore bytes body
    → EndsBefore (s ++ bytes) body
EndsBefore-text [] bytes body h e = e
EndsBefore-text (c ∷ s) bytes body h e =
    EndsBefore-later c (s ++ bytes) body (ground (arith, h.0)) (EndsBefore-text s bytes body h.1 e)

-- A line end before a line that does not start with a carriage return.
EndsBefore-line :
    (d : ℕ) (bytes body : List ℕ)
    → d ≢ 13
    → EndsBefore (d ∷ bytes) body
    → EndsBefore (13 ∷ 10 ∷ d ∷ bytes) body
EndsBefore-line d bytes body h e =
    EndsBefore-later 13 (10 ∷ d ∷ bytes) body (ground (arith, h))
      (EndsBefore-later 10 (d ∷ bytes) body refl e)

encode-append : (s t : Text) → encode (s ++ t) ≡ encode s ++ encode t
unfolding encode
encode-append [] t = refl
encode-append (c ∷ s) t =
    ap (λ b. encode_char c ++ b) (encode-append s t)
    ∙ sym (append_assoc (encode_char c) (encode s) (encode t))

pub NoReturn-append : (s t : Text) → NoReturn s → NoReturn t → NoReturn (s ++ t)
NoReturn-append [] t hs ht = ht
NoReturn-append (c ∷ s) t hs ht = (hs.0, NoReturn-append s t hs.1 ht)

encode_char-NoReturn : (c : ℕ) → c ≢ 13 → NoReturn (encode_char c)
unfolding encode_char
encode_char-NoReturn c h = elim (Bool-cases (ltb c 0x80)) [
  | inl e ↦ rw e (h, tt)
  | inr e ↦ rw e (elim (Bool-cases (ltb c 0x800)) [
    | inl e2 ↦ rw e2 ((λ z. absurd (omega (arith, z))), ((λ z. absurd (omega (arith, z))), tt))
    | inr e2 ↦ rw e2 (elim (Bool-cases (ltb c 0x10000)) [
      | inl e3 ↦ rw e3 (
        (λ z. absurd (omega (arith, z))),
        ((λ z. absurd (omega (arith, z))), ((λ z. absurd (omega (arith, z))), tt)),
      )
      | inr e3 ↦ rw e3 (
        (λ z. absurd (omega (arith, z))),
        (
          (λ z. absurd (omega (arith, z))),
          ((λ z. absurd (omega (arith, z))), ((λ z. absurd (omega (arith, z))), tt)),
        ),
      )
    ])
  ])
]

encode-NoReturn : (s : Text) → NoReturn s → NoReturn (encode s)
unfolding encode
encode-NoReturn [] h = tt
encode-NoReturn (c ∷ s) h =
    NoReturn-append (encode_char c) (encode s) (encode_char-NoReturn c h.0) (encode-NoReturn s h.1)

cons-ne-nil : (d : ℕ) (rest : List ℕ) → d ∷ rest ≢ []
cons-ne-nil d rest e = cc

encode_char-ne-nil : (c : ℕ) → encode_char c ≢ []
unfolding encode_char
encode_char-ne-nil c e = elim (Bool-cases (ltb c 0x80)) [
  | inl t ↦ cons-ne-nil _ _ (rw (t, encode_char) at e)
  | inr t ↦ elim (Bool-cases (ltb c 0x800)) [
    | inl t2 ↦ cons-ne-nil _ _ (rw t2 at (rw (t, encode_char) at e))
    | inr t2 ↦ elim (Bool-cases (ltb c 0x10000)) [
      | inl t3 ↦ cons-ne-nil _ _ (rw t3 at (rw t2 at (rw (t, encode_char) at e)))
      | inr t3 ↦ cons-ne-nil _ _ (rw t3 at (rw t2 at (rw (t, encode_char) at e)))
    ]
  ]
]

-- Bytes that start with no carriage return, with an empty line before the body.
abbrev pub Line : List ℕ → List ℕ → Type 0
Line bytes body = (d : ℕ) × (rest : List ℕ) × (bytes ≡ d ∷ rest) × (d ≢ 13) × EndsBefore bytes body

pub Line-first :
    (first more body : List ℕ)
    → first ≢ []
    → NoReturn first
    → EndsBefore (first ++ more) body
    → Line (first ++ more) body
Line-first [] more body ne h e = absurd (ne refl)
Line-first (d ∷ first) more body ne h e = (d, first ++ more, refl, h.0, e)

Line-text :
    (s : Text) (more body : List ℕ)
    → s ≢ []
    → NoReturn s
    → EndsBefore (encode s ++ more) body
    → Line (encode s ++ more) body
unfolding encode
Line-text [] more body ne h e = absurd (ne refl)
Line-text (c ∷ s) more body ne h e =
    let assoc = append_assoc (encode_char c) (encode s) more in
    subst (λ b. Line b body) (sym assoc)
      (Line-first (encode_char c) (encode s ++ more) body (encode_char-ne-nil c)
        (encode_char-NoReturn c h.0) (subst (λ b. EndsBefore b body) assoc e))

-- One line before further lines.
pub Line-Line :
    (s : Text) (more body : List ℕ)
    → s ≢ []
    → NoReturn s
    → Line more body
    → Line (encode (s ++ line_end) ++ more) body
unfolding encode encode_char
Line-Line s more body ne h (d, rest, e, hd, ends) =
    let after : EndsBefore (13 ∷ 10 ∷ more) body =
      rw e (EndsBefore-line d rest body hd (rw e at ends)) in
    let whole : encode (s ++ line_end) ++ more ≡ encode s ++ (13 ∷ 10 ∷ more) =
      ap (λ b. b ++ more) (encode-append s line_end) ∙ append_assoc (encode s) line_end more in
    subst (λ b. Line b body) (sym whole)
      (Line-text s (13 ∷ 10 ∷ more) body ne h
        (EndsBefore-text (encode s) (13 ∷ 10 ∷ more) body (encode-NoReturn s h) after))
