-- ===== src/Auth/Bodies/Short.antt =====
-- auth.rs: the part of a body that an error quotes.
use libreatrust.Base.{
  All, Bool, Bool-cases, List, Text, [], arith, codes, false, if◌then◌else◌, inl, inr, is_empty,
  is_whitespace, leb, leb→le, length, length-append, length-take, refl, suc, take, trim, trim_end,
  trim_start, zero, ℕ, ◌&&◌, ◌++◌, ◌<◌, ◌∷◌, ◌≡◌, ◌≤◌,
}
use libreatrust.Auth.Bodies.{from_utf8_lossy, is_break, max_len, short_response_body, spaced}

abbrev pub IsPlain : ℕ → Type 0
IsPlain c = is_break c ≡ false

spaced-IsPlain : (s : Text) → All IsPlain (spaced s)
spaced-IsPlain [] = tt
spaced-IsPlain (c ∷ s) = (ground arith, spaced-IsPlain s)

All-trim_start : (p : ℕ → Bool) (s : Text) → All IsPlain s → All IsPlain (trim_start p s)
All-trim_start p [] h = tt
All-trim_start p (c ∷ s) h = elim (Bool-cases (p c)) [
  | inl e ↦ rw e (All-trim_start p s h.1)
  | inr e ↦ rw e h
]

All-trim_end : (p : ℕ → Bool) (s : Text) → All IsPlain s → All IsPlain (trim_end p s)
All-trim_end p [] h = tt
All-trim_end p (c ∷ s) h = elim (Bool-cases (is_empty (trim_end p s) && p c)) [
  | inl e ↦ rw e tt
  | inr e ↦ rw e (h.0, All-trim_end p s h.1)
]

All-take : (n : ℕ) (s : Text) → All IsPlain s → All IsPlain (take n s)
All-take zero s h = tt
All-take (suc n) [] h = tt
All-take (suc n) (c ∷ s) h = (h.0, All-take n s h.1)

All-append : (s t : Text) → All IsPlain s → All IsPlain t → All IsPlain (s ++ t)
All-append [] t hs ht = ht
All-append (c ∷ s) t hs ht = (hs.0, All-append s t hs.1 ht)

ellipsis-IsPlain : All IsPlain (codes "...")
ellipsis-IsPlain = (refl, (refl, (refl, tt)))

empty-IsPlain : All IsPlain (codes "<empty body>")
empty-IsPlain = (
  refl,
  (refl, (refl, (refl, (refl, (refl, (refl, (refl, (refl, (refl, (refl, (refl, tt))))))))))),
)

-- What an error quotes of a body is one line, which is not empty and has 515 characters at most.
short_response_body_line :
    (body : List ℕ)
    → All IsPlain (short_response_body body)
      × (0 < length (short_response_body body))
      × (length (short_response_body body) ≤ 515)
unfolding short_response_body trim
short_response_body_line body =
    let text = trim (spaced (from_utf8_lossy body)) in
    let plain : All IsPlain text =
      All-trim_end is_whitespace (trim_start is_whitespace (spaced (from_utf8_lossy body))) (
        All-trim_start is_whitespace (spaced (from_utf8_lossy body))
          (spaced-IsPlain (from_utf8_lossy body))) in
    line text plain
  where
    line :
        (text : Text)
        → All IsPlain text
        → let quoted =
            if is_empty text
            then codes "<empty body>"
            else if leb (length text) max_len
            then text
            else take max_len text ++ codes "..." in
          All IsPlain quoted × (0 < length quoted) × (length quoted ≤ 515)
    line [] plain = (empty-IsPlain, omega arith, omega arith)
    line (c ∷ s) plain = elim (Bool-cases (leb (length (c ∷ s)) max_len)) [
      | inl e ↦ rw e (plain, omega arith, omega (arith, leb→le (length (c ∷ s)) max_len e))
      | inr e ↦ rw e (
        All-append (take max_len (c ∷ s)) (codes "...") (All-take max_len (c ∷ s) plain)
            ellipsis-IsPlain,
        omega (arith, length-append (take max_len (c ∷ s)) (codes "...")),
        omega (
          arith,
          length-append (take max_len (c ∷ s)) (codes "..."),
          length-take max_len (c ∷ s),
        ),
      )
    ]
