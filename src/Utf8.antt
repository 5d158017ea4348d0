-- ===== src/Utf8.antt =====
-- The UTF-8 coding of texts, as `str::as_bytes` and `std::str::from_utf8` have it.
pub mod Laws
use libreatrust.Base.{
  List, Option, Text, [], if◌then◌else◌, leb, ltb, none, not, some, ℕ, ◌%◌, ◌&&◌, ◌*◌, ◌++◌, ◌+◌,
  ◌-◌, ◌/◌, ◌==◌, ◌∷◌,
}

unfoldable pub encode_char : ℕ → List ℕ
encode_char c =
    if ltb c 0x80
    then c ∷ []
    else if ltb c 0x800
    then (0xC0 + c / 64) ∷ (0x80 + c % 64) ∷ []
    else if ltb c 0x10000
    then (0xE0 + c / 4096) ∷ (0x80 + c / 64 % 64) ∷ (0x80 + c % 64) ∷ []
    else (0xF0 + c / 262144) ∷ (0x80 + c / 4096 % 64) ∷ (0x80 + c / 64 % 64) ∷ (0x80 + c % 64) ∷ []

unfoldable pub encode : Text → List ℕ
unfolding encode_char
encode [] = []
encode (c ∷ s) = encode_char c ++ encode s

-- What a byte asks of those after it: the number of continuation bytes still to come, the bits
-- read so far, and the bounds of the next continuation byte.
pub record Expect : Type 0 where
  pub need : ℕ
  pub bits : ℕ
  pub low : ℕ
  pub high : ℕ

abbrev pub expect : ℕ → ℕ → ℕ → ℕ → Expect
expect need bits low high = record { need = need; bits = bits; low = low; high = high }

abbrev pub at_start : Expect
at_start = expect 0 0 0x80 0xBF

-- The first byte of a character of several bytes.
unfoldable pub lead_byte : ℕ → Option Expect
lead_byte b =
    if leb 0xC2 b && leb b 0xDF
    then some (expect 1 (b - 0xC0) 0x80 0xBF)
    else if b == 0xE0
    then some (expect 2 0 0xA0 0xBF)
    else if b == 0xED
    then some (expect 2 0x0D 0x80 0x9F)
    else if leb 0xE1 b && leb b 0xEF
    then some (expect 2 (b - 0xE0) 0x80 0xBF)
    else if b == 0xF0
    then some (expect 3 0 0x90 0xBF)
    else if leb 0xF1 b && leb b 0xF3
    then some (expect 3 (b - 0xF0) 0x80 0xBF)
    else if b == 0xF4
    then some (expect 3 4 0x80 0x8F)
    else none

-- One byte: the character that it ends, if it does, and what is asked next.
unfoldable pub next_byte : Expect → ℕ → Option (Text × Expect)
unfolding lead_byte
next_byte e b =
    let bits = e.bits * 64 + (b - 0x80) in
    if e.need == 0
    then if ltb b 0x80
      then some (b ∷ [], at_start)
      else elim (lead_byte b) [ none ↦ none | some e' ↦ some ([], e') ]
    else if not (leb e.low b && leb b e.high)
    then none
    else if e.need == 1
    then some (bits ∷ [], at_start)
    else some ([], expect (e.need - 1) bits 0x80 0xBF)

unfoldable pub decode_from : Expect → List ℕ → Option Text
unfolding next_byte
decode_from e [] = if e.need == 0 then some [] else none
decode_from e (b ∷ bytes) = elim (next_byte e b) [
  | none ↦ none
  | some (c, e') ↦ elim (decode_from e' bytes) [ none ↦ none | some s ↦ some (c ++ s) ]
]

-- `std::str::from_utf8`
unfoldable pub from_utf8 : List ℕ → Option Text
unfolding decode_from
from_utf8 bytes = decode_from at_start bytes
