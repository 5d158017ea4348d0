-- ===== src/Utf8/Laws.antt =====
-- The coding of texts of ASCII characters.
use libreatrust.Base.{All, Text, [], ap, lt→ltb, refl, some, ◌<◌, ◌∷◌, ◌≡◌}
use libreatrust.Utf8.{at_start, decode_from, encode, encode_char, from_utf8, next_byte}

abbrev pub IsAscii : Text → Type 0
IsAscii = All (λ c. c < 128)

pub encode-ascii : (s : Text) → IsAscii s → encode s ≡ s
unfolding encode encode_char
encode-ascii [] h = refl
encode-ascii (c ∷ s) h = rw (lt→ltb c 128 h.0) (ap (λ t. c ∷ t) (encode-ascii s h.1))

decode_from-ascii : (s : Text) → IsAscii s → decode_from at_start s ≡ some s
unfolding decode_from next_byte
decode_from-ascii [] h = refl
decode_from-ascii (c ∷ s) h = rw (lt→ltb c 128 h.0, decode_from) (rw (decode_from-ascii s h.1) refl)

pub from_utf8-ascii : (s : Text) → IsAscii s → from_utf8 s ≡ some s
unfolding from_utf8
from_utf8-ascii s h = decode_from-ascii s h
