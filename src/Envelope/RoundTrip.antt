-- ===== src/Envelope/RoundTrip.antt =====
-- transport.rs: `parse_data_payload` reads back what `build_data_payload` writes.
use libreatrust.Base.{
  All, List, [], ap, append-nil, append_assoc, arith, as_u16, as_u8, byte_at, byte_at-drop, concat,
  drop, drop-append_exact, drop-drop, from_be16, if◌then◌else◌, length, length-append, length-drop,
  ltb, ltb-false, map, refl, subst, sym, take, take-append_exact, ℕ, ◌%◌, ◌++◌, ◌+◌, ◌/◌, ◌<◌, ◌∙◌,
  ◌∷◌, ◌≡◌, ◌≤◌,
}
use libreatrust.Error.{err, literal, ok, parse_failed}
use libreatrust.Envelope.{build_data_payload, parse_data_payload, parse_packets, sized}

abbrev pub Short : List ℕ → Type 0
Short packet = length packet < 65536

-- The loop on packets that stand at its index.
parse_packets-encoded :
    (packets : List (List ℕ)) (idx : ℕ) (bytes more : List ℕ)
    → All Short packets
    → drop idx bytes ≡ concat (map sized packets) ++ more
    → idx ≤ length bytes
    → parse_packets (length packets) idx bytes ≡ ok packets
unfolding parse_packets
parse_packets-encoded [] idx bytes more hs e h = refl
parse_packets-encoded (p ∷ packets) idx bytes more hs e h =
    let tail = concat (map sized packets) ++ more in
    let e' : drop idx bytes ≡ sized p ++ tail =
      e ∙ append_assoc (sized p) (concat (map sized packets)) more in
    let b0 : byte_at bytes idx ≡ as_u16 (length p) / 256 =
      ap (byte_at bytes) (omega arith) ∙ byte_at-drop idx bytes 0 ∙ ap (λ t. byte_at t 0) e' in
    let b1 : byte_at bytes (idx + 1) ≡ as_u16 (length p) % 256 =
      byte_at-drop idx bytes 1 ∙ ap (λ t. byte_at t 1) e' in
    let plen : from_be16 (byte_at bytes idx) (byte_at bytes (idx + 1)) ≡ length p =
      omega (arith, b0, b1, hs.0) in
    let inside : idx + 2 + length p ≤ length bytes =
      omega (arith, length-drop idx bytes, ap length e', length-append p tail) in
    let body : drop (idx + 2) bytes ≡ p ++ tail = drop-drop idx 2 bytes ∙ ap (drop 2) e' in
    let after : drop (idx + 2 + length p) bytes ≡ tail =
      drop-drop (idx + 2) (length p) bytes ∙ ap (drop (length p)) body ∙ drop-append_exact p tail in
    let front : take (length p) (drop (idx + 2) bytes) ≡ p =
      ap (take (length p)) body ∙ take-append_exact p tail in
    let rest = parse_packets-encoded packets (idx + 2 + length p) bytes more hs.1 after inside in
    rw (ltb-false (length bytes) (idx + 2) (omega arith)) (
      rw plen (rw (ltb-false (length bytes) (idx + 2 + length p) inside) (rw rest (rw front refl))))

-- A data payload without the two bytes of its command.
abbrev pub envelope : List ℕ → List (List ℕ) → List ℕ
envelope token packets = drop 2 (build_data_payload token packets)

-- The envelope of a token of at most 255 bytes and at most 255 packets, each shorter than 65536
-- bytes, gives back exactly these packets, in order.
pub parse_data_payload-build_data_payload :
    (token : List ℕ) (packets : List (List ℕ))
    → length token < 256
    → length packets < 256
    → All Short packets
    → parse_data_payload (drop 2 (build_data_payload token packets)) ≡ ok packets
unfolding build_data_payload parse_data_payload
parse_data_payload-build_data_payload token packets ht hp hs =
    let n = length token in
    let tail = concat (map sized packets) in
    let fields = 0x00 ∷ 0x00 ∷ as_u8 (length packets) ∷ tail in
    let bytes = as_u8 n ∷ (token ++ fields) in
    let len : as_u8 n ≡ n = omega arith in
    let size : length bytes ≡ n + 4 + length tail = omega (arith, length-append token fields) in
    let rest : drop (1 + n) bytes ≡ fields = drop-drop 1 n bytes ∙ drop-append_exact token fields in
    let count : byte_at bytes (1 + n + 2) ≡ length packets =
      byte_at-drop (1 + n) bytes 2 ∙ ap (λ t. byte_at t 2) rest ∙ omega arith in
    let after : drop (1 + n + 3) bytes ≡ tail ++ [] =
      drop-drop (1 + n) 3 bytes ∙ ap (drop 3) rest ∙ sym (append-nil tail) in
    let loop = parse_packets-encoded packets (1 + n + 3) bytes [] hs after (omega arith) in
    rw (ltb-false (length bytes) 4 (omega arith)) (
      subst
        (λ k.
          (if ltb (length bytes) (1 + k + 3)
            then err (parse_failed (literal "payload token overflow"))
            else parse_packets (byte_at bytes (1 + k + 2)) (1 + k + 3) bytes)
          ≡ ok packets)
        (sym len) (rw (ltb-false (length bytes) (1 + n + 3) (omega arith)) (rw count loop)))
