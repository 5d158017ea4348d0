-- ===== src/Address/Ipv6Text.antt =====
-- std::net: the text of an IPv6 address.
use libreatrust.Base.{
  List, Text, [], all, byte_at, codes, drop, from_be16, if◌then◌else◌, ltb, suc, take, ℕ, ◌%◌, ◌&&◌,
  ◌++◌, ◌+◌, ◌-◌, ◌/◌, ◌==◌, ◌∷◌,
}
use libreatrust.Address.{ipv4_text}

abbrev hex_digit : ℕ → ℕ
hex_digit d = if ltb d 10 then b'0' + d else b'a' + (d - 10)

-- A group in hexadecimal, without zeros in front.
hex_group : ℕ → Text
hex_group g =
    if ltb g 16
    then hex_digit g ∷ []
    else if ltb g 256
    then hex_digit (g / 16) ∷ hex_digit (g % 16) ∷ []
    else if ltb g 4096
    then hex_digit (g / 256) ∷ hex_digit (g / 16 % 16) ∷ hex_digit (g % 16) ∷ []
    else hex_digit (g / 4096)
      ∷ hex_digit (g / 256 % 16)
      ∷ hex_digit (g / 16 % 16)
      ∷ hex_digit (g % 16)
      ∷ []

groups : List ℕ → List ℕ
groups (hi ∷ lo ∷ bytes) = from_be16 hi lo ∷ groups bytes
groups _ = []

colon_separated : List ℕ → Text
unfolding hex_group
colon_separated [] = []
colon_separated (g ∷ []) = hex_group g
colon_separated (g ∷ h ∷ gs) = hex_group g ++ (b':' ∷ colon_separated (h ∷ gs))

-- The first of the longest runs of zeros, by its start and length: at the index `i`, with the run
-- that ends there and the longest so far.
longest_zeros : List ℕ → ℕ → ℕ × ℕ → ℕ × ℕ → ℕ × ℕ
longest_zeros [] i run best = best
longest_zeros (g ∷ gs) i run best =
    let run' : ℕ × ℕ = if g == 0 then (if run.1 == 0 then i else run.0, suc run.1) else (0, 0) in
    longest_zeros gs (suc i) run' (if ltb best.1 run'.1 then run' else best)

-- `Ipv6Addr::to_string`, of the 16 bytes of an address.
unfoldable pub ipv6_text : List ℕ → Text
unfolding groups colon_separated longest_zeros
ipv6_text bytes =
    let gs = groups bytes in
    let zeros = longest_zeros gs 0 (0, 0) (0, 0) in
    let tail = drop 12 bytes in
    if all (λ b. b == 0) (take 10 bytes) && byte_at bytes 10 == 255 && byte_at bytes 11 == 255
    then codes "::ffff:"
      ++ ipv4_text (record {
        o0 = byte_at tail 0;
        o1 = byte_at tail 1;
        o2 = byte_at tail 2;
        o3 = byte_at tail 3;
      })
    else if ltb 1 zeros.1
    then colon_separated (take zeros.0 gs)
      ++ (b':' ∷ b':' ∷ colon_separated (drop (zeros.0 + zeros.1) gs))
    else colon_separated gs
