-- ===== src/Address/Laws.antt =====
-- Tests of the literals that the code meets, and the range of what parses.
use libreatrust.Base.{codes, false, none, refl, some, true, ◌≡◌}
use libreatrust.Address.{parse_ipv4, parses_as_ipv6}

parses :
    (parse_ipv4 (codes "192.168.57.47") ≡ some (record { o0 = 192; o1 = 168; o2 = 57; o3 = 47 }))
    × (parse_ipv4 (codes "10.0.0") ≡ none)
    × (parse_ipv4 (codes "10.0.0.256") ≡ none)
    × (parse_ipv4 (codes "10.0.0.01") ≡ none)
    × (parse_ipv4 (codes "1.2.3.4 ") ≡ none)
unfolding parse_ipv4
parses = (refl, refl, refl, refl, refl)

parses_v6 :
    (parses_as_ipv6 (codes "2001:db8::1") ≡ true)
    × (parses_as_ipv6 (codes "::1") ≡ true)
    × (parses_as_ipv6 (codes "::") ≡ true)
    × (parses_as_ipv6 (codes "1:2:3:4:5:6:7:8") ≡ true)
    × (parses_as_ipv6 (codes "::ffff:1.2.3.4") ≡ true)
    × (parses_as_ipv6 (codes "1:2:3:4:5:6:1.2.3.4") ≡ true)
    × (parses_as_ipv6 (codes "1.2.3.4") ≡ false)
    × (parses_as_ipv6 (codes "1:2:3:4:5:6:7") ≡ false)
    × (parses_as_ipv6 (codes "fd00::/8") ≡ false)
    × (parses_as_ipv6 (codes "12345::") ≡ false)
unfolding parses_as_ipv6
parses_v6 = (refl, refl, refl, refl, refl, refl, refl, refl, refl, refl)
