-- ===== src/Examples/Packets.antt =====
-- transport.rs: the packets and payloads at concrete inputs.
use libreatrust.Base.{
  Ipv4Addr, IsIpv4, List, [], arith, codes, drop, length, refl, take, ℕ, ◌<◌, ◌∷◌, ◌≡◌, ◌≤◌,
}
use libreatrust.Error.{Message, err, invalid_argument, ok}
use libreatrust.Packet.Checksum.{checksum_words, fold_carries, word_sum}
use libreatrust.Packet.Udp.{
  build_udp_ipv4_packet, parse_ipv4_udp_packet, pseudo_header, udp_checksum,
}
use libreatrust.Packet.Udp.RoundTrip.{build_checksums, datagram, parse-build}
use libreatrust.Envelope.{build_data_payload, parse_data_payload}
use libreatrust.Envelope.RoundTrip.{parse_data_payload-build_data_payload}

abbrev here : Ipv4Addr
here = record { o0 = 10; o1 = 0; o2 = 0; o3 = 1 }

abbrev there : Ipv4Addr
there = record { o0 = 10; o1 = 0; o2 = 0; o3 = 2 }

parse-build_example :
    (3 ≤ 65507
      → (packet : List ℕ) × (build_udp_ipv4_packet here 4000 there 53 (1 ∷ 2 ∷ 3 ∷ []) ≡ ok packet)
        × (parse_ipv4_udp_packet packet ≡ ok (datagram here 4000 there 53 (1 ∷ 2 ∷ 3 ∷ []))))
    × (65507 < 3
        → (m : Message) × (build_udp_ipv4_packet here 4000 there 53 (1 ∷ 2 ∷ 3 ∷ [])
            ≡ err (invalid_argument m)))
parse-build_example = parse-build here 4000 there 53 (1 ∷ 2 ∷ 3 ∷ [])

-- The packet for one byte.
abbrev one_byte : List ℕ
one_byte =
    69 ∷ 0 ∷ 0 ∷ 29 ∷ 0 ∷ 0 ∷ 0 ∷ 0 ∷ 64 ∷ 17 ∷ 102 ∷ 206 ∷ 10 ∷ 0 ∷ 0 ∷ 1 ∷ 10 ∷ 0 ∷ 0 ∷ 2 ∷ 15
    ∷ 160 ∷ 0 ∷ 53 ∷ 0 ∷ 9 ∷ 219 ∷ 4 ∷ 1 ∷ []

built_one : build_udp_ipv4_packet here 4000 there 53 (1 ∷ []) ≡ ok one_byte
unfolding build_udp_ipv4_packet udp_checksum checksum_words word_sum fold_carries
built_one = refl

is_here : IsIpv4 here
is_here = record { b0 = omega arith; b1 = omega arith; b2 = omega arith; b3 = omega arith }

is_there : IsIpv4 there
is_there = record { b0 = omega arith; b1 = omega arith; b2 = omega arith; b3 = omega arith }

build_checksums_example :
    (length one_byte ≡ 29)
    × (checksum_words (take 20 one_byte) ≡ 0)
    × (checksum_words (pseudo_header here there (drop 20 one_byte)) ≡ 0)
build_checksums_example =
    build_checksums here 4000 there 53 (1 ∷ []) one_byte is_here is_there (omega arith)
      (omega arith) (omega arith, tt) built_one

parse_data_payload-build_data_payload_example :
    parse_data_payload (drop 2 (build_data_payload (codes "tok") ((1 ∷ 2 ∷ []) ∷ [] ∷ [])))
    ≡ ok ((1 ∷ 2 ∷ []) ∷ [] ∷ [])
parse_data_payload-build_data_payload_example =
    parse_data_payload-build_data_payload (codes "tok") ((1 ∷ 2 ∷ []) ∷ [] ∷ []) (omega arith)
      (omega arith) (omega arith, (omega arith, tt))
