-- ===== src/Packet/Udp/Shape.antt =====
-- The bytes that `build_udp_ipv4_packet` writes, as one list.
use libreatrust.Base.{
  Ipv4Addr, List, [], ap, arith, as_u16, copy_at-replicate, length, ltb-false, suc, ℕ, ◌%◌, ◌++◌,
  ◌+◌, ◌/◌, ◌<◌, ◌∷◌, ◌≡◌,
}
use libreatrust.Error.{ok}
use libreatrust.Packet.Checksum.{checksum_words}
use libreatrust.Packet.Udp.{build_udp_ipv4_packet, udp_checksum, zeros}

-- The IP header with a given checksum.
abbrev pub ip_header : Ipv4Addr → Ipv4Addr → ℕ → ℕ → List ℕ
ip_header src dst total check =
    69
    ∷ 0
    ∷ total / 256
    ∷ total % 256
    ∷ 0
    ∷ 0
    ∷ 0
    ∷ 0
    ∷ 64
    ∷ 17
    ∷ check / 256
    ∷ check % 256
    ∷ src.o0
    ∷ src.o1
    ∷ src.o2
    ∷ src.o3
    ∷ dst.o0
    ∷ dst.o1
    ∷ dst.o2
    ∷ dst.o3
    ∷ []

abbrev pub udp_datagram : ℕ → ℕ → ℕ → ℕ → List ℕ → List ℕ
udp_datagram src_port dst_port len check payload =
    src_port / 256
    ∷ src_port % 256
    ∷ dst_port / 256
    ∷ dst_port % 256
    ∷ len / 256
    ∷ len % 256
    ∷ check / 256
    ∷ check % 256
    ∷ payload

zeros_28 :
    (n : ℕ)
    → zeros (20 + (8 + n))
      ≡ 0
        ∷ 0
        ∷ 0
        ∷ 0
        ∷ 0
        ∷ 0
        ∷ 0
        ∷ 0
        ∷ 0
        ∷ 0
        ∷ 0
        ∷ 0
        ∷ 0
        ∷ 0
        ∷ 0
        ∷ 0
        ∷ 0
        ∷ 0
        ∷ 0
        ∷ 0
        ∷ 0
        ∷ 0
        ∷ 0
        ∷ 0
        ∷ 0
        ∷ 0
        ∷ 0
        ∷ 0
        ∷ zeros n
zeros_28 n =
    let e : 20 + (8 + n)
        ≡ suc (
            suc (
              suc (
                suc (
                  suc (
                    suc (
                      suc (
                        suc (
                          suc (
                            suc (
                              suc (
                                suc (
                                  suc (
                                    suc (
                                      suc (
                                        suc (
                                          suc (
                                            suc (
                                              suc (
                                                suc (
                                                  suc (
                                                    suc (
                                                      suc (
                                                        suc (
                                                          suc (
                                                            suc
                                                            (suc (suc n))))))))))))))))))))))))))) =
      omega arith in
    rw e

module _ (src : Ipv4Addr) (sport : ℕ) (dst : Ipv4Addr) (dport : ℕ) (payload : List ℕ) where
  abbrev pub total : ℕ
  total = 20 + (8 + length payload)

  -- The packet around the bytes that stand in the payload's place.
  abbrev pub built_around : List ℕ → List ℕ
  built_around q =
      let len = as_u16 (8 + length payload) in
      let udp = udp_datagram sport dport len in
      ip_header src dst (as_u16 total) (checksum_words (ip_header src dst (as_u16 total) 0))
      ++ udp (udp_checksum src dst (udp 0 q)) q

  abbrev pub built : List ℕ
  built = built_around payload

  pub build_shape : total < 65536 → build_udp_ipv4_packet src sport dst dport payload ≡ ok built
  unfolding build_udp_ipv4_packet
  build_shape h = rw (ltb-false 65535 (8 + length payload) (omega arith)) (
      rw (ltb-false 65535 (20 + (8 + length payload)) (omega arith))
        (rw zeros_28 (ap (λ q. ok (built_around q)) (copy_at-replicate payload))))
