-- ===== src/Keepalive/Echo.antt =====
-- transport.rs: the echo of the keep-alive.
use libreatrust.Base.{
  Ipv4Addr, IsIpv4, IsU16, List, arith, drop, inl, length, octets, refl, take, ℕ, ◌%◌, ◌++◌, ◌/◌,
  ◌∷◌, ◌≡◌,
}
use libreatrust.Packet.Checksum.{
  checksum_words, checksum_words-IsU16, checksum_words-verifies, word_sum,
}
use libreatrust.Keepalive.{build_icmp_echo_packet, echo_payload}

module _ (source destination : Ipv4Addr) (sequence : ℕ) where
  -- The IP header and the ICMP message, by their checksums.
  abbrev header : ℕ → List ℕ
  header check =
      69
      ∷ 0
      ∷ 0
      ∷ 47
      ∷ sequence / 256
      ∷ sequence % 256
      ∷ 0
      ∷ 0
      ∷ 64
      ∷ 1
      ∷ check / 256
      ∷ check % 256
      ∷ (octets source ++ octets destination)

  abbrev message : ℕ → List ℕ
  message check =
      8
      ∷ 0
      ∷ check / 256
      ∷ check % 256
      ∷ 0x52
      ∷ 0x41
      ∷ sequence / 256
      ∷ sequence % 256
      ∷ echo_payload

  echo_shape :
      build_icmp_echo_packet source destination sequence
      ≡ header (checksum_words (header 0)) ++ message (checksum_words (message 0))
  unfolding build_icmp_echo_packet
  echo_shape = refl

  -- The echo packet of two addresses and a sequence number of 16 bits has 47 bytes, and its
  -- header and its ICMP message each pass the checksum test of a receiver.
  build_icmp_echo_packet-verifies :
      IsIpv4 source
      → IsIpv4 destination
      → IsU16 sequence
      → (length (build_icmp_echo_packet source destination sequence) ≡ 47)
        × (checksum_words (take 20 (build_icmp_echo_packet source destination sequence)) ≡ 0)
        × (checksum_words (drop 20 (build_icmp_echo_packet source destination sequence)) ≡ 0)
  unfolding word_sum
  build_icmp_echo_packet-verifies hs hd h =
      let c = checksum_words (header 0) in
      let k = checksum_words (message 0) in
      rw echo_shape (
        refl,
        checksum_words-verifies (header 0) (header c) c
            (omega (arith, checksum_words-IsU16 (header 0))) (inl refl)
            (omega (arith, hs.b0, hs.b1, hs.b2, hs.b3, hd.b0, hd.b1, hd.b2, hd.b3)),
        checksum_words-verifies (message 0) (message k) k
            (omega (arith, checksum_words-IsU16 (message 0))) (inl refl) (omega arith),
      )
