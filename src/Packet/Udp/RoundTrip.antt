-- ===== src/Packet/Udp/RoundTrip.antt =====
-- `parse_ipv4_udp_packet` reads back what `build_udp_ipv4_packet` wrote.
use libreatrust.Base.{
  All, Bool-cases, Ipv4Addr, IsByte, IsIpv4, IsU16, List, [], ap, arith, as_u16, be16, drop,
  from_be16, inl, inr, length, ltb, ltb→lt, lt→ltb, octets, refl, take, take-all, ℕ, ◌%◌, ◌*◌, ◌++◌,
  ◌+◌, ◌-◌, ◌/◌, ◌<◌, ◌==◌, ◌∷◌, ◌≡◌, ◌≤◌, ◌⊎◌,
}
use libreatrust.Error.{Message, err, invalid_argument, literal, ok}
use libreatrust.Packet.Checksum.{
  checksum_words, checksum_words-IsU16, checksum_words-verifies, word_sum, word_sum_bound,
}
use libreatrust.Packet.Udp.{
  Datagram, build_udp_ipv4_packet, parse_ipv4_udp_packet, pseudo_header, udp_checksum,
}
use libreatrust.Packet.Udp.Shape.{build_shape, built, ip_header, total, udp_datagram}

module _ (src : Ipv4Addr) (sport : ℕ) (dst : Ipv4Addr) (dport : ℕ) (payload : List ℕ) where
  abbrev pub datagram : Datagram
  datagram = record {
    src_ip = src;
    dst_ip = dst;
    src_port = sport;
    dst_port = dport;
    payload = payload;
  }

  length-built : length (built src sport dst dport payload) ≡ 28 + length payload
  length-built = omega arith

  parse-built :
      total src sport dst dport payload < 65536
      → parse_ipv4_udp_packet (built src sport dst dport payload) ≡ ok datagram
  unfolding parse_ipv4_udp_packet
  parse-built h =
      let len = length payload in
      ground (arith, take-all (as_u16 (8 + len) / 256 * 256 + as_u16 (8 + len) % 256 - 8) payload)

  header_verifies :
      IsIpv4 src
      → IsIpv4 dst
      → total src sport dst dport payload < 65536
      → checksum_words (take 20 (built src sport dst dport payload)) ≡ 0
  unfolding word_sum
  header_verifies hs hd h =
      let len = as_u16 (total src sport dst dport payload) in
      let check = checksum_words (ip_header src dst len 0) in
      checksum_words-verifies (ip_header src dst len 0) (ip_header src dst len check) check
        (omega (arith, checksum_words-IsU16 (ip_header src dst len 0))) (inl refl) (omega arith)

-- The bytes of `udp` fill whole words under the pseudo-header, whatever their number.
word_sum-pad : (bytes : List ℕ) → word_sum (bytes ++ (0 ∷ [])) ≡ word_sum bytes
unfolding word_sum
word_sum-pad [] = refl
word_sum-pad (x ∷ []) = omega arith
word_sum-pad (x ∷ y ∷ bytes) = ap (λ t. from_be16 x y + t) (word_sum-pad bytes)

abbrev bare_pseudo : Ipv4Addr → Ipv4Addr → List ℕ → List ℕ
bare_pseudo src dst udp =
    octets src ++ (octets dst ++ (0 ∷ 17 ∷ (be16 (as_u16 (length udp)) ++ udp)))

word_sum-pseudo_header :
    (src dst : Ipv4Addr) (udp : List ℕ)
    → word_sum (pseudo_header src dst udp) ≡ word_sum (bare_pseudo src dst udp)
word_sum-pseudo_header src dst udp = elim (Bool-cases (length (bare_pseudo src dst udp) % 2 == 0)) [
  | inl even ↦ rw even
  | inr odd ↦ rw odd (word_sum-pad (bare_pseudo src dst udp))
]

-- `udp_checksum` is the checksum, with all ones in the place of zero.
udp_checksum-cases :
    (src dst : Ipv4Addr) (udp : List ℕ)
    → let sum = checksum_words (pseudo_header src dst udp) in
      (udp_checksum src dst udp ≡ sum) ⊎ ((udp_checksum src dst udp ≡ 65535) × (sum ≡ 0))
unfolding udp_checksum
udp_checksum-cases src dst udp = ground arith

udp_checksum-IsU16 : (src dst : Ipv4Addr) (udp : List ℕ) → IsU16 (udp_checksum src dst udp)
unfolding udp_checksum
udp_checksum-IsU16 src dst udp = ground (arith, checksum_words-IsU16 (pseudo_header src dst udp))

module _ (src : Ipv4Addr) (sport : ℕ) (dst : Ipv4Addr) (dport : ℕ) (payload : List ℕ) where
  -- The datagram with a given checksum.
  abbrev pub udp_with : ℕ → List ℕ
  udp_with check = udp_datagram sport dport (as_u16 (8 + length payload)) check payload

  word_sum-udp_with :
      (check : ℕ)
      → IsU16 check
      → word_sum (pseudo_header src dst (udp_with check))
        ≡ word_sum (pseudo_header src dst (udp_with 0)) + check
  unfolding word_sum
  word_sum-udp_with check h =
      rw (word_sum-pseudo_header src dst (udp_with check))
        (rw (word_sum-pseudo_header src dst (udp_with 0)) (omega arith))

  datagram_verifies :
      IsIpv4 src
      → IsIpv4 dst
      → IsU16 sport
      → IsU16 dport
      → All IsByte payload
      → total src sport dst dport payload < 65536
      → checksum_words (pseudo_header src dst (drop 20 (built src sport dst dport payload))) ≡ 0
  unfolding word_sum
  datagram_verifies hs hd hsp hdp hp h =
      let check = udp_checksum src dst (udp_with 0) in
      checksum_words-verifies (pseudo_header src dst (udp_with 0))
        (pseudo_header src dst (udp_with check)) check
        (word_sum-udp_with check (udp_checksum-IsU16 src dst (udp_with 0)))
        (udp_checksum-cases src dst (udp_with 0))
        (rw (word_sum-pseudo_header src dst (udp_with 0))
          (omega (arith, word_sum_bound (length payload) payload hp)))

module _ (src : Ipv4Addr) (sport : ℕ) (dst : Ipv4Addr) (dport : ℕ) (payload : List ℕ) where
  build_too_large :
      65507 < length payload
      → (build_udp_ipv4_packet src sport dst dport payload
          ≡ err (invalid_argument (literal "udp payload too large")))
        ⊎ (build_udp_ipv4_packet src sport dst dport payload
            ≡ err (invalid_argument (literal "ipv4 packet too large")))
  unfolding build_udp_ipv4_packet
  build_too_large h = elim (Bool-cases (ltb 65535 (8 + length payload))) [
    | inl big ↦ inl (rw big)
    | inr small ↦ inr (rw small (rw (lt→ltb 65535 (20 + (8 + length payload)) (omega arith))))
  ]

  build_fits :
      (packet : List ℕ)
      → build_udp_ipv4_packet src sport dst dport payload ≡ ok packet
      → total src sport dst dport payload < 65536
  build_fits packet e = elim (Bool-cases (ltb 65507 (length payload))) [
    | inl big ↦ elim (build_too_large (ltb→lt _ _ big)) [ inl u ↦ cc | inr i ↦ cc ]
    | inr small ↦ ground arith
  ]

  -- For a payload of at most 65507 bytes `build_udp_ipv4_packet` returns a packet that
  -- `parse_ipv4_udp_packet` reads back as the same addresses, ports and payload. For a longer one
  -- it returns `InvalidArgument`.
  pub parse-build :
      (length payload ≤ 65507
        → (packet : List ℕ) × (build_udp_ipv4_packet src sport dst dport payload ≡ ok packet)
          × (parse_ipv4_udp_packet packet ≡ ok (datagram src sport dst dport payload)))
      × (65507 < length payload
          → (m : Message) × (build_udp_ipv4_packet src sport dst dport payload
              ≡ err (invalid_argument m)))
  parse-build = (
    λ h. (
      built src sport dst dport payload,
      build_shape src sport dst dport payload (omega arith),
      parse-built src sport dst dport payload (omega arith),
    ),
    λ h. elim (build_too_large h) [
      | inl u ↦ (literal "udp payload too large", u)
      | inr i ↦ (literal "ipv4 packet too large", i)
    ],
  )

  -- A packet that `build_udp_ipv4_packet` returns for octets, 16-bit ports and bytes has 28 bytes
  -- more than the payload, and both of its checksums verify: the sum over the IP header, and the
  -- sum over pseudo-header and datagram, complement to zero.
  pub build_checksums :
      (packet : List ℕ)
      → IsIpv4 src
      → IsIpv4 dst
      → IsU16 sport
      → IsU16 dport
      → All IsByte payload
      → build_udp_ipv4_packet src sport dst dport payload ≡ ok packet
      → (length packet ≡ 28 + length payload)
        × (checksum_words (take 20 packet) ≡ 0)
        × (checksum_words (pseudo_header src dst (drop 20 packet)) ≡ 0)
  build_checksums packet hs hd hsp hdp hp e =
      let fits = build_fits packet e in
      let same : built src sport dst dport payload ≡ packet =
        cc (e, build_shape src sport dst dport payload fits) in
      rw (← same) (
        length-built src sport dst dport payload,
        header_verifies src sport dst dport payload hs hd fits,
        datagram_verifies src sport dst dport payload hs hd hsp hdp hp fits,
      )
