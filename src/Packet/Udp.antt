-- ===== src/Packet/Udp.antt =====
-- transport.rs: the UDP datagrams of `UdpTunnel`, built into and read from IPv4 packets.
pub mod Shape
pub mod RoundTrip
use libreatrust.Base.{
  Bool, Ipv4Addr, List, Option, [], as_u16, be16, byte_at, copy_at, drop, from_be16, if◌then◌else◌,
  length, ltb, none, not, octets, replicate, some, take, ℕ, ◌%◌, ◌&&◌, ◌*◌, ◌++◌, ◌+◌, ◌-◌, ◌/◌,
  ◌==◌, ◌||◌, ◌∷◌,
}
use libreatrust.Error.{AtrResult, err, invalid_argument, literal, ok, parse_failed, unsupported}
use libreatrust.Packet.Checksum.{checksum_words}

abbrev pub zeros : ℕ → List ℕ
zeros n = replicate n 0

-- `ipv4_checksum`
abbrev pub ipv4_checksum : List ℕ → ℕ
ipv4_checksum header = checksum_words header

-- The pseudo-header and the datagram, padded to an even length.
abbrev pub pseudo_header : Ipv4Addr → Ipv4Addr → List ℕ → List ℕ
pseudo_header src_ip dst_ip udp =
    let pseudo =
      octets src_ip ++ (octets dst_ip ++ (0 ∷ 17 ∷ (be16 (as_u16 (length udp)) ++ udp))) in
    if length pseudo % 2 == 0 then pseudo else pseudo ++ (0 ∷ [])

-- `udp_checksum`
unfoldable pub udp_checksum : Ipv4Addr → Ipv4Addr → List ℕ → ℕ
udp_checksum src_ip dst_ip udp =
    let sum = checksum_words (pseudo_header src_ip dst_ip udp) in if sum == 0 then 65535 else sum

-- The IP header of `build_udp_ipv4_packet`, written into a packet of zeros.
abbrev pub write_ip_header : Ipv4Addr → Ipv4Addr → ℕ → List ℕ → List ℕ
write_ip_header src_ip dst_ip total_len packet =
    let p0 = copy_at packet 0 (69 ∷ []) in
    let p1 = copy_at p0 1 (0 ∷ []) in
    let p2 = copy_at p1 2 (be16 (as_u16 total_len)) in
    let p4 = copy_at p2 4 (be16 0) in
    let p6 = copy_at p4 6 (be16 0) in
    let p8 = copy_at p6 8 (64 ∷ []) in
    let p9 = copy_at p8 9 (17 ∷ []) in
    let p12 = copy_at p9 12 (octets src_ip) in
    let p16 = copy_at p12 16 (octets dst_ip) in copy_at p16 10 (be16 (ipv4_checksum (take 20 p16)))

-- The datagram, written into the slice `packet[20..]`.
abbrev pub write_udp : Ipv4Addr → ℕ → Ipv4Addr → ℕ → ℕ → List ℕ → List ℕ → List ℕ
write_udp src_ip src_port dst_ip dst_port udp_len payload udp =
    let u0 = copy_at udp 0 (be16 src_port) in
    let u2 = copy_at u0 2 (be16 dst_port) in
    let u4 = copy_at u2 4 (be16 (as_u16 udp_len)) in
    let u6 = copy_at u4 6 (be16 0) in
    let u8 = copy_at u6 8 payload in copy_at u8 6 (be16 (udp_checksum src_ip dst_ip u8))

unfoldable pub build_udp_ipv4_packet : Ipv4Addr → ℕ → Ipv4Addr → ℕ → List ℕ → AtrResult (List ℕ)
build_udp_ipv4_packet src_ip src_port dst_ip dst_port payload =
    let udp_len = 8 + length payload in
    let total_len = 20 + udp_len in
    if ltb 65535 udp_len
    then err (invalid_argument (literal "udp payload too large"))
    else if ltb 65535 total_len
    then err (invalid_argument (literal "ipv4 packet too large"))
    else let packet = write_ip_header src_ip dst_ip total_len (zeros total_len) in
      ok (
        take 20 packet
        ++ write_udp src_ip src_port dst_ip dst_port udp_len payload (drop 20 packet))

-- What `parse_ipv4_udp_packet` returns.
pub record Datagram : Type 0 where
  pub src_ip : Ipv4Addr
  pub dst_ip : Ipv4Addr
  pub src_port : ℕ
  pub dst_port : ℕ
  pub payload : List ℕ

-- `Ipv4Addr::new(packet[i], packet[i + 1], packet[i + 2], packet[i + 3])`
abbrev pub ipv4_at : List ℕ → ℕ → Ipv4Addr
ipv4_at packet i = record {
  o0 = byte_at packet i;
  o1 = byte_at packet (i + 1);
  o2 = byte_at packet (i + 2);
  o3 = byte_at packet (i + 3);
}

-- `u16::from_be_bytes([packet[i], packet[i + 1]])`
abbrev pub u16_at : List ℕ → ℕ → ℕ
u16_at packet i = from_be16 (byte_at packet i) (byte_at packet (i + 1))

unfoldable pub parse_ipv4_udp_packet : List ℕ → AtrResult Datagram
parse_ipv4_udp_packet packet =
    let ihl = byte_at packet 0 % 16 * 4 in
    let udp_len = u16_at packet (ihl + 4) in
    if ltb (length packet) 28
    then err (parse_failed (literal "udp packet too short"))
    else if not (byte_at packet 0 / 16 == 4)
    then err (unsupported (literal "only ipv4 is supported"))
    else if ltb (length packet) (ihl + 8)
    then err (parse_failed (literal "udp header too short"))
    else if not (byte_at packet 9 == 17)
    then err (unsupported (literal "not a udp packet"))
    else if ltb (length packet) (ihl + udp_len) || ltb udp_len 8
    then err (parse_failed (literal "invalid udp length"))
    else ok (record {
      src_ip = ipv4_at packet 12;
      dst_ip = ipv4_at packet 16;
      src_port = u16_at packet ihl;
      dst_port = u16_at packet (ihl + 2);
      payload = take (udp_len - 8) (drop (ihl + 8) packet);
    })

-- `==` of addresses.
abbrev pub ipv4_eq : Ipv4Addr → Ipv4Addr → Bool
ipv4_eq a b = a.o0 == b.o0 && a.o1 == b.o1 && a.o2 == b.o2 && a.o3 == b.o3

unfoldable pub udp_payload_if_match : List ℕ → Ipv4Addr → ℕ → Ipv4Addr → ℕ → Option (List ℕ)
udp_payload_if_match packet local_ip local_port remote_ip remote_port =
    elim (parse_ipv4_udp_packet packet) [
      | err e ↦ none
      | ok d ↦
          if ipv4_eq d.src_ip remote_ip
            && d.src_port == remote_port
            && ipv4_eq d.dst_ip local_ip
            && d.dst_port == local_port
          then some d.payload
          else none
    ]
