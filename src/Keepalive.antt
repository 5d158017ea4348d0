-- ===== src/Keepalive.antt =====
-- transport.rs: what keeps a layer-3 tunnel alive and usable, the ICMP echo of
-- `select_icmp_keepalive_target` and `build_icmp_echo_packet`, `L3Liveness`, and the local
-- addresses and ports of a UDP tunnel.
pub mod Target
pub mod Echo
pub mod Liveness
use libreatrust.Base.{
  Bool, Ipv4Addr, List, Option, Text, [], as_u16, be16, bit_xor, codes, copy_at, drop, false,
  if◌then◌else◌, ipv4_number, ipv4_of_number, leb, length, ltb, min, none, not, octets, or_else,
  replicate, some, take, text_eq, ℕ, ◌%◌, ◌&&◌, ◌*◌, ◌+◌, ◌-◌, ◌/◌, ◌==◌, ◌^◌, ◌||◌, ◌∷◌,
}
use libreatrust.Address.{ipv4_text}
use libreatrust.Map.{Map, lookup}
use libreatrust.Resource.{DomainResource, IpResource, ResourceSnapshot}
use libreatrust.Client.{AtrClient, route_icmp}
use libreatrust.Proxy.{is_managed}
use libreatrust.Utf8.{encode}
use libreatrust.Packet.Udp.{ipv4_checksum}

-- `protocol_allows_icmp`
abbrev pub protocol_allows_icmp : Text → Bool
protocol_allows_icmp protocol = text_eq protocol (codes "icmp") || text_eq protocol (codes "all")

-- `representative_ipv4`
unfoldable pub representative_ipv4 : Ipv4Addr → Ipv4Addr → Option Ipv4Addr
representative_ipv4 low high =
    let lo = ipv4_number low in
    let hi = ipv4_number high in
    let middle = lo + (hi - lo) / 2 in
    let is_edge = middle % 256 == 0 || middle % 256 == 255 in
    if ltb hi lo
    then none
    else some (
        ipv4_of_number
          (if ltb lo hi && is_edge then min (min (middle + 1) 4294967295) hi else middle))

abbrev pub answers_icmp : AtrClient → Ipv4Addr → Bool
answers_icmp client ip = is_managed (route_icmp client (ipv4_text ip))

-- The loop over the static addresses.
unfoldable pub static_target : AtrClient → Map DomainResource → Map Ipv4Addr → Option Ipv4Addr
static_target client domains [] = none
static_target client domains ((domain, ip) ∷ entries) =
    let rest = static_target client domains entries in
    elim (lookup domain domains) [
      | none ↦ rest
      | some r ↦
          if not (protocol_allows_icmp r.protocol)
          then rest
          else if answers_icmp client ip
          then some ip
          else rest
    ]

-- The loop over the address ranges, which a range that has no representative ends.
unfoldable pub range_target : AtrClient → List IpResource → Option Ipv4Addr
range_target client [] = none
range_target client (r ∷ rs) =
    let rest = range_target client rs in
    if not (protocol_allows_icmp r.protocol)
    then rest
    else elim (representative_ipv4 r.ip_min r.ip_max) [
      | none ↦ none
      | some candidate ↦ if answers_icmp client candidate then some candidate else rest
    ]

-- The search in the resources, where there are any.
unfoldable pub resource_target : AtrClient → Option ResourceSnapshot → Option Ipv4Addr
unfolding static_target range_target
resource_target client none = none
resource_target client (some resource) =
    or_else (static_target client resource.domain_resources resource.dns_resource)
      (range_target client resource.ip_resources)

-- `select_icmp_keepalive_target`
unfoldable pub select_icmp_keepalive_target : AtrClient → Option Ipv4Addr
unfolding resource_target
select_icmp_keepalive_target client = resource_target client client.resource

abbrev pub echo_payload : List ℕ
echo_payload = codes "reatrust keep-alive"

-- `build_icmp_echo_packet`
unfoldable pub build_icmp_echo_packet : Ipv4Addr → Ipv4Addr → ℕ → List ℕ
build_icmp_echo_packet source destination sequence =
    let total_len = 20 + (8 + length echo_payload) in
    let p0 = copy_at (replicate total_len 0) 0 (69 ∷ []) in
    let p2 = copy_at p0 2 (be16 (as_u16 total_len)) in
    let p4 = copy_at p2 4 (be16 sequence) in
    let p8 = copy_at p4 8 (64 ∷ []) in
    let p9 = copy_at p8 9 (1 ∷ []) in
    let p12 = copy_at p9 12 (octets source) in
    let p16 = copy_at p12 16 (octets destination) in
    let p20 = copy_at p16 20 (8 ∷ []) in
    let p24 = copy_at p20 24 (be16 0x5241) in
    let p26 = copy_at p24 26 (be16 sequence) in
    let p28 = copy_at p26 28 echo_payload in
    let p22 = copy_at p28 22 (be16 (ipv4_checksum (drop 20 p28))) in
    copy_at p22 10 (be16 (ipv4_checksum (take 20 p22)))

-- `L3Liveness`, with the time in nanoseconds
pub record L3Liveness : Type 0 where
  pub last_frame_at : ℕ
  pub heartbeat_acknowledged : Bool

abbrev pub new_liveness : ℕ → L3Liveness
new_liveness now = record { last_frame_at = now; heartbeat_acknowledged = false }

-- The command of a heartbeat's answer.
abbrev pub l3_heartbeat_reply_cmd : ℕ
l3_heartbeat_reply_cmd = 0x95

unfoldable pub record_frame : L3Liveness → ℕ → ℕ → L3Liveness
record_frame liveness cmd now = record {
  last_frame_at = now;
  heartbeat_acknowledged = liveness.heartbeat_acknowledged || cmd == l3_heartbeat_reply_cmd;
}

-- 80 seconds.
abbrev pub l3_liveness_timeout : ℕ
l3_liveness_timeout = 80 * 1000000000

unfoldable pub is_stale : L3Liveness → ℕ → Bool
is_stale liveness now =
    liveness.heartbeat_acknowledged && leb l3_liveness_timeout (now - liveness.last_frame_at)

-- `pick_local_ip`
abbrev pub pick_local_ip : Ipv4Addr → Ipv4Addr
pick_local_ip remote_ip = record {
  o0 = 10;
  o1 = remote_ip.o1;
  o2 = remote_ip.o2;
  o3 = remote_ip.o3;
}

-- The loop of `pick_local_port` over the bytes of the host.
unfoldable pub hash_bytes : ℕ → List ℕ → ℕ
hash_bytes hash [] = hash
hash_bytes hash (byte ∷ bytes) = hash_bytes (bit_xor (hash * 16777619 % 2 ^ 32) byte) bytes

-- `pick_local_port`
unfoldable pub pick_local_port : Text → ℕ → ℕ
unfolding hash_bytes
pick_local_port host port =
    let mixed = bit_xor (hash_bytes 0 (encode host)) port in 40000 + as_u16 (mixed % 20000)
