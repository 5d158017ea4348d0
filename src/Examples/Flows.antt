-- ===== src/Examples/Flows.antt =====
-- transport.rs: the conntracks at concrete inputs.
use libreatrust.Base.{
  Ipv4Addr, IsIpv4, List, [], arith, codes, none, refl, some, subst, ℕ, ◌↔◌, ◌∷◌, ◌≡◌,
}
use libreatrust.Error.{AtrResult, err, literal, network_failed, ok}
use libreatrust.Map.{insert, lookup}
use libreatrust.Conntrack.{
  AuthResponseIp, Conntrack, ConntrackMgr, PacketMeta, conn_track_key, fail_pending, find_conntrack,
  fresh_conntrack, get_or_create, new_mgr, pos,
}
use libreatrust.Conntrack.Identity.{Holds, Reaches, Reaches-apart, create, start, step}
use libreatrust.Conntrack.Answers.{fail_pending-decides}
use libreatrust.Types.{ProtocolKind, tcp, udp}
use libreatrust.Conntrack.Key.{IsMeta, SameEnds, conn_track_key_iff}

abbrev first_mgr : ConntrackMgr
first_mgr = record {
  next_auth_id = 1;
  by_key = (codes "4:k", 1) ∷ [];
  by_id = (1, fresh_conntrack 1 (codes "a1")) ∷ [];
}

created_first : (get_or_create new_mgr (codes "4:k") (codes "a1")).1 ≡ first_mgr
unfolding get_or_create lookup insert
created_first = refl

Reaches-first : Reaches first_mgr
Reaches-first =
    subst Reaches created_first (step start (create (codes "4:k") (codes "a1") (omega arith)))

first_known : lookup (codes "4:k") first_mgr.by_key ≡ some 1
unfolding lookup
first_known = refl

Reaches-apart_example :
    Holds first_mgr 1 × (lookup (codes "4:j") first_mgr.by_key ≡ some 1 → codes "4:k" ≡ codes "4:j")
Reaches-apart_example = Reaches-apart (codes "4:k") (codes "4:j") 1 Reaches-first first_known

abbrev accepted : AuthResponseIp
accepted = record {
  code = pos 0;
  message = codes "OK";
  conntrack_hash = 1;
  connect_token = [];
  token = codes " tok ";
}

abbrev always_accepted : List ℕ → AtrResult AuthResponseIp
always_accepted payload = ok accepted

first_found : find_conntrack 1 first_mgr.by_id ≡ some (fresh_conntrack 1 (codes "a1"))
unfolding find_conntrack
first_found = refl

fail_pending-decides_example :
    (ct' : Conntrack) × (find_conntrack 1
        (fail_pending (network_failed (literal "gone")) first_mgr).by_id
      ≡ some ct')
    × ((fresh_conntrack 1 (codes "a1")).auth_result ≡ none
        → ct'.auth_result ≡ some (err (network_failed (literal "gone"))))
    × ((r : AtrResult (Unit {0}))
        → (fresh_conntrack 1 (codes "a1")).auth_result ≡ some r
        → ct'.auth_result ≡ some r)
    × (ct'.connect_token ≡ none)
    × ((fail_pending (network_failed (literal "gone")) first_mgr).by_key ≡ first_mgr.by_key)
fail_pending-decides_example =
    fail_pending-decides (network_failed (literal "gone")) first_mgr 1
      (fresh_conntrack 1 (codes "a1")) first_found

-- A TCP and a UDP packet between the same ends.
abbrev near : Ipv4Addr
near = record { o0 = 10; o1 = 0; o2 = 0; o3 = 1 }

near-IsIpv4 : IsIpv4 near
near-IsIpv4 = record { b0 = omega arith; b1 = omega arith; b2 = omega arith; b3 = omega arith }

abbrev dns_packet : ProtocolKind → PacketMeta
dns_packet protocol = record {
  atype = 4;
  protocol = protocol;
  src_ip = near;
  dst_ip = near;
  src_port = 4000;
  dst_port = 53;
}

dns_packet-IsMeta : (protocol : ProtocolKind) → IsMeta (dns_packet protocol)
dns_packet-IsMeta protocol = record {
  src = near-IsIpv4;
  dst = near-IsIpv4;
  src_port = omega arith;
  dst_port = omega arith;
  atype = omega arith;
}

conn_track_key_iff_example :
    (conn_track_key (dns_packet tcp) ≡ conn_track_key (dns_packet udp))
    ↔ SameEnds (dns_packet tcp) (dns_packet udp)
conn_track_key_iff_example =
    conn_track_key_iff (dns_packet tcp) (dns_packet udp) (dns_packet-IsMeta tcp)
      (dns_packet-IsMeta udp)
