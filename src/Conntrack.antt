-- ===== src/Conntrack.antt =====
-- transport.rs: the authorisations of the layer-3 tunnel's flows, `PacketMeta`,
-- `parse_packet_meta`, `conn_track_key`, `ConntrackMgr` and `handle_auth_resp`.
pub mod Identity
pub mod Key
pub mod Answers
use libreatrust.Base.{
  Bool, Ipv4Addr, List, Option, Text, [], byte_at, false, if◌then◌else◌, is_empty, length, ltb,
  none, not, some, trim, ℕ, ◌%◌, ◌&&◌, ◌*◌, ◌++◌, ◌+◌, ◌/◌, ◌==◌, ◌^◌, ◌||◌, ◌∷◌,
}
use libreatrust.Error.{
  AtrError, AtrResult, about, err, is_ok, literal, not_found, ok, parse_failed, unauthorized,
  unsupported,
}
use libreatrust.Types.{ProtocolKind, icmp, tcp, udp}
use libreatrust.Decimal.{decimal}
use libreatrust.Address.{ipv4_text}
use libreatrust.Map.{Map, insert, lookup}
use libreatrust.Packet.Udp.{ipv4_at, u16_at}

pub record PacketMeta : Type 0 where
  pub atype : ℕ
  pub protocol : ProtocolKind
  pub src_ip : Ipv4Addr
  pub dst_ip : Ipv4Addr
  pub src_port : ℕ
  pub dst_port : ℕ

-- The end of `parse_packet_meta`.
abbrev meta_of : List ℕ → ProtocolKind → ℕ → ℕ → AtrResult PacketMeta
meta_of packet protocol src_port dst_port = ok (record {
  atype = 4;
  protocol = protocol;
  src_ip = ipv4_at packet 12;
  dst_ip = ipv4_at packet 16;
  src_port = src_port;
  dst_port = dst_port;
})

-- `parse_packet_meta`
unfoldable pub parse_packet_meta : List ℕ → AtrResult PacketMeta
parse_packet_meta packet =
    let ihl = byte_at packet 0 % 16 * 4 in
    let proto = byte_at packet 9 in
    if ltb (length packet) 20
    then err (parse_failed (literal "packet too short"))
    else if not (byte_at packet 0 / 16 == 4)
    then err (unsupported (literal "only ipv4 is supported"))
    else if ltb (length packet) ihl
    then err (parse_failed (literal "invalid ipv4 header"))
    else if proto == 6 || proto == 17
    then (if ltb (length packet) (ihl + 4)
        then err (parse_failed (literal "transport header too short"))
        else meta_of packet (if proto == 6 then tcp else udp) (u16_at packet ihl)
            (u16_at packet (ihl + 2)))
    else if proto == 1
    then meta_of packet icmp 0 0
    else err (unsupported (about "protocol unsupported" (proto ∷ [])))

-- `conn_track_key`
unfoldable pub conn_track_key : PacketMeta → Text
conn_track_key m =
    decimal m.atype
    ++ (b':'
        ∷ (ipv4_text m.src_ip
            ++ (b':'
                ∷ (decimal m.src_port
                    ++ (b'-' ∷ (ipv4_text m.dst_ip ++ (b':' ∷ decimal m.dst_port)))))))

pub record Conntrack : Type 0 where
  pub auth_id : ℕ
  pub connect_token : Option Text
  pub app_id : Text
  pub auth_started : Bool
  pub auth_result : Option (AtrResult (Unit {0}))

-- The conntracks that both maps share are kept once, in `by_id`; `by_key` refers to them by their
-- identifiers.
pub record ConntrackMgr : Type 0 where
  pub next_auth_id : ℕ
  pub by_key : Map ℕ
  pub by_id : List (ℕ × Conntrack)

abbrev pub new_mgr : ConntrackMgr
new_mgr = record { next_auth_id = 0; by_key = []; by_id = [] }

-- `ConntrackMgr::by_id`
unfoldable pub find_conntrack : ℕ → List (ℕ × Conntrack) → Option Conntrack
find_conntrack id [] = none
find_conntrack id ((i, ct) ∷ rest) = if i == id then some ct else find_conntrack id rest

-- A change of the shared conntrack `id`.
unfoldable pub update_conntrack :
    ℕ → (Conntrack → Conntrack) → List (ℕ × Conntrack) → List (ℕ × Conntrack)
update_conntrack id f [] = []
update_conntrack id f ((i, ct) ∷ rest) =
    let more = update_conntrack id f rest in if i == id then (i, f ct) ∷ more else (i, ct) ∷ more

abbrev pub fresh_conntrack : ℕ → Text → Conntrack
fresh_conntrack id app_id = record {
  auth_id = id;
  connect_token = none;
  app_id = app_id;
  auth_started = false;
  auth_result = none;
}

-- `get_or_create`: the identifier of the key's conntrack. The counter is a `u64`.
unfoldable pub get_or_create : ConntrackMgr → Text → Text → ℕ × ConntrackMgr
get_or_create mgr key app_id =
    let id = (mgr.next_auth_id + 1) % 2 ^ 64 in
    elim (lookup key mgr.by_key) [
      | some known ↦ (known, mgr)
      | none ↦ (
        id,
        record {
          next_auth_id = id;
          by_key = insert key id mgr.by_key;
          by_id = (id, fresh_conntrack id app_id) ∷ mgr.by_id;
        },
      )
    ]

-- `fail_pending`: every conntrack without a result gets the error.
abbrev pub fail_conntrack : AtrError → Conntrack → Conntrack
fail_conntrack error ct = record {
  auth_id = ct.auth_id;
  connect_token = ct.connect_token;
  app_id = ct.app_id;
  auth_started = ct.auth_started;
  auth_result = elim ct.auth_result [ none ↦ some (err error) | some r ↦ some r ];
}

unfoldable pub fail_all : AtrError → List (ℕ × Conntrack) → List (ℕ × Conntrack)
fail_all error [] = []
fail_all error ((i, ct) ∷ rest) = (i, fail_conntrack error ct) ∷ fail_all error rest

unfoldable pub fail_pending : AtrError → ConntrackMgr → ConntrackMgr
unfolding fail_all
fail_pending error mgr = record {
  next_auth_id = mgr.next_auth_id;
  by_key = mgr.by_key;
  by_id = fail_all error mgr.by_id;
}

-- A signed number, an `i64` of an answer.
pub data ℤ : Type 0 where
  pos : ℕ → ℤ
  negsuc : ℕ → ℤ

abbrev pub is_zero : ℤ → Bool
is_zero (pos n) = n == 0
is_zero (negsuc n) = false

pub record AuthResponseIp : Type 0 where
  pub code : ℤ
  pub message : Text
  pub conntrack_hash : ℕ
  pub connect_token : Text
  pub token : Text

-- The token of an answer: `connectToken`, or `token` where that is blank.
abbrev pub answer_token : AuthResponseIp → Text
answer_token resp =
    if not (is_empty (trim resp.connect_token)) then trim resp.connect_token else trim resp.token

abbrev pub answer_result : AuthResponseIp → AtrResult (Unit {0})
answer_result resp =
    if is_zero resp.code && not (is_empty (answer_token resp))
    then ok tt
    else err (unauthorized (about "auth failed: " resp.message))

abbrev pub answered : AuthResponseIp → Conntrack → Conntrack
answered resp ct = record {
  auth_id = ct.auth_id;
  connect_token = if is_ok (answer_result resp) then some (answer_token resp) else ct.connect_token;
  app_id = ct.app_id;
  auth_started = ct.auth_started;
  auth_result = some (answer_result resp);
}

-- `handle_auth_resp`, where `from_json` reads the JSON of a payload.
unfoldable pub handle_auth_resp :
    (List ℕ → AtrResult AuthResponseIp)
    → ConntrackMgr
    → ℕ
    → List ℕ
    → AtrResult (Unit {0}) × ConntrackMgr
handle_auth_resp from_json mgr status payload =
    if not (status == 0) then (ok tt, mgr) else elim (from_json payload) [
      | err e ↦ (err e, mgr)
      | ok resp ↦ elim (find_conntrack resp.conntrack_hash mgr.by_id) [
        | none ↦ (err (not_found (literal "conntrack missing")), mgr)
        | some ct ↦ (
          answer_result resp,
          record {
            next_auth_id = mgr.next_auth_id;
            by_key = mgr.by_key;
            by_id = update_conntrack resp.conntrack_hash (answered resp) mgr.by_id;
          },
        )
      ]
    ]
