-- ===== src/Examples/Layers.antt =====
-- transport.rs: the layer-3 tunnel at concrete inputs.
use libreatrust.Base.{
  All, Ipv4Addr, List, Option, Text, [], ap, arith, codes, false, inl, is_whitespace, none, refl,
  some, sym, trim, ℕ, ◌∷◌, ◌≡◌, ◌⊎◌,
}
use libreatrust.Stream.{Reader, chunk, ready}
use libreatrust.Error.{AtrResult, err, literal, network_failed, ok}
use libreatrust.Types.{ClientConfig, SessionMaterial, default_client_config, tcp}
use libreatrust.Decimal.{decimal}
use libreatrust.Address.{ipv4_text}
use libreatrust.Utf8.{encode, encode_char}
use libreatrust.Map.{insert, lookup}
use libreatrust.Client.{AtrClient, best_node_for}
use libreatrust.Envelope.{build_data_payload, build_l3_auth_request_payload}
use libreatrust.Conntrack.{
  AuthResponseIp, PacketMeta, conn_track_key, find_conntrack, get_or_create, handle_auth_resp,
  parse_packet_meta, pos, update_conntrack,
}
use libreatrust.Stream.Live.{IsLive, contents}
use libreatrust.Request.{L3ClientInfo, Platform, build_auth_request, unsigned_request}
use libreatrust.Layer3.{
  L3Remote, ask_auth, begin_write, conntrack_at, drain_l3_remote_commands, enqueue_payload,
  ensure_auth, look_again, new_remote, send_auth_request, send_data, with_result,
}
use libreatrust.Layer3.Steps.{
  IsAllowed, World, begins, drain_world, drains, hear, heard, hears, looks, start, step,
  with_remote,
}
use libreatrust.Layer3.Steps.Worker.{Reaches-IsAllowed}
use libreatrust.Layer3.Tunnel.{L3Tunnel, connect_remote, new_tunnel, remote_for, write_packet}
use libreatrust.Layer3.Tunnel.Remotes.{
  IsRoutedTo, OpensRemotes, remote_for-again, write_packet-IsRoutedTo,
}
use libreatrust.Handshake.{AuthResponseSid, authenticate_l3_stream, read_virtual_ips}
use libreatrust.Handshake.Prompt.{Rest}
use libreatrust.Handshake.Accepted.{Acceptance, authenticate_l3_stream-accepts}

abbrev simple_platform : Platform
simple_platform = record {
  to_vec = λ request. ok request.app_id;
  hmac_sha256 = λ key bytes. key;
  encode_upper = λ bytes. bytes;
  sha256 = λ bytes. bytes;
  os_name = codes "linux";
  lang = codes "en-US";
}

-- An answer that gives the first conntrack a token.
abbrev granting : List ℕ → AtrResult AuthResponseIp
granting bytes = ok (record {
  code = pos 0;
  message = codes "OK";
  conntrack_hash = 1;
  connect_token = codes "tok";
  token = [];
})

abbrev some_info : L3ClientInfo
some_info = record { sid = codes "s"; device_id = codes "d"; connection_id = codes "c" }

-- A TCP packet from 10.0.0.1:1234 to 10.0.0.7:443.
abbrev syn : List ℕ
syn =
    69 ∷ 0 ∷ 0 ∷ 24 ∷ 0 ∷ 0 ∷ 0 ∷ 0 ∷ 64 ∷ 6 ∷ 0 ∷ 0 ∷ 10 ∷ 0 ∷ 0 ∷ 1 ∷ 10 ∷ 0 ∷ 0 ∷ 7 ∷ 4 ∷ 210 ∷ 1
    ∷ 187 ∷ []

abbrev syn_meta : PacketMeta
syn_meta = record {
  atype = 4;
  protocol = tcp;
  src_ip = record { o0 = 10; o1 = 0; o2 = 0; o3 = 1 };
  dst_ip = record { o0 = 10; o1 = 0; o2 = 0; o3 = 7 };
  src_port = 1234;
  dst_port = 443;
}

syn_parsed : parse_packet_meta syn ≡ ok syn_meta
unfolding parse_packet_meta
syn_parsed = refl

abbrev writes_all : List ℕ → AtrResult (Unit {0})
writes_all bytes = ok tt

-- A remote after a packet that waits, the answer, the waiting caller's next look, and a round of
-- the worker.
abbrev opened : World
opened = record { remote = new_remote some_info []; written = []; answers = [] }

abbrev asked : World
asked = with_remote opened (begin_write simple_platform syn_meta (codes "a1") syn opened.remote).1

abbrev decided : World
decided = hear granting 0 [] asked

abbrev sending : World
sending = with_remote decided (look_again 1 (codes "a1") syn false decided.remote).1

abbrev sent : World
sent = drain_world writes_all (ok tt) sending

first_flow : lookup (conn_track_key syn_meta) decided.remote.conntracks.by_key ≡ some 1
unfolding lookup conn_track_key begin_write get_or_create ensure_auth conntrack_at find_conntrack
    ask_auth update_conntrack send_auth_request build_auth_request unsigned_request
    build_l3_auth_request_payload enqueue_payload handle_auth_resp insert decimal ipv4_text heard
first_flow = refl

two_written :
    sent.written
    ≡ (0x05 ∷ 0x13 ∷ 0 ∷ 2 ∷ codes "a1") ∷ build_data_payload (codes "tok") (syn ∷ []) ∷ []
unfolding lookup conn_track_key begin_write get_or_create ensure_auth conntrack_at find_conntrack
    ask_auth update_conntrack send_auth_request build_auth_request unsigned_request
    build_l3_auth_request_payload enqueue_payload handle_auth_resp insert decimal ipv4_text heard
    look_again with_result send_data drain_l3_remote_commands build_data_payload encode encode_char
    trim is_whitespace
two_written = refl

Reaches-IsAllowed_example : All (IsAllowed sent.remote.conntracks.by_key sent.answers) sent.written
Reaches-IsAllowed_example = Reaches-IsAllowed simple_platform granting sent (
    step
      (step
        (step (step (start some_info []) (begins syn syn_meta (codes "a1") syn_parsed))
          (hears 0 []))
        (looks syn syn_meta (codes "a1") 1 false syn_parsed first_flow))
      (drains writes_all (ok tt)))

abbrev plain_config : ClientConfig
plain_config = default_client_config

-- A client whose office network is reached through the group `g1`.
abbrev office_client : AtrClient
office_client = record {
  config = plain_config;
  session = some (record {
    username = codes "u";
    sid = codes "s";
    device_id = codes "d";
    connection_id = codes "c";
    sign_key_hex = codes "00";
    cookies = [];
  });
  resource = some (record {
    ip_resources =
        record {
          ip_min = record { o0 = 10; o1 = 0; o2 = 0; o3 = 0 };
          ip_max = record { o0 = 10; o1 = 0; o2 = 0; o3 = 255 };
          port_min = 1;
          port_max = 65535;
          protocol = codes "all";
          app_id = codes "a1";
          node_group_id = codes "g1";
        }
        ∷ [];
    domain_resources = [];
    dns_resource = [];
    dns_server = none;
    major_node_group = codes "g1";
    node_groups = [];
    best_nodes = (codes "g1", codes "1.2.3.4:441") ∷ [];
    excluded_ips = [];
  });
  resource_bytes = none;
}

abbrev connects : AtrClient → SessionMaterial → Text → AtrResult (L3Remote × Option (List Ipv4Addr))
connects client session node = ok (new_remote some_info [], none)

write_packet-IsRoutedTo_example :
    (lookup
        (codes "g2")
        (write_packet simple_platform connects syn (new_tunnel office_client)).1.remotes
      ≡ lookup (codes "g2") (new_tunnel office_client).remotes)
    ⊎ IsRoutedTo simple_platform connects office_client syn (codes "g2")
write_packet-IsRoutedTo_example =
    write_packet-IsRoutedTo simple_platform connects syn (new_tunnel office_client) (codes "g2")

abbrev connected_tunnel : L3Tunnel
connected_tunnel = (remote_for simple_platform connects (codes "g1") (new_tunnel office_client)).1

connects-office :
    remote_for simple_platform connects (codes "g1") (new_tunnel office_client)
    ≡ (ok (new_remote some_info []), connected_tunnel)
unfolding remote_for connect_remote best_node_for lookup insert
connects-office = refl

connects-opens : OpensRemotes simple_platform connects
connects-opens client session node opened e =
    let same : (new_remote some_info [], none) ≡ opened = cc in
    ap (λ r. (r.0).close_flag) (sym same)

-- A node that can no longer be reached.
abbrev connects_nothing :
    AtrClient → SessionMaterial → Text → AtrResult (L3Remote × Option (List Ipv4Addr))
connects_nothing client session node = err (network_failed (literal "unreachable"))

remote_for-again_example :
    ((new_remote some_info []).close_flag ≡ false)
    × (remote_for simple_platform connects_nothing (codes "g1") connected_tunnel
        ≡ (ok (new_remote some_info []), connected_tunnel))
remote_for-again_example =
    remote_for-again simple_platform connects connects_nothing connects-opens (codes "g1")
      (new_tunnel office_client) connected_tunnel (new_remote some_info []) connects-office

-- An answer with an empty payload and one address of six bytes, cut in two.
abbrev accepted : Acceptance
accepted = record {
  payload = [];
  version = 0;
  reserved = 0;
  addr_type = 1;
  vips = 10 ∷ 8 ∷ 0 ∷ 2 ∷ 0 ∷ 0 ∷ [];
}

abbrev refuses_all : List ℕ → AtrResult AuthResponseSid
refuses_all bytes = ok (record { code = pos 7; message = codes "no" })

abbrev answer_pieces : Reader
answer_pieces =
    chunk (0x05 ∷ 0xD0 ∷ 0x53 ∷ 0x00 ∷ 0 ∷ [])
    ∷ chunk (0 ∷ 0x05 ∷ 0 ∷ 0 ∷ 1 ∷ 10 ∷ 8 ∷ 0 ∷ 2 ∷ 0 ∷ 0 ∷ 9 ∷ [])
    ∷ []

authenticate_l3_stream-accepts_example :
    ((rest : Reader) × (authenticate_l3_stream (codes "timed out") refuses_all answer_pieces
        ≡ ready (some (record { o0 = 10; o1 = 8; o2 = 0; o3 = 2 } ∷ [])) rest)
      × IsLive rest
      × (contents rest ≡ 9 ∷ []))
    × ((rest : Reader) × (read_virtual_ips (codes "timed out") refuses_all answer_pieces
          ≡ ready (record { o0 = 10; o1 = 8; o2 = 0; o3 = 2 } ∷ []) rest)
        × Rest rest (9 ∷ []))
authenticate_l3_stream-accepts_example =
    authenticate_l3_stream-accepts (codes "timed out") refuses_all accepted answer_pieces (9 ∷ [])
      (record { accepts = inl refl; fits = omega arith; sized = refl; some_vips = omega arith })
      (((λ e. absurd (cc e)), ((λ e. absurd (cc e)), tt)), refl)
