-- ===== src/Lib.antt =====
-- libreatrust: a client for a zero-trust gateway. It logs in, reads the resources that the
-- gateway offers, decides for each destination whether it goes through a tunnel, and carries TCP
-- streams, UDP datagrams and whole IP packets through it, for programs that call it and for a
-- local proxy.
--
-- How the parts interact. A login (Auth) is a dialogue with the server that ends with a session,
-- and with that session the client asks for its resources. The bytes of the server's resource
-- answer become a `ResourceSnapshot` (Resource.Parse), which the client keeps (Client) and
-- against which it routes (Resource). A destination that is managed gets a tunnel: the
-- destination is sent in a frame, the server's answers are awaited, and data frames go both ways
-- (Tcp, over Stream). IP packets, into which UDP datagrams are put (Packet), travel in data
-- payloads (Envelope) that are read in frames (Frames) and sent on (Remote), once the flow of the
-- packet is authorised (Conntrack): a tunnel (Layer3.Tunnel) finds the remote (Layer3) of the
-- packet's node group, and a UDP tunnel (Udp) is one flow over it. The proxy (Proxy) reads SOCKS5
-- and HTTP requests, asks the client for the route and opens a tunnel or a direct connection.
--
-- Which file models which part, with paths under crates/libreatrust-core/src of the repository:
--   Error       error.rs: `ErrorCode`, `AtrError`, and `AtrResult` with its `?` as a bind
--   Types       types.rs: the data that the parts hand to one another
--   Client      client.rs: `AtrClient` and its methods, a method that changes it as a function
--               from the old client to the new
--   Resource    resource.rs: `route` and all its tests, `domain_managed`, `ip_managed_for_tcp`
--   Resource.Entries, Resource.Parse  resource.rs: the texts of the entries, and
--               `parse_resource_bytes` from the response that serde_json has read
--   Stream      transport.rs: `read_tunnel_exact` and `read_tunnel_exact_blocking`
--   Tcp         transport.rs: `send_tcp_dest`, `wait_for_tcp_connect_status`,
--               `write_tcp_payload`, `read_tcp_frame`
--   Tunnel      transport.rs: `TcpTunnel::read` and `drain_tcp_tunnel_frames`;
--               Tunnel.Commands: `TcpTunnel::write` and `close`, `drain_tcp_tunnel_commands`
--   Packet      transport.rs: `build_udp_ipv4_packet`, `parse_ipv4_udp_packet`,
--               `udp_payload_if_match`, `checksum_words`, `udp_checksum`
--   Envelope    transport.rs: `build_data_payload`, `parse_data_payload`,
--               `decode_l3_data_payload`, `is_complete_ip_packet` and the requests around them
--   Frames      transport.rs: `read_l3_frame_available`, `read_data_resp_payload`
--   Conntrack   transport.rs: `parse_packet_meta`, `conn_track_key`, `ConntrackMgr`,
--               `handle_auth_resp`
--   Remote      transport.rs: `drain_l3_remote_frames`, `handle_l3_remote_frame`,
--               `parse_virtual_ip_bytes`, on the state that the worker of a tunnel changes
--   Request     transport.rs and sign.rs: `build_auth_request`, `default_env`, `calc_request_sig`
--   Layer3      transport.rs: `L3Remote` and `drain_l3_remote_commands`; Layer3.Steps: the steps of
--               its callers and of its worker, in any order; Layer3.Tunnel: `L3Tunnel` and
--               `remote_for`
--   Handshake   transport.rs: `authenticate_l3_stream`, `request_l3_virtual_ips`, `L3Remote::connect`
--   Udp         transport.rs: `UdpTunnel`
--   Keepalive   transport.rs: `select_icmp_keepalive_target`, `build_icmp_echo_packet`,
--               `L3Liveness`, `pick_local_ip`, `pick_local_port`
--   Json        what the login reads of the values of serde_json
--   Auth        auth.rs: `AuthSession` and its state, with a monad of the state and of errors;
--               Auth.Http, Auth.Requests and Auth.Answers: the requests and what is read of their
--               replies; Auth.Login: the flows, `continue_auth` and `complete_login`;
--               Auth.Session and Auth.Stored: the public methods;
--               Auth.Bodies: `validate_client_resource_response`
--   Pac         pac.rs: `generate_pac` with its tables, and the function of the script
--   Proxy       proxy_service.rs: `resolved_tcp_route`, `resolve_ipv4_addresses`;
--               Proxy.Socks and Proxy.Http: the requests of the two protocols; Proxy.Service:
--               `handle_connection` up to the relay, with the PAC file that it serves
--   Base, Decimal, Address, Utf8, Map: what the code uses of the standard library, namely lists,
--               bytes and texts, printed numbers, IP addresses, UTF-8 and hash maps
--   Examples    the theorems at concrete inputs
--
-- How state and effects are written. A text is the list of its characters and a byte string the
-- list of its bytes. A hash map is an association list in the order of its iteration. A
-- connection that is read is the list of what its reads will give (`ReadEvent`): a piece of
-- bytes, a read that would block, or a failure, and the end of the list is a closed connection.
-- Silences may be of any length, but a connection that stays silent or sends for ever is no such
-- list, and what is said of the end of a loop that reads is said of connections that end; a step
-- that reads returns the events left. What is written is returned as the bytes. The conntracks,
-- which two maps share, are one store with references by identifier. A call that blocks returns
-- that it waits, and each look after it is a call of its own (`look_again`, `await`,
-- `read_datagram`); what the threads of a remote do in between are the steps of Layer3.Steps.
-- Words of 16 and 8 bits keep their wrap-around, and the sum of a checksum is taken modulo 2 ^
-- 32.
--
-- Bounds and fuel. `read_tunnel_exact_blocking` has a round for each event and one more, since a
-- round that reads nothing takes an event. The loops of `wait_for_tcp_connect_status` and of
-- `read_l3_frame_available` have a round for each byte to come and one more, since a round that
-- goes on takes at least two bytes; so has the loop of `drain_tcp_tunnel_frames`. The folding of
-- a checksum has three rounds, which a sum of 32 bits needs at most. `chunks` has a round for
-- each byte. `continue_auth` has the eight rounds of the source, and the error of the source when
-- they are used up. The loops of the proxy have a round for each byte to come and one more.
-- `hex_from` has the 32 digits of the 128 bits of a clock in milliseconds.
--
-- Parameters: the address blocks of the ipnet crate, the JSON of an authorisation answer, the
-- resolver and the clock of the DNS cache, hex decoding and HMAC; for the login the record
-- `Services` of what it takes from the crates for HTTP, URLs, JSON, base64, MD5, RSA and random
-- bytes and from the clock, where the replies of the server are a list in the state; for the
-- script the browser's `toLowerCase`, `isPlainHostName` and `dnsResolve`, and the quoting of
-- serde_json; for the requests of a flow the record `Platform`; for a tunnel the connecting of a
-- remote and of its TLS stream; and for the proxy the record `System`. Not modelled: sockets,
-- TLS, threads and their event loops, logging (log.rs) and the C interface (src/ffi.rs of the
-- repository).
pub mod Base
pub mod Error
pub mod Types
pub mod Decimal
pub mod Address
pub mod Map
pub mod Json
pub mod Resource
pub mod Client
pub mod Stream
pub mod Tcp
pub mod Tunnel
pub mod Packet
pub mod Envelope
pub mod Frames
pub mod Conntrack
pub mod Utf8
pub mod Proxy
pub mod Keepalive
pub mod Remote
pub mod Auth
pub mod Pac
pub mod Request
pub mod Layer3
pub mod Udp
pub mod Handshake
pub mod Examples
