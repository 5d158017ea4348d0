-- ===== src/Proxy/Service.antt =====
-- proxy_service.rs: what the proxy does with a connection before it relays, `handle_connection`,
-- `handle_socks5`, `handle_http`, `serve_local_http_request` and `open_proxy_target`.
pub mod Requests
pub mod Loops
pub mod Ends
pub mod Token
pub mod Pipelined
use libreatrust.Base.{
  Bool, List, Option, String, Text, [], drop, if◌then◌else◌, is_empty, leb, length, ltb, none, some,
  suc, take, zero, ℕ, ◌*◌, ◌++◌, ◌+◌, ◌∷◌,
}
use libreatrust.Stream.{
  Io, IoResult, Reader, byte_count, chunk, fail, failed, failure, pure, ready, stuck, would_block,
  ◌>>=◌,
}
use libreatrust.Error.{
  AtrError, AtrResult, about, err, invalid_argument, literal, network_failed, ok,
}
use libreatrust.Resource.{route}
use libreatrust.Client.{AtrClient}
use libreatrust.Proxy.{proxy_direct, proxy_managed, resolved_tcp_route}
use libreatrust.Proxy.Socks.{
  Socks5ConnectRequest, parse_socks5_connect, parse_socks5_greeting, socks5_reply,
}

pub record ProxyServiceConfig : Type 0 where
  pub listen_host : Text
  pub listen_port : ℕ
  pub connect_timeout_ms : ℕ
  pub idle_timeout_ms : ℕ
  pub enable_http : Bool
  pub enable_socks5 : Bool
  pub pac_token : Option Text

abbrev pub max_header_size : ℕ
max_header_size = 64 * 1024

abbrev pub read_buf_size : ℕ
read_buf_size = 64 * 1024

-- `ProxyRemote`, by what it is connected to.
pub data ProxyRemote : Type 0 where
  to_direct : Text → ℕ → ProxyRemote
  to_managed : Text → ℕ → ProxyRemote

-- How a connection ends: its remote is relayed, or the thread returns.
pub data Ending : Type 0 where
  relays : ProxyRemote → Ending
  returns : AtrResult (Unit {0}) → Ending

-- What the client has been sent and the remote has been sent before that, and the bytes that are
-- counted as managed uploads.
pub record Served : Type 0 where
  pub replies : List (List ℕ)
  pub forwarded : List (List ℕ)
  pub uploaded : ℕ
  pub ending : Ending

abbrev pub stop : AtrResult (Unit {0}) → Served
stop result = record { replies = []; forwarded = []; uploaded = 0; ending = returns result }

abbrev pub start_relay : ProxyRemote → Served
start_relay remote = record { replies = []; forwarded = []; uploaded = 0; ending = relays remote }

-- What the proxy takes from the system: the text of a read that has timed out, what writing to the
-- client and to a remote gives, the addresses of a host, the opening of a tunnel and of a direct
-- connection, the quoting of JSON, and the text of the address that `listen_host` stands for.
pub record System : Type 0 where
  pub timed_out : Text
  pub write_client : List ℕ → AtrResult (Unit {0})
  pub write_remote : ProxyRemote → List ℕ → AtrResult (Unit {0})
  pub resolve : Text → List Text
  pub open_tunnel : AtrClient → Text → ℕ → AtrResult (Unit {0})
  pub open_direct : AtrClient → ProxyServiceConfig → Text → ℕ → AtrResult (Unit {0})
  pub js_string : Text → Text
  pub endpoint_host : Text → Text

abbrev pub no_auth : List ℕ
no_auth = 0x05 ∷ 0x00 ∷ []

module _ (system : System) where
  -- `read_some`: no bytes where the client has closed
  unfoldable pub read_some : Io (List ℕ)
  read_some [] = ready [] []
  read_some (would_block ∷ events) = failed (network_failed (about "" system.timed_out))
  read_some (failure m ∷ events) = failed (network_failed (about "" m))
  read_some (chunk bytes ∷ events) =
      if leb (length bytes) read_buf_size
      then ready bytes events
      else ready (take read_buf_size bytes) (chunk (drop read_buf_size bytes) ∷ events)

  -- `append_read`
  unfoldable pub append_read : List ℕ → Io (List ℕ)
  append_read buffer = do
    bytes ← read_some
    if is_empty bytes
        then fail (network_failed (literal "connection closed"))
        else pure (buffer ++ bytes)

  abbrev pub limited : String → List ℕ → Io (List ℕ)
  limited text buffer =
      if ltb max_header_size (length buffer)
      then fail (invalid_argument (literal text))
      else pure buffer

  -- `open_proxy_target`
  unfoldable pub open_proxy_target :
      AtrClient → ProxyServiceConfig → Text → ℕ → AtrResult ProxyRemote
  open_proxy_target client config host port =
      let route = resolved_tcp_route system.resolve client host port in
      elim route.decision [
        | proxy_managed ↦ elim (system.open_tunnel client route.connect_host port) [
          | err e ↦ err e
          | ok u ↦ ok (to_managed route.connect_host port)
        ]
        | proxy_direct ↦ elim (system.open_direct client config host port) [
          | err e ↦ err e
          | ok u ↦ ok (to_direct host port)
        ]
      ]

  -- A reply to the client, and what follows it.
  unfoldable pub reply : List ℕ → Served → Served
  reply bytes next = elim (system.write_client bytes) [
    | err e ↦ stop (err e)
    | ok u ↦ record next { replies = bytes ∷ next.replies }
  ]

  -- A reply whose failure is ignored, before the thread returns.
  unfoldable pub last_reply : List ℕ → AtrError → Served
  last_reply bytes error =
      let ended = stop (err error) in
      elim (system.write_client bytes) [
        | err e ↦ ended
        | ok u ↦ record ended { replies = bytes ∷ [] }
      ]

  -- Bytes for the remote, counted where it is managed, and what follows.
  unfoldable pub forward : ProxyRemote → List ℕ → Served → Served
  forward remote bytes next = elim (system.write_remote remote bytes) [
    | err e ↦ stop (err e)
    | ok u ↦ record next {
      forwarded = bytes ∷ next.forwarded;
      uploaded = elim remote [
        | to_direct host port ↦ next.uploaded
        | to_managed host port ↦ length bytes + next.uploaded
      ];
    }
  ]

  -- What follows the opening of the remote: `success` to the client, and the bytes that came
  -- behind the request to the remote.
  unfoldable pub connected : List ℕ → List ℕ → List ℕ → AtrResult ProxyRemote → Served
  connected success failure_reply leftover (err e) = last_reply failure_reply e
  connected success failure_reply leftover (ok remote) =
      let relayed = start_relay remote in
      reply success (if is_empty leftover then relayed else forward remote leftover relayed)

  -- The loop for the greeting; a round takes a byte at least.
  unfoldable pub greeting_loop : ℕ → List ℕ → Io (Unit {0})
  greeting_loop zero buffer events = stuck
  greeting_loop (suc rounds) buffer events = elim (parse_socks5_greeting buffer) [
    | err e ↦ failed e
    | ok (some len) ↦ ready tt events
    | ok none ↦ elim ((append_read buffer >>= limited "socks5 greeting too large") events) [
      | ready more rest ↦ greeting_loop rounds more rest
      | failed e ↦ failed e
      | stuck ↦ stuck
    ]
  ]

  -- The loop for the request, which reads first.
  unfoldable pub connect_loop : ℕ → List ℕ → Io Socks5ConnectRequest
  connect_loop zero buffer events = stuck
  connect_loop (suc rounds) buffer events = elim (append_read buffer events) [
    | failed e ↦ failed e
    | stuck ↦ stuck
    | ready more rest ↦ elim (parse_socks5_connect more) [
      | err e ↦ failed e
      | ok (some request) ↦ ready request rest
      | ok none ↦ elim (limited "socks5 request too large" more rest) [
        | ready same rest' ↦ connect_loop rounds same rest'
        | failed e ↦ failed e
        | stuck ↦ stuck
      ]
    ]
  ]

  -- The end of `handle_socks5`, for what the loops gave.
  unfoldable pub serve_request :
      AtrClient → ProxyServiceConfig → IoResult Socks5ConnectRequest → Option Served
  serve_request client config stuck = none
  serve_request client config (failed e) = some (stop (err e))
  serve_request client config (ready request rest) = some (
      connected (socks5_reply 0x00) (socks5_reply 0x01) request.leftover
        (open_proxy_target client config request.host request.port))

  -- `handle_socks5`, which is `none` where the rounds have run out. The buffer is cleared after the
  -- greeting.
  unfoldable pub handle_socks5 : AtrClient → ProxyServiceConfig → List ℕ → Reader → Option Served
  handle_socks5 client config buffer events =
      elim (greeting_loop (suc (byte_count events)) buffer events) [
        | stuck ↦ none
        | failed e ↦ some (stop (err e))
        | ready u rest ↦
            elim (serve_request client config (connect_loop (suc (byte_count rest)) [] rest)) [
              | none ↦ none
              | some served ↦ some (reply no_auth served)
            ]
      ]
