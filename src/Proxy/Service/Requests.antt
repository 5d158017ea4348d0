-- ===== src/Proxy/Service/Requests.antt =====
-- proxy_service.rs: HTTP requests to the proxy, `handle_http` and `serve_local_http_request`, and
-- the choice between the protocols, `handle_connection`.
use libreatrust.Base.{
  Bool, List, Option, Text, [], any, byte_at, codes, eq_ignore_ascii_case, false, if◌then◌else◌,
  is_empty, length, ltb, none, not, some, split_on, split_once, starts_with, suc, text_eq, zero, ℕ,
  ◌&&◌, ◌++◌, ◌==◌, ◌||◌, ◌∷◌,
}
use libreatrust.Stream.{Io, Reader, byte_count, failed, ready, stuck}
use libreatrust.Error.{AtrResult, err, invalid_argument, literal, ok}
use libreatrust.Decimal.{decimal}
use libreatrust.Utf8.{encode}
use libreatrust.Client.{AtrClient}
use libreatrust.Pac.Script.{generate_pac}
use libreatrust.Proxy.Http.{
  HttpProxyRequest, find_header_end, parse_host_port, parse_http_proxy_request,
  rewrite_http_proxy_request, rewritten,
}
use libreatrust.Proxy.Service.{
  ProxyRemote, ProxyServiceConfig, Served, System, append_read, connected, forward, handle_socks5,
  last_reply, max_header_size, open_proxy_target, read_some, reply, start_relay, stop,
}

-- The lines of a response, each with its end.
abbrev response_lines : List Text → List ℕ
response_lines [] = []
response_lines (line ∷ lines) = line ++ (13 ∷ 10 ∷ response_lines lines)

abbrev pub not_found_response : List ℕ
not_found_response = response_lines (
    codes "HTTP/1.1 404 Not Found"
    ∷ codes "Content-Length: 0"
    ∷ codes "Connection: close"
    ∷ []
    ∷ [])

abbrev pub pac_head : ℕ → List ℕ
pac_head size = response_lines (
    codes "HTTP/1.1 200 OK"
    ∷ codes "Content-Type: application/x-ns-proxy-autoconfig"
    ∷ codes "Cache-Control: no-store"
    ∷ (codes "Content-Length: " ++ decimal size)
    ∷ codes "Connection: close"
    ∷ []
    ∷ [])

abbrev pub established : List ℕ
established =
    response_lines
      (codes "HTTP/1.1 200 Connection Established" ∷ codes "Proxy-Agent: NulConnect" ∷ [] ∷ [])

abbrev pub bad_gateway : List ℕ
bad_gateway = response_lines (
    codes "HTTP/1.1 502 Bad Gateway"
    ∷ codes "Connection: close"
    ∷ codes "Content-Length: 0"
    ∷ []
    ∷ [])

-- The path and the query of a target.
abbrev pub path_and_query : Text → Text × Text
path_and_query target = elim (split_once b'?' target) [ none ↦ (target, []) | some pair ↦ pair ]

-- Some pair of the query is `token=` and the token.
unfoldable pub query_has : Text → Text → Bool
query_has token query =
    any (λ pair. text_eq pair (codes "token=" ++ token)) (split_on (λ c. c == b'&') query)

unfoldable pub token_matches : Option Text → Text → Bool
token_matches none query = false
token_matches (some token) query = not (is_empty token) && query_has token query

-- The request asks for the PAC file, with the token.
unfoldable pub asks_for_pac : ProxyServiceConfig → HttpProxyRequest → Bool
asks_for_pac config request =
    let parts = path_and_query request.target in
    (eq_ignore_ascii_case request.method (codes "GET")
      || eq_ignore_ascii_case request.method (codes "HEAD"))
    && text_eq parts.0 (codes "/proxy.pac")
    && token_matches config.pac_token parts.1

module _ (system : System) where
  unfoldable pub pac_body : AtrClient → ProxyServiceConfig → Text
  pac_body client config = elim client.resource [
    | none ↦ codes "function FindProxyForURL(url, host) { return \"DIRECT\"; }" ++ (10 ∷ [])
    | some resource ↦
        generate_pac system.js_string resource (system.endpoint_host config.listen_host)
          config.listen_port
  ]

  unfoldable pub local_response : HttpProxyRequest → AtrClient → ProxyServiceConfig → List ℕ
  local_response request client config =
      let body = encode (pac_body client config) in
      if asks_for_pac config request
      then pac_head (length body)
        ++ (if eq_ignore_ascii_case request.method (codes "GET") then body else [])
      else not_found_response

  -- `serve_local_http_request`
  unfoldable pub serve_local_http_request :
      HttpProxyRequest → AtrClient → ProxyServiceConfig → Served
  serve_local_http_request request client config =
      reply system (local_response request client config) (stop (ok tt))

  -- The end of `handle_http`, for the rewritten request.
  unfoldable pub send_rewritten : List ℕ → AtrResult ProxyRemote → Served
  send_rewritten rewritten (err e) = last_reply system bad_gateway e
  send_rewritten rewritten (ok remote) = forward system remote rewritten (start_relay remote)

  -- `handle_http`, once the header has been read.
  unfoldable pub serve_http : AtrClient → ProxyServiceConfig → HttpProxyRequest → Served
  serve_http client config request =
      if eq_ignore_ascii_case request.method (codes "CONNECT")
      then elim (parse_host_port request.target 443) [
        | err e ↦ stop (err e)
        | ok (host, port) ↦
            connected system established bad_gateway request.body
              (open_proxy_target system client config host port)
      ]
      else if starts_with (b'/' ∷ []) request.target
      then serve_local_http_request request client config
      else elim (rewrite_http_proxy_request request) [
        | err e ↦ stop (err e)
        | ok (host, port, rewritten) ↦
            send_rewritten rewritten (open_proxy_target system client config host port)
      ]

  -- The loop for the header; a round takes a byte at least.
  unfoldable pub header_loop : ℕ → List ℕ → Io (List ℕ)
  header_loop zero buffer events = stuck
  header_loop (suc rounds) buffer events = elim (find_header_end buffer) [
    | some end ↦ ready buffer events
    | none ↦ elim (append_read system buffer events) [
      | failed e ↦ failed e
      | stuck ↦ stuck
      | ready more rest ↦
          if ltb max_header_size (length more)
          then failed (invalid_argument (literal "http proxy header too large"))
          else header_loop rounds more rest
    ]
  ]

  -- `handle_http`, which is `none` where the rounds have run out.
  unfoldable pub handle_http : AtrClient → ProxyServiceConfig → List ℕ → Reader → Option Served
  handle_http client config buffer events =
      elim (header_loop (suc (byte_count events)) buffer events) [
        | stuck ↦ none
        | failed e ↦ some (stop (err e))
        | ready bytes rest ↦ elim (parse_http_proxy_request bytes) [
          | err e ↦ some (stop (err e))
          | ok request ↦ some (serve_http client config request)
        ]
      ]

  -- `handle_connection`
  unfoldable pub handle_connection : AtrClient → ProxyServiceConfig → Reader → Option Served
  handle_connection client config events = elim (read_some system events) [
    | stuck ↦ none
    | failed e ↦ some (stop (err e))
    | ready first rest ↦
        if is_empty first
        then some (stop (ok tt))
        else if byte_at first 0 == 0x05 && config.enable_socks5
        then handle_socks5 system client config first rest
        else if config.enable_http
        then handle_http client config first rest
        else some (stop (err (invalid_argument (literal "unsupported proxy protocol"))))
  ]
