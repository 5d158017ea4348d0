-- ===== src/Examples/Proxying.antt =====
-- proxy_service.rs at concrete inputs.
use libreatrust.Base.{
  List, Text, [], arith, codes, inr, is_whitespace, none, not, refl, some, trim, trim_matches, ℕ,
  ◌++◌, ◌==◌, ◌||◌, ◌∷◌, ◌≡◌,
}
use libreatrust.Error.{ok}
use libreatrust.Types.{default_client_config}
use libreatrust.Address.{parse_ipv4, parses_as_ip}
use libreatrust.Map.{lookup}
use libreatrust.Utf8.{encode, encode_char}
use libreatrust.Client.{AtrClient}
use libreatrust.Tcp.{send_tcp_dest}
use libreatrust.Proxy.{DnsEntry, resolved_tcp_route}
use libreatrust.Proxy.Route.{Justified, resolved_tcp_route-Justified}
use libreatrust.Proxy.Socks.{parse_socks5_connect}
use libreatrust.Proxy.Socks.Incremental.{Extends, parse_socks5_connect-more}
use libreatrust.Proxy.Socks.Requests.{parse_socks5_connect-send_tcp_dest}
use libreatrust.Proxy.Http.{
  HttpProxyRequest, connection_tokens, find_slash, header_lines, hop_by_hop, is_upgrade, line_end,
  parse_host_port, plain_host_port, rewrite_http_proxy_request, rewrite_target, rewritten,
  split_scheme,
}
use libreatrust.Proxy.Http.Body.{EndsBefore}
use libreatrust.Proxy.Http.Rewrite.{NoReturn-test, rewrite_http_proxy_request-body}

abbrev plain_client : AtrClient
plain_client = record {
  config = default_client_config;
  session = none;
  resource = none;
  resource_bytes = none;
}

-- A resolver that knows one address for every host.
abbrev one_address : Text → List Text
one_address host = codes "10.0.0.7" ∷ []

resolved_tcp_route-Justified_example :
    Justified plain_client
      (codes "example.org")
      443
      (not (parses_as_ip (trim_matches (λ c. c == b'[' || c == b']') (codes "example.org"))))
      (one_address (codes "example.org"))
      (resolved_tcp_route one_address plain_client (codes "example.org") 443)
resolved_tcp_route-Justified_example =
    resolved_tcp_route-Justified one_address plain_client (codes "example.org") 443

no_address : parse_ipv4 (codes "h.org") ≡ none
unfolding parse_ipv4
no_address = refl

parse_socks5_connect-send_tcp_dest_example :
    (frame : List ℕ) × (send_tcp_dest (codes "h.org") 443 ≡ ok frame)
    × (parse_socks5_connect (frame ++ (1 ∷ []))
        ≡ ok (some (record { host = codes "h.org"; port = 443; leftover = 1 ∷ [] })))
parse_socks5_connect-send_tcp_dest_example =
    parse_socks5_connect-send_tcp_dest (codes "h.org") 443 (1 ∷ []) (
      inr (
        no_address,
        (omega arith, (omega arith, (omega arith, (omega arith, (omega arith, tt))))),
        omega arith,
      ))

-- A request for 1.2.3.4:80 with one byte after it.
abbrev socks_request : List ℕ
socks_request = 0x05 ∷ 0x01 ∷ 0x00 ∷ 0x01 ∷ 1 ∷ 2 ∷ 3 ∷ 4 ∷ 0x00 ∷ 80 ∷ 9 ∷ []

parse_socks5_connect-more_example :
    Extends
      (parse_socks5_connect socks_request)
      (8 ∷ [])
      (parse_socks5_connect (socks_request ++ (8 ∷ [])))
parse_socks5_connect-more_example = parse_socks5_connect-more socks_request (8 ∷ [])

abbrev page_request : HttpProxyRequest
page_request = record {
  method = codes "GET";
  target = codes "http://h.org/a";
  version = codes "HTTP/1.1";
  headers = (codes "Host", codes "h.org") ∷ (codes "Connection", codes "x") ∷ [];
  body = codes "hi";
}

abbrev page_sent : List ℕ
page_sent =
    codes "GET /a HTTP/1.1"
    ++ (line_end
        ++ (codes "Host: h.org"
            ++ (line_end ++ (codes "Connection: close" ++ (line_end ++ (line_end ++ codes "hi"))))))

page_rewritten : rewrite_http_proxy_request page_request ≡ ok (codes "h.org", 80, page_sent)
unfolding rewrite_http_proxy_request rewrite_target split_scheme find_slash parse_host_port
    plain_host_port rewritten is_upgrade connection_tokens hop_by_hop header_lines encode
    encode_char trim is_whitespace
page_rewritten = refl

rewrite_http_proxy_request-body_example : EndsBefore page_sent (codes "hi")
rewrite_http_proxy_request-body_example =
    rewrite_http_proxy_request-body page_request (codes "h.org") 80 page_sent
      (NoReturn-test (codes "GET") refl) (NoReturn-test (codes "http://h.org/a") refl)
      (NoReturn-test (codes "HTTP/1.1") refl)
      (
        (NoReturn-test (codes "Host") refl, NoReturn-test (codes "h.org") refl),
        ((NoReturn-test (codes "Connection") refl, NoReturn-test (codes "x") refl), tt),
      )
      page_rewritten

-- A resolver that finds nothing.
abbrev no_addresses : Text → List Text
no_addresses host = []

nothing_held : lookup {V = DnsEntry} (codes "h.org") [] ≡ none
unfolding lookup
nothing_held = refl
