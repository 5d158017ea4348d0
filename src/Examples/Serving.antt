-- ===== src/Examples/Serving.antt =====
-- proxy_service.rs: whole connections to the proxy.
use libreatrust.Base.{List, Text, [], codes, false, none, refl, some, true, ℕ, ◌++◌, ◌∷◌, ◌≡◌, ◌⊎◌}
use libreatrust.Stream.{chunk}
use libreatrust.Error.{ok}
use libreatrust.Types.{default_client_config}
use libreatrust.Decimal.{decimal, parse_unsigned}
use libreatrust.Address.{ipv4_text, parse_ipv4}
use libreatrust.Resource.{empty_snapshot}
use libreatrust.Client.{AtrClient, client_route, set_resource}
use libreatrust.Proxy.{resolved_tcp_route}
use libreatrust.Proxy.Socks.{
  connect_host_ipv4, connect_port, parse_socks5_connect, parse_socks5_greeting, socks5_reply,
}
use libreatrust.Proxy.Http.{HttpProxyRequest}
use libreatrust.Proxy.Service.{
  ProxyServiceConfig, System, append_read, connect_loop, connected, forward, greeting_loop,
  handle_socks5, no_auth, open_proxy_target, read_some, relays, reply, serve_request, to_direct,
}
use libreatrust.Proxy.Service.Requests.{
  asks_for_pac, handle_connection, query_has, serve_local_http_request, token_matches,
}
use libreatrust.Proxy.Service.Token.{KnowsToken, serve_local_http_request-KnowsToken}
use libreatrust.Proxy.Service.Pipelined.{handle_socks5-drops}

abbrev test_system : System
test_system = record {
  timed_out = codes "timed out";
  write_client = λ bytes. ok tt;
  write_remote = λ remote bytes. ok tt;
  resolve = λ host. [];
  open_tunnel = λ client host port. ok tt;
  open_direct = λ client config host port. ok tt;
  js_string = λ s. b'"' ∷ (s ++ (b'"' ∷ []));
  endpoint_host = λ host. codes "127.0.0.1";
}

abbrev test_config : ProxyServiceConfig
test_config = record {
  listen_host = codes "127.0.0.1";
  listen_port = 1080;
  connect_timeout_ms = 10000;
  idle_timeout_ms = 0;
  enable_http = true;
  enable_socks5 = true;
  pac_token = some (codes "t0k");
}

abbrev empty_client : AtrClient
empty_client = record {
  config = default_client_config;
  session = none;
  resource = none;
  resource_bytes = none;
}

abbrev other_client : AtrClient
other_client = set_resource empty_snapshot empty_client

abbrev pac_request : Text → HttpProxyRequest
pac_request target = record {
  method = codes "GET";
  target = target;
  version = codes "HTTP/1.1";
  headers = [];
  body = [];
}

serve_local_http_request-KnowsToken_example :
    (serve_local_http_request test_system
        (pac_request (codes "/proxy.pac?token=guess"))
        empty_client
        test_config
      ≡ serve_local_http_request test_system
          (pac_request (codes "/proxy.pac?token=guess"))
          other_client
          test_config)
    ⊎ KnowsToken test_config (pac_request (codes "/proxy.pac?token=guess"))
serve_local_http_request-KnowsToken_example =
    serve_local_http_request-KnowsToken test_system test_config
      (pac_request (codes "/proxy.pac?token=guess")) empty_client other_client

right_token : asks_for_pac test_config (pac_request (codes "/proxy.pac?x=1&token=t0k")) ≡ true
unfolding asks_for_pac token_matches query_has
right_token = refl

wrong_token : asks_for_pac test_config (pac_request (codes "/proxy.pac?token=t0kx")) ≡ false
unfolding asks_for_pac token_matches query_has
wrong_token = refl

abbrev connect_request : List ℕ
connect_request = 0x05 ∷ 0x01 ∷ 0x00 ∷ 0x01 ∷ 10 ∷ 0 ∷ 0 ∷ 7 ∷ 1 ∷ 187 ∷ []

abbrev hello : List ℕ
hello = 0x05 ∷ 0x01 ∷ 0x00 ∷ []

-- A greeting, then a request with one byte behind it.
served_direct :
    handle_connection test_system empty_client test_config
      (chunk hello ∷ chunk (connect_request ++ (42 ∷ [])) ∷ [])
    ≡ some (record {
      replies = no_auth ∷ socks5_reply 0x00 ∷ [];
      forwarded = (42 ∷ []) ∷ [];
      uploaded = 0;
      ending = relays (to_direct (codes "10.0.0.7") 443);
    })
unfolding handle_connection read_some handle_socks5 greeting_loop parse_socks5_greeting connect_loop
    append_read parse_socks5_connect connect_host_ipv4 connect_port ipv4_text decimal serve_request
    connected open_proxy_target resolved_tcp_route client_route forward reply parse_ipv4
    parse_unsigned
served_direct = refl

hello_parsed : parse_socks5_greeting hello ≡ ok (some 3)
unfolding parse_socks5_greeting
hello_parsed = refl

handle_socks5-drops_example :
    handle_socks5 test_system empty_client test_config (hello ++ connect_request) []
    ≡ handle_socks5 test_system empty_client test_config hello []
handle_socks5-drops_example =
    handle_socks5-drops test_system empty_client test_config hello connect_request 3 [] hello_parsed
