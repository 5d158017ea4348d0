-- ===== src/Proxy/Socks/Requests.antt =====
-- SOCKS5 requests: what `send_tcp_dest` of transport.rs writes is what `parse_socks5_connect` of
-- proxy_service.rs reads.
use libreatrust.Base.{
  Ipv4Addr, IsIpv4, List, Text, ap, append_assoc, arith, as_u8, be16, byte_at, byte_at-drop, drop,
  drop-append_exact, drop-drop, from_be16-be16, inl, inr, length, length-append, ltb-false, none,
  octets, refl, some, take, take-append_exact, ℕ, ◌%◌, ◌++◌, ◌+◌, ◌/◌, ◌<◌, ◌∙◌, ◌∷◌, ◌≡◌, ◌⊎◌,
}
use libreatrust.Error.{ok}
use libreatrust.Utf8.Laws.{IsAscii, encode-ascii, from_utf8-ascii}
use libreatrust.Address.{ipv4_text, parse_ipv4}
use libreatrust.Address.RoundTrip.{parse_ipv4-ipv4_text}
use libreatrust.Tcp.{send_tcp_dest}
use libreatrust.Proxy.Socks.{
  Socks5ConnectRequest, connect_host_domain, connect_host_ipv4, connect_port, parse_socks5_connect,
  utf8_text,
}

abbrev request : Text → ℕ → List ℕ → Socks5ConnectRequest
request host port more = record { host = host; port = port; leftover = more }

connect_ipv4 :
    (ip : Ipv4Addr) (reserved port : ℕ) (more : List ℕ)
    → parse_socks5_connect (0x05 ∷ 0x01 ∷ reserved ∷ 0x01 ∷ (octets ip ++ (be16 port ++ more)))
      ≡ ok (some (request (ipv4_text ip) port more))
unfolding parse_socks5_connect connect_host_ipv4 connect_port
connect_ipv4 ip reserved port more = ground (arith, from_be16-be16 port)

connect_domain :
    (host : Text) (reserved port : ℕ) (more : List ℕ)
    → IsAscii host
    → length host < 256
    → parse_socks5_connect
        (0x05 ∷ 0x01 ∷ reserved ∷ 0x03 ∷ length host ∷ (host ++ (be16 port ++ more)))
      ≡ ok (some (request host port more))
unfolding parse_socks5_connect connect_host_domain connect_port utf8_text
connect_domain host reserved port more ascii h =
    let n = length host in
    let front = 0x05 ∷ 0x01 ∷ reserved ∷ 0x03 ∷ n ∷ host in
    let tail = be16 port ++ more in
    let bytes = front ++ tail in
    let size : length bytes ≡ 7 + n + length more = omega (arith, length-append host tail) in
    let end : 5 + n ≡ length front = omega arith in
    let rest : drop (5 + n) bytes ≡ tail =
      ap (λ k. drop k bytes) end ∙ drop-append_exact front tail in
    let slice : drop 5 (take (5 + n) bytes) ≡ host =
      ap (λ k. drop 5 (take k bytes)) end ∙ ap (drop 5) (take-append_exact front tail) in
    let b0 : byte_at bytes (5 + n) ≡ port / 256 =
      ap (byte_at bytes) (omega arith)
      ∙ byte_at-drop (5 + n) bytes 0
      ∙ ap (λ t. byte_at t 0) rest in
    let b1 : byte_at bytes (5 + n + 1) ≡ port % 256 =
      byte_at-drop (5 + n) bytes 1 ∙ ap (λ t. byte_at t 1) rest in
    let left : drop (5 + n + 2) bytes ≡ more = drop-drop (5 + n) 2 bytes ∙ ap (drop 2) rest in
    rw (ltb-false (length bytes) 4 (omega arith)) (
      rw (ltb-false (length bytes) 5 (omega arith)) (
        rw (ltb-false (length bytes) (5 + n + 2) (omega arith)) (
          rw slice (
            rw (from_utf8-ascii host ascii, utf8_text)
              (rw b0 (rw b1 (rw left (rw (from_be16-be16 port) refl))))))))

-- The destination of `send_tcp_dest`, an address in its text or a domain of at most 255 ASCII
-- characters that is none, and its port are what `parse_socks5_connect` reads in the frame, with
-- the bytes after it left over.
pub parse_socks5_connect-send_tcp_dest :
    (host : Text) (port : ℕ) (more : List ℕ)
    → ((ip : Ipv4Addr) × IsIpv4 ip × (host ≡ ipv4_text ip))
      ⊎ ((parse_ipv4 host ≡ none) × IsAscii host × (length host < 256))
    → (frame : List ℕ) × (send_tcp_dest host port ≡ ok frame)
      × (parse_socks5_connect (frame ++ more)
          ≡ ok (some (record { host = host; port = port; leftover = more })))
unfolding send_tcp_dest
parse_socks5_connect-send_tcp_dest host port more (inl (ip, h, e)) = (
  0x05 ∷ 0x01 ∷ 0x01 ∷ 0x01 ∷ (octets ip ++ be16 port),
  rw e (rw (parse_ipv4-ipv4_text ip h, send_tcp_dest) refl),
  rw e (connect_ipv4 ip 0x01 port more),
)
parse_socks5_connect-send_tcp_dest host port more (inr (e, ascii, h)) =
    let small : as_u8 (length host) ≡ length host = omega arith in
    (
      0x05 ∷ 0x01 ∷ 0x01 ∷ 0x03 ∷ as_u8 (length host) ∷ (host ++ be16 port),
      rw (e, send_tcp_dest)
          (rw (encode-ascii host ascii) (rw (ltb-false 255 (length host) (omega arith)) refl)),
      rw (append_assoc host (be16 port) more)
          (rw small (connect_domain host 0x01 port more ascii h)),
    )
