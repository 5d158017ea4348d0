-- ===== src/Proxy/Socks.antt =====
-- proxy_service.rs: the SOCKS5 handshake, `parse_socks5_greeting`, `parse_socks5_connect` and
-- `socks5_reply`.
pub mod Incremental
pub mod Requests
use libreatrust.Base.{
  List, Option, Text, [], byte_at, contains_char, drop, from_be16, if◌then◌else◌, length, ltb, none,
  not, some, take, ℕ, ◌+◌, ◌==◌, ◌∷◌,
}
use libreatrust.Error.{
  AtrResult, about, err, invalid_argument, literal, ok, parse_failed, unsupported, ◌>>=◌,
}
use libreatrust.Utf8.{from_utf8}
use libreatrust.Address.{ipv4_text}
use libreatrust.Address.Ipv6Text.{ipv6_text}

-- `parse_socks5_greeting`: the number of bytes of the greeting, `none` while it is not complete.
unfoldable pub parse_socks5_greeting : List ℕ → AtrResult (Option ℕ)
parse_socks5_greeting buffer =
    let len = 2 + byte_at buffer 1 in
    if ltb (length buffer) 2
    then ok none
    else if not (byte_at buffer 0 == 0x05)
    then err (invalid_argument (literal "invalid socks5 version"))
    else if ltb (length buffer) len
    then ok none
    else if not (contains_char 0x00 (drop 2 (take len buffer)))
    then err (unsupported (literal "socks5 authentication is not supported"))
    else ok (some len)

pub record Socks5ConnectRequest : Type 0 where
  pub host : Text
  pub port : ℕ
  pub leftover : List ℕ

-- The end of `parse_socks5_connect`, after a host that ends at `cursor`.
unfoldable pub connect_port : List ℕ → Text → ℕ → AtrResult (Option Socks5ConnectRequest)
connect_port buffer host cursor =
    if ltb (length buffer) (cursor + 2)
    then ok none
    else ok (
        some (record {
          host = host;
          port = from_be16 (byte_at buffer cursor) (byte_at buffer (cursor + 1));
          leftover = drop (cursor + 2) buffer;
        }))

-- `std::str::from_utf8(..)` with its error passed on.
unfoldable pub utf8_text : List ℕ → AtrResult Text
utf8_text bytes = elim (from_utf8 bytes) [
  | none ↦ err (parse_failed (about "invalid utf-8 sequence" bytes))
  | some host ↦ ok host
]

-- The host of each type of address.
unfoldable pub connect_host_ipv4 : List ℕ → AtrResult (Option Socks5ConnectRequest)
unfolding connect_port
connect_host_ipv4 buffer =
    if ltb (length buffer) 10
    then ok none
    else connect_port buffer
        (ipv4_text (record {
          o0 = byte_at buffer 4;
          o1 = byte_at buffer 5;
          o2 = byte_at buffer 6;
          o3 = byte_at buffer 7;
        }))
        8

unfoldable pub connect_host_domain : List ℕ → AtrResult (Option Socks5ConnectRequest)
unfolding connect_port utf8_text
connect_host_domain buffer =
    let len = byte_at buffer 4 in
    if ltb (length buffer) 5
    then ok none
    else if ltb (length buffer) (5 + len + 2)
    then ok none
    else do host ← utf8_text (drop 5 (take (5 + len) buffer)); connect_port buffer host (5 + len)

unfoldable pub connect_host_ipv6 : List ℕ → AtrResult (Option Socks5ConnectRequest)
unfolding connect_port
connect_host_ipv6 buffer =
    if ltb (length buffer) 22
    then ok none
    else connect_port buffer (ipv6_text (drop 4 (take 20 buffer))) 20

-- `parse_socks5_connect`: `none` while the request is not complete.
unfoldable pub parse_socks5_connect : List ℕ → AtrResult (Option Socks5ConnectRequest)
unfolding connect_host_ipv4 connect_host_domain connect_host_ipv6
parse_socks5_connect buffer =
    if ltb (length buffer) 4
    then ok none
    else if not (byte_at buffer 0 == 0x05)
    then err (invalid_argument (literal "invalid socks5 version"))
    else if not (byte_at buffer 1 == 0x01)
    then err (unsupported (literal "only socks5 CONNECT is supported"))
    else if byte_at buffer 3 == 0x01
    then connect_host_ipv4 buffer
    else if byte_at buffer 3 == 0x03
    then connect_host_domain buffer
    else if byte_at buffer 3 == 0x04
    then connect_host_ipv6 buffer
    else err (unsupported (literal "unsupported socks5 address type"))

-- `socks5_reply`
abbrev pub socks5_reply : ℕ → List ℕ
socks5_reply code = 0x05 ∷ code ∷ 0x00 ∷ 0x01 ∷ 0 ∷ 0 ∷ 0 ∷ 0 ∷ 0 ∷ 0 ∷ []
