-- ===== src/Proxy/Socks/Incremental.antt =====
-- proxy_service.rs: SOCKS5 requests that arrive in pieces.
use libreatrust.Base.{
  Bool, Bool-cases, List, Option, Text, ap, arith, byte_at, drop, drop-append_le, false,
  get_or-append_lt, if◌then◌else◌, inl, inr, length, length-append, ltb, ltb-false, none, not, refl,
  some, take, take-append_le, true, ℕ, ◌++◌, ◌+◌, ◌<◌, ◌==◌, ◌≡◌, ◌≤◌,
}
use libreatrust.Error.{AtrResult, AtrResult-cases, err, ok}
use libreatrust.Proxy.Socks.{
  Socks5ConnectRequest, connect_host_domain, connect_host_ipv4, connect_host_ipv6, connect_port,
  parse_socks5_connect, utf8_text,
}

-- How an answer must carry over when `more` bytes have arrived: a request only gets more bytes
-- after it, and an error stays.
abbrev pub Extends :
    AtrResult (Option Socks5ConnectRequest)
    → List ℕ
    → AtrResult (Option Socks5ConnectRequest)
    → Type 0
Extends (ok none) more r = Unit
Extends (ok (some q)) more r =
    r ≡ ok (some (record { host = q.host; port = q.port; leftover = q.leftover ++ more }))
Extends (err e) more r = r ≡ err e

Extends-if :
    (b : Bool) (x y x' y' : AtrResult (Option Socks5ConnectRequest)) (more : List ℕ)
    → Extends x more x'
    → Extends y more y'
    → Extends (if b then x else y) more (if b then x' else y')
Extends-if true x y x' y' more hx hy = hx
Extends-if false x y x' y' more hx hy = hy

module _ (buffer more : List ℕ) where
  longer : (n : ℕ) → n ≤ length buffer → ltb (length (buffer ++ more)) n ≡ false
  longer n h = ltb-false (length (buffer ++ more)) n (omega (arith, length-append buffer more))

  byte : (i : ℕ) → i < length buffer → byte_at (buffer ++ more) i ≡ byte_at buffer i
  byte i h = get_or-append_lt buffer more i 0 h

  connect_port-Extends :
      (host : Text) (cursor : ℕ)
      → Extends (connect_port buffer host cursor) more (connect_port (buffer ++ more) host cursor)
  unfolding connect_port
  connect_port-Extends host cursor = elim (Bool-cases (ltb (length buffer) (cursor + 2))) [
    | inl short ↦ rw short tt
    | inr enough ↦
        let h : cursor + 2 ≤ length buffer = ground (arith, enough) in
        rw enough (
          rw (longer (cursor + 2) h) (
            rw (byte cursor (omega arith)) (
              rw (byte (cursor + 1) (omega arith))
                (rw (drop-append_le (cursor + 2) buffer more h) refl))))
  ]

  guarded :
      (n : ℕ) (x x' : AtrResult (Option Socks5ConnectRequest))
      → (n ≤ length buffer → Extends x more x')
      → Extends
          (if ltb (length buffer) n then ok none else x)
          more
          (if ltb (length (buffer ++ more)) n then ok none else x')
  guarded n x x' h = elim (Bool-cases (ltb (length buffer) n)) [
    | inl short ↦ rw short tt
    | inr enough ↦
        let le : n ≤ length buffer = ground (arith, enough) in rw enough (rw (longer n le) (h le))
  ]

  connect_host_ipv4-Extends :
      Extends (connect_host_ipv4 buffer) more (connect_host_ipv4 (buffer ++ more))
  unfolding connect_host_ipv4
  connect_host_ipv4-Extends = guarded 10 _ _ λ h. rw (byte 4 (omega arith)) (
      rw (byte 5 (omega arith))
        (rw (byte 6 (omega arith)) (rw (byte 7 (omega arith)) (connect_port-Extends _ 8))))

  slice :
      (from to : ℕ)
      → to ≤ length buffer
      → drop from (take to (buffer ++ more)) ≡ drop from (take to buffer)
  slice from to h = ap (drop from) (take-append_le to buffer more h)

  connect_host_domain-Extends :
      Extends (connect_host_domain buffer) more (connect_host_domain (buffer ++ more))
  unfolding connect_host_domain
  connect_host_domain-Extends = guarded 5 _ _ λ h. rw (byte 4 (omega arith)) (
      guarded (5 + byte_at buffer 4 + 2) _ _ λ h2.
        let to = 5 + byte_at buffer 4 in
        rw (slice 5 to (omega arith))
          (elim (AtrResult-cases (utf8_text (drop 5 (take to buffer)))) [
            | inl (host, e) ↦ rw e (connect_port-Extends host to)
            | inr (d, e) ↦ rw e refl
          ]))

  connect_host_ipv6-Extends :
      Extends (connect_host_ipv6 buffer) more (connect_host_ipv6 (buffer ++ more))
  unfolding connect_host_ipv6
  connect_host_ipv6-Extends =
      guarded 22 _ _ λ h. rw (slice 4 20 (omega arith)) (connect_port-Extends _ 20)

  -- When more bytes arrive after a request that `parse_socks5_connect` has read, it reads the same
  -- request with these bytes left over, and after an error it gives the same error.
  pub parse_socks5_connect-more :
      Extends (parse_socks5_connect buffer) more (parse_socks5_connect (buffer ++ more))
  unfolding parse_socks5_connect
  parse_socks5_connect-more = guarded 4 _ _ λ h. rw (byte 0 (omega arith)) (
      rw (byte 1 (omega arith)) (
        rw (byte 3 (omega arith)) (
          Extends-if (not (byte_at buffer 0 == 0x05)) _ _ _ _ more refl (
            Extends-if (not (byte_at buffer 1 == 0x01)) _ _ _ _ more refl (
              Extends-if (byte_at buffer 3 == 0x01) _ _ _ _ more connect_host_ipv4-Extends (
                Extends-if (byte_at buffer 3 == 0x03) _ _ _ _ more connect_host_domain-Extends (
                  Extends-if (byte_at buffer 3 == 0x04) _ _ _ _ more connect_host_ipv6-Extends
                    refl)))))))
