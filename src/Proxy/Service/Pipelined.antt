-- ===== src/Proxy/Service/Pipelined.antt =====
-- proxy_service.rs: what a SOCKS5 client sends together with its greeting.
use libreatrust.Base.{
  Bool-cases, List, [], arith, false, inl, inr, length, length-append, ltb, ltb-false, refl, some,
  suc, take-append_le, ℕ, ◌++◌, ◌+◌, ◌==◌, ◌∷◌, ◌≡◌, ◌≤◌,
}
use libreatrust.Stream.{Reader, byte_count, ready}
use libreatrust.Error.{ok}
use libreatrust.Client.{AtrClient}
use libreatrust.Proxy.Socks.{parse_socks5_greeting}
use libreatrust.Proxy.Service.{ProxyServiceConfig, System, greeting_loop, handle_socks5}

parse_socks5_greeting-more :
    (greeting more : List ℕ) (n : ℕ)
    → parse_socks5_greeting greeting ≡ ok (some n)
    → parse_socks5_greeting (greeting ++ more) ≡ ok (some n)
unfolding parse_socks5_greeting
parse_socks5_greeting-more [] more n = λ h. absurd (cc h)
parse_socks5_greeting-more (a ∷ []) more n = λ h. absurd (cc h)
parse_socks5_greeting-more (a ∷ b ∷ greeting) more n =
    let whole = a ∷ b ∷ greeting in
    let two : ltb (length whole) 2 ≡ false = ltb-false _ _ (omega arith) in
    elim (Bool-cases (a == 0x05)) [
      | inr other ↦ rw (other, two, parse_socks5_greeting) (λ h. absurd (cc h))
      | inl five ↦
          rw (five, parse_socks5_greeting)
            (elim (Bool-cases (ltb (length whole) (2 + b))) [
              | inl short ↦ rw (short, two, parse_socks5_greeting) (λ h. absurd (cc h))
              | inr enough ↦
                  let fits : 2 + b ≤ length whole = ground (arith, enough) in
                  let longer : ltb (length (whole ++ more)) (2 + b) ≡ false =
                    ltb-false _ _ (omega (arith, fits, length-append whole more)) in
                  let two_more : ltb (length (whole ++ more)) 2 ≡ false =
                    ltb-false _ _ (omega arith) in
                  rw (enough, longer, two, two_more, take-append_le (2 + b) whole more fits)
                    (λ h. h)
            ])
    ]

module _ (system : System) (client : AtrClient) (config : ProxyServiceConfig) where
  -- With a complete greeting in the buffer the loop reads nothing.
  greeted :
      (buffer : List ℕ) (n rounds : ℕ) (events : Reader)
      → parse_socks5_greeting buffer ≡ ok (some n)
      → greeting_loop system (suc rounds) buffer events ≡ ready tt events
  unfolding greeting_loop
  greeted buffer n rounds events e = rw (e, greeting_loop) refl

  -- Whatever bytes a SOCKS5 client sends together with a complete greeting have no effect: not
  -- even a whole request among them is answered, and the proxy goes on as if they had not come.
  pub handle_socks5-drops :
      (greeting more : List ℕ) (n : ℕ) (events : Reader)
      → parse_socks5_greeting greeting ≡ ok (some n)
      → handle_socks5 system client config (greeting ++ more) events
        ≡ handle_socks5 system client config greeting events
  unfolding handle_socks5
  handle_socks5-drops greeting more n events e =
      let with_more =
        greeted (greeting ++ more) n (byte_count events) events
          (parse_socks5_greeting-more greeting more n e) in
      let alone = greeted greeting n (byte_count events) events e in
      rw (with_more, alone, handle_socks5) refl
