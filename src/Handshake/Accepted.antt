-- ===== src/Handshake/Accepted.antt =====
-- transport.rs: what a node that accepts the session gives.
use libreatrust.Base.{
  ==_false, List, String, Text, [], ap, arith, as_u16, be16, false, from_be16, if_true, inl, inr,
  length, ltb, lt→ltb, refl, some, true, ℕ, ◌%◌, ◌++◌, ◌/◌, ◌<◌, ◌==◌, ◌||◌, ◌∙◌, ◌∷◌, ◌≡◌, ◌⊎◌,
}
use libreatrust.Stream.{
  Reader, bind-ready, read_tunnel_exact, read_tunnel_exact_blocking, ready, ◌>>=◌,
}
use libreatrust.Error.{AtrResult, ok}
use libreatrust.Stream.Live.{IsLive, contents}
use libreatrust.Stream.Front.{Leaves, read_blocking-front}
use libreatrust.Packet.Udp.{ipv4_at}
use libreatrust.Conntrack.{is_zero}
use libreatrust.Remote.{parse_virtual_ip_bytes, vip_payload_length}
use libreatrust.Handshake.{
  AuthResponseSid, authenticate_l3_stream, check_answer, read_answer, read_exact, read_vips,
  read_virtual_ips, require_vips, sid_answer,
}
use libreatrust.Handshake.Prompt.{IsPrompt-IsLive, Rest, read_exact-front}

-- An answer to a session that the node accepts, and the address type and the bytes of the virtual
-- addresses behind it.
pub record Acceptance : Type 0 where
  pub payload : List ℕ
  pub version : ℕ
  pub reserved : ℕ
  pub addr_type : ℕ
  pub vips : List ℕ

-- The bytes of the answer.
abbrev pub answer_bytes : Acceptance → List ℕ → List ℕ
answer_bytes a more =
    0x05
    ∷ 0xD0
    ∷ 0x53
    ∷ 0x00
    ∷ (be16 (as_u16 (length a.payload))
        ++ (a.payload ++ (0x05 ∷ a.version ∷ a.reserved ∷ a.addr_type ∷ (a.vips ++ more))))

module _ (blocked : Text) (read_sid : List ℕ → AtrResult AuthResponseSid) where
  -- The payload is empty, or says so with code 0; and the addresses are as long as their type says.
  pub record IsAcceptance (a : Acceptance) : Type 0 where
    pub accepts :
        (a.payload ≡ [])
        ⊎ ((resp : AuthResponseSid) × (read_sid a.payload ≡ ok resp) × (is_zero resp.code ≡ true))
    pub fits : length a.payload < 65536
    pub sized : length a.vips ≡ vip_payload_length a.addr_type
    pub some_vips : 0 < length a.vips

  check_answer-accepts :
      (failed_text : String) (a : Acceptance) (events : Reader)
      → IsAcceptance a
      → check_answer blocked read_sid failed_text 0 a.payload events ≡ ready tt events
  unfolding check_answer
  check_answer-accepts failed_text a events h = go a.payload h.accepts
    where
      go :
          (bytes : List ℕ)
          → (bytes ≡ [])
            ⊎ ((resp : AuthResponseSid) × (read_sid bytes ≡ ok resp) × (is_zero resp.code ≡ true))
          → check_answer blocked read_sid failed_text 0 bytes events ≡ ready tt events
      go [] accepts = refl
      go (b ∷ bytes) (inl e) = absurd (cc e)
      go (b ∷ bytes) (inr (resp, e, good)) = rw (e, check_answer) (rw (good, check_answer) refl)

  sid_answer-accepts :
      (method_text header_text failed_text : String) (a : Acceptance) (events : Reader)
      (more : List ℕ)
      → IsAcceptance a
      → Rest events (answer_bytes a more)
      → (rest : Reader) × (sid_answer blocked read_sid method_text header_text failed_text events
          ≡ ready tt rest)
        × Rest rest (0x05 ∷ a.version ∷ a.reserved ∷ a.addr_type ∷ (a.vips ++ more))
  unfolding sid_answer read_answer
  sid_answer-accepts method_text header_text failed_text a events more h t =
      let len = as_u16 (length a.payload) in
      let same : from_be16 (len / 256) (len % 256) ≡ length a.payload = omega (arith, h.fits) in
      let header = 0x53 ∷ 0x00 ∷ be16 len in
      let (mid, r, _, t1) = read_exact-front blocked read_sid events (0x05 ∷ 0xD0 ∷ []) _ t in
      let (mid', r', _, t2) = read_exact-front blocked read_sid mid header _ t1 in
      let (rest, r'', _, t3) = read_exact-front blocked read_sid mid' a.payload _ t2 in
      let read_method = bind-ready (read_exact blocked read_sid 2) _ events mid _ r in
      let read_header = bind-ready (read_exact blocked read_sid 4) _ mid mid' header r' in
      (
        rest,
        read_method
            ∙ read_header
            ∙ bind-ready (read_exact blocked read_sid (from_be16 (len / 256) (len % 256))) _ mid'
                rest a.payload (rw same r'')
            ∙ check_answer-accepts failed_text a rest h,
        t3,
      )

  some_length :
      (addr_type n : ℕ)
      → n ≡ vip_payload_length addr_type
      → 0 < n
      → (n == 6 || n == 18 || n == 22) ≡ true
  some_length addr_type n e some_bytes = ground (arith, e, some_bytes)

  parse_virtual_ip_bytes-accepts :
      (a : Acceptance)
      → IsAcceptance a
      → parse_virtual_ip_bytes a.vips ≡ some (ipv4_at a.vips 0 ∷ [])
  unfolding parse_virtual_ip_bytes
  parse_virtual_ip_bytes-accepts a h =
      if_true _ _ _ (some_length a.addr_type (length a.vips) h.sized h.some_vips)

  read_vips-accepts :
      (a : Acceptance) (events : Reader) (more : List ℕ)
      → IsAcceptance a
      → Rest events (a.vips ++ more)
      → (rest : Reader) × (read_vips blocked read_sid
            (some (0x05 ∷ a.version ∷ a.reserved ∷ a.addr_type ∷ []))
            events
          ≡ ready (some (ipv4_at a.vips 0 ∷ [])) rest)
        × Leaves events rest more
  unfolding read_vips
  read_vips-accepts a events more h t =
      let (rest, r, left) =
        read_blocking-front events a.vips more (IsPrompt-IsLive events t.0) t.1 in
      let some_data : ltb 0 (vip_payload_length a.addr_type) ≡ true =
        lt→ltb 0 _ (omega (arith, h.sized, h.some_vips)) in
      let len : read_tunnel_exact_blocking (vip_payload_length a.addr_type) events
          ≡ ready a.vips rest =
        rw⁻¹ h.sized r in
      (
        rest,
        rw some_data (
            bind-ready (read_tunnel_exact_blocking (vip_payload_length a.addr_type)) _ events rest
              a.vips len
            ∙ ap (λ ips. ready ips rest) (parse_virtual_ip_bytes-accepts a h)),
        left,
      )

  require_vips-accepts :
      (a : Acceptance) (events : Reader) (more : List ℕ)
      → IsAcceptance a
      → Rest events (a.vips ++ more)
      → (rest : Reader) × (require_vips blocked read_sid
            (0x05 ∷ a.version ∷ a.reserved ∷ a.addr_type ∷ [])
            events
          ≡ ready (ipv4_at a.vips 0 ∷ []) rest)
        × Rest rest more
  unfolding require_vips
  require_vips-accepts a events more h t =
      let (rest, r, _, left) = read_exact-front blocked read_sid events a.vips more t in
      let some_data : vip_payload_length a.addr_type == 0 ≡ false =
        ==_false _ 0 (λ e. absurd (omega (arith, e, h.sized, h.some_vips))) in
      let len : read_exact blocked read_sid (vip_payload_length a.addr_type) events
          ≡ ready a.vips rest =
        rw⁻¹ h.sized r in
      (
        rest,
        rw some_data (
            bind-ready (read_exact blocked read_sid (vip_payload_length a.addr_type)) _ events rest
              a.vips len
            ∙ rw (parse_virtual_ip_bytes-accepts a h) refl),
        left,
      )

  -- From a node that accepts the session and sends virtual addresses, in an answer that comes
  -- without a delay and in any pieces, `authenticate_l3_stream` and `request_l3_virtual_ips` read
  -- the same address, the first four bytes behind the header, and leave the bytes after it to be
  -- read.
  pub authenticate_l3_stream-accepts :
      (a : Acceptance) (events : Reader) (more : List ℕ)
      → IsAcceptance a
      → Rest events (answer_bytes a more)
      → ((rest : Reader) × (authenticate_l3_stream blocked read_sid events
            ≡ ready (some (ipv4_at a.vips 0 ∷ [])) rest)
          × IsLive rest
          × (contents rest ≡ more))
        × ((rest : Reader) × (read_virtual_ips blocked read_sid events
              ≡ ready (ipv4_at a.vips 0 ∷ []) rest)
            × Rest rest more)
  unfolding authenticate_l3_stream read_virtual_ips
  authenticate_l3_stream-accepts a events more h t =
      let header = 0x05 ∷ a.version ∷ a.reserved ∷ a.addr_type ∷ [] in
      let (mid, r, t1) =
        sid_answer-accepts "unexpected auth method" "unexpected auth header" "tunnel auth failed: "
          a events more h t in
      let (mid', s, t2) =
        sid_answer-accepts "unexpected virtual ip method" "unexpected virtual ip header"
          "virtual ip request failed: " a events more h t in
      let (after, _, read_front, t3) =
        read_exact-front blocked read_sid mid header (a.vips ++ more) t1 in
      let (after', read_front', _, t4) =
        read_exact-front blocked read_sid mid' header (a.vips ++ more) t2 in
      let (rest, e, left) = read_vips-accepts a after more h t3 in
      let (rest', e', left') = require_vips-accepts a after' more h t4 in
      (
        (
          rest,
          bind-ready
                (sid_answer blocked read_sid "unexpected auth method" "unexpected auth header"
                  "tunnel auth failed: ")
                (λ _. read_tunnel_exact 4 >>= read_vips blocked read_sid) events mid tt r
              ∙ bind-ready (read_tunnel_exact 4) (read_vips blocked read_sid) mid after
                  (some header) read_front
              ∙ e,
          left.live,
          left.left,
        ),
        (
          rest',
          bind-ready
                (sid_answer blocked read_sid "unexpected virtual ip method"
                  "unexpected virtual ip header" "virtual ip request failed: ")
                (λ _. read_exact blocked read_sid 4 >>= require_vips blocked read_sid) events mid'
                tt s
              ∙ bind-ready (read_exact blocked read_sid 4) (require_vips blocked read_sid) mid'
                  after' header read_front'
              ∙ e',
          left',
        ),
      )
