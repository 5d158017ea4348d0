-- ===== src/Frames/Data.antt =====
-- transport.rs: a data frame of the layer-3 tunnel, from the connection to its packets.
use libreatrust.Base.{
  All, List, [], ap, arith, as_u8, be16, drop, inl, inr, length, none, refl, some, subst, take,
  true, ℕ, ◌++◌, ◌<◌, ◌∙◌, ◌∷◌, ◌≡◌, ◌≤◌, ◌⊎◌,
}
use libreatrust.Stream.{Reader, bind-ready, read_tunnel_exact, ready}
use libreatrust.Error.{ok}
use libreatrust.Stream.Live.{IsLive, Waited, contents, read_tunnel_exact-live}
use libreatrust.Stream.Front.{Leaves}
use libreatrust.Envelope.{
  DataMode, build_data_payload, decode_l3_data_payload, is_complete_ip_packet, len_mode, token_mode,
}
use libreatrust.Envelope.RoundTrip.{Short, envelope, parse_data_payload-build_data_payload}
use libreatrust.Frames.{
  Frame, l3_frame_loop, read_data_resp_payload, read_l3_body, read_l3_frame_available,
}
use libreatrust.Frames.Read.{
  envelope_body, read_data_resp_payload-len, read_data_resp_payload-token,
}

-- One call that reads `frame`, or finds nothing yet and leaves the bytes to come.
abbrev pub Yields : Reader → Frame → List ℕ → Type 0
Yields events frame more =
    ((rest : Reader) × (read_l3_frame_available events ≡ ready (some frame) rest)
      × Leaves events rest more)
    ⊎ ((rest : Reader) × (read_l3_frame_available events ≡ ready none rest) × Waited events rest)

abbrev pub answer_frame : List ℕ → DataMode → Frame
answer_frame bytes mode = record { cmd = 0x94; status = 0; payload = bytes; data_mode = mode }

-- The header of a data frame, before a payload that can be read.
data_header :
    (events : Reader) (body more bytes : List ℕ) (mode : DataMode)
    → IsLive events
    → contents events ≡ 0x05 ∷ 0x94 ∷ body
    → ((mid : Reader)
        → IsLive mid
        → contents mid ≡ body
        → (rest : Reader) × (read_data_resp_payload mid ≡ ready (bytes, mode) rest)
          × Leaves mid rest more)
    → Yields events (answer_frame bytes mode) more
unfolding read_l3_frame_available l3_frame_loop read_l3_body
data_header events body more bytes mode live e read =
    elim (read_tunnel_exact-live events 2 live (rw e (omega arith))) [
      | inl (mid, r, t) ↦
          let r2 : read_tunnel_exact 2 events ≡ ready (some (0x05 ∷ 0x94 ∷ [])) mid =
            r ∙ ap (λ b. ready (some (take 2 b)) mid) e in
          let (rest, r', t') = read mid t.live (t.left ∙ ap (drop 2) e) in
          let r3 : read_l3_body (0x05 ∷ 0x94 ∷ []) mid
              ≡ ready (some (answer_frame bytes mode)) rest =
            bind-ready read_data_resp_payload _ mid rest (bytes, mode) r' in
          inl (
            rest,
            rw (r2, l3_frame_loop) (rw r' refl),
            record {
              live = t'.live;
              left = t'.left;
              shorter = omega (arith, t.shorter, t'.shorter);
            },
          )
      | inr (mid, r, w) ↦ inr (mid, rw (r, l3_frame_loop) refl, w)
    ]

-- A data frame whose length is from 1 to 4096 and whose payload is a complete IP packet is read
-- as such, however the connection cuts and delays it, and gives this packet alone.
pub read_l3_frame_available-packet :
    (events : Reader) (packet more : List ℕ)
    → IsLive events
    → 0 < length packet
    → length packet ≤ 4096
    → is_complete_ip_packet packet ≡ true
    → contents events ≡ 0x05 ∷ 0x94 ∷ (be16 (length packet) ++ (packet ++ more))
    → Yields events (answer_frame packet len_mode) more
      × (decode_l3_data_payload packet len_mode ≡ ok (packet ∷ []))
unfolding decode_l3_data_payload
read_l3_frame_available-packet events packet more live hl hm hc e = (
  data_header events (be16 (length packet) ++ (packet ++ more)) more packet len_mode live e
      (λ mid l c. read_data_resp_payload-len mid packet more l hl hm c),
  rw hc refl,
)

envelope_parts :
    (token : List ℕ) (packets : List (List ℕ))
    → length token < 256
    → length token ∷ envelope_body token packets ≡ envelope token packets
unfolding build_data_payload
envelope_parts token packets h =
    let small : length token ≡ as_u8 (length token) = omega arith in
    ap (λ n. n ∷ envelope_body token packets) small

-- A data frame with a token envelope, whose token has from 17 to 255 bytes, is read whole and
-- gives the packets of the envelope, in order, but for one byte: whatever stands between the
-- length of the token and the token is read and dropped.
pub read_l3_frame_available-envelope :
    (token : List ℕ) (packets : List (List ℕ)) (dropped : ℕ) (events : Reader) (more : List ℕ)
    → IsLive events
    → 16 < length token
    → length token < 256
    → length packets < 256
    → All Short packets
    → contents events ≡ 0x05 ∷ 0x94 ∷ length token ∷ dropped ∷ (envelope_body token packets ++ more)
    → Yields events (answer_frame (envelope token packets) token_mode) more
      × (decode_l3_data_payload (envelope token packets) token_mode ≡ ok packets)
unfolding decode_l3_data_payload
read_l3_frame_available-envelope token packets dropped events more live ht hl hp hs e =
    let body = length token ∷ dropped ∷ (envelope_body token packets ++ more) in
    let same : length token ∷ envelope_body token packets ≡ envelope token packets =
      envelope_parts token packets hl in
    (
      subst (λ b. Yields events (answer_frame b token_mode) more) same
          (data_header events body more (length token ∷ envelope_body token packets) token_mode live
            e
            (λ mid l c.
              read_data_resp_payload-token token packets dropped mid more l ht hl hp hs c)),
      parse_data_payload-build_data_payload token packets hl hp hs,
    )
