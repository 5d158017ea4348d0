-- ===== src/Frames/Read.antt =====
-- transport.rs: what `read_l3_frame_available` and `decode_l3_data_payload` make of a data frame.
use libreatrust.Base.{
  &&_false, All, List, [], ap, append-nil, append_assoc, arith, as_u16, as_u8, be16, concat,
  from_be16-be16, leb-false, leb-true, length, ltb, lt→ltb, map, subst, sym, ℕ, ◌*◌, ◌++◌, ◌+◌, ◌<◌,
  ◌∙◌, ◌∷◌, ◌≡◌, ◌≤◌,
}
use libreatrust.Stream.{Reader, bind-ready, read_sized, read_tunnel_exact_blocking, ready}
use libreatrust.Stream.Live.{IsLive, contents}
use libreatrust.Stream.Front.{Leaves, read_blocking-front, read_sized_lem}
use libreatrust.Envelope.{len_mode, sized, token_mode}
use libreatrust.Envelope.RoundTrip.{Short}
use libreatrust.Frames.{read_data_resp_payload, read_packets}

pub after :
    (events mid rest : Reader) (later more : List ℕ)
    → Leaves events mid later
    → Leaves mid rest more
    → Leaves events rest more
after events mid rest later more t t' = record {
  live = t'.live;
  left = t'.left;
  shorter = omega (arith, t.shorter, t'.shorter);
}

read_packets_lem :
    (packets : List (List ℕ)) (events : Reader) (read more : List ℕ)
    → IsLive events
    → All Short packets
    → contents events ≡ concat (map sized packets) ++ more
    → (rest : Reader) × (read_packets (length packets) read events
        ≡ ready (read ++ concat (map sized packets)) rest)
      × Leaves events rest more
unfolding read_packets
read_packets_lem [] events read more live hs e = (
  events,
  ap (λ r. ready r events) (sym (append-nil read)),
  record { live = live; left = e; shorter = omega arith },
)
read_packets_lem (p ∷ packets) events read more live hs e =
    let later = concat (map sized packets) in
    let len = be16 (as_u16 (length p)) in
    let (mid, r, t) =
      read_sized_lem events p (later ++ more) live
        (e ∙ append_assoc (sized p) later more ∙ append_assoc len p (later ++ more)) hs.0 in
    let (rest, r', t') = read_packets_lem packets mid (read ++ sized p) more t.live hs.1 t.left in
    (
      rest,
      bind-ready read_sized _ events mid p r
          ∙ r'
          ∙ ap (λ b. ready b rest) (append_assoc read (sized p) later),
      after events mid rest (later ++ more) more t t',
    )

-- The payload of a data frame with a length from 1 to 4096.
pub read_data_resp_payload-len :
    (events : Reader) (bytes more : List ℕ)
    → IsLive events
    → 0 < length bytes
    → length bytes ≤ 4096
    → contents events ≡ be16 (length bytes) ++ (bytes ++ more)
    → (rest : Reader) × (read_data_resp_payload events ≡ ready (bytes, len_mode) rest)
      × Leaves events rest more
unfolding read_data_resp_payload
read_data_resp_payload-len events bytes more live hl hm e =
    let n = length bytes in
    let (mid, r, t) = read_blocking-front events (be16 n) (bytes ++ more) live e in
    let (rest, r', t') = read_blocking-front mid bytes more t.live t.left in
    (
      rest,
      bind-ready (read_tunnel_exact_blocking 2) _ events mid _ r
          ∙ rw (from_be16-be16 n) (
              rw (lt→ltb 0 n hl) (
                rw (leb-true n 4096 hm)
                  (bind-ready (read_tunnel_exact_blocking n) _ mid rest bytes r'))),
      after events mid rest (bytes ++ more) more t t',
    )

-- The bytes of an envelope after the length of its token, from the token on.
abbrev pub envelope_body : List ℕ → List (List ℕ) → List ℕ
envelope_body token packets =
    token ++ (0x00 ∷ 0x00 ∷ as_u8 (length packets) ∷ concat (map sized packets))

module _ (token : List ℕ) (packets : List (List ℕ)) (dropped : ℕ) (events : Reader) (more : List ℕ)
    (live : IsLive events) (ht : 16 < length token) (hl : length token < 256)
    (hp : length packets < 256) (hs : All Short packets)
    (e : contents events ≡ length token ∷ dropped ∷ (envelope_body token packets ++ more)) where
  pub read_data_resp_payload-token :
      (rest : Reader) × (read_data_resp_payload events
        ≡ ready (length token ∷ envelope_body token packets, token_mode) rest)
      × Leaves events rest more
  unfolding read_data_resp_payload
  read_data_resp_payload-token =
      let n = length token in
      let later = concat (map sized packets) in
      let same : as_u8 (length packets) ≡ length packets = omega arith in
      let tail = as_u8 (length packets) ∷ later in
      let (r1, e1, t1) =
        read_blocking-front events (n ∷ dropped ∷ []) (envelope_body token packets ++ more) live
          e in
      let (r2, e2, t2) =
        read_blocking-front r1 token (0x00 ∷ 0x00 ∷ (tail ++ more)) t1.live
          (t1.left ∙ append_assoc token (0x00 ∷ 0x00 ∷ tail) more) in
      let (r3, e3, t3) = read_blocking-front r2 (0x00 ∷ 0x00 ∷ []) (tail ++ more) t2.live t2.left in
      let (r4, e4, t4) =
        read_blocking-front r3 (as_u8 (length packets) ∷ []) (later ++ more) t3.live t3.left in
      let front = n ∷ (token ++ (0x00 ∷ 0x00 ∷ as_u8 (length packets) ∷ [])) in
      let (r5, e5, t5) = read_packets_lem packets r4 front more t4.live hs t4.left in
      let whole : front ++ later ≡ n ∷ envelope_body token packets =
        ap (λ b. n ∷ b) (append_assoc token (0x00 ∷ 0x00 ∷ as_u8 (length packets) ∷ []) later) in
      (
        r5,
        bind-ready (read_tunnel_exact_blocking 2) _ events r1 _ e1
            ∙ rw (leb-false (n * 256 + dropped) 4096 (omega arith)) (
                rw (&&_false (ltb 0 (n * 256 + dropped))) (
                  bind-ready (read_tunnel_exact_blocking n) _ r1 r2 token e2
                  ∙ bind-ready (read_tunnel_exact_blocking 2) _ r2 r3 _ e3
                  ∙ bind-ready (read_tunnel_exact_blocking 1) _ r3 r4 _ e4
                  ∙ bind-ready (read_packets (as_u8 (length packets)) front) _ r4 r5
                      (front ++ later)
                      (subst (λ k. read_packets k front r4 ≡ ready (front ++ later) r5) (sym same)
                        e5)
                  ∙ ap (λ b. ready (b, token_mode) r5) whole)),
        record {
          live = t5.live;
          left = t5.left;
          shorter = omega (arith, t1.shorter, t2.shorter, t3.shorter, t4.shorter, t5.shorter);
        },
      )
