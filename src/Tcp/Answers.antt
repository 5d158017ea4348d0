-- ===== src/Tcp/Answers.antt =====
-- transport.rs: the answers of the server while `wait_for_tcp_connect_status` waits for the
-- authentication.
use libreatrust.Base.{
  All, Bool, List, [], append_assoc, arith, as_u16, be16, concat, false, length, length-append, map,
  refl, subst, suc, true, zero, ℕ, ◌++◌, ◌<◌, ◌∙◌, ◌∷◌, ◌≡◌, ◌≤◌,
}
use libreatrust.Stream.{
  Reader, bind-ready, byte_count, chunk, failure, read_sized, read_tunnel_exact_blocking, ready,
  would_block, ◌>>=◌,
}
use libreatrust.Stream.Live.{IsLive, contents}
use libreatrust.Stream.Front.{Leaves, read_blocking-front, read_sized_lem}
use libreatrust.Tcp.{auth_loop, auth_round, auth_verdict, is_pair}

-- The answer that carries the authentication's text, in its two forms, and the markers that the
-- wait passes over.
abbrev pub auth_header : Bool → List ℕ
auth_header true = 0x05 ∷ 0x81 ∷ 0x53 ∷ 0x00 ∷ []
auth_header false = 0x53 ∷ 0x00 ∷ []

abbrev pub auth_answer : Bool → List ℕ → List ℕ
auth_answer nested text = auth_header nested ++ (be16 (as_u16 (length text)) ++ text)

abbrev pub marker_frame : List ℕ → List ℕ
marker_frame m = 0x05 ∷ 0x81 ∷ m

abbrev pub IsMarker : List ℕ → Type 0
IsMarker m = (length m ≡ 2) × (is_pair m 0x53 0x00 ≡ false)

auth_round-marker :
    (events : Reader) (m more : List ℕ)
    → IsLive events
    → IsMarker m
    → contents events ≡ marker_frame m ++ more
    → (rest : Reader) × (auth_round events ≡ ready false rest) × Leaves events rest more
unfolding auth_round
auth_round-marker events m more live h e =
    let (mid, r, t) = read_blocking-front events (0x05 ∷ 0x81 ∷ []) (m ++ more) live e in
    let (rest, r', t') = read_blocking-front mid m more t.live t.left in
    (
      rest,
      bind-ready (read_tunnel_exact_blocking 2) _ events mid _ r
          ∙ bind-ready (read_tunnel_exact_blocking 2) _ mid rest m
              (subst (λ n. read_tunnel_exact_blocking n mid ≡ ready m rest) h.0 r')
          ∙ rw h.1 refl,
      record { live = t'.live; left = t'.left; shorter = omega (arith, t.shorter, t'.shorter) },
    )

auth_round-header :
    (events : Reader) (nested : Bool) (more : List ℕ)
    → IsLive events
    → contents events ≡ auth_header nested ++ more
    → (rest : Reader) × (auth_round events ≡ (read_sized >>= auth_verdict) rest)
      × Leaves events rest more
unfolding auth_round
auth_round-header events false more live e =
    let (rest, r, t) = read_blocking-front events (0x53 ∷ 0x00 ∷ []) more live e in
    (rest, bind-ready (read_tunnel_exact_blocking 2) _ events rest _ r, t)
auth_round-header events true more live e =
    let (mid, r, t) = read_blocking-front events (0x05 ∷ 0x81 ∷ []) (0x53 ∷ 0x00 ∷ more) live e in
    let (rest, r', t') = read_blocking-front mid (0x53 ∷ 0x00 ∷ []) more t.live t.left in
    (
      rest,
      bind-ready (read_tunnel_exact_blocking 2) _ events mid _ r
          ∙ bind-ready (read_tunnel_exact_blocking 2) _ mid rest _ r',
      record { live = t'.live; left = t'.left; shorter = omega (arith, t.shorter, t'.shorter) },
    )

-- One round on the answer judges its text.
auth_round-answer :
    (events : Reader) (nested : Bool) (text more : List ℕ)
    → IsLive events
    → length text < 65536
    → contents events ≡ auth_answer nested text ++ more
    → (rest : Reader) × (auth_round events ≡ auth_verdict text rest) × Leaves events rest more
auth_round-answer events nested text more live fits e =
    let len = be16 (as_u16 (length text)) in
    let (mid, r, t) =
      auth_round-header events nested (len ++ (text ++ more)) live
        (e ∙ append_assoc (auth_header nested) (len ++ text) more) in
    let (rest, r', t') = read_sized_lem mid text more t.live t.left fits in
    (
      rest,
      r ∙ bind-ready read_sized auth_verdict mid rest text r',
      record { live = t'.live; left = t'.left; shorter = omega (arith, t.shorter, t'.shorter) },
    )

-- The loop passes over the markers before the answer.
pub auth_loop-answer :
    (markers : List (List ℕ)) (rounds : ℕ) (events : Reader) (nested : Bool) (text more : List ℕ)
    → length markers < rounds
    → IsLive events
    → All IsMarker markers
    → length text < 65536
    → contents events ≡ concat (map marker_frame markers) ++ (auth_answer nested text ++ more)
    → (mid : Reader) × (rest : Reader) × (left : ℕ) × (auth_loop rounds events
        ≡ auth_loop (suc left) mid)
      × (auth_round mid ≡ auth_verdict text rest)
      × Leaves events rest more
unfolding auth_loop
auth_loop-answer markers zero events nested text more h live ms fits e = absurd (omega arith)
auth_loop-answer [] (suc rounds) events nested text more h live ms fits e =
    let (rest, r, t) = auth_round-answer events nested text more live fits e in
    (events, rest, rounds, refl, r, t)
auth_loop-answer (m ∷ markers) (suc rounds) events nested text more h live ms fits e =
    let later = concat (map marker_frame markers) ++ (auth_answer nested text ++ more) in
    let (next, r, t) = auth_round-marker events m later live ms.0 (
      e
      ∙ append_assoc (marker_frame m) (concat (map marker_frame markers))
          (auth_answer nested text ++ more)) in
    let (mid, rest, left, s, r', t') =
      auth_loop-answer markers rounds next nested text more (omega arith) t.live ms.1 fits t.left in
    (
      mid,
      rest,
      left,
      rw (r, auth_loop) s,
      r',
      record { live = t'.live; left = t'.left; shorter = omega (arith, t.shorter, t'.shorter) },
    )

pub byte_count-live :
    (events : Reader) → IsLive events → byte_count events ≡ length (contents events)
byte_count-live [] live = refl
byte_count-live (chunk bytes ∷ events) live =
    omega (arith, byte_count-live events live.1, length-append bytes (contents events))
byte_count-live (would_block ∷ events) live = byte_count-live events live
byte_count-live (failure m ∷ events) live = absurd live

pub length-markers :
    (markers : List (List ℕ)) (more : List ℕ)
    → length markers ≤ length (concat (map marker_frame markers) ++ more)
length-markers [] more = omega arith
length-markers (m ∷ markers) more =
    let tail = concat (map marker_frame markers) in
    omega (
      arith,
      length-markers markers more,
      length-append (m ++ tail) more,
      length-append m tail,
      length-append tail more,
    )
