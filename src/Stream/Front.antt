-- ===== src/Stream/Front.antt =====
-- Reading a known front of the bytes to come on a live connection.
use libreatrust.Base.{
  List, ap, arith, as_u16, be16, drop, drop-append_exact, from_be16, length, length-append, take,
  take-append_exact, ℕ, ◌%◌, ◌++◌, ◌/◌, ◌<◌, ◌∙◌, ◌≡◌, ◌≤◌,
}
use libreatrust.Stream.{Reader, bind-ready, read_sized, read_tunnel_exact_blocking, ready}
use libreatrust.Stream.Live.{IsLive, contents, read_blocking-live}

-- `rest` is what a live reader leaves after a step, where `more` is still to come.
pub record Leaves (events rest : Reader) (more : List ℕ) : Type 0 where
  pub live : IsLive rest
  pub left : contents rest ≡ more
  pub shorter : length rest ≤ length events

-- `read_tunnel_exact_blocking` takes a known front of the bytes to come.
pub read_blocking-front :
    (events : Reader) (front more : List ℕ)
    → IsLive events
    → contents events ≡ front ++ more
    → (rest : Reader) × (read_tunnel_exact_blocking (length front) events ≡ ready front rest)
      × Leaves events rest more
read_blocking-front events front more live e =
    let (rest, r, t) =
      read_blocking-live events (length front) live
        (rw e (omega (arith, length-append front more))) in
    (
      rest,
      r ∙ ap (λ b. ready b rest) (ap (take (length front)) e ∙ take-append_exact front more),
      record {
        live = t.live;
        left = t.left ∙ ap (drop (length front)) e ∙ drop-append_exact front more;
        shorter = t.shorter;
      },
    )

-- A length and as many bytes.
pub read_sized_lem :
    (events : Reader) (piece more : List ℕ)
    → IsLive events
    → contents events ≡ be16 (as_u16 (length piece)) ++ (piece ++ more)
    → length piece < 65536
    → (rest : Reader) × (read_sized events ≡ ready piece rest) × Leaves events rest more
unfolding read_sized
read_sized_lem events piece more live e fits =
    let len = as_u16 (length piece) in
    let (mid, r, t) = read_blocking-front events (be16 len) (piece ++ more) live e in
    let r1 : read_tunnel_exact_blocking 2 events ≡ ready (be16 len) mid = r in
    let same : from_be16 (len / 256) (len % 256) ≡ length piece = omega arith in
    let (rest, r', t') = read_blocking-front mid piece more t.live t.left in
    (
      rest,
      bind-ready (read_tunnel_exact_blocking 2) _ events mid (be16 len) r1 ∙ rw same r',
      record { live = t'.live; left = t'.left; shorter = omega (arith, t.shorter, t'.shorter) },
    )
