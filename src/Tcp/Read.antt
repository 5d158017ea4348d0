-- ===== src/Tcp/Read.antt =====
-- transport.rs: `read_tcp_frame` on the frames that `write_tcp_payload` writes.
use libreatrust.Base.{
  List, [], ap, arith, drop, inl, inr, length, none, some, take, ℕ, ◌++◌, ◌<◌, ◌∙◌, ◌∷◌, ◌≡◌, ◌⊎◌,
}
use libreatrust.Stream.{Reader, bind-ready, read_sized, read_tunnel_exact, ready}
use libreatrust.Stream.Live.{IsLive, Waited, contents, read_tunnel_exact-live}
use libreatrust.Stream.Front.{Leaves, read_sized_lem}
use libreatrust.Tcp.{data_frame, payload, read_tcp_body, read_tcp_frame}

-- One read of a data frame that is to come.
pub read_tcp_frame-data :
    (events : Reader) (piece more : List ℕ)
    → IsLive events
    → length piece < 65536
    → contents events ≡ data_frame piece ++ more
    → ((rest : Reader) × (read_tcp_frame events ≡ ready (some (payload piece)) rest)
        × Leaves events rest more)
      ⊎ ((rest : Reader) × (read_tcp_frame events ≡ ready none rest) × Waited events rest)
unfolding read_tcp_frame read_tcp_body
read_tcp_frame-data events piece more live fits e =
    elim (read_tunnel_exact-live events 2 live (rw e (omega arith))) [
      | inl (mid, r, t) ↦
          let r2 : read_tunnel_exact 2 events ≡ ready (some (0x01 ∷ 0x00 ∷ [])) mid =
            r ∙ ap (λ b. ready (some (take 2 b)) mid) e in
          let (rest, r', t') = read_sized_lem mid piece more t.live (t.left ∙ ap (drop 2) e) fits in
          inl (
            rest,
            bind-ready (read_tunnel_exact 2) _ events mid _ r2
                ∙ bind-ready read_sized _ mid rest piece r',
            record {
              live = t'.live;
              left = t'.left;
              shorter = omega (arith, t.shorter, t'.shorter);
            },
          )
      | inr (mid, r, w) ↦ inr (mid, bind-ready (read_tunnel_exact 2) _ events mid none r, w)
    ]
