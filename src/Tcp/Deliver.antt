-- ===== src/Tcp/Deliver.antt =====
-- transport.rs: a payload goes through a tunnel, from `write_tcp_payload` to `read_tcp_frame`.
use libreatrust.Base.{
  All, List, [], ap, append_assoc, arith, concat, inl, inr, length, map, none, some, subst, suc,
  zero, ℕ, ◌++◌, ◌<◌, ◌∙◌, ◌∷◌, ◌≡◌,
}
use libreatrust.Stream.{Reader, ready}
use libreatrust.Stream.Live.{IsLive, contents}
use libreatrust.Tcp.{data_frame, payload, read_tcp_frame, write_tcp_payload}
use libreatrust.Tcp.Write.{Fits, write_tcp_payload-pieces}
use libreatrust.Tcp.Read.{read_tcp_frame-data}

-- Calls of `read_tcp_frame` that hand out `bytes` in order, some of which find nothing yet.
pub data Delivers : Reader → List ℕ → Reader → Type 0 where
  done : {events : Reader} → Delivers events [] events
  wait :
      {events mid rest : Reader} {bytes : List ℕ}
      → read_tcp_frame events ≡ ready none mid
      → Delivers mid bytes rest
      → Delivers events bytes rest
  frame :
      {events mid rest : Reader} {piece bytes : List ℕ}
      → read_tcp_frame events ≡ ready (some (payload piece)) mid
      → Delivers mid bytes rest
      → Delivers events (piece ++ bytes) rest

abbrev Delivered : Reader → List ℕ → List ℕ → Type 0
Delivered events bytes more =
    (rest : Reader) × Delivers events bytes rest × IsLive rest × (contents rest ≡ more)

deliver :
    (pieces : List (List ℕ)) (fuel : ℕ) (events : Reader) (more : List ℕ)
    → length events < fuel
    → IsLive events
    → All Fits pieces
    → contents events ≡ concat (map data_frame pieces) ++ more
    → Delivered events (concat pieces) more
deliver [] fuel events more hf live fits e = (events, done, live, e)
deliver (p ∷ pieces) zero events more hf live fits e = absurd (omega arith)
deliver (p ∷ pieces) (suc fuel) events more hf live fits e =
    elim (read_tcp_frame-data events p (concat (map data_frame pieces) ++ more) live fits.0.1
      (e ∙ append_assoc (data_frame p) (concat (map data_frame pieces)) more)) [
        | inl (mid, r, t) ↦
            let (rest, d, l, c) =
              deliver pieces (suc fuel) mid more (omega (arith, t.shorter)) t.live fits.1 t.left in
            (rest, frame r d, l, c)
        | inr (mid, r, w) ↦
            let (rest, d, l, c) =
              deliver (p ∷ pieces) fuel mid more (omega (arith, w.shorter)) w.live fits
                (w.left ∙ e) in
            (rest, wait r d, l, c)
      ]

-- Where the bytes to come on a live connection start with the frames that `write_tcp_payload`
-- wrote for a payload, however they are cut and delayed, finitely many calls of `read_tcp_frame`
-- hand out exactly the payload, in order, and leave what follows the frames to come.
pub read_tcp_frame-write_tcp_payload :
    (bytes more : List ℕ) (events : Reader)
    → IsLive events
    → contents events ≡ concat (write_tcp_payload bytes).0 ++ more
    → (rest : Reader) × Delivers events bytes rest × IsLive rest × (contents rest ≡ more)
read_tcp_frame-write_tcp_payload bytes more events live e =
    let (pieces, w, c, fits) = write_tcp_payload-pieces bytes in
    subst (λ b. Delivered events b more) c
      (deliver pieces (suc (length events)) events more (omega arith) live fits
        (e ∙ ap (λ r. concat r.0 ++ more) w))
