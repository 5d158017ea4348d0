-- ===== src/Tcp/Write.antt =====
-- transport.rs: how `write_tcp_payload` cuts a payload.
use libreatrust.Base.{
  All, List, [], ap, arith, concat, drop, length, length-drop, length-take, map, refl, suc, take,
  take-append-drop, zero, ℕ, ◌++◌, ◌<◌, ◌∙◌, ◌∷◌, ◌≡◌, ◌≤◌,
}
use libreatrust.Tcp.{chunks, chunks_loop, data_frame, write_tcp_payload}

-- A piece that a frame can carry.
abbrev pub Fits : List ℕ → Type 0
Fits piece = (0 < length piece) × (length piece < 65536)

chunks_loop_lem :
    (rounds : ℕ) (bytes : List ℕ)
    → length bytes ≤ rounds
    → (concat (chunks_loop rounds bytes) ≡ bytes) × All Fits (chunks_loop rounds bytes)
unfolding chunks_loop
chunks_loop_lem zero [] h = (refl, tt)
chunks_loop_lem zero (b ∷ bytes) h = absurd (omega arith)
chunks_loop_lem (suc rounds) [] h = (refl, tt)
chunks_loop_lem (suc rounds) (b ∷ bytes) h =
    let more = drop 65535 (b ∷ bytes) in
    let rest = chunks_loop_lem rounds more (omega (arith, length-drop 65534 bytes)) in
    (
      ap (λ t. take 65535 (b ∷ bytes) ++ t) rest.0 ∙ take-append-drop 65535 (b ∷ bytes),
      ((omega arith, omega (arith, length-take 65534 bytes)), rest.1),
    )

-- The pieces of a payload are its bytes in order, and each has between 1 and 65535 of them.
chunks_lem : (bytes : List ℕ) → (concat (chunks bytes) ≡ bytes) × All Fits (chunks bytes)
unfolding chunks
chunks_lem bytes = chunks_loop_lem (length bytes) bytes (omega arith)

-- Whatever the payload, `write_tcp_payload` reports all its bytes as written, and the frames it
-- writes are those of pieces of 1 to 65535 bytes that make up the payload in order.
pub write_tcp_payload-pieces :
    (bytes : List ℕ)
    → (pieces : List (List ℕ)) × (write_tcp_payload bytes ≡ (map data_frame pieces, length bytes))
      × (concat pieces ≡ bytes)
      × All Fits pieces
unfolding write_tcp_payload
write_tcp_payload-pieces [] = ([], refl, refl, tt)
write_tcp_payload-pieces (b ∷ bytes) =
    (chunks (b ∷ bytes), refl, (chunks_lem (b ∷ bytes)).0, (chunks_lem (b ∷ bytes)).1)
