-- ===== src/Tunnel/Reading.antt =====
-- What a sequence of reads from a TCP tunnel hands out.
use libreatrust.Base.{
  ==_false, List, [], ap, append_assoc, arith, concat, drop, inl, inr, length, lt→ltb, map, refl,
  subst, suc, sym, take, take-append-drop, zero, ℕ, ◌++◌, ◌-◌, ◌<◌, ◌∙◌, ◌∷◌, ◌≡◌, ◌⊎◌,
}
use libreatrust.Error.{AtrError, AtrResult, err, ok}
use libreatrust.Tunnel.{TcpTunnel, read, receive}

-- A byte or an error, as the reader of the tunnel meets them.
abbrev pub Item : Type 0
Item = ℕ ⊎ AtrError

abbrev pub items : AtrResult (List ℕ) → List Item
items (ok bytes) = map inl bytes
items (err e) = inr e ∷ []

-- All that is still to be read: the cache, and then the messages of the channel.
abbrev pub pending : TcpTunnel → List Item
pending tunnel = map inl tunnel.read_buf ++ concat (map items tunnel.incoming)

-- Reads into buffers of the given sizes: what they return, and the tunnel afterwards.
abbrev pub reads : List ℕ → TcpTunnel → List (AtrResult (List ℕ)) × TcpTunnel
reads [] tunnel = ([], tunnel)
reads (size ∷ sizes) tunnel =
    let (result, tunnel') = read size tunnel in
    let (results, last) = reads sizes tunnel' in (result ∷ results, last)

map_append {ℓ κ} :
    {A : Type ℓ} {B : Type κ} (f : A → B) (xs ys : List A) → map f (xs ++ ys) ≡ map f xs ++ map f ys
map_append f [] ys = refl
map_append f (x ∷ xs) ys = ap (λ t. f x ∷ t) (map_append f xs ys)

-- A list cut in two, in front of the messages still to come.
cut :
    (n : ℕ) (bytes : List ℕ) (more : List Item)
    → map inl (take n bytes) ++ (map inl (drop n bytes) ++ more) ≡ map inl bytes ++ more
cut n bytes more =
    sym (append_assoc (map inl (take n bytes)) (map inl (drop n bytes)) more)
    ∙ ap (λ t. t ++ more)
        (sym (map_append inl (take n bytes) (drop n bytes))
          ∙ ap (map inl) (take-append-drop n bytes))

receive-pending :
    (size : ℕ) (incoming : List (AtrResult (List ℕ)))
    → items (receive size [] [] incoming).0 ++ pending (receive size [] [] incoming).1
      ≡ concat (map items incoming)
unfolding receive
receive-pending size [] = refl
receive-pending size (err e ∷ more) = refl
receive-pending size (ok bytes ∷ more) = cut (size - 0) bytes (concat (map items more))

read_cached :
    (n x : ℕ) (bytes : List ℕ) (incoming : List (AtrResult (List ℕ)))
    → read (suc n) (record { read_buf = x ∷ bytes; incoming = incoming })
      ≡ (ok (x ∷ take n bytes), record { read_buf = drop n bytes; incoming = incoming })
unfolding read
read_cached n x bytes incoming = rw (lt→ltb 0 (suc (length (take n bytes))) (omega arith)) refl

read_uncached :
    (n : ℕ) (incoming : List (AtrResult (List ℕ)))
    → read (suc n) (record { read_buf = []; incoming = incoming }) ≡ receive (suc n) [] [] incoming
unfolding read
read_uncached n incoming = rw (==_false 0 (suc n) (omega arith)) refl

read-pending :
    (size : ℕ) (cached : List ℕ) (incoming : List (AtrResult (List ℕ)))
    → let tunnel : TcpTunnel = record { read_buf = cached; incoming = incoming } in
      items (read size tunnel).0 ++ pending (read size tunnel).1 ≡ pending tunnel
unfolding read
read-pending zero cached incoming = refl
read-pending (suc n) [] incoming = rw (read_uncached n incoming) (receive-pending (suc n) incoming)
read-pending (suc n) (x ∷ bytes) incoming =
    rw (read_cached n x bytes incoming) (cut (suc n) (x ∷ bytes) (concat (map items incoming)))

-- Whatever the sizes of the buffers, the bytes and the errors that a sequence of reads returns,
-- followed by what the tunnel holds after them, are those that it held before: nothing is lost,
-- repeated or put in another order.
pub reads-pending :
    (sizes : List ℕ) (tunnel : TcpTunnel)
    → concat (map items (reads sizes tunnel).0) ++ pending (reads sizes tunnel).1 ≡ pending tunnel
reads-pending [] tunnel = refl
reads-pending (size ∷ sizes) tunnel =
    let (result, tunnel') = read size tunnel in
    let (results, last) = reads sizes tunnel' in
    append_assoc (items result) (concat (map items results)) (pending last)
    ∙ ap (λ t. items result ++ t) (reads-pending sizes tunnel')
    ∙ read-pending size tunnel.read_buf tunnel.incoming

-- How a read that returns no bytes comes about.
abbrev pub HasNone : TcpTunnel → Type 0
HasNone tunnel =
    (tunnel.read_buf ≡ [])
    × ((tunnel.incoming ≡ [])
        ⊎ ((more : List (AtrResult (List ℕ))) × (tunnel.incoming ≡ ok [] ∷ more)))

received-none :
    (n : ℕ) (incoming : List (AtrResult (List ℕ)))
    → (receive (suc n) [] [] incoming).0 ≡ ok []
    → (incoming ≡ []) ⊎ ((more : List (AtrResult (List ℕ))) × (incoming ≡ ok [] ∷ more))
unfolding receive
received-none n [] e = inl refl
received-none n (err d ∷ more) e = let clash : err d ≡ ok [] = e in absurd (cc clash)
received-none n (ok [] ∷ more) e = inr (more, refl)
received-none n (ok (x ∷ bytes) ∷ more) e =
    let room : suc n - 0 ≡ suc n = omega arith in
    let first : ok (x ∷ take n bytes) ≡ ok [] =
      subst (λ k. ok (take k (x ∷ bytes)) ≡ ok []) room e in
    absurd (cc first)

read-none_parts :
    (n : ℕ) (cached : List ℕ) (incoming : List (AtrResult (List ℕ)))
    → (read (suc n) (record { read_buf = cached; incoming = incoming })).0 ≡ ok []
    → HasNone (record { read_buf = cached; incoming = incoming })
read-none_parts n [] incoming e =
    (refl, received-none n incoming (subst (λ r. r.0 ≡ ok []) (read_uncached n incoming) e))
read-none_parts n (x ∷ bytes) incoming e =
    let some_byte : ok (x ∷ take n bytes) ≡ ok [] =
      subst (λ r. r.0 ≡ ok []) (read_cached n x bytes incoming) e in
    absurd (cc some_byte)

-- A read into a buffer that has room returns no bytes only where none is cached, and the worker
-- has stopped with no message left or an empty message is the next one.
read-none :
    (size : ℕ) (tunnel : TcpTunnel) → 0 < size → (read size tunnel).0 ≡ ok [] → HasNone tunnel
read-none zero tunnel h e = absurd (omega arith)
read-none (suc n) tunnel h e = read-none_parts n tunnel.read_buf tunnel.incoming e
