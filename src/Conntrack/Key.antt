-- ===== src/Conntrack/Key.antt =====
-- transport.rs: which packets share a key of `conn_track_key`.
use libreatrust.Base.{
  All, Ipv4Addr, IsByte, IsIpv4, IsU16, Text, [], ap, ap₂, arith, false, is_digit, refl, some, sym,
  ℕ, ◌++◌, ◌↔◌, ◌∙◌, ◌∷◌, ◌≡◌, ◌≢◌,
}
use libreatrust.Decimal.{decimal}
use libreatrust.Decimal.RoundTrip.{IsDigits, decimal-IsDigits, decimal_inj}
use libreatrust.Address.{ipv4_text, parse_ipv4}
use libreatrust.Address.RoundTrip.{parse_ipv4-ipv4_text}
use libreatrust.Conntrack.{PacketMeta, conn_track_key}

abbrev Without : ℕ → Text → Type 0
Without x = All (λ c. c ≢ x)

-- Texts that are joined by a character of neither front come apart in one way.
split_apart :
    (x : ℕ) (s t u v : Text)
    → Without x s
    → Without x t
    → s ++ (x ∷ u) ≡ t ++ (x ∷ v)
    → (s ≡ t) × (u ≡ v)
split_apart x [] [] u v hs ht e = (refl, cc)
split_apart x [] (d ∷ t) u v hs ht e = let same : d ≡ x = cc in absurd (ht.0 same)
split_apart x (c ∷ s) [] u v hs ht e = let same : c ≡ x = cc in absurd (hs.0 same)
split_apart x (c ∷ s) (d ∷ t) u v hs ht e =
    let heads : c ≡ d = cc in
    let tails : s ++ (x ∷ u) ≡ t ++ (x ∷ v) = cc in
    let (fronts, ends) = split_apart x s t u v hs.1 ht.1 tails in
    (ap₂ (λ a b. a ∷ b) heads fronts, ends)

IsDigits-Without : (x : ℕ) (s : Text) → is_digit x ≡ false → IsDigits s → Without x s
IsDigits-Without x [] h hs = tt
IsDigits-Without x (c ∷ s) h hs =
    ((λ e. absurd (cc (hs.0, h, ap is_digit e))), IsDigits-Without x s h hs.1)

Without-append : (x : ℕ) (s t : Text) → Without x s → Without x t → Without x (s ++ t)
Without-append x [] t hs ht = ht
Without-append x (c ∷ s) t hs ht = (hs.0, Without-append x s t hs.1 ht)

decimal-Without : (x n : ℕ) → is_digit x ≡ false → Without x (decimal n)
decimal-Without x n h = IsDigits-Without x (decimal n) h (decimal-IsDigits n)

ipv4_text-Without : (ip : Ipv4Addr) → Without b':' (ipv4_text ip)
unfolding ipv4_text
ipv4_text-Without ip =
    let d = λ (n : ℕ). decimal-Without b':' n refl in
    let dot : b'.' ≢ b':' = λ e. absurd (omega (arith, e)) in
    let two = Without-append b':' (decimal ip.o2) (b'.' ∷ decimal ip.o3) (d ip.o2) (dot, d ip.o3) in
    let one =
      Without-append b':' (decimal ip.o1) (b'.' ∷ (decimal ip.o2 ++ (b'.' ∷ decimal ip.o3)))
        (d ip.o1) (dot, two) in
    Without-append b':' (decimal ip.o0)
      (b'.' ∷ (decimal ip.o1 ++ (b'.' ∷ (decimal ip.o2 ++ (b'.' ∷ decimal ip.o3))))) (d ip.o0)
      (dot, one)

ipv4_text-same : (a b : Ipv4Addr) → IsIpv4 a → IsIpv4 b → ipv4_text a ≡ ipv4_text b → a ≡ b
ipv4_text-same a b ha hb e =
    let same : some a ≡ some b =
      sym (parse_ipv4-ipv4_text a ha) ∙ ap parse_ipv4 e ∙ parse_ipv4-ipv4_text b hb in
    cc

-- The fields of a packet's metadata in their ranges.
pub record IsMeta (m : PacketMeta) : Type 0 where
  pub src : IsIpv4 m.src_ip
  pub dst : IsIpv4 m.dst_ip
  pub src_port : IsU16 m.src_port
  pub dst_port : IsU16 m.dst_port
  pub atype : IsByte m.atype

-- Everything but the protocol.
abbrev pub SameEnds : PacketMeta → PacketMeta → Type 0
SameEnds m n =
    (m.atype ≡ n.atype)
    × (m.src_ip ≡ n.src_ip)
    × (m.src_port ≡ n.src_port)
    × (m.dst_ip ≡ n.dst_ip)
    × (m.dst_port ≡ n.dst_port)

same_ends :
    (m n : PacketMeta) → IsMeta m → IsMeta n → conn_track_key m ≡ conn_track_key n → SameEnds m n
unfolding conn_track_key
same_ends m n hm hn e =
    let d = λ (x k : ℕ) (h : is_digit x ≡ false). decimal-Without x k h in
    let (e0, r0) =
      split_apart b':' (decimal m.atype) (decimal n.atype) _ _ (d b':' m.atype refl)
        (d b':' n.atype refl) e in
    let (e1, r1) =
      split_apart b':' (ipv4_text m.src_ip) (ipv4_text n.src_ip) _ _ (ipv4_text-Without m.src_ip)
        (ipv4_text-Without n.src_ip) r0 in
    let (e2, r2) =
      split_apart b'-' (decimal m.src_port) (decimal n.src_port) _ _ (d b'-' m.src_port refl)
        (d b'-' n.src_port refl) r1 in
    let (e3, r3) =
      split_apart b':' (ipv4_text m.dst_ip) (ipv4_text n.dst_ip) _ _ (ipv4_text-Without m.dst_ip)
        (ipv4_text-Without n.dst_ip) r2 in
    (
      decimal_inj m.atype n.atype (omega (arith, hm.atype)) (omega (arith, hn.atype)) e0,
      ipv4_text-same m.src_ip n.src_ip hm.src hn.src e1,
      decimal_inj m.src_port n.src_port (omega (arith, hm.src_port)) (omega (arith, hn.src_port))
          e2,
      ipv4_text-same m.dst_ip n.dst_ip hm.dst hn.dst e3,
      decimal_inj m.dst_port n.dst_port (omega (arith, hm.dst_port)) (omega (arith, hn.dst_port))
          r3,
    )

-- Two packets have the same key exactly when they agree in version, addresses and ports: their
-- protocols do not count.
pub conn_track_key_iff :
    (m n : PacketMeta) → IsMeta m → IsMeta n → (conn_track_key m ≡ conn_track_key n) ↔ SameEnds m n
unfolding conn_track_key
conn_track_key_iff m n hm hn =
    (same_ends m n hm hn, λ (a, s, sp, t, tp). rw a (rw s (rw sp (rw t (rw tp refl)))))
