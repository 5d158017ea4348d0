-- ===== src/Packet/Checksum.antt =====
-- The Internet checksum of transport.rs, `checksum_words` and its users.
use libreatrust.Base.{
  All, IsByte, IsU16, List, [], arith, as_u16, from_be16, if◌then◌else◌, length, suc, zero, ℕ, ◌%◌,
  ◌*◌, ◌+◌, ◌-◌, ◌/◌, ◌<◌, ◌==◌, ◌^◌, ◌∷◌, ◌≡◌, ◌≤◌, ◌⊎◌,
}

-- The sum of the big-endian words; a last odd byte is the high half of a word.
unfoldable pub word_sum : List ℕ → ℕ
word_sum [] = 0
word_sum (last ∷ []) = last * 256
word_sum (hi ∷ lo ∷ rest) = from_be16 hi lo + word_sum rest

-- `while (sum >> 16) != 0 { sum = (sum & 0xFFFF) + (sum >> 16) }`, on the rounds left.
unfoldable pub fold_carries : ℕ → ℕ → ℕ
fold_carries zero sum = sum
fold_carries (suc rounds) sum =
    let next = fold_carries rounds (sum % 65536 + sum / 65536) in
    if sum / 65536 == 0 then sum else next

-- `!(sum as u16)`. The sum is a `u32`, which three rounds fold.
unfoldable pub checksum_words : List ℕ → ℕ
unfolding word_sum fold_carries
checksum_words bytes = 65535 - as_u16 (fold_carries 3 (word_sum bytes % 2 ^ 32))

-- Two rounds bring any `u32` below 2 ^ 16, so the loop has ended after three: one more changes
-- nothing. The result is the sum modulo 65535, and zero only for zero.
fold_carries_ends :
    (sum : ℕ)
    → sum < 2 ^ 32
    → (fold_carries 3 sum < 65536)
      × (fold_carries 3 sum % 65535 ≡ sum % 65535)
      × (0 < sum → 0 < fold_carries 3 sum)
      × (fold_carries 3 sum ≤ sum)
unfolding fold_carries
fold_carries_ends sum h = ground arith

pub checksum_words-IsU16 : (bytes : List ℕ) → IsU16 (checksum_words bytes)
unfolding checksum_words
checksum_words-IsU16 bytes = omega arith

-- The sum of at most 65600 bytes does not overflow a `u32`.
pub word_sum_bound :
    (n : ℕ) (bytes : List ℕ) → All IsByte bytes → length bytes ≤ n → word_sum bytes ≤ n * 65535
unfolding word_sum
word_sum_bound n [] bs h = omega arith
word_sum_bound zero (x ∷ bytes) bs h = absurd (omega arith)
word_sum_bound (suc n) (x ∷ []) bs h = omega arith
word_sum_bound (suc zero) (x ∷ y ∷ bytes) bs h = absurd (omega arith)
word_sum_bound (suc (suc n)) (x ∷ y ∷ bytes) bs h =
    omega (arith, word_sum_bound n bytes bs.1.1 (omega arith))

-- `f` is the folded sum `s`, and `g` the folded sum `t` that holds the checksum of `s`.
verified :
    (s t check f g : ℕ)
    → t ≡ s + check
    → (check ≡ 65535 - as_u16 f) ⊎ ((check ≡ 65535) × (65535 - as_u16 f ≡ 0))
    → s + 65535 < 2 ^ 32
    → (f < 65536) × (f % 65535 ≡ s % 2 ^ 32 % 65535) × (0 < s % 2 ^ 32 → 0 < f) × (f ≤ s % 2 ^ 32)
    → (g < 65536) × (g % 65535 ≡ t % 2 ^ 32 % 65535) × (0 < t % 2 ^ 32 → 0 < g) × (g ≤ t % 2 ^ 32)
    → 65535 - as_u16 g ≡ 0
verified s t check f g e c h hf hg = grind arith

-- A receiver that sums over the stored checksum, or over all ones where it is zero, finds zero.
pub checksum_words-verifies :
    (bytes stored : List ℕ) (check : ℕ)
    → word_sum stored ≡ word_sum bytes + check
    → (check ≡ checksum_words bytes) ⊎ ((check ≡ 65535) × (checksum_words bytes ≡ 0))
    → word_sum bytes + 65535 < 2 ^ 32
    → checksum_words stored ≡ 0
unfolding checksum_words
checksum_words-verifies bytes stored check e c h =
    let s = word_sum bytes in
    let t = word_sum stored in
    verified s t check (fold_carries 3 (s % 2 ^ 32)) (fold_carries 3 (t % 2 ^ 32)) e c h
      (fold_carries_ends (s % 2 ^ 32) (omega arith)) (fold_carries_ends (t % 2 ^ 32) (omega arith))
