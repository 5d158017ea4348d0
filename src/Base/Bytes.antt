-- ===== src/Base/Bytes.antt =====
-- Bytes and machine words in big-endian order, IPv4 addresses and the slice operations of Rust.
use Prim.Native.Nat.{ℕ, zero, suc, ◌+◌, ◌*◌, ◌/◌, ◌%◌, ◌<◌}
use mathlib.Core.Path.{◌≡◌, refl, ap, sym, ◌∙◌}
use mathlib.Core.List.{List, [], ◌∷◌}
use native.Mathlib.Omega.{arith}
use libreatrust.Base.Lists.{length, drop, get_or, replicate}

abbrev pub IsByte : ℕ → Type 0
IsByte b = b < 256

abbrev pub IsU16 : ℕ → Type 0
IsU16 v = v < 65536

-- `v as u16`
abbrev pub as_u16 : ℕ → ℕ
as_u16 v = v % 65536

-- `v as u8`
abbrev pub as_u8 : ℕ → ℕ
as_u8 v = v % 256

-- `u16::to_be_bytes`
abbrev pub be16 : ℕ → List ℕ
be16 v = v / 256 ∷ v % 256 ∷ []

-- `u16::from_be_bytes`
abbrev pub from_be16 : ℕ → ℕ → ℕ
from_be16 hi lo = hi * 256 + lo

-- `data[i]`, at an index that the caller's guard has checked
abbrev pub byte_at : List ℕ → ℕ → ℕ
byte_at bytes i = get_or bytes i 0

-- `packet[at..at + bytes.len()].copy_from_slice(bytes)`
abbrev pub copy_at : List ℕ → ℕ → List ℕ → List ℕ
copy_at xs zero [] = xs
copy_at [] zero (b ∷ bytes) = []
copy_at (x ∷ xs) zero (b ∷ bytes) = b ∷ copy_at xs zero bytes
copy_at [] (suc at) bytes = []
copy_at (x ∷ xs) (suc at) bytes = x ∷ copy_at xs at bytes

-- A slice of zeros that is overwritten as a whole.
pub copy_at-replicate : (bytes : List ℕ) → copy_at (replicate (length bytes) 0) 0 bytes ≡ bytes
copy_at-replicate [] = refl
copy_at-replicate (b ∷ bytes) = ap (λ t. b ∷ t) (copy_at-replicate bytes)

pub from_be16-be16 : (v : ℕ) → from_be16 (v / 256) (v % 256) ≡ v
from_be16-be16 v = omega arith

-- `std::net::Ipv4Addr`, by its octets
pub record Ipv4Addr : Type 0 where
  pub o0 : ℕ
  pub o1 : ℕ
  pub o2 : ℕ
  pub o3 : ℕ

pub record IsIpv4 (ip : Ipv4Addr) : Type 0 where
  pub b0 : IsByte ip.o0
  pub b1 : IsByte ip.o1
  pub b2 : IsByte ip.o2
  pub b3 : IsByte ip.o3

abbrev pub octets : Ipv4Addr → List ℕ
octets ip = ip.o0 ∷ ip.o1 ∷ ip.o2 ∷ ip.o3 ∷ []

-- `u32::from_be_bytes(ip.octets())`
abbrev pub ipv4_number : Ipv4Addr → ℕ
ipv4_number ip = ip.o0 * 16777216 + ip.o1 * 65536 + ip.o2 * 256 + ip.o3

-- `Ipv4Addr::from(u32)`
abbrev pub ipv4_of_number : ℕ → Ipv4Addr
ipv4_of_number n = record {
  o0 = n / 16777216;
  o1 = n / 65536 % 256;
  o2 = n / 256 % 256;
  o3 = n % 256;
}

pub ipv4_number-of_number : (n : ℕ) → ipv4_number (ipv4_of_number n) ≡ n
ipv4_number-of_number n = omega arith

pub byte_at-drop : (n : ℕ) (xs : List ℕ) (i : ℕ) → byte_at xs (n + i) ≡ byte_at (drop n xs) i
byte_at-drop zero xs i = ap (byte_at xs) (omega arith)
byte_at-drop (suc n) [] i = refl
byte_at-drop (suc n) (x ∷ xs) i =
    let same : suc n + i ≡ suc (n + i) = omega arith in rw same (byte_at-drop n xs i)

drop-nil : (n : ℕ) → drop {A = ℕ} n [] ≡ []
drop-nil zero = refl
drop-nil (suc n) = refl

pub drop-drop : (n k : ℕ) (xs : List ℕ) → drop (n + k) xs ≡ drop k (drop n xs)
drop-drop zero k xs = ap (λ m. drop m xs) (omega arith)
drop-drop (suc n) k [] = drop-nil (suc n + k) ∙ sym (drop-nil k)
drop-drop (suc n) k (x ∷ xs) =
    let same : suc n + k ≡ suc (n + k) = omega arith in rw same (drop-drop n k xs)
