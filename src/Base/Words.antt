-- ===== src/Base/Words.antt =====
-- Machine integers as native numbers: casts, wrapping arithmetic, and the byte forms of integers.
use Prim.Native.Nat.{ℕ, zero, suc, ◌+◌, ◌-◌, ◌*◌, ◌/◌, ◌%◌, ◌^◌, ◌<◌}
use mathlib.Core.Path.{◌≡◌, refl, ap, ◌∙◌}
use mathlib.Core.List.{[], ◌∷◌, ◌++◌}
use native.Mathlib.Nat.{div-add-mod, add-mul-mod_self_left, mul_comm}
use native.Mathlib.Omega.{arith}
use fast_rsync.Base.Lists.{Bytes, length, replicate}

abbrev pub u8 : ℕ → ℕ
u8 n = n % 2 ^ 8

abbrev pub u16 : ℕ → ℕ
u16 n = n % 2 ^ 16

abbrev pub u32 : ℕ → ℕ
u32 n = n % 2 ^ 32

abbrev pub u64 : ℕ → ℕ
u64 n = n % 2 ^ 64

-- `usize` is that of a 64-bit target.
abbrev pub usize_max : ℕ
usize_max = 2 ^ 64 - 1

-- The `k` bytes of an integer, the highest first.
unfoldable pub to_be_bytes : ℕ → ℕ → Bytes
to_be_bytes zero n = []
to_be_bytes (suc k) n = (n / 256 ^ k % 256) ∷ to_be_bytes k n

-- The number that bytes read behind `acc` stand for.
unfoldable pub from_be : ℕ → Bytes → ℕ
from_be acc [] = acc
from_be acc (b ∷ bs) = from_be (acc * 256 + b) bs

unfoldable pub from_be_bytes : Bytes → ℕ
from_be_bytes = from_be 0

-- The `k` bytes of an integer, the lowest first.
unfoldable pub to_le_bytes : ℕ → ℕ → Bytes
to_le_bytes zero n = []
to_le_bytes (suc k) n = (n % 256) ∷ to_le_bytes k (n / 256)

unfoldable pub from_le_bytes : Bytes → ℕ
from_le_bytes [] = 0
from_le_bytes (b ∷ bs) = b + 256 * from_le_bytes bs

pub length-to_be_bytes : (k n : ℕ) → length (to_be_bytes k n) ≡ k
unfolding to_be_bytes
length-to_be_bytes zero n = refl
length-to_be_bytes (suc k) n = omega (arith, length-to_be_bytes k n)

-- `a.wrapping_add(b)`, `wrapping_sub` and `wrapping_mul` at the width `w`.
abbrev pub wrapping_add : ℕ → ℕ → ℕ → ℕ
wrapping_add w a b = (a + b) % 2 ^ w

abbrev pub wrapping_sub : ℕ → ℕ → ℕ → ℕ
wrapping_sub w a b = (a + 2 ^ w - b) % 2 ^ w

abbrev pub wrapping_mul : ℕ → ℕ → ℕ → ℕ
wrapping_mul w a b = a * b % 2 ^ w

-- A factor may be reduced before a product is.
pub mod-mul-mod : (m a b : ℕ) → a % m * b % m ≡ a * b % m
mod-mul-mod m a b =
    rw (← add-mul-mod_self_left (a % m * b) m (a / m * b)) (ap (λ (t : ℕ). t % m) whole)
  where
    whole : a % m * b + m * (a / m * b) ≡ a * b
    whole = omega (arith, ap (λ (t : ℕ). t * b) (div-add-mod a m))

pub mul-mod-mod : (m a b : ℕ) → a % m * (b % m) % m ≡ a * b % m
mul-mod-mod m a b =
    mod-mul-mod m a (b % m) ∙ rw (mul_comm a (b % m)) (mod-mul-mod m b a ∙ rw (mul_comm b a))

-- Integers of one, two, four and eight bytes are read back.
pub from_be_bytes-to_be_bytes_1 : (n : ℕ) → n < 2 ^ 8 → from_be_bytes (to_be_bytes 1 n) ≡ n
unfolding from_be_bytes from_be to_be_bytes
from_be_bytes-to_be_bytes_1 n h = omega arith

pub from_be_bytes-to_be_bytes_2 : (n : ℕ) → n < 2 ^ 16 → from_be_bytes (to_be_bytes 2 n) ≡ n
unfolding from_be_bytes from_be to_be_bytes
from_be_bytes-to_be_bytes_2 n h = omega arith

pub from_be_bytes-to_be_bytes_4 : (n : ℕ) → n < 2 ^ 32 → from_be_bytes (to_be_bytes 4 n) ≡ n
unfolding from_be_bytes from_be to_be_bytes
from_be_bytes-to_be_bytes_4 n h = omega arith

pub from_be_bytes-to_be_bytes_8 : (n : ℕ) → n < 2 ^ 64 → from_be_bytes (to_be_bytes 8 n) ≡ n
unfolding from_be_bytes from_be to_be_bytes
from_be_bytes-to_be_bytes_8 n h = omega arith

-- Zero bytes in front do not change a big-endian number.
pub from_be_bytes-zeros :
    (k : ℕ) (bs : Bytes) → from_be_bytes (replicate k 0 ++ bs) ≡ from_be_bytes bs
unfolding from_be_bytes from_be
from_be_bytes-zeros zero bs = refl
from_be_bytes-zeros (suc k) bs = from_be_bytes-zeros k bs

pub length-to_le_bytes : (k n : ℕ) → length (to_le_bytes k n) ≡ k
unfolding to_le_bytes
length-to_le_bytes zero n = refl
length-to_le_bytes (suc k) n = omega (arith, length-to_le_bytes k (n / 256))
