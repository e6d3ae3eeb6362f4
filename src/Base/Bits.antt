-- ===== src/Base/Bits.antt =====
-- The bit operations of the hardware at variables, from the recursion on binary digits that they
-- stand for.
use Prim.Native.Nat.{ℕ, zero, suc, ◌+◌, ◌*◌, ◌/◌, ◌%◌, ◌^◌, ◌≤◌, ◌<◌, max, min}
use Prim.Native.Nat.{bit_and, bit_or, digits, bit_and-bitwise, bit_or-bitwise}
use mathlib.Core.Path.{◌≡◌, refl, sym, ap, ◌∙◌}
use native.Mathlib.Nat.{pow-suc}
use native.Mathlib.Omega.{arith}

-- Any two amounts of fuel that cover the first number agree.
pub digits_agree :
    (z : ℕ → ℕ) (fn : ℕ → ℕ → ℕ) (a b n m : ℕ)
    → a ≤ n
    → a ≤ m
    → digits z fn n a b ≡ digits z fn m a b
digits_agree z fn zero b zero zero h k = refl
digits_agree z fn zero b zero (suc m) h k = refl
digits_agree z fn zero b (suc n) zero h k = refl
digits_agree z fn zero b (suc n) (suc m) h k = refl
digits_agree z fn (suc a) b zero m h k = absurd (omega arith)
digits_agree z fn (suc a) b (suc n) zero h k = absurd (omega arith)
digits_agree z fn (suc a) b (suc n) (suc m) h k =
    ap (λ (t : ℕ). t * 2 + fn (suc a % 2) (b % 2))
      (digits_agree z fn (suc a / 2) (b / 2) n m (omega arith) (omega arith))

-- `|` digit by digit, the lowest one apart.
bit_or-halves : (a b : ℕ) → bit_or a b ≡ 2 * bit_or (a / 2) (b / 2) + max (a % 2) (b % 2)
bit_or-halves zero b = omega (arith, bit_or-bitwise 0 b, bit_or-bitwise 0 (b / 2))
bit_or-halves (suc a) b = omega (
  arith,
  bit_or-bitwise (suc a) b,
  bit_or-bitwise (suc a / 2) (b / 2),
  digits_agree (λ b. b) max (suc a / 2) (b / 2) a (suc a / 2) (omega arith) (omega arith),
)

-- `r | (q << k)` is a sum where `r` fits in the low `k` bits.
pub bit_or-shifted : (k r q : ℕ) → r < 2 ^ k → bit_or r (q * 2 ^ k) ≡ r + q * 2 ^ k
bit_or-shifted zero r q h =
    omega (arith, bit_or-bitwise 0 (q * 1), ap (λ (t : ℕ). bit_or t (q * 1)) r_is_zero)
  where
    r_is_zero : r ≡ 0
    r_is_zero = omega arith
bit_or-shifted (suc k) r q h = omega (
  arith,
  pow-suc 2 k,
  ap (λ (t : ℕ). q * t) (pow-suc 2 k),
  bit_or-halves r (q * 2 ^ suc k),
  ap (λ (t : ℕ). bit_or (r / 2) t) half,
  bit_or-shifted k (r / 2) q (omega (arith, pow-suc 2 k)),
)
  where
    half : q * 2 ^ suc k / 2 ≡ q * 2 ^ k
    half = omega (arith, ap (λ (t : ℕ). q * t) (pow-suc 2 k))

-- `&` digit by digit.
bit_and-halves : (a b : ℕ) → bit_and a b ≡ 2 * bit_and (a / 2) (b / 2) + min (a % 2) (b % 2)
bit_and-halves zero b = omega (arith, bit_and-bitwise 0 b, bit_and-bitwise 0 (b / 2))
bit_and-halves (suc a) b = omega (
  arith,
  bit_and-bitwise (suc a) b,
  bit_and-bitwise (suc a / 2) (b / 2),
  digits_agree (λ b. 0) min (suc a / 2) (b / 2) a (suc a / 2) (omega arith) (omega arith),
)

bit_and_comm_fuel : (n a b : ℕ) → a ≤ n → b ≤ n → bit_and a b ≡ bit_and b a
bit_and_comm_fuel zero a b h k =
    ap (λ (t : ℕ). bit_and t b) same ∙ ap (λ (t : ℕ). bit_and b t) (sym same)
  where
    same : a ≡ b
    same = omega arith
bit_and_comm_fuel (suc n) a b h k = omega (
  arith,
  bit_and-halves a b,
  bit_and-halves b a,
  bit_and_comm_fuel n (a / 2) (b / 2) (omega arith) (omega arith),
)

pub bit_and_comm : (a b : ℕ) → bit_and a b ≡ bit_and b a
bit_and_comm a b = bit_and_comm_fuel (a + b) a b (omega arith) (omega arith)
