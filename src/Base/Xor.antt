-- ===== src/Base/Xor.antt =====
-- Exclusive or of numbers as the hardware does it, and a number mixed with its own high bits.
use Prim.Native.Nat.{ℕ, zero, suc, ◌+◌, ◌*◌, ◌/◌, ◌%◌, ◌^◌, ◌≤◌, ◌<◌}
use Prim.Native.Nat.{bit_xor, differ, bit_xor-bitwise}
use mathlib.Core.Path.{◌≡◌, refl, sym, ap, ◌∙◌}
use native.Mathlib.Nat.{
  pow-succ', div-div-eq-div-mul, div-eq_of_lt, div-le_self, div-lt_iff_lt-mul, mul_comm,
}
use native.Mathlib.Omega.{arith}
use fast_rsync.Base.Bits.{digits_agree}

-- Two digits differ where their sum is odd.
differ-sum : (x y : ℕ) → x < 2 → y < 2 → differ x y ≡ (x + y) % 2
differ-sum zero y h k = omega arith
differ-sum (suc zero) zero h k = refl
differ-sum (suc zero) (suc zero) h k = refl
differ-sum (suc zero) (suc (suc y)) h k = absurd (omega arith)
differ-sum (suc (suc x)) y h k = absurd (omega arith)

-- `^` digit by digit.
bit_xor-halves : (a b : ℕ) → bit_xor a b ≡ 2 * bit_xor (a / 2) (b / 2) + (a % 2 + b % 2) % 2
bit_xor-halves zero b = omega (arith, bit_xor-bitwise 0 b, bit_xor-bitwise 0 (b / 2))
bit_xor-halves (suc a) b = omega (
  arith,
  bit_xor-bitwise (suc a) b,
  bit_xor-bitwise (suc a / 2) (b / 2),
  differ-sum (suc a % 2) (b % 2) (omega arith) (omega arith),
  digits_agree (λ b. b) differ (suc a / 2) (b / 2) a (suc a / 2) (omega arith) (omega arith),
)

cancel_fuel : (n a b c : ℕ) → a ≤ n → b ≤ n → bit_xor a c ≡ bit_xor b c → a ≡ b
cancel_fuel zero a b c h k e = omega arith
cancel_fuel (suc n) a b c h k e = omega (
  arith,
  bit_xor-halves a c,
  bit_xor-halves b c,
  cancel_fuel n (a / 2) (b / 2) (c / 2) (omega arith) (omega arith)
      (omega (arith, bit_xor-halves a c, bit_xor-halves b c)),
)

bit_xor-cancel : (a b c : ℕ) → bit_xor a c ≡ bit_xor b c → a ≡ b
bit_xor-cancel a b c e = cancel_fuel (a + b) a b c (omega arith) (omega arith) e

zero_fuel : (n a : ℕ) → a ≤ n → bit_xor a 0 ≡ a
zero_fuel zero a h =
    omega
      (arith, bit_xor-halves a 0, ap (λ (t : ℕ). bit_xor (t / 2) 0) none_left, bit_xor-bitwise 0 0)
  where
    none_left : a ≡ 0
    none_left = omega arith
zero_fuel (suc n) a h = omega (arith, bit_xor-halves a 0, zero_fuel n (a / 2) (omega arith))

pub bit_xor_zero : (a : ℕ) → bit_xor a 0 ≡ a
bit_xor_zero a = zero_fuel a a (omega arith)

-- A shift takes the digits of both.
bit_xor-shift : (j a b : ℕ) → bit_xor a b / 2 ^ j ≡ bit_xor (a / 2 ^ j) (b / 2 ^ j)
bit_xor-shift zero a b = rw (div_one a, div_one b) (div_one (bit_xor a b))
  where
    div_one : (n : ℕ) → n / 1 ≡ n
    div_one n = omega arith
bit_xor-shift (suc j) a b =
    let half : bit_xor a b / 2 ≡ bit_xor (a / 2) (b / 2) = omega (arith, bit_xor-halves a b) in
    rw
      (
        pow-succ' 2 j,
        ← div-div-eq-div-mul (bit_xor a b) 2 (2 ^ j),
        ← div-div-eq-div-mul a 2 (2 ^ j),
        ← div-div-eq-div-mul b 2 (2 ^ j),
        half,
      )
      (bit_xor-shift j (a / 2) (b / 2))

-- `val ^ (val >> k)`
abbrev pub xor_shift : ℕ → ℕ → ℕ
xor_shift k n = bit_xor n (n / 2 ^ k)

shifts_swap : (x k m : ℕ) → x / 2 ^ suc k / 2 ^ m ≡ x / 2 ^ suc m / 2 ^ k
shifts_swap x k m =
    rw
      (
        pow-succ' 2 k,
        pow-succ' 2 m,
        ← div-div-eq-div-mul x 2 (2 ^ k),
        ← div-div-eq-div-mul x 2 (2 ^ m),
        div-div-eq-div-mul (x / 2) (2 ^ k) (2 ^ m),
        div-div-eq-div-mul (x / 2) (2 ^ m) (2 ^ k),
      )
      (ap (λ (t : ℕ). x / 2 / t) (mul_comm (2 ^ k) (2 ^ m)))

-- Numbers that agree above a digit, and with their mixtures, agree at it too.
xor_shift-from :
    (k m x y : ℕ) → xor_shift (suc k) x ≡ xor_shift (suc k) y → x / 2 ^ m ≡ y / 2 ^ m → x ≡ y
xor_shift-from k zero x y e top = omega arith
xor_shift-from k (suc m) x y e top = xor_shift-from k m x y e (
    bit_xor-cancel (x / 2 ^ m) (y / 2 ^ m) (x / 2 ^ suc k / 2 ^ m) (
      sym (bit_xor-shift m x (x / 2 ^ suc k))
      ∙ ap (λ (t : ℕ). t / 2 ^ m) e
      ∙ bit_xor-shift m y (y / 2 ^ suc k)
      ∙ ap (λ (t : ℕ). bit_xor (y / 2 ^ m) t)
          (shifts_swap y k m ∙ ap (λ (t : ℕ). t / 2 ^ k) (sym top) ∙ sym (shifts_swap x k m))))

-- No two words have one mixture.
pub xor_shift-injective :
    (k n x y : ℕ) → x < 2 ^ n → y < 2 ^ n → xor_shift (suc k) x ≡ xor_shift (suc k) y → x ≡ y
xor_shift-injective k n x y h h' e =
    xor_shift-from k n x y e (div-eq_of_lt h ∙ sym (div-eq_of_lt h'))

-- A mixture of a word is a word.
pub xor_shift-lt : (k n x : ℕ) → x < 2 ^ n → xor_shift k x < 2 ^ n
xor_shift-lt k n x h = omega (arith, (div-lt_iff_lt-mul positive).0 below)
  where
    positive : 0 < 2 ^ n
    positive = omega arith

    shifted : x / 2 ^ k < 2 ^ n
    shifted = omega (arith, div-le_self x (2 ^ k))

    below : xor_shift k x / 2 ^ n < 1
    below = omega (
      arith,
      bit_xor-shift n x (x / 2 ^ k),
      ap (λ (t : ℕ). bit_xor t (x / 2 ^ k / 2 ^ n)) (div-eq_of_lt h),
      ap (λ (t : ℕ). bit_xor 0 t) (div-eq_of_lt shifted),
      bit_xor_zero 0,
    )
