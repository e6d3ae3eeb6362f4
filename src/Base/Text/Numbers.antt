-- ===== src/Base/Text/Numbers.antt =====
-- A number is read back from its digits.
use Prim.Native.Nat.{ℕ, zero, suc, ◌+◌, ◌-◌, ◌*◌, ◌/◌, ◌%◌, ◌≤◌, ◌<◌}
use mathlib.Core.Path.{◌≡◌, refl, ap, ◌∙◌}
use mathlib.Core.Logic.{inl, inr}
use mathlib.Core.List.{[], ◌∷◌, ◌++◌}
use native.Mathlib.Omega.{arith}
use native.Mathlib.Nat.{div-add-mod', mod-lt, div-lt_self}
use fast_rsync.Base.Lists.{All, length, replicate, All-append}
use fast_rsync.Base.Tests.{ltb, if◌then◌else◌, Bool-cases}
use fast_rsync.Base.Text.{Text, digit, digits, decimal, hex}

unfoldable pub digit_value : ℕ → ℕ
digit_value c = if ltb c 58 then c - 48 else c - 87

-- The number that digits stand for, behind the number `n`.
unfoldable pub value : ℕ → ℕ → Text → ℕ
value base n [] = n
value base n (c ∷ cs) = value base (n * base + digit_value c) cs

digit_value-digit : (n : ℕ) → n < 16 → digit_value (digit n) ≡ n
unfolding digit_value digit
digit_value-digit n h = ground arith

value-append :
    (base n : ℕ) (xs ys : Text) → value base n (xs ++ ys) ≡ value base (value base n xs) ys
unfolding value
value-append base n [] ys = refl
value-append base n (x ∷ xs) ys = value-append base (n * base + digit_value x) xs ys

value-digits :
    (base fuel n : ℕ) → 2 ≤ base → base ≤ 16 → n < fuel → value base 0 (digits base fuel n) ≡ n
unfolding digits value
value-digits base zero n lo hi h = absurd (omega arith)
value-digits base (suc fuel) n lo hi h = elim (Bool-cases (ltb n base)) [
  | inl t ↦
      let small : n < base = ground arith in
      let z : 0 * base ≡ 0 = omega arith in
      rw (t, z, digit_value-digit n (omega arith)) (omega arith)
  | inr f ↦
      let big : base ≤ n = ground arith in
      let less : n / base < n = div-lt_self (omega arith) (omega arith) in
      let small : n % base < base = mod-lt n (omega arith) in
      rw (
        f,
        value-append base 0 (digits base fuel (n / base)) (digit (n % base) ∷ []),
        value-digits base fuel (n / base) lo hi (omega arith),
        digit_value-digit (n % base) (omega arith),
        div-add-mod' n base,
      )
]

value-zeros : (base k : ℕ) (xs : Text) → value base 0 (replicate k 48 ++ xs) ≡ value base 0 xs
unfolding value digit_value
value-zeros base zero xs = refl
value-zeros base (suc k) xs =
    let z : 0 * base + (48 - 48) ≡ 0 = omega arith in
    ap (λ (n : ℕ). value base n (replicate k 48 ++ xs)) z ∙ value-zeros base k xs

pub value-decimal : (n : ℕ) → value 10 0 (decimal n) ≡ n
unfolding decimal
value-decimal n = value-digits 10 (suc n) n (omega arith) (omega arith) (omega arith)

pub value-hex : (width n : ℕ) → value 16 0 (hex width n) ≡ n
unfolding hex
value-hex width n =
    value-zeros 16 (width - length (digits 16 (suc n) n)) (digits 16 (suc n) n)
    ∙ value-digits 16 (suc n) n (omega arith) (omega arith) (omega arith)

-- A decimal digit.
abbrev pub IsDecimal : ℕ → Type 0
IsDecimal c = (48 ≤ c) × (c ≤ 57)

digit-IsDecimal : (n : ℕ) → n < 10 → IsDecimal (digit n)
unfolding digit
digit-IsDecimal n h = ground arith

digits-IsDecimal : (fuel n : ℕ) → All IsDecimal (digits 10 fuel n)
unfolding digits
digits-IsDecimal zero n = tt
digits-IsDecimal (suc fuel) n = elim (Bool-cases (ltb n 10)) [
  | inl t ↦ rw t (digit-IsDecimal n (ground arith), tt)
  | inr f ↦ rw f (
      All-append IsDecimal (digits 10 fuel (n / 10)) (digit (n % 10) ∷ [])
        (digits-IsDecimal fuel (n / 10)) (digit-IsDecimal (n % 10) (omega arith), tt))
]

pub decimal-IsDecimal : (n : ℕ) → All IsDecimal (decimal n)
unfolding decimal
decimal-IsDecimal n = digits-IsDecimal (suc n) n
