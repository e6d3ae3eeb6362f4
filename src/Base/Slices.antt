-- ===== src/Base/Slices.antt =====
-- Slices of bytes by `slice`: where they lie, how long they are, and how two join.
use Prim.Native.Nat.{ℕ, ◌+◌, ◌-◌, ◌≤◌}
use mathlib.Core.Path.{◌≡◌, refl, sym, ap, ◌∙◌}
use mathlib.Core.Logic.{inl, inr}
use mathlib.Core.Bool.{◌&&◌}
use mathlib.Core.Option.{some}
use native.Mathlib.Omega.{arith}
use fast_rsync.Base.Lists.{
  Bytes, length, length-take, length-drop, take, drop, drop-drop, take-add, slice, slice_in,
}
use fast_rsync.Base.Tests.{leb, Bool-cases}

pub slice_fits : (xs ys : Bytes) (a b : ℕ) → slice xs a b ≡ some ys → (b ≤ length xs) × (a ≤ b)
unfolding slice
slice_fits xs ys a b e = ground arith

pub length-slice :
    (xs part : Bytes) (a b : ℕ) → slice xs a b ≡ some part → (a + length part ≡ b) × (b ≤ length xs)
unfolding slice
length-slice xs part a b e = elim (Bool-cases (leb a b && leb b (length xs))) [
  | inr f ↦ let e' = rw f at e in cc
  | inl t ↦
      let same : take (b - a) (drop a xs) ≡ part = cc in
      rw (← same) (
        let below : (a ≤ b) × (b ≤ length xs) = ground arith in
        (
          omega (arith, length-take (b - a) (drop a xs), length-drop a xs, below.0, below.1),
          below.1,
        ))
]

module _ (base input : Bytes) where
  -- Two slices that follow on one another, and two parts of the input, join.
  pub slice-join :
      (offset here qo ql emitted len : ℕ)
      → emitted + ql ≡ here
      → qo + ql ≡ offset
      → slice base qo (qo + ql) ≡ some (take ql (drop emitted input))
      → slice base offset (offset + len) ≡ some (take len (drop here input))
      → slice base qo (qo + (ql + len)) ≡ some (take (ql + len) (drop emitted input))
  slice-join offset here qo ql emitted len p q e e' =
      let end = slice_fits base _ offset (offset + len) e' in
      slice_at qo (ql + len) (omega arith)
      ∙ ap some (
          sym (take-add ql len (ql + len) (drop qo base) refl)
          ∙ rw (drop-drop qo ql offset base q, ← slice_value qo ql e, ← slice_value offset len e')
              (rw (← drop-drop emitted ql here input p)
                (take-add ql len (ql + len) (drop emitted input) refl)))
    where
      slice_at :
          (a n : ℕ) → a + n ≤ length base → slice base a (a + n) ≡ some (take n (drop a base))
      slice_at a n h =
          let e : a + n - a ≡ n = omega arith in slice_in base a (a + n) (omega arith) h ∙ rw e

      slice_value :
          (a n : ℕ) {ys : Bytes} → slice base a (a + n) ≡ some ys → ys ≡ take n (drop a base)
      slice_value a n h = cc (slice_at a n (slice_fits base _ a (a + n) h).0)
