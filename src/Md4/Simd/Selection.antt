-- ===== src/Md4/Simd/Selection.antt =====
-- `Md4xN::select` of src/md4/mod.rs on each target. On x86 it prefers eight lanes to four.
use fast_rsync.Base.{arith, Bool, true, false, Option, none, some}
use fast_rsync.Md4.Many.{Target, x86, aarch64, other, Md4xN}
use fast_rsync.Md4.Many.Contract.{IsMd4, IsRight}
use fast_rsync.Md4.Simd.{Lanes, select_fun, select_lanes}
use fast_rsync.Md4.Simd.Select.{select_fun-IsMd4}
use fast_rsync.Md4.Simd.Sse2.{Sse2, IsSse2}
use fast_rsync.Md4.Simd.Sse2
use fast_rsync.Md4.Simd.Sse2.Laws.{lanes_4-IsLaneWise}
use fast_rsync.Md4.Simd.Avx2.{Avx2, IsAvx2, lanes_8}
use fast_rsync.Md4.Simd.Avx2.Laws.{lanes_8-IsLaneWise}
use fast_rsync.Md4.Simd.Neon.{Neon, IsNeon}
use fast_rsync.Md4.Simd.Neon
use fast_rsync.Md4.Simd.Neon.Laws.{neon-lanes_4-IsLaneWise}
use mathlib.Core.Option.{or_else}

or_else-IsRight :
    {target : Target} (a b : Option (Md4xN target)) → IsRight a → IsRight b → IsRight (or_else a b)
unfolding or_else
or_else-IsRight (some simd) b right right' = right
or_else-IsRight none b right right' = right'

select_lanes-IsRight :
    {V : Type 0} (n : Lanes V) (target : Target) (enabled : Bool)
    → IsMd4 {target = target} (record { lanes = n.lanes; fun = select_fun n target })
    → IsRight (select_lanes n target enabled)
unfolding select_lanes
select_lanes-IsRight n target true right = right
select_lanes-IsRight n target false right = tt

-- What `is_x86_feature_detected!` and `is_aarch64_feature_detected!` find.
pub record Features : Type 0 where
  pub avx2 : Bool
  pub sse2 : Bool
  pub neon : Bool

module _ {M128 M256 Q : Type 0} (x : Sse2 M128) (y : Avx2 M128 M256) (z : Neon Q) where
  -- `select` of each target
  unfoldable pub select : (target : Target) → Features → Option (Md4xN target)
  select x86 found =
      or_else (select_lanes (lanes_8 x y) x86 found.avx2)
        (select_lanes (Sse2.lanes_4 x) x86 found.sse2)
  select aarch64 found = select_lanes (Neon.lanes_4 z) aarch64 found.neon
  select other found = none

  -- With intrinsics as they are documented, whatever vector unit `select` finds on each target
  -- digests every group of as many blocks of one size as it has lanes without a panic, each as MD4
  -- digests it.
  pub select-IsRight :
      (target : Target) (found : Features)
      → IsSse2 x
      → IsAvx2 x y
      → IsNeon z
      → IsRight (select target found)
  unfolding select
  select-IsRight x86 found is is_wide is_neon =
      or_else-IsRight (select_lanes (lanes_8 x y) x86 found.avx2)
        (select_lanes (Sse2.lanes_4 x) x86 found.sse2)
        (select_lanes-IsRight (lanes_8 x y) x86 found.avx2 (
          select_fun-IsMd4 (lanes_8 x y) (lanes_8-IsLaneWise x y is is_wide) x86 (omega arith)
            (omega arith)))
        (select_lanes-IsRight (Sse2.lanes_4 x) x86 found.sse2 (
          select_fun-IsMd4 (Sse2.lanes_4 x) (lanes_4-IsLaneWise x is) x86 (omega arith)
            (omega arith)))
  select-IsRight aarch64 found is is_wide is_neon =
      select_lanes-IsRight (Neon.lanes_4 z) aarch64 found.neon (
        select_fun-IsMd4 (Neon.lanes_4 z) (neon-lanes_4-IsLaneWise z is_neon) aarch64 (omega arith)
          (omega arith))
  select-IsRight other found is is_wide is_neon = tt
