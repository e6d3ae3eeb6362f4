-- ===== src/Md4/Many/Contract.antt =====
-- What `md4_many` of src/md4/mod.rs asks of a vector unit.
use fast_rsync.Base.{
  ℕ, ◌-◌, ◌≤◌, ◌≡◌, Option, none, some, List, [], ◌++◌, map, Bytes, length, take, replicate, All,
  ok,
}
use fast_rsync.Md4.{md4}
use fast_rsync.Md4.Many.{Target, Md4xN, Item, max_lanes}

-- A block with its digest.
abbrev pub digested : Bytes → Item
digested block = (block, md4 block)

-- What is asked of the vector unit: on `lanes` blocks of one size it does not panic, and its first
-- `lanes` digests are those of `md4`.
pub record IsMd4 {target : Target} (simd : Md4xN target) : Type 0 where
  pub some_lanes : 1 ≤ simd.lanes
  pub digests :
      (size : ℕ) (datas : List Bytes)
      → length datas ≡ simd.lanes
      → All (λ block. length block ≡ size) datas
      → (found : List Bytes) × (simd.fun (datas ++ replicate (max_lanes target - simd.lanes) [])
          ≡ ok found)
        × (take simd.lanes found ≡ map md4 datas)

abbrev pub IsRight : {target : Target} → Option (Md4xN target) → Type 0
IsRight none = Unit {0}
IsRight (some simd) = IsMd4 simd
