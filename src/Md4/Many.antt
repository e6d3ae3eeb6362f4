-- ===== src/Md4/Many.antt =====
-- `md4_many` of src/md4/mod.rs: an iterator that digests blocks several at a time where the
-- processor can, and one by one at the end.
pub mod Contract
pub mod Iterates
pub mod Laws
use fast_rsync.Base.{
  ℕ, zero, suc, ◌+◌, ◌-◌, Bool, ◌&&◌, Option, none, some, List, [], ◌∷◌, ◌++◌, Bytes, length, take,
  drop, get_elem?, replicate, ltb, leb, ◌==◌, if◌then◌else◌, Outcome, ok, panic, stuck, ◌>>=◌,
  ok_or_panic,
}
use fast_rsync.Md4.{md4}
use mathlib.Core.List.{zip}

-- The `target_arch` of a build, as the code tells them apart.
pub data Target : Type 0 where
  x86 : Target
  aarch64 : Target
  other : Target

-- `MAX_LANES`
abbrev pub max_lanes : Target → ℕ
max_lanes x86 = 8
max_lanes aarch64 = 4
max_lanes other = 0

-- `simd::Md4xN`: it digests `lanes` blocks of one size, handed over in an array of `max_lanes`, and
-- panics on blocks of several sizes.
pub record Md4xN (target : Target) : Type 0 where
  pub lanes : ℕ
  pub fun : List Bytes → Outcome ⊥ (List Bytes)

abbrev pub Item : Type 0
Item = Bytes × Bytes

-- `It` with the changing fields of `SimdImpl`: the blocks that are left, how many, and the buffer.
pub record It : Type 0 where
  pub len : ℕ
  pub inner : List Bytes
  pub buf : List Item
  pub buf_len : ℕ

-- The first `lanes` entries of the buffer are overwritten.
unfoldable pub refill : {target : Target} → Md4xN target → It → Outcome ⊥ It
refill {target = target} simd it =
    if it.buf_len == 0 && leb simd.lanes it.len
    then (if ltb (length it.inner) simd.lanes then panic else (do
      let datas = take simd.lanes it.inner
      digests ← simd.fun (datas ++ replicate (max_lanes target - simd.lanes) [])
      ok (record {
        len = it.len - simd.lanes;
        inner = drop simd.lanes it.inner;
        buf = zip datas (take simd.lanes digests) ++ drop simd.lanes it.buf;
        buf_len = simd.lanes;
      })))
    else ok it

-- The way of one block.
unfoldable pub pull : It → Outcome ⊥ (Option Item × It)
pull it = elim it.inner [
  | [] ↦ ok (none, it)
  | block ∷ rest ↦ ok (some (block, md4 block), record it { len = it.len - 1; inner = rest })
]

-- `Iterator::next`
unfoldable pub next : {target : Target} → Option (Md4xN target) → It → Outcome ⊥ (Option Item × It)
next none it = pull it
next (some simd) it = do
  it' ← refill simd it
  let buffered = do
    item ← ok_or_panic (get_elem? it'.buf (simd.lanes - it'.buf_len))
    ok (some item, record it' { buf_len = it'.buf_len - 1 })
  if ltb 0 it'.buf_len then buffered else pull it'

-- What a `for` loop over the iterator sees, with the rounds that are left.
unfoldable pub collect : {target : Target} → ℕ → Option (Md4xN target) → It → Outcome ⊥ (List Item)
collect zero simd it = stuck
collect (suc fuel) simd it = do
  (item, it') ← next simd it
  let rest = collect fuel simd it'
  elim item [ none ↦ ok [] | some x ↦ rest >>= λ xs. ok (x ∷ xs) ]

abbrev pub start : Target → List Bytes → It
start target datas = record {
  len = length datas;
  inner = datas;
  buf = replicate (max_lanes target) ([], replicate 16 0);
  buf_len = 0;
}

-- `simd` is what `Md4xN::select` found.
unfoldable pub md4_many :
    {target : Target} → Option (Md4xN target) → List Bytes → Outcome ⊥ (List Item)
unfolding collect next pull refill
md4_many {target = target} simd datas = collect (suc (length datas)) simd (start target datas)
