-- ===== src/Md4/Many/Laws.antt =====
-- `md4_many` of src/md4/mod.rs digests every block once, in order, with or without a vector unit.
use fast_rsync.Base.{
  ℕ, zero, suc, ◌-◌, ◌<◌, ◌≡◌, refl, arith, Option, none, some, List, [], ◌∷◌, ◌++◌, map, Bytes,
  length, length-take, take, drop_all, All, ok,
}
use fast_rsync.Md4.Many.{Target, Md4xN, Item, It, pull, next, collect, start, md4_many}
use fast_rsync.Md4.Many.Contract.{digested, IsMd4, IsRight}
use fast_rsync.Md4.Many.Iterates.{IsIter, next-Yields, next-end}

pull-none :
    (target : Target) (inner : List Bytes) (fuel len buf_len : ℕ) (buf : List Item)
    → length inner < fuel
    → collect {target = target} fuel none
        (record { len = len; inner = inner; buf = buf; buf_len = buf_len })
      ≡ ok (map digested inner)
unfolding collect next pull
pull-none target inner zero len buf_len buf h = absurd (omega arith)
pull-none target [] (suc fuel) len buf_len buf h = refl
pull-none target (block ∷ inner) (suc fuel) len buf_len buf h =
    rw (pull-none target inner fuel (len - 1) buf_len buf (omega arith))

module _ {target : Target} (simd : Md4xN target) (right : IsMd4 simd) (size : ℕ) where
  -- A loop over the iterator sees the blocks that are left, each with its digest.
  collect-IsIter :
      (blocks ready : List Bytes) (it : It) (fuel : ℕ)
      → IsIter simd size ready it
      → ready ++ it.inner ≡ blocks
      → length blocks < fuel
      → collect fuel (some simd) it ≡ ok (map digested blocks)
  unfolding collect
  collect-IsIter blocks ready it zero i e h = absurd (omega arith)
  collect-IsIter [] ready it (suc fuel) i e h = rw (next-end simd right size ready it i e)
  collect-IsIter (d ∷ blocks) ready it (suc fuel) i e h =
      let (it', ready', e', i', rest) = next-Yields simd right size ready it d blocks i e in
      rw (e', collect-IsIter blocks ready' it' fuel i' rest (omega arith))

-- With a vector unit that digests as `md4` does, or with none, `md4_many` of blocks of one size ends
-- without a panic and pairs each block with its digest, in order.
pub md4_many-eq-map :
    {target : Target} (simd : Option (Md4xN target)) (size : ℕ) (datas : List Bytes)
    → IsRight simd
    → All (λ block. length block ≡ size) datas
    → md4_many simd datas ≡ ok (map digested datas)
unfolding md4_many
md4_many-eq-map {target = target} none size datas right sized =
    pull-none target datas (suc (length datas)) _ _ _ (omega arith)
md4_many-eq-map {target = target} (some simd) size datas right sized =
    collect-IsIter simd right size datas [] (start target datas) (suc (length datas))
      (record {
        counted = refl;
        buffered = refl;
        in_lanes = omega arith;
        at_end =
            let all : simd.lanes - 0 ≡ simd.lanes = omega arith in
            let buf = (start target datas).buf in
            rw all (
              drop_all simd.lanes (take simd.lanes buf)
                (omega (arith, length-take simd.lanes buf)));
        sized = sized;
      })
      refl (omega arith)
