-- ===== src/Delta/OwnBase.antt =====
-- `diff` of src/diff.rs of base data against their own signature of src/signature.rs.
use fast_rsync.Base.{
  ℕ, zero, suc, ◌*◌, ◌/◌, ◌^◌, ◌≤◌, ◌<◌, ◌≡◌, refl, arith, Option, some, List, [], ◌∷◌, ◌++◌, map,
  Bytes, length, length-map, drop, get_elem?, chunks, ok,
}
use fast_rsync.Base.Chunks.{get_elem?-chunks}
use fast_rsync.Consts.{rs_op_end}
use fast_rsync.Crc.{Crc}
use fast_rsync.Delta.Apply.{magic_bytes}
use fast_rsync.Delta.Decodes.{copy_bytes}
use fast_rsync.Delta.Rebuild.{IsNamed}
use fast_rsync.Delta.RoundTrip.{IsUsable}
use fast_rsync.Delta.Sync.{indexed, index-signed}
use fast_rsync.Delta.Unchanged.{literal, diff-copy}
use fast_rsync.Delta.Vec.{vec_write}
use fast_rsync.Delta.Windows.{window}
use fast_rsync.Diff.{diff}
use fast_rsync.Md4.Many.{Target, Md4xN}
use fast_rsync.Md4.Many.Contract.{IsRight}
use fast_rsync.Signature.{Signature, SignatureOptions, calculate}
use fast_rsync.Signature.Distinct.{IsDistinct, index_loop-Names_all}
use fast_rsync.Signature.Index.{IndexedSignature, index}
use fast_rsync.Signature.Layout.{IsAllowed, signed, calculate-signed}
use fast_rsync.Signature.RoundTrip.{block_key}
use native.Mathlib.Nat.{div-add-mod', mod-lt, le-div_iff_mul-le}

get_elem?-map-some :
    {A B : Type 0} (f : A → B) (xs : List A) (k : ℕ) (x : A)
    → get_elem? xs k ≡ some x
    → get_elem? (map f xs) k ≡ some (f x)
get_elem?-map-some f [] k x e = cc
get_elem?-map-some f (y ∷ xs) zero x e = cc
get_elem?-map-some f (y ∷ xs) (suc k) x e = get_elem?-map-some f xs k x e

-- The keys of the blocks of the base.
abbrev pub keys : Bytes → SignatureOptions → List (Crc × Bytes)
keys base options = map (block_key options.crypto_hash_size) (chunks options.block_size base)

own-IsNamed :
    (base : Bytes) (options : SignatureOptions) (i : ℕ)
    → length (keys base options) ≤ 2 ^ 32
    → IsDistinct (keys base options)
    → i < length base / options.block_size
    → IsNamed (indexed base options) (window options.block_size (i * options.block_size) base) i
unfolding indexed
own-IsNamed base options i few distinct h =
    index_loop-Names_all (keys base options) _ _ i few distinct (
      get_elem?-map-some (block_key options.crypto_hash_size) (chunks options.block_size base) i _
        (get_elem?-chunks options.block_size base i h))

-- `calculate` on base data of a block at least, `index` of the signature, and `diff` of the same data:
-- where no two blocks have the same checksum and kept digest, each call succeeds, and the delta is one
-- copy of all blocks of full size, and a literal of what is left, if anything is. The further
-- conditions are: options that `calculate` allows, a number of blocks that a 32-bit word holds, and a
-- vector unit that computes MD4.
pub diff-own_base :
    {target : Target} (simd : Option (Md4xN target)) (base : Bytes) (options : SignatureOptions)
    → IsRight simd
    → IsAllowed options
    → options.block_size ≤ length base
    → length (chunks options.block_size base) ≤ 2 ^ 32
    → IsDistinct (keys base options)
    → let copied = length base / options.block_size * options.block_size in
      (s : Signature) × (sig : IndexedSignature) × (calculate simd base options ≡ ok s)
      × (index s ≡ ok sig)
      × (diff {E = ⊥} sig base []
          ≡ ok (
              magic_bytes
              ++ (copy_bytes 0 copied ++ (literal (drop copied base) ++ (rs_op_end ∷ [])))))
unfolding indexed
diff-own_base simd base options right allowed enough few distinct =
    let sig = indexed base options in
    let n = length base / options.block_size in
    let whole = div-add-mod' (length base) options.block_size in
    let rest = mod-lt (length base) allowed.not_empty in
    let usable : IsUsable sig = record {
      is_md4 = refl;
      hash_fits = allowed.hash_fits;
      not_empty = allowed.not_empty;
    } in
    let some_block : 1 ≤ n = (le-div_iff_mul-le allowed.not_empty).1 (omega arith) in
    (
      signed base options,
      sig,
      calculate-signed simd base options right allowed,
      index-signed base options allowed,
      diff-copy sig base n usable some_block (omega (arith, whole)) (omega (arith, whole, rest))
          (λ i h.
            own-IsNamed base options i
              (omega (
                arith,
                length-map (block_key options.crypto_hash_size) (chunks options.block_size base),
              ))
              distinct h),
    )
