-- ===== src/Delta/Sync.antt =====
-- The four calls of a synchronisation: `Signature::calculate` and `index` of src/signature.rs, `diff`
-- of src/diff.rs, `apply` of src/patch.rs.
use fast_rsync.Base.{
  ℕ, zero, suc, ◌+◌, ◌*◌, ◌^◌, ◌≤◌, ◌<◌, ◌≡◌, refl, ap, ◌∙◌, arith, Option, some, List, [], ◌∷◌,
  ◌++◌, map, Bytes, length, length-map, slice, get_elem?, chunks, ok,
}
use mathlib.Core.Option.{some-injective}
use fast_rsync.Base.Chunks.{slice-chunks}
use fast_rsync.Delta.Rebuild.{IsTrusted, IsNamed}
use fast_rsync.Delta.RoundTrip.{IsUsable, diff-IsDelta}
use fast_rsync.Delta.Vec.{vec_write}
use fast_rsync.Delta.Windows.{window, length-window}
use fast_rsync.Diff.{diff}
use fast_rsync.Md4.Many.{Target, Md4xN}
use fast_rsync.Md4.Many.Contract.{IsRight}
use fast_rsync.Patch.{apply, apply_limited}
use fast_rsync.Base.Words.{usize_max}
use fast_rsync.Signature.{
  Signature, SignatureOptions, SignatureType, calculate, deserialize, serialized,
}
use fast_rsync.Signature.Index.{IndexedSignature, index_loop, index}
use fast_rsync.Signature.Layout.{IsAllowed, signed, calculate-signed}
use fast_rsync.Signature.Lookup.{index_loop-Names}
use fast_rsync.Signature.RoundTrip.{block_key, blocks-signed, deserialize-signed}

-- No window of the data has the checksum and the kept digest of a block of the base but the block
-- itself.
pub record NoCollision (base input : Bytes) (options : SignatureOptions) : Type 0 where
  pub apart :
      (here k : ℕ) (block : Bytes)
      → here + options.block_size ≤ length input
      → get_elem? (chunks options.block_size base) k ≡ some block
      → block_key options.crypto_hash_size block
        ≡ block_key options.crypto_hash_size (window options.block_size here input)
      → block ≡ window options.block_size here input

-- The index of a calculated signature.
unfoldable pub indexed : Bytes → SignatureOptions → IndexedSignature
indexed base options = record {
  signature_type = SignatureType.md4;
  block_size = options.block_size;
  crypto_hash_size = options.crypto_hash_size;
  blocks =
      index_loop 0 (map (block_key options.crypto_hash_size) (chunks options.block_size base)) [];
}

pub index-signed :
    (base : Bytes) (options : SignatureOptions)
    → IsAllowed options
    → index (signed base options) ≡ ok (indexed base options)
unfolding index indexed
index-signed base options allowed = rw (blocks-signed base options allowed) (unfold signed in refl)

get_elem?-map :
    {A B : Type 0} (f : A → B) (xs : List A) (k : ℕ) (y : B)
    → get_elem? (map f xs) k ≡ some y
    → (x : A) × (get_elem? xs k ≡ some x) × (f x ≡ y)
get_elem?-map f [] k y e = cc
get_elem?-map f (x ∷ xs) zero y e = (x, refl, some-injective _ _ e)
get_elem?-map f (x ∷ xs) (suc k) y e = get_elem?-map f xs k y e

pub indexed-IsTrusted :
    (base input : Bytes) (options : SignatureOptions)
    → IsAllowed options
    → length (chunks options.block_size base) ≤ 2 ^ 32
    → NoCollision base input options
    → IsTrusted base input (indexed base options)
unfolding indexed
indexed-IsTrusted base input options allowed few no_collision = record { same = same }
  where
    same :
        (here idx : ℕ)
        → here + options.block_size ≤ length input
        → IsNamed (indexed base options) (window options.block_size here input) idx
        → slice base (idx * options.block_size) (idx * options.block_size + options.block_size)
          ≡ some (window options.block_size here input)
    same here idx inside named =
        let bs = chunks options.block_size base in
        let w = window options.block_size here input in
        let key = block_key options.crypto_hash_size in
        let there =
          index_loop-Names (map key bs) _ _ idx (omega (arith, length-map key bs)) named in
        let (block, at, same_key) = get_elem?-map key bs idx (key w) there in
        let is_w = no_collision.apart here idx block inside at same_key in
        slice-chunks options.block_size base idx w allowed.not_empty (at ∙ ap some is_w)
          (length-window options.block_size here input inside)

-- `calculate` on the base, the signature serialized and read back, `index`, `diff` of the data, and
-- `apply_limited` or `apply` of the delta to the base: each call succeeds, and each of the last two
-- appends the data to the vector that it writes into. The conditions are: options that `calculate`
-- allows, lengths and a number of blocks that their machine words hold, a vector unit that computes
-- MD4, a limit that is not below the length of the data, and no window of the data that has the
-- checksum and the kept digest of a different block of the base.
pub sync-rebuilds :
    {target : Target} (simd : Option (Md4xN target)) (base input out : Bytes)
    (options : SignatureOptions) (limit : ℕ)
    → IsRight simd
    → IsAllowed options
    → length base < 2 ^ 64
    → length input < 2 ^ 64
    → length (chunks options.block_size base) ≤ 2 ^ 32
    → NoCollision base input options
    → length input ≤ limit
    → (s : Signature) × (sig : IndexedSignature) × (delta : Bytes) × (calculate simd base options
        ≡ ok s)
      × (deserialize (serialized s) ≡ ok s)
      × (index s ≡ ok sig)
      × (diff {E = ⊥} sig input [] ≡ ok delta)
      × (apply_limited {E = ⊥} base delta out limit ≡ ok (out ++ input))
      × (apply {E = ⊥} base delta out ≡ ok (out ++ input))
sync-rebuilds simd base input out options limit right allowed base_fits fits few no_collision room =
    let sig = indexed base options in
    let usable : IsUsable sig =
      unfold indexed in
      record { is_md4 = refl; hash_fits = allowed.hash_fits; not_empty = allowed.not_empty } in
    let trusted = indexed-IsTrusted base input options allowed few no_collision in
    let (delta, made, applied) = diff-IsDelta base input sig base_fits fits usable trusted [] in
    (
      signed base options,
      sig,
      delta,
      calculate-signed simd base options right allowed,
      deserialize-signed base options allowed,
      index-signed base options allowed,
      made,
      applied out limit room,
      unfold apply in applied out usize_max (omega arith),
    )
