-- ===== src/Diff/Digests.antt =====
-- The part of a digest that src/diff.rs looks up.
use fast_rsync.Base.{
  ℕ, ◌-◌, ◌+◌, ◌≤◌, ◌≡◌, ◌∙◌, refl, ap, arith, Option, some, none, Bytes, slice, slice_in, take,
  Outcome, ok, ok_or_panic, ◌>>=◌,
}
use fast_rsync.Base.Keys.{entry_or, bytes_eq}
use fast_rsync.Crc.{Crc}
use fast_rsync.Diff.{Collisions, match_digest}
use fast_rsync.Md4.{md4}
use fast_rsync.SecondLayerMap.{SecondLayerMap}
use fast_rsync.SecondLayerMap
use fast_rsync.Signature.Index.{IndexedSignature, crc_eq}
use fast_rsync.Signature.Layout.{length-md4}

-- A digest has 16 bytes, so that as many can be taken without a panic.
digest_slice :
    (size : ℕ) (window : Bytes)
    → size ≤ 16
    → slice (md4 window) 0 size ≡ some (take size (md4 window))
digest_slice size window h =
    let whole : size - 0 ≡ size = omega arith in
    slice_in (md4 window) 0 size (omega arith) (omega (arith, length-md4 window))
    ∙ ap (λ (n : ℕ). some (take n (md4 window))) whole

-- What a lookup hands back, where its digest names block `found` in the index.
abbrev pub counted : Crc → Collisions → Option ℕ → Collisions × Option ℕ
counted crc collisions (some idx) = (collisions, some idx)
counted crc collisions none = (entry_or crc 0 (λ count. count + 1) collisions, none)

-- What the lookup does with a digest.
abbrev look_up : {E : Type 0} → Crc → Collisions → Option ℕ → Outcome E (Collisions × Option ℕ)
look_up crc collisions (some idx) = ok (collisions, some idx)
look_up crc collisions none = ok (entry_or crc 0 (λ count. count + 1) collisions, none)

look_up-counted :
    {E : Type 0} (crc : Crc) (collisions : Collisions) (found : Option ℕ)
    → look_up {E = E} crc collisions found ≡ ok (counted crc collisions found)
look_up-counted crc collisions (some idx) = refl
look_up-counted crc collisions none = refl

-- With 16 bytes at most of a digest to look up, the lookup does not panic.
pub match_digest_lem :
    {E : Type 0} (sig : IndexedSignature) (crc : Crc) (collisions : Collisions)
    (blocks : SecondLayerMap Bytes ℕ) (window : Bytes) (found : Option ℕ)
    → sig.crypto_hash_size ≤ 16
    → SecondLayerMap.get (take sig.crypto_hash_size (md4 window)) blocks ≡ found
    → match_digest {E = E} sig crc collisions blocks window ≡ ok (counted crc collisions found)
unfolding match_digest
match_digest_lem {E} sig crc collisions blocks window found short e =
    ap (λ (o : Option Bytes). ok_or_panic o >>= hashed)
      (digest_slice sig.crypto_hash_size window short)
    ∙ ap (look_up crc collisions) e
    ∙ look_up-counted crc collisions found
  where
    hashed : Bytes → Outcome E (Collisions × Option ℕ)
    hashed hash = elim (SecondLayerMap.get hash blocks) [
      | some idx ↦ ok (collisions, some idx)
      | none ↦ ok (entry_or crc 0 (λ count. count + 1) collisions, none)
    ]
