-- ===== src/Signature/Layout.antt =====
-- The bytes of a calculated signature of src/signature.rs: a header, and a row for each block.
use fast_rsync.Base.{
  ℕ, ◌+◌, ◌^◌, ◌≤◌, ◌<◌, ◌≡◌, refl, sym, ap, ◌∙◌, arith, Option, List, [], ◌∷◌, ◌++◌, append-nil,
  append_assoc, map, Bytes, length, length-append, length-take, take, ok, false, ltb, leb, not,
  chunks, chunks_exact, remainder, unless_empty, Bool-cases, inl, inr, ◌&&◌, if◌then◌else◌, panic,
}
use fast_rsync.Base.Chunks.{IsSized, chunks_exact-IsSized}
use fast_rsync.Base.Words.{to_be_bytes, length-to_be_bytes}
use fast_rsync.Crc.{Crc, crc_size, to_bytes, update}
use fast_rsync.Crc
use fast_rsync.Md4
use fast_rsync.Md4.{digest_bytes}
use fast_rsync.Md4.Many.{Target, Md4xN}
use fast_rsync.Md4.Many.Contract.{digested, IsRight}
use fast_rsync.Md4.Many.Laws.{md4_many-eq-map}
use fast_rsync.Signature.{
  Signature, SignatureOptions, SignatureType, header, add_block, add_blocks, last_item, calculate,
}
use mathlib.Core.List.{flatten, map-append}

pub length-md4 : (input : Bytes) → length (Md4.md4 input) ≡ 16
unfolding Md4.md4
length-md4 input = refl

-- The checksum and the kept part of the digest of a block.
unfoldable pub row : ℕ → Bytes → Bytes
row size block = to_bytes (update Crc.empty block) ++ take size (Md4.md4 block)

pub length-row : (size : ℕ) (block : Bytes) → size ≤ 16 → length (row size block) ≡ 4 + size
unfolding row to_bytes
length-row size block h = omega (
  arith,
  length-append (to_be_bytes 4 (update Crc.empty block).value) (take size (Md4.md4 block)),
  length-to_be_bytes 4 (update Crc.empty block).value,
  length-take size (Md4.md4 block),
  length-md4 block,
)

pub rows-IsSized :
    (size : ℕ) (blocks : List Bytes) → size ≤ 16 → IsSized (4 + size) (map (row size) blocks)
rows-IsSized size [] h = tt
rows-IsSized size (block ∷ blocks) h = (length-row size block h, rows-IsSized size blocks h)

add_blocks-flatten :
    (size : ℕ) (signature : Bytes) (blocks : List Bytes)
    → add_blocks size signature (map digested blocks) ≡ signature ++ flatten (map (row size) blocks)
unfolding add_blocks add_block flatten row
add_blocks-flatten size signature [] = sym (append-nil signature)
add_blocks-flatten size signature (block ∷ blocks) =
    add_blocks-flatten size (add_block size signature (digested block)) blocks ∙ rw append_assoc

last_item-digested : (rest : Bytes) → last_item rest ≡ map digested (unless_empty rest)
unfolding last_item unless_empty
last_item-digested [] = refl
last_item-digested (x ∷ rest) = refl

-- The options that do not panic.
pub record IsAllowed (options : SignatureOptions) : Type 0 where
  pub not_empty : 1 ≤ options.block_size
  pub block_fits : options.block_size < 2 ^ 32
  pub hash_fits : options.crypto_hash_size ≤ 16

-- The signature that `calculate` returns.
unfoldable pub signed : Bytes → SignatureOptions → Signature
signed buf options = record {
  signature_type = SignatureType.md4;
  block_size = options.block_size;
  crypto_hash_size = options.crypto_hash_size;
  signature =
      header options
      ++ flatten (map (row options.crypto_hash_size) (chunks options.block_size buf));
}

-- On options that are allowed, with no vector unit or one that computes MD4, `calculate` does not panic,
-- and returns a header and a row of checksum and kept digest for each block, the last short one
-- included.
pub calculate-signed :
    {target : Target} (simd : Option (Md4xN target)) (buf : Bytes) (options : SignatureOptions)
    → IsRight simd
    → IsAllowed options
    → calculate simd buf options ≡ ok (signed buf options)
unfolding calculate signed
calculate-signed simd buf options right allowed =
    let size = options.crypto_hash_size in
    let full = chunks_exact options.block_size buf in
    let rest = remainder options.block_size buf in
    let some_size : (not (ltb 0 options.block_size)) ≡ false =
      let h = allowed.not_empty in ground arith in
    let hash_ok : (not (leb options.crypto_hash_size 16)) ≡ false =
      let h = allowed.hash_fits in ground arith in
    let digests =
      md4_many-eq-map simd options.block_size full right
        (chunks_exact-IsSized options.block_size buf) in
    let all : map digested full ++ last_item rest ≡ map digested (chunks options.block_size buf) =
      rw last_item-digested (unfold chunks in sym (map-append digested full (unless_empty rest))) in
    rw (some_size, hash_ok, digests)
      (ap
        (λ (bytes : Bytes). ok (record {
          signature_type = SignatureType.md4;
          block_size = options.block_size;
          crypto_hash_size = options.crypto_hash_size;
          signature = bytes;
        }))
        (rw all (add_blocks-flatten size (header options) (chunks options.block_size buf))))

-- With no vector unit or one that computes MD4, and a block size of 32 bits, `calculate` returns a
-- header and a row of checksum and kept digest for each block, the last short one included, where
-- blocks are not empty and 16 bytes of a digest at most are kept, and panics on all other options.
pub calculate_lem :
    {target : Target} (simd : Option (Md4xN target)) (buf : Bytes) (options : SignatureOptions)
    → IsRight simd
    → options.block_size < 2 ^ 32
    → calculate simd buf options ≡ (
        if ltb 0 options.block_size && leb options.crypto_hash_size 16
        then ok (signed buf options)
        else panic)
calculate_lem simd buf options right fits = elim (Bool-cases (ltb 0 options.block_size)) [
  | inr empty ↦ rw empty (unfold calculate in rw empty)
  | inl some_size ↦ elim (Bool-cases (leb options.crypto_hash_size 16)) [
    | inr long ↦ rw (some_size, long) (unfold calculate in rw (some_size, long))
    | inl short ↦
        rw (some_size, short)
          (calculate-signed simd buf options right
            (record { not_empty = ground arith; block_fits = fits; hash_fits = ground arith }))
  ]
]
