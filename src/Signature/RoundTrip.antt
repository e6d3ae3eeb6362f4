-- ===== src/Signature/RoundTrip.antt =====
-- Reading back what `Signature::calculate` of src/signature.rs wrote.
use fast_rsync.Base.{
  append_assoc, ℕ, ◌+◌, ◌%◌, ◌^◌, ◌≤◌, ◌<◌, ◌≡◌, refl, ap, arith, some, List, [], ◌∷◌, ◌++◌, map,
  Bytes, length, length-append, take, drop, take-append, drop-append, ok, false, ltb, chunks,
}
use fast_rsync.Base.Chunks.{chunks-flatten, length-flatten}
use fast_rsync.Base.Words.{
  to_be_bytes, from_be_bytes, from_be, length-to_be_bytes, from_be_bytes-to_be_bytes_4,
}
use fast_rsync.Crc.{Crc, crc_size, to_bytes, from_bytes, update}
use fast_rsync.Crc
use fast_rsync.Crc.Sums.{update-lt}
use fast_rsync.Md4
use fast_rsync.Signature.Layout.{row, rows-IsSized, signed, IsAllowed}
use fast_rsync.Signature.Format.{signature_bytes, signature_bytes-deserialize}
use fast_rsync.Signature.{
  SignatureOptions, SignatureType, header, to_magic, from_magic, deserialize, parse_block,
  parse_blocks, blocks, serialized,
}
use mathlib.Core.List.{flatten}
use native.Mathlib.Nat.{mul-mod_left}

-- The fields of the header stand at their places, whatever follows.
header_fields :
    (options : SignatureOptions) (body : Bytes)
    → IsAllowed options
    → let bytes = header options ++ body in
      (from_magic (take 4 bytes) ≡ some SignatureType.md4)
      × (from_be_bytes (take 4 (drop 4 bytes)) ≡ options.block_size)
      × (from_be_bytes (take 4 (drop 8 bytes)) ≡ options.crypto_hash_size)
      × (length bytes ≡ 12 + length body)
      × (drop 12 bytes ≡ body)
unfolding header to_magic from_magic
header_fields options body allowed =
    let b = options.block_size in
    let c = options.crypto_hash_size in
    let small : c < 2 ^ 32 = let h = allowed.hash_fits in omega arith in
    (
      unfold to_be_bytes from_be_bytes from_be in refl,
      unfold to_be_bytes in from_be_bytes-to_be_bytes_4 b allowed.block_fits,
      unfold to_be_bytes in from_be_bytes-to_be_bytes_4 c small,
      unfold to_be_bytes in omega arith,
      unfold to_be_bytes in refl,
    )

-- A signature calculated on options that are allowed, serialized and read again, is the same
-- signature.
pub deserialize-signed :
    (buf : Bytes) (options : SignatureOptions)
    → IsAllowed options
    → deserialize (serialized (signed buf options)) ≡ ok (signed buf options)
unfolding deserialize serialized signed
deserialize-signed buf options allowed =
    let size = options.crypto_hash_size in
    let rows = map (row size) (chunks options.block_size buf) in
    let n = 4 + size in
    let count =
      length-flatten n rows (rows-IsSized size (chunks options.block_size buf) allowed.hash_fits) in
    let whole : length (flatten rows) % n ≡ 0 = rw count (mul-mod_left (length rows) n) in
    let small : size < 2 ^ 32 = let h = allowed.hash_fits in omega arith in
    let joined : header options ++ flatten rows
        ≡ signature_bytes SignatureType.md4 options.block_size size (flatten rows) =
      unfold header in rw (append_assoc, append_assoc) in
    rw joined (
      signature_bytes-deserialize SignatureType.md4 options.block_size size (flatten rows)
        allowed.block_fits small whole)

-- The checksum and the kept digest of a block.
abbrev pub block_key : ℕ → Bytes → Crc × Bytes
block_key size block = (update Crc.empty block, take size (Md4.md4 block))

from_bytes-to_bytes : (c : Crc) → c.value < 2 ^ 32 → from_bytes (to_bytes c) ≡ c
unfolding from_bytes to_bytes
from_bytes-to_bytes c h = ap (λ (n : ℕ). crc n) (from_be_bytes-to_be_bytes_4 c.value h)
  where
    crc : ℕ → Crc
    crc n = record { value = n }

parse_block-row :
    (size : ℕ) (block : Bytes)
    → size ≤ 16
    → parse_block (row size block) ≡ ok (block_key size block)
unfolding parse_block row
parse_block-row size block h =
    let front = to_bytes (update Crc.empty block) in
    let back = take size (Md4.md4 block) in
    let four : length front ≡ 4 =
      unfold to_bytes in length-to_be_bytes 4 (update Crc.empty block).value in
    let long : ltb (length (front ++ back)) 4 ≡ false = ground (arith, length-append front back) in
    rw (
      long,
      take-append 4 front back four,
      drop-append 4 front back four,
      from_bytes-to_bytes (update Crc.empty block) (update-lt Crc.empty block),
    )

parse_blocks-rows :
    (size : ℕ) (bs : List Bytes)
    → size ≤ 16
    → parse_blocks (map (row size) bs) ≡ ok (map (block_key size) bs)
unfolding parse_blocks
parse_blocks-rows size [] h = refl
parse_blocks-rows size (block ∷ bs) h =
    rw (parse_block-row size block h, parse_blocks-rows size bs h)

-- The rows of a signature calculated on options that are allowed are read back without a panic: the
-- checksum and the kept digest of every block, in order.
pub blocks-signed :
    (buf : Bytes) (options : SignatureOptions)
    → IsAllowed options
    → blocks (signed buf options)
      ≡ ok (map (block_key options.crypto_hash_size) (chunks options.block_size buf))
unfolding blocks signed
blocks-signed buf options allowed =
    let size = options.crypto_hash_size in
    let bs = chunks options.block_size buf in
    let (magic, block_size, hash_size, len, body) =
      header_fields options (flatten (map (row size) bs)) allowed in
    let long : ltb (length (header options ++ flatten (map (row size) bs))) 12 ≡ false =
      ground arith in
    rw
      (
        long,
        body,
        chunks-flatten (4 + size) (map (row size) bs) (omega arith)
            (rows-IsSized size bs allowed.hash_fits),
      )
      (parse_blocks-rows size bs allowed.hash_fits)
