-- ===== src/Signature.antt =====
-- Signatures: src/signature.rs.
pub mod Index
pub mod Layout
pub mod Lookup
pub mod Display
pub mod Distinct
pub mod RoundTrip
pub mod Accepted
pub mod Format
use fast_rsync.Base.{
  ℕ, zero, suc, ◌+◌, ◌-◌, ◌*◌, ◌%◌, Bool, not, ◌&&◌, Option, none, some, List, [], ◌∷◌, ◌++◌, map,
  Bytes, length, take, drop, chunks, chunks_exact, remainder, ltb, leb, ◌==◌, if◌then◌else◌,
  Outcome, ok, err, panic, ◌>>=◌, ok_or,
}
use fast_rsync.Base.Words.{to_be_bytes, from_be_bytes, u32}
use fast_rsync.Consts.{md4_magic, blake2_magic}
use fast_rsync.Crc.{Crc, crc_size, to_bytes, from_bytes, update}
use fast_rsync.Crc
use fast_rsync.Md4
use fast_rsync.Md4.Many.{Target, Md4xN, Item, md4_many}

pub data SignatureType : Type 0 where
  md4 blake2 : SignatureType

unfoldable pub from_magic : Bytes → Option SignatureType
from_magic bytes =
    let magic = from_be_bytes bytes in
    if magic == blake2_magic then some blake2 else if magic == md4_magic then some md4 else none

unfoldable pub to_magic : SignatureType → Bytes
to_magic md4 = to_be_bytes 4 md4_magic
to_magic blake2 = to_be_bytes 4 blake2_magic

pub record Signature : Type 0 where
  pub signature_type : SignatureType
  pub block_size : ℕ
  pub crypto_hash_size : ℕ
  pub signature : Bytes

pub data SignatureParseError : Type 0 where
  invalid : SignatureParseError

pub record SignatureOptions : Type 0 where
  pub block_size : ℕ
  pub crypto_hash_size : ℕ

-- `Signature::HEADER_SIZE`
abbrev pub header_size : ℕ
header_size = 12

unfoldable pub header : SignatureOptions → Bytes
header options =
    to_magic md4 ++ (to_be_bytes 4 options.block_size ++ to_be_bytes 4 options.crypto_hash_size)

-- One round of the loop of `calculate`.
unfoldable pub add_block : ℕ → Bytes → Item → Bytes
add_block crypto_hash_size signature (block, md4_hash) =
    signature ++ (to_bytes (update Crc.empty block) ++ take crypto_hash_size md4_hash)

unfoldable pub add_blocks : ℕ → Bytes → List Item → Bytes
add_blocks size signature [] = signature
add_blocks size signature (item ∷ items) = add_blocks size (add_block size signature item) items

-- The block that `md4_many` leaves over.
unfoldable pub last_item : Bytes → List Item
last_item [] = []
last_item (x ∷ xs) = (x ∷ xs, Md4.md4 (x ∷ xs)) ∷ []

-- `Signature::calculate`; `simd` is the vector unit that the processor has.
unfoldable pub calculate :
    {target : Target} → Option (Md4xN target) → Bytes → SignatureOptions → Outcome ⊥ Signature
calculate simd buf options =
    if not (ltb 0 options.block_size)
    then panic
    else if not (leb options.crypto_hash_size Md4.md4_size)
    then panic
    else do
      items ← md4_many simd (chunks_exact options.block_size buf)
      let all = items ++ last_item (remainder options.block_size buf)
      ok (record {
        signature_type = md4;
        block_size = options.block_size;
        crypto_hash_size = options.crypto_hash_size;
        signature = add_blocks options.crypto_hash_size (header options) all;
      })

unfoldable pub deserialize : Bytes → Outcome SignatureParseError Signature
deserialize signature = if ltb (length signature) header_size then err invalid else do
  signature_type ← ok_or (from_magic (take 4 signature)) invalid
  let block_size = from_be_bytes (take 4 (drop 4 signature))
  let crypto_hash_size = from_be_bytes (take 4 (drop 8 signature))
  let block_signature_size = crc_size + crypto_hash_size
  if not ((length signature - header_size) % block_signature_size == 0)
      then err invalid
      else ok (record {
        signature_type = signature_type;
        block_size = block_size;
        crypto_hash_size = crypto_hash_size;
        signature = signature;
      })

unfoldable pub serialized : Signature → Bytes
serialized s = s.signature

unfoldable pub into_serialized : Signature → Bytes
into_serialized s = s.signature

-- One item of `blocks`; `array_ref!` panics where the chunk is too short.
unfoldable pub parse_block : Bytes → Outcome ⊥ (Crc × Bytes)
parse_block b =
    if ltb (length b) crc_size then panic else ok (from_bytes (take crc_size b), drop crc_size b)

unfoldable pub parse_blocks : List Bytes → Outcome ⊥ (List (Crc × Bytes))
parse_blocks [] = ok []
parse_blocks (b ∷ bs) = do block ← parse_block b; blocks ← parse_blocks bs; ok (block ∷ blocks)

unfoldable pub blocks : Signature → Outcome ⊥ (List (Crc × Bytes))
blocks s =
    if ltb (length s.signature) header_size
    then panic
    else parse_blocks (chunks (crc_size + s.crypto_hash_size) (drop header_size s.signature))
