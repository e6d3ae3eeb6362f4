-- ===== src/Hasher.antt =====
-- src/hasher.rs: the hasher of the maps that are keyed by a checksum.
pub mod Laws
use fast_rsync.Base.{ℕ, ◌*◌, ◌/◌, ◌^◌, Bytes, ◌==◌, if◌then◌else◌, Outcome, ok, panic, ◌>>=◌}
use fast_rsync.Base.Words.{wrapping_mul}
use fast_rsync.Base.Xor.{xor_shift}
use fast_rsync.Crc.{Crc}

-- `CrcHasher`
pub record CrcHasher : Type 0 where
  pub state : ℕ

-- `CrcHasher::default()`, as `#[derive(Default)]` makes it and `BuildCrcHasher` calls it.
abbrev pub fresh : CrcHasher
fresh = record { state = 0 }

-- `write`
unfoldable pub write_any : CrcHasher → Bytes → Outcome ⊥ CrcHasher
write_any hasher bytes = panic

unfoldable pub write_u32 : CrcHasher → ℕ → Outcome ⊥ CrcHasher
write_u32 hasher val = if hasher.state == 0 then ok (record { state = val }) else panic

-- `finish` of a 64-bit target, and of a 32-bit one.
unfoldable pub finish_64 : CrcHasher → ℕ
finish_64 hasher =
    let val0 = xor_shift 33 hasher.state in
    let val1 = wrapping_mul 64 val0 0xC2B2AE3D27D4EB4F in
    let val2 = xor_shift 29 val1 in
    let val3 = wrapping_mul 64 val2 0x165667B19E3779F9 in xor_shift 32 val3

unfoldable pub finish_32 : CrcHasher → ℕ
finish_32 hasher =
    let val0 = xor_shift 15 hasher.state in
    let val1 = wrapping_mul 32 val0 0x85EBCA77 in
    let val2 = xor_shift 13 val1 in let val3 = wrapping_mul 32 val2 0xC2B2AE3D in xor_shift 16 val3

-- `impl Hash for Crc`
unfoldable pub hash : Crc → CrcHasher → Outcome ⊥ CrcHasher
hash crc hasher = write_u32 hasher crc.value

-- The hash of a key of a map, `hash_one` of its `BuildHasher`, with the `finish` of the target.
unfoldable pub hash_one : (CrcHasher → ℕ) → Crc → Outcome ⊥ ℕ
hash_one finish crc = do hasher ← hash crc fresh; ok (finish hasher)
