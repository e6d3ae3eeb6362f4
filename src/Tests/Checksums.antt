-- ===== src/Tests/Checksums.antt =====
-- Runs of src/hasher.rs, and the sizes of checksums of src/crc.rs.
use fast_rsync.Base.{◌≡◌, refl, inl, arith, ok, panic, ◌>>=◌}
use fast_rsync.Crc.{Crc}
use fast_rsync.Hasher.{fresh, write_u32, finish_64, finish_32, hash, hash_one}
use fast_rsync.Hasher.Laws.{hash_one-injective}

-- The checksum of the byte 1.
abbrev crc_of_1 : Crc
crc_of_1 = record { value = 2097184 }

crc_of_1_hashed : hash_one finish_64 crc_of_1 ≡ ok 10613215310882266435
unfolding hash_one hash write_u32 finish_64
crc_of_1_hashed = refl

crc_of_1_hashed_32 : hash_one finish_32 crc_of_1 ≡ ok 1031123382
unfolding hash_one hash write_u32 finish_32
crc_of_1_hashed_32 = refl

-- A second checksum is refused.
hashed_twice : (hash crc_of_1 fresh >>= hash crc_of_1) ≡ panic
unfolding hash write_u32
hashed_twice = refl

hash_one-injective_example : crc_of_1 ≡ crc_of_1
hash_one-injective_example =
    hash_one-injective crc_of_1 crc_of_1 (omega arith) (omega arith) (inl refl)
