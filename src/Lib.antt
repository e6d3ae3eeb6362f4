-- ===== src/Lib.antt =====
-- fast_rsync: signatures, deltas and their application, as the Rust crate fast_rsync computes them.
--
-- The parts, and how a synchronisation goes through them. The receiver calls `Signature::calculate` on
-- its base data: for each block of `block_size` bytes a row of a rolling checksum and of the first
-- `crypto_hash_size` bytes of an MD4 digest, behind a header of 12 bytes. The sender reads it by
-- `Signature::deserialize`, makes a two-layer map from checksum to digest to block number by
-- `Signature::index`, and calls `diff` on its data: a window of one block slides over the data, its
-- checksum is rotated byte by byte, and a window that the map knows becomes a copy command, all other
-- bytes literals. The receiver calls `apply` or `apply_limited` on its base and the delta.
--
-- The files:
-- - Base and its children: lists, bytes and machine words, results, writers, and the hash map of
--   std. `Outcome` has the two cases of `Result`, a case for a panic and one for fuel that ran out. A
--   writer (`impl Write`) is a parameter of which only `write_all` is used; Delta/Vec has that of
--   `Vec<u8>`.
-- - Consts: src/consts.rs.
-- - Crc: src/crc.rs. A checksum is a record of one number below 2 ^ 32; `Crc::new` is `Crc.empty`.
--   Crc/Sums has closed forms of both updates, by the sums of Crc/Weights, Crc/Rolling the laws of the
--   operations.
-- - Hasher: src/hasher.rs. A hasher is the number that it holds; `hash_one` is what a map calls.
-- - Md4: src/md4/mod.rs. The macro `md4!` is a section over the operations on a word, `md4` its
--   instance at 32-bit words. Md4/Many has the iterator of `md4_many`; the vector unit that
--   `Md4xN::select` may find is an argument of it.
-- - Md4/Simd: the macro `n_lanes!` of src/md4/mod.rs over a record of its arguments. Its children
--   Rounds, Tail, Ends, Digests and Select follow a lane through `md4xN`. Sse2, Avx2 and Neon have the
--   three instances with the loads of src/md4/x86_simd_transpose.rs and
--   src/md4/aarch64_simd_transpose.rs, and Selection has `Md4xN::select` of each target. The
--   intrinsics of `std::arch` are the fields of a record, and what Intel and Arm document of them are
--   those of another; Words and Wide have registers as words.
-- - SecondLayerMap: src/hashmap_variant.rs.
-- - Signature: src/signature.rs; Signature/Index has `index`, Signature/Format the format of a
--   signature, Signature/Lookup and Signature/Distinct what the index names, the other children have
--   what is shown of them.
-- - Diff: src/diff.rs; Diff/Command has the commands as they are written, Diff/Output the state with
--   the queued copy. Diff/Emits and Diff/Ends are about the end of its loops, Diff/Steps has the scan
--   as a step relation, Diff/Counters what its steps keep, Diff/Digests is about the lookup of a
--   digest, Diff/Returns about runs that return, Diff/Fails and Diff/Errors are about errors, Diff/Stall about blocks of no bytes, Diff/Size about the length of a delta.
-- - Patch: src/patch.rs. Each macro of `apply_limited` and each arm of its loop is a function, and
--   `Cursor` has the variables that the loop changes. Patch/Prefix and Patch/Frame are about a run on
--   a longer delta, Patch/Limits and Patch/Room about the limit, Patch/Reads and Patch/Ends about the end of the
--   loop.
-- - Delta: the two sides of the format together, from one command (Delta/Commands, Delta/Decodes) by
--   the output state (Delta/Writes) and the scan (Delta/Windows, Delta/Rebuild) to the round trip.
--   Delta/Grammar has the format itself, as data types that are told apart from the code. Delta/Sync
--   has the calls of a synchronisation, Delta/Unchanged and Delta/OwnBase data that are not changed.
-- - Fuzz: fuzz/src/bin/fuzz.rs. librsync, to which it compares `apply_limited`, is a parameter; what
--   the target counts on of it is in Fuzz/Format.
-- - The texts of the errors are in Patch/Display, Diff/Display and Signature/Display, as lists of
--   code points; Base/Text has the formats of numbers, Patch/Display/Fields what the text of an error
--   tells.
-- - Tests and its children: runs, and each theorem that has conditions at an input that meets them.
--
-- Loops. Those over a slice are structural. The loop of `apply_limited` has one round more than there
-- are bytes of the delta, as each round reads one. The outer loop of `diff` has one round more than
-- there are bytes of data, and the inner one has one more than are left, as each moves on by a byte if
-- a block is not empty. `md4_many` is read with one round more than there are blocks.
--
-- Panics. A slice or an index out of range, `split_at` past the end, an `assert` that fails and a
-- subtraction of `usize` below 0, which a debug build checks, are the case `panic` of `Outcome` where
-- the code could meet them.
--
-- Numbers are natural numbers, and every cast and every wrapping operation is written out with the
-- remainder; `usize` has 64 bits. Sums of positions in slices do not overflow, as a slice is shorter
-- than 2 ^ 63, and are written plainly.
--
-- The targets of a build (x86, AArch64, others) are a data type; `Md4xN` has its target as a
-- parameter, as its arrays have the length `MAX_LANES` of the target.
--
-- Not modelled: capacities of vectors and maps, the tests and benchmarks, and of the fuzz target how
-- its base data are filled.
pub mod Base
pub mod Consts
pub mod Crc
pub mod Hasher
pub mod Delta
pub mod Fuzz
pub mod Diff
pub mod Md4
pub mod Patch
pub mod SecondLayerMap
pub mod Signature
pub mod Tests
