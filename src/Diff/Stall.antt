-- ===== src/Diff/Stall.antt =====
-- The scan of src/diff.rs on a signature of empty blocks.
use fast_rsync.Base.{
  ℕ, zero, suc, ◌*◌, ◌≤◌, ◌≡◌, refl, arith, [], ◌++◌, Bytes, length, take, ltb, leb, true, false,
  ◌-◌, slice, slice_in, ok, stuck, none, some, Option,
}
use fast_rsync.Base.Keys.{get, bytes_eq}
use fast_rsync.Base.Words.{to_be_bytes}
use fast_rsync.Consts.{delta_magic}
use fast_rsync.Crc.{Crc, update}
use fast_rsync.Crc
use fast_rsync.Delta.Vec.{vec_write}
use fast_rsync.Diff.Digests.{match_digest_lem}
use fast_rsync.Diff.{Scan, allowed, find_match, match_loop, diff_loop, diff_rounds, diff_fuel}
use fast_rsync.Diff.Output.{emit, copy, queue_copy}
use fast_rsync.Md4.{md4}
use fast_rsync.SecondLayerMap.{SecondLayerMap}
use fast_rsync.SecondLayerMap
use fast_rsync.Signature.{SignatureType}
use fast_rsync.Signature.Index.{IndexedSignature, BlockIndex, crc_eq}

-- An MD4 signature of blocks of no bytes.
abbrev pub zero_sized : ℕ → BlockIndex → IndexedSignature
zero_sized crypto_hash_size blocks = record {
  signature_type = SignatureType.md4;
  block_size = 0;
  crypto_hash_size = crypto_hash_size;
  blocks = blocks;
}

module _ (crypto_hash_size : ℕ) (blocks : BlockIndex) (input : Bytes) (m : SecondLayerMap Bytes ℕ)
    (idx : ℕ) (there : get (update Crc.empty []) blocks ≡ some m)
    (hit : SecondLayerMap.get (take crypto_hash_size (md4 [])) m ≡ some idx)
    (short : crypto_hash_size ≤ 16) where
  abbrev sig : IndexedSignature
  sig = zero_sized crypto_hash_size blocks

  abbrev at_start : Option (ℕ × ℕ) → Bytes → Scan Bytes
  at_start queued out = record {
    here = 0;
    collisions = [];
    state = record { emitted = 0; queued_copy = queued };
    out = out;
  }

  found : find_match {E = ⊥} sig input 0 (update Crc.empty []) [] ≡ ok ([], some idx)
  unfolding find_match allowed get
  found =
      let whole : slice input 0 0 ≡ some [] = slice_in input 0 0 (omega arith) (omega arith) in
      rw (there, whole, match_digest_lem sig (update Crc.empty []) [] m [] (some idx) short hit)

  queued_again :
      (out : Bytes)
      → match_loop {E = ⊥}
          (suc (length input))
          sig
          input
          (update Crc.empty [])
          (at_start (some (0, 0)) out)
        ≡ ok (at_start (some (0, 0)) out)
  unfolding match_loop copy
  queued_again out = let z : idx * 0 ≡ 0 = omega arith in rw (found, z)

  queued_first :
      (out : Bytes)
      → match_loop {E = ⊥} (suc (length input)) sig input (update Crc.empty []) (at_start none out)
        ≡ ok (at_start (some (0, 0)) out)
  unfolding match_loop copy queue_copy emit
  queued_first out = let z : idx * 0 ≡ 0 = omega arith in rw (found, z)

  in_data : ltb (length input) 0 ≡ false
  in_data = ground arith

  no_window : (slice input 0 0 ≡ some []) × (leb 0 (length input - 0) ≡ true)
  no_window = (slice_in input 0 0 (omega arith) (omega arith), ground arith)

  loop_again :
      (fuel : ℕ) (out : Bytes)
      → diff_loop {E = ⊥} fuel sig input (at_start (some (0, 0)) out) ≡ stuck
  unfolding diff_loop
  loop_again zero out = refl
  loop_again (suc fuel) out =
      let z : length input - 0 ≡ length input = omega arith in
      rw (in_data, no_window.1, no_window.0, z, queued_again out) (loop_again fuel out)

  loop_first :
      (fuel : ℕ) (out : Bytes) → diff_loop {E = ⊥} fuel sig input (at_start none out) ≡ stuck
  unfolding diff_loop
  loop_first zero out = refl
  loop_first (suc fuel) out =
      let z : length input - 0 ≡ length input = omega arith in
      rw (in_data, no_window.1, no_window.0, z, queued_first out) (loop_again fuel out)

  -- On an MD4 signature of blocks of no bytes whose index names the empty block, and that keeps 16
  -- bytes of a digest at most, `diff` into a vector does not end, whatever the data: no number of
  -- rounds of its outer loop is enough.
  pub diff_fuel-stuck : (fuel : ℕ) (out : Bytes) → diff_fuel {E = ⊥} fuel sig input out ≡ stuck
  unfolding diff_fuel diff_rounds
  diff_fuel-stuck fuel out =
      let in_range : ltb 16 crypto_hash_size ≡ false = ground arith in
      rw (in_range, loop_first fuel (out ++ to_be_bytes 4 delta_magic))
