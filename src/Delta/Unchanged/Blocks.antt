-- ===== src/Delta/Unchanged/Blocks.antt =====
-- The scan of src/diff.rs over blocks that the index names in order: all of them join one queued copy.
use fast_rsync.Base.{
  ℕ, zero, suc, ◌+◌, ◌-◌, ◌*◌, ◌≤◌, ◌<◌, ◌≡◌, arith, true, false, Option, none, some, [], Bytes,
  length, slice_in, ok, ltb, leb, ◌==◌, ◌&&◌,
}
use fast_rsync.Base.Keys.{get, bytes_eq}
use fast_rsync.Crc.{update}
use fast_rsync.Crc
use fast_rsync.Delta.Rebuild.{IsNamed}
use fast_rsync.Delta.Vec.{vec_write}
use fast_rsync.Delta.Windows.{window}
use fast_rsync.Diff.Digests.{match_digest_lem}
use fast_rsync.Diff.{Scan, allowed, find_match, match_loop, diff_loop}
use fast_rsync.Diff.Output.{emit, queue_copy, copy}
use native.Mathlib.Nat.{mul-le-mul_right}
use fast_rsync.Signature.Index.{IndexedSignature, crc_eq}

-- The copy that is queued behind `i` blocks.
abbrev pub queued : ℕ → ℕ → Option (ℕ × ℕ)
queued zero block_size = none
queued (suc i) block_size = some (0, suc i * block_size)

abbrev pub behind : IndexedSignature → Bytes → ℕ → Scan Bytes
behind sig out i = record {
  here = i * sig.block_size;
  collisions = [];
  state = record { emitted = 0; queued_copy = queued i sig.block_size };
  out = out;
}

find_match-named :
    (sig : IndexedSignature) (input : Bytes) (here idx : ℕ)
    → let w = window sig.block_size here input in
      here + sig.block_size ≤ length input
      → sig.crypto_hash_size ≤ 16
      → IsNamed sig w idx
      → find_match {E = ⊥} sig input here (update Crc.empty w) [] ≡ ok ([], some idx)
unfolding find_match allowed get
find_match-named sig input here idx inside short (m, there, hit) =
    let back : here + sig.block_size - here ≡ sig.block_size = omega arith in
    let whole = slice_in input here (here + sig.block_size) (omega arith) inside in
    let w = window sig.block_size here input in
    let looked_up = match_digest_lem {E = ⊥} sig (update Crc.empty w) [] m w (some idx) short hit in
    rw (there, whole, back, looked_up)

-- A block behind `i` others joins the queued copy.
copy-behind :
    (i block_size : ℕ) (input out : Bytes)
    → copy {E = ⊥}
        (record { emitted = 0; queued_copy = queued i block_size })
        (i * block_size)
        block_size
        (i * block_size)
        input
        out
      ≡ ok (record { emitted = 0; queued_copy = queued (suc i) block_size }, out)
unfolding copy queue_copy emit
copy-behind zero block_size input out =
    let z : 0 * block_size ≡ 0 = omega arith in
    let one : 1 * block_size ≡ block_size = omega arith in rw (z, one)
copy-behind (suc i) block_size input out =
    let next : suc (suc i) * block_size ≡ suc i * block_size + block_size = omega arith in
    let joins : (0 + suc i * block_size == suc i * block_size
          && 0 + suc i * block_size == suc i * block_size)
        ≡ true =
      ground arith in
    rw (joins, next)

module _ (sig : IndexedSignature) (input : Bytes) (n : ℕ) (lo : 1 ≤ sig.block_size)
    (short : sig.crypto_hash_size ≤ 16) (inside : n * sig.block_size ≤ length input)
    (last : length input < n * sig.block_size + sig.block_size)
    (each : (i : ℕ)
      → i < n
      → IsNamed sig (window sig.block_size (i * sig.block_size) input) i) where
  block-inside : (i : ℕ) → i < n → i * sig.block_size + sig.block_size ≤ length input
  block-inside i h =
      let more : suc i * sig.block_size ≤ n * sig.block_size =
        mul-le-mul_right sig.block_size (omega arith) in
      omega arith

  match_loop-behind :
      (fuel i : ℕ) (out : Bytes)
      → i < n
      → match_loop {E = ⊥}
          (suc fuel)
          sig
          input
          (update Crc.empty (window sig.block_size (i * sig.block_size) input))
          (behind sig out i)
        ≡ ok (behind sig out (suc i))
  unfolding match_loop
  match_loop-behind fuel i out h =
      let next : suc i * sig.block_size ≡ i * sig.block_size + sig.block_size = omega arith in
      let found =
        find_match-named sig input (i * sig.block_size) i (block-inside i h) short (each i h) in
      rw (found, copy-behind i sig.block_size input out, next)

  -- Where the loops of `diff` end.
  pub diff_loop-behind :
      (left fuel i : ℕ) (out : Bytes)
      → i + left ≡ n
      → left < fuel
      → diff_loop {E = ⊥} fuel sig input (behind sig out i) ≡ ok (behind sig out n)
  unfolding diff_loop
  diff_loop-behind left zero i out e enough = absurd (omega arith)
  diff_loop-behind zero (suc fuel) i out e enough =
      let same : i ≡ n = omega arith in
      let in_data : ltb (length input) (n * sig.block_size) ≡ false = ground arith in
      let at_end : leb sig.block_size (length input - n * sig.block_size) ≡ false = ground arith in
      rw (same, in_data, at_end)
  diff_loop-behind (suc left) (suc fuel) i out e enough =
      let room = block-inside i (omega arith) in
      let in_data : ltb (length input) (i * sig.block_size) ≡ false = ground arith in
      let more : leb sig.block_size (length input - i * sig.block_size) ≡ true = ground arith in
      let back : i * sig.block_size + sig.block_size - i * sig.block_size ≡ sig.block_size =
        omega arith in
      let whole =
        slice_in input (i * sig.block_size) (i * sig.block_size + sig.block_size) (omega arith)
          room in
      rw
        (
          in_data,
          more,
          whole,
          back,
          match_loop-behind (length input - i * sig.block_size) i out (omega arith),
        )
        (diff_loop-behind left fuel (suc i) out (omega arith) (omega arith))
