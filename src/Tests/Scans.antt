-- ===== src/Tests/Scans.antt =====
-- Runs of the scan of src/diff.rs.
use fast_rsync.Base.{
  ℕ, ◌+◌, ◌*◌, ◌/◌, ◌≤◌, ◌≡◌, refl, arith, none, [], ◌∷◌, Bytes, ok, slice, ◌++◌, length,
  if◌then◌else◌, ltb, err, Write, IoResult, written, failed,
}
use fast_rsync.Base.Words.{to_be_bytes}
use fast_rsync.Base.Keys
use fast_rsync.Base.Keys.{get, entry_or}
use fast_rsync.Crc.{Crc, update}
use fast_rsync.Crc
use fast_rsync.Delta.Vec.{vec_write}
use fast_rsync.Diff.{
  io, Scan, diff_loop, diff, diff_fuel, diff_rounds, match_loop, find_match, match_digest, allowed,
}
use fast_rsync.Diff.Command.{write, insert_bytes, insert_command}
use fast_rsync.Diff.Counters.{IsBounded, diff_loop-IsBounded}
use fast_rsync.Diff.Output.{emit, emit_queued, emit_literal}
use fast_rsync.Diff.Size.{length-diff}
use fast_rsync.Md4.{md4}
use fast_rsync.SecondLayerMap
use fast_rsync.SecondLayerMap.{single}
use fast_rsync.Signature.{SignatureType}
use fast_rsync.Signature.Index.{IndexedSignature, crc_eq}

-- A signature of one block of a byte, by the checksum and no digest byte, under a digest that no
-- window has.
abbrev colliding : IndexedSignature
colliding = record {
  signature_type = SignatureType.md4;
  block_size = 1;
  crypto_hash_size = 0;
  blocks = (record { value = 2097184 }, single (9 ∷ []) 0) ∷ [];
}

abbrev at_start : Scan Bytes
at_start = record {
  here = 0;
  collisions = [];
  state = record { emitted = 0; queued_copy = none };
  out = [];
}

-- A window that collides twice.
abbrev at_end : Scan Bytes
at_end = record {
  here = 2;
  collisions = (record { value = 2097184 }, 2) ∷ [];
  state = record { emitted = 0; queued_copy = none };
  out = [];
}

collides_twice : diff_loop {E = ⊥} 3 colliding (1 ∷ 1 ∷ []) at_start ≡ ok at_end
unfolding diff_loop match_loop find_match match_digest allowed get entry_or update Crc.empty slice
    Crc.combine Crc.split SecondLayerMap.get Keys.beq_bytes Crc.rotate md4
collides_twice = refl

none-IsBounded : IsBounded []
unfolding get
none-IsBounded crc count e = cc

diff_loop-IsBounded_example : IsBounded at_end.collisions
diff_loop-IsBounded_example =
    diff_loop-IsBounded {E = ⊥} colliding (1 ∷ 1 ∷ []) 3 at_start at_end none-IsBounded
      collides_twice

abbrev literal_delta : Bytes
literal_delta = 0x72 ∷ 0x73 ∷ 0x02 ∷ 0x36 ∷ 0x02 ∷ 1 ∷ 1 ∷ 0 ∷ []

collides_made : diff {E = ⊥} colliding (1 ∷ 1 ∷ []) [] ≡ ok literal_delta
unfolding diff diff_fuel diff_rounds diff_loop match_loop find_match match_digest allowed get
    entry_or update Crc.empty slice emit emit_queued emit_literal write insert_command insert_bytes
    to_be_bytes Crc.combine Crc.split SecondLayerMap.get Keys.beq_bytes Crc.rotate md4
collides_made = refl

-- A writer that takes four bytes and then refuses: it holds what it took, and its error is a number.
abbrev pub small_write : Bytes → Bytes → IoResult ℕ Bytes
small_write bytes w = if ltb 4 (length (w ++ bytes)) then failed 28 else written (w ++ bytes)

instance abbrev pub small_writer : Write ℕ Bytes
small_writer = record { write_all = small_write }

refused : diff ⦃writer = small_writer⦄ colliding (1 ∷ 1 ∷ []) [] ≡ err (io 28)
unfolding diff diff_fuel diff_rounds diff_loop match_loop find_match match_digest allowed get
    entry_or update Crc.empty slice emit emit_queued emit_literal write insert_command insert_bytes
    to_be_bytes Crc.combine Crc.split SecondLayerMap.get Keys.beq_bytes Crc.rotate md4
refused = refl

length-diff_example : length literal_delta ≤ 14 + 2 + 26 * (2 / 1)
length-diff_example = length-diff colliding (1 ∷ 1 ∷ []) literal_delta (omega arith) collides_made
