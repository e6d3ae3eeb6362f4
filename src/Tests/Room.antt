-- ===== src/Tests/Room.antt =====
-- A writer with little room, under `apply_limited`.
use fast_rsync.Base.{
  ◌+◌, ◌≤◌, ◌≡◌, refl, arith, false, [], ◌∷◌, ◌++◌, Bytes, length, length-append, ltb, err, written,
  slice,
}
use fast_rsync.Base.Words.{from_be_bytes, from_be}
use fast_rsync.Patch.{
  output_limit, io, split_at, sub_usize, checked_add, read_n, read_int, read_varint, safe_cast,
  literal_length, copied_slice, safe_extend, apply_literal, apply_copy, apply_command, apply_loop,
  finish, apply_limited,
}
use fast_rsync.Patch.Room.{HasRoom, apply_limited-io}
use fast_rsync.Tests.Deltas.{base_56, two_commands}
use fast_rsync.Tests.Scans.{small_write, small_writer}

small_writer-HasRoom : HasRoom small_writer length 4
small_writer-HasRoom = record { takes = takes }
  where
    takes :
        (bytes w : Bytes)
        → length w + length bytes ≤ 4
        → (w' : Bytes) × (small_write bytes w ≡ written w') × (length w' ≡ length w + length bytes)
    takes bytes w fits =
        let sum = length-append w bytes in
        let taken : ltb 4 (length (w ++ bytes)) ≡ false = ground (arith, sum) in
        (w ++ bytes, rw taken, sum)

-- Behind the first command the limit is used up.
limit_reached :
    apply_limited ⦃writer = small_writer⦄ base_56 two_commands (1 ∷ 2 ∷ []) 1
    ≡ err (output_limit "copy" 1 0)
unfolding apply_limited read_int split_at sub_usize checked_add read_n from_be_bytes from_be
    apply_loop apply_command apply_literal literal_length safe_extend apply_copy read_varint
    copied_slice safe_cast slice finish
limit_reached = refl

apply_limited-io_example :
    ¬ (apply_limited ⦃writer = small_writer⦄ base_56 two_commands (1 ∷ 2 ∷ []) 1 ≡ err (io 28))
apply_limited-io_example =
    apply_limited-io ⦃writer = small_writer⦄ length 4 small_writer-HasRoom base_56 two_commands
      (1 ∷ 2 ∷ []) 1 28 (omega arith)
