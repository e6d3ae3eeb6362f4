-- ===== src/Patch.antt =====
-- Applying a delta: `apply_limited` and `apply` of src/patch.rs.
pub mod Prefix
pub mod Frame
pub mod Reads
pub mod Limits
pub mod Ends
pub mod Room
pub mod Display
use fast_rsync.Base.{
  ℕ, zero, suc, ◌+◌, ◌-◌, ◌/◌, ◌%◌, ◌^◌, ◌&&◌, [], ◌∷◌, ◌++◌, Bytes, length, take, drop, replicate,
  slice, ltb, leb, ◌==◌, if◌then◌else◌, Option, some, none, Outcome, ok, err, panic, stuck, ◌>>=◌,
  ok_or, Write, from_io,
}
use fast_rsync.Base.Words.{from_be_bytes, usize_max}
use fast_rsync.Consts.{
  delta_magic, rs_op_end, rs_op_literal_1, rs_op_literal_64, rs_op_literal_n1, rs_op_literal_n8,
  rs_op_copy_n1_n1, rs_op_copy_n8_n8,
}
use Prim.Native.String.{String}

-- `ApplyError`; the fields of a constructor stand in the source's order.
pub data ApplyError (E : Type 0) : Type 0 where
  wrong_magic : ℕ → ApplyError E
  unexpected_eof : String → ℕ → ℕ → ApplyError E
  output_limit : String → ℕ → ℕ → ApplyError E
  copy_out_of_bounds : ℕ → ℕ → ℕ → ApplyError E
  copy_zero : ApplyError E
  unknown_command : ℕ → ApplyError E
  trailing_data : ℕ → ApplyError E
  io : E → ApplyError E

-- `split_at` of a slice, which panics past the end.
unfoldable pub split_at : {E : Type 0} → ℕ → Bytes → Outcome E (Bytes × Bytes)
split_at n bytes = if ltb (length bytes) n then panic else ok (take n bytes, drop n bytes)

-- A subtraction of `usize`, which panics below 0.
unfoldable pub sub_usize : {E : Type 0} → ℕ → ℕ → Outcome E ℕ
sub_usize a b = if ltb a b then panic else ok (a - b)

-- `usize::checked_add`.
unfoldable pub checked_add : ℕ → ℕ → Option ℕ
checked_add a b = if ltb usize_max (a + b) then none else some (a + b)

-- `read_n!`: what was read, and the rest of the delta.
unfoldable pub read_n : {E : Type 0} → ℕ → String → Bytes → Outcome (ApplyError E) (Bytes × Bytes)
read_n n what delta =
    if ltb (length delta) n then err (unexpected_eof what n (length delta)) else split_at n delta

-- `read_int!` at a type of `size` bytes.
unfoldable pub read_int : {E : Type 0} → ℕ → String → Bytes → Outcome (ApplyError E) (ℕ × Bytes)
read_int size what delta = do (b, rest) ← read_n size what delta; ok (from_be_bytes b, rest)

-- `read_varint!`: the bytes are padded in front to a `u64`, which has 8 bytes at most.
unfoldable pub read_varint : {E : Type 0} → ℕ → String → Bytes → Outcome (ApplyError E) (ℕ × Bytes)
read_varint len what delta = do
  padding ← sub_usize 8 len
  (b, rest) ← read_n len what delta
  ok (from_be_bytes (replicate padding 0 ++ b), rest)

-- `safe_cast!` to `usize`.
unfoldable pub safe_cast : {E : Type 0} → ℕ → ApplyError E → Outcome (ApplyError E) ℕ
safe_cast val e = if ltb usize_max val then err e else ok val

-- The length of a literal.
unfoldable pub literal_length : {E : Type 0} → ℕ → Bytes → ℕ → Outcome (ApplyError E) (ℕ × Bytes)
literal_length cmd delta limit =
    if leb cmd rs_op_literal_64 then ok (1 + cmd - rs_op_literal_1, delta) else do
      (val, rest) ← read_varint (2 ^ (cmd - rs_op_literal_n1)) "literal length" delta
      n ← safe_cast val (output_limit "literal" usize_max limit)
      ok (n, rest)

-- The part of the copy arm that finds the slice of `base`.
unfoldable pub copied_slice : {E : Type 0} → Bytes → ℕ → ℕ → Outcome (ApplyError E) Bytes
copied_slice {E} base offset len =
    let oob : ApplyError E = copy_out_of_bounds offset len (length base) in
    do
      offset ← safe_cast offset oob
      len ← safe_cast len oob
      if len == 0
          then err copy_zero
          else do end ← ok_or (checked_add offset len) oob; ok_or (slice base offset end) oob

-- The variables of `apply_limited` that its loop changes.
pub record Cursor (W : Type 0) : Type 0 where
  pub delta : Bytes
  pub out : W
  pub limit : ℕ

module _ {E W : Type 0} ⦃writer : Write E W⦄ where
  -- `safe_extend!`: write a slice within the limit, and go on behind it in the delta.
  unfoldable pub safe_extend : Bytes → String → Bytes → W → ℕ → Outcome (ApplyError E) (Cursor W)
  safe_extend bytes what rest out limit =
      if ltb limit (length bytes) then err (output_limit what (length bytes) limit) else do
        left ← sub_usize limit (length bytes)
        out' ← from_io io (writer.write_all bytes out)
        ok (record { delta = rest; out = out'; limit = left })

  -- The arm `RS_OP_LITERAL_1..=RS_OP_LITERAL_N8`.
  unfoldable pub apply_literal : ℕ → Cursor W → Outcome (ApplyError E) (Cursor W)
  apply_literal cmd c = do
    (n, delta) ← literal_length cmd c.delta c.limit
    (bytes, rest) ← read_n n "literal" delta
    safe_extend bytes "literal" rest c.out c.limit

  -- The arm `RS_OP_COPY_N1_N1..=RS_OP_COPY_N8_N8`.
  unfoldable pub apply_copy : Bytes → ℕ → Cursor W → Outcome (ApplyError E) (Cursor W)
  apply_copy base cmd c =
      let mode = cmd - rs_op_copy_n1_n1 in
      do
        (offset, delta) ← read_varint (2 ^ (mode / 4)) "copy offset" c.delta
        (len, rest) ← read_varint (2 ^ (mode % 4)) "copy length" delta
        bytes ← copied_slice base offset len
        safe_extend bytes "copy" rest c.out c.limit

  -- One command other than the end.
  unfoldable pub apply_command : Bytes → ℕ → Cursor W → Outcome (ApplyError E) (Cursor W)
  apply_command base cmd c =
      if leb rs_op_literal_1 cmd && leb cmd rs_op_literal_n8
      then apply_literal cmd c
      else if leb rs_op_copy_n1_n1 cmd && leb cmd rs_op_copy_n8_n8
      then apply_copy base cmd c
      else err (unknown_command cmd)

  -- The `loop`, with the rounds that are left, and what stands where it breaks.
  unfoldable pub apply_loop : ℕ → Bytes → Cursor W → Outcome (ApplyError E) (Cursor W)
  apply_loop zero base c = stuck
  apply_loop (suc fuel) base c = do
    (cmd, rest) ← read_int 1 "cmd" c.delta
    let c' = record c { delta = rest }
    let next = apply_command base cmd c' >>= apply_loop fuel base
    if cmd == rs_op_end then ok c' else next

  -- The test behind the loop.
  unfoldable pub finish : Cursor W → Outcome (ApplyError E) W
  finish c = elim c.delta [ [] ↦ ok c.out | x ∷ rest ↦ err (trailing_data (length (x ∷ rest))) ]

  -- Every round takes a byte of the delta at least.
  unfoldable pub apply_limited : Bytes → Bytes → W → ℕ → Outcome (ApplyError E) W
  apply_limited base delta out limit = do
    (magic, rest) ← read_int 4 "magic" delta
    let c : Cursor W = record { delta = rest; out = out; limit = limit }
    let run = apply_loop (suc (length rest)) base c >>= finish
    if magic == delta_magic then run else err (wrong_magic magic)

  unfoldable pub apply : Bytes → Bytes → W → Outcome (ApplyError E) W
  apply base delta out = apply_limited base delta out usize_max
