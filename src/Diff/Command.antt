-- ===== src/Diff/Command.antt =====
-- The commands of a delta as src/diff.rs writes them.
use fast_rsync.Base.{
  ℕ, ◌+◌, ◌-◌, ◌*◌, ◌^◌, [], ◌∷◌, Bytes, leb, ◌==◌, if◌then◌else◌, Outcome, panic, ◌>>=◌, Write,
  from_io,
}
use fast_rsync.Base.Words.{u8, u16, u32, to_be_bytes}
use fast_rsync.Consts.{
  rs_op_literal_1, rs_op_literal_n1, rs_op_literal_n2, rs_op_literal_n4, rs_op_literal_n8,
  rs_op_copy_n1_n1,
}

abbrev u8_max : ℕ
u8_max = 2 ^ 8 - 1

abbrev u16_max : ℕ
u16_max = 2 ^ 16 - 1

abbrev pub u32_max : ℕ
u32_max = 2 ^ 32 - 1

unfoldable pub u64_size_class : ℕ → ℕ
u64_size_class val =
    if leb val u8_max then 0 else if leb val u16_max then 1 else if leb val u32_max then 2 else 3

unfoldable pub size_class_marker : ℕ → ℕ → ℕ
size_class_marker offset len = rs_op_copy_n1_n1 + u64_size_class offset * 4 + u64_size_class len

-- The bytes that `insert_command` writes in its one call of `write_all`.
unfoldable pub insert_bytes : ℕ → Bytes
insert_bytes len =
    if leb len 64
    then (rs_op_literal_1 + u8 (len - 1)) ∷ []
    else if leb len u8_max
    then rs_op_literal_n1 ∷ u8 len ∷ []
    else if leb len u16_max
    then rs_op_literal_n2 ∷ to_be_bytes 2 (u16 len)
    else if leb len u32_max
    then rs_op_literal_n4 ∷ to_be_bytes 4 (u32 len)
    else rs_op_literal_n8 ∷ to_be_bytes 8 len

-- Those of `write_varint`.
unfoldable pub varint_bytes : ℕ → Bytes
varint_bytes val =
    if leb val u8_max
    then u8 val ∷ []
    else if leb val u16_max
    then to_be_bytes 2 (u16 val)
    else if leb val u32_max
    then to_be_bytes 4 (u32 val)
    else to_be_bytes 8 val

module _ {E W : Type 0} ⦃writer : Write E W⦄ where
  unfoldable pub write : Bytes → W → Outcome E W
  write bytes out = from_io (λ e. e) (writer.write_all bytes out)

  unfoldable pub insert_command : ℕ → W → Outcome E W
  insert_command len out = if len == 0 then panic else write (insert_bytes len) out

  unfoldable pub write_varint : ℕ → W → Outcome E W
  write_varint val out = write (varint_bytes val) out

  unfoldable pub copy_command : ℕ → ℕ → W → Outcome E W
  copy_command offset len out = do
    out1 ← write (size_class_marker offset len ∷ []) out
    out2 ← write_varint offset out1
    write_varint len out2
