-- ===== src/Patch/Display.antt =====
-- The texts of the errors of src/patch.rs.
pub mod Scan
pub mod Fields
use fast_rsync.Base.{ℕ, ◌++◌}
use fast_rsync.Base.Text.{Text, text, decimal, hex}
use fast_rsync.Patch.{
  ApplyError, wrong_magic, unexpected_eof, output_limit, copy_out_of_bounds, copy_zero,
  unknown_command, trailing_data, io,
}

-- `Display` of `ApplyError`, over that of an error of the writer.
unfoldable pub display : {E : Type 0} → (E → Text) → ApplyError E → Text
display source (wrong_magic magic) = text "incorrect magic: 0x" ++ hex 8 magic
display source (unexpected_eof reading expected available) =
    text "unexpected end of input when reading "
    ++ (text reading
        ++ (text " (expected="
            ++ (decimal expected ++ (text ", available=" ++ (decimal available ++ text ")")))))
display source (output_limit what wanted available) =
    text "exceeded output size limit when writing "
    ++ (text what
        ++ (text " (wanted="
            ++ (decimal wanted ++ (text ", available=" ++ (decimal available ++ text ")")))))
display source (copy_out_of_bounds offset len data_len) =
    text "requested copy is out of bounds (offset="
    ++ (decimal offset
        ++ (text ", len="
            ++ (decimal len ++ (text ", data_len=" ++ (decimal data_len ++ text ")")))))
display source copy_zero = text "copy length is empty"
display source (unknown_command command) = text "unexpected command byte: 0x" ++ hex 2 command
display source (trailing_data len) =
    text "unexpected data after end command (len=" ++ (decimal len ++ text ")")
display source (io e) = text "io error while writing the output (source=" ++ (source e ++ text ")")
