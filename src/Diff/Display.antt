-- ===== src/Diff/Display.antt =====
-- The texts of the errors of src/diff.rs.
use fast_rsync.Base.{◌++◌}
use fast_rsync.Base.Text.{Text, text}
use fast_rsync.Diff.{DiffError, invalid_signature, io}

-- `Display` of `DiffError`, over that of an error of the writer.
unfoldable pub display : {E : Type 0} → (E → Text) → DiffError E → Text
display source invalid_signature = text "invalid or unsupported signature for diff"
display source (io e) = text "Encountered IO error when calculating diff: " ++ source e
