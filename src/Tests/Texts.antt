-- ===== src/Tests/Texts.antt =====
-- Texts of errors.
use fast_rsync.Base.{ℕ, ◌≡◌, refl}
use fast_rsync.Base.Text.{Text, text, digit, digits, decimal, hex}
use fast_rsync.Diff.{DiffError}
use fast_rsync.Diff.Display as DiffDisplay
use fast_rsync.Patch.{ApplyError, unexpected_eof, wrong_magic, unknown_command}
use fast_rsync.Patch.Display.{display}

-- The text of a writer's error that is a number.
abbrev os_error : ℕ → Text
os_error n = text "os error"

abbrev cut_short : ApplyError ℕ
cut_short = unexpected_eof "cmd" 300 2

cut_short-text :
    display os_error cut_short
    ≡ text "unexpected end of input when reading cmd (expected=300, available=2)"
unfolding display decimal digits digit
cut_short-text = refl

magic_text : display os_error (wrong_magic 0x72730136) ≡ text "incorrect magic: 0x72730136"
unfolding display hex digits digit
magic_text = refl

command_text : display os_error (unknown_command 5) ≡ text "unexpected command byte: 0x05"
unfolding display hex digits digit
command_text = refl

failed_text :
    DiffDisplay.display os_error (DiffError.io 28)
    ≡ text "Encountered IO error when calculating diff: os error"
unfolding DiffDisplay.display
failed_text = refl
