-- ===== src/Signature/Display.antt =====
-- The text of the error of src/signature.rs.
use fast_rsync.Base.Text.{Text, text}
use fast_rsync.Signature.{SignatureParseError}

-- `Display` of `SignatureParseError`
unfoldable pub display : SignatureParseError → Text
display e = text "invalid or unsupported signature"
