-- ===== src/Diff/Errors.antt =====
-- Which errors `diff` of src/diff.rs returns, and when.
use fast_rsync.Base.{ℕ, Bool, false, leb}
use fast_rsync.Md4.{md4_size}
use fast_rsync.Signature.{SignatureType}
use fast_rsync.Signature.Index.{IndexedSignature, crc_eq}

abbrev supports : SignatureType → ℕ → Bool
supports SignatureType.md4 crypto_hash_size = leb crypto_hash_size md4_size
supports SignatureType.blake2 crypto_hash_size = false

-- The signatures that `diff` takes.
abbrev pub is_supported : IndexedSignature → Bool
is_supported sig = supports sig.signature_type sig.crypto_hash_size
