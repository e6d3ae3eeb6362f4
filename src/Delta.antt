-- ===== src/Delta.antt =====
-- The delta format, which src/diff.rs writes and src/patch.rs reads.
pub mod Vec
pub mod Commands
pub mod Decodes
pub mod Apply
pub mod Writes
pub mod Windows
pub mod Rebuild
pub mod RoundTrip
pub mod Sync
pub mod Unchanged
pub mod OwnBase
pub mod Grammar
