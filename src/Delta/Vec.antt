-- ===== src/Delta/Vec.antt =====
-- `Vec<u8>` as a writer: it takes every byte and never fails.
use fast_rsync.Base.{◌++◌, Bytes, Write, written}

instance abbrev pub vec_write : Write ⊥ Bytes
vec_write = record { write_all = λ bytes out. written (out ++ bytes) }
