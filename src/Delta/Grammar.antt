-- ===== src/Delta/Grammar.antt =====
-- The format of a delta, told apart from the code of src/patch.rs: which bytes are a command and what
-- the command stands for, and which are the commands of a delta up to its end.
pub mod Runs
pub mod Reads
pub mod Parses
pub mod Written
use fast_rsync.Base.{ℕ, ◌+◌, ◌*◌, ◌^◌, ◌≤◌, ◌≡◌, some, slice, [], ◌∷◌, ◌++◌, Bytes, length}
use fast_rsync.Base.Words.{from_be_bytes, usize_max}
use fast_rsync.Consts.{rs_op_end, rs_op_literal_n1, rs_op_copy_n1_n1}

-- `IsCommand base enc made`: the bytes `enc` are one command, which stands for the bytes `made`.
pub data IsCommand (base enc made : Bytes) : Type 0 where
  -- A literal with its length, from 1 to 64, as the command byte.
  short : 1 ≤ length made → length made ≤ 64 → enc ≡ length made ∷ made → IsCommand base enc made
  -- A literal behind a field of 1, 2, 4 or 8 bytes with its length.
  long :
      (k : ℕ) (field : Bytes)
      → k ≤ 3
      → length field ≡ 2 ^ k
      → from_be_bytes field ≡ length made
      → length made ≤ usize_max
      → enc ≡ (rs_op_literal_n1 + k) ∷ (field ++ made)
      → IsCommand base enc made
  -- A copy: a field with an offset in the base data and one with a length that is not 0.
  copy :
      (j k : ℕ) (offset len : Bytes)
      → j ≤ 3
      → k ≤ 3
      → length offset ≡ 2 ^ j
      → length len ≡ 2 ^ k
      → 1 ≤ from_be_bytes len
      → from_be_bytes offset + from_be_bytes len ≤ usize_max
      → slice base (from_be_bytes offset) (from_be_bytes offset + from_be_bytes len) ≡ some made
      → enc ≡ (rs_op_copy_n1_n1 + 4 * j + k) ∷ (offset ++ len)
      → IsCommand base enc made

-- `IsCommands base body made`: the bytes `body` are commands and the end command, and nothing more, and
-- the commands stand for the bytes `made` together.
pub data IsCommands (base : Bytes) : Bytes → Bytes → Type 0 where
  stop : IsCommands base (rs_op_end ∷ []) []
  more :
      (enc xs rest ys : Bytes)
      → IsCommand base enc xs
      → IsCommands base rest ys
      → IsCommands base (enc ++ rest) (xs ++ ys)
