-- ===== src/Fuzz/Format.antt =====
-- What fuzz/src/bin/fuzz.rs counts on: librsync implements the format of deltas, but for the lengths of
-- literals, which it truncates to 32 bits.
use fast_rsync.Base.{ℕ, ◌+◌, ◌^◌, ◌≤◌, ◌<◌, ◌≡◌, ◌⊎◌, true, [], ◌∷◌, ◌++◌, Bytes, length}
use fast_rsync.Base.Words.{from_be_bytes, usize_max}
use fast_rsync.Consts.{rs_op_literal_n1}
use fast_rsync.Delta.Apply.{IsMagic}
use fast_rsync.Delta.Grammar.{IsCommand, IsCommands}
use fast_rsync.Diff.Command.{u32_max}
use fast_rsync.Fuzz.{Librsync}

-- A delta of the format that stands for the bytes `made`.
pub record IsDelta (base delta made : Bytes) : Type 0 where
  pub magic : Bytes
  pub body : Bytes
  pub whole : delta ≡ magic ++ body
  pub is_magic : IsMagic magic
  pub commands : IsCommands base body made

-- The beginning of a delta's body: commands, which stand for the bytes `made` together.
pub data AreCommands (base : Bytes) : Bytes → Bytes → Type 0 where
  none_yet : AreCommands base [] []
  one_more :
      (enc xs rest ys : Bytes)
      → IsCommand base enc xs
      → AreCommands base rest ys
      → AreCommands base (enc ++ rest) (xs ++ ys)

-- A delta in which a literal that is longer than 32 bits can say stands behind commands of the format,
-- which stand for no more than `room` bytes.
pub record HasLongLiteral (base delta : Bytes) (room : ℕ) : Type 0 where
  pub magic : Bytes
  pub front : Bytes
  pub made : Bytes
  pub k : ℕ
  pub field : Bytes
  pub tail : Bytes
  pub whole : delta ≡ magic ++ (front ++ ((rs_op_literal_n1 + k) ∷ (field ++ tail)))
  pub is_magic : IsMagic magic
  pub commands : AreCommands base front made
  pub fits : length made ≤ room
  pub k_lt : k ≤ 3
  pub size : length field ≡ 2 ^ k
  pub is_long : u32_max < from_be_bytes field
  pub is_usize : from_be_bytes field ≤ usize_max

-- librsync on deltas of less than 4 GiB, by the format of its documentation: it accepts what has the
-- format, and where it succeeds and consumes all, the delta has the format or a truncated length.
pub record FollowsFormat (librsync : Librsync) : Type 0 where
  pub accepts :
      (base delta made : Bytes) (room : ℕ)
      → length delta ≤ u32_max
      → IsDelta base delta made
      → length made ≤ room
      → librsync base delta room ≡ record { is_ok = true; rest = []; output = made }
  pub refuses :
      (base delta : Bytes) (room : ℕ)
      → (librsync base delta room).is_ok ≡ true
      → (librsync base delta room).rest ≡ []
      → ((made : Bytes) × (IsDelta base delta made) × (length made ≤ room))
        ⊎ HasLongLiteral base delta room
