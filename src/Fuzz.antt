-- ===== src/Fuzz.antt =====
-- The fuzz target of fuzz/src/bin/fuzz.rs: it applies a delta by `apply_limited` and by librsync, and
-- compares the two. librsync is a parameter.
pub mod Format
pub mod LongLiterals
pub mod Agrees
use fast_rsync.Base.{
  ℕ, ◌%◌, ◌^◌, Bool, true, false, not, ◌||◌, ◌&&◌, some, none, [], ◌∷◌, Bytes, length, take, drop,
  slice, ltb, leb, if◌then◌else◌, Outcome, ok, err, panic, stuck, ◌>>=◌, ok_or_panic,
}
use fast_rsync.Base.Keys.{beq_bytes}
use fast_rsync.Base.Words.{from_be_bytes}
use fast_rsync.Delta.Vec.{vec_write}
use fast_rsync.Diff.Command.{u32_max}
use fast_rsync.Patch.{
  ApplyError, wrong_magic, unexpected_eof, output_limit, copy_out_of_bounds, copy_zero,
  unknown_command, trailing_data, io, apply_limited,
}
use text.Mathlib.Text.{◌==◌}

-- `MAX_LEN`
abbrev pub max_len : ℕ
max_len = 2 ^ 28

-- `MAX_OUT`
abbrev pub max_out : ℕ
max_out = 2 ^ 28

-- What a job of librsync leaves: whether it and the copy of its output succeeded, what it has not
-- consumed of the delta, and what stands in the buffer before the cursor.
pub record Patched : Type 0 where
  pub is_ok : Bool
  pub rest : Bytes
  pub output : Bytes

-- `librsync::Patch::with_buf_read` of base data and a delta, copied into a buffer of that many bytes.
abbrev pub Librsync : Type 0
Librsync = Bytes → Bytes → ℕ → Patched

-- `assert!`
abbrev pub assert : Bool → Outcome ⊥ (Unit {0})
assert holds = if holds then ok tt else panic

-- The arm of the error that librsync's truncation of lengths excuses.
unfoldable pub is_long_literal : ApplyError ⊥ → Bool
is_long_literal (wrong_magic magic) = false
is_long_literal (unexpected_eof reading expected available) =
    reading == "literal" && ltb u32_max expected
is_long_literal (output_limit what wanted available) = false
is_long_literal (copy_out_of_bounds offset len data_len) = false
is_long_literal copy_zero = false
is_long_literal (unknown_command command) = false
is_long_literal (trailing_data len) = false
is_long_literal (io e) = false

-- `&[] == librsync_delta_cursor`
abbrev pub is_empty : Bytes → Bool
is_empty bytes = beq_bytes bytes []

-- The `match` on the result of `apply_limited`.
unfoldable pub compare : Outcome (ApplyError ⊥) Bytes → Patched → Outcome ⊥ (Unit {0})
compare (ok out) patched = do
  _ ← assert (leb (length out) max_out)
  _ ← assert patched.is_ok
  _ ← assert (is_empty patched.rest)
  assert (beq_bytes out patched.output)
compare (err e) patched =
    if is_long_literal e then ok tt else assert (not patched.is_ok || not (is_empty patched.rest))
compare panic patched = panic
compare stuck patched = stuck

-- The closure of `fuzz!`; `out_data` is cleared before it is written to.
unfoldable pub fuzz : Librsync → Bytes → Bytes → Outcome ⊥ (Unit {0})
fuzz librsync base_data input =
    let base_len = from_be_bytes (take 4 input) % max_len in
    let delta = drop 4 input in
    if ltb (length input) 4 then ok tt else do
      base ← ok_or_panic (slice base_data 0 base_len)
      compare (apply_limited base delta [] max_out) (librsync base delta max_out)
