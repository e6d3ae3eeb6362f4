-- ===== src/Diff/Output.antt =====
-- `OutputState` of src/diff.rs: how far the delta covers the data, and a copy that may still grow.
use fast_rsync.Base.{
  ℕ, ◌+◌, ◌&&◌, Option, none, some, Bytes, length, slice, ltb, ◌==◌, if◌then◌else◌, Outcome, ok,
  ◌>>=◌, ok_or_panic, Write,
}
use fast_rsync.Diff.Command.{write, insert_command, copy_command}

pub record OutputState : Type 0 where
  pub emitted : ℕ
  pub queued_copy : Option (ℕ × ℕ)

module _ {E W : Type 0} ⦃writer : Write E W⦄ where
  -- `if let Some((offset, len)) = self.queued_copy { … }` in `emit`
  unfoldable pub emit_queued : OutputState → W → Outcome E (OutputState × W)
  emit_queued s out = elim s.queued_copy [
    | none ↦ ok (s, out)
    | some (offset, len) ↦ do
      out' ← copy_command offset len out
      ok (record s { emitted = s.emitted + len }, out')
  ]

  -- `if self.emitted < until { … }` in `emit`
  unfoldable pub emit_literal : OutputState → ℕ → Bytes → W → Outcome E (OutputState × W)
  emit_literal s until input out =
      if ltb s.emitted until
      then (do
        to_emit ← ok_or_panic (slice input s.emitted until)
        out1 ← insert_command (length to_emit) out
        out2 ← write to_emit out1
        ok (record s { emitted = until }, out2))
      else ok (s, out)

  unfoldable pub emit : OutputState → ℕ → Bytes → W → Outcome E (OutputState × W)
  emit s until input out =
      if s.emitted == until
      then ok (s, out)
      else do (s', out') ← emit_queued s out; emit_literal s' until input out'

  -- The end of `copy`, where the queued copy cannot be extended.
  unfoldable pub queue_copy : OutputState → ℕ → ℕ → ℕ → Bytes → W → Outcome E (OutputState × W)
  queue_copy s offset len here input out = do
    (s', out') ← emit s here input out
    ok (record s' { queued_copy = some (offset, len) }, out')

  unfoldable pub copy : OutputState → ℕ → ℕ → ℕ → Bytes → W → Outcome E (OutputState × W)
  copy s offset len here input out = elim s.queued_copy [
    | none ↦ queue_copy s offset len here input out
    | some (queued_offset, queued_len) ↦
        if s.emitted + queued_len == here && queued_offset + queued_len == offset
        then ok (record s { queued_copy = some (queued_offset, queued_len + len) }, out)
        else queue_copy s offset len here input out
  ]
