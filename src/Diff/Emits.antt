-- ===== src/Diff/Emits.antt =====
-- `OutputState` of src/diff.rs ends each operation without a panic, whatever the writer.
use fast_rsync.Base.{
  ℕ, ◌+◌, ◌-◌, ◌≤◌, ◌<◌, ◌≡◌, refl, inl, inr, arith, [], ◌∷◌, Bytes, false, length, length-take,
  length-drop, take, drop, Bool-cases, ltb, ◌==◌, ◌&&◌, EndsIn, bind-EndsIn, Write, IoResult,
  written, failed, from_io, slice_in, Option, none, some,
}
use fast_rsync.Diff.Command.{
  write, insert_command, insert_bytes, write_varint, varint_bytes, copy_command, size_class_marker,
}
use fast_rsync.Diff.Output.{OutputState, emit_queued, emit_literal, emit, queue_copy, copy}
use fast_rsync.Signature.Index.{crc_eq}

-- What the delta covers, the queued copy included, lies before `here`.
abbrev pub IsBehind : ℕ → OutputState → Type 0
IsBehind here s = elim s.queued_copy [
  | none ↦ s.emitted ≤ here
  | some (offset, len) ↦ s.emitted + len ≤ here
]

abbrev pub Any : {A : Type 0} → A → Type 0
Any a = Unit {0}

module _ {E W : Type 0} ⦃writer : Write E W⦄ where
  pub from_io-EndsIn :
      {F : Type 0} (f : E → F) (result : IoResult E W) → EndsIn Any (from_io f result)
  from_io-EndsIn f (written out) = inl (out, refl, tt)
  from_io-EndsIn f (failed e) = inr (f e, refl)

  pub write-EndsIn : (bytes : Bytes) (out : W) → EndsIn {E = E} Any (write bytes out)
  unfolding write
  write-EndsIn bytes out = from_io-EndsIn _ (writer.write_all bytes out)

  pub insert_command-EndsIn :
      (len : ℕ) (out : W) → 1 ≤ len → EndsIn {E = E} Any (insert_command len out)
  unfolding insert_command
  insert_command-EndsIn len out lo =
      let some_bytes : (len == 0) ≡ false = ground arith in
      rw some_bytes (write-EndsIn (insert_bytes len) out)

  pub copy_command-EndsIn :
      (offset len : ℕ) (out : W) → EndsIn {E = E} Any (copy_command offset len out)
  unfolding copy_command write_varint
  copy_command-EndsIn offset len out =
      bind-EndsIn Any Any (write (size_class_marker offset len ∷ []) out) _ (write-EndsIn _ out)
        (λ out1 u.
          bind-EndsIn Any Any (write (varint_bytes offset) out1) _ (write-EndsIn _ out1)
            (λ out2 u'. write-EndsIn (varint_bytes len) out2))

  pub emit_queued-EndsIn :
      (emitted : ℕ) (queued : Option (ℕ × ℕ)) (until : ℕ) (out : W)
      → IsBehind until (record { emitted = emitted; queued_copy = queued })
      → EndsIn {E = E}
          (λ r. r.0.emitted ≤ until)
          (emit_queued (record { emitted = emitted; queued_copy = queued }) out)
  unfolding emit_queued
  emit_queued-EndsIn emitted none until out behind = inl (_, refl, behind)
  emit_queued-EndsIn emitted (some (offset, len)) until out behind =
      bind-EndsIn Any _ (copy_command offset len out) _ (copy_command-EndsIn offset len out)
        (λ out' u. inl (_, refl, behind))

  pub emit_literal-EndsIn :
      (s : OutputState) (until : ℕ) (input : Bytes) (out : W)
      → s.emitted ≤ until
      → until ≤ length input
      → EndsIn {E = E} (λ r. r.0.emitted ≡ until) (emit_literal s until input out)
  unfolding emit_literal
  emit_literal-EndsIn s until input out lo hi = elim (Bool-cases (ltb s.emitted until)) [
    | inr f ↦ rw f (inl (_, refl, ground arith))
    | inl t ↦
        let less : s.emitted < until = ground arith in
        let part = take (until - s.emitted) (drop s.emitted input) in
        let size : 1 ≤ length part = omega (
          arith,
          length-take (until - s.emitted) (drop s.emitted input),
          length-drop s.emitted input,
        ) in
        rw (t, slice_in input s.emitted until lo hi)
          (bind-EndsIn Any _ (insert_command (length part) out) _
            (insert_command-EndsIn (length part) out size)
            (λ out1 u.
              bind-EndsIn Any _ (write part out1) _ (write-EndsIn part out1)
                (λ out2 u'. inl (_, refl, refl))))
  ]

  pub emit-EndsIn :
      (s : OutputState) (until : ℕ) (input : Bytes) (out : W)
      → IsBehind until s
      → until ≤ length input
      → EndsIn {E = E} (λ r. r.0.emitted ≡ until) (emit s until input out)
  unfolding emit
  emit-EndsIn s until input out behind hi = elim (Bool-cases (s.emitted == until)) [
    | inl t ↦ rw t (inl (_, refl, ground arith))
    | inr f ↦ rw f (
        bind-EndsIn (λ r. r.0.emitted ≤ until) _ (emit_queued s out) _
          (emit_queued-EndsIn s.emitted s.queued_copy until out behind)
          (λ r lo. emit_literal-EndsIn r.0 until input r.1 lo hi))
  ]

  pub queue_copy-EndsIn :
      (s : OutputState) (offset len here : ℕ) (input : Bytes) (out : W)
      → IsBehind here s
      → here ≤ length input
      → EndsIn {E = E} (λ r. IsBehind (here + len) r.0) (queue_copy s offset len here input out)
  unfolding queue_copy
  queue_copy-EndsIn s offset len here input out behind hi =
      bind-EndsIn (λ r. r.0.emitted ≡ here) _ (emit s here input out) _
        (emit-EndsIn s here input out behind hi) (λ r e. inl (_, refl, omega (arith, e)))

  pub copy-EndsIn :
      (emitted : ℕ) (queued : Option (ℕ × ℕ)) (offset len here : ℕ) (input : Bytes) (out : W)
      → IsBehind here (record { emitted = emitted; queued_copy = queued })
      → here ≤ length input
      → EndsIn {E = E}
          (λ r. IsBehind (here + len) r.0)
          (copy (record { emitted = emitted; queued_copy = queued }) offset len here input out)
  unfolding copy
  copy-EndsIn emitted none offset len here input out behind hi =
      queue_copy-EndsIn _ offset len here input out behind hi
  copy-EndsIn emitted (some (o, l)) offset len here input out behind hi =
      elim (Bool-cases (emitted + l == here && o + l == offset)) [
        | inl t ↦ rw t (inl (_, refl, omega (arith, behind)))
        | inr f ↦ rw f (queue_copy-EndsIn _ offset len here input out behind hi)
      ]
