-- ===== src/Delta/Writes.antt =====
-- What the output state of src/diff.rs writes into a `Vec<u8>`: a delta of the data so far.
use fast_rsync.Base.{
  ℕ, ◌+◌, ◌-◌, ◌^◌, ◌≤◌, ◌<◌, ◌≡◌, refl, ap, subst, arith, ◌++◌, append_assoc, Bytes, length,
  length-take, length-drop, take, drop, take-add, slice, slice_in, ok, Option, none, some,
  Bool-cases, inl, inr, false, ltb, ◌==◌, ◌&&◌,
}
use fast_rsync.Delta.Decodes.{Decodes, Decodes-append, Decodes-literal, Decodes-copy, copy_bytes}
use fast_rsync.Base.Slices.{slice_fits, slice-join}
use fast_rsync.Delta.Vec.{vec_write}
use fast_rsync.Diff.Command.{write, write_varint, insert_command, copy_command, insert_bytes}
use fast_rsync.Diff.Output.{OutputState, emit_queued, emit_literal, emit, queue_copy, copy}

abbrev state : ℕ → Option (ℕ × ℕ) → OutputState
state emitted queued = record { emitted = emitted; queued_copy = queued }

-- Behind the bytes `pre` stands a delta that makes the first `n` bytes of `input` out of `base`.
pub record IsWritten (pre base input : Bytes) (n : ℕ) (out : Bytes) : Type 0 where
  pub enc : Bytes
  pub shape : out ≡ pre ++ enc
  pub decodes : Decodes base enc (take n input)

-- The queued copy lies before `here` and copies the next bytes of the data.
abbrev pub IsQueued : Bytes → Bytes → ℕ → ℕ → Option (ℕ × ℕ) → Type 0
IsQueued base input here emitted none = emitted ≤ here
IsQueued base input here emitted (some (offset, len)) =
    (emitted + len ≤ here)
    × (1 ≤ len)
    × (slice base offset (offset + len) ≡ some (take len (drop emitted input)))

module _ (pre base input : Bytes) (base_fits : length base < 2 ^ 64)
    (fits : length input < 2 ^ 64) where
  -- More bytes behind a delta.
  IsWritten-append :
      (n m : ℕ) {out : Bytes} (more : Bytes)
      → IsWritten pre base input n out
      → n ≤ m
      → Decodes base more (take (m - n) (drop n input))
      → IsWritten pre base input m (out ++ more)
  IsWritten-append n m more w le d = record {
    enc = w.enc ++ more;
    shape = rw w.shape (append_assoc pre w.enc more);
    decodes = rw (← take-add n (m - n) m input (omega arith)) (Decodes-append w.decodes d);
  }

  -- The queued copy goes out first.
  emit_queued-IsWritten :
      (here emitted : ℕ) (queued : Option (ℕ × ℕ)) (out : Bytes)
      → IsQueued base input here emitted queued
      → IsWritten pre base input emitted out
      → (n : ℕ) × (out' : Bytes) × (emit_queued {E = ⊥} (state emitted queued) out
          ≡ ok (state n queued, out'))
        × (n ≤ here)
        × IsWritten pre base input n out'
  unfolding emit_queued copy_command write_varint write
  emit_queued-IsWritten here emitted none out q w = (emitted, out, refl, q, w)
  emit_queued-IsWritten here emitted (some (offset, len)) out (below, lo, e) w =
      let inside = slice_fits base _ offset (offset + len) e in
      let back : emitted + len - emitted ≡ len = omega arith in
      (
        emitted + len,
        out ++ copy_bytes offset len,
        rw (append_assoc, append_assoc),
        below,
        IsWritten-append emitted (emitted + len) (copy_bytes offset len) w (omega arith)
            (rw back (Decodes-copy base _ offset len lo (omega arith) e)),
      )

  -- Then the bytes that no copy covers.
  emit_literal-IsWritten :
      (emitted until : ℕ) (queued : Option (ℕ × ℕ)) (out : Bytes)
      → emitted ≤ until
      → until ≤ length input
      → IsWritten pre base input emitted out
      → (out' : Bytes) × (emit_literal {E = ⊥} (state emitted queued) until input out
          ≡ ok (state until queued, out'))
        × IsWritten pre base input until out'
  unfolding emit_literal insert_command write
  emit_literal-IsWritten emitted until queued out le top w = elim (Bool-cases (ltb emitted until)) [
    | inl t ↦
        let lit : Bytes = take (until - emitted) (drop emitted input) in
        let len : length lit ≡ until - emitted =
          omega (
            arith,
            length-take (until - emitted) (drop emitted input),
            length-drop emitted input,
          ) in
        let lt : emitted < until = ground arith in
        let ne : (length lit == 0) ≡ false = ground arith in
        (
          out ++ (insert_bytes (length lit) ++ lit),
          rw (t, slice_in input emitted until le top, ne, append_assoc),
          IsWritten-append emitted until (insert_bytes (length lit) ++ lit) w le
              (Decodes-literal base lit (omega arith) (omega arith)),
        )
    | inr f ↦
        let e : emitted ≡ until = ground arith in
        (
          out,
          rw f (ap (λ (n : ℕ). ok (state n queued, out)) e),
          subst (λ n. IsWritten pre base input n out) e w,
        )
  ]

  -- After `emit` the delta makes the data up to `until`.
  pub emit-IsWritten :
      (here emitted until : ℕ) (queued : Option (ℕ × ℕ)) (out : Bytes)
      → here ≤ until
      → until ≤ length input
      → IsQueued base input here emitted queued
      → IsWritten pre base input emitted out
      → (out' : Bytes) × (emit {E = ⊥} (state emitted queued) until input out
          ≡ ok (state until queued, out'))
        × IsWritten pre base input until out'
  unfolding emit
  emit-IsWritten here emitted until queued out le top q w = elim (Bool-cases (emitted == until)) [
    | inl t ↦
        let e : emitted ≡ until = ground arith in
        (
          out,
          rw t (ap (λ (n : ℕ). ok (state n queued, out)) e),
          subst (λ n. IsWritten pre base input n out) e w,
        )
    | inr f ↦
        let (n, out1, e1, n_le, w1) = emit_queued-IsWritten here emitted queued out q w in
        let (out2, e2, w2) = emit_literal-IsWritten n until queued out1 (omega arith) top w1 in
        (out2, rw (f, e1) e2, w2)
  ]

  -- What the loop of `diff` keeps: the delta so far, and the queued copy.
  pub record Covers (here : ℕ) (s : OutputState) (out : Bytes) : Type 0 where
    pub inside : here ≤ length input
    pub queued : IsQueued base input here s.emitted s.queued_copy
    pub written : IsWritten pre base input s.emitted out

  queue_copy-Covers :
      (offset len here : ℕ) (s : OutputState) (out : Bytes)
      → 1 ≤ len
      → here + len ≤ length input
      → slice base offset (offset + len) ≡ some (take len (drop here input))
      → Covers here s out
      → (s' : OutputState) × (out' : Bytes) × (queue_copy {E = ⊥} s offset len here input out
          ≡ ok (s', out'))
        × Covers (here + len) s' out'
  unfolding queue_copy
  queue_copy-Covers offset len here s out lo top e c =
      let (out', e', w) =
        emit-IsWritten here s.emitted here s.queued_copy out (omega arith) c.inside c.queued
          c.written in
      (
        state here (some (offset, len)),
        out',
        rw e',
        record { inside = top; queued = (omega arith, lo, e); written = w },
      )

  copy_at-Covers :
      (offset len here emitted : ℕ) (queued : Option (ℕ × ℕ)) (out : Bytes)
      → 1 ≤ len
      → here + len ≤ length input
      → slice base offset (offset + len) ≡ some (take len (drop here input))
      → Covers here (state emitted queued) out
      → (s' : OutputState) × (out' : Bytes) × (copy {E = ⊥}
            (state emitted queued)
            offset
            len
            here
            input
            out
          ≡ ok (s', out'))
        × Covers (here + len) s' out'
  unfolding copy
  copy_at-Covers offset len here emitted none out lo top e c =
      queue_copy-Covers offset len here (state emitted none) out lo top e c
  copy_at-Covers offset len here emitted (some (qo, ql)) out lo top e c =
      elim (Bool-cases (emitted + ql == here && qo + ql == offset)) [
        | inl t ↦
            let (below, ql_lo, e1) = c.queued in
            let p : emitted + ql ≡ here = ground arith in
            let q : qo + ql ≡ offset = ground arith in
            (
              state emitted (some (qo, ql + len)),
              out,
              rw t,
              record {
                inside = top;
                queued = (
                  omega arith,
                  omega arith,
                  slice-join base input offset here qo ql emitted len p q e1 e,
                );
                written = c.written;
              },
            )
        | inr f ↦
            let (s', out', e', c') =
              queue_copy-Covers offset len here (state emitted (some (qo, ql))) out lo top e c in
            (s', out', rw f e', c')
      ]

  -- `copy` of a match at `here` covers the block behind it, too.
  pub copy-Covers :
      (offset len here : ℕ) (s : OutputState) (out : Bytes)
      → 1 ≤ len
      → here + len ≤ length input
      → slice base offset (offset + len) ≡ some (take len (drop here input))
      → Covers here s out
      → (s' : OutputState) × (out' : Bytes) × (copy {E = ⊥} s offset len here input out
          ≡ ok (s', out'))
        × Covers (here + len) s' out'
  copy-Covers offset len here s out = copy_at-Covers offset len here s.emitted s.queued_copy out
