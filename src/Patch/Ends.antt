-- ===== src/Patch/Ends.antt =====
-- `apply_limited` of src/patch.rs ends without a panic, whatever it is given.
use fast_rsync.Base.{
  ℕ, zero, suc, ◌-◌, ◌/◌, ◌%◌, ◌^◌, ◌≤◌, ◌<◌, ◌≡◌, refl, ap, inl, inr, arith, [], ◌∷◌, Bytes,
  length, Bool-cases, ltb, leb, ◌==◌, ◌&&◌, Outcome, ok, bind-ok, IsEnd, bind-IsEnd, Write,
  IoResult, written, failed, from_io,
}
use fast_rsync.Consts.{
  delta_magic, rs_op_end, rs_op_literal_1, rs_op_literal_n8, rs_op_copy_n1_n1, rs_op_copy_n8_n8,
}
use fast_rsync.Delta.Commands.{power_le}
use fast_rsync.Patch.{
  ApplyError, io, sub_usize, read_n, read_int, read_varint, literal_length, copied_slice, Cursor,
  safe_extend, apply_literal, apply_copy, apply_command, apply_loop, finish, apply_limited,
}
use fast_rsync.Patch.Prefix.{ok-injective}
use Prim.Native.String.{String}
use fast_rsync.Patch.Reads.{
  read_n-IsEnd, read_n-length, read_int-IsEnd, read_int-length, read_varint-IsEnd,
  read_varint-length, literal_length-IsEnd, literal_length-length, copied_slice-IsEnd,
}

module _ {E W : Type 0} ⦃writer : Write E W⦄ where
  from_io-IsEnd : (result : IoResult E W) → IsEnd (from_io {F = ApplyError E} io result)
  from_io-IsEnd (written out) = inl (_, refl)
  from_io-IsEnd (failed e) = inr (_, refl)

  safe_extend-IsEnd :
      (bytes rest : Bytes) (what : String) (out : W) (limit : ℕ)
      → IsEnd (safe_extend {E = E} bytes what rest out limit)
  unfolding safe_extend sub_usize
  safe_extend-IsEnd bytes rest what out limit = elim (Bool-cases (ltb limit (length bytes))) [
    | inl t ↦ rw t (inr (_, refl))
    | inr f ↦ rw f (
        bind-IsEnd (from_io io (writer.write_all bytes out)) _
          (from_io-IsEnd (writer.write_all bytes out)) (λ o e. inl (_, refl)))
  ]

  safe_extend-delta :
      (bytes rest : Bytes) (what : String) (out : W) (limit : ℕ) (c' : Cursor W)
      → safe_extend {E = E} bytes what rest out limit ≡ ok c'
      → rest ≡ c'.delta
  unfolding safe_extend sub_usize
  safe_extend-delta bytes rest what out limit c' e = elim (Bool-cases (ltb limit (length bytes))) [
    | inl t ↦ let e' = rw t at e in cc
    | inr f ↦
        let (o, last, wrote) = bind-ok c' _ (from_io io (writer.write_all bytes out)) (rw f at e) in
        ap (λ (c : Cursor W). c.delta) (ok-injective _ _ last)
  ]

  -- A command ends, and leaves no more of the delta than there was.
  record Shrinks (c : Cursor W) (m : Outcome (ApplyError E) (Cursor W)) : Type 0 where
    ends : IsEnd m
    shrinks : (c' : Cursor W) → m ≡ ok c' → length c'.delta ≤ length c.delta

  apply_literal-Shrinks : (cmd : ℕ) (c : Cursor W) → cmd ≤ 0x44 → Shrinks c (apply_literal cmd c)
  unfolding apply_literal
  apply_literal-Shrinks cmd c hi = record {
    ends =
        bind-IsEnd (literal_length cmd c.delta c.limit) _
          (literal_length-IsEnd cmd c.delta c.limit hi)
          (λ l e.
            bind-IsEnd (read_n l.0 "literal" l.1) _ (read_n-IsEnd l.0 "literal" l.1)
              (λ b e'. safe_extend-IsEnd b.0 b.1 "literal" c.out c.limit));
    shrinks = λ c' e.
        let (l, next, first) = bind-ok c' _ (literal_length cmd c.delta c.limit) e in
        let (b, last, second) = bind-ok c' _ (read_n l.0 "literal" l.1) next in
        let rest = safe_extend-delta b.0 b.1 "literal" c.out c.limit c' last in
        let m1 = literal_length-length cmd c.delta c.limit l first in
        let m2 = read_n-length l.0 "literal" l.1 b second in rw (← rest) (omega arith);
  }

  apply_copy-Shrinks :
      (base : Bytes) (cmd : ℕ) (c : Cursor W) → cmd ≤ 0x54 → Shrinks c (apply_copy base cmd c)
  unfolding apply_copy
  apply_copy-Shrinks base cmd c hi = record {
    ends =
        bind-IsEnd (read_varint (2 ^ (mode / 4)) "copy offset" c.delta) _
          (read_varint-IsEnd _ "copy offset" c.delta (power_le (mode / 4) (omega arith)))
          (λ o e.
            bind-IsEnd (read_varint (2 ^ (mode % 4)) "copy length" o.1) _
              (read_varint-IsEnd _ "copy length" o.1 (power_le (mode % 4) (omega arith)))
              (λ l e'.
                bind-IsEnd (copied_slice base o.0 l.0) _ (copied_slice-IsEnd base o.0 l.0)
                  (λ bytes e''. safe_extend-IsEnd bytes l.1 "copy" c.out c.limit)));
    shrinks = λ c' e.
        let (o, e1, first) = bind-ok c' _ (read_varint (2 ^ (mode / 4)) "copy offset" c.delta) e in
        let (l, e2, second) = bind-ok c' _ (read_varint (2 ^ (mode % 4)) "copy length" o.1) e1 in
        let (bytes, e3, third) = bind-ok c' _ (copied_slice base o.0 l.0) e2 in
        let rest = safe_extend-delta bytes l.1 "copy" c.out c.limit c' e3 in
        let m1 = read_varint-length _ "copy offset" c.delta o first in
        let m2 = read_varint-length _ "copy length" o.1 l second in rw (← rest) (omega arith);
  }
    where
      mode : ℕ
      mode = cmd - rs_op_copy_n1_n1

  apply_command-Shrinks :
      (base : Bytes) (cmd : ℕ) (c : Cursor W) → Shrinks c (apply_command base cmd c)
  unfolding apply_command
  apply_command-Shrinks base cmd c =
      elim (Bool-cases (leb rs_op_literal_1 cmd && leb cmd rs_op_literal_n8)) [
        | inl t ↦ rw t (apply_literal-Shrinks cmd c (ground arith))
        | inr f ↦ elim (Bool-cases (leb rs_op_copy_n1_n1 cmd && leb cmd rs_op_copy_n8_n8)) [
          | inl t ↦ rw (f, t) (apply_copy-Shrinks base cmd c (ground arith))
          | inr f' ↦ rw (f, f') (record { ends = inr (_, refl); shrinks = λ c' e. cc })
        ]
      ]

  apply_loop-IsEnd :
      (fuel : ℕ) (base : Bytes) (c : Cursor W)
      → length c.delta < fuel
      → IsEnd (apply_loop {E = E} fuel base c)
  unfolding apply_loop
  apply_loop-IsEnd zero base c enough = absurd (omega arith)
  apply_loop-IsEnd (suc fuel) base c enough =
      bind-IsEnd (read_int 1 "cmd" c.delta) _ (read_int-IsEnd 1 "cmd" c.delta) (λ r e.
        elim (Bool-cases (r.0 == rs_op_end)) [
          | inl t ↦ rw t (inl (_, refl))
          | inr f ↦
              let c1 : Cursor W = record c { delta = r.1 } in
              let left = read_int-length 1 "cmd" c.delta r e in
              let s = apply_command-Shrinks base r.0 c1 in
              rw f (
                bind-IsEnd (apply_command base r.0 c1) (apply_loop fuel base) s.ends
                  (λ c' e'. apply_loop-IsEnd fuel base c' (let h = s.shrinks c' e' in omega arith)))
        ])

  finish-IsEnd :
      (delta : Bytes) (out : W) (limit : ℕ)
      → IsEnd (finish {E = E} (record { delta = delta; out = out; limit = limit }))
  unfolding finish
  finish-IsEnd [] out limit = inl (_, refl)
  finish-IsEnd (x ∷ rest) out limit = inr (_, refl)

  -- Whatever the base, the delta, the writer and the limit, `apply_limited` ends without a panic, in
  -- success or with an error.
  pub apply_limited-IsEnd :
      (base delta : Bytes) (out : W) (limit : ℕ)
      → IsEnd (apply_limited {E = E} base delta out limit)
  unfolding apply_limited
  apply_limited-IsEnd base delta out limit =
      bind-IsEnd (read_int 4 "magic" delta) _ (read_int-IsEnd 4 "magic" delta) (λ r e.
        elim (Bool-cases (r.0 == delta_magic)) [
          | inr f ↦ rw f (inr (_, refl))
          | inl t ↦ rw t (
              bind-IsEnd (apply_loop (suc (length r.1)) base _) finish
                (apply_loop-IsEnd _ base _ (omega arith))
                (λ c e'. finish-IsEnd c.delta c.out c.limit))
        ])
