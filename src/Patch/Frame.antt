-- ===== src/Patch/Frame.antt =====
-- A run of the loop of src/patch.rs that ends well looks at no byte behind its end command, and at no
-- more of the limit than it uses up.
use fast_rsync.Base.{
  ℕ, zero, suc, ◌+◌, ◌-◌, ◌/◌, ◌%◌, ◌^◌, ◌≤◌, ◌≡◌, arith, ◌++◌, Bytes, length, Bool-cases, inl, inr,
  false, ltb, leb, ◌==◌, ◌&&◌, Outcome, ok, ◌>>=◌, bind-ok, Write, from_io,
}
use fast_rsync.Consts.{
  rs_op_end, rs_op_literal_1, rs_op_literal_n8, rs_op_copy_n1_n1, rs_op_copy_n8_n8,
}
use fast_rsync.Patch.{
  ApplyError, io, sub_usize, read_n, read_int, read_varint, literal_length, copied_slice, Cursor,
  safe_extend, apply_literal, apply_copy, apply_command, apply_loop,
}
use Prim.Native.String.{String}
use fast_rsync.Patch.Prefix.{
  ok-injective, read_n-frame, read_int-frame, read_varint-frame, literal_length-frame,
}

-- The same place with more bytes behind it and another limit.
abbrev pub moved : {W : Type 0} → Cursor W → Bytes → ℕ → Cursor W
moved c tail limit = record { delta = c.delta ++ tail; out = c.out; limit = limit }

module _ {E W : Type 0} ⦃writer : Write E W⦄ where
  -- `run` takes `c` to `c'`, also with a longer delta, and with any limit that covers what is written.
  pub record IsFramed (run : Cursor W → Outcome (ApplyError E) (Cursor W)) (c c' : Cursor W)
      : Type 0 where
    pub spends : c'.limit ≤ c.limit
    pub runs :
        (tail : Bytes) (limit : ℕ)
        → c.limit ≤ limit + c'.limit
        → run (moved c tail limit) ≡ ok (moved c' tail (limit + c'.limit - c.limit))

  bind-IsFramed :
      (first next : Cursor W → Outcome (ApplyError E) (Cursor W)) (c c1 c2 : Cursor W)
      → IsFramed first c c1
      → IsFramed next c1 c2
      → IsFramed (λ s. first s >>= next) c c2
  bind-IsFramed first next c c1 c2 f g = record {
    spends = let h = f.spends in let k = g.spends in omega arith;
    runs = λ tail limit room.
        let h = f.spends in
        let k = g.spends in
        let left : limit + c1.limit - c.limit + c2.limit - c1.limit ≡ limit + c2.limit - c.limit =
          omega arith in
        rw (
          f.runs tail limit (omega arith),
          g.runs tail (limit + c1.limit - c.limit) (omega arith),
          left,
        );
  }

  -- What `safe_extend` has to do with the rest of the delta and the limit.
  safe_extend-frame :
      (bytes rest : Bytes) (what : String) (out : W) (limit : ℕ) (c' : Cursor W)
      → safe_extend {E = E} bytes what rest out limit ≡ ok c'
      → (c'.limit ≤ limit)
        × ((tail : Bytes) (limit' : ℕ)
            → limit ≤ limit' + c'.limit
            → safe_extend {E = E} bytes what (rest ++ tail) out limit'
              ≡ ok (moved c' tail (limit' + c'.limit - limit)))
  unfolding safe_extend sub_usize
  safe_extend-frame bytes rest what out limit c' e = elim (Bool-cases (ltb limit (length bytes))) [
    | inl t ↦ let e' = rw t at e in cc
    | inr f ↦
        let room : length bytes ≤ limit = ground arith in
        let (out', last, wrote) =
          bind-ok c' _ (from_io io (writer.write_all bytes out)) (rw f at e) in
        let same = ok-injective _ _ last in
        (
          rw (← same) (omega arith),
          λ tail limit' enough.
              let used : limit ≤ limit' + (limit - length bytes) = rw (← same) at enough in
              let fits : ltb limit' (length bytes) ≡ false = ground arith in
              let left : limit' + (limit - length bytes) - limit ≡ limit' - length bytes =
                omega arith in
              rw (fits, wrote, ← same, left),
        )
  ]

  apply_literal-IsFramed :
      (cmd : ℕ) (c c' : Cursor W)
      → apply_literal {E = E} cmd c ≡ ok c'
      → IsFramed (apply_literal {E = E} cmd) c c'
  unfolding apply_literal
  apply_literal-IsFramed cmd c c' e =
      let (l, next, first) = bind-ok c' _ (literal_length cmd c.delta c.limit) e in
      let (b, last, second) = bind-ok c' _ (read_n l.0 "literal" l.1) next in
      let (spends, writes) = safe_extend-frame b.0 b.1 "literal" c.out c.limit c' last in
      record {
        spends = spends;
        runs = λ tail limit room.
            rw
              (
                literal_length-frame cmd c.delta tail c.limit limit l first,
                read_n-frame l.0 "literal" l.1 tail b second,
              )
              (writes tail limit room);
      }

  apply_copy-IsFramed :
      (base : Bytes) (cmd : ℕ) (c c' : Cursor W)
      → apply_copy {E = E} base cmd c ≡ ok c'
      → IsFramed (apply_copy {E = E} base cmd) c c'
  unfolding apply_copy
  apply_copy-IsFramed base cmd c c' e =
      let mode = cmd - rs_op_copy_n1_n1 in
      let (o, e1, first) = bind-ok c' _ (read_varint (2 ^ (mode / 4)) "copy offset" c.delta) e in
      let (l, e2, second) = bind-ok c' _ (read_varint (2 ^ (mode % 4)) "copy length" o.1) e1 in
      let (bytes, e3, third) = bind-ok c' _ (copied_slice base o.0 l.0) e2 in
      let (spends, writes) = safe_extend-frame bytes l.1 "copy" c.out c.limit c' e3 in
      record {
        spends = spends;
        runs = λ tail limit room.
            rw
              (
                read_varint-frame (2 ^ (mode / 4)) "copy offset" c.delta tail o first,
                read_varint-frame (2 ^ (mode % 4)) "copy length" o.1 tail l second,
                third,
              )
              (writes tail limit room);
      }

  apply_command-IsFramed :
      (base : Bytes) (cmd : ℕ) (c c' : Cursor W)
      → apply_command {E = E} base cmd c ≡ ok c'
      → IsFramed (apply_command {E = E} base cmd) c c'
  unfolding apply_command
  apply_command-IsFramed base cmd c c' e =
      elim (Bool-cases (leb rs_op_literal_1 cmd && leb cmd rs_op_literal_n8)) [
        | inl t ↦
            let f = apply_literal-IsFramed cmd c c' (rw t at e) in
            record { spends = f.spends; runs = λ tail limit room. rw t (f.runs tail limit room) }
        | inr n ↦ elim (Bool-cases (leb rs_op_copy_n1_n1 cmd && leb cmd rs_op_copy_n8_n8)) [
          | inl t ↦
              let f = apply_copy-IsFramed base cmd c c' (rw (n, t) at e) in
              record {
                spends = f.spends;
                runs = λ tail limit room. rw (n, t) (f.runs tail limit room);
              }
          | inr n' ↦ let e' = rw (n, n') at e in cc
        ]
      ]

  -- The loop, with at least as many rounds.
  pub apply_loop-IsFramed :
      (base : Bytes) (fuel fuel' : ℕ) (c c' : Cursor W)
      → fuel ≤ fuel'
      → apply_loop {E = E} fuel base c ≡ ok c'
      → IsFramed (apply_loop {E = E} fuel' base) c c'
  unfolding apply_loop
  apply_loop-IsFramed base zero fuel' c c' more e = cc
  apply_loop-IsFramed base (suc fuel) zero c c' more e = absurd (omega arith)
  apply_loop-IsFramed base (suc fuel) (suc fuel') c c' more e =
      let (r, next, first) = bind-ok c' _ (read_int 1 "cmd" c.delta) e in
      let c1 : Cursor W = record c { delta = r.1 } in
      elim (Bool-cases (r.0 == rs_op_end)) [
        | inl t ↦
            let same = ok-injective _ _ (rw t at next) in
            record {
              spends = rw (← same) (omega arith);
              runs = λ tail limit room.
                  let left : limit + c.limit - c.limit ≡ limit = omega arith in
                  rw (read_int-frame 1 "cmd" c.delta tail r first, t, ← same, left);
            }
        | inr f ↦
            let (c2, last, second) = bind-ok c' _ (apply_command base r.0 c1) (rw f at next) in
            let both =
              bind-IsFramed (apply_command base r.0) (apply_loop fuel' base) c1 c2 c'
                (apply_command-IsFramed base r.0 c1 c2 second)
                (apply_loop-IsFramed base fuel fuel' c2 c' (omega arith) last) in
            record {
              spends = both.spends;
              runs = λ tail limit room.
                  rw (read_int-frame 1 "cmd" c.delta tail r first, f) (both.runs tail limit room);
            }
      ]
