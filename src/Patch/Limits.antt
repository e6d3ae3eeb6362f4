-- ===== src/Patch/Limits.antt =====
-- What `apply_limited` of src/patch.rs has to do with its limit and with bytes behind a delta.
use fast_rsync.Base.{
  ℕ, zero, suc, ◌+◌, ◌-◌, ◌≤◌, ◌≡◌, refl, sym, ap, ◌∙◌, arith, [], ◌∷◌, ◌++◌, append-nil,
  append_assoc, Bytes, length, length-append, Bool-cases, inl, inr, ltb, leb, ◌==◌, ◌&&◌, ok, err,
  bind-ok, Write,
}
use fast_rsync.Consts.{
  delta_magic, rs_op_end, rs_op_literal_1, rs_op_literal_n8, rs_op_copy_n1_n1, rs_op_copy_n8_n8,
}
use fast_rsync.Delta.Vec.{vec_write}
use fast_rsync.Patch.{
  trailing_data, read_int, sub_usize, Cursor, safe_extend, apply_literal, apply_copy, apply_command,
  apply_loop, finish, apply_limited, read_n, literal_length, copied_slice, read_varint,
}
use fast_rsync.Patch.Frame.{apply_loop-IsFramed}
use fast_rsync.Patch.Prefix.{read_int-frame, ok-injective}
use Prim.Native.String.{String}

module _ (E : Type 0) {W : Type 0} ⦃writer : Write E W⦄ where
  -- What a run of `apply_limited` that ends well went through.
  pub record Applied (base delta : Bytes) (out : W) (limit : ℕ) (result : W) : Type 0 where
    pub body : Bytes
    pub last : Cursor W
    pub read : read_int {E = E} 4 "magic" delta ≡ ok (delta_magic, body)
    pub looped :
        apply_loop {E = E}
          (suc (length body))
          base
          (record { delta = body; out = out; limit = limit })
        ≡ ok last
    pub at_end : last.delta ≡ []
    pub is_out : last.out ≡ result

module _ {E W : Type 0} ⦃writer : Write E W⦄ where
  finish-ok :
      (delta : Bytes) (out : W) (limit : ℕ) (result : W)
      → finish {E = E} (record { delta = delta; out = out; limit = limit }) ≡ ok result
      → (delta ≡ []) × (out ≡ result)
  unfolding finish
  finish-ok [] out limit result e = (refl, ok-injective _ _ e)
  finish-ok (x ∷ rest) out limit result e = cc

  pub apply_limited-Applied :
      (base delta : Bytes) (out : W) (limit : ℕ) (result : W)
      → apply_limited {E = E} base delta out limit ≡ ok result
      → Applied E base delta out limit result
  unfolding apply_limited
  apply_limited-Applied base delta out limit result e =
      let (r, next, first) = bind-ok result _ (read_int 4 "magic" delta) e in
      elim (Bool-cases (r.0 == delta_magic)) [
        | inr f ↦ let e' = rw f at next in cc
        | inl t ↦
            let is_magic : r.0 ≡ delta_magic = ground arith in
            let (c, done, looped) =
              bind-ok result finish (apply_loop (suc (length r.1)) base _) (rw t at next) in
            let (at_end, is_out) = finish-ok c.delta c.out c.limit result done in
            record {
              body = r.1;
              last = c;
              read = rw (← is_magic) first;
              looped = looped;
              at_end = at_end;
              is_out = is_out;
            }
      ]

  -- Such a run over a longer delta, and within any limit that covers what it writes.
  apply_limited-moved :
      (base delta : Bytes) (out : W) (limit : ℕ) (result : W) (tail : Bytes) (limit' : ℕ)
      → (a : Applied E base delta out limit result) → limit ≤ limit' + a.last.limit
      → apply_limited {E = E} base (delta ++ tail) out limit'
        ≡ finish (record { delta = tail; out = result; limit = limit' + a.last.limit - limit })
  unfolding apply_limited
  apply_limited-moved base delta out limit result tail limit' a room =
      let more : suc (length a.body) ≤ suc (length (a.body ++ tail)) =
        omega (arith, length-append a.body tail) in
      let f = apply_loop-IsFramed base _ (suc (length (a.body ++ tail))) _ a.last more a.looped in
      rw (
        read_int-frame 4 "magic" delta tail (delta_magic, a.body) a.read,
        f.runs tail limit' room,
        a.at_end,
        a.is_out,
      )

  -- A delta that `apply_limited` accepts is refused with anything behind it, and the error has the
  -- number of the bytes that are too many.
  pub apply_limited-append :
      (base delta : Bytes) (out : W) (limit : ℕ) (result : W) (x : ℕ) (rest : Bytes)
      → apply_limited {E = E} base delta out limit ≡ ok result
      → apply_limited {E = E} base (delta ++ (x ∷ rest)) out limit
        ≡ err (trailing_data (suc (length rest)))
  unfolding finish
  apply_limited-append base delta out limit result x rest e =
      let a = apply_limited-Applied base delta out limit result e in
      apply_limited-moved base delta out limit result (x ∷ rest) limit a (omega arith)

-- What is written into a vector is counted off the limit.
record IsWrote (c c' : Cursor Bytes) : Type 0 where
  bytes : Bytes
  behind : c'.out ≡ c.out ++ bytes
  counted : c'.limit + length bytes ≡ c.limit

IsWrote-trans :
    (c c1 c2 : Cursor Bytes) (bytes : Bytes)
    → c1.out ≡ c.out ++ bytes
    → c1.limit + length bytes ≡ c.limit
    → IsWrote c1 c2
    → IsWrote c c2
IsWrote-trans c c1 c2 bytes behind counted w = record {
  bytes = bytes ++ w.bytes;
  behind = w.behind ∙ ap (λ (t : Bytes). t ++ w.bytes) behind ∙ append_assoc c.out bytes w.bytes;
  counted = omega (arith, w.counted, length-append bytes w.bytes);
}

safe_extend-IsWrote :
    (bytes rest delta : Bytes) (what : String) (out : Bytes) (limit : ℕ) (c' : Cursor Bytes)
    → safe_extend {E = ⊥} bytes what rest out limit ≡ ok c'
    → IsWrote (record { delta = delta; out = out; limit = limit }) c'
unfolding safe_extend sub_usize
safe_extend-IsWrote bytes rest delta what out limit c' e =
    elim (Bool-cases (ltb limit (length bytes))) [
      | inl t ↦ let e' = rw t at e in cc
      | inr f ↦
          let same = ok-injective _ _ (rw f at e) in
          record {
            bytes = bytes;
            behind = rw (← same) refl;
            counted = let room : length bytes ≤ limit = ground arith in rw (← same) (omega arith);
          }
    ]

apply_command-IsWrote :
    (base : Bytes) (cmd : ℕ) (c c' : Cursor Bytes)
    → apply_command {E = ⊥} base cmd c ≡ ok c'
    → IsWrote c c'
unfolding apply_command apply_literal apply_copy
apply_command-IsWrote base cmd c c' e =
    elim (Bool-cases (leb rs_op_literal_1 cmd && leb cmd rs_op_literal_n8)) [
      | inl t ↦
          let (l, next, _) = bind-ok c' _ (literal_length cmd c.delta c.limit) (rw t at e) in
          let (b, last, _) = bind-ok c' _ (read_n l.0 "literal" l.1) next in
          safe_extend-IsWrote b.0 b.1 c.delta "literal" c.out c.limit c' last
      | inr f ↦ elim (Bool-cases (leb rs_op_copy_n1_n1 cmd && leb cmd rs_op_copy_n8_n8)) [
        | inl t ↦
            let (o, e1, _) = bind-ok c' _ (read_varint _ "copy offset" c.delta) (rw (f, t) at e) in
            let (l, e2, _) = bind-ok c' _ (read_varint _ "copy length" o.1) e1 in
            let (bytes, e3, _) = bind-ok c' _ (copied_slice base o.0 l.0) e2 in
            safe_extend-IsWrote bytes l.1 c.delta "copy" c.out c.limit c' e3
        | inr f' ↦ let e' = rw (f, f') at e in cc
      ]
    ]

apply_loop-IsWrote :
    (base : Bytes) (fuel : ℕ) (c c' : Cursor Bytes)
    → apply_loop {E = ⊥} fuel base c ≡ ok c'
    → IsWrote c c'
unfolding apply_loop
apply_loop-IsWrote base zero c c' e = cc
apply_loop-IsWrote base (suc fuel) c c' e =
    let (r, next, _) = bind-ok c' _ (read_int 1 "cmd" c.delta) e in
    elim (Bool-cases (r.0 == rs_op_end)) [
      | inl t ↦
          let same = ok-injective _ _ (rw t at next) in
          record {
            bytes = [];
            behind = rw (← same) (sym (append-nil c.out));
            counted = rw (← same) (omega arith);
          }
      | inr f ↦
          let c1 : Cursor Bytes = record c { delta = r.1 } in
          let (c2, last, first) = bind-ok c' _ (apply_command base r.0 c1) (rw f at next) in
          let v = apply_command-IsWrote base r.0 c1 c2 first in
          IsWrote-trans c c2 c' v.bytes v.behind v.counted (apply_loop-IsWrote base fuel c2 c' last)
    ]

-- What `apply_limited` makes of a delta that it accepts, written into a vector: it appends bytes that
-- the limit covers, and with their number as the limit the result is the same.
pub apply_limited-within :
    (base delta out : Bytes) (limit : ℕ) (result : Bytes)
    → apply_limited {E = ⊥} base delta out limit ≡ ok result
    → (bytes : Bytes) × (result ≡ out ++ bytes)
      × (length bytes ≤ limit)
      × (apply_limited {E = ⊥} base delta out (length bytes) ≡ ok result)
unfolding finish
apply_limited-within base delta out limit result e =
    let a = apply_limited-Applied base delta out limit result e in
    let w = apply_loop-IsWrote base _ _ a.last a.looped in
    (
      w.bytes,
      sym a.is_out ∙ w.behind,
      omega (arith, w.counted),
      rw (← append-nil delta) (
          apply_limited-moved base delta out limit result [] (length w.bytes) a
            (omega (arith, w.counted))),
    )
