-- ===== src/Patch/Reads.antt =====
-- What `apply_limited` of src/patch.rs reads from a delta: each read ends, and leaves less of it.
use fast_rsync.Base.{
  ℕ, ◌+◌, ◌-◌, ◌^◌, ◌≤◌, ◌≡◌, refl, inl, inr, arith, false, Bytes, length, length-drop, Bool-cases,
  ltb, leb, ◌==◌, ok, bind-ok, IsEnd, bind-IsEnd, slice, ok_or, Option, none, some,
}
use fast_rsync.Base.Words.{usize_max}
use fast_rsync.Consts.{rs_op_literal_64, rs_op_literal_n1}
use fast_rsync.Delta.Commands.{power_le}
use fast_rsync.Patch.{
  ApplyError, split_at, sub_usize, checked_add, output_limit, read_n, read_int, read_varint,
  safe_cast, literal_length, copied_slice,
}
use fast_rsync.Patch.Prefix.{ok-injective}
use Prim.Native.String.{String}

module _ {E : Type 0} where
  pub read_n-IsEnd : (n : ℕ) (what : String) (delta : Bytes) → IsEnd (read_n {E = E} n what delta)
  unfolding read_n split_at
  read_n-IsEnd n what delta = elim (Bool-cases (ltb (length delta) n)) [
    | inl t ↦ rw t (inr (_, refl))
    | inr f ↦ rw f (inl (_, refl))
  ]

  -- What is left of the delta.
  pub read_n-length :
      (n : ℕ) (what : String) (delta : Bytes) (r : Bytes × Bytes)
      → read_n {E = E} n what delta ≡ ok r
      → length r.1 + n ≡ length delta
  unfolding read_n split_at
  read_n-length n what delta r e = elim (Bool-cases (ltb (length delta) n)) [
    | inl t ↦ let e' = rw t at e in cc
    | inr f ↦
        let same = ok-injective _ _ (rw f at e) in
        let room : n ≤ length delta = ground arith in
        rw (← same) (omega (arith, length-drop n delta))
  ]

  pub read_int-IsEnd :
      (size : ℕ) (what : String) (delta : Bytes) → IsEnd (read_int {E = E} size what delta)
  unfolding read_int
  read_int-IsEnd size what delta =
      bind-IsEnd (read_n size what delta) _ (read_n-IsEnd size what delta) (λ r e. inl (_, refl))

  pub read_int-length :
      (size : ℕ) (what : String) (delta : Bytes) (r : ℕ × Bytes)
      → read_int {E = E} size what delta ≡ ok r
      → length r.1 + size ≡ length delta
  unfolding read_int
  read_int-length size what delta r e =
      let (b, next, first) = bind-ok r _ (read_n size what delta) e in
      let same = ok-injective _ _ next in rw (← same) (read_n-length size what delta b first)

  pub read_varint-IsEnd :
      (size : ℕ) (what : String) (delta : Bytes)
      → size ≤ 8
      → IsEnd (read_varint {E = E} size what delta)
  unfolding read_varint sub_usize
  read_varint-IsEnd size what delta small =
      let few : ltb 8 size ≡ false = ground arith in
      rw few (
        bind-IsEnd (read_n size what delta) _ (read_n-IsEnd size what delta) (λ r e. inl (_, refl)))

  pub read_varint-length :
      (size : ℕ) (what : String) (delta : Bytes) (r : ℕ × Bytes)
      → read_varint {E = E} size what delta ≡ ok r
      → length r.1 + size ≡ length delta
  unfolding read_varint
  read_varint-length size what delta r e =
      let (padding, e', _) = bind-ok r _ (sub_usize {E = ApplyError E} 8 size) e in
      let (b, next, first) = bind-ok r _ (read_n size what delta) e' in
      let same = ok-injective _ _ next in rw (← same) (read_n-length size what delta b first)

  pub safe_cast-IsEnd : (val : ℕ) (e : ApplyError E) → IsEnd (safe_cast val e)
  unfolding safe_cast
  safe_cast-IsEnd val e = elim (Bool-cases (ltb usize_max val)) [
    | inl t ↦ rw t (inr (_, refl))
    | inr f ↦ rw f (inl (_, refl))
  ]

  pub literal_length-IsEnd :
      (cmd : ℕ) (delta : Bytes) (limit : ℕ)
      → cmd ≤ 0x44
      → IsEnd (literal_length {E = E} cmd delta limit)
  unfolding literal_length
  literal_length-IsEnd cmd delta limit hi = elim (Bool-cases (leb cmd rs_op_literal_64)) [
    | inl t ↦ rw t (inl (_, refl))
    | inr f ↦ rw f (
        bind-IsEnd (read_varint (2 ^ (cmd - rs_op_literal_n1)) "literal length" delta) _
          (read_varint-IsEnd _ "literal length" delta
            (power_le (cmd - rs_op_literal_n1) (omega arith)))
          (λ v e.
            bind-IsEnd (safe_cast v.0 (output_limit "literal" usize_max limit)) _
              (safe_cast-IsEnd v.0 _) (λ n e'. inl (_, refl))))
  ]

  pub literal_length-length :
      (cmd : ℕ) (delta : Bytes) (limit : ℕ) (r : ℕ × Bytes)
      → literal_length {E = E} cmd delta limit ≡ ok r
      → length r.1 ≤ length delta
  unfolding literal_length
  literal_length-length cmd delta limit r e = elim (Bool-cases (leb cmd rs_op_literal_64)) [
    | inl t ↦ let same = ok-injective _ _ (rw t at e) in rw (← same) (omega arith)
    | inr f ↦
        let (v, next, first) =
          bind-ok r _ (read_varint (2 ^ (cmd - rs_op_literal_n1)) "literal length" delta)
            (rw f at e) in
        let (n, last, cast) =
          bind-ok r _ (safe_cast v.0 (output_limit "literal" usize_max limit)) next in
        let same = ok-injective _ _ last in
        let left = read_varint-length _ "literal length" delta v first in rw (← same) (omega arith)
  ]

  pub ok_or-IsEnd : {A : Type 0} (o : Option A) (e : ApplyError E) → IsEnd (ok_or o e)
  ok_or-IsEnd none e = inr (_, refl)
  ok_or-IsEnd (some a) e = inl (_, refl)

  pub copied_slice-IsEnd :
      (base : Bytes) (offset len : ℕ) → IsEnd (copied_slice {E = E} base offset len)
  unfolding copied_slice checked_add
  copied_slice-IsEnd base offset len =
      bind-IsEnd (safe_cast offset _) _ (safe_cast-IsEnd offset _) (λ o e.
        bind-IsEnd (safe_cast len _) _ (safe_cast-IsEnd len _) (λ n e'. elim (Bool-cases (n == 0)) [
          | inl t ↦ rw t (inr (_, refl))
          | inr f ↦ elim (Bool-cases (ltb usize_max (o + n))) [
            | inl t ↦ rw (f, t) (inr (_, refl))
            | inr f' ↦ rw (f, f') (ok_or-IsEnd (slice base o (o + n)) _)
          ]
        ]))
