-- ===== src/Patch/Prefix.antt =====
-- A read of src/patch.rs that succeeds does not see the bytes behind what it reads.
use fast_rsync.Base.{
  ℕ, ◌-◌, ◌^◌, ◌≤◌, ◌≡◌, arith, ◌++◌, Bytes, length, length-append, take, drop, take-append_le,
  drop-append_le, Bool-cases, inl, inr, false, ltb, leb, Outcome, ok, bind-ok,
}
use fast_rsync.Base.Words.{usize_max}
use fast_rsync.Consts.{rs_op_literal_64, rs_op_literal_n1}
use fast_rsync.Patch.{
  ApplyError, split_at, sub_usize, output_limit, read_n, read_int, read_varint, safe_cast,
  literal_length,
}
use Prim.Native.String.{String}

pub ok-injective : {E A : Type 0} (a b : A) → ◌≡◌ {A = Outcome E A} (ok a) (ok b) → a ≡ b
ok-injective a b e = cc

module _ {E : Type 0} where
  pub read_n-frame :
      (n : ℕ) (what : String) (delta tail : Bytes) (r : Bytes × Bytes)
      → read_n {E = E} n what delta ≡ ok r
      → read_n {E = E} n what (delta ++ tail) ≡ ok (r.0, r.1 ++ tail)
  unfolding read_n split_at
  read_n-frame n what delta tail r e = elim (Bool-cases (ltb (length delta) n)) [
    | inl t ↦ let e' = rw t at e in cc
    | inr f ↦
        let room : n ≤ length delta = ground arith in
        let longer : ltb (length (delta ++ tail)) n ≡ false =
          ground (arith, length-append delta tail) in
        let same : (take n delta, drop n delta) ≡ r = ok-injective _ _ (rw f at e) in
        rw (longer, ← same, take-append_le n delta tail room, drop-append_le n delta tail room)
  ]

  pub read_int-frame :
      (size : ℕ) (what : String) (delta tail : Bytes) (r : ℕ × Bytes)
      → read_int {E = E} size what delta ≡ ok r
      → read_int {E = E} size what (delta ++ tail) ≡ ok (r.0, r.1 ++ tail)
  unfolding read_int
  read_int-frame size what delta tail r e =
      let (b, next, first) = bind-ok r _ (read_n size what delta) e in
      let same = ok-injective _ _ next in rw (read_n-frame size what delta tail b first, ← same)

  pub read_varint-frame :
      (len : ℕ) (what : String) (delta tail : Bytes) (r : ℕ × Bytes)
      → read_varint {E = E} len what delta ≡ ok r
      → read_varint {E = E} len what (delta ++ tail) ≡ ok (r.0, r.1 ++ tail)
  unfolding read_varint
  read_varint-frame len what delta tail r e =
      let (padding, e', few) = bind-ok r _ (sub_usize {E = ApplyError E} 8 len) e in
      let (b, next, first) = bind-ok r _ (read_n len what delta) e' in
      let same = ok-injective _ _ next in rw (few, read_n-frame len what delta tail b first, ← same)

  pub safe_cast-ok :
      (val : ℕ) (e e' : ApplyError E) (n : ℕ) → safe_cast val e ≡ ok n → safe_cast val e' ≡ ok n
  unfolding safe_cast
  safe_cast-ok val e e' n h = ground arith

  pub literal_length-frame :
      (cmd : ℕ) (delta tail : Bytes) (limit limit' : ℕ) (r : ℕ × Bytes)
      → literal_length {E = E} cmd delta limit ≡ ok r
      → literal_length {E = E} cmd (delta ++ tail) limit' ≡ ok (r.0, r.1 ++ tail)
  unfolding literal_length
  literal_length-frame cmd delta tail limit limit' r e =
      elim (Bool-cases (leb cmd rs_op_literal_64)) [
        | inl t ↦ let same = ok-injective _ _ (rw t at e) in rw (t, ← same)
        | inr f ↦
            let (v, next, first) =
              bind-ok r _ (read_varint (2 ^ (cmd - rs_op_literal_n1)) "literal length" delta)
                (rw f at e) in
            let (n, last, cast) =
              bind-ok r _ (safe_cast v.0 (output_limit "literal" usize_max limit)) next in
            let same = ok-injective _ _ last in
            rw (
              f,
              read_varint-frame (2 ^ (cmd - rs_op_literal_n1)) "literal length" delta tail v first,
              safe_cast-ok v.0 _ (output_limit "literal" usize_max limit') n cast,
              ← same,
            )
      ]
