-- ===== src/Delta/Grammar/Reads.antt =====
-- What src/patch.rs has read and written where no error came up.
use fast_rsync.Base.{
  ℕ, ◌+◌, ◌≤◌, ◌≡◌, refl, sym, ap, ◌∙◌, arith, some, slice, [], ◌∷◌, ◌++◌, Bytes, length,
  length-take, take, drop, take-append-drop, Bool-cases, Option-cases, inl, inr, ltb, ◌==◌, ok,
  bind-ok,
}
use fast_rsync.Base.Words.{from_be_bytes, from_be_bytes-zeros, from_be, usize_max}
use fast_rsync.Delta.Decodes.{read_cmd}
use fast_rsync.Delta.Vec.{vec_write}
use fast_rsync.Patch.{
  ApplyError, Cursor, split_at, sub_usize, checked_add, read_n, read_int, read_varint, safe_cast,
  copy_out_of_bounds, copied_slice, safe_extend,
}
use fast_rsync.Patch.Prefix.{ok-injective}
use Prim.Native.String.{String}

module _ {E : Type 0} where
  -- A read splits the delta.
  pub read_n-split :
      (n : ℕ) (what : String) (delta : Bytes) (r : Bytes × Bytes)
      → read_n {E = E} n what delta ≡ ok r
      → (length r.0 ≡ n) × (delta ≡ r.0 ++ r.1)
  unfolding read_n split_at
  read_n-split n what delta r e = elim (Bool-cases (ltb (length delta) n)) [
    | inl t ↦ let e' = rw t at e in cc
    | inr f ↦
        let same : (take n delta, drop n delta) ≡ r = ok-injective _ _ (rw f at e) in
        let room : n ≤ length delta = ground arith in
        rw (← same) (omega (arith, length-take n delta), sym (take-append-drop n delta))
  ]

  pub read_varint-split :
      (size : ℕ) (what : String) (delta : Bytes) (r : ℕ × Bytes)
      → read_varint {E = E} size what delta ≡ ok r
      → (field : Bytes) × (length field ≡ size)
        × (from_be_bytes field ≡ r.0)
        × (delta ≡ field ++ r.1)
  unfolding read_varint
  read_varint-split size what delta r e =
      let (padding, e', _) = bind-ok r _ (sub_usize {E = ApplyError E} 8 size) e in
      let (b, next, first) = bind-ok r _ (read_n size what delta) e' in
      let same = ok-injective _ _ next in
      let (long_enough, split) = read_n-split size what delta b first in
      (
        b.0,
        long_enough,
        sym (from_be_bytes-zeros padding b.0) ∙ ap (λ (t : ℕ × Bytes). t.0) same,
        split ∙ ap (λ (t : ℕ × Bytes). b.0 ++ t.1) same,
      )

  pub read_cmd-split :
      (what : String) (delta : Bytes) (r : ℕ × Bytes)
      → read_int {E = E} 1 what delta ≡ ok r
      → delta ≡ r.0 ∷ r.1
  unfolding read_int read_n split_at from_be_bytes from_be
  read_cmd-split what [] r e = cc
  read_cmd-split what (x ∷ rest) r e =
      let same : (x, rest) ≡ r = ok-injective _ _ (sym (read_cmd what x rest) ∙ e) in
      ap (λ (t : ℕ × Bytes). t.0 ∷ t.1) same

  pub safe_cast-ok_small :
      (val n : ℕ) (x : ApplyError E) → safe_cast val x ≡ ok n → (val ≡ n) × (val ≤ usize_max)
  unfolding safe_cast
  safe_cast-ok_small val n x e = elim (Bool-cases (ltb usize_max val)) [
    | inl t ↦ let e' = rw t at e in cc
    | inr f ↦ (ok-injective _ _ (rw f at e), ground arith)
  ]

  pub copied_slice-ok :
      (base : Bytes) (offset len : ℕ) (bytes : Bytes)
      → copied_slice {E = E} base offset len ≡ ok bytes
      → (1 ≤ len) × (offset + len ≤ usize_max) × (slice base offset (offset + len) ≡ some bytes)
  unfolding copied_slice checked_add
  copied_slice-ok base offset len bytes e =
      let oob : ApplyError E = copy_out_of_bounds offset len (length base) in
      let (o, e1, cast) = bind-ok bytes _ (safe_cast offset oob) e in
      let (l, e2, cast') = bind-ok bytes _ (safe_cast len oob) e1 in
      let (is_o, _) = safe_cast-ok_small offset o oob cast in
      let (is_l, _) = safe_cast-ok_small len l oob cast' in
      elim (Bool-cases (l == 0)) [
        | inl t ↦ let e' = rw t at e2 in cc
        | inr f ↦ elim (Bool-cases (ltb usize_max (o + l))) [
          | inl t ↦ let e' = rw (f, t) at e2 in cc
          | inr f' ↦ elim (Option-cases (slice base o (o + l))) [
            | inl out ↦ let e' = rw (f, f', out) at e2 in cc
            | inr (bs, inside) ↦
                let same : bs ≡ bytes = ok-injective _ _ (rw (f, f', inside) at e2) in
                rw (is_o, is_l) (ground arith, ground arith, inside ∙ ap some same)
          ]
        ]
      ]

-- What a write leaves.
pub safe_extend-ok :
    (bytes rest : Bytes) (what : String) (out : Bytes) (limit : ℕ) (c' : Cursor Bytes)
    → safe_extend {E = ⊥} bytes what rest out limit ≡ ok c'
    → (rest ≡ c'.delta) × (c'.out ≡ out ++ bytes) × (c'.limit + length bytes ≡ limit)
unfolding safe_extend sub_usize
safe_extend-ok bytes rest what out limit c' e = elim (Bool-cases (ltb limit (length bytes))) [
  | inl t ↦ let e' = rw t at e in cc
  | inr f ↦
      let same = ok-injective _ _ (rw f at e) in
      let room : length bytes ≤ limit = ground arith in rw (← same) (refl, refl, omega arith)
]
