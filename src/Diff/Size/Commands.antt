-- ===== src/Diff/Size/Commands.antt =====
-- How many bytes the commands of src/diff.rs take in a vector.
use fast_rsync.Base.{
  ℕ, ◌+◌, ◌≤◌, ◌≡◌, arith, [], ◌∷◌, ◌++◌, Bytes, length, length-append, Bool-cases, inl, inr, leb,
  ◌==◌, ok, bind-ok, ◌^◌, ◌-◌,
}
use fast_rsync.Base.Words.{to_be_bytes}
use fast_rsync.Delta.Vec.{vec_write}
use fast_rsync.Diff.Command.{
  write, insert_bytes, insert_command, varint_bytes, write_varint, size_class_marker, copy_command,
}
use fast_rsync.Patch.Prefix.{ok-injective}

-- No more than the opcode and eight bytes of length.
length-insert_bytes : (n : ℕ) → length (insert_bytes n) ≤ 9
unfolding insert_bytes to_be_bytes
length-insert_bytes n = elim (Bool-cases (leb n 64)) [
  | inl t ↦ rw t (omega arith)
  | inr f ↦ elim (Bool-cases (leb n (2 ^ 8 - 1))) [
    | inl t ↦ rw (f, t) (omega arith)
    | inr f' ↦ elim (Bool-cases (leb n (2 ^ 16 - 1))) [
      | inl t ↦ rw (f, f', t) (omega arith)
      | inr f'' ↦ elim (Bool-cases (leb n (2 ^ 32 - 1))) [
        | inl t ↦ rw (f, f', f'', t) (omega arith)
        | inr f3 ↦ rw (f, f', f'', f3) (omega arith)
      ]
    ]
  ]
]

length-varint_bytes : (n : ℕ) → length (varint_bytes n) ≤ 8
unfolding varint_bytes to_be_bytes
length-varint_bytes n = elim (Bool-cases (leb n (2 ^ 8 - 1))) [
  | inl t ↦ rw t (omega arith)
  | inr f ↦ elim (Bool-cases (leb n (2 ^ 16 - 1))) [
    | inl t ↦ rw (f, t) (omega arith)
    | inr f' ↦ elim (Bool-cases (leb n (2 ^ 32 - 1))) [
      | inl t ↦ rw (f, f', t) (omega arith)
      | inr f'' ↦ rw (f, f', f'') (omega arith)
    ]
  ]
]

pub length-write :
    (bytes w w' : Bytes) → write {E = ⊥} bytes w ≡ ok w' → length w' ≡ length w + length bytes
unfolding write
length-write bytes w w' e =
    let same : w ++ bytes ≡ w' = ok-injective _ _ e in rw (← same) (length-append w bytes)

pub length-insert_command :
    (len : ℕ) (w w' : Bytes) → insert_command {E = ⊥} len w ≡ ok w' → length w' ≤ length w + 9
unfolding insert_command
length-insert_command len w w' e = elim (Bool-cases (len == 0)) [
  | inl t ↦ let e' = rw t at e in cc
  | inr f ↦ omega (arith, length-write (insert_bytes len) w w' (rw f at e), length-insert_bytes len)
]

pub length-copy_command :
    (offset len : ℕ) (w w' : Bytes)
    → copy_command {E = ⊥} offset len w ≡ ok w'
    → length w' ≤ length w + 17
unfolding copy_command write_varint
length-copy_command offset len w w' e =
    let (w1, e1, first) = bind-ok w' _ (write (size_class_marker offset len ∷ []) w) e in
    let (w2, e2, second) = bind-ok w' _ (write (varint_bytes offset) w1) e1 in
    omega (
      arith,
      length-write _ w w1 first,
      length-write _ w1 w2 second,
      length-write _ w2 w' e2,
      length-varint_bytes offset,
      length-varint_bytes len,
    )
