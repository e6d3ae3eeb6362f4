-- ===== src/Delta/Apply.antt =====
-- A whole delta, from its magic number to its end command, under `apply_limited` of src/patch.rs.
use fast_rsync.Base.{
  ℕ, zero, suc, ◌-◌, ◌≤◌, ◌<◌, ◌≡◌, refl, arith, [], ◌∷◌, ◌++◌, Bytes, length, ok,
}
use fast_rsync.Base.Words.{from_be_bytes, from_be, to_be_bytes}
use fast_rsync.Consts.{delta_magic, rs_op_end}
use fast_rsync.Delta.Commands.{read_n-append}
use fast_rsync.Delta.Decodes.{at, Decodes, read_cmd}
use fast_rsync.Delta.Vec.{vec_write}
use fast_rsync.Patch.{read_int, apply_loop, finish, apply_limited}

abbrev pub magic_bytes : Bytes
magic_bytes = 0x72 ∷ 0x73 ∷ 0x02 ∷ 0x36 ∷ []

pub magic_lem : to_be_bytes 4 delta_magic ≡ magic_bytes
unfolding to_be_bytes
magic_lem = refl

-- Four bytes that are read as the magic number.
pub record IsMagic (magic : Bytes) : Type 0 where
  pub four : length magic ≡ 4
  pub is_delta : from_be_bytes magic ≡ delta_magic

pub magic_bytes-IsMagic : IsMagic magic_bytes
unfolding from_be_bytes from_be
magic_bytes-IsMagic = record { four = refl; is_delta = refl }

pub read_magic :
    (magic rest : Bytes)
    → IsMagic magic
    → read_int {E = ⊥} 4 "magic" (magic ++ rest) ≡ ok (delta_magic, rest)
unfolding read_int
read_magic magic rest is = rw (read_n-append 4 "magic" magic rest is.four, is.is_delta)

-- The end command stops the loop, and leaves nothing.
end_round :
    (base : Bytes) (fuel limit : ℕ) (out : Bytes)
    → 0 < fuel
    → apply_loop {E = ⊥} fuel base (at (rs_op_end ∷ []) out limit) ≡ ok (at [] out limit)
unfolding apply_loop
end_round base zero limit out h = absurd (omega arith)
end_round base (suc fuel) limit out h = rw (read_cmd "cmd" rs_op_end [])

-- A delta whose body decodes to `xs` is applied to give `xs`, if that is within the limit.
pub apply_limited-Decodes :
    (base magic enc xs out : Bytes) (limit : ℕ)
    → IsMagic magic
    → Decodes base enc xs
    → length xs ≤ limit
    → apply_limited {E = ⊥} base (magic ++ (enc ++ (rs_op_end ∷ []))) out limit ≡ ok (out ++ xs)
unfolding apply_limited finish
apply_limited-Decodes base magic enc xs out limit is d fits =
    let body = enc ++ (rs_op_end ∷ []) in
    let (fuel, enough, e) =
      d.runs (suc (length body)) limit (rs_op_end ∷ []) out (omega arith) fits in
    rw (
      read_magic magic body is,
      e,
      end_round base fuel (limit - length xs) (out ++ xs) (omega arith),
    )
