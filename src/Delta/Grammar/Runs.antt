-- ===== src/Delta/Grammar/Runs.antt =====
-- Every delta of the format is applied by src/patch.rs, within a limit that covers what it makes.
use fast_rsync.Base.{
  ℕ, ◌+◌, ◌-◌, ◌*◌, ◌/◌, ◌%◌, ◌^◌, ◌≤◌, ◌≡◌, refl, arith, ◌&&◌, true, false, some, slice, [], ◌∷◌,
  ◌++◌, append_assoc, Bytes, length, ok, leb, ltb,
}
use fast_rsync.Base.Words.{from_be_bytes, from_be_bytes-zeros, usize_max}
use fast_rsync.Consts.{rs_op_end, rs_op_literal_n1, rs_op_copy_n1_n1}
use fast_rsync.Delta.Apply.{magic_bytes, IsMagic, magic_bytes-IsMagic, apply_limited-Decodes}
use fast_rsync.Delta.Commands.{read_n-append, power_le}
use fast_rsync.Delta.Decodes.{
  Decodes, Decodes-nil, Decodes-append, Decodes-command, literal_command, copied_slice_lem,
  extend_fits,
}
use fast_rsync.Delta.Grammar.{IsCommand, IsCommands, short, long, copy, stop, more}
use fast_rsync.Delta.Vec.{vec_write}
use fast_rsync.Patch.{
  sub_usize, read_varint, safe_cast, literal_length, apply_copy, apply_command, apply_limited,
}
use Prim.Native.String.{String}

-- A field of a command is read as the number in it.
pub read_varint-append :
    {E : Type 0} (size : ℕ) (what : String) (field tail : Bytes)
    → size ≤ 8
    → length field ≡ size
    → read_varint {E = E} size what (field ++ tail) ≡ ok (from_be_bytes field, tail)
unfolding read_varint sub_usize
read_varint-append size what field tail small e =
    let few : ltb 8 size ≡ false = ground arith in
    rw (few, read_n-append size what field tail e)
      (ground (arith, from_be_bytes-zeros (8 - size) field))

short-Decodes :
    (base made : Bytes)
    → 1 ≤ length made
    → length made ≤ 64
    → Decodes base (length made ∷ made) made
unfolding literal_length
short-Decodes base made lo hi =
    Decodes-command base (length made) made made lo (λ limit rest out fits.
      literal_command base (length made) limit [] made rest out lo (omega arith) (ground arith)
        fits)

long-Decodes :
    (base made : Bytes) (k : ℕ) (field : Bytes)
    → k ≤ 3
    → length field ≡ 2 ^ k
    → from_be_bytes field ≡ length made
    → length made ≤ usize_max
    → Decodes base ((rs_op_literal_n1 + k) ∷ (field ++ made)) made
unfolding literal_length safe_cast
long-Decodes base made k field small size is_len fits_usize =
    let minus : rs_op_literal_n1 + k - rs_op_literal_n1 ≡ k = omega arith in
    let not_short : leb (rs_op_literal_n1 + k) 64 ≡ false = ground arith in
    Decodes-command base (rs_op_literal_n1 + k) (field ++ made) made (omega arith)
      (λ limit rest out fits. rw append_assoc (
        literal_command base (rs_op_literal_n1 + k) limit field made rest out (omega arith)
          (omega arith)
          (rw
            (
              not_short,
              minus,
              read_varint-append (2 ^ k) "literal length" field (made ++ rest) (power_le k small)
                  size,
              is_len,
            )
            (ground arith))
          fits))

copy-Decodes :
    (base made : Bytes) (j k : ℕ) (offset len : Bytes)
    → j ≤ 3
    → k ≤ 3
    → length offset ≡ 2 ^ j
    → length len ≡ 2 ^ k
    → 1 ≤ from_be_bytes len
    → from_be_bytes offset + from_be_bytes len ≤ usize_max
    → slice base (from_be_bytes offset) (from_be_bytes offset + from_be_bytes len) ≡ some made
    → Decodes base ((rs_op_copy_n1_n1 + 4 * j + k) ∷ (offset ++ len)) made
unfolding apply_command apply_copy
copy-Decodes base made j k offset len j3 k3 size size' lo hi inside =
    let cmd = rs_op_copy_n1_n1 + 4 * j + k in
    let not_literal : (leb 1 cmd && leb cmd 0x44) ≡ false = ground arith in
    let is_copy : (leb 0x45 cmd && leb cmd 0x54) ≡ true = ground arith in
    let is_j : (cmd - 0x45) / 4 ≡ j = omega arith in
    let is_k : (cmd - 0x45) % 4 ≡ k = omega arith in
    Decodes-command base cmd (offset ++ len) made (omega arith) (λ limit rest out fits.
      rw
        (
          not_literal,
          is_copy,
          is_j,
          is_k,
          append_assoc,
          read_varint-append (2 ^ j) "copy offset" offset (len ++ rest) (power_le j j3) size,
          read_varint-append (2 ^ k) "copy length" len rest (power_le k k3) size',
          copied_slice_lem base made (from_be_bytes offset) (from_be_bytes len) lo (omega arith)
              inside,
        )
        (extend_fits made "copy" rest out limit fits))

pub IsCommand-Decodes : (base enc made : Bytes) → IsCommand base enc made → Decodes base enc made
IsCommand-Decodes base enc made (short lo hi e) = rw e (short-Decodes base made lo hi)
IsCommand-Decodes base enc made (long k field small size is_len fits e) =
    rw e (long-Decodes base made k field small size is_len fits)
IsCommand-Decodes base enc made (copy j k offset len j3 k3 size size' lo hi inside e) =
    rw e (copy-Decodes base made j k offset len j3 k3 size size' lo hi inside)

IsCommands-Decodes :
    (base body made : Bytes)
    → IsCommands base body made
    → (enc : Bytes) × (body ≡ enc ++ (rs_op_end ∷ [])) × Decodes base enc made
IsCommands-Decodes base _ _ stop = ([], refl, Decodes-nil base)
IsCommands-Decodes base _ _ (more enc xs rest ys c cs) =
    let (enc', e, d) = IsCommands-Decodes base rest ys cs in
    (enc ++ enc', rw (e, append_assoc), Decodes-append (IsCommand-Decodes base enc xs c) d)

-- A delta of the format is applied, with whatever bytes are read as the magic number.
pub IsMagic-apply_limited :
    (base magic body made out : Bytes) (limit : ℕ)
    → IsMagic magic
    → IsCommands base body made
    → length made ≤ limit
    → apply_limited {E = ⊥} base (magic ++ body) out limit ≡ ok (out ++ made)
IsMagic-apply_limited base magic body made out limit is cs fits =
    let (enc, e, d) = IsCommands-Decodes base body made cs in
    rw e (apply_limited-Decodes base magic enc made out limit is d fits)

-- A delta of the format, whatever its encoding of numbers, is applied to the base data without an error
-- when what it stands for is within the limit, and appends that to the vector.
pub IsCommands-apply_limited :
    (base body made out : Bytes) (limit : ℕ)
    → IsCommands base body made
    → length made ≤ limit
    → apply_limited {E = ⊥} base (magic_bytes ++ body) out limit ≡ ok (out ++ made)
IsCommands-apply_limited base body made out limit cs fits =
    IsMagic-apply_limited base magic_bytes body made out limit magic_bytes-IsMagic cs fits
