-- ===== src/Delta/Decodes.antt =====
-- What a part of a delta makes of the base data, as src/patch.rs applies it, in the middle of a run.
use fast_rsync.Base.{
  ℕ, zero, suc, ◌+◌, ◌-◌, ◌/◌, ◌%◌, ◌^◌, ◌≤◌, ◌<◌, ◌≡◌, refl, ◌∙◌, arith, ◌&&◌, true, false, some,
  slice, [], ◌∷◌, ◌++◌, append-nil, append_assoc, Bytes, length, length-append, ok, leb, ◌==◌,
}
use fast_rsync.Base.Words.{from_be_bytes, from_be}
use fast_rsync.Delta.Commands.{
  read_n-append, read_varint-to_be_bytes, power_le, varint_class, insert_bytes_shape,
}
use fast_rsync.Delta.Vec.{vec_write}
use fast_rsync.Diff.Command.{insert_bytes, varint_bytes, size_class_marker, u64_size_class}
use fast_rsync.Patch.{
  Cursor, split_at, sub_usize, checked_add, read_int, read_n, literal_length, safe_cast,
}
use fast_rsync.Patch.{
  copied_slice, safe_extend, apply_literal, apply_copy, apply_command, apply_loop,
}
use Prim.Native.String.{String}

-- The loop of `apply_limited` into a `Vec<u8>`.
abbrev pub at : Bytes → Bytes → ℕ → Cursor Bytes
at delta out limit = record { delta = delta; out = out; limit = limit }

-- Within the limit the loop takes the part `enc` of the delta, whatever follows it, and writes `xs`.
pub record Decodes (base enc xs : Bytes) : Type 0 where
  pub runs :
      (fuel limit : ℕ) (rest out : Bytes)
      → length (enc ++ rest) < fuel
      → length xs ≤ limit
      → (fuel' : ℕ) × (length rest < fuel')
        × (apply_loop {E = ⊥} fuel base (at (enc ++ rest) out limit)
            ≡ apply_loop fuel' base (at rest (out ++ xs) (limit - length xs)))

pub Decodes-nil : (base : Bytes) → Decodes base [] []
Decodes-nil base = record {
  runs = λ fuel limit rest out enough fits.
      let left : limit - 0 ≡ limit = omega arith in (fuel, enough, rw (append-nil, left));
}

pub Decodes-append :
    {base enc xs enc' xs' : Bytes}
    → Decodes base enc xs
    → Decodes base enc' xs'
    → Decodes base (enc ++ enc') (xs ++ xs')
Decodes-append {base} {enc} {xs} {enc'} {xs'} d d' = record { runs = runs }
  where
    sum : length (xs ++ xs') ≡ length xs + length xs'
    sum = length-append xs xs'

    runs :
        (fuel limit : ℕ) (rest out : Bytes)
        → length ((enc ++ enc') ++ rest) < fuel
        → length (xs ++ xs') ≤ limit
        → (fuel' : ℕ) × (length rest < fuel')
          × (apply_loop {E = ⊥} fuel base (at ((enc ++ enc') ++ rest) out limit)
              ≡ apply_loop fuel' base (at rest (out ++ (xs ++ xs')) (limit - length (xs ++ xs'))))
    runs fuel limit rest out enough fits =
        let (f1, enough1, e1) =
          d.runs fuel limit (enc' ++ rest) out (rw append_assoc at enough) (omega (arith, sum)) in
        let (f2, enough2, e2) =
          d'.runs f1 (limit - length xs) rest (out ++ xs) enough1 (omega (arith, sum)) in
        let left : limit - length xs - length xs' ≡ limit - length (xs ++ xs') =
          omega (arith, sum) in
        (f2, enough2, rw append_assoc e1 ∙ e2 ∙ rw (append_assoc, left))

pub read_cmd :
    {E : Type 0} (what : String) (cmd : ℕ) (rest : Bytes)
    → read_int {E = E} 1 what (cmd ∷ rest) ≡ ok (cmd, rest)
unfolding read_int read_n split_at from_be_bytes from_be
read_cmd what cmd rest = ground arith

-- A slice within the limit is written whole.
pub extend_fits :
    (bs : Bytes) (what : String) (rest out : Bytes) (limit : ℕ)
    → length bs ≤ limit
    → safe_extend {E = ⊥} bs what rest out limit ≡ ok (at rest (out ++ bs) (limit - length bs))
unfolding safe_extend sub_usize
extend_fits bs what rest out limit h = ground arith

-- One round of the loop on a command that is not the end.
loop_round :
    (base : Bytes) (cmd fuel limit : ℕ) (rest out : Bytes) {c : Cursor Bytes}
    → 1 ≤ cmd
    → apply_command {E = ⊥} base cmd (at rest out limit) ≡ ok c
    → apply_loop {E = ⊥} (suc fuel) base (at (cmd ∷ rest) out limit) ≡ apply_loop fuel base c
unfolding apply_loop
loop_round base cmd fuel limit rest out lo e = rw (read_cmd "cmd" cmd rest, ne, e)
  where
    ne : (cmd == 0) ≡ false
    ne = ground arith

pub literal_command :
    (base : Bytes) (cmd limit : ℕ) (lens bs rest out : Bytes)
    → 1 ≤ cmd
    → cmd ≤ 0x44
    → literal_length {E = ⊥} cmd (lens ++ (bs ++ rest)) limit ≡ ok (length bs, bs ++ rest)
    → length bs ≤ limit
    → apply_command {E = ⊥} base cmd (at (lens ++ (bs ++ rest)) out limit)
      ≡ ok (at rest (out ++ bs) (limit - length bs))
unfolding apply_command apply_literal
literal_command base cmd limit lens bs rest out lo hi len fits =
    rw (in_range, len, read_n-append (length bs) "literal" bs rest refl)
      (extend_fits bs "literal" rest out limit fits)
  where
    in_range : (leb 1 cmd && leb cmd 0x44) ≡ true
    in_range = ground arith

-- A command that writes `xs`, with what stands behind its first byte.
pub Decodes-command :
    (base : Bytes) (cmd : ℕ) (payload xs : Bytes)
    → 1 ≤ cmd
    → ((limit : ℕ) (rest out : Bytes)
        → length xs ≤ limit
        → apply_command {E = ⊥} base cmd (at (payload ++ rest) out limit)
          ≡ ok (at rest (out ++ xs) (limit - length xs)))
    → Decodes base (cmd ∷ payload) xs
Decodes-command base cmd payload xs lo step = record { runs = runs }
  where
    runs :
        (fuel limit : ℕ) (rest out : Bytes)
        → length ((cmd ∷ payload) ++ rest) < fuel
        → length xs ≤ limit
        → (fuel' : ℕ) × (length rest < fuel')
          × (apply_loop {E = ⊥} fuel base (at ((cmd ∷ payload) ++ rest) out limit)
              ≡ apply_loop fuel' base (at rest (out ++ xs) (limit - length xs)))
    runs zero limit rest out enough fits = absurd (omega arith)
    runs (suc fuel) limit rest out enough fits = (
      fuel,
      omega (arith, length-append payload rest),
      loop_round base cmd fuel limit (payload ++ rest) out lo (step limit rest out fits),
    )

-- A literal's command and its bytes write these bytes.
pub Decodes-literal :
    (base bs : Bytes)
    → 1 ≤ length bs
    → length bs < 2 ^ 64
    → Decodes base (insert_bytes (length bs) ++ bs) bs
Decodes-literal base bs lo h =
    let (cmd, lens, shape, lo', hi', len) = insert_bytes_shape {E = ⊥} (length bs) lo h in
    rw shape (
      Decodes-command base cmd (lens ++ bs) bs lo' (λ limit rest out fits.
        rw append_assoc
          (literal_command base cmd limit lens bs rest out lo' hi' (len (bs ++ rest) limit) fits)))

-- The bytes of a copy command.
abbrev pub copy_bytes : ℕ → ℕ → Bytes
copy_bytes offset len = size_class_marker offset len ∷ (varint_bytes offset ++ varint_bytes len)

-- The lengths of both numbers are read off the marker.
marker_classes :
    (offset len c d : ℕ)
    → u64_size_class offset ≡ c
    → u64_size_class len ≡ d
    → c ≤ 3
    → d ≤ 3
    → let cmd = size_class_marker offset len in
      (0x45 ≤ cmd) × (cmd ≤ 0x54) × ((cmd - 0x45) / 4 ≡ c) × ((cmd - 0x45) % 4 ≡ d)
unfolding size_class_marker
marker_classes offset len c d e e' lo lo' = omega arith

pub copied_slice_lem :
    (base bs : Bytes) (offset len : ℕ)
    → 1 ≤ len
    → offset + len < 2 ^ 64
    → slice base offset (offset + len) ≡ some bs
    → copied_slice {E = ⊥} base offset len ≡ ok bs
unfolding copied_slice checked_add safe_cast
copied_slice_lem base bs offset len lo h e = ground arith

copy_applied :
    (base : Bytes) (offset len limit : ℕ) (bs rest out : Bytes)
    → 1 ≤ len
    → offset + len < 2 ^ 64
    → slice base offset (offset + len) ≡ some bs
    → length bs ≤ limit
    → apply_command {E = ⊥} base
        (size_class_marker offset len)
        (at ((varint_bytes offset ++ varint_bytes len) ++ rest) out limit)
      ≡ ok (at rest (out ++ bs) (limit - length bs))
unfolding apply_command apply_copy
copy_applied base offset len limit bs rest out lo h e fits =
    let (c, c3, class, bytes, back) = varint_class offset (omega arith) in
    let (d, d3, class', bytes', back') = varint_class len (omega arith) in
    let (m_lo, m_hi, m_c, m_d) = marker_classes offset len c d class class' c3 d3 in
    let cmd = size_class_marker offset len in
    let not_literal : (leb 1 cmd && leb cmd 0x44) ≡ false = ground arith in
    let is_copy : (leb 0x45 cmd && leb cmd 0x54) ≡ true = ground arith in
    rw
      (
        not_literal,
        is_copy,
        m_c,
        m_d,
        append_assoc,
        bytes,
        read_varint-to_be_bytes (2 ^ c) offset "copy offset" (varint_bytes len ++ rest)
            (power_le c c3) back,
        bytes',
        read_varint-to_be_bytes (2 ^ d) len "copy length" rest (power_le d d3) back',
        copied_slice_lem base bs offset len lo h e,
      )
      (extend_fits bs "copy" rest out limit fits)

-- A copy command within the base data writes what it names.
pub Decodes-copy :
    (base bs : Bytes) (offset len : ℕ)
    → 1 ≤ len
    → offset + len < 2 ^ 64
    → slice base offset (offset + len) ≡ some bs
    → Decodes base (copy_bytes offset len) bs
Decodes-copy base bs offset len lo h e =
    Decodes-command base (size_class_marker offset len) (varint_bytes offset ++ varint_bytes len) bs
      (unfold size_class_marker in omega arith)
      (λ limit rest out fits. copy_applied base offset len limit bs rest out lo h e fits)
