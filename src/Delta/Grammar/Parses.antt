-- ===== src/Delta/Grammar/Parses.antt =====
-- Whatever src/patch.rs accepts is a delta of the format.
use fast_rsync.Base.{
  ℕ, zero, suc, ◌+◌, ◌-◌, ◌*◌, ◌/◌, ◌%◌, ◌^◌, ◌≤◌, ◌≡◌, sym, ap, ◌∙◌, arith, ◌&&◌, [], ◌∷◌, ◌++◌,
  append-nil, append_assoc, Bytes, length, length-append, Bool-cases, inl, inr, leb, ◌==◌, ok,
  bind-ok,
}
use fast_rsync.Base.Words.{from_be_bytes, usize_max}
use fast_rsync.Consts.{
  delta_magic, rs_op_end, rs_op_literal_1, rs_op_literal_n8, rs_op_copy_n1_n1, rs_op_copy_n8_n8,
}
use fast_rsync.Delta.Grammar.{IsCommand, IsCommands, short, long, copy, stop, more}
use fast_rsync.Delta.Grammar.Reads.{
  read_n-split, read_varint-split, read_cmd-split, safe_cast-ok_small, copied_slice-ok,
  safe_extend-ok,
}
use fast_rsync.Delta.Vec.{vec_write}
use fast_rsync.Patch.{
  output_limit, Cursor, read_n, read_int, read_varint, safe_cast, literal_length, copied_slice,
  apply_literal, apply_copy, apply_command, apply_loop, apply_limited,
}
use fast_rsync.Patch.Limits.{apply_limited-Applied}
use fast_rsync.Patch.Prefix.{ok-injective}

-- A command that `apply_command` accepts: its bytes, and what it stands for.
abbrev Parsed : Bytes → ℕ → Cursor Bytes → Cursor Bytes → Type 0
Parsed base cmd c c' =
    (payload : Bytes) × (made : Bytes) × (IsCommand base (cmd ∷ payload) made)
    × (c.delta ≡ payload ++ c'.delta)
    × (c'.out ≡ c.out ++ made)
    × (c'.limit + length made ≡ c.limit)

-- The arm of the literals.
literal-Parsed :
    (base : Bytes) (cmd : ℕ) (c c' : Cursor Bytes)
    → 1 ≤ cmd
    → cmd ≤ 0x44
    → apply_literal {E = ⊥} cmd c ≡ ok c'
    → Parsed base cmd c c'
unfolding apply_literal literal_length
literal-Parsed base cmd c c' lo hi e =
    let (l, e1, first) = bind-ok c' _ (literal_length cmd c.delta c.limit) e in
    let (b, e2, second) = bind-ok c' _ (read_n l.0 "literal" l.1) e1 in
    let (size, split) = read_n-split l.0 "literal" l.1 b second in
    let (is_rest, is_out, counted) = safe_extend-ok b.0 b.1 "literal" c.out c.limit c' e2 in
    elim (Bool-cases (leb cmd 64)) [
      | inl t ↦
          let same : (1 + cmd - 1, c.delta) ≡ l = ok-injective _ _ (rw t at first) in
          let is_len : 1 + cmd - 1 ≡ l.0 = ap (λ (r : ℕ × Bytes). r.0) same in
          let is_delta : c.delta ≡ l.1 = ap (λ (r : ℕ × Bytes). r.1) same in
          let is_cmd : cmd ≡ length b.0 = omega arith in
          let small : cmd ≤ 64 = ground arith in
          (
            b.0,
            b.0,
            short (omega arith) (omega arith) (ap (λ (n : ℕ). n ∷ b.0) is_cmd),
            is_delta ∙ split ∙ ap (λ (r : Bytes). b.0 ++ r) is_rest,
            is_out,
            counted,
          )
      | inr f ↦
          let (v, e3, read) =
            bind-ok l _ (read_varint (2 ^ (cmd - 0x41)) "literal length" c.delta) (rw f at first) in
          let (n, e4, cast) =
            bind-ok l _ (safe_cast v.0 (output_limit "literal" usize_max c.limit)) e3 in
          let (field, size', is_v, split') =
            read_varint-split (2 ^ (cmd - 0x41)) "literal length" c.delta v read in
          let (is_n, small) = safe_cast-ok_small v.0 n _ cast in
          let same : (n, v.1) ≡ l = ok-injective _ _ e4 in
          let is_len : n ≡ l.0 = ap (λ (r : ℕ × Bytes). r.0) same in
          let is_rest' : v.1 ≡ l.1 = ap (λ (r : ℕ × Bytes). r.1) same in
          let not_short : 65 ≤ cmd = ground arith in
          let is_cmd : cmd ≡ 0x41 + (cmd - 0x41) = omega arith in
          (
            field ++ b.0,
            b.0,
            long (cmd - 0x41) field (omega arith) size' (omega arith) (omega arith)
                (ap (λ (k : ℕ). k ∷ (field ++ b.0)) is_cmd),
            split'
                ∙ ap (λ (r : Bytes). field ++ r)
                    (is_rest' ∙ split ∙ ap (λ (r : Bytes). b.0 ++ r) is_rest)
                ∙ sym (append_assoc field b.0 c'.delta),
            is_out,
            counted,
          )
    ]

-- The arm of the copies.
copy-Parsed :
    (base : Bytes) (cmd : ℕ) (c c' : Cursor Bytes)
    → 0x45 ≤ cmd
    → cmd ≤ 0x54
    → apply_copy {E = ⊥} base cmd c ≡ ok c'
    → Parsed base cmd c c'
unfolding apply_copy
copy-Parsed base cmd c c' lo hi e =
    let j = (cmd - 0x45) / 4 in
    let k = (cmd - 0x45) % 4 in
    let (o, e1, read) = bind-ok c' _ (read_varint (2 ^ j) "copy offset" c.delta) e in
    let (l, e2, read') = bind-ok c' _ (read_varint (2 ^ k) "copy length" o.1) e1 in
    let (bytes, e3, found) = bind-ok c' _ (copied_slice base o.0 l.0) e2 in
    let (offset, size, is_o, split) = read_varint-split (2 ^ j) "copy offset" c.delta o read in
    let (len, size', is_l, split') = read_varint-split (2 ^ k) "copy length" o.1 l read' in
    let (some_bytes, fits, inside) = copied_slice-ok base o.0 l.0 bytes found in
    let (is_rest, is_out, counted) = safe_extend-ok bytes l.1 "copy" c.out c.limit c' e3 in
    let is_cmd : cmd ≡ 0x45 + 4 * j + k = omega arith in
    (
      offset ++ len,
      bytes,
      copy j k offset len (omega arith) (omega arith) size size' (rw is_l some_bytes)
          (rw (is_o, is_l) fits) (rw (is_o, is_l) inside)
          (ap (λ (n : ℕ). n ∷ (offset ++ len)) is_cmd),
      split
          ∙ ap (λ (r : Bytes). offset ++ r) (split' ∙ ap (λ (r : Bytes). len ++ r) is_rest)
          ∙ sym (append_assoc offset len c'.delta),
      is_out,
      counted,
    )

apply_command-Parsed :
    (base : Bytes) (cmd : ℕ) (c c' : Cursor Bytes)
    → apply_command {E = ⊥} base cmd c ≡ ok c'
    → Parsed base cmd c c'
unfolding apply_command
apply_command-Parsed base cmd c c' e =
    elim (Bool-cases (leb rs_op_literal_1 cmd && leb cmd rs_op_literal_n8)) [
      | inl t ↦ literal-Parsed base cmd c c' (ground arith) (ground arith) (rw t at e)
      | inr f ↦ elim (Bool-cases (leb rs_op_copy_n1_n1 cmd && leb cmd rs_op_copy_n8_n8)) [
        | inl t ↦ copy-Parsed base cmd c c' (ground arith) (ground arith) (rw (f, t) at e)
        | inr f' ↦ let e' = rw (f, f') at e in cc
      ]
    ]

stop_at :
    (base delta rest : Bytes) (cmd : ℕ)
    → delta ≡ cmd ∷ rest
    → cmd ≡ rs_op_end
    → rest ≡ []
    → IsCommands base delta []
stop_at base delta rest cmd split is_end nothing = rw (split, is_end, nothing) stop

more_at :
    (base delta rest payload rest' made made' : Bytes) (cmd : ℕ)
    → delta ≡ cmd ∷ rest
    → rest ≡ payload ++ rest'
    → IsCommand base (cmd ∷ payload) made
    → IsCommands base rest' made'
    → IsCommands base delta (made ++ made')
more_at base delta rest payload rest' made made' cmd split is_rest command commands =
    rw (split, is_rest) (more (cmd ∷ payload) made rest' made' command commands)

-- The loop, up to its `break`.
loop-IsCommands :
    (fuel : ℕ) (base : Bytes) (c c' : Cursor Bytes)
    → apply_loop {E = ⊥} fuel base c ≡ ok c'
    → c'.delta ≡ []
    → (made : Bytes) × (IsCommands base c.delta made)
      × (c'.out ≡ c.out ++ made)
      × (c'.limit + length made ≡ c.limit)
unfolding apply_loop
loop-IsCommands zero base c c' e empty = cc
loop-IsCommands (suc fuel) base c c' e empty =
    let (r, next, first) = bind-ok c' _ (read_int 1 "cmd" c.delta) e in
    let split = read_cmd-split "cmd" c.delta r first in
    let behind : Cursor Bytes = record c { delta = r.1 } in
    elim (Bool-cases (r.0 == rs_op_end)) [
      | inl t ↦
          let same : behind ≡ c' = ok-injective _ _ (rw t at next) in
          let is_end : r.0 ≡ rs_op_end = ground arith in
          let nothing : r.1 ≡ [] = ap (λ (x : Cursor Bytes). x.delta) same ∙ empty in
          (
            [],
            stop_at base c.delta r.1 r.0 split is_end nothing,
            ap (λ (x : Cursor Bytes). x.out) (sym same) ∙ sym (append-nil c.out),
            ap (λ (x : Cursor Bytes). x.limit + 0) (sym same) ∙ omega arith,
          )
      | inr f ↦
          let (c1, e2, applied) = bind-ok c' _ (apply_command base r.0 behind) (rw f at next) in
          let (payload, made, command, is_delta, is_out, counted) =
            apply_command-Parsed base r.0 behind c1 applied in
          let (made', commands, is_out', counted') = loop-IsCommands fuel base c1 c' e2 empty in
          (
            made ++ made',
            more_at base c.delta r.1 payload c1.delta made made' r.0 split is_delta command
                commands,
            is_out' ∙ ap (λ (t : Bytes). t ++ made') is_out ∙ append_assoc c.out made made',
            omega (arith, length-append made made'),
          )
    ]

-- A delta that is applied to the base data without an error is one of the format, and what is
-- appended to the vector is what its commands stand for and within the limit.
pub apply_limited-IsCommands :
    (base delta out : Bytes) (limit : ℕ) (result : Bytes)
    → apply_limited {E = ⊥} base delta out limit ≡ ok result
    → (magic : Bytes) × (body : Bytes) × (made : Bytes) × (delta ≡ magic ++ body)
      × (length magic ≡ 4)
      × (from_be_bytes magic ≡ delta_magic)
      × (IsCommands base body made)
      × (result ≡ out ++ made)
      × (length made ≤ limit)
unfolding read_int
apply_limited-IsCommands base delta out limit result e =
    let a = apply_limited-Applied base delta out limit result e in
    let (r, next, first) =
      bind-ok (delta_magic, a.body) _ (read_n {E = ⊥} 4 "magic" delta) a.read in
    let (size, split) = read_n-split 4 "magic" delta r first in
    let same : (from_be_bytes r.0, r.1) ≡ (delta_magic, a.body) = ok-injective _ _ next in
    let (made, commands, is_out, counted) = loop-IsCommands _ base _ a.last a.looped a.at_end in
    (
      r.0,
      a.body,
      made,
      split ∙ ap (λ (t : ℕ × Bytes). r.0 ++ t.1) same,
      size,
      ap (λ (t : ℕ × Bytes). t.0) same,
      commands,
      sym a.is_out ∙ is_out,
      omega arith,
    )
