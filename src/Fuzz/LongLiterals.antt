-- ===== src/Fuzz/LongLiterals.antt =====
-- A literal that is longer than the rest of the delta, under `apply_limited` of src/patch.rs.
use fast_rsync.Base.{
  ℕ, zero, suc, ◌+◌, ◌-◌, ◌^◌, ◌≤◌, ◌<◌, ◌≡◌, ap, arith, true, false, ◌&&◌, ◌∷◌, ◌++◌, Bytes,
  length, length-append, leb, ltb, ◌==◌, err,
}
use fast_rsync.Base.Words.{from_be_bytes, usize_max}
use fast_rsync.Consts.{rs_op_literal_n1}
use fast_rsync.Delta.Apply.{read_magic}
use fast_rsync.Delta.Commands.{power_le}
use fast_rsync.Delta.Decodes.{at, Decodes, Decodes-nil, Decodes-append, read_cmd}
use fast_rsync.Delta.Grammar.Runs.{read_varint-append, IsCommand-Decodes}
use fast_rsync.Delta.Vec.{vec_write}
use fast_rsync.Diff.Command.{u32_max}
use fast_rsync.Fuzz.Format.{AreCommands, none_yet, one_more, HasLongLiteral}
use fast_rsync.Patch.{
  unexpected_eof, read_n, safe_cast, literal_length, apply_literal, apply_command, apply_loop,
  apply_limited,
}

AreCommands-Decodes : (base enc made : Bytes) → AreCommands base enc made → Decodes base enc made
AreCommands-Decodes base _ _ none_yet = Decodes-nil base
AreCommands-Decodes base _ _ (one_more enc xs rest ys c cs) =
    Decodes-append (IsCommand-Decodes base enc xs c) (AreCommands-Decodes base rest ys cs)

long_literal-err :
    (base field tail out : Bytes) (k limit fuel : ℕ)
    → 0 < fuel
    → k ≤ 3
    → length field ≡ 2 ^ k
    → from_be_bytes field ≤ usize_max
    → length tail < from_be_bytes field
    → apply_loop {E = ⊥} fuel base (at ((rs_op_literal_n1 + k) ∷ (field ++ tail)) out limit)
      ≡ err (unexpected_eof "literal" (from_be_bytes field) (length tail))
unfolding apply_loop apply_command apply_literal literal_length safe_cast read_n
long_literal-err base field tail out k limit zero lo small size fits short = absurd (omega arith)
long_literal-err base field tail out k limit (suc fuel) lo small size fits short =
    let cmd = rs_op_literal_n1 + k in
    let minus : cmd - rs_op_literal_n1 ≡ k = omega arith in
    let not_short : leb cmd 64 ≡ false = ground arith in
    let not_end : (cmd == 0) ≡ false = ground arith in
    let is_literal : (leb 1 cmd && leb cmd 0x44) ≡ true = ground arith in
    let is_usize : ltb usize_max (from_be_bytes field) ≡ false = ground arith in
    let too_short : ltb (length tail) (from_be_bytes field) ≡ true = ground arith in
    rw (
      read_cmd "cmd" cmd (field ++ tail),
      not_end,
      is_literal,
      not_short,
      minus,
      read_varint-append (2 ^ k) "literal length" field tail (power_le k small) size,
      is_usize,
      too_short,
    )

-- `apply_limited` stops at it.
pub HasLongLiteral-err :
    (base delta out : Bytes) (limit : ℕ) (h : HasLongLiteral base delta limit)
    → length delta ≤ u32_max
    → apply_limited {E = ⊥} base delta out limit
      ≡ err (unexpected_eof "literal" (from_be_bytes h.field) (length h.tail))
unfolding apply_limited
HasLongLiteral-err base delta out limit h small =
    let literal = (rs_op_literal_n1 + h.k) ∷ (h.field ++ h.tail) in
    let body = h.front ++ literal in
    let (fuel, enough, e) =
      (AreCommands-Decodes base h.front h.made h.commands).runs (suc (length body)) limit literal
        out (omega arith) h.fits in
    let short : length h.tail < from_be_bytes h.field =
      let h1 = length-append h.magic body in
      let h2 = length-append h.front literal in
      let h3 = length-append h.field h.tail in
      let whole : length delta ≡ length (h.magic ++ body) = ap length h.whole in omega arith in
    rw (
      h.whole,
      read_magic h.magic body h.is_magic,
      e,
      long_literal-err base h.field h.tail (out ++ h.made) h.k (limit - length h.made) fuel
          (omega arith) h.k_lt h.size h.is_usize short,
    )
