-- ===== src/Fuzz/Agrees.antt =====
-- The assertions of fuzz/src/bin/fuzz.rs hold.
use fast_rsync.Base.{
  ◌%◌, ◌-◌, ◌≤◌, ◌≡◌, refl, arith, true, Bool-cases, inl, inr, [], Bytes, length, length-drop, take,
  drop, slice_in, ltb, leb, ok, err,
}
use fast_rsync.Base.Keys.{beq_bytes_iff}
use fast_rsync.Base.Words.{from_be_bytes}
use fast_rsync.Delta.Grammar.Parses.{apply_limited-IsCommands}
use fast_rsync.Delta.Grammar.Runs.{IsMagic-apply_limited}
use fast_rsync.Delta.Vec.{vec_write}
use fast_rsync.Diff.Command.{u32_max}
use fast_rsync.Fuzz.{Librsync, max_len, max_out, is_long_literal, is_empty, compare, fuzz}
use fast_rsync.Fuzz.Format.{IsDelta, FollowsFormat}
use fast_rsync.Fuzz.LongLiterals.{HasLongLiteral-err}
use fast_rsync.Patch.{ApplyError, unexpected_eof, apply_limited}
use fast_rsync.Patch.Ends.{apply_limited-IsEnd}

module _ (librsync : Librsync) (follows : FollowsFormat librsync) (base delta : Bytes)
    (small : length delta ≤ u32_max) where
  accepted :
      (out : Bytes)
      → apply_limited {E = ⊥} {W = Bytes} base delta [] max_out ≡ ok out
      → compare (ok out) (librsync base delta max_out) ≡ ok tt
  unfolding compare
  accepted out e =
      let (magic, body, made, whole, four, is_delta, commands, is_out, fits) =
        apply_limited-IsCommands base delta [] max_out out e in
      let d : IsDelta base delta made = record {
        magic = magic;
        body = body;
        whole = whole;
        is_magic = record { four = four; is_delta = is_delta };
        commands = commands;
      } in
      let within : leb (length made) max_out ≡ true = ground arith in
      rw (
        is_out,
        follows.accepts base delta made max_out small d fits,
        within,
        (beq_bytes_iff [] []).1 refl,
        (beq_bytes_iff made made).1 refl,
      )

  -- An error that is not excused is one where librsync fails, or leaves something of the delta.
  consumed_all :
      (x : ApplyError ⊥)
      → apply_limited {E = ⊥} {W = Bytes} base delta [] max_out ≡ err x
      → (librsync base delta max_out).is_ok ≡ true
      → (librsync base delta max_out).rest ≡ []
      → is_long_literal x ≡ true
  unfolding is_long_literal
  consumed_all x e good all = elim (follows.refuses base delta max_out good all) [
    | inl (made, d, fits) ↦
        let applied =
          IsMagic-apply_limited base d.magic d.body made [] max_out d.is_magic d.commands fits in
        let e' = rw d.whole at e in cc
    | inr h ↦
        let stopped = HasLongLiteral-err base delta [] max_out h small in
        let same : x ≡ unexpected_eof "literal" (from_be_bytes h.field) (length h.tail) = cc in
        rw same (ground (arith, h.is_long))
  ]

  refused :
      (x : ApplyError ⊥)
      → apply_limited {E = ⊥} {W = Bytes} base delta [] max_out ≡ err x
      → compare (err x) (librsync base delta max_out) ≡ ok tt
  unfolding compare
  refused x e = elim (Bool-cases (is_long_literal x)) [
    | inl t ↦ rw t
    | inr f ↦ elim (Bool-cases (librsync base delta max_out).is_ok) [
      | inr failed ↦ rw (f, failed)
      | inl good ↦ elim (Bool-cases (is_empty (librsync base delta max_out).rest)) [
        | inr left ↦ rw (f, good, left)
        | inl all ↦ let excused = consumed_all x e good ((beq_bytes_iff _ []).0 all) in cc
      ]
    ]
  ]

  compare-ok :
      compare
        (apply_limited {E = ⊥} {W = Bytes} base delta [] max_out)
        (librsync base delta max_out)
      ≡ ok tt
  compare-ok = elim (apply_limited-IsEnd {E = ⊥} {W = Bytes} base delta [] max_out) [
    | inl (out, e) ↦ rw e (accepted out e)
    | inr (x, e) ↦ rw e (refused x e)
  ]

-- With a librsync that follows the format but for truncated lengths of literals, and base data of at
-- least `MAX_LEN` bytes, the fuzz target runs through without a panic on every input of less than 4 GiB.
pub fuzz-ok :
    (librsync : Librsync) (base_data input : Bytes)
    → FollowsFormat librsync
    → max_len ≤ length base_data
    → length input ≤ u32_max
    → fuzz librsync base_data input ≡ ok tt
unfolding fuzz
fuzz-ok librsync base_data input follows enough small = elim (Bool-cases (ltb (length input) 4)) [
  | inl t ↦ rw t
  | inr f ↦
      let base_len = from_be_bytes (take 4 input) % max_len in
      let inside : base_len ≤ length base_data = omega arith in
      let delta_small : length (drop 4 input) ≤ u32_max = omega (arith, length-drop 4 input) in
      let whole : base_len - 0 ≡ base_len = omega arith in
      rw (f, slice_in base_data 0 base_len (omega arith) inside, whole)
        (compare-ok librsync follows (take base_len base_data) (drop 4 input) delta_small)
]
