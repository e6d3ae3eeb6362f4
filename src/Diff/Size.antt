-- ===== src/Diff/Size.antt =====
-- How long the delta is that `diff` of src/diff.rs writes into a vector.
pub mod Commands
pub mod Paid
use fast_rsync.Base.{
  ℕ, suc, ◌+◌, ◌*◌, ◌/◌, ◌≤◌, ◌≡◌, refl, ap, arith, [], ◌∷◌, ◌++◌, Bytes, length, length-append,
  length-take, length-drop, slice, take, drop, Bool-cases, Option, none, some, Option-cases, inl,
  inr, leb, ltb, ◌==◌, ◌&&◌, Outcome, ok, err, bind-ok, ◌^◌, ◌-◌,
}
use fast_rsync.Base.Words.{to_be_bytes, length-to_be_bytes}
use native.Mathlib.Nat.{le-div_iff_mul-le}
use fast_rsync.Base.Slices.{length-slice}
use fast_rsync.Delta.Vec.{vec_write}
use fast_rsync.Diff.Command.{
  write, insert_bytes, insert_command, varint_bytes, write_varint, size_class_marker, copy_command,
}
use fast_rsync.Diff.Output.{OutputState, emit_queued, emit_literal, emit, queue_copy, copy}
use fast_rsync.Consts.{delta_magic, rs_op_end}
use fast_rsync.Diff.{
  Scan, io, invalid_signature, find_match, diff_loop, diff_rounds, diff_fuel, diff, allowed,
}
use fast_rsync.Diff.Returns.{from_io-written, map_err-ok, diff-diff_rounds}
use fast_rsync.Diff.Steps.{ScanStep, matched, missed, Reaches-keeps, diff_loop-Reaches}
use fast_rsync.Md4.{md4_size}
use fast_rsync.Signature.{SignatureType}
use fast_rsync.Signature.Index.{IndexedSignature}
use fast_rsync.Crc.{Crc}
use fast_rsync.Crc
use fast_rsync.Diff.{Collisions}
use fast_rsync.Base.{ok_or_panic}
use fast_rsync.Base.Keys.{get}
use fast_rsync.Signature.Index.{crc_eq}
use fast_rsync.Patch.Prefix.{ok-injective}
use Paid.{length_of_queued, cost_of_queued, Accounted, Emitted, IsPaid, emit-Emitted, copy-IsPaid}

-- A block is found in a window that lies in the data.
find_match-inside :
    (sig : IndexedSignature) (input : Bytes) (here : ℕ) (crc : Crc)
    (collisions collisions' : Collisions) (idx : ℕ)
    → find_match {E = ⊥} sig input here crc collisions ≡ ok (collisions', some idx)
    → here + sig.block_size ≤ length input
unfolding find_match
find_match-inside sig input here crc collisions collisions' idx e =
    elim (Bool-cases (allowed crc collisions)) [
      | inr f ↦ let e' = rw f at e in cc
      | inl t ↦ elim (Option-cases (get crc sig.blocks)) [
        | inl out ↦ let e' = rw (t, out) at e in cc
        | inr (blocks, hit) ↦ elim (Option-cases (slice input here (here + sig.block_size))) [
          | inl out ↦ let e' = rw (t, hit, out) at e in cc
          | inr (part, inside) ↦ (length-slice input part here (here + sig.block_size) inside).1
        ]
      ]
    ]

abbrev IsPaidScan : IndexedSignature → Bytes → Scan Bytes → Type 0
IsPaidScan sig input s =
    IsPaid sig.block_size input s.here s.state.emitted s.state.queued_copy (length s.out)

step-IsPaid :
    (sig : IndexedSignature) (input : Bytes) (s s' : Scan Bytes)
    → IsPaidScan sig input s
    → ScanStep ⊥ sig input s s'
    → IsPaidScan sig input s'
step-IsPaid sig input s _ p (matched _ crc idx collisions state out found copied) =
    copy-IsPaid s.state.emitted s.state.queued_copy (idx * sig.block_size) sig.block_size s.here
      input s.out (state, out) p
      (find_match-inside sig input s.here crc s.collisions collisions idx found) copied
step-IsPaid sig input s _ p (missed _ crc collisions found) = record {
  account = p.account;
  behind = omega (arith, p.behind);
  inside = p.inside;
}

diff_rounds-length :
    (fuel : ℕ) (sig : IndexedSignature) (input delta : Bytes)
    → 1 ≤ sig.block_size
    → diff_rounds {E = ⊥} fuel sig input [] ≡ ok delta
    → length delta ≤ 14 + length input + 26 * (length input / sig.block_size)
unfolding diff_rounds
diff_rounds-length fuel sig input delta lo e =
    let e0 = map_err-ok io _ delta e in
    let start : Bytes = to_be_bytes 4 delta_magic in
    let (s, e1, scanned) = bind-ok delta _ (diff_loop {E = ⊥} fuel sig input _) e0 in
    let paid =
      Reaches-keeps sig input (IsPaidScan sig input) (step-IsPaid sig input) _ s
        (record {
          account = record {
            copies = 0;
            spent = omega (arith, length-to_be_bytes 4 delta_magic);
            covered = omega arith;
          };
          behind = omega arith;
          inside = omega arith;
        })
        (diff_loop-Reaches sig input fuel _ s scanned) in
    let (c, e2, last) = bind-ok delta _ (emit s.state (length input) input s.out) e1 in
    let m =
      emit-Emitted sig.block_size s.state.emitted s.state.queued_copy (length input) input s.out c
        paid.account paid.inside last in
    let same : c.1 ++ (rs_op_end ∷ []) ≡ delta = ok-injective _ _ e2 in
    let few : m.copies ≤ length input / sig.block_size =
      (le-div_iff_mul-le (omega arith)).1 (omega (arith, m.covered)) in
    rw (← same) (omega (arith, length-append c.1 (rs_op_end ∷ []), m.spent))

-- What `diff` writes into an empty vector, on a signature whose blocks hold a byte at least, is at most
-- 14 bytes longer than the data, and 26 bytes more for each block that fits into the data.
pub length-diff :
    (sig : IndexedSignature) (input delta : Bytes)
    → 1 ≤ sig.block_size
    → diff {E = ⊥} sig input [] ≡ ok delta
    → length delta ≤ 14 + length input + 26 * (length input / sig.block_size)
length-diff sig input delta lo e =
    diff_rounds-length (suc (length input)) sig input delta lo
      (diff-diff_rounds sig input [] delta e)
