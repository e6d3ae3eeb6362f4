-- ===== src/Delta/Unchanged.antt =====
-- `diff` of src/diff.rs on data whose blocks stand in the base in the same order: one copy.
pub mod Blocks
use fast_rsync.Base.{
  ℕ, zero, suc, ◌+◌, ◌-◌, ◌*◌, ◌≤◌, ◌<◌, ◌≡◌, refl, ap, ◌∙◌, arith, true, false, Option, none, some,
  [], ◌∷◌, ◌++◌, append-nil, append_assoc, Bytes, length, length-drop, take_all, drop, drop_all,
  slice_in, ok, ltb, leb, ◌==◌, ◌&&◌, Bool-cases, inl, inr,
}
use fast_rsync.Base.Keys.{get, bytes_eq}
use fast_rsync.Consts.{rs_op_end}
use fast_rsync.Crc.{update}
use fast_rsync.Crc
use fast_rsync.Delta.Apply.{magic_bytes, magic_lem}
use fast_rsync.Delta.Decodes.{copy_bytes}
use fast_rsync.Delta.Rebuild.{IsNamed}
use fast_rsync.Delta.RoundTrip.{IsUsable}
use fast_rsync.Delta.Vec.{vec_write}
use fast_rsync.Delta.Windows.{window}
use fast_rsync.Diff.{
  Scan, allowed, match_digest, find_match, match_loop, diff_loop, diff_rounds, diff_fuel, diff,
}
use fast_rsync.Diff.Command.{
  write, insert_bytes, insert_command, write_varint, varint_bytes, size_class_marker, copy_command,
}
use fast_rsync.Diff.Output.{OutputState, emit_queued, emit_literal, emit, queue_copy, copy}
use native.Mathlib.Nat.{mul-le-mul_left, mul-le-mul_right}
use fast_rsync.Signature.Index.{IndexedSignature, crc_eq}
use Blocks.{queued, behind, diff_loop-behind}

-- A literal of a delta, with its command, unless it is empty.
unfoldable pub literal : Bytes → Bytes
literal [] = []
literal (x ∷ xs) = insert_bytes (length (x ∷ xs)) ++ (x ∷ xs)

literal_some : (xs : Bytes) → 1 ≤ length xs → literal xs ≡ insert_bytes (length xs) ++ xs
unfolding literal
literal_some [] lo = absurd (omega arith)
literal_some (x ∷ xs) lo = refl

-- What is left of the data becomes a literal.
emit_literal_lem :
    (emitted : ℕ) (q : Option (ℕ × ℕ)) (input out : Bytes)
    → emitted ≤ length input
    → emit_literal {E = ⊥} (record { emitted = emitted; queued_copy = q }) (length input) input out
      ≡ ok (record { emitted = length input; queued_copy = q }, out ++ literal (drop emitted input))
unfolding emit_literal insert_command write literal
emit_literal_lem emitted q input out h = elim (Bool-cases (ltb emitted (length input))) [
  | inr f ↦
      let at_end : emitted ≡ length input = ground arith in
      rw (f, drop_all emitted input (omega arith), append-nil, at_end)
  | inl t ↦
      let rest = drop emitted input in
      let size = length-drop emitted input in
      let below : emitted < length input = ground arith in
      let not_empty : (length rest == 0) ≡ false = ground arith in
      rw (
        t,
        slice_in input emitted (length input) h (omega arith),
        take_all (length input - emitted) rest (omega arith),
        not_empty,
        literal_some rest (omega arith),
        append_assoc,
      )
]

emit_queued_lem :
    (len : ℕ) (out : Bytes)
    → emit_queued {E = ⊥} (record { emitted = 0; queued_copy = some (0, len) }) out
      ≡ ok (record { emitted = 0 + len; queued_copy = some (0, len) }, out ++ copy_bytes 0 len)
unfolding emit_queued copy_command write_varint write
emit_queued_lem len out =
    let marker : Bytes = size_class_marker 0 len ∷ [] in
    let bytes =
      append_assoc (out ++ marker) (varint_bytes 0) (varint_bytes len)
      ∙ append_assoc out marker (varint_bytes 0 ++ varint_bytes len) in
    rw bytes

module _ (sig : IndexedSignature) (input : Bytes) (n : ℕ) (usable : IsUsable sig) (lo : 1 ≤ n)
    (inside : n * sig.block_size ≤ length input)
    (last : length input < n * sig.block_size + sig.block_size)
    (each : (i : ℕ)
      → i < n
      → IsNamed sig (window sig.block_size (i * sig.block_size) input) i) where
  emit-behind :
      (k : ℕ) (out : Bytes)
      → suc k ≡ n
      → (r : OutputState) × (emit {E = ⊥} (behind sig out n).state (length input) input out
          ≡ ok (
            r,
            out ++ (copy_bytes 0 (n * sig.block_size) ++ literal (drop (n * sig.block_size) input)),
          ))
  unfolding emit
  emit-behind k out e =
      let len = n * sig.block_size in
      let grown : 1 * sig.block_size ≤ len = mul-le-mul_right sig.block_size lo in
      let some_data : (0 == length input) ≡ false = let h = usable.not_empty in ground arith in
      let z : 0 + len ≡ len = omega arith in
      let tail = emit_literal_lem len (some (0, len)) input (out ++ copy_bytes 0 len) inside in
      (
        record { emitted = length input; queued_copy = some (0, len) },
        rw (← e, some_data, e, emit_queued_lem len out, z) (rw append_assoc at tail),
      )

  abbrev delta_of_copy : Bytes
  delta_of_copy =
      magic_bytes
      ++ (copy_bytes 0 (n * sig.block_size)
          ++ (literal (drop (n * sig.block_size) input) ++ (rs_op_end ∷ [])))

  diff_rounds-copy : diff_rounds {E = ⊥} (suc (length input)) sig input [] ≡ ok delta_of_copy
  unfolding diff_rounds
  diff_rounds-copy =
      let grown : n * 1 ≤ n * sig.block_size = mul-le-mul_left n usable.not_empty in
      let z : 0 * sig.block_size ≡ 0 = omega arith in
      let looped =
        diff_loop-behind sig input n usable.not_empty usable.hash_fits inside last each n
          (suc (length input)) 0 magic_bytes (omega arith) (omega arith) in
      let (r, emitted) = emit-behind (n - 1) magic_bytes (omega arith) in
      let copied = copy_bytes 0 (n * sig.block_size) in
      let rest = literal (drop (n * sig.block_size) input) in
      let shape =
        append_assoc magic_bytes (copied ++ rest) (rs_op_end ∷ [])
        ∙ ap (λ (t : Bytes). magic_bytes ++ t) (append_assoc copied rest (rs_op_end ∷ [])) in
      rw (magic_lem, rw z at looped, emitted) (ap ok shape)

  -- Data whose first blocks the index names by their numbers, in order, and that end in less than a
  -- block more: the delta is one copy of these blocks and a literal of the rest.
  pub diff-copy : diff {E = ⊥} sig input [] ≡ ok delta_of_copy
  unfolding diff diff_fuel
  diff-copy =
      let in_range : ltb 16 sig.crypto_hash_size ≡ false =
        let h = usable.hash_fits in ground arith in
      rw (usable.is_md4, diff_fuel, in_range) diff_rounds-copy
