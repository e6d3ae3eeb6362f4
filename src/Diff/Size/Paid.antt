-- ===== src/Diff/Size/Paid.antt =====
-- What the output of src/diff.rs has accounted for: 26 bytes at most for each copy, and the data.
use fast_rsync.Base.{
  ℕ, ◌+◌, ◌*◌, ◌≤◌, ◌≡◌, refl, arith, Bytes, length, slice, Bool-cases, Option, none, some,
  Option-cases, inl, inr, ltb, ◌==◌, ◌&&◌, ok, bind-ok,
}
use fast_rsync.Base.Slices.{length-slice}
use fast_rsync.Delta.Vec.{vec_write}
use fast_rsync.Diff.Command.{write, insert_command, copy_command}
use fast_rsync.Diff.Output.{OutputState, emit_queued, emit_literal, emit, queue_copy, copy}
use fast_rsync.Patch.Prefix.{ok-injective}
use fast_rsync.Diff.Size.Commands.{length-write, length-insert_command, length-copy_command}

abbrev pub length_of_queued : Option (ℕ × ℕ) → ℕ
length_of_queued none = 0
length_of_queued (some (offset, len)) = len

-- The bytes of the command that a queued copy may still take.
abbrev pub cost_of_queued : Option (ℕ × ℕ) → ℕ
cost_of_queued none = 0
cost_of_queued (some queued) = 17

-- A vector of `len` bytes, in a state of the output: past the magic number and the data that it
-- covers, it has spent 26 bytes at most on each of `copies` copies, which cover a block each.
pub record Accounted (block_size emitted : ℕ) (queued : Option (ℕ × ℕ)) (len : ℕ) : Type 0 where
  pub copies : ℕ
  pub spent : len + cost_of_queued queued ≤ 4 + emitted + 26 * copies
  pub covered : block_size * copies ≤ emitted + length_of_queued queued

-- What `emit` leaves, when it has covered the data up to `until`.
pub record Emitted (block_size until : ℕ) (r : OutputState × Bytes) : Type 0 where
  pub copies : ℕ
  pub at_until : r.0.emitted ≡ until
  pub spent : length r.1 ≤ 13 + until + 26 * copies
  pub covered : block_size * copies ≤ until

emit_literal-Emitted :
    (block_size copies until : ℕ) (s : OutputState) (input w : Bytes) (r : OutputState × Bytes)
    → s.emitted ≤ until
    → length w ≤ 4 + s.emitted + 26 * copies
    → block_size * copies ≤ until
    → emit_literal {E = ⊥} s until input w ≡ ok r
    → Emitted block_size until r
unfolding emit_literal
emit_literal-Emitted block_size copies until s input w r lo spent covered e =
    elim (Bool-cases (ltb s.emitted until)) [
      | inr f ↦
          let same = ok-injective _ _ (rw f at e) in
          rw (← same) (record {
            copies = copies;
            at_until = ground arith;
            spent = omega arith;
            covered = covered;
          })
      | inl t ↦ elim (Option-cases (slice input s.emitted until)) [
        | inl out ↦ let e' = rw (t, out) at e in cc
        | inr (part, inside) ↦
            let (w1, e1, first) =
              bind-ok r _ (insert_command (length part) w) (rw (t, inside) at e) in
            let (w2, e2, second) = bind-ok r _ (write part w1) e1 in
            let same = ok-injective _ _ e2 in
            rw (← same) (record {
              copies = copies;
              at_until = refl;
              spent = omega (
                arith,
                length-insert_command (length part) w w1 first,
                length-write part w1 w2 second,
                (length-slice input part s.emitted until inside).0,
              );
              covered = covered;
            })
      ]
    ]

emit_queued-covers :
    (emitted : ℕ) (queued : Option (ℕ × ℕ)) (w : Bytes) (r : OutputState × Bytes)
    → emit_queued {E = ⊥} (record { emitted = emitted; queued_copy = queued }) w ≡ ok r
    → (r.0.emitted ≡ emitted + length_of_queued queued)
      × (length r.1 ≤ length w + cost_of_queued queued)
unfolding emit_queued
emit_queued-covers emitted none w r e =
    let same = ok-injective _ _ e in rw (← same) (omega arith, omega arith)
emit_queued-covers emitted (some (offset, len)) w r e =
    let (w1, e1, first) = bind-ok r _ (copy_command offset len w) e in
    let same = ok-injective _ _ e1 in rw (← same) (refl, length-copy_command offset len w w1 first)

pub emit-Emitted :
    (block_size emitted : ℕ) (queued : Option (ℕ × ℕ)) (until : ℕ) (input w : Bytes)
    (r : OutputState × Bytes)
    → Accounted block_size emitted queued (length w)
    → emitted + length_of_queued queued ≤ until
    → emit {E = ⊥} (record { emitted = emitted; queued_copy = queued }) until input w ≡ ok r
    → Emitted block_size until r
unfolding emit
emit-Emitted block_size emitted queued until input w r a lo e =
    elim (Bool-cases (emitted == until)) [
      | inl t ↦
          let same = ok-injective _ _ (rw t at e) in
          let reached : emitted ≡ until = ground arith in
          rw (← same) (record {
            copies = a.copies;
            at_until = reached;
            spent = omega (arith, a.spent);
            covered = omega (arith, a.covered);
          })
      | inr f ↦
          let (c, e1, first) = bind-ok r _ (emit_queued _ w) (rw f at e) in
          let (past, paid) = emit_queued-covers emitted queued w c first in
          emit_literal-Emitted block_size a.copies until c.0 input c.1 r (omega arith)
            (omega (arith, a.spent)) (omega (arith, a.covered)) e1
    ]

-- A position of the scan, with what the output has accounted for: the copies lie in the data.
pub record IsPaid (block_size : ℕ) (input : Bytes) (here emitted : ℕ) (queued : Option (ℕ × ℕ))
    (len : ℕ) : Type 0 where
  pub account : Accounted block_size emitted queued len
  pub behind : emitted + length_of_queued queued ≤ here
  pub inside : emitted + length_of_queued queued ≤ length input

abbrev IsPaidAt : ℕ → Bytes → ℕ → OutputState × Bytes → Type 0
IsPaidAt block_size input here r =
    IsPaid block_size input here r.0.emitted r.0.queued_copy (length r.1)

queue_copy-IsPaid :
    (emitted : ℕ) (queued : Option (ℕ × ℕ)) (offset block_size here : ℕ) (input w : Bytes)
    (r : OutputState × Bytes)
    → IsPaid block_size input here emitted queued (length w)
    → here + block_size ≤ length input
    → queue_copy {E = ⊥}
        (record { emitted = emitted; queued_copy = queued })
        offset
        block_size
        here
        input
        w
      ≡ ok r
    → IsPaidAt block_size input (here + block_size) r
unfolding queue_copy
queue_copy-IsPaid emitted queued offset block_size here input w r p fits e =
    let (c, e1, first) = bind-ok r _ (emit _ here input w) e in
    let same = ok-injective _ _ e1 in
    let m = emit-Emitted block_size emitted queued here input w c p.account p.behind first in
    let one_more : block_size * (m.copies + 1) ≡ block_size * m.copies + block_size = omega arith in
    rw (← same) (record {
      account = record {
        copies = m.copies + 1;
        spent = omega (arith, m.spent, m.at_until);
        covered = omega (arith, m.covered, m.at_until, one_more);
      };
      behind = omega (arith, m.at_until);
      inside = omega (arith, m.at_until);
    })

pub copy-IsPaid :
    (emitted : ℕ) (queued : Option (ℕ × ℕ)) (offset block_size here : ℕ) (input w : Bytes)
    (r : OutputState × Bytes)
    → IsPaid block_size input here emitted queued (length w)
    → here + block_size ≤ length input
    → copy {E = ⊥}
        (record { emitted = emitted; queued_copy = queued })
        offset
        block_size
        here
        input
        w
      ≡ ok r
    → IsPaidAt block_size input (here + block_size) r
unfolding copy
copy-IsPaid emitted none offset block_size here input w r p fits e =
    queue_copy-IsPaid emitted none offset block_size here input w r p fits e
copy-IsPaid emitted (some (o, l)) offset block_size here input w r p fits e =
    elim (Bool-cases (emitted + l == here && o + l == offset)) [
      | inr f ↦
          queue_copy-IsPaid emitted (some (o, l)) offset block_size here input w r p fits
            (rw f at e)
      | inl t ↦
          let same = ok-injective _ _ (rw t at e) in
          let at_here : emitted + l ≡ here = ground arith in
          rw (← same) (record {
            account = record {
              copies = p.account.copies;
              spent = p.account.spent;
              covered = omega (arith, p.account.covered);
            };
            behind = omega arith;
            inside = omega arith;
          })
    ]
