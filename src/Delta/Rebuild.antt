-- ===== src/Delta/Rebuild.antt =====
-- The scan of `diff` in src/diff.rs: it ends, and what it writes makes the data out of the base.
use fast_rsync.Base.{
  ℕ, zero, suc, ◌+◌, ◌-◌, ◌*◌, ◌^◌, ◌≤◌, ◌<◌, ◌≡◌, arith, Bytes, length, take, slice, slice_in,
  Outcome, ok, Option, none, some, Bool-cases, Option-cases, inl, inr, false, ltb, leb,
}
use fast_rsync.Base.Keys.{get, entry_or, bytes_eq}
use fast_rsync.Crc.{Crc, update, rotate}
use fast_rsync.Crc
use fast_rsync.Md4.{md4}
use fast_rsync.SecondLayerMap.{SecondLayerMap}
use fast_rsync.SecondLayerMap
use fast_rsync.Signature.Index.{IndexedSignature, crc_eq}
use fast_rsync.Delta.Vec.{vec_write}
use fast_rsync.Delta.Windows.{window, Moves-window, rotate-window}
use fast_rsync.Delta.Writes.{IsQueued, Covers, copy-Covers}
use fast_rsync.Diff.Digests.{match_digest_lem}
use fast_rsync.Diff.{Collisions, Scan, allowed, find_match, match_loop, diff_loop}

-- The index names block `idx` for a window.
abbrev pub IsNamed : IndexedSignature → Bytes → ℕ → Type 0
IsNamed sig w idx =
    (m : SecondLayerMap Bytes ℕ) × (get (update Crc.empty w) sig.blocks ≡ some m)
    × (SecondLayerMap.get (take sig.crypto_hash_size (md4 w)) m ≡ some idx)

-- Every block that the index names for a window of the data is that window.
pub record IsTrusted (base input : Bytes) (sig : IndexedSignature) : Type 0 where
  pub same :
      (here idx : ℕ)
      → here + sig.block_size ≤ length input
      → IsNamed sig (window sig.block_size here input) idx
      → slice base (idx * sig.block_size) (idx * sig.block_size + sig.block_size)
        ≡ some (window sig.block_size here input)

abbrev pub FoundNamed : IndexedSignature → Bytes → Option ℕ → Type 0
FoundNamed sig w none = Unit {0}
FoundNamed sig w (some idx) = IsNamed sig w idx

-- The lookup neither fails nor names a block that the index does not name.
pub find_match-FoundNamed :
    (sig : IndexedSignature) (input : Bytes) (here : ℕ) (collisions : Collisions)
    → sig.crypto_hash_size ≤ 16
    → here + sig.block_size ≤ length input
    → let w = window sig.block_size here input in
      (collisions' : Collisions) × (found : Option ℕ) × (find_match {E = ⊥} sig input here
          (update Crc.empty w)
          collisions
        ≡ ok (collisions', found))
      × FoundNamed sig w found
unfolding find_match
find_match-FoundNamed sig input here collisions short h =
    let w = window sig.block_size here input in
    let crc = update Crc.empty w in
    elim (Bool-cases (allowed crc collisions)) [
      | inr no_more ↦ (collisions, none, rw no_more, tt)
      | inl may ↦ elim (Option-cases (get crc sig.blocks)) [
        | inl absent ↦ (collisions, none, rw (may, absent), tt)
        | inr (m, e) ↦
            let back : here + sig.block_size - here ≡ sig.block_size = omega arith in
            let looked_up = match_digest_lem {E = ⊥} sig crc collisions m w in
            let in_data = slice_in input here (here + sig.block_size) (omega arith) h in
            elim (Option-cases (SecondLayerMap.get (take sig.crypto_hash_size (md4 w)) m)) [
              | inl miss ↦
                  let counted = entry_or crc 0 (λ count. count + 1) collisions in
                  (counted, none, rw (may, e, in_data, back, looked_up none short miss), tt)
              | inr (idx, hit) ↦ (
                collisions,
                some idx,
                rw (may, e, in_data, back, looked_up (some idx) short hit),
                (m, e, hit),
              )
            ]
      ]
    ]

-- Nothing that is queued is lost when the scan moves on.
IsQueued-suc :
    (base input : Bytes) (here emitted : ℕ) (queued : Option (ℕ × ℕ))
    → IsQueued base input here emitted queued
    → IsQueued base input (here + 1) emitted queued
IsQueued-suc base input here emitted none q = omega arith
IsQueued-suc base input here emitted (some (offset, len)) q = (omega arith, q.1, q.2)

module _ (base input : Bytes) (sig : IndexedSignature) (base_fits : length base < 2 ^ 64)
    (fits : length input < 2 ^ 64) (lo : 1 ≤ sig.block_size) (short : sig.crypto_hash_size ≤ 16)
    (trusted : IsTrusted base input sig) (pre : Bytes) where
  abbrev Good : Scan Bytes → Type 0
  Good s = Covers pre base input base_fits fits s.here s.state s.out

  -- What the inner loop hands back: a good state further on.
  abbrev Moved : ℕ → Outcome ⊥ (Scan Bytes) → Type 0
  Moved here result = (s' : Scan Bytes) × (result ≡ ok s') × (here < s'.here) × Good s'

  -- The state with the scan moved on by one byte.
  abbrev step_on : Scan Bytes → Collisions → Scan Bytes
  step_on s collisions = record s { here = s.here + 1; collisions = collisions }

  step_on-Good :
      (s : Scan Bytes) (collisions : Collisions)
      → Good s
      → s.here < length input
      → Good (step_on s collisions)
  step_on-Good s collisions g h = record {
    inside = omega arith;
    queued = IsQueued-suc base input s.here s.state.emitted s.state.queued_copy g.queued;
    written = g.written;
  }

  -- The rest of a round of the inner loop, once the lookup is done.
  after_lookup :
      (fuel : ℕ) (s : Scan Bytes) (collisions : Collisions) (found : Option ℕ)
      → let w = window sig.block_size s.here input in
        s.here + sig.block_size ≤ length input
        → Good s
        → find_match {E = ⊥} sig input s.here (update Crc.empty w) s.collisions
          ≡ ok (collisions, found)
        → FoundNamed sig w found
        → (s.here + 1 + sig.block_size ≤ length input
            → Moved (s.here + 1) (
                match_loop fuel sig input
                  (update Crc.empty (window sig.block_size (s.here + 1) input))
                  (step_on s collisions)))
        → Moved s.here (match_loop (suc fuel) sig input (update Crc.empty w) s)
  unfolding match_loop
  after_lookup fuel s collisions (some idx) h g e named next =
      let (state, out, copied, g') =
        copy-Covers pre base input base_fits fits (idx * sig.block_size) sig.block_size s.here
          s.state s.out lo h (trusted.same s.here idx h named) g in
      (
        record {
          here = s.here + sig.block_size;
          collisions = collisions;
          state = state;
          out = out;
        },
        rw (e, copied),
        omega arith,
        g',
      )
  after_lookup fuel s collisions none h g e named next =
      elim (Bool-cases (ltb (length input) (s.here + 1 + sig.block_size))) [
        | inl t ↦ (
          step_on s collisions,
          rw (e, t),
          omega arith,
          step_on-Good s collisions g (omega arith),
        )
        | inr f ↦
            let room : s.here + 1 + sig.block_size ≤ length input = ground arith in
            let m = Moves-window sig.block_size s.here input lo (omega arith) in
            let (s', moved, further, g') = next room in
            let at_old : s.here + 1 - 1 ≡ s.here = omega arith in
            let at_new : s.here + 1 + sig.block_size - 1 ≡ s.here + sig.block_size = omega arith in
            (
              s',
              rw
                  (
                    e,
                    f,
                    at_old,
                    m.at_front,
                    at_new,
                    m.behind,
                    rotate-window sig.block_size s.here input m h,
                  )
                  moved,
              omega arith,
              g',
            )
      ]

  -- The inner loop ends, without a panic, further on.
  match_loop-Moved :
      (fuel : ℕ) (s : Scan Bytes)
      → length input - s.here < fuel
      → s.here + sig.block_size ≤ length input
      → Good s
      → Moved s.here
          (match_loop fuel sig input (update Crc.empty (window sig.block_size s.here input)) s)
  match_loop-Moved zero s enough h g = absurd (omega arith)
  match_loop-Moved (suc fuel) s enough h g =
      let (collisions, found, e, named) =
        find_match-FoundNamed sig input s.here s.collisions short h in
      after_lookup fuel s collisions found h g e named (λ room.
        match_loop-Moved fuel (step_on s collisions) (omega arith) room
          (step_on-Good s collisions g (omega arith)))

  -- So does the outer one.
  pub diff_loop-Good :
      (fuel : ℕ) (s : Scan Bytes)
      → length input - s.here < fuel
      → Good s
      → (s' : Scan Bytes) × (diff_loop {E = ⊥} fuel sig input s ≡ ok s') × Good s'
  unfolding diff_loop
  diff_loop-Good zero s enough g = absurd (omega arith)
  diff_loop-Good (suc fuel) s enough g =
      elim (Bool-cases (leb sig.block_size (length input - s.here))) [
        | inr f ↦ (s, rw (in_data, f), g)
        | inl t ↦
            let h : s.here + sig.block_size ≤ length input = ground arith in
            let (s1, e1, further, g1) =
              match_loop-Moved (suc (length input - s.here)) s (omega arith) h g in
            let inside1 : s1.here ≤ length input = g1.inside in
            let (s2, e2, g2) = diff_loop-Good fuel s1 (omega arith) g1 in
            let back : s.here + sig.block_size - s.here ≡ sig.block_size = omega arith in
            let at = slice_in input s.here (s.here + sig.block_size) (omega arith) h in
            (s2, rw (in_data, t, at, back, e1) e2, g2)
      ]
    where
      in_data : ltb (length input) s.here ≡ false
      in_data = let i : s.here ≤ length input = g.inside in ground arith
