-- ===== src/Diff/Steps.antt =====
-- The scan of `diff` in src/diff.rs as a state machine: what one round of its inner loop changes, and
-- which states its loops reach.
use fast_rsync.Base.{
  ℕ, zero, suc, ◌+◌, ◌-◌, ◌*◌, ◌≡◌, ap, ◌∙◌, Bytes, length, slice, get_elem?, Bool-cases, Option,
  none, some, Option-cases, inl, inr, ltb, leb, ok, bind-ok, Write, ok_or_panic,
}
use fast_rsync.Crc.{Crc, update, rotate}
use fast_rsync.Crc
use fast_rsync.Diff.{Collisions, Scan, find_match, match_loop, diff_loop}
use fast_rsync.Diff.Output.{OutputState, copy}
use fast_rsync.Patch.Prefix.{ok-injective}
use fast_rsync.Signature.Index.{IndexedSignature}

-- One lookup: it finds a block, which is copied, or the scan moves on by a byte.
pub data ScanStep (E : Type 0) {W : Type 0} ⦃writer : Write E W⦄ (sig : IndexedSignature)
    (input : Bytes) : Scan W → Scan W → Type 0 where
  matched :
      (s : Scan W) (crc : Crc) (idx : ℕ) (collisions : Collisions) (state : OutputState) (out : W)
      → find_match {E = E} sig input s.here crc s.collisions ≡ ok (collisions, some idx)
      → copy {E = E} s.state (idx * sig.block_size) sig.block_size s.here input s.out
        ≡ ok (state, out)
      → ScanStep E sig input s (record {
        here = s.here + sig.block_size;
        collisions = collisions;
        state = state;
        out = out;
      })
  missed :
      (s : Scan W) (crc : Crc) (collisions : Collisions)
      → find_match {E = E} sig input s.here crc s.collisions ≡ ok (collisions, none)
      → ScanStep E sig input s (record s { here = s.here + 1; collisions = collisions })

-- Any number of lookups.
pub data Reaches (E : Type 0) {W : Type 0} ⦃writer : Write E W⦄ (sig : IndexedSignature)
    (input : Bytes) : Scan W → Scan W → Type 0 where
  still : (s : Scan W) → Reaches E sig input s s
  step :
      (s s1 s' : Scan W)
      → ScanStep E sig input s s1
      → Reaches E sig input s1 s'
      → Reaches E sig input s s'

module _ {E W : Type 0} ⦃writer : Write E W⦄ (sig : IndexedSignature) (input : Bytes) where
  pub Reaches-trans :
      (s s1 s' : Scan W)
      → Reaches E sig input s s1
      → Reaches E sig input s1 s'
      → Reaches E sig input s s'
  Reaches-trans s _ s' (still _) r = r
  Reaches-trans s s1 s' (step _ s2 _ st r) r' = step s s2 s' st (Reaches-trans s2 s1 s' r r')

  -- What each lookup keeps is kept along all of them.
  pub Reaches-keeps :
      (I : Scan W → Type 0)
      → ((s s' : Scan W) → I s → ScanStep E sig input s s' → I s')
      → (s s' : Scan W) → I s
      → Reaches E sig input s s'
      → I s'
  Reaches-keeps I keeps s _ i (still _) = i
  Reaches-keeps I keeps s s' i (step _ s1 _ st r) = Reaches-keeps I keeps s1 s' (keeps s s1 i st) r

  match_loop-Reaches :
      (fuel : ℕ) (crc : Crc) (s s' : Scan W)
      → match_loop {E = E} fuel sig input crc s ≡ ok s'
      → Reaches E sig input s s'
  unfolding match_loop
  match_loop-Reaches zero crc s s' e = cc
  match_loop-Reaches (suc fuel) crc s s' e =
      let (r, next, first) =
        bind-ok s' _ (find_match {E = E} sig input s.here crc s.collisions) e in
      elim (Option-cases r.1) [
        | inr (idx, hit) ↦
            let (c, last, copied) =
              bind-ok s' _ (copy s.state (idx * sig.block_size) sig.block_size s.here input s.out)
                (rw hit at next) in
            let same = ok-injective _ _ last in
            let at_hit : find_match {E = E} sig input s.here crc s.collisions ≡ ok (r.0, some idx) =
              first ∙ ap (λ (o : Option ℕ). ok (r.0, o)) hit in
            rw (← same) (step s _ _ (matched s crc idx r.0 c.0 c.1 at_hit copied) (still _))
        | inl miss ↦
            let at_miss : find_match {E = E} sig input s.here crc s.collisions ≡ ok (r.0, none) =
              first ∙ ap (λ (o : Option ℕ). ok (r.0, o)) miss in
            let moved : Scan W = record s { here = s.here + 1; collisions = r.0 } in
            let one = missed s crc r.0 at_miss in
            elim (Bool-cases (ltb (length input) (s.here + 1 + sig.block_size))) [
              | inl t ↦
                  let same = ok-injective _ _ (rw (miss, t) at next) in
                  rw (← same) (step s moved moved one (still moved))
              | inr f ↦
                  let (old_byte, e1, _) =
                    bind-ok s' _ (ok_or_panic (get_elem? input (s.here + 1 - 1)))
                      (rw (miss, f) at next) in
                  let (new_byte, e2, _) =
                    bind-ok s' _ (ok_or_panic (get_elem? input (s.here + 1 + sig.block_size - 1)))
                      e1 in
                  step s moved s' one (
                    match_loop-Reaches fuel (rotate crc sig.block_size old_byte new_byte) moved s'
                      e2)
            ]
      ]

  -- The state in which the loops of `diff` end is reached by lookups.
  pub diff_loop-Reaches :
      (fuel : ℕ) (s s' : Scan W)
      → diff_loop {E = E} fuel sig input s ≡ ok s'
      → Reaches E sig input s s'
  unfolding diff_loop
  diff_loop-Reaches zero s s' e = cc
  diff_loop-Reaches (suc fuel) s s' e = elim (Bool-cases (ltb (length input) s.here)) [
    | inl t ↦ let e' = rw t at e in cc
    | inr f ↦ elim (Bool-cases (leb sig.block_size (length input - s.here))) [
      | inr f' ↦ let same = ok-injective _ _ (rw (f, f') at e) in rw (← same) (still s)
      | inl t ↦
          let (window, e1, _) =
            bind-ok s' _ (ok_or_panic (slice input s.here (s.here + sig.block_size)))
              (rw (f, t) at e) in
          let (s1, e2, looped) =
            bind-ok s' _
              (match_loop (suc (length input - s.here)) sig input (update Crc.empty window) s) e1 in
          Reaches-trans s s1 s' (match_loop-Reaches _ _ s s1 looped)
            (diff_loop-Reaches fuel s1 s' e2)
    ]
  ]
