-- ===== src/Diff/Fails/Run.antt =====
-- The errors that come of the calls of `diff` in src/diff.rs to its writer: all of it.
use fast_rsync.Base.{
  ℕ, zero, suc, ◌+◌, ◌-◌, ◌*◌, ◌≡◌, refl, none, Option-cases, inl, inr, [], ◌∷◌, Bytes, length,
  slice, get_elem?, ltb, leb, Outcome, ok, err, panic, stuck, ◌>>=◌, ok_or_panic, map_err, Write,
  from_io,
}
use fast_rsync.Base.Words.{to_be_bytes}
use fast_rsync.Base.Keys.{get, bytes_eq}
use fast_rsync.Consts.{delta_magic, rs_op_end}
use fast_rsync.Crc.{Crc, update, rotate}
use fast_rsync.Crc
use fast_rsync.Diff.{
  DiffError, io, Collisions, Scan, allowed, match_digest, find_match, match_loop, diff_loop,
  diff_rounds,
}
use fast_rsync.Md4.{md4}
use fast_rsync.SecondLayerMap.{SecondLayerMap}
use fast_rsync.SecondLayerMap
use fast_rsync.Diff.Command.{write}
use fast_rsync.Diff.Output.{OutputState, emit, copy}
use fast_rsync.Diff.Fails.{
  Follows, bind-Follows, if-Follows, ok_or_panic-Follows, Is, Second, Whatever, Wrote, nothing_yet,
  Refused, write-Follows, emit-Follows, copy-Follows,
}
use fast_rsync.Diff.Returns.{map_err-ok}
use fast_rsync.Signature.Index.{IndexedSignature, crc_eq}

abbrev Scanned : {E W : Type 0} → Write E W → W → Scan W → Type 0
Scanned writer out s = Wrote writer out s.out

module _ {E : Type 0} (P : E → Type 0) where
  match_digest-Follows :
      (sig : IndexedSignature) (crc : Crc) (collisions : Collisions)
      (blocks : SecondLayerMap Bytes ℕ) (part : Bytes)
      → Follows P Whatever (match_digest sig crc collisions blocks part)
  unfolding match_digest
  match_digest-Follows sig crc collisions blocks part =
      bind-Follows P Whatever Whatever (ok_or_panic (slice (md4 part) 0 sig.crypto_hash_size)) _
        (ok_or_panic-Follows P _)
        (λ hash _. elim (Option-cases (SecondLayerMap.get hash blocks)) [
          | inl miss ↦ rw miss tt
          | inr (idx, hit) ↦ rw hit tt
        ])

  find_match-Follows :
      (sig : IndexedSignature) (input : Bytes) (here : ℕ) (crc : Crc) (collisions : Collisions)
      → Follows P Whatever (find_match sig input here crc collisions)
  unfolding find_match
  find_match-Follows sig input here crc collisions =
      if-Follows P Whatever (allowed crc collisions) _ _
        (elim (Option-cases (get crc sig.blocks)) [
          | inl absent ↦ rw absent tt
          | inr (blocks, present) ↦ rw present (
              bind-Follows P Whatever Whatever
                (ok_or_panic (slice input here (here + sig.block_size))) _ (ok_or_panic-Follows P _)
                (λ part _. match_digest-Follows sig crc collisions blocks part))
        ])
        tt

module _ {E W : Type 0} ⦃writer : Write E W⦄ (out : W) where
  match_loop-Follows :
      (fuel : ℕ) (sig : IndexedSignature) (input : Bytes) (crc : Crc) (s : Scan W)
      → Scanned writer out s
      → Is writer out (Scanned writer out) (match_loop fuel sig input crc s)
  unfolding match_loop
  match_loop-Follows zero sig input crc s g = tt
  match_loop-Follows (suc fuel) sig input crc s g =
      bind-Follows (Refused writer out) Whatever (Scanned writer out)
        (find_match sig input s.here crc s.collisions) _
        (find_match-Follows (Refused writer out) sig input s.here crc s.collisions)
        (λ r _. elim (Option-cases r.1) [
          | inr (idx, hit) ↦ rw hit (
              bind-Follows (Refused writer out) (Second writer out) (Scanned writer out)
                (copy s.state (idx * sig.block_size) sig.block_size s.here input s.out) _
                (copy-Follows out s.state.emitted s.state.queued_copy _ sig.block_size s.here input
                  s.out g)
                (λ c gc. gc))
          | inl miss ↦ rw miss (
              if-Follows (Refused writer out) (Scanned writer out)
                (ltb (length input) (s.here + 1 + sig.block_size)) _ _ g
                (bind-Follows (Refused writer out) Whatever (Scanned writer out)
                  (ok_or_panic (get_elem? input (s.here + 1 - 1))) _
                  (ok_or_panic-Follows (Refused writer out) _)
                  (λ old_byte _.
                    bind-Follows (Refused writer out) Whatever (Scanned writer out)
                      (ok_or_panic (get_elem? input (s.here + 1 + sig.block_size - 1))) _
                      (ok_or_panic-Follows (Refused writer out) _)
                      (λ new_byte _.
                        match_loop-Follows fuel sig input
                          (rotate crc sig.block_size old_byte new_byte) _ g))))
        ])

  diff_loop-Follows :
      (fuel : ℕ) (sig : IndexedSignature) (input : Bytes) (s : Scan W)
      → Scanned writer out s
      → Is writer out (Scanned writer out) (diff_loop fuel sig input s)
  unfolding diff_loop
  diff_loop-Follows zero sig input s g = tt
  diff_loop-Follows (suc fuel) sig input s g =
      if-Follows (Refused writer out) (Scanned writer out) (ltb (length input) s.here) _ _ tt (
        if-Follows (Refused writer out) (Scanned writer out)
          (leb sig.block_size (length input - s.here)) _ _
          (bind-Follows (Refused writer out) Whatever (Scanned writer out)
            (ok_or_panic (slice input s.here (s.here + sig.block_size))) _
            (ok_or_panic-Follows (Refused writer out) _)
            (λ part _.
              bind-Follows (Refused writer out) (Scanned writer out) (Scanned writer out)
                (match_loop (suc (length input - s.here)) sig input (update Crc.empty part) s) _
                (match_loop-Follows (suc (length input - s.here)) sig input (update Crc.empty part)
                  s g)
                (λ s' g'. diff_loop-Follows fuel sig input s' g')))
          g)

  map_err-err :
      {F A : Type 0} (f : E → F) (m : Outcome E A) (x : F)
      → map_err f m ≡ err x
      → (e : E) × (m ≡ err e) × (x ≡ f e)
  map_err-err f (ok a) x h = cc
  map_err-err f (err e) x h = let same : x ≡ f e = cc in (e, refl, same)
  map_err-err f panic x h = cc
  map_err-err f stuck x h = cc

  -- `diff_rounds` before its errors are converted.
  abbrev rounds : ℕ → IndexedSignature → Bytes → Outcome E W
  rounds fuel sig input = do
    out1 ← from_io (λ y. y) (writer.write_all (to_be_bytes 4 delta_magic) out)
    let state : OutputState = record { emitted = 0; queued_copy = none }
    s ← diff_loop fuel sig input (record { here = 0; collisions = []; state = state; out = out1 })
    (state', out2) ← emit s.state (length input) input s.out
    from_io (λ y. y) (writer.write_all (rs_op_end ∷ []) out2)

  rounds-Follows :
      (fuel : ℕ) (sig : IndexedSignature) (input : Bytes)
      → Wrote writer out out
      → Is writer out (Wrote writer out) (rounds fuel sig input)
  rounds-Follows fuel sig input g =
      bind-Follows (Refused writer out) (Wrote writer out) (Wrote writer out)
        (from_io (λ y. y) (writer.write_all (to_be_bytes 4 delta_magic) out)) _ (writes _ out g)
        (λ out1 g1.
          bind-Follows (Refused writer out) (Scanned writer out) (Wrote writer out)
            (diff_loop fuel sig input _) _ (diff_loop-Follows fuel sig input _ g1)
            (λ s g.
              bind-Follows (Refused writer out) (Second writer out) (Wrote writer out)
                (emit s.state (length input) input s.out) _
                (emit-Follows out s.state (length input) input s.out g)
                (λ c gc. writes (rs_op_end ∷ []) c.1 gc)))
    where
      writes :
          (bytes : Bytes) (w' : W)
          → Wrote writer out w'
          → Is writer out (Wrote writer out) (from_io (λ y. y) (writer.write_all bytes w'))
      writes bytes w' g = unfold write in write-Follows out bytes w' g

  pub diff_rounds-Refused :
      (fuel : ℕ) (sig : IndexedSignature) (input : Bytes) (x : DiffError E)
      → diff_rounds fuel sig input out ≡ err x
      → (e : E) × (x ≡ io e) × Refused writer out e
  unfolding diff_rounds
  diff_rounds-Refused fuel sig input x h =
      let (e, failed_as, is_io) = map_err-err io (rounds fuel sig input) x h in
      let run = rounds-Follows fuel sig input nothing_yet in (e, is_io, rw failed_as at run)

  pub diff_rounds-Wrote :
      (fuel : ℕ) (sig : IndexedSignature) (input : Bytes) (w : W)
      → diff_rounds {E = E} fuel sig input out ≡ ok w
      → Wrote writer out w
  unfolding diff_rounds
  diff_rounds-Wrote fuel sig input w h =
      let ran = map_err-ok io (rounds fuel sig input) w h in
      let run = rounds-Follows fuel sig input nothing_yet in rw ran at run
