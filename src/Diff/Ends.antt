-- ===== src/Diff/Ends.antt =====
-- `diff` of src/diff.rs ends without a panic on every signature whose blocks are not empty.
use fast_rsync.Base.{
  ℕ, zero, suc, ◌+◌, ◌-◌, ◌*◌, ◌≤◌, ◌<◌, ◌≡◌, refl, inl, inr, arith, [], ◌∷◌, Bytes, false, length,
  Bool-cases, Option-cases, ltb, leb, Outcome, ok, EndsIn, bind-EndsIn, IsEnd, map_err, Write,
  slice_in, Option, none, some, get_elem?,
}
use fast_rsync.Base.Words.{to_be_bytes}
use fast_rsync.Base.Keys.{get, bytes_eq}
use fast_rsync.Consts.{delta_magic, rs_op_end}
use fast_rsync.Crc.{Crc, rotate}
use fast_rsync.Diff.{
  io, Collisions, Scan, allowed, match_digest, find_match, match_loop, diff_loop, diff_rounds,
  diff_fuel, diff,
}
use fast_rsync.Diff.Output.{copy}
use fast_rsync.Md4.{md4_size}
use fast_rsync.SecondLayerMap.{SecondLayerMap}
use fast_rsync.Diff.Digests.{match_digest_lem}
use fast_rsync.Signature.{SignatureType}
use fast_rsync.Signature.Index.{IndexedSignature, BlockIndex, crc_eq}
use fast_rsync.Diff.Emits.{IsBehind, Any, from_io-EndsIn, emit-EndsIn, copy-EndsIn}

match_digest-EndsIn :
    {E : Type 0} (sig : IndexedSignature) (crc : Crc) (collisions : Collisions)
    (blocks : SecondLayerMap Bytes ℕ) (window : Bytes)
    → sig.crypto_hash_size ≤ 16
    → EndsIn {E = E} Any (match_digest sig crc collisions blocks window)
match_digest-EndsIn sig crc collisions blocks window short =
    inl (_, match_digest_lem sig crc collisions blocks window _ short refl, tt)

find_match-EndsIn :
    {E : Type 0} (sig : IndexedSignature) (input : Bytes) (here : ℕ) (crc : Crc)
    (collisions : Collisions)
    → sig.crypto_hash_size ≤ 16
    → here + sig.block_size ≤ length input
    → EndsIn {E = E} Any (find_match sig input here crc collisions)
unfolding find_match
find_match-EndsIn sig input here crc collisions short h =
    elim (Bool-cases (allowed crc collisions)) [
      | inr f ↦ rw f (inl (_, refl, tt))
      | inl t ↦ elim (Option-cases (get crc sig.blocks)) [
        | inl absent ↦ rw (t, absent) (inl (_, refl, tt))
        | inr (m, there) ↦
            rw (t, there, slice_in input here (here + sig.block_size) (omega arith) h)
              (match_digest-EndsIn sig crc collisions m _ short)
      ]
    ]

get_elem?-in : (xs : Bytes) (k : ℕ) → k < length xs → (x : ℕ) × (get_elem? xs k ≡ some x)
get_elem?-in [] k h = absurd (omega arith)
get_elem?-in (x ∷ xs) zero h = (x, refl)
get_elem?-in (x ∷ xs) (suc k) h = get_elem?-in xs k (omega arith)

-- The scan stands in the data, not before `before`, and behind what the delta covers.
record IsOn {W : Type 0} (input : Bytes) (before : ℕ) (s : Scan W) : Type 0 where
  further : before ≤ s.here
  inside : s.here ≤ length input
  behind : IsBehind s.here s.state

IsBehind-le :
    (here here' emitted : ℕ) (queued : Option (ℕ × ℕ))
    → IsBehind here (record { emitted = emitted; queued_copy = queued })
    → here ≤ here'
    → IsBehind here' (record { emitted = emitted; queued_copy = queued })
IsBehind-le here here' emitted none b h = omega arith
IsBehind-le here here' emitted (some (o, l)) b h = omega arith

abbrev step_on : {W : Type 0} → Scan W → Collisions → Scan W
step_on s collisions = record s { here = s.here + 1; collisions = collisions }

module _ {E W : Type 0} ⦃writer : Write E W⦄ (sig : IndexedSignature) (input : Bytes)
    (lo : 1 ≤ sig.block_size) (short : sig.crypto_hash_size ≤ 16) where
  -- The rest of a round, once the lookup is done.
  after_lookup :
      (fuel : ℕ) (crc : Crc) (s : Scan W) (collisions : Collisions) (found : Option ℕ)
      → s.here + sig.block_size ≤ length input
      → IsBehind s.here s.state
      → find_match {E = E} sig input s.here crc s.collisions ≡ ok (collisions, found)
      → ((crc' : Crc)
          → s.here + 1 + sig.block_size ≤ length input
          → EndsIn {E = E}
              (IsOn input (s.here + 1))
              (match_loop fuel sig input crc' (step_on s collisions)))
      → EndsIn {E = E} (IsOn input (s.here + 1)) (match_loop (suc fuel) sig input crc s)
  unfolding match_loop
  after_lookup fuel crc s collisions (some idx) h b e next = rw e (
      bind-EndsIn (λ r. IsBehind (s.here + sig.block_size) r.0) _
        (copy s.state (idx * sig.block_size) sig.block_size s.here input s.out) _
        (copy-EndsIn s.state.emitted s.state.queued_copy _ sig.block_size s.here input s.out b
          (omega arith))
        (λ r b'. inl (_, refl, record { further = omega arith; inside = h; behind = b' })))
  after_lookup fuel crc s collisions none h b e next =
      elim (Bool-cases (ltb (length input) (s.here + 1 + sig.block_size))) [
        | inl t ↦
            let on : IsOn input (s.here + 1) (step_on s collisions) = record {
              further = omega arith;
              inside = omega arith;
              behind =
                  IsBehind-le s.here (s.here + 1) s.state.emitted s.state.queued_copy b
                    (omega arith);
            } in
            rw (e, t) (inl (_, refl, on))
        | inr f ↦
            let room : s.here + 1 + sig.block_size ≤ length input = ground arith in
            let (old, at_old) = get_elem?-in input (s.here + 1 - 1) (omega arith) in
            let (new, at_new) =
              get_elem?-in input (s.here + 1 + sig.block_size - 1) (omega arith) in
            rw (e, f, at_old, at_new) (next (rotate crc sig.block_size old new) room)
      ]

  IsOn-weaken :
      (here : ℕ) {m : Outcome E (Scan W)}
      → EndsIn {E = E} (IsOn input (here + 1 + 1)) m
      → EndsIn {E = E} (IsOn input (here + 1)) m
  IsOn-weaken here (inl (s, e, on)) =
      let further = on.further in
      inl (s, e, record { further = omega arith; inside = on.inside; behind = on.behind })
  IsOn-weaken here (inr (x, e)) = inr (x, e)

  match_loop-EndsIn :
      (fuel : ℕ) (crc : Crc) (s : Scan W)
      → length input - s.here < fuel
      → s.here + sig.block_size ≤ length input
      → IsBehind s.here s.state
      → EndsIn {E = E} (IsOn input (s.here + 1)) (match_loop fuel sig input crc s)
  match_loop-EndsIn zero crc s enough h b = absurd (omega arith)
  match_loop-EndsIn (suc fuel) crc s enough h b =
      elim (find_match-EndsIn {E = E} sig input s.here crc s.collisions short h) [
        | inr (x, e) ↦ unfold match_loop in rw e (inr (x, refl))
        | inl ((collisions, found), e, _) ↦
            after_lookup fuel crc s collisions found h b e (λ crc' room. IsOn-weaken s.here (
              match_loop-EndsIn fuel crc' (step_on s collisions) (omega arith) room (
                IsBehind-le s.here (s.here + 1) s.state.emitted s.state.queued_copy b
                  (omega arith))))
      ]

  diff_loop-EndsIn :
      (fuel : ℕ) (s : Scan W)
      → length input - s.here < fuel
      → s.here ≤ length input
      → IsBehind s.here s.state
      → EndsIn {E = E} (IsOn input 0) (diff_loop fuel sig input s)
  unfolding diff_loop
  diff_loop-EndsIn zero s enough hi b = absurd (omega arith)
  diff_loop-EndsIn (suc fuel) s enough hi b =
      let in_data : ltb (length input) s.here ≡ false = ground arith in
      elim (Bool-cases (leb sig.block_size (length input - s.here))) [
        | inr f ↦
            rw (in_data, f)
              (inl (s, refl, record { further = omega arith; inside = hi; behind = b }))
        | inl t ↦
            let h : s.here + sig.block_size ≤ length input = ground arith in
            rw (in_data, t, slice_in input s.here (s.here + sig.block_size) (omega arith) h)
              (bind-EndsIn (IsOn input (s.here + 1)) _
                (match_loop (suc (length input - s.here)) sig input _ s) (diff_loop fuel sig input)
                (match_loop-EndsIn (suc (length input - s.here)) _ s (omega arith) h b)
                (λ s' on.
                  let further = on.further in
                  let inside = on.inside in
                  diff_loop-EndsIn fuel s' (omega arith) inside on.behind))
      ]

map_err-IsEnd :
    {E F A : Type 0} (P : A → Type 0) (f : E → F) (m : Outcome E A)
    → EndsIn P m
    → IsEnd (map_err f m)
map_err-IsEnd P f m (inl (a, e, _)) = rw e (inl (a, refl))
map_err-IsEnd P f m (inr (x, e)) = rw e (inr (f x, refl))

module _ {E W : Type 0} ⦃writer : Write E W⦄ where
  diff_rounds-IsEnd :
      (fuel : ℕ) (sig : IndexedSignature) (input : Bytes) (out : W)
      → 1 ≤ sig.block_size
      → sig.crypto_hash_size ≤ 16
      → length input < fuel
      → IsEnd (diff_rounds {E = E} fuel sig input out)
  unfolding diff_rounds
  diff_rounds-IsEnd fuel sig input out lo short enough = map_err-IsEnd Any io _ (
      bind-EndsIn Any Any _ _
        (from_io-EndsIn (λ e. e) (writer.write_all (to_be_bytes 4 delta_magic) out))
        (λ out1 u.
          bind-EndsIn (IsOn input 0) Any _ _
            (diff_loop-EndsIn sig input lo short fuel _ (omega arith) (omega arith) (omega arith))
            (λ s on.
              let inside = on.inside in
              bind-EndsIn (λ r. r.0.emitted ≡ length input) Any _ _
                (emit-EndsIn s.state (length input) input s.out
                  (IsBehind-le s.here (length input) s.state.emitted s.state.queued_copy on.behind
                    inside)
                  (omega arith))
                (λ r e. from_io-EndsIn (λ e. e) (writer.write_all (rs_op_end ∷ []) r.1)))))

  diff-IsEnd_fields :
      (t : SignatureType) (block_size size : ℕ) (blocks : BlockIndex) (input : Bytes) (out : W)
      → 1 ≤ block_size
      → IsEnd (
          diff {E = E}
            (record {
              signature_type = t;
              block_size = block_size;
              crypto_hash_size = size;
              blocks = blocks;
            })
            input
            out)
  unfolding diff diff_fuel
  diff-IsEnd_fields SignatureType.blake2 block_size size blocks input out lo = inr (_, refl)
  diff-IsEnd_fields SignatureType.md4 block_size size blocks input out lo =
      elim (Bool-cases (ltb md4_size size)) [
        | inl t ↦ rw t (inr (_, refl))
        | inr f ↦
            rw f
              (diff_rounds-IsEnd (suc (length input)) _ input out lo (ground arith) (omega arith))
      ]

  -- Whatever the signature, if its blocks are not empty, and whatever the data and the writer, `diff`
  -- ends without a panic, in success or with an error.
  pub diff-IsEnd :
      (sig : IndexedSignature) (input : Bytes) (out : W)
      → 1 ≤ sig.block_size
      → IsEnd (diff {E = E} sig input out)
  diff-IsEnd sig input out lo =
      diff-IsEnd_fields sig.signature_type sig.block_size sig.crypto_hash_size sig.blocks input out
        lo
