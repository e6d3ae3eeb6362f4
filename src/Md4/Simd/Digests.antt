-- ===== src/Md4/Simd/Digests.antt =====
-- `md4xN` of src/md4/mod.rs digests each of its blocks as `md4` does.
use fast_rsync.Base.{
  ℕ, zero, suc, ◌+◌, ◌-◌, ◌*◌, ◌/◌, ◌%◌, ◌^◌, ◌≤◌, ◌<◌, ◌≡◌, refl, sym, ap, ◌∙◌, arith, List, [],
  ◌∷◌, map, Bytes, length, length-drop, length-take, drop, drop-drop, set, replicate, ltb, true,
  All, remainder, chunks_of, chunks_exact, Bool-cases, inl, inr,
}
use fast_rsync.Base.Words.{u32}
use fast_rsync.Md4.{Md4State, md4, initial, load_block, absorb, process_block, scalar, digest_bytes}
use fast_rsync.Md4.Simd.{
  Lanes, array_ref, row, all_len, padded, splat_initial, absorb_rows, set_bit_len, absorb_end,
  lane_state,
}
use fast_rsync.Md4.Simd.Ends.{
  bit_len, end_absorbed, with_bit_len, end_absorbed_short, end_absorbed_long, padded_lem,
}
use fast_rsync.Md4.Simd.Rounds.{IsLaneWise, process_block-lane}
use fast_rsync.Md4.Simd.Tail.{marked, length-marked}
use mathlib.Core.List.{foldl}

-- `md4` by its parts.
md4_lem :
    (input : Bytes)
    → md4 input
      ≡ digest_bytes (
          end_absorbed
            (length input)
            (remainder 64 input)
            (foldl absorb initial (chunks_exact 64 input)))
unfolding md4
md4_lem input = refl

map-set {ℓ κ} :
    {A : Type ℓ} {B : Type κ} (fn : A → B) (xs : List A) (k : ℕ) (x : A)
    → map fn (set xs k x) ≡ set (map fn xs) k (fn x)
map-set fn [] k x = refl
map-set fn (y ∷ xs) zero x = refl
map-set fn (y ∷ xs) (suc k) x = ap (λ t. fn y ∷ t) (map-set fn xs k x)

map-replicate {ℓ κ} :
    {A : Type ℓ} {B : Type κ} (fn : A → B) (k : ℕ) (x : A)
    → map fn (replicate k x) ≡ replicate k (fn x)
map-replicate fn zero x = refl
map-replicate fn (suc k) x = ap (λ t. fn x ∷ t) (map-replicate fn k x)

-- A row of blocks of one size.
row-All :
    (P : Bytes → Type 0) (rows : List Bytes) (j : ℕ) → All P rows → j < length rows → P (row rows j)
row-All P [] j all h = absurd (omega arith)
row-All P (r ∷ rows) zero all h = all.0
row-All P (r ∷ rows) (suc j) all h = row-All P rows j all.1 (omega arith)

pub all_len_lem :
    (len : ℕ) (rows : List Bytes) → All (λ r. length r ≡ len) rows → all_len len rows ≡ true
unfolding all_len
all_len_lem len [] h = refl
all_len_lem len (r ∷ rows) h = ground (arith, all_len_lem len rows h.1)

module _ {V : Type 0} (n : Lanes V) (w : IsLaneWise n) (rows : List Bytes) (len : ℕ)
    (count : length rows ≡ n.lanes) (sized : All (λ r. length r ≡ len) rows) where
  row-len : (j : ℕ) → j < n.lanes → length (row rows j) ≡ len
  row-len j h = row-All (λ r. length r ≡ len) rows j sized (omega arith)

  length-array_ref :
      (k j : ℕ) → j < n.lanes → 64 * k + 64 ≤ len → length (array_ref (row rows j) (64 * k) 64) ≡ 64
  length-array_ref k j h inside = omega (
    arith,
    length-take 64 (drop (64 * k) (row rows j)),
    length-drop (64 * k) (row rows j),
    row-len j h,
  )

  absorb_rows-lane :
      (left k : ℕ) (s : Md4State V) (i : ℕ)
      → i < n.lanes
      → 64 * (k + left) ≤ len
      → lane_state n (absorb_rows n left k rows s) i
        ≡ foldl absorb (lane_state n s i) (chunks_of left 64 (drop (64 * k) (row rows i)))
  unfolding absorb_rows chunks_of absorb
  absorb_rows-lane zero k s i h inside = refl
  absorb_rows-lane (suc left) k s i h inside =
      let block = λ (lane : ℕ). array_ref (row rows lane) (64 * k) 64 in
      let s1 = process_block n.ops s (n.load block) in
      let first : lane_state n s1 i ≡ absorb (lane_state n s i) (block i) =
        process_block-lane n w i h s (n.load block)
        ∙ ap (process_block scalar (lane_state n s i))
            (w.load_lane block i h (λ j k'. length-array_ref k j k' (omega arith))) in
      let next : drop 64 (drop (64 * k) (row rows i)) ≡ drop (64 * (k + 1)) (row rows i) =
        drop-drop (64 * k) 64 (64 * (k + 1)) (row rows i) (omega arith) in
      absorb_rows-lane left (k + 1) s1 i h (omega arith) ∙ rw (first, next)

  set_bit_len-lane :
      (words : List V) (i : ℕ)
      → i < n.lanes
      → map (λ v. n.lane v i) (set_bit_len n (bit_len len) words)
        ≡ with_bit_len len (map (λ v. n.lane v i) words)
  unfolding set_bit_len
  set_bit_len-lane words i h =
      let low = n.ops.splat (u32 (bit_len len)) in
      let high = n.ops.splat (u32 (bit_len len / 2 ^ 32)) in
      map-set (λ v. n.lane v i) (set words 14 low) 15 high
      ∙ rw (
        map-set (λ (v : V). n.lane v i) words 14 low,
        w.splat_lane (u32 (bit_len len)) i h (omega arith),
        w.splat_lane (u32 (bit_len len / 2 ^ 32)) i h (omega arith),
      )

  -- The bytes of a row behind its whole blocks.
  tail_len : (i : ℕ) → i < n.lanes → length (remainder 64 (row rows i)) ≡ len % 64
  unfolding remainder
  tail_len i h =
      let e = row-len i h in omega (arith, length-drop (length (row rows i) / 64 * 64) (row rows i))

  padded-lane :
      (i : ℕ) → i < n.lanes → padded len (row rows i) ≡ marked 64 (remainder 64 (row rows i))
  unfolding remainder
  padded-lane i h =
      let e = row-len i h in
      let at : len - len % 64 ≡ length (row rows i) / 64 * 64 = omega arith in
      padded_lem len (row rows i) e ∙ ap (λ (t : ℕ). marked 64 (drop t (row rows i))) at

  padded_words-lane :
      (i : ℕ)
      → i < n.lanes
      → map (λ v. n.lane v i) (n.load (λ lane. padded len (row rows lane)))
        ≡ load_block (marked 64 (remainder 64 (row rows i)))
  padded_words-lane i h =
      w.load_lane (λ lane. padded len (row rows lane)) i h
        (λ j k.
          ap length (padded-lane j k)
          ∙ length-marked 64 (remainder 64 (row rows j)) (omega (arith, tail_len j k)))
      ∙ ap load_block (padded-lane i h)

  absorb_end-lane :
      (s : Md4State V) (i : ℕ)
      → i < n.lanes
      → lane_state n (absorb_end n len rows s) i
        ≡ end_absorbed len (remainder 64 (row rows i)) (lane_state n s i)
  unfolding absorb_end
  absorb_end-lane s i h =
      let tail = remainder 64 (row rows i) in
      let blocks = n.load (λ lane. padded len (row rows lane)) in
      let zeros = replicate 16 (n.ops.splat 0) in
      let left = tail_len i h in
      elim (Bool-cases (ltb (len % 64) 56)) [
        | inl t ↦ rw t (
            process_block-lane n w i h s (set_bit_len n (bit_len len) blocks)
            ∙ rw (
              set_bit_len-lane blocks i h,
              padded_words-lane i h,
              end_absorbed_short len tail (lane_state n s i) (ground arith),
            ))
        | inr f ↦
            let zero_words : map (λ v. n.lane v i) zeros ≡ replicate 16 0 =
              map-replicate (λ v. n.lane v i) 16 (n.ops.splat 0)
              ∙ ap (λ (t : ℕ). replicate 16 t) (w.splat_lane 0 i h (omega arith)) in
            let ends = set_bit_len-lane zeros i h ∙ ap (with_bit_len len) zero_words in
            rw f (
              process_block-lane n w i h (process_block n.ops s blocks)
                (set_bit_len n (bit_len len) zeros)
              ∙ rw (
                process_block-lane n w i h s blocks,
                ends,
                padded_words-lane i h,
                end_absorbed_long len tail (lane_state n s i) (ground arith) (omega arith),
              ))
      ]

  -- A lane of the final state.
  pub final-lane :
      (i : ℕ)
      → i < n.lanes
      → digest_bytes (
          lane_state n
            (absorb_end n len rows (absorb_rows n (len / 64) 0 rows (splat_initial n)))
            i)
        ≡ md4 (row rows i)
  unfolding splat_initial lane_state chunks_exact
  final-lane i h =
      let e = row-len i h in
      let start : lane_state n (splat_initial n) i ≡ initial = rw (
        w.splat_lane initial.a i h (omega arith),
        w.splat_lane initial.b i h (omega arith),
        w.splat_lane initial.c i h (omega arith),
        w.splat_lane initial.d i h (omega arith),
      ) in
      ap digest_bytes (
        absorb_end-lane (absorb_rows n (len / 64) 0 rows (splat_initial n)) i h
        ∙ ap (end_absorbed len (remainder 64 (row rows i))) (
            absorb_rows-lane (len / 64) 0 (splat_initial n) i h (omega arith)
            ∙ ap (λ (s : Md4State ℕ). foldl absorb s (chunks_of (len / 64) 64 (row rows i))) start))
      ∙ rw (sym e) (sym (md4_lem (row rows i)))
