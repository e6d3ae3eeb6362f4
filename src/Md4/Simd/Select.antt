-- ===== src/Md4/Simd/Select.antt =====
-- The function that `select` of src/md4/mod.rs hands to `md4_many`.
use fast_rsync.Base.{
  ℕ, zero, suc, ◌+◌, ◌-◌, ◌/◌, ◌≤◌, ◌<◌, ◌≡◌, refl, sym, ap, ◌∙◌, arith, List, [], ◌∷◌, ◌++◌, map,
  Bytes, length, length-append, length-map, take, drop, drop_all, replicate, ltb, false, All, ok,
  take-append,
}
use fast_rsync.Md4.{Md4State, md4, digest_bytes}
use fast_rsync.Md4.Many.{Target, max_lanes}
use fast_rsync.Md4.Many.Contract.{IsMd4}
use fast_rsync.Md4.Simd.{
  Lanes, row, splat_initial, absorb_rows, absorb_end, lane_state, lane_digests, md4_xn, select_fun,
}
use fast_rsync.Md4.Simd.Digests.{final-lane, all_len_lem}
use fast_rsync.Md4.Simd.Rounds.{IsLaneWise}

drop-row :
    (k : ℕ) (rows : List Bytes) → k < length rows → drop k rows ≡ row rows k ∷ drop (k + 1) rows
drop-row k [] h = absurd (omega arith)
drop-row zero (r ∷ rows) h = let e : 0 + 1 ≡ 1 = omega arith in refl
drop-row (suc k) (r ∷ rows) h =
    let e : suc k + 1 ≡ suc (k + 1) = omega arith in rw e (drop-row k rows (omega arith))

lane_digests_lem :
    {V : Type 0} (n : Lanes V) (rows : List Bytes) (s : Md4State V) (left k : ℕ)
    → k + left ≡ length rows
    → ((i : ℕ) → i < length rows → digest_bytes (lane_state n s i) ≡ md4 (row rows i))
    → lane_digests n left k s ≡ map md4 (drop k rows)
unfolding lane_digests
lane_digests_lem n rows s zero k e each = sym (ap (map md4) (drop_all k rows (omega arith)))
lane_digests_lem n rows s (suc left) k e each = rw (
  each k (omega arith),
  lane_digests_lem n rows s left (k + 1) (omega arith) each,
  drop-row k rows (omega arith),
)

module _ {V : Type 0} (n : Lanes V) (w : IsLaneWise n) where
  -- With lane-wise operations, `md4xN` of as many blocks of one size as there are lanes does not panic,
  -- and gives the digest of each, in order.
  pub md4_xn-eq-map :
      (rows : List Bytes) (len : ℕ)
      → 1 ≤ n.lanes
      → length rows ≡ n.lanes
      → All (λ r. length r ≡ len) rows
      → md4_xn n rows ≡ ok (map md4 rows)
  unfolding md4_xn
  md4_xn-eq-map [] len lo count sized = absurd (omega arith)
  md4_xn-eq-map (r ∷ rows) len lo count sized =
      let s =
        absorb_end n len (r ∷ rows) (absorb_rows n (len / 64) 0 (r ∷ rows) (splat_initial n)) in
      let whole : lane_digests n n.lanes 0 s ≡ map md4 (r ∷ rows) =
        lane_digests_lem n (r ∷ rows) s n.lanes 0 (omega arith)
          (λ i h. final-lane n w (r ∷ rows) len count sized i (omega arith)) in
      rw (sized.0, all_len_lem len rows sized.1, whole)

  -- The unit that `select` hands out does what is asked of it.
  pub select_fun-IsMd4 :
      (target : Target)
      → 1 ≤ n.lanes
      → n.lanes ≤ max_lanes target
      → IsMd4 {target = target} (record { lanes = n.lanes; fun = select_fun n target })
  select_fun-IsMd4 target lo hi = record { some_lanes = lo; digests = digests }
    where
      digests :
          (size : ℕ) (datas : List Bytes)
          → length datas ≡ n.lanes
          → All (λ block. length block ≡ size) datas
          → (found : List Bytes) × (select_fun n target
                (datas ++ replicate (max_lanes target - n.lanes) [])
              ≡ ok found)
            × (take n.lanes found ≡ map md4 datas)
      digests size datas count sized =
          let fill = replicate {A = Bytes} (max_lanes target - n.lanes) [] in
          let enough : ltb (length (datas ++ fill)) n.lanes ≡ false =
            ground (arith, length-append datas fill) in
          let unused : List Bytes = replicate (max_lanes target - n.lanes) (replicate 16 0) in
          (
            map md4 datas ++ unused,
            unfold select_fun in
                rw (
                  enough,
                  take-append n.lanes datas fill count,
                  md4_xn-eq-map datas size lo count sized,
                ),
            take-append n.lanes (map md4 datas) unused (length-map md4 datas ∙ count),
          )
