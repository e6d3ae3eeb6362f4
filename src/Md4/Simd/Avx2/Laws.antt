-- ===== src/Md4/Simd/Avx2/Laws.antt =====
-- The eight lanes of src/md4/mod.rs on x86 are lane-wise, when the intrinsics do what is documented
-- of them.
use fast_rsync.Base.{
  ℕ, ◌+◌, ◌-◌, ◌≤◌, ◌<◌, ◌≡◌, refl, sym, ap, ◌∙◌, arith, [], ◌∷◌, ◌++◌, map, Bytes, length, bit_and,
  bit_or, bit_xor,
}
use fast_rsync.Base.Words.{wrapping_add}
use fast_rsync.Md4.{andnot_u32, rotate_left, load_block}
use fast_rsync.Md4.Simd.{array_ref}
use fast_rsync.Md4.Simd.Rounds.{IsLaneWise}
use fast_rsync.Md4.Simd.Sse2.{Sse2, IsSse2, load_u32x4}
use fast_rsync.Md4.Simd.Avx2.{
  Avx2, IsAvx2, cat2x4, load_transpose8, load_half, load_16x8_avx2, rotate_left_8, lanes_8,
}
use fast_rsync.Md4.Simd.Words.{
  to_list, map_words, load_words, length-array_ref, load_block_quarters,
}
use fast_rsync.Md4.Simd.Wide.{
  U32x8, pick_wide, map_halves, wide_column, pick_wide-splat, pick_wide-zip, pick_wide-map,
  pick_wide-column, array_ref-array_ref,
}
use mathlib.Core.List.{map-append, map-map}

module _ {M128 M256 : Type 0} (x : Sse2 M128) (y : Avx2 M128 M256) (is : IsSse2 x)
    (is_wide : IsAvx2 x y) where
  -- Two loads, one for each half.
  cat2x4-words :
      (a b : Bytes)
      → length a ≡ 16
      → length b ≡ 16
      → y.words (cat2x4 x y (load_u32x4 x a) (load_u32x4 x b))
        ≡ record { lo = load_words a; hi = load_words b }
  unfolding cat2x4 load_u32x4
  cat2x4-words a b size size' =
      is_wide.insert (y.castsi128_si256 (x.loadu_si128 a)) (x.loadu_si128 b)
      ∙ rw (is_wide.cast (x.loadu_si128 a), is.loadu a size, is.loadu b size')

  -- The registers of a half are its columns of words.
  load_transpose8-columns :
      (rows : ℕ → Bytes)
      → ((j : ℕ) → j < 8 → length (rows j) ≡ 32)
      → let cell = λ (j : ℕ). load_words (array_ref (rows j) 0 16) in
        let next = λ (j : ℕ). load_words (array_ref (rows j) 16 16) in
        map y.words (load_transpose8 x y rows)
        ≡ wide_column 0 cell
          ∷ wide_column 1 cell
          ∷ wide_column 2 cell
          ∷ wide_column 3 cell
          ∷ wide_column 0 next
          ∷ wide_column 1 next
          ∷ wide_column 2 next
          ∷ wide_column 3 next
          ∷ []
  unfolding load_transpose8
  load_transpose8-columns rows sized =
      let part = λ (j : ℕ) (from : ℕ). array_ref (rows j) from 16 in
      let pair = λ (j k from : ℕ) (h : j < 8) (h' : k < 8) (inside : from + 16 ≤ 32).
        cat2x4-words (part j from) (part k from)
          (length-array_ref (rows j) from 16 (omega (arith, sized j h)))
          (length-array_ref (rows k) from 16 (omega (arith, sized k h'))) in
      rw (
        is_wide.lo_64 _ _,
        is_wide.hi_64 _ _,
        is_wide.lo_64 _ _,
        is_wide.hi_64 _ _,
        is_wide.lo_64 _ _,
        is_wide.hi_64 _ _,
        is_wide.lo_64 _ _,
        is_wide.hi_64 _ _,
        is_wide.lo_32 _ _,
        is_wide.hi_32 _ _,
        is_wide.lo_32 _ _,
        is_wide.hi_32 _ _,
        is_wide.lo_32 _ _,
        is_wide.hi_32 _ _,
        is_wide.lo_32 _ _,
        is_wide.hi_32 _ _,
        pair 0 4 0 (omega arith) (omega arith) (omega arith),
        pair 1 5 0 (omega arith) (omega arith) (omega arith),
        pair 2 6 0 (omega arith) (omega arith) (omega arith),
        pair 3 7 0 (omega arith) (omega arith) (omega arith),
        pair 0 4 16 (omega arith) (omega arith) (omega arith),
        pair 1 5 16 (omega arith) (omega arith) (omega arith),
        pair 2 6 16 (omega arith) (omega arith) (omega arith),
        pair 3 7 16 (omega arith) (omega arith) (omega arith),
      )

  -- A half gives a lane the words of two quarters of its row.
  load_half-lane :
      (rows : ℕ → Bytes) (from next i : ℕ)
      → ((j : ℕ) → j < 8 → length (rows j) ≡ 64)
      → from + 32 ≤ 64
      → from + 16 ≡ next
      → i < 8
      → map (λ v. pick_wide (y.words v) i) (load_half x y rows from)
        ≡ to_list (load_words (array_ref (rows i) from 16))
          ++ to_list (load_words (array_ref (rows i) next 16))
  unfolding load_half
  load_half-lane rows from next i sized inside e h =
      let half = λ (j : ℕ). array_ref (rows j) from 32 in
      let cell = λ (j : ℕ). load_words (array_ref (half j) 0 16) in
      let tail = λ (j : ℕ). load_words (array_ref (half j) 16 16) in
      sym (map-map (λ (u : U32x8). pick_wide u i) y.words (load_transpose8 x y half))
      ∙ ap (map (λ (u : U32x8). pick_wide u i)) (
          load_transpose8-columns half
            (λ j h'. length-array_ref (rows j) from 32 (omega (arith, sized j h'))))
      ∙ rw (
        pick_wide-column 0 cell i h,
        pick_wide-column 1 cell i h,
        pick_wide-column 2 cell i h,
        pick_wide-column 3 cell i h,
        pick_wide-column 0 tail i h,
        pick_wide-column 1 tail i h,
        pick_wide-column 2 tail i h,
        pick_wide-column 3 tail i h,
        array_ref-array_ref (rows i) from 32 0 16 from (omega arith) (omega arith),
        array_ref-array_ref (rows i) from 32 16 16 next (omega arith) e,
      )

  rotate_left_8-words :
      (v : M256) (s : ℕ)
      → y.words (rotate_left_8 x y v s) ≡ map_halves (map_words (λ w. rotate_left w s)) (y.words v)
  unfolding rotate_left_8
  rotate_left_8-words v s =
      is_wide.or (y.slli_epi32 v s) (y.srli_epi32 v (32 - s))
      ∙ rw (is_wide.slli v s, is_wide.srli v (32 - s))

  load_16x8_avx2-lane :
      (rows : ℕ → Bytes) (i : ℕ)
      → i < 8
      → ((j : ℕ) → j < 8 → length (rows j) ≡ 64)
      → map (λ v. pick_wide (y.words v) i) (load_16x8_avx2 x y rows) ≡ load_block (rows i)
  unfolding load_16x8_avx2
  load_16x8_avx2-lane rows i h sized =
      map-append (λ (v : M256). pick_wide (y.words v) i) (load_half x y rows 0)
        (load_half x y rows 32)
      ∙ rw
          (
            load_half-lane rows 0 16 i sized (omega arith) refl h,
            load_half-lane rows 32 48 i sized (omega arith) refl h,
          )
          (sym (load_block_quarters (rows i) (sized i h)))

  lane : (i : ℕ) {u u' : U32x8} → u ≡ u' → pick_wide u i ≡ pick_wide u' i
  lane i e = ap (λ (u : U32x8). pick_wide u i) e

  -- With intrinsics as they are documented, every operation of the eight lanes on x86 acts on each lane
  -- alone, and the load of sixteen registers gives each lane the words of its own row, in order.
  pub lanes_8-IsLaneWise : IsLaneWise (lanes_8 x y)
  lanes_8-IsLaneWise = record {
    add_lane = λ a b i h.
        lane i (is_wide.add a b) ∙ pick_wide-zip (wrapping_add 32) (y.words a) (y.words b) i h;
    and_lane =
        λ a b i h. lane i (is_wide.and a b) ∙ pick_wide-zip bit_and (y.words a) (y.words b) i h;
    or_lane = λ a b i h. lane i (is_wide.or a b) ∙ pick_wide-zip bit_or (y.words a) (y.words b) i h;
    andnot_lane = λ a b i h.
        lane i (is_wide.andnot a b) ∙ pick_wide-zip andnot_u32 (y.words a) (y.words b) i h;
    xor_lane =
        λ a b i h. lane i (is_wide.xor a b) ∙ pick_wide-zip bit_xor (y.words a) (y.words b) i h;
    rol_lane = λ a s i h small.
        lane i (rotate_left_8-words a s)
        ∙ pick_wide-map (λ (w : ℕ). rotate_left w s) (y.words a) i h;
    splat_lane = λ n i h small. lane i (is_wide.set1 n small) ∙ pick_wide-splat n i h;
    load_lane = load_16x8_avx2-lane;
  }
