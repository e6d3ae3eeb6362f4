-- ===== src/Md4/Simd/Sse2/Laws.antt =====
-- The four lanes of src/md4/mod.rs on x86 are lane-wise, when the intrinsics do what is documented
-- of them.
use fast_rsync.Base.{
  ℕ, ◌+◌, ◌-◌, ◌≤◌, ◌<◌, ◌≡◌, ap, ◌∙◌, arith, [], ◌∷◌, map, Bytes, length, bit_and, bit_or, bit_xor,
}
use fast_rsync.Base.Words.{wrapping_add}
use fast_rsync.Md4.{andnot_u32, rotate_left}
use fast_rsync.Md4.Simd.{array_ref}
use fast_rsync.Md4.Simd.Rounds.{IsLaneWise}
use fast_rsync.Md4.Simd.Sse2.{
  Sse2, IsSse2, load_u32x4, load_transpose4, load_quarter, load_16x4_sse2, rotate_left_4, lanes_4,
}
use fast_rsync.Md4.Simd.Words.{
  U32x4, pick, map_words, load_words, column, pick-splat, pick-zip, pick-map, rotate_words,
  length-array_ref, four_quarters,
}

module _ {M128 : Type 0} (x : Sse2 M128) (is : IsSse2 x) where
  -- The registers of a quarter are its columns of words.
  load_transpose4-columns :
      (rows : ℕ → Bytes)
      → ((j : ℕ) → j < 4 → length (rows j) ≡ 16)
      → let cell = λ (j : ℕ). load_words (rows j) in
        map x.words (load_transpose4 x (rows 0) (rows 1) (rows 2) (rows 3))
        ≡ column 0 cell ∷ column 1 cell ∷ column 2 cell ∷ column 3 cell ∷ []
  unfolding load_transpose4 load_u32x4
  load_transpose4-columns rows sized = rw (
    is.lo_64 _ _,
    is.hi_64 _ _,
    is.lo_64 _ _,
    is.hi_64 _ _,
    is.lo_32 _ _,
    is.hi_32 _ _,
    is.lo_32 _ _,
    is.hi_32 _ _,
    is.loadu (rows 0) (sized 0 (omega arith)),
    is.loadu (rows 1) (sized 1 (omega arith)),
    is.loadu (rows 2) (sized 2 (omega arith)),
    is.loadu (rows 3) (sized 3 (omega arith)),
  )

  load_quarter-columns :
      (rows : ℕ → Bytes) (from : ℕ)
      → ((j : ℕ) → j < 4 → length (rows j) ≡ 64)
      → from + 16 ≤ 64
      → let cell = λ (j : ℕ). load_words (array_ref (rows j) from 16) in
        map x.words (load_quarter x rows from)
        ≡ column 0 cell ∷ column 1 cell ∷ column 2 cell ∷ column 3 cell ∷ []
  unfolding load_quarter
  load_quarter-columns rows from sized inside =
      load_transpose4-columns (λ j. array_ref (rows j) from 16)
        (λ j h. length-array_ref (rows j) from 16 (omega (arith, sized j h)))

  rotate_left_4-words :
      (v : M128) (s : ℕ)
      → x.words (rotate_left_4 x v s) ≡ map_words (λ w. rotate_left w s) (x.words v)
  unfolding rotate_left_4
  rotate_left_4-words v s =
      rw (is.or (x.slli_epi32 v s) (x.srli_epi32 v (32 - s)), is.slli v s, is.srli v (32 - s))
        (rotate_words (x.words v) s)

  -- With intrinsics as they are documented, every operation of the four lanes on x86 acts on each lane
  -- alone, and the load of sixteen registers gives each lane the words of its own row, in order.
  pub lanes_4-IsLaneWise : IsLaneWise (lanes_4 x)
  lanes_4-IsLaneWise = record {
    add_lane = λ a b i h.
        ap (λ (u : U32x4). pick u i) (is.add a b)
        ∙ pick-zip (wrapping_add 32) (x.words a) (x.words b) i h;
    and_lane = λ a b i h.
        ap (λ (u : U32x4). pick u i) (is.and a b) ∙ pick-zip bit_and (x.words a) (x.words b) i h;
    or_lane = λ a b i h.
        ap (λ (u : U32x4). pick u i) (is.or a b) ∙ pick-zip bit_or (x.words a) (x.words b) i h;
    andnot_lane = λ a b i h.
        ap (λ (u : U32x4). pick u i) (is.andnot a b)
        ∙ pick-zip andnot_u32 (x.words a) (x.words b) i h;
    xor_lane = λ a b i h.
        ap (λ (u : U32x4). pick u i) (is.xor a b) ∙ pick-zip bit_xor (x.words a) (x.words b) i h;
    rol_lane = λ a s i h small.
        ap (λ (u : U32x4). pick u i) (rotate_left_4-words a s)
        ∙ pick-map (λ (w : ℕ). rotate_left w s) (x.words a) i h;
    splat_lane = λ n i h small. ap (λ (u : U32x4). pick u i) (is.set1 n small) ∙ pick-splat n i h;
    load_lane = λ rows i h sized.
        unfold load_16x4_sse2 in
        four_quarters x.words (load_quarter x rows) rows sized
          (λ from inside. load_quarter-columns rows from sized inside) i h;
  }
