-- ===== src/Md4/Simd/Neon/Laws.antt =====
-- The four lanes of src/md4/mod.rs on AArch64 are lane-wise, when the intrinsics do what is
-- documented of them.
use fast_rsync.Base.{
  ℕ, ◌+◌, ◌-◌, ◌^◌, ◌≤◌, ◌<◌, ◌≡◌, ap, ◌∙◌, arith, [], ◌∷◌, map, Bytes, length, bit_and, bit_or,
  bit_xor,
}
use fast_rsync.Base.Bits.{bit_and_comm}
use fast_rsync.Base.Words.{wrapping_add}
use fast_rsync.Md4.{andnot_u32, rotate_left}
use fast_rsync.Md4.Simd.{array_ref}
use fast_rsync.Md4.Simd.Rounds.{IsLaneWise}
use fast_rsync.Md4.Simd.Neon.{
  Neon, IsNeon, bit_clear, load_u32x4, load_transpose4, load_quarter, load_16x4, andnot,
  rotate_left_4, lanes_4,
}
use fast_rsync.Md4.Simd.Words.{
  U32x4, pick, map_words, load_words, column, pick-splat, pick-zip, pick-map, rotate_words,
  length-array_ref, four_quarters,
}

module _ {Q : Type 0} (x : Neon Q) (is : IsNeon x) where
  lane : (i : ℕ) {u u' : U32x4} → u ≡ u' → pick u i ≡ pick u' i
  lane i e = ap (λ (u : U32x4). pick u i) e

  -- The registers of a quarter are its columns of words.
  load_transpose4-columns :
      (rows : ℕ → Bytes)
      → ((j : ℕ) → j < 4 → length (rows j) ≡ 16)
      → let cell = λ (j : ℕ). load_words (rows j) in
        map x.words (load_transpose4 x (rows 0) (rows 1) (rows 2) (rows 3))
        ≡ column 0 cell ∷ column 1 cell ∷ column 2 cell ∷ column 3 cell ∷ []
  unfolding load_transpose4 load_u32x4
  load_transpose4-columns rows sized = rw (
    is.zip_lo _ _,
    is.zip_lo _ _,
    is.zip_hi _ _,
    is.zip_hi _ _,
    is.trn_even _ _,
    is.trn_even _ _,
    is.trn_odd _ _,
    is.trn_odd _ _,
    is.load (rows 0) (sized 0 (omega arith)),
    is.load (rows 1) (sized 1 (omega arith)),
    is.load (rows 2) (sized 2 (omega arith)),
    is.load (rows 3) (sized 3 (omega arith)),
  )

  load_quarter-columns :
      (rows : ℕ → Bytes) (from : ℕ)
      → ((j : ℕ) → j < 4 → length (rows j) ≡ 64)
      → from + 16 ≤ 64
      → let cell = λ (j : ℕ). load_words (array_ref (rows j) from 16) in
        map x.words (load_quarter x rows from)
        ≡ column 0 cell ∷ column 1 cell ∷ column 2 cell ∷ column 3 cell ∷ []
  unfolding load_quarter
  load_quarter-columns rows from sized inside =
      load_transpose4-columns (λ j. array_ref (rows j) from 16)
        (λ j h. length-array_ref (rows j) from 16 (omega (arith, sized j h)))

  rotate_left_4-words :
      (v : Q) (s : ℕ) → x.words (rotate_left_4 x v s) ≡ map_words (λ w. rotate_left w s) (x.words v)
  unfolding rotate_left_4
  rotate_left_4-words v s =
      rw (is.orr (x.vshlq_n_u32 v s) (x.vshrq_n_u32 v (32 - s)), is.shl v s, is.shr v (32 - s))
        (rotate_words (x.words v) s)

  -- `vbicq_u32` with its arguments swapped clears as Intel does.
  andnot-lane :
      (a b : Q) (i : ℕ)
      → i < 4
      → pick (x.words (andnot x a b)) i ≡ andnot_u32 (pick (x.words a) i) (pick (x.words b) i)
  unfolding andnot
  andnot-lane a b i h =
      lane i (is.bic b a)
      ∙ pick-zip bit_clear (x.words b) (x.words a) i h
      ∙ bit_and_comm (pick (x.words b) i) (2 ^ 32 - 1 - pick (x.words a) i)

  -- With intrinsics as they are documented, every operation of the four lanes on AArch64 acts on
  -- each lane alone, and the load of sixteen registers gives each lane the words of its own row, in
  -- order.
  pub neon-lanes_4-IsLaneWise : IsLaneWise (lanes_4 x)
  neon-lanes_4-IsLaneWise = record {
    add_lane =
        λ a b i h. lane i (is.add a b) ∙ pick-zip (wrapping_add 32) (x.words a) (x.words b) i h;
    and_lane = λ a b i h. lane i (is.and a b) ∙ pick-zip bit_and (x.words a) (x.words b) i h;
    or_lane = λ a b i h. lane i (is.orr a b) ∙ pick-zip bit_or (x.words a) (x.words b) i h;
    andnot_lane = andnot-lane;
    xor_lane = λ a b i h. lane i (is.eor a b) ∙ pick-zip bit_xor (x.words a) (x.words b) i h;
    rol_lane = λ a s i h small.
        lane i (rotate_left_4-words a s) ∙ pick-map (λ (w : ℕ). rotate_left w s) (x.words a) i h;
    splat_lane = λ n i h small. lane i (is.dup n small) ∙ pick-splat n i h;
    load_lane = λ rows i h sized.
        unfold load_16x4 in
        four_quarters x.words (load_quarter x rows) rows sized
          (λ from inside. load_quarter-columns rows from sized inside) i h;
  }
