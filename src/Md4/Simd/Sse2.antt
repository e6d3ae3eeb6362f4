-- ===== src/Md4/Simd/Sse2.antt =====
-- The four lanes of src/md4/mod.rs on x86, and load_16x4_sse2 of src/md4/x86_simd_transpose.rs, over the
-- intrinsics of `std::arch`, which are parameters.
pub mod Laws
use fast_rsync.Base.{
  ℕ, zero, suc, ◌+◌, ◌-◌, ◌*◌, ◌/◌, ◌^◌, ◌≤◌, ◌<◌, ◌≡◌, refl, sym, ap, ◌∙◌, arith, List, [], ◌∷◌,
  ◌++◌, map, Bytes, length, length-take, length-drop, bit_and, bit_or, bit_xor,
}
use fast_rsync.Base.Words.{u32, wrapping_add}
use fast_rsync.Md4.{Ops, andnot_u32, rotate_left, load_block}
use fast_rsync.Md4.Simd.{Lanes, array_ref}
use fast_rsync.Md4.Simd.Rounds.{IsLaneWise}
use fast_rsync.Md4.Simd.Words.{
  U32x4, to_list, pick, splat_words, map_words, zip_words, load_words, unpacklo_32, unpackhi_32,
  unpacklo_64, unpackhi_64, column, pick-splat, pick-zip, pick-map, pick-column,
  load_block_quarters,
}
use mathlib.Core.List.{map-append}

-- The intrinsics on `__m128i` that the code calls, without the prefix `_mm_`; `words` is a register
-- as `[u32; 4]`.
pub record Sse2 (M128 : Type 0) : Type 0 where
  pub words : M128 → U32x4
  pub loadu_si128 : Bytes → M128
  pub set1_epi32 : ℕ → M128
  pub add_epi32 : M128 → M128 → M128
  pub and_si128 : M128 → M128 → M128
  pub or_si128 : M128 → M128 → M128
  pub andnot_si128 : M128 → M128 → M128
  pub xor_si128 : M128 → M128 → M128
  pub slli_epi32 : M128 → ℕ → M128
  pub srli_epi32 : M128 → ℕ → M128
  pub unpacklo_epi32 : M128 → M128 → M128
  pub unpackhi_epi32 : M128 → M128 → M128
  pub unpacklo_epi64 : M128 → M128 → M128
  pub unpackhi_epi64 : M128 → M128 → M128

-- What Intel documents of them.
pub record IsSse2 {M128 : Type 0} (x : Sse2 M128) : Type 0 where
  pub loadu : (bytes : Bytes) → length bytes ≡ 16 → x.words (x.loadu_si128 bytes) ≡ load_words bytes
  pub set1 : (n : ℕ) → n < 2 ^ 32 → x.words (x.set1_epi32 n) ≡ splat_words n
  pub add :
      (a b : M128) → x.words (x.add_epi32 a b) ≡ zip_words (wrapping_add 32) (x.words a) (x.words b)
  pub and : (a b : M128) → x.words (x.and_si128 a b) ≡ zip_words bit_and (x.words a) (x.words b)
  pub or : (a b : M128) → x.words (x.or_si128 a b) ≡ zip_words bit_or (x.words a) (x.words b)
  pub andnot :
      (a b : M128) → x.words (x.andnot_si128 a b) ≡ zip_words andnot_u32 (x.words a) (x.words b)
  pub xor : (a b : M128) → x.words (x.xor_si128 a b) ≡ zip_words bit_xor (x.words a) (x.words b)
  pub slli :
      (a : M128) (s : ℕ) → x.words (x.slli_epi32 a s) ≡ map_words (λ w. u32 (w * 2 ^ s)) (x.words a)
  pub srli :
      (a : M128) (s : ℕ) → x.words (x.srli_epi32 a s) ≡ map_words (λ w. w / 2 ^ s) (x.words a)
  pub lo_32 : (a b : M128) → x.words (x.unpacklo_epi32 a b) ≡ unpacklo_32 (x.words a) (x.words b)
  pub hi_32 : (a b : M128) → x.words (x.unpackhi_epi32 a b) ≡ unpackhi_32 (x.words a) (x.words b)
  pub lo_64 : (a b : M128) → x.words (x.unpacklo_epi64 a b) ≡ unpacklo_64 (x.words a) (x.words b)
  pub hi_64 : (a b : M128) → x.words (x.unpackhi_epi64 a b) ≡ unpackhi_64 (x.words a) (x.words b)

module _ {M128 : Type 0} (x : Sse2 M128) where
  -- `load_u32x4`
  unfoldable pub load_u32x4 : Bytes → M128
  load_u32x4 slice = x.loadu_si128 slice

  unfoldable pub load_transpose4 : Bytes → Bytes → Bytes → Bytes → List M128
  load_transpose4 data0 data1 data2 data3 =
      let i0 = load_u32x4 data0 in
      let i1 = load_u32x4 data1 in
      let i2 = load_u32x4 data2 in
      let i3 = load_u32x4 data3 in
      let l01 = x.unpacklo_epi32 i0 i1 in
      let h01 = x.unpackhi_epi32 i0 i1 in
      let l23 = x.unpacklo_epi32 i2 i3 in
      let h23 = x.unpackhi_epi32 i2 i3 in
      x.unpacklo_epi64 l01 l23
      ∷ x.unpackhi_epi64 l01 l23
      ∷ x.unpacklo_epi64 h01 h23
      ∷ x.unpackhi_epi64 h01 h23
      ∷ []

  -- `load_transpose4(get_blocks!(data, (0 1 2 3), from, 16))`
  unfoldable pub load_quarter : (ℕ → Bytes) → ℕ → List M128
  load_quarter rows from =
      load_transpose4 (array_ref (rows 0) from 16) (array_ref (rows 1) from 16)
        (array_ref (rows 2) from 16) (array_ref (rows 3) from 16)

  unfoldable pub load_16x4_sse2 : (ℕ → Bytes) → List M128
  load_16x4_sse2 rows =
      load_quarter rows 0
      ++ (load_quarter rows 16 ++ (load_quarter rows 32 ++ load_quarter rows 48))

  -- `rotate_left!`
  unfoldable pub rotate_left_4 : M128 → ℕ → M128
  rotate_left_4 v shift = x.or_si128 (x.slli_epi32 v shift) (x.srli_epi32 v (32 - shift))

  -- `lanes_4`
  abbrev pub lanes_4 : Lanes M128
  lanes_4 = record {
    lanes = 4;
    load = load_16x4_sse2;
    ops = record {
      add = x.add_epi32;
      and = x.and_si128;
      or = x.or_si128;
      andnot = x.andnot_si128;
      xor = x.xor_si128;
      rol = rotate_left_4;
      splat = x.set1_epi32;
    };
    lane = λ v. pick (x.words v);
  }
