-- ===== src/Md4/Simd/Avx2.antt =====
-- The eight lanes of src/md4/mod.rs on x86, and load_16x8_avx2 of src/md4/x86_simd_transpose.rs, over
-- the intrinsics of `std::arch`, which are parameters.
pub mod Laws
use fast_rsync.Base.{
  ℕ, zero, suc, ◌+◌, ◌-◌, ◌*◌, ◌/◌, ◌^◌, ◌≤◌, ◌<◌, ◌≡◌, List, [], ◌∷◌, ◌++◌, Bytes, bit_and, bit_or,
  bit_xor,
}
use fast_rsync.Base.Words.{u32, wrapping_add}
use fast_rsync.Md4.{Ops, andnot_u32}
use fast_rsync.Md4.Simd.{Lanes, array_ref}
use fast_rsync.Md4.Simd.Sse2.{Sse2, load_u32x4}
use fast_rsync.Md4.Simd.Words.{
  U32x4, splat_words, map_words, zip_words, unpacklo_32, unpackhi_32, unpacklo_64, unpackhi_64,
}
use fast_rsync.Md4.Simd.Wide.{U32x8, pick_wide, map_halves, zip_halves}

-- The intrinsics on `__m256i` that the code calls, without the prefix `_mm256_`; `words` is a register
-- as `[u32; 8]`.
pub record Avx2 (M128 M256 : Type 0) : Type 0 where
  pub words : M256 → U32x8
  pub castsi128_si256 : M128 → M256
  pub inserti128_si256 : M256 → M128 → ℕ → M256
  pub set1_epi32 : ℕ → M256
  pub add_epi32 : M256 → M256 → M256
  pub and_si256 : M256 → M256 → M256
  pub or_si256 : M256 → M256 → M256
  pub andnot_si256 : M256 → M256 → M256
  pub xor_si256 : M256 → M256 → M256
  pub slli_epi32 : M256 → ℕ → M256
  pub srli_epi32 : M256 → ℕ → M256
  pub unpacklo_epi32 : M256 → M256 → M256
  pub unpackhi_epi32 : M256 → M256 → M256
  pub unpacklo_epi64 : M256 → M256 → M256
  pub unpackhi_epi64 : M256 → M256 → M256

-- What Intel documents of them; the high half of a cast is undefined.
pub record IsAvx2 {M128 M256 : Type 0} (x : Sse2 M128) (y : Avx2 M128 M256) : Type 0 where
  pub cast : (a : M128) → (y.words (y.castsi128_si256 a)).lo ≡ x.words a
  pub insert :
      (a : M256) (b : M128)
      → y.words (y.inserti128_si256 a b 1) ≡ record { lo = (y.words a).lo; hi = x.words b }
  pub set1 :
      (n : ℕ)
      → n < 2 ^ 32
      → y.words (y.set1_epi32 n) ≡ record { lo = splat_words n; hi = splat_words n }
  pub add :
      (a b : M256)
      → y.words (y.add_epi32 a b) ≡ zip_halves (zip_words (wrapping_add 32)) (y.words a) (y.words b)
  pub and :
      (a b : M256)
      → y.words (y.and_si256 a b) ≡ zip_halves (zip_words bit_and) (y.words a) (y.words b)
  pub or :
      (a b : M256)
      → y.words (y.or_si256 a b) ≡ zip_halves (zip_words bit_or) (y.words a) (y.words b)
  pub andnot :
      (a b : M256)
      → y.words (y.andnot_si256 a b) ≡ zip_halves (zip_words andnot_u32) (y.words a) (y.words b)
  pub xor :
      (a b : M256)
      → y.words (y.xor_si256 a b) ≡ zip_halves (zip_words bit_xor) (y.words a) (y.words b)
  pub slli :
      (a : M256) (s : ℕ)
      → y.words (y.slli_epi32 a s) ≡ map_halves (map_words (λ w. u32 (w * 2 ^ s))) (y.words a)
  pub srli :
      (a : M256) (s : ℕ)
      → y.words (y.srli_epi32 a s) ≡ map_halves (map_words (λ w. w / 2 ^ s)) (y.words a)
  pub lo_32 :
      (a b : M256) → y.words (y.unpacklo_epi32 a b) ≡ zip_halves unpacklo_32 (y.words a) (y.words b)
  pub hi_32 :
      (a b : M256) → y.words (y.unpackhi_epi32 a b) ≡ zip_halves unpackhi_32 (y.words a) (y.words b)
  pub lo_64 :
      (a b : M256) → y.words (y.unpacklo_epi64 a b) ≡ zip_halves unpacklo_64 (y.words a) (y.words b)
  pub hi_64 :
      (a b : M256) → y.words (y.unpackhi_epi64 a b) ≡ zip_halves unpackhi_64 (y.words a) (y.words b)

module _ {M128 M256 : Type 0} (x : Sse2 M128) (y : Avx2 M128 M256) where
  unfoldable pub cat2x4 : M128 → M128 → M256
  cat2x4 a b = y.inserti128_si256 (y.castsi128_si256 a) b 1

  unfoldable pub load_transpose8 : (ℕ → Bytes) → List M256
  load_transpose8 blocks =
      let l04 =
        cat2x4 (load_u32x4 x (array_ref (blocks 0) 0 16))
          (load_u32x4 x (array_ref (blocks 4) 0 16)) in
      let l15 =
        cat2x4 (load_u32x4 x (array_ref (blocks 1) 0 16))
          (load_u32x4 x (array_ref (blocks 5) 0 16)) in
      let l26 =
        cat2x4 (load_u32x4 x (array_ref (blocks 2) 0 16))
          (load_u32x4 x (array_ref (blocks 6) 0 16)) in
      let l37 =
        cat2x4 (load_u32x4 x (array_ref (blocks 3) 0 16))
          (load_u32x4 x (array_ref (blocks 7) 0 16)) in
      let h04 =
        cat2x4 (load_u32x4 x (array_ref (blocks 0) 16 16))
          (load_u32x4 x (array_ref (blocks 4) 16 16)) in
      let h15 =
        cat2x4 (load_u32x4 x (array_ref (blocks 1) 16 16))
          (load_u32x4 x (array_ref (blocks 5) 16 16)) in
      let h26 =
        cat2x4 (load_u32x4 x (array_ref (blocks 2) 16 16))
          (load_u32x4 x (array_ref (blocks 6) 16 16)) in
      let h37 =
        cat2x4 (load_u32x4 x (array_ref (blocks 3) 16 16))
          (load_u32x4 x (array_ref (blocks 7) 16 16)) in
      let a0145 = y.unpacklo_epi32 l04 l15 in
      let b0145 = y.unpackhi_epi32 l04 l15 in
      let a2367 = y.unpacklo_epi32 l26 l37 in
      let b2367 = y.unpackhi_epi32 l26 l37 in
      let c0145 = y.unpacklo_epi32 h04 h15 in
      let d0145 = y.unpackhi_epi32 h04 h15 in
      let c2367 = y.unpacklo_epi32 h26 h37 in
      let d2367 = y.unpackhi_epi32 h26 h37 in
      y.unpacklo_epi64 a0145 a2367
      ∷ y.unpackhi_epi64 a0145 a2367
      ∷ y.unpacklo_epi64 b0145 b2367
      ∷ y.unpackhi_epi64 b0145 b2367
      ∷ y.unpacklo_epi64 c0145 c2367
      ∷ y.unpackhi_epi64 c0145 c2367
      ∷ y.unpacklo_epi64 d0145 d2367
      ∷ y.unpackhi_epi64 d0145 d2367
      ∷ []

  -- `load_transpose8(get_blocks!(data, (0 1 2 3 4 5 6 7), from, 32))`
  unfoldable pub load_half : (ℕ → Bytes) → ℕ → List M256
  load_half rows from = load_transpose8 (λ lane. array_ref (rows lane) from 32)

  unfoldable pub load_16x8_avx2 : (ℕ → Bytes) → List M256
  load_16x8_avx2 rows = load_half rows 0 ++ load_half rows 32

  -- `rotate_left!`
  unfoldable pub rotate_left_8 : M256 → ℕ → M256
  rotate_left_8 v shift = y.or_si256 (y.slli_epi32 v shift) (y.srli_epi32 v (32 - shift))

  -- `lanes_8`
  abbrev pub lanes_8 : Lanes M256
  lanes_8 = record {
    lanes = 8;
    load = load_16x8_avx2;
    ops = record {
      add = y.add_epi32;
      and = y.and_si256;
      or = y.or_si256;
      andnot = y.andnot_si256;
      xor = y.xor_si256;
      rol = rotate_left_8;
      splat = y.set1_epi32;
    };
    lane = λ v. pick_wide (y.words v);
  }
