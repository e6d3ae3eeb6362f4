-- ===== src/Tests/Simd.antt =====
-- The vector units of src/md4/mod.rs on registers that are their words, as the intrinsics are
-- documented.
use fast_rsync.Base.{
  ℕ, zero, suc, ◌+◌, ◌*◌, ◌/◌, ◌^◌, ◌≡◌, refl, arith, true, List, [], ◌∷◌, ◌++◌, map, Bytes,
  replicate, ok, bit_and, bit_or, bit_xor,
}
use fast_rsync.Base.Words.{u32, wrapping_add, to_le_bytes, from_le_bytes}
use fast_rsync.Md4.{md4, andnot_u32}
use fast_rsync.Md4.Many.{x86}
use fast_rsync.Md4.Many.Contract.{IsRight}
use fast_rsync.Md4.Simd.{md4_xn}
use fast_rsync.Md4.Simd.Rounds.{IsLaneWise}
use fast_rsync.Md4.Simd.Select.{md4_xn-eq-map}
use fast_rsync.Md4.Simd.Selection.{Features, select, select-IsRight}
use fast_rsync.Md4.Simd.Sse2.{Sse2, IsSse2, lanes_4, load_quarter, load_transpose4, load_u32x4}
use fast_rsync.Md4.Simd.Sse2.Laws.{lanes_4-IsLaneWise}
use fast_rsync.Md4.Simd.Avx2.{Avx2, IsAvx2, lanes_8}
use fast_rsync.Md4.Simd.Avx2.Laws.{lanes_8-IsLaneWise}
use fast_rsync.Md4.Simd.Neon
use fast_rsync.Md4.Simd.Neon.{
  Neon, IsNeon, bit_clear, transpose_even, transpose_odd, zip_low, zip_high,
}
use fast_rsync.Md4.Simd.Neon.Laws.{neon-lanes_4-IsLaneWise}
use fast_rsync.Md4.Simd.Words.{
  U32x4, to_list, splat_words, map_words, zip_words, load_words, unpacklo_32, unpackhi_32,
  unpacklo_64, unpackhi_64,
}
use fast_rsync.Md4.Simd.Wide.{U32x8, map_halves, zip_halves}

abbrev sse2_words : Sse2 U32x4
sse2_words = record {
  words = λ a. a;
  loadu_si128 = load_words;
  set1_epi32 = splat_words;
  add_epi32 = zip_words (wrapping_add 32);
  and_si128 = zip_words bit_and;
  or_si128 = zip_words bit_or;
  andnot_si128 = zip_words andnot_u32;
  xor_si128 = zip_words bit_xor;
  slli_epi32 = λ a s. map_words (λ w. u32 (w * 2 ^ s)) a;
  srli_epi32 = λ a s. map_words (λ w. w / 2 ^ s) a;
  unpacklo_epi32 = unpacklo_32;
  unpackhi_epi32 = unpackhi_32;
  unpacklo_epi64 = unpacklo_64;
  unpackhi_epi64 = unpackhi_64;
}

sse2_words-IsSse2 : IsSse2 sse2_words
sse2_words-IsSse2 = record {
  loadu = λ bytes e. refl;
  set1 = λ n small. refl;
  add = λ a b. refl;
  and = λ a b. refl;
  or = λ a b. refl;
  andnot = λ a b. refl;
  xor = λ a b. refl;
  slli = λ a s. refl;
  srli = λ a s. refl;
  lo_32 = λ a b. refl;
  hi_32 = λ a b. refl;
  lo_64 = λ a b. refl;
  hi_64 = λ a b. refl;
}

abbrev avx2_words : Avx2 U32x4 U32x8
avx2_words = record {
  words = λ a. a;
  castsi128_si256 = λ a. record { lo = a; hi = splat_words 7 };
  inserti128_si256 = λ a b at. record { lo = a.lo; hi = b };
  set1_epi32 = λ n. record { lo = splat_words n; hi = splat_words n };
  add_epi32 = zip_halves (zip_words (wrapping_add 32));
  and_si256 = zip_halves (zip_words bit_and);
  or_si256 = zip_halves (zip_words bit_or);
  andnot_si256 = zip_halves (zip_words andnot_u32);
  xor_si256 = zip_halves (zip_words bit_xor);
  slli_epi32 = λ a s. map_halves (map_words (λ w. u32 (w * 2 ^ s))) a;
  srli_epi32 = λ a s. map_halves (map_words (λ w. w / 2 ^ s)) a;
  unpacklo_epi32 = zip_halves unpacklo_32;
  unpackhi_epi32 = zip_halves unpackhi_32;
  unpacklo_epi64 = zip_halves unpacklo_64;
  unpackhi_epi64 = zip_halves unpackhi_64;
}

avx2_words-IsAvx2 : IsAvx2 sse2_words avx2_words
avx2_words-IsAvx2 = record {
  cast = λ a. refl;
  insert = λ a b. refl;
  set1 = λ n small. refl;
  add = λ a b. refl;
  and = λ a b. refl;
  or = λ a b. refl;
  andnot = λ a b. refl;
  xor = λ a b. refl;
  slli = λ a s. refl;
  srli = λ a s. refl;
  lo_32 = λ a b. refl;
  hi_32 = λ a b. refl;
  lo_64 = λ a b. refl;
  hi_64 = λ a b. refl;
}

abbrev neon_words : Neon U32x4
neon_words = record {
  words = λ a. a;
  transmute = load_words;
  vdupq_n_u32 = splat_words;
  vaddq_u32 = zip_words (wrapping_add 32);
  vandq_u32 = zip_words bit_and;
  vorrq_u32 = zip_words bit_or;
  vbicq_u32 = zip_words bit_clear;
  veorq_u32 = zip_words bit_xor;
  vshlq_n_u32 = λ a s. map_words (λ w. u32 (w * 2 ^ s)) a;
  vshrq_n_u32 = λ a s. map_words (λ w. w / 2 ^ s) a;
  vtrnq_u32 = λ a b. (transpose_even a b, transpose_odd a b);
  vzipq_u32 = λ a b. (zip_low a b, zip_high a b);
}

neon_words-IsNeon : IsNeon neon_words
neon_words-IsNeon = record {
  load = λ bytes e. refl;
  dup = λ n small. refl;
  add = λ a b. refl;
  and = λ a b. refl;
  orr = λ a b. refl;
  bic = λ a b. refl;
  eor = λ a b. refl;
  shl = λ a s. refl;
  shr = λ a s. refl;
  trn_even = λ a b. refl;
  trn_odd = λ a b. refl;
  zip_lo = λ a b. refl;
  zip_hi = λ a b. refl;
}

lanes_4-IsLaneWise_example : IsLaneWise (lanes_4 sse2_words)
lanes_4-IsLaneWise_example = lanes_4-IsLaneWise sse2_words sse2_words-IsSse2

lanes_8-IsLaneWise_example : IsLaneWise (lanes_8 sse2_words avx2_words)
lanes_8-IsLaneWise_example =
    lanes_8-IsLaneWise sse2_words avx2_words sse2_words-IsSse2 avx2_words-IsAvx2

neon-lanes_4-IsLaneWise_example : IsLaneWise (Neon.lanes_4 neon_words)
neon-lanes_4-IsLaneWise_example = neon-lanes_4-IsLaneWise neon_words neon_words-IsNeon

-- Four blocks of 70 bytes, more than a block of MD4.
abbrev four_rows : List Bytes
four_rows = replicate 70 1 ∷ replicate 70 2 ∷ replicate 70 3 ∷ replicate 70 4 ∷ []

md4_xn-eq-map_example : md4_xn (lanes_4 sse2_words) four_rows ≡ ok (map md4 four_rows)
md4_xn-eq-map_example =
    md4_xn-eq-map (lanes_4 sse2_words) (lanes_4-IsLaneWise sse2_words sse2_words-IsSse2) four_rows
      70 (omega arith) refl (refl, (refl, (refl, (refl, tt))))

-- A processor that has AVX2, and NEON where it is one of AArch64.
abbrev widest : Features
widest = record { avx2 = true; sse2 = true; neon = true }

select-IsRight_example : IsRight (select sse2_words avx2_words neon_words x86 widest)
select-IsRight_example =
    select-IsRight sse2_words avx2_words neon_words x86 widest sse2_words-IsSse2 avx2_words-IsAvx2
      neon_words-IsNeon

-- The last registers of `test_transpose` of src/md4/aarch64_simd_transpose.rs, with the loads of both
-- processors.
unfoldable count_words : ℕ → ℕ → Bytes
count_words zero from = []
count_words (suc left) from = to_le_bytes 4 from ++ count_words left (from + 1)

abbrev four_lanes : ℕ → Bytes
four_lanes lane = count_words 16 (lane * 16)

abbrev across : ℕ → List ℕ
across i = i ∷ (16 + i) ∷ (32 + i) ∷ (48 + i) ∷ []

sse2_transposes :
    map to_list (load_quarter sse2_words four_lanes 48) ≡ map across (12 ∷ 13 ∷ 14 ∷ 15 ∷ [])
unfolding to_le_bytes from_le_bytes load_quarter load_transpose4 load_u32x4 count_words
sse2_transposes = refl

neon_transposes :
    map to_list (Neon.load_quarter neon_words four_lanes 48) ≡ map across (12 ∷ 13 ∷ 14 ∷ 15 ∷ [])
unfolding to_le_bytes from_le_bytes Neon.load_quarter Neon.load_transpose4 Neon.load_u32x4
    count_words
neon_transposes = refl
