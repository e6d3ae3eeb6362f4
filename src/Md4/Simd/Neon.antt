-- ===== src/Md4/Simd/Neon.antt =====
-- The four lanes of src/md4/mod.rs on AArch64, and load_16x4 of src/md4/aarch64_simd_transpose.rs, over
-- the intrinsics of `std::arch`, which are parameters.
pub mod Laws
use fast_rsync.Base.{
  ℕ, zero, suc, ◌+◌, ◌-◌, ◌*◌, ◌/◌, ◌^◌, ◌≤◌, ◌<◌, ◌≡◌, List, [], ◌∷◌, ◌++◌, Bytes, length, bit_and,
  bit_or, bit_xor,
}
use fast_rsync.Base.Words.{u32, wrapping_add}
use fast_rsync.Md4.{Ops}
use fast_rsync.Md4.Simd.{Lanes, array_ref}
use fast_rsync.Md4.Simd.Words.{U32x4, pick, splat_words, map_words, zip_words, load_words}

-- The intrinsics on `uint32x4_t` that the code calls, and the `transmute` that loads one; `words` is a
-- register as `[u32; 4]`.
pub record Neon (Q : Type 0) : Type 0 where
  pub words : Q → U32x4
  pub transmute : Bytes → Q
  pub vdupq_n_u32 : ℕ → Q
  pub vaddq_u32 : Q → Q → Q
  pub vandq_u32 : Q → Q → Q
  pub vorrq_u32 : Q → Q → Q
  pub vbicq_u32 : Q → Q → Q
  pub veorq_u32 : Q → Q → Q
  pub vshlq_n_u32 : Q → ℕ → Q
  pub vshrq_n_u32 : Q → ℕ → Q
  pub vtrnq_u32 : Q → Q → Q × Q
  pub vzipq_u32 : Q → Q → Q × Q

-- `vbicq_u32` on a word: the bits of the first that the second has not.
abbrev pub bit_clear : ℕ → ℕ → ℕ
bit_clear a b = bit_and a (2 ^ 32 - 1 - b)

-- The even and the odd words of two registers.
abbrev pub transpose_even : U32x4 → U32x4 → U32x4
transpose_even a b = record { w0 = a.w0; w1 = b.w0; w2 = a.w2; w3 = b.w2 }

abbrev pub transpose_odd : U32x4 → U32x4 → U32x4
transpose_odd a b = record { w0 = a.w1; w1 = b.w1; w2 = a.w3; w3 = b.w3 }

-- The low and the high words of two registers in turn.
abbrev pub zip_low : U32x4 → U32x4 → U32x4
zip_low a b = record { w0 = a.w0; w1 = b.w0; w2 = a.w1; w3 = b.w1 }

abbrev pub zip_high : U32x4 → U32x4 → U32x4
zip_high a b = record { w0 = a.w2; w1 = b.w2; w2 = a.w3; w3 = b.w3 }

-- What Arm documents of them; the processor is little-endian.
pub record IsNeon {Q : Type 0} (x : Neon Q) : Type 0 where
  pub load : (bytes : Bytes) → length bytes ≡ 16 → x.words (x.transmute bytes) ≡ load_words bytes
  pub dup : (n : ℕ) → n < 2 ^ 32 → x.words (x.vdupq_n_u32 n) ≡ splat_words n
  pub add :
      (a b : Q) → x.words (x.vaddq_u32 a b) ≡ zip_words (wrapping_add 32) (x.words a) (x.words b)
  pub and : (a b : Q) → x.words (x.vandq_u32 a b) ≡ zip_words bit_and (x.words a) (x.words b)
  pub orr : (a b : Q) → x.words (x.vorrq_u32 a b) ≡ zip_words bit_or (x.words a) (x.words b)
  pub bic : (a b : Q) → x.words (x.vbicq_u32 a b) ≡ zip_words bit_clear (x.words a) (x.words b)
  pub eor : (a b : Q) → x.words (x.veorq_u32 a b) ≡ zip_words bit_xor (x.words a) (x.words b)
  pub shl :
      (a : Q) (s : ℕ) → x.words (x.vshlq_n_u32 a s) ≡ map_words (λ w. u32 (w * 2 ^ s)) (x.words a)
  pub shr : (a : Q) (s : ℕ) → x.words (x.vshrq_n_u32 a s) ≡ map_words (λ w. w / 2 ^ s) (x.words a)
  pub trn_even : (a b : Q) → x.words ((x.vtrnq_u32 a b).0) ≡ transpose_even (x.words a) (x.words b)
  pub trn_odd : (a b : Q) → x.words ((x.vtrnq_u32 a b).1) ≡ transpose_odd (x.words a) (x.words b)
  pub zip_lo : (a b : Q) → x.words ((x.vzipq_u32 a b).0) ≡ zip_low (x.words a) (x.words b)
  pub zip_hi : (a b : Q) → x.words ((x.vzipq_u32 a b).1) ≡ zip_high (x.words a) (x.words b)

module _ {Q : Type 0} (x : Neon Q) where
  unfoldable pub load_u32x4 : Bytes → Q
  load_u32x4 slice = x.transmute slice

  unfoldable pub load_transpose4 : Bytes → Bytes → Bytes → Bytes → List Q
  load_transpose4 data0 data1 data2 data3 =
      let i0 = load_u32x4 data0 in
      let i1 = load_u32x4 data1 in
      let i2 = load_u32x4 data2 in
      let i3 = load_u32x4 data3 in
      let tr02 = x.vtrnq_u32 i0 i2 in
      let tr13 = x.vtrnq_u32 i1 i3 in
      let zip02 = x.vzipq_u32 (tr02.0) (tr13.0) in
      let zip13 = x.vzipq_u32 (tr02.1) (tr13.1) in zip02.0 ∷ zip13.0 ∷ zip02.1 ∷ zip13.1 ∷ []

  -- `load_transpose4(get_blocks!(data, (0 1 2 3), from, 16))`
  unfoldable pub load_quarter : (ℕ → Bytes) → ℕ → List Q
  load_quarter rows from =
      load_transpose4 (array_ref (rows 0) from 16) (array_ref (rows 1) from 16)
        (array_ref (rows 2) from 16) (array_ref (rows 3) from 16)

  unfoldable pub load_16x4 : (ℕ → Bytes) → List Q
  load_16x4 rows =
      load_quarter rows 0
      ++ (load_quarter rows 16 ++ (load_quarter rows 32 ++ load_quarter rows 48))

  unfoldable pub andnot : Q → Q → Q
  andnot a b = x.vbicq_u32 b a

  -- `rotate_left!`
  unfoldable pub rotate_left_4 : Q → ℕ → Q
  rotate_left_4 v shift = x.vorrq_u32 (x.vshlq_n_u32 v shift) (x.vshrq_n_u32 v (32 - shift))

  -- `lanes_4`
  abbrev pub lanes_4 : Lanes Q
  lanes_4 = record {
    lanes = 4;
    load = load_16x4;
    ops = record {
      add = x.vaddq_u32;
      and = x.vandq_u32;
      or = x.vorrq_u32;
      andnot = andnot;
      xor = x.veorq_u32;
      rol = rotate_left_4;
      splat = x.vdupq_n_u32;
    };
    lane = λ v. pick (x.words v);
  }
