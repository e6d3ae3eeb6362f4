-- ===== src/Md4/Simd/Wide.antt =====
-- Eight 32-bit words, as a 256-bit register holds them in two halves.
use fast_rsync.Base.{
  ℕ, zero, suc, ◌+◌, ◌≤◌, ◌<◌, ◌≡◌, refl, ap, ◌∙◌, arith, [], ◌∷◌, ◌++◌, Bytes, take, drop,
  drop-drop, get_or,
}
use fast_rsync.Md4.Simd.{array_ref}
use fast_rsync.Md4.Simd.Words.{U32x4, to_list, pick, splat_words, map_words, zip_words, column}

pub record U32x8 : Type 0 where
  pub lo : U32x4
  pub hi : U32x4

abbrev pub pick_wide : U32x8 → ℕ → ℕ
pick_wide u i = get_or (to_list u.lo ++ to_list u.hi) i 0

abbrev pub map_halves : (U32x4 → U32x4) → U32x8 → U32x8
map_halves fn a = record { lo = fn a.lo; hi = fn a.hi }

abbrev pub zip_halves : (U32x4 → U32x4 → U32x4) → U32x8 → U32x8 → U32x8
zip_halves fn a b = record { lo = fn a.lo b.lo; hi = fn a.hi b.hi }

-- The rows of eight registers as columns.
abbrev pub wide_column : ℕ → (ℕ → U32x4) → U32x8
wide_column k rows = record { lo = column k rows; hi = column k (λ j. rows (4 + j)) }

-- A statement on the lanes below eight, checked one by one.
below_8 : (P : ℕ → Type 0) → P 0 → P 1 → P 2 → P 3 → P 4 → P 5 → P 6 → P 7 → (i : ℕ) → i < 8 → P i
below_8 P p0 p1 p2 p3 p4 p5 p6 p7 zero h = p0
below_8 P p0 p1 p2 p3 p4 p5 p6 p7 (suc zero) h = p1
below_8 P p0 p1 p2 p3 p4 p5 p6 p7 (suc (suc zero)) h = p2
below_8 P p0 p1 p2 p3 p4 p5 p6 p7 (suc (suc (suc zero))) h = p3
below_8 P p0 p1 p2 p3 p4 p5 p6 p7 (suc (suc (suc (suc zero)))) h = p4
below_8 P p0 p1 p2 p3 p4 p5 p6 p7 (suc (suc (suc (suc (suc zero))))) h = p5
below_8 P p0 p1 p2 p3 p4 p5 p6 p7 (suc (suc (suc (suc (suc (suc zero)))))) h = p6
below_8 P p0 p1 p2 p3 p4 p5 p6 p7 (suc (suc (suc (suc (suc (suc (suc zero))))))) h = p7
below_8 P p0 p1 p2 p3 p4 p5 p6 p7 (suc (suc (suc (suc (suc (suc (suc (suc i)))))))) h =
    absurd (omega arith)

pub pick_wide-splat :
    (x i : ℕ) → i < 8 → pick_wide (record { lo = splat_words x; hi = splat_words x }) i ≡ x
pick_wide-splat x =
    below_8 (λ i. pick_wide (record { lo = splat_words x; hi = splat_words x }) i ≡ x) refl refl
      refl refl refl refl refl refl

pub pick_wide-zip :
    (fn : ℕ → ℕ → ℕ) (a b : U32x8) (i : ℕ)
    → i < 8
    → pick_wide (zip_halves (zip_words fn) a b) i ≡ fn (pick_wide a i) (pick_wide b i)
pick_wide-zip fn a b =
    below_8 (λ i. pick_wide (zip_halves (zip_words fn) a b) i ≡ fn (pick_wide a i) (pick_wide b i))
      refl refl refl refl refl refl refl refl

pub pick_wide-map :
    (fn : ℕ → ℕ) (a : U32x8) (i : ℕ)
    → i < 8
    → pick_wide (map_halves (map_words fn) a) i ≡ fn (pick_wide a i)
pick_wide-map fn a =
    below_8 (λ i. pick_wide (map_halves (map_words fn) a) i ≡ fn (pick_wide a i)) refl refl refl
      refl refl refl refl refl

pub pick_wide-column :
    (k : ℕ) (rows : ℕ → U32x4) (i : ℕ) → i < 8 → pick_wide (wide_column k rows) i ≡ pick (rows i) k
pick_wide-column k rows =
    below_8 (λ i. pick_wide (wide_column k rows) i ≡ pick (rows i) k) refl refl refl refl refl refl
      refl refl

take-take : (n len : ℕ) (xs : Bytes) → n ≤ len → take n (take len xs) ≡ take n xs
take-take zero len xs h = refl
take-take (suc n) zero xs h = absurd (omega arith)
take-take (suc n) (suc len) [] h = refl
take-take (suc n) (suc len) (x ∷ xs) h =
    ap (λ (t : Bytes). x ∷ t) (take-take n len xs (omega arith))

take-drop-take :
    (at n len : ℕ) (xs : Bytes)
    → at + n ≤ len
    → take n (drop at (take len xs)) ≡ take n (drop at xs)
take-drop-take zero n len xs h = take-take n len xs (omega arith)
take-drop-take (suc at) n zero xs h = absurd (omega arith)
take-drop-take (suc at) n (suc len) [] h = refl
take-drop-take (suc at) n (suc len) (x ∷ xs) h = take-drop-take at n len xs (omega arith)

-- A part of a part.
pub array_ref-array_ref :
    (bytes : Bytes) (from len at n next : ℕ)
    → at + n ≤ len
    → from + at ≡ next
    → array_ref (array_ref bytes from len) at n ≡ array_ref bytes next n
array_ref-array_ref bytes from len at n next inside e =
    take-drop-take at n len (drop from bytes) inside ∙ ap (take n) (drop-drop from at next bytes e)
