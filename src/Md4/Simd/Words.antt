-- ===== src/Md4/Simd/Words.antt =====
-- Four 32-bit words, as a 128-bit register holds them, and the loads that src/md4/mod.rs makes of them.
use fast_rsync.Base.{
  ℕ, zero, suc, ◌+◌, ◌-◌, ◌*◌, ◌/◌, ◌^◌, ◌≤◌, ◌<◌, ◌≡◌, refl, sym, ap, ◌∙◌, arith, List, [], ◌∷◌,
  ◌++◌, map, Bytes, length, length-take, length-drop, take, drop, drop-drop, take-append-drop,
  get_or, chunks_of, append-nil, bit_or,
}
use fast_rsync.Base.Words.{u32, from_le_bytes}
use fast_rsync.Md4.{load_block, rotate_left}
use fast_rsync.Md4.Simd.{array_ref}
use fast_rsync.Md4.Simd.Tail.{chunks_of-append}
use mathlib.Core.List.{map-append, map-map}

pub record U32x4 : Type 0 where
  pub w0 : ℕ
  pub w1 : ℕ
  pub w2 : ℕ
  pub w3 : ℕ

-- `[u32; 4]`
abbrev pub to_list : U32x4 → List ℕ
to_list u = u.w0 ∷ u.w1 ∷ u.w2 ∷ u.w3 ∷ []

abbrev pub pick : U32x4 → ℕ → ℕ
pick u i = get_or (to_list u) i 0

abbrev pub splat_words : ℕ → U32x4
splat_words x = record { w0 = x; w1 = x; w2 = x; w3 = x }

abbrev pub map_words : (ℕ → ℕ) → U32x4 → U32x4
map_words fn a = record { w0 = fn a.w0; w1 = fn a.w1; w2 = fn a.w2; w3 = fn a.w3 }

abbrev pub zip_words : (ℕ → ℕ → ℕ) → U32x4 → U32x4 → U32x4
zip_words fn a b = record {
  w0 = fn a.w0 b.w0;
  w1 = fn a.w1 b.w1;
  w2 = fn a.w2 b.w2;
  w3 = fn a.w3 b.w3;
}

-- Little-endian words in memory.
abbrev pub load_words : Bytes → U32x4
load_words bytes = record {
  w0 = from_le_bytes (array_ref bytes 0 4);
  w1 = from_le_bytes (array_ref bytes 4 4);
  w2 = from_le_bytes (array_ref bytes 8 4);
  w3 = from_le_bytes (array_ref bytes 12 4);
}

-- The unpack instructions on one register, as Intel documents them for 32-bit and 64-bit elements.
abbrev pub unpacklo_32 : U32x4 → U32x4 → U32x4
unpacklo_32 a b = record { w0 = a.w0; w1 = b.w0; w2 = a.w1; w3 = b.w1 }

abbrev pub unpackhi_32 : U32x4 → U32x4 → U32x4
unpackhi_32 a b = record { w0 = a.w2; w1 = b.w2; w2 = a.w3; w3 = b.w3 }

abbrev pub unpacklo_64 : U32x4 → U32x4 → U32x4
unpacklo_64 a b = record { w0 = a.w0; w1 = a.w1; w2 = b.w0; w3 = b.w1 }

abbrev pub unpackhi_64 : U32x4 → U32x4 → U32x4
unpackhi_64 a b = record { w0 = a.w2; w1 = a.w3; w2 = b.w2; w3 = b.w3 }

pub pick-splat : (x i : ℕ) → i < 4 → pick (splat_words x) i ≡ x
pick-splat x zero h = refl
pick-splat x (suc zero) h = refl
pick-splat x (suc (suc zero)) h = refl
pick-splat x (suc (suc (suc zero))) h = refl
pick-splat x (suc (suc (suc (suc i)))) h = absurd (omega arith)

pub pick-zip :
    (fn : ℕ → ℕ → ℕ) (a b : U32x4) (i : ℕ)
    → i < 4
    → pick (zip_words fn a b) i ≡ fn (pick a i) (pick b i)
pick-zip fn a b zero h = refl
pick-zip fn a b (suc zero) h = refl
pick-zip fn a b (suc (suc zero)) h = refl
pick-zip fn a b (suc (suc (suc zero))) h = refl
pick-zip fn a b (suc (suc (suc (suc i)))) h = absurd (omega arith)

pub pick-map : (fn : ℕ → ℕ) (a : U32x4) (i : ℕ) → i < 4 → pick (map_words fn a) i ≡ fn (pick a i)
pick-map fn a zero h = refl
pick-map fn a (suc zero) h = refl
pick-map fn a (suc (suc zero)) h = refl
pick-map fn a (suc (suc (suc zero))) h = refl
pick-map fn a (suc (suc (suc (suc i)))) h = absurd (omega arith)

-- The rows of four registers as columns.
abbrev pub column : ℕ → (ℕ → U32x4) → U32x4
column k rows = record {
  w0 = pick (rows 0) k;
  w1 = pick (rows 1) k;
  w2 = pick (rows 2) k;
  w3 = pick (rows 3) k;
}

pub pick-column :
    (k : ℕ) (rows : ℕ → U32x4) (i : ℕ) → i < 4 → pick (column k rows) i ≡ pick (rows i) k
pick-column k rows zero h = refl
pick-column k rows (suc zero) h = refl
pick-column k rows (suc (suc zero)) h = refl
pick-column k rows (suc (suc (suc zero))) h = refl
pick-column k rows (suc (suc (suc (suc i)))) h = absurd (omega arith)

-- The words of sixteen bytes.
words_16 : (q : Bytes) → map from_le_bytes (chunks_of 4 4 q) ≡ to_list (load_words q)
unfolding chunks_of
words_16 q = rw (drop-drop 4 4 8 q refl, drop-drop 8 4 12 q refl)

-- The words from a place on are those of sixteen bytes and those behind.
quarter :
    (block : Bytes) (from next m n : ℕ)
    → from + 16 ≤ length block
    → from + 16 ≡ next
    → 4 + m ≡ n
    → map from_le_bytes (chunks_of n 4 (drop from block))
      ≡ to_list (load_words (array_ref block from 16))
        ++ map from_le_bytes (chunks_of m 4 (drop next block))
quarter block from next m n inside e e' =
    let rest = drop from block in
    let size : length (take 16 rest) ≡ 16 =
      omega (arith, length-take 16 rest, length-drop from block) in
    let split : chunks_of n 4 rest ≡ chunks_of 4 4 (take 16 rest) ++ chunks_of m 4 (drop 16 rest) =
      ap (chunks_of n 4) (sym (take-append-drop 16 rest))
      ∙ chunks_of-append 4 m n (take 16 rest) (drop 16 rest) size e' in
    ap (map from_le_bytes) split
    ∙ map-append from_le_bytes (chunks_of 4 4 (take 16 rest)) (chunks_of m 4 (drop 16 rest))
    ∙ rw (words_16 (take 16 rest), drop-drop from 16 next block e)

-- A block has the words of its quarters.
pub load_block_quarters :
    (block : Bytes)
    → length block ≡ 64
    → load_block block
      ≡ to_list (load_words (array_ref block 0 16))
        ++ (to_list (load_words (array_ref block 16 16))
            ++ (to_list (load_words (array_ref block 32 16))
                ++ to_list (load_words (array_ref block 48 16))))
unfolding load_block
load_block_quarters block e =
    let count : length block / 4 ≡ 16 = omega arith in
    ap (λ (k : ℕ). map from_le_bytes (chunks_of k 4 block)) count
    ∙ quarter block 0 16 12 16 (omega arith) refl refl
    ∙ ap (λ (t : List ℕ). to_list (load_words (array_ref block 0 16)) ++ t)
        (quarter block 16 32 8 12 (omega arith) refl refl
          ∙ ap (λ (t : List ℕ). to_list (load_words (array_ref block 16 16)) ++ t)
              (quarter block 32 48 4 8 (omega arith) refl refl
                ∙ ap (λ (t : List ℕ). to_list (load_words (array_ref block 32 16)) ++ t)
                    (quarter block 48 64 0 4 (omega arith) refl refl
                      ∙ unfold chunks_of in append-nil _)))

pub length-array_ref :
    (bytes : Bytes) (from len : ℕ)
    → from + len ≤ length bytes
    → length (array_ref bytes from len) ≡ len
length-array_ref bytes from len inside =
    omega (arith, length-take len (drop from bytes), length-drop from bytes)

-- Two shifts and an `or` rotate every word.
pub rotate_words :
    (u : U32x4) (s : ℕ)
    → zip_words bit_or (map_words (λ w. u32 (w * 2 ^ s)) u) (map_words (λ w. w / 2 ^ (32 - s)) u)
      ≡ map_words (λ w. rotate_left w s) u
rotate_words u s = refl

-- Four loads of columns give a lane the words of its block.
pub four_quarters :
    {V : Type 0} (words : V → U32x4) (quarter : ℕ → List V) (rows : ℕ → Bytes)
    → ((j : ℕ) → j < 4 → length (rows j) ≡ 64)
    → ((from : ℕ)
        → from + 16 ≤ 64
        → let cell = λ (j : ℕ). load_words (array_ref (rows j) from 16) in
          map words (quarter from)
          ≡ column 0 cell ∷ column 1 cell ∷ column 2 cell ∷ column 3 cell ∷ [])
    → (i : ℕ) → i < 4
    → map (λ v. pick (words v) i) (quarter 0 ++ (quarter 16 ++ (quarter 32 ++ quarter 48)))
      ≡ load_block (rows i)
four_quarters {V} words quarter rows sized columns i h =
    let lane = λ (v : V). pick (words v) i in
    rw
      (
        map-append lane (quarter 0) (quarter 16 ++ (quarter 32 ++ quarter 48)),
        map-append lane (quarter 16) (quarter 32 ++ quarter 48),
        map-append lane (quarter 32) (quarter 48),
        own 0 (omega arith),
        own 16 (omega arith),
        own 32 (omega arith),
        own 48 (omega arith),
      )
      (sym (load_block_quarters (rows i) (sized i h)))
  where
    own :
        (from : ℕ)
        → from + 16 ≤ 64
        → map (λ (v : V). pick (words v) i) (quarter from)
          ≡ to_list (load_words (array_ref (rows i) from 16))
    own from inside =
        let cell = λ (j : ℕ). load_words (array_ref (rows j) from 16) in
        sym (map-map (λ (u : U32x4). pick u i) words (quarter from))
        ∙ ap (map (λ (u : U32x4). pick u i)) (columns from inside)
        ∙ rw (
          pick-column 0 cell i h,
          pick-column 1 cell i h,
          pick-column 2 cell i h,
          pick-column 3 cell i h,
        )
