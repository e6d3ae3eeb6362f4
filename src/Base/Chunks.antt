-- ===== src/Base/Chunks.antt =====
-- `chunks` and `chunks_exact` of the standard library.
use fast_rsync.Base.{
  ℕ, zero, suc, ◌+◌, ◌-◌, ◌*◌, ◌/◌, ◌≤◌, ◌<◌, ◌≡◌, refl, sym, ap, ◌∙◌, arith, some, List, [], ◌∷◌,
  ◌++◌, append-nil, length, length-append, length-take, length-drop, take, drop, take-append,
  drop-append, drop-drop, drop_all, get_elem?, slice, slice_in, All, chunks_of, chunks_exact,
  remainder, unless_empty, chunks,
}
use mathlib.Core.List.{flatten}
use mathlib.Core.Option.{some-injective}
use native.Mathlib.Nat.{div-add-mod', mod-lt, mul-div_cancel}

module _ {ℓ} {A : Type ℓ} where
  abbrev pub IsSized : ℕ → List (List A) → Type 0
  IsSized n rows = All (λ row. length row ≡ n) rows

  pub chunks_of-IsSized : (k n : ℕ) (xs : List A) → k * n ≤ length xs → IsSized n (chunks_of k n xs)
  unfolding chunks_of
  chunks_of-IsSized zero n xs h = tt
  chunks_of-IsSized (suc k) n xs h = (
    omega (arith, length-take n xs),
    chunks_of-IsSized k n (drop n xs) (omega (arith, length-drop n xs)),
  )

  -- The chunks of `chunks_exact` have the size that is asked for.
  pub chunks_exact-IsSized : (n : ℕ) (xs : List A) → IsSized n (chunks_exact n xs)
  unfolding chunks_exact
  chunks_exact-IsSized n xs =
      chunks_of-IsSized (length xs / n) n xs (omega (arith, div-add-mod' (length xs) n))

  length-chunks_of : (k n : ℕ) (xs : List A) → length (chunks_of k n xs) ≡ k
  unfolding chunks_of
  length-chunks_of zero n xs = refl
  length-chunks_of (suc k) n xs = ap suc (length-chunks_of k n (drop n xs))

  pub length-flatten :
      (n : ℕ) (rows : List (List A)) → IsSized n rows → length (flatten rows) ≡ length rows * n
  unfolding flatten
  length-flatten n [] h = omega arith
  length-flatten n (row ∷ rows) h =
      omega (arith, length-append row (flatten rows), length-flatten n rows h.1, h.0)

  chunks_of-flatten :
      (n : ℕ) (rows : List (List A))
      → IsSized n rows
      → chunks_of (length rows) n (flatten rows) ≡ rows
  unfolding chunks_of flatten
  chunks_of-flatten n [] h = refl
  chunks_of-flatten n (row ∷ rows) h = rw (
    take-append n row (flatten rows) h.0,
    drop-append n row (flatten rows) h.0,
    chunks_of-flatten n rows h.1,
  )

  -- Rows of one size are had back from the list that they make.
  pub chunks-flatten :
      (n : ℕ) (rows : List (List A)) → 1 ≤ n → IsSized n rows → chunks n (flatten rows) ≡ rows
  unfolding chunks chunks_exact remainder
  chunks-flatten n rows lo h =
      let len = length-flatten n rows h in
      let count : length (flatten rows) / n ≡ length rows =
        rw len (mul-div_cancel (length rows) lo) in
      rw
        (
          count,
          chunks_of-flatten n rows h,
          drop_all (length rows * n) (flatten rows) (omega (arith, len)),
        )
        (unfold unless_empty in append-nil rows)

  -- A chunk of full size, wherever it stands, is the part of the list at its place.
  get_elem?-chunks_of :
      (k n : ℕ) (xs rest : List A) (i : ℕ) (row : List A)
      → length rest < n
      → k * n ≤ length xs
      → get_elem? (chunks_of k n xs ++ unless_empty rest) i ≡ some row
      → length row ≡ n
      → (i * n + n ≤ length xs) × (row ≡ take n (drop (i * n) xs))
  unfolding chunks_of unless_empty
  get_elem?-chunks_of zero n xs [] i row small h e len = cc
  get_elem?-chunks_of zero n xs (x ∷ rest) zero row small h e len =
      let same : x ∷ rest ≡ row = cc in absurd (omega (arith, ap length same))
  get_elem?-chunks_of zero n xs (x ∷ rest) (suc i) row small h e len = cc
  get_elem?-chunks_of (suc k) n xs rest zero row small h e len =
      let z : 0 * n ≡ 0 = omega arith in (omega arith, rw z (sym (some-injective _ _ e)))
  get_elem?-chunks_of (suc k) n xs rest (suc i) row small h e len =
      let (inside, same) =
        get_elem?-chunks_of k n (drop n xs) rest i row small (omega (arith, length-drop n xs)) e
          len in
      (
        omega (arith, length-drop n xs),
        same ∙ ap (take n) (drop-drop n (i * n) (suc i * n) xs (omega arith)),
      )

  pub slice-chunks :
      (n : ℕ) (xs : List A) (i : ℕ) (row : List A)
      → 1 ≤ n
      → get_elem? (chunks n xs) i ≡ some row
      → length row ≡ n
      → slice xs (i * n) (i * n + n) ≡ some row
  unfolding chunks chunks_exact remainder
  slice-chunks n xs i row lo e len =
      let whole = div-add-mod' (length xs) n in
      let small : length (drop (length xs / n * n) xs) < n =
        omega (arith, length-drop (length xs / n * n) xs, mod-lt (length xs) lo) in
      let (inside, same) =
        get_elem?-chunks_of (length xs / n) n xs (drop (length xs / n * n) xs) i row small
          (omega arith) e len in
      let back : i * n + n - i * n ≡ n = omega arith in
      slice_in xs (i * n) (i * n + n) (omega arith) inside ∙ rw (back, same)

  chunk_at :
      (k n : ℕ) (xs : List A) (rest : List (List A)) (i : ℕ)
      → i < k
      → get_elem? (chunks_of k n xs ++ rest) i ≡ some (take n (drop (i * n) xs))
  unfolding chunks_of
  chunk_at zero n xs rest i h = absurd (omega arith)
  chunk_at (suc k) n xs rest zero h = let z : 0 * n ≡ 0 = omega arith in rw z
  chunk_at (suc k) n xs rest (suc i) h =
      chunk_at k n (drop n xs) rest i (omega arith)
      ∙ ap (λ (t : List A). some (take n t)) (drop-drop n (i * n) (suc i * n) xs (omega arith))

  -- The chunks of full size stand in order.
  pub get_elem?-chunks :
      (n : ℕ) (xs : List A) (i : ℕ)
      → i < length xs / n
      → get_elem? (chunks n xs) i ≡ some (take n (drop (i * n) xs))
  unfolding chunks chunks_exact
  get_elem?-chunks n xs i h = chunk_at (length xs / n) n xs (unless_empty (remainder n xs)) i h
