-- ===== src/Base/Lists.antt =====
-- Slices as lists measured and indexed by native numbers, under the library's names.
use Prim.Native.Nat.{ℕ, zero, suc, ◌+◌, ◌-◌, ◌*◌, ◌/◌, ◌≤◌, ◌<◌, min}
use mathlib.Core.Path.{◌≡◌, refl, ap}
use mathlib.Core.List.{List, [], ◌∷◌, ◌++◌, map}
use mathlib.Core.Option.{Option, none, some}
use mathlib.Core.Bool.{◌&&◌}
use native.Mathlib.Omega.{arith}
use fast_rsync.Base.Tests.{leb, if◌then◌else◌, le→leb}

module _ {ℓ} {A : Type ℓ} where
  abbrev pub length : List A → ℕ
  length [] = 0
  length (x ∷ xs) = suc (length xs)

  abbrev pub get_elem? : List A → ℕ → Option A
  get_elem? [] i = none
  get_elem? (x ∷ xs) zero = some x
  get_elem? (x ∷ xs) (suc i) = get_elem? xs i

  abbrev pub get_or : List A → ℕ → A → A
  get_or [] i d = d
  get_or (x ∷ xs) zero d = x
  get_or (x ∷ xs) (suc i) d = get_or xs i d

  abbrev pub take : ℕ → List A → List A
  take zero xs = []
  take (suc n) [] = []
  take (suc n) (x ∷ xs) = x ∷ take n xs

  abbrev pub drop : ℕ → List A → List A
  drop zero xs = xs
  drop (suc n) [] = []
  drop (suc n) (x ∷ xs) = drop n xs

  abbrev pub replicate : ℕ → A → List A
  replicate zero a = []
  replicate (suc n) a = a ∷ replicate n a

  -- A write out of range changes nothing.
  abbrev pub set : List A → ℕ → A → List A
  set [] i a = []
  set (x ∷ xs) zero a = a ∷ xs
  set (x ∷ xs) (suc i) a = x ∷ set xs i a

  abbrev pub All {κ} : (A → Type κ) → List A → Type κ
  All P [] = Unit {κ}
  All P (x ∷ xs) = P x × All P xs

  -- `xs.get(a..b)`: nothing where the range does not lie in the slice.
  unfoldable pub slice : List A → ℕ → ℕ → Option (List A)
  slice xs a b = if leb a b && leb b (length xs) then some (take (b - a) (drop a xs)) else none

module _ {ℓ} {A : Type ℓ} where
  -- The first `k` chunks of `n` elements.
  unfoldable pub chunks_of : ℕ → ℕ → List A → List (List A)
  chunks_of zero n xs = []
  chunks_of (suc k) n xs = take n xs ∷ chunks_of k n (drop n xs)

  -- `xs.chunks_exact(n)`, its `remainder()`, and `xs.chunks(n)`, for a positive `n`.
  unfoldable pub chunks_exact : ℕ → List A → List (List A)
  unfolding chunks_of
  chunks_exact n xs = chunks_of (length xs / n) n xs

  unfoldable pub remainder : ℕ → List A → List A
  remainder n xs = drop (length xs / n * n) xs

  -- A list of one element, unless that is empty.
  unfoldable pub unless_empty : List A → List (List A)
  unless_empty [] = []
  unless_empty (x ∷ xs) = (x ∷ xs) ∷ []

  unfoldable pub chunks : ℕ → List A → List (List A)
  unfolding chunks_exact remainder unless_empty
  chunks n xs = chunks_exact n xs ++ unless_empty (remainder n xs)

  -- `xs[at..at + ys.len()].copy_from_slice(ys)`, where that lies in `xs`.
  unfoldable pub splice : List A → ℕ → List A → List A
  splice xs at ys = take at xs ++ (ys ++ drop (at + length ys) xs)

module _ {ℓ} {A : Type ℓ} where
  pub length-append : (xs ys : List A) → length (xs ++ ys) ≡ length xs + length ys
  length-append [] ys = omega arith
  length-append (x ∷ xs) ys = omega (arith, length-append xs ys)

  pub take-append-drop : (n : ℕ) (xs : List A) → take n xs ++ drop n xs ≡ xs
  take-append-drop zero xs = refl
  take-append-drop (suc n) [] = refl
  take-append-drop (suc n) (x ∷ xs) = rw (take-append-drop n xs)

  pub length-take : (n : ℕ) (xs : List A) → length (take n xs) ≡ min n (length xs)
  length-take zero xs = omega arith
  length-take (suc n) [] = omega arith
  length-take (suc n) (x ∷ xs) = omega (arith, length-take n xs)

  pub length-drop : (n : ℕ) (xs : List A) → length (drop n xs) ≡ length xs - n
  length-drop zero xs = omega arith
  length-drop (suc n) [] = omega arith
  length-drop (suc n) (x ∷ xs) = omega (arith, length-drop n xs)

  pub length-replicate : (n : ℕ) (a : A) → length (replicate n a) ≡ n
  length-replicate zero a = refl
  length-replicate (suc n) a = ap suc (length-replicate n a)

  pub length-map {κ} : {B : Type κ} (f : A → B) (xs : List A) → length (map f xs) ≡ length xs
  length-map f [] = refl
  length-map f (x ∷ xs) = ap suc (length-map f xs)

  pub take_all : (n : ℕ) (xs : List A) → length xs ≤ n → take n xs ≡ xs
  take_all zero [] h = refl
  take_all zero (x ∷ xs) h = absurd (omega arith)
  take_all (suc n) [] h = refl
  take_all (suc n) (x ∷ xs) h = ap (λ t. x ∷ t) (take_all n xs (omega arith))

  pub drop_all : (n : ℕ) (xs : List A) → length xs ≤ n → drop n xs ≡ []
  drop_all zero [] h = refl
  drop_all zero (x ∷ xs) h = absurd (omega arith)
  drop_all (suc n) [] h = refl
  drop_all (suc n) (x ∷ xs) h = drop_all n xs (omega arith)

  pub take-append : (n : ℕ) (xs ys : List A) → length xs ≡ n → take n (xs ++ ys) ≡ xs
  take-append zero [] ys h = refl
  take-append zero (x ∷ xs) ys h = absurd (omega arith)
  take-append (suc n) [] ys h = absurd (omega arith)
  take-append (suc n) (x ∷ xs) ys h = ap (λ t. x ∷ t) (take-append n xs ys (omega arith))

  pub drop-append : (n : ℕ) (xs ys : List A) → length xs ≡ n → drop n (xs ++ ys) ≡ ys
  drop-append zero [] ys h = refl
  drop-append zero (x ∷ xs) ys h = absurd (omega arith)
  drop-append (suc n) [] ys h = absurd (omega arith)
  drop-append (suc n) (x ∷ xs) ys h = drop-append n xs ys (omega arith)

  pub take-append_le : (n : ℕ) (xs ys : List A) → n ≤ length xs → take n (xs ++ ys) ≡ take n xs
  take-append_le zero xs ys h = refl
  take-append_le (suc n) [] ys h = absurd (omega arith)
  take-append_le (suc n) (x ∷ xs) ys h = ap (λ t. x ∷ t) (take-append_le n xs ys (omega arith))

  pub drop-append_le :
      (n : ℕ) (xs ys : List A) → n ≤ length xs → drop n (xs ++ ys) ≡ drop n xs ++ ys
  drop-append_le zero xs ys h = refl
  drop-append_le (suc n) [] ys h = absurd (omega arith)
  drop-append_le (suc n) (x ∷ xs) ys h = drop-append_le n xs ys (omega arith)

  pub drop-drop : (m n k : ℕ) (xs : List A) → m + n ≡ k → drop n (drop m xs) ≡ drop k xs
  drop-drop zero n k xs h = let e : n ≡ k = omega arith in ap (λ (t : ℕ). drop t xs) e
  drop-drop (suc m) n zero xs h = absurd (omega arith)
  drop-drop (suc m) zero (suc k) [] h = refl
  drop-drop (suc m) (suc n) (suc k) [] h = refl
  drop-drop (suc m) n (suc k) (x ∷ xs) h = drop-drop m n k xs (omega arith)

  -- The first `k` elements are the first `m` and the `n` behind them.
  pub take-add : (m n k : ℕ) (xs : List A) → m + n ≡ k → take m xs ++ take n (drop m xs) ≡ take k xs
  take-add zero n k xs h = let e : n ≡ k = omega arith in ap (λ (t : ℕ). take t xs) e
  take-add (suc m) n zero xs h = absurd (omega arith)
  take-add (suc m) zero (suc k) [] h = refl
  take-add (suc m) (suc n) (suc k) [] h = refl
  take-add (suc m) n (suc k) (x ∷ xs) h = ap (λ t. x ∷ t) (take-add m n k xs (omega arith))

  pub slice_in :
      (xs : List A) (a b : ℕ)
      → a ≤ b
      → b ≤ length xs
      → slice xs a b ≡ some (take (b - a) (drop a xs))
  unfolding slice
  slice_in xs a b h k = rw (le→leb a b h, le→leb b (length xs) k)

  pub All-append {κ} : (P : A → Type κ) (xs ys : List A) → All P xs → All P ys → All P (xs ++ ys)
  All-append P [] ys h k = k
  All-append P (x ∷ xs) ys h k = (h.0, All-append P xs ys h.1 k)

  pub All-take {κ} : (P : A → Type κ) (n : ℕ) (xs : List A) → All P xs → All P (take n xs)
  All-take P zero xs h = tt
  All-take P (suc n) [] h = tt
  All-take P (suc n) (x ∷ xs) h = (h.0, All-take P n xs h.1)

  pub All-drop {κ} : (P : A → Type κ) (n : ℕ) (xs : List A) → All P xs → All P (drop n xs)
  All-drop P zero xs h = h
  All-drop P (suc n) [] h = tt
  All-drop P (suc n) (x ∷ xs) h = All-drop P n xs h.1

abbrev pub Bytes : Type 0
Bytes = List ℕ

abbrev pub IsByte : ℕ → Type 0
IsByte b = b < 256
