-- ===== src/Base/Keys.antt =====
-- Equality of keys, and `HashMap` of the standard library: an association list in which a key
-- stands once. What the code uses of it does not depend on the order of the entries.
use mathlib.Core.Path.{◌≡◌, refl}
use mathlib.Core.Logic.{◌↔◌}
use mathlib.Core.Bool.{Bool, true, false, ◌&&◌}
use mathlib.Core.List.{List, [], ◌∷◌}
use mathlib.Core.Option.{Option, none, some}
use native.Mathlib.Omega.{arith}
use fast_rsync.Base.Tests.{◌==◌, ==_iff, if◌then◌else◌}
use fast_rsync.Base.Lists.{Bytes}

-- `Eq` of a key.
pub record KeyEq {ℓ} (K : Type ℓ) : Type ℓ where
  pub eq : K → K → Bool
  pub eq_iff : (k j : K) → (eq k j ≡ true) ↔ (k ≡ j)

unfoldable pub beq_bytes : Bytes → Bytes → Bool
beq_bytes [] [] = true
beq_bytes [] (y ∷ ys) = false
beq_bytes (x ∷ xs) [] = false
beq_bytes (x ∷ xs) (y ∷ ys) = x == y && beq_bytes xs ys

pub beq_bytes_iff : (xs ys : Bytes) → (beq_bytes xs ys ≡ true) ↔ (xs ≡ ys)
unfolding beq_bytes
beq_bytes_iff [] [] = ground arith
beq_bytes_iff [] (y ∷ ys) = ground arith
beq_bytes_iff (x ∷ xs) [] = ground arith
beq_bytes_iff (x ∷ xs) (y ∷ ys) = ground (arith, ==_iff x y, beq_bytes_iff xs ys)

instance abbrev pub bytes_eq : KeyEq Bytes
bytes_eq = record { eq = beq_bytes; eq_iff = beq_bytes_iff }

abbrev pub HashMap : Type 0 → Type 0 → Type 0
HashMap K V = List (K × V)

unfoldable pub get_or_default : {V : Type 0} → V → Option V → V
get_or_default d none = d
get_or_default d (some v) = v

module _ {K V : Type 0} ⦃e : KeyEq K⦄ where
  unfoldable pub get : K → HashMap K V → Option V
  get k [] = none
  get k ((j, v) ∷ m) = if e.eq j k then some v else get k m

  -- The map after `insert`; the call returns `get k m`, what stood there before.
  unfoldable pub insert : K → V → HashMap K V → HashMap K V
  insert k v [] = (k, v) ∷ []
  insert k v ((j, w) ∷ m) = if e.eq j k then (j, v) ∷ m else (j, w) ∷ insert k v m

  -- `*map.entry(k).or_insert(d)` changed by `f`.
  unfoldable pub entry_or : K → V → (V → V) → HashMap K V → HashMap K V
  entry_or k d f [] = (k, f d) ∷ []
  entry_or k d f ((j, w) ∷ m) = if e.eq j k then (j, f w) ∷ m else (j, w) ∷ entry_or k d f m

  pub get-insert :
      (k j : K) (v : V) (m : HashMap K V)
      → get j (insert k v m) ≡ (if e.eq k j then some v else get j m)
  unfolding get insert
  get-insert k j v [] = refl
  get-insert k j v ((i, w) ∷ m) =
      ground (arith, e.eq_iff k j, e.eq_iff i k, e.eq_iff i j, get-insert k j v m)

  pub get-entry_or :
      (k j : K) (d : V) (f : V → V) (m : HashMap K V)
      → get j (entry_or k d f m)
        ≡ (if e.eq k j then some (f (get_or_default d (get k m))) else get j m)
  unfolding get entry_or get_or_default
  get-entry_or k j d f [] = refl
  get-entry_or k j d f ((i, w) ∷ m) =
      ground (arith, e.eq_iff k j, e.eq_iff i k, e.eq_iff i j, get-entry_or k j d f m)
