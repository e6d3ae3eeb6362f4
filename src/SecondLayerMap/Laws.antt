-- ===== src/SecondLayerMap/Laws.antt =====
-- What `insert` and `get` of src/hashmap_variant.rs have to do with each other.
use fast_rsync.Base.{◌≡◌, ◌⊎◌, none, some, arith}
use fast_rsync.Base.{if◌then◌else◌}
use fast_rsync.Base.Keys.{KeyEq, HashMap}
use fast_rsync.Base.Keys
use fast_rsync.SecondLayerMap.{SecondLayerMap, empty, single, two_or_more, insert, get}

module _ {K V : Type 0} ⦃e : KeyEq K⦄ where
  -- Inserting a key that the map does not hold: afterwards `get` finds the new value under that key and
  -- under any other what it found before, and `insert` returns nothing.
  pub get-insert_new :
      (k j : K) (v : V) (m : SecondLayerMap K V)
      → get k m ≡ none
      → (get j (insert k v m).0 ≡ (if e.eq k j then some v else get j m))
        × ((insert k v m).1 ≡ none)
  unfolding get insert Keys.get Keys.insert
  get-insert_new k j v empty h = ground (arith, e.eq_iff k j, e.eq_iff j k)
  get-insert_new k j v (single i w) h =
      ground (arith, e.eq_iff k j, e.eq_iff k i, e.eq_iff i k, e.eq_iff i j, e.eq_iff j i)
  get-insert_new k j v (two_or_more m) h = (Keys.get-insert k j v m, h)

  -- Inserting the key of a map of one entry again keeps the old value in the map, and returns the new
  -- one.
  pub insert-single_same :
      (k : K) (v w : V)
      → (get k (insert k w (single k v)).0 ≡ some v) × ((insert k w (single k v)).1 ≡ some w)
  unfolding get insert Keys.get Keys.insert
  insert-single_same k v w = ground (arith, e.eq_iff k k)

  -- An entry that `get` finds after `insert`, whatever the map, is the inserted one or was found before.
  pub get-insert_cases :
      (k j : K) (v w : V) (m : SecondLayerMap K V)
      → get j (insert k v m).0 ≡ some w
      → ((j ≡ k) × (w ≡ v)) ⊎ (get j m ≡ some w)
  get-insert_cases k j v w empty h = unfold get insert in ground (arith, e.eq_iff j k)
  get-insert_cases k j v w (single i x) h =
      unfold get insert Keys.get Keys.insert in
      ground (arith, e.eq_iff k j, e.eq_iff i j, e.eq_iff k i, e.eq_iff j i)
  get-insert_cases k j v w (two_or_more m) h =
      unfold get insert in ground (arith, Keys.get-insert k j v m, e.eq_iff k j)
