-- ===== src/SecondLayerMap.antt =====
-- The map of src/hashmap_variant.rs, with no entry, one entry, or a hash map of entries.
pub mod Laws
use fast_rsync.Base.{Option, none, some, [], Bool, if◌then◌else◌}
use fast_rsync.Base.Keys.{KeyEq, HashMap}
use fast_rsync.Base.Keys

pub data SecondLayerMap (K V : Type 0) : Type 0 where
  empty : SecondLayerMap K V
  single : K → V → SecondLayerMap K V
  two_or_more : HashMap K V → SecondLayerMap K V

-- `Default`
unfoldable pub default : {K V : Type 0} → SecondLayerMap K V
default = empty

module _ {K V : Type 0} ⦃e : KeyEq K⦄ where
  -- The new map and what `insert` returns.
  unfoldable pub insert : K → V → SecondLayerMap K V → SecondLayerMap K V × Option V
  insert key val empty = (single key val, none)
  insert key val (single old_key old_val) =
      let map : HashMap K V = Keys.insert key val [] in
      let ret : Option V = Keys.get old_key map in
      (two_or_more (Keys.insert old_key old_val map), ret)
  insert key val (two_or_more map) = (two_or_more (Keys.insert key val map), Keys.get key map)

  unfoldable pub get : K → SecondLayerMap K V → Option V
  get needle empty = none
  get needle (single key val) = if e.eq needle key then some val else none
  get needle (two_or_more map) = Keys.get needle map
