-- ===== src/Signature/Distinct.antt =====
-- The block index of src/signature.rs on rows that are told apart by their keys: it names all of them.
use fast_rsync.Base.{
  ℕ, zero, suc, ◌+◌, ◌≡◌, ◌≢◌, ◌≤◌, ◌^◌, length, refl, ap, ◌∙◌, arith, none, some, Option,
  Option-cases, inl, inr, List, [], ◌∷◌, Bytes, Bool, Bool-cases, true, false, ◌==◌, ◌&&◌,
  get_elem?, if◌then◌else◌,
}
use fast_rsync.Base.Keys.{
  get, entry_or, get-entry_or, get_or_default, bytes_eq, beq_bytes, beq_bytes_iff,
}
use fast_rsync.Base.Words.{u32}
use fast_rsync.Crc.{Crc}
use fast_rsync.SecondLayerMap.{SecondLayerMap, default}
use fast_rsync.SecondLayerMap
use fast_rsync.SecondLayerMap.Laws.{get-insert_new}
use fast_rsync.Signature.Index.{BlockIndex, crc_eq, crc_eq_iff, index_loop}
use fast_rsync.Signature.Lookup.{Names, get_elem?-lt}
use mathlib.Core.Option.{some-injective}

abbrev Key : Type 0
Key = Crc × Bytes

-- The number that the index names for a key, if any.
abbrev named : BlockIndex → Key → Option ℕ
named block_index (crc, hash) =
    SecondLayerMap.get hash (get_or_default default (get crc block_index))

abbrev eq_key : Key → Key → Bool
eq_key (crc, hash) (crc', hash') = crc.value == crc'.value && beq_bytes hash hash'

-- The index after one more row.
abbrev entered : Key → ℕ → BlockIndex → BlockIndex
entered (crc, hash) idx block_index =
    entry_or crc default (λ m. (SecondLayerMap.insert hash idx m).0) block_index

-- No two rows have one key.
pub record IsDistinct (items : List Key) : Type 0 where
  pub apart :
      (i j : ℕ) (key : Key) → get_elem? items i ≡ some key → get_elem? items j ≡ some key → i ≡ j

-- A row whose key is new acts on the index as an insert into a flat map.
named-entered :
    (crc crc' : Crc) (hash hash' : Bytes) (idx : ℕ) (block_index : BlockIndex)
    → named block_index (crc, hash) ≡ none
    → named (entered (crc, hash) idx block_index) (crc', hash')
      ≡ (if eq_key (crc, hash) (crc', hash') then some idx else named block_index (crc', hash'))
unfolding get_or_default
named-entered crc crc' hash hash' idx block_index new =
    let old = get_or_default default (get crc block_index) in
    let there =
      get-entry_or crc crc' default (λ m. (SecondLayerMap.insert hash idx m).0) block_index in
    let inserted = (get-insert_new hash hash' idx old new).0 in
    elim (Bool-cases (crc.value == crc'.value)) [
      | inr f ↦ rw (there, f)
      | inl t ↦ let same : crc ≡ crc' = (crc_eq_iff crc crc').0 t in rw (there, t, ← same) inserted
    ]

pair_eq : {A B : Type 0} (a a' : A) (b b' : B) → a ≡ a' → b ≡ b' → ◌≡◌ {A = A × B} (a, b) (a', b')
pair_eq a a' b b' e e' = rw (e, e')

entered-other :
    (row key : Key) (idx : ℕ) (block_index : BlockIndex)
    → named block_index row ≡ none
    → row ≢ key
    → named (entered row idx block_index) key ≡ named block_index key
entered-other (crc, hash) (crc', hash') idx block_index new ne =
    named-entered crc crc' hash hash' idx block_index new ∙ rw different
  where
    different : eq_key (crc, hash) (crc', hash') ≡ false
    different = elim (Bool-cases (eq_key (crc, hash) (crc', hash'))) [
      | inr f ↦ f
      | inl t ↦
          let both : ((crc.value == crc'.value) ≡ true) × (beq_bytes hash hash' ≡ true) =
            ground arith in
          absurd (
            ne (
              pair_eq crc crc' hash hash' ((crc_eq_iff crc crc').0 both.0)
                ((beq_bytes_iff hash hash').0 both.1)))
    ]

entered-same :
    (row : Key) (idx : ℕ) (block_index : BlockIndex)
    → named block_index row ≡ none
    → named (entered row idx block_index) row ≡ some idx
entered-same (crc, hash) idx block_index new =
    named-entered crc crc hash hash idx block_index new
    ∙ rw ((crc_eq_iff crc crc).1 refl, (beq_bytes_iff hash hash).1 refl)

-- No row has a key that the index names.
abbrev AreNew : List Key → BlockIndex → Type 0
AreNew items block_index =
    (k : ℕ) (row : Key) → get_elem? items k ≡ some row → named block_index row ≡ none

IsDistinct-tail : (row : Key) (items : List Key) → IsDistinct (row ∷ items) → IsDistinct items
IsDistinct-tail row items distinct = record {
  apart = λ i j key e e'. let same = distinct.apart (suc i) (suc j) key e e' in omega arith;
}

AreNew-tail :
    (row : Key) (items : List Key) (idx : ℕ) (block_index : BlockIndex)
    → IsDistinct (row ∷ items)
    → AreNew (row ∷ items) block_index
    → AreNew items (entered row idx block_index)
AreNew-tail row items idx block_index distinct new k row' e =
    entered-other row row' idx block_index (new 0 row refl)
      (λ same. let i = distinct.apart 0 (suc k) row' (ap some same) e in absurd (omega arith))
    ∙ new (suc k) row' e

-- The loop of `index` keeps what stands under a key that no row has.
index_loop-kept :
    (items : List Key) (idx : ℕ) (block_index : BlockIndex) (key : Key)
    → IsDistinct items
    → AreNew items block_index
    → ((k : ℕ) → get_elem? items k ≢ some key)
    → named (index_loop idx items block_index) key ≡ named block_index key
unfolding index_loop
index_loop-kept [] idx block_index key distinct new absent = refl
index_loop-kept (row ∷ items) idx block_index key distinct new absent =
    index_loop-kept items (idx + 1) (entered row (u32 idx) block_index) key
      (IsDistinct-tail row items distinct)
      (AreNew-tail row items (u32 idx) block_index distinct new) (λ k. absent (suc k))
    ∙ entered-other row key (u32 idx) block_index (new 0 row refl) (λ e. absent 0 (ap some e))

index_loop-named :
    (items : List Key) (idx : ℕ) (block_index : BlockIndex) (k : ℕ) (key : Key)
    → IsDistinct items
    → AreNew items block_index
    → get_elem? items k ≡ some key
    → named (index_loop idx items block_index) key ≡ some (u32 (idx + k))
unfolding index_loop
index_loop-named [] idx block_index k key distinct new e = cc
index_loop-named (row ∷ items) idx block_index zero key distinct new e =
    let same : row ≡ key = some-injective _ _ e in
    let z : idx + 0 ≡ idx = omega arith in
    index_loop-kept items (idx + 1) (entered row (u32 idx) block_index) key
      (IsDistinct-tail row items distinct)
      (AreNew-tail row items (u32 idx) block_index distinct new)
      (λ k e'. let i = distinct.apart 0 (suc k) key e e' in absurd (omega arith))
    ∙ rw (← same, z) (entered-same row (u32 idx) block_index (new 0 row refl))
index_loop-named (row ∷ items) idx block_index (suc k) key distinct new e =
    let on : idx + suc k ≡ idx + 1 + k = omega arith in
    rw on (
      index_loop-named items (idx + 1) (entered row (u32 idx) block_index) k key
        (IsDistinct-tail row items distinct)
        (AreNew-tail row items (u32 idx) block_index distinct new) e)

named-empty : (row : Key) → named [] row ≡ none
unfolding get get_or_default default SecondLayerMap.get
named-empty row = refl

-- Where no two rows have one key, the index names for the key of each row the number of that row.
-- Block numbers are 32-bit words, hence the bound on the number of the rows.
pub index_loop-Names_all :
    (items : List (Crc × Bytes)) (crc : Crc) (hash : Bytes) (k : ℕ)
    → length items ≤ 2 ^ 32
    → IsDistinct items
    → get_elem? items k ≡ some (crc, hash)
    → Names (index_loop 0 items []) crc hash k
unfolding get_or_default default
index_loop-Names_all items crc hash k few distinct e =
    let block_index = index_loop 0 items [] in
    let is_k : u32 (0 + k) ≡ k = let h = get_elem?-lt items k (crc, hash) e in omega arith in
    let found =
      index_loop-named items 0 [] k (crc, hash) distinct (λ i row there. named-empty row) e
      ∙ ap some is_k in
    elim (Option-cases (get crc block_index)) [
      | inl absent ↦ let found' = rw absent at found in unfold SecondLayerMap.get in cc
      | inr (m, there) ↦ (m, there, rw there at found)
    ]
