-- ===== src/Signature/Lookup.antt =====
-- What the block index of src/signature.rs names is in the signature.
use fast_rsync.Base.{
  ℕ, zero, suc, ◌+◌, ◌^◌, ◌≤◌, ◌<◌, ◌≡◌, refl, sym, ap, ◌∙◌, arith, none, some, List, [], ◌∷◌,
  Bytes, Bool-cases, inl, inr, ◌==◌, Option-cases, length, get_elem?, if◌then◌else◌,
}
use mathlib.Core.Option.{some-injective}
use fast_rsync.Base.Keys.{get, entry_or, get-entry_or, get_or_default, bytes_eq}
use fast_rsync.Base.Words.{u32}
use fast_rsync.Crc.{Crc}
use fast_rsync.SecondLayerMap.{SecondLayerMap, default}
use fast_rsync.SecondLayerMap
use fast_rsync.SecondLayerMap.Laws.{get-insert_cases}
use fast_rsync.Signature.Index.{BlockIndex, crc_eq, crc_eq_iff, index_loop}

-- The index names the number `idx` for a checksum and a digest.
abbrev pub Names : BlockIndex → Crc → Bytes → ℕ → Type 0
Names block_index crc hash idx =
    (m : SecondLayerMap Bytes ℕ) × (get crc block_index ≡ some m)
    × (SecondLayerMap.get hash m ≡ some idx)

-- Whatever the index names satisfies `P`.
record IsSound (P : Crc → Bytes → ℕ → Type 0) (block_index : BlockIndex) : Type 0 where
  sound : (crc : Crc) (hash : Bytes) (idx : ℕ) → Names block_index crc hash idx → P crc hash idx

module _ (P : Crc → Bytes → ℕ → Type 0) where
  default-IsSound :
      (crc : Crc) (hash : Bytes) (idx : ℕ) (block_index : BlockIndex)
      → IsSound P block_index
      → SecondLayerMap.get hash (get_or_default default (get crc block_index)) ≡ some idx
      → P crc hash idx
  unfolding get_or_default default
  default-IsSound crc hash idx block_index s e = elim (Option-cases (get crc block_index)) [
    | inl absent ↦ let e' = rw (absent, get_or_default) at e in unfold SecondLayerMap.get in cc
    | inr (m, there) ↦ s.sound crc hash idx (m, there, rw (there, get_or_default) at e)
  ]

  -- One entry more.
  entry-IsSound :
      (crc : Crc) (hash : Bytes) (idx : ℕ) (block_index : BlockIndex)
      → P crc hash idx
      → IsSound P block_index
      → IsSound P (entry_or crc default (λ m. (SecondLayerMap.insert hash idx m).0) block_index)
  entry-IsSound crc hash idx block_index new s = record { sound = sound }
    where
      sound :
          (crc' : Crc) (hash' : Bytes) (idx' : ℕ)
          → Names
              (entry_or crc default (λ m. (SecondLayerMap.insert hash idx m).0) block_index)
              crc'
              hash'
              idx'
          → P crc' hash' idx'
      sound crc' hash' idx' (m, there, hit) =
          let old = get_or_default default (get crc block_index) in
          let inserted = (SecondLayerMap.insert hash idx old).0 in
          let there' : (if crc.value == crc'.value then some inserted else get crc' block_index)
              ≡ some m =
            sym (
              get-entry_or crc crc' default (λ m. (SecondLayerMap.insert hash idx m).0) block_index)
            ∙ there in
          elim (Bool-cases (crc.value == crc'.value)) [
            | inr f ↦ s.sound crc' hash' idx' (m, rw f at there', hit)
            | inl t ↦
                let same : crc ≡ crc' = (crc_eq_iff crc crc').0 t in
                let whole : m ≡ inserted = sym (some-injective _ _ (rw t at there')) in
                let hit' : SecondLayerMap.get hash' inserted ≡ some idx' = rw whole at hit in
                elim (get-insert_cases hash hash' idx idx' old hit') [
                  | inl (h, i) ↦ rw (← same, h, i) new
                  | inr before ↦ rw (← same) (default-IsSound crc hash' idx' block_index s before)
                ]
          ]

  -- The loop of `index` from the block number `idx` on.
  index_loop-IsSound :
      (items : List (Crc × Bytes)) (idx : ℕ) (block_index : BlockIndex)
      → ((k : ℕ) (crc : Crc) (hash : Bytes)
          → get_elem? items k ≡ some (crc, hash)
          → P crc hash (u32 (idx + k)))
      → IsSound P block_index
      → IsSound P (index_loop idx items block_index)
  unfolding index_loop
  index_loop-IsSound [] idx block_index each s = s
  index_loop-IsSound ((crc, hash) ∷ items) idx block_index each s =
      let z : idx + 0 ≡ idx = omega arith in
      index_loop-IsSound items (idx + 1) _
        (λ k crc' hash' e.
          let on : idx + suc k ≡ idx + 1 + k = omega arith in rw on at (each (suc k) crc' hash' e))
        (entry-IsSound crc hash (u32 idx) block_index (rw z at (each 0 crc hash refl)) s)

-- A place of the items, and what stands at it.
abbrev IsAt : List (Crc × Bytes) → Crc → Bytes → ℕ → Type 0
IsAt items crc hash idx = (k : ℕ) × (get_elem? items k ≡ some (crc, hash)) × (idx ≡ u32 k)

nothing_named : (P : Crc → Bytes → ℕ → Type 0) → IsSound P []
unfolding get
nothing_named P = record {
  sound = λ crc hash idx names. let e : none ≡ some names.0 = names.1 in cc;
}

pub get_elem?-lt :
    {A : Type 0} (xs : List A) (k : ℕ) (x : A) → get_elem? xs k ≡ some x → k < length xs
get_elem?-lt [] k x e = cc
get_elem?-lt (y ∷ xs) zero x e = omega arith
get_elem?-lt (y ∷ xs) (suc k) x e = let h = get_elem?-lt xs k x e in omega arith

-- What the loop of `index` names for a checksum and a digest is the number of an item that has them.
-- Block numbers are 32-bit words, hence the bound on the number of the items.
pub index_loop-Names :
    (items : List (Crc × Bytes)) (crc : Crc) (hash : Bytes) (idx : ℕ)
    → length items ≤ 2 ^ 32
    → Names (index_loop 0 items []) crc hash idx
    → get_elem? items idx ≡ some (crc, hash)
index_loop-Names items crc hash idx few names =
    let at_zero =
      index_loop-IsSound (IsAt items) items 0 []
        (λ k crc' hash' e. let z : 0 + k ≡ k = omega arith in (k, e, ap u32 z))
        (nothing_named (IsAt items)) in
    let (k, there, same) = at_zero.sound crc hash idx names in
    let inside = get_elem?-lt items k (crc, hash) there in
    let exact : idx ≡ k = same ∙ omega arith in rw exact there
