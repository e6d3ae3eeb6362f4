-- ===== src/Tests.antt =====
-- Runs of the definitions, and each theorem that has conditions at an input that meets them.
mod Deltas
mod Simd
mod Scans
mod Room
mod Targets
mod Texts
mod Checksums
mod RoundTrips
mod Signatures
use fast_rsync.Base.{
  ℕ, zero, suc, ◌+◌, ◌-◌, ◌≤◌, ◌≡◌, ◌≢◌, ◌⊎◌, refl, sym, ap, arith, none, some, List, [], ◌∷◌, ◌++◌,
  map, Bytes, length, get_elem?, chunks, chunks_exact, replicate, take, ok, All, if◌then◌else◌,
}
use fast_rsync.Base.Keys.{KeyEq, bytes_eq, get, HashMap}
use fast_rsync.Base.Keys
use fast_rsync.Crc.{Crc, rotate, rollin, rollout, update, basic_update}
use fast_rsync.Crc
use fast_rsync.Crc.Rolling.{
  rotate-update, update-eq-basic_update, update-append, foldl-rollin, rollout-update,
}
use fast_rsync.Delta.RoundTrip.{IsUsable, diff-apply}
use fast_rsync.Delta.Sync.{indexed, indexed-IsTrusted, sync-rebuilds}
use fast_rsync.Delta.Vec.{vec_write}
use fast_rsync.Delta.Windows.{window}
use fast_rsync.Diff.{diff}
use fast_rsync.Md4.{md4}
use fast_rsync.Md4.Many.{Target, x86, Md4xN, max_lanes, md4_many}
use fast_rsync.Md4.Many.Contract.{IsMd4, digested}
use fast_rsync.Md4.Many.Laws.{md4_many-eq-map}
use fast_rsync.Patch.{apply_limited}
use fast_rsync.SecondLayerMap.{SecondLayerMap, single, two_or_more, insert}
use fast_rsync.SecondLayerMap
use fast_rsync.SecondLayerMap.Laws.{get-insert_new, insert-single_same, get-insert_cases}
use fast_rsync.Signature.{Signature, SignatureOptions, calculate, deserialize, serialized, blocks}
use fast_rsync.Signature.Index.{IndexedSignature, index, index_loop}
use fast_rsync.Signature.Layout.{IsAllowed, signed, calculate_lem}
use fast_rsync.Signature.Lookup.{index_loop-Names}
use fast_rsync.Signature.RoundTrip.{block_key, deserialize-signed, blocks-signed}
use mathlib.Core.List.{foldl}
use mathlib.Core.Option.{some-injective}

md4_abc :
    md4 (97 ∷ 98 ∷ 99 ∷ [])
    ≡ 0xa4 ∷ 0x48 ∷ 0x01 ∷ 0x7a ∷ 0xaf ∷ 0x21 ∷ 0xd8 ∷ 0x52 ∷ 0x5f ∷ 0xc1 ∷ 0x0a ∷ 0xe8 ∷ 0x7a
      ∷ 0xa6 ∷ 0x72 ∷ 0x9d ∷ []
unfolding md4
md4_abc = refl

-- The checksum.
rotate-update_example :
    rotate (update Crc.empty (200 ∷ 7 ∷ 9 ∷ [])) (length {A = ℕ} (200 ∷ 7 ∷ 9 ∷ [])) 200 255
    ≡ update Crc.empty ((7 ∷ 9 ∷ []) ++ (255 ∷ []))
rotate-update_example = rotate-update 200 255 (7 ∷ 9 ∷ [])

abbrev a_crc : Crc
a_crc = record { value = 0xdead_beef }

update-eq-basic_update_example : update a_crc (1 ∷ 2 ∷ 3 ∷ []) ≡ basic_update a_crc (1 ∷ 2 ∷ 3 ∷ [])
update-eq-basic_update_example = update-eq-basic_update a_crc (1 ∷ 2 ∷ 3 ∷ [])

update-append_example :
    update (update a_crc (1 ∷ 2 ∷ [])) (3 ∷ []) ≡ update a_crc ((1 ∷ 2 ∷ []) ++ (3 ∷ []))
update-append_example = update-append a_crc (1 ∷ 2 ∷ []) (3 ∷ [])

foldl-rollin_example : foldl rollin a_crc (1 ∷ 2 ∷ []) ≡ update a_crc (1 ∷ 2 ∷ [])
foldl-rollin_example = foldl-rollin a_crc (1 ∷ 2 ∷ []) (omega arith)

rollout-update_example :
    rollout (update Crc.empty (255 ∷ 1 ∷ [])) (length {A = ℕ} (255 ∷ 1 ∷ [])) 255
    ≡ update Crc.empty (1 ∷ [])
rollout-update_example = rollout-update 255 (1 ∷ []) (omega arith)

-- A vector unit of two lanes, and three blocks.
abbrev two_lanes : Md4xN x86
two_lanes = record { lanes = 2; fun = λ datas. ok (map md4 (take 2 datas)) }

two_lanes-digests :
    (size : ℕ) (datas : List Bytes)
    → length datas ≡ 2
    → All (λ block. length block ≡ size) datas
    → (found : List Bytes) × (two_lanes.fun (datas ++ replicate (max_lanes x86 - 2) []) ≡ ok found)
      × (take 2 found ≡ map md4 datas)
two_lanes-digests size [] e s = absurd (omega arith)
two_lanes-digests size (a ∷ []) e s = absurd (omega arith)
two_lanes-digests size (a ∷ b ∷ []) e s = (map md4 (a ∷ b ∷ []), refl, refl)
two_lanes-digests size (a ∷ b ∷ c ∷ rest) e s = absurd (omega arith)

two_lanes-IsMd4 : IsMd4 two_lanes
two_lanes-IsMd4 = record { some_lanes = omega arith; digests = two_lanes-digests }

abbrev three_blocks : List Bytes
three_blocks = (1 ∷ 2 ∷ []) ∷ (3 ∷ 4 ∷ []) ∷ (5 ∷ 6 ∷ []) ∷ []

md4_many-eq-map_example : md4_many (some two_lanes) three_blocks ≡ ok (map digested three_blocks)
md4_many-eq-map_example =
    md4_many-eq-map (some two_lanes) 2 three_blocks two_lanes-IsMd4 (refl, (refl, (refl, tt)))

-- Signatures of three bytes in blocks of two.
abbrev options_2 : SignatureOptions
options_2 = record { block_size = 2; crypto_hash_size = 8 }

options_2-IsAllowed : IsAllowed options_2
options_2-IsAllowed = record {
  not_empty = omega arith;
  block_fits = omega arith;
  hash_fits = omega arith;
}

abbrev three_bytes : Bytes
three_bytes = 1 ∷ 2 ∷ 3 ∷ []

calculate_lem_example :
    calculate (some two_lanes) three_bytes options_2 ≡ ok (signed three_bytes options_2)
calculate_lem_example =
    calculate_lem (some two_lanes) three_bytes options_2 two_lanes-IsMd4 (omega arith)

deserialize-signed_example :
    deserialize (serialized (signed three_bytes options_2)) ≡ ok (signed three_bytes options_2)
deserialize-signed_example = deserialize-signed three_bytes options_2 options_2-IsAllowed

blocks-signed_example :
    blocks (signed three_bytes options_2) ≡ ok (map (block_key 8) (chunks 2 three_bytes))
blocks-signed_example = blocks-signed three_bytes options_2 options_2-IsAllowed

-- Two blocks with one checksum.
abbrev two_items : List (Crc × Bytes)
two_items = (a_crc, 1 ∷ []) ∷ (a_crc, 2 ∷ []) ∷ []

index_loop-Names_example : get_elem? two_items 1 ≡ some (a_crc, 2 ∷ [])
unfolding index_loop get insert SecondLayerMap.get Keys.entry_or Keys.insert SecondLayerMap.default
    Keys.beq_bytes
index_loop-Names_example = index_loop-Names two_items a_crc (2 ∷ []) 1 (omega arith) (_, refl, refl)

-- The second layer.
abbrev key_1 : Bytes
key_1 = 1 ∷ []

abbrev key_2 : Bytes
key_2 = 2 ∷ []

get-insert_new_example :
    (SecondLayerMap.get {V = ℕ} key_1 (insert key_2 7 (single key_1 5)).0
      ≡ (if Keys.beq_bytes key_2 key_1 then some 7 else SecondLayerMap.get key_1 (single key_1 5)))
    × ((insert {V = ℕ} key_2 7 (single key_1 5)).1 ≡ none)
unfolding SecondLayerMap.get Keys.beq_bytes
get-insert_new_example = get-insert_new key_2 key_1 7 (single key_1 5) refl

abbrev two_keys : HashMap Bytes ℕ
two_keys = (key_1, 5) ∷ (key_2, 6) ∷ []

insert-single_same_example :
    (SecondLayerMap.get {V = ℕ} key_1 (insert {V = ℕ} key_1 6 (single key_1 5)).0 ≡ some 5)
    × ((insert {V = ℕ} key_1 6 (single key_1 5)).1 ≡ some 6)
insert-single_same_example = insert-single_same key_1 5 6

get-insert_cases_example :
    ((key_1 ≡ key_2) × (◌≡◌ {A = ℕ} 5 7))
    ⊎ (SecondLayerMap.get {V = ℕ} key_1 (two_or_more two_keys) ≡ some 5)
unfolding SecondLayerMap.get insert get Keys.insert Keys.beq_bytes
get-insert_cases_example = get-insert_cases key_2 key_1 7 5 (two_or_more two_keys) refl
