-- ===== src/Tests/RoundTrips.antt =====
-- Synchronisations of two bytes over two bytes.
use fast_rsync.Base.{
  ℕ, zero, suc, ◌+◌, ◌≤◌, ◌≡◌, ◌≢◌, refl, sym, ap, arith, none, some, [], ◌∷◌, ◌++◌, ◌∙◌, Bytes,
  length, remainder, unless_empty, get_elem?, chunks, chunks_exact, ok,
}
use fast_rsync.Base.Keys.{bytes_eq}
use fast_rsync.Crc.{Crc, rotate, rollin, rollout, update, basic_update}
use fast_rsync.Crc
use fast_rsync.Delta.Apply.{magic_bytes}
use fast_rsync.Delta.Decodes.{copy_bytes}
use fast_rsync.Delta.OwnBase.{keys, diff-own_base}
use fast_rsync.Delta.Unchanged.{literal}
use fast_rsync.Delta.RoundTrip.{IsUsable, diff-apply}
use fast_rsync.Delta.Sync.{indexed, indexed-IsTrusted, sync-rebuilds}
use fast_rsync.Delta.Vec.{vec_write}
use fast_rsync.Delta.Windows.{window}
use fast_rsync.Diff.{diff}
use fast_rsync.Patch.{apply, apply_limited}
use fast_rsync.Md4.Many.{other}
use fast_rsync.Signature.{Signature, SignatureOptions, calculate, deserialize, serialized}
use fast_rsync.Signature.Index.{IndexedSignature, index}
use fast_rsync.Signature.Layout.{IsAllowed}
use fast_rsync.Signature.RoundTrip.{block_key}
use mathlib.Core.Option.{some-injective}
use fast_rsync.Base.Words.{from_be_bytes}
use fast_rsync.Consts.{delta_magic, rs_op_end}
use fast_rsync.Delta.Grammar.{IsCommands}
use fast_rsync.Delta.Grammar.Written.{diff-IsCommands}

-- A synchronisation of `6, 5` over `5, 6`, byte by byte.
abbrev options_1 : SignatureOptions
options_1 = record { block_size = 1; crypto_hash_size = 8 }

options_1-IsAllowed : IsAllowed options_1
options_1-IsAllowed = record {
  not_empty = omega arith;
  block_fits = omega arith;
  hash_fits = omega arith;
}

abbrev base_56 : Bytes
base_56 = 5 ∷ 6 ∷ []

abbrev data_65 : Bytes
data_65 = 6 ∷ 5 ∷ []

crc_apart : (update Crc.empty (5 ∷ [])).value ≢ (update Crc.empty (6 ∷ [])).value
unfolding update Crc.empty Crc.split Crc.combine
crc_apart e = absurd (omega (arith, e))

apart_65 :
    (here k : ℕ) (block : Bytes)
    → here + 1 ≤ 2
    → get_elem? (chunks 1 base_56) k ≡ some block
    → block_key 8 block ≡ block_key 8 (window 1 here data_65)
    → block ≡ window 1 here data_65
unfolding chunks chunks_exact
apart_65 zero zero block h e same =
    let five : block ≡ 5 ∷ [] = sym (some-injective _ _ e) in
    let keys : block_key 8 (5 ∷ []) ≡ block_key 8 (6 ∷ []) = rw five at same in
    absurd (crc_apart (ap (λ (key : Crc × Bytes). key.0.value) keys))
apart_65 zero (suc zero) block h e same = sym (some-injective _ _ e)
apart_65 zero (suc (suc k)) block h e same = cc
apart_65 (suc zero) zero block h e same = sym (some-injective _ _ e)
apart_65 (suc zero) (suc zero) block h e same =
    let six : block ≡ 6 ∷ [] = sym (some-injective _ _ e) in
    let keys : block_key 8 (6 ∷ []) ≡ block_key 8 (5 ∷ []) = rw six at same in
    absurd (crc_apart (ap (λ (key : Crc × Bytes). key.0.value) (sym keys)))
apart_65 (suc zero) (suc (suc k)) block h e same = cc
apart_65 (suc (suc here)) k block h e same = absurd (omega arith)

sync-rebuilds_example :
    (s : Signature) × (sig : IndexedSignature) × (delta : Bytes) × (calculate {target = other} none
        base_56 options_1
      ≡ ok s)
    × (deserialize (serialized s) ≡ ok s)
    × (index s ≡ ok sig)
    × (diff {E = ⊥} sig data_65 [] ≡ ok delta)
    × (apply_limited {E = ⊥} base_56 delta (1 ∷ []) 2 ≡ ok ((1 ∷ []) ++ data_65))
    × (apply {E = ⊥} base_56 delta (1 ∷ []) ≡ ok ((1 ∷ []) ++ data_65))
unfolding chunks chunks_exact
sync-rebuilds_example =
    sync-rebuilds {target = other} none base_56 data_65 (1 ∷ []) options_1 2 tt options_1-IsAllowed
      (omega arith) (omega arith) (omega arith) (record { apart = apart_65 }) (omega arith)

abbrev sig_56 : IndexedSignature
sig_56 = indexed base_56 options_1

sig_56-IsUsable : IsUsable sig_56
unfolding indexed
sig_56-IsUsable = record { is_md4 = refl; hash_fits = omega arith; not_empty = omega arith }

diff-apply_example :
    (delta : Bytes) × (diff {E = ⊥} sig_56 data_65 (9 ∷ []) ≡ ok ((9 ∷ []) ++ delta))
    × (apply_limited {E = ⊥} base_56 delta (1 ∷ []) 2 ≡ ok ((1 ∷ []) ++ data_65))
unfolding chunks chunks_exact
diff-apply_example =
    diff-apply base_56 data_65 sig_56 (omega arith) (omega arith) sig_56-IsUsable
      (indexed-IsTrusted base_56 data_65 options_1 options_1-IsAllowed (omega arith)
        (record { apart = apart_65 }))
      (9 ∷ []) (1 ∷ []) 2 (omega arith)

diff-IsCommands_example :
    (magic : Bytes) × (body : Bytes) × (diff {E = ⊥} sig_56 data_65 (9 ∷ [])
      ≡ ok ((9 ∷ []) ++ (magic ++ body)))
    × (length magic ≡ 4)
    × (from_be_bytes magic ≡ delta_magic)
    × IsCommands base_56 body data_65
unfolding chunks chunks_exact
diff-IsCommands_example =
    diff-IsCommands base_56 data_65 sig_56 (omega arith) (omega arith) sig_56-IsUsable
      (indexed-IsTrusted base_56 data_65 options_1 options_1-IsAllowed (omega arith)
        (record { apart = apart_65 }))
      (9 ∷ [])

-- A block of two bytes, and one that is shorter.
abbrev base_567 : Bytes
base_567 = 5 ∷ 6 ∷ 7 ∷ []

abbrev pairs : SignatureOptions
pairs = record { block_size = 2; crypto_hash_size = 8 }

pairs_apart : (update Crc.empty (5 ∷ 6 ∷ [])).value ≢ (update Crc.empty (7 ∷ [])).value
unfolding update Crc.empty Crc.split Crc.combine
pairs_apart e = absurd (omega (arith, e))

keys_apart :
    (i j : ℕ) (key : Crc × Bytes)
    → get_elem? (keys base_567 pairs) i ≡ some key
    → get_elem? (keys base_567 pairs) j ≡ some key
    → i ≡ j
unfolding chunks chunks_exact remainder unless_empty
keys_apart zero zero key e e' = refl
keys_apart zero (suc zero) key e e' =
    let same = some-injective _ _ (e ∙ sym e') in
    absurd (pairs_apart (ap (λ (k : Crc × Bytes). k.0.value) same))
keys_apart (suc zero) zero key e e' =
    let same = some-injective _ _ (e' ∙ sym e) in
    absurd (pairs_apart (ap (λ (k : Crc × Bytes). k.0.value) same))
keys_apart (suc zero) (suc zero) key e e' = refl
keys_apart zero (suc (suc j)) key e e' = cc
keys_apart (suc zero) (suc (suc j)) key e e' = cc
keys_apart (suc (suc i)) j key e e' = cc

diff-own_base_example :
    (s : Signature) × (sig : IndexedSignature) × (calculate {target = other} none base_567 pairs
      ≡ ok s)
    × (index s ≡ ok sig)
    × (diff {E = ⊥} sig base_567 []
        ≡ ok (magic_bytes ++ (copy_bytes 0 2 ++ (literal (7 ∷ []) ++ (rs_op_end ∷ [])))))
unfolding chunks chunks_exact remainder unless_empty
diff-own_base_example =
    diff-own_base {target = other} none base_567 pairs tt
      (record { not_empty = omega arith; block_fits = omega arith; hash_fits = omega arith })
      (omega arith) (omega arith) (record { apart = keys_apart })
