-- ===== src/Signature/Index.antt =====
-- The block index of src/signature.rs, from checksum to digest to the block's number.
use fast_rsync.Base.{ℕ, ◌+◌, ◌≡◌, List, [], ◌∷◌, Bytes, Outcome, ok, ◌>>=◌, ◌==◌, arith}
use fast_rsync.Base.{◌↔◌, true}
use fast_rsync.Base.Words.{u32}
use fast_rsync.Base.Keys.{KeyEq, HashMap, entry_or, bytes_eq}
use fast_rsync.Crc.{Crc}
use fast_rsync.SecondLayerMap.{SecondLayerMap}
use fast_rsync.SecondLayerMap
use fast_rsync.Signature.{Signature, SignatureType, blocks}

pub crc_eq_iff : (a b : Crc) → ((a.value == b.value) ≡ true) ↔ (a ≡ b)
crc_eq_iff a b = ground arith

-- `#[derive(Eq)]` of `Crc`.
instance abbrev pub crc_eq : KeyEq Crc
crc_eq = record { eq = λ a b. a.value == b.value; eq_iff = crc_eq_iff }

abbrev pub BlockIndex : Type 0
BlockIndex = HashMap Crc (SecondLayerMap Bytes ℕ)

pub record IndexedSignature : Type 0 where
  pub signature_type : SignatureType
  pub block_size : ℕ
  pub crypto_hash_size : ℕ
  pub blocks : BlockIndex

-- The loop of `index` from the block number `idx` on.
unfoldable pub index_loop : ℕ → List (Crc × Bytes) → BlockIndex → BlockIndex
index_loop idx [] block_index = block_index
index_loop idx ((crc, crypto_hash) ∷ rest) block_index = index_loop (idx + 1) rest (
    entry_or crc SecondLayerMap.default (λ m. (SecondLayerMap.insert crypto_hash (u32 idx) m).0)
      block_index)

unfoldable pub index : Signature → Outcome ⊥ IndexedSignature
unfolding index_loop
index s = do
  items ← blocks s
  ok (record {
    signature_type = s.signature_type;
    block_size = s.block_size;
    crypto_hash_size = s.crypto_hash_size;
    blocks = index_loop 0 items [];
  })
