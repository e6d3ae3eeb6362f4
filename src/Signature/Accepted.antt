-- ===== src/Signature/Accepted.antt =====
-- What `Signature::deserialize` of src/signature.rs accepts, `index` takes.
use fast_rsync.Base.{
  ℕ, ◌+◌, ◌-◌, ◌*◌, ◌/◌, ◌%◌, ◌≤◌, ◌≡◌, refl, arith, List, [], ◌∷◌, append-nil, Bytes, length,
  length-drop, take, drop, drop_all, Bool-cases, inl, inr, false, ltb, ◌==◌, chunks, chunks_exact,
  remainder, unless_empty, Outcome, ok, ok_or, bind-ok,
}
use fast_rsync.Base.Chunks.{IsSized, chunks_exact-IsSized}
use fast_rsync.Base.Words.{from_be_bytes}
use fast_rsync.Crc.{Crc, from_bytes}
use fast_rsync.Signature.{
  Signature, SignatureParseError, invalid, deserialize, from_magic, parse_block, parse_blocks,
  blocks,
}
use fast_rsync.Signature.Index.{IndexedSignature, index, index_loop}
use native.Mathlib.Nat.{div-add-mod'}

-- What `deserialize` has tested.
record IsWhole (s : Signature) : Type 0 where
  long : 12 ≤ length s.signature
  rows : (length s.signature - 12) % (4 + s.crypto_hash_size) ≡ 0

deserialize-IsWhole : (bytes : Bytes) (s : Signature) → deserialize bytes ≡ ok s → IsWhole s
unfolding deserialize
deserialize-IsWhole bytes s e = elim (Bool-cases (ltb (length bytes) 12)) [
  | inl t ↦ let e' = rw t at e in cc
  | inr f ↦
      let (kind, next, _) = bind-ok s _ (ok_or (from_magic (take 4 bytes)) invalid) (rw f at e) in
      let size = from_be_bytes (take 4 (drop 8 bytes)) in
      elim (Bool-cases ((length bytes - 12) % (4 + size) == 0)) [
        | inr f' ↦ let e' = rw f' at next in cc
        | inl t ↦
            let whole : IsWhole (record {
              signature_type = kind;
              block_size = from_be_bytes (take 4 (drop 4 bytes));
              crypto_hash_size = size;
              signature = bytes;
            }) =
              record { long = ground arith; rows = ground arith } in
            let same : ok _ ≡ ok s = rw t at next in rw (← ok-injective _ _ same) whole
      ]
]
  where
    ok-injective :
        (a b : Signature) → ◌≡◌ {A = Outcome SignatureParseError Signature} (ok a) (ok b) → a ≡ b
    ok-injective a b h = cc

parse_blocks-IsSized :
    (size : ℕ) (rows : List Bytes)
    → IsSized (4 + size) rows
    → (items : List (Crc × Bytes)) × (parse_blocks rows ≡ ok items)
unfolding parse_blocks parse_block
parse_blocks-IsSized size [] h = ([], refl)
parse_blocks-IsSized size (row ∷ rows) h =
    let long : ltb (length row) 4 ≡ false = ground (arith, h.0) in
    let (items, e) = parse_blocks-IsSized size rows h.1 in
    ((from_bytes (take 4 row), drop 4 row) ∷ items, rw (long, e))

-- No row is cut short.
chunks-IsSized : (n : ℕ) (bytes : Bytes) → length bytes % n ≡ 0 → IsSized n (chunks n bytes)
unfolding chunks remainder unless_empty
chunks-IsSized n bytes whole =
    let all : length bytes ≤ length bytes / n * n = omega (arith, div-add-mod' (length bytes) n) in
    rw (drop_all (length bytes / n * n) bytes all, append-nil (chunks_exact n bytes))
      (chunks_exact-IsSized n bytes)

-- A signature that `deserialize` accepts, whatever its bytes, is indexed without a panic.
pub deserialize-index :
    (bytes : Bytes) (s : Signature)
    → deserialize bytes ≡ ok s
    → (sig : IndexedSignature) × (index s ≡ ok sig)
unfolding index blocks
deserialize-index bytes s e =
    let w = deserialize-IsWhole bytes s e in
    let long : ltb (length s.signature) 12 ≡ false = let h = w.long in ground arith in
    let body = drop 12 s.signature in
    let whole : length body % (4 + s.crypto_hash_size) ≡ 0 =
      rw (length-drop 12 s.signature) w.rows in
    let (items, parsed) =
      parse_blocks-IsSized s.crypto_hash_size (chunks (4 + s.crypto_hash_size) body)
        (chunks-IsSized (4 + s.crypto_hash_size) body whole) in
    let sig : IndexedSignature = record {
      signature_type = s.signature_type;
      block_size = s.block_size;
      crypto_hash_size = s.crypto_hash_size;
      blocks = index_loop 0 items [];
    } in
    (sig, rw (long, parsed))
