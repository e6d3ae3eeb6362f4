-- ===== src/Tests/Signatures.antt =====
-- Runs of src/signature.rs on signatures from elsewhere.
use fast_rsync.Base.{◌+◌, ◌%◌, ◌≡◌, refl, arith, [], ◌∷◌, Bytes, length, ok}
use fast_rsync.Base.Words.{from_be_bytes, from_be}
use fast_rsync.Signature.{Signature, SignatureType, deserialize, serialized, from_magic}
use fast_rsync.Signature.Format.{
  signature_bytes, deserialize-serialized, signature_bytes-deserialize,
}

-- BLAKE2, blocks of 258 bytes, a digest byte, and one row.
abbrev blake2_row : Bytes
blake2_row = 0x72 ∷ 0x73 ∷ 0x01 ∷ 0x37 ∷ 0 ∷ 0 ∷ 1 ∷ 2 ∷ 0 ∷ 0 ∷ 0 ∷ 1 ∷ 9 ∷ 8 ∷ 7 ∷ 6 ∷ 5 ∷ []

abbrev blake2_signature : Signature
blake2_signature = record {
  signature_type = SignatureType.blake2;
  block_size = 258;
  crypto_hash_size = 1;
  signature = blake2_row;
}

blake2_row_read : deserialize blake2_row ≡ ok blake2_signature
unfolding deserialize from_magic from_be_bytes from_be
blake2_row_read = refl

deserialize-serialized_example :
    (rows : Bytes) × (serialized blake2_signature ≡ blake2_row)
    × (blake2_row ≡ signature_bytes SignatureType.blake2 258 1 rows)
    × (length rows % (4 + 1) ≡ 0)
deserialize-serialized_example =
    deserialize-serialized blake2_row blake2_signature
      (
        omega arith,
        (
          omega arith,
          (
            omega arith,
            (
              omega arith,
              (
                omega arith,
                (
                  omega arith,
                  (
                    omega arith,
                    (
                      omega arith,
                      (
                        omega arith,
                        (
                          omega arith,
                          (
                            omega arith,
                            (
                              omega arith,
                              (
                                omega arith,
                                (omega arith, (omega arith, (omega arith, (omega arith, tt)))),
                              ),
                            ),
                          ),
                        ),
                      ),
                    ),
                  ),
                ),
              ),
            ),
          ),
        ),
      )
      blake2_row_read

signature_bytes-deserialize_example :
    deserialize (signature_bytes SignatureType.blake2 258 1 (9 ∷ 8 ∷ 7 ∷ 6 ∷ 5 ∷ []))
    ≡ ok (record {
      signature_type = SignatureType.blake2;
      block_size = 258;
      crypto_hash_size = 1;
      signature = signature_bytes SignatureType.blake2 258 1 (9 ∷ 8 ∷ 7 ∷ 6 ∷ 5 ∷ []);
    })
signature_bytes-deserialize_example =
    signature_bytes-deserialize SignatureType.blake2 258 1 (9 ∷ 8 ∷ 7 ∷ 6 ∷ 5 ∷ []) (omega arith)
      (omega arith) refl
