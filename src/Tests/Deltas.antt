-- ===== src/Tests/Deltas.antt =====
-- Runs of src/patch.rs and src/diff.rs, on deltas that are valid and on input that is not.
use fast_rsync.Base.{
  ◌≤◌, ◌≡◌, refl, arith, [], ◌∷◌, ◌++◌, Bytes, length, chunks, slice, ok, err, stuck, IsEnd,
}
use fast_rsync.Consts.{delta_magic, rs_op_end}
use fast_rsync.Delta.Apply.{magic_bytes}
use fast_rsync.Delta.Grammar.{IsCommand, IsCommands, long, copy, stop, more}
use fast_rsync.Delta.Grammar.Runs.{IsCommands-apply_limited}
use fast_rsync.Delta.Grammar.Parses.{apply_limited-IsCommands}
use fast_rsync.Base.Words.{from_be_bytes, from_be}
use fast_rsync.Base.Keys.{bytes_eq, get}
use fast_rsync.Base.Keys
use fast_rsync.Crc.{Crc, update, from_bytes}
use fast_rsync.Crc
use fast_rsync.Delta.Vec.{vec_write}
use fast_rsync.Diff.{diff, diff_fuel}
use fast_rsync.Diff.Ends.{diff-IsEnd}
use fast_rsync.Diff.Stall.{zero_sized, diff_fuel-stuck}
use fast_rsync.Patch.{
  split_at, sub_usize, checked_add, trailing_data, apply_limited, apply_loop, apply_command,
  apply_literal, apply_copy, literal_length, copied_slice, safe_extend, read_n, read_int,
  read_varint, safe_cast, finish,
}
use fast_rsync.Patch.Ends.{apply_limited-IsEnd}
use fast_rsync.Patch.Limits.{apply_limited-append, apply_limited-within}
use fast_rsync.SecondLayerMap.{SecondLayerMap, single, insert, default}
use fast_rsync.SecondLayerMap
use fast_rsync.Signature.{
  Signature, SignatureType, deserialize, from_magic, blocks, parse_blocks, parse_block,
}
use fast_rsync.Signature.Accepted.{deserialize-index}
use fast_rsync.Signature.Index.{IndexedSignature, BlockIndex, index, crc_eq}

-- A literal of the byte 7, and a copy of the second byte of the base.
abbrev pub two_commands : Bytes
two_commands = 0x72 ∷ 0x73 ∷ 0x02 ∷ 0x36 ∷ 0x01 ∷ 7 ∷ 0x45 ∷ 1 ∷ 1 ∷ 0 ∷ []

abbrev pub base_56 : Bytes
base_56 = 5 ∷ 6 ∷ []

two_commands-applied : apply_limited {E = ⊥} {W = Bytes} base_56 two_commands [] 3 ≡ ok (7 ∷ 6 ∷ [])
unfolding apply_limited read_int split_at sub_usize checked_add read_n from_be_bytes from_be
    apply_loop apply_command apply_literal literal_length safe_extend apply_copy read_varint
    copied_slice safe_cast slice finish
two_commands-applied = refl

apply_limited-append_example :
    apply_limited {E = ⊥} {W = Bytes} base_56 (two_commands ++ (0 ∷ 0 ∷ [])) [] 3
    ≡ err (trailing_data 2)
apply_limited-append_example =
    apply_limited-append base_56 two_commands [] 3 (7 ∷ 6 ∷ []) 0 (0 ∷ []) two_commands-applied

apply_limited-within_example :
    (bytes : Bytes) × (7 ∷ 6 ∷ [] ≡ [] ++ bytes)
    × (length bytes ≤ 3)
    × (apply_limited {E = ⊥} {W = Bytes} base_56 two_commands [] (length bytes) ≡ ok (7 ∷ 6 ∷ []))
apply_limited-within_example =
    apply_limited-within base_56 two_commands [] 3 (7 ∷ 6 ∷ []) two_commands-applied

apply_limited-IsCommands_example :
    (magic : Bytes) × (body : Bytes) × (made : Bytes) × (two_commands ≡ magic ++ body)
    × (length magic ≡ 4)
    × (from_be_bytes magic ≡ delta_magic)
    × (IsCommands base_56 body made)
    × (7 ∷ 6 ∷ [] ≡ [] ++ made)
    × (length made ≤ 3)
apply_limited-IsCommands_example =
    apply_limited-IsCommands base_56 two_commands [] 3 (7 ∷ 6 ∷ []) two_commands-applied

-- A literal of two bytes behind a length of eight, which `diff` would not write, and a copy.
abbrev long_command : Bytes
long_command = 0x44 ∷ 0 ∷ 0 ∷ 0 ∷ 0 ∷ 0 ∷ 0 ∷ 0 ∷ 2 ∷ 8 ∷ 9 ∷ []

abbrev copy_56 : Bytes
copy_56 = 0x46 ∷ 0 ∷ 0 ∷ 2 ∷ []

long_command-IsCommand : IsCommand base_56 long_command (8 ∷ 9 ∷ [])
unfolding from_be_bytes from_be
long_command-IsCommand =
    long 3 (0 ∷ 0 ∷ 0 ∷ 0 ∷ 0 ∷ 0 ∷ 0 ∷ 2 ∷ []) (omega arith) refl refl (omega arith) refl

copy_56-IsCommand : IsCommand base_56 copy_56 base_56
unfolding from_be_bytes from_be slice
copy_56-IsCommand =
    copy 0 1 (0 ∷ []) (0 ∷ 2 ∷ []) (omega arith) (omega arith) refl refl (omega arith) (omega arith)
      refl refl

IsCommands-apply_limited_example :
    apply_limited {E = ⊥} base_56
      (magic_bytes ++ (long_command ++ (copy_56 ++ (rs_op_end ∷ []))))
      []
      4
    ≡ ok ([] ++ ((8 ∷ 9 ∷ []) ++ (base_56 ++ [])))
IsCommands-apply_limited_example =
    IsCommands-apply_limited base_56 (long_command ++ (copy_56 ++ (rs_op_end ∷ [])))
      ((8 ∷ 9 ∷ []) ++ (base_56 ++ [])) [] 4
      (more long_command (8 ∷ 9 ∷ []) (copy_56 ++ (rs_op_end ∷ [])) (base_56 ++ [])
        long_command-IsCommand (more copy_56 base_56 (rs_op_end ∷ []) [] copy_56-IsCommand stop))
      (omega arith)

apply_limited-IsEnd_example :
    IsEnd {A = Bytes}
      (apply_limited {E = ⊥} {W = Bytes} base_56 (0x72 ∷ 0x73 ∷ 0x02 ∷ 0x36 ∷ 0x54 ∷ 1 ∷ []) [] 3)
apply_limited-IsEnd_example =
    apply_limited-IsEnd base_56 (0x72 ∷ 0x73 ∷ 0x02 ∷ 0x36 ∷ 0x54 ∷ 1 ∷ []) [] 3

-- A signature of one row, whose blocks are said to have no bytes.
abbrev zero_blocks : Bytes
zero_blocks = 0x72 ∷ 0x73 ∷ 0x01 ∷ 0x36 ∷ 0 ∷ 0 ∷ 0 ∷ 0 ∷ 0 ∷ 0 ∷ 0 ∷ 0 ∷ 0 ∷ 0 ∷ 0 ∷ 0 ∷ []

abbrev zero_signature : Signature
zero_signature = record {
  signature_type = SignatureType.md4;
  block_size = 0;
  crypto_hash_size = 0;
  signature = zero_blocks;
}

zero_blocks-read : deserialize zero_blocks ≡ ok zero_signature
unfolding deserialize from_magic from_be_bytes from_be
zero_blocks-read = refl

abbrev zero_index : BlockIndex
zero_index = (record { value = 0 }, single [] 0) ∷ []

zero_signature-indexed : index zero_signature ≡ ok (zero_sized 0 zero_index)
unfolding index blocks parse_blocks chunks parse_block Keys.entry_or from_bytes insert from_be_bytes
    default from_be
zero_signature-indexed = refl

deserialize-index_example : (sig : IndexedSignature) × (index zero_signature ≡ ok sig)
deserialize-index_example = deserialize-index zero_blocks zero_signature zero_blocks-read

diff_fuel-stuck_example :
    diff_fuel {E = ⊥} {W = Bytes} 1000000 (zero_sized 0 zero_index) (1 ∷ 2 ∷ []) [] ≡ stuck
unfolding get SecondLayerMap.get update Crc.empty Crc.combine Crc.split Keys.beq_bytes
diff_fuel-stuck_example =
    diff_fuel-stuck 0 zero_index (1 ∷ 2 ∷ []) (single [] 0) 0 refl refl (omega arith) 1000000 []

abbrev one_sized : IndexedSignature
one_sized = record {
  signature_type = SignatureType.md4;
  block_size = 1;
  crypto_hash_size = 0;
  blocks = zero_index;
}

diff-IsEnd_example : IsEnd {A = Bytes} (diff {E = ⊥} {W = Bytes} one_sized (1 ∷ 2 ∷ []) [])
diff-IsEnd_example = diff-IsEnd one_sized (1 ∷ 2 ∷ []) [] (omega arith)
