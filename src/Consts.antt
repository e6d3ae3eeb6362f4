-- ===== src/Consts.antt =====
-- The numbers of the formats, from src/consts.rs.
use Prim.Native.Nat.{ℕ}

abbrev pub md4_magic : ℕ
md4_magic = 0x72730136

abbrev pub blake2_magic : ℕ
blake2_magic = 0x72730137

abbrev pub delta_magic : ℕ
delta_magic = 0x72730236

abbrev pub rs_op_end : ℕ
rs_op_end = 0

abbrev pub rs_op_literal_1 : ℕ
rs_op_literal_1 = 0x1

abbrev pub rs_op_literal_64 : ℕ
rs_op_literal_64 = 0x40

abbrev pub rs_op_literal_n1 : ℕ
rs_op_literal_n1 = 0x41

abbrev pub rs_op_literal_n2 : ℕ
rs_op_literal_n2 = 0x42

abbrev pub rs_op_literal_n4 : ℕ
rs_op_literal_n4 = 0x43

abbrev pub rs_op_literal_n8 : ℕ
rs_op_literal_n8 = 0x44

abbrev pub rs_op_copy_n1_n1 : ℕ
rs_op_copy_n1_n1 = 0x45

abbrev pub rs_op_copy_n8_n8 : ℕ
rs_op_copy_n8_n8 = 0x54
