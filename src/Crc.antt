-- ===== src/Crc.antt =====
-- The rolling checksum of src/crc.rs: a pair of 16-bit sums in a 32-bit word.
pub mod Weights
pub mod Sums
pub mod Rolling
use fast_rsync.Base.{ℕ, suc, ◌+◌, ◌-◌, ◌*◌, ◌/◌, ◌%◌, ◌^◌, bit_or, [], ◌∷◌, Bytes, length}
use fast_rsync.Base.Words.{u16, u32, to_be_bytes, from_be_bytes}
use fast_rsync.Base.Words.{wrapping_add, wrapping_sub, wrapping_mul}

abbrev crc_magic : ℕ
crc_magic = 31

-- `Crc(pub u32)`.
pub record Crc : Type 0 where
  pub value : ℕ

-- `Crc::SIZE`
abbrev pub crc_size : ℕ
crc_size = 4

unfoldable pub to_bytes : Crc → Bytes
to_bytes c = to_be_bytes crc_size c.value

unfoldable pub from_bytes : Bytes → Crc
from_bytes b = record { value = from_be_bytes b }

-- The pair `(s1, s2)` of `Crc::split`.
pub record Halves : Type 0 where
  pub s1 : ℕ
  pub s2 : ℕ

unfoldable pub split : Crc → Halves
split c = record { s1 = u16 c.value; s2 = u16 (c.value / 2 ^ 16) }

unfoldable pub combine : Halves → Crc
combine h = record { value = bit_or h.s1 (u32 (h.s2 * 2 ^ 16)) }

-- `Crc::new`, whose name is `empty` here.
unfoldable pub empty : Crc
empty = record { value = 0 }

unfoldable pub rollout : Crc → ℕ → ℕ → Crc
rollout c size old_byte =
    let size = u16 size in
    let old_byte = u16 old_byte in
    let h = split c in
    combine (record {
      s1 = wrapping_sub 16 h.s1 (wrapping_add 16 old_byte crc_magic);
      s2 = wrapping_sub 16 h.s2 (wrapping_mul 16 size (old_byte + crc_magic));
    })

unfoldable pub rotate : Crc → ℕ → ℕ → ℕ → Crc
rotate c size old_byte new_byte =
    let size = u16 size in
    let old_byte = u16 old_byte in
    let new_byte = u16 new_byte in
    let h = split c in
    let s1 = wrapping_sub 16 (wrapping_add 16 h.s1 new_byte) old_byte in
    let s2 =
      wrapping_sub 16 (wrapping_add 16 h.s2 s1)
        (wrapping_mul 16 size (wrapping_add 16 old_byte crc_magic)) in
    combine (record { s1 = s1; s2 = s2 })

unfoldable pub rollin : Crc → ℕ → Crc
rollin c new_byte =
    let h = split c in
    let s1 = wrapping_add 16 h.s1 (u16 new_byte) in
    let s2 = wrapping_add 16 h.s2 s1 in
    combine (record { s1 = wrapping_add 16 s1 crc_magic; s2 = wrapping_add 16 s2 crc_magic })

-- What both updates add at the end, where `len` is a `u32`.
add_magic : ℕ → Halves → Halves
add_magic len h = record {
  s1 = wrapping_add 16 h.s1 (wrapping_mul 16 (u16 len) crc_magic);
  s2 =
      wrapping_add 16 h.s2
        (wrapping_mul 16 (u16 (wrapping_mul 32 len (wrapping_add 32 len 1) / 2)) crc_magic);
}

-- The loop of `Crc::update` at index `idx`.
update_loop : ℕ → ℕ → Bytes → Halves → Halves
update_loop len idx [] h = h
update_loop len idx (byte ∷ buf) h = update_loop len (idx + 1) buf (record {
  s1 = wrapping_add 16 h.s1 (u16 byte);
  s2 = wrapping_add 16 h.s2 (wrapping_mul 16 (u16 byte) (wrapping_sub 16 (u16 len) (u16 idx)));
})

-- Every target feature runs the same loop.
unfoldable pub update : Crc → Bytes → Crc
unfolding update_loop add_magic
update c buf =
    let h = split c in
    let len = u32 (length buf) in
    combine (
      add_magic len (
        update_loop len 0 buf
          (record { s1 = h.s1; s2 = wrapping_add 16 h.s2 (wrapping_mul 16 h.s1 (u16 len)) })))

basic_loop : Bytes → Halves → Halves
basic_loop [] h = h
basic_loop (byte ∷ buf) h =
    let s1 = wrapping_add 16 h.s1 (u16 byte) in
    basic_loop buf (record { s1 = s1; s2 = wrapping_add 16 h.s2 s1 })

pub basic_update : Crc → Bytes → Crc
basic_update c buf = combine (add_magic (u32 (length buf)) (basic_loop buf (split c)))
