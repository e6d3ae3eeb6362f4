-- ===== src/Md4/Simd/Ends.antt =====
-- What is absorbed at the end of a message in src/md4/mod.rs, by `md4` and by `md4xN`.
use fast_rsync.Base.{
  ℕ, ◌-◌, ◌*◌, ◌/◌, ◌%◌, ◌^◌, ◌≤◌, ◌<◌, ◌≡◌, refl, sym, ap, ◌∙◌, arith, List, [], ◌∷◌, ◌++◌,
  append-nil, append_assoc, Bytes, length, length-append, length-drop, take, drop, take-append,
  drop-append, set, replicate, splice, leb, true, false, if◌then◌else◌, ◌==◌,
}
use fast_rsync.Base.Words.{u32, u64, from_le_bytes, to_le_bytes, length-to_le_bytes}
use fast_rsync.Md4.{Md4State, load_block, last_blocks, end_of, absorb, process_block, scalar}
use fast_rsync.Md4.Simd.{padded}
use fast_rsync.Md4.Simd.Tail.{
  marked, length-marked, splice-marked, marked-more, splice-append, set-load_block, drop-replicate,
}

abbrev pub bit_len : ℕ → ℕ
bit_len len = u64 (len * 8)

-- The last blocks, where the length fits behind the mark in one.
last_blocks_short :
    (len : ℕ) (tail : Bytes)
    → length tail < 56
    → last_blocks len tail ≡ (marked 56 tail ++ to_le_bytes 8 (bit_len len)) ++ replicate 64 0
unfolding last_blocks end_of
last_blocks_short len tail h =
    let one : leb 56 (length tail) ≡ false = ground arith in
    let bits = to_le_bytes 8 (bit_len len) in
    let eight : length bits ≡ 8 = length-to_le_bytes 8 (bit_len len) in
    rw (
      one,
      splice-marked 128 tail (omega arith),
      marked-more 56 72 128 tail h refl,
      splice-append 56 (marked 56 tail) (replicate 72 0) bits (replicate 64 0)
          (length-marked 56 tail h) (drop-replicate (length bits) 72 64 0 (omega arith)),
      append_assoc (marked 56 tail) bits (replicate 64 0),
    )

-- And where it does not.
last_blocks_long :
    (len : ℕ) (tail : Bytes)
    → 56 ≤ length tail
    → length tail < 64
    → last_blocks len tail ≡ marked 64 tail ++ (replicate 56 0 ++ to_le_bytes 8 (bit_len len))
unfolding last_blocks end_of
last_blocks_long len tail h k =
    let two : leb 56 (length tail) ≡ true = ground arith in
    let bits = to_le_bytes 8 (bit_len len) in
    let eight : length bits ≡ 8 = length-to_le_bytes 8 (bit_len len) in
    let front = marked 64 tail ++ replicate 56 0 in
    let all : front ++ replicate 8 0 ≡ marked 64 tail ++ replicate 64 0 =
      append_assoc (marked 64 tail) (replicate 56 0) (replicate 8 0) in
    let len_front : length front ≡ 120 =
      omega (arith, length-append (marked 64 tail) (replicate 56 0), length-marked 64 tail k) in
    rw (
      two,
      splice-marked 128 tail (omega arith),
      marked-more 64 64 128 tail k refl,
      sym all,
      splice-append 120 front (replicate 8 0) bits [] len_front
          (drop-replicate (length bits) 8 0 0 (omega arith)),
      append-nil bits,
      append_assoc (marked 64 tail) (replicate 56 0) bits,
    )

-- What `md4` does once the whole blocks are absorbed.
abbrev pub end_absorbed : ℕ → Bytes → Md4State ℕ → Md4State ℕ
end_absorbed len tail s =
    let last = last_blocks len tail in
    let s0 = absorb s (take 64 last) in
    let s1 = absorb s0 (drop 64 last) in if end_of tail == 128 then s1 else s0

-- The words with the length of the message in the last two.
abbrev pub with_bit_len : ℕ → List ℕ → List ℕ
with_bit_len len words = set (set words 14 (u32 (bit_len len))) 15 (u32 (bit_len len / 2 ^ 32))

pub end_absorbed_short :
    (len : ℕ) (tail : Bytes) (s : Md4State ℕ)
    → length tail < 56
    → end_absorbed len tail s
      ≡ process_block scalar s (with_bit_len len (load_block (marked 64 tail)))
unfolding absorb end_of
end_absorbed_short len tail s h =
    let one : leb 56 (length tail) ≡ false = ground arith in
    let bits = to_le_bytes 8 (bit_len len) in
    let front = marked 56 tail in
    let len_front = length-marked 56 tail h in
    let eight : length bits ≡ 8 = length-to_le_bytes 8 (bit_len len) in
    let len_block : length (front ++ bits) ≡ 64 = omega (arith, length-append front bits) in
    rw (
      one,
      last_blocks_short len tail h,
      take-append 64 (front ++ bits) (replicate 64 0) len_block,
      marked-more 56 8 64 tail h refl,
      set-load_block front (replicate 8 0) (bit_len len) len_front refl,
    )

pub end_absorbed_long :
    (len : ℕ) (tail : Bytes) (s : Md4State ℕ)
    → 56 ≤ length tail
    → length tail < 64
    → end_absorbed len tail s
      ≡ process_block scalar
          (process_block scalar s (load_block (marked 64 tail)))
          (with_bit_len len (replicate 16 0))
unfolding absorb end_of
end_absorbed_long len tail s h k =
    let two : leb 56 (length tail) ≡ true = ground arith in
    let rest = replicate 56 0 ++ to_le_bytes 8 (bit_len len) in
    let zeros : load_block (replicate 56 0 ++ replicate 8 0) ≡ replicate 16 0 =
      unfold load_block from_le_bytes in refl in
    rw (
      two,
      last_blocks_long len tail h k,
      take-append 64 (marked 64 tail) rest (length-marked 64 tail k),
      drop-append 64 (marked 64 tail) rest (length-marked 64 tail k),
      sym (set-load_block (replicate 56 0) (replicate 8 0) (bit_len len) refl refl),
      zeros,
    )

-- A padded lane.
pub padded_lem :
    (len : ℕ) (block : Bytes)
    → length block ≡ len
    → padded len block ≡ marked 64 (drop (len - len % 64) block)
unfolding padded
padded_lem len block e =
    let tail = drop (len - len % 64) block in
    let left : len % 64 ≡ length tail = omega (arith, length-drop (len - len % 64) block) in
    ap (λ (r : ℕ). splice (splice (replicate 64 0) 0 tail) r (0x80 ∷ [])) left
    ∙ splice-marked 64 tail (omega arith)
