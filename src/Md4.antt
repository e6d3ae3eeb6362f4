-- ===== src/Md4.antt =====
-- The digest of src/md4/mod.rs: the generic rounds of the macro `md4!`, and `md4` for one message.
pub mod Many
pub mod Simd
use fast_rsync.Base.{
  ℕ, ◌+◌, ◌-◌, ◌*◌, ◌/◌, ◌%◌, ◌^◌, bit_and, bit_or, bit_xor, List, [], ◌∷◌, ◌++◌, map, Bytes,
  length, take, drop, get_or, replicate, leb, ◌==◌, if◌then◌else◌, chunks_exact, remainder, splice,
}
use fast_rsync.Base.Words.{u32, u64, wrapping_add, from_le_bytes, to_le_bytes}
use mathlib.Core.List.{foldl}

abbrev pub md4_size : ℕ
md4_size = 16

-- The operations that the macro `md4!` takes.
pub record Ops (V : Type 0) : Type 0 where
  pub add : V → V → V
  pub and : V → V → V
  pub or : V → V → V
  pub andnot : V → V → V
  pub xor : V → V → V
  pub rol : V → ℕ → V
  pub splat : ℕ → V

-- `Md4State`, the four words `s[0]` to `s[3]`; also the variables `a` to `d` of a block.
pub record Md4State (V : Type 0) : Type 0 where
  pub a : V
  pub b : V
  pub c : V
  pub d : V

module _ {V : Type 0} (ops : Ops V) where
  open ops use {add, and, or, andnot, xor, rol, splat}

  unfoldable pub f : V → V → V → V
  f x y z = or (and x y) (andnot x z)

  unfoldable pub g : V → V → V → V
  g x y z = or (or (and x y) (and x z)) (and y z)

  unfoldable pub h : V → V → V → V
  h x y z = xor (xor x y) z

  unfoldable pub op1 : V → V → V → V → V → ℕ → V
  op1 a b c d k s = rol (add (add a (f b c d)) k) s

  unfoldable pub op2 : V → V → V → V → V → ℕ → V
  op2 a b c d k s = rol (add (add (add a (g b c d)) k) (splat 0x5A82_7999)) s

  unfoldable pub op3 : V → V → V → V → V → ℕ → V
  op3 a b c d k s = rol (add (add (add a (h b c d)) k) (splat 0x6ED9_EBA1)) s

  -- `data[i]`; the blocks have 16 words, so the default is never read.
  abbrev pub word : List V → ℕ → V
  word words i = get_or words i (splat 0)

  unfoldable pub round1 : List V → ℕ → Md4State V → Md4State V
  round1 words i r =
      let a = op1 r.a r.b r.c r.d (word words i) 3 in
      let d = op1 r.d a r.b r.c (word words (i + 1)) 7 in
      let c = op1 r.c d a r.b (word words (i + 2)) 11 in
      let b = op1 r.b c d a (word words (i + 3)) 19 in record { a = a; b = b; c = c; d = d }

  unfoldable pub round2 : List V → ℕ → Md4State V → Md4State V
  round2 words i r =
      let a = op2 r.a r.b r.c r.d (word words i) 3 in
      let d = op2 r.d a r.b r.c (word words (i + 4)) 5 in
      let c = op2 r.c d a r.b (word words (i + 8)) 9 in
      let b = op2 r.b c d a (word words (i + 12)) 13 in record { a = a; b = b; c = c; d = d }

  unfoldable pub round3 : List V → ℕ → Md4State V → Md4State V
  round3 words i r =
      let a = op3 r.a r.b r.c r.d (word words i) 3 in
      let d = op3 r.d a r.b r.c (word words (i + 8)) 9 in
      let c = op3 r.c d a r.b (word words (i + 4)) 11 in
      let b = op3 r.b c d a (word words (i + 12)) 15 in record { a = a; b = b; c = c; d = d }

  unfoldable pub process_block : Md4State V → List V → Md4State V
  process_block s words =
      let r1 = round1 words 12 (round1 words 8 (round1 words 4 (round1 words 0 s))) in
      let r2 = round2 words 3 (round2 words 2 (round2 words 1 (round2 words 0 r1))) in
      let r = round3 words 3 (round3 words 1 (round3 words 2 (round3 words 0 r2))) in
      record { a = add s.a r.a; b = add s.b r.b; c = add s.c r.c; d = add s.d r.d }

-- `!x & y` on 32 bits.
abbrev pub andnot_u32 : ℕ → ℕ → ℕ
andnot_u32 x y = bit_and (2 ^ 32 - 1 - x) y

abbrev pub rotate_left : ℕ → ℕ → ℕ
rotate_left x s = bit_or (u32 (x * 2 ^ s)) (x / 2 ^ (32 - s))

-- The first use of the macro, on `u32`.
abbrev pub scalar : Ops ℕ
scalar = record {
  add = wrapping_add 32;
  and = bit_and;
  or = bit_or;
  andnot = andnot_u32;
  xor = bit_xor;
  rol = rotate_left;
  splat = λ x. x;
}

-- The constant `S`.
abbrev pub initial : Md4State ℕ
initial = record { a = 0x6745_2301; b = 0xEFCD_AB89; c = 0x98BA_DCFE; d = 0x1032_5476 }

unfoldable pub load_block : Bytes → List ℕ
unfolding chunks_exact from_le_bytes
load_block input = map from_le_bytes (chunks_exact 4 input)

unfoldable pub absorb : Md4State ℕ → Bytes → Md4State ℕ
absorb s block = process_block scalar s (load_block block)

-- The two padded blocks, as the buffer `last_blocks`; `tail` is the remainder of `len` bytes.
unfoldable pub end_of : Bytes → ℕ
end_of tail = if leb 56 (length tail) then 128 else 64

unfoldable pub last_blocks : ℕ → Bytes → Bytes
last_blocks len tail =
    let zeros = replicate 128 0 in
    let marked = splice (splice zeros 0 tail) (length tail) (0x80 ∷ []) in
    splice marked (end_of tail - 8) (to_le_bytes 8 (u64 (len * 8)))

unfoldable pub digest_bytes : Md4State ℕ → Bytes
digest_bytes s =
    to_le_bytes 4 s.a ++ (to_le_bytes 4 s.b ++ (to_le_bytes 4 s.c ++ to_le_bytes 4 s.d))

unfoldable pub md4 : Bytes → Bytes
unfolding absorb process_block round1 round2 round3 op1 op2 op3 f g h load_block last_blocks end_of
    digest_bytes splice remainder chunks_exact to_le_bytes
md4 input =
    let s = foldl absorb initial (chunks_exact 64 input) in
    let tail = remainder 64 input in
    let last = last_blocks (length input) tail in
    let s0 = absorb s (take 64 last) in
    let s1 = absorb s0 (drop 64 last) in digest_bytes (if end_of tail == 128 then s1 else s0)
