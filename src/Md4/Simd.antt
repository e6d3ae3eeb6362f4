-- ===== src/Md4/Simd.antt =====
-- `mod simd` of src/md4/mod.rs: the macro `n_lanes!`, which digests as many blocks at once as a
-- vector has words. The instances are in children, with the loads that transpose their input.
pub mod Rounds
pub mod Tail
pub mod Ends
pub mod Digests
pub mod Select
pub mod Words
pub mod Sse2
pub mod Wide
pub mod Avx2
pub mod Neon
pub mod Selection
use fast_rsync.Base.{
  ℕ, zero, suc, ◌+◌, ◌-◌, ◌*◌, ◌/◌, ◌%◌, ◌^◌, Bool, true, ◌&&◌, List, [], ◌∷◌, ◌++◌, map, Bytes,
  length, take, drop, get_or, set, replicate, splice, ltb, leb, ◌==◌, if◌then◌else◌, Option, none,
  some, Outcome, ok, panic, ◌>>=◌,
}
use fast_rsync.Base.Words.{u32, u64, to_le_bytes}
use fast_rsync.Md4.{Ops, Md4State, process_block, initial, digest_bytes}
use fast_rsync.Md4.Many.{Target, Md4xN, max_lanes}

-- The arguments of the macro `n_lanes!`; `lane` is an element of the vector as an array of `u32`.
pub record Lanes (V : Type 0) : Type 0 where
  pub lanes : ℕ
  pub load : (ℕ → Bytes) → List V
  pub ops : Ops V
  pub lane : V → ℕ → ℕ

-- `array_ref![xs, at, len]` where that lies in `xs`.
abbrev pub array_ref : Bytes → ℕ → ℕ → Bytes
array_ref xs at len = take len (drop at xs)

-- `data[lane]`
abbrev pub row : List Bytes → ℕ → Bytes
row rows lane = get_or rows lane []

-- The loop of `assert_eq!(len, data[ix].len())`.
unfoldable pub all_len : ℕ → List Bytes → Bool
all_len len [] = true
all_len len (block ∷ blocks) = len == length block && all_len len blocks

-- A lane of `padded`: the last bytes of a row and the end mark.
unfoldable pub padded : ℕ → Bytes → Bytes
padded len block =
    let remainder = len % 64 in
    splice (splice (replicate 64 0) 0 (drop (len - remainder) block)) remainder (0x80 ∷ [])

module _ {V : Type 0} (n : Lanes V) where
  unfoldable pub splat_initial : Md4State V
  splat_initial = record {
    a = n.ops.splat initial.a;
    b = n.ops.splat initial.b;
    c = n.ops.splat initial.c;
    d = n.ops.splat initial.d;
  }

  -- The loop over whole blocks from number `block` on, with the number of those that are left.
  unfoldable pub absorb_rows : ℕ → ℕ → List Bytes → Md4State V → Md4State V
  absorb_rows zero block rows s = s
  absorb_rows (suc left) block rows s =
      absorb_rows left (block + 1) rows
        (process_block n.ops s (n.load (λ lane. array_ref (row rows lane) (64 * block) 64)))

  -- The length in bits as the last two words.
  unfoldable pub set_bit_len : ℕ → List V → List V
  set_bit_len bit_len blocks =
      set (set blocks 14 (n.ops.splat (u32 bit_len))) 15 (n.ops.splat (u32 (bit_len / 2 ^ 32)))

  unfoldable pub absorb_end : ℕ → List Bytes → Md4State V → Md4State V
  absorb_end len rows s =
      let remainder = len % 64 in
      let bit_len = u64 (len * 8) in
      let blocks = n.load (λ lane. padded len (row rows lane)) in
      let zeros = replicate 16 (n.ops.splat 0) in
      if ltb remainder 56
      then process_block n.ops s (set_bit_len bit_len blocks)
      else process_block n.ops (process_block n.ops s blocks) (set_bit_len bit_len zeros)

  -- A lane of the final state.
  unfoldable pub lane_state : Md4State V → ℕ → Md4State ℕ
  lane_state s i = record { a = n.lane s.a i; b = n.lane s.b i; c = n.lane s.c i; d = n.lane s.d i }

  -- The loop over the digests from number `lane` on.
  unfoldable pub lane_digests : ℕ → ℕ → Md4State V → List Bytes
  lane_digests zero lane s = []
  lane_digests (suc left) lane s = digest_bytes (lane_state s lane) ∷ lane_digests left (lane + 1) s

  -- `md4xN`
  unfoldable pub md4_xn : List Bytes → Outcome ⊥ (List Bytes)
  md4_xn rows =
      let len = length (row rows 0) in
      let s = absorb_rows (len / 64) 0 rows splat_initial in
      if all_len len (drop 1 rows)
      then ok (lane_digests n.lanes 0 (absorb_end len rows s))
      else panic

  -- The closure in `select`.
  unfoldable pub select_fun : Target → List Bytes → Outcome ⊥ (List Bytes)
  select_fun target blocks = if ltb (length blocks) n.lanes then panic else do
    prefix ← md4_xn (take n.lanes blocks)
    ok (prefix ++ replicate (max_lanes target - n.lanes) (replicate 16 0))

  -- `select`, where `enabled` says whether the processor has the vector unit.
  unfoldable pub select_lanes : (target : Target) → Bool → Option (Md4xN target)
  select_lanes target enabled =
      if enabled then some (record { lanes = n.lanes; fun = select_fun target }) else none
