-- ===== src/Diff.antt =====
-- Calculating a delta: src/diff.rs. The commands and the output state are in children.
pub mod Command
pub mod Output
pub mod Emits
pub mod Ends
pub mod Stall
pub mod Digests
pub mod Steps
pub mod Counters
pub mod Returns
pub mod Fails
pub mod Errors
pub mod Display
pub mod Size
use fast_rsync.Base.{
  ℕ, zero, suc, ◌+◌, ◌-◌, ◌*◌, ◌^◌, Bool, true, false, Option, none, some, List, [], ◌∷◌, Bytes,
  length, take, slice, get_elem?, ltb, leb, if◌then◌else◌, Outcome, ok, err, panic, stuck, ◌>>=◌,
  ok_or_panic, map_err, Write, from_io,
}
use fast_rsync.Base.Words.{to_be_bytes}
use fast_rsync.Base.Keys.{HashMap, get, entry_or, bytes_eq}
use fast_rsync.Consts.{delta_magic, rs_op_end}
use fast_rsync.Crc.{Crc, update, rotate}
use fast_rsync.Crc
use fast_rsync.Md4.{md4, md4_size}
use fast_rsync.SecondLayerMap
use fast_rsync.SecondLayerMap.{SecondLayerMap}
use fast_rsync.Signature.{SignatureType}
use fast_rsync.Signature.Index.{IndexedSignature, crc_eq}
use Command.{copy_command}
use Output.{OutputState, emit, copy}

-- `MAX_CRC_COLLISIONS`
abbrev pub max_crc_collisions : ℕ
max_crc_collisions = 1024

pub data DiffError (E : Type 0) : Type 0 where
  invalid_signature : DiffError E
  io : E → DiffError E

abbrev pub Collisions : Type 0
Collisions = HashMap Crc ℕ

-- The variables of `diff` that its loops change.
pub record Scan (W : Type 0) : Type 0 where
  pub here : ℕ
  pub collisions : Collisions
  pub state : OutputState
  pub out : W

-- `collisions.get(&crc).map_or(true, |&count| count < MAX_CRC_COLLISIONS)`
unfoldable pub allowed : Crc → Collisions → Bool
allowed crc collisions = elim (get crc collisions) [
  | none ↦ true
  | some count ↦ ltb count max_crc_collisions
]

-- The second layer of the lookup: by the window's digest among the blocks of its checksum, where
-- a miss is counted as a collision.
unfoldable pub match_digest :
    {E : Type 0}
    → IndexedSignature
    → Crc
    → Collisions
    → SecondLayerMap Bytes ℕ
    → Bytes
    → Outcome E (Collisions × Option ℕ)
match_digest sig crc collisions blocks window = do
  hash ← ok_or_panic (slice (md4 window) 0 sig.crypto_hash_size)
  elim (SecondLayerMap.get hash blocks) [
    | some idx ↦ ok (collisions, some idx)
    | none ↦ ok (entry_or crc 0 (λ count. count + 1) collisions, none)
  ]

-- The lookup of one round: the counters after it, and the number of the matching block.
unfoldable pub find_match :
    {E : Type 0}
    → IndexedSignature
    → Bytes
    → ℕ
    → Crc
    → Collisions
    → Outcome E (Collisions × Option ℕ)
find_match sig input here crc collisions =
    if allowed crc collisions
    then (elim (get crc sig.blocks) [
      | none ↦ ok (collisions, none)
      | some blocks ↦ do
        window ← ok_or_panic (slice input here (here + sig.block_size))
        match_digest sig crc collisions blocks window
    ])
    else ok (collisions, none)

module _ {E W : Type 0} ⦃writer : Write E W⦄ where
  -- The inner `loop`, with the rounds that are left.
  unfoldable pub match_loop : ℕ → IndexedSignature → Bytes → Crc → Scan W → Outcome E (Scan W)
  match_loop zero sig input crc s = stuck
  match_loop (suc fuel) sig input crc s = do
    (collisions, found) ← find_match sig input s.here crc s.collisions
    let here = s.here + 1
    elim found [
      | some idx ↦ do
        (state, out) ← copy s.state (idx * sig.block_size) sig.block_size s.here input s.out
        ok (record {
          here = s.here + sig.block_size;
          collisions = collisions;
          state = state;
          out = out;
        })
      | none ↦
          let s' : Scan W = record s { here = here; collisions = collisions } in
          let rolled = do
            old_byte ← ok_or_panic (get_elem? input (here - 1))
            new_byte ← ok_or_panic (get_elem? input (here + sig.block_size - 1))
            match_loop fuel sig input (rotate crc sig.block_size old_byte new_byte) s'
          in if ltb (length input) (here + sig.block_size) then ok s' else rolled
    ]

  -- The outer `while`. Where `data.len() - here` underflows, a debug build panics there, and a
  -- release build at the slice that follows.
  unfoldable pub diff_loop : ℕ → IndexedSignature → Bytes → Scan W → Outcome E (Scan W)
  diff_loop zero sig input s = stuck
  diff_loop (suc fuel) sig input s =
      let more = do
        window ← ok_or_panic (slice input s.here (s.here + sig.block_size))
        s' ← match_loop (suc (length input - s.here)) sig input (update Crc.empty window) s
        diff_loop fuel sig input s'
      in if ltb (length input) s.here
        then panic
        else if leb sig.block_size (length input - s.here)
        then more
        else ok s

  -- What `diff` does once the signature is found valid, with the rounds of its outer loop.
  unfoldable pub diff_rounds : ℕ → IndexedSignature → Bytes → W → Outcome (DiffError E) W
  diff_rounds fuel sig input out = map_err io (do
    out1 ← from_io (λ e. e) (writer.write_all (to_be_bytes 4 delta_magic) out)
    let state : OutputState = record { emitted = 0; queued_copy = none }
    s ← diff_loop fuel sig input (record { here = 0; collisions = []; state = state; out = out1 })
    (state', out2) ← emit s.state (length input) input s.out
    from_io (λ e. e) (writer.write_all (rs_op_end ∷ []) out2))

  -- `diff` with the rounds of its outer loop.
  unfoldable pub diff_fuel : ℕ → IndexedSignature → Bytes → W → Outcome (DiffError E) W
  diff_fuel fuel sig input out = elim sig.signature_type [
    | SignatureType.md4 ↦
        if ltb md4_size sig.crypto_hash_size
        then err invalid_signature
        else diff_rounds fuel sig input out
    | SignatureType.blake2 ↦ err invalid_signature
  ]

  -- With blocks that are not empty each round moves on by a byte at least.
  unfoldable pub diff : IndexedSignature → Bytes → W → Outcome (DiffError E) W
  diff sig input out = diff_fuel (suc (length input)) sig input out
