-- ===== src/Patch/Room.antt =====
-- How much `apply_limited` of src/patch.rs asks of its writer, whether the delta is accepted or not.
mod Reads
use fast_rsync.Base.{
  ℕ, zero, suc, ◌+◌, ◌-◌, ◌/◌, ◌%◌, ◌^◌, ◌≤◌, ◌≡◌, refl, arith, Bytes, length, Bool-cases, inl, inr,
  Bool, true, false, ltb, leb, ◌==◌, ◌&&◌, if◌then◌else◌, [], ◌∷◌, Outcome, ok, err, panic, stuck,
  ◌>>=◌, Write, IoResult, written, failed, from_io, Option, none, some, slice, ok_or,
}
use fast_rsync.Base.Words.{usize_max}
use fast_rsync.Consts.{
  delta_magic, rs_op_end, rs_op_literal_1, rs_op_literal_64, rs_op_literal_n1, rs_op_literal_n8,
  rs_op_copy_n1_n1, rs_op_copy_n8_n8,
}
use fast_rsync.Patch.{
  ApplyError, wrong_magic, unexpected_eof, output_limit, copy_out_of_bounds, copy_zero,
  unknown_command, trailing_data, io, split_at, sub_usize, checked_add, read_n, read_int,
  read_varint, safe_cast, literal_length, copied_slice, Cursor, safe_extend, apply_literal,
  apply_copy, apply_command, apply_loop, finish, apply_limited,
}
use Prim.Native.String.{String}
use Reads.{
  Fits, Whatever, bind-Fits, if-Fits, read_n-Fits, read_int-Fits, read_varint-Fits,
  literal_length-Fits, copied_slice-Fits,
}

-- A writer that takes bytes as long as it holds `room` of them at most, behind them.
pub record HasRoom {E W : Type 0} (writer : Write E W) (size : W → ℕ) (room : ℕ) : Type 0 where
  pub takes :
      (bytes : Bytes) (w : W)
      → size w + length bytes ≤ room
      → (w' : W) × (writer.write_all bytes w ≡ written w') × (size w' ≡ size w + length bytes)

module _ {E W : Type 0} ⦃writer : Write E W⦄ (size : W → ℕ) (room : ℕ)
    (has_room : HasRoom writer size room) where
  -- What the limit leaves is still free.
  abbrev IsFree : Cursor W → Type 0
  IsFree c = size c.out + c.limit ≤ room

  abbrev IsIn : W → Type 0
  IsIn w = size w ≤ room

  safe_extend-Fits :
      (bytes : Bytes) (what : String) (rest : Bytes) (out : W) (limit : ℕ)
      → size out + limit ≤ room
      → Fits {E = E} IsFree (safe_extend bytes what rest out limit)
  unfolding safe_extend sub_usize
  safe_extend-Fits bytes what rest out limit free = elim (Bool-cases (ltb limit (length bytes))) [
    | inl t ↦ rw t tt
    | inr f ↦
        let covered : length bytes ≤ limit = ground arith in
        let (w', wrote, more) = has_room.takes bytes out (omega arith) in
        rw (f, wrote) (omega (arith, more))
  ]

  apply_literal-Fits :
      (cmd : ℕ) (c : Cursor W) → IsFree c → Fits {E = E} IsFree (apply_literal cmd c)
  unfolding apply_literal
  apply_literal-Fits cmd c free =
      bind-Fits Whatever IsFree (literal_length cmd c.delta c.limit) _
        (literal_length-Fits E cmd c.delta c.limit)
        (λ l _.
          bind-Fits Whatever IsFree (read_n l.0 "literal" l.1) _ (read_n-Fits E l.0 "literal" l.1)
            (λ b _. safe_extend-Fits b.0 "literal" b.1 c.out c.limit free))

  apply_copy-Fits :
      (base : Bytes) (cmd : ℕ) (c : Cursor W)
      → IsFree c
      → Fits {E = E} IsFree (apply_copy base cmd c)
  unfolding apply_copy
  apply_copy-Fits base cmd c free =
      bind-Fits Whatever IsFree (read_varint _ "copy offset" c.delta) _
        (read_varint-Fits E _ "copy offset" c.delta)
        (λ o _.
          bind-Fits Whatever IsFree (read_varint _ "copy length" o.1) _
            (read_varint-Fits E _ "copy length" o.1)
            (λ l _.
              bind-Fits Whatever IsFree (copied_slice base o.0 l.0) _
                (copied_slice-Fits E base o.0 l.0)
                (λ bytes _. safe_extend-Fits bytes "copy" l.1 c.out c.limit free)))

  apply_command-Fits :
      (base : Bytes) (cmd : ℕ) (c : Cursor W)
      → IsFree c
      → Fits {E = E} IsFree (apply_command base cmd c)
  unfolding apply_command
  apply_command-Fits base cmd c free =
      if-Fits IsFree (leb rs_op_literal_1 cmd && leb cmd rs_op_literal_n8) _ _
        (λ _. apply_literal-Fits cmd c free)
        (λ _.
          if-Fits IsFree (leb rs_op_copy_n1_n1 cmd && leb cmd rs_op_copy_n8_n8) _ _
            (λ _. apply_copy-Fits base cmd c free) (λ _. tt))

  apply_loop-Fits :
      (fuel : ℕ) (base : Bytes) (c : Cursor W)
      → IsFree c
      → Fits {E = E} IsFree (apply_loop fuel base c)
  unfolding apply_loop
  apply_loop-Fits zero base c free = tt
  apply_loop-Fits (suc fuel) base c free =
      bind-Fits Whatever IsFree (read_int 1 "cmd" c.delta) _ (read_int-Fits E 1 "cmd" c.delta)
        (λ r _.
          let c1 : Cursor W = record c { delta = r.1 } in
          if-Fits IsFree (r.0 == rs_op_end) _ _ (λ _. free)
            (λ _.
              bind-Fits IsFree IsFree (apply_command base r.0 c1) _
                (apply_command-Fits base r.0 c1 free)
                (λ c2 free'. apply_loop-Fits fuel base c2 free')))

  finish-Fits :
      (delta : Bytes) (out : W) (limit : ℕ)
      → size out + limit ≤ room
      → Fits {E = E} IsIn (finish (record { delta = delta; out = out; limit = limit }))
  unfolding finish
  finish-Fits [] out limit free = omega arith
  finish-Fits (x ∷ rest) out limit free = tt

  apply_limited-Fits :
      (base delta : Bytes) (out : W) (limit : ℕ)
      → size out + limit ≤ room
      → Fits {E = E} IsIn (apply_limited base delta out limit)
  unfolding apply_limited
  apply_limited-Fits base delta out limit free =
      bind-Fits Whatever IsIn (read_int 4 "magic" delta) _ (read_int-Fits E 4 "magic" delta) (λ r _.
        if-Fits IsIn (r.0 == delta_magic) _ _
          (λ _.
            bind-Fits IsFree IsIn (apply_loop (suc (length r.1)) base _) finish
              (apply_loop-Fits (suc (length r.1)) base _ free)
              (λ c free'. finish-Fits c.delta c.out c.limit free'))
          (λ _. tt))

  -- A writer that takes bytes as long as it then holds `room` of them at most, and into which the limit
  -- fits, refuses no call of `apply_limited`, whatever the base and the delta, also where the delta is
  -- refused: the error is never one of the writer.
  pub apply_limited-io :
      (base delta : Bytes) (out : W) (limit : ℕ) (e : E)
      → size out + limit ≤ room
      → ¬ (apply_limited base delta out limit ≡ err (io e))
  apply_limited-io base delta out limit e free refused =
      let fits = apply_limited-Fits base delta out limit free in rw refused at fits
