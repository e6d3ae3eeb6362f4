-- ===== src/Patch/Room/Reads.antt =====
-- What `apply_limited` of src/patch.rs reads makes no error of its writer.
use fast_rsync.Base.{
  ℕ, ◌≡◌, refl, Bytes, length, Bool, true, false, ltb, leb, ◌==◌, if◌then◌else◌, Outcome, ok, err,
  panic, stuck, ◌>>=◌, Option, none, some, slice, ok_or,
}
use fast_rsync.Base.Words.{usize_max}
use fast_rsync.Consts.{rs_op_literal_64}
use fast_rsync.Patch.{
  ApplyError, wrong_magic, unexpected_eof, output_limit, copy_out_of_bounds, copy_zero,
  unknown_command, trailing_data, io, split_at, sub_usize, checked_add, read_n, read_int,
  read_varint, safe_cast, literal_length, copied_slice,
}
use Prim.Native.String.{String}

-- The run has no error of the writer, and what it ends in is told by `Q`.
abbrev pub Fits : {E A : Type 0} → (A → Type 0) → Outcome (ApplyError E) A → Type 0
Fits Q (ok a) = Q a
Fits Q (err (io e)) = ⊥
Fits Q (err (wrong_magic magic)) = Unit {0}
Fits Q (err (unexpected_eof reading expected available)) = Unit {0}
Fits Q (err (output_limit what wanted available)) = Unit {0}
Fits Q (err (copy_out_of_bounds offset len data_len)) = Unit {0}
Fits Q (err copy_zero) = Unit {0}
Fits Q (err (unknown_command command)) = Unit {0}
Fits Q (err (trailing_data len)) = Unit {0}
Fits Q panic = Unit {0}
Fits Q stuck = Unit {0}

abbrev pub Whatever : {A : Type 0} → A → Type 0
Whatever a = Unit {0}

pub bind-Fits :
    {E A B : Type 0} (Q : A → Type 0) (Q' : B → Type 0) (first : Outcome (ApplyError E) A)
    (next : A → Outcome (ApplyError E) B)
    → Fits Q first
    → ((a : A) → Q a → Fits Q' (next a))
    → Fits Q' (first >>= next)
bind-Fits Q Q' (ok a) next f k = k a f
bind-Fits Q Q' (err (io e)) next f k = absurd f
bind-Fits Q Q' (err (wrong_magic magic)) next f k = tt
bind-Fits Q Q' (err (unexpected_eof reading expected available)) next f k = tt
bind-Fits Q Q' (err (output_limit what wanted available)) next f k = tt
bind-Fits Q Q' (err (copy_out_of_bounds offset len data_len)) next f k = tt
bind-Fits Q Q' (err copy_zero) next f k = tt
bind-Fits Q Q' (err (unknown_command command)) next f k = tt
bind-Fits Q Q' (err (trailing_data len)) next f k = tt
bind-Fits Q Q' panic next f k = tt
bind-Fits Q Q' stuck next f k = tt

pub if-Fits :
    {E A : Type 0} (Q : A → Type 0) (b : Bool) (x y : Outcome (ApplyError E) A)
    → (b ≡ true → Fits Q x)
    → (b ≡ false → Fits Q y)
    → Fits Q (if b then x else y)
if-Fits Q true x y f g = f refl
if-Fits Q false x y f g = g refl

ok_or-Fits :
    {E A : Type 0} (o : Option A) (e : ApplyError E)
    → Fits {E = E} {A = A} Whatever (err e)
    → Fits Whatever (ok_or o e)
ok_or-Fits none e h = h
ok_or-Fits (some a) e h = tt

-- The reads make no call of the writer.
module _ (E : Type 0) where
  pub read_n-Fits :
      (n : ℕ) (what : String) (delta : Bytes) → Fits {E = E} Whatever (read_n n what delta)
  unfolding read_n split_at
  read_n-Fits n what delta =
      if-Fits Whatever (ltb (length delta) n) _ _ (λ _. tt)
        (λ f. if-Fits Whatever (ltb (length delta) n) _ _ (λ _. tt) (λ _. tt))

  pub read_int-Fits :
      (size : ℕ) (what : String) (delta : Bytes) → Fits {E = E} Whatever (read_int size what delta)
  unfolding read_int
  read_int-Fits size what delta =
      bind-Fits Whatever Whatever (read_n size what delta) _ (read_n-Fits size what delta)
        (λ r _. tt)

  pub read_varint-Fits :
      (len : ℕ) (what : String) (delta : Bytes) → Fits {E = E} Whatever (read_varint len what delta)
  unfolding read_varint sub_usize
  read_varint-Fits len what delta =
      bind-Fits Whatever Whatever (sub_usize 8 len) _
        (if-Fits Whatever (ltb 8 len) _ _ (λ _. tt) (λ _. tt))
        (λ padding _.
          bind-Fits Whatever Whatever (read_n len what delta) _ (read_n-Fits len what delta)
            (λ r _. tt))

  safe_cast-Fits :
      (val : ℕ) (e : ApplyError E)
      → Fits {E = E} {A = ℕ} Whatever (err e)
      → Fits Whatever (safe_cast val e)
  unfolding safe_cast
  safe_cast-Fits val e h = if-Fits Whatever (ltb usize_max val) _ _ (λ _. h) (λ _. tt)

  pub literal_length-Fits :
      (cmd : ℕ) (delta : Bytes) (limit : ℕ) → Fits {E = E} Whatever (literal_length cmd delta limit)
  unfolding literal_length
  literal_length-Fits cmd delta limit =
      if-Fits Whatever (leb cmd rs_op_literal_64) _ _ (λ _. tt)
        (λ _.
          bind-Fits Whatever Whatever (read_varint _ "literal length" delta) _
            (read_varint-Fits _ "literal length" delta)
            (λ v _.
              bind-Fits Whatever Whatever (safe_cast v.0 (output_limit "literal" usize_max limit)) _
                (safe_cast-Fits v.0 _ tt) (λ n _. tt)))

  pub copied_slice-Fits :
      (base : Bytes) (offset len : ℕ) → Fits {E = E} Whatever (copied_slice base offset len)
  unfolding copied_slice
  copied_slice-Fits base offset len =
      bind-Fits Whatever Whatever (safe_cast offset _) _ (safe_cast-Fits offset _ tt) (λ o _.
        bind-Fits Whatever Whatever (safe_cast len _) _ (safe_cast-Fits len _ tt) (λ n _.
          if-Fits Whatever (n == 0) _ _ (λ _. tt)
            (λ _.
              bind-Fits Whatever Whatever (ok_or (checked_add o n) _) _
                (ok_or-Fits (checked_add o n) _ tt) (λ end _. ok_or-Fits (slice base o end) _ tt))))
