-- ===== src/Diff/Fails.antt =====
-- The errors that come of the calls of src/diff.rs to its writer.
pub mod Run
use fast_rsync.Base.{
  ℕ, zero, suc, ◌+◌, ◌-◌, ◌*◌, ◌≡◌, refl, ap, Bool, true, false, Option, none, some, Option-cases,
  inl, inr, [], ◌∷◌, Bytes, length, slice, get_elem?, ltb, leb, ◌==◌, ◌&&◌, if◌then◌else◌, Outcome,
  ok, err, panic, stuck, ◌>>=◌, ok_or_panic, map_err, Write, IoResult, written, failed, from_io,
}
use fast_rsync.Base.Words.{to_be_bytes}
use fast_rsync.Base.Keys.{get, bytes_eq}
use fast_rsync.Consts.{delta_magic, rs_op_end}
use fast_rsync.Crc.{Crc, update, rotate}
use fast_rsync.Crc
use fast_rsync.Diff.{
  DiffError, io, Collisions, Scan, allowed, match_digest, find_match, match_loop, diff_loop,
  diff_rounds,
}
use fast_rsync.Md4.{md4}
use fast_rsync.SecondLayerMap.{SecondLayerMap}
use fast_rsync.SecondLayerMap
use fast_rsync.Diff.Command.{
  write, insert_command, insert_bytes, write_varint, varint_bytes, copy_command, size_class_marker,
}
use fast_rsync.Diff.Output.{OutputState, emit_queued, emit_literal, emit, queue_copy, copy}
use fast_rsync.Signature.Index.{IndexedSignature, crc_eq}

-- An error of the run is one of those told by `P`, and what it ends in is told by `Q`.
abbrev pub Follows : {E A : Type 0} → (E → Type 0) → (A → Type 0) → Outcome E A → Type 0
Follows P Q (ok a) = Q a
Follows P Q (err e) = P e
Follows P Q panic = Unit {0}
Follows P Q stuck = Unit {0}

module _ {E : Type 0} (P : E → Type 0) where
  pub bind-Follows :
      {A B : Type 0} (Q : A → Type 0) (Q' : B → Type 0) (first : Outcome E A)
      (next : A → Outcome E B)
      → Follows P Q first
      → ((a : A) → Q a → Follows P Q' (next a))
      → Follows P Q' (first >>= next)
  bind-Follows Q Q' (ok a) next f k = k a f
  bind-Follows Q Q' (err x) next f k = f
  bind-Follows Q Q' panic next f k = tt
  bind-Follows Q Q' stuck next f k = tt

  pub if-Follows :
      {A : Type 0} (Q : A → Type 0) (b : Bool) (x y : Outcome E A)
      → Follows P Q x
      → Follows P Q y
      → Follows P Q (if b then x else y)
  if-Follows Q true x y f g = f
  if-Follows Q false x y f g = g

  pub ok_or_panic-Follows : {A : Type 0} (o : Option A) → Follows P (λ a. Unit {0}) (ok_or_panic o)
  ok_or_panic-Follows none = tt
  ok_or_panic-Follows (some a) = tt

-- The writers that successful calls of `write_all` make out of `out`.
pub data Wrote {E W : Type 0} (writer : Write E W) (out : W) : W → Type 0 where
  nothing_yet : Wrote writer out out
  one_more :
      (bytes : Bytes) (w w' : W)
      → Wrote writer out w
      → writer.write_all bytes w ≡ written w'
      → Wrote writer out w'

-- Behind such calls another one fails.
abbrev pub Refused : {E W : Type 0} → Write E W → W → E → Type 0
Refused {W = W} writer out e =
    (bytes : Bytes) × (w : W) × Wrote writer out w × (writer.write_all bytes w ≡ failed e)

abbrev pub Is : {E W A : Type 0} → Write E W → W → (A → Type 0) → Outcome E A → Type 0
Is writer out Q m = Follows (Refused writer out) Q m

abbrev pub Second : {E W A : Type 0} → Write E W → W → A × W → Type 0
Second writer out r = Wrote writer out r.1

abbrev pub Whatever : {A : Type 0} → A → Type 0
Whatever a = Unit {0}

-- The calls of `write_all` follow each other, up to one that fails.
module _ {E W : Type 0} ⦃writer : Write E W⦄ (out : W) where
  pub write-Follows :
      (bytes : Bytes) (w : W)
      → Wrote writer out w
      → Is writer out (Wrote writer out) (write bytes w)
  unfolding write
  write-Follows bytes w g = called (writer.write_all bytes w) refl
    where
      called :
          (r : IoResult E W)
          → writer.write_all bytes w ≡ r
          → Is writer out (Wrote writer out) (from_io (λ x. x) r)
      called (written w') e = one_more bytes w w' g e
      called (failed x) e = (bytes, w, g, e)

  insert_command-Follows :
      (len : ℕ) (w : W)
      → Wrote writer out w
      → Is writer out (Wrote writer out) (insert_command len w)
  unfolding insert_command
  insert_command-Follows len w g =
      if-Follows (Refused writer out) (Wrote writer out) (len == 0) panic
        (write (insert_bytes len) w) tt (write-Follows (insert_bytes len) w g)

  copy_command-Follows :
      (offset len : ℕ) (w : W)
      → Wrote writer out w
      → Is writer out (Wrote writer out) (copy_command offset len w)
  unfolding copy_command write_varint
  copy_command-Follows offset len w g =
      bind-Follows (Refused writer out) (Wrote writer out) (Wrote writer out)
        (write (size_class_marker offset len ∷ []) w) _ (write-Follows _ w g)
        (λ w1 g1.
          bind-Follows (Refused writer out) (Wrote writer out) (Wrote writer out)
            (write (varint_bytes offset) w1) _ (write-Follows _ w1 g1)
            (λ w2 g2. write-Follows (varint_bytes len) w2 g2))

  emit_queued-Follows :
      (s : OutputState) (w : W)
      → Wrote writer out w
      → Is writer out (Second writer out) (emit_queued s w)
  unfolding emit_queued
  emit_queued-Follows s w g = elim (Option-cases s.queued_copy) [
    | inl nothing ↦ rw nothing g
    | inr ((offset, len), queued) ↦ rw queued (
        bind-Follows (Refused writer out) (Wrote writer out) (Second writer out)
          (copy_command offset len w) _ (copy_command-Follows offset len w g) (λ w1 g1. g1))
  ]

  emit_literal-Follows :
      (s : OutputState) (until : ℕ) (input : Bytes) (w : W)
      → Wrote writer out w
      → Is writer out (Second writer out) (emit_literal s until input w)
  unfolding emit_literal
  emit_literal-Follows s until input w g =
      if-Follows (Refused writer out) (Second writer out) (ltb s.emitted until) _ (ok (s, w))
        (bind-Follows (Refused writer out) Whatever (Second writer out)
          (ok_or_panic (slice input s.emitted until)) _ (ok_or_panic-Follows (Refused writer out) _)
          (λ part _.
            bind-Follows (Refused writer out) (Wrote writer out) (Second writer out)
              (insert_command (length part) w) _ (insert_command-Follows (length part) w g)
              (λ w1 g1.
                bind-Follows (Refused writer out) (Wrote writer out) (Second writer out)
                  (write part w1) _ (write-Follows part w1 g1) (λ w2 g2. g2))))
        g

  pub emit-Follows :
      (s : OutputState) (until : ℕ) (input : Bytes) (w : W)
      → Wrote writer out w
      → Is writer out (Second writer out) (emit s until input w)
  unfolding emit
  emit-Follows s until input w g =
      if-Follows (Refused writer out) (Second writer out) (s.emitted == until) (ok (s, w)) _ g (
        bind-Follows (Refused writer out) (Second writer out) (Second writer out) (emit_queued s w)
          _ (emit_queued-Follows s w g) (λ c gc. emit_literal-Follows c.0 until input c.1 gc))

  queue_copy-Follows :
      (s : OutputState) (offset len here : ℕ) (input : Bytes) (w : W)
      → Wrote writer out w
      → Is writer out (Second writer out) (queue_copy s offset len here input w)
  unfolding queue_copy
  queue_copy-Follows s offset len here input w g =
      bind-Follows (Refused writer out) (Second writer out) (Second writer out)
        (emit s here input w) _ (emit-Follows s here input w g) (λ c gc. gc)

  pub copy-Follows :
      (emitted : ℕ) (queued : Option (ℕ × ℕ)) (offset len here : ℕ) (input : Bytes) (w : W)
      → Wrote writer out w
      → Is writer out
          (Second writer out)
          (copy (record { emitted = emitted; queued_copy = queued }) offset len here input w)
  unfolding copy
  copy-Follows emitted none offset len here input w g =
      queue_copy-Follows _ offset len here input w g
  copy-Follows emitted (some (o, l)) offset len here input w g =
      if-Follows (Refused writer out) (Second writer out) (emitted + l == here && o + l == offset) _
        _ g (queue_copy-Follows _ offset len here input w g)
