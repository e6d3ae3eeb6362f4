-- ===== src/Tests/Targets.antt =====
-- A run of the fuzz target of fuzz/src/bin/fuzz.rs.
use fast_rsync.Base.{
  ℕ, zero, suc, ◌≤◌, ◌≡◌, arith, true, false, inl, inr, [], ◌∷◌, ◌++◌, Bytes, length, Outcome, ok,
  err, panic, stuck,
}
use fast_rsync.Delta.Apply.{magic_bytes}
use fast_rsync.Delta.Grammar.Parses.{apply_limited-IsCommands}
use fast_rsync.Delta.Grammar.Runs.{IsMagic-apply_limited}
use fast_rsync.Delta.Vec.{vec_write}
use fast_rsync.Fuzz.{Librsync, Patched, max_len, fuzz}
use fast_rsync.Fuzz.Agrees.{fuzz-ok}
use fast_rsync.Fuzz.Format.{IsDelta, FollowsFormat}
use fast_rsync.Patch.{ApplyError, apply_limited}
use fast_rsync.Patch.Ends.{apply_limited-IsEnd}

-- A librsync that reads the format as `apply_limited` does.
abbrev patched_by : Outcome (ApplyError ⊥) Bytes → Bytes → Patched
patched_by (ok out) delta = record { is_ok = true; rest = []; output = out }
patched_by (err e) delta = record { is_ok = false; rest = delta; output = [] }
patched_by panic delta = record { is_ok = false; rest = delta; output = [] }
patched_by stuck delta = record { is_ok = false; rest = delta; output = [] }

abbrev twin : Librsync
twin base delta room = patched_by (apply_limited {E = ⊥} {W = Bytes} base delta [] room) delta

twin-accepts :
    (base delta made : Bytes) (room : ℕ)
    → IsDelta base delta made
    → length made ≤ room
    → twin base delta room ≡ record { is_ok = true; rest = []; output = made }
twin-accepts base delta made room d fits =
    rw (d.whole, IsMagic-apply_limited base d.magic d.body made [] room d.is_magic d.commands fits)

twin-refuses :
    (base delta : Bytes) (room : ℕ)
    → (twin base delta room).is_ok ≡ true
    → (made : Bytes) × (IsDelta base delta made) × (length made ≤ room)
twin-refuses base delta room good =
    elim (apply_limited-IsEnd {E = ⊥} {W = Bytes} base delta [] room) [
      | inr (x, e) ↦ let good' = rw e at good in cc
      | inl (out, e) ↦
          let (magic, body, made, whole, four, is_delta, commands, is_out, fits) =
            apply_limited-IsCommands base delta [] room out e in
          (
            made,
            record {
              magic = magic;
              body = body;
              whole = whole;
              is_magic = record { four = four; is_delta = is_delta };
              commands = commands;
            },
            fits,
          )
    ]

twin-FollowsFormat : FollowsFormat twin
twin-FollowsFormat = record {
  accepts = λ base delta made room small d fits. twin-accepts base delta made room d fits;
  refuses = λ base delta room good all. inl (twin-refuses base delta room good);
}

unfoldable zeros : ℕ → Bytes
zeros zero = []
zeros (suc n) = 0 ∷ zeros n

length-zeros : (n : ℕ) → n ≤ length (zeros n)
unfolding zeros
length-zeros zero = omega arith
length-zeros (suc n) = omega (arith, length-zeros n)

-- Two bytes of base data, and a delta of a literal of one byte.
abbrev fuzzed : Bytes
fuzzed = 0 ∷ 0 ∷ 0 ∷ 2 ∷ (magic_bytes ++ (1 ∷ 7 ∷ 0 ∷ []))

fuzz-ok_example : fuzz twin (zeros max_len) fuzzed ≡ ok tt
fuzz-ok_example =
    fuzz-ok twin (zeros max_len) fuzzed twin-FollowsFormat (length-zeros max_len) (omega arith)
