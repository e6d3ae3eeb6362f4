-- ===== src/Delta/Grammar/Written.antt =====
-- What src/diff.rs writes is a delta of the format.
use fast_rsync.Base.{◌^◌, ◌<◌, ◌≡◌, ap, ◌∙◌, arith, [], ◌++◌, Bytes, length, ok}
use fast_rsync.Base.Words.{from_be_bytes}
use fast_rsync.Consts.{delta_magic}
use fast_rsync.Delta.Grammar.{IsCommands}
use fast_rsync.Delta.Grammar.Parses.{apply_limited-IsCommands}
use fast_rsync.Delta.Rebuild.{IsTrusted}
use fast_rsync.Delta.RoundTrip.{IsUsable, diff-apply}
use fast_rsync.Delta.Vec.{vec_write}
use fast_rsync.Diff.{diff}
use fast_rsync.Signature.Index.{IndexedSignature}

-- `diff` on a usable signature whose named blocks are right succeeds, and what it writes behind what its
-- writer holds is a delta of the format, the magic number and commands that stand for the data.
pub diff-IsCommands :
    (base input : Bytes) (sig : IndexedSignature)
    → length base < 2 ^ 64
    → length input < 2 ^ 64
    → IsUsable sig
    → IsTrusted base input sig
    → (written : Bytes)
    → (magic : Bytes) × (body : Bytes) × (diff {E = ⊥} sig input written
        ≡ ok (written ++ (magic ++ body)))
      × (length magic ≡ 4)
      × (from_be_bytes magic ≡ delta_magic)
      × IsCommands base body input
diff-IsCommands base input sig base_fits fits usable trusted written =
    let (delta, made, applied) =
      diff-apply base input sig base_fits fits usable trusted written [] (length input)
        (omega arith) in
    let (magic, body, out, split, size, is_magic, commands, same, room) =
      apply_limited-IsCommands base delta [] (length input) input applied in
    (
      magic,
      body,
      made ∙ ap (λ (t : Bytes). ok (written ++ t)) split,
      size,
      is_magic,
      rw same commands,
    )
