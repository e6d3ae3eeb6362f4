-- ===== src/Delta/RoundTrip.antt =====
-- `diff` of src/diff.rs and then `apply` of src/patch.rs.
use fast_rsync.Base.{
  ℕ, suc, ◌^◌, ◌≤◌, ◌<◌, ◌≡◌, ap, arith, [], ◌∷◌, ◌++◌, append_assoc, append-nil, Bytes, length,
  take_all, ok, none, false, ltb,
}
use fast_rsync.Base.Words.{to_be_bytes}
use fast_rsync.Consts.{delta_magic, rs_op_end}
use fast_rsync.Delta.Apply.{magic_bytes, magic_bytes-IsMagic, magic_lem, apply_limited-Decodes}
use fast_rsync.Delta.Decodes.{Decodes-nil}
use fast_rsync.Delta.Rebuild.{IsTrusted, diff_loop-Good}
use fast_rsync.Delta.Vec.{vec_write}
use fast_rsync.Delta.Writes.{emit-IsWritten, Covers}
use fast_rsync.Diff.{Scan, diff_rounds, diff_fuel, diff}
use fast_rsync.Patch.{apply_limited}
use fast_rsync.Signature.{SignatureType}
use fast_rsync.Signature.Index.{IndexedSignature}

-- What `diff` accepts and ends on.
pub record IsUsable (sig : IndexedSignature) : Type 0 where
  pub is_md4 : sig.signature_type ≡ SignatureType.md4
  pub hash_fits : sig.crypto_hash_size ≤ 16
  pub not_empty : 1 ≤ sig.block_size

-- `delta` stands for `input` over `base`: `apply_limited` makes just that of it, within the limit.
abbrev pub IsDelta : Bytes → Bytes → Bytes → Type 0
IsDelta base input delta =
    (out : Bytes) (limit : ℕ)
    → length input ≤ limit
    → apply_limited {E = ⊥} base delta out limit ≡ ok (out ++ input)

module _ (base input : Bytes) (sig : IndexedSignature) (base_fits : length base < 2 ^ 64)
    (fits : length input < 2 ^ 64) (usable : IsUsable sig)
    (trusted : IsTrusted base input sig) where
  diff_rounds-IsDelta :
      (fuel : ℕ) (out : Bytes)
      → length input < fuel
      → (delta : Bytes) × (diff_rounds {E = ⊥} fuel sig input out ≡ ok (out ++ delta))
        × IsDelta base input delta
  unfolding diff_rounds
  diff_rounds-IsDelta fuel out enough =
      let pre = out ++ magic_bytes in
      let start : Scan Bytes = record {
        here = 0;
        collisions = [];
        state = record { emitted = 0; queued_copy = none };
        out = out ++ to_be_bytes 4 delta_magic;
      } in
      let good : Covers pre base input base_fits fits 0 start.state start.out = record {
        inside = omega arith;
        queued = omega arith;
        written = record {
          enc = [];
          shape = rw (magic_lem, append-nil);
          decodes = Decodes-nil base;
        };
      } in
      let (s, looped, g) =
        diff_loop-Good base input sig base_fits fits usable.not_empty usable.hash_fits trusted pre
          fuel start (omega arith) good in
      let (out', emitted, w) =
        emit-IsWritten pre base input base_fits fits s.here s.state.emitted (length input)
          s.state.queued_copy s.out g.inside (omega arith) g.queued g.written in
      (
        magic_bytes ++ (w.enc ++ (rs_op_end ∷ [])),
        rw (looped, emitted) (ap ok (rw (w.shape, append_assoc, append_assoc))),
        λ out limit room.
            apply_limited-Decodes base magic_bytes w.enc input out limit magic_bytes-IsMagic
              (rw (take_all (length input) input (omega arith)) at w.decodes) room,
      )

  -- The same for any limit.
  pub diff-IsDelta :
      (out : Bytes)
      → (delta : Bytes) × (diff {E = ⊥} sig input out ≡ ok (out ++ delta))
        × IsDelta base input delta
  unfolding diff diff_fuel
  diff-IsDelta out =
      let (delta, e, d) = diff_rounds-IsDelta (suc (length input)) out (omega arith) in
      (delta, rw (usable.is_md4, diff_fuel, in_range) e, d)
    where
      in_range : ltb 16 sig.crypto_hash_size ≡ false
      in_range = let h : sig.crypto_hash_size ≤ 16 = usable.hash_fits in ground arith

  -- `diff` on a usable signature whose named blocks are right, and `apply_limited` of the delta to the
  -- base within a limit that is not below the length of the data: both succeed, `diff` writes the
  -- delta behind what its writer holds, and `apply_limited` writes the data behind what its own holds.
  -- (A signature is usable if it is an MD4 signature, keeps 16 bytes of a digest at most and has
  -- blocks that are not empty; a block is named for a window of the data that has its checksum and its
  -- kept digest, and it is right if it is that window. Lengths are below 2 ^ 64.)
  pub diff-apply :
      (written result : Bytes) (limit : ℕ)
      → length input ≤ limit
      → (delta : Bytes) × (diff {E = ⊥} sig input written ≡ ok (written ++ delta))
        × (apply_limited {E = ⊥} base delta result limit ≡ ok (result ++ input))
  diff-apply written result limit room =
      let (delta, made, d) = diff-IsDelta written in (delta, made, d result limit room)
