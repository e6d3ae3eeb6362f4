-- ===== src/Diff/Returns.antt =====
-- A run of `diff` of src/diff.rs that returns: its calls have succeeded.
use fast_rsync.Base.{
  suc, if◌then◌else◌, ◌≡◌, ap, Bytes, length, Bool-cases, inl, inr, ltb, Outcome, ok, err, panic,
  stuck, Write, IoResult, written, failed, from_io, map_err,
}
use fast_rsync.Delta.Vec.{vec_write}
use fast_rsync.Diff.{invalid_signature, diff_rounds, diff_fuel, diff}
use fast_rsync.Md4.{md4_size}
use fast_rsync.Patch.Prefix.{ok-injective}
use fast_rsync.Signature.{SignatureType}
use fast_rsync.Signature.Index.{IndexedSignature}

pub from_io-written :
    {E W F : Type 0} (f : E → F) (r : IoResult E W) (w : W) → from_io f r ≡ ok w → r ≡ written w
from_io-written f (written w') w e = ap written (ok-injective _ _ e)
from_io-written f (failed x) w e = cc

pub map_err-ok :
    {E F A : Type 0} (f : E → F) (m : Outcome E A) (a : A) → map_err f m ≡ ok a → m ≡ ok a
map_err-ok f (ok b) a e = ap ok (ok-injective _ _ e)
map_err-ok f (err x) a e = cc
map_err-ok f panic a e = cc
map_err-ok f stuck a e = cc

-- Where `diff` returns, the checks of the signature have passed.
module _ {E W : Type 0} ⦃writer : Write E W⦄ (sig : IndexedSignature) (input : Bytes)
    (w w' : W) where
  by_type :
      (t : SignatureType)
      → elim t [
        | SignatureType.md4 ↦
            if ltb md4_size sig.crypto_hash_size
            then err invalid_signature
            else diff_rounds {E = E} (suc (length input)) sig input w
        | SignatureType.blake2 ↦ err invalid_signature
      ]
        ≡ ok w'
      → diff_rounds {E = E} (suc (length input)) sig input w ≡ ok w'
  by_type SignatureType.blake2 e = cc
  by_type SignatureType.md4 e = elim (Bool-cases (ltb md4_size sig.crypto_hash_size)) [
    | inl t ↦ let e' = rw t at e in cc
    | inr f ↦ rw f at e
  ]

  pub diff-diff_rounds :
      diff {E = E} sig input w ≡ ok w'
      → diff_rounds {E = E} (suc (length input)) sig input w ≡ ok w'
  unfolding diff diff_fuel
  diff-diff_rounds e = by_type sig.signature_type e
