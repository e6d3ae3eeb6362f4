-- ===== src/Signature/Format.antt =====
-- The format of a signature that `Signature::deserialize` of src/signature.rs reads: a header of a magic
-- number and two sizes, and whole rows.
use fast_rsync.Base.{
  ℕ, ◌+◌, ◌-◌, ◌*◌, ◌/◌, ◌%◌, ◌^◌, ◌≤◌, ◌<◌, ◌≡◌, refl, sym, ap, ◌∙◌, arith, Option, none, some, [],
  ◌∷◌, ◌++◌, Bytes, length, length-take, length-drop, take, drop, take-append-drop, drop-drop, All,
  All-take, All-drop, IsByte, Bool-cases, inl, inr, ltb, ◌==◌, false, ok, ok_or, bind-ok,
}
use fast_rsync.Base.Words.{to_be_bytes, from_be_bytes, from_be, from_be_bytes-to_be_bytes_4}
use fast_rsync.Consts.{md4_magic, blake2_magic}
use fast_rsync.Signature.{
  Signature, SignatureType, SignatureParseError, invalid, deserialize, serialized, from_magic,
  to_magic,
}
use mathlib.Core.Option.{some-injective}
use fast_rsync.Patch.Prefix.{ok-injective}

-- The bytes of a signature with these sizes and rows.
abbrev pub signature_bytes : SignatureType → ℕ → ℕ → Bytes → Bytes
signature_bytes kind block_size crypto_hash_size rows =
    to_magic kind ++ (to_be_bytes 4 block_size ++ (to_be_bytes 4 crypto_hash_size ++ rows))

to_be_bytes-from_be_bytes_4 :
    (b : Bytes) → length b ≡ 4 → All IsByte b → to_be_bytes 4 (from_be_bytes b) ≡ b
unfolding to_be_bytes from_be_bytes from_be
to_be_bytes-from_be_bytes_4 [] e all = absurd (omega arith)
to_be_bytes-from_be_bytes_4 (a ∷ []) e all = absurd (omega arith)
to_be_bytes-from_be_bytes_4 (a ∷ b ∷ []) e all = absurd (omega arith)
to_be_bytes-from_be_bytes_4 (a ∷ b ∷ c ∷ []) e all = absurd (omega arith)
to_be_bytes-from_be_bytes_4 (a ∷ b ∷ c ∷ d ∷ []) e (ha, (hb, (hc, (hd, _)))) =
    let n = from_be_bytes (a ∷ b ∷ c ∷ d ∷ []) in
    let is_n : n ≡ ((a * 256 + b) * 256 + c) * 256 + d = omega arith in
    let ea : n / 256 ^ 3 % 256 ≡ a = omega (arith, is_n) in
    let eb : n / 256 ^ 2 % 256 ≡ b = omega (arith, is_n) in
    let ec : n / 256 ^ 1 % 256 ≡ c = omega (arith, is_n) in
    let ed : n / 256 ^ 0 % 256 ≡ d = omega (arith, is_n) in four ea eb ec ed
  where
    four :
        {x y z w x' y' z' w' : ℕ}
        → x ≡ x'
        → y ≡ y'
        → z ≡ z'
        → w ≡ w'
        → ◌≡◌ {A = Bytes} (x ∷ y ∷ z ∷ w ∷ []) (x' ∷ y' ∷ z' ∷ w' ∷ [])
    four e1 e2 e3 e4 = rw (e1, e2, e3, e4)
to_be_bytes-from_be_bytes_4 (a ∷ b ∷ c ∷ d ∷ x ∷ rest) e all = absurd (omega arith)

from_magic-some :
    (b : Bytes) (kind : SignatureType)
    → length b ≡ 4
    → All IsByte b
    → from_magic b ≡ some kind
    → b ≡ to_magic kind
unfolding from_magic to_magic
from_magic-some b kind size all e =
    let back = to_be_bytes-from_be_bytes_4 b size all in
    elim (Bool-cases (from_be_bytes b == blake2_magic)) [
      | inl t ↦
          let is_magic : from_be_bytes b ≡ blake2_magic = ground arith in
          let is_kind : SignatureType.blake2 ≡ kind = some-injective _ _ (rw t at e) in
          sym back ∙ ap (to_be_bytes 4) is_magic ∙ ap to_magic is_kind
      | inr f ↦ elim (Bool-cases (from_be_bytes b == md4_magic)) [
        | inl t ↦
            let is_magic : from_be_bytes b ≡ md4_magic = ground arith in
            let is_kind : SignatureType.md4 ≡ kind = some-injective _ _ (rw (f, t) at e) in
            sym back ∙ ap (to_be_bytes 4) is_magic ∙ ap to_magic is_kind
        | inr f' ↦ let e' = rw (f, f') at e in cc
      ]
    ]

-- A piece of four bytes, and what is behind it.
four-split :
    (bytes : Bytes) (from next : ℕ)
    → from + 4 ≡ next
    → drop from bytes ≡ take 4 (drop from bytes) ++ drop next bytes
four-split bytes from next e =
    sym (take-append-drop 4 (drop from bytes))
    ∙ ap (λ (t : Bytes). take 4 (drop from bytes) ++ t) (drop-drop from 4 next bytes e)

four_bytes :
    (bytes : Bytes) (from : ℕ) → from + 4 ≤ length bytes → length (take 4 (drop from bytes)) ≡ 4
four_bytes bytes from h = omega (arith, length-take 4 (drop from bytes), length-drop from bytes)

ok_or-ok :
    {A : Type 0} (o : Option A) (x : SignatureParseError) (a : A) → ok_or o x ≡ ok a → o ≡ some a
ok_or-ok none x a e = cc
ok_or-ok (some b) x a e = let same : b ≡ a = cc in ap some same

-- What `deserialize` makes of bytes that it accepts, serialized, is these bytes, and they are the
-- magic number of its type, its two sizes in four bytes each, the highest byte first, and rows of
-- one size, which is four more than the size of a digest.
pub deserialize-serialized :
    (bytes : Bytes) (s : Signature)
    → All IsByte bytes
    → deserialize bytes ≡ ok s
    → (rows : Bytes) × (serialized s ≡ bytes)
      × (bytes ≡ signature_bytes s.signature_type s.block_size s.crypto_hash_size rows)
      × (length rows % (4 + s.crypto_hash_size) ≡ 0)
unfolding deserialize serialized
deserialize-serialized bytes s all e = elim (Bool-cases (ltb (length bytes) 12)) [
  | inl t ↦ let e' = rw t at e in cc
  | inr f ↦
      let long : 12 ≤ length bytes = ground arith in
      let (kind, next, first) =
        bind-ok s _ (ok_or (from_magic (take 4 bytes)) invalid) (rw f at e) in
      let size = from_be_bytes (take 4 (drop 8 bytes)) in
      let block_size = from_be_bytes (take 4 (drop 4 bytes)) in
      elim (Bool-cases ((length bytes - 12) % (4 + size) == 0)) [
        | inr f' ↦ let e' = rw f' at next in cc
        | inl t ↦
            let made : Signature = record {
              signature_type = kind;
              block_size = block_size;
              crypto_hash_size = size;
              signature = bytes;
            } in
            let same : made ≡ s = ok-injective _ _ (rw t at next) in
            let whole : (length bytes - 12) % (4 + size) ≡ 0 = ground arith in
            let magic =
              from_magic-some (take 4 bytes) kind (four_bytes bytes 0 (omega arith))
                (All-take IsByte 4 bytes all)
                (ok_or-ok (from_magic (take 4 bytes)) invalid kind first) in
            let field = λ (from : ℕ) (h : from + 4 ≤ length bytes).
              to_be_bytes-from_be_bytes_4 (take 4 (drop from bytes)) (four_bytes bytes from h)
                (All-take IsByte 4 (drop from bytes) (All-drop IsByte from bytes all)) in
            let shape : bytes ≡ signature_bytes kind block_size size (drop 12 bytes) =
              four-split bytes 0 4 refl
              ∙ ap (λ (t : Bytes). take 4 bytes ++ t)
                  (four-split bytes 4 8 refl
                    ∙ ap (λ (t : Bytes). take 4 (drop 4 bytes) ++ t) (four-split bytes 8 12 refl))
              ∙ rw (magic, field 4 (omega arith), field 8 (omega arith)) in
            rw (← same) (drop 12 bytes, refl, shape, rw (length-drop 12 bytes) whole)
      ]
]

-- The fields stand at their places, whatever follows.
fields :
    (kind : SignatureType) (block_size crypto_hash_size : ℕ) (rows : Bytes)
    → block_size < 2 ^ 32
    → crypto_hash_size < 2 ^ 32
    → let bytes = signature_bytes kind block_size crypto_hash_size rows in
      (from_magic (take 4 bytes) ≡ some kind)
      × (from_be_bytes (take 4 (drop 4 bytes)) ≡ block_size)
      × (from_be_bytes (take 4 (drop 8 bytes)) ≡ crypto_hash_size)
      × (length bytes ≡ 12 + length rows)
unfolding to_magic from_magic
fields SignatureType.md4 b c rows small small' = (
  unfold to_be_bytes from_be_bytes from_be in refl,
  unfold to_be_bytes in from_be_bytes-to_be_bytes_4 b small,
  unfold to_be_bytes in from_be_bytes-to_be_bytes_4 c small',
  unfold to_be_bytes in omega arith,
)
fields SignatureType.blake2 b c rows small small' = (
  unfold to_be_bytes from_be_bytes from_be in refl,
  unfold to_be_bytes in from_be_bytes-to_be_bytes_4 b small,
  unfold to_be_bytes in from_be_bytes-to_be_bytes_4 c small',
  unfold to_be_bytes in omega arith,
)

-- Bytes of that format, with sizes of 32 bits, are accepted by `deserialize`, and its fields are
-- what they were made of.
pub signature_bytes-deserialize :
    (kind : SignatureType) (block_size crypto_hash_size : ℕ) (rows : Bytes)
    → block_size < 2 ^ 32
    → crypto_hash_size < 2 ^ 32
    → length rows % (4 + crypto_hash_size) ≡ 0
    → let bytes = signature_bytes kind block_size crypto_hash_size rows in
      deserialize bytes
      ≡ ok (record {
        signature_type = kind;
        block_size = block_size;
        crypto_hash_size = crypto_hash_size;
        signature = bytes;
      })
unfolding deserialize
signature_bytes-deserialize kind block_size crypto_hash_size rows small small' whole =
    let bytes = signature_bytes kind block_size crypto_hash_size rows in
    let (magic, is_block_size, is_hash_size, len) =
      fields kind block_size crypto_hash_size rows small small' in
    let long : ltb (length bytes) 12 ≡ false = ground arith in
    let rest : length bytes - 12 ≡ length rows = omega arith in
    let whole' : (length bytes - 12) % (4 + crypto_hash_size) ≡ 0 = rw rest whole in
    rw (long, magic, is_block_size, is_hash_size, whole')
