-- ===== src/Hasher/Laws.antt =====
-- The hash of src/hasher.rs tells all checksums apart.
use fast_rsync.Base.{ℕ, ◌^◌, ◌<◌, ◌≡◌, sym, ap, ◌∙◌, ◌⊎◌, inl, inr, arith}
use fast_rsync.Base.Words.{wrapping_mul}
use fast_rsync.Base.Xor.{xor_shift, xor_shift-injective, xor_shift-lt}
use fast_rsync.Crc.{Crc}
use fast_rsync.Hasher.{write_u32, finish_64, finish_32, hash, hash_one}
use fast_rsync.Patch.Prefix.{ok-injective}

-- Multiplication by a factor that another one takes back.
factor-injective :
    (w c c' x y : ℕ)
    → wrapping_mul w (wrapping_mul w x c) c' ≡ x
    → wrapping_mul w (wrapping_mul w y c) c' ≡ y
    → wrapping_mul w x c ≡ wrapping_mul w y c
    → x ≡ y
factor-injective w c c' x y back back' e = sym back ∙ ap (λ (t : ℕ). wrapping_mul w t c') e ∙ back'

first_back_64 :
    (x : ℕ)
    → x < 2 ^ 64
    → wrapping_mul 64 (wrapping_mul 64 x 0xC2B2AE3D27D4EB4F) 0x0BA79078168D4BAF ≡ x
first_back_64 x h = omega arith

second_back_64 :
    (x : ℕ)
    → x < 2 ^ 64
    → wrapping_mul 64 (wrapping_mul 64 x 0x165667B19E3779F9) 0xE9E9F4C41D6DF849 ≡ x
second_back_64 x h = omega arith

first_back_32 : (x : ℕ) → x < 2 ^ 32 → wrapping_mul 32 (wrapping_mul 32 x 0x85EBCA77) 0xB6C92F47 ≡ x
first_back_32 x h = omega arith

second_back_32 :
    (x : ℕ) → x < 2 ^ 32 → wrapping_mul 32 (wrapping_mul 32 x 0xC2B2AE3D) 0xA89ED915 ≡ x
second_back_32 x h = omega arith

finish_64-injective :
    (x y : ℕ)
    → x < 2 ^ 32
    → y < 2 ^ 32
    → finish_64 (record { state = x }) ≡ finish_64 (record { state = y })
    → x ≡ y
unfolding finish_64
finish_64-injective x y h h' e =
    let x0 = xor_shift 33 x in
    let y0 = xor_shift 33 y in
    let x1 = wrapping_mul 64 x0 0xC2B2AE3D27D4EB4F in
    let y1 = wrapping_mul 64 y0 0xC2B2AE3D27D4EB4F in
    let x2 = xor_shift 29 x1 in
    let y2 = xor_shift 29 y1 in
    let e2 : wrapping_mul 64 x2 0x165667B19E3779F9 ≡ wrapping_mul 64 y2 0x165667B19E3779F9 =
      xor_shift-injective 31 64 (wrapping_mul 64 x2 0x165667B19E3779F9)
        (wrapping_mul 64 y2 0x165667B19E3779F9) (omega arith) (omega arith) e in
    let e1 : x2 ≡ y2 =
      factor-injective 64 0x165667B19E3779F9 0xE9E9F4C41D6DF849 x2 y2
        (second_back_64 x2 (xor_shift-lt 29 64 x1 (omega arith)))
        (second_back_64 y2 (xor_shift-lt 29 64 y1 (omega arith))) e2 in
    let e0 : x0 ≡ y0 =
      factor-injective 64 0xC2B2AE3D27D4EB4F 0x0BA79078168D4BAF x0 y0
        (first_back_64 x0 (xor_shift-lt 33 64 x (omega arith)))
        (first_back_64 y0 (xor_shift-lt 33 64 y (omega arith)))
        (xor_shift-injective 28 64 x1 y1 (omega arith) (omega arith) e1) in
    xor_shift-injective 32 64 x y (omega arith) (omega arith) e0

finish_32-injective :
    (x y : ℕ)
    → x < 2 ^ 32
    → y < 2 ^ 32
    → finish_32 (record { state = x }) ≡ finish_32 (record { state = y })
    → x ≡ y
unfolding finish_32
finish_32-injective x y h h' e =
    let x0 = xor_shift 15 x in
    let y0 = xor_shift 15 y in
    let x1 = wrapping_mul 32 x0 0x85EBCA77 in
    let y1 = wrapping_mul 32 y0 0x85EBCA77 in
    let x2 = xor_shift 13 x1 in
    let y2 = xor_shift 13 y1 in
    let e2 : wrapping_mul 32 x2 0xC2B2AE3D ≡ wrapping_mul 32 y2 0xC2B2AE3D =
      xor_shift-injective 15 32 (wrapping_mul 32 x2 0xC2B2AE3D) (wrapping_mul 32 y2 0xC2B2AE3D)
        (omega arith) (omega arith) e in
    let e1 : x2 ≡ y2 =
      factor-injective 32 0xC2B2AE3D 0xA89ED915 x2 y2
        (second_back_32 x2 (xor_shift-lt 13 32 x1 (omega arith)))
        (second_back_32 y2 (xor_shift-lt 13 32 y1 (omega arith))) e2 in
    let e0 : x0 ≡ y0 =
      factor-injective 32 0x85EBCA77 0xB6C92F47 x0 y0 (first_back_32 x0 (xor_shift-lt 15 32 x h))
        (first_back_32 y0 (xor_shift-lt 15 32 y h'))
        (xor_shift-injective 12 32 x1 y1 (omega arith) (omega arith) e1) in
    xor_shift-injective 14 32 x y h h' e0

-- Two checksums that have one hash, with the `finish` of a 64-bit target or with that of a 32-bit
-- one, are one checksum.
pub hash_one-injective :
    (a b : Crc)
    → a.value < 2 ^ 32
    → b.value < 2 ^ 32
    → (hash_one finish_64 a ≡ hash_one finish_64 b) ⊎ (hash_one finish_32 a ≡ hash_one finish_32 b)
    → a ≡ b
unfolding hash_one hash write_u32
hash_one-injective a b h h' (inl e) =
    ap (λ (n : ℕ). record { value = n })
      (finish_64-injective a.value b.value h h' (ok-injective _ _ e))
hash_one-injective a b h h' (inr e) =
    ap (λ (n : ℕ). record { value = n })
      (finish_32-injective a.value b.value h h' (ok-injective _ _ e))
