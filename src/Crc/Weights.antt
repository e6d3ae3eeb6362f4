-- ===== src/Crc/Weights.antt =====
-- The sums of bytes that the checksum of src/crc.rs is made of.
use fast_rsync.Base.{
  ℕ, suc, zero, ◌+◌, ◌*◌, ◌≡◌, refl, ap, arith, [], ◌∷◌, ◌++◌, Bytes, length, length-append,
}
use fast_rsync.Crc.{crc_magic}

-- The sum of the bytes, and the sum with each byte weighted by its distance from the end.
abbrev pub raw_sum : Bytes → ℕ
raw_sum [] = 0
raw_sum (b ∷ bs) = b + raw_sum bs

abbrev pub raw_weighted : Bytes → ℕ
raw_weighted [] = 0
raw_weighted (b ∷ bs) = b * length (b ∷ bs) + raw_weighted bs

-- The same of the bytes raised by the magic number.
abbrev pub sum : Bytes → ℕ
sum [] = 0
sum (b ∷ bs) = b + crc_magic + sum bs

abbrev pub weighted : Bytes → ℕ
weighted [] = 0
weighted (b ∷ bs) = (b + crc_magic) * length (b ∷ bs) + weighted bs

abbrev pub triangle : ℕ → ℕ
triangle zero = 0
triangle (suc n) = suc n + triangle n

pub triangle_closed : (n : ℕ) → n * (n + 1) ≡ 2 * triangle n
triangle_closed zero = refl
triangle_closed (suc n) = omega (arith, triangle_closed n)

pub sum_split : (bs : Bytes) → sum bs ≡ raw_sum bs + length bs * crc_magic
sum_split [] = refl
sum_split (b ∷ bs) = omega (arith, sum_split bs)

pub weighted_split : (bs : Bytes) → weighted bs ≡ raw_weighted bs + triangle (length bs) * crc_magic
weighted_split [] = refl
weighted_split (b ∷ bs) = omega (arith, weighted_split bs)

-- One more byte at the end.
pub sum-snoc : (bs : Bytes) (x : ℕ) → sum (bs ++ (x ∷ [])) ≡ sum bs + (x + crc_magic)
sum-snoc [] x = omega arith
sum-snoc (b ∷ bs) x = omega (arith, sum-snoc bs x)

pub weighted-snoc :
    (bs : Bytes) (x : ℕ) → weighted (bs ++ (x ∷ [])) ≡ weighted bs + sum bs + (x + crc_magic)
weighted-snoc [] x = omega arith
weighted-snoc (b ∷ bs) x =
    omega (
      arith,
      weighted-snoc bs x,
      ap (λ (t : ℕ). (b + crc_magic) * suc t) (length-append bs (x ∷ [])),
    )

pub sum-append : (front bs : Bytes) → sum (front ++ bs) ≡ sum front + sum bs
sum-append [] bs = omega arith
sum-append (a ∷ front) bs = omega (arith, sum-append front bs)

pub weighted-append :
    (front bs : Bytes)
    → weighted (front ++ bs) ≡ weighted front + sum front * length bs + weighted bs
weighted-append [] bs = omega arith
weighted-append (a ∷ front) bs = omega (
  arith,
  weighted-append front bs,
  ap (λ (t : ℕ). (a + crc_magic) * suc t) (length-append front bs),
)
