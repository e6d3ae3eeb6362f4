-- ===== src/Delta/Commands.antt =====
-- A command that src/diff.rs writes is read back by src/patch.rs.
use fast_rsync.Base.{
  ℕ, zero, suc, false, ltb, ◌+◌, ◌-◌, ◌^◌, ◌≤◌, ◌<◌, ◌≡◌, ap, arith, inl, inr, Bool-cases, [], ◌∷◌,
  ◌++◌, Bytes, length, length-append, take-append, drop-append, leb, ok,
}
use fast_rsync.Base.Words.{
  u8, u16, u32, to_be_bytes, from_be_bytes, length-to_be_bytes, from_be_bytes-zeros,
  from_be_bytes-to_be_bytes_1, from_be_bytes-to_be_bytes_2, from_be_bytes-to_be_bytes_4,
  from_be_bytes-to_be_bytes_8,
}
use fast_rsync.Patch.{split_at, sub_usize, read_n, read_varint, literal_length, safe_cast}
use fast_rsync.Diff.Command.{u64_size_class, insert_bytes, varint_bytes}
use Prim.Native.String.{String}

-- A read takes the bytes that were put in front.
pub read_n-append :
    {E : Type 0} (n : ℕ) (what : String) (xs tail : Bytes)
    → length xs ≡ n
    → read_n {E = E} n what (xs ++ tail) ≡ ok (xs, tail)
unfolding read_n split_at
read_n-append n what xs tail h =
    rw (take-append n xs tail h, drop-append n xs tail h) (ground (arith, length-append xs tail))

-- A number of `k` bytes is read back, if it fits.
pub read_varint-to_be_bytes :
    {E : Type 0} (k n : ℕ) (what : String) (tail : Bytes)
    → k ≤ 8
    → from_be_bytes (to_be_bytes k n) ≡ n
    → read_varint {E = E} k what (to_be_bytes k n ++ tail) ≡ ok (n, tail)
unfolding read_varint sub_usize
read_varint-to_be_bytes k n what tail small h =
    let few : ltb 8 k ≡ false = ground arith in
    rw (few, read_n-append k what (to_be_bytes k n) tail (length-to_be_bytes k n))
      (ground (arith, from_be_bytes-zeros (8 - k) (to_be_bytes k n)))

abbrev prepend : ℕ → Bytes → Bytes
prepend b bs = b ∷ bs

one_byte : (n : ℕ) → n < 2 ^ 8 → ◌≡◌ {A = Bytes} (u8 n ∷ []) (to_be_bytes 1 n)
unfolding to_be_bytes
one_byte n h = ap (λ (t : ℕ). prepend t []) (omega arith)

-- Casts that lose nothing.
cast_16 : (n : ℕ) → n < 2 ^ 16 → to_be_bytes 2 (u16 n) ≡ to_be_bytes 2 n
cast_16 n h = ap (to_be_bytes 2) (omega arith)

cast_32 : (n : ℕ) → n < 2 ^ 32 → to_be_bytes 4 (u32 n) ≡ to_be_bytes 4 n
cast_32 n h = ap (to_be_bytes 4) (omega arith)

-- Which bytes a number is written in: as many as its size class says, and it fits them.
pub varint_class :
    (n : ℕ)
    → n < 2 ^ 64
    → (c : ℕ) × (c ≤ 3)
      × (u64_size_class n ≡ c)
      × (varint_bytes n ≡ to_be_bytes (2 ^ c) n)
      × (from_be_bytes (to_be_bytes (2 ^ c) n) ≡ n)
unfolding u64_size_class varint_bytes
varint_class n h = elim (Bool-cases (leb n (2 ^ 8 - 1))) [
  | inl e ↦
      let b : n < 2 ^ 8 = ground arith in
      (0, omega arith, rw e, rw e (one_byte n b), from_be_bytes-to_be_bytes_1 n b)
  | inr e ↦ elim (Bool-cases (leb n (2 ^ 16 - 1))) [
    | inl e' ↦
        let b : n < 2 ^ 16 = ground arith in
        (1, omega arith, rw (e, e'), rw (e, e') (cast_16 n b), from_be_bytes-to_be_bytes_2 n b)
    | inr e' ↦ elim (Bool-cases (leb n (2 ^ 32 - 1))) [
      | inl e'' ↦
          let b : n < 2 ^ 32 = ground arith in
          (
            2,
            omega arith,
            rw (e, e', e''),
            rw (e, e', e'') (cast_32 n b),
            from_be_bytes-to_be_bytes_4 n b,
          )
      | inr e'' ↦
          (3, omega arith, rw (e, e', e''), rw (e, e', e''), from_be_bytes-to_be_bytes_8 n h)
    ]
  ]
]

-- A size class stands for 8 bytes at most.
pub power_le : (k : ℕ) → k ≤ 3 → 2 ^ k ≤ 8
power_le zero h = omega arith
power_le (suc zero) h = omega arith
power_le (suc (suc zero)) h = omega arith
power_le (suc (suc (suc zero))) h = omega arith
power_le (suc (suc (suc (suc k)))) h = absurd (omega arith)

-- A length in `2 ^ k` bytes behind its command byte.
literal_length-to_be_bytes :
    {E : Type 0} (k n : ℕ) (tail : Bytes) (limit : ℕ)
    → k ≤ 3
    → from_be_bytes (to_be_bytes (2 ^ k) n) ≡ n
    → n < 2 ^ 64
    → literal_length {E = E} (0x41 + k) (to_be_bytes (2 ^ k) n ++ tail) limit ≡ ok (n, tail)
unfolding literal_length safe_cast
literal_length-to_be_bytes k n tail limit small e h =
    let minus : 0x41 + k - 0x41 ≡ k = omega arith in
    rw (minus, read_varint-to_be_bytes (2 ^ k) n "literal length" tail (power_le k small) e)
      (ground arith)

-- The first byte of `insert_bytes`, and what `literal_length` makes of it and of the others.
pub insert_bytes_shape :
    {E : Type 0} (n : ℕ)
    → 1 ≤ n
    → n < 2 ^ 64
    → (cmd : ℕ) × (lens : Bytes) × (insert_bytes n ≡ cmd ∷ lens)
      × (1 ≤ cmd)
      × (cmd ≤ 0x44)
      × ((tail : Bytes) (limit : ℕ)
          → literal_length {E = E} cmd (lens ++ tail) limit ≡ ok (n, tail))
unfolding insert_bytes
insert_bytes_shape n lo h = elim (Bool-cases (leb n 64)) [
  | inl e ↦ (
    1 + u8 (n - 1),
    [],
    rw e,
    omega arith,
    ground arith,
    λ tail limit. unfold literal_length in ground arith,
  )
  | inr e ↦ elim (Bool-cases (leb n (2 ^ 8 - 1))) [
    | inl e1 ↦
        let b : n < 2 ^ 8 = ground arith in
        (
          0x41,
          to_be_bytes 1 n,
          rw (e, e1) (ap (λ (t : Bytes). prepend 0x41 t) (one_byte n b)),
          omega arith,
          omega arith,
          λ tail limit.
              literal_length-to_be_bytes 0 n tail limit (omega arith)
                (from_be_bytes-to_be_bytes_1 n b) h,
        )
    | inr e1 ↦ elim (Bool-cases (leb n (2 ^ 16 - 1))) [
      | inl e2 ↦
          let b : n < 2 ^ 16 = ground arith in
          (
            0x42,
            to_be_bytes 2 n,
            rw (e, e1, e2) (ap (λ (t : Bytes). prepend 0x42 t) (cast_16 n b)),
            omega arith,
            omega arith,
            λ tail limit.
                literal_length-to_be_bytes 1 n tail limit (omega arith)
                  (from_be_bytes-to_be_bytes_2 n b) h,
          )
      | inr e2 ↦ elim (Bool-cases (leb n (2 ^ 32 - 1))) [
        | inl e3 ↦
            let b : n < 2 ^ 32 = ground arith in
            (
              0x43,
              to_be_bytes 4 n,
              rw (e, e1, e2, e3) (ap (λ (t : Bytes). prepend 0x43 t) (cast_32 n b)),
              omega arith,
              omega arith,
              λ tail limit.
                  literal_length-to_be_bytes 2 n tail limit (omega arith)
                    (from_be_bytes-to_be_bytes_4 n b) h,
            )
        | inr e3 ↦ (
          0x44,
          to_be_bytes 8 n,
          rw (e, e1, e2, e3),
          omega arith,
          omega arith,
          λ tail limit.
              literal_length-to_be_bytes 3 n tail limit (omega arith)
                (from_be_bytes-to_be_bytes_8 n h) h,
        )
      ]
    ]
  ]
]
