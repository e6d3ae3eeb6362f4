-- ===== src/Crc/Sums.antt =====
-- What the checksum loops of src/crc.rs compute, as plain sums without wrap-around.
use fast_rsync.Base.{ℕ, ◌+◌, ◌-◌, ◌*◌, ◌/◌, ◌%◌, ◌^◌, ◌<◌, ◌≡◌, ap, ◌∙◌, arith}
use fast_rsync.Base.{bit_or, [], ◌∷◌, Bytes, length}
use fast_rsync.Base.Words.{u16, u32, mul-mod-mod, wrapping_mul, wrapping_add}
use fast_rsync.Base.Bits.{bit_or-shifted}
use fast_rsync.Crc.{Crc, Halves, split, combine, add_magic, update_loop, basic_loop, update}
use fast_rsync.Crc.{basic_update, crc_magic}
use fast_rsync.Crc.Weights.{
  raw_sum, raw_weighted, sum, weighted, triangle, triangle_closed, sum_split, weighted_split,
}

-- Both halves are 16-bit words.
abbrev pub IsHalves : Halves → Type 0
IsHalves h = (h.s1 < 2 ^ 16) × (h.s2 < 2 ^ 16)

combine_value : (h : Halves) → IsHalves h → (combine h).value ≡ h.s1 + h.s2 * 2 ^ 16
unfolding combine
combine_value h (p, q) =
    omega (arith, bit_or-shifted 16 h.s1 h.s2 p, ap (λ (t : ℕ). bit_or h.s1 t) whole)
  where
    whole : u32 (h.s2 * 2 ^ 16) ≡ h.s2 * 2 ^ 16
    whole = omega arith

-- The halves of a checksum are had back whole.
pub split-combine : (h : Halves) → IsHalves h → split (combine h) ≡ h
unfolding split
split-combine h p = ground (arith, combine_value h p)

-- The checksum of `bs` on top of the halves `h`.
unfoldable pub summed : Halves → Bytes → Halves
summed h bs = record { s1 = u16 (h.s1 + sum bs); s2 = u16 (h.s2 + h.s1 * length bs + weighted bs) }

-- The terms of the magic number, from a length that is cut to 32 bits and then to 16.
add_magic_s1 : (n : ℕ) → wrapping_mul 16 (u16 (u32 n)) crc_magic ≡ u16 (n * crc_magic)
add_magic_s1 n = omega arith

add_magic_s2 :
    (n : ℕ)
    → wrapping_mul 16 (u16 (wrapping_mul 32 (u32 n) (wrapping_add 32 (u32 n) 1) / 2)) crc_magic
      ≡ u16 (triangle n * crc_magic)
add_magic_s2 n = omega (arith, cut, triangle_closed n)
  where
    succ_cut : wrapping_add 32 (u32 n) 1 ≡ u32 (n + 1)
    succ_cut = omega arith

    cut : wrapping_mul 32 (u32 n) (wrapping_add 32 (u32 n) 1) ≡ u32 (n * (n + 1))
    cut = rw succ_cut (mul-mod-mod (2 ^ 32) n (n + 1))

-- `add_magic` completes the raw sums.
add_magic_lem :
    (bs : Bytes) (s1 s2 : ℕ)
    → add_magic
        (u32 (length bs))
        (record { s1 = u16 (s1 + raw_sum bs); s2 = u16 (s2 + raw_weighted bs) })
      ≡ record { s1 = u16 (s1 + sum bs); s2 = u16 (s2 + weighted bs) }
unfolding add_magic
add_magic_lem bs s1 s2 =
    rw (add_magic_s1 (length bs), add_magic_s2 (length bs), sum_split bs, weighted_split bs)
      (ground arith)

-- One product of the loop, whose factors are cut to 16 bits.
loop_term :
    (byte len idx left : ℕ)
    → idx + left ≡ len
    → wrapping_mul 16 (u16 byte) ((u16 (u32 len) + 2 ^ 16 - u16 idx) % 2 ^ 16) ≡ u16 (byte * left)
loop_term byte len idx left e = rw distance (mul-mod-mod (2 ^ 16) byte left)
  where
    distance : (u16 (u32 len) + 2 ^ 16 - u16 idx) % 2 ^ 16 ≡ left % 2 ^ 16
    distance = omega arith

-- The loop of `update` adds the raw sums.
update_loop_lem :
    (bs : Bytes) (len idx s1 s2 : ℕ)
    → idx + length bs ≡ len
    → update_loop (u32 len) idx bs (record { s1 = u16 s1; s2 = u16 s2 })
      ≡ record { s1 = u16 (s1 + raw_sum bs); s2 = u16 (s2 + raw_weighted bs) }
unfolding update_loop
update_loop_lem [] len idx s1 s2 e = ground arith
update_loop_lem (b ∷ bs) len idx s1 s2 e = rw (loop_term b len idx (length (b ∷ bs)) e) (
    ap (update_loop (u32 len) (idx + 1) bs) (cut)
    ∙ update_loop_lem bs len (idx + 1) (s1 + b) (s2 + b * length (b ∷ bs)) (omega arith)
    ∙ regroup)
  where
    cut :
        ◌≡◌ {A = Halves}
          (record {
            s1 = (u16 s1 + u16 b) % 2 ^ 16;
            s2 = (u16 s2 + u16 (b * length (b ∷ bs))) % 2 ^ 16;
          })
          (record { s1 = u16 (s1 + b); s2 = u16 (s2 + b * length (b ∷ bs)) })
    cut = ground arith

    regroup :
        ◌≡◌ {A = Halves}
          (record {
            s1 = u16 (s1 + b + raw_sum bs);
            s2 = u16 (s2 + b * length (b ∷ bs) + raw_weighted bs);
          })
          (record { s1 = u16 (s1 + raw_sum (b ∷ bs)); s2 = u16 (s2 + raw_weighted (b ∷ bs)) })
    regroup = ground arith

-- The part of `update` before its loop.
start_lem :
    (h : Halves) (n : ℕ)
    → IsHalves h
    → ◌≡◌ {A = Halves}
        (record { s1 = h.s1; s2 = wrapping_add 16 h.s2 (wrapping_mul 16 h.s1 (u16 (u32 n))) })
        (record { s1 = u16 h.s1; s2 = u16 (h.s2 + h.s1 * n) })
start_lem h n p = ground (arith, cut)
  where
    cut : wrapping_mul 16 h.s1 (u16 (u32 n)) ≡ u16 (h.s1 * n)
    cut =
        ap (λ (t : ℕ). wrapping_mul 16 t (u16 (u32 n))) (omega arith)
        ∙ ap (λ (t : ℕ). wrapping_mul 16 (u16 h.s1) t) (omega arith)
        ∙ mul-mod-mod (2 ^ 16) h.s1 n

split-IsHalves : (c : Crc) → IsHalves (split c)
unfolding split
split-IsHalves c = omega arith

-- `update` computes the sums over the whole buffer, at every length.
pub update-summed : (c : Crc) (bs : Bytes) → update c bs ≡ combine (summed (split c) bs)
unfolding update summed
update-summed c bs =
    let h = split c in
    let s2 : ℕ = h.s2 + h.s1 * length bs in
    ap
      (λ (t : Halves). combine (add_magic (u32 (length bs)) (update_loop (u32 (length bs)) 0 bs t)))
      (start_lem h (length bs) (split-IsHalves c))
    ∙ ap (λ (t : Halves). combine (add_magic (u32 (length bs)) t))
        (update_loop_lem bs (length bs) 0 h.s1 s2 (omega arith))
    ∙ ap combine (add_magic_lem bs h.s1 s2)

-- The loop of `basic_update` adds the raw sums, too.
basic_loop_lem :
    (bs : Bytes) (s1 s2 : ℕ)
    → basic_loop bs (record { s1 = u16 s1; s2 = u16 s2 })
      ≡ record { s1 = u16 (s1 + raw_sum bs); s2 = u16 (s2 + s1 * length bs + raw_weighted bs) }
unfolding basic_loop
basic_loop_lem [] s1 s2 = ground arith
basic_loop_lem (b ∷ bs) s1 s2 =
    ap (basic_loop bs) cut ∙ basic_loop_lem bs (s1 + b) (s2 + s1 + b) ∙ regroup
  where
    cut :
        ◌≡◌ {A = Halves}
          (record {
            s1 = (u16 s1 + u16 b) % 2 ^ 16;
            s2 = (u16 s2 + (u16 s1 + u16 b) % 2 ^ 16) % 2 ^ 16;
          })
          (record { s1 = u16 (s1 + b); s2 = u16 (s2 + s1 + b) })
    cut = ground arith

    regroup :
        ◌≡◌ {A = Halves}
          (record {
            s1 = u16 (s1 + b + raw_sum bs);
            s2 = u16 (s2 + s1 + b + (s1 + b) * length bs + raw_weighted bs);
          })
          (record {
            s1 = u16 (s1 + raw_sum (b ∷ bs));
            s2 = u16 (s2 + s1 * length (b ∷ bs) + raw_weighted (b ∷ bs));
          })
    regroup = ground arith

-- So does `basic_update`.
pub basic_update-summed : (c : Crc) (bs : Bytes) → basic_update c bs ≡ combine (summed (split c) bs)
unfolding basic_update summed
basic_update-summed c bs =
    let h = split c in
    ap (λ (t : Halves). combine (add_magic (u32 (length bs)) (basic_loop bs t))) whole
    ∙ ap (λ (t : Halves). combine (add_magic (u32 (length bs)) t)) (basic_loop_lem bs h.s1 h.s2)
    ∙ ap combine (add_magic_lem bs h.s1 (h.s2 + h.s1 * length bs))
  where
    whole : split c ≡ record { s1 = u16 (split c).s1; s2 = u16 (split c).s2 }
    whole = unfold split in ground arith

pub summed-IsHalves : (h : Halves) (bs : Bytes) → IsHalves (summed h bs)
unfolding summed
summed-IsHalves h bs = omega arith

-- The halves of an updated checksum.
pub split-update : (c : Crc) (bs : Bytes) → split (update c bs) ≡ summed (split c) bs
split-update c bs = rw (update-summed c bs) (split-combine _ (summed-IsHalves (split c) bs))

-- A 32-bit checksum is the pair of its halves.
pub combine-split : (c : Crc) → c.value < 2 ^ 32 → combine (split c) ≡ c
combine-split c h = ground (arith, combine_value (split c) (split-IsHalves c), parts)
  where
    parts : (split c).s1 + (split c).s2 * 2 ^ 16 ≡ c.value
    parts = unfold split in omega arith

-- `update` returns a 32-bit word.
pub update-lt : (c : Crc) (bs : Bytes) → (update c bs).value < 2 ^ 32
update-lt c bs =
    let h = summed-IsHalves (split c) bs in
    omega
      (arith, ap (λ (t : Crc). t.value) (update-summed c bs), combine_value (summed (split c) bs) h)
