-- ===== src/Crc/Rolling.antt =====
-- The laws of the checksum of src/crc.rs: what its rolling operations have to do with `update`.
use fast_rsync.Base.{ℕ, ◌+◌, ◌-◌, ◌*◌, ◌%◌, ◌^◌, ◌<◌, ◌≡◌, refl, sym, ap, ◌∙◌, arith}
use fast_rsync.Base.{[], ◌∷◌, ◌++◌, Bytes, IsByte, length, length-append}
use fast_rsync.Base.Words.{u16, mod-mul-mod, mul-mod-mod}
use fast_rsync.Crc.{Crc, Halves, split, combine, empty, update, basic_update, crc_magic}
use fast_rsync.Crc.{rollin, rollout, rotate}
use fast_rsync.Crc.Sums.{summed, split-update, combine-split}
use fast_rsync.Crc.Sums.{update-summed, basic_update-summed}
use fast_rsync.Crc.Weights.{sum, weighted, sum-snoc, weighted-snoc, sum-append, weighted-append}
use mathlib.Core.List.{foldl}

-- `update` and its plain form `basic_update` agree on every checksum and every buffer.
pub update-eq-basic_update : (c : Crc) (buf : Bytes) → update c buf ≡ basic_update c buf
update-eq-basic_update c buf = update-summed c buf ∙ sym (basic_update-summed c buf)

-- Sums taken in two parts.
summed-append : (h : Halves) (xs ys : Bytes) → summed (summed h xs) ys ≡ summed h (xs ++ ys)
unfolding summed
summed-append h xs ys = ground (arith, first, second)
  where
    first : u16 (u16 (h.s1 + sum xs) + sum ys) ≡ u16 (h.s1 + sum (xs ++ ys))
    first = omega (arith, sum-append xs ys)

    second :
        u16 (
          u16 (h.s2 + h.s1 * length xs + weighted xs)
          + u16 (h.s1 + sum xs) * length ys
          + weighted ys)
        ≡ u16 (h.s2 + h.s1 * length (xs ++ ys) + weighted (xs ++ ys))
    second = omega (
      arith,
      weighted-append xs ys,
      ap (λ (t : ℕ). h.s1 * t) (length-append xs ys),
      mod-mul-mod (2 ^ 16) (h.s1 + sum xs) (length ys),
    )

-- Updating by two buffers in turn is updating by the two joined.
pub update-append :
    (c : Crc) (buf1 buf2 : Bytes) → update (update c buf1) buf2 ≡ update c (buf1 ++ buf2)
update-append c buf1 buf2 =
    update-summed (update c buf1) buf2
    ∙ rw (split-update c buf1, summed-append (split c) buf1 buf2)
        (sym (update-summed c (buf1 ++ buf2)))

rollin-summed : (c : Crc) (b : ℕ) → rollin c b ≡ combine (summed (split c) (b ∷ []))
unfolding rollin summed
rollin-summed c b = ap combine (ground arith)

-- Rolling in one byte is updating by that byte.
pub rollin-eq-update : (c : Crc) (b : ℕ) → rollin c b ≡ update c (b ∷ [])
rollin-eq-update c b = rollin-summed c b ∙ sym (update-summed c (b ∷ []))

update-nil : (c : Crc) → c.value < 2 ^ 32 → update c [] ≡ c
unfolding summed split
update-nil c h = update-summed c [] ∙ ap combine (ground arith) ∙ combine-split c h

foldl-rollin_cons : (c : Crc) (b : ℕ) (buf : Bytes) → foldl rollin c (b ∷ buf) ≡ update c (b ∷ buf)
foldl-rollin_cons c b [] = rollin-eq-update c b
foldl-rollin_cons c b (b' ∷ buf) =
    foldl-rollin_cons (rollin c b) b' buf
    ∙ ap (λ (t : Crc). update t (b' ∷ buf)) (rollin-eq-update c b)
    ∙ update-append c (b ∷ []) (b' ∷ buf)

-- Rolling in the bytes of a buffer one by one, from any checksum of 32 bits, is updating by the
-- buffer.
pub foldl-rollin : (c : Crc) (buf : Bytes) → c.value < 2 ^ 32 → foldl rollin c buf ≡ update c buf
foldl-rollin c [] h = sym (update-nil c h)
foldl-rollin c (b ∷ buf) h = foldl-rollin_cons c b buf

split-empty : split empty ≡ record { s1 = 0; s2 = 0 }
unfolding split empty
split-empty = refl

-- The halves of a window's checksum.
split_window :
    (buf : Bytes)
    → split (update empty buf) ≡ record { s1 = u16 (sum buf); s2 = u16 (weighted buf) }
split_window buf = split-update empty buf ∙ rw split-empty (unfold summed in ground arith)

-- What leaves the second half with the byte `old` at the front of `n` bytes.
leaving :
    (n old : ℕ) → u16 n * ((u16 old + crc_magic) % 2 ^ 16) % 2 ^ 16 ≡ u16 (n * (old + crc_magic))
leaving n old =
    ap (λ (t : ℕ). u16 n * t % 2 ^ 16) (omega arith) ∙ mul-mod-mod (2 ^ 16) n (old + crc_magic)

-- Moving the window by one byte: the checksum of `old ∷ mid`, rotated by its first byte and the
-- byte behind it, is the checksum of the window `mid ++ new`.
pub rotate-update :
    (old new : ℕ) (mid : Bytes)
    → rotate (update empty (old ∷ mid)) (length (old ∷ mid)) old new
      ≡ update empty (mid ++ (new ∷ []))
unfolding rotate summed
rotate-update old new mid =
    rw (split_window (old ∷ mid), update-summed empty (mid ++ (new ∷ [])), split-empty)
      (ap combine (ground (arith, first, second)))
  where
    first :
        (u16 (u16 (sum (old ∷ mid)) + u16 new) + 2 ^ 16 - u16 old) % 2 ^ 16
        ≡ u16 (sum (mid ++ (new ∷ [])))
    first = omega (arith, sum-snoc mid new)

    second :
        (u16 (u16 (weighted (old ∷ mid)) + u16 (sum (mid ++ (new ∷ []))))
            + 2 ^ 16
            - u16 (length (old ∷ mid)) * ((u16 old + crc_magic) % 2 ^ 16) % 2 ^ 16)
          % 2 ^ 16
        ≡ u16 (weighted (mid ++ (new ∷ [])))
    second =
        omega (arith, leaving (length (old ∷ mid)) old, weighted-snoc mid new, sum-snoc mid new)

-- Dropping the first byte of a window, where that is a byte: `rollout` gives the checksum of the rest.
pub rollout-update :
    (old : ℕ) (mid : Bytes)
    → IsByte old
    → rollout (update empty (old ∷ mid)) (length (old ∷ mid)) old ≡ update empty mid
unfolding rollout summed
rollout-update old mid h =
    rw (split_window (old ∷ mid), update-summed empty mid, split-empty)
      (ap combine (ground (arith, first, second)))
  where
    first :
        (u16 (sum (old ∷ mid)) + 2 ^ 16 - (u16 old + crc_magic) % 2 ^ 16) % 2 ^ 16 ≡ u16 (sum mid)
    first = omega arith

    second :
        (u16 (weighted (old ∷ mid))
            + 2 ^ 16
            - u16 (length (old ∷ mid)) * (u16 old + crc_magic) % 2 ^ 16)
          % 2 ^ 16
        ≡ u16 (weighted mid)
    second = omega (arith, cut)
      where
        cut :
            u16 (length (old ∷ mid)) * (u16 old + crc_magic) % 2 ^ 16
            ≡ u16 (length (old ∷ mid) * (old + crc_magic))
        cut =
            ap (λ (t : ℕ). u16 (length (old ∷ mid)) * t % 2 ^ 16) (omega arith)
            ∙ mod-mul-mod (2 ^ 16) (length (old ∷ mid)) (old + crc_magic)
