-- ===== src/Md4/Simd/Tail.antt =====
-- The padded end of a message in src/md4/mod.rs: `md4` writes the length as bytes behind the last
-- block, `md4xN` sets the last two words of it.
use fast_rsync.Base.{
  ℕ, zero, suc, ◌+◌, ◌-◌, ◌*◌, ◌/◌, ◌^◌, ◌<◌, ◌≡◌, refl, sym, ap, ◌∙◌, arith, List, [], ◌∷◌, ◌++◌,
  append_assoc, map, Bytes, length, length-append, length-replicate, length-drop, length-map, take,
  drop, take-append, drop-append, take-append_le, drop-append_le, drop-drop, set, replicate, splice,
  chunks_of,
}
use fast_rsync.Base.Words.{u32, to_le_bytes, from_le_bytes, length-to_le_bytes}
use fast_rsync.Md4.{load_block}
use mathlib.Core.List.{map-append}

-- A message's end, its mark and zeros, up to `n` bytes.
abbrev pub marked : ℕ → Bytes → Bytes
marked n tail = tail ++ (0x80 ∷ replicate (n - 1 - length tail) 0)

pub length-marked : (n : ℕ) (tail : Bytes) → length tail < n → length (marked n tail) ≡ n
length-marked n tail h = omega (
  arith,
  length-append tail (0x80 ∷ replicate (n - 1 - length tail) 0),
  length-replicate {A = ℕ} (n - 1 - length tail) 0,
)

pub drop-replicate : (k n m x : ℕ) → k + m ≡ n → drop k (replicate n x) ≡ replicate m x
drop-replicate zero n m x e = let e' : n ≡ m = omega arith in ap (λ (t : ℕ). replicate t x) e'
drop-replicate (suc k) zero m x e = absurd (omega arith)
drop-replicate (suc k) (suc n) m x e = drop-replicate k n m x (omega arith)

replicate-add : (k m n x : ℕ) → k + m ≡ n → replicate n x ≡ replicate k x ++ replicate m x
replicate-add zero m n x e = let e' : n ≡ m = omega arith in ap (λ (t : ℕ). replicate t x) e'
replicate-add (suc k) m zero x e = absurd (omega arith)
replicate-add (suc k) m (suc n) x e =
    ap (λ (t : Bytes). x ∷ t) (replicate-add k m n x (omega arith))

-- `buf[..tail.len()].copy_from_slice(tail); buf[tail.len()] = 0x80` on `n` zeros.
pub splice-marked :
    (n : ℕ) (tail : Bytes)
    → length tail < n
    → splice (splice (replicate n 0) 0 tail) (length tail) (0x80 ∷ []) ≡ marked n tail
unfolding splice
splice-marked n tail h =
    let r = length tail in
    let z : 0 + r ≡ r = omega arith in
    let rest : drop r (replicate n 0) ≡ replicate (n - r) 0 =
      drop-replicate r n (n - r) 0 (omega arith) in
    let behind : drop (r + 1) (tail ++ replicate (n - r) 0) ≡ replicate (n - 1 - r) 0 =
      sym (drop-drop r 1 (r + 1) (tail ++ replicate (n - r) 0) refl)
      ∙ ap (drop 1) (drop-append r tail (replicate (n - r) 0) refl)
      ∙ drop-replicate 1 (n - r) (n - 1 - r) 0 (omega arith) in
    rw (z, rest, take-append r tail (replicate (n - r) 0) refl, behind)

-- The mark stands in the first `n` of `n + m` bytes.
pub marked-more :
    (n m k : ℕ) (tail : Bytes)
    → length tail < n
    → n + m ≡ k
    → marked k tail ≡ marked n tail ++ replicate m 0
marked-more n m k tail h e =
    let all = replicate-add (n - 1 - length tail) m (k - 1 - length tail) 0 (omega arith) in
    rw all (sym (append_assoc tail (0x80 ∷ replicate (n - 1 - length tail) 0) (replicate m 0)))

-- A full buffer `xs ++ ys` in which the bytes at `length xs` are overwritten.
pub splice-append :
    (n : ℕ) (xs ys zs rest : Bytes)
    → length xs ≡ n
    → drop (length zs) ys ≡ rest
    → splice (xs ++ ys) n zs ≡ xs ++ (zs ++ rest)
unfolding splice
splice-append n xs ys zs rest e left = rw (
  take-append n xs ys e,
  sym (drop-drop n (length zs) (n + length zs) (xs ++ ys) refl),
  drop-append n xs ys e,
  left,
)

-- Words of a buffer in two parts.
pub chunks_of-append :
    (j k m : ℕ) (xs ys : Bytes)
    → length xs ≡ j * 4
    → j + k ≡ m
    → chunks_of m 4 (xs ++ ys) ≡ chunks_of j 4 xs ++ chunks_of k 4 ys
unfolding chunks_of
chunks_of-append zero k m [] ys e s =
    let e' : m ≡ k = omega arith in ap (λ (t : ℕ). chunks_of t 4 ys) e'
chunks_of-append zero k m (x ∷ xs) ys e s = absurd (omega arith)
chunks_of-append (suc j) k zero xs ys e s = absurd (omega arith)
chunks_of-append (suc j) k (suc m) xs ys e s = rw (
  take-append_le 4 xs ys (omega arith),
  drop-append_le 4 xs ys (omega arith),
  chunks_of-append j k m (drop 4 xs) ys (omega (arith, length-drop 4 xs)) (omega arith),
)

length-chunks_of : (k n : ℕ) (xs : Bytes) → length (chunks_of k n xs) ≡ k
unfolding chunks_of
length-chunks_of zero n xs = refl
length-chunks_of (suc k) n xs = ap suc (length-chunks_of k n (drop n xs))

-- The words of the first 56 bytes of a block.
abbrev front_words : Bytes → List ℕ
front_words front = map from_le_bytes (chunks_of 14 4 front)

load_block-append :
    (front end : Bytes)
    → length front ≡ 56
    → length end ≡ 8
    → load_block (front ++ end)
      ≡ front_words front ++ (from_le_bytes (take 4 end) ∷ from_le_bytes (take 4 (drop 4 end)) ∷ [])
unfolding load_block
load_block-append front end e e' =
    let count : length (front ++ end) / 4 ≡ 16 = omega (arith, length-append front end) in
    ap (λ (k : ℕ). map from_le_bytes (chunks_of k 4 (front ++ end))) count
    ∙ ap (map from_le_bytes) (chunks_of-append 14 2 16 front end (omega arith) refl)
    ∙ map-append from_le_bytes (chunks_of 14 4 front) (chunks_of 2 4 end)
    ∙ unfold chunks_of in refl

set-append :
    (k j : ℕ) (xs ys : List ℕ) (v : ℕ) → length xs ≡ k → set (xs ++ ys) (k + j) v ≡ xs ++ set ys j v
set-append zero j [] ys v e = let z : 0 + j ≡ j = omega arith in ap (λ (t : ℕ). set ys t v) z
set-append zero j (x ∷ xs) ys v e = absurd (omega arith)
set-append (suc k) j [] ys v e = absurd (omega arith)
set-append (suc k) j (x ∷ xs) ys v e =
    let s : suc k + j ≡ suc (k + j) = omega arith in
    rw s (ap (λ (t : List ℕ). x ∷ t) (set-append k j xs ys v (omega arith)))

-- The bytes of the length as words.
bit_len_words :
    (n : ℕ)
    → (from_le_bytes (take 4 (to_le_bytes 8 n)) ≡ u32 n)
      × (from_le_bytes (take 4 (drop 4 (to_le_bytes 8 n))) ≡ u32 (n / 2 ^ 32))
unfolding to_le_bytes from_le_bytes
bit_len_words n = (omega arith, omega arith)

-- Setting the last two words is writing the last eight bytes.
pub set-load_block :
    (front end : Bytes) (n : ℕ)
    → length front ≡ 56
    → length end ≡ 8
    → set (set (load_block (front ++ end)) 14 (u32 n)) 15 (u32 (n / 2 ^ 32))
      ≡ load_block (front ++ to_le_bytes 8 n)
set-load_block front end n e e' =
    let words = front_words front in
    let len : length words ≡ 14 =
      length-map from_le_bytes (chunks_of 14 4 front) ∙ length-chunks_of 14 4 front in
    let (low, high) = bit_len_words n in
    rw (
      load_block-append front end e e',
      load_block-append front (to_le_bytes 8 n) e (length-to_le_bytes 8 n),
      set-append 14 0 words (from_le_bytes (take 4 end) ∷ from_le_bytes (take 4 (drop 4 end)) ∷ [])
          (u32 n) len,
      set-append 14 1 words (u32 n ∷ from_le_bytes (take 4 (drop 4 end)) ∷ []) (u32 (n / 2 ^ 32))
          len,
      low,
      high,
    )
