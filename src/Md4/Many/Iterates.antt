-- ===== src/Md4/Many/Iterates.antt =====
-- A call of `next` of src/md4/mod.rs gives the next block with its digest.
use fast_rsync.Base.{
  ℕ, zero, suc, ◌-◌, ◌≤◌, ◌<◌, ◌≡◌, refl, sym, ap, subst, ◌∙◌, arith, none, some, List, [], ◌∷◌,
  ◌++◌, map, Bytes, length, length-take, length-drop, length-map, take, drop, take-append,
  take-append-drop, get_elem?, All, All-take, All-drop, ok, Bool-cases, inl, inr, true, false, ltb,
  leb, ◌==◌, ◌&&◌, leb→le, not_leb→lt,
}
use fast_rsync.Md4.{md4}
use fast_rsync.Md4.Many.{Target, Md4xN, It, refill, pull, next}
use mathlib.Core.List.{zip}
use fast_rsync.Md4.Many.Contract.{digested, IsMd4}

zip-map : (datas : List Bytes) → zip datas (map md4 datas) ≡ map digested datas
unfolding zip
zip-map [] = refl
zip-map (d ∷ datas) = rw (zip-map datas)

-- The entry at `k` and what follows it among the first `n`.
drop-take-cons {ℓ} :
    {A : Type ℓ} (k n : ℕ) (xs ys : List A) (y : A)
    → drop k (take n xs) ≡ y ∷ ys
    → (get_elem? xs k ≡ some y) × (drop (suc k) (take n xs) ≡ ys)
drop-take-cons zero zero xs ys y e = cc
drop-take-cons zero (suc n) [] ys y e = cc
drop-take-cons zero (suc n) (x ∷ xs) ys y e = (cc, cc)
drop-take-cons (suc k) zero xs ys y e = cc
drop-take-cons (suc k) (suc n) [] ys y e = cc
drop-take-cons (suc k) (suc n) (x ∷ xs) ys y e = drop-take-cons k n xs ys y e

-- The iterator of a vector unit with `ready` digested and still in the buffer, over blocks of `size`.
pub record IsIter {target : Target} (simd : Md4xN target) (size : ℕ) (ready : List Bytes) (it : It)
    : Type 0 where
  pub counted : it.len ≡ length it.inner
  pub buffered : it.buf_len ≡ length ready
  pub in_lanes : it.buf_len ≤ simd.lanes
  pub at_end : drop (simd.lanes - it.buf_len) (take simd.lanes it.buf) ≡ map digested ready
  pub sized : All (λ block. length block ≡ size) it.inner

pull_end : (it : It) → it.inner ≡ [] → pull it ≡ ok (none, it)
unfolding pull
pull_end it e = ground arith

module _ {target : Target} (simd : Md4xN target) (right : IsMd4 simd) (size : ℕ) where
  -- A block that waits in the buffer comes first.
  next-ready :
      (d : Bytes) (ready : List Bytes) (it : It)
      → IsIter simd size (d ∷ ready) it
      → (it' : It) × (next (some simd) it ≡ ok (some (digested d), it'))
        × (it'.inner ≡ it.inner)
        × IsIter simd size ready it'
  unfolding next refill
  next-ready d ready it i =
      let (at, rest) =
        drop-take-cons (simd.lanes - it.buf_len) simd.lanes it.buf (map digested ready) (digested d)
          i.at_end in
      let len : it.buf_len ≡ suc (length ready) = i.buffered in
      let below : it.buf_len ≤ simd.lanes = i.in_lanes in
      let nonzero : ltb 0 it.buf_len ≡ true = ground arith in
      let full : (it.buf_len == 0) ≡ false = ground arith in
      let one_on : simd.lanes - (it.buf_len - 1) ≡ suc (simd.lanes - it.buf_len) = omega arith in
      (
        record it { buf_len = it.buf_len - 1 },
        rw (full, nonzero, at),
        refl,
        record {
          counted = i.counted;
          buffered = omega arith;
          in_lanes = omega arith;
          at_end = rw one_on rest;
          sized = i.sized;
        },
      )

  -- An empty buffer is filled where the blocks that are left are enough.
  refill-IsIter :
      (it : It)
      → IsIter simd size [] it
      → simd.lanes ≤ length it.inner
      → (it' : It) × (refill simd it ≡ ok it')
        × (it'.inner ≡ drop simd.lanes it.inner)
        × IsIter simd size (take simd.lanes it.inner) it'
  unfolding refill
  refill-IsIter it i enough =
      let datas = take simd.lanes it.inner in
      let len : length datas ≡ simd.lanes = omega (arith, length-take simd.lanes it.inner) in
      let (found, no_unit_panic, first) =
        right.digests size datas len (All-take _ simd.lanes it.inner i.sized) in
      let zipped = zip datas (take simd.lanes found) in
      let shape : zipped ≡ map digested datas = ap (zip datas) first ∙ zip-map datas in
      let empty : it.buf_len ≡ 0 = i.buffered in
      let count : it.len ≡ length it.inner = i.counted in
      let test : (it.buf_len == 0 && leb simd.lanes it.len) ≡ true = ground arith in
      let no_panic : ltb (length it.inner) simd.lanes ≡ false = ground arith in
      let none_left : simd.lanes - simd.lanes ≡ 0 = omega arith in
      (
        record {
          len = it.len - simd.lanes;
          inner = drop simd.lanes it.inner;
          buf = zipped ++ drop simd.lanes it.buf;
          buf_len = simd.lanes;
        },
        rw (test, no_panic, no_unit_panic),
        refl,
        record {
          counted = omega (arith, length-drop simd.lanes it.inner);
          buffered = sym len;
          in_lanes = omega arith;
          at_end = rw (
            none_left,
            shape,
            take-append simd.lanes (map digested datas) (drop simd.lanes it.buf)
                (length-map digested datas ∙ len),
          );
          sized = All-drop _ simd.lanes it.inner i.sized;
        },
      )

  -- With the buffer empty and too few blocks left, the iterator takes them one by one.
  next-pull :
      (it : It)
      → IsIter simd size [] it
      → length it.inner < simd.lanes
      → next (some simd) it ≡ pull it
  unfolding next refill
  next-pull it i few =
      let empty : it.buf_len ≡ 0 = i.buffered in
      let count : it.len ≡ length it.inner = i.counted in
      let test : (it.buf_len == 0 && leb simd.lanes it.len) ≡ false = ground arith in
      let drained : ltb 0 it.buf_len ≡ false = ground arith in rw (test, drained)

  -- A filled buffer is not filled again.
  next-refill :
      (it it1 : It)
      → refill simd it ≡ ok it1
      → refill simd it1 ≡ ok it1
      → next (some simd) it ≡ next (some simd) it1
  unfolding next
  next-refill it it1 e e1 = rw (e, e1)

  refill_ready :
      (d : Bytes) (ready : List Bytes) (it : It)
      → IsIter simd size (d ∷ ready) it
      → refill simd it ≡ ok it
  unfolding refill
  refill_ready d ready it i =
      let len : it.buf_len ≡ suc (length ready) = i.buffered in
      let full : (it.buf_len == 0) ≡ false = ground arith in rw full

  -- `next` hands out the first block that is left, and keeps the others.
  abbrev Yields : It → Bytes → List Bytes → Type 0
  Yields it d blocks =
      (it' : It) × (ready : List Bytes) × (next (some simd) it ≡ ok (some (digested d), it'))
      × IsIter simd size ready it'
      × (ready ++ it'.inner ≡ blocks)

  next-refilled :
      (it : It) (d : Bytes) (blocks : List Bytes)
      → IsIter simd size [] it
      → it.inner ≡ d ∷ blocks
      → simd.lanes ≤ length it.inner
      → Yields it d blocks
  next-refilled it d blocks i e enough =
      let some_lanes : 1 ≤ simd.lanes = right.some_lanes in
      let q : simd.lanes ≡ suc (simd.lanes - 1) = omega arith in
      let kept = take (simd.lanes - 1) blocks in
      let first : take simd.lanes it.inner ≡ d ∷ kept =
        ap (take simd.lanes) e ∙ ap (λ (n : ℕ). take n (d ∷ blocks)) q in
      let left : drop simd.lanes it.inner ≡ drop (simd.lanes - 1) blocks =
        ap (drop simd.lanes) e ∙ ap (λ (n : ℕ). drop n (d ∷ blocks)) q in
      let (it1, e1, inner1, i1) = refill-IsIter it i enough in
      let i1' : IsIter simd size (d ∷ kept) it1 =
        subst (λ ready. IsIter simd size ready it1) first i1 in
      let (it2, e2, inner2, i2) = next-ready d kept it1 i1' in
      (
        it2,
        kept,
        next-refill it it1 e1 (refill_ready d kept it1 i1') ∙ e2,
        i2,
        ap (λ (rest : List Bytes). kept ++ rest) (inner2 ∙ inner1 ∙ left)
            ∙ take-append-drop (simd.lanes - 1) blocks,
      )

  next-pulled :
      (it : It) (d : Bytes) (blocks : List Bytes)
      → IsIter simd size [] it
      → it.inner ≡ d ∷ blocks
      → length it.inner < simd.lanes
      → Yields it d blocks
  unfolding pull
  next-pulled it d blocks i e few = (
    record it { len = it.len - 1; inner = blocks },
    [],
    next-pull it i few ∙ rw (e, pull),
    record {
      counted = let c : it.len ≡ length it.inner = i.counted in omega (arith, ap length e);
      buffered = i.buffered;
      in_lanes = i.in_lanes;
      at_end = i.at_end;
      sized = (subst (λ inner. All (λ block. length block ≡ size) inner) e i.sized).1;
    },
    refl,
  )

  pub next-Yields :
      (ready : List Bytes) (it : It) (d : Bytes) (blocks : List Bytes)
      → IsIter simd size ready it
      → ready ++ it.inner ≡ d ∷ blocks
      → Yields it d blocks
  next-Yields [] it d blocks i e = elim (Bool-cases (leb simd.lanes (length it.inner))) [
    | inl t ↦ next-refilled it d blocks i e (leb→le simd.lanes (length it.inner) t)
    | inr f ↦ next-pulled it d blocks i e (not_leb→lt simd.lanes (length it.inner) f)
  ]
  next-Yields (d' ∷ ready) it d blocks i e =
      let (it', e', inner, i') = next-ready d' ready it i in
      let first : digested d' ≡ digested d = cc in
      let rest : ready ++ it.inner ≡ blocks = cc in
      (it', ready, rw first at e', i', ap (λ (xs : List Bytes). ready ++ xs) inner ∙ rest)

  pub next-end :
      (ready : List Bytes) (it : It)
      → IsIter simd size ready it
      → ready ++ it.inner ≡ []
      → next (some simd) it ≡ ok (none, it)
  next-end [] it i e =
      let lanes : 1 ≤ simd.lanes = right.some_lanes in
      next-pull it i (omega (arith, ap length e)) ∙ pull_end it e
  next-end (d ∷ ready) it i e = cc
