-- ===== src/Md4/Simd/Rounds.antt =====
-- The rounds of src/md4/mod.rs on vectors are the rounds on words, lane by lane.
use fast_rsync.Base.{
  ℕ, zero, suc, ◌+◌, ◌^◌, ◌≤◌, ◌<◌, ◌≡◌, refl, ap, ◌∙◌, arith, List, [], ◌∷◌, map, Bytes, length,
  get_or, bit_and, bit_or, bit_xor,
}
use fast_rsync.Base.Words.{wrapping_add}
use fast_rsync.Md4.{
  Md4State, scalar, andnot_u32, rotate_left, f, g, h, op1, op2, op3, word, round1, round2, round3,
  process_block, load_block,
}
use fast_rsync.Md4.Simd.{Lanes, lane_state}

-- What the operations and the loads of a vector unit do to a lane.
pub record IsLaneWise {V : Type 0} (n : Lanes V) : Type 0 where
  pub add_lane :
      (a b : V) (i : ℕ)
      → i < n.lanes
      → n.lane (n.ops.add a b) i ≡ wrapping_add 32 (n.lane a i) (n.lane b i)
  pub and_lane :
      (a b : V) (i : ℕ) → i < n.lanes → n.lane (n.ops.and a b) i ≡ bit_and (n.lane a i) (n.lane b i)
  pub or_lane :
      (a b : V) (i : ℕ) → i < n.lanes → n.lane (n.ops.or a b) i ≡ bit_or (n.lane a i) (n.lane b i)
  pub andnot_lane :
      (a b : V) (i : ℕ)
      → i < n.lanes
      → n.lane (n.ops.andnot a b) i ≡ andnot_u32 (n.lane a i) (n.lane b i)
  pub xor_lane :
      (a b : V) (i : ℕ) → i < n.lanes → n.lane (n.ops.xor a b) i ≡ bit_xor (n.lane a i) (n.lane b i)
  pub rol_lane :
      (a : V) (s i : ℕ)
      → i < n.lanes
      → s ≤ 32
      → n.lane (n.ops.rol a s) i ≡ rotate_left (n.lane a i) s
  pub splat_lane : (x i : ℕ) → i < n.lanes → x < 2 ^ 32 → n.lane (n.ops.splat x) i ≡ x
  pub load_lane :
      (rows : ℕ → Bytes) (i : ℕ)
      → i < n.lanes
      → ((j : ℕ) → j < n.lanes → length (rows j) ≡ 64)
      → map (λ v. n.lane v i) (n.load rows) ≡ load_block (rows i)

get_or-map {ℓ κ} :
    {A : Type ℓ} {B : Type κ} (fn : A → B) (xs : List A) (i : ℕ) (d : A)
    → fn (get_or xs i d) ≡ get_or (map fn xs) i (fn d)
get_or-map fn [] i d = refl
get_or-map fn (x ∷ xs) zero d = refl
get_or-map fn (x ∷ xs) (suc i) d = get_or-map fn xs i d

module _ {V : Type 0} (n : Lanes V) (w : IsLaneWise n) (i : ℕ) (inside : i < n.lanes) where
  abbrev at : V → ℕ
  at v = n.lane v i

  f-lane : (x y z : V) → at (f n.ops x y z) ≡ f scalar (at x) (at y) (at z)
  unfolding f
  f-lane x y z = rw (
    w.or_lane (n.ops.and x y) (n.ops.andnot x z) i inside,
    w.and_lane x y i inside,
    w.andnot_lane x z i inside,
  )

  g-lane : (x y z : V) → at (g n.ops x y z) ≡ g scalar (at x) (at y) (at z)
  unfolding g
  g-lane x y z = rw (
    w.or_lane (n.ops.or (n.ops.and x y) (n.ops.and x z)) (n.ops.and y z) i inside,
    w.or_lane (n.ops.and x y) (n.ops.and x z) i inside,
    w.and_lane x y i inside,
    w.and_lane x z i inside,
    w.and_lane y z i inside,
  )

  h-lane : (x y z : V) → at (h n.ops x y z) ≡ h scalar (at x) (at y) (at z)
  unfolding h
  h-lane x y z = rw (w.xor_lane (n.ops.xor x y) z i inside, w.xor_lane x y i inside)

  op1-lane :
      (a b c d k : V) (s : ℕ)
      → s ≤ 32
      → at (op1 n.ops a b c d k s) ≡ op1 scalar (at a) (at b) (at c) (at d) (at k) s
  unfolding op1
  op1-lane a b c d k s small = rw (
    w.rol_lane (n.ops.add (n.ops.add a (f n.ops b c d)) k) s i inside small,
    w.add_lane (n.ops.add a (f n.ops b c d)) k i inside,
    w.add_lane a (f n.ops b c d) i inside,
    f-lane b c d,
  )

  op2-lane :
      (a b c d k : V) (s : ℕ)
      → s ≤ 32
      → at (op2 n.ops a b c d k s) ≡ op2 scalar (at a) (at b) (at c) (at d) (at k) s
  unfolding op2
  op2-lane a b c d k s small =
      let sum = n.ops.add (n.ops.add a (g n.ops b c d)) k in
      rw (
        w.rol_lane (n.ops.add sum (n.ops.splat 0x5A82_7999)) s i inside small,
        w.add_lane sum (n.ops.splat 0x5A82_7999) i inside,
        w.add_lane (n.ops.add a (g n.ops b c d)) k i inside,
        w.add_lane a (g n.ops b c d) i inside,
        g-lane b c d,
        w.splat_lane 0x5A82_7999 i inside (omega arith),
      )

  op3-lane :
      (a b c d k : V) (s : ℕ)
      → s ≤ 32
      → at (op3 n.ops a b c d k s) ≡ op3 scalar (at a) (at b) (at c) (at d) (at k) s
  unfolding op3
  op3-lane a b c d k s small =
      let sum = n.ops.add (n.ops.add a (h n.ops b c d)) k in
      rw (
        w.rol_lane (n.ops.add sum (n.ops.splat 0x6ED9_EBA1)) s i inside small,
        w.add_lane sum (n.ops.splat 0x6ED9_EBA1) i inside,
        w.add_lane (n.ops.add a (h n.ops b c d)) k i inside,
        w.add_lane a (h n.ops b c d) i inside,
        h-lane b c d,
        w.splat_lane 0x6ED9_EBA1 i inside (omega arith),
      )

  word-lane : (words : List V) (j : ℕ) → at (word n.ops words j) ≡ word scalar (map at words) j
  word-lane words j =
      get_or-map at words j (n.ops.splat 0)
      ∙ ap (λ (d : ℕ). get_or (map at words) j d) (w.splat_lane 0 i inside (omega arith))

  round1-lane :
      (words : List V) (j : ℕ) (r : Md4State V)
      → lane_state n (round1 n.ops words j r) i ≡ round1 scalar (map at words) j (lane_state n r i)
  unfolding round1 lane_state
  round1-lane words j r =
      let a = op1 n.ops r.a r.b r.c r.d (word n.ops words j) 3 in
      let d = op1 n.ops r.d a r.b r.c (word n.ops words (j + 1)) 7 in
      let c = op1 n.ops r.c d a r.b (word n.ops words (j + 2)) 11 in
      rw (
        op1-lane r.b c d a (word n.ops words (j + 3)) 19 (omega arith),
        op1-lane r.c d a r.b (word n.ops words (j + 2)) 11 (omega arith),
        op1-lane r.d a r.b r.c (word n.ops words (j + 1)) 7 (omega arith),
        op1-lane r.a r.b r.c r.d (word n.ops words j) 3 (omega arith),
        word-lane words j,
        word-lane words (j + 1),
        word-lane words (j + 2),
        word-lane words (j + 3),
      )

  round2-lane :
      (words : List V) (j : ℕ) (r : Md4State V)
      → lane_state n (round2 n.ops words j r) i ≡ round2 scalar (map at words) j (lane_state n r i)
  unfolding round2 lane_state
  round2-lane words j r =
      let a = op2 n.ops r.a r.b r.c r.d (word n.ops words j) 3 in
      let d = op2 n.ops r.d a r.b r.c (word n.ops words (j + 4)) 5 in
      let c = op2 n.ops r.c d a r.b (word n.ops words (j + 8)) 9 in
      rw (
        op2-lane r.b c d a (word n.ops words (j + 12)) 13 (omega arith),
        op2-lane r.c d a r.b (word n.ops words (j + 8)) 9 (omega arith),
        op2-lane r.d a r.b r.c (word n.ops words (j + 4)) 5 (omega arith),
        op2-lane r.a r.b r.c r.d (word n.ops words j) 3 (omega arith),
        word-lane words j,
        word-lane words (j + 4),
        word-lane words (j + 8),
        word-lane words (j + 12),
      )

  round3-lane :
      (words : List V) (j : ℕ) (r : Md4State V)
      → lane_state n (round3 n.ops words j r) i ≡ round3 scalar (map at words) j (lane_state n r i)
  unfolding round3 lane_state
  round3-lane words j r =
      let a = op3 n.ops r.a r.b r.c r.d (word n.ops words j) 3 in
      let d = op3 n.ops r.d a r.b r.c (word n.ops words (j + 8)) 9 in
      let c = op3 n.ops r.c d a r.b (word n.ops words (j + 4)) 11 in
      rw (
        op3-lane r.b c d a (word n.ops words (j + 12)) 15 (omega arith),
        op3-lane r.c d a r.b (word n.ops words (j + 4)) 11 (omega arith),
        op3-lane r.d a r.b r.c (word n.ops words (j + 8)) 9 (omega arith),
        op3-lane r.a r.b r.c r.d (word n.ops words j) 3 (omega arith),
        word-lane words j,
        word-lane words (j + 8),
        word-lane words (j + 4),
        word-lane words (j + 12),
      )

  -- What a block adds to the state.
  abbrev sums : Md4State ℕ → Md4State ℕ → Md4State ℕ
  sums s r = record {
    a = wrapping_add 32 s.a r.a;
    b = wrapping_add 32 s.b r.b;
    c = wrapping_add 32 s.c r.c;
    d = wrapping_add 32 s.d r.d;
  }

  sums-lane :
      (s r : Md4State V)
      → lane_state n
          (record {
            a = n.ops.add s.a r.a;
            b = n.ops.add s.b r.b;
            c = n.ops.add s.c r.c;
            d = n.ops.add s.d r.d;
          })
          i
        ≡ sums (lane_state n s i) (lane_state n r i)
  unfolding lane_state
  sums-lane s r = rw (
    w.add_lane s.a r.a i inside,
    w.add_lane s.b r.b i inside,
    w.add_lane s.c r.c i inside,
    w.add_lane s.d r.d i inside,
  )

  -- A block absorbed by all lanes is absorbed by each.
  pub process_block-lane :
      (s : Md4State V) (words : List V)
      → lane_state n (process_block n.ops s words) i
        ≡ process_block scalar (lane_state n s i) (map at words)
  unfolding process_block
  process_block-lane s words =
      let r1 =
        round1 n.ops words 12
          (round1 n.ops words 8 (round1 n.ops words 4 (round1 n.ops words 0 s))) in
      let r2 =
        round2 n.ops words 3
          (round2 n.ops words 2 (round2 n.ops words 1 (round2 n.ops words 0 r1))) in
      let r =
        round3 n.ops words 3
          (round3 n.ops words 1 (round3 n.ops words 2 (round3 n.ops words 0 r2))) in
      sums-lane s r ∙ ap (sums (lane_state n s i)) (simp (round3-lane, round2-lane, round1-lane))
