-- ===== src/Delta/Windows.antt =====
-- Windows of the data, as the scan of src/diff.rs moves them by one byte.
use fast_rsync.Base.{
  ℕ, zero, suc, ◌+◌, ◌≤◌, ◌<◌, ◌≡◌, refl, ap, ◌∙◌, arith, [], ◌∷◌, ◌++◌, Bytes, length, length-take,
  length-drop, take, drop, get_elem?, some,
}
use fast_rsync.Crc.{Crc, update, rotate}
use fast_rsync.Crc
use fast_rsync.Crc.Rolling.{rotate-update}

abbrev pub window : ℕ → ℕ → Bytes → Bytes
window size here input = take size (drop here input)

-- What the window at `here` and the next one have in common.
pub record Moves (size here : ℕ) (input : Bytes) : Type 0 where
  pub old : ℕ
  pub new : ℕ
  pub mid : Bytes
  pub at_front : get_elem? input here ≡ some old
  pub behind : get_elem? input (here + size) ≡ some new
  pub before : window size here input ≡ old ∷ mid
  pub after : window size (here + 1) input ≡ mid ++ (new ∷ [])

take-suc :
    (k : ℕ) (xs : Bytes)
    → k < length xs
    → (x : ℕ) × (get_elem? xs k ≡ some x) × (take (suc k) xs ≡ take k xs ++ (x ∷ []))
take-suc k [] h = absurd (omega arith)
take-suc zero (x ∷ xs) h = (x, refl, refl)
take-suc (suc k) (x ∷ xs) h =
    let (y, e, e') = take-suc k xs (omega arith) in (y, e, ap (λ (t : Bytes). cons x t) e')
  where
    cons : ℕ → Bytes → Bytes
    cons b bs = b ∷ bs

moves : (k here : ℕ) (input : Bytes) → here + suc k < length input → Moves (suc k) here input
moves k here [] h = absurd (omega arith)
moves k zero (x ∷ xs) h =
    let (y, e, e') = take-suc k xs (omega arith) in
    let z : 0 + suc k ≡ suc k = omega arith in
    let o : 0 + 1 ≡ suc 0 = omega arith in
    record {
      old = x;
      new = y;
      mid = take k xs;
      at_front = refl;
      behind = ap (get_elem? (x ∷ xs)) z ∙ e;
      before = refl;
      after = ap (λ (n : ℕ). window (suc k) n (x ∷ xs)) o ∙ e';
    }
moves k (suc here) (x ∷ xs) h =
    let m = moves k here xs (omega arith) in
    let e : suc here + suc k ≡ suc (here + suc k) = omega arith in
    let e' : suc here + 1 ≡ suc (here + 1) = omega arith in
    record {
      old = m.old;
      new = m.new;
      mid = m.mid;
      at_front = m.at_front;
      behind = rw e m.behind;
      before = m.before;
      after = rw e' m.after;
    }

pub Moves-window :
    (size here : ℕ) (input : Bytes) → 1 ≤ size → here + size < length input → Moves size here input
Moves-window zero here input lo h = absurd (omega arith)
Moves-window (suc k) here input lo h = moves k here input h

pub length-window :
    (size here : ℕ) (input : Bytes)
    → here + size ≤ length input
    → length (window size here input) ≡ size
length-window size here input h =
    omega (arith, length-take size (drop here input), length-drop here input)

-- The rotated checksum of a window is that of the next.
pub rotate-window :
    (size here : ℕ) (input : Bytes) (m : Moves size here input)
    → here + size ≤ length input
    → rotate (update Crc.empty (window size here input)) size m.old m.new
      ≡ update Crc.empty (window size (here + 1) input)
rotate-window size here input m h =
    rw (m.before, m.after)
      (ap (λ (n : ℕ). rotate (update Crc.empty (m.old ∷ m.mid)) n m.old m.new) size_eq
        ∙ rotate-update m.old m.new m.mid)
  where
    size_eq : size ≡ length (m.old ∷ m.mid)
    size_eq = omega (arith, length-window size here input h, ap length m.before)
