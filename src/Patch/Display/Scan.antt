-- ===== src/Patch/Display/Scan.antt =====
-- Numbers and names in the texts of src/patch.rs.
use fast_rsync.Base.{
  ℕ, ◌+◌, ◌-◌, ◌*◌, ◌≡◌, refl, ap, ◌∙◌, arith, true, false, ◌&&◌, ◌||◌, List, [], ◌∷◌, ◌++◌, ltb,
  leb, ◌==◌, if◌then◌else◌, Option, none, some, All,
}
use fast_rsync.Base.Text.{Text, decimal}
use fast_rsync.Base.Text.Numbers.{value, digit_value, value-decimal, IsDecimal, decimal-IsDecimal}

-- The word before a `=` in a text with the number behind that, for each `=` in it. `word` is what was
-- read of a word so far, and `some n` what was read of a number.
unfoldable pub fields_in : Text → Option ℕ → Text → List (Text × ℕ)
fields_in word none [] = []
fields_in word (some n) [] = (word, n) ∷ []
fields_in word none (c ∷ cs) =
    let in_number = fields_in word (some 0) cs in
    let next = fields_in (if c == 32 || c == 40 then [] else word ++ (c ∷ [])) none cs in
    if c == 61 then in_number else next
fields_in word (some n) (c ∷ cs) =
    let more = fields_in word (some (n * 10 + (c - 48))) cs in
    let next = fields_in [] none cs in if leb 48 c && leb c 57 then more else (word, n) ∷ next

fields_in-decimals :
    (word ds rest : Text) (n : ℕ)
    → All IsDecimal ds
    → fields_in word (some n) (ds ++ rest) ≡ fields_in word (some (value 10 n ds)) rest
unfolding fields_in value digit_value
fields_in-decimals word [] rest n all = refl
fields_in-decimals word (d ∷ ds) rest n all =
    let is_decimal : (leb 48 d && leb d 57) ≡ true = ground arith in
    let small : ltb d 58 ≡ true = ground arith in
    rw (is_decimal, small) (fields_in-decimals word ds rest (n * 10 + (d - 48)) all.1)

-- A number in a text, with what is behind it.
pub number_then :
    (word : Text) (n : ℕ) (rest : Text)
    → fields_in word (some 0) (decimal n ++ rest) ≡ fields_in word (some n) rest
number_then word n rest =
    fields_in-decimals word (decimal n) rest 0 (decimal-IsDecimal n)
    ∙ ap (λ (m : ℕ). fields_in word (some m) rest) (value-decimal n)

-- A name in which neither `=` nor `(` stands.
abbrev pub IsName : Text → Type 0
IsName name = All (λ c. ((c == 61) ≡ false) × ((c == 40) ≡ false)) name

pub name_then :
    (word name rest : Text)
    → IsName name
    → fields_in word none (name ++ (32 ∷ rest)) ≡ fields_in [] none rest
unfolding fields_in
name_then word [] rest all = refl
name_then word (c ∷ name) rest all =
    rw all.0.0 (name_then (if c == 32 || c == 40 then [] else word ++ (c ∷ [])) name rest all.1)

-- A text up to the first `(`.
unfoldable pub before : Text → Text
before [] = []
before (c ∷ cs) = let rest = before cs in if c == 40 then [] else c ∷ rest

pub before_name :
    (name rest : Text) → IsName name → before (name ++ (32 ∷ 40 ∷ rest)) ≡ name ++ (32 ∷ [])
unfolding before
before_name [] rest all = refl
before_name (c ∷ name) rest all =
    rw all.0.1 (ap (λ (t : Text). c ∷ t) (before_name name rest all.1))
