-- ===== src/Base/Text.antt =====
-- Texts as lists of code points, and how `{}` and `{:0w x}` of the standard library write numbers.
pub mod Numbers
use Prim.Native.Nat.{ℕ, zero, suc, ◌+◌, ◌-◌, ◌/◌, ◌%◌}
use Prim.Native.Char.{code}
use Prim.Native.String.{String}
use mathlib.Core.List.{List, [], ◌∷◌, ◌++◌}
use fast_rsync.Base.Lists.{length, replicate}
use fast_rsync.Base.Tests.{ltb, if◌then◌else◌}

abbrev pub Text : Type 0
Text = List ℕ

-- The code points of a string.
abbrev pub text : String → Text
text String.[] = []
text (String.◌∷◌ c s) = code c ∷ text s

-- The digits are 0 to 9 and a to f.
unfoldable pub digit : ℕ → ℕ
digit n = if ltb n 10 then 48 + n else 87 + n

-- The digits of a number, where fuel above the number is enough.
unfoldable pub digits : ℕ → ℕ → ℕ → Text
digits base zero n = []
digits base (suc fuel) n =
    let rest = digits base fuel (n / base) in
    if ltb n base then digit n ∷ [] else rest ++ (digit (n % base) ∷ [])

-- `{}` of an unsigned integer.
unfoldable pub decimal : ℕ → Text
decimal n = digits 10 (suc n) n

-- `{:0wx}`
unfoldable pub hex : ℕ → ℕ → Text
hex width n = let ds = digits 16 (suc n) n in replicate (width - length ds) 48 ++ ds
