-- ===== src/Patch/Display/Fields.antt =====
-- What the text of an error of src/patch.rs tells: which error it is, and its numbers.
use fast_rsync.Base.{ℕ, List, [], ◌∷◌, drop, get_or, ◌==◌, if◌then◌else◌, none}
use fast_rsync.Base.Text.{Text, text}
use fast_rsync.Base.Text.Numbers.{value}
use fast_rsync.Patch.{
  ApplyError, wrong_magic, unexpected_eof, output_limit, copy_out_of_bounds, copy_zero,
  unknown_command, trailing_data, io,
}
use fast_rsync.Patch.Display.Scan.{fields_in, IsName, before}

-- The number of an error's constructor.
unfoldable pub kind : {E : Type 0} → ApplyError E → ℕ
kind (wrong_magic magic) = 0
kind (unexpected_eof reading expected available) = 1
kind (output_limit what wanted available) = 2
kind (copy_out_of_bounds offset len data_len) = 3
kind copy_zero = 4
kind (unknown_command command) = 5
kind (trailing_data len) = 6
kind (io e) = 7

-- The numbers that an error holds, by the names of its fields; the text writes two of them in
-- hexadecimal, behind `0x`.
unfoldable pub fields : {E : Type 0} → ApplyError E → List (Text × ℕ)
fields (wrong_magic magic) = (text "0x", magic) ∷ []
fields (unexpected_eof reading expected available) =
    (text "expected", expected) ∷ (text "available", available) ∷ []
fields (output_limit what wanted available) =
    (text "wanted", wanted) ∷ (text "available", available) ∷ []
fields (copy_out_of_bounds offset len data_len) =
    (text "offset", offset) ∷ (text "len", len) ∷ (text "data_len", data_len) ∷ []
fields copy_zero = []
fields (unknown_command command) = (text "0x", command) ∷ []
fields (trailing_data len) = (text "len", len) ∷ []
fields (io e) = []

-- Its name for what was read or written.
unfoldable pub what_of : {E : Type 0} → ApplyError E → Text
what_of (wrong_magic magic) = []
what_of (unexpected_eof reading expected available) = text reading
what_of (output_limit what wanted available) = text what
what_of (copy_out_of_bounds offset len data_len) = []
what_of copy_zero = []
what_of (unknown_command command) = []
what_of (trailing_data len) = []
what_of (io e) = []

-- Neither `=` nor `(` stands in that name.
abbrev pub HasName : {E : Type 0} → ApplyError E → Type 0
HasName e = IsName (what_of e)

-- The kind by three of the first twelve characters.
unfoldable pub kind_of : Text → ℕ
kind_of t =
    let first = get_or t 0 0 in
    let second = get_or t 1 0 in
    let twelfth = get_or t 11 0 in
    if first == 99
    then 4
    else if first == 101
    then 2
    else if first == 114
    then 3
    else if first == 105
    then (if second == 110 then 0 else 7)
    else if twelfth == 101
    then 1
    else if twelfth == 99
    then 5
    else 6

-- The hexadecimal number behind the first `0x` of a text of these two kinds, or what stands in it
-- with a `=`.
unfoldable pub fields_of : Text → List (Text × ℕ)
fields_of t =
    let of_kind = kind_of t in
    if of_kind == 0
    then (text "0x", value 16 0 (drop 19 t)) ∷ []
    else if of_kind == 5
    then (text "0x", value 16 0 (drop 27 t)) ∷ []
    else if of_kind == 7
    then []
    else fields_in [] none t

abbrev behind : Text → ℕ → List (Text × ℕ) → List (Text × ℕ)
behind label n ns = (label, n) ∷ ns

-- The name, and a space.
unfoldable pub name_of : Text → Text
name_of t =
    let of_kind = kind_of t in
    if of_kind == 1
    then before (drop 37 t)
    else if of_kind == 2
    then before (drop 40 t)
    else 32 ∷ []
