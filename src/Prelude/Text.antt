-- ===== src/Prelude/Text.antt =====
-- `str::trim` and `is_empty` as the code uses them: together they ask whether a text is blank. And the
-- texts that `format!` makes of an index.
-- The table is Unicode's White_Space, which `char::is_whitespace` is documented to follow.
use Prim.Native.Nat.{ℕ, zero, suc, ◌/◌, ◌%◌}
use Prim.Native.Char.{code}
use Prim.Native.String.{String, ◌++◌}
use mathlib.Core.Path.{◌≡◌, refl}
use mathlib.Core.Bool.{Bool, true, false, ◌&&◌, ◌||◌}
use ovca_core.Prelude.Tests.{leb, ltb, ◌==◌, if◌then◌else◌}

is_whitespace : ℕ → Bool
is_whitespace c =
    (leb 0x9 c && leb c 0xd)
    || c == 0x20
    || c == 0x85
    || c == 0xa0
    || c == 0x1680
    || (leb 0x2000 c && leb c 0x200a)
    || c == 0x2028
    || c == 0x2029
    || c == 0x202f
    || c == 0x205f
    || c == 0x3000

-- `s.trim().is_empty()`
unfoldable pub is_blank : String → Bool
unfolding is_whitespace
is_blank String.[] = true
is_blank (String.◌∷◌ c s) = is_whitespace (code c) && is_blank s

is_blank_examples : (is_blank "" ≡ true) × (is_blank " \t" ≡ true) × (is_blank " a " ≡ false)
unfolding is_blank
is_blank_examples = (refl, refl, refl)

digit : ℕ → String
digit n =
    if n == 0
    then "0"
    else if n == 1
    then "1"
    else if n == 2
    then "2"
    else if n == 3
    then "3"
    else if n == 4
    then "4"
    else if n == 5
    then "5"
    else if n == 6
    then "6"
    else if n == 7
    then "7"
    else if n == 8
    then "8"
    else "9"

-- The digits of a number, before those that are there; a number has no more digits than its successor.
digits : ℕ → ℕ → String → String
digits zero n behind = behind
digits (suc fuel) n behind =
    let longer = digits fuel (n / 10) (digit (n % 10) ++ behind) in
    if ltb n 10 then digit n ++ behind else longer

-- `format!("{n}")`
pub decimal : ℕ → String
decimal n = digits (suc n) n ""

decimal_examples : (decimal 0 ≡ "0") × (decimal 7 ≡ "7") × (decimal 1204 ≡ "1204")
unfolding decimal digits digit
decimal_examples = (refl, refl, refl)
