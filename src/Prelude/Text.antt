-- ===== src/Prelude/Text.antt =====
-- Texts: `fmt.Sprintf("%d", n)`, the decimal numeral of an integer, and its reading by
-- `strconv.Atoi`; `strings.TrimSpace` and `strings.ToUpper`.
pub mod Numerals
use Prim.Native.Nat.{ℕ, zero, suc, ◌+◌, ◌-◌, ◌*◌, ◌/◌, ◌%◌, ◌^◌, ◌<◌, ◌≤◌}
use Prim.Native.Char.{Char, code}
use Prim.Native.String.{String, ◌++◌, [], ◌∷◌, char_at}
use mathlib.Core.Bool.{Bool, true, false, ◌&&◌, ◌||◌}
use mathlib.Core.Option.{Option, none, some}
use mathlib.Core.Path.{◌≡◌, refl, ap, ◌∙◌}
use native.Mathlib.Omega.{arith}
use zeus_be.Prelude.Tests.{ltb, leb, ◌==◌, if◌then◌else◌, Bool-cases}
use zeus_be.Prelude.Int.{ℤ, pos, negsuc}
use zeus_be.Prelude.Int64.{IsInt64}

-- The text of the last digit.
abbrev pub digit : ℕ → String
digit d =
    if d == 0
    then "0"
    else if d == 1
    then "1"
    else if d == 2
    then "2"
    else if d == 3
    then "3"
    else if d == 4
    then "4"
    else if d == 5
    then "5"
    else if d == 6
    then "6"
    else if d == 7
    then "7"
    else if d == 8
    then "8"
    else "9"

-- A number has no more digits than its size, so fuel `n + 1` is enough for `n`.
decimal_fuel : ℕ → ℕ → String
decimal_fuel zero n = ""
decimal_fuel (suc f) n =
    let rest = decimal_fuel f (n / 10) ++ digit (n % 10) in if ltb n 10 then digit n else rest

unfoldable pub decimal : ℤ → String
unfolding decimal_fuel
decimal (pos n) = decimal_fuel (n + 1) n
decimal (negsuc n) = "-" ++ decimal_fuel (n + 2) (n + 1)

-- `unicode.IsSpace`.
abbrev is_space : ℕ → Bool
is_space c =
    (leb 9 c && leb c 13)
    || c == 32
    || c == 133
    || c == 160
    || c == 5760
    || (leb 8192 c && leb c 8202)
    || c == 8232
    || c == 8233
    || c == 8239
    || c == 8287
    || c == 12288

unfoldable pub is_blank : String → Bool
is_blank [] = true
is_blank (c ∷ s) = is_space (code c) && is_blank s

pub drop_spaces : String → String
drop_spaces [] = []
drop_spaces (c ∷ s) = let rest = drop_spaces s in if is_space (code c) then rest else c ∷ s

-- Before a text that is blank, a space goes too.
abbrev before : Char → String → String
before c [] = if is_space (code c) then [] else c ∷ []
before c (d ∷ s) = c ∷ d ∷ s

pub drop_trailing : String → String
drop_trailing [] = []
drop_trailing (c ∷ s) = before c (drop_trailing s)

unfoldable pub trim_space : String → String
unfolding drop_spaces drop_trailing
trim_space s = drop_trailing (drop_spaces s)

-- `unicode.ToUpper`, with `others` for what it is on characters that are not ASCII.
abbrev pub upper_char : (Char → Char) → Char → Char
upper_char others c =
    if leb 97 (code c) && leb (code c) 122
    then char_at "ABCDEFGHIJKLMNOPQRSTUVWXYZ" (code c - 97)
    else if ltb (code c) 128
    then c
    else others c

unfoldable pub to_upper : (Char → Char) → String → String
to_upper others [] = []
to_upper others (c ∷ s) = upper_char others c ∷ to_upper others s

-- `unicode.ToLower`, with `others` for what it is on characters that are not ASCII.
abbrev lower_char : (Char → Char) → Char → Char
lower_char others c =
    if leb 65 (code c) && leb (code c) 90
    then char_at "abcdefghijklmnopqrstuvwxyz" (code c - 65)
    else if ltb (code c) 128
    then c
    else others c

unfoldable pub to_lower : (Char → Char) → String → String
to_lower others [] = []
to_lower others (c ∷ s) = lower_char others c ∷ to_lower others s

digits_value : ℕ → String → Option ℕ
digits_value n [] = some n
digits_value n (c ∷ s) =
    let rest = digits_value (n * 10 + (code c - 48)) s in
    if leb 48 (code c) && leb (code c) 57 then rest else none

abbrev at_most : ℕ → (ℕ → ℤ) → Option ℕ → Option ℤ
at_most bound sign none = none
at_most bound sign (some n) = if leb n bound then some (sign n) else none

abbrev negated : ℕ → ℤ
negated zero = pos 0
negated (suc n) = negsuc n

unsigned : String → Option ℕ
unfolding digits_value
unsigned [] = none
unsigned (c ∷ s) = digits_value 0 (c ∷ s)

-- `strconv.Atoi`: none is an error.
unfoldable pub atoi : String → Option ℤ
unfolding unsigned
atoi [] = none
atoi (c ∷ s) =
    if code c == 45
    then at_most (2 ^ 63) negated (unsigned s)
    else if code c == 43
    then at_most (2 ^ 63 - 1) pos (unsigned s)
    else at_most (2 ^ 63 - 1) pos (unsigned (c ∷ s))
