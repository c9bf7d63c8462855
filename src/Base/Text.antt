-- ===== src/Base/Text.antt =====
-- What the program uses of Go's `strings` package, over the native text.
use Prim.Native.Nat.{ℕ, ◌+◌, ◌/◌, ◌%◌}
use Prim.Native.Char.{code, len_utf8}
use Prim.Native.String.{String, ◌++◌ as ◌<>◌}
use mathlib.Core.Bool.{Bool, true, false, ◌||◌, ◌&&◌, not}
use text.Mathlib.Text.{find?}
use youthpreneur_be.Base.Tests.{is_null, leb, ◌==◌, if◌then◌else◌}

-- `unicode.IsSpace`
abbrev pub is_space : ℕ → Bool
is_space c =
    (leb 9 c && leb c 13)
    || c == 0x20
    || c == 0x85
    || c == 0xa0
    || c == 0x1680
    || (leb 0x2000 c && leb c 0x200a)
    || c == 0x2028
    || c == 0x2029
    || c == 0x202f
    || c == 0x205f
    || c == 0x3000

-- `strings.TrimSpace`: the front, then the back.
unfoldable pub trim_left : String → String
trim_left String.[] = String.[]
trim_left (String.◌∷◌ c s) =
    let rest = trim_left s in if is_space (code c) then rest else String.◌∷◌ c s

is_empty : String → Bool
is_empty String.[] = true
is_empty (String.◌∷◌ c s) = false

unfoldable pub trim_right : String → String
unfolding is_empty
trim_right String.[] = String.[]
trim_right (String.◌∷◌ c s) =
    let rest = trim_right s in
    if is_empty rest && is_space (code c) then String.[] else String.◌∷◌ c rest

unfoldable pub trim_space : String → String
unfolding trim_left trim_right
trim_space s = trim_right (trim_left s)

-- `strings.Contains`
abbrev pub contains : String → String → Bool
contains s t = not (is_null (find? s t))

-- A digit of `%x`, and below ten of `%d`.
unfoldable pub hex_digit : ℕ → String
hex_digit n =
    if leb n 9
    then (if n == 0
        then "0"
        else if n == 1
        then "1"
        else if n == 2
        then "2"
        else if n == 3
        then "3"
        else if n == 4
        then "4"
        else if n == 5
        then "5"
        else if n == 6
        then "6"
        else if n == 7
        then "7"
        else if n == 8
        then "8"
        else "9")
    else (if n == 10
        then "a"
        else if n == 11
        then "b"
        else if n == 12
        then "c"
        else if n == 13
        then "d"
        else if n == 14
        then "e"
        else "f")

-- `%06d` of a number of at most six digits
unfoldable pub six_digits : ℕ → String
unfolding hex_digit
six_digits n =
    hex_digit (n / 100000 % 10)
    <> (hex_digit (n / 10000 % 10)
        <> (hex_digit (n / 1000 % 10)
            <> (hex_digit (n / 100 % 10) <> (hex_digit (n / 10 % 10) <> hex_digit (n % 10)))))

-- The length that VARCHAR limits: its characters.
abbrev pub char_length : String → ℕ
char_length String.[] = 0
char_length (String.◌∷◌ c s) = 1 + char_length s

-- `len` of a string: its bytes in UTF-8.
abbrev pub byte_length : String → ℕ
byte_length String.[] = 0
byte_length (String.◌∷◌ c s) = len_utf8 c + byte_length s
