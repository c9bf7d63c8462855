-- ===== src/Businesses/Turnover.antt =====
-- `normalizeTurnover` of internal/usecase/enterprise_usecase.go, with its pattern.
use youthpreneur_be.Base.{
  ℕ, String, ◌<>◌, Bool, true, false, ◌&&◌, ◌||◌, not, leb, ◌==◌, str_eq, if◌then◌else◌, trim_space,
}
use Prim.Native.Char.{code}
use youthpreneur_be.Base.Text.{char_length}
use youthpreneur_be.Errors.{Result, ok, err, bad_request}

-- `\d`
abbrev pub is_digit : ℕ → Bool
is_digit c = leb 48 c && leb c 57

abbrev pub are_digits : String → Bool
are_digits String.[] = true
are_digits (String.◌∷◌ c s) = is_digit (code c) && are_digits s

-- `strings.Cut(value, ".")`: the part before the first dot, the part after it, and whether it is there.
unfoldable pub before_dot : String → String
before_dot String.[] = String.[]
before_dot (String.◌∷◌ c s) =
    let rest = before_dot s in if code c == 46 then String.[] else String.◌∷◌ c rest

unfoldable pub after_dot : String → String
after_dot String.[] = String.[]
after_dot (String.◌∷◌ c s) = let rest = after_dot s in if code c == 46 then s else rest

unfoldable pub has_dot : String → Bool
has_dot String.[] = false
has_dot (String.◌∷◌ c s) = code c == 46 || has_dot s

-- Digits, at least one and at most `n`.
abbrev pub are_digits_up_to : ℕ → String → Bool
are_digits_up_to n s = are_digits s && leb 1 (char_length s) && leb (char_length s) n

-- `turnoverPattern`: `^\d{1,13}(\.\d{1,2})?$`
unfoldable pub matches_turnover : String → Bool
matches_turnover s =
    are_digits_up_to 13 (before_dot s) && (not (has_dot s) || are_digits_up_to 2 (after_dot s))

-- `for len(fractionPart) < 2 { fractionPart += "0" }`
unfoldable pub pad_fraction : String → String
pad_fraction s =
    if char_length s == 0 then s <> "00" else if char_length s == 1 then s <> "0" else s

-- `strings.TrimLeft(integerPart, "0")`
unfoldable pub trim_zeros : String → String
trim_zeros String.[] = String.[]
trim_zeros (String.◌∷◌ c s) =
    let rest = trim_zeros s in if code c == 48 then rest else String.◌∷◌ c s

abbrev pub or_zero : String → String
or_zero s = if str_eq s "" then "0" else s

unfoldable pub normalize_turnover : String → String → Result String
normalize_turnover field raw =
    let v = trim_space raw in
    if str_eq v ""
    then ok "0.00"
    else if not (matches_turnover v)
    then err (bad_request ("invalid " <> field))
    else ok (or_zero (trim_zeros (before_dot v)) <> ("." <> pad_fraction (after_dot v)))
