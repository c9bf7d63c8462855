-- ===== src/Accounts/Validation.antt =====
-- The checks of input in internal/usecase/user_usecase.go: passwords, genders and email addresses.
use Prim.Native.Char.{Char, code}
use youthpreneur_be.Base.{
  ℕ, String, Bool, true, false, ◌&&◌, ◌||◌, not, ltb, ◌==◌, str_eq, if◌then◌else◌,
}
use youthpreneur_be.Base.Text.{byte_length}
use youthpreneur_be.Errors.{bad_request, Result, ok, err}

abbrev pub min_password_length : ℕ
min_password_length = 8

abbrev pub max_password_length : ℕ
max_password_length = 72

-- `ValidatePassword`
unfoldable pub validate_password : String → Result (Unit {0})
validate_password p =
    if ltb (byte_length p) min_password_length
    then err (bad_request "password must be at least 8 characters")
    else if ltb max_password_length (byte_length p)
    then err (bad_request "password must be at most 72 bytes")
    else ok tt

-- `validateGender`: "", "male" and "female"
unfoldable pub validate_gender : String → Result (Unit {0})
validate_gender g =
    if str_eq g "" || str_eq g "male" || str_eq g "female"
    then ok tt
    else err (bad_request "invalid gender")

-- The class `[^@\s]` of `emailPattern`.
abbrev pub is_address_char : Char → Bool
is_address_char c = not (
    code c == 0x40 || code c == 9 || code c == 10 || code c == 12 || code c == 13 || code c == 0x20)

-- `[^@\s]*$`: whether every character of a text is one of the class.
abbrev all_address_chars : String → Bool
all_address_chars String.[] = true
all_address_chars (String.◌∷◌ c s) = is_address_char c && all_address_chars s

abbrev is_empty : String → Bool
is_empty String.[] = true
is_empty (String.◌∷◌ c s) = false

-- `\.[^@\s]+$` at the start of a text
abbrev matches_dot : String → Bool
matches_dot String.[] = false
matches_dot (String.◌∷◌ c s) = code c == 0x2e && not (is_empty s) && all_address_chars s

-- `[^@\s]*\.[^@\s]+$`
abbrev matches_domain_rest : String → Bool
matches_domain_rest String.[] = false
matches_domain_rest (String.◌∷◌ c s) =
    matches_dot (String.◌∷◌ c s) || (is_address_char c && matches_domain_rest s)

-- `[^@\s]+\.[^@\s]+$`
abbrev matches_domain : String → Bool
matches_domain String.[] = false
matches_domain (String.◌∷◌ c s) = is_address_char c && matches_domain_rest s

-- `[^@\s]*@[^@\s]+\.[^@\s]+$`
abbrev matches_address_rest : String → Bool
matches_address_rest String.[] = false
matches_address_rest (String.◌∷◌ c s) =
    (code c == 0x40 && matches_domain s) || (is_address_char c && matches_address_rest s)

-- `emailPattern`, `^[^@\s]+@[^@\s]+\.[^@\s]+$`
abbrev pub matches_email_pattern : String → Bool
matches_email_pattern String.[] = false
matches_email_pattern (String.◌∷◌ c s) = is_address_char c && matches_address_rest s

-- `ValidateEmail`
unfoldable pub validate_email : String → Result (Unit {0})
validate_email e = if matches_email_pattern e then ok tt else err (bad_request "invalid email")
