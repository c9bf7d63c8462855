-- ===== src/Businesses/Normalized.antt =====
-- What normalizeTurnover makes of a text: the canonical text of the same amount.
use youthpreneur_be.Base.{
  ℕ, ◌-◌, ◌+◌, ◌*◌, ◌≤◌, ◌≡◌, refl, ap, sym, ◌∙◌, arith, String, ◌<>◌, Bool, true, false, ◌==◌,
  str_eq, eq_iff, if◌then◌else◌, ◌⊎◌, trim_space, inl, inr, Bool-cases,
}
use Prim.Native.Char.{Char, code}
use text.Mathlib.TextLemmas.{nil-append, cons-append}
use youthpreneur_be.Base.Text.{char_length}
use youthpreneur_be.Errors.{ok}
use youthpreneur_be.Businesses.Turnover.{
  are_digits, are_digits_up_to, before_dot, after_dot, has_dot, matches_turnover, pad_fraction,
  trim_zeros, or_zero, normalize_turnover,
}
use youthpreneur_be.Businesses.Amounts.{
  IsAmount, IsWhole, digits-before, digits-after, or_zero-IsWhole, pad-digits, lacks_space,
  amount-lacks, trim_space-lacks,
}

-- Digits read as a number, after those of `acc`.
abbrev pub number : ℕ → String → ℕ
number acc String.[] = acc
number acc (String.◌∷◌ c s) = number (acc * 10 + (code c - 48)) s

-- The hundredths that a fraction of at most two digits stands for.
abbrev pub hundredths : String → ℕ
hundredths f = if char_length f == 1 then number 0 f * 10 else number 0 f

-- A text in hundredths of a unit.
unfoldable pub cents : String → ℕ
cents s = number 0 (before_dot s) * 100 + hundredths (after_dot s)

number-trim_zeros : (s : String) → number 0 (trim_zeros s) ≡ number 0 s
unfolding trim_zeros
number-trim_zeros String.[] = refl
number-trim_zeros (String.◌∷◌ c s) = ground (arith, number-trim_zeros s)

number-or_zero : (s : String) → number 0 (or_zero s) ≡ number 0 s
number-or_zero s =
    let taken = λ (b : Bool). number 0 (if b then "0" else s) in
    elim (Bool-cases (str_eq s "")) [
      | inl empty ↦ ap taken empty ∙ ap (λ x. number 0 x) (sym ((eq_iff s "").0 empty))
      | inr full ↦ ap taken full
    ]

hundredths-pad : (f : String) → char_length f ≤ 2 → hundredths (pad_fraction f) ≡ hundredths f
unfolding pad_fraction
hundredths-pad String.[] h = refl
hundredths-pad (String.◌∷◌ c String.[]) h =
    ap (λ s. hundredths s) (cons-append c "" "0" ∙ ap (λ s. String.◌∷◌ c s) (nil-append "0"))
    ∙ omega arith
hundredths-pad (String.◌∷◌ c (String.◌∷◌ d String.[])) h = refl
hundredths-pad (String.◌∷◌ c (String.◌∷◌ d (String.◌∷◌ e s))) h = absurd (ground arith)

pad-two : (f : String) → char_length f ≡ 2 → pad_fraction f ≡ f
unfolding pad_fraction
pad-two f h = ground arith

-- An amount is matched, and its parts are where the dot is.
amount-matches :
    (i f : String)
    → are_digits_up_to 13 i ≡ true
    → are_digits f ≡ true
    → char_length f ≡ 2
    → matches_turnover (i <> ("." <> f)) ≡ true
unfolding matches_turnover
amount-matches i f h k l =
    let digits : are_digits i ≡ true = ground arith in
    let before = digits-before i f digits in let after = digits-after i f digits in ground arith

or_zero-cons : (c : Char) (s : String) → or_zero (String.◌∷◌ c s) ≡ String.◌∷◌ c s
or_zero-cons c s = elim (Bool-cases (str_eq (String.◌∷◌ c s) "")) [
  | inl empty ↦
      let same = ap (λ x. char_length x) ((eq_iff (String.◌∷◌ c s) "").0 empty) in
      absurd (omega arith)
  | inr full ↦ ap (λ (b : Bool). if b then "0" else String.◌∷◌ c s) full
]

trim_zeros-whole : (i : String) → IsWhole i → or_zero (trim_zeros i) ≡ i
unfolding trim_zeros
trim_zeros-whole String.[] h = absurd (ground arith)
trim_zeros-whole (String.◌∷◌ c s) h = elim (Bool-cases (str_eq (String.◌∷◌ c s) "0")) [
  | inl zero ↦
      let same = (eq_iff (String.◌∷◌ c s) "0").0 zero in
      ap (λ x. or_zero (trim_zeros x)) same ∙ sym same
  | inr other ↦
      let kept : trim_zeros (String.◌∷◌ c s) ≡ String.◌∷◌ c s = ground arith in
      ap (λ x. or_zero x) kept ∙ or_zero-cons c s
]

no_dot-after : (s : String) → has_dot s ≡ false → after_dot s ≡ ""
unfolding has_dot after_dot
no_dot-after String.[] h = refl
no_dot-after (String.◌∷◌ c s) h = ground (arith, no_dot-after s)

-- What a matched text is made of.
matched-parts :
    (s : String)
    → matches_turnover s ≡ true
    → (are_digits_up_to 13 (before_dot s) ≡ true)
      × (are_digits (after_dot s) ≡ true)
      × (char_length (after_dot s) ≤ 2)
unfolding matches_turnover
matched-parts s h = elim (Bool-cases (has_dot s)) [
  | inl dot ↦ (ground arith, ground arith, ground arith)
  | inr no_dot ↦
      let none_after = no_dot-after s no_dot in
      (
        ground arith,
        ap (λ x. are_digits x) none_after,
        ground (arith, ap (λ x. char_length x) none_after),
      )
]

abbrev canonical : String → String
canonical s = or_zero (trim_zeros (before_dot s)) <> ("." <> pad_fraction (after_dot s))

normalize_turnover-ok :
    (field raw : String) {t : String}
    → normalize_turnover field raw ≡ ok t
    → ((trim_space raw ≡ "") × (t ≡ "0.00"))
      ⊎ ((matches_turnover (trim_space raw) ≡ true) × (t ≡ canonical (trim_space raw)))
unfolding normalize_turnover
normalize_turnover-ok field raw {t} h = elim (Bool-cases (str_eq (trim_space raw) "")) [
  | inl empty ↦ inl ((eq_iff (trim_space raw) "").0 empty, ground arith)
  | inr full ↦ inr (ground arith, ground arith)
]

normalize_turnover-IsAmount :
    (field raw : String) {t : String} → normalize_turnover field raw ≡ ok t → IsAmount t
normalize_turnover-IsAmount field raw {t} h = elim (normalize_turnover-ok field raw h) [
  | inl (empty, zero) ↦ record {
    whole = "0";
    fraction = "00";
    spelled = zero;
    is_whole = (refl, refl);
    has_two_digits = (refl, refl);
  }
  | inr (matched, made) ↦
      let (digits, rest, short) = matched-parts (trim_space raw) matched in
      record {
        whole = or_zero (trim_zeros (before_dot (trim_space raw)));
        fraction = pad_fraction (after_dot (trim_space raw));
        spelled = made;
        is_whole = or_zero-IsWhole (before_dot (trim_space raw)) digits;
        has_two_digits = pad-digits (after_dot (trim_space raw)) rest short;
      }
]

matched-full : (s : String) → matches_turnover s ≡ true → str_eq s "" ≡ false
unfolding matches_turnover before_dot
matched-full s h = elim (Bool-cases (str_eq s "")) [
  | inl empty ↦ let nothing = ap matches_turnover ((eq_iff s "").0 empty) in absurd (ground arith)
  | inr full ↦ full
]

normalize_turnover-trimmed :
    (field t : String)
    → trim_space t ≡ t
    → matches_turnover t ≡ true
    → normalize_turnover field t ≡ ok (canonical t)
unfolding normalize_turnover
normalize_turnover-trimmed field t trimmed matched = ground (arith, matched-full t)

normalize_turnover-amount : (field t : String) → IsAmount t → normalize_turnover field t ≡ ok t
normalize_turnover-amount field t a =
    let i = a.whole in
    let f = a.fraction in
    let digits : are_digits i ≡ true = ground (arith, a.is_whole.0) in
    let trimmed =
      trim_space-lacks t
        (ap (λ x. lacks_space x) a.spelled ∙ amount-lacks i f digits a.has_two_digits.0) in
    let matched =
      ap matches_turnover a.spelled
      ∙ amount-matches i f a.is_whole.0 a.has_two_digits.0 a.has_two_digits.1 in
    let before = ap before_dot a.spelled ∙ digits-before i f digits in
    let after = ap after_dot a.spelled ∙ digits-after i f digits in
    let whole = trim_zeros-whole i a.is_whole in
    let padded = pad-two f a.has_two_digits.1 in
    let made =
      ap (λ x. or_zero (trim_zeros x) <> ("." <> pad_fraction (after_dot t))) before
      ∙ ap (λ x. x <> ("." <> pad_fraction (after_dot t))) whole
      ∙ ap (λ x. i <> ("." <> pad_fraction x)) after
      ∙ ap (λ x. i <> ("." <> x)) padded
      ∙ sym a.spelled in
    normalize_turnover-trimmed field t trimmed matched ∙ ap (λ x. ok x) made

canonical-cents : (s : String) → matches_turnover s ≡ true → cents (canonical s) ≡ cents s
unfolding cents
canonical-cents s matched =
    let (digits, rest, short) = matched-parts s matched in
    let whole = or_zero (trim_zeros (before_dot s)) in
    let fraction = pad_fraction (after_dot s) in
    let is_whole = or_zero-IsWhole (before_dot s) digits in
    let whole_digits : are_digits whole ≡ true = ground (arith, is_whole.0) in
    let before = ap (λ x. number 0 x) (digits-before whole fraction whole_digits) in
    let after = ap (λ x. hundredths x) (digits-after whole fraction whole_digits) in
    let same_whole =
      number-or_zero (trim_zeros (before_dot s)) ∙ number-trim_zeros (before_dot s) in
    let same_fraction = hundredths-pad (after_dot s) short in omega arith

zero-cents : cents "0.00" ≡ cents ""
unfolding cents before_dot after_dot
zero-cents = refl

normalize_turnover-cents :
    (field raw : String) {t : String}
    → normalize_turnover field raw ≡ ok t
    → cents t ≡ cents (trim_space raw)
unfolding normalize_turnover
normalize_turnover-cents field raw {t} h = elim (normalize_turnover-ok field raw h) [
  | inl (empty, zero) ↦ ap cents zero ∙ zero-cents ∙ sym (ap cents empty)
  | inr (matched, made) ↦ ap cents made ∙ canonical-cents (trim_space raw) matched
]

-- A turnover that normalizeTurnover accepts comes out as the canonical text of the amount that was
-- given, and that text is one that normalizeTurnover gives back unchanged.
pub normalize_turnover-canonical :
    (field raw : String) {t : String}
    → normalize_turnover field raw ≡ ok t
    → IsAmount t × (normalize_turnover field t ≡ ok t) × (cents t ≡ cents (trim_space raw))
normalize_turnover-canonical field raw {t} h =
    let amount = normalize_turnover-IsAmount field raw h in
    (amount, normalize_turnover-amount field t amount, normalize_turnover-cents field raw h)
