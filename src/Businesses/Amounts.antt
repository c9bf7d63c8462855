-- ===== src/Businesses/Amounts.antt =====
-- What normalizeTurnover returns: the canonical text of an amount, which it gives back unchanged, and
-- which is the same amount.
use youthpreneur_be.Base.{
  ℕ, ◌≤◌, ◌≡◌, refl, ap, ◌∙◌, arith, String, ◌<>◌, Bool, true, false, ◌&&◌, ◌||◌, not, ◌==◌, str_eq,
  if◌then◌else◌, trim_space, inl, inr, Bool-cases,
}
use text.Mathlib.TextLemmas.{nil-append, cons-append}
use Prim.Native.Char.{Char, code}
use youthpreneur_be.Base.Text.{char_length, is_space, trim_left, trim_right}
use youthpreneur_be.Businesses.Turnover.{
  is_digit, are_digits, are_digits_up_to, before_dot, after_dot, pad_fraction, trim_zeros, or_zero,
}

abbrev pub starts_with_zero : String → Bool
starts_with_zero String.[] = false
starts_with_zero (String.◌∷◌ c s) = code c == 48

-- The whole part of an amount: up to thirteen digits, and no zero before others.
abbrev pub IsWhole : String → Type 0
IsWhole i = (are_digits_up_to 13 i ≡ true) × ((str_eq i "0" || not (starts_with_zero i)) ≡ true)

-- The canonical text of a DECIMAL(15, 2) that is not negative.
pub record IsAmount (t : String) : Type 0 where
  pub whole : String
  pub fraction : String
  pub spelled : t ≡ whole <> ("." <> fraction)
  pub is_whole : IsWhole whole
  pub has_two_digits : (are_digits fraction ≡ true) × (char_length fraction ≡ 2)

dot-append : (f : String) → ("." <> f) ≡ String.◌∷◌ "." f
dot-append f = cons-append "." "" f ∙ ap (λ s. String.◌∷◌ "." s) (nil-append f)

before_dot-dot : (f : String) → before_dot ("." <> f) ≡ ""
unfolding before_dot
before_dot-dot f = ap before_dot (dot-append f)

after_dot-dot : (f : String) → after_dot ("." <> f) ≡ f
unfolding after_dot
after_dot-dot f = ap after_dot (dot-append f)

pub digits-before : (i f : String) → are_digits i ≡ true → before_dot (i <> ("." <> f)) ≡ i
unfolding before_dot
digits-before String.[] f h = ap before_dot (nil-append ("." <> f)) ∙ before_dot-dot f
digits-before (String.◌∷◌ c i) f h = ground (arith, digits-before i f, cons-append c i ("." <> f))

pub digits-after : (i f : String) → are_digits i ≡ true → after_dot (i <> ("." <> f)) ≡ f
unfolding after_dot
digits-after String.[] f h = ap after_dot (nil-append ("." <> f)) ∙ after_dot-dot f
digits-after (String.◌∷◌ c i) f h = ground (arith, digits-after i f, cons-append c i ("." <> f))

trim_zeros-digits : (s : String) → are_digits s ≡ true → are_digits (trim_zeros s) ≡ true
unfolding trim_zeros
trim_zeros-digits String.[] h = refl
trim_zeros-digits (String.◌∷◌ c s) h = ground (arith, trim_zeros-digits s)

trim_zeros-length : (s : String) → char_length (trim_zeros s) ≤ char_length s
unfolding trim_zeros
trim_zeros-length String.[] = omega arith
trim_zeros-length (String.◌∷◌ c s) = ground (arith, trim_zeros-length s)

trim_zeros-start : (s : String) → starts_with_zero (trim_zeros s) ≡ false
unfolding trim_zeros
trim_zeros-start String.[] = refl
trim_zeros-start (String.◌∷◌ c s) = ground (arith, trim_zeros-start s)

empty-length : (s : String) → str_eq s "" ≡ false → 1 ≤ char_length s
empty-length String.[] h = absurd (ground arith)
empty-length (String.◌∷◌ c s) h = omega arith

pub or_zero-IsWhole : (i : String) → are_digits_up_to 13 i ≡ true → IsWhole (or_zero (trim_zeros i))
or_zero-IsWhole i h = elim (Bool-cases (str_eq (trim_zeros i) "")) [
  | inl none_left ↦ rw none_left (refl, refl)
  | inr left ↦ ground (
    arith,
    trim_zeros-digits i,
    trim_zeros-length i,
    trim_zeros-start i,
    empty-length (trim_zeros i),
  )
]

digit-zero : (c : Char) → are_digits (String.◌∷◌ c "") ≡ true → are_digits (String.◌∷◌ c "0") ≡ true
digit-zero c h = h

pub pad-digits :
    (f : String)
    → are_digits f ≡ true
    → char_length f ≤ 2
    → (are_digits (pad_fraction f) ≡ true) × (char_length (pad_fraction f) ≡ 2)
unfolding pad_fraction
pad-digits String.[] h k = (refl, refl)
pad-digits (String.◌∷◌ c String.[]) h k =
    let padded = cons-append c "" "0" ∙ ap (λ s. String.◌∷◌ c s) (nil-append "0") in
    (ap are_digits padded ∙ digit-zero c h, ap char_length padded)
pad-digits (String.◌∷◌ c (String.◌∷◌ d String.[])) h k = (ground arith, refl)
pad-digits (String.◌∷◌ c (String.◌∷◌ d (String.◌∷◌ e s))) h k = absurd (ground arith)

-- No space is a digit or a dot, so there is nothing to trim from an amount.
abbrev pub lacks_space : String → Bool
lacks_space String.[] = true
lacks_space (String.◌∷◌ c s) = not (is_space (code c)) && lacks_space s

not-and : (a b : Bool) → (not a && b) ≡ true → (a ≡ false) × (b ≡ true)
not-and a b h = (ground arith, ground arith)

untaken : (a b : Bool) (s t : String) → b ≡ false → (if a && b then s else t) ≡ t
untaken true b s t h = ground arith
untaken false b s t h = refl

trim_left-lacks : (s : String) → lacks_space s ≡ true → trim_left s ≡ s
unfolding trim_left
trim_left-lacks String.[] h = refl
trim_left-lacks (String.◌∷◌ c s) h =
    untaken true (is_space (code c)) _ _ (not-and (is_space (code c)) (lacks_space s) h).0

trim_right-lacks : (s : String) → lacks_space s ≡ true → trim_right s ≡ s
unfolding trim_right
trim_right-lacks String.[] h = refl
trim_right-lacks (String.◌∷◌ c s) h =
    let (printed, rest) = not-and (is_space (code c)) (lacks_space s) h in
    untaken _ (is_space (code c)) _ _ printed ∙ ap (λ x. String.◌∷◌ c x) (trim_right-lacks s rest)

pub trim_space-lacks : (s : String) → lacks_space s ≡ true → trim_space s ≡ s
unfolding trim_space
trim_space-lacks s h = ap trim_right (trim_left-lacks s h) ∙ trim_right-lacks s h

digit-printed : (n : ℕ) → is_digit n ≡ true → is_space n ≡ false
digit-printed n h = ground arith

cons-lacks :
    (c : Char) (s : String)
    → is_space (code c) ≡ false
    → lacks_space s ≡ true
    → lacks_space (String.◌∷◌ c s) ≡ true
cons-lacks c s h k = ap (λ b. not b && lacks_space s) h ∙ k

pub digits-lack : (s : String) → are_digits s ≡ true → lacks_space s ≡ true
digits-lack String.[] h = refl
digits-lack (String.◌∷◌ c s) h =
    let digit : is_digit (code c) ≡ true = ground arith in
    let rest : are_digits s ≡ true = ground arith in
    cons-lacks c s (digit-printed (code c) digit) (digits-lack s rest)

pub amount-lacks :
    (i f : String)
    → are_digits i ≡ true
    → are_digits f ≡ true
    → lacks_space (i <> ("." <> f)) ≡ true
amount-lacks String.[] f h k =
    ap lacks_space (nil-append ("." <> f) ∙ dot-append f) ∙ cons-lacks "." f refl (digits-lack f k)
amount-lacks (String.◌∷◌ c i) f h k =
    let digit : is_digit (code c) ≡ true = ground arith in
    let rest : are_digits i ≡ true = ground arith in
    ap lacks_space (cons-append c i ("." <> f))
    ∙ cons-lacks c (i <> ("." <> f)) (digit-printed (code c) digit) (amount-lacks i f rest k)
