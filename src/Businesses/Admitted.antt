-- ===== src/Businesses/Admitted.antt =====
-- That the columns take what the validation of an enterprise lets through.
use youthpreneur_be.Base.{
  ℕ, ◌<>◌, ◌≤◌, ◌≡◌, refl, ap, sym, ◌∙◌, arith, String, Bool, true, false, ◌&&◌, ◌||◌, not, Option,
  some, List, ltb, str_eq, eq_iff, if◌then◌else◌, trim_space, inl, inr, Bool-cases,
}
use youthpreneur_be.Base.Text.{char_length, byte_length}
use text.Mathlib.TextPositions.{len_utf8-pos}
use youthpreneur_be.Errors.{Error, Result, ok, err, bad_request}
use youthpreneur_be.Errors.Chain.{given, given-ok, ok-injective}
use youthpreneur_be.Entity.Business.{
  Enterprise, EnterpriseUpdate, is_one_of, business_sectors, legal_statuses, business_digitizations,
  intervention_needs_labels, process_statuses, general_statuses, enterprise_statuses,
}
use youthpreneur_be.Db.{Env}
use youthpreneur_be.Enterprises.{casts_to_enums, fits_columns, is_nullable_label, cast_columns}
use youthpreneur_be.Enterprises.Invariant.{IsStable}
use youthpreneur_be.Enterprises.Methods.{GivesStable}
use youthpreneur_be.Businesses.Turnover.{normalize_turnover}
use youthpreneur_be.Businesses.Amounts.{IsAmount}
use youthpreneur_be.Businesses.Normalized.{normalize_turnover-canonical}
use youthpreneur_be.Businesses.Input.{
  CreateEnterpriseInput, UpdateEnterpriseInput, normalize_label, validate_business_sector, limited,
  name_of, validated_enterprise, validated_update,
}
use youthpreneur_be.Businesses.Checked.{IsNew, validated_update-ok, validated_enterprise-ok}

-- The column DECIMAL(15, 2) gives a canonical amount back as it is.
abbrev pub KeepsAmounts : Env → Type 0
KeepsAmounts env = (t : String) → IsAmount t → env.decimal t ≡ ok t

-- A test whose negation is an error.
passed :
    (b : Bool) (t : String) (e : Error) {s : String}
    → (if b then ok t else err e) ≡ ok s
    → (b ≡ true) × (t ≡ s)
passed true t e {s = s} h = (refl, ok-injective t s h)
passed false t e h = absurd (ground arith)

-- A test that is an error.
unfailed :
    (b : Bool) (r : Result String) (e : Error) {s : String}
    → (if b then err e else r) ≡ ok s
    → (b ≡ false) × (r ≡ ok s)
unfailed true r e h = absurd (ground arith)
unfailed false r e h = (refl, h)

or-right : (a b : Bool) → b ≡ true → (a || b) ≡ true
or-right true b h = refl
or-right false b h = h

or-left : (a b : Bool) → a ≡ true → (a || b) ≡ true
or-left a b h = ap (λ c. c || b) h

pub normalize_label-ok :
    (labels : List String) (field raw : String) {t : String}
    → normalize_label labels field raw ≡ ok t
    → is_nullable_label labels t ≡ true
unfolding normalize_label
normalize_label-ok labels field raw {t} h = elim (Bool-cases (str_eq (trim_space raw) "")) [
  | inl empty ↦
      let same = ok-injective "" t (
        sym (
          ap
            (λ (b : Bool).
              if b
              then ok ""
              else if is_one_of labels (trim_space raw)
              then ok (trim_space raw)
              else err (bad_request ("invalid " <> field)))
            empty)
        ∙ h) in
      or-left (str_eq t "") (is_one_of labels t) ((eq_iff t "").1 (sym same))
  | inr full ↦
      let (known, same) = passed (is_one_of labels (trim_space raw)) (trim_space raw) _ (
        sym (
          ap
            (λ (b : Bool).
              if b
              then ok ""
              else if is_one_of labels (trim_space raw)
              then ok (trim_space raw)
              else err (bad_request ("invalid " <> field)))
            full)
        ∙ h) in
      or-right (str_eq t "") (is_one_of labels t) (ap (λ x. is_one_of labels x) (sym same) ∙ known)
]

validate_business_sector-ok :
    (raw : String) {t : String}
    → validate_business_sector raw ≡ ok t
    → is_one_of business_sectors t ≡ true
unfolding validate_business_sector
validate_business_sector-ok raw {t} h =
    let (known, same) = passed (is_one_of business_sectors raw) raw _ h in
    ap (λ x. is_one_of business_sectors x) (sym same) ∙ known

char-byte_length : (s : String) → char_length s ≤ byte_length s
char-byte_length String.[] = omega arith
char-byte_length (String.◌∷◌ c s) =
    let (k, more) = len_utf8-pos c in omega (arith, more, char-byte_length s)

-- Few bytes are few characters.
fits-limit :
    (n : ℕ) (s : String) → ltb n (byte_length s) ≡ false → not (ltb n (char_length s)) ≡ true
fits-limit n s h = ground (arith, char-byte_length s)

limited-ok :
    (n : ℕ) (message raw : String) {t : String}
    → limited n message raw ≡ ok t
    → not (ltb n (char_length t)) ≡ true
unfolding limited
limited-ok n message raw {t} h =
    let (short, made) = unfailed (ltb n (byte_length (trim_space raw))) (ok (trim_space raw)) _ h in
    ap (λ x. not (ltb n (char_length x))) (sym (ok-injective (trim_space raw) t made))
    ∙ fits-limit n (trim_space raw) short

name_of-ok :
    (env : Env) (message raw : String) {t : String}
    → name_of env message raw ≡ ok t
    → not (ltb 255 (char_length t)) ≡ true
unfolding name_of
name_of-ok env message raw {t} h =
    let name = env.to_upper (trim_space raw) in
    let (full, rest) = unfailed (str_eq name "") _ _ h in
    let (short, made) = unfailed (ltb 255 (byte_length name)) (ok name) _ rest in
    ap (λ x. not (ltb 255 (char_length x))) (sym (ok-injective name t made))
    ∙ fits-limit 255 name short

pub and-intro : (a b : Bool) → a ≡ true → b ≡ true → (a && b) ≡ true
and-intro true b h k = k
and-intro false b h k = h

module _ (env : Env) (input : CreateEnterpriseInput) (e : Enterprise) (n : IsNew env input e) where
  new-casts_to_enums : casts_to_enums e ≡ true
  unfolding casts_to_enums
  new-casts_to_enums =
      and-intro _ _
        (and-intro _ _
          (and-intro _ _
            (and-intro _ _
              (and-intro _ _
                (and-intro _ _
                  (and-intro _ _
                    (and-intro _ _
                      (validate_business_sector-ok (trim_space input.business_sector)
                        n.business_sector)
                      (normalize_label-ok legal_statuses "legal_status" input.legal_status
                        n.legal_status))
                    (normalize_label-ok business_digitizations "business_digitization"
                      input.business_digitization n.business_digitization))
                  (normalize_label-ok intervention_needs_labels "intervention_needs"
                    input.intervention_needs n.intervention_needs))
                (normalize_label-ok process_statuses "training_status" input.training_status
                  n.training_status))
              (normalize_label-ok process_statuses "mentoring_status" input.mentoring_status
                n.mentoring_status))
            (normalize_label-ok general_statuses "capital_access" input.capital_access
              n.capital_access))
          (normalize_label-ok general_statuses "partnership" input.partnership n.partnership))
        (ap (λ x. is_one_of enterprise_statuses x) n.status)

  new-fits_columns : fits_columns e ≡ true
  unfolding fits_columns
  new-fits_columns =
      and-intro _ _
        (and-intro _ _
          (and-intro _ _
            (name_of-ok env "enterprise_name is required" input.enterprise_name n.enterprise_name)
            (limited-ok 255 "focus_commodity must be at most 255 characters" input.focus_commodity
              n.focus_commodity))
          (ap (λ x. not (ltb 255 (char_length x))) n.dispora_support))
        (limited-ok 128 "district must be at most 128 characters" input.district n.district)

  pub new-IsStable : KeepsAmounts env → IsStable env e
  new-IsStable keeps = (
    keeps e.initial_turnover
        (normalize_turnover-canonical "initial_turnover" input.initial_turnover
          n.initial_turnover).0,
    keeps e.current_turnover
        (normalize_turnover-canonical "current_turnover" input.current_turnover
          n.current_turnover).0,
  )

  new-cast_columns : KeepsAmounts env → cast_columns env e ≡ ok e
  unfolding cast_columns
  new-cast_columns keeps =
      let (initial, current) = new-IsStable keeps in
      let enums = new-casts_to_enums in let lengths = new-fits_columns in ground arith

given-IsAmount :
    (field : String) (raw : Option String) {t : String}
    → given (normalize_turnover field) raw ≡ ok (some t)
    → IsAmount t
given-IsAmount field raw h =
    let (text, _, normal) = given-ok (normalize_turnover field) raw h in
    (normalize_turnover-canonical field text normal).0

module _ (env : Env) (at : ℕ) (input : UpdateEnterpriseInput) where
  pub validated_update-GivesStable :
      {u : EnterpriseUpdate}
      → KeepsAmounts env
      → validated_update env at input ≡ ok u
      → GivesStable env u
  validated_update-GivesStable {u} keeps h =
      let c = (validated_update-ok env at input).at u h in
      record {
        initial = λ t e. keeps t (
            given-IsAmount "initial_turnover" input.initial_turnover
              (c.initial_turnover ∙ ap (λ o. ok o) e));
        current = λ t e. keeps t (
            given-IsAmount "current_turnover" input.current_turnover
              (c.current_turnover ∙ ap (λ o. ok o) e));
      }

-- A creation that passes its validation meets the enumerations, the lengths and the amounts of the
-- columns: the casts of the INSERT give its row back.
pub validated_enterprise-admitted :
    (env : Env) (input : CreateEnterpriseInput) {e : Enterprise}
    → KeepsAmounts env
    → validated_enterprise env input ≡ ok e
    → cast_columns env e ≡ ok e
validated_enterprise-admitted env input {e} keeps h =
    new-cast_columns env input e ((validated_enterprise-ok env input).at e h) keeps
