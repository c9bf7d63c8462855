-- ===== src/Enterprises/Recorded.antt =====
-- That the entries of an update record what it changes.
use youthpreneur_be.Base.{
  ◌≡◌, refl, ap, sym, ◌∙◌, arith, String, Bool, true, Option, none, some, List, [], ◌∷◌, ◌++◌,
  str_eq, eq_iff, if◌then◌else◌, find, exists, inl, inr, Bool-cases, Option-cases,
}
use youthpreneur_be.Entity.Business.{
  Enterprise, EnterpriseUpdate, ChangedFields, nullable_audit_value,
}
use youthpreneur_be.Catalogs.{or_else}
use youthpreneur_be.Enterprises.Merge.{changed_field, changed_fields, merged}
use youthpreneur_be.Enterprises.Trail.{
  Column, key, value, entry, text_of, set_to, value_after, text_of-nullable,
}

given : Column → EnterpriseUpdate → Option String
given Column.enterprise_name u = u.enterprise_name
given Column.description u = u.description
given Column.address u = u.address
given Column.focus_commodity u = u.focus_commodity
given Column.dispora_support u = u.dispora_support
given Column.business_sector u = u.business_sector
given Column.legal_status u = u.legal_status
given Column.business_digitization u = u.business_digitization
given Column.intervention_needs u = u.intervention_needs
given Column.training_status u = u.training_status
given Column.mentoring_status u = u.mentoring_status
given Column.capital_access u = u.capital_access
given Column.partnership u = u.partnership
given Column.initial_turnover u = u.initial_turnover
given Column.current_turnover u = u.current_turnover
given Column.district u = u.district
given Column.status u = u.status

encode : Column → String → Option String
encode Column.enterprise_name = some
encode Column.business_sector = some
encode Column.initial_turnover = some
encode Column.current_turnover = some
encode Column.status = some
encode _ = nullable_audit_value

abbrev columns : List Column
columns =
    Column.enterprise_name ∷ Column.description ∷ Column.address ∷ Column.focus_commodity
    ∷ Column.dispora_support ∷ Column.business_sector ∷ Column.legal_status
    ∷ Column.business_digitization ∷ Column.intervention_needs ∷ Column.training_status
    ∷ Column.mentoring_status ∷ Column.capital_access ∷ Column.partnership ∷ Column.initial_turnover
    ∷ Column.current_turnover ∷ Column.district ∷ Column.status ∷ []

text_of-encode : (c : Column) (s : String) → text_of (encode c s) ≡ s
unfolding encode
text_of-encode Column.enterprise_name s = refl
text_of-encode Column.description s = text_of-nullable s
text_of-encode Column.address s = text_of-nullable s
text_of-encode Column.focus_commodity s = text_of-nullable s
text_of-encode Column.dispora_support s = text_of-nullable s
text_of-encode Column.business_sector s = refl
text_of-encode Column.legal_status s = text_of-nullable s
text_of-encode Column.business_digitization s = text_of-nullable s
text_of-encode Column.intervention_needs s = text_of-nullable s
text_of-encode Column.training_status s = text_of-nullable s
text_of-encode Column.mentoring_status s = text_of-nullable s
text_of-encode Column.capital_access s = text_of-nullable s
text_of-encode Column.partnership s = text_of-nullable s
text_of-encode Column.initial_turnover s = refl
text_of-encode Column.current_turnover s = refl
text_of-encode Column.district s = text_of-nullable s
text_of-encode Column.status s = refl

column_of : String → Option Column
column_of k = find (λ c. str_eq (key c) k) columns

column_of-key : (c : Column) → column_of (key c) ≡ some c
unfolding column_of
column_of-key Column.enterprise_name = refl
column_of-key Column.description = refl
column_of-key Column.address = refl
column_of-key Column.focus_commodity = refl
column_of-key Column.dispora_support = refl
column_of-key Column.business_sector = refl
column_of-key Column.legal_status = refl
column_of-key Column.business_digitization = refl
column_of-key Column.intervention_needs = refl
column_of-key Column.training_status = refl
column_of-key Column.mentoring_status = refl
column_of-key Column.capital_access = refl
column_of-key Column.partnership = refl
column_of-key Column.initial_turnover = refl
column_of-key Column.current_turnover = refl
column_of-key Column.district = refl
column_of-key Column.status = refl

key-injective : (a b : Column) → str_eq (key a) (key b) ≡ true → a ≡ b
key-injective a b same =
    let found =
      sym (column_of-key a) ∙ ap column_of ((eq_iff (key a) (key b)).0 same) ∙ column_of-key b in
    ap (λ o. elim o [ none ↦ a | some x ↦ x ]) found

-- The entries of an update for a list of columns.
entries : Enterprise → EnterpriseUpdate → List Column → ChangedFields
entries locked u [] = []
entries locked u (c ∷ cs) =
    changed_field (key c) (encode c) (given c u) (value c locked) ++ entries locked u cs

entries-columns :
    (locked : Enterprise) (u : EnterpriseUpdate)
    → entries locked u columns ≡ changed_fields locked u
unfolding entries encode given changed_fields
entries-columns locked u = refl

abbrev mentions : Column → List Column → Bool
mentions c cs = exists (λ b. str_eq (key b) (key c)) cs

mentions-columns : (c : Column) → mentions c columns ≡ true
mentions-columns Column.enterprise_name = refl
mentions-columns Column.description = refl
mentions-columns Column.address = refl
mentions-columns Column.focus_commodity = refl
mentions-columns Column.dispora_support = refl
mentions-columns Column.business_sector = refl
mentions-columns Column.legal_status = refl
mentions-columns Column.business_digitization = refl
mentions-columns Column.intervention_needs = refl
mentions-columns Column.training_status = refl
mentions-columns Column.mentoring_status = refl
mentions-columns Column.capital_access = refl
mentions-columns Column.partnership = refl
mentions-columns Column.initial_turnover = refl
mentions-columns Column.current_turnover = refl
mentions-columns Column.district = refl
mentions-columns Column.status = refl

merged-value :
    (c : Column) (locked : Enterprise) (u : EnterpriseUpdate)
    → value c (merged locked u) ≡ or_else (given c u) (value c locked)
unfolding merged given
merged-value Column.enterprise_name locked u = refl
merged-value Column.description locked u = refl
merged-value Column.address locked u = refl
merged-value Column.focus_commodity locked u = refl
merged-value Column.dispora_support locked u = refl
merged-value Column.business_sector locked u = refl
merged-value Column.legal_status locked u = refl
merged-value Column.business_digitization locked u = refl
merged-value Column.intervention_needs locked u = refl
merged-value Column.training_status locked u = refl
merged-value Column.mentoring_status locked u = refl
merged-value Column.capital_access locked u = refl
merged-value Column.partnership locked u = refl
merged-value Column.initial_turnover locked u = refl
merged-value Column.current_turnover locked u = refl
merged-value Column.district locked u = refl
merged-value Column.status locked u = refl

entry-append :
    (k : String) (xs ys : ChangedFields)
    → entry k (xs ++ ys) ≡ elim (entry k xs) [ none ↦ entry k ys | some v ↦ some v ]
entry-append k [] ys = refl
entry-append k (x ∷ xs) ys = ground (arith, entry-append k xs ys)

changed_entry :
    (k : String) (f : String → Option String) (o : Option String) (old : String) (j : String)
    → entry j (changed_field k f o old)
      ≡ (if str_eq k j then entry k (changed_field k f o old) else none)
unfolding changed_field
changed_entry k f none old j = ground arith
changed_entry k f (some new) old j = ground (arith, eq_iff k j, eq_iff k k)

-- What an update says of a column.
said : (c : Column) (locked : Enterprise) (u : EnterpriseUpdate) → Option (Option String)
said c locked u = entry (key c) (changed_field (key c) (encode c) (given c u) (value c locked))

said-told :
    (c : Column) (locked : Enterprise) (u : EnterpriseUpdate)
    → set_to (said c locked u) (value c locked) ≡ or_else (given c u) (value c locked)
unfolding said changed_field
said-told c locked u = elim (Option-cases (given c u)) [
  | inl missing ↦ ground arith
  | inr (new, present) ↦
      ground (arith, eq_iff new (value c locked), text_of-encode c new, eq_iff (key c) (key c))
]

entry-entries :
    (c : Column) (locked : Enterprise) (u : EnterpriseUpdate) (cs : List Column)
    → entry (key c) (entries locked u cs) ≡ (if mentions c cs then said c locked u else none)
unfolding entries said
entry-entries c locked u [] = refl
entry-entries c locked u (b ∷ cs) =
    let first = changed_field (key b) (encode b) (given b u) (value b locked) in
    let step = entry-append (key c) first (entries locked u cs) in
    let here = changed_entry (key b) (encode b) (given b u) (value b locked) (key c) in
    let rest = entry-entries c locked u cs in
    elim (Bool-cases (str_eq (key b) (key c))) [
      | inl same ↦
          let equal = ap (λ x. said x locked u) (key-injective b c same) in
          ground (arith, step, here, rest, equal)
      | inr other ↦ ground (arith, step, here, rest)
    ]

-- The entries of an update take the value of every column to that of the merged row.
pub changed_fields-told :
    (locked : Enterprise) (u : EnterpriseUpdate) (c : Column)
    → value_after (key c) (changed_fields locked u) (value c locked) ≡ value c (merged locked u)
unfolding value_after
changed_fields-told locked u c =
    let old = value c locked in
    let own =
      entry-entries c locked u columns
      ∙ ap (λ b. if b then said c locked u else none) (mentions-columns c) in
    ap (λ xs. set_to (entry (key c) xs) old) (sym (entries-columns locked u))
    ∙ ap (λ e. set_to e old) own
    ∙ said-told c locked u
    ∙ sym (merged-value c locked u)
