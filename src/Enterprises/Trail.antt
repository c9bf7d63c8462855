-- ===== src/Enterprises/Trail.antt =====
-- The audit trail as a specification: what the events of an enterprise, read from the oldest on, say
-- of each audited column.
use youthpreneur_be.Base.{
  ◌≡◌, refl, arith, ℕ, String, Option, none, some, List, [], ◌∷◌, ◌++◌, ◌==◌, str_eq, eq_iff,
  if◌then◌else◌, select,
}
use youthpreneur_be.Base.Selects.{select-append}
use youthpreneur_be.Entity.Business.{Enterprise, ChangedFields, AuditRow, nullable_audit_value}

-- The audited columns.
pub data Column : Type 0 where
  enterprise_name description address focus_commodity dispora_support : Column
  business_sector legal_status business_digitization intervention_needs : Column
  training_status mentoring_status capital_access partnership : Column
  initial_turnover current_turnover district status : Column

abbrev pub key : Column → String
key Column.enterprise_name = "enterprise_name"
key Column.description = "description"
key Column.address = "address"
key Column.focus_commodity = "focus_commodity"
key Column.dispora_support = "dispora_support"
key Column.business_sector = "business_sector"
key Column.legal_status = "legal_status"
key Column.business_digitization = "business_digitization"
key Column.intervention_needs = "intervention_needs"
key Column.training_status = "training_status"
key Column.mentoring_status = "mentoring_status"
key Column.capital_access = "capital_access"
key Column.partnership = "partnership"
key Column.initial_turnover = "initial_turnover"
key Column.current_turnover = "current_turnover"
key Column.district = "district"
key Column.status = "status"

abbrev pub value : Column → Enterprise → String
value Column.enterprise_name e = e.enterprise_name
value Column.description e = e.description
value Column.address e = e.address
value Column.focus_commodity e = e.focus_commodity
value Column.dispora_support e = e.dispora_support
value Column.business_sector e = e.business_sector
value Column.legal_status e = e.legal_status
value Column.business_digitization e = e.business_digitization
value Column.intervention_needs e = e.intervention_needs
value Column.training_status e = e.training_status
value Column.mentoring_status e = e.mentoring_status
value Column.capital_access e = e.capital_access
value Column.partnership e = e.partnership
value Column.initial_turnover e = e.initial_turnover
value Column.current_turnover e = e.current_turnover
value Column.district e = e.district
value Column.status e = e.status

-- The entry of a key, if there is one.
abbrev pub entry : String → ChangedFields → Option (Option String)
entry k [] = none
entry k (x ∷ xs) = let rest = entry k xs in if str_eq x.0 k then some x.1 else rest

-- `null` is the empty text.
abbrev pub text_of : Option String → String
text_of none = ""
text_of (some s) = s

abbrev pub set_to : Option (Option String) → String → String
set_to none old = old
set_to (some v) old = text_of v

-- The value of a key after an event, from the one before it.
unfoldable pub value_after : String → ChangedFields → String → String
value_after k xs old = set_to (entry k xs) old

unfoldable pub replayed : String → List AuditRow → String → String
replayed k [] old = old
replayed k (r ∷ rs) old = replayed k rs (value_after k r.event.changed_fields old)

-- The events of an enterprise.
abbrev pub trail : ℕ → List AuditRow → List AuditRow
trail i rows = select (λ (r : AuditRow). r.event.enterprise_id == i) rows

-- An enterprise is what the trail of an id says.
abbrev pub IsTold : ℕ → Enterprise → List AuditRow → Type 0
IsTold i e rows = (c : Column) → replayed (key c) (trail i rows) "" ≡ value c e

pub text_of-nullable : (s : String) → text_of (nullable_audit_value s) ≡ s
text_of-nullable s = ground (arith, eq_iff s "")

pub replayed-append :
    (k : String) (xs ys : List AuditRow) (old : String)
    → replayed k (xs ++ ys) old ≡ replayed k ys (replayed k xs old)
unfolding replayed
replayed-append k [] ys old = refl
replayed-append k (x ∷ xs) ys old =
    replayed-append k xs ys (value_after k x.event.changed_fields old)

replayed-none :
    (k : String) (i : ℕ) (rows : List AuditRow)
    → replayed k (trail i rows ++ []) "" ≡ replayed k (trail i rows) ""
unfolding replayed
replayed-none k i rows = replayed-append k (trail i rows) [] ""

-- What a new event adds to the trail of an enterprise.
pub replayed-event :
    (k : String) (i : ℕ) (rows : List AuditRow) (r : AuditRow)
    → replayed k (trail i (rows ++ (r ∷ []))) "" ≡ (
        let before = replayed k (trail i rows) "" in
        if r.event.enterprise_id == i then value_after k r.event.changed_fields before else before)
unfolding replayed
replayed-event k i rows r =
    let here = select-append (λ (x : AuditRow). x.event.enterprise_id == i) rows (r ∷ []) in
    ground (arith, here, replayed-append k (trail i rows) (r ∷ []) "", replayed-none k i rows)
