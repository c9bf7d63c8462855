-- ===== src/Enterprises/Merge.antt =====
-- `applyEnterpriseUpdate` of internal/repository/persistence/enterprise_postgres.go: the merged row
-- and the fields that an update really changes.
use youthpreneur_be.Base.{String, List, Option, none, some, [], ◌∷◌, ◌++◌, str_eq, if◌then◌else◌}
use youthpreneur_be.Entity.Business.{
  Enterprise, EnterpriseUpdate, ChangedFields, nullable_audit_value,
}
use youthpreneur_be.Catalogs.{or_else}

-- The entry of a field that is given and differs from the locked row.
unfoldable pub changed_field :
    String → (String → Option String) → Option String → String → ChangedFields
changed_field name encode none old = []
changed_field name encode (some new) old = if str_eq new old then [] else (name, encode new) ∷ []

abbrev pub flatten {ℓ} : {A : Type ℓ} → List (List A) → List A
flatten [] = []
flatten (x ∷ xs) = x ++ flatten xs

unfoldable pub changed_fields : Enterprise → EnterpriseUpdate → ChangedFields
changed_fields locked u = flatten (
    changed_field "enterprise_name" some u.enterprise_name locked.enterprise_name
    ∷ changed_field "description" nullable_audit_value u.description locked.description
    ∷ changed_field "address" nullable_audit_value u.address locked.address
    ∷ changed_field "focus_commodity" nullable_audit_value u.focus_commodity locked.focus_commodity
    ∷ changed_field "dispora_support" nullable_audit_value u.dispora_support locked.dispora_support
    ∷ changed_field "business_sector" some u.business_sector locked.business_sector
    ∷ changed_field "legal_status" nullable_audit_value u.legal_status locked.legal_status
    ∷ changed_field "business_digitization" nullable_audit_value u.business_digitization
        locked.business_digitization
    ∷ changed_field "intervention_needs" nullable_audit_value u.intervention_needs
        locked.intervention_needs
    ∷ changed_field "training_status" nullable_audit_value u.training_status locked.training_status
    ∷ changed_field "mentoring_status" nullable_audit_value u.mentoring_status
        locked.mentoring_status
    ∷ changed_field "capital_access" nullable_audit_value u.capital_access locked.capital_access
    ∷ changed_field "partnership" nullable_audit_value u.partnership locked.partnership
    ∷ changed_field "initial_turnover" some u.initial_turnover locked.initial_turnover
    ∷ changed_field "current_turnover" some u.current_turnover locked.current_turnover
    ∷ changed_field "district" nullable_audit_value u.district locked.district
    ∷ changed_field "status" some u.status locked.status
    ∷ [])

unfoldable pub merged : Enterprise → EnterpriseUpdate → Enterprise
merged locked u = record locked {
  enterprise_name = or_else u.enterprise_name locked.enterprise_name;
  description = or_else u.description locked.description;
  address = or_else u.address locked.address;
  focus_commodity = or_else u.focus_commodity locked.focus_commodity;
  dispora_support = or_else u.dispora_support locked.dispora_support;
  business_sector = or_else u.business_sector locked.business_sector;
  legal_status = or_else u.legal_status locked.legal_status;
  business_digitization = or_else u.business_digitization locked.business_digitization;
  intervention_needs = or_else u.intervention_needs locked.intervention_needs;
  training_status = or_else u.training_status locked.training_status;
  mentoring_status = or_else u.mentoring_status locked.mentoring_status;
  capital_access = or_else u.capital_access locked.capital_access;
  partnership = or_else u.partnership locked.partnership;
  initial_turnover = or_else u.initial_turnover locked.initial_turnover;
  current_turnover = or_else u.current_turnover locked.current_turnover;
  district = or_else u.district locked.district;
  status = or_else u.status locked.status;
  updated_at = u.updated_at;
}

-- `applyEnterpriseUpdate`
unfoldable pub apply_enterprise_update : Enterprise → EnterpriseUpdate → Enterprise × ChangedFields
unfolding merged changed_fields
apply_enterprise_update locked u = (merged locked u, changed_fields locked u)
