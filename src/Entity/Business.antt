-- ===== src/Entity/Business.antt =====
-- internal/entity/enterprise.go: enterprises, their updates and their audit events. The enumerations
-- of the Go code are texts, and so they are here; the empty text is NULL in the table.
use youthpreneur_be.Base.{
  ℕ, String, List, [], ◌∷◌, Option, none, some, Bool, str_eq, if◌then◌else◌, exists,
}

abbrev pub is_one_of : List String → String → Bool
is_one_of labels s = exists (λ l. str_eq l s) labels

abbrev pub business_sectors : List String
business_sectors =
    "Kuliner" ∷ "Perdagangan Ritel" ∷ "Agribisnis & Ketahanan Pangan" ∷ "Jasa & Layanan Publik"
    ∷ "Fashion & Konveksi" ∷ "E-Commerce & Ekonomi Kreatif" ∷ []

abbrev pub enterprise_statuses : List String
enterprise_statuses = "active" ∷ "inactive" ∷ []

abbrev pub legal_statuses : List String
legal_statuses = "complete" ∷ "in_progress" ∷ "none" ∷ []

abbrev pub business_digitizations : List String
business_digitizations = "high" ∷ "medium" ∷ "low" ∷ []

abbrev pub intervention_needs_labels : List String
intervention_needs_labels =
    "Pelatihan" ∷ "Mentoring" ∷ "Digitalisasi" ∷ "Legalitas" ∷ "Permodalan" ∷ "Kemitraan"
    ∷ "Pemasaran" ∷ []

abbrev pub process_statuses : List String
process_statuses = "completed" ∷ "ongoing" ∷ "planned" ∷ []

abbrev pub general_statuses : List String
general_statuses = "yes" ∷ "no" ∷ "in_progress" ∷ []

-- A row of enterprises. The joined fields of the Go struct are those of `JoinedEnterprise`.
pub record Enterprise : Type 0 where
  pub id : ℕ
  pub public_id : String
  pub user_id : ℕ
  pub enterprise_name : String
  pub description : String
  pub address : String
  pub focus_commodity : String
  pub dispora_support : String
  pub business_sector : String
  pub legal_status : String
  pub business_digitization : String
  pub intervention_needs : String
  pub training_status : String
  pub mentoring_status : String
  pub capital_access : String
  pub partnership : String
  pub initial_turnover : String
  pub current_turnover : String
  pub district : String
  pub status : String
  pub created_at : ℕ
  pub updated_at : ℕ
  pub deleted_at : Option ℕ

pub record JoinedEnterprise : Type 0 where
  pub enterprise : Enterprise
  pub user_public_id : String
  pub owner_full_name : String

pub record EnterpriseUpdate : Type 0 where
  pub enterprise_name : Option String
  pub description : Option String
  pub address : Option String
  pub focus_commodity : Option String
  pub dispora_support : Option String
  pub business_sector : Option String
  pub legal_status : Option String
  pub business_digitization : Option String
  pub intervention_needs : Option String
  pub training_status : Option String
  pub mentoring_status : Option String
  pub capital_access : Option String
  pub partnership : Option String
  pub initial_turnover : Option String
  pub current_turnover : Option String
  pub district : Option String
  pub status : Option String
  pub updated_at : ℕ

-- `NullableAuditValue`: `nil` is `none`.
abbrev pub nullable_audit_value : String → Option String
nullable_audit_value v = if str_eq v "" then none else some v

pub data AuditAction : Type 0 where
  create update delete : AuditAction

-- `map[string]any` whose values are texts or nil: the assignments in their order.
abbrev pub ChangedFields : Type 0
ChangedFields = List (String × Option String)

pub record EnterpriseAuditEvent : Type 0 where
  pub enterprise_id : ℕ
  pub actor_user_id : ℕ
  pub action : AuditAction
  pub changed_fields : ChangedFields
  pub created_at : ℕ

-- A row of enterprise_audit_events.
pub record AuditRow : Type 0 where
  pub id : ℕ
  pub event : EnterpriseAuditEvent
