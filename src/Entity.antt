-- ===== src/Entity.antt =====
-- The data of internal/entity: users, refresh sessions, training catalogs and enrollments.
-- Times are Unix seconds, which the program stores as `int64` and which never precede 1970 here.
pub mod Business
use youthpreneur_be.Base.{ℕ, String, List, Option, none, some, Bool, true, false}

-- entity/user.go: the column is the enum `user_role`.
pub data Role : Type 0 where
  admin member : Role

abbrev pub is_admin : Role → Bool
is_admin Role.admin = true
is_admin Role.member = false

-- entity/user.go. A birth date is a day number; the gender is a trimmed text.
pub record Profile : Type 0 where
  pub full_name : String
  pub nik : String
  pub birth_date : Option ℕ
  pub gender : String
  pub district : String
  pub phone : String
  pub address : String

pub record User : Type 0 where
  pub id : ℕ
  pub public_id : String
  pub email : String
  pub password : String
  pub role : Role
  pub is_active : Bool
  pub created_at : ℕ
  pub updated_at : ℕ
  pub deleted_at : Option ℕ
  pub profile : Option Profile

-- entity/auth.go: why a session was revoked.
pub data Reason : Type 0 where
  rotated logout password_change admin_reset deactivated replay : Reason

-- entity/auth.go. SQL's NULL and Go's zero value are `none`, and `[]` for the sealed bytes.
pub record RefreshSession : Type 0 where
  pub id : ℕ
  pub user_id : ℕ
  pub family_id : String
  pub token_hash : String
  pub expires_at : ℕ
  pub created_at : ℕ
  pub revoked_at : Option ℕ
  pub revocation_reason : Option Reason
  pub grace_until : Option ℕ
  pub replacement_token_enc : List ℕ
  pub replaced_by_hash : Option String

-- entity/enterprise.go: `ProcessStatus`, whose zero value is NULL.
pub data ProcessStatus : Type 0 where
  completed ongoing planned : ProcessStatus

-- entity/training_catalog.go
pub data TrainingCategory : Type 0 where
  wirausaha_agribisnis kriya_kreativitas digital_iptek : TrainingCategory
  olahraga_prestasi komunitas_pemuda : TrainingCategory

-- entity/training_catalog.go. Dates are day numbers; an empty text is NULL in the table.
pub record TrainingCatalog : Type 0 where
  pub id : ℕ
  pub public_id : String
  pub title : String
  pub description : String
  pub pic_phone : String
  pub category : Option TrainingCategory
  pub max_slots : Option ℕ
  pub training_status : Option ProcessStatus
  pub link : String
  pub address : String
  pub thumbnail : String
  pub start_date : Option ℕ
  pub end_date : Option ℕ
  pub mentor : String
  pub registered_count : ℕ
  pub created_at : ℕ
  pub updated_at : ℕ
  pub deleted_at : Option ℕ

-- `TrainingCatalog.IsOpenForEnrollment`
abbrev pub is_open_for_enrollment : TrainingCatalog → Bool
is_open_for_enrollment c = elim c.training_status [
  | none ↦ false
  | some s ↦ elim s [ completed ↦ false | ongoing ↦ true | planned ↦ true ]
]

-- entity/training_enrollment.go
pub data EnrollmentStatus : Type 0 where
  pending accepted rejected cancelled : EnrollmentStatus

abbrev pub is_accepted : EnrollmentStatus → Bool
is_accepted EnrollmentStatus.accepted = true
is_accepted _ = false

-- A row of training_enrollments. The joined fields of the Go struct are those of `JoinedEnrollment`.
pub record TrainingEnrollment : Type 0 where
  pub id : ℕ
  pub public_id : String
  pub user_id : ℕ
  pub training_catalog_id : ℕ
  pub register_date : Option ℕ
  pub status : EnrollmentStatus
  pub created_at : ℕ
  pub updated_at : ℕ
  pub deleted_at : Option ℕ

-- A row with what joined reads add: the user's public id and name, and the catalog.
pub record JoinedEnrollment : Type 0 where
  pub enrollment : TrainingEnrollment
  pub user_public_id : String
  pub full_name : String
  pub catalog : TrainingCatalog
