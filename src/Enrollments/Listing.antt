-- ===== src/Enrollments/Listing.antt =====
-- `FindTrainingEnrollments` of internal/repository/persistence/training_enrollment_postgres.go: a page
-- of joined enrollments by ascending id.
use youthpreneur_be.Base.{
  ℕ, String, Bool, true, ◌&&◌, ◌||◌, Option, none, some, List, [], ◌∷◌, ◌==◌, find, trim_space,
}
use youthpreneur_be.Errors.{ok, err}
use youthpreneur_be.Entity.{User, TrainingEnrollment, JoinedEnrollment, EnrollmentStatus, Profile}
use youthpreneur_be.Db.{Db, Env, M, wrap_err, statement}
use youthpreneur_be.Pages.{Direction, query}
use youthpreneur_be.Enrollments.{join}
use youthpreneur_be.Users.Listing.{has_or_any}

pub record TrainingEnrollmentFilter : Type 0 where
  pub user_id : ℕ
  pub catalog_id : ℕ
  pub search : String
  pub status : Option EnrollmentStatus
  pub cursor : ℕ
  pub limit : ℕ

-- A joined row with the profile that its name comes from.
abbrev pub NamedRow : Type 0
NamedRow = JoinedEnrollment × Option Profile

abbrev profile_of : List User → TrainingEnrollment → Option Profile
profile_of users e = elim (find (λ (u : User). u.id == e.user_id) users) [
  | none ↦ none
  | some u ↦ u.profile
]

-- FROM training_enrollments e JOIN training_catalog c JOIN users u LEFT JOIN user_profiles p
unfoldable pub joined_rows : Db → List TrainingEnrollment → List NamedRow
joined_rows d [] = []
joined_rows d (e ∷ es) =
    let rest = joined_rows d es in
    elim (join d e) [ err x ↦ rest | ok j ↦ (j, profile_of d.users e) ∷ rest ]

abbrev status_code : EnrollmentStatus → ℕ
status_code EnrollmentStatus.pending = 0
status_code EnrollmentStatus.accepted = 1
status_code EnrollmentStatus.rejected = 2
status_code EnrollmentStatus.cancelled = 3

abbrev pub is_status_or_any : Option EnrollmentStatus → EnrollmentStatus → Bool
is_status_or_any none s = true
is_status_or_any (some wanted) s = status_code s == status_code wanted

abbrev pub row_id : NamedRow → ℕ
row_id r = r.0.enrollment.id

module _ (env : Env) where
  -- The WHERE of `findTrainingEnrollmentsQuery`, less the cursor.
  unfoldable pub matches_filter : TrainingEnrollmentFilter → NamedRow → Bool
  matches_filter f r =
      (f.user_id == 0 || r.0.enrollment.user_id == f.user_id)
      && (f.catalog_id == 0 || r.0.enrollment.training_catalog_id == f.catalog_id)
      && is_status_or_any f.status r.0.enrollment.status
      && has_or_any (λ p wanted. env.ilike p.full_name wanted) (trim_space f.search) r.1

  unfoldable pub find_training_enrollments : TrainingEnrollmentFilter → M (List NamedRow)
  find_training_enrollments f = wrap_err "query training enrollments" (
      statement env λ w. (
        ok (
            query row_id Direction.ascending (matches_filter f) f.cursor f.limit
              (joined_rows w.db w.db.training_enrollments)),
        w,
      ))
