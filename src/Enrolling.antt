-- ===== src/Enrolling.antt =====
-- internal/usecase/training_enrollment_usecase.go: enrolling, cancelling and the decision on an
-- enrollment, over the enrollment repository.
pub mod Scope
pub mod Lists
pub mod History
mod Examples
use youthpreneur_be.Base.{
  ℕ, zero, suc, ◌/◌, String, Bool, true, false, not, Option, none, some, ◌==◌, str_eq,
  if◌then◌else◌, trim_space,
}
use youthpreneur_be.Errors.{
  Error, RepositoryError, UsecaseError, usecase, bad_request, Result, ok, err, sentinel,
}
use youthpreneur_be.Entity.{User, EnrollmentStatus, pending, is_admin, JoinedEnrollment}
use youthpreneur_be.Db.{
  Env, M, pure, throw, ◌>>=◌, ◌>>◌, map_err, wrap_err, attempt, lift, now, unix,
}
use youthpreneur_be.Accounts.{generate_public_id, public_id_attempts}
use youthpreneur_be.Enrollments.{
  NewEnrollment, create_training_enrollment, cancel_training_enrollment,
  update_training_enrollment_status,
}

abbrev pub is_taken_public_id : Error → Bool
is_taken_public_id =
    sentinel
      (λ r. elim r [ RepositoryError.duplicate_training_enrollment_public_id ↦ true | _ ↦ false ])

-- The sentinel of the use case for one of the repository, where mapTrainingEnrollmentRepositoryError
-- has one.
abbrev pub mapped_sentinel : RepositoryError → Option UsecaseError
mapped_sentinel RepositoryError.training_enrollment_not_found =
    some UsecaseError.training_enrollment_not_found
mapped_sentinel RepositoryError.duplicate_training_enrollment = some UsecaseError.already_enrolled
mapped_sentinel RepositoryError.training_catalog_not_found =
    some UsecaseError.training_catalog_not_found
mapped_sentinel RepositoryError.training_catalog_closed = some UsecaseError.training_catalog_closed
mapped_sentinel RepositoryError.training_catalog_full = some UsecaseError.training_catalog_full
mapped_sentinel _ = none

-- The sentinel at the end of a chain of wrapped errors.
abbrev pub root_sentinel : Error → Option UsecaseError
root_sentinel (Error.repository r) = mapped_sentinel r
root_sentinel (Error.wrap s e) = root_sentinel e
root_sentinel _ = none

-- `mapTrainingEnrollmentRepositoryError`
unfoldable pub map_enrollment_error : Error → Error
map_enrollment_error e = elim (root_sentinel e) [ none ↦ e | some u ↦ usecase u ]

-- `dateOnly`, as a day number
unfoldable pub date_only : ℕ → ℕ
date_only t = t / 86400

-- `enrollmentScopeUserID`
unfoldable pub enrollment_scope_user_id : User → ℕ
enrollment_scope_user_id actor = if is_admin actor.role then 0 else actor.id

pub record CreateTrainingEnrollmentInput : Type 0 where
  pub actor : User
  pub catalog_public_id : String

pub record UpdateTrainingEnrollmentStatusInput : Type 0 where
  pub actor : User
  pub public_id : String
  pub status : String

module _ (env : Env) where
  -- `normalizeEnrollmentStatus`: no status, a status, or a text that is none.
  unfoldable pub normalize_enrollment_status : String → Result (Option EnrollmentStatus)
  normalize_enrollment_status raw =
      let t = env.to_lower (trim_space raw) in
      if str_eq t ""
      then ok none
      else if str_eq t "canceled"
      then ok (some EnrollmentStatus.cancelled)
      else if str_eq t "pending"
      then ok (some EnrollmentStatus.pending)
      else if str_eq t "accepted"
      then ok (some EnrollmentStatus.accepted)
      else if str_eq t "rejected"
      then ok (some EnrollmentStatus.rejected)
      else if str_eq t "cancelled"
      then ok (some EnrollmentStatus.cancelled)
      else err (bad_request "invalid status")

  -- The attempts of Enroll, each with a new public id.
  unfoldable pub enroll_attempts : ℕ → NewEnrollment → M JoinedEnrollment
  enroll_attempts zero n = throw (usecase UsecaseError.public_id_generation)
  enroll_attempts (suc k) n =
      let again = enroll_attempts k n in
      do
        public_id ← wrap_err "generate public id" (generate_public_id env "ENR-")
        r ← attempt (create_training_enrollment env (record n { public_id = public_id }))
        elim r [
          | ok created ↦ pure created
          | err e ↦ if is_taken_public_id e then again else throw (map_enrollment_error e)
        ]

  unfoldable pub enroll : CreateTrainingEnrollmentInput → M JoinedEnrollment
  enroll input =
      let catalog_public_id = trim_space input.catalog_public_id in
      if input.actor.id == 0
      then throw (usecase UsecaseError.forbidden)
      else if is_admin input.actor.role
      then throw (bad_request "only members can enroll in training")
      else if str_eq catalog_public_id ""
      then throw (bad_request "catalog_public_id is required")
      else do
        t ← now env
        enroll_attempts public_id_attempts (record {
          public_id = "";
          user_id = input.actor.id;
          register_date = some (date_only (unix t));
          status = some pending;
          created_at = unix t;
          updated_at = unix t;
          catalog_public_id = catalog_public_id;
        })

  unfoldable pub cancel_enrollment : User → String → M (Unit {0})
  cancel_enrollment actor p = if actor.id == 0 then throw (usecase UsecaseError.forbidden) else do
    t ← now env
    map_err map_enrollment_error
        (cancel_training_enrollment env p (enrollment_scope_user_id actor) (unix t))

  -- The status that UpdateStatus asks for: none and an unknown text are refused alike.
  unfoldable pub requested_status : String → Result EnrollmentStatus
  requested_status raw = elim (normalize_enrollment_status raw) [
    | err e ↦ err (bad_request "invalid training enrollment status")
    | ok s ↦ elim s [
      | none ↦ err (bad_request "invalid training enrollment status")
      | some x ↦ ok x
    ]
  ]

  unfoldable pub update_status : UpdateTrainingEnrollmentStatusInput → M JoinedEnrollment
  update_status input =
      let p = trim_space input.public_id in
      if not (is_admin input.actor.role)
      then throw (usecase UsecaseError.forbidden)
      else if str_eq p ""
      then throw (bad_request "public_id is required")
      else do
        status ← lift (requested_status input.status)
        t ← now env
        map_err map_enrollment_error (update_training_enrollment_status env p status (unix t))
