-- ===== src/Enrolling/Lists.antt =====
-- The lists of internal/usecase/training_enrollment_usecase.go: the history of a member, of a catalog
-- and of everybody.
use youthpreneur_be.Base.{ℕ, ◌+◌, String, not, ◌==◌, if◌then◌else◌, trim_space}
use youthpreneur_be.Errors.{UsecaseError, usecase}
use youthpreneur_be.Entity.{User, is_admin}
use youthpreneur_be.Db.{Env, M, pure, throw, ◌>>=◌, map_err, wrap_err, lift}
use youthpreneur_be.Pages.{Page, cut_page, clamp}
use youthpreneur_be.Catalogs.{find_training_catalog_by_public_id}
use youthpreneur_be.Enrollments.Listing.{
  TrainingEnrollmentFilter, NamedRow, row_id, find_training_enrollments,
}
use youthpreneur_be.Trainings.{map_catalog_error}
use youthpreneur_be.Enrolling.{normalize_enrollment_status}

pub record FindTrainingEnrollmentsInput : Type 0 where
  pub actor : User
  pub search : String
  pub status : String
  pub cursor : ℕ
  pub limit : ℕ

pub record FindCatalogEnrollmentsInput : Type 0 where
  pub actor : User
  pub catalog_public_id : String
  pub search : String
  pub status : String
  pub cursor : ℕ
  pub limit : ℕ

module _ (env : Env) where
  -- `findEnrollments`; the filter comes with the limit of the caller.
  unfoldable pub find_enrollments : TrainingEnrollmentFilter → M (Page NamedRow)
  find_enrollments filter =
      let limit = clamp 20 filter.limit in
      do
        enrollments ←
            wrap_err "find training enrollments"
              (find_training_enrollments env (record filter { limit = limit + 1 }))
        pure (cut_page row_id limit enrollments)

  unfoldable pub find_my_enrollments : FindTrainingEnrollmentsInput → M (Page NamedRow)
  find_my_enrollments input =
      if input.actor.id == 0 then throw (usecase UsecaseError.forbidden) else do
        status ← lift (normalize_enrollment_status env input.status)
        find_enrollments (record {
          user_id = input.actor.id;
          catalog_id = 0;
          search = trim_space input.search;
          status = status;
          cursor = input.cursor;
          limit = input.limit;
        })

  unfoldable pub find_all_enrollments : FindTrainingEnrollmentsInput → M (Page NamedRow)
  find_all_enrollments input =
      if not (is_admin input.actor.role) then throw (usecase UsecaseError.forbidden) else do
        status ← lift (normalize_enrollment_status env input.status)
        find_enrollments (record {
          user_id = 0;
          catalog_id = 0;
          search = trim_space input.search;
          status = status;
          cursor = input.cursor;
          limit = input.limit;
        })

  unfoldable pub find_catalog_enrollments : FindCatalogEnrollmentsInput → M (Page NamedRow)
  find_catalog_enrollments input =
      if not (is_admin input.actor.role) then throw (usecase UsecaseError.forbidden) else do
        catalog ←
            map_err map_catalog_error
              (find_training_catalog_by_public_id env (trim_space input.catalog_public_id))
        status ← lift (normalize_enrollment_status env input.status)
        find_enrollments (record {
          user_id = 0;
          catalog_id = catalog.id;
          search = trim_space input.search;
          status = status;
          cursor = input.cursor;
          limit = input.limit;
        })
