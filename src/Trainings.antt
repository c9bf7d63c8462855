-- ===== src/Trainings.antt =====
-- internal/usecase/training_catalog_usecase.go: the catalog of trainings, which admins write and
-- everybody reads.
pub mod Input
pub mod Kept
mod Examples
use youthpreneur_be.Base.{
  ℕ, zero, suc, ◌+◌, String, Bool, true, false, not, Option, none, some, ◌==◌, str_eq,
  if◌then◌else◌, trim_space,
}
use youthpreneur_be.Errors.{
  Error, RepositoryError, UsecaseError, usecase, bad_request, wrap, Result, ok, err, sentinel,
}
use youthpreneur_be.Entity.{User, TrainingCatalog, ProcessStatus, is_admin}
use youthpreneur_be.Db.{
  Env, M, pure, throw, ◌>>=◌, ◌>>◌, map_err, wrap_err, attempt, lift, now, unix,
}
use youthpreneur_be.Pages.{Direction, Page, cut_page, clamp}
use youthpreneur_be.Accounts.{generate_public_id, public_id_attempts}
use youthpreneur_be.Catalogs.{
  TrainingCatalogUpdate, find_training_catalog_by_public_id, soft_delete_training_catalog,
}
use youthpreneur_be.Catalogs
use youthpreneur_be.Catalogs.Listing
use Input.{
  CreateTrainingCatalogInput, UpdateTrainingCatalogInput, normalize_category,
  normalize_training_status, process_status_of, parse_training_date, build_training_catalog,
  build_training_catalog_update, is_empty_training_catalog_update,
}

pub record FindTrainingCatalogsInput : Type 0 where
  pub search : String
  pub title : String
  pub mentor : String
  pub category : String
  pub training_status : String
  pub start_date : String
  pub order : String
  pub cursor : ℕ
  pub limit : ℕ

abbrev pub is_duplicate_catalog : Error → Bool
is_duplicate_catalog =
    sentinel
      (λ r. elim r [ RepositoryError.duplicate_training_catalog_public_id ↦ true | _ ↦ false ])

abbrev pub is_catalog_not_found : Error → Bool
is_catalog_not_found =
    sentinel (λ r. elim r [ RepositoryError.training_catalog_not_found ↦ true | _ ↦ false ])

abbrev pub is_invalid_range : Error → Bool
is_invalid_range =
    sentinel
      (λ r. elim r [ RepositoryError.invalid_training_catalog_date_range ↦ true | _ ↦ false ])

-- `mapTrainingCatalogRepositoryError`
unfoldable pub map_catalog_error : Error → Error
map_catalog_error e =
    if is_catalog_not_found e
    then usecase UsecaseError.training_catalog_not_found
    else if is_invalid_range e
    then bad_request "end_date must be on or after start_date"
    else e

-- The update of UpdateTrainingCatalogStatus.
abbrev pub status_update : Option ProcessStatus → ℕ → TrainingCatalogUpdate
status_update s at = record {
  title = none;
  description = none;
  pic_phone = none;
  category = none;
  max_slots = none;
  training_status = some s;
  link = none;
  address = none;
  thumbnail = none;
  start_date = none;
  end_date = none;
  mentor = none;
  updated_at = at;
}

module _ (env : Env) where
  -- The attempts of CreateTrainingCatalog, each with a new public id.
  unfoldable pub create_attempts : ℕ → TrainingCatalog → M TrainingCatalog
  create_attempts zero c = throw (usecase UsecaseError.public_id_generation)
  create_attempts (suc k) c =
      let again = create_attempts k c in
      do
        public_id ← wrap_err "generate public id" (generate_public_id env "TCY-")
        r ← attempt (Catalogs.create_training_catalog env (record c { public_id = public_id }))
        elim r [
          | ok created ↦ pure created
          | err e ↦
              if is_duplicate_catalog e then again else throw (wrap "create training catalog" e)
        ]

  unfoldable pub create_training_catalog : CreateTrainingCatalogInput → M TrainingCatalog
  create_training_catalog input =
      if not (is_admin input.actor.role) then throw (usecase UsecaseError.forbidden) else do
        t ← now env
        catalog ← lift (build_training_catalog env input (unix t))
        create_attempts public_id_attempts catalog

  unfoldable pub get_training_catalog : String → M TrainingCatalog
  get_training_catalog p = map_err map_catalog_error (find_training_catalog_by_public_id env p)

  unfoldable pub order_of : String → Result Direction
  order_of raw =
      let t = env.to_lower (trim_space raw) in
      if str_eq t ""
      then ok Direction.ascending
      else if str_eq t "asc"
      then ok Direction.ascending
      else if str_eq t "desc"
      then ok Direction.descending
      else err (bad_request "invalid order, must be 'asc' or 'desc'")

  unfoldable pub find_training_catalogs : FindTrainingCatalogsInput → M (Page TrainingCatalog)
  find_training_catalogs input = do
    category ← lift (normalize_category input.category)
    status ← lift (normalize_training_status input.training_status)
    date ← lift (parse_training_date env "start_date" input.start_date)
    order ← lift (order_of input.order)
    let limit = clamp 20 input.limit
    catalogs ← wrap_err "find training catalogs" (
        Listing.find_training_catalogs env (record {
          search = trim_space input.search;
          title = trim_space input.title;
          mentor = trim_space input.mentor;
          category = category;
          training_status = status;
          start_date = date;
          cursor = input.cursor;
          limit = limit + 1;
          order = order;
        }))
    pure (cut_page (λ (c : TrainingCatalog). c.id) limit catalogs)

  unfoldable pub update_training_catalog :
      User → String → UpdateTrainingCatalogInput → M TrainingCatalog
  update_training_catalog actor p input =
      if not (is_admin actor.role) then throw (usecase UsecaseError.forbidden) else do
        u ← lift (build_training_catalog_update env input)
        if is_empty_training_catalog_update u
            then throw (bad_request "no update fields supplied")
            else (now env >>= λ t.
                map_err map_catalog_error
                  (Catalogs.update_training_catalog env p (record u { updated_at = unix t })))

  unfoldable pub update_training_catalog_status : User → String → String → M TrainingCatalog
  update_training_catalog_status actor p raw =
      let t = trim_space raw in
      if not (is_admin actor.role)
      then throw (usecase UsecaseError.forbidden)
      else if str_eq t ""
      then throw (bad_request "training_status is required")
      else elim (process_status_of t) [
        | none ↦ throw (bad_request "invalid training_status")
        | some s ↦ do
          at ← now env
          map_err map_catalog_error
              (Catalogs.update_training_catalog env p (status_update (some s) (unix at)))
      ]

  unfoldable pub delete_training_catalog : User → String → M (Unit {0})
  delete_training_catalog actor p =
      if not (is_admin actor.role)
      then throw (usecase UsecaseError.forbidden)
      else do t ← now env; map_err map_catalog_error (soft_delete_training_catalog env p (unix t))
