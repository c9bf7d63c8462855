-- ===== src/Errors.antt =====
-- The error values of the program: the sentinels of internal/repository and internal/usecase, the
-- `BadRequestError` of usecase/user_usecase.go, what drivers and libraries report, and wrapping by
-- `fmt.Errorf("...: %w", err)`; with `errors.Is` on each sentinel.
pub mod Chain
use youthpreneur_be.Base.{String, Bool, true, false, ◌≡◌, refl, ◌⊎◌, inl, inr}

-- The sentinels of internal/repository/*.go.
pub data RepositoryError : Type 0 where
  user_not_found duplicate_email duplicate_public_id : RepositoryError
  refresh_session_not_found : RepositoryError
  training_catalog_not_found duplicate_training_catalog_public_id : RepositoryError
  invalid_training_catalog_date_range : RepositoryError
  training_enrollment_not_found duplicate_training_enrollment : RepositoryError
  duplicate_training_enrollment_public_id : RepositoryError
  training_catalog_closed training_catalog_full : RepositoryError
  enterprise_not_found duplicate_enterprise_public_id : RepositoryError

-- The sentinels of internal/usecase/*.go.
pub data UsecaseError : Type 0 where
  user_not_found email_taken invalid_credentials public_id_generation forbidden : UsecaseError
  invalid_refresh_token : UsecaseError
  training_catalog_not_found training_enrollment_not_found already_enrolled : UsecaseError
  training_catalog_full training_catalog_closed : UsecaseError
  enterprise_not_found : UsecaseError

pub data Error : Type 0 where
  repository : RepositoryError → Error
  usecase : UsecaseError → Error
  -- `BadRequestError{Message}`
  bad_request : String → Error
  -- `sql.ErrNoRows`
  no_rows : Error
  -- a `*pgconn.PgError`: SQLSTATE and constraint name
  pg_error : String → String → Error
  -- any other error of a driver or library
  external : String → Error
  -- `fmt.Errorf("<text>: %w", err)`
  wrap : String → Error → Error

pub data Result {ℓ} (A : Type ℓ) : Type ℓ where
  ok : A → Result A
  err : Error → Result A

-- `errors.Is(err, sql.ErrNoRows)`
abbrev pub is_no_rows : Error → Bool
is_no_rows no_rows = true
is_no_rows (wrap s e) = is_no_rows e
is_no_rows _ = false

-- The repository sentinel that the chain of wrapped errors ends in: `errors.Is` compares with it.
abbrev pub sentinel : (RepositoryError → Bool) → Error → Bool
sentinel p (repository r) = p r
sentinel p (wrap s e) = sentinel p e
sentinel p _ = false

abbrev pub is_user_not_found : Error → Bool
is_user_not_found = sentinel (λ r. elim r [ RepositoryError.user_not_found ↦ true | _ ↦ false ])

abbrev pub is_refresh_session_not_found : Error → Bool
is_refresh_session_not_found =
    sentinel (λ r. elim r [ RepositoryError.refresh_session_not_found ↦ true | _ ↦ false ])

pub Result-cases {ℓ} :
    {A : Type ℓ} (r : Result A) → ((a : A) × (r ≡ ok a)) ⊎ ((e : Error) × (r ≡ err e))
Result-cases (ok a) = inl (a, refl)
Result-cases (err e) = inr (e, refl)
