-- ===== src/Accounts.antt =====
-- internal/usecase/user_usecase.go: registration, profiles, activation and passwords, over the
-- repositories of users and refresh sessions.
mod Validation
pub mod Ending
pub mod Revoked
pub mod Deactivated
pub mod Deleted
pub mod Lists
pub mod Listed
mod Examples
use youthpreneur_be.Base.{
  ℕ, zero, suc, ◌-◌, String, ◌<>◌, Bool, true, false, ◌&&◌, ◌||◌, not, Option, none, some, ltb, leb,
  ◌==◌, str_eq, if◌then◌else◌, trim_space,
}
use Prim.Native.Char.{Char, code}
use youthpreneur_be.Base.Text.{six_digits, byte_length}
use youthpreneur_be.Errors.{
  Error, RepositoryError, UsecaseError, usecase, bad_request, Result, ok, err, sentinel,
  is_user_not_found,
}
use youthpreneur_be.Entity.{User, Profile, Role, Reason, EnrollmentStatus}
use youthpreneur_be.Db.{
  Env, M, pure, throw, ◌>>=◌, ◌>>◌, map_err, wrap_err, attempt, lift, effect, now, draw, unix,
}
use youthpreneur_be.Session.{revoke_user_refresh_sessions}
use youthpreneur_be.Users
unfoldable pub use Validation.{validate_password, validate_gender, validate_email}

-- `publicIDMax` and `publicIDAttempts`
abbrev pub public_id_max : ℕ
public_id_max = 1000000

abbrev pub public_id_attempts : ℕ
public_id_attempts = 5

pub record CreateUserInput : Type 0 where
  pub email : String
  pub password : String
  pub profile : Profile

pub record ChangePasswordInput : Type 0 where
  pub current_password : String
  pub new_password : String

abbrev pub is_duplicate_public_id : Error → Bool
is_duplicate_public_id =
    sentinel (λ r. elim r [ RepositoryError.duplicate_public_id ↦ true | _ ↦ false ])

abbrev pub is_duplicate_email : Error → Bool
is_duplicate_email = sentinel (λ r. elim r [ RepositoryError.duplicate_email ↦ true | _ ↦ false ])

-- `mapRepositoryError`
unfoldable pub map_repository_error : Error → Error
map_repository_error e =
    if is_user_not_found e
    then usecase UsecaseError.user_not_found
    else if is_duplicate_email e
    then usecase UsecaseError.email_taken
    else e

-- `validateCreateUser`
unfoldable pub validate_create_user : String → String → Profile → M (Unit {0})
validate_create_user email password profile =
    if str_eq profile.full_name "" then throw (bad_request "full_name is required") else do
      lift (validate_email email)
      lift (validate_password password)
      lift (validate_gender profile.gender)

module _ (env : Env) where
  -- `NormalizeEmail`
  unfoldable pub normalize_email : String → String
  normalize_email e = env.to_lower (trim_space e)

  -- `sanitizeProfile`
  unfoldable pub sanitize_profile : Profile → Profile
  sanitize_profile p = record {
    full_name = env.to_upper (trim_space p.full_name);
    nik = trim_space p.nik;
    birth_date = p.birth_date;
    gender = trim_space p.gender;
    district = env.to_upper (trim_space p.district);
    phone = trim_space p.phone;
    address = trim_space p.address;
  }

  -- `hashPassword`
  unfoldable pub hash_password : String → M String
  hash_password p = wrap_err "hash password" (effect (env.password_hash p))

  -- `GeneratePublicID` and its twins, with the prefix as an argument.
  unfoldable pub generate_public_id : String → M String
  generate_public_id prefix =
      draw env (λ k. prefix <> six_digits (env.random_below k public_id_max))

  -- What CreateUser returns for an error of the repository.
  unfoldable pub create_error : Error → Error
  create_error e =
      if is_duplicate_email e then usecase UsecaseError.email_taken else Error.wrap "create user" e

  -- The attempts of CreateUser, each with a new public id.
  unfoldable pub create_attempts : ℕ → User → M User
  create_attempts zero user = throw (usecase UsecaseError.public_id_generation)
  create_attempts (suc n) user =
      let again = create_attempts n user in
      do
        public_id ← wrap_err "generate public id" (generate_public_id "YTP-")
        r ← attempt (Users.create_user env (record user { public_id = public_id }))
        elim r [
          | ok created ↦ pure created
          | err e ↦ if is_duplicate_public_id e then again else throw (create_error e)
        ]

  unfoldable pub create_user : CreateUserInput → M User
  create_user input =
      let email = normalize_email input.email in
      let profile = sanitize_profile input.profile in
      do
        validate_create_user email input.password profile
        hash ← hash_password input.password
        t ← now env
        create_attempts public_id_attempts (record {
          id = 0;
          public_id = "";
          email = email;
          password = hash;
          role = Role.member;
          is_active = true;
          created_at = unix t;
          updated_at = unix t;
          deleted_at = none;
          profile = some profile;
        })

  unfoldable pub delete_user : String → M (Unit {0})
  delete_user p = do
    t ← now env
    map_err map_repository_error (Users.soft_delete_user env p (unix t))

  unfoldable pub get_user : String → M User
  get_user p = map_err map_repository_error (Users.find_user_by_public_id env p)

  unfoldable pub update_profile : String → Profile → M User
  update_profile p given =
      let profile = sanitize_profile given in
      if str_eq profile.full_name "" then throw (bad_request "full_name is required") else do
        lift (validate_gender profile.gender)
        t ← now env
        map_err map_repository_error (Users.update_profile env p profile (unix t))

  -- `revokeUserSessions`
  unfoldable pub revoke_user_sessions : ℕ → Reason → M (Unit {0})
  revoke_user_sessions id reason = do
    t ← now env
    wrap_err "revoke user refresh sessions" (revoke_user_refresh_sessions env id reason (unix t))

  unfoldable pub update_status : String → Bool → M User
  update_status p is_active = do
    t ← now env
    user ← map_err map_repository_error (Users.update_status env p is_active (unix t))
    if is_active then pure user else (revoke_user_sessions user.id Reason.deactivated >> pure user)

  -- What ChangePassword returns for an error of the repository's conditional write.
  unfoldable pub change_error : Error → Error
  change_error e =
      if is_user_not_found e
      then usecase UsecaseError.invalid_credentials
      else map_repository_error e

  unfoldable pub change_password : String → ChangePasswordInput → M (Unit {0})
  change_password p input = do
    lift (validate_password input.new_password)
    user ← map_err map_repository_error (Users.find_user_by_public_id env p)
    if not (env.password_matches user.password input.current_password)
        then throw (usecase UsecaseError.invalid_credentials)
        else do
          hash ← hash_password input.new_password
          t ← now env
          map_err change_error (Users.change_password env p user.password hash (unix t))
          revoke_user_sessions user.id Reason.password_change

  unfoldable pub reset_password : String → String → M (Unit {0})
  reset_password p new_password = do
    lift (validate_password new_password)
    user ← map_err map_repository_error (Users.find_user_by_public_id env p)
    hash ← hash_password new_password
    t ← now env
    map_err map_repository_error (Users.update_password env p hash (unix t))
    revoke_user_sessions user.id Reason.admin_reset
