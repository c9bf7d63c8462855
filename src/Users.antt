-- ===== src/Users.antt =====
-- internal/repository/persistence/user_postgres.go: the tables users and user_profiles. A user row
-- of the model carries its profile row; the profile's own id and timestamps are read by nobody.
pub mod Reads
pub mod Listing
use youthpreneur_be.Base.{
  ℕ, suc, String, Bool, ◌&&◌, not, Option, none, some, List, [], ◌∷◌, ◌++◌, ◌==◌, str_eq,
  if◌then◌else◌, is_null, find, update, exists, count, contains,
}
use youthpreneur_be.Errors.{
  Error, RepositoryError, repository, no_rows, pg_error, wrap, Result, ok, err, is_no_rows,
}
use youthpreneur_be.Entity.{User, Profile}
use youthpreneur_be.Db.{
  World, Env, M, pure, throw, ◌>>=◌, ◌>>◌, map_err, wrap_err, statement, transaction,
}

abbrev pub with_users : World → List User → World
with_users w rows = record w { db = record w.db { users = rows } }

-- `u.deleted_at IS NULL`
abbrev pub is_present : User → Bool
is_present u = is_null u.deleted_at

abbrev pub has_email : String → User → Bool
has_email e u = str_eq u.email e

abbrev pub has_public_id : String → User → Bool
has_public_id p u = str_eq u.public_id p && is_present u

unfoldable pub user_not_found : String → Error → Error
user_not_found s e = if is_no_rows e then repository RepositoryError.user_not_found else wrap s e

abbrev select_one : Option User → Result User
select_one none = err no_rows
select_one (some u) = ok u

-- INSERT INTO users: the unique constraints, in the order of their indexes, cover deleted rows too.
unfoldable pub insert_user : User → M ℕ
insert_user u w =
    let next = record w { serial = suc w.serial } in
    if exists (λ (v : User). str_eq v.public_id u.public_id) w.db.users
    then (err (pg_error "23505" "users_public_id_key"), next)
    else if exists (λ (v : User). str_eq v.email u.email) w.db.users
    then (err (pg_error "23505" "users_email_key"), next)
    else (
      ok w.serial,
      with_users next
          (w.db.users ++ (record u { id = w.serial; deleted_at = none; profile = none } ∷ [])),
    )

-- `mapInsertError`
map_insert_error : Error → Error
map_insert_error (pg_error code constraint) =
    if str_eq code "23505" && contains constraint "email"
    then repository RepositoryError.duplicate_email
    else if str_eq code "23505" && contains constraint "public_id"
    then repository RepositoryError.duplicate_public_id
    else wrap "insert user" (pg_error code constraint)
map_insert_error e = wrap "insert user" e

-- `requireAffected`
unfoldable pub require_affected : ℕ → M (Unit {0})
require_affected n = if n == 0 then throw (repository RepositoryError.user_not_found) else pure tt

abbrev empty_profile : Profile
empty_profile = record {
  full_name = "";
  nik = "";
  birth_date = none;
  gender = "";
  district = "";
  phone = "";
  address = "";
}

abbrev profile_or_empty : Option Profile → Profile
profile_or_empty none = empty_profile
profile_or_empty (some p) = p

module _ (env : Env) where
  -- `findUser`, with the predicates of its three callers.
  unfoldable pub find_user : (User → Bool) → M User
  unfolding statement user_not_found
  find_user p =
      map_err (user_not_found "find user")
        (statement env (λ w. (select_one (find (λ u. p u && is_present u) w.db.users), w)))

  unfoldable pub find_user_by_public_id : String → M User
  unfolding find_user
  find_user_by_public_id p = find_user (λ u. str_eq u.public_id p)

  unfoldable pub find_user_by_email : String → M User
  unfolding find_user
  find_user_by_email e = find_user (has_email e)

  unfoldable pub find_user_by_id : ℕ → M User
  unfolding find_user
  find_user_by_id i = find_user (λ u. u.id == i)

  -- UPDATE users SET ... WHERE ..., and the number of rows that it changed.
  unfoldable pub update_users : (User → Bool) → (User → User) → M ℕ
  unfolding statement
  update_users p f =
      statement env (λ w. (ok (count p w.db.users), with_users w (update p f w.db.users)))

  unfoldable pub creation : User → M (Unit {0})
  unfolding map_insert_error statement update_users
  creation user = do
    id ← map_err map_insert_error (statement env (insert_user user))
    let profile = profile_or_empty user.profile
    wrap_err "insert user profile"
        (update_users (λ u. u.id == id) (λ u. record u { profile = some profile }))
    pure tt

  unfoldable pub create_user : User → M User
  unfolding creation transaction find_user_by_public_id
  create_user user = transaction env (creation user) >> find_user_by_public_id user.public_id

  unfoldable pub soft_delete_user : String → ℕ → M (Unit {0})
  unfolding transaction update_users require_affected
  soft_delete_user p at = transaction env do
    n ←
        wrap_err "soft delete user"
          (update_users (has_public_id p) (λ u. record u { deleted_at = some at; updated_at = at }))
    require_affected n
    -- marks the profile row
    wrap_err "soft delete user profile" (statement env (pure tt))

  unfoldable pub update_profile : String → Profile → ℕ → M User
  unfolding transaction update_users require_affected find_user_by_public_id
  update_profile p profile at = do
    transaction env do
      n ← wrap_err "update user profile" (
          update_users (λ u. has_public_id p u && not (is_null u.profile))
            (λ u. record u { profile = some profile }))
      require_affected n
      wrap_err "touch user" (update_users (has_public_id p) (λ u. record u { updated_at = at }))
    find_user_by_public_id p

  unfoldable pub update_status : String → Bool → ℕ → M User
  unfolding update_users require_affected find_user_by_public_id
  update_status p is_active at = do
    n ←
        wrap_err "update user status" (
          update_users (has_public_id p) (λ u. record u { is_active = is_active; updated_at = at }))
    require_affected n
    find_user_by_public_id p

  unfoldable pub update_password : String → String → ℕ → M (Unit {0})
  unfolding update_users require_affected
  update_password p hash at = do
    n ←
        wrap_err "update user password"
          (update_users (has_public_id p) (λ u. record u { password = hash; updated_at = at }))
    require_affected n

  unfoldable pub change_password : String → String → String → ℕ → M (Unit {0})
  unfolding update_users require_affected
  change_password p current_hash new_hash at = do
    n ← wrap_err "change user password" (
        update_users (λ u. has_public_id p u && str_eq u.password current_hash)
          (λ u. record u { password = new_hash; updated_at = at }))
    require_affected n
