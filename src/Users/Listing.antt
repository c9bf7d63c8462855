-- ===== src/Users/Listing.antt =====
-- `FindUsers` of internal/repository/persistence/user_postgres.go: a page of members by ascending id.
use youthpreneur_be.Base.{ℕ, String, Bool, ◌&&◌, ◌||◌, not, Option, none, some, List, str_eq}
use youthpreneur_be.Errors.{ok}
use youthpreneur_be.Entity.{User, Profile, is_admin}
use youthpreneur_be.Db.{Env, M, wrap_err, statement}
use youthpreneur_be.Pages.{Direction, query}
use youthpreneur_be.Users.{is_present}

pub record UserFilter : Type 0 where
  pub district : String
  pub gender : String
  pub search : String
  pub cursor : ℕ
  pub limit : ℕ

-- `($n = '' OR p.column = $n)`: a user without a profile passes the empty filter alone.
abbrev pub has_or_any : (Profile → String → Bool) → String → Option Profile → Bool
has_or_any test wanted none = str_eq wanted ""
has_or_any test wanted (some p) = str_eq wanted "" || test p wanted

module _ (env : Env) where
  -- The WHERE of `findUsersQuery`, less the cursor.
  unfoldable pub matches_filter : UserFilter → User → Bool
  matches_filter f u =
      is_present u
      && not (is_admin u.role)
      && has_or_any (λ p wanted. str_eq p.district wanted) f.district u.profile
      && has_or_any (λ p wanted. str_eq p.gender wanted) f.gender u.profile
      && has_or_any (λ p wanted. env.ilike p.full_name wanted) f.search u.profile

  unfoldable pub find_users : UserFilter → M (List User)
  find_users f = wrap_err "query users" (
      statement env λ w. (
        ok (query (λ u. u.id) Direction.ascending (matches_filter f) f.cursor f.limit w.db.users),
        w,
      ))
