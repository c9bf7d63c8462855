-- ===== src/Accounts/Lists.antt =====
-- `FindUsers` of internal/usecase/user_usecase.go.
use youthpreneur_be.Base.{ℕ, ◌+◌, String, trim_space}
use youthpreneur_be.Entity.{User}
use youthpreneur_be.Db.{Env, M, pure, ◌>>=◌, ◌>>◌, wrap_err, lift}
use youthpreneur_be.Pages.{Page, cut_page, clamp}
use youthpreneur_be.Users.Listing
use youthpreneur_be.Accounts.{validate_gender}

pub record FindUsersInput : Type 0 where
  pub district : String
  pub gender : String
  pub search : String
  pub cursor : ℕ
  pub limit : ℕ

unfoldable pub find_users : Env → FindUsersInput → M (Page User)
find_users env input =
    let gender = trim_space input.gender in
    let limit = clamp 20 input.limit in
    do
      lift (validate_gender gender)
      users ← wrap_err "find users" (
          Listing.find_users env (record {
            district = trim_space input.district;
            gender = gender;
            search = trim_space input.search;
            cursor = input.cursor;
            limit = limit + 1;
          }))
      pure (cut_page (λ (u : User). u.id) limit users)
