-- ===== src/Accounts/Examples.antt =====
-- Examples of the user use case.
use youthpreneur_be.Base.{
  ◌*◌, ◌≢◌, refl, arith, All, [], ◌∷◌, ◌≡◌, trim_space, ℕ, true, false, count, ◌==◌, ◌≤◌,
}
use youthpreneur_be.Errors.{ok}
use youthpreneur_be.Db.{nanoseconds, statement, transaction, settle}
use youthpreneur_be.Auth.{AuthTokens, refresh}
use youthpreneur_be.Session.{revoke_where, revoke_user_refresh_sessions}
use youthpreneur_be.Session.Methods.{HasValidSessions}
use youthpreneur_be.Accounts.{
  ChangePasswordInput, change_password, reset_password, validate_password, hash_password,
  revoke_user_sessions, validate_gender, update_status, delete_user,
}
use youthpreneur_be.Accounts.Revoked.{reset_password_ends_sessions, change_password_ends_sessions}
use youthpreneur_be.Entity.{User}
use youthpreneur_be.Pages.{Page, query, cut_page, clamp}
use youthpreneur_be.Users.Listing.{matches_filter}
use youthpreneur_be.Accounts.Lists.{FindUsersInput, find_users}
use youthpreneur_be.Accounts.Listed.{IsPresentMember, find_users-IsPresentMember}
use youthpreneur_be.Accounts.Deactivated.{deactivation_ends_sessions}
use youthpreneur_be.Accounts.Deleted.{deletion_ends_sessions}
use youthpreneur_be.Sample.{usecase, world, ann, live_session}
use youthpreneur_be.Users
use youthpreneur_be.Users.Listing

account-IsValid : HasValidSessions world
account-IsValid = record {
  unique_hash = λ h. ground arith;
  one_live = λ f. ground arith;
  consistent = (refl, tt);
}

abbrev tokens_issued : AuthTokens
tokens_issued = record {
  access_token = "access";
  refresh_token = "new";
  access_expires_at = 1900 * nanoseconds;
  refresh_expires_at = 5000 * nanoseconds;
}

abbrev passwords : ChangePasswordInput
passwords = record { current_password = "password"; new_password = "another one" }

reset_password_ends_sessions_example :
    (refresh usecase "old" (reset_password usecase.env "YTP-000001" "another one" world).1).0
    ≢ ok tokens_issued
unfolding reset_password validate_password hash_password Users.find_user_by_public_id
    Users.find_user Users.update_password Users.update_users Users.require_affected
    revoke_user_sessions revoke_user_refresh_sessions revoke_where statement
reset_password_ends_sessions_example =
    reset_password_ends_sessions usecase "old" world {s = live_session} account-IsValid refl
      "YTP-000001" "another one" ann tokens_issued refl refl refl

abbrev idle_ann : User
idle_ann = record ann { is_active = false; updated_at = 1000 }

ann-deactivated : (update_status usecase.env "YTP-000001" false world).0 ≡ ok idle_ann
unfolding update_status Users.update_status Users.update_users Users.require_affected
    Users.find_user_by_public_id Users.find_user revoke_user_sessions revoke_user_refresh_sessions
    revoke_where statement
ann-deactivated = refl

deactivation_ends_sessions_example :
    let w' = (update_status usecase.env "YTP-000001" false world).1 in
    ((refresh usecase "old" w').0 ≢ ok tokens_issued)
    × ((refresh usecase "old" (update_status usecase.env "YTP-000001" true w').1).0
        ≢ ok tokens_issued)
deactivation_ends_sessions_example =
    deactivation_ends_sessions usecase "YTP-000001" "old" world tokens_issued {s = live_session}
      {user = ann} {x = idle_ann} account-IsValid refl refl refl ann-deactivated

ann-deleted : (delete_user usecase.env "YTP-000001" world).0 ≡ ok tt
unfolding delete_user Users.soft_delete_user Users.update_users Users.require_affected transaction
    settle statement
ann-deleted = refl

ids_unique : (i : ℕ) → count (λ (x : User). x.id == i) world.db.users ≤ 1
ids_unique i = ground arith

deletion_ends_sessions_example :
    let w' = (delete_user usecase.env "YTP-000001" world).1 in
    (w'.db.refresh_sessions ≡ world.db.refresh_sessions)
    × ((refresh usecase "old" w').0 ≢ ok tokens_issued)
deletion_ends_sessions_example =
    deletion_ends_sessions usecase "YTP-000001" "old" world tokens_issued {s = live_session}
      {user = ann} account-IsValid ids_unique refl refl refl ann-deleted

change_password_ends_sessions_example :
    (refresh usecase "old" (change_password usecase.env "YTP-000001" passwords world).1).0
    ≢ ok tokens_issued
unfolding change_password validate_password hash_password Users.find_user_by_public_id
    Users.find_user Users.change_password Users.update_users Users.require_affected
    revoke_user_sessions revoke_user_refresh_sessions revoke_where statement
change_password_ends_sessions_example =
    change_password_ends_sessions usecase "old" world {s = live_session} account-IsValid refl
      "YTP-000001" passwords ann tokens_issued refl refl refl

abbrev everybody : FindUsersInput
everybody = record { district = ""; gender = ""; search = ""; cursor = 0; limit = 5 }

abbrev members : Page User
members = record { items = ann ∷ []; next_cursor = 0 }

everybody-listed : (find_users usecase.env everybody world).0 ≡ ok members
unfolding find_users validate_gender Listing.find_users statement matches_filter query cut_page
    clamp trim_space
everybody-listed = refl

find_users-IsPresentMember_example : All IsPresentMember members.items
find_users-IsPresentMember_example =
    find_users-IsPresentMember usecase.env everybody world everybody-listed
