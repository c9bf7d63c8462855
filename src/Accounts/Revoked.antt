-- ===== src/Accounts/Revoked.antt =====
-- What ends with a change of password or a reset: every refresh token of the user.
use youthpreneur_be.Base.{String, ◌≡◌, ◌≢◌, some, find}
use youthpreneur_be.Errors.{ok}
use youthpreneur_be.Entity.{User, RefreshSession, Reason}
use youthpreneur_be.Db.{World}
use youthpreneur_be.Session.{has_hash}
use youthpreneur_be.Session.Methods.{HasValidSessions}
use youthpreneur_be.Session.Revocation.{AreDead}
use youthpreneur_be.Auth.{AuthUsecase, AuthTokens, refresh}
use youthpreneur_be.Auth.Refused.{refresh_refused}
use youthpreneur_be.Users
use youthpreneur_be.Accounts.{ChangePasswordInput, change_password, reset_password}
use youthpreneur_be.Accounts.Ending.{
  EndsSessions, Ends, revoked-AreDead, reset_password-Ends, change_password-Ends,
}

-- After such a call, no token of the user is refreshed.
module _ (u : AuthUsecase) (token : String) (w : World) {s : RefreshSession}
    (v : HasValidSessions w)
    (found : find (has_hash (u.tokens.hash_refresh token)) w.db.refresh_sessions ≡ some s) where
  pub ends-AreDead :
      (user : User) (reason : Reason) (after : World)
      → EndsSessions u.env user reason w after
      → s.user_id ≡ user.id
      → AreDead (has_hash (u.tokens.hash_refresh token)) after
  ends-AreDead user reason after (x, at, same, done, last) owner =
      let h = u.tokens.hash_refresh token in
      let valid : HasValidSessions x = rw same v in
      let found' : find (has_hash h) x.db.refresh_sessions ≡ some s = rw same found in
      rw last (revoked-AreDead u.env h user.id reason at x valid found' owner done)

  ends-refused :
      (user : User) (reason : Reason) (after : World) (a : AuthTokens)
      → EndsSessions u.env user reason w after
      → s.user_id ≡ user.id
      → (refresh u token after).0 ≢ ok a
  ends-refused user reason after a ends owner =
      refresh_refused u token after a (ends-AreDead user reason after ends owner)

  -- After a reset that reports success, with valid sessions before it, a refresh token that has
  -- a session of the user gets nothing.
  pub reset_password_ends_sessions :
      (p new : String) (user : User) (a : AuthTokens)
      → find (Users.has_public_id p) w.db.users ≡ some user
      → s.user_id ≡ user.id
      → (reset_password u.env p new w).0 ≡ ok tt
      → (refresh u token (reset_password u.env p new w).1).0 ≢ ok a
  unfolding Ends
  reset_password_ends_sessions p new user a known owner done =
      ends-refused user Reason.admin_reset (reset_password u.env p new w).1 a
        (reset_password-Ends u.env p new user w known done) owner

  -- After a change of password that reports success, with valid sessions before it, a refresh token
  -- that has a session of the user gets nothing.
  pub change_password_ends_sessions :
      (p : String) (input : ChangePasswordInput) (user : User) (a : AuthTokens)
      → find (Users.has_public_id p) w.db.users ≡ some user
      → s.user_id ≡ user.id
      → (change_password u.env p input w).0 ≡ ok tt
      → (refresh u token (change_password u.env p input w).1).0 ≢ ok a
  unfolding Ends
  change_password_ends_sessions p input user a known owner done =
      ends-refused user Reason.password_change (change_password u.env p input w).1 a
        (change_password-Ends u.env p input user w known done) owner
