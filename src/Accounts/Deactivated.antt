-- ===== src/Accounts/Deactivated.antt =====
-- What ends when an account is deactivated: its refresh tokens, for good.
use youthpreneur_be.Base.{
  ℕ, String, Bool, true, false, ◌≡◌, ◌≢◌, refl, ap, sym, ◌∙◌, some, arith, find,
}
use youthpreneur_be.Base.Rows.{find-update}
use youthpreneur_be.Errors.{ok}
use youthpreneur_be.Entity.{User, RefreshSession, Reason}
use youthpreneur_be.Db.{World, Env, pure, ◌>>◌, tock, unix, map_err, statement}
use youthpreneur_be.Db.Laws.{>>=-ok, map_err-ok}
use youthpreneur_be.Session.{has_hash}
use youthpreneur_be.Session.Methods.{HasValidSessions}
use youthpreneur_be.Auth.{AuthUsecase, AuthTokens, refresh}
use youthpreneur_be.Auth.Refused.{refresh_refused}
use youthpreneur_be.Users
use youthpreneur_be.Accounts.{update_status, revoke_user_sessions, map_repository_error}
use youthpreneur_be.Accounts.Ending.{EndsSessions}
use youthpreneur_be.Accounts.Revoked.{ends-AreDead}

module _ (env : Env) where
  -- The write of the status leaves the sessions alone, and returns the row of the account.
  written_status :
      (p : String) (b : Bool) (at : ℕ) (w v : World) {user x : User}
      → find (Users.has_public_id p) w.db.users ≡ some user
      → Users.update_status env p b at w ≡ (ok x, v)
      → (x.id ≡ user.id) × (v.db.refresh_sessions ≡ w.db.refresh_sessions)
  unfolding Users.update_status Users.update_users Users.require_affected
      Users.find_user_by_public_id Users.find_user statement
  written_status p b at w v found e = ground (
    arith,
    find-update (Users.has_public_id p) (λ u. record u { is_active = b; updated_at = at })
        (Users.has_public_id p) w.db.users (λ x. refl),
  )

  status-sessions :
      (p : String) (b : Bool) (at : ℕ) (w : World)
      → (Users.update_status env p b at w).1.db.refresh_sessions ≡ w.db.refresh_sessions
  unfolding Users.update_status Users.update_users Users.require_affected
      Users.find_user_by_public_id Users.find_user statement
  status-sessions p b at w = ground arith

  activate-sessions :
      (p : String) (w : World)
      → (update_status env p true w).1.db.refresh_sessions ≡ w.db.refresh_sessions
  unfolding update_status
  activate-sessions p w = ground (arith, status-sessions p true (unix (env.clock w.ticks)) (tock w))

  -- The steps of a deactivation after the write.
  close-EndsSessions :
      (user b : User) (w v : World) {x : User}
      → b.id ≡ user.id
      → v.db.refresh_sessions ≡ w.db.refresh_sessions
      → ((revoke_user_sessions env b.id Reason.deactivated >> pure b) v).0 ≡ ok x
      → EndsSessions env user Reason.deactivated w
          ((revoke_user_sessions env b.id Reason.deactivated >> pure b) v).1
  unfolding revoke_user_sessions
  close-EndsSessions user b w v own kept done =
      (tock v, unix (env.clock v.ticks), kept, ground (arith, own), ground (arith, own))

  deactivate-EndsSessions :
      (p : String) (w : World) {user x : User}
      → find (Users.has_public_id p) w.db.users ≡ some user
      → (update_status env p false w).0 ≡ ok x
      → EndsSessions env user Reason.deactivated w (update_status env p false w).1
  unfolding update_status
  deactivate-EndsSessions p w {user} found done =
      let t = unix (env.clock w.ticks) in
      let write = map_err map_repository_error (Users.update_status env p false t) in
      let close = λ (b : User). revoke_user_sessions env b.id Reason.deactivated >> pure b in
      let (b, v, ran, same) = >>=-ok write close (tock w) done in
      let wrote =
        map_err-ok map_repository_error (Users.update_status env p false t) (tock w) v ran in
      let (own, kept) = written_status p false t (tock w) v found wrote in
      rw same (close-EndsSessions user b w v own kept (ap (λ r. r.0) (sym same) ∙ done))

module _ (u : AuthUsecase) where
  -- After a deactivation that reports success, with valid sessions before it, a refresh token that
  -- has a session of the user gets nothing, neither at once nor when the account has been activated
  -- again.
  pub deactivation_ends_sessions :
      (p token : String) (w : World) (a : AuthTokens) {s : RefreshSession} {user x : User}
      → HasValidSessions w
      → find (has_hash (u.tokens.hash_refresh token)) w.db.refresh_sessions ≡ some s
      → find (Users.has_public_id p) w.db.users ≡ some user
      → s.user_id ≡ user.id
      → (update_status u.env p false w).0 ≡ ok x
      → let w' = (update_status u.env p false w).1 in
        ((refresh u token w').0 ≢ ok a)
        × ((refresh u token (update_status u.env p true w').1).0 ≢ ok a)
  deactivation_ends_sessions p token w a {s} {user} v session known owner done =
      let w' = (update_status u.env p false w).1 in
      let again = (update_status u.env p true w').1 in
      let dead =
        ends-AreDead u token w {s = s} v session user Reason.deactivated w'
          (deactivate-EndsSessions u.env p w known done) owner in
      (
        refresh_refused u token w' a dead,
        refresh_refused u token again a (rw (activate-sessions u.env p w') dead),
      )
