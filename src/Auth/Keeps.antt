-- ===== src/Auth/Keeps.antt =====
-- Login, refresh and logout keep the invariant of refresh_sessions.
use youthpreneur_be.Base.{ℕ, String}
use youthpreneur_be.Entity.{RefreshSession, Reason}
use youthpreneur_be.Db.{Db, World, Env}
use youthpreneur_be.Db.Keeps.{Keeps, keeps_rules, Keeps-map_err}
use youthpreneur_be.Users.Reads.{find_user_by_id-Keeps, find_user_by_email-Keeps}
use youthpreneur_be.Session.{
  of_family, has_hash, find_refresh_session, revoke_refresh_session_family, revoke_refresh_session,
  delete_expired_refresh_sessions, rotate_refresh_session,
}
use youthpreneur_be.Session.Invariant.{IsValid}
use youthpreneur_be.Session.Methods.{
  HasValidSessions, rotate-IsValid, revoke_where-IsValid, delete_expired-IsValid,
  find_refresh_session-world,
}
use youthpreneur_be.Auth.{
  AuthUsecase, refresh, rotate, reuse, serve_grace_window, active_user, logout, present,
}

abbrev ValidSessions : Db → Type 0
ValidSessions d = IsValid d.refresh_sessions

module _ (env : Env) where
  revoke_family-Keeps :
      (f : String) (reason : Reason) (at : ℕ)
      → Keeps ValidSessions (revoke_refresh_session_family env f reason at)
  unfolding revoke_refresh_session_family
  revoke_family-Keeps f reason at =
      Keeps-map_err _ _
        (record { at = λ w v. revoke_where-IsValid env (of_family f) reason at w v })

  revoke-Keeps :
      (h : String) (reason : Reason) (at : ℕ)
      → Keeps ValidSessions (revoke_refresh_session env h reason at)
  unfolding revoke_refresh_session
  revoke-Keeps h reason at =
      Keeps-map_err _ _ (record { at = λ w v. revoke_where-IsValid env (has_hash h) reason at w v })

  rotate_session-Keeps :
      (h : String) (next : RefreshSession) (t : ℕ)
      → Keeps ValidSessions (rotate_refresh_session env h next t)
  rotate_session-Keeps h next t = record { at = λ w v. rotate-IsValid env h next t w v }

  delete_expired-Keeps : (t : ℕ) → Keeps ValidSessions (delete_expired_refresh_sessions env t)
  delete_expired-Keeps t = record { at = λ w v. delete_expired-IsValid env t w v }

  find-Keeps : (h : String) → Keeps ValidSessions (find_refresh_session env h)
  find-Keeps h = record { at = λ w v. rw (find_refresh_session-world env h w) v }

  ruleset repository_rules = (
    find_user_by_id-Keeps, find_user_by_email-Keeps, revoke_family-Keeps, revoke-Keeps,
    rotate_session-Keeps, delete_expired-Keeps, find-Keeps,
  )

module _ (u : AuthUsecase) where
  active_user-Keeps : (id : ℕ) → Keeps ValidSessions (active_user u id)
  unfolding active_user
  active_user-Keeps id = search (keeps_rules, repository_rules)

  serve_grace_window-Keeps :
      (s : RefreshSession) (t : ℕ) → Keeps ValidSessions (serve_grace_window u s t)
  unfolding serve_grace_window
  serve_grace_window-Keeps s t = search (keeps_rules, active_user-Keeps) depth 8

  reuse-Keeps : (s : RefreshSession) (t : ℕ) → Keeps ValidSessions (reuse u s t)
  unfolding reuse
  reuse-Keeps s t = search (keeps_rules, repository_rules, serve_grace_window-Keeps) depth 8

  rotate-Keeps : (s : RefreshSession) (h : String) (t : ℕ) → Keeps ValidSessions (rotate u s h t)
  unfolding rotate
  rotate-Keeps s h t = search (keeps_rules, repository_rules, active_user-Keeps) depth 12

  present-Keeps : (s : RefreshSession) (h : String) (t : ℕ) → Keeps ValidSessions (present u s h t)
  unfolding present
  present-Keeps s h t = search (keeps_rules, reuse-Keeps, rotate-Keeps) depth 8

  refresh-Keeps : (token : String) → Keeps ValidSessions (refresh u token)
  unfolding refresh
  refresh-Keeps token = search (keeps_rules, repository_rules, present-Keeps) depth 12

  logout-Keeps : (token : String) → Keeps ValidSessions (logout u token)
  unfolding logout
  logout-Keeps token = search (keeps_rules, repository_rules) depth 12

  -- A refresh keeps the invariant of refresh_sessions on every branch.
  pub refresh-IsValid :
      (token : String) (w : World) → HasValidSessions w → HasValidSessions (refresh u token w).1
  refresh-IsValid token w v = (refresh-Keeps token).at w v

  -- A logout keeps the invariant of refresh_sessions on every branch.
  pub logout-IsValid :
      (token : String) (w : World) → HasValidSessions w → HasValidSessions (logout u token w).1
  logout-IsValid token w v = (logout-Keeps token).at w v
