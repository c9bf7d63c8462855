-- ===== src/Session/Revocation.antt =====
-- What the three revoking methods promise: the rows that they select are no longer live and have no
-- grace window left.
use youthpreneur_be.Base.{ℕ, String, Bool, ◌&&◌, ◌≡◌, arith, count}
use youthpreneur_be.Base.Rows.{count-update_cleared}
use youthpreneur_be.Errors.{ok}
use youthpreneur_be.Entity.{RefreshSession, Reason}
use youthpreneur_be.Db.{World, Env}
use youthpreneur_be.Session.{
  has_hash, of_user, of_family, is_revocable, revoked, revoke_where, revoke_refresh_session,
  revoke_user_refresh_sessions, revoke_refresh_session_family,
}

-- No row that passes the test can be rotated or be served from its grace window.
abbrev pub AreDead : (RefreshSession → Bool) → World → Type 0
AreDead p w = count (λ s. p s && is_revocable s) w.db.refresh_sessions ≡ 0

module _ (env : Env) (reason : Reason) (at : ℕ) (w : World) where
  revoke_where-AreDead :
      (p : RefreshSession → Bool)
      → (revoke_where env p reason at w).0 ≡ ok tt
      → AreDead p (revoke_where env p reason at w).1
  unfolding revoke_where
  revoke_where-AreDead p e = ground (
    arith,
    count-update_cleared (λ s. p s && is_revocable s) (revoked reason at) w.db.refresh_sessions
        (λ x. ground arith),
  )

  pub revoke_session-AreDead :
      (h : String)
      → (revoke_refresh_session env h reason at w).0 ≡ ok tt
      → AreDead (has_hash h) (revoke_refresh_session env h reason at w).1
  unfolding revoke_refresh_session
  revoke_session-AreDead h e = ground (arith, revoke_where-AreDead (has_hash h))

  pub revoke_user-AreDead :
      (u : ℕ)
      → (revoke_user_refresh_sessions env u reason at w).0 ≡ ok tt
      → AreDead (of_user u) (revoke_user_refresh_sessions env u reason at w).1
  unfolding revoke_user_refresh_sessions
  revoke_user-AreDead u e = ground (arith, revoke_where-AreDead (of_user u))

  pub revoke_family-AreDead :
      (f : String)
      → (revoke_refresh_session_family env f reason at w).0 ≡ ok tt
      → AreDead (of_family f) (revoke_refresh_session_family env f reason at w).1
  unfolding revoke_refresh_session_family
  revoke_family-AreDead f e = ground (arith, revoke_where-AreDead (of_family f))
