-- ===== src/Auth/Refused.antt =====
-- A token whose session is revoked without a grace window gets nothing from Refresh.
use youthpreneur_be.Base.{
  ℕ, String, Bool, false, ◌&&◌, not, ◌≡◌, ◌≢◌, arith, leb, find, Option-cases, ap, sym, ◌∙◌, inl,
  inr, str_eq,
}
use youthpreneur_be.Base.Rows.{count-select-le, find-count}
use youthpreneur_be.Errors.{ok, Result-cases}
use youthpreneur_be.Entity.{RefreshSession, Reason}
use youthpreneur_be.Db.{World, tock, unix}
use youthpreneur_be.Session.{
  has_hash, is_revocable, find_refresh_session, delete_expired_refresh_sessions,
}
use youthpreneur_be.Session.Revocation.{AreDead, revoke_session-AreDead}
use youthpreneur_be.Auth.{AuthUsecase, AuthTokens, refresh, present, reuse, logout}

module _ (u : AuthUsecase) where
  present_refused :
      (s : RefreshSession) (h : String) (t : ℕ) (w : World) (a : AuthTokens)
      → is_revocable s ≡ false
      → (present u s h t w).0 ≢ ok a
  unfolding present reuse
  present_refused s h t w a dead = ground arith

  cleaned-AreDead :
      (p : RefreshSession → Bool) (t : ℕ) (w : World)
      → AreDead p w
      → AreDead p (delete_expired_refresh_sessions u.env t w).1
  unfolding delete_expired_refresh_sessions
  cleaned-AreDead p t w dead = ground (
    arith,
    count-select-le (λ s. not (leb s.expires_at t)) (λ s. p s && is_revocable s)
        w.db.refresh_sessions,
  )

  found_dead :
      (h : String) (w : World) {s : RefreshSession}
      → AreDead (has_hash h) w
      → (find_refresh_session u.env h w).0 ≡ ok s
      → is_revocable s ≡ false
  unfolding find_refresh_session
  found_dead h w {s} dead e = elim (Option-cases (find (has_hash h) w.db.refresh_sessions)) [
    | inl missing ↦ absurd (ground arith)
    | inr (row, found) ↦
        ground (arith, find-count (has_hash h) is_revocable w.db.refresh_sessions {a = row} found)
  ]

  -- The moment of the call, and the world after its cleanup.
  abbrev pub started : World → ℕ
  started w = u.env.clock w.ticks

  abbrev pub cleaned : World → World
  cleaned w = (delete_expired_refresh_sessions u.env (unix (started w)) (tock w)).1

  -- A refresh that succeeds has found a session and handled it.
  pub refresh-ok :
      (token : String) (w : World) {a : AuthTokens}
      → (refresh u token w).0 ≡ ok a
      → let h = u.tokens.hash_refresh token in
        let found = find_refresh_session u.env h (cleaned w) in
        (s : RefreshSession) × (found.0 ≡ ok s)
        × (refresh u token w ≡ present u s h (started w) found.1)
  unfolding refresh
  refresh-ok token w e =
      let found = find_refresh_session u.env (u.tokens.hash_refresh token) (cleaned w) in
      elim (Result-cases found.0) [
        | inl (s, r) ↦ (s, r, ground arith)
        | inr (x, r) ↦ absurd (ground arith)
      ]

  -- A token whose rows are neither live nor in a grace window is never refreshed.
  pub refresh_refused :
      (token : String) (w : World) (a : AuthTokens)
      → AreDead (has_hash (u.tokens.hash_refresh token)) w
      → (refresh u token w).0 ≢ ok a
  refresh_refused token w a dead e =
      let h = u.tokens.hash_refresh token in
      let (s, found, same) = refresh-ok token w e in
      present_refused s h (started w) _ a
        (found_dead h (cleaned w) (cleaned-AreDead (has_hash h) (unix (started w)) (tock w) dead)
          found)
        (ap (λ r. r.0) (sym same) ∙ e)

  logout-AreDead :
      (token : String) (w : World)
      → str_eq token "" ≡ false
      → (logout u token w).0 ≡ ok tt
      → AreDead (has_hash (u.tokens.hash_refresh token)) (logout u token w).1
  unfolding logout
  logout-AreDead token w some_token e = ground (
    arith,
    revoke_session-AreDead u.env Reason.logout (unix (started w)) (tock w)
        (u.tokens.hash_refresh token),
  )

  -- After a logout that reports success, the token that it was given, not empty, is not refreshed.
  pub logout_ends :
      (token : String) (w : World) (a : AuthTokens)
      → str_eq token "" ≡ false
      → (logout u token w).0 ≡ ok tt
      → (refresh u token (logout u token w).1).0 ≢ ok a
  logout_ends token w a some_token e =
      refresh_refused token (logout u token w).1 a (logout-AreDead token w some_token e)
