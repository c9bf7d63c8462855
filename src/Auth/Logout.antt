-- ===== src/Auth/Logout.antt =====
-- Logout revokes the row of the token that it is given, and no other row: the window of the token
-- that was rotated into it stays open.
use youthpreneur_be.Base.{
  ℕ, ◌≤◌, String, true, false, ◌&&◌, ◌≡◌, refl, some, arith, ◌∙◌, find, str_eq, eq_iff, is_null,
  leb,
}
use youthpreneur_be.Base.Rows.{find-update_other}
use youthpreneur_be.Errors.{ok}
use youthpreneur_be.Entity.{User, RefreshSession, Reason}
use youthpreneur_be.Db.{World, unix}
use youthpreneur_be.Session.{has_hash, is_revocable, revoked, revoke_refresh_session}
use youthpreneur_be.Session.Methods.{HasValidSessions}
use youthpreneur_be.Auth.{AuthUsecase, AuthTokens, refresh, logout}
use youthpreneur_be.Auth.Keeps.{logout-IsValid}
use youthpreneur_be.Auth.Refused.{started}
use youthpreneur_be.Auth.Rotation.{IsActiveUser}
use youthpreneur_be.Auth.Window.{IsQuiet, retry_served}

module _ (u : AuthUsecase) where
  logout-users : (token : String) (w : World) → (logout u token w).1.db.users ≡ w.db.users
  unfolding logout revoke_refresh_session
  logout-users token w = ground arith

  other_hash :
      (g h : String) (s : RefreshSession)
      → str_eq g h ≡ false
      → has_hash h s ≡ true
      → (has_hash g s && is_revocable s) ≡ false
  other_hash g h s differ e =
      ground (arith, eq_iff s.token_hash h, eq_iff s.token_hash g, eq_iff g h)

  logout-find :
      (token : String) (h : String) (w : World)
      → str_eq (u.tokens.hash_refresh token) h ≡ false
      → find (has_hash h) (logout u token w).1.db.refresh_sessions
        ≡ find (has_hash h) w.db.refresh_sessions
  unfolding logout revoke_refresh_session
  logout-find token h w differ =
      let g = u.tokens.hash_refresh token in
      let t = unix (started u w) in
      ground (
        arith,
        find-update_other (λ s. has_hash g s && is_revocable s) (revoked Reason.logout t)
            (has_hash h) w.db.refresh_sessions (λ x. refl) (λ x e. other_hash g h x differ e),
      )

  -- After a logout with the current token, its predecessor is still served: with valid sessions
  -- before it, and an older non-empty token with another hash, whose session is found, rotated, not
  -- past the end of its window and not expired, whose user is present and active, and whose sealed
  -- replacement opens, if an access token can be signed and nothing fails from then on, a Refresh of
  -- the older token gives the replacement.
  pub logout-keeps_window :
      (current old : String) (w : World) {s : RefreshSession} {user : User} {raw access : String}
      {g : ℕ}
      → let w' = (logout u current w).1 in
        HasValidSessions w
        → str_eq (u.tokens.hash_refresh current) (u.tokens.hash_refresh old) ≡ false
        → str_eq old "" ≡ false
        → find (has_hash (u.tokens.hash_refresh old)) w.db.refresh_sessions ≡ some s
        → is_null s.revoked_at ≡ false
        → s.revocation_reason ≡ some Reason.rotated
        → s.grace_until ≡ some g
        → unix (started u w') ≤ g
        → leb s.expires_at (unix (started u w')) ≡ false
        → IsActiveUser u s.user_id w user
        → u.tokens.decrypt_refresh s.replacement_token_enc ≡ ok raw
        → u.tokens.issue_access user (started u w') ≡ ok access
        → IsQuiet u w'
        → (b : AuthTokens) × ((refresh u old w').0 ≡ ok b) × (b.refresh_token ≡ raw)
  logout-keeps_window current old w v differ some_token found spent rotated closes early unexpired
        seen opened signed quiet =
      let h = u.tokens.hash_refresh old in
      retry_served u old (logout u current w).1
        (record {
          some_token = some_token;
          valid = logout-IsValid u current w v;
          found = logout-find current h w differ ∙ found;
          spent = spent;
          inside = ground arith;
          unexpired = unexpired;
          seen = rw (logout-users current w) seen;
          opened = opened;
        })
        quiet signed
