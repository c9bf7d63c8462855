-- ===== src/Auth/Retry.antt =====
-- A retry: a duplicate of a refresh that has just rotated the token gets the same replacement.
use youthpreneur_be.Base.{
  ℕ, ◌+◌, ◌≤◌, ◌<◌, String, true, false, ◌≡◌, refl, sym, ◌∙◌, ap, some, arith, find, is_null,
  str_eq,
}
use youthpreneur_be.Errors.{ok}
use youthpreneur_be.Entity.{User, RefreshSession, Reason}
use youthpreneur_be.Db.{World, tock, unix}
use youthpreneur_be.Session.{has_hash, consumed, find_refresh_session}
use youthpreneur_be.Session.Methods.{
  HasValidSessions, delete_expired-IsValid, find_refresh_session-world,
}
use youthpreneur_be.Session.Consumed.{rotate-users, find-delete_expired, rotate-find}
use youthpreneur_be.Auth.{AuthUsecase, AuthTokens, refresh, rotate, refresh_grace_window}
use youthpreneur_be.Auth.Keeps.{refresh-IsValid}
use youthpreneur_be.Auth.Refused.{refresh-ok, started, cleaned}
use youthpreneur_be.Auth.Rotation.{IsActiveUser, Rotated, rotate-ok, replacement}
use youthpreneur_be.Auth.Window.{IsSound, IsQuiet, found_row, present-rotates, retry_served}

module _ (u : AuthUsecase) where
  -- What a rotation of the session `s` at time `t` leaves for a second call with the same token:
  -- the consumed row with its window, the user, and the sealed replacement.
  pub record Leaves (h : String) (s : RefreshSession) (t : ℕ) (raw : String) (w : World)
      : Type 0 where
    pub user : User
    pub left : RefreshSession
    pub found : find (has_hash h) w.db.refresh_sessions ≡ some left
    pub revoked_at : left.revoked_at ≡ some (unix t)
    pub reason : left.revocation_reason ≡ some Reason.rotated
    pub grace_until : left.grace_until ≡ some (unix (t + refresh_grace_window))
    pub expires_at : left.expires_at ≡ s.expires_at
    pub seen : IsActiveUser u left.user_id w user
    pub opened : u.tokens.decrypt_refresh left.replacement_token_enc ≡ ok raw

  rotate-Leaves :
      (s : RefreshSession) (h : String) (t : ℕ) (w : World) {a : AuthTokens}
      → IsSound u
      → HasValidSessions w
      → find (has_hash h) w.db.refresh_sessions ≡ some s
      → Rotated u s h t w a
      → Leaves h s t a.refresh_token (rotate u s h t w).1
  rotate-Leaves s h t w {a} sound v found did =
      let next = replacement u s did.user a.refresh_token did.sealed t in
      let same = did.untouched in
      let users = rotate-users u.env h next (unix t) did.before in
      rw (did.after) (record {
        user = did.user;
        left = consumed next (unix t) s;
        found =
            rotate-find u.env h next (unix t) did.before {r = did.row} {s = s} (rw same v)
              did.written (rw same found);
        revoked_at = refl;
        reason = refl;
        grace_until = refl;
        expires_at = refl;
        seen = rw (users, same) did.seen;
        opened = sound.opens a.refresh_token did.moment did.sealed did.seals;
      })

  refresh-Leaves :
      (token : String) (w : World) {s : RefreshSession} {a : AuthTokens}
      → IsSound u
      → HasValidSessions w
      → find (has_hash (u.tokens.hash_refresh token)) w.db.refresh_sessions ≡ some s
      → is_null s.revoked_at ≡ true
      → (refresh u token w).0 ≡ ok a
      → Leaves (u.tokens.hash_refresh token) s (started u w) a.refresh_token (refresh u token w).1
  refresh-Leaves token w {s} {a} sound v found live e =
      let t = started u w in
      let h = u.tokens.hash_refresh token in
      let after = cleaned u w in
      let (s0, hit, step) = refresh-ok u token w e in
      let row = found_row u h after hit in
      let same : s0 ≡ s = cc (find-delete_expired u.env (unix t) h (tock w) v row, found) in
      let begun = (find_refresh_session u.env h after).1 in
      let unread = find_refresh_session-world u.env h after in
      let rotates =
        present-rotates u s0 h t begun {a = a} (rw same live) (ap (λ x. x.0) (sym step) ∙ e) in
      let did = rotate-ok u s0 h t begun {a = a} (ap (λ x. x.0) (sym (step ∙ rotates)) ∙ e) in
      rw (step ∙ rotates, ← same)
        (rotate-Leaves s0 h t begun sound
          (rw unread (delete_expired-IsValid u.env (unix t) (tock w) v)) (rw unread row) did)

  -- With a sound token service and valid sessions, when a Refresh has rotated a token, not empty,
  -- whose session was found live, a second Refresh with it, within ten seconds and before the
  -- consumed session expires, with nothing failing, succeeds with the replacement that the first one
  -- returned.
  pub refresh_retry :
      (token : String) (w : World) {s : RefreshSession} {a : AuthTokens}
      → IsSound u
      → HasValidSessions w
      → str_eq token "" ≡ false
      → find (has_hash (u.tokens.hash_refresh token)) w.db.refresh_sessions ≡ some s
      → is_null s.revoked_at ≡ true
      → (refresh u token w).0 ≡ ok a
      → let w' = (refresh u token w).1 in
        IsQuiet u w'
        → unix (started u w') ≤ unix (started u w + refresh_grace_window)
        → unix (started u w') < s.expires_at
        → (b : AuthTokens) × ((refresh u token w').0 ≡ ok b) × (b.refresh_token ≡ a.refresh_token)
  refresh_retry token w {s} {a} sound v some_token found live e quiet soon unexpired =
      let w' = (refresh u token w).1 in
      let l = refresh-Leaves token w sound v found live e in
      let (access, signed) = sound.signs l.user (started u w') in
      retry_served u token w'
        (record {
          some_token = some_token;
          valid = refresh-IsValid u token w v;
          found = l.found;
          spent = rw l.revoked_at refl;
          inside = rw (l.reason, l.grace_until) (ground arith);
          unexpired = rw l.expires_at (ground arith);
          seen = l.seen;
          opened = l.opened;
        })
        quiet signed
