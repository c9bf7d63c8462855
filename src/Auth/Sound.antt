-- ===== src/Auth/Sound.antt =====
-- What Refresh has found when it gives tokens.
use youthpreneur_be.Base.{
  ◌==◌, ◌&&◌, ℕ, ◌≤◌, ◌<◌, ◌≡◌, ◌⊎◌, sym, ap, ◌∙◌, arith, String, true, none, some, find, is_null,
  leb, str_eq, inl, inr, Bool-cases, Option-cases,
}
use youthpreneur_be.Errors.{ok, Result-cases}
use youthpreneur_be.Entity.{User, RefreshSession, Reason}
use youthpreneur_be.Db.{Db, World, tock, unix}
use youthpreneur_be.Users.{is_present}
use youthpreneur_be.Session.{find_refresh_session}
use youthpreneur_be.Session.Methods.{HasValidSessions, find_refresh_session-world}
use youthpreneur_be.Session.Consumed.{delete_expired-users, find-delete_expired}
use youthpreneur_be.Auth.{
  AuthUsecase, AuthTokens, refresh, present, reuse, serve_grace_window, active_user, in_grace,
}
use youthpreneur_be.Auth.Refused.{refresh-ok, started, cleaned}
use youthpreneur_be.Auth.Rotation.{IsActiveUser, active_user-ok, rotate-ok}
use youthpreneur_be.Auth.Window.{found_row}

-- A session in its window: rotated, and the end of the window has not passed.
abbrev pub IsInWindow : RefreshSession → ℕ → Type 0
IsInWindow s now =
    (g : ℕ) × (s.revocation_reason ≡ some Reason.rotated) × (s.grace_until ≡ some g) × (now ≤ g)

-- A session that may be refreshed: live and not expired, or in its window.
abbrev pub IsRefreshable : RefreshSession → ℕ → Type 0
IsRefreshable s now = ((s.revoked_at ≡ none) × (now < s.expires_at)) ⊎ IsInWindow s now

module _ (u : AuthUsecase) where
  in_grace-IsInWindow : (s : RefreshSession) (t : ℕ) → in_grace u s t ≡ true → IsInWindow s (unix t)
  in_grace-IsInWindow s t h = elim (Option-cases s.grace_until) [
    | inl missing ↦ absurd (ground arith)
    | inr (g, closes) ↦ (g, ground arith, closes, ground arith)
  ]

  serve-seen :
      (s : RefreshSession) (t : ℕ) (w : World) {a : AuthTokens}
      → (serve_grace_window u s t w).0 ≡ ok a
      → (user : User) × IsActiveUser u s.user_id w user
  unfolding serve_grace_window
  serve-seen s t w h = elim (Result-cases (active_user u s.user_id w).0) [
    | inr (x, r) ↦ absurd (ground arith)
    | inl (user, r) ↦ (user, (active_user-ok u s.user_id w r).0)
  ]

  present-ok :
      (s : RefreshSession) (h : String) (t : ℕ) (w : World) {a : AuthTokens}
      → (present u s h t w).0 ≡ ok a
      → IsRefreshable s (unix t) × ((user : User) × IsActiveUser u s.user_id w user)
  unfolding present reuse
  present-ok s h t w {a} e = elim (Bool-cases (is_null s.revoked_at)) [
    | inl live ↦ elim (Bool-cases (leb s.expires_at (unix t))) [
      | inl expired ↦ absurd (ground arith)
      | inr fresh ↦
          let did = rotate-ok u s h t w {a = a} (ground arith) in
          (inl (ground arith, ground arith), (did.user, did.seen))
    ]
    | inr spent ↦ elim (Bool-cases (in_grace u s t)) [
      | inr outside ↦ absurd (ground arith)
      | inl inside ↦ (inr (in_grace-IsInWindow s t inside), serve-seen s t w {a = a} (ground arith))
    ]
  ]

  -- A Refresh that gives tokens, with valid sessions before it, has found a session under the hash of
  -- the token that is live and not expired, or rotated with the end of its window not passed, and a
  -- present, active user who owns it.
  pub refresh_sound :
      (token : String) (w : World) {a : AuthTokens}
      → HasValidSessions w
      → (refresh u token w).0 ≡ ok a
      → (s : RefreshSession) × (user : User) × (find
            (λ (x : RefreshSession). str_eq x.token_hash (u.tokens.hash_refresh token))
            w.db.refresh_sessions
          ≡ some s)
        × IsRefreshable s (unix (started u w))
        × IsActiveUser u s.user_id w user
  refresh_sound token w {a} v e =
      let t = started u w in
      let h = u.tokens.hash_refresh token in
      let after = cleaned u w in
      let (s, hit, step) = refresh-ok u token w e in
      let begun = (find_refresh_session u.env h after).1 in
      let (usable, (user, seen)) = present-ok s h t begun {a = a} (ap (λ x. x.0) (sym step) ∙ e) in
      let row = find-delete_expired u.env (unix t) h (tock w) v (found_row u h after hit) in
      let kept : begun.db.users ≡ w.db.users =
        ap (λ (d : Db). d.users) (find_refresh_session-world u.env h after)
        ∙ delete_expired-users u.env (unix t) (tock w) in
      (
        s,
        user,
        row,
        usable,
        (ap (find (λ (x : User). x.id == s.user_id && is_present x)) (sym kept) ∙ seen.0, seen.1),
      )
