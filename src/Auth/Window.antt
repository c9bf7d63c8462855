-- ===== src/Auth/Window.antt =====
-- The grace window of a rotated session: serving it, and what a retry inside it has to meet.
use youthpreneur_be.Base.{
  ℕ, suc, ◌+◌, ◌*◌, ◌≤◌, String, true, false, ◌≡◌, refl, ◌∙◌, ap, some, arith, List, find,
  Option-cases, inl, inr, is_null, leb, str_eq,
}
use youthpreneur_be.Errors.{ok}
use youthpreneur_be.Entity.{User, RefreshSession}
use youthpreneur_be.Db.{World, tock, unix, nanoseconds}
use youthpreneur_be.Users.{find_user_by_id}
use youthpreneur_be.Session.{has_hash, find_refresh_session}
use youthpreneur_be.Session.Methods.{HasValidSessions}
use youthpreneur_be.Session.Consumed.{
  delete_expired-users, delete_expired-ticks, delete_expired-find,
}
use youthpreneur_be.Auth.{
  AuthUsecase, AuthTokens, refresh, present, reuse, rotate, serve_grace_window, active_user,
  in_grace,
}
use youthpreneur_be.Auth.Refused.{started, cleaned}
use youthpreneur_be.Auth.Rotation.{IsActiveUser}

module _ (u : AuthUsecase) where
  -- From a moment on, no effect fails.
  abbrev pub IsQuiet : World → Type 0
  IsQuiet w = (k : ℕ) → w.ticks ≤ k → u.env.fails k ≡ false

  -- What the code relies on of its token service: a sealed token opens to itself, and signing works.
  pub record IsSound : Type 0 where
    pub opens :
        (raw : String) (k : ℕ) (c : List ℕ)
        → u.tokens.encrypt_refresh raw k ≡ ok c
        → u.tokens.decrypt_refresh c ≡ ok raw
    pub signs : (x : User) (t : ℕ) → (s : String) × (u.tokens.issue_access x t ≡ ok s)

  -- A lookup that goes through gives the row with the hash.
  pub find_quiet :
      (h : String) (w : World) {s : RefreshSession}
      → u.env.fails w.ticks ≡ false
      → find (has_hash h) w.db.refresh_sessions ≡ some s
      → find_refresh_session u.env h w ≡ (ok s, tock w)
  unfolding find_refresh_session
  find_quiet h w q found = ground arith

  pub found_row :
      (h : String) (w : World) {s : RefreshSession}
      → (find_refresh_session u.env h w).0 ≡ ok s
      → find (has_hash h) w.db.refresh_sessions ≡ some s
  unfolding find_refresh_session
  found_row h w {s} e = elim (Option-cases (find (has_hash h) w.db.refresh_sessions)) [
    | inl missing ↦ absurd (ground arith)
    | inr (row, found) ↦ ground arith
  ]

  active_user_quiet :
      (id : ℕ) (w : World) {user : User}
      → u.env.fails w.ticks ≡ false
      → IsActiveUser u id w user
      → active_user u id w ≡ (ok user, tock w)
  unfolding active_user find_user_by_id
  active_user_quiet id w q (found, active) = ground arith

  serve_quiet :
      (s : RefreshSession) (t : ℕ) (w : World) {user : User} {raw access : String}
      → u.env.fails w.ticks ≡ false
      → IsActiveUser u s.user_id w user
      → u.tokens.decrypt_refresh s.replacement_token_enc ≡ ok raw
      → u.tokens.issue_access user t ≡ ok access
      → serve_grace_window u s t w ≡ (
        ok (record {
          access_token = access;
          refresh_token = raw;
          access_expires_at = t + u.access_ttl;
          refresh_expires_at = s.expires_at * nanoseconds;
        }),
        tock w,
      )
  unfolding serve_grace_window
  serve_quiet s t w q seen opened signed = ground (arith, active_user_quiet s.user_id w q seen)

  -- A refresh that finds its session goes on with it.
  pub refresh-present :
      (token : String) (w : World) {s : RefreshSession}
      → let h = u.tokens.hash_refresh token in
        str_eq token "" ≡ false
        → find_refresh_session u.env h (cleaned u w) ≡ (ok s, tock (cleaned u w))
        → refresh u token w ≡ present u s h (started u w) (tock (cleaned u w))
  unfolding refresh
  refresh-present token w some_token found = ground arith

  present-serves :
      (s : RefreshSession) (h : String) (t : ℕ) (w : World)
      → is_null s.revoked_at ≡ false
      → in_grace u s t ≡ true
      → present u s h t w ≡ serve_grace_window u s t w
  unfolding present reuse
  present-serves s h t w spent inside = ground arith

  pub present-rotates :
      (s : RefreshSession) (h : String) (t : ℕ) (w : World) {a : AuthTokens}
      → is_null s.revoked_at ≡ true
      → (present u s h t w).0 ≡ ok a
      → present u s h t w ≡ rotate u s h t w
  unfolding present
  present-rotates s h t w live e = ground arith

  -- What a token has to meet to be served from its grace window.
  pub record IsRetry (token : String) (w : World) (s : RefreshSession) (user : User) (raw : String)
      : Type 0 where
    pub some_token : str_eq token "" ≡ false
    pub valid : HasValidSessions w
    pub found : find (has_hash (u.tokens.hash_refresh token)) w.db.refresh_sessions ≡ some s
    pub spent : is_null s.revoked_at ≡ false
    pub inside : in_grace u s (started u w) ≡ true
    pub unexpired : leb s.expires_at (unix (started u w)) ≡ false
    pub seen : IsActiveUser u s.user_id w user
    pub opened : u.tokens.decrypt_refresh s.replacement_token_enc ≡ ok raw

  -- A retry inside the window is served the sealed replacement.
  pub retry_served :
      (token : String) (w : World) {s : RefreshSession} {user : User} {raw access : String}
      → IsRetry token w s user raw
      → IsQuiet w
      → u.tokens.issue_access user (started u w) ≡ ok access
      → (b : AuthTokens) × ((refresh u token w).0 ≡ ok b) × (b.refresh_token ≡ raw)
  retry_served token w {s} {user} {raw} {access} r quiet signed =
      let t = started u w in
      let h = u.tokens.hash_refresh token in
      let after = cleaned u w in
      let ticks = delete_expired-ticks u.env (unix t) (tock w) in
      let users = delete_expired-users u.env (unix t) (tock w) in
      let found = delete_expired-find u.env (unix t) h (tock w) r.valid r.found r.unexpired in
      let step =
        refresh-present token w r.some_token
          (find_quiet h after (quiet after.ticks (omega (arith, ticks))) found) in
      let b : AuthTokens = record {
        access_token = access;
        refresh_token = raw;
        access_expires_at = t + u.access_ttl;
        refresh_expires_at = s.expires_at * nanoseconds;
      } in
      let served =
        serve_quiet s t (tock after) {user = user} {raw = raw} {access = access}
          (quiet (suc after.ticks) (omega (arith, ticks))) (rw users r.seen) r.opened signed in
      (b, ap (λ x. x.0) (step ∙ present-serves s h t (tock after) r.spent r.inside ∙ served), refl)
