-- ===== src/Auth/Replay.antt =====
-- A revoked token that is presented outside its window.
use youthpreneur_be.Base.{
  ℕ, suc, ◌<◌, ◌≡◌, ◌∙◌, arith, String, Bool, false, ◌&&◌, none, some, List, [], ◌∷◌, All, find,
  select, count, is_null, str_eq, inl, inr, Bool-cases, Option-cases,
}
use youthpreneur_be.Errors.{ok, err}
use youthpreneur_be.Entity.{RefreshSession, Reason}
use youthpreneur_be.Db.{World, Env, tock, unix, statement}
use youthpreneur_be.Session.{
  has_hash, of_family, is_revocable, revoke_where, revoke_refresh_session_family,
}
use youthpreneur_be.Session.Methods.{HasValidSessions}
use youthpreneur_be.Session.Revocation.{revoke_family-AreDead}
use youthpreneur_be.Session.Consumed.{delete_expired-ticks, delete_expired-find}
use youthpreneur_be.Auth.{AuthUsecase, refresh, present, reuse, in_grace, invalid_refresh_token}
use youthpreneur_be.Auth.Refused.{started, cleaned}
use youthpreneur_be.Auth.Window.{IsQuiet, find_quiet, refresh-present}

-- A session that can neither be rotated nor be served from a window.
abbrev pub IsClosed : RefreshSession → Type 0
IsClosed s = (is_null s.revoked_at ≡ false) × (s.grace_until ≡ none)

none_revocable-IsClosed :
    (p : RefreshSession → Bool) (rows : List RefreshSession)
    → count (λ s. p s && is_revocable s) rows ≡ 0
    → All IsClosed (select p rows)
none_revocable-IsClosed p [] h = tt
none_revocable-IsClosed p (s ∷ rows) h = elim (Bool-cases (p s)) [
  | inl own ↦
      let rest = none_revocable-IsClosed p rows (ground arith) in
      let closed : IsClosed s = (ground arith, ground arith) in ground arith
  | inr other ↦ let rest = none_revocable-IsClosed p rows (ground arith) in ground arith
]

revoke_family_quiet :
    (env : Env) (f : String) (reason : Reason) (at : ℕ) (w : World)
    → env.fails w.ticks ≡ false
    → (revoke_refresh_session_family env f reason at w).0 ≡ ok tt
unfolding revoke_refresh_session_family revoke_where statement
revoke_family_quiet env f reason at w quiet = ground arith

module _ (u : AuthUsecase) where
  over-in_grace :
      (s : RefreshSession) (t : ℕ)
      → ((g : ℕ) → s.grace_until ≡ some g → g < unix t)
      → in_grace u s t ≡ false
  over-in_grace s t over = elim (Option-cases s.grace_until) [
    | inl missing ↦ ground arith
    | inr (g, closes) ↦ let past = over g closes in ground arith
  ]

  reuse_closes :
      (s : RefreshSession) (t : ℕ) (w : World)
      → in_grace u s t ≡ false
      → u.env.fails w.ticks ≡ false
      → ((reuse u s t w).0 ≡ err invalid_refresh_token)
        × All IsClosed (select (of_family s.family_id) (reuse u s t w).1.db.refresh_sessions)
  unfolding reuse
  reuse_closes s t w outside quiet =
      let done = revoke_family_quiet u.env s.family_id Reason.replay (unix t) w quiet in
      let dead = revoke_family-AreDead u.env Reason.replay (unix t) w s.family_id done in
      let closed =
        none_revocable-IsClosed (of_family s.family_id)
          (revoke_refresh_session_family u.env s.family_id Reason.replay (unix t)
            w).1.db.refresh_sessions
          dead in
      (ground arith, ground arith)

  present-reuse :
      (s : RefreshSession) (h : String) (t : ℕ) (w : World)
      → is_null s.revoked_at ≡ false
      → present u s h t w ≡ reuse u s t w
  unfolding present
  present-reuse s h t w spent = ground arith

  -- With valid sessions and nothing failing, a Refresh with a token, not empty, whose session is
  -- revoked and not expired, and has no window or one whose end has passed, is refused, and leaves
  -- every session of its family revoked and without a window.
  pub replay_closes_family :
      (token : String) (w : World) {s : RefreshSession}
      → HasValidSessions w
      → str_eq token "" ≡ false
      → find (has_hash (u.tokens.hash_refresh token)) w.db.refresh_sessions ≡ some s
      → is_null s.revoked_at ≡ false
      → ((g : ℕ) → s.grace_until ≡ some g → g < unix (started u w))
      → unix (started u w) < s.expires_at
      → IsQuiet u w
      → ((refresh u token w).0 ≡ err invalid_refresh_token)
        × All IsClosed (
            select
              (λ (x : RefreshSession). str_eq x.family_id s.family_id)
              (refresh u token w).1.db.refresh_sessions)
  replay_closes_family token w {s} v some_token found spent over fresh quiet =
      let t = started u w in
      let h = u.tokens.hash_refresh token in
      let after = cleaned u w in
      let ticks = delete_expired-ticks u.env (unix t) (tock w) in
      let there = delete_expired-find u.env (unix t) h (tock w) v found (ground arith) in
      let step =
        refresh-present u token w some_token
          (find_quiet u h after (quiet after.ticks (omega (arith, ticks))) there)
        ∙ present-reuse s h t (tock after) spent in
      rw step (
        reuse_closes s t (tock after) (over-in_grace s t over)
          (quiet (suc after.ticks) (omega (arith, ticks))))
