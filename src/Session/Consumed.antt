-- ===== src/Session/Consumed.antt =====
-- What a lookup by hash finds after a cleanup and after a rotation.
use youthpreneur_be.Base.{
  ℕ, suc, String, false, ◌&&◌, not, [], ◌∷◌, ◌≡◌, refl, some, arith, leb, find, update,
}
use youthpreneur_be.Base.Rows.{
  find_kept, find_unique, find-select, find-append, find-update, find-passes,
}
use youthpreneur_be.Errors.{ok}
use youthpreneur_be.Entity.{RefreshSession}
use youthpreneur_be.Db.{World, Env}
use youthpreneur_be.Db.Laws.{transaction-keeps}
use youthpreneur_be.Session.{
  has_hash, is_usable, consumed, new_row, rotate_refresh_session, rotation, insert_session,
  consume_session, delete_expired_refresh_sessions,
}
use youthpreneur_be.Session.Methods.{HasValidSessions}
use youthpreneur_be.Session.SingleUse.{rotate-rows}

module _ (env : Env) where
  -- A rotation leaves the users alone.
  pub rotate-users :
      (h : String) (next : RefreshSession) (now : ℕ) (w : World)
      → (rotate_refresh_session env h next now w).1.db.users ≡ w.db.users
  unfolding rotate_refresh_session rotation insert_session consume_session
  rotate-users h next now w =
      transaction-keeps env (λ d. d.users ≡ w.db.users) (rotation env h next now) w refl
        (ground arith)

  pub delete_expired-users :
      (t : ℕ) (w : World) → (delete_expired_refresh_sessions env t w).1.db.users ≡ w.db.users
  unfolding delete_expired_refresh_sessions
  delete_expired-users t w = ground arith

  pub delete_expired-ticks :
      (t : ℕ) (w : World) → (delete_expired_refresh_sessions env t w).1.ticks ≡ suc w.ticks
  unfolding delete_expired_refresh_sessions
  delete_expired-ticks t w = ground arith

  -- A cleanup does not hide a row that has not expired.
  pub delete_expired-find :
      (t : ℕ) (h : String) (w : World) {s : RefreshSession}
      → HasValidSessions w
      → find (has_hash h) w.db.refresh_sessions ≡ some s
      → leb s.expires_at t ≡ false
      → find (has_hash h) (delete_expired_refresh_sessions env t w).1.db.refresh_sessions ≡ some s
  unfolding delete_expired_refresh_sessions
  delete_expired-find t h w {s} v found fresh = ground (
    arith,
    find-select (λ x. not (leb x.expires_at t)) (has_hash h) w.db.refresh_sessions,
    find_kept (has_hash h) (λ x. not (leb x.expires_at t)) w.db.refresh_sessions {a = s} found,
  )

  -- A row that a lookup finds after a cleanup was the row with that hash before.
  pub find-delete_expired :
      (t : ℕ) (h : String) (w : World) {s : RefreshSession}
      → HasValidSessions w
      → find (has_hash h) (delete_expired_refresh_sessions env t w).1.db.refresh_sessions ≡ some s
      → find (has_hash h) w.db.refresh_sessions ≡ some s
  unfolding delete_expired_refresh_sessions
  find-delete_expired t h w {s} v found = ground (
    arith,
    v.unique_hash h,
    find-select (λ x. not (leb x.expires_at t)) (has_hash h) w.db.refresh_sessions,
    find_unique (has_hash h) (λ x. not (leb x.expires_at t)) w.db.refresh_sessions {a = s},
  )

  -- After a rotation the old hash leads to the consumed row.
  pub rotate-find :
      (h : String) (next : RefreshSession) (now : ℕ) (w : World) {r s : RefreshSession}
      → HasValidSessions w
      → (rotate_refresh_session env h next now w).0 ≡ ok r
      → find (has_hash h) w.db.refresh_sessions ≡ some s
      → find (has_hash h) (rotate_refresh_session env h next now w).1.db.refresh_sessions
        ≡ some (consumed next now s)
  rotate-find h next now w {s} v e found =
      let (row, hit, fresh, rows) = rotate-rows h env next now w e in
      let usable = λ (x : RefreshSession). has_hash h x && is_usable now x in
      let old = w.db.refresh_sessions in
      rw rows (
        ground (
          arith,
          v.unique_hash h,
          find_unique (has_hash h) (is_usable now) old {a = row} hit,
          find-passes usable old {a = row} hit,
          find-update usable (consumed next now) (has_hash h) old (λ x. refl),
          find-append (has_hash h) (update usable (consumed next now) old)
              (new_row w.serial row.user_id row.family_id next ∷ []),
        ))
