-- ===== src/Session/Methods.antt =====
-- Every method of the session repository keeps the invariant, whatever fails on the way.
use youthpreneur_be.Base.{
  ℕ, String, Bool, ◌&&◌, not, ◌≡◌, arith, leb, find, update, count, Option-cases, inl, inr,
}
use youthpreneur_be.Entity.{RefreshSession, Reason}
use youthpreneur_be.Db.{World, Env, tock}
use youthpreneur_be.Db.Laws.{transaction-keeps}
use youthpreneur_be.Session.{
  with_sessions, has_hash, is_usable, is_revocable, consumed, create_refresh_session,
  rotate_refresh_session, rotation, insert_session, consume_session, revoke_where,
  delete_expired_refresh_sessions, find_refresh_session,
}
use youthpreneur_be.Session.Invariant.{
  IsValid, is_live_in, revoke-IsValid, delete-IsValid, insert-IsValid, consume-dead,
  consume-IsValid,
}

abbrev pub HasValidSessions : World → Type 0
HasValidSessions w = IsValid w.db.refresh_sessions

-- The insertion alone, for a login chain without a live row.
insert_session-IsValid :
    (user_id : ℕ) (family_id : String) (s : RefreshSession) (w : World)
    → HasValidSessions w
    → count (is_live_in family_id) w.db.refresh_sessions ≡ 0
    → HasValidSessions (insert_session user_id family_id s w).1
unfolding insert_session
insert_session-IsValid user_id family_id s w v dead =
    ground (arith, insert-IsValid w.serial user_id family_id s w.db.refresh_sessions v)

module _ (env : Env) where
  -- Creating a session keeps the invariant if its login chain has no live row: NewFamilyID's purpose.
  pub create-IsValid :
      (s : RefreshSession) (w : World)
      → HasValidSessions w
      → count (is_live_in s.family_id) w.db.refresh_sessions ≡ 0
      → HasValidSessions (create_refresh_session env s w).1
  unfolding create_refresh_session
  create-IsValid s w v dead =
      ground (arith, insert_session-IsValid s.user_id s.family_id s (tock w) v dead)

  rotation-IsValid :
      (h : String) (next : RefreshSession) (now : ℕ) (w : World)
      → HasValidSessions w
      → HasValidSessions (rotation env h next now w).1
  unfolding rotation consume_session
  rotation-IsValid h next now w v =
      let rows = w.db.refresh_sessions in
      let usable = λ (s : RefreshSession). has_hash h s && is_usable now s in
      elim (Option-cases (find usable rows)) [
        | inl missing ↦ ground arith
        | inr (row, found) ↦
            let v' = consume-IsValid usable next now rows v in
            ground (
              arith,
              v',
              insert_session-IsValid row.user_id row.family_id next
                  (tock (with_sessions (tock w) (update usable (consumed next now) rows))) v'
                  (consume-dead h next row now rows v found),
            )
      ]

  pub rotate-IsValid :
      (h : String) (next : RefreshSession) (now : ℕ) (w : World)
      → HasValidSessions w
      → HasValidSessions (rotate_refresh_session env h next now w).1
  unfolding rotate_refresh_session
  rotate-IsValid h next now w v =
      transaction-keeps env (λ d. IsValid d.refresh_sessions) (rotation env h next now) w v
        (rotation-IsValid h next now (tock w) v)

  pub revoke_where-IsValid :
      (p : RefreshSession → Bool) (reason : Reason) (at : ℕ) (w : World)
      → HasValidSessions w
      → HasValidSessions (revoke_where env p reason at w).1
  unfolding revoke_where
  revoke_where-IsValid p reason at w v =
      ground (arith, revoke-IsValid (λ s. p s && is_revocable s) reason at w.db.refresh_sessions v)

  pub delete_expired-IsValid :
      (now : ℕ) (w : World)
      → HasValidSessions w
      → HasValidSessions (delete_expired_refresh_sessions env now w).1
  unfolding delete_expired_refresh_sessions
  delete_expired-IsValid now w v =
      ground (arith, delete-IsValid (λ s. not (leb s.expires_at now)) w.db.refresh_sessions v)

  pub find_refresh_session-world :
      (h : String) (w : World) → (find_refresh_session env h w).1.db ≡ w.db
  unfolding find_refresh_session
  find_refresh_session-world h w = ground arith
