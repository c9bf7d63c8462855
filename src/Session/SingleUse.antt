-- ===== src/Session/SingleUse.antt =====
-- A refresh token is consumed once: what a rotation does to the rows, and why the consumed row can
-- never be rotated again.
use youthpreneur_be.Base.{
  ℕ, ◌≢◌, String, Bool, true, false, ◌&&◌, not, List, [], ◌∷◌, ◌++◌, ◌≡◌, refl, ap, some, arith,
  leb, str_eq, find, update, count, exists, Option-cases, inl, inr, eq_iff,
}
use youthpreneur_be.Base.Rows.{
  count-append, count-update, count-update_le, count-update_same, count-select-le, count-none,
  count-le, find-count, find-passes, count-exists,
}
use youthpreneur_be.Errors.{ok}
use youthpreneur_be.Entity.{RefreshSession, Reason}
use youthpreneur_be.Db.{World, Env, tock}
use youthpreneur_be.Db.Laws.{transaction-keeps, transaction-commit}
use youthpreneur_be.Session.{
  has_hash, of_family, of_user, is_usable, is_revocable, revoked, consumed, with_sessions, new_row,
  insert_session, consume_session, rotation, revoke_where, create_refresh_session,
  rotate_refresh_session, revoke_refresh_session, revoke_user_refresh_sessions,
  revoke_refresh_session_family, delete_expired_refresh_sessions,
}
use youthpreneur_be.Session.Invariant.{IsValid, is_live}
use youthpreneur_be.Session.Methods.{HasValidSessions}
use youthpreneur_be.Session.Calls.{
  Call, create, rotate, revoke, revoke_user, revoke_family, delete_expired, after, run,
}

module _ (h : String) where
  abbrev is_live_hash : RefreshSession → Bool
  is_live_hash s = has_hash h s && is_live s

  -- No row with this hash is live.
  abbrev pub IsSpent : World → Type 0
  IsSpent w = count is_live_hash w.db.refresh_sessions ≡ 0

  -- The call does not insert a row with this hash.
  abbrev pub Spares : Call → Type 0
  Spares (create s) = str_eq s.token_hash h ≡ false
  Spares (rotate g next now) = str_eq next.token_hash h ≡ false
  Spares _ = Unit

  abbrev pub AllSpare : List Call → Type 0
  AllSpare [] = Unit
  AllSpare (c ∷ cs) = Spares c × AllSpare cs

  insert_session-IsSpent :
      (user_id : ℕ) (family_id : String) (s : RefreshSession) (w : World)
      → IsSpent w
      → str_eq s.token_hash h ≡ false
      → IsSpent (insert_session user_id family_id s w).1
  unfolding insert_session
  insert_session-IsSpent user_id family_id s w spent other = ground (
    arith,
    count-append is_live_hash w.db.refresh_sessions (new_row w.serial user_id family_id s ∷ []),
  )

  consumed-IsSpent :
      (p : RefreshSession → Bool) (next : RefreshSession) (now : ℕ) (rows : List RefreshSession)
      → count is_live_hash rows ≡ 0
      → count is_live_hash (update p (consumed next now) rows) ≡ 0
  consumed-IsSpent p next now rows spent =
      ground (arith, count-update_le p (consumed next now) is_live_hash rows (λ x e. ground arith))

  -- Consuming the row and inserting its replacement leaves no live row with the old hash.
  consume-spent :
      (next row : RefreshSession) (now id : ℕ) (rows : List RefreshSession)
      → IsValid rows
      → let usable = λ (s : RefreshSession). has_hash h s && is_usable now s in
        let rows' = update usable (consumed next now) rows in
        find usable rows ≡ some row
        → exists (has_hash next.token_hash) rows' ≡ false
        → count is_live_hash (rows' ++ (new_row id row.user_id row.family_id next ∷ [])) ≡ 0
  consume-spent next row now id rows v found fresh =
      let usable = λ (s : RefreshSession). has_hash h s && is_usable now s in
      let rows' = update usable (consumed next now) rows in
      let hit = find-passes usable rows found in
      let (same, _) = eq_iff next.token_hash h in
      ground (
        arith,
        v.unique_hash h,
        hit,
        count-append is_live_hash rows' (new_row id row.user_id row.family_id next ∷ []),
        count-update usable (consumed next now) is_live_hash rows,
        count-none (λ s. usable s && is_live_hash (consumed next now s)) rows (λ x. ground arith),
        find-count usable is_live_hash rows found (ground (arith, hit)),
        count-le is_live_hash (has_hash h) rows (λ x k. ground arith),
        count-exists (has_hash next.token_hash) rows' fresh,
        count-update_same usable (consumed next now) (has_hash h) rows (λ x. refl),
        λ (e : str_eq next.token_hash h ≡ true). ap (λ k. count (has_hash k) rows') (same e),
      )

  module _ (env : Env) where
    rotation-IsSpent :
        (g : String) (next : RefreshSession) (now : ℕ) (w : World)
        → IsSpent w
        → str_eq next.token_hash h ≡ false
        → IsSpent (rotation env g next now w).1
    unfolding rotation consume_session
    rotation-IsSpent g next now w spent other =
        let rows = w.db.refresh_sessions in
        let usable = λ (s : RefreshSession). has_hash g s && is_usable now s in
        elim (Option-cases (find usable rows)) [
          | inl missing ↦ ground arith
          | inr (row, found) ↦
              let spent' = consumed-IsSpent usable next now rows spent in
              ground (
                arith,
                spent',
                insert_session-IsSpent row.user_id row.family_id next
                    (tock (with_sessions (tock w) (update usable (consumed next now) rows))) spent'
                    other,
              )
        ]

    revoke_where-IsSpent :
        (p : RefreshSession → Bool) (reason : Reason) (at : ℕ) (w : World)
        → IsSpent w
        → IsSpent (revoke_where env p reason at w).1
    unfolding revoke_where
    revoke_where-IsSpent p reason at w spent = ground (
      arith,
      count-update_le (λ s. p s && is_revocable s) (revoked reason at) is_live_hash
          w.db.refresh_sessions (λ x e. ground arith),
    )

    after-IsSpent : (c : Call) (w : World) → IsSpent w → Spares c → IsSpent (after env c w)
    unfolding after create_refresh_session rotate_refresh_session revoke_refresh_session
        revoke_user_refresh_sessions revoke_refresh_session_family delete_expired_refresh_sessions
    after-IsSpent (create s) w spent other =
        ground (arith, insert_session-IsSpent s.user_id s.family_id s (tock w) spent other)
    after-IsSpent (rotate g next now) w spent other =
        transaction-keeps env (λ d. count is_live_hash d.refresh_sessions ≡ 0)
          (rotation env g next now) w spent (rotation-IsSpent g next now (tock w) spent other)
    after-IsSpent (revoke g reason at) w spent _ =
        ground (arith, revoke_where-IsSpent (has_hash g) reason at w spent)
    after-IsSpent (revoke_user u reason at) w spent _ =
        ground (arith, revoke_where-IsSpent (of_user u) reason at w spent)
    after-IsSpent (revoke_family f reason at) w spent _ =
        ground (arith, revoke_where-IsSpent (of_family f) reason at w spent)
    after-IsSpent (delete_expired now) w spent _ = ground (
      arith,
      count-select-le (λ s. not (leb s.expires_at now)) is_live_hash w.db.refresh_sessions,
    )

    run-IsSpent : (cs : List Call) (w : World) → IsSpent w → AllSpare cs → IsSpent (run env cs w)
    unfolding run
    run-IsSpent [] w spent _ = spent
    run-IsSpent (c ∷ cs) w spent (other, more) =
        run-IsSpent cs (after env c w) (after-IsSpent c w spent other) more

    -- What a successful rotation found, and the rows that it leaves.
    pub rotate-rows :
        (next : RefreshSession) (now : ℕ) (w : World) {r : RefreshSession}
        → (rotate_refresh_session env h next now w).0 ≡ ok r
        → let rows = w.db.refresh_sessions in
          let rows' = update (λ s. has_hash h s && is_usable now s) (consumed next now) rows in
          (row : RefreshSession) × (find (λ s. has_hash h s && is_usable now s) rows ≡ some row)
          × (exists (has_hash next.token_hash) rows' ≡ false)
          × ((rotate_refresh_session env h next now w).1.db.refresh_sessions
              ≡ rows' ++ (new_row w.serial row.user_id row.family_id next ∷ []))
    unfolding rotate_refresh_session rotation consume_session insert_session
    rotate-rows next now w e =
        let (u, ran, kept) = transaction-commit env (rotation env h next now) w e in
        elim (Option-cases (find (λ s. has_hash h s && is_usable now s) w.db.refresh_sessions)) [
          | inl missing ↦ absurd (ground arith)
          | inr (row, found) ↦ (row, found, ground arith, ground arith)
        ]

    -- A spent hash cannot be rotated.
    spent_refused :
        (next r : RefreshSession) (now : ℕ) (w : World)
        → IsSpent w
        → (rotate_refresh_session env h next now w).0 ≢ ok r
    spent_refused next r now w spent e =
        let (row, found, _, _) = rotate-rows next now w e in
        let usable = λ (s : RefreshSession). has_hash h s && is_usable now s in
        ground (
          arith,
          find-count usable is_live_hash w.db.refresh_sessions found
              (ground (arith, find-passes usable w.db.refresh_sessions found)),
          count-le (λ s. usable s && is_live_hash s) is_live_hash w.db.refresh_sessions
              (λ x k. ground arith),
        )

    rotate-IsSpent :
        (next : RefreshSession) (now : ℕ) (w : World) {r : RefreshSession}
        → HasValidSessions w
        → (rotate_refresh_session env h next now w).0 ≡ ok r
        → IsSpent (rotate_refresh_session env h next now w).1
    rotate-IsSpent next now w v e =
        let (row, found, fresh, rows) = rotate-rows next now w e in
        rw rows (consume-spent next row now w.serial w.db.refresh_sessions v found fresh)

    -- Once a rotation of a token has succeeded, with valid sessions before it, no later rotation of
    -- it succeeds, whatever calls of the repository come in between, if none of them inserts a row
    -- with the same token hash.
    pub rotate_once :
        (next next' : RefreshSession) (now now' : ℕ) (w : World) (cs : List Call)
        {r r' : RefreshSession}
        → HasValidSessions w
        → AllSpare cs
        → (rotate_refresh_session env h next now w).0 ≡ ok r
        → (rotate_refresh_session env h next' now'
            (run env cs (rotate_refresh_session env h next now w).1)).0
          ≢ ok r'
    rotate_once next next' now now' w cs {r'} v spare e =
        spent_refused next' r' now' _ (run-IsSpent cs _ (rotate-IsSpent next now w v e) spare)
