-- ===== src/Session.antt =====
-- internal/repository/persistence/auth_postgres.go: the table refresh_sessions and the statements
-- that create, find, rotate, revoke and delete its rows.
mod Examples
pub mod Invariant
pub mod Methods
pub mod Calls
pub mod SingleUse
pub mod Revocation
pub mod Consumed
use youthpreneur_be.Base.{
  ℕ, suc, String, Bool, ◌&&◌, ◌||◌, not, Option, none, some, List, [], ◌∷◌, ◌++◌, ltb, leb, ◌==◌,
  str_eq, if◌then◌else◌, is_null, find, update, select, exists,
}
use youthpreneur_be.Errors.{
  Error, RepositoryError, repository, no_rows, pg_error, wrap, Result, ok, err, is_no_rows,
}
use youthpreneur_be.Entity.{User, RefreshSession, Reason}
use youthpreneur_be.Db.{World, Env, M, pure, ◌>>=◌, ◌>>◌, map_err, wrap_err, statement, transaction}

-- `WHERE token_hash = $1`
abbrev pub has_hash : String → RefreshSession → Bool
has_hash h s = str_eq s.token_hash h

abbrev pub of_user : ℕ → RefreshSession → Bool
of_user u s = s.user_id == u

abbrev pub of_family : String → RefreshSession → Bool
of_family f s = str_eq s.family_id f

-- `revoked_at IS NULL AND expires_at > $2`
abbrev pub is_usable : ℕ → RefreshSession → Bool
is_usable now s = is_null s.revoked_at && ltb now s.expires_at

-- `revoked_at IS NULL OR grace_until IS NOT NULL`
abbrev pub is_revocable : RefreshSession → Bool
is_revocable s = is_null s.revoked_at || not (is_null s.grace_until)

-- The SET clause that RevokeRefreshSession, RevokeUserRefreshSessions and
-- RevokeRefreshSessionFamily share.
abbrev pub revoked : Reason → ℕ → RefreshSession → RefreshSession
revoked reason at s = record s {
  revoked_at = (if is_null s.revoked_at then some at else s.revoked_at);
  revocation_reason = (if is_null s.revoked_at then some reason else s.revocation_reason);
  grace_until = none;
  replacement_token_enc = [];
}

-- The SET clause of RotateRefreshSession.
abbrev pub consumed : RefreshSession → ℕ → RefreshSession → RefreshSession
consumed next now s = record s {
  revoked_at = some now;
  revocation_reason = some Reason.rotated;
  grace_until = next.grace_until;
  replacement_token_enc = next.replacement_token_enc;
  replaced_by_hash = some next.token_hash;
}

abbrev pub with_sessions : World → List RefreshSession → World
with_sessions w rows = record w { db = record w.db { refresh_sessions = rows } }

-- The row that an INSERT with these columns makes: the others are NULL.
abbrev pub new_row : ℕ → ℕ → String → RefreshSession → RefreshSession
new_row id user_id family_id s = record {
  id = id;
  user_id = user_id;
  family_id = family_id;
  token_hash = s.token_hash;
  expires_at = s.expires_at;
  created_at = s.created_at;
  revoked_at = none;
  revocation_reason = none;
  grace_until = none;
  replacement_token_enc = [];
  replaced_by_hash = none;
}

-- INSERT INTO refresh_sessions (user_id, family_id, token_hash, expires_at, created_at): the
-- constraints are the unique token_hash and the reference to users. The sequence moves on also
-- where a constraint refuses the row.
unfoldable pub insert_session : ℕ → String → RefreshSession → M (Unit {0})
insert_session user_id family_id s w =
    let next = record w { serial = suc w.serial } in
    if exists (has_hash s.token_hash) w.db.refresh_sessions
    then (err (pg_error "23505" "refresh_sessions_token_hash_key"), next)
    else if exists (λ (u : User). u.id == user_id) w.db.users
    then (
      ok tt,
      with_sessions next (w.db.refresh_sessions ++ (new_row w.serial user_id family_id s ∷ [])),
    )
    else (err (pg_error "23503" "refresh_sessions_user_id_fkey"), next)

-- UPDATE refresh_sessions SET ... WHERE ..., and its RETURNING row.
unfoldable pub consume_session : String → RefreshSession → ℕ → M RefreshSession
consume_session old_hash next now w =
    let usable = λ (s : RefreshSession). has_hash old_hash s && is_usable now s in
    elim (find usable w.db.refresh_sessions) [
      | none ↦ (err no_rows, w)
      | some row ↦
          (ok row, with_sessions w (update usable (consumed next now) w.db.refresh_sessions))
    ]

unfoldable pub not_found : String → Error → Error
not_found s e =
    if is_no_rows e then repository RepositoryError.refresh_session_not_found else wrap s e

abbrev select_one : Option RefreshSession → Result RefreshSession
select_one none = err no_rows
select_one (some s) = ok s

module _ (env : Env) where
  unfoldable pub create_refresh_session : RefreshSession → M (Unit {0})
  unfolding statement
  create_refresh_session s =
      wrap_err "insert refresh session" (statement env (insert_session s.user_id s.family_id s))

  unfoldable pub find_refresh_session : String → M RefreshSession
  unfolding statement not_found
  find_refresh_session h =
      map_err (not_found "find refresh session")
        (statement env (λ w. (select_one (find (has_hash h) w.db.refresh_sessions), w)))

  unfoldable pub rotation : String → RefreshSession → ℕ → M RefreshSession
  unfolding statement not_found
  rotation old_hash next now = do
    row ←
        map_err (not_found "revoke refresh session")
          (statement env (consume_session old_hash next now))
    wrap_err "insert rotated refresh session"
        (statement env (insert_session row.user_id row.family_id next))
    -- the Go value leaves ExpiresAt at zero
    pure (record {
      id = row.id;
      user_id = row.user_id;
      family_id = row.family_id;
      token_hash = old_hash;
      expires_at = 0;
      created_at = row.created_at;
      revoked_at = some now;
      revocation_reason = some Reason.rotated;
      grace_until = next.grace_until;
      replacement_token_enc = next.replacement_token_enc;
      replaced_by_hash = some next.token_hash;
    })

  unfoldable pub rotate_refresh_session : String → RefreshSession → ℕ → M RefreshSession
  unfolding rotation transaction
  rotate_refresh_session old_hash next now = transaction env (rotation old_hash next now)

  unfoldable pub revoke_where : (RefreshSession → Bool) → Reason → ℕ → M (Unit {0})
  unfolding statement
  revoke_where p reason at = statement env λ w. (
    ok tt,
    with_sessions w (update (λ s. p s && is_revocable s) (revoked reason at) w.db.refresh_sessions),
  )

  unfoldable pub revoke_refresh_session : String → Reason → ℕ → M (Unit {0})
  unfolding revoke_where
  revoke_refresh_session h reason at =
      wrap_err "revoke refresh session" (revoke_where (has_hash h) reason at)

  unfoldable pub revoke_user_refresh_sessions : ℕ → Reason → ℕ → M (Unit {0})
  unfolding revoke_where
  revoke_user_refresh_sessions user_id reason at =
      wrap_err "revoke user refresh sessions" (revoke_where (of_user user_id) reason at)

  unfoldable pub revoke_refresh_session_family : String → Reason → ℕ → M (Unit {0})
  unfolding revoke_where
  revoke_refresh_session_family family_id reason at =
      wrap_err "revoke refresh session family" (revoke_where (of_family family_id) reason at)

  unfoldable pub delete_expired_refresh_sessions : ℕ → M (Unit {0})
  unfolding statement
  delete_expired_refresh_sessions now = wrap_err "delete expired refresh sessions" (
      statement env λ w.
        (ok tt, with_sessions w (select (λ s. not (leb s.expires_at now)) w.db.refresh_sessions)))
