-- ===== src/Auth/Login.antt =====
-- Login: who gets in, and that the three ways to be turned away look alike.
use youthpreneur_be.Base.{
  eq_iff, ◌+◌, String, true, false, ◌&&◌, ◌≡◌, refl, none, some, arith, [], ◌∷◌, find, str_eq,
  trim_space, Option-cases, inl, inr, ◌⊎◌,
}
use youthpreneur_be.Errors.{ok, err, Result-cases}
use youthpreneur_be.Entity.{User, RefreshSession}
use youthpreneur_be.Db.{World, Env, unix, tock, map_err}
use youthpreneur_be.Base.Rows.{find-exists, find-append}
use youthpreneur_be.Users.{is_present, find_user_by_email, has_email}
use youthpreneur_be.Session.{
  has_hash, create_refresh_session, insert_session, new_row, delete_expired_refresh_sessions,
}
use youthpreneur_be.Auth.{
  AuthUsecase, AuthTokens, LoginInput, LoginResult, login, issue_tokens, invalid_credentials,
  login_error, new_family_id,
}

create-find :
    (env : Env) (s : RefreshSession) (w : World)
    → (create_refresh_session env s w).0 ≡ ok tt
    → find (has_hash s.token_hash) (create_refresh_session env s w).1.db.refresh_sessions
      ≡ some (new_row w.serial s.user_id s.family_id s)
unfolding create_refresh_session insert_session
create-find env s w e = ground (
  arith,
  find-exists (has_hash s.token_hash) w.db.refresh_sessions,
  find-append (has_hash s.token_hash) w.db.refresh_sessions
      (new_row w.serial s.user_id s.family_id s ∷ []),
  eq_iff s.token_hash s.token_hash,
)

-- The refresh token of `a` has a live row of `user`, which expires when `a` says.
pub record Opened (u : AuthUsecase) (user : User) (a : AuthTokens) (w : World) : Type 0 where
  pub row : RefreshSession
  pub found :
      find (has_hash (u.tokens.hash_refresh a.refresh_token)) w.db.refresh_sessions ≡ some row
  pub of_user : row.user_id ≡ user.id
  pub live : row.revoked_at ≡ none
  pub expires : row.expires_at ≡ unix a.refresh_expires_at

issue_tokens-Opened :
    (u : AuthUsecase) (user : User) (w : World) {a : AuthTokens}
    → (issue_tokens u user w).0 ≡ ok a
    → Opened u user a (issue_tokens u user w).1
unfolding issue_tokens
issue_tokens-Opened u user w {a} e =
    let t = u.env.clock w.ticks in
    let w1 = (delete_expired_refresh_sessions u.env (unix t) (tock w)).1 in
    elim (Result-cases (u.tokens.issue_access user t)) [
      | inr (x, i) ↦ absurd (ground arith)
      | inl (access, i) ↦ elim (Result-cases (u.tokens.generate_refresh w1.ticks)) [
        | inr (x, g) ↦ absurd (ground arith)
        | inl (raw, g) ↦ elim (Result-cases (new_family_id u (tock w1)).0) [
          | inr (x, f) ↦ absurd (ground arith)
          | inl (family, f) ↦
              let w2 = (new_family_id u (tock w1)).1 in
              let s : RefreshSession = record {
                id = 0;
                user_id = user.id;
                family_id = family;
                token_hash = u.tokens.hash_refresh raw;
                expires_at = unix (t + u.refresh_ttl);
                created_at = unix t;
                revoked_at = none;
                revocation_reason = none;
                grace_until = none;
                replacement_token_enc = [];
                replaced_by_hash = none;
              } in
              elim (Result-cases (create_refresh_session u.env s w2).0) [
                | inr (x, c) ↦ absurd (ground arith)
                | inl (done, c) ↦
                    let found = create-find u.env s w2 c in
                    record {
                      row = new_row w2.serial user.id family s;
                      found = ground arith;
                      of_user = refl;
                      live = refl;
                      expires = ground arith;
                    }
              ]
        ]
      ]
    ]

module _ (u : AuthUsecase) (input : LoginInput) (w : World) where
  -- The email as it is looked up.
  abbrev email : String
  email = u.env.to_lower (trim_space input.email)

  -- With an email and a password given and the lookup going through, an unknown email, a wrong
  -- password and an inactive account get the same error after the same effects, and no table changes.
  pub login_uniform :
      str_eq email "" ≡ false
      → str_eq input.password "" ≡ false
      → u.env.fails w.ticks ≡ false
      → (find (λ x. has_email email x && is_present x) w.db.users ≡ none)
        ⊎ ((user : User) × (find (λ x. has_email email x && is_present x) w.db.users ≡ some user)
            × ((u.env.password_matches user.password input.password ≡ false)
                ⊎ (user.is_active ≡ false)))
      → login u input w ≡ (err invalid_credentials, tock w)
  unfolding login find_user_by_email login_error
  login_uniform e p quiet (inl unknown) = ground arith
  login_uniform e p quiet (inr (user, found, inl wrong)) = ground arith
  login_uniform e p quiet (inr (user, found, inr inactive)) = ground arith

  -- A login that succeeds has found a present, active user whose stored hash matches the password,
  -- and returns that user.
  pub login_sound :
      {r : LoginResult}
      → (login u input w).0 ≡ ok r
      → (find (λ x. has_email email x && is_present x) w.db.users ≡ some r.user)
        × (u.env.password_matches r.user.password input.password ≡ true)
        × (r.user.is_active ≡ true)
  unfolding login find_user_by_email login_error
  login_sound {r} e =
      elim (Option-cases (find (λ x. has_email email x && is_present x) w.db.users)) [
        | inl missing ↦ absurd (ground arith)
        | inr (user, found) ↦ ground arith
      ]

  -- The session that a login leaves under the hash of the refresh token that it returns: a live
  -- row of the user, which expires when the result says.
  pub login_session :
      {r : LoginResult} → (login u input w).0 ≡ ok r → Opened u r.user r.tokens (login u input w).1
  unfolding login
  login_session {r} e =
      let looked = map_err (login_error u) (find_user_by_email u.env (email)) w in
      elim (Result-cases looked.0) [
        | inr (x, miss) ↦ absurd (ground arith)
        | inl (user, hit) ↦ elim (Result-cases (issue_tokens u user looked.1).0) [
          | inr (x, miss) ↦ absurd (ground arith)
          | inl (tokens, issued) ↦
              let opened = issue_tokens-Opened u user looked.1 {a = tokens} issued in ground arith
        ]
      ]
