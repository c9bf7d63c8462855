-- ===== src/Auth.antt =====
-- internal/usecase/auth_usecase.go: login, refresh rotation with its grace window, and logout, over
-- the repositories of users and refresh sessions and a token service.
pub mod Keeps
pub mod Refused
pub mod Rotation
pub mod Window
pub mod Sound
pub mod Replay
pub mod Retry
pub mod Logout
pub mod Login
mod Examples
use youthpreneur_be.Base.Text.{hex_digit}
use youthpreneur_be.Base.{
  is_null, ℕ, zero, suc, ◌+◌, ◌*◌, ◌/◌, ◌%◌, String, ◌<>◌, Bool, true, false, ◌&&◌, ◌||◌, not, none,
  some, List, [], leb, ◌==◌, str_eq, if◌then◌else◌, trim_space,
}
use youthpreneur_be.Errors.{
  Error, UsecaseError, usecase, wrap, Result, is_user_not_found, is_refresh_session_not_found,
}
use youthpreneur_be.Entity.{User, RefreshSession, Reason}
use youthpreneur_be.Db.{
  Env, M, pure, throw, ◌>>=◌, ◌>>◌, map_err, wrap_err, attempt, lift, effect, now, draw, unix,
  nanoseconds,
}
use youthpreneur_be.Session.{
  create_refresh_session, find_refresh_session, rotate_refresh_session, revoke_refresh_session,
  revoke_refresh_session_family, delete_expired_refresh_sessions,
}
use youthpreneur_be.Users.{find_user_by_email, find_user_by_id}

-- The interface `TokenService`. A call that draws randomness is given the number of the effect.
pub record TokenService : Type 0 where
  pub issue_access : User → ℕ → Result String
  pub generate_refresh : ℕ → Result String
  pub hash_refresh : String → String
  pub encrypt_refresh : String → ℕ → Result (List ℕ)
  pub decrypt_refresh : List ℕ → Result String

-- The struct `authUsecase`; the repositories and the clock are those of `env`. Durations are in
-- nanoseconds.
pub record AuthUsecase : Type 0 where
  pub env : Env
  pub tokens : TokenService
  pub access_ttl : ℕ
  pub refresh_ttl : ℕ

-- Times are in nanoseconds since 1970.
pub record AuthTokens : Type 0 where
  pub access_token : String
  pub refresh_token : String
  pub access_expires_at : ℕ
  pub refresh_expires_at : ℕ

pub record LoginInput : Type 0 where
  pub email : String
  pub password : String

pub record LoginResult : Type 0 where
  pub tokens : AuthTokens
  pub user : User

-- `refreshGraceWindow`, ten seconds
abbrev pub refresh_grace_window : ℕ
refresh_grace_window = 10 * nanoseconds

abbrev pub invalid_refresh_token : Error
invalid_refresh_token = usecase UsecaseError.invalid_refresh_token

abbrev pub invalid_credentials : Error
invalid_credentials = usecase UsecaseError.invalid_credentials

-- `%x` of a slice of `k` bytes from index `i`
hex : (ℕ → ℕ) → ℕ → ℕ → String
unfolding hex_digit
hex b i zero = ""
hex b i (suc k) = (hex_digit ((b i / 16) % 16) <> hex_digit (b i % 16)) <> hex b (i + 1) k

-- The version and the variant bits of a UUID: `b[6] & 0x0f | 0x40` and `b[8] & 0x3f | 0x80`.
with_version : (ℕ → ℕ) → ℕ → ℕ
with_version b i = if i == 6 then b 6 % 16 + 0x40 else if i == 8 then b 8 % 64 + 0x80 else b i

unfoldable pub family_id_of : (ℕ → ℕ) → String
unfolding hex with_version
family_id_of bytes =
    let b = with_version bytes in
    hex b 0 4
    <> ("-" <> (hex b 4 2 <> ("-" <> (hex b 6 2 <> ("-" <> (hex b 8 2 <> ("-" <> hex b 10 6)))))))

module _ (u : AuthUsecase) where
  open u use {env, tokens, access_ttl, refresh_ttl}

  unfoldable pub new_family_id : M String
  unfolding family_id_of
  new_family_id = draw env (λ k. family_id_of (env.random_byte k))

  -- Cleanup whose failure is only logged.
  unfoldable pub clean_up : ℕ → M (Result (Unit {0}))
  clean_up t = attempt (delete_expired_refresh_sessions env (unix t))

  unfoldable pub issue_tokens : User → M AuthTokens
  unfolding clean_up
  issue_tokens user = do
    t ← now env
    clean_up t
    access ← lift (tokens.issue_access user t)
    refresh ← effect tokens.generate_refresh
    let refresh_expires_at = t + refresh_ttl
    family_id ← wrap_err "generate refresh family id" new_family_id
    wrap_err "create refresh session" (
        create_refresh_session env (record {
          id = 0;
          user_id = user.id;
          family_id = family_id;
          token_hash = tokens.hash_refresh refresh;
          expires_at = unix refresh_expires_at;
          created_at = unix t;
          revoked_at = none;
          revocation_reason = none;
          grace_until = none;
          replacement_token_enc = [];
          replaced_by_hash = none;
        }))
    pure (record {
      access_token = access;
      refresh_token = refresh;
      access_expires_at = t + access_ttl;
      refresh_expires_at = refresh_expires_at;
    })

  -- The outcome of the lookup by email: an unknown email reports as a wrong password does.
  unfoldable pub login_error : Error → Error
  login_error e = if is_user_not_found e then invalid_credentials else wrap "find user by email" e

  unfoldable pub login : LoginInput → M LoginResult
  login input =
      let email = env.to_lower (trim_space input.email) in
      if str_eq email "" || str_eq input.password "" then throw invalid_credentials else do
        user ← map_err login_error (find_user_by_email env email)
        if not (env.password_matches user.password input.password) || not user.is_active
            then throw invalid_credentials
            else do tokens ← issue_tokens user; pure (record { tokens = tokens; user = user })

  unfoldable pub user_error : Error → Error
  user_error e = if is_user_not_found e then invalid_refresh_token else wrap "find user by id" e

  -- The user of a session, who must still be active.
  unfoldable pub active_user : ℕ → M User
  unfolding user_error
  active_user id = do
    user ← map_err user_error (find_user_by_id env id)
    if user.is_active then pure user else throw invalid_refresh_token

  unfoldable pub serve_grace_window : RefreshSession → ℕ → M AuthTokens
  serve_grace_window session t = do
    user ← active_user session.user_id
    refresh ←
        map_err (λ _. invalid_refresh_token)
          (lift (tokens.decrypt_refresh session.replacement_token_enc))
    access ← lift (tokens.issue_access user t)
    pure (record {
      access_token = access;
      refresh_token = refresh;
      access_expires_at = t + access_ttl;
      refresh_expires_at = session.expires_at * nanoseconds;
    })

  -- `session.RevocationReason == entity.ReasonRotated && session.GraceUntil != nil &&
  -- *session.GraceUntil >= now.Unix()`
  abbrev pub in_grace : RefreshSession → ℕ → Bool
  in_grace session t =
      (elim session.revocation_reason [
        | none ↦ false
        | some r ↦ elim r [ Reason.rotated ↦ true | _ ↦ false ]
      ])
      && (elim session.grace_until [ none ↦ false | some g ↦ leb (unix t) g ])

  -- A revoked session is presented: a retry inside grace, or a replay.
  unfoldable pub reuse : RefreshSession → ℕ → M AuthTokens
  reuse session t = if in_grace session t then serve_grace_window session t else do
    attempt (revoke_refresh_session_family env session.family_id Reason.replay (unix t))
    throw invalid_refresh_token

  unfoldable pub rotate_error : Error → Error
  rotate_error e =
      if is_refresh_session_not_found e
      then invalid_refresh_token
      else wrap "rotate refresh session" e

  unfoldable pub rotate : RefreshSession → String → ℕ → M AuthTokens
  rotate session old_hash t = do
    user ← active_user session.user_id
    access ← lift (tokens.issue_access user t)
    refresh ← effect tokens.generate_refresh
    sealed ← wrap_err "encrypt replacement refresh token" (effect (tokens.encrypt_refresh refresh))
    let refresh_expires_at = t + refresh_ttl
    map_err rotate_error (
        rotate_refresh_session env old_hash
          (record {
            id = 0;
            user_id = user.id;
            family_id = session.family_id;
            token_hash = tokens.hash_refresh refresh;
            expires_at = unix refresh_expires_at;
            created_at = unix t;
            revoked_at = none;
            revocation_reason = some Reason.rotated;
            grace_until = some (unix (t + refresh_grace_window));
            replacement_token_enc = sealed;
            replaced_by_hash = none;
          })
          (unix t))
    pure (record {
      access_token = access;
      refresh_token = refresh;
      access_expires_at = t + access_ttl;
      refresh_expires_at = refresh_expires_at;
    })

  unfoldable pub find_error : Error → Error
  find_error e =
      if is_refresh_session_not_found e
      then invalid_refresh_token
      else wrap "find refresh session" e

  -- What Refresh does with the session that it found.
  unfoldable pub present : RefreshSession → String → ℕ → M AuthTokens
  present session old_hash t =
      if not (is_null session.revoked_at)
      then reuse session t
      else if leb session.expires_at (unix t)
      then throw invalid_refresh_token
      else rotate session old_hash t

  unfoldable pub refresh : String → M AuthTokens
  unfolding clean_up
  refresh token = if str_eq token "" then throw invalid_refresh_token else do
    let old_hash = tokens.hash_refresh token
    t ← now env
    clean_up t
    session ← map_err find_error (find_refresh_session env old_hash)
    present session old_hash t

  unfoldable pub logout : String → M (Unit {0})
  logout token = if str_eq token "" then pure tt else do
    t ← now env
    wrap_err "revoke refresh session"
        (revoke_refresh_session env (tokens.hash_refresh token) Reason.logout (unix t))
