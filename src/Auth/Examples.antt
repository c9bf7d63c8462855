-- ===== src/Auth/Examples.antt =====
-- Examples of login, refresh and logout.
use youthpreneur_be.Base.{
  ◌*◌, ◌≡◌, ◌≢◌, refl, true, ◌&&◌, some, [], ◌∷◌, inr, inl, eq_iff, arith, find, trim_space, select,
  str_eq, All,
}
use youthpreneur_be.Errors.{ok, err}
use youthpreneur_be.Entity.{User, RefreshSession, Reason}
use youthpreneur_be.Db.{World, nanoseconds, tock, statement, transaction, settle, unix}
use youthpreneur_be.Session.{
  find_refresh_session, delete_expired_refresh_sessions, rotate_refresh_session, rotation,
  consume_session, insert_session, create_refresh_session, revoke_where, revoke_refresh_session,
}
use youthpreneur_be.Session.Methods.{HasValidSessions}
use youthpreneur_be.Users.{has_email, is_present, find_user, find_user_by_id, find_user_by_email}
use youthpreneur_be.Auth.{
  AuthTokens, LoginInput, LoginResult, refresh, present, rotate, active_user, clean_up, logout,
  login, issue_tokens, new_family_id, invalid_credentials, invalid_refresh_token,
}
use youthpreneur_be.Auth.Keeps.{refresh-IsValid}
use youthpreneur_be.Auth.Refused.{logout_ends, started}
use youthpreneur_be.Auth.Sound.{refresh_sound, IsRefreshable}
use youthpreneur_be.Auth.Rotation.{rotate-ok, Rotated, IsActiveUser}
use youthpreneur_be.Auth.Window.{IsSound}
use youthpreneur_be.Auth.Replay.{IsClosed, replay_closes_family}
use youthpreneur_be.Auth.Retry.{refresh_retry}
use youthpreneur_be.Auth.Logout.{logout-keeps_window}
use youthpreneur_be.Auth.Login.{login_uniform, login_sound, login_session, Opened}
use youthpreneur_be.Sample.{usecase, world, ann, live_session}

one_session-IsValid : HasValidSessions world
one_session-IsValid = record {
  unique_hash = λ h. ground arith;
  one_live = λ f. ground arith;
  consistent = (refl, tt);
}

tokens-IsSound : IsSound usecase
tokens-IsSound = record {
  opens = λ raw k c e. ground (arith, eq_iff raw "new");
  signs = λ x t. ("access", refl);
}

abbrev issued : AuthTokens
issued = record {
  access_token = "access";
  refresh_token = "new";
  access_expires_at = 1900 * nanoseconds;
  refresh_expires_at = 5000 * nanoseconds;
}

refresh-issued : (refresh usecase "old" world).0 ≡ ok issued
unfolding refresh clean_up delete_expired_refresh_sessions find_refresh_session present rotate
    active_user find_user_by_id find_user rotate_refresh_session rotation consume_session
    insert_session statement transaction settle
refresh-issued = refl

refresh_retry_example :
    let w' = (refresh usecase "old" world).1 in
    (b : AuthTokens) × ((refresh usecase "old" w').0 ≡ ok b) × (b.refresh_token ≡ "new")
refresh_retry_example =
    refresh_retry usecase "old" world {s = live_session} {a = issued} tokens-IsSound
      one_session-IsValid refl refl refl refresh-issued (λ k _. refl) (omega arith) (omega arith)

-- After the rotation of "old" into "new", within the window.
abbrev spent : RefreshSession
spent = record live_session {
  revoked_at = some 1000;
  revocation_reason = some Reason.rotated;
  grace_until = some 1010;
  replacement_token_enc = 1 ∷ [];
  replaced_by_hash = some "new";
}

abbrev rotated_world : World
rotated_world = record world {
  db = record world.db {
    refresh_sessions = spent ∷ record live_session { id = 50; token_hash = "new" } ∷ [];
  };
}

rotated-IsValid : HasValidSessions rotated_world
rotated-IsValid = record {
  unique_hash = λ h. ground (arith, eq_iff "old" h, eq_iff "new" h, eq_iff "old" "new");
  one_live = λ f. ground arith;
  consistent = (refl, (refl, tt));
}

logout-keeps_window_example :
    let w' = (logout usecase "new" rotated_world).1 in
    (b : AuthTokens) × ((refresh usecase "old" w').0 ≡ ok b) × (b.refresh_token ≡ "new")
logout-keeps_window_example =
    logout-keeps_window usecase "new" "old" rotated_world {s = spent} {user = ann} {raw = "new"}
      {access = "access"} {g = 1010} rotated-IsValid refl refl refl refl refl refl (omega arith)
      refl (refl, refl) refl refl (λ k _. refl)

-- The same session once the end of its window has passed.
abbrev replayed : RefreshSession
replayed = record spent { grace_until = some 990 }

abbrev replayed_world : World
replayed_world = record world {
  db = record world.db {
    refresh_sessions = replayed ∷ record live_session { id = 50; token_hash = "new" } ∷ [];
  };
}

replayed-IsValid : HasValidSessions replayed_world
replayed-IsValid = record {
  unique_hash = λ h. ground (arith, eq_iff "old" h, eq_iff "new" h, eq_iff "old" "new");
  one_live = λ f. ground arith;
  consistent = (refl, (refl, tt));
}

replay_closes_family_example :
    let r = refresh usecase "old" replayed_world in
    (r.0 ≡ err invalid_refresh_token)
    × All IsClosed
        (select (λ (x : RefreshSession). str_eq x.family_id "family") r.1.db.refresh_sessions)
replay_closes_family_example =
    replay_closes_family usecase "old" replayed_world {s = replayed} replayed-IsValid refl refl refl
      (λ g e. ground arith) (omega arith) (λ k _. refl)

rotate-ok_example : Rotated usecase live_session "old" (1000 * nanoseconds) world issued
unfolding rotate active_user find_user_by_id find_user rotate_refresh_session rotation
    consume_session insert_session statement transaction settle
rotate-ok_example =
    rotate-ok usecase live_session "old" (1000 * nanoseconds) world {a = issued} refl

refresh_sound_example :
    (s : RefreshSession) × (user : User) × (find
        (λ (x : RefreshSession). str_eq x.token_hash "old")
        world.db.refresh_sessions
      ≡ some s)
    × IsRefreshable s (unix (started usecase world))
    × IsActiveUser usecase s.user_id world user
refresh_sound_example =
    refresh_sound usecase "old" world {a = issued} one_session-IsValid refresh-issued

logout_ends_example : (refresh usecase "old" (logout usecase "old" world).1).0 ≢ ok issued
unfolding logout revoke_refresh_session revoke_where statement
logout_ends_example = logout_ends usecase "old" world issued refl refl

refresh-IsValid_example : HasValidSessions (refresh usecase "old" world).1
refresh-IsValid_example = refresh-IsValid usecase "old" world one_session-IsValid

abbrev right : LoginInput
right = record { email = " ann@example.org "; password = "password" }

abbrev wrong : LoginInput
wrong = record { email = "ann@example.org"; password = "other" }

abbrev logged_in : LoginResult
logged_in = record {
  tokens = record issued { refresh_expires_at = 5000 * nanoseconds };
  user = ann;
}

login_issued : (login usecase right world).0 ≡ ok logged_in
unfolding login find_user_by_email find_user issue_tokens clean_up delete_expired_refresh_sessions
    new_family_id create_refresh_session insert_session statement trim_space
login_issued = refl

login_uniform_example : login usecase wrong world ≡ (err invalid_credentials, tock world)
unfolding trim_space
login_uniform_example = login_uniform usecase wrong world refl refl refl (inr (ann, refl, inl refl))

login_sound_example :
    (find (λ x. has_email "ann@example.org" x && is_present x) world.db.users ≡ some ann)
    × (usecase.env.password_matches ann.password "password" ≡ true)
    × (ann.is_active ≡ true)
unfolding trim_space
login_sound_example = login_sound usecase right world {r = logged_in} login_issued

login_session_example : Opened usecase ann logged_in.tokens (login usecase right world).1
login_session_example = login_session usecase right world {r = logged_in} login_issued
