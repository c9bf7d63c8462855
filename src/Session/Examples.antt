-- ===== src/Session/Examples.antt =====
-- Examples of the repository of refresh sessions.
use youthpreneur_be.Base.{◌≢◌, refl, some, List, [], ◌∷◌, arith}
use youthpreneur_be.Errors.{ok}
use youthpreneur_be.Entity.{RefreshSession, Reason}
use youthpreneur_be.Db.{statement, transaction, settle}
use youthpreneur_be.Session.{rotate_refresh_session, rotation, consume_session, insert_session}
use youthpreneur_be.Session.Methods.{HasValidSessions}
use youthpreneur_be.Session.Calls.{Call, create, revoke, run, run-IsValid}
use youthpreneur_be.Session.SingleUse.{rotate_once}
use youthpreneur_be.Sample.{env, world, live_session}

sessions-IsValid : HasValidSessions world
sessions-IsValid = record {
  unique_hash = λ h. ground arith;
  one_live = λ f. ground arith;
  consistent = (refl, tt);
}

abbrev next : RefreshSession
next = record live_session {
  token_hash = "new";
  revocation_reason = some Reason.rotated;
  grace_until = some 1010;
}

abbrev other_login : RefreshSession
other_login = record live_session { family_id = "other"; token_hash = "another" }

abbrev calls : List Call
calls =
    create other_login
    ∷ Call.rotate "new" (record next { token_hash = "newer" }) 1001
    ∷ revoke "newer" Reason.logout 1002
    ∷ []

abbrev rotated_row : RefreshSession
rotated_row = record {
  id = 7;
  user_id = 1;
  family_id = "family";
  token_hash = "old";
  expires_at = 0;
  created_at = 900;
  revoked_at = some 1000;
  revocation_reason = some Reason.rotated;
  grace_until = some 1010;
  replacement_token_enc = [];
  replaced_by_hash = some "new";
}

rotate_once_example :
    (rotate_refresh_session env "old" next 1003
      (run env calls (rotate_refresh_session env "old" next 1000 world).1)).0
    ≢ ok rotated_row
unfolding rotate_refresh_session rotation consume_session insert_session statement transaction
    settle
rotate_once_example =
    rotate_once "old" env next next 1000 1003 world calls {r = rotated_row} {r' = rotated_row}
      sessions-IsValid (refl, (refl, (tt, tt))) refl

run-IsValid_example : HasValidSessions (run env calls world)
run-IsValid_example = run-IsValid env calls world sessions-IsValid (refl, (tt, (tt, tt)))
