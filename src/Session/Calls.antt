-- ===== src/Session/Calls.antt =====
-- The methods of RefreshSessionRepository as a sequence of calls, in any order and from any number
-- of requests, and what survives every such sequence.
use youthpreneur_be.Base.{ℕ, String, List, [], ◌∷◌, ◌≡◌, arith, count}
use youthpreneur_be.Entity.{RefreshSession, Reason}
use youthpreneur_be.Db.{World, Env}
use youthpreneur_be.Session.{
  has_hash, of_family, of_user, create_refresh_session, rotate_refresh_session,
  revoke_refresh_session, revoke_user_refresh_sessions, revoke_refresh_session_family,
  delete_expired_refresh_sessions,
}
use youthpreneur_be.Session.Invariant.{is_live_in}
use youthpreneur_be.Session.Methods.{
  HasValidSessions, create-IsValid, rotate-IsValid, revoke_where-IsValid, delete_expired-IsValid,
}

-- One call of the repository.
pub data Call : Type 0 where
  create : RefreshSession → Call
  rotate : String → RefreshSession → ℕ → Call
  revoke : String → Reason → ℕ → Call
  revoke_user : ℕ → Reason → ℕ → Call
  revoke_family : String → Reason → ℕ → Call
  delete_expired : ℕ → Call

-- The world after a call, whatever it reports.
unfoldable pub after : Env → Call → World → World
after env (create s) w = (create_refresh_session env s w).1
after env (rotate h next now) w = (rotate_refresh_session env h next now w).1
after env (revoke h reason at) w = (revoke_refresh_session env h reason at w).1
after env (revoke_user u reason at) w = (revoke_user_refresh_sessions env u reason at w).1
after env (revoke_family f reason at) w = (revoke_refresh_session_family env f reason at w).1
after env (delete_expired now) w = (delete_expired_refresh_sessions env now w).1

unfoldable pub run : Env → List Call → World → World
unfolding after
run env [] w = w
run env (c ∷ cs) w = run env cs (after env c w)

-- A created session starts a login chain of its own.
abbrev pub StartsChain : Call → World → Type 0
StartsChain (create s) w = count (is_live_in s.family_id) w.db.refresh_sessions ≡ 0
StartsChain _ w = Unit

abbrev pub StartChains : Env → List Call → World → Type 0
StartChains env [] w = Unit
StartChains env (c ∷ cs) w = StartsChain c w × StartChains env cs (after env c w)

module _ (env : Env) where
  after-IsValid :
      (c : Call) (w : World)
      → HasValidSessions w
      → StartsChain c w
      → HasValidSessions (after env c w)
  unfolding after revoke_refresh_session revoke_user_refresh_sessions revoke_refresh_session_family
  after-IsValid (create s) w v dead = create-IsValid env s w v dead
  after-IsValid (rotate h next now) w v _ = rotate-IsValid env h next now w v
  after-IsValid (revoke h reason at) w v _ =
      ground (arith, revoke_where-IsValid env (has_hash h) reason at w v)
  after-IsValid (revoke_user u reason at) w v _ =
      ground (arith, revoke_where-IsValid env (of_user u) reason at w v)
  after-IsValid (revoke_family f reason at) w v _ =
      ground (arith, revoke_where-IsValid env (of_family f) reason at w v)
  after-IsValid (delete_expired now) w v _ = delete_expired-IsValid env now w v

  -- If the sessions are valid at the start, then after any sequence of repository calls, failed ones
  -- included, they are valid again, if each created session starts a chain of its own: token hashes
  -- are unique, every login chain has at most one live session, and grace windows belong to rotated
  -- sessions only.
  pub run-IsValid :
      (cs : List Call) (w : World)
      → HasValidSessions w
      → StartChains env cs w
      → HasValidSessions (run env cs w)
  unfolding run
  run-IsValid [] w v _ = v
  run-IsValid (c ∷ cs) w v (fresh, more) =
      run-IsValid cs (after env c w) (after-IsValid c w v fresh) more
