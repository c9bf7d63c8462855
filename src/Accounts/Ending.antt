-- ===== src/Accounts/Ending.antt =====
-- How a reset and a change of password end: with the revocation of every session of the user.
use youthpreneur_be.Base.{
  ℕ, List, String, Bool, true, false, not, ◌≡◌, refl, some, ◌&&◌, arith, find, ap, sym, ◌∙◌, ==_iff,
  if◌then◌else◌,
}
use youthpreneur_be.Base.Rows.{find-update, count-le, count-found}
use youthpreneur_be.Errors.{UsecaseError, usecase, ok}
use youthpreneur_be.Entity.{User, RefreshSession, Reason}
use youthpreneur_be.Db.{
  World, Env, M, ◌>>=◌, ◌>>◌, lift, throw, map_err, now, tock, unix, statement,
}
use youthpreneur_be.Db.Laws.{>>=-ok, map_err-ok}
use youthpreneur_be.Db.Keeps.{Keeps, Keeps-lift, Keeps-map_err, Keeps-effect, Keeps-now}
use youthpreneur_be.Session.{
  has_hash, of_user, is_revocable, revoked, revoke_user_refresh_sessions, revoke_where,
}
use youthpreneur_be.Session.Methods.{HasValidSessions, revoke_where-IsValid}
use youthpreneur_be.Session.Revocation.{AreDead, revoke_user-AreDead}
use youthpreneur_be.Users
use youthpreneur_be.Accounts.{
  ChangePasswordInput, change_password, reset_password, hash_password, revoke_user_sessions,
  validate_password, map_repository_error, change_error,
}

-- The session of a hash belongs to a user whose sessions are all revoked: the hash is dead too.
owned-AreDead :
    (h : String) (id : ℕ) (w : World) {s : RefreshSession}
    → HasValidSessions w
    → find (has_hash h) w.db.refresh_sessions ≡ some s
    → s.user_id ≡ id
    → AreDead (of_user id) w
    → AreDead (has_hash h) w
owned-AreDead h id w {s} v found owner dead =
    let rows = w.db.refresh_sessions in
    let mine = (==_iff s.user_id id).1 owner in
    ground (
      arith,
      count-found (has_hash h) is_revocable rows found (v.unique_hash h),
      count-found (has_hash h) (λ x. of_user id x && is_revocable x) rows found (v.unique_hash h),
      count-le (λ x. has_hash h x && (of_user id x && is_revocable x))
          (λ x. of_user id x && is_revocable x) rows (λ x e. ground arith),
    )

module _ (env : Env) where
  -- Revoking the sessions of a user leaves the session of a hash where it was, with its user.
  revoked-owner :
      (h : String) (id : ℕ) (reason : Reason) (at : ℕ) (w : World) {s : RefreshSession}
      → find (has_hash h) w.db.refresh_sessions ≡ some s
      → (revoke_user_refresh_sessions env id reason at w).0 ≡ ok tt
      → (s' : RefreshSession) × (find
            (has_hash h)
            (revoke_user_refresh_sessions env id reason at w).1.db.refresh_sessions
          ≡ some s')
        × (s'.user_id ≡ s.user_id)
  unfolding revoke_user_refresh_sessions revoke_where statement
  revoked-owner h id reason at w {s} found done =
      let test = λ (x : RefreshSession). of_user id x && is_revocable x in
      (
        (if test s then revoked reason at s else s),
        ground (
          arith,
          find-update test (revoked reason at) (has_hash h) w.db.refresh_sessions (λ x. refl),
        ),
        ground arith,
      )

  revoke_user-IsValid :
      (id : ℕ) (reason : Reason) (at : ℕ) (w : World)
      → HasValidSessions w
      → HasValidSessions (revoke_user_refresh_sessions env id reason at w).1
  unfolding revoke_user_refresh_sessions
  revoke_user-IsValid id reason at w v =
      ground (arith, revoke_where-IsValid env (of_user id) reason at w v)

  -- Once the sessions of a user are revoked, a hash of theirs is dead.
  pub revoked-AreDead :
      (h : String) (id : ℕ) (reason : Reason) (at : ℕ) (w : World) {s : RefreshSession}
      → HasValidSessions w
      → find (has_hash h) w.db.refresh_sessions ≡ some s
      → s.user_id ≡ id
      → (revoke_user_refresh_sessions env id reason at w).0 ≡ ok tt
      → AreDead (has_hash h) (revoke_user_refresh_sessions env id reason at w).1
  revoked-AreDead h id reason at w v found owner done =
      let (s', found', same) = revoked-owner h id reason at w found done in
      owned-AreDead h id (revoke_user_refresh_sessions env id reason at w).1
        (revoke_user-IsValid id reason at w v) found' (same ∙ owner)
        (revoke_user-AreDead env reason at w id done)

  -- A call that reports success has ended with the revocation of the sessions of a user, and has
  -- not touched any session before.
  abbrev pub EndsSessions : (user : User) (reason : Reason) (w after : World) → Type 0
  EndsSessions user reason w after =
      (v : World) × (at : ℕ) × (v.db.refresh_sessions ≡ w.db.refresh_sessions)
      × ((revoke_user_refresh_sessions env user.id reason at v).0 ≡ ok tt)
      × (after ≡ (revoke_user_refresh_sessions env user.id reason at v).1)

  -- The calls before the last: what they return, and that they leave the sessions alone.
  module _ (user : User) (reason : Reason) where
    unfoldable pub Ends : M (Unit {0}) → World → Type 0
    Ends m w = (m w).0 ≡ ok tt → EndsSessions user reason w (m w).1

    bind-Ends :
        {A : Type 0} (m : M A) (f : A → M (Unit {0})) (w : World)
        → ((rows : List RefreshSession) → Keeps (λ d. d.refresh_sessions ≡ rows) m)
        → ((a : A) (v : World) → m w ≡ (ok a, v) → Ends (f a) v)
        → Ends (m >>= f) w
    unfolding Ends
    bind-Ends m f w keeps rest done =
        let (a, v, ran, same) = >>=-ok m f w done in
        let (x, at, kept, revoked', last) = rest a v ran (ap (λ r. r.0) (sym same) ∙ done) in
        let unmoved = (keeps w.db.refresh_sessions).at w refl in
        (
          x,
          at,
          kept ∙ ap (λ r. r.1.db.refresh_sessions) (sym ran) ∙ unmoved,
          revoked',
          ap (λ r. r.1) same ∙ last,
        )

    revoke-Ends : (b : User) (w : World) → b ≡ user → Ends (revoke_user_sessions env b.id reason) w
    unfolding Ends revoke_user_sessions
    revoke-Ends b w same done = (tock w, unix (env.clock w.ticks), refl, ground arith, ground arith)

  found-Keeps :
      (p : String) (rows : List RefreshSession)
      → Keeps (λ d. d.refresh_sessions ≡ rows) (Users.find_user_by_public_id env p)
  unfolding Users.find_user_by_public_id Users.find_user statement
  found-Keeps p rows = record { at = λ w h. ground arith }

  found-user :
      (p : String) (user : User) (w : World) {a : User} {v : World}
      → find (Users.has_public_id p) w.db.users ≡ some user
      → Users.find_user_by_public_id env p w ≡ (ok a, v)
      → a ≡ user
  unfolding Users.find_user_by_public_id Users.find_user statement
  found-user p user w found e = ground arith

  password-Keeps :
      (p hash : String) (at : ℕ) (rows : List RefreshSession)
      → Keeps (λ d. d.refresh_sessions ≡ rows) (Users.update_password env p hash at)
  unfolding Users.update_password Users.update_users Users.require_affected statement
  password-Keeps p hash at rows = record { at = λ w h. ground arith }

  changed-Keeps :
      (p current hash : String) (at : ℕ) (rows : List RefreshSession)
      → Keeps (λ d. d.refresh_sessions ≡ rows) (Users.change_password env p current hash at)
  unfolding Users.change_password Users.update_users Users.require_affected statement
  changed-Keeps p current hash at rows = record { at = λ w h. ground arith }

  hash-Keeps :
      (p : String) (rows : List RefreshSession)
      → Keeps (λ d. d.refresh_sessions ≡ rows) (hash_password env p)
  unfolding hash_password
  hash-Keeps p rows = Keeps-map_err _ _ (Keeps-effect _)

  -- The steps that ResetPassword and ChangePassword share once the user is found: the hash, the
  -- clock, the write and the revocation.
  write-Ends :
      (new : String) (write : String → ℕ → M (Unit {0})) (user b : User) (reason : Reason)
      (w : World)
      → b ≡ user
      → ((hash : String) (at : ℕ) (rows : List RefreshSession)
          → Keeps (λ d. d.refresh_sessions ≡ rows) (write hash at))
      → Ends user reason
          (hash_password env new >>= λ hash.
            now env >>= λ t. write hash (unix t) >> revoke_user_sessions env b.id reason)
          w
  write-Ends new write user b reason w same keeps =
      bind-Ends user reason (hash_password env new) _ w (hash-Keeps new) (λ hash x _.
        bind-Ends user reason (now env) _ x (λ rows. Keeps-now env)
          (λ t y _.
            bind-Ends user reason (write hash (unix t)) _ y (keeps hash (unix t))
              (λ _ z _. revoke-Ends user reason b z same)))

  compared-Ends :
      (b : Bool) (user : User) (w : World) (m : M (Unit {0}))
      → Ends user Reason.password_change m w
      → Ends user Reason.password_change
          (if not b then throw (usecase UsecaseError.invalid_credentials) else m)
          w
  unfolding Ends
  compared-Ends true user w m ends = ends
  compared-Ends false user w m ends = λ done. absurd (ground arith)

  pub reset_password-Ends :
      (p new : String) (user : User) (w : World)
      → find (Users.has_public_id p) w.db.users ≡ some user
      → Ends user Reason.admin_reset (reset_password env p new) w
  unfolding reset_password
  reset_password-Ends p new user w found =
      bind-Ends user Reason.admin_reset (lift (validate_password new)) _ w (λ rows. Keeps-lift _)
        (λ a v e.
          bind-Ends user Reason.admin_reset
            (map_err map_repository_error (Users.find_user_by_public_id env p)) _ v
            (λ rows. Keeps-map_err _ _ (found-Keeps p rows))
            (λ b x r.
              write-Ends new
                (λ hash at. map_err map_repository_error (Users.update_password env p hash at)) user
                b Reason.admin_reset x
                (found-user p user v
                  (ap (λ z. find (Users.has_public_id p) z.1.db.users) (sym e) ∙ found)
                  (map_err-ok map_repository_error (Users.find_user_by_public_id env p) v x r))
                (λ hash at rows. Keeps-map_err _ _ (password-Keeps p hash at rows))))

  pub change_password-Ends :
      (p : String) (input : ChangePasswordInput) (user : User) (w : World)
      → find (Users.has_public_id p) w.db.users ≡ some user
      → Ends user Reason.password_change (change_password env p input) w
  unfolding change_password
  change_password-Ends p input user w found =
      bind-Ends user Reason.password_change (lift (validate_password input.new_password)) _ w
        (λ rows. Keeps-lift _)
        (λ a v e.
          bind-Ends user Reason.password_change
            (map_err map_repository_error (Users.find_user_by_public_id env p)) _ v
            (λ rows. Keeps-map_err _ _ (found-Keeps p rows))
            (λ b x r.
              compared-Ends (env.password_matches b.password input.current_password) user x _ (
                write-Ends input.new_password
                  (λ hash at.
                    map_err (change_error env) (Users.change_password env p b.password hash at))
                  user b Reason.password_change x
                  (found-user p user v
                    (ap (λ z. find (Users.has_public_id p) z.1.db.users) (sym e) ∙ found)
                    (map_err-ok map_repository_error (Users.find_user_by_public_id env p) v x r))
                  (λ hash at rows. Keeps-map_err _ _ (changed-Keeps p b.password hash at rows)))))
