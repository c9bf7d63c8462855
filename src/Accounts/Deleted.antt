-- ===== src/Accounts/Deleted.antt =====
-- What ends when an account is deleted: DeleteUser revokes no session, and Refresh refuses them
-- all the same.
use youthpreneur_be.Base.{
  ℕ, ◌≤◌, String, Bool, true, false, ◌&&◌, ◌==◌, ==_iff, ◌≡◌, ◌≢◌, refl, ap, sym, ◌∙◌, none, some,
  List, [], ◌∷◌, arith, find, update, count, inl, inr, Bool-cases,
}
use youthpreneur_be.Errors.{ok}
use youthpreneur_be.Entity.{User, RefreshSession}
use youthpreneur_be.Db.{World, Env, statement, transaction, settle, unix}
use youthpreneur_be.Session.{has_hash}
use youthpreneur_be.Session.Methods.{HasValidSessions}
use youthpreneur_be.Auth.{AuthUsecase, AuthTokens, refresh}
use youthpreneur_be.Auth.Sound.{refresh_sound}
use youthpreneur_be.Users
use youthpreneur_be.Users.{is_present}
use youthpreneur_be.Accounts.{delete_user}

-- The row of an id, as Refresh looks for it.
abbrev is_holder : ℕ → User → Bool
is_holder i x = x.id == i && is_present x

abbrev gone : ℕ → User → User
gone at u = record u { deleted_at = some at; updated_at = at }

module _ (p : String) (at i : ℕ) where
  others :
      (xs : List User)
      → count (λ (x : User). x.id == i) xs ≡ 0
      → find (is_holder i) (update (Users.has_public_id p) (gone at) xs) ≡ none
  others [] h = refl
  others (x ∷ xs) h = ground (arith, others xs)

  unheld :
      (xs : List User) {user : User}
      → count (λ (x : User). x.id == i) xs ≡ 0
      → find (Users.has_public_id p) xs ≡ some user
      → (user.id == i) ≡ false
  unheld [] h e = absurd (ground arith)
  unheld (x ∷ xs) {user} h e = ground (arith, unheld xs {user = user})

  deleted-none :
      (xs : List User) {user : User}
      → count (λ (x : User). x.id == i) xs ≤ 1
      → find (Users.has_public_id p) xs ≡ some user
      → (user.id == i) ≡ true
      → find (is_holder i) (update (Users.has_public_id p) (gone at) xs) ≡ none
  deleted-none [] h e own = refl
  deleted-none (x ∷ xs) {user} h e own = elim (Bool-cases (Users.has_public_id p x)) [
    | inl hit ↦ ground (arith, others xs)
    | inr other ↦ ground (arith, unheld xs {user = user}, deleted-none xs {user = user})
  ]

module _ (env : Env) where
  delete-tables :
      (p : String) (w : World)
      → (delete_user env p w).0 ≡ ok tt
      → let w' = (delete_user env p w).1 in
        (w'.db.users ≡ update (Users.has_public_id p) (gone (unix (env.clock w.ticks))) w.db.users)
        × (w'.db.refresh_sessions ≡ w.db.refresh_sessions)
  unfolding delete_user Users.soft_delete_user Users.update_users Users.require_affected transaction
      settle statement
  delete-tables p w done = (ground arith, ground arith)

module _ (u : AuthUsecase) where
  -- After a DeleteUser that reports success, with valid sessions and unique user ids before it, a
  -- refresh token that has a session of the user gets nothing, though every session is as it was.
  pub deletion_ends_sessions :
      (p token : String) (w : World) (a : AuthTokens) {s : RefreshSession} {user : User}
      → HasValidSessions w
      → ((i : ℕ) → count (λ (x : User). x.id == i) w.db.users ≤ 1)
      → find (has_hash (u.tokens.hash_refresh token)) w.db.refresh_sessions ≡ some s
      → find (Users.has_public_id p) w.db.users ≡ some user
      → s.user_id ≡ user.id
      → (delete_user u.env p w).0 ≡ ok tt
      → let w' = (delete_user u.env p w).1 in
        (w'.db.refresh_sessions ≡ w.db.refresh_sessions) × ((refresh u token w').0 ≢ ok a)
  deletion_ends_sessions p token w a {s} {user} v unique session known owner done =
      let w' = (delete_user u.env p w).1 in
      let at = unix (u.env.clock w.ticks) in
      let (users, kept) = delete-tables u.env p w done in
      let lost =
        deleted-none p at s.user_id w.db.users {user = user} (unique s.user_id) known
          ((==_iff user.id s.user_id).1 (sym owner)) in
      (
        kept,
        λ e.
            let (t, holder, row, _, (seen, _)) = refresh_sound u token w' {a = a} (rw kept v) e in
            let h = u.tokens.hash_refresh token in
            let found = sym row ∙ ap (find (has_hash h)) kept ∙ session in
            let own : t.user_id ≡ s.user_id = ground (arith, found) in
            let clash =
              sym lost
              ∙ ap (find (is_holder s.user_id)) (sym users)
              ∙ ap (λ i. find (is_holder i) w'.db.users) (sym own)
              ∙ seen in
            absurd (ground (arith, clash)),
      )
