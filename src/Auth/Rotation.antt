-- ===== src/Auth/Rotation.antt =====
-- What a refresh that rotates has done: the user it saw, the token it sealed, the rows it left.
use youthpreneur_be.Base.{
  ℕ, suc, ◌+◌, String, true, ◌&&◌, ◌≡◌, none, some, arith, List, find, Option-cases, inl, inr, ◌==◌,
}
use youthpreneur_be.Errors.{ok, Result-cases}
use youthpreneur_be.Entity.{User, RefreshSession, Reason}
use youthpreneur_be.Db.{World, tock, unix}
use youthpreneur_be.Users.{find_user_by_id, is_present}
use youthpreneur_be.Session.{rotate_refresh_session}
use youthpreneur_be.Auth.{AuthUsecase, AuthTokens, rotate, active_user, refresh_grace_window}

module _ (u : AuthUsecase) where
  -- The user of an id who is present and active.
  abbrev pub IsActiveUser : ℕ → World → User → Type 0
  IsActiveUser id w user =
      (find (λ x. (x.id == id) && is_present x) w.db.users ≡ some user) × (user.is_active ≡ true)

  pub active_user-ok :
      (id : ℕ) (w : World) {user : User}
      → (active_user u id w).0 ≡ ok user
      → IsActiveUser id w user × ((active_user u id w).1.db ≡ w.db)
  unfolding active_user find_user_by_id
  active_user-ok id w e =
      elim (Option-cases (find (λ x. (x.id == id) && is_present x) w.db.users)) [
        | inl missing ↦ absurd (ground arith)
        | inr (x, found) ↦ ground arith
      ]

  -- The row that a rotation hands to the repository.
  abbrev pub replacement : RefreshSession → User → String → List ℕ → ℕ → RefreshSession
  replacement session user raw sealed t = record {
    id = 0;
    user_id = user.id;
    family_id = session.family_id;
    token_hash = u.tokens.hash_refresh raw;
    expires_at = unix (t + u.refresh_ttl);
    created_at = unix t;
    revoked_at = none;
    revocation_reason = some Reason.rotated;
    grace_until = some (unix (t + refresh_grace_window));
    replacement_token_enc = sealed;
    replaced_by_hash = none;
  }

  -- What a rotation that reports tokens has gone through.
  pub record Rotated (session : RefreshSession) (h : String) (t : ℕ) (w : World) (a : AuthTokens)
      : Type 0 where
    pub user : User
    pub seen : IsActiveUser session.user_id w user
    pub sealed : List ℕ
    pub moment : ℕ
    pub seals : u.tokens.encrypt_refresh a.refresh_token moment ≡ ok sealed
    pub signs : u.tokens.issue_access user t ≡ ok a.access_token
    pub before : World
    pub untouched : before.db ≡ w.db
    pub row : RefreshSession
    pub written :
        (rotate_refresh_session u.env h
          (replacement session user a.refresh_token sealed t)
          (unix t)
          before).0
        ≡ ok row
    pub after :
        (rotate u session h t w).1
        ≡ (rotate_refresh_session u.env h
            (replacement session user a.refresh_token sealed t)
            (unix t)
            before).1

  -- A rotation that reports tokens has seen an active user, sealed the token that it returns, signed
  -- the access token, and left the world of the repository's rotation to a row with that token's
  -- hash, the window and the sealed token.
  pub rotate-ok :
      (session : RefreshSession) (h : String) (t : ℕ) (w : World) {a : AuthTokens}
      → (rotate u session h t w).0 ≡ ok a
      → Rotated session h t w a
  unfolding rotate
  rotate-ok session h t w {a} e = elim (Result-cases (active_user u session.user_id w).0) [
    | inr (x, r) ↦ absurd (ground arith)
    | inl (user, saw) ↦
        let w1 = (active_user u session.user_id w).1 in
        let (seen, same) = active_user-ok session.user_id w saw in
        elim (Result-cases (u.tokens.issue_access user t)) [
          | inr (x, i) ↦ absurd (ground arith)
          | inl (access, i) ↦ elim (Result-cases (u.tokens.generate_refresh w1.ticks)) [
            | inr (x, g) ↦ absurd (ground arith)
            | inl (raw, g) ↦ elim (Result-cases (u.tokens.encrypt_refresh raw (suc w1.ticks))) [
              | inr (x, s) ↦ absurd (ground arith)
              | inl (sealed, s) ↦
                  let w3 = tock (tock w1) in
                  let next = replacement session user raw sealed t in
                  let done = rotate_refresh_session u.env h next (unix t) w3 in
                  elim (Result-cases done.0) [
                    | inr (x, r) ↦ absurd (ground arith)
                    | inl (row, r) ↦ record {
                      user = user;
                      seen = seen;
                      sealed = sealed;
                      moment = suc w1.ticks;
                      seals = ground arith;
                      signs = ground arith;
                      before = w3;
                      untouched = same;
                      row = row;
                      written = ground arith;
                      after = ground arith;
                    }
                  ]
            ]
          ]
        ]
  ]
