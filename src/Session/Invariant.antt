-- ===== src/Session/Invariant.antt =====
-- What holds of refresh_sessions between statements, and that every method of the repository in
-- internal/repository/persistence/auth_postgres.go keeps it.
use youthpreneur_be.Base.{
  ℕ, ◌≤◌, ◌≡◌, refl, String, Bool, true, false, ◌&&◌, Option, none, some, List, [], ◌∷◌, ◌++◌, ap,
  arith, str_eq, eq_iff, if◌then◌else◌, is_null, find, update, select, exists, count, All,
}
use youthpreneur_be.Base.Rows.{
  count-append, count-update, count-update_same, count-update_le, count-select-le, count-none,
  count-exists, find-passes, find-count, All-append, All-select, All-update,
}
use youthpreneur_be.Entity.{RefreshSession, Reason}
use youthpreneur_be.Session.{has_hash, of_family, is_usable, revoked, consumed, new_row}

abbrev pub is_live : RefreshSession → Bool
is_live s = is_null s.revoked_at

abbrev pub is_live_in : String → RefreshSession → Bool
is_live_in f s = is_live s && of_family f s

abbrev pub is_rotated : Option Reason → Bool
is_rotated none = false
is_rotated (some r) = elim r [ Reason.rotated ↦ true | _ ↦ false ]

-- A live row has no reason and no grace window; only a rotation opens a grace window.
abbrev pub is_consistent : RefreshSession → Bool
is_consistent s =
    if is_live s
    then is_null s.revocation_reason && is_null s.grace_until
    else if is_null s.grace_until
    then true
    else is_rotated s.revocation_reason

-- No two rows share a token hash, no login chain has two live rows, and each row is consistent.
pub record IsValid (rows : List RefreshSession) : Type 0 where
  pub unique_hash : (h : String) → count (has_hash h) rows ≤ 1
  pub one_live : (f : String) → count (is_live_in f) rows ≤ 1
  pub consistent : All (λ s. is_consistent s ≡ true) rows

revoked-consistent :
    (reason : Reason) (at : ℕ) (s : RefreshSession)
    → is_consistent s ≡ true
    → is_consistent (revoked reason at s) ≡ true
revoked-consistent reason at s h = ground arith

pub revoke-IsValid :
    (p : RefreshSession → Bool) (reason : Reason) (at : ℕ) (rows : List RefreshSession)
    → IsValid rows
    → IsValid (update p (revoked reason at) rows)
revoke-IsValid p reason at rows v = record {
  unique_hash = λ h. ground (
    arith,
    v.unique_hash h,
    count-update_same p (revoked reason at) (has_hash h) rows (λ x. refl),
  );
  one_live = λ f. ground (
    arith,
    v.one_live f,
    count-update_le p (revoked reason at) (is_live_in f) rows (λ x e. ground arith),
  );
  consistent =
      All-update _ p (revoked reason at) rows (λ x _ c. revoked-consistent reason at x c)
        v.consistent;
}

pub delete-IsValid :
    (p : RefreshSession → Bool) (rows : List RefreshSession)
    → IsValid rows
    → IsValid (select p rows)
delete-IsValid p rows v = record {
  unique_hash = λ h. ground (arith, v.unique_hash h, count-select-le p (has_hash h) rows);
  one_live = λ f. ground (arith, v.one_live f, count-select-le p (is_live_in f) rows);
  consistent = All-select _ p rows v.consistent;
}

-- A new row keeps the invariant if its hash is new and its login chain has no live row.
pub insert-IsValid :
    (id user_id : ℕ) (family_id : String) (s : RefreshSession) (rows : List RefreshSession)
    → IsValid rows
    → exists (has_hash s.token_hash) rows ≡ false
    → count (is_live_in family_id) rows ≡ 0
    → IsValid (rows ++ (new_row id user_id family_id s ∷ []))
insert-IsValid id user_id family_id s rows v fresh dead =
    let row = new_row id user_id family_id s in
    record {
      unique_hash = λ h.
          let (same, _) = eq_iff s.token_hash h in
          ground (
            arith,
            v.unique_hash h,
            count-append (has_hash h) rows (row ∷ []),
            count-exists (has_hash s.token_hash) rows fresh,
            λ (e : str_eq s.token_hash h ≡ true). ap (λ k. count (has_hash k) rows) (same e),
          );
      one_live = λ f.
          let (same, _) = eq_iff family_id f in
          ground (
            arith,
            v.one_live f,
            count-append (is_live_in f) rows (row ∷ []),
            λ (e : str_eq family_id f ≡ true). ap (λ k. count (is_live_in k) rows) (same e),
          );
      consistent = All-append _ rows (row ∷ []) v.consistent (refl, tt);
    }

-- Consuming a found usable row leaves its login chain with no live row.
pub consume-dead :
    (h : String) (next row : RefreshSession) (now : ℕ) (rows : List RefreshSession)
    → IsValid rows
    → find (λ s. has_hash h s && is_usable now s) rows ≡ some row
    → count
        (is_live_in row.family_id)
        (update (λ s. has_hash h s && is_usable now s) (consumed next now) rows)
      ≡ 0
consume-dead h next row now rows v e =
    let usable = λ (s : RefreshSession). has_hash h s && is_usable now s in
    let chain = is_live_in row.family_id in
    ground (
      arith,
      v.one_live row.family_id,
      count-update usable (consumed next now) chain rows,
      count-none (λ x. usable x && chain (consumed next now x)) rows (λ x. ground arith),
      find-count usable chain rows e
          (ground (arith, find-passes usable rows e, (eq_iff row.family_id row.family_id).1 refl)),
    )

pub consume-IsValid :
    (p : RefreshSession → Bool) (next : RefreshSession) (now : ℕ) (rows : List RefreshSession)
    → IsValid rows
    → IsValid (update p (consumed next now) rows)
consume-IsValid p next now rows v = record {
  unique_hash = λ h. ground (
    arith,
    v.unique_hash h,
    count-update_same p (consumed next now) (has_hash h) rows (λ x. refl),
  );
  one_live = λ f. ground (
    arith,
    v.one_live f,
    count-update_le p (consumed next now) (is_live_in f) rows (λ x e. ground arith),
  );
  consistent = All-update _ p (consumed next now) rows (λ x _ c. ground arith) v.consistent;
}
