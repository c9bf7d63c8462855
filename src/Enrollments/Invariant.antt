-- ===== src/Enrollments/Invariant.antt =====
-- What holds of training_catalog and training_enrollments between requests, on the tables alone:
-- registered_count is the number of accepted enrollments, and the unique indexes hold.
use youthpreneur_be.Base.{
  ℕ, ◌≤◌, ◌≡◌, String, Bool, true, false, ◌&&◌, List, [], ◌∷◌, ◌++◌, ap, arith, str_eq, eq_iff,
  ◌==◌, exists, count, All, inl, inr, Bool-cases,
}
use youthpreneur_be.Base.Rows.{count-append, count-exists, All-append, All-map}
use youthpreneur_be.Entity.{TrainingCatalog, TrainingEnrollment, is_accepted}
use youthpreneur_be.Db.{Db}
use youthpreneur_be.Catalogs.{has_id}
use youthpreneur_be.Enrollments.{
  has_public_id, is_present, is_active_of, enrollment_row, NewEnrollment, status_or_pending,
}

-- An enrollment that takes a seat of a catalog.
abbrev pub has_seat : ℕ → TrainingEnrollment → Bool
has_seat c e = e.training_catalog_id == c && is_present e && is_accepted e.status

abbrev pub RefersTo : List TrainingCatalog → TrainingEnrollment → Type 0
RefersTo catalogs e = exists (has_id e.training_catalog_id) catalogs ≡ true

-- The unique indexes and the reference of an enrollment to its catalog.
pub record HasKeys (d : Db) : Type 0 where
  pub unique_public_id : (p : String) → count (has_public_id p) d.training_enrollments ≤ 1
  -- a user has one active enrollment in a catalog
  pub one_active : (c u : ℕ) → count (is_active_of c u) d.training_enrollments ≤ 1
  pub known_catalog : All (RefersTo d.training_catalog) d.training_enrollments
  pub unique_catalog : (i : ℕ) → count (has_id i) d.training_catalog ≤ 1

-- The counter of every catalog is the number of its seats that are taken.
abbrev pub HasExactCounts : Db → Type 0
HasExactCounts d =
    All (λ (c : TrainingCatalog). c.registered_count ≡ count (has_seat c.id) d.training_enrollments)
      d.training_catalog

pub record IsValid (d : Db) : Type 0 where
  pub keys : HasKeys d
  pub exact_counts : HasExactCounts d

-- The tables after an insertion of an enrollment that is not accepted.
abbrev pub enrolled : ℕ → ℕ → NewEnrollment → Db → Db
enrolled id c n d = record d {
  training_enrollments = d.training_enrollments ++ (enrollment_row id c n ∷ []);
}

-- A second active enrollment would be one of the same catalog and user.
inserted-one_active :
    (id c k u : ℕ) (n : NewEnrollment) (rows : List TrainingEnrollment)
    → count (is_active_of k u) rows ≤ 1
    → exists (is_active_of c n.user_id) rows ≡ false
    → count (is_active_of k u) (rows ++ (enrollment_row id c n ∷ [])) ≤ 1
inserted-one_active id c k u n rows v first =
    let test = is_active_of k u (enrollment_row id c n) in
    let unseen = count-exists (is_active_of c n.user_id) rows first in
    elim (Bool-cases test) [
      | inr other ↦
          ground (arith, count-append (is_active_of k u) rows (enrollment_row id c n ∷ []))
      | inl same ↦
          let c≡k : c ≡ k = ground arith in
          let u≡u : n.user_id ≡ u = ground arith in
          ground (
            arith,
            count-append (is_active_of k u) rows (enrollment_row id c n ∷ []),
            ap (λ a. count (is_active_of a n.user_id) rows) c≡k,
            ap (λ a. count (is_active_of k a) rows) u≡u,
          )
    ]

pub insert-IsValid :
    (id c : ℕ) (n : NewEnrollment) (d : Db)
    → IsValid d
    → is_accepted (status_or_pending n.status) ≡ false
    → exists (has_public_id n.public_id) d.training_enrollments ≡ false
    → exists (is_active_of c n.user_id) d.training_enrollments ≡ false
    → exists (has_id c) d.training_catalog ≡ true
    → IsValid (enrolled id c n d)
insert-IsValid id c n d v waiting fresh first known =
    let rows = d.training_enrollments in
    let row = enrollment_row id c n in
    record {
      keys = record {
        unique_public_id = λ p. ground (
          arith,
          v.keys.unique_public_id p,
          count-append (has_public_id p) rows (row ∷ []),
          count-exists (has_public_id n.public_id) rows fresh,
          λ (e : str_eq n.public_id p ≡ true).
              ap (λ k. count (has_public_id k) rows) ((eq_iff n.public_id p).0 e),
        );
        one_active = λ k u. inserted-one_active id c k u n rows (v.keys.one_active k u) first;
        known_catalog = All-append _ rows (row ∷ []) v.keys.known_catalog (known, tt);
        unique_catalog = v.keys.unique_catalog;
      };
      exact_counts =
          All-map _ _ d.training_catalog
            (λ x e. ground (arith, e, count-append (has_seat x.id) rows (row ∷ []))) v.exact_counts;
    }
