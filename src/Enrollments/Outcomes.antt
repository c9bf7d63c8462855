-- ===== src/Enrollments/Outcomes.antt =====
-- What the transactions on enrollments have found and done when they report success.
use youthpreneur_be.Base.{
  ℕ, ◌+◌, ◌-◌, ◌≡◌, String, Bool, true, false, ◌&&◌, not, none, some, arith, if◌then◌else◌, ltb,
  find, exists, count, inl, inr, Option-cases,
}
use youthpreneur_be.Errors.{ok}
use youthpreneur_be.Entity.{
  is_open_for_enrollment, TrainingCatalog, TrainingEnrollment, EnrollmentStatus, is_accepted,
  JoinedEnrollment,
}
use youthpreneur_be.Db.{Db, World, Env, statement}
use youthpreneur_be.Catalogs.{has_id, select_catalog}
use youthpreneur_be.Catalogs
use youthpreneur_be.Enrollments.{
  has_public_id, is_current, is_active_of, NewEnrollment, set_status, cancel, is_full,
  insert_enrollment, creating, check_capacity, move_count, updating, in_scope, cancelling,
  select_joined, lock_with_catalog, join, takes_slot,
}
use youthpreneur_be.Enrollments.Invariant.{enrolled}
use youthpreneur_be.Enrollments.Changes.{changed, counted}

-- The tables that a change of status leaves: the counter moves when the acceptance changes.
abbrev pub with_status : String → EnrollmentStatus → ℕ → TrainingEnrollment → ℕ → Db → Db
with_status p s at old id d =
    let d' = changed (is_current p) (set_status s at) d in
    if is_accepted s && not (is_accepted old.status)
    then counted id (λ n. n + 1) at d'
    else if not (is_accepted s) && is_accepted old.status
    then counted id (λ n. n - 1) at d'
    else d'

-- Where a catalog has a limit, fewer enrollments than that wait or are accepted.
abbrev pub has_room : TrainingCatalog → Db → Bool
has_room c d = elim c.max_slots [
  | none ↦ true
  | some m ↦ ltb (count (takes_slot c.id) d.training_enrollments) m
]

module _ (env : Env) where
  -- A change of status that is reported as done has found the enrollment and its catalog.
  pub updating-ok :
      (p : String) (s : EnrollmentStatus) (at : ℕ) (w : World) {a : JoinedEnrollment}
      → (updating env p s at w).0 ≡ ok a
      → (old : TrainingEnrollment) × (catalog : TrainingCatalog) × (find
            (is_current p)
            w.db.training_enrollments
          ≡ some old)
        × (find (has_id old.training_catalog_id) w.db.training_catalog ≡ some catalog)
        × ((is_accepted s && not (is_accepted old.status) && is_full catalog) ≡ false)
        × ((updating env p s at w).1.db ≡ with_status p s at old catalog.id w.db)
  unfolding updating move_count lock_with_catalog select_joined join statement
  updating-ok p s at w success =
      elim (Option-cases (find (is_current p) w.db.training_enrollments)) [
        | inl missing ↦ absurd (ground arith)
        | inr (old, found) ↦
            elim (Option-cases (find (has_id old.training_catalog_id) w.db.training_catalog)) [
              | inl missing ↦ absurd (ground arith)
              | inr (catalog, known) ↦ (old, catalog, found, known, ground arith, ground arith)
            ]
      ]

  -- A cancellation that is reported as done has found a row within its scope.
  pub cancelling-ok :
      (p : String) (scope at : ℕ) (w : World) {a : Unit {0}}
      → (cancelling env p scope at w).0 ≡ ok a
      → (old : TrainingEnrollment) × (find (in_scope env p scope) w.db.training_enrollments
          ≡ some old)
        × ((cancelling env p scope at w).1.db ≡ (
            let d' = changed (has_public_id p) (cancel at) w.db in
            if is_accepted old.status
            then counted old.training_catalog_id (λ n. n - 1) at d'
            else d'))
  unfolding cancelling statement
  cancelling-ok p scope at w success =
      elim (Option-cases (find (in_scope env p scope) w.db.training_enrollments)) [
        | inl missing ↦ absurd (ground arith)
        | inr (old, found) ↦ (old, found, ground arith)
      ]

  -- An enrollment that is reported as created has found a catalog that is open and has room, no
  -- active enrollment of the user in it and no enrollment of its public id, and adds one row.
  pub creating-ok :
      (n : NewEnrollment) (w : World) {a : JoinedEnrollment}
      → (creating env n w).0 ≡ ok a
      → (c : TrainingCatalog) × (find
            (Catalogs.has_public_id n.catalog_public_id)
            w.db.training_catalog
          ≡ some c)
        × (is_open_for_enrollment c ≡ true)
        × (exists (is_active_of c.id n.user_id) w.db.training_enrollments ≡ false)
        × (has_room c w.db ≡ true)
        × (exists (has_public_id n.public_id) w.db.training_enrollments ≡ false)
        × (exists (has_id c.id) w.db.training_catalog ≡ true)
        × ((creating env n w).1.db ≡ enrolled w.serial c.id n w.db)
  unfolding creating check_capacity select_catalog insert_enrollment select_joined join statement
  creating-ok n w success =
      elim (Option-cases
        (find (Catalogs.has_public_id n.catalog_public_id) w.db.training_catalog)) [
          | inl missing ↦ absurd (ground arith)
          | inr (c, found) ↦ elim (Option-cases c.max_slots) [
            | inl unlimited ↦ (
              c,
              found,
              ground arith,
              ground arith,
              ground arith,
              ground arith,
              ground arith,
              ground arith,
            )
            | inr (m, limited) ↦ (
              c,
              found,
              ground arith,
              ground arith,
              ground arith,
              ground arith,
              ground arith,
              ground arith,
            )
          ]
        ]
