-- ===== src/Enrollments/Methods.antt =====
-- Every method of the enrollment repository keeps the invariant, whatever fails on the way.
use youthpreneur_be.Base.{
  ℕ, ◌+◌, ◌-◌, ◌≤◌, ◌≡◌, refl, String, false, ◌&&◌, ◌||◌, some, List, ◌∙◌, arith, ==_iff, ◌==◌,
  find, count, inl, inr, Bool-cases,
}
use youthpreneur_be.Base.Rows.{count-le, find-passes, find_unique, find-eq}
use youthpreneur_be.Entity.{TrainingEnrollment, EnrollmentStatus, is_accepted}
use youthpreneur_be.Db.{Db, World, Env, tock}
use youthpreneur_be.Db.Laws.{transaction-keeps_ok}
use youthpreneur_be.Catalogs.{has_id}
use youthpreneur_be.Enrollments.{
  has_public_id, is_present, is_current, NewEnrollment, status_or_pending, set_status, cancel,
  creating, create_training_enrollment, updating, update_training_enrollment_status, in_scope,
  cancelling, cancel_training_enrollment,
}
use youthpreneur_be.Enrollments.Invariant.{IsValid, insert-IsValid}
use youthpreneur_be.Enrollments.Changes.{KeepsKeys, kept-IsValid, moved-IsValid}
use youthpreneur_be.Enrollments.Outcomes.{with_status, updating-ok, cancelling-ok, creating-ok}

set_status-KeepsKeys : (s : EnrollmentStatus) (at : ℕ) → KeepsKeys (set_status s at)
set_status-KeepsKeys s at = record {
  same_public_id = λ q x. refl;
  same_catalog = λ x. refl;
  not_active = λ c u x e. ground arith;
}

cancel-KeepsKeys : (at : ℕ) → KeepsKeys (cancel at)
cancel-KeepsKeys at = record {
  same_public_id = λ q x. refl;
  same_catalog = λ x. refl;
  not_active = λ c u x e. ground arith;
}

single-current :
    (p : String) (rows : List TrainingEnrollment)
    → count (has_public_id p) rows ≤ 1
    → count (is_current p) rows ≤ 1
single-current p rows h =
    ground (arith, count-le (is_current p) (has_public_id p) rows (λ x e. ground arith))

with_status-IsValid :
    (p : String) (s : EnrollmentStatus) (at : ℕ) (old : TrainingEnrollment) (d : Db)
    → IsValid d
    → find (is_current p) d.training_enrollments ≡ some old
    → IsValid (with_status p s at old old.training_catalog_id d)
with_status-IsValid p s at old d v found =
    let test = is_current p in
    let f = set_status s at in
    let k = set_status-KeepsKeys s at in
    let single = single-current p d.training_enrollments (v.keys.unique_public_id p) in
    let current = find-passes test d.training_enrollments found in
    elim (Bool-cases (is_accepted s)) [
      | inl new ↦ elim (Bool-cases (is_accepted old.status)) [
        | inl was ↦ ground (arith, kept-IsValid test f d k found single (ground arith) v)
        | inr was ↦
            ground
              (arith, moved-IsValid test f d k found single (λ n. n + 1) at (λ n h. ground arith) v)
      ]
      | inr new ↦ elim (Bool-cases (is_accepted old.status)) [
        | inl was ↦
            ground
              (arith, moved-IsValid test f d k found single (λ n. n - 1) at (λ n h. ground arith) v)
        | inr was ↦ ground (arith, kept-IsValid test f d k found single (ground arith) v)
      ]
    ]

module _ (env : Env) where
  -- A change of status keeps the counters exact and the indexes right, on every branch, also where
  -- the transaction fails half way.
  pub update_status-IsValid :
      (p : String) (s : EnrollmentStatus) (at : ℕ) (w : World)
      → IsValid w.db
      → IsValid (update_training_enrollment_status env p s at w).1.db
  unfolding update_training_enrollment_status
  update_status-IsValid p s at w v =
      transaction-keeps_ok env IsValid (updating env p s at) w v (λ a r.
        let (old, catalog, found, known, _, left) = updating-ok env p s at (tock w) r in
        let same =
          (==_iff catalog.id old.training_catalog_id).0
            (find-passes (has_id old.training_catalog_id) w.db.training_catalog known) in
        rw (left, same) (with_status-IsValid p s at old w.db v found))

  -- A cancellation keeps the counters exact and the indexes right, on every branch.
  pub cancel-IsValid :
      (p : String) (scope at : ℕ) (w : World)
      → IsValid w.db
      → IsValid (cancel_training_enrollment env p scope at w).1.db
  unfolding cancel_training_enrollment
  cancel-IsValid p scope at w v =
      transaction-keeps_ok env IsValid (cancelling env p scope at) w v (λ a r.
        let rows = w.db.training_enrollments in
        let (old, found, left) = cancelling-ok env p scope at (tock w) r in
        let single = v.keys.unique_public_id p in
        let passes = find-passes (in_scope env p scope) rows found in
        let here =
          find_unique (has_public_id p) (λ e. is_present e && (scope == 0 || e.user_id == scope))
            rows (find-eq _ _ rows (λ e. ground arith) ∙ found) single in
        let k = cancel-KeepsKeys at in
        elim (Bool-cases (is_accepted old.status)) [
          | inl was ↦ ground (
            arith,
            left,
            moved-IsValid (has_public_id p) (cancel at) w.db k here single (λ n. n - 1) at
                (λ n h. ground arith) v,
          )
          | inr was ↦ ground (
            arith,
            left,
            kept-IsValid (has_public_id p) (cancel at) w.db k here single (ground arith) v,
          )
        ])

  -- A new enrollment that is not accepted keeps the counters exact and the indexes right, on every
  -- branch.
  pub create-IsValid :
      (n : NewEnrollment) (w : World)
      → is_accepted (status_or_pending n.status) ≡ false
      → IsValid w.db
      → IsValid (create_training_enrollment env n w).1.db
  unfolding create_training_enrollment
  create-IsValid n w waiting v = transaction-keeps_ok env IsValid (creating env n) w v (λ a r.
      let (c, _, _, first, _, fresh, known, left) = creating-ok env n (tock w) r in
      rw left (insert-IsValid w.serial c.id n w.db v waiting fresh first known))
