-- ===== src/Enrolling/History.antt =====
-- Who sees which enrollments in the lists.
use youthpreneur_be.Base.{
  ℕ, ◌+◌, ◌≡◌, arith, false, List, ◌==◌, All, inl, inr, Bool-cases, trim_space,
}
use mathlib.Core.Path.{subst}
use youthpreneur_be.Errors.{ok, Result-cases}
use youthpreneur_be.Errors.Chain
use youthpreneur_be.Db.{World, Env, statement}
use youthpreneur_be.Pages.{Direction, Page, clamp, query, cut_page}
use youthpreneur_be.Pages.Shown.{page-All}
use youthpreneur_be.Enrollments.Listing.{
  TrainingEnrollmentFilter, NamedRow, row_id, joined_rows, matches_filter,
  find_training_enrollments,
}
use youthpreneur_be.Enrolling.{normalize_enrollment_status}
use youthpreneur_be.Enrolling.Lists.{
  FindTrainingEnrollmentsInput, find_enrollments, find_my_enrollments,
}

-- The rows of one user.
abbrev pub AreOf : ℕ → Page NamedRow → Type 0
AreOf user page = All (λ (r : NamedRow). r.0.enrollment.user_id ≡ user) page.items

module _ (env : Env) where
  page-AreOf :
      (f : TrainingEnrollmentFilter) (fetched limit : ℕ) (rows : List NamedRow)
      → (f.user_id == 0) ≡ false
      → AreOf f.user_id (
          cut_page row_id limit
            (query row_id Direction.ascending (matches_filter env f) f.cursor fetched rows))
  unfolding matches_filter
  page-AreOf f fetched limit rows scoped =
      page-All row_id (λ r. r.0.enrollment.user_id ≡ f.user_id) Direction.ascending
        (matches_filter env f) f.cursor fetched limit rows (λ r h. ground arith)

  find_enrollments-AreOf :
      (f : TrainingEnrollmentFilter) (w : World) (page : Page NamedRow)
      → (f.user_id == 0) ≡ false
      → (find_enrollments env f w).0 ≡ ok page
      → AreOf f.user_id page
  unfolding find_enrollments find_training_enrollments statement
  find_enrollments-AreOf f w page scoped h = elim (Bool-cases (env.fails w.ticks)) [
    | inl failed ↦ absurd (ground arith)
    | inr passed ↦
        let asked = record f { limit = clamp 20 f.limit + 1 } in
        let rows = joined_rows w.db w.db.training_enrollments in
        let shown = cut_page row_id (clamp 20 f.limit) (
          query row_id Direction.ascending (matches_filter env asked) asked.cursor asked.limit
            rows) in
        let same : ok shown ≡ ok page = ground arith in
        subst (AreOf f.user_id) (Chain.ok-injective shown page same)
          (page-AreOf asked asked.limit (clamp 20 f.limit) rows scoped)
  ]

-- FindMyEnrollments, when it gives a page, gives enrollments of the one who asks alone.
pub find_my_enrollments-AreOf :
    (env : Env) (input : FindTrainingEnrollmentsInput) (w : World) {page : Page NamedRow}
    → (find_my_enrollments env input w).0 ≡ ok page
    → AreOf input.actor.id page
unfolding find_my_enrollments
find_my_enrollments-AreOf env input w {page} h = elim (Bool-cases (input.actor.id == 0)) [
  | inl nobody ↦ absurd (ground arith)
  | inr known ↦ elim (Result-cases (normalize_enrollment_status env input.status)) [
    | inr (failure, failed) ↦ absurd (ground arith)
    | inl (status, passed) ↦
        find_enrollments-AreOf env
          (record {
            user_id = input.actor.id;
            catalog_id = 0;
            search = trim_space input.search;
            status = status;
            cursor = input.cursor;
            limit = input.limit;
          })
          w page known (ground arith)
  ]
]
