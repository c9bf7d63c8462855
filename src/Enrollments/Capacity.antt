-- ===== src/Enrollments/Capacity.antt =====
-- The slots of a catalog: no change of status takes a counter above max_slots.
use youthpreneur_be.Base.{
  ℕ, ◌+◌, ◌-◌, ◌≤◌, ◌≡◌, ◌⊎◌, refl, sym, leb, ◌==◌, ◌||◌, String, true, false, ◌&&◌, not, some, ap,
  ◌∙◌, arith, ==_iff, find, inl, inr, Bool-cases,
}
use youthpreneur_be.Base.Rows.{find-passes, find-update}
use youthpreneur_be.Entity.{TrainingCatalog, TrainingEnrollment, EnrollmentStatus, is_accepted}
use youthpreneur_be.Db.{Db, World, Env, tock}
use youthpreneur_be.Db.Laws.{transaction-keeps_ok}
use youthpreneur_be.Catalogs.{has_id}
use youthpreneur_be.Enrollments.{
  is_current, set_count, set_status, is_full, updating, update_training_enrollment_status,
}
use youthpreneur_be.Enrollments.Changes.{changed, counted}
use youthpreneur_be.Enrollments.Outcomes.{with_status, updating-ok}

-- The catalog of an id keeps its limit, and its counter is within it or has not risen.
abbrev Holds : ℕ → TrainingCatalog → ℕ → Db → Type 0
Holds i c m d =
    (c' : TrainingCatalog)
    → find (has_id i) d.training_catalog ≡ some c'
    → (c'.max_slots ≡ some m)
      × ((leb c'.registered_count m || leb c'.registered_count c.registered_count) ≡ true)

counted-Holds :
    (i id at m : ℕ) (g : ℕ → ℕ) (d : Db) {c : TrainingCatalog}
    → find (has_id i) d.training_catalog ≡ some c
    → c.max_slots ≡ some m
    → ((c.id == id) ≡ true
        → (leb (g c.registered_count) m || leb (g c.registered_count) c.registered_count) ≡ true)
    → Holds i c m (counted id g at d)
counted-Holds i id at m g d {c} found limit fits c' there =
    let step =
      find-update (has_id id) (λ x. set_count (g x.registered_count) at x) (has_id i)
        d.training_catalog (λ x. refl) in
    elim (Bool-cases (c.id == id)) [
      | inl same ↦ let bound = fits same in ground arith
      | inr other ↦ ground arith
    ]

with_status-Holds :
    (i : ℕ) (p : String) (s : EnrollmentStatus) (at m : ℕ) (old : TrainingEnrollment)
    (catalog : TrainingCatalog) (d : Db) {c : TrainingCatalog}
    → find (has_id i) d.training_catalog ≡ some c
    → c.max_slots ≡ some m
    → find (has_id catalog.id) d.training_catalog ≡ some catalog
    → (is_accepted s && not (is_accepted old.status) && is_full catalog) ≡ false
    → Holds i c m (with_status p s at old catalog.id d)
with_status-Holds i p s at m old catalog d {c} found limit known room c' there =
    let d' = changed (is_current p) (set_status s at) d in
    let own = (==_iff c.id i).0 (find-passes (has_id i) d.training_catalog found) in
    elim (Bool-cases (is_accepted s && not (is_accepted old.status))) [
      | inl entering ↦
          let fits = λ (same : (c.id == catalog.id) ≡ true).
            let same_id : i ≡ catalog.id = sym own ∙ (==_iff c.id catalog.id).0 same in
            let one : some c ≡ some catalog =
              sym found ∙ ap (λ k. find (has_id k) d.training_catalog) same_id ∙ known in
            let bound : (leb (c.registered_count + 1) m
                  || leb (c.registered_count + 1) c.registered_count)
                ≡ true =
              ground arith in
            bound in
          let held = counted-Holds i catalog.id at m (λ n. n + 1) d' found limit fits in
          held c' (ground arith)
      | inr staying ↦
          let held =
            counted-Holds i catalog.id at m (λ n. n - 1) d' found limit (λ same. ground arith) in
          elim (Bool-cases (not (is_accepted s) && is_accepted old.status)) [
            | inl leaving ↦ held c' (ground arith)
            | inr same ↦ ground arith
          ]
    ]

within_or_kept : (k m n : ℕ) → (leb k m || leb k n) ≡ true → (k ≤ m) ⊎ (k ≤ n)
within_or_kept k m n h = elim (Bool-cases (leb k m)) [
  | inl within ↦ inl (ground arith)
  | inr over ↦ inr (ground arith)
]

module _ (env : Env) where
  -- A change of status, whatever it reports, leaves the max_slots of a catalog as it was and never
  -- raises its counter above it: afterwards the counter is within the limit or not above what it was.
  pub update_status-max_slots :
      (p : String) (s : EnrollmentStatus) (at : ℕ) (w : World) (i m : ℕ) {c c' : TrainingCatalog}
      → find (has_id i) w.db.training_catalog ≡ some c
      → c.max_slots ≡ some m
      → find (has_id i) (update_training_enrollment_status env p s at w).1.db.training_catalog
        ≡ some c'
      → (c'.max_slots ≡ some m)
        × ((c'.registered_count ≤ m) ⊎ (c'.registered_count ≤ c.registered_count))
  unfolding update_training_enrollment_status
  update_status-max_slots p s at w i m {c} {c'} found limit there =
      let (same, within) =
        transaction-keeps_ok env (Holds i c m) (updating env p s at) w (λ x e. ground arith)
          (λ a r.
            let (old, catalog, _, known, room, left) = updating-ok env p s at (tock w) r in
            let same =
              (==_iff catalog.id old.training_catalog_id).0
                (find-passes (has_id old.training_catalog_id) w.db.training_catalog known) in
            rw left (
              with_status-Holds i p s at m old catalog w.db found limit
                (ap (λ k. find (has_id k) w.db.training_catalog) same ∙ known) room))
          c' there in
      (same, within_or_kept c'.registered_count m c.registered_count within)
