-- ===== src/Enrollments/Changes.antt =====
-- What an UPDATE of one enrollment, with or without its catalog's counter, does to the tables.
use youthpreneur_be.Base.{
  ℕ, ◌+◌, ◌≤◌, ◌≡◌, refl, String, Bool, true, false, ◌&&◌, some, ap, ◌∙◌, arith, if◌then◌else◌,
  ◌==◌, find, update, exists, count,
}
use youthpreneur_be.Base.Rows.{
  count-update, count-update_same, count-update_le, count-le, count-found, exists-update_same,
  All-map, All-update, All-update_to,
}
use youthpreneur_be.Entity.{TrainingCatalog, TrainingEnrollment, is_accepted}
use youthpreneur_be.Db.{Db}
use youthpreneur_be.Catalogs.{has_id}
use youthpreneur_be.Enrollments.{has_public_id, is_present, is_active_of, set_count}
use youthpreneur_be.Enrollments.Invariant.{has_seat, RefersTo, HasKeys, IsValid}

-- The tables after a change of the enrollments that pass a test, and of the counter of a catalog.
abbrev pub changed :
    (TrainingEnrollment → Bool) → (TrainingEnrollment → TrainingEnrollment) → Db → Db
changed p f d = record d { training_enrollments = update p f d.training_enrollments }

abbrev pub counted : ℕ → (ℕ → ℕ) → ℕ → Db → Db
counted id f at d = record d {
  training_catalog =
      update (has_id id) (λ c. set_count (f c.registered_count) at c) d.training_catalog;
}

-- A change of an enrollment that leaves its keys alone and never makes it active.
pub record KeepsKeys (f : TrainingEnrollment → TrainingEnrollment) : Type 0 where
  pub same_public_id :
      (q : String) (x : TrainingEnrollment) → has_public_id q (f x) ≡ has_public_id q x
  pub same_catalog : (x : TrainingEnrollment) → (f x).training_catalog_id ≡ x.training_catalog_id
  pub not_active :
      (c u : ℕ) (x : TrainingEnrollment) → is_active_of c u (f x) ≡ true → is_active_of c u x ≡ true

pub changed-HasKeys :
    (p : TrainingEnrollment → Bool) (f : TrainingEnrollment → TrainingEnrollment) (d : Db)
    → KeepsKeys f
    → HasKeys d
    → HasKeys (changed p f d)
changed-HasKeys p f d k v =
    let rows = d.training_enrollments in
    record {
      unique_public_id = λ q. ground (
        arith,
        v.unique_public_id q,
        count-update_same p f (has_public_id q) rows (k.same_public_id q),
      );
      one_active = λ c u.
          ground (
            arith,
            v.one_active c u,
            count-update_le p f (is_active_of c u) rows (k.not_active c u),
          );
      known_catalog =
          All-update (RefersTo d.training_catalog) p f rows
            (λ x _ e. ap (λ i. exists (has_id i) d.training_catalog) (k.same_catalog x) ∙ e)
            v.known_catalog;
      unique_catalog = v.unique_catalog;
    }

pub counted-HasKeys :
    (id : ℕ) (g : ℕ → ℕ) (at : ℕ) (d : Db) → HasKeys d → HasKeys (counted id g at d)
counted-HasKeys id g at d v =
    let catalogs = d.training_catalog in
    let set = λ (c : TrainingCatalog). set_count (g c.registered_count) at c in
    record {
      unique_public_id = v.unique_public_id;
      one_active = v.one_active;
      known_catalog =
          All-map _ _ d.training_enrollments
            (λ x e.
              exists-update_same (has_id id) set (has_id x.training_catalog_id) catalogs (λ c. refl)
              ∙ e)
            v.known_catalog;
      unique_catalog = λ i. ground (
        arith,
        v.unique_catalog i,
        count-update_same (has_id id) set (has_id i) catalogs (λ c. refl),
      );
    }

abbrev pub seat : TrainingEnrollment → ℕ
seat e = if is_present e && is_accepted e.status then 1 else 0

-- The seats of a catalog after a change of the one enrollment that passes a test.
module _ (p : TrainingEnrollment → Bool) (f : TrainingEnrollment → TrainingEnrollment) (d : Db)
    {old : TrainingEnrollment} (k : KeepsKeys f) (found : find p d.training_enrollments ≡ some old)
    (single : count p d.training_enrollments ≤ 1) where
  seats-changed :
      (c : ℕ)
      → count (has_seat c) (update p f d.training_enrollments) + (if has_seat c old then 1 else 0)
        ≡ count (has_seat c) d.training_enrollments + (if has_seat c (f old) then 1 else 0)
  seats-changed c = ground (
    arith,
    count-update p f (has_seat c) d.training_enrollments,
    count-found p (has_seat c) d.training_enrollments found single,
    count-found p (λ x. has_seat c (f x)) d.training_enrollments found single,
  )

  -- A change that takes no seat and leaves none.
  pub kept-IsValid : seat (f old) ≡ seat old → IsValid d → IsValid (changed p f d)
  kept-IsValid same v = record {
    keys = changed-HasKeys p f d k v.keys;
    exact_counts =
        All-map _ _ d.training_catalog
          (λ x e. ground (arith, e, seats-changed x.id, k.same_catalog old)) v.exact_counts;
  }

  seat-counted :
      (c : ℕ) → (if has_seat c old then 1 else 0) ≤ count (has_seat c) d.training_enrollments
  seat-counted c = ground (
    arith,
    count-found p (has_seat c) d.training_enrollments found single,
    count-le (λ x. p x && has_seat c x) (has_seat c) d.training_enrollments (λ x e. ground arith),
  )

  -- A change of an enrollment together with the counter of its catalog.
  module _ (g : ℕ → ℕ) (at : ℕ)
      (move : (n : ℕ) → seat old ≤ n → g n + seat old ≡ n + seat (f old)) where
    moved-here :
        (n c : ℕ)
        → (old.training_catalog_id == c) ≡ true
        → n ≡ count (has_seat c) d.training_enrollments
        → g n ≡ count (has_seat c) (update p f d.training_enrollments)
    moved-here n c here e =
        ground (arith, seats-changed c, k.same_catalog old, move n (ground (arith, seat-counted c)))

    moved-there :
        (c : ℕ)
        → (old.training_catalog_id == c) ≡ false
        → count (has_seat c) (update p f d.training_enrollments)
          ≡ count (has_seat c) d.training_enrollments
    moved-there c there = ground (arith, seats-changed c, k.same_catalog old)

    pub moved-IsValid : IsValid d → IsValid (counted old.training_catalog_id g at (changed p f d))
    moved-IsValid v = record {
      keys =
          counted-HasKeys old.training_catalog_id g at (changed p f d)
            (changed-HasKeys p f d k v.keys);
      exact_counts =
          All-update_to _ _ (has_id old.training_catalog_id)
            (λ c. set_count (g c.registered_count) at c) d.training_catalog
            (λ x e. ground (arith, moved-here x.registered_count x.id, moved-there x.id))
            v.exact_counts;
    }
