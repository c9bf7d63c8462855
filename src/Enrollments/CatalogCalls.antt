-- ===== src/Enrollments/CatalogCalls.antt =====
-- The methods on catalogs against the invariant on enrollments: no statement of theirs moves the
-- counter.
use youthpreneur_be.Base.{
  ℕ, ◌≡◌, refl, String, Bool, true, false, none, some, List, [], ◌∷◌, ◌++◌, ap, sym, ◌∙◌, arith,
  ==_iff, ◌==◌, find, update, exists, count, All, inl, inr, Bool-cases, Option-cases,
}
use youthpreneur_be.Entity.{TrainingCatalog, TrainingEnrollment}
use youthpreneur_be.Db.{Db, World, Env, statement}
use youthpreneur_be.Db.Laws.{transaction-keeps_ok}
use youthpreneur_be.Catalogs.{has_id, select_catalog}
use youthpreneur_be.Catalogs
use youthpreneur_be.Enrollments.Invariant.{IsValid}
use youthpreneur_be.Base.Rows.{
  All-update, All-map, All-append, exists-append, exists-update_same, count-append, count-exists,
  count-update_same,
}
use youthpreneur_be.Catalogs.{
  with_catalogs, breaks_check, written, TrainingCatalogUpdate, apply_training_catalog_update,
  insert_catalog, write_catalog, create_training_catalog, update_training_catalog,
  soft_delete_training_catalog, ends_before_start,
}
use youthpreneur_be.Enrollments.Invariant.{has_seat, RefersTo}

abbrev pub with_catalog_rows :
    (TrainingCatalog → Bool) → (TrainingCatalog → TrainingCatalog) → Db → Db
with_catalog_rows p f d = record d { training_catalog = update p f d.training_catalog }

-- A change of catalogs that leaves their ids and counters alone keeps the invariant.
recatalogued-IsValid :
    (p : TrainingCatalog → Bool) (f : TrainingCatalog → TrainingCatalog) (d : Db)
    → ((x : TrainingCatalog) → (f x).id ≡ x.id)
    → ((x : TrainingCatalog) → (f x).registered_count ≡ x.registered_count)
    → IsValid d
    → IsValid (with_catalog_rows p f d)
recatalogued-IsValid p f d same_id same_count v = record {
  keys = record {
    unique_public_id = v.keys.unique_public_id;
    one_active = v.keys.one_active;
    known_catalog =
        All-map _ _ d.training_enrollments
          (λ e k.
            exists-update_same p f (has_id e.training_catalog_id) d.training_catalog
              (λ x. ap (λ i. i == e.training_catalog_id) (same_id x))
            ∙ k)
          v.keys.known_catalog;
    unique_catalog = λ i. ground (
      arith,
      v.keys.unique_catalog i,
      count-update_same p f (has_id i) d.training_catalog (λ x. ap (λ j. j == i) (same_id x)),
    );
  };
  exact_counts =
      All-update _ p f d.training_catalog
        (λ x _ e.
          same_count x ∙ e ∙ ap (λ i. count (has_seat i) d.training_enrollments) (sym (same_id x)))
        v.exact_counts;
}

-- A catalog that is not there has no seats.
unknown-no_seats :
    (i : ℕ) (catalogs : List TrainingCatalog) (rows : List TrainingEnrollment)
    → exists (has_id i) catalogs ≡ false
    → All (RefersTo catalogs) rows
    → count (has_seat i) rows ≡ 0
unknown-no_seats i catalogs [] fresh known = refl
unknown-no_seats i catalogs (e ∷ rows) fresh known =
    elim (Bool-cases (e.training_catalog_id == i)) [
      | inr other ↦ ground (arith, unknown-no_seats i catalogs rows fresh known.1)
      | inl same ↦ absurd (
          let k = ap (λ j. exists (has_id j) catalogs) ((==_iff e.training_catalog_id i).0 same) in
          let here = known.0 in cc)
    ]

-- A new catalog starts with no enrollment counted.
appended-IsValid :
    (row : TrainingCatalog) (d : Db)
    → exists (has_id row.id) d.training_catalog ≡ false
    → row.registered_count ≡ 0
    → IsValid d
    → IsValid (record d { training_catalog = d.training_catalog ++ (row ∷ []) })
appended-IsValid row d fresh empty v =
    let catalogs = d.training_catalog in
    record {
      keys = record {
        unique_public_id = v.keys.unique_public_id;
        one_active = v.keys.one_active;
        known_catalog =
            All-map _ _ d.training_enrollments
              (λ e k. exists-append (has_id e.training_catalog_id) catalogs (row ∷ []) k)
              v.keys.known_catalog;
        unique_catalog = λ i. ground (
          arith,
          v.keys.unique_catalog i,
          count-append (has_id i) catalogs (row ∷ []),
          count-exists (has_id row.id) catalogs fresh,
          λ (e : (row.id == i) ≡ true). ap (λ j. count (has_id j) catalogs) ((==_iff row.id i).0 e),
        );
      };
      exact_counts = All-append _ catalogs (row ∷ []) v.exact_counts (
        empty
            ∙ sym (
                unknown-no_seats row.id catalogs d.training_enrollments fresh v.keys.known_catalog),
        tt,
      );
    }

module _ (env : Env) where
  pub create_catalog-IsValid :
      (c : TrainingCatalog) (w : World)
      → IsValid w.db
      → IsValid (create_training_catalog env c w).1.db
  unfolding create_training_catalog insert_catalog statement
  create_catalog-IsValid c w v =
      elim (Bool-cases (exists (has_id w.serial) w.db.training_catalog)) [
        | inl known ↦ ground arith
        | inr fresh ↦ ground (
          arith,
          appended-IsValid (record c { id = w.serial; registered_count = 0; deleted_at = none })
              w.db fresh refl v,
        )
      ]

  pub soft_delete_catalog-IsValid :
      (p : String) (at : ℕ) (w : World)
      → IsValid w.db
      → IsValid (soft_delete_training_catalog env p at w).1.db
  unfolding soft_delete_training_catalog statement
  soft_delete_catalog-IsValid p at w v = ground (
    arith,
    recatalogued-IsValid (Catalogs.has_public_id p)
        (λ c. record c { deleted_at = some at; updated_at = at }) w.db (λ x. refl) (λ x. refl) v,
  )

  -- An update of a catalog keeps the counters exact and the indexes right, on every branch.
  pub update_catalog-IsValid :
      (p : String) (u : TrainingCatalogUpdate) (w : World)
      → IsValid w.db
      → IsValid (update_training_catalog env p u w).1.db
  unfolding update_training_catalog Catalogs.updating select_catalog write_catalog statement
  update_catalog-IsValid p u w v =
      transaction-keeps_ok env IsValid (Catalogs.updating env p u) w v (λ a r.
        elim (Option-cases (find (Catalogs.has_public_id p) w.db.training_catalog)) [
          | inl missing ↦ ground arith
          | inr (locked, found) ↦ ground (
            arith,
            v,
            recatalogued-IsValid (Catalogs.has_public_id p)
                (written (apply_training_catalog_update locked u)) w.db (λ x. refl) (λ x. refl) v,
          )
        ])
