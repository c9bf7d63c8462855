-- ===== src/Catalogs/Patched.antt =====
-- What UpdateTrainingCatalog stores: the given fields, and every other column and row as it was.
use youthpreneur_be.Base.{
  ℕ, suc, ◌<◌, ◌≡◌, refl, arith, String, true, false, Option, none, some, eq_iff, str_eq, find, inl,
  inr, Option-cases,
}
use youthpreneur_be.Base.Rows.{find-passes, find-update, find-update_other}
use youthpreneur_be.Errors.{ok}
use youthpreneur_be.Entity.{TrainingCatalog}
use youthpreneur_be.Db.{World, Env, statement, transaction, settle}
use youthpreneur_be.Db.Laws.{transaction-commit, transaction-keeps_ok}
use youthpreneur_be.Catalogs.{
  TrainingCatalogUpdate, has_public_id, ends_before_start, or_else, or_keep,
  apply_training_catalog_update, written, select_catalog, write_catalog, updating,
  update_training_catalog,
}

-- A column after a patch that may give it.
abbrev pub Takes {ℓ} : {A : Type ℓ} → Option A → A → A → Type ℓ
Takes none old new = new ≡ old
Takes (some v) old new = new ≡ v

-- A column that may be NULL, after a patch that cannot clear it.
abbrev pub TakesOrKeeps {ℓ} : {A : Type ℓ} → Option A → Option A → Option A → Type ℓ
TakesOrKeeps none old new = new ≡ old
TakesOrKeeps (some v) old new = new ≡ some v

-- A catalog after a patch, column by column.
pub record Patched (u : TrainingCatalogUpdate) (old new : TrainingCatalog) : Type 0 where
  pub id : new.id ≡ old.id
  pub public_id : new.public_id ≡ old.public_id
  pub title : Takes u.title old.title new.title
  pub description : Takes u.description old.description new.description
  pub pic_phone : Takes u.pic_phone old.pic_phone new.pic_phone
  pub category : Takes u.category old.category new.category
  pub max_slots : TakesOrKeeps u.max_slots old.max_slots new.max_slots
  pub training_status : Takes u.training_status old.training_status new.training_status
  pub link : Takes u.link old.link new.link
  pub address : Takes u.address old.address new.address
  pub thumbnail : Takes u.thumbnail old.thumbnail new.thumbnail
  pub start_date : TakesOrKeeps u.start_date old.start_date new.start_date
  pub end_date : TakesOrKeeps u.end_date old.end_date new.end_date
  pub mentor : Takes u.mentor old.mentor new.mentor
  pub registered_count : new.registered_count ≡ old.registered_count
  pub created_at : new.created_at ≡ old.created_at
  pub updated_at : new.updated_at ≡ u.updated_at
  pub deleted_at : new.deleted_at ≡ old.deleted_at

or_else-Takes {ℓ} : {A : Type ℓ} (o : Option A) (a : A) → Takes o a (or_else o a)
or_else-Takes none a = refl
or_else-Takes (some v) a = refl

or_keep-TakesOrKeeps {ℓ} :
    {A : Type ℓ} (o : Option A) (a : Option A) → TakesOrKeeps o a (or_keep o a)
or_keep-TakesOrKeeps none a = refl
or_keep-TakesOrKeeps (some v) a = refl

merged-Patched :
    (u : TrainingCatalogUpdate) (c : TrainingCatalog)
    → Patched u c (written (apply_training_catalog_update c u) c)
unfolding apply_training_catalog_update
merged-Patched u c = record {
  id = refl;
  public_id = refl;
  title = or_else-Takes u.title c.title;
  description = or_else-Takes u.description c.description;
  pic_phone = or_else-Takes u.pic_phone c.pic_phone;
  category = or_else-Takes u.category c.category;
  max_slots = or_keep-TakesOrKeeps u.max_slots c.max_slots;
  training_status = or_else-Takes u.training_status c.training_status;
  link = or_else-Takes u.link c.link;
  address = or_else-Takes u.address c.address;
  thumbnail = or_else-Takes u.thumbnail c.thumbnail;
  start_date = or_keep-TakesOrKeeps u.start_date c.start_date;
  end_date = or_keep-TakesOrKeeps u.end_date c.end_date;
  mentor = or_else-Takes u.mentor c.mentor;
  registered_count = refl;
  created_at = refl;
  updated_at = refl;
  deleted_at = refl;
}

module _ (env : Env) where
  update_catalog-stored :
      (p : String) (u : TrainingCatalogUpdate) (w : World) (c : TrainingCatalog)
      {a : TrainingCatalog}
      → find (has_public_id p) w.db.training_catalog ≡ some c
      → (update_training_catalog env p u w).0 ≡ ok a
      → (a ≡ written (apply_training_catalog_update c u) c)
        × (find (has_public_id p) (update_training_catalog env p u w).1.db.training_catalog
            ≡ some a)
  unfolding update_training_catalog updating write_catalog select_catalog statement
  update_catalog-stored p u w c found success =
      let (world, ran, left) = transaction-commit env (updating env p u) w success in
      let merged = apply_training_catalog_update c u in
      let kept =
        find-update (has_public_id p) (written merged) (has_public_id p) w.db.training_catalog
          (λ x. refl) in
      let passes = find-passes (has_public_id p) w.db.training_catalog found in
      (ground arith, ground arith)

  other_id :
      (p q : String) (x : TrainingCatalog)
      → str_eq p q ≡ false
      → has_public_id q x ≡ true
      → has_public_id p x ≡ false
  other_id p q x differ h = ground (arith, eq_iff x.public_id q, eq_iff x.public_id p, eq_iff p q)

  update_catalog-others :
      (p q : String) (u : TrainingCatalogUpdate) (w : World)
      → str_eq p q ≡ false
      → find (has_public_id q) (update_training_catalog env p u w).1.db.training_catalog
        ≡ find (has_public_id q) w.db.training_catalog
  unfolding update_training_catalog updating write_catalog select_catalog statement
  update_catalog-others p q u w differ =
      transaction-keeps_ok env
        (λ d.
          find (has_public_id q) d.training_catalog ≡ find (has_public_id q) w.db.training_catalog)
        (updating env p u) w refl
        (λ a r. elim (Option-cases (find (has_public_id p) w.db.training_catalog)) [
          | inl missing ↦ ground arith
          | inr (locked, found) ↦ ground (
            arith,
            find-update_other (has_public_id p) (written (apply_training_catalog_update locked u))
                (has_public_id q) w.db.training_catalog (λ x. refl)
                (λ x h. other_id p q x differ h),
          )
        ])

  -- An UpdateTrainingCatalog that reports success returns the catalog that it found with every given
  -- field set and every other one as it was, leaves that catalog to be found under the same public
  -- id, and leaves the catalogs of other public ids as they were.
  pub update_training_catalog-Patched :
      (p q : String) (u : TrainingCatalogUpdate) (w : World) {c a : TrainingCatalog}
      → find (has_public_id p) w.db.training_catalog ≡ some c
      → str_eq p q ≡ false
      → (update_training_catalog env p u w).0 ≡ ok a
      → let after = (update_training_catalog env p u w).1.db.training_catalog in
        Patched u c a
        × (find (has_public_id p) after ≡ some a)
        × (find (has_public_id q) after ≡ find (has_public_id q) w.db.training_catalog)
  update_training_catalog-Patched p q u w {c} found differ success =
      let (same, stored) = update_catalog-stored p u w c found success in
      (rw same (merged-Patched u c), stored, update_catalog-others p q u w differ)

  -- With nothing failing, an UpdateTrainingCatalog with a positive limit below the counter, which
  -- gives no date, for a catalog in the table whose dates are in order, succeeds: the stored catalog
  -- has that limit and more accepted enrollments than it.
  pub update_training_catalog-overbooks :
      (p : String) (u : TrainingCatalogUpdate) (w : World) (m : ℕ) {c : TrainingCatalog}
      → ((k : ℕ) → env.fails k ≡ false)
      → find (has_public_id p) w.db.training_catalog ≡ some c
      → u.max_slots ≡ some m
      → 0 < m
      → m < c.registered_count
      → u.start_date ≡ none
      → u.end_date ≡ none
      → ends_before_start c.start_date c.end_date ≡ false
      → let r = update_training_catalog env p u w in
        (a : TrainingCatalog) × (r.0 ≡ ok a)
        × (find (has_public_id p) r.1.db.training_catalog ≡ some a)
        × (a.max_slots ≡ some m)
        × (m < a.registered_count)
  unfolding update_training_catalog updating write_catalog select_catalog statement transaction
      settle apply_training_catalog_update
  update_training_catalog-overbooks p u w m {c} works found limit positive below start end ordered =
      let a = written (apply_training_catalog_update c u) c in
      let done : (update_training_catalog env p u w).0 ≡ ok a = ground (
        arith,
        works w.ticks,
        works (suc w.ticks),
        works (suc (suc w.ticks)),
        works (suc (suc (suc w.ticks))),
      ) in
      let (_, stored) = update_catalog-stored p u w c found done in
      (a, done, stored, ground arith, ground arith)
