-- ===== src/Catalogs.antt =====
-- internal/repository/persistence/training_catalog_postgres.go: the table training_catalog.
pub mod Listing
pub mod Patched
use youthpreneur_be.Base.{
  ℕ, suc, String, Bool, false, ◌&&◌, ◌||◌, Option, none, some, List, [], ◌∷◌, ◌++◌, ltb, ◌==◌,
  str_eq, if◌then◌else◌, is_null, find, update, exists, count, contains,
}
use youthpreneur_be.Errors.{
  Error, RepositoryError, repository, no_rows, pg_error, wrap, Result, ok, err, is_no_rows,
}
use youthpreneur_be.Entity.{TrainingCatalog, TrainingCategory, ProcessStatus}
use youthpreneur_be.Db.{
  World, Env, M, pure, throw, ◌>>=◌, map_err, wrap_err, statement, transaction,
}

-- entity/training_catalog.go: `TrainingCatalogUpdate`. A category or status that is given may be
-- empty, which clears it.
pub record TrainingCatalogUpdate : Type 0 where
  pub title : Option String
  pub description : Option String
  pub pic_phone : Option String
  pub category : Option (Option TrainingCategory)
  pub max_slots : Option ℕ
  pub training_status : Option (Option ProcessStatus)
  pub link : Option String
  pub address : Option String
  pub thumbnail : Option String
  pub start_date : Option ℕ
  pub end_date : Option ℕ
  pub mentor : Option String
  pub updated_at : ℕ

abbrev pub with_catalogs : World → List TrainingCatalog → World
with_catalogs w rows = record w { db = record w.db { training_catalog = rows } }

-- `c.deleted_at IS NULL`
abbrev pub is_present : TrainingCatalog → Bool
is_present c = is_null c.deleted_at

-- `c.public_id = $1 AND c.deleted_at IS NULL`
abbrev pub has_public_id : String → TrainingCatalog → Bool
has_public_id p c = str_eq c.public_id p && is_present c

abbrev pub has_id : ℕ → TrainingCatalog → Bool
has_id i c = c.id == i

-- `endDate.Before(*startDate)`, where both are given.
abbrev pub ends_before_start : Option ℕ → Option ℕ → Bool
ends_before_start none e = false
ends_before_start (some s) none = false
ends_before_start (some s) (some e) = ltb e s

-- The CHECK constraints of the table on the columns that the program writes.
abbrev pub breaks_check : TrainingCatalog → Bool
breaks_check c =
    ends_before_start c.start_date c.end_date
    || (elim c.max_slots [ none ↦ false | some m ↦ m == 0 ])

abbrev pub or_else {ℓ} : {A : Type ℓ} → Option A → A → A
or_else none a = a
or_else (some b) a = b

-- A field that an update may replace, where the column itself may be NULL.
abbrev pub or_keep {ℓ} : {A : Type ℓ} → Option A → Option A → Option A
or_keep none a = a
or_keep (some b) a = some b

-- `applyTrainingCatalogUpdate`
unfoldable pub apply_training_catalog_update :
    TrainingCatalog → TrainingCatalogUpdate → TrainingCatalog
apply_training_catalog_update locked u = record locked {
  title = or_else u.title locked.title;
  description = or_else u.description locked.description;
  pic_phone = or_else u.pic_phone locked.pic_phone;
  category = or_else u.category locked.category;
  max_slots = or_keep u.max_slots locked.max_slots;
  training_status = or_else u.training_status locked.training_status;
  link = or_else u.link locked.link;
  address = or_else u.address locked.address;
  thumbnail = or_else u.thumbnail locked.thumbnail;
  start_date = or_keep u.start_date locked.start_date;
  end_date = or_keep u.end_date locked.end_date;
  mentor = or_else u.mentor locked.mentor;
  updated_at = u.updated_at;
}

-- INSERT INTO training_catalog ... RETURNING
unfoldable pub insert_catalog : TrainingCatalog → M TrainingCatalog
insert_catalog c w =
    let next = record w { serial = suc w.serial } in
    let row = record c { id = w.serial; registered_count = 0; deleted_at = none } in
    if breaks_check c
    then (err (pg_error "23514" "training_catalog_date_range"), next)
    else if exists (has_id w.serial) w.db.training_catalog
    then (err (pg_error "23505" "training_catalog_pkey"), next)
    else if exists (λ (x : TrainingCatalog). str_eq x.public_id c.public_id) w.db.training_catalog
    then (err (pg_error "23505" "training_catalog_public_id_key"), next)
    else (ok row, with_catalogs next (w.db.training_catalog ++ (row ∷ [])))

-- `mapTrainingCatalogInsertError`
unfoldable pub map_insert_error : Error → Error
map_insert_error (pg_error code constraint) =
    if str_eq code "23505" && contains constraint "public_id"
    then repository RepositoryError.duplicate_training_catalog_public_id
    else wrap "insert training catalog" (pg_error code constraint)
map_insert_error e = wrap "insert training catalog" e

unfoldable pub not_found : String → Error → Error
not_found s e =
    if is_no_rows e then repository RepositoryError.training_catalog_not_found else wrap s e

abbrev pub select_one : Option TrainingCatalog → Result TrainingCatalog
select_one none = err no_rows
select_one (some c) = ok c

-- The columns that UPDATE training_catalog writes: not the id, the public id, the counter or the
-- deletion mark.
abbrev pub written : TrainingCatalog → TrainingCatalog → TrainingCatalog
written merged c = record merged {
  id = c.id;
  public_id = c.public_id;
  registered_count = c.registered_count;
  created_at = c.created_at;
  deleted_at = c.deleted_at;
}

-- UPDATE training_catalog SET ... WHERE public_id = $1 AND deleted_at IS NULL RETURNING
unfoldable pub write_catalog : String → TrainingCatalog → M TrainingCatalog
write_catalog p merged w =
    if breaks_check merged
    then (err (pg_error "23514" "training_catalog_date_range"), w)
    else elim (find (has_public_id p) w.db.training_catalog) [
      | none ↦ (err no_rows, w)
      | some c ↦ (
        ok (written merged c),
        with_catalogs w (update (has_public_id p) (written merged) w.db.training_catalog),
      )
    ]

module _ (env : Env) where
  unfoldable pub create_training_catalog : TrainingCatalog → M TrainingCatalog
  create_training_catalog c = map_err map_insert_error (statement env (insert_catalog c))

  -- A lookup by public id, locked or not.
  unfoldable pub select_catalog : String → String → M TrainingCatalog
  select_catalog what p =
      map_err (not_found what)
        (statement env (λ w. (select_one (find (has_public_id p) w.db.training_catalog), w)))

  unfoldable pub find_training_catalog_by_public_id : String → M TrainingCatalog
  find_training_catalog_by_public_id p = select_catalog "find training catalog" p

  unfoldable pub updating : String → TrainingCatalogUpdate → M TrainingCatalog
  updating p u = do
    locked ← select_catalog "lock training catalog" p
    let merged = apply_training_catalog_update locked u
    if ends_before_start merged.start_date merged.end_date
        then throw (repository RepositoryError.invalid_training_catalog_date_range)
        else map_err (not_found "update training catalog") (statement env (write_catalog p merged))

  unfoldable pub update_training_catalog : String → TrainingCatalogUpdate → M TrainingCatalog
  update_training_catalog p u = transaction env (updating p u)

  unfoldable pub soft_delete_training_catalog : String → ℕ → M (Unit {0})
  soft_delete_training_catalog p at = do
    n ← wrap_err "soft delete training catalog" (
        statement env λ w. (
          ok (count (has_public_id p) w.db.training_catalog),
          with_catalogs w (
              update (has_public_id p) (λ c. record c { deleted_at = some at; updated_at = at })
                w.db.training_catalog),
        ))
    if n == 0 then throw (repository RepositoryError.training_catalog_not_found) else pure tt
