-- ===== src/Enrollments.antt =====
-- internal/repository/persistence/training_enrollment_postgres.go: the table training_enrollments and
-- the counter registered_count of training_catalog, changed in transactions that lock their rows.
pub mod Invariant
pub mod Listing
pub mod Changes
pub mod Methods
pub mod Outcomes
pub mod Capacity
pub mod CatalogCalls
pub mod Examples
use youthpreneur_be.Base.{
  ℕ, suc, ◌+◌, ◌-◌, String, Bool, true, false, ◌&&◌, ◌||◌, not, Option, none, some, List, [], ◌∷◌,
  ◌++◌, ltb, leb, ◌==◌, str_eq, if◌then◌else◌, is_null, find, update, exists, count, contains,
}
use youthpreneur_be.Errors.{
  Error, RepositoryError, repository, no_rows, pg_error, wrap, Result, ok, err, is_no_rows,
}
use youthpreneur_be.Entity.{
  User, Profile, TrainingCatalog, TrainingEnrollment, JoinedEnrollment, EnrollmentStatus, pending,
  is_accepted, is_open_for_enrollment,
}
use youthpreneur_be.Db.{
  Db, World, Env, M, pure, throw, ◌>>=◌, ◌>>◌, map_err, wrap_err, statement, transaction,
}
use youthpreneur_be.Catalogs.{with_catalogs, has_id, not_found, select_catalog}

abbrev pub with_enrollments : World → List TrainingEnrollment → World
with_enrollments w rows = record w { db = record w.db { training_enrollments = rows } }

abbrev pub is_rejected : EnrollmentStatus → Bool
is_rejected EnrollmentStatus.rejected = true
is_rejected _ = false

abbrev pub is_cancelled : EnrollmentStatus → Bool
is_cancelled EnrollmentStatus.cancelled = true
is_cancelled _ = false

-- `deleted_at IS NULL`
abbrev pub is_present : TrainingEnrollment → Bool
is_present e = is_null e.deleted_at

abbrev pub has_public_id : String → TrainingEnrollment → Bool
has_public_id p e = str_eq e.public_id p

-- `public_id = $1 AND deleted_at IS NULL`
abbrev pub is_current : String → TrainingEnrollment → Bool
is_current p e = has_public_id p e && is_present e

-- `training_catalog_id = $1 AND user_id = $2 AND deleted_at IS NULL`
abbrev pub is_active_of : ℕ → ℕ → TrainingEnrollment → Bool
is_active_of c u e = e.training_catalog_id == c && e.user_id == u && is_present e

-- What CreateTrainingEnrollment counts against the capacity.
abbrev pub takes_slot : ℕ → TrainingEnrollment → Bool
takes_slot c e =
    e.training_catalog_id == c
    && is_present e
    && not (is_rejected e.status)
    && not (is_cancelled e.status)

-- The fields of the Go value that CreateTrainingEnrollment reads; no status is the empty one.
pub record NewEnrollment : Type 0 where
  pub public_id : String
  pub user_id : ℕ
  pub register_date : Option ℕ
  pub status : Option EnrollmentStatus
  pub created_at : ℕ
  pub updated_at : ℕ
  pub catalog_public_id : String

abbrev pub status_or_pending : Option EnrollmentStatus → EnrollmentStatus
status_or_pending none = pending
status_or_pending (some s) = s

abbrev pub enrollment_row : ℕ → ℕ → NewEnrollment → TrainingEnrollment
enrollment_row id catalog_id n = record {
  id = id;
  public_id = n.public_id;
  user_id = n.user_id;
  training_catalog_id = catalog_id;
  register_date = n.register_date;
  status = status_or_pending n.status;
  created_at = n.created_at;
  updated_at = n.updated_at;
  deleted_at = none;
}

-- INSERT INTO training_enrollments ... RETURNING id, with its unique indexes and references.
unfoldable pub insert_enrollment : ℕ → NewEnrollment → M ℕ
insert_enrollment catalog_id n w =
    let next = record w { serial = suc w.serial } in
    let rows = w.db.training_enrollments in
    if exists (λ (e : TrainingEnrollment). e.id == w.serial) rows
    then (err (pg_error "23505" "training_enrollments_pkey"), next)
    else if exists (has_public_id n.public_id) rows
    then (err (pg_error "23505" "training_enrollments_public_id_key"), next)
    else if exists (is_active_of catalog_id n.user_id) rows
    then (err (pg_error "23505" "training_enrollments_active_unique"), next)
    else if not (exists (λ (u : User). u.id == n.user_id) w.db.users)
    then (err (pg_error "23503" "training_enrollments_user_id_fkey"), next)
    else if not (exists (has_id catalog_id) w.db.training_catalog)
    then (err (pg_error "23503" "training_enrollments_training_catalog_id_fkey"), next)
    else (ok w.serial, with_enrollments next (rows ++ (enrollment_row w.serial catalog_id n ∷ [])))

-- `mapTrainingEnrollmentInsertError`
unfoldable pub map_insert_error : Error → Error
map_insert_error (pg_error code constraint) =
    if str_eq code "23505" && contains constraint "active_unique"
    then repository RepositoryError.duplicate_training_enrollment
    else if str_eq code "23505" && contains constraint "public_id"
    then repository RepositoryError.duplicate_training_enrollment_public_id
    else wrap "insert training enrollment" (pg_error code constraint)
map_insert_error e = wrap "insert training enrollment" e

abbrev name_of : Option Profile → String
name_of none = ""
name_of (some p) = p.full_name

-- The joined row of an enrollment: its catalog and its user have to be there.
unfoldable pub join : Db → TrainingEnrollment → Result JoinedEnrollment
join d e = elim (find (has_id e.training_catalog_id) d.training_catalog) [
  | none ↦ err no_rows
  | some c ↦ elim (find (λ (u : User). u.id == e.user_id) d.users) [
    | none ↦ err no_rows
    | some u ↦ ok (record {
      enrollment = e;
      user_public_id = u.public_id;
      full_name = name_of u.profile;
      catalog = c;
    })
  ]
]

-- SELECT ... JOIN ... WHERE ...: the first joined row.
unfoldable pub select_joined : (TrainingEnrollment → Bool) → M JoinedEnrollment
select_joined p w = elim (find p w.db.training_enrollments) [
  | none ↦ (err no_rows, w)
  | some e ↦ (join w.db e, w)
]

-- SELECT ... FROM training_enrollments e JOIN training_catalog c ... WHERE ... FOR UPDATE OF c, e
unfoldable pub lock_with_catalog : String → M (TrainingEnrollment × TrainingCatalog)
lock_with_catalog p w = elim (find (is_current p) w.db.training_enrollments) [
  | none ↦ (err no_rows, w)
  | some e ↦ elim (find (has_id e.training_catalog_id) w.db.training_catalog) [
    | none ↦ (err no_rows, w)
    | some c ↦ (ok (e, c), w)
  ]
]

unfoldable pub enrollment_not_found : String → Error → Error
enrollment_not_found s e =
    if is_no_rows e then repository RepositoryError.training_enrollment_not_found else wrap s e

-- `if condition { return err }`
abbrev pub reject_if : Bool → RepositoryError → M (Unit {0})
reject_if b e = if b then throw (repository e) else pure tt

-- UPDATE training_catalog SET registered_count = ..., updated_at = $2 WHERE id = $1
abbrev pub set_count : ℕ → ℕ → TrainingCatalog → TrainingCatalog
set_count n at c = record c { registered_count = n; updated_at = at }

-- `currentRegisteredCount >= *maxSlots`
abbrev pub is_full : TrainingCatalog → Bool
is_full c = elim c.max_slots [ none ↦ false | some m ↦ leb m c.registered_count ]

abbrev pub change_count : ℕ → (ℕ → ℕ) → ℕ → M (Unit {0})
change_count id f at w = (
  ok tt,
  with_catalogs w
      (update (has_id id) (λ c. set_count (f c.registered_count) at c) w.db.training_catalog),
)

-- The SET clause of UpdateTrainingEnrollmentStatus.
abbrev pub set_status : EnrollmentStatus → ℕ → TrainingEnrollment → TrainingEnrollment
set_status s at e = record e {
  status = s;
  updated_at = at;
  deleted_at = (if is_cancelled s && is_null e.deleted_at then some at else e.deleted_at);
}

abbrev pub update_enrollments :
    (TrainingEnrollment → Bool) → (TrainingEnrollment → TrainingEnrollment) → M ℕ
update_enrollments p f w =
    let rows = w.db.training_enrollments in
    (ok (count p rows), with_enrollments w (update p f rows))

-- The SET clause of CancelTrainingEnrollment.
abbrev pub cancel : ℕ → TrainingEnrollment → TrainingEnrollment
cancel at e = record e {
  status = EnrollmentStatus.cancelled;
  deleted_at = some at;
  updated_at = at;
}

module _ (env : Env) where
  -- The capacity test of CreateTrainingEnrollment.
  unfoldable pub check_capacity : TrainingCatalog → M (Unit {0})
  check_capacity c = elim c.max_slots [
    | none ↦ pure tt
    | some m ↦ do
      active ←
          wrap_err "count active enrollments"
            (statement env (λ w. (ok (count (takes_slot c.id) w.db.training_enrollments), w)))
      reject_if (leb m active) RepositoryError.training_catalog_full
  ]

  unfoldable pub creating : NewEnrollment → M JoinedEnrollment
  creating n = do
    catalog ← select_catalog env "lock training catalog" n.catalog_public_id
    reject_if (not (is_open_for_enrollment catalog)) RepositoryError.training_catalog_closed
    existing ← wrap_err "check active enrollment" (
        statement env
          λ w. (ok (exists (is_active_of catalog.id n.user_id) w.db.training_enrollments), w))
    reject_if existing RepositoryError.duplicate_training_enrollment
    check_capacity catalog
    id ← map_err map_insert_error (statement env (insert_enrollment catalog.id n))
    wrap_err "find created enrollment" (statement env (select_joined (λ e. e.id == id)))

  unfoldable pub create_training_enrollment : NewEnrollment → M JoinedEnrollment
  create_training_enrollment n = transaction env (creating n)

  -- The change of the counter that goes with a change of status.
  unfoldable pub move_count :
      EnrollmentStatus → TrainingEnrollment → TrainingCatalog → ℕ → M (Unit {0})
  move_count s old c at =
      let entering = is_accepted s && not (is_accepted old.status) in
      let leaving = not (is_accepted s) && is_accepted old.status in
      if entering
      then (reject_if (is_full c) RepositoryError.training_catalog_full
          >> wrap_err "increment registered_count"
              (statement env (change_count c.id (λ n. n + 1) at)))
      else if leaving
      then wrap_err "decrement registered_count" (statement env (change_count c.id (λ n. n - 1) at))
      else pure tt

  unfoldable pub updating : String → EnrollmentStatus → ℕ → M JoinedEnrollment
  updating p s at = do
    (old, catalog) ←
        map_err (enrollment_not_found "lock enrollment and catalog")
          (statement env (lock_with_catalog p))
    move_count s old catalog at
    n ←
        wrap_err "update training enrollment status"
          (statement env (update_enrollments (is_current p) (set_status s at)))
    reject_if (n == 0) RepositoryError.training_enrollment_not_found
    wrap_err "find updated enrollment" (statement env (select_joined (λ e. e.id == old.id)))

  unfoldable pub update_training_enrollment_status :
      String → EnrollmentStatus → ℕ → M JoinedEnrollment
  update_training_enrollment_status p s at = transaction env (updating p s at)

  -- The row that CancelTrainingEnrollment locks: scope zero is every user.
  abbrev pub in_scope : String → ℕ → TrainingEnrollment → Bool
  in_scope p scope e = is_current p e && (scope == 0 || e.user_id == scope)

  unfoldable pub cancelling : String → ℕ → ℕ → M (Unit {0})
  cancelling p scope at = do
    old ← map_err (enrollment_not_found "lock training enrollment for cancel") (
        statement env λ w. (
          elim (find (in_scope p scope) w.db.training_enrollments) [
            | none ↦ err no_rows
            | some e ↦ ok e
          ],
          w,
        ))
    wrap_err "cancel training enrollment"
        (statement env (update_enrollments (has_public_id p) (cancel at)))
    if is_accepted old.status
        then wrap_err "decrement registered_count on cancel"
            (statement env (change_count old.training_catalog_id (λ n. n - 1) at))
        else pure tt

  unfoldable pub cancel_training_enrollment : String → ℕ → ℕ → M (Unit {0})
  cancel_training_enrollment p scope at = transaction env (cancelling p scope at)
