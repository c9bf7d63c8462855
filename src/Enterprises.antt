-- ===== src/Enterprises.antt =====
-- internal/repository/persistence/enterprise_postgres.go: the tables enterprises and
-- enterprise_audit_events. Every mutation writes its audit event in its transaction.
mod Columns
pub mod Merge
pub mod Trail
pub mod Recorded
pub mod Invariant
pub mod Created
pub mod Outcomes
pub mod Methods
pub mod Listing
pub mod Scope
pub mod Reserved
use youthpreneur_be.Base.{
  ℕ, suc, String, Bool, true, false, ◌&&◌, ◌||◌, not, Option, none, some, List, [], ◌∷◌, ◌++◌, ltb,
  ◌==◌, str_eq, if◌then◌else◌, is_null, find, update, exists, contains,
}
use youthpreneur_be.Base.Text.{char_length}
use youthpreneur_be.Errors.{
  Error, RepositoryError, repository, no_rows, pg_error, wrap, Result, ok, err, is_no_rows,
}
use youthpreneur_be.Entity.{User, Profile}
use youthpreneur_be.Entity.Business.{
  Enterprise, JoinedEnterprise, EnterpriseUpdate, ChangedFields, EnterpriseAuditEvent, AuditRow,
  is_one_of, business_sectors, enterprise_statuses, legal_statuses, business_digitizations,
  intervention_needs_labels, process_statuses, general_statuses,
}
use youthpreneur_be.Db.{
  World, Env, M, pure, ◌>>=◌, ◌>>◌, map_err, wrap_err, statement, transaction, transaction_if,
}
pub use Columns.{is_nullable_label}
unfoldable pub use Columns.{casts_to_enums, fits_columns, cast_columns}
use Merge.{apply_enterprise_update}

abbrev pub with_enterprises : World → List Enterprise → World
with_enterprises w rows = record w { db = record w.db { enterprises = rows } }

abbrev pub with_events : World → List AuditRow → World
with_events w rows = record w { db = record w.db { enterprise_audit_events = rows } }

abbrev pub has_id : ℕ → Enterprise → Bool
has_id i e = e.id == i

abbrev pub has_public_id : String → Enterprise → Bool
has_public_id p e = str_eq e.public_id p

-- `e.deleted_at IS NULL AND ($2::int = 0 OR e.user_id = $2)`
abbrev pub is_visible : ℕ → Enterprise → Bool
is_visible owner e = is_null e.deleted_at && (owner == 0 || e.user_id == owner)

abbrev pub in_scope : String → ℕ → Enterprise → Bool
in_scope p owner e = has_public_id p e && is_visible owner e

-- `mapEnterpriseInsertError`
unfoldable pub map_enterprise_insert_error : Error → Error
map_enterprise_insert_error (pg_error code constraint) =
    if str_eq code "23505" && contains constraint "public_id"
    then repository RepositoryError.duplicate_enterprise_public_id
    else wrap "insert enterprise" (pg_error code constraint)
map_enterprise_insert_error e = wrap "insert enterprise" e

unfoldable pub enterprise_not_found : String → Error → Error
enterprise_not_found s e =
    if is_no_rows e then repository RepositoryError.enterprise_not_found else wrap s e

abbrev pub full_name_of : Option Profile → String
full_name_of none = ""
full_name_of (some p) = p.full_name

-- JOIN users u ... LEFT JOIN user_profiles p, and `scanEnterprise`
unfoldable pub joined : List User → Enterprise → Result JoinedEnterprise
joined users e = elim (find (λ (u : User). u.id == e.user_id) users) [
  | none ↦ err no_rows
  | some u ↦ ok (record {
    enterprise = e;
    user_public_id = u.public_id;
    owner_full_name = full_name_of u.profile;
  })
]

-- The row that gets into the table: its keys and references.
unfoldable pub insert_row : Enterprise → M JoinedEnterprise
insert_row e w =
    let next = record w { serial = suc w.serial } in
    let row = record e { id = w.serial; deleted_at = none } in
    if ltb 16 (char_length e.public_id)
    then (err (pg_error "22001" ""), next)
    else if exists (has_id w.serial) w.db.enterprises
    then (err (pg_error "23505" "enterprises_pkey"), next)
    else if exists (has_public_id e.public_id) w.db.enterprises
    then (err (pg_error "23505" "enterprises_public_id_key"), next)
    else if not (exists (λ (u : User). u.id == e.user_id) w.db.users)
    then (err (pg_error "23503" "enterprises_user_id_fkey"), next)
    else (joined w.db.users row, with_enterprises next (w.db.enterprises ++ (row ∷ [])))

-- What UPDATE enterprises writes: not the keys, the owner, the creation time and the deletion mark.
abbrev pub written : Enterprise → Enterprise → Enterprise
written m e = record m {
  id = e.id;
  public_id = e.public_id;
  user_id = e.user_id;
  created_at = e.created_at;
  deleted_at = e.deleted_at;
}

abbrev pub deleted : ℕ → Enterprise → Enterprise
deleted at e = record e { deleted_at = some at; updated_at = at }

-- SELECT ... WHERE e.public_id = $1 AND e.deleted_at IS NULL AND ..., locked or not
unfoldable pub select_scoped : String → ℕ → M JoinedEnterprise
select_scoped p owner w = elim (find (in_scope p owner) w.db.enterprises) [
  | none ↦ (err no_rows, w)
  | some e ↦ (joined w.db.users e, w)
]

unfoldable pub delete_row : String → ℕ → ℕ → M ℕ
delete_row p owner at w = elim (find (in_scope p owner) w.db.enterprises) [
  | none ↦ (err no_rows, w)
  | some e ↦ (ok e.id, with_enterprises w (update (in_scope p owner) (deleted at) w.db.enterprises))
]

-- INSERT INTO enterprise_audit_events, with its references
unfoldable pub insert_audit_row : EnterpriseAuditEvent → M (Unit {0})
insert_audit_row event w =
    let next = record w { serial = suc w.serial } in
    if exists (λ (r : AuditRow). r.id == w.serial) w.db.enterprise_audit_events
    then (err (pg_error "23505" "enterprise_audit_events_pkey"), next)
    else if not (exists (has_id event.enterprise_id) w.db.enterprises)
    then (err (pg_error "23503" "enterprise_audit_events_enterprise_id_fkey"), next)
    else if not (exists (λ (u : User). u.id == event.actor_user_id) w.db.users)
    then (err (pg_error "23503" "enterprise_audit_events_actor_user_id_fkey"), next)
    else (
      ok tt,
      with_events next
          (w.db.enterprise_audit_events ++ (record { id = w.serial; event = event } ∷ [])),
    )

abbrev pub has_no_entry : ChangedFields → Bool
has_no_entry [] = true
has_no_entry (x ∷ xs) = false

module _ (env : Env) where
  unfoldable pub insert_enterprise : Enterprise → M JoinedEnterprise
  insert_enterprise e w = elim (cast_columns env e) [
    | err x ↦ (err x, w)
    | ok row ↦ insert_row row w
  ]

  unfoldable pub write_enterprise : String → ℕ → Enterprise → M JoinedEnterprise
  write_enterprise p owner m w = elim (cast_columns env m) [
    | err x ↦ (err x, w)
    | ok row ↦ elim (find (in_scope p owner) w.db.enterprises) [
      | none ↦ (err no_rows, w)
      | some e ↦ (
        joined w.db.users (written row e),
        with_enterprises w (update (in_scope p owner) (written row) w.db.enterprises),
      )
    ]
  ]

  -- `insertEnterpriseAuditEvent`
  unfoldable pub insert_enterprise_audit_event : ℕ → EnterpriseAuditEvent → M (Unit {0})
  insert_enterprise_audit_event id event =
      wrap_err "insert enterprise audit event"
        (statement env (insert_audit_row (record event { enterprise_id = id })))

  unfoldable pub creating : Enterprise → EnterpriseAuditEvent → M JoinedEnterprise
  creating e event = do
    created ← map_err map_enterprise_insert_error (statement env (insert_enterprise e))
    insert_enterprise_audit_event created.enterprise.id event
    pure created

  unfoldable pub create_enterprise : Enterprise → EnterpriseAuditEvent → M JoinedEnterprise
  create_enterprise e event = transaction env (creating e event)

  unfoldable pub find_scoped : String → String → ℕ → M JoinedEnterprise
  find_scoped what p owner =
      map_err (enterprise_not_found what) (statement env (select_scoped p owner))

  unfoldable pub find_enterprise_by_public_id : String → ℕ → M JoinedEnterprise
  find_enterprise_by_public_id p owner = find_scoped "find enterprise" p owner

  unfoldable pub updating :
      String → ℕ → EnterpriseUpdate → EnterpriseAuditEvent → M (Bool × JoinedEnterprise)
  updating p owner u event = do
    locked ← find_scoped "lock enterprise" p owner
    let (m, changed) = apply_enterprise_update locked.enterprise u
    if has_no_entry changed then pure (false, locked) else do
      updated ←
          map_err (enterprise_not_found "update enterprise")
            (statement env (write_enterprise p owner m))
      insert_enterprise_audit_event updated.enterprise.id
          (record event { changed_fields = changed })
      pure (true, updated)

  -- Without a changed field the transaction is rolled back and the locked row returned.
  unfoldable pub update_enterprise :
      String → ℕ → EnterpriseUpdate → EnterpriseAuditEvent → M JoinedEnterprise
  update_enterprise p owner u event = transaction_if env (updating p owner u event)

  unfoldable pub deleting : String → ℕ → ℕ → EnterpriseAuditEvent → M (Unit {0})
  deleting p owner at event = do
    id ←
        map_err (enterprise_not_found "soft delete enterprise")
          (statement env (delete_row p owner at))
    insert_enterprise_audit_event id event

  unfoldable pub soft_delete_enterprise : String → ℕ → ℕ → EnterpriseAuditEvent → M (Unit {0})
  soft_delete_enterprise p owner at event = transaction env (deleting p owner at event)
