-- ===== src/Enterprises/Outcomes.antt =====
-- What the transactions on enterprises have done when they report success.
use youthpreneur_be.Base.{
  ℕ, suc, ◌≡◌, arith, String, true, false, none, some, find, exists, inl, inr, Option-cases,
}
use youthpreneur_be.Errors.{ok, Result-cases}
use youthpreneur_be.Entity.Business.{
  Enterprise, JoinedEnterprise, EnterpriseUpdate, EnterpriseAuditEvent, AuditRow,
}
use youthpreneur_be.Db.{World, Env, statement}
use youthpreneur_be.Enterprises.{
  has_id, has_public_id, in_scope, written, deleted, joined, insert_row, insert_enterprise,
  write_enterprise, cast_columns, select_scoped, delete_row, find_scoped, insert_audit_row,
  insert_enterprise_audit_event, creating, updating, deleting,
}
use youthpreneur_be.Enterprises.Merge.{apply_enterprise_update, merged, changed_fields}
use youthpreneur_be.Enterprises.Invariant.{changed, IsStable}
use youthpreneur_be.Enterprises.Created.{created}

module _ (env : Env) where
  -- A row that the columns give back as it is.
  pub cast-stable :
      (e : Enterprise) {row : Enterprise} → IsStable env e → cast_columns env e ≡ ok row → row ≡ e
  unfolding cast_columns
  cast-stable e stable h = ground arith

  -- The event of a change, as it is stored.
  abbrev pub event_row : ℕ → ℕ → EnterpriseAuditEvent → AuditRow
  event_row serial id event = record { id = serial; event = record event { enterprise_id = id } }

  pub deleting-ok :
      (p : String) (owner at : ℕ) (event : EnterpriseAuditEvent) (w : World) {a : Unit {0}}
      → (deleting env p owner at event w).0 ≡ ok a
      → (e : Enterprise) × (find (in_scope p owner) w.db.enterprises ≡ some e)
        × ((deleting env p owner at event w).1.db
            ≡ changed (in_scope p owner) (deleted at) (event_row w.serial e.id event) w.db)
  unfolding deleting delete_row insert_enterprise_audit_event insert_audit_row statement
  deleting-ok p owner at event w success =
      elim (Option-cases (find (in_scope p owner) w.db.enterprises)) [
        | inl missing ↦ absurd (ground arith)
        | inr (e, found) ↦ (e, found, ground arith)
      ]

  pub creating-ok :
      (e : Enterprise) (event : EnterpriseAuditEvent) (w : World) {a : JoinedEnterprise}
      → (creating env e event w).0 ≡ ok a
      → IsStable env e
      → (exists (has_id w.serial) w.db.enterprises ≡ false)
        × (exists (has_public_id e.public_id) w.db.enterprises ≡ false)
        × ((creating env e event w).1.db
            ≡ created
                (record e { id = w.serial; deleted_at = none })
                (event_row (suc w.serial) w.serial event)
                w.db)
  unfolding creating insert_enterprise insert_row joined insert_enterprise_audit_event
      insert_audit_row statement
  creating-ok e event w success stable = elim (Result-cases (cast_columns env e)) [
    | inl (row, cast) ↦
        let same = cast-stable e stable cast in (ground arith, ground arith, ground arith)
    | inr (x, cast) ↦ absurd (ground arith)
  ]

  pub updating-ok :
      (p : String) (owner : ℕ) (u : EnterpriseUpdate) (event : EnterpriseAuditEvent) (w : World)
      {a : JoinedEnterprise}
      → (updating env p owner u event w).0 ≡ ok (true, a)
      → ((e : Enterprise)
          → find (in_scope p owner) w.db.enterprises ≡ some e
          → IsStable env (merged e u))
      → (e : Enterprise) × (find (in_scope p owner) w.db.enterprises ≡ some e)
        × ((updating env p owner u event w).1.db
            ≡ changed
                (in_scope p owner)
                (written (merged e u))
                (event_row w.serial e.id (record event { changed_fields = changed_fields e u }))
                w.db)
  unfolding updating find_scoped select_scoped joined write_enterprise apply_enterprise_update
      insert_enterprise_audit_event insert_audit_row statement
  updating-ok p owner u event w success stable =
      elim (Option-cases (find (in_scope p owner) w.db.enterprises)) [
        | inl missing ↦ absurd (ground arith)
        | inr (e, found) ↦ elim (Result-cases (cast_columns env (merged e u))) [
          | inl (row, cast) ↦
              let same = cast-stable (merged e u) (stable e found) cast in (e, found, ground arith)
          | inr (x, cast) ↦ absurd (ground arith)
        ]
      ]
