-- ===== src/Enterprises/Scope.antt =====
-- That a mutation in the scope of an owner leaves the enterprises of other owners alone.
use youthpreneur_be.Base.{
  ℕ, ◌≡◌, refl, arith, String, true, false, ◌==◌, none, some, [], ◌∷◌, find, update, inl, inr,
}
use youthpreneur_be.Base.Rows.{find-update, find-append}
use youthpreneur_be.Errors.{Result-cases}
use youthpreneur_be.Entity.Business.{Enterprise, EnterpriseUpdate, EnterpriseAuditEvent}
use youthpreneur_be.Db.{Db, World, Env}
use youthpreneur_be.Db.Keeps.{
  Keeps, Keeps-bind, Keeps-map_err, Keeps-pure, Keeps-if, Keeps-statement, Keeps-transaction,
  Keeps-transaction_if,
}
use youthpreneur_be.Enterprises.{
  has_id, in_scope, written, deleted, select_scoped, delete_row, insert_row, insert_enterprise,
  insert_audit_row, insert_enterprise_audit_event, write_enterprise, cast_columns, find_scoped,
  creating, create_enterprise, updating, update_enterprise, deleting, soft_delete_enterprise,
  has_no_entry,
}
use youthpreneur_be.Enterprises.Merge.{apply_enterprise_update}

-- An enterprise is in the table as it was.
abbrev pub Has : ℕ → Enterprise → Db → Type 0
Has i e d = find (has_id i) d.enterprises ≡ some e

module _ (env : Env) (i : ℕ) (e : Enterprise) where
  audit-Has : (event : EnterpriseAuditEvent) → Keeps (Has i e) (insert_audit_row event)
  unfolding insert_audit_row
  audit-Has event = record { at = λ w h. ground arith }

  event-Has :
      (id : ℕ) (event : EnterpriseAuditEvent)
      → Keeps (Has i e) (insert_enterprise_audit_event env id event)
  unfolding insert_enterprise_audit_event
  event-Has id event = Keeps-map_err _ _ (Keeps-statement env _ (audit-Has _))

  select-Has : (p : String) (owner : ℕ) → Keeps (Has i e) (select_scoped p owner)
  unfolding select_scoped
  select-Has p owner = record { at = λ w h. ground arith }

  pub find-Has : (what p : String) (owner : ℕ) → Keeps (Has i e) (find_scoped env what p owner)
  unfolding find_scoped
  find-Has what p owner = Keeps-map_err _ _ (Keeps-statement env _ (select-Has p owner))

  insert-Has : (x : Enterprise) → Keeps (Has i e) (insert_row x)
  unfolding insert_row
  insert-Has x = record {
    at = λ w h.
        let row = record x { id = w.serial; deleted_at = none } in
        ground (arith, find-append (has_id i) w.db.enterprises (row ∷ []));
  }

  stored-Has : (x : Enterprise) → Keeps (Has i e) (insert_enterprise env x)
  unfolding insert_enterprise
  stored-Has x = record {
    at = λ w h. elim (Result-cases (cast_columns env x)) [
      | inl (row, cast) ↦ let k = (insert-Has row).at w h in ground arith
      | inr (failure, cast) ↦ ground arith
    ];
  }

  pub create-Has :
      (x : Enterprise) (event : EnterpriseAuditEvent)
      → Keeps (Has i e) (create_enterprise env x event)
  unfolding create_enterprise creating
  create-Has x event = Keeps-transaction env _ (
      Keeps-bind _ _ (Keeps-map_err _ _ (Keeps-statement env _ (stored-Has x)))
        (λ a. Keeps-bind _ _ (event-Has a.enterprise.id event) (λ u. Keeps-pure a)))

  module _ (p : String) (owner : ℕ) (scoped : (owner == 0) ≡ false)
      (foreign : (e.user_id == owner) ≡ false) where
    -- An UPDATE in the scope does not meet the enterprise.
    untouched-update :
        (f : Enterprise → Enterprise) (w : World)
        → Has i e w.db
        → ((x : Enterprise) → has_id i (f x) ≡ has_id i x)
        → find (has_id i) (update (in_scope p owner) f w.db.enterprises) ≡ some e
    untouched-update f w h same =
        ground (arith, find-update (in_scope p owner) f (has_id i) w.db.enterprises same)

    delete-Has : (at : ℕ) → Keeps (Has i e) (delete_row p owner at)
    unfolding delete_row
    delete-Has at = record {
      at = λ w h. ground (arith, untouched-update (deleted at) w h (λ x. refl));
    }

    write-Has : (m : Enterprise) → Keeps (Has i e) (write_enterprise env p owner m)
    unfolding write_enterprise
    write-Has m = record {
      at = λ w h. elim (Result-cases (cast_columns env m)) [
        | inl (row, cast) ↦ ground (arith, untouched-update (written row) w h (λ x. refl))
        | inr (failure, cast) ↦ ground arith
      ];
    }

    pub update-Has :
        (u : EnterpriseUpdate) (event : EnterpriseAuditEvent)
        → Keeps (Has i e) (update_enterprise env p owner u event)
    unfolding update_enterprise updating
    update-Has u event = Keeps-transaction_if env _ (
        Keeps-bind _ _ (find-Has "lock enterprise" p owner) (λ locked.
          let (m, changed) = apply_enterprise_update locked.enterprise u in
          Keeps-if (has_no_entry changed) _ _ (Keeps-pure (false, locked)) (
            Keeps-bind _ _ (Keeps-map_err _ _ (Keeps-statement env _ (write-Has m))) (λ updated.
              Keeps-bind _ _
                (event-Has updated.enterprise.id (record event { changed_fields = changed }))
                (λ a. Keeps-pure (true, updated))))))

    pub soft_delete-Has :
        (at : ℕ) (event : EnterpriseAuditEvent)
        → Keeps (Has i e) (soft_delete_enterprise env p owner at event)
    unfolding soft_delete_enterprise deleting
    soft_delete-Has at event = Keeps-transaction env _ (
        Keeps-bind _ _ (Keeps-map_err _ _ (Keeps-statement env _ (delete-Has at)))
          (λ id. event-Has id event))
