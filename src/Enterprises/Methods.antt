-- ===== src/Enterprises/Methods.antt =====
-- Every transaction on enterprises keeps each enterprise equal to what its audit trail says, whatever
-- fails on the way.
use youthpreneur_be.Base.{
  ℕ, suc, ◌≡◌, ◌≤◌, refl, sym, ap, ◌∙◌, find, arith, String, some, none, [], Option, count, inl,
  inr, Option-cases, List,
}
use youthpreneur_be.Base.Rows.{count-le, All-find}
use youthpreneur_be.Errors.{ok}
use youthpreneur_be.Entity.Business.{Enterprise, EnterpriseUpdate, EnterpriseAuditEvent}
use youthpreneur_be.Db.{World, Env, tock}
use youthpreneur_be.Db.Laws.{transaction-keeps_ok, transaction_if-keeps_ok}
use youthpreneur_be.Enterprises.{
  has_public_id, in_scope, written, deleted, creating, create_enterprise, updating,
  update_enterprise, deleting, soft_delete_enterprise,
}
use youthpreneur_be.Enterprises.Merge.{merged, changed_fields}
use youthpreneur_be.Enterprises.Trail.{Column, key, value, value_after}
use youthpreneur_be.Enterprises.Recorded.{changed_fields-told}
use youthpreneur_be.Enterprises.Invariant.{IsStable, IsAudited, changed-IsAudited}
use youthpreneur_be.Enterprises.Created.{created-IsAudited}
use youthpreneur_be.Enterprises.Outcomes.{creating-ok, updating-ok, deleting-ok, event_row}

-- The turnovers that an update gives are texts that the columns give back.
pub record GivesStable (env : Env) (u : EnterpriseUpdate) : Type 0 where
  pub initial : (t : String) → u.initial_turnover ≡ some t → env.decimal t ≡ ok t
  pub current : (t : String) → u.current_turnover ≡ some t → env.decimal t ≡ ok t

pub single-scope :
    (p : String) (owner : ℕ) (rows : List Enterprise)
    → count (has_public_id p) rows ≤ 1
    → count (in_scope p owner) rows ≤ 1
single-scope p owner rows h =
    ground (arith, count-le (in_scope p owner) (has_public_id p) rows (λ x e. ground arith))

-- A row with other keys, times and deletion mark.
abbrev relabelled :
    Enterprise → (i : ℕ) (p : String) (owner made at : ℕ) (mark : Option ℕ) → Enterprise
relabelled e i p owner made at mark = record e {
  id = i;
  public_id = p;
  user_id = owner;
  created_at = made;
  updated_at = at;
  deleted_at = mark;
}

-- The audited columns are none of those.
relabelled-value :
    (c : Column) (e : Enterprise) (i : ℕ) (p : String) (owner made at : ℕ) (mark : Option ℕ)
    → value c (relabelled e i p owner made at mark) ≡ value c e
relabelled-value Column.enterprise_name e i p owner made at mark = refl
relabelled-value Column.description e i p owner made at mark = refl
relabelled-value Column.address e i p owner made at mark = refl
relabelled-value Column.focus_commodity e i p owner made at mark = refl
relabelled-value Column.dispora_support e i p owner made at mark = refl
relabelled-value Column.business_sector e i p owner made at mark = refl
relabelled-value Column.legal_status e i p owner made at mark = refl
relabelled-value Column.business_digitization e i p owner made at mark = refl
relabelled-value Column.intervention_needs e i p owner made at mark = refl
relabelled-value Column.training_status e i p owner made at mark = refl
relabelled-value Column.mentoring_status e i p owner made at mark = refl
relabelled-value Column.capital_access e i p owner made at mark = refl
relabelled-value Column.partnership e i p owner made at mark = refl
relabelled-value Column.initial_turnover e i p owner made at mark = refl
relabelled-value Column.current_turnover e i p owner made at mark = refl
relabelled-value Column.district e i p owner made at mark = refl
relabelled-value Column.status e i p owner made at mark = refl

module _ (env : Env) where
  pub merged-IsStable :
      (e : Enterprise) (u : EnterpriseUpdate)
      → GivesStable env u
      → IsStable env e
      → IsStable env (merged e u)
  unfolding merged
  merged-IsStable e u gives stable = (
    elim (Option-cases u.initial_turnover) [
      | inl missing ↦ ground (arith, stable.0)
      | inr (t, given) ↦ ground (arith, gives.initial t given)
    ],
    elim (Option-cases u.current_turnover) [
      | inl missing ↦ ground (arith, stable.1)
      | inr (t, given) ↦ ground (arith, gives.current t given)
    ],
  )

  pub update-IsAudited :
      (p : String) (owner : ℕ) (u : EnterpriseUpdate) (event : EnterpriseAuditEvent) (w : World)
      → GivesStable env u
      → IsAudited env w.db
      → IsAudited env (update_enterprise env p owner u event w).1.db
  unfolding update_enterprise
  update-IsAudited p owner u event w gives v =
      transaction_if-keeps_ok env (IsAudited env) (updating env p owner u event) w v (λ a r.
        let stable = λ (e : Enterprise) (found : find (in_scope p owner) w.db.enterprises ≡ some e).
          merged-IsStable e u gives
            (All-find (IsStable env) (in_scope p owner) w.db.enterprises v.stable found) in
        let (e, found, left) = updating-ok env p owner u event (tock w) r stable in
        let m = merged e u in
        rw left (
          changed-IsAudited env (in_scope p owner) (written m) w.db v (λ i x. refl) (λ q x. refl)
            found (single-scope p owner w.db.enterprises (v.unique_public_id p))
            (event_row env w.serial e.id (record event { changed_fields = changed_fields e u }))
            refl
            (λ c.
              changed_fields-told e u c
              ∙ sym (
                  relabelled-value c m e.id e.public_id e.user_id e.created_at m.updated_at
                    e.deleted_at))
            (λ x s. stable e found)))

  pub delete-IsAudited :
      (p : String) (owner at : ℕ) (event : EnterpriseAuditEvent) (w : World)
      → event.changed_fields ≡ []
      → IsAudited env w.db
      → IsAudited env (soft_delete_enterprise env p owner at event w).1.db
  unfolding soft_delete_enterprise value_after
  delete-IsAudited p owner at event w none_changed v =
      transaction-keeps_ok env (IsAudited env) (deleting env p owner at event) w v (λ a r.
        let (e, found, left) = deleting-ok env p owner at event (tock w) r in
        let single = single-scope p owner w.db.enterprises (v.unique_public_id p) in
        rw left (
          changed-IsAudited env (in_scope p owner) (deleted at) w.db v (λ i x. refl) (λ q x. refl)
            found single (event_row env w.serial e.id event) refl
            (λ c.
              ap (λ xs. value_after (key c) xs (value c e)) none_changed
              ∙ sym (relabelled-value c e e.id e.public_id e.user_id e.created_at at (some at)))
            (λ x s. s)))

  pub create-IsAudited :
      (e : Enterprise) (event : EnterpriseAuditEvent) (w : World)
      → IsStable env e
      → ((c : Column) → value_after (key c) event.changed_fields "" ≡ value c e)
      → IsAudited env w.db
      → IsAudited env (create_enterprise env e event w).1.db
  unfolding create_enterprise
  create-IsAudited e event w stable says v =
      transaction-keeps_ok env (IsAudited env) (creating env e event) w v (λ a r.
        let (fresh_id, fresh_public_id, left) = creating-ok env e event (tock w) r stable in
        let row = record e { id = w.serial; deleted_at = none } in
        rw left (
          created-IsAudited env row (event_row env (suc w.serial) w.serial event) w.db v fresh_id
            fresh_public_id refl
            (λ c.
              says c
              ∙ sym (
                  relabelled-value c e w.serial e.public_id e.user_id e.created_at e.updated_at
                    none))
            stable))
