-- ===== src/Businesses/Blank.antt =====
-- An update that gives a blank status, which the validation lets through and the column does not.
use youthpreneur_be.Base.{
  ℕ, ◌≡◌, refl, ap, arith, suc, [], ◌∷◌, ◌++◌, ◌==◌, if◌then◌else◌, String, Bool, true, false, ◌&&◌,
  Option, none, some, str_eq, find, trim_space,
}
use youthpreneur_be.Errors.{Result, pg_error, wrap, ok, err}
use youthpreneur_be.Errors.Chain.{given, ◌>>=◌}
use youthpreneur_be.Entity.{User, is_admin}
use youthpreneur_be.Entity.Business.{
  Enterprise, EnterpriseUpdate, EnterpriseAuditEvent, AuditAction, enterprise_statuses,
}
use youthpreneur_be.Db.{World, Env, statement, transaction_if, settle_if, settle, tock, unix}
use youthpreneur_be.Enterprises.{in_scope, joined, has_no_entry, casts_to_enums}
use youthpreneur_be.Enterprises.Merge.{
  changed_field, changed_fields, merged, apply_enterprise_update,
}
use youthpreneur_be.Enterprises
use youthpreneur_be.Businesses.{
  update_enterprise, scope_owner_id, event_of, map_enterprise_repository_error,
}
use youthpreneur_be.Businesses.Input.{UpdateEnterpriseInput, normalize_label, validated_update}

-- A change that gives a status and no other field.
abbrev pub status_alone : String → UpdateEnterpriseInput
status_alone s = record {
  enterprise_name = none;
  description = none;
  address = none;
  focus_commodity = none;
  dispora_support = none;
  business_sector = none;
  legal_status = none;
  business_digitization = none;
  intervention_needs = none;
  training_status = none;
  mentoring_status = none;
  capital_access = none;
  partnership = none;
  initial_turnover = none;
  current_turnover = none;
  district = none;
  status = some s;
}

abbrev blank_update : ℕ → EnterpriseUpdate
blank_update at = record {
  enterprise_name = none;
  description = none;
  address = none;
  focus_commodity = none;
  dispora_support = none;
  business_sector = none;
  legal_status = none;
  business_digitization = none;
  intervention_needs = none;
  training_status = none;
  mentoring_status = none;
  capital_access = none;
  partnership = none;
  initial_turnover = none;
  current_turnover = none;
  district = none;
  status = some "";
  updated_at = at;
}

validated-blank :
    (env : Env) (at : ℕ) (raw : String)
    → str_eq (trim_space raw) "" ≡ true
    → validated_update env at (status_alone raw) ≡ ok (blank_update at)
unfolding validated_update given normalize_label
validated-blank env at raw blank =
    let label : normalize_label enterprise_statuses "status" raw ≡ ok "" = ground arith in
    ap
      (λ (r : Result String). (r >>= λ (b : String). ok (some b)) >>= λ (s : Option String).
        ok (record (blank_update at) { status = s }))
      label

and_false : (b : Bool) → (b && false) ≡ false
and_false true = refl
and_false false = refl

not-casts : (e : Enterprise) (at : ℕ) → casts_to_enums (merged e (blank_update at)) ≡ false
unfolding casts_to_enums merged
not-casts e at = and_false _

changes :
    (e : Enterprise) (at : ℕ)
    → str_eq "" e.status ≡ false
    → has_no_entry (changed_fields e (blank_update at)) ≡ false
unfolding changed_fields changed_field
changes e at filled =
    ap (λ (b : Bool). has_no_entry ((if b then [] else ("status", some "") ∷ []) ++ [])) filled

module _ (env : Env) (works : (k : ℕ) → env.fails k ≡ false) where
  stored-fails :
      (p : String) (owner at : ℕ) (event : EnterpriseAuditEvent) (w : World) {e : Enterprise}
      {owner_row : User}
      → find (in_scope p owner) w.db.enterprises ≡ some e
      → find (λ (u : User). u.id == e.user_id) w.db.users ≡ some owner_row
      → str_eq "" e.status ≡ false
      → (Enterprises.update_enterprise env p owner (blank_update at) event w).0
        ≡ err (wrap "update enterprise" (pg_error "22P02" ""))
  unfolding Enterprises.update_enterprise Enterprises.updating Enterprises.find_scoped
      Enterprises.select_scoped Enterprises.write_enterprise Enterprises.cast_columns
      Enterprises.enterprise_not_found joined apply_enterprise_update transaction_if settle_if
      settle statement
  stored-fails p owner at event w {e} found known filled = ground (
    arith,
    works w.ticks,
    works (suc w.ticks),
    works (suc (suc w.ticks)),
    not-casts e at,
    changes e at filled,
  )

  -- With nothing failing, an UpdateEnterprise of an admin that gives a blank status and no other
  -- field, for an enterprise in the tables that has a status and an owner, reports the column's
  -- error of the database in place of a bad request.
  pub update_enterprise-blank :
      (actor : User) (p raw : String) (w : World) {e : Enterprise} {owner_row : User}
      → is_admin actor.role ≡ true
      → str_eq (trim_space raw) "" ≡ true
      → find (in_scope p (scope_owner_id actor)) w.db.enterprises ≡ some e
      → find (λ (u : User). u.id == e.user_id) w.db.users ≡ some owner_row
      → str_eq "" e.status ≡ false
      → (update_enterprise env actor p (status_alone raw) w).0
        ≡ err (wrap "update enterprise" (pg_error "22P02" ""))
  unfolding update_enterprise map_enterprise_repository_error
  update_enterprise-blank actor p raw w admin blank found known filled =
      let t = unix (env.clock w.ticks) in
      ground (
        arith,
        validated-blank env t raw blank,
        stored-fails p (scope_owner_id actor) t (event_of actor AuditAction.update [] t) (tock w)
            found known filled,
      )
