-- ===== src/Businesses.antt =====
-- internal/usecase/enterprise_usecase.go: owned enterprises and their audit events, over the
-- enterprise repository.
pub mod Turnover
pub mod Amounts
pub mod Normalized
pub mod Input
pub mod Checked
pub mod Admitted
pub mod Audited
pub mod Filter
pub mod Filtered
pub mod Lists
pub mod Listed
pub mod Blank
pub mod Reading
pub mod Scope
pub mod Assessed
mod Examples
mod ListExamples
use youthpreneur_be.Base.{
  ℕ, zero, suc, String, Bool, true, false, ◌&&◌, not, List, [], ◌∷◌, some, ◌==◌, if◌then◌else◌,
}
use youthpreneur_be.Errors.{Error, RepositoryError, UsecaseError, usecase, wrap, ok, err, sentinel}
use youthpreneur_be.Entity.{User, is_admin}
use youthpreneur_be.Entity.Business.{
  Enterprise, JoinedEnterprise, ChangedFields, EnterpriseAuditEvent, AuditAction,
  nullable_audit_value,
}
use youthpreneur_be.Db.{Env, M, pure, throw, ◌>>=◌, map_err, wrap_err, attempt, lift, now, unix}
use youthpreneur_be.Accounts.{generate_public_id, public_id_attempts}
use youthpreneur_be.Enterprises
use Input.{
  CreateEnterpriseInput, UpdateEnterpriseInput, owner_restricted_change, validated_enterprise,
  validated_update,
}

abbrev pub is_duplicate_public_id : Error → Bool
is_duplicate_public_id =
    sentinel (λ r. elim r [ RepositoryError.duplicate_enterprise_public_id ↦ true | _ ↦ false ])

abbrev pub is_enterprise_not_found : Error → Bool
is_enterprise_not_found =
    sentinel (λ r. elim r [ RepositoryError.enterprise_not_found ↦ true | _ ↦ false ])

-- `mapEnterpriseRepositoryError`
unfoldable pub map_enterprise_repository_error : Error → Error
map_enterprise_repository_error e =
    if is_enterprise_not_found e then usecase UsecaseError.enterprise_not_found else e

-- `scopeOwnerID`
unfoldable pub scope_owner_id : User → ℕ
scope_owner_id actor = if is_admin actor.role then 0 else actor.id

-- The `ChangedFields` of a creation.
unfoldable pub creation_fields : Enterprise → ChangedFields
creation_fields e =
    ("enterprise_name", some e.enterprise_name)
    ∷ ("description", nullable_audit_value e.description)
    ∷ ("address", nullable_audit_value e.address)
    ∷ ("focus_commodity", nullable_audit_value e.focus_commodity)
    ∷ ("business_sector", some e.business_sector)
    ∷ ("legal_status", nullable_audit_value e.legal_status)
    ∷ ("business_digitization", nullable_audit_value e.business_digitization)
    ∷ ("intervention_needs", nullable_audit_value e.intervention_needs)
    ∷ ("training_status", nullable_audit_value e.training_status)
    ∷ ("mentoring_status", nullable_audit_value e.mentoring_status)
    ∷ ("capital_access", nullable_audit_value e.capital_access)
    ∷ ("partnership", nullable_audit_value e.partnership)
    ∷ ("initial_turnover", some e.initial_turnover)
    ∷ ("current_turnover", some e.current_turnover)
    ∷ ("district", nullable_audit_value e.district)
    ∷ ("status", some e.status)
    ∷ []

abbrev pub event_of : User → AuditAction → ChangedFields → ℕ → EnterpriseAuditEvent
event_of actor action fields at = record {
  enterprise_id = 0;
  actor_user_id = actor.id;
  action = action;
  changed_fields = fields;
  created_at = at;
}

module _ (env : Env) where
  -- The attempts of CreateEnterprise, each with a new public id.
  unfoldable pub create_attempts : ℕ → User → Enterprise → M JoinedEnterprise
  create_attempts zero actor e = throw (usecase UsecaseError.public_id_generation)
  create_attempts (suc k) actor e =
      let again = create_attempts k actor e in
      do
        public_id ← wrap_err "generate enterprise public id" (generate_public_id env "TPN-")
        r ← attempt (
            Enterprises.create_enterprise env (record e { public_id = public_id })
              (event_of actor AuditAction.create (creation_fields e) e.created_at))
        elim r [
          | ok created ↦ pure created
          | err x ↦ if is_duplicate_public_id x then again else throw (wrap "create enterprise" x)
        ]

  unfoldable pub create_enterprise : CreateEnterpriseInput → M JoinedEnterprise
  create_enterprise input =
      if input.actor.id == 0 then throw (usecase UsecaseError.forbidden) else do
        e ← lift (validated_enterprise env input)
        t ← now env
        create_attempts public_id_attempts input.actor
            (record e { created_at = unix t; updated_at = unix t })

  unfoldable pub get_enterprise : User → String → M JoinedEnterprise
  get_enterprise actor p =
      map_err map_enterprise_repository_error
        (Enterprises.find_enterprise_by_public_id env p (scope_owner_id actor))

  unfoldable pub update_enterprise : User → String → UpdateEnterpriseInput → M JoinedEnterprise
  update_enterprise actor p input =
      if not (is_admin actor.role) && owner_restricted_change input
      then throw (usecase UsecaseError.forbidden)
      else do
        t ← now env
        u ← lift (validated_update env (unix t) input)
        map_err map_enterprise_repository_error (
            Enterprises.update_enterprise env p (scope_owner_id actor) u
              (event_of actor AuditAction.update [] (unix t)))

  unfoldable pub delete_enterprise : User → String → M (Unit {0})
  delete_enterprise actor p = do
    existing ←
        map_err map_enterprise_repository_error
          (Enterprises.find_enterprise_by_public_id env p (scope_owner_id actor))
    t ← now env
    map_err map_enterprise_repository_error (
        Enterprises.soft_delete_enterprise env p (scope_owner_id actor) (unix t)
          (record (event_of actor AuditAction.delete [] (unix t)) {
            enterprise_id = existing.enterprise.id;
          }))
