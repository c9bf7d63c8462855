-- ===== src/Businesses/Lists.antt =====
-- The lists of internal/usecase/enterprise_usecase.go: their filters, limits and cursors.
use youthpreneur_be.Base.{ℕ, ◌+◌, String, ◌==◌, str_eq, if◌then◌else◌, trim_space}
use youthpreneur_be.Errors.{UsecaseError, usecase}
use youthpreneur_be.Entity.{User}
use youthpreneur_be.Entity.Business.{JoinedEnterprise, business_sectors, intervention_needs_labels}
use youthpreneur_be.Db.{Env, M, throw, pure, ◌>>=◌, map_err, wrap_err, lift}
use youthpreneur_be.Pages.{Page, cut_page, clamp}
use youthpreneur_be.Enterprises.Listing
use youthpreneur_be.Enterprises.Listing.{
  EnterpriseFilter, PublicEnterprise, EnterpriseAuditEventView, row_id,
}
use youthpreneur_be.Businesses.{scope_owner_id, map_enterprise_repository_error}
use youthpreneur_be.Businesses.Filter.{FindEnterprisesInput, build_filter}
use youthpreneur_be.Businesses.Input.{normalize_label}

pub record FindPublicEnterprisesInput : Type 0 where
  pub search : String
  pub district : String
  pub intervention_needs : String
  pub business_sector : String
  pub cursor : ℕ
  pub limit : ℕ

pub record FindEnterpriseAuditLogsInput : Type 0 where
  pub actor : User
  pub public_id : String
  pub cursor : ℕ
  pub limit : ℕ

module _ (env : Env) where
  unfoldable pub find_enterprises : FindEnterprisesInput → M (Page JoinedEnterprise)
  find_enterprises input = do
    filter ← lift (build_filter input)
    enterprises ← wrap_err "find enterprises" (Listing.find_enterprises env filter)
    pure (cut_page row_id (clamp 20 input.limit) enterprises)

  unfoldable pub find_public_enterprises : FindPublicEnterprisesInput → M (Page PublicEnterprise)
  find_public_enterprises input = do
    sector ← lift (normalize_label business_sectors "business_sector" input.business_sector)
    needs ←
        lift
          (normalize_label intervention_needs_labels "intervention_needs" input.intervention_needs)
    let limit = clamp 9 input.limit
    items ← wrap_err "find public enterprises" (
        Listing.find_public_enterprises env (record {
          search = trim_space input.search;
          district = trim_space input.district;
          intervention_needs = needs;
          business_sector = sector;
          cursor = input.cursor;
          limit = limit + 1;
        }))
    pure (cut_page (λ (e : PublicEnterprise). e.id) limit items)

  unfoldable pub find_enterprise_audit_logs :
      FindEnterpriseAuditLogsInput → M (Page EnterpriseAuditEventView)
  find_enterprise_audit_logs input =
      let public_id = trim_space input.public_id in
      let limit = clamp 20 input.limit in
      if input.actor.id == 0
      then throw (usecase UsecaseError.forbidden)
      else if str_eq public_id ""
      then throw (usecase UsecaseError.enterprise_not_found)
      else do
        events ← map_err map_enterprise_repository_error (
            Listing.find_enterprise_audit_events env (record {
              public_id = public_id;
              owner_id = scope_owner_id input.actor;
              cursor = input.cursor;
              limit = limit + 1;
            }))
        pure (cut_page (λ (e : EnterpriseAuditEventView). e.id) limit events)
