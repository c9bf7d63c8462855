-- ===== src/Businesses/Filter.antt =====
-- `buildFilter` of internal/usecase/enterprise_usecase.go, with the input of its list.
use youthpreneur_be.Base.{ℕ, ◌+◌, String, trim_space}
use youthpreneur_be.Errors.{Result, ok}
use youthpreneur_be.Errors.Chain.{◌>>=◌}
use youthpreneur_be.Entity.{User}
use youthpreneur_be.Entity.Business.{
  business_sectors, enterprise_statuses, legal_statuses, business_digitizations,
  intervention_needs_labels, process_statuses, general_statuses,
}
use youthpreneur_be.Pages.{clamp}
use youthpreneur_be.Enterprises.Listing.{EnterpriseFilter}
use youthpreneur_be.Businesses.{scope_owner_id}
use youthpreneur_be.Businesses.Input.{normalize_label}

pub record FindEnterprisesInput : Type 0 where
  pub actor : User
  pub search : String
  pub district : String
  pub status : String
  pub business_sector : String
  pub legal_status : String
  pub business_digitization : String
  pub intervention_needs : String
  pub training_status : String
  pub mentoring_status : String
  pub capital_access : String
  pub partnership : String
  pub cursor : ℕ
  pub limit : ℕ

-- `buildFilter`
unfoldable pub build_filter : FindEnterprisesInput → Result EnterpriseFilter
build_filter input = do
  status ← normalize_label enterprise_statuses "status" input.status
  sector ← normalize_label business_sectors "business_sector" input.business_sector
  legal_status ← normalize_label legal_statuses "legal_status" input.legal_status
  digitization ←
      normalize_label business_digitizations "business_digitization" input.business_digitization
  needs ← normalize_label intervention_needs_labels "intervention_needs" input.intervention_needs
  training_status ← normalize_label process_statuses "training_status" input.training_status
  mentoring_status ← normalize_label process_statuses "mentoring_status" input.mentoring_status
  capital_access ← normalize_label general_statuses "capital_access" input.capital_access
  partnership ← normalize_label general_statuses "partnership" input.partnership
  ok (record {
    search = trim_space input.search;
    district = trim_space input.district;
    status = status;
    business_sector = sector;
    legal_status = legal_status;
    business_digitization = digitization;
    intervention_needs = needs;
    training_status = training_status;
    mentoring_status = mentoring_status;
    capital_access = capital_access;
    partnership = partnership;
    owner_id = scope_owner_id input.actor;
    cursor = input.cursor;
    limit = clamp 20 input.limit + 1;
  })
