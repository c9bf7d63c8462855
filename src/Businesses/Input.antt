-- ===== src/Businesses/Input.antt =====
-- The validation of internal/usecase/enterprise_usecase.go: labels, texts, and the inputs of
-- CreateEnterprise and UpdateEnterprise.
use youthpreneur_be.Base.{
  ℕ, String, ◌<>◌, Bool, ◌||◌, not, Option, none, List, ltb, str_eq, if◌then◌else◌, is_null,
  trim_space,
}
use youthpreneur_be.Base.Text.{byte_length}
use youthpreneur_be.Errors.{Result, ok, err, bad_request}
use youthpreneur_be.Errors.Chain.{◌>>=◌, given}
use youthpreneur_be.Entity.{User}
use youthpreneur_be.Entity.Business.{
  Enterprise, EnterpriseUpdate, is_one_of, business_sectors, enterprise_statuses, legal_statuses,
  business_digitizations, intervention_needs_labels, process_statuses, general_statuses,
}
use youthpreneur_be.Db.{Env}
use youthpreneur_be.Businesses.Turnover.{normalize_turnover}

pub record CreateEnterpriseInput : Type 0 where
  pub actor : User
  pub enterprise_name : String
  pub description : String
  pub address : String
  pub focus_commodity : String
  pub business_sector : String
  pub legal_status : String
  pub business_digitization : String
  pub intervention_needs : String
  pub training_status : String
  pub mentoring_status : String
  pub capital_access : String
  pub partnership : String
  pub initial_turnover : String
  pub current_turnover : String
  pub district : String

pub record UpdateEnterpriseInput : Type 0 where
  pub enterprise_name : Option String
  pub description : Option String
  pub address : Option String
  pub focus_commodity : Option String
  pub dispora_support : Option String
  pub business_sector : Option String
  pub legal_status : Option String
  pub business_digitization : Option String
  pub intervention_needs : Option String
  pub training_status : Option String
  pub mentoring_status : Option String
  pub capital_access : Option String
  pub partnership : Option String
  pub initial_turnover : Option String
  pub current_turnover : Option String
  pub district : Option String
  pub status : Option String

-- `normalizeLegalStatus` and its twins: the empty text, a label, or a text that is none.
unfoldable pub normalize_label : List String → String → String → Result String
normalize_label labels field raw =
    let t = trim_space raw in
    if str_eq t ""
    then ok ""
    else if is_one_of labels t
    then ok t
    else err (bad_request ("invalid " <> field))

-- `validateBusinessSector`
unfoldable pub validate_business_sector : String → Result String
validate_business_sector t =
    if is_one_of business_sectors t then ok t else err (bad_request "invalid business_sector")

-- The sector of an update, which may not be empty.
unfoldable pub changed_sector : String → Result String
changed_sector raw = normalize_label business_sectors "business_sector" raw >>= λ sector.
    if str_eq sector "" then err (bad_request "invalid business_sector") else ok sector

-- A trimmed text of at most `n` bytes.
unfoldable pub limited : ℕ → String → String → Result String
limited n message raw =
    let t = trim_space raw in if ltb n (byte_length t) then err (bad_request message) else ok t

unfoldable pub trimmed : String → Result String
trimmed raw = ok (trim_space raw)

abbrev pub focus_commodity_of : String → Result String
focus_commodity_of = limited 255 "focus_commodity must be at most 255 characters"

abbrev pub district_of : String → Result String
district_of = limited 128 "district must be at most 128 characters"

-- `ownerRestrictedChange`
unfoldable pub owner_restricted_change : UpdateEnterpriseInput → Bool
owner_restricted_change u =
    not (is_null u.legal_status)
    || not (is_null u.business_digitization)
    || not (is_null u.intervention_needs)
    || not (is_null u.training_status)
    || not (is_null u.mentoring_status)
    || not (is_null u.capital_access)
    || not (is_null u.partnership)
    || not (is_null u.dispora_support)
    || not (is_null u.status)

module _ (env : Env) where
  unfoldable pub name_of : String → String → Result String
  name_of when_empty raw =
      let name = env.to_upper (trim_space raw) in
      if str_eq name ""
      then err (bad_request when_empty)
      else if ltb 255 (byte_length name)
      then err (bad_request "enterprise_name must be at most 255 characters")
      else ok name

  -- The validation of CreateEnterprise, in its order; the public id and the times come later.
  unfoldable pub validated_enterprise : CreateEnterpriseInput → Result Enterprise
  validated_enterprise input = do
    name ← name_of "enterprise_name is required" input.enterprise_name
    focus_commodity ← focus_commodity_of input.focus_commodity
    sector ← validate_business_sector (trim_space input.business_sector)
    legal_status ← normalize_label legal_statuses "legal_status" input.legal_status
    digitization ←
        normalize_label business_digitizations "business_digitization" input.business_digitization
    needs ← normalize_label intervention_needs_labels "intervention_needs" input.intervention_needs
    training_status ← normalize_label process_statuses "training_status" input.training_status
    mentoring_status ← normalize_label process_statuses "mentoring_status" input.mentoring_status
    capital_access ← normalize_label general_statuses "capital_access" input.capital_access
    partnership ← normalize_label general_statuses "partnership" input.partnership
    initial_turnover ← normalize_turnover "initial_turnover" input.initial_turnover
    current_turnover ← normalize_turnover "current_turnover" input.current_turnover
    district ← district_of input.district
    ok (record {
      id = 0;
      public_id = "";
      user_id = input.actor.id;
      enterprise_name = name;
      description = trim_space input.description;
      address = trim_space input.address;
      focus_commodity = focus_commodity;
      dispora_support = "";
      business_sector = sector;
      legal_status = legal_status;
      business_digitization = digitization;
      intervention_needs = needs;
      training_status = training_status;
      mentoring_status = mentoring_status;
      capital_access = capital_access;
      partnership = partnership;
      initial_turnover = initial_turnover;
      current_turnover = current_turnover;
      district = district;
      status = "active";
      created_at = 0;
      updated_at = 0;
      deleted_at = none;
    })

  -- The validation of UpdateEnterprise, in its order.
  unfoldable pub validated_update : ℕ → UpdateEnterpriseInput → Result EnterpriseUpdate
  validated_update at input = do
    name ← given (name_of "enterprise_name cannot be empty") input.enterprise_name
    description ← given trimmed input.description
    address ← given trimmed input.address
    focus_commodity ← given focus_commodity_of input.focus_commodity
    dispora_support ←
        given (limited 255 "dispora_support must be at most 255 characters") input.dispora_support
    sector ← given changed_sector input.business_sector
    legal_status ← given (normalize_label legal_statuses "legal_status") input.legal_status
    digitization ←
        given (normalize_label business_digitizations "business_digitization")
          input.business_digitization
    needs ←
        given (normalize_label intervention_needs_labels "intervention_needs")
          input.intervention_needs
    training_status ←
        given (normalize_label process_statuses "training_status") input.training_status
    mentoring_status ←
        given (normalize_label process_statuses "mentoring_status") input.mentoring_status
    capital_access ← given (normalize_label general_statuses "capital_access") input.capital_access
    partnership ← given (normalize_label general_statuses "partnership") input.partnership
    initial_turnover ← given (normalize_turnover "initial_turnover") input.initial_turnover
    current_turnover ← given (normalize_turnover "current_turnover") input.current_turnover
    district ← given district_of input.district
    status ← given (normalize_label enterprise_statuses "status") input.status
    ok (record {
      enterprise_name = name;
      description = description;
      address = address;
      focus_commodity = focus_commodity;
      dispora_support = dispora_support;
      business_sector = sector;
      legal_status = legal_status;
      business_digitization = digitization;
      intervention_needs = needs;
      training_status = training_status;
      mentoring_status = mentoring_status;
      capital_access = capital_access;
      partnership = partnership;
      initial_turnover = initial_turnover;
      current_turnover = current_turnover;
      district = district;
      status = status;
      updated_at = at;
    })
