-- ===== src/Businesses/Checked.antt =====
-- What the validation of enterprises has checked when it passes: each field comes from its check.
use youthpreneur_be.Base.{ℕ, ◌≡◌, refl, trim_space}
use youthpreneur_be.Errors.{ok}
use youthpreneur_be.Errors.Chain.{given, Yields, Yields-ok, Yields-bind}
use youthpreneur_be.Entity.Business.{
  Enterprise, EnterpriseUpdate, enterprise_statuses, legal_statuses, business_digitizations,
  intervention_needs_labels, process_statuses, general_statuses,
}
use youthpreneur_be.Db.{Env}
use youthpreneur_be.Businesses.Turnover.{normalize_turnover}
use youthpreneur_be.Businesses.Input.{
  CreateEnterpriseInput, UpdateEnterpriseInput, name_of, trimmed, focus_commodity_of, district_of,
  limited, changed_sector, validate_business_sector, normalize_label, validated_enterprise,
  validated_update,
}

pub record IsChecked (env : Env) (input : UpdateEnterpriseInput) (u : EnterpriseUpdate)
    : Type 0 where
  pub enterprise_name :
      given (name_of env "enterprise_name cannot be empty") input.enterprise_name
      ≡ ok u.enterprise_name
  pub description : given trimmed input.description ≡ ok u.description
  pub address : given trimmed input.address ≡ ok u.address
  pub focus_commodity : given focus_commodity_of input.focus_commodity ≡ ok u.focus_commodity
  pub dispora_support :
      given (limited 255 "dispora_support must be at most 255 characters") input.dispora_support
      ≡ ok u.dispora_support
  pub business_sector : given changed_sector input.business_sector ≡ ok u.business_sector
  pub legal_status :
      given (normalize_label legal_statuses "legal_status") input.legal_status ≡ ok u.legal_status
  pub business_digitization :
      given
        (normalize_label business_digitizations "business_digitization")
        input.business_digitization
      ≡ ok u.business_digitization
  pub intervention_needs :
      given
        (normalize_label intervention_needs_labels "intervention_needs")
        input.intervention_needs
      ≡ ok u.intervention_needs
  pub training_status :
      given (normalize_label process_statuses "training_status") input.training_status
      ≡ ok u.training_status
  pub mentoring_status :
      given (normalize_label process_statuses "mentoring_status") input.mentoring_status
      ≡ ok u.mentoring_status
  pub capital_access :
      given (normalize_label general_statuses "capital_access") input.capital_access
      ≡ ok u.capital_access
  pub partnership :
      given (normalize_label general_statuses "partnership") input.partnership ≡ ok u.partnership
  pub initial_turnover :
      given (normalize_turnover "initial_turnover") input.initial_turnover ≡ ok u.initial_turnover
  pub current_turnover :
      given (normalize_turnover "current_turnover") input.current_turnover ≡ ok u.current_turnover
  pub district : given district_of input.district ≡ ok u.district
  pub status : given (normalize_label enterprise_statuses "status") input.status ≡ ok u.status

pub record IsNew (env : Env) (input : CreateEnterpriseInput) (e : Enterprise) : Type 0 where
  pub enterprise_name :
      name_of env "enterprise_name is required" input.enterprise_name ≡ ok e.enterprise_name
  pub focus_commodity : focus_commodity_of input.focus_commodity ≡ ok e.focus_commodity
  pub business_sector :
      validate_business_sector (trim_space input.business_sector) ≡ ok e.business_sector
  pub legal_status :
      normalize_label legal_statuses "legal_status" input.legal_status ≡ ok e.legal_status
  pub business_digitization :
      normalize_label business_digitizations "business_digitization" input.business_digitization
      ≡ ok e.business_digitization
  pub intervention_needs :
      normalize_label intervention_needs_labels "intervention_needs" input.intervention_needs
      ≡ ok e.intervention_needs
  pub training_status :
      normalize_label process_statuses "training_status" input.training_status
      ≡ ok e.training_status
  pub mentoring_status :
      normalize_label process_statuses "mentoring_status" input.mentoring_status
      ≡ ok e.mentoring_status
  pub capital_access :
      normalize_label general_statuses "capital_access" input.capital_access ≡ ok e.capital_access
  pub partnership :
      normalize_label general_statuses "partnership" input.partnership ≡ ok e.partnership
  pub initial_turnover :
      normalize_turnover "initial_turnover" input.initial_turnover ≡ ok e.initial_turnover
  pub current_turnover :
      normalize_turnover "current_turnover" input.current_turnover ≡ ok e.current_turnover
  pub district : district_of input.district ≡ ok e.district
  pub status : e.status ≡ "active"
  pub dispora_support : e.dispora_support ≡ ""
  pub owner : e.user_id ≡ input.actor.id

pub validated_update-ok :
    (env : Env) (at : ℕ) (input : UpdateEnterpriseInput)
    → Yields (IsChecked env input) (validated_update env at input)
unfolding validated_update
validated_update-ok env at input = Yields-bind _ _ (λ x0 e0. Yields-bind _ _ (λ x1 e1.
    Yields-bind _ _ (λ x2 e2. Yields-bind _ _ (λ x3 e3. Yields-bind _ _ (λ x4 e4.
      Yields-bind _ _ (λ x5 e5. Yields-bind _ _ (λ x6 e6. Yields-bind _ _ (λ x7 e7.
        Yields-bind _ _ (λ x8 e8. Yields-bind _ _ (λ x9 e9. Yields-bind _ _ (λ x10 e10.
          Yields-bind _ _ (λ x11 e11. Yields-bind _ _ (λ x12 e12. Yields-bind _ _ (λ x13 e13.
            Yields-bind _ _ (λ x14 e14. Yields-bind _ _ (λ x15 e15. Yields-bind _ _ (λ x16 e16.
              Yields-ok _ (record {
                enterprise_name = e0;
                description = e1;
                address = e2;
                focus_commodity = e3;
                dispora_support = e4;
                business_sector = e5;
                legal_status = e6;
                business_digitization = e7;
                intervention_needs = e8;
                training_status = e9;
                mentoring_status = e10;
                capital_access = e11;
                partnership = e12;
                initial_turnover = e13;
                current_turnover = e14;
                district = e15;
                status = e16;
              }))))))))))))))))))

pub validated_enterprise-ok :
    (env : Env) (input : CreateEnterpriseInput)
    → Yields (IsNew env input) (validated_enterprise env input)
unfolding validated_enterprise
validated_enterprise-ok env input = Yields-bind _ _ (λ x0 e0. Yields-bind _ _ (λ x1 e1.
    Yields-bind _ _ (λ x2 e2. Yields-bind _ _ (λ x3 e3. Yields-bind _ _ (λ x4 e4.
      Yields-bind _ _ (λ x5 e5. Yields-bind _ _ (λ x6 e6. Yields-bind _ _ (λ x7 e7.
        Yields-bind _ _ (λ x8 e8. Yields-bind _ _ (λ x9 e9. Yields-bind _ _ (λ x10 e10.
          Yields-bind _ _ (λ x11 e11. Yields-bind _ _ (λ x12 e12. Yields-ok _ (record {
            enterprise_name = e0;
            focus_commodity = e1;
            business_sector = e2;
            legal_status = e3;
            business_digitization = e4;
            intervention_needs = e5;
            training_status = e6;
            mentoring_status = e7;
            capital_access = e8;
            partnership = e9;
            initial_turnover = e10;
            current_turnover = e11;
            district = e12;
            status = refl;
            dispora_support = refl;
            owner = refl;
          }))))))))))))))
