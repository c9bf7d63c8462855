-- ===== src/Businesses/Examples.antt =====
-- Examples of the enterprise use case.
use youthpreneur_be.Base.{
  str_eq, ◌≡◌, refl, arith, true, some, none, [], ◌∷◌, find, trim_space, ◌==◌, Bool-cases, inl, inr,
}
use youthpreneur_be.Errors.{ok, err, wrap, pg_error}
use youthpreneur_be.Entity.{User, Role}
use youthpreneur_be.Businesses.Blank.{status_alone, update_enterprise-blank}
use youthpreneur_be.Entity.Business.{Enterprise}
use youthpreneur_be.Enterprises.{has_id, in_scope, cast_columns}
use youthpreneur_be.Enterprises.Trail.{Column, value_after, replayed, IsTold}
use youthpreneur_be.Enterprises.Invariant.{IsAudited}
use youthpreneur_be.Enterprises.Reserved.{reserved_at}
use youthpreneur_be.Businesses.{update_enterprise, scope_owner_id}
use youthpreneur_be.Businesses.Turnover.{
  before_dot, after_dot, has_dot, matches_turnover, pad_fraction, trim_zeros, normalize_turnover,
}
use youthpreneur_be.Businesses.Amounts.{IsAmount}
use youthpreneur_be.Businesses.Normalized.{cents, normalize_turnover-canonical}
use youthpreneur_be.Businesses.Input.{
  CreateEnterpriseInput, UpdateEnterpriseInput, normalize_label, validate_business_sector, limited,
  name_of, validated_enterprise,
}
use youthpreneur_be.Businesses.Admitted.{KeepsAmounts, validated_enterprise-admitted}
use youthpreneur_be.Businesses.Audited.{Request, after, serve, serve-IsAudited}
use youthpreneur_be.Businesses.Scope.{after-foreign}
use youthpreneur_be.Businesses.Assessed.{update_enterprise-reserved}
use youthpreneur_be.Sample.{env, world, ann, shop, shop_event}

keeps_amounts : KeepsAmounts env
keeps_amounts = λ t a. refl

shop-IsTold : IsTold 4 shop (shop_event ∷ [])
unfolding value_after replayed
shop-IsTold Column.enterprise_name = refl
shop-IsTold Column.description = refl
shop-IsTold Column.address = refl
shop-IsTold Column.focus_commodity = refl
shop-IsTold Column.dispora_support = refl
shop-IsTold Column.business_sector = refl
shop-IsTold Column.legal_status = refl
shop-IsTold Column.business_digitization = refl
shop-IsTold Column.intervention_needs = refl
shop-IsTold Column.training_status = refl
shop-IsTold Column.mentoring_status = refl
shop-IsTold Column.capital_access = refl
shop-IsTold Column.partnership = refl
shop-IsTold Column.initial_turnover = refl
shop-IsTold Column.current_turnover = refl
shop-IsTold Column.district = refl
shop-IsTold Column.status = refl

sample-IsAudited : IsAudited env world.db
sample-IsAudited = record {
  told = λ i e h c. elim (Bool-cases (4 == i)) [
    | inl same ↦ ground (arith, shop-IsTold c)
    | inr other ↦ absurd (ground arith)
  ];
  stable = ((refl, refl), tt);
  unique_id = λ i. ground arith;
  unique_public_id = λ p. ground arith;
  known = (refl, tt);
}

abbrev renaming : UpdateEnterpriseInput
renaming = record {
  enterprise_name = some "New shop";
  description = none;
  address = none;
  focus_commodity = none;
  dispora_support = none;
  business_sector = none;
  legal_status = none;
  business_digitization = none;
  intervention_needs = none;
  training_status = none;
  mentoring_status = none;
  capital_access = none;
  partnership = none;
  initial_turnover = none;
  current_turnover = some "12.5";
  district = none;
  status = none;
}

abbrev opening : CreateEnterpriseInput
opening = record {
  actor = ann;
  enterprise_name = "Second shop";
  description = "";
  address = "";
  focus_commodity = "";
  business_sector = "Kuliner";
  legal_status = "";
  business_digitization = "";
  intervention_needs = "";
  training_status = "";
  mentoring_status = "";
  capital_access = "";
  partnership = "";
  initial_turnover = "";
  current_turnover = "007.5";
  district = "";
}

serve-IsAudited_example :
    IsAudited env
      (serve env
        (Request.creation opening
          ∷ Request.change ann "TPN-000004" renaming
          ∷ Request.deletion ann "TPN-000004"
          ∷ [])
        world).db
serve-IsAudited_example =
    serve-IsAudited env
      (Request.creation opening
        ∷ Request.change ann "TPN-000004" renaming
        ∷ Request.deletion ann "TPN-000004"
        ∷ [])
      world keeps_amounts sample-IsAudited

after-foreign_example :
    find
      (has_id 4)
      (after env
        (Request.change (record ann { id = 2 }) "TPN-000004" renaming)
        world).db.enterprises
    ≡ some shop
after-foreign_example =
    after-foreign env (Request.change (record ann { id = 2 }) "TPN-000004" renaming) world 4 shop
      refl refl refl refl

update_enterprise-reserved_example :
    reserved_at 4 (update_enterprise env ann "TPN-000004" renaming world).1.db
    ≡ reserved_at 4 world.db
update_enterprise-reserved_example =
    update_enterprise-reserved env ann "TPN-000004" renaming world 4 refl keeps_amounts
      sample-IsAudited

seven_and_a_half : normalize_turnover "current_turnover" " 007.5 " ≡ ok "7.50"
unfolding normalize_turnover matches_turnover before_dot after_dot has_dot trim_zeros pad_fraction
    trim_space
seven_and_a_half = refl

normalize_turnover-canonical_example :
    IsAmount "7.50"
    × (normalize_turnover "current_turnover" "7.50" ≡ ok "7.50")
    × (cents "7.50" ≡ cents (trim_space " 007.5 "))
normalize_turnover-canonical_example =
    normalize_turnover-canonical "current_turnover" " 007.5 " seven_and_a_half

abbrev opened : Enterprise
opened = record shop {
  id = 0;
  public_id = "";
  enterprise_name = "Second shop";
  current_turnover = "7.50";
  created_at = 0;
  updated_at = 0;
}

opening-opened : validated_enterprise env opening ≡ ok opened
unfolding validated_enterprise name_of limited validate_business_sector normalize_label
    normalize_turnover matches_turnover before_dot after_dot has_dot trim_zeros pad_fraction
    trim_space
opening-opened = refl

validated_enterprise-admitted_example : cast_columns env opened ≡ ok opened
validated_enterprise-admitted_example =
    validated_enterprise-admitted env opening keeps_amounts opening-opened

blank : str_eq (trim_space "  ") "" ≡ true
unfolding trim_space
blank = refl

abbrev boss : User
boss = record ann { role = Role.admin }

shop-found : find (in_scope "TPN-000004" (scope_owner_id boss)) world.db.enterprises ≡ some shop
unfolding scope_owner_id
shop-found = refl

update_enterprise-blank_example :
    (update_enterprise env boss "TPN-000004" (status_alone "  ") world).0
    ≡ err (wrap "update enterprise" (pg_error "22P02" ""))
update_enterprise-blank_example =
    update_enterprise-blank env (λ k. refl) boss "TPN-000004" "  " world refl blank shop-found refl
      refl
