-- ===== src/Businesses/ListExamples.antt =====
-- Examples of the lists of enterprises.
use youthpreneur_be.Base.{All, ◌≡◌, refl, arith, true, [], ◌∷◌, trim_space, select}
use youthpreneur_be.Errors.{ok}
use youthpreneur_be.Db.{statement}
use youthpreneur_be.Entity.Business.{JoinedEnterprise}
use youthpreneur_be.Enterprises.Listing.{EnterpriseFilter, matches_filter, joined_rows, row_id}
use youthpreneur_be.Enterprises.Listing
use youthpreneur_be.Enterprises.Listing.{filter_casts, select_enterprises}
use youthpreneur_be.Pages.{Page, query, cut_page}
use youthpreneur_be.Pages.{Direction, order_by, clamp}
use youthpreneur_be.Businesses.{scope_owner_id}
use youthpreneur_be.Businesses.Input.{normalize_label}
use youthpreneur_be.Businesses.Lists.{find_enterprises}
use youthpreneur_be.Businesses.Listed.{IsShownTo, find_enterprises-IsShownTo}
use youthpreneur_be.Businesses.Filter.{FindEnterprisesInput, build_filter}
use youthpreneur_be.Businesses.Reading.{read_pages, read_pages_complete}
use youthpreneur_be.Sample.{env, world, ann, shop}

abbrev listing : FindEnterprisesInput
listing = record {
  actor = ann;
  search = "";
  district = "";
  status = "active";
  business_sector = "";
  legal_status = "";
  business_digitization = "";
  intervention_needs = "";
  training_status = "";
  mentoring_status = "";
  capital_access = "";
  partnership = "";
  cursor = 0;
  limit = 1;
}

abbrev active_ones : EnterpriseFilter
active_ones = record {
  search = "";
  district = "";
  status = "active";
  business_sector = "";
  legal_status = "";
  business_digitization = "";
  intervention_needs = "";
  training_status = "";
  mentoring_status = "";
  capital_access = "";
  partnership = "";
  owner_id = 1;
  cursor = 0;
  limit = 2;
}

listing-built : build_filter listing ≡ ok active_ones
unfolding build_filter normalize_label scope_owner_id clamp trim_space
listing-built = refl

read_pages_complete_example :
    (read_pages env 2 listing world).0
    ≡ ok (
        order_by row_id Direction.descending (
          select
            (matches_filter env active_ones)
            (joined_rows (λ u. true) world.db.users world.db.enterprises)))
read_pages_complete_example =
    read_pages_complete env (λ k. refl) 2 listing active_ones world listing-built (omega arith, tt)
      (λ i. ground arith) (omega arith)

abbrev shown_page : Page JoinedEnterprise
shown_page = record {
  items = record { enterprise = shop; user_public_id = "YTP-000001"; owner_full_name = "" } ∷ [];
  next_cursor = 0;
}

listing-shown : (find_enterprises env listing world).0 ≡ ok shown_page
unfolding find_enterprises Listing.find_enterprises select_enterprises filter_casts statement
    build_filter normalize_label scope_owner_id clamp trim_space matches_filter joined_rows query
    cut_page
listing-shown = refl

find_enterprises-IsShownTo_example : All (IsShownTo ann) shown_page.items
find_enterprises-IsShownTo_example = find_enterprises-IsShownTo env listing world listing-shown
