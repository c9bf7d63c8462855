-- ===== src/Businesses/Filtered.antt =====
-- What buildFilter gives.
use youthpreneur_be.Base.{ℕ, ◌+◌, ◌≡◌, refl, true, ◌&&◌, String}
use youthpreneur_be.Errors.{Result, ok, err}
use youthpreneur_be.Errors.Chain
use youthpreneur_be.Entity.Business.{
  business_sectors, enterprise_statuses, legal_statuses, business_digitizations,
  intervention_needs_labels, process_statuses, general_statuses,
}
use youthpreneur_be.Pages.{clamp}
use youthpreneur_be.Enterprises.{is_nullable_label}
use youthpreneur_be.Enterprises.Listing.{EnterpriseFilter, filter_casts}
use youthpreneur_be.Businesses.Input.{normalize_label}
use youthpreneur_be.Businesses.Admitted.{normalize_label-ok, and-intro}
use youthpreneur_be.Businesses.Filter.{FindEnterprisesInput, build_filter}
use youthpreneur_be.Businesses.{scope_owner_id}

abbrev pub with_cursor : ℕ → Result EnterpriseFilter → Result EnterpriseFilter
with_cursor c (ok f) = ok (record f { cursor = c })
with_cursor c (err e) = err e

-- The second filter is the first with another cursor.
pub record DiffersInCursor (c : ℕ) (r s : Result EnterpriseFilter) : Type 0 where
  pub same : with_cursor c r ≡ s

cursor-bind :
    {A : Type 0} (c : ℕ) (m : Result A) (f g : A → Result EnterpriseFilter)
    → ((a : A) → DiffersInCursor c (f a) (g a))
    → DiffersInCursor c (Chain.◌>>=◌ m f) (Chain.◌>>=◌ m g)
cursor-bind c (ok a) f g k = k a
cursor-bind c (err e) f g k = record { same = refl }

-- The cursor goes into the filter as it is.
pub build_filter-cursor :
    (input : FindEnterprisesInput) (c : ℕ)
    → DiffersInCursor c (build_filter input) (build_filter (record input { cursor = c }))
unfolding build_filter
build_filter-cursor input c =
    cursor-bind c (normalize_label enterprise_statuses "status" input.status) _ _ (λ x0.
      cursor-bind c (normalize_label business_sectors "business_sector" input.business_sector) _ _
        (λ x1.
          cursor-bind c (normalize_label legal_statuses "legal_status" input.legal_status) _ _
            (λ x2.
              cursor-bind c
                (normalize_label business_digitizations "business_digitization"
                  input.business_digitization)
                _ _
                (λ x3.
                  cursor-bind c
                    (normalize_label intervention_needs_labels "intervention_needs"
                      input.intervention_needs)
                    _ _
                    (λ x4.
                      cursor-bind c
                        (normalize_label process_statuses "training_status" input.training_status) _
                        _
                        (λ x5.
                          cursor-bind c
                            (normalize_label process_statuses "mentoring_status"
                              input.mentoring_status)
                            _ _
                            (λ x6.
                              cursor-bind c
                                (normalize_label general_statuses "capital_access"
                                  input.capital_access)
                                _ _
                                (λ x7.
                                  cursor-bind c
                                    (normalize_label general_statuses "partnership"
                                      input.partnership)
                                    _ _ (λ x8. record { same = refl })))))))))

-- A filter that is built casts to the enumerations, asks for one row more than the page has, and has
-- the scope of the actor.
abbrev pub IsBuilt : FindEnterprisesInput → EnterpriseFilter → Type 0
IsBuilt input f =
    (filter_casts f ≡ true)
    × (f.limit ≡ clamp 20 input.limit + 1)
    × (f.cursor ≡ input.cursor)
    × (f.owner_id ≡ scope_owner_id input.actor)

pub build_filter-ok :
    (input : FindEnterprisesInput) → Chain.Yields (IsBuilt input) (build_filter input)
unfolding build_filter filter_casts
build_filter-ok input = Chain.Yields-bind _ _ (λ x0 e0. Chain.Yields-bind _ _ (λ x1 e1.
    Chain.Yields-bind _ _ (λ x2 e2. Chain.Yields-bind _ _ (λ x3 e3. Chain.Yields-bind _ _ (λ x4 e4.
      Chain.Yields-bind _ _ (λ x5 e5. Chain.Yields-bind _ _ (λ x6 e6.
        Chain.Yields-bind _ _ (λ x7 e7. Chain.Yields-bind _ _ (λ x8 e8. Chain.Yields-ok _ (
          casts x0 x1 x2 x3 x4 x5 x6 x7 x8
              (normalize_label-ok enterprise_statuses "status" input.status e0)
              (normalize_label-ok business_sectors "business_sector" input.business_sector e1)
              (normalize_label-ok legal_statuses "legal_status" input.legal_status e2)
              (normalize_label-ok business_digitizations "business_digitization"
                input.business_digitization e3)
              (normalize_label-ok intervention_needs_labels "intervention_needs"
                input.intervention_needs e4)
              (normalize_label-ok process_statuses "training_status" input.training_status e5)
              (normalize_label-ok process_statuses "mentoring_status" input.mentoring_status e6)
              (normalize_label-ok general_statuses "capital_access" input.capital_access e7)
              (normalize_label-ok general_statuses "partnership" input.partnership e8),
          refl,
          refl,
          refl,
        ))))))))))
  where
    casts :
        (s b l d n t m c p : String)
        → is_nullable_label enterprise_statuses s ≡ true
        → is_nullable_label business_sectors b ≡ true
        → is_nullable_label legal_statuses l ≡ true
        → is_nullable_label business_digitizations d ≡ true
        → is_nullable_label intervention_needs_labels n ≡ true
        → is_nullable_label process_statuses t ≡ true
        → is_nullable_label process_statuses m ≡ true
        → is_nullable_label general_statuses c ≡ true
        → is_nullable_label general_statuses p ≡ true
        → (is_nullable_label enterprise_statuses s
            && is_nullable_label business_sectors b
            && is_nullable_label legal_statuses l
            && is_nullable_label business_digitizations d
            && is_nullable_label intervention_needs_labels n
            && is_nullable_label process_statuses t
            && is_nullable_label process_statuses m
            && is_nullable_label general_statuses c
            && is_nullable_label general_statuses p)
          ≡ true
    casts s b l d n t m c p h0 h1 h2 h3 h4 h5 h6 h7 h8 =
        and-intro _ _
          (and-intro _ _
            (and-intro _ _
              (and-intro _ _
                (and-intro _ _ (and-intro _ _ (and-intro _ _ (and-intro _ _ h0 h1) h2) h3) h4) h5)
              h6)
            h7)
          h8
