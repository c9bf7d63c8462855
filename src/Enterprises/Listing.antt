-- ===== src/Enterprises/Listing.antt =====
-- The list queries of internal/repository/persistence/enterprise_postgres.go: enterprises, the public
-- showcase and the audit events, each a page of descending ids.
use youthpreneur_be.Base.{
  ℕ, String, Bool, true, ◌&&◌, ◌||◌, not, none, some, List, [], ◌∷◌, ◌==◌, str_eq, if◌then◌else◌,
  is_null, find,
}
use mathlib.Core.List.{map}
use youthpreneur_be.Errors.{
  RepositoryError, repository, no_rows, pg_error, wrap, ok, err, is_no_rows,
}
use youthpreneur_be.Entity.{User}
use youthpreneur_be.Entity.Business.{
  Enterprise, JoinedEnterprise, AuditRow, AuditAction, ChangedFields, business_sectors,
  enterprise_statuses, legal_statuses, business_digitizations, intervention_needs_labels,
  process_statuses, general_statuses,
}
use youthpreneur_be.Db.{Env, M, ◌>>=◌, map_err, wrap_err, statement}
use youthpreneur_be.Pages.{Direction, query}
use youthpreneur_be.Enterprises.{is_visible, in_scope, is_nullable_label, full_name_of}

pub record EnterpriseFilter : Type 0 where
  pub search : String
  pub district : String
  pub status : String
  pub business_sector : String
  pub legal_status : String
  pub business_digitization : String
  pub intervention_needs : String
  pub training_status : String
  pub mentoring_status : String
  pub capital_access : String
  pub partnership : String
  pub owner_id : ℕ
  pub cursor : ℕ
  pub limit : ℕ

pub record PublicEnterpriseFilter : Type 0 where
  pub search : String
  pub district : String
  pub intervention_needs : String
  pub business_sector : String
  pub cursor : ℕ
  pub limit : ℕ

pub record EnterpriseAuditFilter : Type 0 where
  pub public_id : String
  pub owner_id : ℕ
  pub cursor : ℕ
  pub limit : ℕ

pub record PublicEnterprise : Type 0 where
  pub id : ℕ
  pub public_id : String
  pub enterprise_name : String
  pub owner_full_name : String
  pub business_sector : String
  pub district : String
  pub description : String
  pub focus_commodity : String
  pub dispora_support : String
  pub intervention_needs : String
  pub created_at : ℕ

pub record EnterpriseAuditEventView : Type 0 where
  pub id : ℕ
  pub actor_public_id : String
  pub actor_email : String
  pub actor_name : String
  pub action : AuditAction
  pub changed_fields : ChangedFields
  pub created_at : ℕ

-- FROM enterprises e JOIN users u ON u.id = e.user_id AND ... LEFT JOIN user_profiles p
unfoldable pub joined_rows : (User → Bool) → List User → List Enterprise → List JoinedEnterprise
joined_rows p users [] = []
joined_rows p users (e ∷ es) =
    let rest = joined_rows p users es in
    elim (find (λ (u : User). u.id == e.user_id && p u) users) [
      | none ↦ rest
      | some u ↦
          record {
            enterprise = e;
            user_public_id = u.public_id;
            owner_full_name = full_name_of u.profile;
          }
          ∷ rest
    ]

-- `($n = '' OR column = $n)`: no row has an empty column here, since NULL is not equal to a text.
abbrev pub is_or_any : String → String → Bool
is_or_any wanted column = str_eq wanted "" || str_eq column wanted

abbrev pub row_id : JoinedEnterprise → ℕ
row_id j = j.enterprise.id

-- Whether the parameters of the filter cast to their enumerations.
unfoldable pub filter_casts : EnterpriseFilter → Bool
filter_casts f =
    is_nullable_label enterprise_statuses f.status
    && is_nullable_label business_sectors f.business_sector
    && is_nullable_label legal_statuses f.legal_status
    && is_nullable_label business_digitizations f.business_digitization
    && is_nullable_label intervention_needs_labels f.intervention_needs
    && is_nullable_label process_statuses f.training_status
    && is_nullable_label process_statuses f.mentoring_status
    && is_nullable_label general_statuses f.capital_access
    && is_nullable_label general_statuses f.partnership

-- The columns of an audit event, with those of its actor.
unfoldable pub event_view : List User → AuditRow → EnterpriseAuditEventView
event_view users r =
    let actor = find (λ (u : User). u.id == r.event.actor_user_id) users in
    record {
      id = r.id;
      actor_public_id = elim actor [ none ↦ "" | some u ↦ u.public_id ];
      actor_email = elim actor [ none ↦ "" | some u ↦ u.email ];
      actor_name = elim actor [ none ↦ "" | some u ↦ full_name_of u.profile ];
      action = r.event.action;
      changed_fields = r.event.changed_fields;
      created_at = r.event.created_at;
    }

unfoldable pub public_view : JoinedEnterprise → PublicEnterprise
public_view j = record {
  id = j.enterprise.id;
  public_id = j.enterprise.public_id;
  enterprise_name = j.enterprise.enterprise_name;
  owner_full_name = j.owner_full_name;
  business_sector = j.enterprise.business_sector;
  district = j.enterprise.district;
  description = j.enterprise.description;
  focus_commodity = j.enterprise.focus_commodity;
  dispora_support = j.enterprise.dispora_support;
  intervention_needs = j.enterprise.intervention_needs;
  created_at = j.enterprise.created_at;
}

module _ (env : Env) where
  abbrev pub is_found_by : String → JoinedEnterprise → Bool
  is_found_by search j =
      str_eq search ""
      || env.ilike j.enterprise.enterprise_name search
      || env.ilike j.owner_full_name search

  -- The WHERE of `findEnterprisesQuery`, less the cursor.
  unfoldable pub matches_filter : EnterpriseFilter → JoinedEnterprise → Bool
  matches_filter f j =
      is_visible f.owner_id j.enterprise
      && is_or_any f.district j.enterprise.district
      && is_or_any f.status j.enterprise.status
      && is_or_any f.business_sector j.enterprise.business_sector
      && is_or_any f.legal_status j.enterprise.legal_status
      && is_or_any f.business_digitization j.enterprise.business_digitization
      && is_or_any f.intervention_needs j.enterprise.intervention_needs
      && is_or_any f.training_status j.enterprise.training_status
      && is_or_any f.mentoring_status j.enterprise.mentoring_status
      && is_or_any f.capital_access j.enterprise.capital_access
      && is_or_any f.partnership j.enterprise.partnership
      && is_found_by f.search j

  -- The WHERE of `findPublicEnterprisesQuery`, less the cursor.
  unfoldable pub matches_public : PublicEnterpriseFilter → JoinedEnterprise → Bool
  matches_public f j =
      is_null j.enterprise.deleted_at
      && str_eq j.enterprise.status "active"
      && is_or_any f.district j.enterprise.district
      && is_or_any f.intervention_needs j.enterprise.intervention_needs
      && is_or_any f.business_sector j.enterprise.business_sector
      && is_found_by f.search j

  unfoldable pub select_enterprises : EnterpriseFilter → M (List JoinedEnterprise)
  select_enterprises f w = if not (filter_casts f) then (err (pg_error "22P02" ""), w) else (
    ok (
        query row_id Direction.descending (matches_filter f) f.cursor f.limit
          (joined_rows (λ u. true) w.db.users w.db.enterprises)),
    w,
  )

  unfoldable pub find_enterprises : EnterpriseFilter → M (List JoinedEnterprise)
  find_enterprises f = wrap_err "query enterprises" (statement env (select_enterprises f))

  unfoldable pub find_public_enterprises : PublicEnterpriseFilter → M (List PublicEnterprise)
  find_public_enterprises f = wrap_err "query public enterprises" (
      statement env λ w.
        if not (
          is_nullable_label intervention_needs_labels f.intervention_needs
          && is_nullable_label business_sectors f.business_sector)
        then (err (pg_error "22P02" ""), w)
        else (
          ok (
              map public_view (
                query row_id Direction.descending (matches_public f) f.cursor f.limit (
                  joined_rows (λ u. is_null u.deleted_at && u.is_active) w.db.users
                    w.db.enterprises))),
          w,
        ))

  unfoldable pub find_enterprise_audit_events :
      EnterpriseAuditFilter → M (List EnterpriseAuditEventView)
  find_enterprise_audit_events f = do
    id ←
        map_err
          (λ e.
            if is_no_rows e
            then repository RepositoryError.enterprise_not_found
            else wrap "verify enterprise" e)
          (statement env (λ w. (
            elim (find (in_scope f.public_id f.owner_id) w.db.enterprises) [
              | none ↦ err no_rows
              | some e ↦ ok e.id
            ],
            w,
          )))
    wrap_err "query enterprise audit events" (
        statement env λ w. (
          ok (
              map (event_view w.db.users) (
                query (λ r. r.id) Direction.descending (λ r. r.event.enterprise_id == id) f.cursor
                  f.limit w.db.enterprise_audit_events)),
          w,
        ))
