-- ===== src/Enterprises/Columns.antt =====
-- The columns of the table enterprises, with the casts and the lengths that an INSERT or an UPDATE
-- meets: internal/repository/persistence/enterprise_postgres.go and db/migrations.
use youthpreneur_be.Base.{String, Bool, ◌&&◌, ◌||◌, not, List, ltb, str_eq, if◌then◌else◌}
use youthpreneur_be.Base.Text.{char_length}
use youthpreneur_be.Errors.{pg_error, Result, ok, err}
use youthpreneur_be.Entity.Business.{
  Enterprise, is_one_of, business_sectors, enterprise_statuses, legal_statuses,
  business_digitizations, intervention_needs_labels, process_statuses, general_statuses,
}
use youthpreneur_be.Db.{Env}

-- `NULLIF($1, '')::enum`
abbrev pub is_nullable_label : List String → String → Bool
is_nullable_label labels s = str_eq s "" || is_one_of labels s

-- Whether every text casts to the enumeration of its column.
unfoldable pub casts_to_enums : Enterprise → Bool
casts_to_enums e =
    is_one_of business_sectors e.business_sector
    && is_nullable_label legal_statuses e.legal_status
    && is_nullable_label business_digitizations e.business_digitization
    && is_nullable_label intervention_needs_labels e.intervention_needs
    && is_nullable_label process_statuses e.training_status
    && is_nullable_label process_statuses e.mentoring_status
    && is_nullable_label general_statuses e.capital_access
    && is_nullable_label general_statuses e.partnership
    && is_one_of enterprise_statuses e.status

-- Whether every text fits the VARCHAR of its column.
unfoldable pub fits_columns : Enterprise → Bool
fits_columns e =
    not (ltb 255 (char_length e.enterprise_name))
    && not (ltb 255 (char_length e.focus_commodity))
    && not (ltb 255 (char_length e.dispora_support))
    && not (ltb 128 (char_length e.district))

module _ (env : Env) where
  -- The casts of the VALUES and SET lists: the row as its columns hold it.
  unfoldable pub cast_columns : Enterprise → Result Enterprise
  cast_columns e =
      if not (casts_to_enums e)
      then err (pg_error "22P02" "")
      else if not (fits_columns e)
      then err (pg_error "22001" "")
      else elim (env.decimal e.initial_turnover) [
        | err x ↦ err x
        | ok i ↦ elim (env.decimal e.current_turnover) [
          | err x ↦ err x
          | ok c ↦ ok (record e { initial_turnover = i; current_turnover = c })
        ]
      ]
