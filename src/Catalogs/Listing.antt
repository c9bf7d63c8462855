-- ===== src/Catalogs/Listing.antt =====
-- `FindTrainingCatalogs` of internal/repository/persistence/training_catalog_postgres.go: a page of
-- catalogs by ascending or descending id.
use youthpreneur_be.Base.{
  ℕ, String, Bool, true, false, ◌&&◌, ◌||◌, Option, none, some, List, ◌==◌, str_eq,
}
use youthpreneur_be.Errors.{ok}
use youthpreneur_be.Entity.{TrainingCatalog, TrainingCategory, ProcessStatus}
use youthpreneur_be.Db.{Env, M, wrap_err, statement}
use youthpreneur_be.Pages.{Direction, query}
use youthpreneur_be.Catalogs.{is_present}

-- The order is that of the text "asc" or "desc".
pub record TrainingCatalogFilter : Type 0 where
  pub search : String
  pub title : String
  pub mentor : String
  pub category : Option TrainingCategory
  pub training_status : Option ProcessStatus
  pub start_date : Option ℕ
  pub cursor : ℕ
  pub limit : ℕ
  pub order : Direction

abbrev category_code : TrainingCategory → ℕ
category_code TrainingCategory.wirausaha_agribisnis = 0
category_code TrainingCategory.kriya_kreativitas = 1
category_code TrainingCategory.digital_iptek = 2
category_code TrainingCategory.olahraga_prestasi = 3
category_code TrainingCategory.komunitas_pemuda = 4

abbrev status_code : ProcessStatus → ℕ
status_code ProcessStatus.completed = 0
status_code ProcessStatus.ongoing = 1
status_code ProcessStatus.planned = 2

-- `($n = '' OR column = $n)`, where NULL is equal to nothing
abbrev pub is_same_or_any : {A : Type 0} → (A → ℕ) → Option A → Option A → Bool
is_same_or_any code none column = true
is_same_or_any code (some a) none = false
is_same_or_any code (some a) (some b) = code b == code a

module _ (env : Env) where
  abbrev pub contains_text : String → String → Bool
  contains_text wanted column = str_eq wanted "" || env.ilike column wanted

  -- The WHERE of both queries, less the cursor.
  unfoldable pub matches_filter : TrainingCatalogFilter → TrainingCatalog → Bool
  matches_filter f c =
      is_present c
      && (str_eq f.search "" || env.ilike c.title f.search || env.ilike c.mentor f.search)
      && contains_text f.title c.title
      && contains_text f.mentor c.mentor
      && is_same_or_any category_code f.category c.category
      && is_same_or_any status_code f.training_status c.training_status
      && is_same_or_any (λ d. d) f.start_date c.start_date

  unfoldable pub find_training_catalogs : TrainingCatalogFilter → M (List TrainingCatalog)
  unfolding statement
  find_training_catalogs f = wrap_err "query training catalogs" (
      statement env λ w. (
        ok (query (λ c. c.id) f.order (matches_filter f) f.cursor f.limit w.db.training_catalog),
        w,
      ))
