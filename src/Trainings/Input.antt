-- ===== src/Trainings/Input.antt =====
-- The validation of internal/usecase/training_catalog_usecase.go.
use youthpreneur_be.Base.{
  ℕ, String, ◌<>◌, Bool, ◌&&◌, ◌||◌, not, Option, none, some, ltb, ◌==◌, str_eq, if◌then◌else◌,
  is_null, trim_space,
}
use youthpreneur_be.Base.Text.{byte_length}
use youthpreneur_be.Errors.{Result, ok, err, bad_request}
use youthpreneur_be.Errors.Chain.{◌>>=◌, given}
use youthpreneur_be.Entity.{User, TrainingCatalog, TrainingCategory, ProcessStatus}
use youthpreneur_be.Db.{Env}
use youthpreneur_be.Catalogs.{TrainingCatalogUpdate, ends_before_start}

pub record CreateTrainingCatalogInput : Type 0 where
  pub actor : User
  pub title : String
  pub description : String
  pub pic_phone : String
  pub category : String
  pub max_slots : Option ℕ
  pub training_status : String
  pub link : String
  pub address : String
  pub thumbnail : String
  pub start_date : String
  pub end_date : String
  pub mentor : String

pub record UpdateTrainingCatalogInput : Type 0 where
  pub title : Option String
  pub description : Option String
  pub pic_phone : Option String
  pub category : Option String
  pub max_slots : Option ℕ
  pub training_status : Option String
  pub link : Option String
  pub address : Option String
  pub thumbnail : Option String
  pub start_date : Option String
  pub end_date : Option String
  pub mentor : Option String

-- The texts of `entity.TrainingCategory`
unfoldable pub category_of : String → Option TrainingCategory
category_of t =
    if str_eq t "Wirausaha & Agribisnis"
    then some TrainingCategory.wirausaha_agribisnis
    else if str_eq t "Kriya & Kreativitas"
    then some TrainingCategory.kriya_kreativitas
    else if str_eq t "Digital & IPTEK"
    then some TrainingCategory.digital_iptek
    else if str_eq t "Olahraga & Prestasi"
    then some TrainingCategory.olahraga_prestasi
    else if str_eq t "Komunitas & Pemuda"
    then some TrainingCategory.komunitas_pemuda
    else none

-- The texts of `entity.ProcessStatus`
unfoldable pub process_status_of : String → Option ProcessStatus
process_status_of t =
    if str_eq t "completed"
    then some ProcessStatus.completed
    else if str_eq t "ongoing"
    then some ProcessStatus.ongoing
    else if str_eq t "planned"
    then some ProcessStatus.planned
    else none

-- A label that may be empty, which is `none`.
abbrev pub label_or_empty : {A : Type 0} → (String → Option A) → String → String → Result (Option A)
label_or_empty read message raw =
    let t = trim_space raw in
    if str_eq t ""
    then ok none
    else elim (read t) [ none ↦ err (bad_request message) | some a ↦ ok (some a) ]

unfoldable pub normalize_category : String → Result (Option TrainingCategory)
normalize_category = label_or_empty category_of "invalid category"

-- `normalizeProcessStatus("training_status", ...)`
unfoldable pub normalize_training_status : String → Result (Option ProcessStatus)
normalize_training_status = label_or_empty process_status_of "invalid training_status"

-- `normalizeCatalogText`, with the decimal text of its limit
unfoldable pub normalize_catalog_text : String → ℕ → String → String → Result String
normalize_catalog_text field limit digits raw =
    let t = trim_space raw in
    if ltb limit (byte_length t)
    then err (bad_request (field <> (" must be at most " <> (digits <> " characters"))))
    else ok t

unfoldable pub trimmed : String → Result String
trimmed raw = ok (trim_space raw)

-- `normalizeMaxSlots`; a number that is not positive is zero here.
unfoldable pub normalize_max_slots : Option ℕ → Result (Option ℕ)
normalize_max_slots none = ok none
normalize_max_slots (some n) =
    if n == 0 then err (bad_request "max_slots must be positive") else ok (some n)

unfoldable pub check_dates : Option ℕ → Option ℕ → Result (Unit {0})
check_dates start end =
    if ends_before_start start end
    then err (bad_request "end_date must be on or after start_date")
    else ok tt

-- `isEmptyTrainingCatalogUpdate`
unfoldable pub is_empty_training_catalog_update : TrainingCatalogUpdate → Bool
is_empty_training_catalog_update u =
    is_null u.title
    && is_null u.description
    && is_null u.pic_phone
    && is_null u.category
    && is_null u.max_slots
    && is_null u.training_status
    && is_null u.link
    && is_null u.address
    && is_null u.thumbnail
    && is_null u.start_date
    && is_null u.end_date
    && is_null u.mentor

-- A date of a patch: an empty text leaves the date as it is.
abbrev pub flat : {A : Type 0} → Option (Option A) → Option A
flat none = none
flat (some o) = o

module _ (env : Env) where
  -- `normalizeCatalogLink`
  unfoldable pub normalize_catalog_link : String → Result String
  normalize_catalog_link raw =
      let t = trim_space raw in
      if str_eq t ""
      then ok ""
      else if ltb 255 (byte_length t)
      then err (bad_request "link must be at most 255 characters")
      else elim (env.parse_url t) [
        | none ↦ err (bad_request "invalid link")
        | some parsed ↦
            if (not (str_eq parsed.0 "http") && not (str_eq parsed.0 "https")) || str_eq parsed.1 ""
            then err (bad_request "invalid link")
            else ok t
      ]

  -- `parseTrainingDate`
  unfoldable pub parse_training_date : String → String → Result (Option ℕ)
  parse_training_date field raw =
      let t = trim_space raw in
      if str_eq t "" then ok none else elim (env.parse_date t) [
        | none ↦ err (bad_request ("invalid " <> field))
        | some d ↦ ok (some d)
      ]

  -- `buildTrainingCatalog`
  unfoldable pub build_training_catalog : CreateTrainingCatalogInput → ℕ → Result TrainingCatalog
  build_training_catalog input now = do
    title ← normalize_catalog_text "title" 255 "255" input.title
    pic_phone ← normalize_catalog_text "pic_phone" 50 "50" input.pic_phone
    category ← normalize_category input.category
    link ← normalize_catalog_link input.link
    status ← normalize_training_status input.training_status
    slots ← normalize_max_slots input.max_slots
    start_date ← parse_training_date "start_date" input.start_date
    end_date ← parse_training_date "end_date" input.end_date
    checked ← check_dates start_date end_date
    mentor ← normalize_catalog_text "mentor" 255 "255" input.mentor
    thumbnail ← normalize_catalog_text "thumbnail" 255 "255" input.thumbnail
    ok (record {
      id = 0;
      public_id = "";
      title = title;
      description = trim_space input.description;
      pic_phone = pic_phone;
      category = category;
      max_slots = slots;
      training_status = status;
      link = link;
      address = trim_space input.address;
      thumbnail = thumbnail;
      start_date = start_date;
      end_date = end_date;
      mentor = mentor;
      registered_count = 0;
      created_at = now;
      updated_at = now;
      deleted_at = none;
    })

  -- `buildTrainingCatalogUpdate`
  unfoldable pub build_training_catalog_update :
      UpdateTrainingCatalogInput → Result TrainingCatalogUpdate
  build_training_catalog_update input = do
    title ← given (normalize_catalog_text "title" 255 "255") input.title
    description ← given trimmed input.description
    pic_phone ← given (normalize_catalog_text "pic_phone" 50 "50") input.pic_phone
    category ← given normalize_category input.category
    max_slots ← normalize_max_slots input.max_slots
    status ← given normalize_training_status input.training_status
    link ← given normalize_catalog_link input.link
    address ← given trimmed input.address
    thumbnail ← given (normalize_catalog_text "thumbnail" 255 "255") input.thumbnail
    start_date ← given (parse_training_date "start_date") input.start_date
    end_date ← given (parse_training_date "end_date") input.end_date
    checked ← check_dates (flat start_date) (flat end_date)
    mentor ← given (normalize_catalog_text "mentor" 255 "255") input.mentor
    ok (record {
      title = title;
      description = description;
      pic_phone = pic_phone;
      category = category;
      max_slots = max_slots;
      training_status = status;
      link = link;
      address = address;
      thumbnail = thumbnail;
      start_date = flat start_date;
      end_date = flat end_date;
      mentor = mentor;
      updated_at = 0;
    })
