-- ===== src/Trainings/Examples.antt =====
-- Examples of the catalog of trainings.
use youthpreneur_be.Base.{◌≡◌, refl, false, some, none, trim_space}
use youthpreneur_be.Errors.{ok}
use youthpreneur_be.Entity.{TrainingCatalog, ProcessStatus, Role}
use youthpreneur_be.Catalogs.{breaks_check}
use youthpreneur_be.Enrollments.Invariant.{IsValid}
use youthpreneur_be.Enrollments.Examples.{sample-IsValid}
use youthpreneur_be.Trainings.Input.{
  CreateTrainingCatalogInput, build_training_catalog, normalize_catalog_text, normalize_category,
  normalize_catalog_link, normalize_training_status, normalize_max_slots, parse_training_date,
  check_dates, process_status_of,
}
use youthpreneur_be.Trainings.Kept.{Request, after, build_training_catalog-passes, after-IsValid}
use youthpreneur_be.Sample.{env, world, ann}

abbrev workshop : CreateTrainingCatalogInput
workshop = record {
  actor = ann;
  title = " Workshop ";
  description = "";
  pic_phone = "";
  category = "";
  max_slots = some 20;
  training_status = "planned";
  link = "";
  address = "";
  thumbnail = "";
  start_date = "2026-01-01";
  end_date = "2026-01-01";
  mentor = "";
}

abbrev workshop_row : TrainingCatalog
workshop_row = record {
  id = 0;
  public_id = "";
  title = "Workshop";
  description = "";
  pic_phone = "";
  category = none;
  max_slots = some 20;
  training_status = some ProcessStatus.planned;
  link = "";
  address = "";
  thumbnail = "";
  start_date = some 20000;
  end_date = some 20000;
  mentor = "";
  registered_count = 0;
  created_at = 1000;
  updated_at = 1000;
  deleted_at = none;
}

workshop-built : build_training_catalog env workshop 1000 ≡ ok workshop_row
unfolding build_training_catalog normalize_catalog_text normalize_category normalize_catalog_link
    normalize_training_status normalize_max_slots parse_training_date check_dates process_status_of
    trim_space
workshop-built = refl

build_training_catalog-passes_example : breaks_check workshop_row ≡ false
build_training_catalog-passes_example =
    build_training_catalog-passes env workshop 1000 workshop-built

after-IsValid_example :
    IsValid
      (after env
        (Request.status_change (record ann { role = Role.admin }) "TRN-000003" "completed")
        world).db
after-IsValid_example =
    after-IsValid env
      (Request.status_change (record ann { role = Role.admin }) "TRN-000003" "completed") world
      sample-IsValid
