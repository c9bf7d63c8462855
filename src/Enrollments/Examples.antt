-- ===== src/Enrollments/Examples.antt =====
-- Examples of the enrollment repository and of catalog updates.
use youthpreneur_be.Base.{
  ◌≤◌, ◌<◌, ◌⊎◌, ◌≡◌, refl, true, false, ◌&&◌, not, some, none, [], ◌∷◌, arith, eq_iff, find,
  exists,
}
use youthpreneur_be.Errors.{ok}
use youthpreneur_be.Entity.{
  TrainingCatalog, TrainingEnrollment, EnrollmentStatus, JoinedEnrollment, is_accepted,
  is_open_for_enrollment, pending,
}
use youthpreneur_be.Db.{World, statement, transaction, settle}
use youthpreneur_be.Catalogs
use youthpreneur_be.Catalogs.{
  has_id, select_catalog, TrainingCatalogUpdate, update_training_catalog, write_catalog,
  apply_training_catalog_update, written,
}
use youthpreneur_be.Enrollments.{
  NewEnrollment, has_public_id, is_current, is_active_of, is_full, updating, creating,
  check_capacity, insert_enrollment, lock_with_catalog, select_joined, join, move_count,
  update_training_enrollment_status, cancel_training_enrollment, create_training_enrollment,
}
use youthpreneur_be.Enrollments.Invariant.{IsValid, enrolled}
use youthpreneur_be.Enrollments.Outcomes.{with_status, has_room, updating-ok, creating-ok}
use youthpreneur_be.Enrollments.Methods.{update_status-IsValid, cancel-IsValid, create-IsValid}
use youthpreneur_be.Enrollments.Capacity.{update_status-max_slots}
use youthpreneur_be.Enrollments.CatalogCalls.{update_catalog-IsValid}
use youthpreneur_be.Catalogs.Patched.{
  Patched, update_training_catalog-Patched, update_training_catalog-overbooks,
}
use youthpreneur_be.Sample.{env, world, ann, course, enrollment}

pub sample-IsValid : IsValid world.db
sample-IsValid = record {
  keys = record {
    unique_public_id = λ p.
        ground
          (arith, eq_iff "ENR-000001" p, eq_iff "ENR-000002" p, eq_iff "ENR-000001" "ENR-000002");
    one_active = λ c u. ground arith;
    known_catalog = (refl, (refl, tt));
    unique_catalog = λ i. ground arith;
  };
  exact_counts = (refl, tt);
}

update_status-IsValid_example :
    IsValid
      (update_training_enrollment_status env "ENR-000001" EnrollmentStatus.accepted 30 world).1.db
update_status-IsValid_example =
    update_status-IsValid env "ENR-000001" EnrollmentStatus.accepted 30 world sample-IsValid

cancel-IsValid_example : IsValid (cancel_training_enrollment env "ENR-000002" 2 30 world).1.db
cancel-IsValid_example = cancel-IsValid env "ENR-000002" 2 30 world sample-IsValid

-- A second user of the sample, who is not enrolled.
abbrev bob_world : World
bob_world = record world {
  db = record world.db { users = record ann { id = 5; public_id = "YTP-000005" } ∷ ann ∷ [] };
}

abbrev new_enrollment : NewEnrollment
new_enrollment = record {
  public_id = "ENR-000009";
  user_id = 5;
  register_date = none;
  status = some pending;
  created_at = 30;
  updated_at = 30;
  catalog_public_id = "TRN-000003";
}

-- The catalog of the sample with one more slot.
abbrev roomy_world : World
roomy_world = record bob_world {
  db = record bob_world.db { training_catalog = record course { max_slots = some 3 } ∷ [] };
}

abbrev created : JoinedEnrollment
created = record {
  enrollment = record (enrollment 50 "ENR-000009" 5 pending) { created_at = 30; updated_at = 30 };
  user_public_id = "YTP-000005";
  full_name = "";
  catalog = record course { max_slots = some 3 };
}

creating-created : (creating env new_enrollment roomy_world).0 ≡ ok created
unfolding creating select_catalog check_capacity insert_enrollment select_joined join statement
creating-created = refl

creating-ok_example :
    (c : TrainingCatalog) × (find
        (Catalogs.has_public_id "TRN-000003")
        roomy_world.db.training_catalog
      ≡ some c)
    × (is_open_for_enrollment c ≡ true)
    × (exists (is_active_of c.id 5) roomy_world.db.training_enrollments ≡ false)
    × (has_room c roomy_world.db ≡ true)
    × (exists (has_public_id "ENR-000009") roomy_world.db.training_enrollments ≡ false)
    × (exists (has_id c.id) roomy_world.db.training_catalog ≡ true)
    × ((creating env new_enrollment roomy_world).1.db
        ≡ enrolled 50 c.id new_enrollment roomy_world.db)
creating-ok_example = creating-ok env new_enrollment roomy_world {a = created} creating-created

create-IsValid_example : IsValid (create_training_enrollment env new_enrollment world).1.db
create-IsValid_example = create-IsValid env new_enrollment world refl sample-IsValid

abbrev accepted_sample : JoinedEnrollment
accepted_sample = record {
  enrollment = record (enrollment 1 "ENR-000001" 1 EnrollmentStatus.accepted) { updated_at = 30 };
  user_public_id = "YTP-000001";
  full_name = "";
  catalog = record course { registered_count = 2; updated_at = 30 };
}

updating_accepted :
    (updating env "ENR-000001" EnrollmentStatus.accepted 30 world).0 ≡ ok accepted_sample
unfolding updating move_count lock_with_catalog select_joined join statement
updating_accepted = refl

updating-ok_example :
    (old : TrainingEnrollment) × (catalog : TrainingCatalog) × (find
        (is_current "ENR-000001")
        world.db.training_enrollments
      ≡ some old)
    × (find (has_id old.training_catalog_id) world.db.training_catalog ≡ some catalog)
    × ((true && not (is_accepted old.status) && is_full catalog) ≡ false)
    × ((updating env "ENR-000001" EnrollmentStatus.accepted 30 world).1.db
        ≡ with_status "ENR-000001" EnrollmentStatus.accepted 30 old catalog.id world.db)
updating-ok_example =
    updating-ok env "ENR-000001" EnrollmentStatus.accepted 30 world {a = accepted_sample}
      updating_accepted

-- The catalog of the sample with its two slots taken.
abbrev full_course : TrainingCatalog
full_course = record course { registered_count = 2 }

abbrev full_world : World
full_world = record world { db = record world.db { training_catalog = full_course ∷ [] } }

-- The catalog of the sample after the acceptance of its waiting enrollment.
abbrev taken : TrainingCatalog
taken = record course { registered_count = 2; updated_at = 30 }

accepted-taken :
    find
      (has_id 3)
      (update_training_enrollment_status env "ENR-000001" EnrollmentStatus.accepted 30
        world).1.db.training_catalog
    ≡ some taken
unfolding update_training_enrollment_status updating move_count lock_with_catalog select_joined join
    statement transaction settle
accepted-taken = refl

update_status-max_slots_example :
    (taken.max_slots ≡ some 2)
    × ((taken.registered_count ≤ 2) ⊎ (taken.registered_count ≤ course.registered_count))
update_status-max_slots_example =
    update_status-max_slots env "ENR-000001" EnrollmentStatus.accepted 30 world 3 2 {c = course}
      {c' = taken} refl refl accepted-taken

-- An update that lowers the limit below the counter of the full catalog.
abbrev lower : TrainingCatalogUpdate
lower = record {
  title = none;
  description = none;
  pic_phone = none;
  category = none;
  max_slots = some 1;
  training_status = none;
  link = none;
  address = none;
  thumbnail = none;
  start_date = none;
  end_date = none;
  mentor = none;
  updated_at = 40;
}

abbrev lowered : TrainingCatalog
lowered = record full_course { max_slots = some 1; updated_at = 40 }

lower_reported : (update_training_catalog env "TRN-000003" lower full_world).0 ≡ ok lowered
unfolding update_training_catalog Catalogs.updating select_catalog write_catalog
    apply_training_catalog_update statement transaction settle
lower_reported = refl

update_training_catalog-Patched_example :
    let after = (update_training_catalog env "TRN-000003" lower full_world).1.db.training_catalog in
    Patched lower full_course lowered
    × (find (Catalogs.has_public_id "TRN-000003") after ≡ some lowered)
    × (find (Catalogs.has_public_id "TRN-000009") after
        ≡ find (Catalogs.has_public_id "TRN-000009") full_world.db.training_catalog)
update_training_catalog-Patched_example =
    update_training_catalog-Patched env "TRN-000003" "TRN-000009" lower full_world {c = full_course}
      {a = lowered} refl refl lower_reported

update_training_catalog-overbooks_example :
    let r = update_training_catalog env "TRN-000003" lower full_world in
    (a : TrainingCatalog) × (r.0 ≡ ok a)
    × (find (Catalogs.has_public_id "TRN-000003") r.1.db.training_catalog ≡ some a)
    × (a.max_slots ≡ some 1)
    × (1 < a.registered_count)
update_training_catalog-overbooks_example =
    update_training_catalog-overbooks env "TRN-000003" lower full_world 1 {c = full_course}
      (λ k. refl) refl refl (omega arith) (omega arith) refl refl refl

update_catalog-IsValid_example : IsValid (update_training_catalog env "TRN-000003" lower world).1.db
update_catalog-IsValid_example = update_catalog-IsValid env "TRN-000003" lower world sample-IsValid
