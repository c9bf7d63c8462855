-- ===== src/Enrolling/Examples.antt =====
-- Examples of enrolling and cancelling.
use youthpreneur_be.Base.{◌≡◌, refl, true, some, find}
use youthpreneur_be.Entity.{TrainingEnrollment}
use youthpreneur_be.Db.{statement, transaction, settle}
use youthpreneur_be.Enrollments.{in_scope, is_current, cancelling, cancel_training_enrollment}
use youthpreneur_be.Enrollments.Invariant.{IsValid}
use youthpreneur_be.Enrollments.Examples.{sample-IsValid}
use youthpreneur_be.Enrolling.{
  enroll, cancel_enrollment, enrollment_scope_user_id, CreateTrainingEnrollmentInput,
}
use youthpreneur_be.Enrolling.Scope.{cancel_enrollment-scope, enroll-IsValid}
use youthpreneur_be.Pages.{Page, query, cut_page, clamp}
use youthpreneur_be.Enrollments.{join}
use youthpreneur_be.Enrollments.Listing.{
  NamedRow, joined_rows, matches_filter, find_training_enrollments,
}
use youthpreneur_be.Enrolling.{normalize_enrollment_status}
use youthpreneur_be.Enrolling.Lists.{
  FindTrainingEnrollmentsInput, find_my_enrollments, find_enrollments,
}
use youthpreneur_be.Enrolling.History.{AreOf, find_my_enrollments-AreOf}
use youthpreneur_be.Sample.{env, world, ann, course, enrollment}
use youthpreneur_be.Base.{trim_space, none, [], ◌∷◌}
use youthpreneur_be.Errors.{ok}
use youthpreneur_be.Entity.{EnrollmentStatus}

cancel_enrollment-scope_example :
    (e : TrainingEnrollment) × (find (in_scope env "ENR-000001" 1) world.db.training_enrollments
      ≡ some e)
    × (is_current "ENR-000001" e ≡ true)
    × (e.user_id ≡ 1)
unfolding cancel_enrollment cancel_training_enrollment cancelling enrollment_scope_user_id statement
    transaction settle
cancel_enrollment-scope_example = cancel_enrollment-scope env ann "ENR-000001" world refl refl

abbrev request : CreateTrainingEnrollmentInput
request = record { actor = ann; catalog_public_id = "TRN-000003" }

enroll-IsValid_example : IsValid (enroll env request world).1.db
enroll-IsValid_example = enroll-IsValid env request world sample-IsValid

abbrev history : FindTrainingEnrollmentsInput
history = record { actor = ann; search = ""; status = ""; cursor = 0; limit = 5 }

abbrev own_page : Page NamedRow
own_page = record {
  items =
      (
        record {
          enrollment = enrollment 1 "ENR-000001" 1 EnrollmentStatus.pending;
          user_public_id = "YTP-000001";
          full_name = "";
          catalog = course;
        },
        none,
      )
      ∷ [];
  next_cursor = 0;
}

history-shown : (find_my_enrollments env history world).0 ≡ ok own_page
unfolding find_my_enrollments find_enrollments find_training_enrollments statement
    normalize_enrollment_status matches_filter joined_rows join query cut_page clamp trim_space
history-shown = refl

find_my_enrollments-AreOf_example : AreOf 1 own_page
find_my_enrollments-AreOf_example = find_my_enrollments-AreOf env history world history-shown
