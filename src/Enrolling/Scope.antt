-- ===== src/Enrolling/Scope.antt =====
-- Who may do what to an enrollment, and that every operation keeps the counters exact.
use youthpreneur_be.Base.{
  ℕ, zero, suc, String, true, false, some, ◌≡◌, refl, trim_space, arith, find, ap, inl, inr,
}
use youthpreneur_be.Base.Rows.{find-passes}
use youthpreneur_be.Errors.{ok, Result-cases}
use youthpreneur_be.Entity.{User, TrainingEnrollment, is_admin, is_accepted, pending}
use youthpreneur_be.Db.{World, Env, tock, unix}
use youthpreneur_be.Db.Laws.{transaction-commit}
use youthpreneur_be.Db.Keeps.{
  Keeps, keeps_rules, Keeps-bind, Keeps-map_err, Keeps-attempt, Keeps-draw, Keeps-pure, Keeps-throw,
  Keeps-if, Keeps-result,
}
use youthpreneur_be.Enrollments.{
  is_current, in_scope, NewEnrollment, status_or_pending, cancelling, cancel_training_enrollment,
  create_training_enrollment,
}
use youthpreneur_be.Enrollments.Invariant.{IsValid}
use youthpreneur_be.Enrollments.Outcomes.{cancelling-ok}
use youthpreneur_be.Enrollments.Methods.{create-IsValid, cancel-IsValid, update_status-IsValid}
use youthpreneur_be.Accounts.{generate_public_id, public_id_attempts}
use youthpreneur_be.Enrolling.{
  is_taken_public_id, map_enrollment_error, enroll, enroll_attempts, date_only, cancel_enrollment,
  update_status, requested_status, enrollment_scope_user_id, CreateTrainingEnrollmentInput,
  UpdateTrainingEnrollmentStatusInput,
}

module _ (env : Env) where
  -- A member whose cancellation succeeds owned the enrollment, which was there.
  pub cancel_enrollment-scope :
      (actor : User) (p : String) (w : World)
      → is_admin actor.role ≡ false
      → (cancel_enrollment env actor p w).0 ≡ ok tt
      → (e : TrainingEnrollment) × (find (in_scope env p actor.id) w.db.training_enrollments
          ≡ some e)
        × (is_current p e ≡ true)
        × (e.user_id ≡ actor.id)
  unfolding cancel_enrollment cancel_training_enrollment enrollment_scope_user_id
  cancel_enrollment-scope actor p w member success =
      let t = unix (env.clock w.ticks) in
      let done : (cancel_training_enrollment env p actor.id t (tock w)).0 ≡ ok tt = ground arith in
      let (u, ran, _) = transaction-commit env (cancelling env p actor.id t) (tock w) done in
      let (e, found, _) = cancelling-ok env p actor.id t (tock (tock w)) (ap (λ r. r.0) ran) in
      let passes = find-passes (in_scope env p actor.id) w.db.training_enrollments found in
      (e, found, ground arith, ground arith)

  create-Keeps :
      (n : NewEnrollment)
      → is_accepted (status_or_pending n.status) ≡ false
      → Keeps IsValid (create_training_enrollment env n)
  create-Keeps n waiting = record { at = λ w v. create-IsValid env n w waiting v }

  attempts-Keeps :
      (k : ℕ) (n : NewEnrollment)
      → is_accepted (status_or_pending n.status) ≡ false
      → Keeps IsValid (enroll_attempts env k n)
  unfolding enroll_attempts generate_public_id
  attempts-Keeps zero n waiting = search (keeps_rules)
  attempts-Keeps (suc k) n waiting = Keeps-bind _ _ (Keeps-map_err _ _ (Keeps-draw env _)) (λ p.
      Keeps-bind _ _ (Keeps-attempt _ (create-Keeps (record n { public_id = p }) waiting)) (λ r.
        Keeps-result _ _ r (λ a. Keeps-pure a)
          (λ e.
            Keeps-if (is_taken_public_id e) _ _ (attempts-Keeps k n waiting)
              (Keeps-throw (map_enrollment_error e)))))

  -- Enrolling keeps the counters and the indexes right, through its attempts and their failures.
  pub enroll-IsValid :
      (input : CreateTrainingEnrollmentInput) (w : World)
      → IsValid w.db
      → IsValid (enroll env input w).1.db
  unfolding enroll
  enroll-IsValid input w v =
      let t = unix (env.clock w.ticks) in
      let attempt =
        attempts-Keeps public_id_attempts
          (record {
            public_id = "";
            user_id = input.actor.id;
            register_date = some (date_only t);
            status = some pending;
            created_at = t;
            updated_at = t;
            catalog_public_id = trim_space input.catalog_public_id;
          })
          refl in
      let kept = attempt.at (tock w) v in ground (arith, kept)

  pub cancel_enrollment-IsValid :
      (actor : User) (p : String) (w : World)
      → IsValid w.db
      → IsValid (cancel_enrollment env actor p w).1.db
  unfolding cancel_enrollment
  cancel_enrollment-IsValid actor p w v = ground (
    arith,
    cancel-IsValid env p (enrollment_scope_user_id actor) (unix (env.clock w.ticks)) (tock w) v,
  )

  pub update_status-keeps :
      (input : UpdateTrainingEnrollmentStatusInput) (w : World)
      → IsValid w.db
      → IsValid (update_status env input w).1.db
  unfolding update_status
  update_status-keeps input w v = elim (Result-cases (requested_status env input.status)) [
    | inl (s, r) ↦ ground (
      arith,
      update_status-IsValid env (trim_space input.public_id) s (unix (env.clock w.ticks)) (tock w)
          v,
    )
    | inr (e, r) ↦ ground arith
  ]
