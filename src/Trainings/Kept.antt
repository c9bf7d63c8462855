-- ===== src/Trainings/Kept.antt =====
-- What the use case of the trainings guarantees: catalogs that the table takes, and counters that stay
-- exact.
use youthpreneur_be.Base.{
  ℕ, zero, suc, ◌≡◌, ap, sym, ◌∙◌, arith, String, Bool, true, false, ◌||◌, not, Option, none, some,
  ◌==◌, str_eq, trim_space, inl, inr, Bool-cases,
}
use youthpreneur_be.Errors.{UsecaseError, usecase, bad_request, wrap, ok}
use youthpreneur_be.Errors.Chain
use youthpreneur_be.Entity.{User, TrainingCatalog, ProcessStatus, is_admin}
use youthpreneur_be.Db.{World, Env, M, throw, ◌>>=◌, map_err, now, unix}
use youthpreneur_be.Db.Keeps.{
  Keeps, keeps_rules, Keeps-bind, Keeps-map_err, Keeps-attempt, Keeps-draw, Keeps-pure, Keeps-throw,
  Keeps-if, Keeps-result, Keeps-now, Keeps-checked,
}
use youthpreneur_be.Accounts.{generate_public_id, public_id_attempts}
use youthpreneur_be.Catalogs
use youthpreneur_be.Catalogs.{TrainingCatalogUpdate, breaks_check, ends_before_start}
use youthpreneur_be.Enrollments.Invariant.{IsValid}
use youthpreneur_be.Enrollments.CatalogCalls.{
  create_catalog-IsValid, update_catalog-IsValid, soft_delete_catalog-IsValid,
}
use youthpreneur_be.Trainings.{
  is_duplicate_catalog, map_catalog_error, status_update, create_attempts, create_training_catalog,
  update_training_catalog, update_training_catalog_status, delete_training_catalog,
}
use youthpreneur_be.Trainings.Input.{
  CreateTrainingCatalogInput, UpdateTrainingCatalogInput, normalize_max_slots, check_dates,
  normalize_catalog_text, normalize_category, normalize_training_status, normalize_catalog_link,
  parse_training_date, process_status_of, build_training_catalog, build_training_catalog_update,
  is_empty_training_catalog_update,
}

normalize_max_slots-ok :
    (raw : Option ℕ) {o : Option ℕ}
    → normalize_max_slots raw ≡ ok o
    → (elim o [ none ↦ false | some m ↦ m == 0 ]) ≡ false
unfolding normalize_max_slots
normalize_max_slots-ok none {o} h =
    ap (λ (x : Option ℕ). elim x [ none ↦ false | some m ↦ m == 0 ])
      (sym (Chain.ok-injective none o h))
normalize_max_slots-ok (some n) {o} h = elim (Bool-cases (n == 0)) [
  | inl zero_slots ↦ absurd (ground arith)
  | inr positive ↦
      let same : some n ≡ o = Chain.ok-injective (some n) o (ground arith) in
      ap (λ (x : Option ℕ). elim x [ none ↦ false | some m ↦ m == 0 ]) (sym same) ∙ positive
]

check_dates-ok :
    (start end : Option ℕ) {u : Unit {0}}
    → check_dates start end ≡ ok u
    → ends_before_start start end ≡ false
unfolding check_dates
check_dates-ok start end h = elim (Bool-cases (ends_before_start start end)) [
  | inl early ↦ absurd (ground arith)
  | inr fine ↦ fine
]

record Passes (c : TrainingCatalog) : Type 0 where
  at : breaks_check c ≡ false

both_false : (a b : Bool) → a ≡ false → b ≡ false → (a || b) ≡ false
both_false true b h k = h
both_false false b h k = k

built-Passes :
    (env : Env) (input : CreateTrainingCatalogInput) (today : ℕ)
    → Chain.Yields Passes (build_training_catalog env input today)
unfolding build_training_catalog
built-Passes env input today =
    Chain.Yields-bind (normalize_catalog_text "title" 255 "255" input.title) _ (λ title _.
      Chain.Yields-bind (normalize_catalog_text "pic_phone" 50 "50" input.pic_phone) _ (λ phone _.
        Chain.Yields-bind (normalize_category input.category) _ (λ category _.
          Chain.Yields-bind (normalize_catalog_link env input.link) _ (λ link _.
            Chain.Yields-bind (normalize_training_status input.training_status) _ (λ status _.
              Chain.Yields-bind (normalize_max_slots input.max_slots) _ (λ slots s.
                Chain.Yields-bind (parse_training_date env "start_date" input.start_date) _
                  (λ start _.
                    Chain.Yields-bind (parse_training_date env "end_date" input.end_date) _
                      (λ end _. Chain.Yields-bind (check_dates start end) _ (λ checked d.
                        Chain.Yields-bind (normalize_catalog_text "mentor" 255 "255" input.mentor) _
                          (λ mentor _.
                            Chain.Yields-bind
                              (normalize_catalog_text "thumbnail" 255 "255" input.thumbnail) _
                              (λ thumbnail _. Chain.Yields-ok _ (record {
                                at =
                                    both_false (ends_before_start start end) _
                                      (check_dates-ok start end d)
                                      (normalize_max_slots-ok input.max_slots s);
                              }))))))))))))

-- A catalog that CreateTrainingCatalog builds meets the CHECK constraints of the table: its dates are
-- in order and it has no limit of zero.
pub build_training_catalog-passes :
    (env : Env) (input : CreateTrainingCatalogInput) (today : ℕ) {c : TrainingCatalog}
    → build_training_catalog env input today ≡ ok c
    → breaks_check c ≡ false
build_training_catalog-passes env input today {c} h = ((built-Passes env input today).at c h).at

module _ (env : Env) where
  stored-Keeps : (c : TrainingCatalog) → Keeps IsValid (Catalogs.create_training_catalog env c)
  stored-Keeps c = record { at = λ w v. create_catalog-IsValid env c w v }

  changed-Keeps :
      (p : String) (u : TrainingCatalogUpdate)
      → Keeps IsValid (Catalogs.update_training_catalog env p u)
  changed-Keeps p u = record { at = λ w v. update_catalog-IsValid env p u w v }

  removed-Keeps :
      (p : String) (at : ℕ) → Keeps IsValid (Catalogs.soft_delete_training_catalog env p at)
  removed-Keeps p at = record { at = λ w v. soft_delete_catalog-IsValid env p at w v }

  attempts-Keeps : (k : ℕ) (c : TrainingCatalog) → Keeps IsValid (create_attempts env k c)
  unfolding create_attempts generate_public_id
  attempts-Keeps zero c = search (keeps_rules)
  attempts-Keeps (suc k) c = Keeps-bind _ _ (Keeps-map_err _ _ (Keeps-draw env _)) (λ p.
      Keeps-bind _ _ (Keeps-attempt _ (stored-Keeps (record c { public_id = p }))) (λ r.
        Keeps-result _ _ r (λ a. Keeps-pure a)
          (λ e.
            Keeps-if (is_duplicate_catalog e) _ _ (attempts-Keeps k c)
              (Keeps-throw (wrap "create training catalog" e)))))

  create-Keeps :
      (input : CreateTrainingCatalogInput) → Keeps IsValid (create_training_catalog env input)
  unfolding create_training_catalog
  create-Keeps input =
      Keeps-if (not (is_admin input.actor.role)) _ _ (Keeps-throw (usecase UsecaseError.forbidden))
        (Keeps-bind _ _ (Keeps-now env) (λ t.
          Keeps-checked (build_training_catalog env input (unix t)) _
            (λ c h. attempts-Keeps public_id_attempts c)))

  update-Keeps :
      (actor : User) (p : String) (input : UpdateTrainingCatalogInput)
      → Keeps IsValid (update_training_catalog env actor p input)
  unfolding update_training_catalog
  update-Keeps actor p input =
      Keeps-if (not (is_admin actor.role)) _ _ (Keeps-throw (usecase UsecaseError.forbidden)) (
        Keeps-checked (build_training_catalog_update env input) _ (λ u h.
          Keeps-if (is_empty_training_catalog_update u) _ _
            (Keeps-throw (bad_request "no update fields supplied"))
            (Keeps-bind _ _ (Keeps-now env) (λ t.
              Keeps-map_err map_catalog_error _
                (changed-Keeps p (record u { updated_at = unix t }))))))

  known_status-Keeps :
      (p : String) (o : Option ProcessStatus)
      → Keeps IsValid (elim o as (λ _. M TrainingCatalog) [
        | none ↦ throw (bad_request "invalid training_status")
        | some s ↦
            (now env >>= λ t.
            map_err map_catalog_error
              (Catalogs.update_training_catalog env p (status_update (some s) (unix t))))
      ])
  known_status-Keeps p none = Keeps-throw (bad_request "invalid training_status")
  known_status-Keeps p (some s) =
      Keeps-bind _ _ (Keeps-now env)
        (λ t. Keeps-map_err map_catalog_error _ (changed-Keeps p (status_update (some s) (unix t))))

  status-Keeps :
      (actor : User) (p raw : String)
      → Keeps IsValid (update_training_catalog_status env actor p raw)
  unfolding update_training_catalog_status
  status-Keeps actor p raw =
      Keeps-if (not (is_admin actor.role)) _ _ (Keeps-throw (usecase UsecaseError.forbidden)) (
        Keeps-if (str_eq (trim_space raw) "") _ _
          (Keeps-throw (bad_request "training_status is required"))
          (known_status-Keeps p (process_status_of (trim_space raw))))

  delete-Keeps : (actor : User) (p : String) → Keeps IsValid (delete_training_catalog env actor p)
  unfolding delete_training_catalog
  delete-Keeps actor p =
      Keeps-if (not (is_admin actor.role)) _ _ (Keeps-throw (usecase UsecaseError.forbidden)) (
        Keeps-bind _ _ (Keeps-now env)
          (λ t. Keeps-map_err map_catalog_error _ (removed-Keeps p (unix t))))

-- A request that changes the catalog of trainings.
pub data Request : Type 0 where
  creation : CreateTrainingCatalogInput → Request
  change : User → String → UpdateTrainingCatalogInput → Request
  status_change : User → String → String → Request
  deletion : User → String → Request

-- The tables after a request, whatever it reports.
unfoldable pub after : Env → Request → World → World
after env (creation input) w = (create_training_catalog env input w).1
after env (change actor p input) w = (update_training_catalog env actor p input w).1
after env (status_change actor p raw) w = (update_training_catalog_status env actor p raw w).1
after env (deletion actor p) w = (delete_training_catalog env actor p w).1

-- After any request on the catalog of trainings, a failed one included, the counters of registered
-- members are still exact and every enrollment still refers to a catalog, if that holds before it.
pub after-IsValid :
    (env : Env) (r : Request) (w : World) → IsValid w.db → IsValid (after env r w).db
unfolding after
after-IsValid env (creation input) w v = (create-Keeps env input).at w v
after-IsValid env (change actor p input) w v = (update-Keeps env actor p input).at w v
after-IsValid env (status_change actor p raw) w v = (status-Keeps env actor p raw).at w v
after-IsValid env (deletion actor p) w v = (delete-Keeps env actor p).at w v
