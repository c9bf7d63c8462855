-- ===== src/Businesses/Audited.antt =====
-- That the operations on enterprises keep each enterprise equal to what its audit trail says.
use youthpreneur_be.Base.{
  ℕ, zero, suc, ◌≡◌, refl, sym, arith, String, List, [], ◌∷◌, not, ◌&&◌, ◌==◌,
}
use youthpreneur_be.Errors.{UsecaseError, usecase, wrap}
use youthpreneur_be.Entity.{User, is_admin}
use youthpreneur_be.Entity.Business.{
  Enterprise, EnterpriseUpdate, EnterpriseAuditEvent, AuditAction,
}
use youthpreneur_be.Db.{World, Env, unix, statement}
use youthpreneur_be.Db.Keeps.{
  Keeps, keeps_rules, Keeps-bind, Keeps-map_err, Keeps-attempt, Keeps-draw, Keeps-pure, Keeps-throw,
  Keeps-if, Keeps-result, Keeps-now, Keeps-checked,
}
use youthpreneur_be.Accounts.{generate_public_id, public_id_attempts}
use youthpreneur_be.Enterprises
use youthpreneur_be.Enterprises.Trail.{Column, key, value, value_after, text_of-nullable}
use youthpreneur_be.Enterprises.Invariant.{IsAudited, IsStable}
use youthpreneur_be.Enterprises.Methods.{
  GivesStable, create-IsAudited, update-IsAudited, delete-IsAudited,
}
use youthpreneur_be.Businesses.{
  is_duplicate_public_id, map_enterprise_repository_error, scope_owner_id, creation_fields,
  event_of, create_attempts, create_enterprise, update_enterprise, delete_enterprise,
}
use youthpreneur_be.Businesses.Input.{
  CreateEnterpriseInput, UpdateEnterpriseInput, owner_restricted_change, validated_enterprise,
  validated_update,
}
use youthpreneur_be.Businesses.Checked.{validated_enterprise-ok}
use youthpreneur_be.Businesses.Admitted.{KeepsAmounts, new-IsStable, validated_update-GivesStable}

-- The event of a creation tells the whole row.
creation_fields-told :
    (e : Enterprise) (p : String)
    → e.dispora_support ≡ ""
    → (c : Column)
    → value_after (key c) (creation_fields e) "" ≡ value c (record e { public_id = p })
unfolding creation_fields value_after
creation_fields-told e p none_yet Column.enterprise_name = refl
creation_fields-told e p none_yet Column.description = text_of-nullable e.description
creation_fields-told e p none_yet Column.address = text_of-nullable e.address
creation_fields-told e p none_yet Column.focus_commodity = text_of-nullable e.focus_commodity
creation_fields-told e p none_yet Column.dispora_support = sym none_yet
creation_fields-told e p none_yet Column.business_sector = refl
creation_fields-told e p none_yet Column.legal_status = text_of-nullable e.legal_status
creation_fields-told e p none_yet Column.business_digitization =
    text_of-nullable e.business_digitization
creation_fields-told e p none_yet Column.intervention_needs = text_of-nullable e.intervention_needs
creation_fields-told e p none_yet Column.training_status = text_of-nullable e.training_status
creation_fields-told e p none_yet Column.mentoring_status = text_of-nullable e.mentoring_status
creation_fields-told e p none_yet Column.capital_access = text_of-nullable e.capital_access
creation_fields-told e p none_yet Column.partnership = text_of-nullable e.partnership
creation_fields-told e p none_yet Column.initial_turnover = refl
creation_fields-told e p none_yet Column.current_turnover = refl
creation_fields-told e p none_yet Column.district = text_of-nullable e.district
creation_fields-told e p none_yet Column.status = refl

module _ (env : Env) where
  stored-Keeps :
      (actor : User) (e : Enterprise) (p : String)
      → IsStable env e
      → e.dispora_support ≡ ""
      → Keeps (IsAudited env) (
          Enterprises.create_enterprise env
            (record e { public_id = p })
            (event_of actor AuditAction.create (creation_fields e) e.created_at))
  stored-Keeps actor e p stable none_yet = record {
    at = λ w v.
        create-IsAudited env (record e { public_id = p })
          (event_of actor AuditAction.create (creation_fields e) e.created_at) w stable
          (creation_fields-told e p none_yet) v;
  }

  attempts-Keeps :
      (k : ℕ) (actor : User) (e : Enterprise)
      → IsStable env e
      → e.dispora_support ≡ ""
      → Keeps (IsAudited env) (create_attempts env k actor e)
  unfolding create_attempts generate_public_id
  attempts-Keeps zero actor e stable none_yet = search (keeps_rules)
  attempts-Keeps (suc k) actor e stable none_yet =
      Keeps-bind _ _ (Keeps-map_err _ _ (Keeps-draw env _)) (λ p.
        Keeps-bind _ _ (Keeps-attempt _ (stored-Keeps actor e p stable none_yet)) (λ r.
          Keeps-result _ _ r (λ a. Keeps-pure a)
            (λ x.
              Keeps-if (is_duplicate_public_id x) _ _ (attempts-Keeps k actor e stable none_yet)
                (Keeps-throw (wrap "create enterprise" x)))))

  create-Keeps :
      (input : CreateEnterpriseInput)
      → KeepsAmounts env
      → Keeps (IsAudited env) (create_enterprise env input)
  unfolding create_enterprise
  create-Keeps input keeps =
      Keeps-if (input.actor.id == 0) _ _ (Keeps-throw (usecase UsecaseError.forbidden)) (
        Keeps-checked (validated_enterprise env input) _ (λ e h.
          let n = (validated_enterprise-ok env input).at e h in
          Keeps-bind _ _ (Keeps-now env) (λ t.
            attempts-Keeps public_id_attempts input.actor
              (record e { created_at = unix t; updated_at = unix t })
              (new-IsStable env input e n keeps) n.dispora_support)))

  changed-Keeps :
      (p : String) (owner : ℕ) (u : EnterpriseUpdate) (event : EnterpriseAuditEvent)
      → GivesStable env u
      → Keeps (IsAudited env) (Enterprises.update_enterprise env p owner u event)
  changed-Keeps p owner u event gives = record {
    at = λ w v. update-IsAudited env p owner u event w gives v;
  }

  update-Keeps :
      (actor : User) (p : String) (input : UpdateEnterpriseInput)
      → KeepsAmounts env
      → Keeps (IsAudited env) (update_enterprise env actor p input)
  unfolding update_enterprise
  update-Keeps actor p input keeps =
      Keeps-if (not (is_admin actor.role) && owner_restricted_change input) _ _
        (Keeps-throw (usecase UsecaseError.forbidden))
        (Keeps-bind _ _ (Keeps-now env) (λ t.
          Keeps-checked (validated_update env (unix t) input) _ (λ u h.
            Keeps-map_err map_enterprise_repository_error _ (
              changed-Keeps p (scope_owner_id actor) u
                (event_of actor AuditAction.update [] (unix t))
                (validated_update-GivesStable env (unix t) input keeps h)))))

  found-Keeps :
      (p : String) (owner : ℕ)
      → Keeps (IsAudited env) (Enterprises.find_enterprise_by_public_id env p owner)
  unfolding Enterprises.find_enterprise_by_public_id Enterprises.find_scoped
      Enterprises.select_scoped statement
  found-Keeps p owner = record { at = λ w h. ground arith }

  removed-Keeps :
      (p : String) (owner at : ℕ) (event : EnterpriseAuditEvent)
      → event.changed_fields ≡ []
      → Keeps (IsAudited env) (Enterprises.soft_delete_enterprise env p owner at event)
  removed-Keeps p owner at event none_changed = record {
    at = λ w v. delete-IsAudited env p owner at event w none_changed v;
  }

  delete-Keeps : (actor : User) (p : String) → Keeps (IsAudited env) (delete_enterprise env actor p)
  unfolding delete_enterprise
  delete-Keeps actor p =
      Keeps-bind _ _
        (Keeps-map_err map_enterprise_repository_error _ (found-Keeps p (scope_owner_id actor)))
        (λ e. Keeps-bind _ _ (Keeps-now env) (λ t. Keeps-map_err map_enterprise_repository_error _ (
          removed-Keeps p (scope_owner_id actor) (unix t)
            (record (event_of actor AuditAction.delete [] (unix t)) {
              enterprise_id = e.enterprise.id;
            })
            refl)))

-- A request that changes enterprises.
pub data Request : Type 0 where
  creation : CreateEnterpriseInput → Request
  change : User → String → UpdateEnterpriseInput → Request
  deletion : User → String → Request

-- The tables after a request, whatever it reports.
unfoldable pub after : Env → Request → World → World
after env (creation input) w = (create_enterprise env input w).1
after env (change actor p input) w = (update_enterprise env actor p input w).1
after env (deletion actor p) w = (delete_enterprise env actor p w).1

unfoldable pub serve : Env → List Request → World → World
unfolding after
serve env [] w = w
serve env (r ∷ rs) w = serve env rs (after env r w)

after-IsAudited :
    (env : Env) (r : Request) (w : World)
    → KeepsAmounts env
    → IsAudited env w.db
    → IsAudited env (after env r w).db
unfolding after
after-IsAudited env (creation input) w keeps v = (create-Keeps env input keeps).at w v
after-IsAudited env (change actor p input) w keeps v = (update-Keeps env actor p input keeps).at w v
after-IsAudited env (deletion actor p) w keeps v = (delete-Keeps env actor p).at w v

-- After any sequence of creations, changes and deletions, failed ones included, every audited column
-- of every enterprise is what the events of its trail say, read from the oldest on, if that holds at
-- the start and the turnover columns keep canonical amounts.
pub serve-IsAudited :
    (env : Env) (rs : List Request) (w : World)
    → KeepsAmounts env
    → IsAudited env w.db
    → IsAudited env (serve env rs w).db
unfolding serve
serve-IsAudited env [] w keeps v = v
serve-IsAudited env (r ∷ rs) w keeps v =
    serve-IsAudited env rs (after env r w) keeps (after-IsAudited env r w keeps v)
