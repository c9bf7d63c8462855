-- ===== src/Businesses/Scope.antt =====
-- What a member can do to enterprises: only to their own, and not to the fields of the assessment.
use youthpreneur_be.Base.{ℕ, zero, suc, ◌≡◌, arith, String, [], false, ◌==◌, ◌&&◌, not, some, find}
use youthpreneur_be.Errors.{UsecaseError, usecase, wrap}
use youthpreneur_be.Entity.{User, is_admin}
use youthpreneur_be.Entity.Business.{Enterprise, AuditAction}
use youthpreneur_be.Db.{World, Env, unix}
use youthpreneur_be.Db.Keeps.{
  Keeps, keeps_rules, Keeps-bind, Keeps-map_err, Keeps-attempt, Keeps-draw, Keeps-pure, Keeps-throw,
  Keeps-if, Keeps-result, Keeps-now, Keeps-checked,
}
use youthpreneur_be.Accounts.{generate_public_id, public_id_attempts}
use youthpreneur_be.Enterprises
use youthpreneur_be.Enterprises.{has_id}
use youthpreneur_be.Enterprises.Scope.{Has, find-Has, create-Has, update-Has, soft_delete-Has}
use youthpreneur_be.Businesses.{
  is_duplicate_public_id, map_enterprise_repository_error, scope_owner_id, creation_fields,
  event_of, create_attempts, create_enterprise, update_enterprise, delete_enterprise,
}
use youthpreneur_be.Businesses.Input.{
  CreateEnterpriseInput, UpdateEnterpriseInput, owner_restricted_change, validated_enterprise,
  validated_update,
}
use youthpreneur_be.Businesses.Audited.{Request, creation, change, deletion, after}

abbrev pub sender : Request → User
sender (creation input) = input.actor
sender (change actor p input) = actor
sender (deletion actor p) = actor

module _ (env : Env) (i : ℕ) (e : Enterprise) where
  attempts-Has :
      (k : ℕ) (actor : User) (x : Enterprise) → Keeps (Has i e) (create_attempts env k actor x)
  unfolding create_attempts generate_public_id
  attempts-Has zero actor x = search (keeps_rules)
  attempts-Has (suc k) actor x = Keeps-bind _ _ (Keeps-map_err _ _ (Keeps-draw env _)) (λ p.
      Keeps-bind _ _
        (Keeps-attempt _ (
          create-Has env i e (record x { public_id = p })
            (event_of actor AuditAction.create (creation_fields x) x.created_at)))
        (λ r.
          Keeps-result _ _ r (λ a. Keeps-pure a)
            (λ f.
              Keeps-if (is_duplicate_public_id f) _ _ (attempts-Has k actor x)
                (Keeps-throw (wrap "create enterprise" f)))))

  creation-Has : (input : CreateEnterpriseInput) → Keeps (Has i e) (create_enterprise env input)
  unfolding create_enterprise
  creation-Has input =
      Keeps-if (input.actor.id == 0) _ _ (Keeps-throw (usecase UsecaseError.forbidden)) (
        Keeps-checked (validated_enterprise env input) _ (λ x h.
          Keeps-bind _ _ (Keeps-now env) (λ t.
            attempts-Has public_id_attempts input.actor
              (record x { created_at = unix t; updated_at = unix t }))))

  module _ (actor : User) (scoped : (scope_owner_id actor == 0) ≡ false)
      (foreign : (e.user_id == scope_owner_id actor) ≡ false) where
    change-Has :
        (p : String) (input : UpdateEnterpriseInput)
        → Keeps (Has i e) (update_enterprise env actor p input)
    unfolding update_enterprise
    change-Has p input =
        Keeps-if (not (is_admin actor.role) && owner_restricted_change input) _ _
          (Keeps-throw (usecase UsecaseError.forbidden))
          (Keeps-bind _ _ (Keeps-now env) (λ t.
            Keeps-checked (validated_update env (unix t) input) _ (λ u h.
              Keeps-map_err map_enterprise_repository_error _ (
                update-Has env i e p (scope_owner_id actor) scoped foreign u
                  (event_of actor AuditAction.update [] (unix t))))))

    lookup-Has :
        (p : String)
        → Keeps (Has i e) (Enterprises.find_enterprise_by_public_id env p (scope_owner_id actor))
    unfolding Enterprises.find_enterprise_by_public_id
    lookup-Has p = find-Has env i e "find enterprise" p (scope_owner_id actor)

    deletion-Has : (p : String) → Keeps (Has i e) (delete_enterprise env actor p)
    unfolding delete_enterprise
    deletion-Has p =
        Keeps-bind _ _ (Keeps-map_err map_enterprise_repository_error _ (lookup-Has p)) (λ found.
          Keeps-bind _ _ (Keeps-now env) (λ t. Keeps-map_err map_enterprise_repository_error _ (
            soft_delete-Has env i e p (scope_owner_id actor) scoped foreign (unix t)
              (record (event_of actor AuditAction.delete [] (unix t)) {
                enterprise_id = found.enterprise.id;
              }))))

-- A request of a member whose id is not zero, whatever it reports, leaves every enterprise of another
-- owner as it was.
pub after-foreign :
    (env : Env) (r : Request) (w : World) (i : ℕ) (e : Enterprise)
    → is_admin (sender r).role ≡ false
    → ((sender r).id == 0) ≡ false
    → (e.user_id == (sender r).id) ≡ false
    → find (has_id i) w.db.enterprises ≡ some e
    → find (has_id i) (after env r w).db.enterprises ≡ some e
unfolding after scope_owner_id
after-foreign env (creation input) w i e member known foreign there =
    (creation-Has env i e input).at w there
after-foreign env (change actor p input) w i e member known foreign there =
    (change-Has env i e actor (ground arith) (ground arith) p input).at w there
after-foreign env (deletion actor p) w i e member known foreign there =
    (deletion-Has env i e actor (ground arith) (ground arith) p).at w there
