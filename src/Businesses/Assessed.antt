-- ===== src/Businesses/Assessed.antt =====
-- A member's update leaves the assessment of every enterprise as it was.
use youthpreneur_be.Base.{
  ℕ, ◌≡◌, refl, sym, arith, String, Bool, true, false, ◌||◌, not, Option, none, some, [], is_null,
  inl, inr, Bool-cases,
}
use youthpreneur_be.Errors.{Result, ok, Result-cases}
use youthpreneur_be.Errors.Chain.{given, ok-injective}
use youthpreneur_be.Entity.{User, is_admin}
use youthpreneur_be.Entity.Business.{EnterpriseUpdate, AuditAction}
use youthpreneur_be.Db.{World, Env, tock, unix}
use youthpreneur_be.Enterprises.Invariant.{IsAudited}
use youthpreneur_be.Enterprises.Reserved.{reserved_at, Spares, update-reserved}
use youthpreneur_be.Businesses.{scope_owner_id, event_of, update_enterprise}
use youthpreneur_be.Businesses.Input.{
  UpdateEnterpriseInput, owner_restricted_change, validated_update,
}
use youthpreneur_be.Businesses.Checked.{IsChecked, validated_update-ok}
use youthpreneur_be.Businesses.Admitted.{KeepsAmounts, validated_update-GivesStable}

absent-given :
    (check : String → Result String) (raw : Option String) {o : Option String}
    → is_null raw ≡ true
    → given check raw ≡ ok o
    → o ≡ none
unfolding given
absent-given check none {o} h k = sym (ok-injective none o k)
absent-given check (some s) h k = absurd (ground arith)

-- A test of nine that fails has every one fail.
unrestricted : (a b : Bool) → (a || not b) ≡ false → (a ≡ false) × (b ≡ true)
unrestricted true b h = absurd (ground arith)
unrestricted false true h = (refl, refl)
unrestricted false false h = absurd (ground arith)

checked-Spares :
    (env : Env) (input : UpdateEnterpriseInput) (u : EnterpriseUpdate)
    → owner_restricted_change input ≡ false
    → IsChecked env input u
    → Spares u
unfolding owner_restricted_change
checked-Spares env input u free c =
    let (r0, status) = unrestricted _ (is_null input.status) free in
    let (r1, dispora_support) = unrestricted _ (is_null input.dispora_support) r0 in
    let (r2, partnership) = unrestricted _ (is_null input.partnership) r1 in
    let (r3, capital_access) = unrestricted _ (is_null input.capital_access) r2 in
    let (r4, mentoring_status) = unrestricted _ (is_null input.mentoring_status) r3 in
    let (r5, training_status) = unrestricted _ (is_null input.training_status) r4 in
    let (r6, intervention_needs) = unrestricted _ (is_null input.intervention_needs) r5 in
    let (r7, digitization) = unrestricted _ (is_null input.business_digitization) r6 in
    let (_, legal_status) = unrestricted false (is_null input.legal_status) r7 in
    record {
      legal_status = absent-given _ input.legal_status legal_status c.legal_status;
      business_digitization =
          absent-given _ input.business_digitization digitization c.business_digitization;
      intervention_needs =
          absent-given _ input.intervention_needs intervention_needs c.intervention_needs;
      training_status = absent-given _ input.training_status training_status c.training_status;
      mentoring_status = absent-given _ input.mentoring_status mentoring_status c.mentoring_status;
      capital_access = absent-given _ input.capital_access capital_access c.capital_access;
      partnership = absent-given _ input.partnership partnership c.partnership;
      dispora_support = absent-given _ input.dispora_support dispora_support c.dispora_support;
      status = absent-given _ input.status status c.status;
    }

-- An UpdateEnterprise of a member, whatever it asks for and reports, leaves the assessment, the
-- support and the status of every enterprise as they were, if the audit invariant holds and the
-- turnover columns keep canonical amounts.
pub update_enterprise-reserved :
    (env : Env) (actor : User) (p : String) (input : UpdateEnterpriseInput) (w : World) (i : ℕ)
    → is_admin actor.role ≡ false
    → KeepsAmounts env
    → IsAudited env w.db
    → reserved_at i (update_enterprise env actor p input w).1.db ≡ reserved_at i w.db
unfolding update_enterprise
update_enterprise-reserved env actor p input w i member keeps v =
    elim (Bool-cases (owner_restricted_change input)) [
      | inl restricted ↦ ground arith
      | inr free ↦
          let t = unix (env.clock w.ticks) in
          elim (Result-cases (validated_update env t input)) [
            | inr (failure, failed) ↦ ground arith
            | inl (u, passed) ↦
                let spares =
                  checked-Spares env input u free ((validated_update-ok env t input).at u passed) in
                ground (
                  arith,
                  update-reserved env i p (scope_owner_id actor) u
                      (event_of actor AuditAction.update [] t) (tock w) spares
                      (validated_update-GivesStable env t input keeps passed) v,
                )
          ]
    ]
