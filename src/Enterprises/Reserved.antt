-- ===== src/Enterprises/Reserved.antt =====
-- The columns of the assessment, which an update that gives none of them leaves as they are.
use youthpreneur_be.Base.{
  ℕ, ◌≡◌, refl, ap, sym, ◌∙◌, arith, String, Option, none, some, List, [], ◌∷◌, Bool, ◌≤◌, find,
  update, count, inl, inr, Bool-cases, Option-cases,
}
use youthpreneur_be.Base.Rows.{find-update, All-find}
use youthpreneur_be.Entity.Business.{Enterprise, EnterpriseUpdate, EnterpriseAuditEvent}
use youthpreneur_be.Db.{Db, World, Env, tock}
use youthpreneur_be.Db.Laws.{transaction_if-keeps_ok}
use youthpreneur_be.Enterprises.{has_id, in_scope, written, updating, update_enterprise}
use youthpreneur_be.Enterprises.Merge.{merged}
use youthpreneur_be.Enterprises.Invariant.{IsStable, IsAudited, same_row}
use youthpreneur_be.Enterprises.Methods.{GivesStable, single-scope, merged-IsStable}
use youthpreneur_be.Enterprises.Outcomes.{updating-ok}

-- The columns that only admins may change.
abbrev pub reserved : Enterprise → List String
reserved e =
    e.legal_status ∷ e.business_digitization ∷ e.intervention_needs ∷ e.training_status
    ∷ e.mentoring_status ∷ e.capital_access ∷ e.partnership ∷ e.dispora_support ∷ e.status ∷ []

abbrev reserved_of : Option Enterprise → Option (List String)
reserved_of none = none
reserved_of (some e) = some (reserved e)

abbrev pub reserved_at : ℕ → Db → Option (List String)
reserved_at i d = reserved_of (find (has_id i) d.enterprises)

-- An update that gives none of them.
pub record Spares (u : EnterpriseUpdate) : Type 0 where
  pub legal_status : u.legal_status ≡ none
  pub business_digitization : u.business_digitization ≡ none
  pub intervention_needs : u.intervention_needs ≡ none
  pub training_status : u.training_status ≡ none
  pub mentoring_status : u.mentoring_status ≡ none
  pub capital_access : u.capital_access ≡ none
  pub partnership : u.partnership ≡ none
  pub dispora_support : u.dispora_support ≡ none
  pub status : u.status ≡ none

merged-reserved :
    (e : Enterprise) (u : EnterpriseUpdate) → Spares u → reserved (merged e u) ≡ reserved e
unfolding merged
merged-reserved e u s =
    rw
      (
        s.legal_status, s.business_digitization, s.intervention_needs, s.training_status,
        s.mentoring_status, s.capital_access, s.partnership, s.dispora_support, s.status,
      )
      refl

-- An UPDATE of one row by a row with the same reserved columns.
changed-reserved :
    (i : ℕ) (p : Enterprise → Bool) (m : Enterprise) (rows : List Enterprise) {e : Enterprise}
    → find p rows ≡ some e
    → count p rows ≤ 1
    → reserved m ≡ reserved e
    → reserved_of (find (has_id i) (update p (written m) rows)) ≡ reserved_of (find (has_id i) rows)
changed-reserved i p m rows {e} found single kept =
    let now = find-update p (written m) (has_id i) rows (λ x. refl) in
    elim (Option-cases (find (has_id i) rows)) [
      | inl missing ↦ ground arith
      | inr (old, known) ↦ elim (Bool-cases (p old)) [
        | inl hit ↦
            let same = same_row p (has_id i) rows found known single hit in
            let renewed : find (has_id i) (update p (written m) rows) ≡ some (written m old) =
              ground arith in
            ap reserved_of renewed
            ∙ ap (λ xs. some xs) (kept ∙ ap reserved same)
            ∙ sym (ap reserved_of known)
        | inr miss ↦
            let unmoved : find (has_id i) (update p (written m) rows) ≡ some old = ground arith in
            ap reserved_of unmoved ∙ sym (ap reserved_of known)
      ]
    ]

module _ (env : Env) where
  pub update-reserved :
      (i : ℕ) (p : String) (owner : ℕ) (u : EnterpriseUpdate) (event : EnterpriseAuditEvent)
      (w : World)
      → Spares u
      → GivesStable env u
      → IsAudited env w.db
      → reserved_at i (update_enterprise env p owner u event w).1.db ≡ reserved_at i w.db
  unfolding update_enterprise
  update-reserved i p owner u event w spares gives v =
      transaction_if-keeps_ok env (λ d. reserved_at i d ≡ reserved_at i w.db)
        (updating env p owner u event) w refl
        (λ a r.
          let stable =
            λ (e : Enterprise) (found : find (in_scope p owner) w.db.enterprises ≡ some e).
              merged-IsStable env e u gives
                (All-find (IsStable env) (in_scope p owner) w.db.enterprises v.stable found) in
          let (e, found, left) = updating-ok env p owner u event (tock w) r stable in
          let single = single-scope p owner w.db.enterprises (v.unique_public_id p) in
          ap (λ d. reserved_at i d) left
          ∙ changed-reserved i (in_scope p owner) (merged e u) w.db.enterprises found single
              (merged-reserved e u spares))
