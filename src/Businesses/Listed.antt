-- ===== src/Businesses/Listed.antt =====
-- Which enterprises FindEnterprises shows to whom.
use youthpreneur_be.Base.{
  ℕ, ◌≡◌, refl, false, arith, true, none, ◌⊎◌, ◌||◌, ◌==◌, List, All, inl, inr, Bool-cases,
}
use mathlib.Core.Path.{subst}
use youthpreneur_be.Errors.{ok, Result-cases}
use youthpreneur_be.Errors.Chain
use youthpreneur_be.Base.Rows.{All-map}
use youthpreneur_be.Entity.{User, Role, is_admin}
use youthpreneur_be.Entity.Business.{JoinedEnterprise}
use youthpreneur_be.Db.{World, Env, statement}
use youthpreneur_be.Pages.{Direction, Page, clamp, query, cut_page}
use youthpreneur_be.Pages.Shown.{page-All}
use youthpreneur_be.Enterprises.Listing
use youthpreneur_be.Enterprises.Listing.{
  EnterpriseFilter, joined_rows, row_id, filter_casts, matches_filter, select_enterprises,
}
use youthpreneur_be.Businesses.{scope_owner_id}
use youthpreneur_be.Businesses.Filter.{FindEnterprisesInput, build_filter}
use youthpreneur_be.Businesses.Filtered.{build_filter-ok}
use youthpreneur_be.Businesses.Lists.{find_enterprises}

-- What the scope of a filter lets through.
abbrev IsInScope : ℕ → JoinedEnterprise → Type 0
IsInScope owner j =
    (j.enterprise.deleted_at ≡ none) × ((owner == 0 || j.enterprise.user_id == owner) ≡ true)

-- An enterprise that is not deleted and, unless an admin asks or somebody without an id, belongs to
-- the one who asks.
abbrev pub IsShownTo : User → JoinedEnterprise → Type 0
IsShownTo actor j =
    (j.enterprise.deleted_at ≡ none)
    × ((actor.role ≡ Role.admin) ⊎ (actor.id ≡ 0) ⊎ (j.enterprise.user_id ≡ actor.id))

role_cases : (r : Role) → (r ≡ Role.admin) ⊎ (is_admin r ≡ false)
role_cases Role.admin = inl refl
role_cases Role.member = inr refl

shown_to :
    (actor : User) (j : JoinedEnterprise) → IsInScope (scope_owner_id actor) j → IsShownTo actor j
unfolding scope_owner_id
shown_to actor j (present, scoped) = (
  present,
  elim (role_cases actor.role) [
    | inl boss ↦ inl boss
    | inr member ↦ inr (elim (Bool-cases (actor.id == 0)) [
      | inl nobody ↦ inl (ground arith)
      | inr known ↦ inr (ground arith)
    ])
  ],
)

module _ (env : Env) where
  page-IsInScope :
      (f : EnterpriseFilter) (fetched limit : ℕ) (rows : List JoinedEnterprise)
      → All
          (IsInScope f.owner_id)
          (cut_page row_id limit
            (query row_id Direction.descending (matches_filter env f) f.cursor fetched rows)).items
  unfolding matches_filter
  page-IsInScope f fetched limit rows =
      page-All row_id (IsInScope f.owner_id) Direction.descending (matches_filter env f) f.cursor
        fetched limit rows (λ j h. ground arith)

-- A page of FindEnterprises, when there is one, has no deleted enterprise and, unless the actor is an
-- admin or has the id zero, enterprises of the actor alone.
pub find_enterprises-IsShownTo :
    (env : Env) (input : FindEnterprisesInput) (w : World) {page : Page JoinedEnterprise}
    → (find_enterprises env input w).0 ≡ ok page
    → All (IsShownTo input.actor) page.items
unfolding find_enterprises Listing.find_enterprises select_enterprises statement
find_enterprises-IsShownTo env input w {page} h = elim (Result-cases (build_filter input)) [
  | inr (failure, failed) ↦ absurd (ground arith)
  | inl (f, built) ↦
      let (casts, _, _, owner) = (build_filter-ok input).at f built in
      elim (Bool-cases (env.fails w.ticks)) [
        | inl failed ↦ absurd (ground arith)
        | inr works ↦
            let rows = joined_rows (λ u. true) w.db.users w.db.enterprises in
            let shown =
              cut_page row_id (clamp 20 input.limit)
                (query row_id Direction.descending (matches_filter env f) f.cursor f.limit rows) in
            let same : ok shown ≡ ok page = ground arith in
            All-map (IsInScope (scope_owner_id input.actor)) (IsShownTo input.actor) page.items
              (shown_to input.actor)
              (subst (λ (o : ℕ). All (IsInScope o) page.items) owner
                (subst (λ (p : Page JoinedEnterprise). All (IsInScope f.owner_id) p.items)
                  (Chain.ok-injective shown page same)
                  (page-IsInScope env f f.limit (clamp 20 input.limit) rows)))
      ]
]
