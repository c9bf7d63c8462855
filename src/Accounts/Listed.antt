-- ===== src/Accounts/Listed.antt =====
-- Which accounts FindUsers lists.
use youthpreneur_be.Base.{◌+◌, ◌≡◌, arith, true, false, All, inl, inr, Bool-cases, trim_space}
use mathlib.Core.Path.{subst}
use youthpreneur_be.Errors.{ok, Result-cases}
use youthpreneur_be.Errors.Chain
use youthpreneur_be.Entity.{User, is_admin}
use youthpreneur_be.Db.{World, Env, statement}
use youthpreneur_be.Pages.{Direction, Page, clamp, query, cut_page}
use youthpreneur_be.Pages.Shown.{page-All}
use youthpreneur_be.Users.{is_present}
use youthpreneur_be.Users.Listing
use youthpreneur_be.Users.Listing.{UserFilter, matches_filter}
use youthpreneur_be.Accounts.{validate_gender}
use youthpreneur_be.Accounts.Lists.{FindUsersInput, find_users}

-- A member whose account is not deleted.
abbrev pub IsPresentMember : User → Type 0
IsPresentMember u = (is_present u ≡ true) × (is_admin u.role ≡ false)

matches_filter-IsPresentMember :
    (env : Env) (f : UserFilter) (u : User) → matches_filter env f u ≡ true → IsPresentMember u
unfolding matches_filter
matches_filter-IsPresentMember env f u h = (ground arith, ground arith)

-- A page of FindUsers has members alone, and no deleted account: it shows no admin.
pub find_users-IsPresentMember :
    (env : Env) (input : FindUsersInput) (w : World) {page : Page User}
    → (find_users env input w).0 ≡ ok page
    → All IsPresentMember page.items
unfolding find_users Listing.find_users statement
find_users-IsPresentMember env input w {page} h =
    elim (Result-cases (validate_gender (trim_space input.gender))) [
      | inr (failure, failed) ↦ absurd (ground arith)
      | inl (u, passed) ↦ elim (Bool-cases (env.fails w.ticks)) [
        | inl failed ↦ absurd (ground arith)
        | inr works ↦
            let asked : UserFilter = record {
              district = trim_space input.district;
              gender = trim_space input.gender;
              search = trim_space input.search;
              cursor = input.cursor;
              limit = clamp 20 input.limit + 1;
            } in
            let shown =
              cut_page (λ (x : User). x.id) (clamp 20 input.limit)
                (query (λ (x : User). x.id) Direction.ascending (matches_filter env asked)
                  asked.cursor asked.limit w.db.users) in
            let same : ok shown ≡ ok page = ground arith in
            subst (λ (p : Page User). All IsPresentMember p.items)
              (Chain.ok-injective shown page same)
              (page-All (λ (x : User). x.id) IsPresentMember Direction.ascending
                (matches_filter env asked) asked.cursor asked.limit (clamp 20 input.limit)
                w.db.users (matches_filter-IsPresentMember env asked))
      ]
    ]
