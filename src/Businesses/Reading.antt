-- ===== src/Businesses/Reading.antt =====
-- A client that reads the list of enterprises page by page, following the cursors.
use youthpreneur_be.Base.{
  ℕ, zero, suc, ◌+◌, ◌-◌, ◌≤◌, ◌<◌, ◌≡◌, refl, ap, sym, ◌∙◌, arith, Bool, true, false, ◌&&◌, List,
  [], ◌∷◌, ◌++◌, ◌==◌, if◌then◌else◌, All, length, select, count, find, inl, inr, Bool-cases,
  Option-cases,
}
use youthpreneur_be.Errors.{Result, ok, err}
use youthpreneur_be.Entity.{User}
use youthpreneur_be.Entity.Business.{Enterprise, JoinedEnterprise}
use youthpreneur_be.Db.{World, Env, M, pure, ◌>>=◌, tock, statement}
use youthpreneur_be.Pages.{Direction, Page, order_by, query, cut_page, clamp}
use youthpreneur_be.Pages.Ordered.{unique-Distinct}
use youthpreneur_be.Pages.Walk.{read, length-ordered, read-ordered}
use youthpreneur_be.Enterprises.{has_id}
use youthpreneur_be.Enterprises.Listing
use youthpreneur_be.Enterprises.Listing.{
  EnterpriseFilter, joined_rows, row_id, filter_casts, matches_filter, select_enterprises,
}
use youthpreneur_be.Businesses.Filter.{FindEnterprisesInput, build_filter}
use youthpreneur_be.Businesses.Lists.{find_enterprises}
use youthpreneur_be.Businesses.Filtered.{with_cursor, build_filter-cursor, build_filter-ok}

joined-count :
    (p : User → Bool) (users : List User) (i : ℕ) (es : List Enterprise)
    → count (λ j. row_id j == i) (joined_rows p users es) ≤ count (has_id i) es
unfolding joined_rows
joined-count p users i [] = omega arith
joined-count p users i (e ∷ es) =
    let rest = joined-count p users i es in
    elim (Option-cases (find (λ (u : User). u.id == e.user_id && p u) users)) [
      | inl missing ↦ ground arith
      | inr (u, found) ↦ ground arith
    ]

joined-length :
    (p : User → Bool) (users : List User) (es : List Enterprise)
    → length (joined_rows p users es) ≤ length es
unfolding joined_rows
joined-length p users [] = omega arith
joined-length p users (e ∷ es) =
    let rest = joined-length p users es in
    elim (Option-cases (find (λ (u : User). u.id == e.user_id && p u) users)) [
      | inl missing ↦ ground arith
      | inr (u, found) ↦ ground arith
    ]

joined-positive :
    (p : User → Bool) (users : List User) (es : List Enterprise)
    → All (λ (e : Enterprise). 1 ≤ e.id) es
    → All (λ j. 1 ≤ row_id j) (joined_rows p users es)
unfolding joined_rows
joined-positive p users [] h = tt
joined-positive p users (e ∷ es) h =
    let rest = joined-positive p users es h.1 in
    elim (Option-cases (find (λ (u : User). u.id == e.user_id && p u) users)) [
      | inl missing ↦ ground arith
      | inr (u, found) ↦ ground (arith, h.0)
    ]

clamp-suc : (limit : ℕ) → clamp 20 limit ≡ suc (clamp 20 limit - 1)
unfolding clamp
clamp-suc limit = ground arith

abbrev continued :
    (Page JoinedEnterprise → M (List JoinedEnterprise))
    → Result (Page JoinedEnterprise) × World
    → Result (List JoinedEnterprise) × World
continued k (r, w) = elim r [ ok a ↦ k a w | err e ↦ (err e, w) ]

joined-pages :
    (c : ℕ) (items rest : List JoinedEnterprise) (m : M (List JoinedEnterprise)) (w : World)
    → (m w).0 ≡ ok rest
    → ((if c == 0 then pure items else (m >>= λ r. pure (items ++ r))) w).0
      ≡ ok (if c == 0 then items else items ++ rest)
joined-pages c items rest m w h = elim (Bool-cases (c == 0)) [
  | inl last ↦ ground arith
  | inr more ↦ ground arith
]

module _ (env : Env) where
  -- At most `n` pages from the cursor of the input on.
  unfoldable pub read_pages : ℕ → FindEnterprisesInput → M (List JoinedEnterprise)
  read_pages zero input = pure []
  read_pages (suc n) input = find_enterprises env input >>= λ page.
      if page.next_cursor == 0
      then pure page.items
      else (read_pages n (record input { cursor = page.next_cursor }) >>= λ rest.
          pure (page.items ++ rest))

  module _ (works : (k : ℕ) → env.fails k ≡ false) where
    page-ok :
        (input : FindEnterprisesInput) (f : EnterpriseFilter) (w : World)
        → build_filter input ≡ ok f
        → find_enterprises env input w ≡ (
          ok (
              cut_page row_id (clamp 20 input.limit) (
                query row_id Direction.descending
                  (matches_filter env f)
                  f.cursor
                  (clamp 20 input.limit + 1)
                  (joined_rows (λ u. true) w.db.users w.db.enterprises))),
          tock w,
        )
    unfolding find_enterprises Listing.find_enterprises select_enterprises statement
    page-ok input f w built =
        let (casts, limit, _, _) = (build_filter-ok input).at f built in
        ground (arith, works w.ticks)

    -- The pages that the use case gives are those of the list.
    read_pages-read :
        (n : ℕ) (input : FindEnterprisesInput) (f : EnterpriseFilter) (w : World)
        → build_filter input ≡ ok f
        → (read_pages n input w).0
          ≡ ok (
              read row_id Direction.descending
                (matches_filter env f)
                (joined_rows (λ u. true) w.db.users w.db.enterprises)
                n
                (clamp 20 input.limit)
                f.cursor)
    unfolding read_pages read matches_filter
    read_pages-read zero input f w built = refl
    read_pages-read (suc n) input f w built =
        let page = cut_page row_id (clamp 20 input.limit) (
          query row_id Direction.descending (matches_filter env f) f.cursor
            (clamp 20 input.limit + 1) (joined_rows (λ u. true) w.db.users w.db.enterprises)) in
        let c = page.next_cursor in
        let shown = page-ok input f w built in
        let next = ap (with_cursor c) built in
        let again =
          read_pages-read n (record input { cursor = c }) (record f { cursor = c }) (tock w)
            (sym (build_filter-cursor input c).same ∙ next) in
        let go_on = λ (p : Page JoinedEnterprise).
          if p.next_cursor == 0
          then pure p.items
          else (read_pages n (record input { cursor = p.next_cursor }) >>= λ rest.
              pure (p.items ++ rest)) in
        ap (λ x. (continued go_on x).0) shown
        ∙ joined-pages c page.items _ (read_pages n (record input { cursor = c })) (tock w) again

    -- A client that starts without a cursor and follows those that FindEnterprises returns gets every
    -- enterprise that the filter lets through, once, by descending id, and comes to an end: if
    -- nothing fails, no request changes the tables meanwhile, and ids are positive and unique.
    pub read_pages_complete :
        (n : ℕ) (input : FindEnterprisesInput) (f : EnterpriseFilter) (w : World)
        → build_filter (record input { cursor = 0 }) ≡ ok f
        → All (λ (e : Enterprise). 1 ≤ e.id) w.db.enterprises
        → ((i : ℕ) → count (has_id i) w.db.enterprises ≤ 1)
        → length w.db.enterprises < n
        → (read_pages n (record input { cursor = 0 }) w).0
          ≡ ok (
              order_by row_id Direction.descending (
                select
                  (matches_filter env f)
                  (joined_rows (λ u. true) w.db.users w.db.enterprises)))
    read_pages_complete n input f w built positive unique enough =
        let rows = joined_rows (λ u. true) w.db.users w.db.enterprises in
        let (_, _, start, _) = (build_filter-ok (record input { cursor = 0 })).at f built in
        let all =
          read-ordered row_id Direction.descending (matches_filter env f) rows
            (unique-Distinct row_id rows (λ i.
              ground (arith, unique i, joined-count (λ u. true) w.db.users i w.db.enterprises)))
            (joined-positive (λ u. true) w.db.users w.db.enterprises positive) n
            (clamp 20 input.limit - 1)
            (omega (
              arith,
              enough,
              length-ordered row_id Direction.descending (matches_filter env f) rows,
              joined-length (λ u. true) w.db.users w.db.enterprises,
            )) in
        read_pages-read n (record input { cursor = 0 }) f w built
        ∙ ap
            (λ c. ok (
              read row_id Direction.descending (matches_filter env f) rows n (clamp 20 input.limit)
                c))
            start
        ∙ ap (λ k. ok (read row_id Direction.descending (matches_filter env f) rows n k 0))
            (clamp-suc input.limit)
        ∙ ap (λ xs. ok xs) all
