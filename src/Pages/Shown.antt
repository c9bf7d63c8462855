-- ===== src/Pages/Shown.antt =====
-- What a page shows: rows that pass the test of the list.
use youthpreneur_be.Base.{
  ℕ, zero, suc, ◌≡◌, arith, Bool, true, ◌&&◌, List, [], ◌∷◌, All, ltb, length, take, select, inl,
  inr, Bool-cases,
}
use youthpreneur_be.Base.Rows.{All-map}
use youthpreneur_be.Pages.{Direction, order_by, is_after, query, cut_page}
use youthpreneur_be.Pages.Ordered.{order_by-All}

module _ {A : Type 0} where
  take-All : (P : A → Type 0) (n : ℕ) (xs : List A) → All P xs → All P (take n xs)
  take-All P zero xs h = tt
  take-All P (suc n) [] h = tt
  take-All P (suc n) (x ∷ xs) h = (h.0, take-All P n xs h.1)

  selected : (p : A → Bool) (xs : List A) → All (λ x. p x ≡ true) (select p xs)
  selected p [] = tt
  selected p (x ∷ xs) =
      let rest = selected p xs in
      elim (Bool-cases (p x)) [ inl passes ↦ ground arith | inr fails ↦ ground arith ]

  module _ (key : A → ℕ) where
    cut_page-All :
        (P : A → Type 0) (limit : ℕ) (xs : List A) → All P xs → All P (cut_page key limit xs).items
    unfolding cut_page
    cut_page-All P limit xs h = elim (Bool-cases (ltb limit (length xs))) [
      | inl more ↦ let first = take-All P limit xs h in ground arith
      | inr last ↦ ground arith
    ]

    -- Every row of a page passes the test of its list.
    pub page-All :
        (P : A → Type 0) (d : Direction) (p : A → Bool) (cursor fetched limit : ℕ) (rows : List A)
        → ((x : A) → p x ≡ true → P x)
        → All P (cut_page key limit (query key d p cursor fetched rows)).items
    unfolding query
    page-All P d p cursor fetched limit rows passes =
        let test = λ (x : A). p x && is_after key d cursor x in
        cut_page-All P limit (take fetched (order_by key d (select test rows))) (
          take-All P fetched (order_by key d (select test rows)) (
            order_by-All key d P (select test rows) (
              All-map (λ (x : A). test x ≡ true) P (select test rows)
                (λ x h. passes x (ground arith)) (selected test rows))))
