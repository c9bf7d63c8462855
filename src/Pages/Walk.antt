-- ===== src/Pages/Walk.antt =====
-- A client that follows the cursors of a list gets every row once, in order, and comes to an end.
use youthpreneur_be.Base.{
  ℕ, zero, suc, ◌+◌, ◌≤◌, ◌<◌, ◌≡◌, refl, ap, sym, ◌∙◌, arith, Bool, true, false, ◌&&◌, ◌||◌, List,
  [], ◌∷◌, ◌++◌, ltb, ◌==◌, if◌then◌else◌, All, length, take, select, inl, inr, Bool-cases,
}
use youthpreneur_be.Base.Rows.{All-select}
use youthpreneur_be.Pages.{
  Direction, before, insert, order_by, is_after, query, key_at, Page, cut_page,
}
use youthpreneur_be.Pages.Ordered.{
  Distinct, drop, take-drop, before_trans, key_at-All, order_by-All, order_by-Sorted, select-Sorted,
  select_everything, order_by-select, select-key_at,
}

module _ {A : Type 0} where
  select-both :
      (p q : A → Bool) (xs : List A) → select (λ x. p x && q x) xs ≡ select q (select p xs)
  select-both p q [] = refl
  select-both p q (x ∷ xs) = ground (arith, select-both p q xs)

  select-implied :
      (p q : A → Bool) (xs : List A)
      → ((x : A) → q x ≡ true → p x ≡ true)
      → select q (select p xs) ≡ select q xs
  select-implied p q [] h = refl
  select-implied p q (x ∷ xs) h = ground (arith, h x, select-implied p q xs h)

  select-eq : (p q : A → Bool) (xs : List A) → ((x : A) → p x ≡ q x) → select p xs ≡ select q xs
  select-eq p q [] h = refl
  select-eq p q (x ∷ xs) h = ground (arith, h x, select-eq p q xs h)

  selected : (p : A → Bool) (xs : List A) → All (λ x. p x ≡ true) (select p xs)
  selected p [] = tt
  selected p (x ∷ xs) = elim (Bool-cases (p x)) [
    | inl kept ↦ let rest = selected p xs in ground arith
    | inr dropped ↦ let rest = selected p xs in ground arith
  ]

  length-take : (n : ℕ) (xs : List A) → n ≤ length xs → length (take n xs) ≡ n
  length-take zero xs h = refl
  length-take (suc n) [] h = absurd (omega arith)
  length-take (suc n) (x ∷ xs) h = ap suc (length-take n xs (omega arith))

  take-all : (n : ℕ) (xs : List A) → length xs ≤ n → take n xs ≡ xs
  take-all zero [] h = refl
  take-all zero (x ∷ xs) h = absurd (omega arith)
  take-all (suc n) [] h = refl
  take-all (suc n) (x ∷ xs) h = ap (λ ys. x ∷ ys) (take-all n xs (omega arith))

  take-take : (n : ℕ) (xs : List A) → take n (take (suc n) xs) ≡ take n xs
  take-take zero xs = refl
  take-take (suc n) [] = refl
  take-take (suc n) (x ∷ xs) = ap (λ ys. x ∷ ys) (take-take n xs)

  length-drop : (n : ℕ) (xs : List A) → n ≤ length xs → length (drop n xs) + n ≡ length xs
  length-drop zero xs h = omega arith
  length-drop (suc n) [] h = absurd (omega arith)
  length-drop (suc n) (x ∷ xs) h = omega (arith, length-drop n xs (omega arith))

module _ {A : Type 0} (key : A → ℕ) (d : Direction) (p : A → Bool) (rows : List A) where
  -- The pages from a cursor on, at most `n` of them.
  unfoldable pub read : ℕ → ℕ → ℕ → List A
  read zero limit cursor = []
  read (suc n) limit cursor =
      let page = cut_page key limit (query key d p cursor (limit + 1) rows) in
      let rest = read n limit page.next_cursor in
      if page.next_cursor == 0 then page.items else page.items ++ rest

  key_at-take : (i n : ℕ) (xs : List A) → i < n → key_at key i (take n xs) ≡ key_at key i xs
  key_at-take i zero xs h = absurd (omega arith)
  key_at-take i (suc n) [] h = refl
  key_at-take zero (suc n) (x ∷ xs) h = refl
  key_at-take (suc i) (suc n) (x ∷ xs) h = key_at-take i n xs (omega arith)

  select-Distinct : (q : A → Bool) (xs : List A) → Distinct key xs → Distinct key (select q xs)
  select-Distinct q [] h = tt
  select-Distinct q (x ∷ xs) h = elim (Bool-cases (q x)) [
    | inl kept ↦
        let whole : Distinct key (x ∷ select q xs) =
          (All-select (λ y. (key y == key x) ≡ false) q xs h.0, select-Distinct q xs h.1) in
        ground arith
    | inr dropped ↦ let rest = select-Distinct q xs h.1 in ground arith
  ]

  -- A page of one row more than the limit, cut.
  cut_last :
      (l : ℕ) (xs : List A)
      → length xs ≤ suc l
      → cut_page key (suc l) (take (suc (suc l)) xs) ≡ record { items = xs; next_cursor = 0 }
  unfolding cut_page
  cut_last l xs h = ground (arith, take-all (suc (suc l)) xs)

  cut_more :
      (l : ℕ) (xs : List A)
      → suc l < length xs
      → cut_page key (suc l) (take (suc (suc l)) xs)
        ≡ record { items = take (suc l) xs; next_cursor = key_at key l xs }
  unfolding cut_page
  cut_more l xs h = ground (
    arith,
    length-take (suc (suc l)) xs,
    take-take (suc l) xs,
    key_at-take l (suc (suc l)) xs (omega arith),
  )

  length-insert : (x : A) (xs : List A) → length (insert key d x xs) ≡ suc (length xs)
  length-insert x [] = refl
  length-insert x (y ∷ ys) = ground (arith, length-insert x ys)

  length-order_by : (xs : List A) → length (order_by key d xs) ≡ length xs
  length-order_by [] = refl
  length-order_by (x ∷ xs) = ground (arith, length-insert x (order_by key d xs), length-order_by xs)

  length-select : (xs : List A) → length (select p xs) ≤ length xs
  length-select [] = omega arith
  length-select (x ∷ xs) = ground (arith, length-select xs)

  pub length-ordered : length (order_by key d (select p rows)) ≤ length rows
  length-ordered = omega (arith, length-order_by (select p rows), length-select rows)

  module _ (distinct : Distinct key rows) (positive : All (λ x. 1 ≤ key x) rows) where
    abbrev ordered : List A
    ordered = order_by key d (select p rows)

    abbrev left : ℕ → List A
    left cursor = select (is_after key d cursor) ordered

    query-left : (cursor n : ℕ) → query key d p cursor n rows ≡ take n (left cursor)
    unfolding query
    query-left cursor n =
        ap (λ xs. take n (order_by key d xs)) (select-both p (is_after key d cursor) rows)
        ∙ ap (λ xs. take n xs)
            (order_by-select key d (is_after key d cursor) (select p rows)
              (select-Distinct p rows distinct))

    after-cursor :
        (cursor c k : ℕ)
        → (cursor == 0 || before d cursor c) ≡ true
        → before d c k ≡ true
        → (cursor == 0 || before d cursor k) ≡ true
    after-cursor cursor c k h later = elim (Bool-cases (cursor == 0)) [
      | inl start ↦ ground arith
      | inr far ↦ ground (arith, before_trans d cursor c k (ground arith) later)
    ]

    -- Behind the last row of a page is what the page leaves.
    left-next :
        (cursor l : ℕ)
        → l < length (left cursor)
        → (1 ≤ key_at key l (left cursor))
          × (left (key_at key l (left cursor)) ≡ drop (suc l) (left cursor))
    left-next cursor l h =
        let here = left cursor in
        let c = key_at key l here in
        let is_positive =
          key_at-All key (λ k. 1 ≤ k) l here h
            (All-select (λ x. 1 ≤ key x) (is_after key d cursor) ordered
              (order_by-All key d (λ x. 1 ≤ key x) (select p rows)
                (All-select (λ x. 1 ≤ key x) p rows positive))) in
        let behind =
          key_at-All key (λ k. (cursor == 0 || before d cursor k) ≡ true) l here h
            (selected (is_after key d cursor) ordered) in
        let sorted =
          select-Sorted key d (is_after key d cursor) ordered
            (order_by-Sorted key d (select p rows) (select-Distinct p rows distinct)) in
        (
          is_positive,
          select-eq (is_after key d c) (λ x. before d c (key x)) ordered
                (λ x. ground (arith, is_positive))
              ∙ sym (
                  select-implied (is_after key d cursor) (λ x. before d c (key x)) ordered
                    (λ x later. after-cursor cursor c (key x) behind later))
              ∙ select-key_at key d l here h sorted,
        )

    one_more : (l : ℕ) → suc l + 1 ≡ suc (suc l)
    one_more l = omega arith

    not-last :
        (next : ℕ) (xs ys : List A) → 1 ≤ next → (if next == 0 then xs else xs ++ ys) ≡ xs ++ ys
    not-last next xs ys h = ground arith

    fewer :
        (m next : ℕ) (xs : List A) (n : ℕ)
        → left next ≡ drop (suc m) xs
        → suc m < length xs
        → length xs < suc n
        → length (left next) < n
    fewer m next xs n rest h k =
        let left_length = ap (λ ys. length ys) rest in
        omega (arith, left_length, length-drop (suc m) xs (omega arith))

    read-left : (n l cursor : ℕ) → length (left cursor) < n → read n (suc l) cursor ≡ left cursor
    unfolding read
    read-left zero l cursor h = absurd (omega arith)
    read-left (suc n) l cursor h =
        let step = λ (page : Page A).
          if page.next_cursor == 0
          then page.items
          else page.items ++ read n (suc l) page.next_cursor in
        let shown =
          ap (λ xs. step (cut_page key (suc l) xs)) (query-left cursor (suc l + 1))
          ∙ ap (λ m. step (cut_page key (suc l) (take m (left cursor)))) (one_more l) in
        elim (Bool-cases (ltb (suc l) (length (left cursor)))) [
          | inl more ↦
              let many : suc l < length (left cursor) = ground arith in
              let (is_positive, rest) = left-next cursor l (omega arith) in
              let next = key_at key l (left cursor) in
              let again = read-left n l next (fewer l next (left cursor) n rest many h) in
              shown
              ∙ ap step (cut_more l (left cursor) many)
              ∙ not-last next (take (suc l) (left cursor)) (read n (suc l) next) is_positive
              ∙ ap (λ ys. take (suc l) (left cursor) ++ ys) (again ∙ rest)
              ∙ take-drop (suc l) (left cursor)
          | inr last ↦ shown ∙ ap step (cut_last l (left cursor) (ground arith))
        ]

    everything : (xs : List A) → All (λ x. is_after key d 0 x ≡ true) xs
    everything [] = tt
    everything (x ∷ xs) = (refl, everything xs)

    -- Following the cursors from the start gives all rows that pass the test, in the order of the
    -- list, each once, for any positive limit, once the client may ask for more pages than there
    -- are such rows.
    pub read-ordered : (n l : ℕ) → length ordered < n → read n (suc l) 0 ≡ ordered
    read-ordered n l h =
        let all = select_everything (is_after key d 0) ordered (everything ordered) in
        read-left n l 0 (ground (arith, ap (λ xs. length xs) all)) ∙ all
