-- ===== src/Pages/Ordered.antt =====
-- Tables in the order of their ids, and what a cursor leaves of them.
use youthpreneur_be.Base.{
  ℕ, zero, suc, ◌≤◌, ◌<◌, ◌≡◌, refl, ap, arith, Bool, true, false, List, [], ◌∷◌, ◌++◌, ◌==◌,
  if◌then◌else◌, All, length, take, select, count, inl, inr, Bool-cases,
}
use youthpreneur_be.Base.Rows.{All-select}
use youthpreneur_be.Pages.{Direction, before, insert, order_by, key_at}

before_irrefl : (d : Direction) (a : ℕ) → before d a a ≡ false
before_irrefl Direction.ascending a = ground arith
before_irrefl Direction.descending a = ground arith

pub before_trans :
    (d : Direction) (a b c : ℕ) → before d a b ≡ true → before d b c ≡ true → before d a c ≡ true
before_trans Direction.ascending a b c h k = ground arith
before_trans Direction.descending a b c h k = ground arith

before-asym : (d : Direction) (a b : ℕ) → before d a b ≡ true → before d b a ≡ false
before-asym Direction.ascending a b h = ground arith
before-asym Direction.descending a b h = ground arith

before-total :
    (d : Direction) (a b : ℕ) → before d a b ≡ false → (b == a) ≡ false → before d b a ≡ true
before-total Direction.ascending a b h k = ground arith
before-total Direction.descending a b h k = ground arith

module _ {A : Type 0} where
  -- The rows behind the first `n`.
  abbrev pub drop : ℕ → List A → List A
  drop zero xs = xs
  drop (suc n) [] = []
  drop (suc n) (x ∷ xs) = drop n xs

  pub take-drop : (n : ℕ) (xs : List A) → take n xs ++ drop n xs ≡ xs
  take-drop zero xs = refl
  take-drop (suc n) [] = refl
  take-drop (suc n) (x ∷ xs) = ap (λ ys. x ∷ ys) (take-drop n xs)

  pub select_everything : (p : A → Bool) (xs : List A) → All (λ x. p x ≡ true) xs → select p xs ≡ xs
  select_everything p [] h = refl
  select_everything p (x ∷ xs) h = ground (arith, h.0, select_everything p xs h.1)

module _ {A : Type 0} (key : A → ℕ) where
  -- No two rows have the same key.
  abbrev pub Distinct : List A → Type 0
  Distinct [] = Unit
  Distinct (x ∷ xs) = All (λ y. (key y == key x) ≡ false) xs × Distinct xs

  abbrev pub Sorted : Direction → List A → Type 0
  Sorted d [] = Unit
  Sorted d (x ∷ xs) = All (λ y. before d (key x) (key y) ≡ true) xs × Sorted d xs

  absent :
      (i : ℕ) (xs : List A) → count (λ x. key x == i) xs ≡ 0 → All (λ y. (key y == i) ≡ false) xs
  absent i [] h = tt
  absent i (x ∷ xs) h = (ground arith, absent i xs (ground arith))

  pub unique-Distinct : (xs : List A) → ((i : ℕ) → count (λ x. key x == i) xs ≤ 1) → Distinct xs
  unique-Distinct [] h = tt
  unique-Distinct (x ∷ xs) h =
      (absent (key x) xs (ground (arith, h (key x))), unique-Distinct xs (λ i. ground (arith, h i)))

  pub key_at-All :
      (P : ℕ → Type 0) (i : ℕ) (xs : List A)
      → i < length xs
      → All (λ y. P (key y)) xs
      → P (key_at key i xs)
  key_at-All P i [] h a = absurd (omega arith)
  key_at-All P zero (x ∷ xs) h a = a.0
  key_at-All P (suc i) (x ∷ xs) h a = key_at-All P i xs (omega arith) a.1

  module _ (d : Direction) where
    insert-All : (P : A → Type 0) (x : A) (xs : List A) → P x → All P xs → All P (insert key d x xs)
    insert-All P x [] p h = (p, tt)
    insert-All P x (y ∷ ys) p h = elim (Bool-cases (before d (key x) (key y))) [
      | inl first ↦ ground arith
      | inr later ↦ let rest = insert-All P x ys p h.1 in ground arith
    ]

    pub order_by-All : (P : A → Type 0) (xs : List A) → All P xs → All P (order_by key d xs)
    order_by-All P [] h = tt
    order_by-All P (x ∷ xs) h = insert-All P x (order_by key d xs) h.0 (order_by-All P xs h.1)

    -- What comes after a row comes after every row before it.
    after-All :
        (a b : ℕ) (ys : List A)
        → before d a b ≡ true
        → All (λ y. before d b (key y) ≡ true) ys
        → All (λ y. before d a (key y) ≡ true) ys
    after-All a b [] h k = tt
    after-All a b (y ∷ ys) h k = (before_trans d a b (key y) h k.0, after-All a b ys h k.1)

    insert-Sorted :
        (x : A) (xs : List A)
        → All (λ y. (key y == key x) ≡ false) xs
        → Sorted d xs
        → Sorted d (insert key d x xs)
    insert-Sorted x [] h s = (tt, tt)
    insert-Sorted x (y ∷ ys) h s = elim (Bool-cases (before d (key x) (key y))) [
      | inl first ↦
          let whole : Sorted d (x ∷ y ∷ ys) =
            ((first, after-All (key x) (key y) ys first s.0), s) in
          ground arith
      | inr later ↦
          let behind = before-total d (key x) (key y) later h.0 in
          let whole : Sorted d (y ∷ insert key d x ys) = (
            insert-All (λ z. before d (key y) (key z) ≡ true) x ys behind s.0,
            insert-Sorted x ys h.1 s.1,
          ) in
          ground arith
    ]

    pub order_by-Sorted : (xs : List A) → Distinct xs → Sorted d (order_by key d xs)
    order_by-Sorted [] h = tt
    order_by-Sorted (x ∷ xs) h =
        insert-Sorted x (order_by key d xs) (order_by-All (λ y. (key y == key x) ≡ false) xs h.0)
          (order_by-Sorted xs h.1)

    pub select-Sorted : (p : A → Bool) (xs : List A) → Sorted d xs → Sorted d (select p xs)
    select-Sorted p [] s = tt
    select-Sorted p (x ∷ xs) s = elim (Bool-cases (p x)) [
      | inl kept ↦
          let whole : Sorted d (x ∷ select p xs) =
            (All-select (λ y. before d (key x) (key y) ≡ true) p xs s.0, select-Sorted p xs s.1) in
          ground arith
      | inr dropped ↦ let rest = select-Sorted p xs s.1 in ground arith
    ]

    insert-front :
        (x : A) (ys : List A)
        → All (λ y. before d (key x) (key y) ≡ true) ys
        → insert key d x ys ≡ x ∷ ys
    insert-front x [] h = refl
    insert-front x (y ∷ ys) h = ground (arith, h.0)

    select-insert :
        (p : A → Bool) (x : A) (ys : List A)
        → Sorted d ys
        → select p (insert key d x ys) ≡ (if p x then insert key d x (select p ys) else select p ys)
    select-insert p x [] s = ground arith
    select-insert p x (y ∷ ys) s = elim (Bool-cases (before d (key x) (key y))) [
      | inl first ↦
          let behind : All (λ z. before d (key x) (key z) ≡ true) (y ∷ ys) =
            (first, after-All (key x) (key y) ys first s.0) in
          let kept =
            insert-front x (select p (y ∷ ys))
              (All-select (λ z. before d (key x) (key z) ≡ true) p (y ∷ ys) behind) in
          ground arith
      | inr later ↦ ground (arith, select-insert p x ys s.1)
    ]

    -- Ordering and selecting commute.
    pub order_by-select :
        (p : A → Bool) (xs : List A)
        → Distinct xs
        → order_by key d (select p xs) ≡ select p (order_by key d xs)
    order_by-select p [] h = refl
    order_by-select p (x ∷ xs) h = ground (
      arith,
      order_by-select p xs h.1,
      select-insert p x (order_by key d xs) (order_by-Sorted xs h.1),
    )

    -- The rows behind the row at an index are those that come after its key.
    pub select-key_at :
        (i : ℕ) (xs : List A)
        → i < length xs
        → Sorted d xs
        → select (λ x. before d (key_at key i xs) (key x)) xs ≡ drop (suc i) xs
    select-key_at i [] h s = refl
    select-key_at zero (x ∷ xs) h s =
        ground
          (arith, before_irrefl d (key x), select_everything (λ y. before d (key x) (key y)) xs s.0)
    select-key_at (suc i) (x ∷ xs) h s =
        let last = key_at-All (λ k. before d (key x) k ≡ true) i xs (omega arith) s.0 in
        let rest = select-key_at i xs (omega arith) s.1 in
        ground (arith, before-asym d (key x) (key_at key i xs) last)
