-- ===== src/Base/Rows.antt =====
-- Laws of the statements on tables: how SELECT, UPDATE, DELETE and INSERT change what a test counts.
use Prim.Native.Nat.{◌+◌, ◌≤◌}
use mathlib.Core.Path.{◌≡◌, refl}
use mathlib.Core.Bool.{Bool, true, false, ◌&&◌}
use mathlib.Core.Option.{none, some}
use mathlib.Core.List.{List, [], ◌∷◌, ◌++◌}
use native.Mathlib.Omega.{arith}
use youthpreneur_be.Base.Tests.{if◌then◌else◌}
use youthpreneur_be.Base.Table.{All, find, update, select, count, exists}

module _ {ℓ} {A : Type ℓ} where
  pub count-append : (p : A → Bool) (xs ys : List A) → count p (xs ++ ys) ≡ count p xs + count p ys
  count-append p [] ys = omega arith
  count-append p (x ∷ xs) ys = ground (arith, count-append p xs ys)

  -- What an UPDATE takes from a count, and what it adds.
  pub count-update :
      (p : A → Bool) (f : A → A) (q : A → Bool) (xs : List A)
      → count q (update p f xs) + count (λ x. p x && q x) xs
        ≡ count q xs + count (λ x. p x && q (f x)) xs
  count-update p f q [] = refl
  count-update p f q (x ∷ xs) = ground (arith, count-update p f q xs)

  pub count-update_same :
      (p : A → Bool) (f : A → A) (q : A → Bool) (xs : List A)
      → ((x : A) → q (f x) ≡ q x)
      → count q (update p f xs) ≡ count q xs
  count-update_same p f q [] h = refl
  count-update_same p f q (x ∷ xs) h = ground (arith, h x, count-update_same p f q xs h)

  pub count-update_le :
      (p : A → Bool) (f : A → A) (q : A → Bool) (xs : List A)
      → ((x : A) → q (f x) ≡ true → q x ≡ true)
      → count q (update p f xs) ≤ count q xs
  count-update_le p f q [] h = omega arith
  count-update_le p f q (x ∷ xs) h = ground (arith, h x, count-update_le p f q xs h)

  -- An UPDATE whose effect fails its own test leaves no row that passes it.
  pub count-update_cleared :
      (p : A → Bool) (f : A → A) (xs : List A)
      → ((x : A) → p (f x) ≡ false)
      → count p (update p f xs) ≡ 0
  count-update_cleared p f [] h = refl
  count-update_cleared p f (x ∷ xs) h = ground (arith, h x, count-update_cleared p f xs h)

  pub count-select-le : (p q : A → Bool) (xs : List A) → count q (select p xs) ≤ count q xs
  count-select-le p q [] = omega arith
  count-select-le p q (x ∷ xs) = ground (arith, count-select-le p q xs)

  pub count-none : (p : A → Bool) (xs : List A) → ((x : A) → p x ≡ false) → count p xs ≡ 0
  count-none p [] h = refl
  count-none p (x ∷ xs) h = ground (arith, h x, count-none p xs h)

  pub count-le :
      (p q : A → Bool) (xs : List A) → ((x : A) → p x ≡ true → q x ≡ true) → count p xs ≤ count q xs
  count-le p q [] h = omega arith
  count-le p q (x ∷ xs) h = ground (arith, h x, count-le p q xs h)

  pub count-exists : (p : A → Bool) (xs : List A) → exists p xs ≡ false → count p xs ≡ 0
  count-exists p [] h = refl
  count-exists p (x ∷ xs) h = ground (arith, count-exists p xs)

  -- A found row passes the test.
  pub find-passes : (p : A → Bool) (xs : List A) {a : A} → find p xs ≡ some a → p a ≡ true
  find-passes p [] h = cc
  find-passes p (x ∷ xs) {a} h = ground (arith, find-passes p xs {a = a})

  -- A found row is counted by every test that it passes.
  pub find-count :
      (p q : A → Bool) (xs : List A) {a : A}
      → find p xs ≡ some a
      → q a ≡ true
      → 1 ≤ count (λ x. p x && q x) xs
  find-count p q [] h k = cc
  find-count p q (x ∷ xs) {a} h k = ground (arith, find-count p q xs {a = a})

  -- A row that passes two tests is the first to pass the one that a single row passes.
  pub find_unique :
      (p q : A → Bool) (xs : List A) {a : A}
      → find (λ x. p x && q x) xs ≡ some a
      → count p xs ≤ 1
      → find p xs ≡ some a
  find_unique p q [] h k = cc
  find_unique p q (x ∷ xs) {a} h k = ground (
    arith,
    find_unique p q xs {a = a},
    find-count (λ x. p x && q x) p xs {a = a},
    find-passes (λ x. p x && q x) xs {a = a},
    count-le (λ x. (p x && q x) && p x) p xs (λ y e. ground arith),
  )

  -- Where one row passes a test, what a second test says of that row is what it counts.
  pub count-found :
      (p q : A → Bool) (xs : List A) {a : A}
      → find p xs ≡ some a
      → count p xs ≤ 1
      → count (λ x. p x && q x) xs ≡ (if q a then 1 else 0)
  count-found p q [] h k = cc
  count-found p q (x ∷ xs) {a} h k =
      ground
        (arith, count-found p q xs {a = a}, count-le (λ x. p x && q x) p xs (λ y e. ground arith))

  pub exists-append :
      (p : A → Bool) (xs ys : List A) → exists p xs ≡ true → exists p (xs ++ ys) ≡ true
  exists-append p [] ys h = cc
  exists-append p (x ∷ xs) ys h = ground (arith, exists-append p xs ys)

  pub exists-update_same :
      (p : A → Bool) (f : A → A) (q : A → Bool) (xs : List A)
      → ((x : A) → q (f x) ≡ q x)
      → exists q (update p f xs) ≡ exists q xs
  exists-update_same p f q [] h = refl
  exists-update_same p f q (x ∷ xs) h = ground (arith, h x, exists-update_same p f q xs h)

  pub find-eq : (p q : A → Bool) (xs : List A) → ((x : A) → p x ≡ q x) → find p xs ≡ find q xs
  find-eq p q [] h = refl
  find-eq p q (x ∷ xs) h = ground (arith, h x, find-eq p q xs h)

  pub find-select :
      (p q : A → Bool) (xs : List A) → find q (select p xs) ≡ find (λ x. q x && p x) xs
  find-select p q [] = refl
  find-select p q (x ∷ xs) = ground (arith, find-select p q xs)

  -- The first row to pass a test, if it passes a second, is the first to pass both.
  pub find_kept :
      (p q : A → Bool) (xs : List A) {a : A}
      → find p xs ≡ some a
      → q a ≡ true
      → find (λ x. p x && q x) xs ≡ some a
  find_kept p q [] h k = cc
  find_kept p q (x ∷ xs) {a} h k = ground (arith, find_kept p q xs {a = a})

  pub find-exists : (p : A → Bool) (xs : List A) → exists p xs ≡ false → find p xs ≡ none
  find-exists p [] h = refl
  find-exists p (x ∷ xs) h = ground (arith, find-exists p xs)

  pub find-append :
      (p : A → Bool) (xs ys : List A)
      → find p (xs ++ ys) ≡ elim (find p xs) [ none ↦ find p ys | some a ↦ some a ]
  find-append p [] ys = refl
  find-append p (x ∷ xs) ys = ground (arith, find-append p xs ys)

  -- An UPDATE that no row of the test meets leaves the found row alone.
  pub find-update_other :
      (p : A → Bool) (f : A → A) (q : A → Bool) (xs : List A)
      → ((x : A) → q (f x) ≡ q x)
      → ((x : A) → q x ≡ true → p x ≡ false)
      → find q (update p f xs) ≡ find q xs
  find-update_other p f q [] h k = refl
  find-update_other p f q (x ∷ xs) h k = ground (arith, h x, k x, find-update_other p f q xs h k)

  -- An UPDATE that keeps the test sets the found row where it meets it.
  pub find-update :
      (p : A → Bool) (f : A → A) (q : A → Bool) (xs : List A)
      → ((x : A) → q (f x) ≡ q x)
      → find q (update p f xs)
        ≡ elim (find q xs) [ none ↦ none | some a ↦ some (if p a then f a else a) ]
  find-update p f q [] h = refl
  find-update p f q (x ∷ xs) h = ground (arith, h x, find-update p f q xs h)

  module _ {κ} (P : A → Type κ) where
    pub All-append : (xs ys : List A) → All P xs → All P ys → All P (xs ++ ys)
    All-append [] ys hx hy = hy
    All-append (x ∷ xs) ys hx hy = (hx.0, All-append xs ys hx.1 hy)

    pub All-select : (p : A → Bool) (xs : List A) → All P xs → All P (select p xs)
    All-select p [] h = tt
    All-select p (x ∷ xs) h = ground (arith, All-select p xs)

    pub All-update :
        (p : A → Bool) (f : A → A) (xs : List A)
        → ((x : A) → p x ≡ true → P x → P (f x))
        → All P xs
        → All P (update p f xs)
    All-update p f [] k h = tt
    All-update p f (x ∷ xs) k h = ground (arith, k x, All-update p f xs k)

    pub All-find : (p : A → Bool) (xs : List A) {a : A} → All P xs → find p xs ≡ some a → P a
    All-find p [] h e = cc
    All-find p (x ∷ xs) {a} h e = ground (arith, All-find p xs {a = a})

  module _ {κ λ'} (P : A → Type κ) (Q : A → Type λ') where
    pub All-map : (xs : List A) → ((x : A) → P x → Q x) → All P xs → All Q xs
    All-map [] k h = tt
    All-map (x ∷ xs) k h = (k x h.0, All-map xs k h.1)

    -- An UPDATE that takes one property of the rows to another.
    pub All-update_to :
        (p : A → Bool) (f : A → A) (xs : List A)
        → ((x : A) → P x → Q (if p x then f x else x))
        → All P xs
        → All Q (update p f xs)
    All-update_to p f [] k h = tt
    All-update_to p f (x ∷ xs) k h = (k x h.0, All-update_to p f xs k h.1)

  update-none : (p : A → Bool) (f : A → A) (xs : List A) → count p xs ≡ 0 → update p f xs ≡ xs
  update-none p f [] h = refl
  update-none p f (x ∷ xs) h = ground (arith, update-none p f xs)

  -- An UPDATE of the one row that was found.
  pub All-update_found {κ} :
      (P : A → Type κ) (p : A → Bool) (f : A → A) (xs : List A) {a : A}
      → find p xs ≡ some a
      → count p xs ≤ 1
      → P (f a)
      → All P xs
      → All P (update p f xs)
  All-update_found P p f [] e k b h = tt
  All-update_found P p f (x ∷ xs) {a} e k b h =
      ground (arith, h.1, update-none p f xs, All-update_found P p f xs {a = a})
