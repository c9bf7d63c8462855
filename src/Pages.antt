-- ===== src/Pages.antt =====
-- The keyset pages of the lists: `WHERE ... AND ($n = 0 OR id < $n) ORDER BY id DESC LIMIT $m` in
-- internal/repository/persistence, and the cut of a page with its cursor in internal/usecase.
pub mod Ordered
pub mod Walk
pub mod Shown
use youthpreneur_be.Base.{
  ℕ, zero, suc, ◌+◌, ◌-◌, Bool, ◌&&◌, ◌||◌, List, [], ◌∷◌, ◌++◌, ltb, ◌==◌, if◌then◌else◌, length,
  take, select,
}

-- The order of a list: by ascending or by descending id.
pub data Direction : Type 0 where
  ascending descending : Direction

abbrev pub before : Direction → ℕ → ℕ → Bool
before Direction.ascending a b = ltb a b
before Direction.descending a b = ltb b a

-- One page, and the cursor of the next one: zero when there is none.
pub record Page (A : Type 0) : Type 0 where
  pub items : List A
  pub next_cursor : ℕ

module _ {A : Type 0} (key : A → ℕ) where
  abbrev pub insert : Direction → A → List A → List A
  insert d x [] = x ∷ []
  insert d x (y ∷ ys) =
      let rest = insert d x ys in if before d (key x) (key y) then x ∷ y ∷ ys else y ∷ rest

  -- `ORDER BY`
  abbrev pub order_by : Direction → List A → List A
  order_by d [] = []
  order_by d (x ∷ xs) = insert d x (order_by d xs)

  -- `($n::int = 0 OR id < $n)`, or `id > $n`
  abbrev pub is_after : Direction → ℕ → A → Bool
  is_after d cursor x = cursor == 0 || before d cursor (key x)

  unfoldable pub query : Direction → (A → Bool) → ℕ → ℕ → List A → List A
  query d p cursor limit rows =
      take limit (order_by d (select (λ x. p x && is_after d cursor x) rows))

  -- `rows[i].ID`
  abbrev pub key_at : ℕ → List A → ℕ
  key_at i [] = 0
  key_at zero (x ∷ xs) = key x
  key_at (suc i) (x ∷ xs) = key_at i xs

  -- The cut of a page: one row more than the limit shows that there is a further page.
  unfoldable pub cut_page : ℕ → List A → Page A
  cut_page limit rows =
      if ltb limit (length rows)
      then record { items = take limit rows; next_cursor = key_at (limit - 1) rows }
      else record { items = rows; next_cursor = 0 }

-- `clampLimit`, and its public twin with the limit that stands for none.
unfoldable pub clamp : ℕ → ℕ → ℕ
clamp standard limit = if limit == 0 then standard else if ltb 100 limit then 100 else limit
