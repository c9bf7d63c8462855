-- ===== src/Db/Laws.antt =====
-- Transactions and statements as wholes: what a failure leaves behind, and what a success means.
use youthpreneur_be.Base.{◌≡◌, ap, ◌∙◌, Bool, true, arith, inl, inr, Bool-cases}
use youthpreneur_be.Errors.{Error, ok, Result-cases}
use youthpreneur_be.Db.{
  World, Db, Env, M, settle, statement, transaction, settle_if, transaction_if, tock, ◌>>=◌,
  map_err,
}

module _ (env : Env) {A : Type 0} where
  -- A transaction that reports a value has run its body to that value, and keeps its tables.
  pub transaction-commit :
      (m : M A) (w : World) {a : A}
      → (transaction env m w).0 ≡ ok a
      → (u : World) × (m (tock w) ≡ (ok a, u)) × ((transaction env m w).1.db ≡ u.db)
  unfolding transaction
  transaction-commit m w h = ((m (tock w)).1, ground arith, ground arith)

  -- What holds of the tables before and after the body holds after the transaction.
  pub transaction-keeps {ℓ} :
      (P : Db → Type ℓ) (m : M A) (w : World)
      → P w.db
      → P (m (tock w)).1.db
      → P (transaction env m w).1.db
  unfolding transaction
  transaction-keeps P m w before after = ground arith

  -- What holds before, and after the body where it reports a value, holds after the transaction.
  pub transaction-keeps_ok {ℓ} :
      (P : Db → Type ℓ) (m : M A) (w : World)
      → P w.db
      → ((a : A) → (m (tock w)).0 ≡ ok a → P (m (tock w)).1.db)
      → P (transaction env m w).1.db
  unfolding transaction
  transaction-keeps_ok P m w before after = elim (Result-cases (m (tock w)).0) [
    | inl (a, r) ↦ let k = after a r in ground arith
    | inr (e, r) ↦ ground arith
  ]

  pub statement-keeps {ℓ} :
      (P : Db → Type ℓ) (m : M A) (w : World)
      → P w.db
      → P (m (tock w)).1.db
      → P (statement env m w).1.db
  unfolding statement
  statement-keeps P m w before after = ground arith

module _ (env : Env) {A : Type 0} where
  -- The same for a transaction whose body decides on its commit: where it does not commit, the
  -- tables are those of the start.
  pub transaction_if-keeps_ok {ℓ} :
      (P : Db → Type ℓ) (m : M (Bool × A)) (w : World)
      → P w.db
      → ((a : A) → (m (tock w)).0 ≡ ok (true, a) → P (m (tock w)).1.db)
      → P (transaction_if env m w).1.db
  unfolding transaction_if settle_if settle
  transaction_if-keeps_ok P m w before after = elim (Result-cases (m (tock w)).0) [
    | inl ((b, a), r) ↦ elim (Bool-cases b) [
      | inl commits ↦ let k = after a (r ∙ ap (λ c. ok (c, a)) commits) in ground arith
      | inr rolls ↦ ground arith
    ]
    | inr (e, r) ↦ ground arith
  ]

-- A sequence that reports a value has run both of its parts.
pub >>=-ok :
    {A B : Type 0} (m : M A) (f : A → M B) (w : World) {b : B}
    → ((m >>= f) w).0 ≡ ok b
    → (a : A) × (v : World) × (m w ≡ (ok a, v)) × ((m >>= f) w ≡ f a v)
>>=-ok m f w e = elim (Result-cases (m w).0) [
  | inl (a, r) ↦ (a, (m w).1, ground arith, ground arith)
  | inr (x, r) ↦ absurd (ground arith)
]

pub map_err-ok :
    {A : Type 0} (g : Error → Error) (m : M A) (w v : World) {a : A}
    → map_err g m w ≡ (ok a, v)
    → m w ≡ (ok a, v)
map_err-ok g m w v e = elim (Result-cases (m w).0) [
  | inl (a, r) ↦ ground arith
  | inr (x, r) ↦ absurd (ground arith)
]
