-- ===== src/Errors/Chain.antt =====
-- Chains of checks: `if err != nil { return ..., err }` between values, without the database.
use youthpreneur_be.Base.{◌≡◌, refl, ap, arith, Option, none, some, inl, inr}
use mathlib.Core.Path.{subst}
use youthpreneur_be.Errors.{Result, ok, err, Result-cases}

infixl 5 ◌>>=◌
abbrev pub ◌>>=◌ : {A B : Type 0} → Result A → (A → Result B) → Result B
ok a >>= f = f a
err e >>= f = err e

-- A check of an optional field: a nil pointer stays nil.
unfoldable pub given : {A B : Type 0} → (A → Result B) → Option A → Result (Option B)
given check none = ok none
given check (some a) = check a >>= λ b. ok (some b)

abbrev pub ok_or {ℓ} : {A : Type ℓ} → A → Result A → A
ok_or d (ok a) = a
ok_or d (err e) = d

pub ok-injective : {A : Type 0} (a b : A) → ok a ≡ ok b → a ≡ b
ok-injective a b h = ap (λ r. ok_or a r) h

-- Every value that a chain may end in satisfies `P`.
pub record Yields {A : Type 0} (P : A → Type 0) (r : Result A) : Type 0 where
  pub at : (a : A) → r ≡ ok a → P a

pub Yields-ok : {A : Type 0} {P : A → Type 0} (a : A) → P a → Yields P (ok a)
Yields-ok {P = P} a p = record { at = λ b h. subst P (ok-injective a b h) p }

pub Yields-bind :
    {A B : Type 0} {P : B → Type 0} (m : Result A) (f : A → Result B)
    → ((a : A) → m ≡ ok a → Yields P (f a))
    → Yields P (m >>= f)
Yields-bind (ok a) f k = k a refl
Yields-bind (err e) f k = record { at = λ b h. absurd (ground arith) }

-- A field that is given has passed its check.
pub given-ok :
    {A B : Type 0} (check : A → Result B) (o : Option A) {b : B}
    → given check o ≡ ok (some b)
    → (a : A) × (o ≡ some a) × (check a ≡ ok b)
unfolding given
given-ok check none h = absurd (ground arith)
given-ok check (some a) {b} h = elim (Result-cases (check a)) [
  | inl (c, passed) ↦ (a, refl, ground arith)
  | inr (x, failed) ↦ absurd (ground arith)
]
